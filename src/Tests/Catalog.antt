-- ===== src/Tests/Catalog.antt =====
-- Tables and databases that are created and recovered.
use uhp_sql.Common.{
  ◌≡◌, ◌≢◌, refl, none, some, List, [], ◌∷◌, ◌++◌, Bytes, codes, All, true, inl, inr, Bool-cases,
  ◌==◌, arith,
}
use uhp_sql.Meta.{describe, to_string, decimal_digits, data_type_to_int}
use uhp_sql.Meta.Describe.{IsPlain, IsTable}
use uhp_sql.StringUtils.{is_blank, trim_left, trim_right, is_nil}
use uhp_sql.StringUtils.RoundTrip.{IsClean}
use uhp_sql.Store.{default_count, command_scan, command_get, command_set, c_str}
use uhp_sql.Catalog.{DataBase, create_table, drop_table, empty_db, table_key, recover_db, new_table}
use uhp_sql.Catalog.Tables.{Answers, new_table-Answers}
use uhp_sql.Catalog.Recovery.{Definition, create_tables, IsRecoverable}
use uhp_sql.Catalog.Restart.{
  listed, pattern, keys_of, IsStorable, recover_db-create_tables, recover_db-drop_table,
}
use uhp_sql.Tests.Servers.{
  toy, no_byte, no_byte-All, name_column, columns, columns-IsDistinct, people,
}

new_table-Answers_example :
    Answers (new_table people columns) 0 columns × ((new_table people columns).cols ≡ columns)
new_table-Answers_example = new_table-Answers people columns columns-IsDistinct

abbrev tables : List Definition
tables = (people, columns) ∷ (codes "pet", name_column ∷ []) ∷ []

IsClean-name :
    (s : Bytes) → trim_left s ≡ s → trim_right s ≡ s → All (λ c. c ≢ b'_') s → IsClean b'_' s
IsClean-name s l r a = record { left = l; right = r; apart = a }

default-IsClean : IsClean b'_' (codes "default")
unfolding is_blank trim_left trim_right is_nil
default-IsClean = IsClean-name (codes "default") refl refl (no_byte-All b'_' (codes "default") refl)

plain : (s : Bytes) → no_byte b'^' s ≡ true → no_byte b'$' s ≡ true → IsPlain s
plain [] h k = tt
plain (c ∷ s) h k = elim (Bool-cases (c == b'^')) [
  | inl e ↦ absurd (cc (rw e at h))
  | inr ne ↦ elim (Bool-cases (c == b'$')) [
    | inl e ↦ absurd (cc (rw e at k))
    | inr ne' ↦ (
      (λ e. absurd (ground arith), λ e. absurd (ground arith)),
      plain s (rw ne at h) (rw ne' at k),
    )
  ]
]

columns-IsTable : IsTable columns
columns-IsTable =
    ((plain (codes "id") refl refl, refl), ((plain (codes "name") refl refl, refl), tt))

some_columns : columns ≢ []
some_columns e = cc

one_column : name_column ∷ [] ≢ []
one_column e = cc

people_ne : people ≢ []
people_ne e = cc

pet_ne : codes "pet" ≢ []
pet_ne e = cc

tables-IsRecoverable : All IsRecoverable tables
unfolding is_blank trim_left trim_right is_nil
tables-IsRecoverable = (
  (
    IsClean-name people refl refl (no_byte-All b'_' people refl),
    people_ne,
    some_columns,
    columns-IsTable,
  ),
  (
    (
      IsClean-name (codes "pet") refl refl (no_byte-All b'_' (codes "pet") refl),
      pet_ne,
      one_column,
      ((plain (codes "name") refl refl, refl), tt),
    ),
    tt,
  ),
)

abbrev named : DataBase
named = empty_db (codes "default")

-- The store behind the two CREATE TABLEs.
abbrev kept : List (Bytes × Bytes)
kept = (create_tables toy named [] tables).1

tables-IsStorable : IsStorable tables
unfolding describe to_string decimal_digits data_type_to_int
tables-IsStorable = (
  no_byte-All 0 people refl,
  no_byte-All 0 (describe columns) refl,
  (refl, tt),
  (no_byte-All 0 (codes "pet") refl, no_byte-All 0 (describe (name_column ∷ [])) refl, tt, tt),
)

scan-kept :
    command_scan toy kept (pattern (codes "default")) default_count
    ≡ some (listed toy kept (keys_of named tables))
unfolding command_scan command_get command_set create_table c_str empty_db describe to_string
    decimal_digits data_type_to_int
scan-kept = refl

recover_db-create_tables_example :
    recover_db toy named kept ≡ some (create_tables toy named [] tables).0
recover_db-create_tables_example =
    recover_db-create_tables toy [] (codes "default") tables (no_byte-All 0 (codes "default") refl)
      default-IsClean tables-IsRecoverable tables-IsStorable scan-kept

-- DROP TABLE of the first of them.
abbrev dropped : List (Bytes × Bytes)
dropped = (drop_table toy named kept people).1

scan-dropped :
    command_scan toy dropped (pattern (codes "default")) default_count
    ≡ some (listed toy dropped ([] ++ table_key named people ∷ table_key named (codes "pet") ∷ []))
unfolding command_scan command_get command_set create_table drop_table c_str empty_db describe
    to_string decimal_digits data_type_to_int
scan-dropped = refl

recover_db-drop_table_example : recover_db toy (empty_db (codes "default")) dropped ≡ none
unfolding empty_db
recover_db-drop_table_example =
    recover_db-drop_table toy named kept people [] (table_key named (codes "pet") ∷ []) scan-dropped
