-- ===== src/Catalog/Recovery.antt =====
-- The tables of a database after a restart.
use uhp_sql.Common.{
  ◌≡◌, ◌≢◌, refl, ap, ◌∙◌, some, List, [], ◌∷◌, append-nil, arith, Bytes, codes, All,
}
use uhp_sql.StringUtils.{is_blank, trim_left, trim_right, string_split, strings_join, join_from}
use uhp_sql.StringUtils.RoundTrip.{IsClean, string_split-strings_join}
use uhp_sql.Meta.{TableColumn, describe, get_col_from_str}
use uhp_sql.Meta.Describe.{IsTable, get_col_from_str-describe}
use uhp_sql.Store.{Redis}
use uhp_sql.Catalog.{DataBase, add_table, table_key, last_of, recover_tables, create_table}

-- A table as CREATE TABLE gets it: its name and its columns.
abbrev pub Definition : Type 0
Definition = Bytes × List TableColumn

-- The calls of `CreateTable` one after the other.
abbrev pub create_tables : (R : Redis) → DataBase → R.Store → List Definition → DataBase × R.Store
create_tables R b s [] = (b, s)
create_tables R b s ((name, cols) ∷ ts) =
    let (b', s') = create_table R b s name cols in create_tables R b' s' ts

-- The elements of a reply that lists the keys and the descriptions of the tables.
abbrev pub described : DataBase → List Definition → List Bytes
described b [] = []
described b ((name, cols) ∷ ts) = table_key b name ∷ describe cols ∷ described b ts

-- A table that can be recovered: a name without an underscore, not empty, with no blanks at its
-- ends, and columns, at least one, whose names have no `^` and no `$`.
abbrev pub IsRecoverable : Definition → Type 0
IsRecoverable (name, cols) = IsClean b'_' name × (name ≢ []) × (cols ≢ []) × IsTable cols

get_col_from_str-describe_ne :
    (cols : List TableColumn)
    → cols ≢ []
    → IsTable cols
    → get_col_from_str (describe cols) ≡ some cols
get_col_from_str-describe_ne [] ne h = absurd (ne refl)
get_col_from_str-describe_ne (c ∷ cols) ne h = get_col_from_str-describe c cols h

IsClean-table : IsClean b'_' (codes "table")
unfolding trim_left trim_right is_blank
IsClean-table = record { left = refl; right = refl; apart = apart }
  where
    apart : All (λ c. c ≢ b'_') (codes "table")
    apart = (
      λ e. omega arith,
      (λ e. omega arith, (λ e. omega arith, (λ e. omega arith, (λ e. omega arith, tt)))),
    )

table_key-strings_join :
    (b : DataBase) (name : Bytes)
    → table_key b name ≡ strings_join (codes "table" ∷ b.db_name ∷ name ∷ []) (codes "_")
unfolding strings_join join_from
table_key-strings_join b name = rw (append-nil name) refl

-- The name behind the last underscore of a key.
last_of-table_key :
    (b : DataBase) (name : Bytes)
    → IsClean b'_' b.db_name
    → IsClean b'_' name
    → name ≢ []
    → last_of (string_split (table_key b name) (codes "_")) ≡ some name
unfolding is_blank
last_of-table_key b name hb hn ne =
    ap (λ k. last_of (string_split k (codes "_"))) (table_key-strings_join b name)
    ∙ ap last_of (
        string_split-strings_join b'_' [] (codes "table" ∷ b.db_name ∷ name ∷ []) refl
          (IsClean-table, (hb, (hn, ne))))

-- The loop of the recovery over what CREATE TABLE stored.
pub recover_tables-described :
    (R : Redis) (b : DataBase) (s : R.Store) (ts : List Definition)
    → IsClean b'_' b.db_name
    → All IsRecoverable ts
    → recover_tables b (described b ts) ≡ some (create_tables R b s ts).0
unfolding recover_tables create_table
recover_tables-described R b s [] hb h = refl
recover_tables-described R b s ((name, cols) ∷ ts) hb ((hn, ne, some_cols, hc), h) =
    rw (get_col_from_str-describe_ne cols some_cols hc, last_of-table_key b name hb hn ne)
      (recover_tables-described R (add_table b name cols) (create_table R b s name cols).1 ts hb h)
