-- ===== src/Catalog/Restart.antt =====
-- A database behind a restart: what CREATE TABLE and DROP TABLE left in the store is read back.
use uhp_sql.Common.{
  ◌≡◌, refl, ap, ◌∙◌, false, Option, none, some, List, [], ◌∷◌, ◌++◌, map, Option-cases, inl, inr,
  Bytes, codes, bytes_eq, bytes_eq-append, All,
}
use uhp_sql.StringUtils.{string_split}
use uhp_sql.StringUtils.RoundTrip.{IsClean}
use uhp_sql.Meta.{describe, get_col_from_str}
use uhp_sql.Meta.Describe.{get_col_from_str-empty}
use uhp_sql.Store.{
  Redis, NoNul, NoNul-append, NoNul-text, c_str, c_str-NoNul, default_count, command_get,
  command_scan, command_get-command_set, command_get-command_set_same,
}
use uhp_sql.Catalog.{
  DataBase, empty_db, add_table, table_key, last_of, recover_tables, recover_reply, create_table,
  drop_table, recover_db,
}
use uhp_sql.Catalog.Recovery.{
  Definition, create_tables, described, IsRecoverable, recover_tables-described,
}

-- The elements of a reply of SCAN for a key: none where the store has no value for it.
abbrev pub element : Bytes → Option Bytes → List Bytes
element key none = []
element key (some value) = key ∷ value ∷ []

-- Those of a reply that lists the keys `keys` which are in the store, with the values there.
abbrev pub listed : (R : Redis) → R.Store → List Bytes → List Bytes
listed R s [] = []
listed R s (key ∷ keys) = element key (command_get R s key) ++ listed R s keys

-- The pattern that the recovery of a database scans for.
abbrev pub pattern : Bytes → Bytes
pattern db_name = codes "table_" ++ (db_name ++ codes "_*")

-- The keys of the tables.
abbrev pub keys_of : DataBase → List Definition → List Bytes
keys_of b ts = map (λ t. table_key b t.0) ts

-- No two tables have the same name, and neither the names nor the descriptions have zero bytes.
abbrev pub IsStorable : List Definition → Type 0
IsStorable [] = Unit
IsStorable ((name, cols) ∷ ts) =
    NoNul name × NoNul (describe cols) × All (λ t. bytes_eq t.0 name ≡ false) ts × IsStorable ts

NoNul-table_key :
    (b : DataBase) (name : Bytes) → NoNul b.db_name → NoNul name → NoNul (table_key b name)
NoNul-table_key b name hb hn =
    NoNul-append (codes "table_") _ (NoNul-text (codes "table_") refl)
      (NoNul-append b.db_name _ hb (NoNul-append (codes "_") name (NoNul-text (codes "_") refl) hn))

bytes_eq-table_key :
    (b : DataBase) (i j : Bytes) → bytes_eq (table_key b i) (table_key b j) ≡ bytes_eq i j
bytes_eq-table_key b i j =
    bytes_eq-append (codes "table_") (b.db_name ++ (codes "_" ++ i)) (b.db_name ++ (codes "_" ++ j))
    ∙ bytes_eq-append b.db_name (codes "_" ++ i) (codes "_" ++ j)
    ∙ bytes_eq-append (codes "_") i j

module _ (R : Redis) where
  -- The entry of a table that is made before others stays.
  get-create_tables :
      (b : DataBase) (s : R.Store) (ts : List Definition) (name : Bytes)
      → NoNul b.db_name
      → NoNul name
      → All (λ t. bytes_eq t.0 name ≡ false) ts
      → IsStorable ts
      → command_get R (create_tables R b s ts).1 (table_key b name)
        ≡ command_get R s (table_key b name)
  unfolding create_table
  get-create_tables b s [] name hb hn others h = refl
  get-create_tables b s ((other, cols) ∷ ts) name hb hn (ne, others) (ho, hd, _, h) =
      get-create_tables (add_table b other cols) (create_table R b s other cols).1 ts name hb hn
        others h
      ∙ command_get-command_set R s (table_key b other) (describe cols) (table_key b name)
          (NoNul-table_key b other hb ho) hd (NoNul-table_key b name hb hn)
      ∙ rw (bytes_eq-table_key b other name, ne) refl

  listed-create_tables :
      (b : DataBase) (s : R.Store) (ts : List Definition)
      → NoNul b.db_name
      → IsStorable ts
      → listed R (create_tables R b s ts).1 (keys_of b ts) ≡ described b ts
  unfolding create_table
  listed-create_tables b s [] hb h = refl
  listed-create_tables b s ((name, cols) ∷ ts) hb (hn, hd, others, h) =
      let s' = (create_table R b s name cols).1 in
      let kept : command_get R (create_tables R b s ((name, cols) ∷ ts)).1 (table_key b name)
          ≡ some (describe cols) =
        get-create_tables (add_table b name cols) s' ts name hb hn others h
        ∙ command_get-command_set_same R s (table_key b name) (describe cols)
        ∙ ap (λ t. some t) (c_str-NoNul (describe cols) hd) in
      rw (kept, listed-create_tables (add_table b name cols) s' ts hb h) refl

  -- A restart behind CREATE TABLEs on an empty database, where the SCAN of the store that they left
  -- lists what is there under the keys of these tables, in the order of the statements, gives the
  -- database that the statements built. The names of the database and of the tables have no
  -- underscore, no zero byte and no blanks at their ends; the tables' names are different and not
  -- empty, and each has at least one column and columns without `^`, `$`, zero bytes and values.
  pub recover_db-create_tables :
      (s : R.Store) (db_name : Bytes) (ts : List Definition)
      → NoNul db_name
      → IsClean b'_' db_name
      → All IsRecoverable ts
      → IsStorable ts
      → command_scan R (create_tables R (empty_db db_name) s ts).1 (pattern db_name) default_count
        ≡ some
            (listed R (create_tables R (empty_db db_name) s ts).1 (keys_of (empty_db db_name) ts))
      → recover_db R (empty_db db_name) (create_tables R (empty_db db_name) s ts).1
        ≡ some (create_tables R (empty_db db_name) s ts).0
  unfolding recover_db recover_reply empty_db
  recover_db-create_tables s db_name ts hn hb h stored reply =
      ap (recover_reply (empty_db db_name))
        (reply ∙ ap (λ t. some t) (listed-create_tables (empty_db db_name) s ts hn stored))
      ∙ recover_tables-described R (empty_db db_name) s ts hb h

  -- An entry without a description makes the recovery fail, whatever is listed before and behind it.
  listed-fails :
      (b : DataBase) (s : R.Store) (before : List Bytes) (key : Bytes) (behind : List Bytes)
      → command_get R s key ≡ some []
      → recover_tables b (listed R s (before ++ key ∷ behind)) ≡ none
  unfolding recover_tables
  listed-fails b s [] key behind empty = rw (empty, get_col_from_str-empty) refl
  listed-fails b s (k ∷ before) key behind empty = elim (Option-cases (command_get R s k)) [
    | inl missing ↦ rw missing (listed-fails b s before key behind empty)
    | inr (value, there) ↦ elim (Option-cases (get_col_from_str value)) [
      | inl fails ↦ rw (there, fails) refl
      | inr (cols, read) ↦ elim (Option-cases (last_of (string_split k (codes "_")))) [
        | inl fails ↦ rw (there, read, fails) refl
        | inr (name, found) ↦
            rw (there, read, found) (listed-fails (add_table b name cols) s before key behind empty)
      ]
    ]
  ]

  -- A database cannot be recovered behind a DROP TABLE: where the SCAN of the store that it left
  -- lists what is there under any keys, that of the dropped table among them, a restart
  -- fails, since the description of that table is empty.
  pub recover_db-drop_table :
      (b : DataBase) (s : R.Store) (name : Bytes) (before behind : List Bytes)
      → command_scan R (drop_table R b s name).1 (pattern b.db_name) default_count
        ≡ some (listed R (drop_table R b s name).1 (before ++ table_key b name ∷ behind))
      → recover_db R (empty_db b.db_name) (drop_table R b s name).1 ≡ none
  unfolding recover_db recover_reply empty_db drop_table c_str
  recover_db-drop_table b s name before behind reply =
      ap (recover_reply (empty_db b.db_name)) reply
      ∙ listed-fails (empty_db b.db_name) (drop_table R b s name).1 before (table_key b name) behind
          (command_get-command_set_same R s (table_key b name) [])
