-- ===== src/Catalog.antt =====
-- meta/datatable.cc, meta/database.cc and meta/dbms.cc: the tables and databases in memory, with
-- their copies in the store. A `DataBase` is on the heap, since `cur_db_` and `dbs_` share it; a
-- `DataTable` does not change once it is built. A null pointer that is followed, an index out of
-- range and an exception that nothing catches are `none`.
pub mod Tables
pub mod Recovery
pub mod Restart
use uhp_sql.Common.{
  ℕ, zero, suc, ◌+◌, ◌-◌, ◌%◌, ◌^◌, Bool, true, false, Option, none, some, List, [], ◌∷◌, ◌++◌, map,
  ◌==◌, if◌then◌else◌, Bytes, codes, ◌>>=◌, length, get_elem?, set,
}
use uhp_sql.Common.Maps.{find_key, assign, insert_new}
use uhp_sql.ProtocolBuffer.{u8}
use uhp_sql.FieldType.{at_key}
use uhp_sql.StringUtils.{string_split}
use uhp_sql.Meta.{DataType, varchar, TableColumn, describe, get_col_from_str}
use uhp_sql.Store.{Redis, default_count, command_set, command_scan}

pub record DataTable : Type 0 where
  pub table_name : Bytes
  pub cols : List TableColumn
  pub col_type : List (Bytes × DataType)
  pub col_index : List (Bytes × ℕ)
  pub index_col : List (ℕ × Bytes)

-- A round of the constructor's loop. `std::move` copies a column, since a class with a declared
-- destructor has no move constructor; `index_col_` has no entry for `i` yet.
abbrev pub add_col : DataTable → ℕ → TableColumn → DataTable
add_col t i c = record t {
  cols = t.cols ++ c ∷ [];
  col_type = assign c.col_name c.col_type t.col_type;
  col_index = assign c.col_name i t.col_index;
  index_col = t.index_col ++ (i, c.col_name) ∷ [];
}

-- The loop of the constructor from index `i` on.
unfoldable pub add_cols : DataTable → ℕ → List TableColumn → DataTable
add_cols t i [] = t
add_cols t i (c ∷ cols) = add_cols (add_col t i c) (i + 1) cols

unfoldable pub new_table : Bytes → List TableColumn → DataTable
new_table table_name cols =
    add_cols
      (record { table_name = table_name; cols = []; col_type = []; col_index = []; index_col = [] })
      0 cols

-- `GetColIndex` as the `uint64_t` that its callers make of it: -1 for a missing column wraps.
pub get_col_index : DataTable → Bytes → ℕ
get_col_index t col_name = elim (find_key col_name t.col_index) [ some i ↦ i | none ↦ 2 ^ 64 - 1 ]

pub get_col_type : DataTable → Bytes → DataType
get_col_type t col_name = elim (find_key col_name t.col_type) [ some d ↦ d | none ↦ varchar ]

unfoldable pub get_col_count : DataTable → ℕ
get_col_count t = u8 (length t.cols)

-- `GetIndexColMap()[i]`: the map is a copy, so an entry that the subscript adds is lost again.
unfoldable pub index_col_at : DataTable → ℕ → Bytes
index_col_at t i = at_key [] i t.index_col

-- `table_count_` is an `int` by its bit pattern.
pub record DataBase : Type 0 where
  pub table_count : ℕ
  pub db_name : Bytes
  pub tables : List (Bytes × DataTable)

unfoldable pub empty_db : Bytes → DataBase
empty_db db_name = record { table_count = 0; db_name = db_name; tables = [] }

-- `tables_.insert` with the count.
abbrev pub add_table : DataBase → Bytes → List TableColumn → DataBase
add_table b table_name cols = record b {
  tables = insert_new table_name (new_table table_name cols) b.tables;
  table_count = (b.table_count + 1) % 2 ^ 32;
}

abbrev pub table_key : DataBase → Bytes → Bytes
table_key b table_name = codes "table_" ++ (b.db_name ++ (codes "_" ++ table_name))

unfoldable pub get_table : DataBase → Bytes → Option DataTable
get_table b table_name = find_key table_name b.tables

-- The last of the strings that `StringSplit` gives.
abbrev pub last_of : List Bytes → Option Bytes
last_of [] = none
last_of (x ∷ []) = some x
last_of (x ∷ y ∷ xs) = last_of (y ∷ xs)

-- The loop of `DataBase::RecoverFromPmemKV` over the elements of the reply.
pub recover_tables : DataBase → List Bytes → Option DataBase
recover_tables b [] = some b
recover_tables b (key ∷ []) = none
recover_tables b (key ∷ table ∷ elements) = do
  cols ← get_col_from_str table
  table_name ← last_of (string_split key (codes "_"))
  recover_tables (add_table b table_name cols) elements

recover_reply : DataBase → Option (List Bytes) → Option DataBase
recover_reply b none = some b
recover_reply b (some elements) = recover_tables b elements

pub record Dbms : Type 0 where
  pub heap : List DataBase
  pub dbs : List (Bytes × ℕ)
  pub cur_db : Option ℕ

unfoldable pub get_cur_db : Dbms → Option DataBase
get_cur_db d = d.cur_db >>= λ at. get_elem? d.heap at

-- `new` and `insert` of a database.
abbrev add_db : Dbms → Bytes → DataBase → Dbms
add_db d db_name b = record d {
  heap = d.heap ++ b ∷ [];
  dbs = insert_new db_name (length d.heap) d.dbs;
}

-- Whether there is such a database, and the state afterwards.
pub switch_db : Dbms → Bytes → Bool × Dbms
switch_db d db_name = elim (find_key db_name d.dbs) [
  | some at ↦ (true, record d { cur_db = some at })
  | none ↦ (false, d)
]

-- `OpenDataBase` differs from `SwitchDB` in what it prints only.
abbrev pub open_data_base : Dbms → Bytes → Bool × Dbms
open_data_base d db_name = switch_db d db_name

-- `none` where no database is current, which is a null pointer.
unfoldable pub has_table : Dbms → Bytes → Option Bool
has_table d tab_name =
    get_cur_db d >>= λ b. some (elim (get_table b tab_name) [ some t ↦ true | none ↦ false ])

-- `GetCurDB()->GetTable(tab)` as it is followed by the executor.
unfoldable pub cur_table : Dbms → Bytes → Option DataTable
cur_table d tab_name = get_cur_db d >>= λ b. get_table b tab_name

pub show_data_bases : Dbms → List Bytes
show_data_bases d = map (λ e. e.0) d.dbs

module _ (R : Redis) where
  unfoldable pub create_table : DataBase → R.Store → Bytes → List TableColumn → DataBase × R.Store
  create_table b s table_name cols =
      (add_table b table_name cols, command_set R s (table_key b table_name) (describe cols))

  -- The table stays in `tables_`, and its key gets the empty string.
  unfoldable pub drop_table : DataBase → R.Store → Bytes → DataBase × R.Store
  drop_table b s table_name = (
    record b { table_count = (b.table_count + (2 ^ 32 - 1)) % 2 ^ 32 },
    command_set R s (table_key b table_name) [],
  )

  -- `DataBase::RecoverFromPmemKV`.
  pub recover_db : DataBase → R.Store → Option DataBase
  recover_db b s =
      recover_reply b (command_scan R s (codes "table_" ++ (b.db_name ++ codes "_*")) default_count)

  pub create_data_base : Dbms → R.Store → Bytes → Dbms × R.Store
  create_data_base d s db_name =
      (add_db d db_name (empty_db db_name), command_set R s (codes "database_" ++ db_name) db_name)

  -- The key that is emptied is the name itself, and the database stays in `dbs_`.
  pub drop_data_base : Dbms → R.Store → Bytes → Dbms × R.Store
  drop_data_base d s db_name = elim (find_key db_name d.dbs) [
    | some at ↦ (d, command_set R s db_name [])
    | none ↦ (d, s)
  ]

  -- The loop of `DBMS::RecoverFromPmemKV`.
  recover_dbs : Dbms → R.Store → List Bytes → Option Dbms
  recover_dbs d s [] = some d
  recover_dbs d s (key ∷ []) = none
  recover_dbs d s (key ∷ db_name ∷ elements) = do
    b ← recover_db (empty_db db_name) s
    recover_dbs (record (add_db d db_name b) { cur_db = some (length d.heap) }) s elements

  -- `DBMS::RecoverFromPmemKV`; with no database in the store it makes the default one.
  pub recover : Dbms → R.Store → Option (Dbms × R.Store)
  recover d s = elim (command_scan R s (codes "database_*") default_count) [
    | none ↦ some (d, s)
    | some [] ↦
        let (made, s') = create_data_base d s (codes "default") in
        some ((switch_db made (codes "default")).1, s')
    | some (key ∷ elements) ↦ recover_dbs d s (key ∷ elements) >>= λ d'. some (d', s)
  ]

  -- `new DBMS()`.
  pub new_dbms : R.Store → Option (Dbms × R.Store)
  new_dbms s = recover (record { heap = []; dbs = []; cur_db = none }) s

  -- `GetCurDB()->CreateTable`, which changes the database on the heap.
  unfoldable pub create_table_in_cur :
      Dbms → R.Store → Bytes → List TableColumn → Option (Dbms × R.Store)
  create_table_in_cur d s table_name cols = do
    at ← d.cur_db
    b ← get_elem? d.heap at
    let made = create_table b s table_name cols
    some (record d { heap = set d.heap at made.0 }, made.1)
