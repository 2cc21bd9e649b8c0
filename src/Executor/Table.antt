-- ===== src/Executor/Table.antt =====
-- A table as a client sees it: a map from keys to rows, which the statements of executor/ change.
pub mod Refines
use uhp_sql.Common.{
  ℕ, ◌≡◌, ◌≢◌, false, ◌&&◌, Option, none, some, List, [], ◌∷◌, if◌then◌else◌, Bytes, codes,
  bytes_eq, ◌>>=◌, length, get_elem?, set, All,
}
use uhp_sql.StringUtils.{strings_join}
use uhp_sql.StringUtils.RoundTrip.{IsClean, IsRow}
use uhp_sql.Meta.{TableColumn}
use uhp_sql.Store.{Redis, NoNul, command_get}
use uhp_sql.Catalog.{DataTable, DataBase, Dbms, get_cur_db, get_table}
use uhp_sql.Catalog.Tables.{Answers}
use uhp_sql.Statement.{equals}
use uhp_sql.Executor.Analyze.{SelectQuery}
use uhp_sql.Executor.Rows.{Row, data_key, insert_row, delete_rows, update_row}
use uhp_sql.Executor.Cells.{labelled, typed}

-- A row that is read again as it was stored: as long as the table, no zero bytes, no `$`, no blanks
-- at the ends of a value, and a last value that is not empty.
abbrev pub IsStored : List TableColumn → List Bytes → Type 0
IsStored cols vals = IsRow b'$' vals × All NoNul vals × (length vals ≡ length cols)

-- The rows of a table by the value of the column that an INSERT names first.
abbrev pub Contents : Type 0
Contents = Bytes → Option (List Bytes)

abbrev pub put : Contents → Bytes → Option (List Bytes) → Contents
put m key row j = if bytes_eq key j then row else m j

-- An INSERT of values in the table's order, an UPDATE of a column, which stands at an index, and a
-- DELETE; the last two with the field and the value of their condition.
pub data Change : Type 0 where
  inserting : Bytes → List Bytes → Change
  updating : TableColumn → ℕ → Bytes → Bytes → Change
  deleting : Bytes → Bytes → Change

-- An UPDATE of the row that is there, if any.
abbrev pub change_row : Contents → ℕ → Bytes → Bytes → Option (List Bytes) → ℕ × Contents
change_row m i value key none = (0, m)
change_row m i value key (some vals) = (1, put m key (some (set vals i value)))

-- The rows affected, and the table afterwards. A DELETE always counts one row, and an UPDATE of the
-- first column leaves the row under its key.
abbrev pub apply : Contents → Change → ℕ × Contents
apply m (inserting v vals) = (1, put m v (some (v ∷ vals)))
apply m (updating c i value key) = change_row m i value key (m key)
apply m (deleting field key) = (1, put m key none)

abbrev pub apply_all : Contents → List Change → List ℕ × Contents
apply_all m [] = ([], m)
apply_all m (c ∷ cs) =
    let (affected, m') = apply m c in let (rest, m'') = apply_all m' cs in (affected ∷ rest, m'')

abbrev pub Legal : List TableColumn → Change → Type 0
Legal cols (inserting v vals) = IsStored cols (v ∷ vals)
Legal cols (updating c i value key) =
    (get_elem? cols i ≡ some c) × IsClean b'$' value × (value ≢ []) × NoNul value × NoNul key
Legal cols (deleting field key) =
    NoNul key × (bytes_eq field (codes "1") && bytes_eq key (codes "1") ≡ false)

-- The current database, and a table of it whose columns are known.
pub record InUse (d : Dbms) (b : DataBase) (tab : Bytes) (cols : List TableColumn) : Type 0 where
  pub table : DataTable
  pub current : get_cur_db d ≡ some b
  pub known : get_table b tab ≡ some table
  pub answers : Answers table 0 cols
  pub db_text : NoNul b.db_name
  pub tab_text : NoNul tab

module _ (R : Redis) (d : Dbms) (b : DataBase) (tab : Bytes) (cols : List TableColumn) where
  -- The store keeps the rows, joined, under their keys.
  pub record Keeps (s : R.Store) (m : Contents) : Type 0 where
    pub at_keys :
        (key : Bytes)
        → NoNul key
        → command_get R s (data_key b tab key)
          ≡ (m key >>= λ vals. some (strings_join vals (codes "$$")))
    pub stored : (key : Bytes) (vals : List Bytes) → m key ≡ some vals → IsStored cols vals

  abbrev pub change : R.Store → Change → Option (ℕ × R.Store)
  change s (inserting v vals) = insert_row R d s tab (labelled cols (v ∷ vals))
  change s (updating c i value key) = update_row R d s tab c.col_name value key
  change s (deleting field key) = delete_rows R d s tab (equals, field, key)

  abbrev pub carry_out : R.Store → List Change → Option (List ℕ × R.Store)
  carry_out s [] = some ([], s)
  carry_out s (c ∷ cs) =
      change s c >>= λ r. carry_out r.1 cs >>= λ rest. some (r.0 ∷ rest.0, rest.1)

abbrev pub found : List TableColumn → Option (List Bytes) → List Row
found cols none = []
found cols (some vals) = typed cols vals ∷ []

-- A SELECT of a key.
abbrev pub by_key : Bytes → Bytes → Bytes → ℕ → SelectQuery
by_key tab field key limit = record {
  op_type = equals;
  query_tab = tab;
  query_field = field;
  query_value = key;
  limit = limit;
  scan_all = false;
}
