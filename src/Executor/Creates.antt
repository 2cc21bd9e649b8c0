-- ===== src/Executor/Creates.antt =====
-- CREATE TABLE makes a table that the other statements can use.
use uhp_sql.Common.{
  ℕ, zero, suc, ◌+◌, ◌≤◌, ◌≡◌, refl, sym, ap, ◌∙◌, false, Option, none, some, List, [], ◌∷◌, ◌++◌,
  map, arith, Bytes, bytes_eq, bytes_eq_refl, ◌>>=◌, length, get_elem?, set,
}
use uhp_sql.Common.Maps.{find_key-insert_new}
use uhp_sql.UnboundedBuffer.{max_buffer_size}
use uhp_sql.AsyncBuffer.Write.{IsValid, contents}
use uhp_sql.Packet.Ok
use uhp_sql.Reply.Frame.{frame, send_ok_message-Sends}
use uhp_sql.Meta.{DataType, TableColumn, new_column, describe}
use uhp_sql.Store.{
  Redis, NoNul, c_str, command_get, command_set, command_get-command_set_same,
  command_get-command_set_ne,
}
use uhp_sql.Catalog.{
  DataTable, DataBase, Dbms, add_table, table_key, new_table, get_cur_db, get_table, create_table,
  create_table_in_cur,
}
use uhp_sql.Catalog.Tables.{IsDistinct, new_table-Answers}
use uhp_sql.Statement.{CreateStatement, create}
use uhp_sql.Executor.Analyze.{Stack, analyze_create}
use uhp_sql.Executor.Rows.{data_key}
use uhp_sql.Executor.Exec.{Server, exec_statement, exec_create, succeed}
use uhp_sql.Executor.Table.{Contents, InUse, Keeps}

get_elem?-set :
    {A : Type 0} (xs : List A) (i : ℕ) (x y : A)
    → get_elem? xs i ≡ some x
    → get_elem? (set xs i y) i ≡ some y
get_elem?-set [] i x y h = cc
get_elem?-set (z ∷ xs) zero x y h = refl
get_elem?-set (z ∷ xs) (suc i) x y h = get_elem?-set xs i x y h

get_table-add_table :
    (b : DataBase) (tab : Bytes) (cols : List TableColumn)
    → get_table b tab ≡ none
    → get_table (add_table b tab cols) tab ≡ some (new_table tab cols)
unfolding get_table
get_table-add_table b tab cols h =
    rw (find_key-insert_new tab tab (new_table tab cols) b.tables h, bytes_eq_refl tab) refl

cols_of : Option DataTable → List TableColumn
cols_of none = []
cols_of (some t) = t.cols

-- The table that is found has the columns it was made with.
known_cols :
    (b : DataBase) (tab : Bytes) (cols : List TableColumn) (t : DataTable)
    → get_table b tab ≡ none
    → IsDistinct cols
    → get_table (add_table b tab cols) tab ≡ some t
    → t.cols ≡ cols
unfolding cols_of
known_cols b tab cols t h distinct known =
    ap cols_of (sym known ∙ get_table-add_table b tab cols h)
    ∙ (new_table-Answers tab cols distinct).1

-- The databases with the new table in the one that is current.
abbrev with_table : Dbms → ℕ → DataBase → Bytes → List TableColumn → Dbms
with_table d at b tab cols = record d { heap = set d.heap at (add_table b tab cols) }

with_table-InUse :
    (d : Dbms) (at : ℕ) (b : DataBase) (tab : Bytes) (cols : List TableColumn)
    → d.cur_db ≡ some at
    → get_elem? d.heap at ≡ some b
    → get_table b tab ≡ none
    → IsDistinct cols
    → NoNul b.db_name
    → NoNul tab
    → InUse (with_table d at b tab cols) (add_table b tab cols) tab cols
unfolding get_cur_db
with_table-InUse d at b tab cols hc hb ht distinct hn hm = record {
  table = new_table tab cols;
  current = rw hc (get_elem?-set d.heap at b (add_table b tab cols) hb);
  known = get_table-add_table b tab cols ht;
  answers = (new_table-Answers tab cols distinct).0;
  db_text = hn;
  tab_text = hm;
}

create_table_in_cur-found :
    (R : Redis) (d : Dbms) (s : R.Store) (at : ℕ) (b : DataBase) (tab : Bytes)
    (cols : List TableColumn)
    → d.cur_db ≡ some at
    → get_elem? d.heap at ≡ some b
    → create_table_in_cur R d s tab cols
      ≡ some (with_table d at b tab cols, command_set R s (table_key b tab) (describe cols))
unfolding create_table_in_cur create_table
create_table_in_cur-found R d s at b tab cols hc hb =
    ap
      (λ o. o >>= λ i. get_elem? d.heap i >>= λ x. some (
        record d { heap = set d.heap i (add_table x tab cols) },
        command_set R s (table_key x tab) (describe cols),
      ))
      hc
    ∙ ap
        (λ o. o >>= λ x. some (
          record d { heap = set d.heap at (add_table x tab cols) },
          command_set R s (table_key x tab) (describe cols),
        ))
        hb

-- The description of a table is kept apart from the rows.
other_key :
    (b : DataBase) (tab name key : Bytes)
    → bytes_eq (c_str (table_key b name)) (c_str (data_key b tab key)) ≡ false
unfolding c_str
other_key b tab name key = refl

-- What a CREATE TABLE leaves behind: a table in use that has the columns and keeps the rows `m`, its description, as a C
-- string, under the key of the table in the store, and the reply sent.
pub record Created (R : Redis) (v : Server R) (b : DataBase) (tab : Bytes) (cols : List TableColumn)
    (m : Contents) (reply : Bytes) (r : Option (Server R)) : Type 0 where
  pub after : Server R
  pub returns : r ≡ some after
  pub in_use : InUse after.dbms (add_table b tab cols) tab cols
  pub listed : in_use.table.cols ≡ cols
  pub keeps : Keeps R after.dbms (add_table b tab cols) tab cols after.store m
  pub described : command_get R after.store (table_key b tab) ≡ some (c_str (describe cols))
  pub valid : IsValid after.socket
  pub adds : contents after.socket ≡ contents v.socket ++ reply

-- In the current database a CREATE TABLE of a table that is not there yet, with columns of
-- different names and names of the database and the table without zero bytes, makes the table one
-- that is in use, and puts its description under its key in the store. It then holds the rows `m`
-- that the store has under its keys already. The client is sent an OK packet for one row, where a valid send buffer has room for 27 bytes.
pub exec_statement-Created :
    (R : Redis) (v : Server R) (at : ℕ) (b : DataBase) (stmt : CreateStatement)
    (columns : List (Bytes × DataType)) (m : Contents) (stack : Stack) (seq : ℕ)
    → v.dbms.cur_db ≡ some at
    → get_elem? v.dbms.heap at ≡ some b
    → stmt.columns ≡ some columns
    → get_table b stmt.table_name ≡ none
    → IsDistinct (map (λ c. new_column c.0 c.1) columns)
    → NoNul b.db_name
    → NoNul stmt.table_name
    → Keeps R v.dbms b stmt.table_name (map (λ c. new_column c.0 c.1) columns) v.store m
    → IsValid v.socket
    → 27 + length (contents v.socket) ≤ max_buffer_size
    → Created R v b stmt.table_name
        (map (λ c. new_column c.0 c.1) columns)
        m
        (frame (Ok.pack 1 0 2 0) seq)
        (exec_statement R stack v seq (create stmt))
unfolding exec_statement analyze_create exec_create succeed
exec_statement-Created R v at b stmt columns m stack seq hc hb hs ht distinct hn hm k ok room =
    let cols = map (λ c. new_column c.0 c.1) columns in
    let in_use = with_table-InUse v.dbms at b stmt.table_name cols hc hb ht distinct hn hm in
    let sent = send_ok_message-Sends v.socket seq 1 0 2 0 ok (omega arith) (omega arith) room in
    let store = command_set R v.store (table_key b stmt.table_name) (describe cols) in
    let made = create_table_in_cur-found R v.dbms v.store at b stmt.table_name cols hc hb in
    rw (hs, made, sent.returns)
      (record {
        after = record v {
          dbms = with_table v.dbms at b stmt.table_name cols;
          store = store;
          socket = sent.after;
        };
        returns = refl;
        in_use = in_use;
        listed = known_cols b stmt.table_name cols _ ht distinct in_use.known;
        keeps = record {
          at_keys = λ key h.
              command_get-command_set_ne R v.store (table_key b stmt.table_name) (describe cols)
                (data_key b stmt.table_name key) (other_key b stmt.table_name stmt.table_name key)
              ∙ k.at_keys key h;
          stored = k.stored;
        };
        described =
            command_get-command_set_same R v.store (table_key b stmt.table_name) (describe cols);
        valid = sent.valid;
        adds = sent.adds;
      })
