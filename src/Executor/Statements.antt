-- ===== src/Executor/Statements.antt =====
-- Whole statements, from their analysis to the reply.
use uhp_sql.Common.{
  ℕ, ◌+◌, ◌≤◌, ◌≡◌, refl, true, Option, none, some, List, [], ◌∷◌, ◌++◌, map, arith, Bytes, length,
}
use uhp_sql.ProtocolBuffer.{u16}
use uhp_sql.UnboundedBuffer.{max_buffer_size}
use uhp_sql.AsyncBuffer.Write.{IsValid, contents}
use uhp_sql.Packet.Ok
use uhp_sql.Reply.Frame.{frame, send_ok_message-Sends}
use uhp_sql.Meta.{TableColumn}
use uhp_sql.Store.{Redis}
use uhp_sql.Catalog.{DataBase, Dbms, has_table}
use uhp_sql.Statement.{
  equals, Expr, literal_string, column_ref, operator, name_of, Statement, insert, delete, update,
}
use uhp_sql.Executor.Analyze.{
  Stack, analyze_insert, analyze_delete, analyze_update, col_values, pair_columns, condition,
  delete_where, first_update,
}
use uhp_sql.Executor.Cells.{labelled}
use uhp_sql.Executor.Exec.{Server, exec_statement, exec_insert, exec_delete, exec_update, succeed}
use uhp_sql.Executor.Table.{
  Contents, Change, inserting, updating, deleting, apply, change_row, Legal, InUse, Keeps,
}
use uhp_sql.Executor.Table.Refines.{Done, change-Done}

-- `field = 'key'`.
abbrev pub key_is : Bytes → Bytes → Expr
key_is field key = operator equals (column_ref field) (literal_string key)

-- The statement that asks for a change; the condition of an UPDATE names a field.
abbrev pub statement_of : Bytes → List TableColumn → Bytes → Change → Statement
statement_of tab cols field (inserting v vals) = insert (record {
  table_name = tab;
  columns = some (map (λ c. c.col_name) cols);
  values = some (map literal_string (v ∷ vals));
})
statement_of tab cols field (updating c i value key) = update (record {
  table_name = tab;
  updates = (c.col_name, literal_string value) ∷ [];
  where_clause = key_is field key;
})
statement_of tab cols field (deleting key_field key) =
    delete (record { table_name = tab; expr = key_is key_field key })

-- The warnings that the reply to a change counts.
abbrev pub warnings_of : Change → ℕ
warnings_of (inserting v vals) = 0
warnings_of (updating c i value key) = 1
warnings_of (deleting field key) = 1

pub has_table-InUse :
    (d : Dbms) (b : DataBase) (tab : Bytes) (cols : List TableColumn)
    → InUse d b tab cols
    → has_table d tab ≡ some true
unfolding has_table
has_table-InUse d b tab cols u = rw (u.current, u.known) refl

col_values-literals : (vals : List Bytes) → col_values (map literal_string vals) ≡ some vals
unfolding col_values
col_values-literals [] = refl
col_values-literals (v ∷ vals) = rw (col_values-literals vals) refl

pair_columns-labelled :
    (cols : List TableColumn) (vals : List Bytes)
    → length vals ≡ length cols
    → pair_columns (map (λ c. c.col_name) cols) vals ≡ some (labelled cols vals)
unfolding pair_columns
pair_columns-labelled [] vals h = refl
pair_columns-labelled (c ∷ cols) [] h = absurd (omega arith)
pair_columns-labelled (c ∷ cols) (v ∷ vals) h =
    rw (pair_columns-labelled cols vals (omega arith)) refl

-- A statement that the server carries out: the databases stay, the table holds `m`, and the client
-- is sent `reply`.
pub record Executed (R : Redis) (v : Server R) (b : DataBase) (tab : Bytes)
    (cols : List TableColumn) (m : Contents) (reply : Bytes) (r : Option (Server R)) : Type 0 where
  pub after : Server R
  pub returns : r ≡ some after
  pub same : after.dbms ≡ v.dbms
  pub keeps : Keeps R v.dbms b tab cols after.store m
  pub valid : IsValid after.socket
  pub adds : contents after.socket ≡ contents v.socket ++ reply

module _ (R : Redis) (v : Server R) (b : DataBase) (tab : Bytes) (cols : List TableColumn)
    (m : Contents) (u : InUse v.dbms b tab cols) (k : Keeps R v.dbms b tab cols v.store m)
    (ok : IsValid v.socket) (room : 27 + length (contents v.socket) ≤ max_buffer_size) where
  answered :
      (c : Change) (done : Done R v.dbms b tab cols u v.store m c) (seq affected warnings : ℕ)
      → affected ≤ 1
      → Executed R v b tab cols
          (apply m c).1
          (frame (Ok.pack affected 0 2 warnings) seq)
          (succeed R (record v { store = done.after }) seq affected warnings)
  unfolding succeed
  answered c done seq affected warnings h =
      let sent =
        send_ok_message-Sends v.socket seq affected 0 2 warnings ok (omega arith) (omega arith)
          room in
      rw sent.returns (record {
        after = record v { store = done.after; socket = sent.after };
        returns = refl;
        same = refl;
        keeps = done.keeps;
        valid = sent.valid;
        adds = sent.adds;
      })

  known : has_table v.dbms tab ≡ some true
  known = has_table-InUse v.dbms b tab cols u

  insert-Executed :
      (stack : Stack) (seq : ℕ) (field w : Bytes) (vals : List Bytes)
      → Legal cols (inserting w vals)
      → Executed R v b tab cols
          (apply m (inserting w vals)).1
          (frame (Ok.pack 1 0 2 0) seq)
          (exec_statement R stack v seq (statement_of tab cols field (inserting w vals)))
  unfolding exec_statement analyze_insert exec_insert
  insert-Executed stack seq field w vals h =
      let done = change-Done R v.dbms b tab cols u v.store m (inserting w vals) k h in
      let (row, n, size) = h in
      rw (known, col_values-literals (w ∷ vals), pair_columns-labelled cols (w ∷ vals) size)
        (rw done.returns (answered (inserting w vals) done seq 1 0 (omega arith)))

  delete-Executed :
      (stack : Stack) (seq : ℕ) (field key_field key : Bytes)
      → Legal cols (deleting key_field key)
      → Executed R v b tab cols
          (apply m (deleting key_field key)).1
          (frame (Ok.pack 1 0 2 1) seq)
          (exec_statement R stack v seq (statement_of tab cols field (deleting key_field key)))
  unfolding exec_statement analyze_delete delete_where exec_delete condition name_of
  delete-Executed stack seq field key_field key h =
      let done = change-Done R v.dbms b tab cols u v.store m (deleting key_field key) k h in
      rw known (rw done.returns (answered (deleting key_field key) done seq 1 1 (omega arith)))

  affected-le :
      (i : ℕ) (value key : Bytes) (o : Option (List Bytes)) → (change_row m i value key o).0 ≤ 1
  affected-le i value key none = omega arith
  affected-le i value key (some vals) = omega arith

  update-Executed :
      (stack : Stack) (seq i : ℕ) (field value key : Bytes) (c : TableColumn)
      → Legal cols (updating c i value key)
      → Executed R v b tab cols
          (apply m (updating c i value key)).1
          (frame (Ok.pack (apply m (updating c i value key)).0 0 2 1) seq)
          (exec_statement R stack v seq (statement_of tab cols field (updating c i value key)))
  unfolding exec_statement analyze_update first_update exec_update condition name_of
  update-Executed stack seq i field value key c h =
      let done = change-Done R v.dbms b tab cols u v.store m (updating c i value key) k h in
      let few = affected-le i value key (m key) in
      let same : u16 (change_row m i value key (m key)).0 ≡ (change_row m i value key (m key)).0 =
        omega (arith, few) in
      rw known (
        rw done.returns (
          rw same (
            answered (updating c i value key) done seq (change_row m i value key (m key)).0 1 few)))

-- On a table in use whose rows the store keeps as the map `m` says, `Exec` carries out the
-- statement for a legal change as the map says, and sends the client an OK packet with the rows
-- affected there; the databases stay, and a valid send buffer with room for 27 bytes stays valid.
pub exec_statement-Executed :
    (R : Redis) (v : Server R) (b : DataBase) (tab : Bytes) (cols : List TableColumn) (m : Contents)
    (stack : Stack) (seq : ℕ) (field : Bytes) (c : Change)
    → InUse v.dbms b tab cols
    → Keeps R v.dbms b tab cols v.store m
    → IsValid v.socket
    → 27 + length (contents v.socket) ≤ max_buffer_size
    → Legal cols c
    → Executed R v b tab cols
        (apply m c).1
        (frame (Ok.pack (apply m c).0 0 2 (warnings_of c)) seq)
        (exec_statement R stack v seq (statement_of tab cols field c))
exec_statement-Executed R v b tab cols m stack seq field (inserting w vals) u k ok room h =
    insert-Executed R v b tab cols m u k ok room stack seq field w vals h
exec_statement-Executed R v b tab cols m stack seq field (updating c i value key) u k ok room h =
    update-Executed R v b tab cols m u k ok room stack seq i field value key c h
exec_statement-Executed R v b tab cols m stack seq field (deleting key_field key) u k ok room h =
    delete-Executed R v b tab cols m u k ok room stack seq field key_field key h
