-- ===== src/Executor/Exec.antt =====
-- `Executor::Exec` of executor/executor.cpp and `SendResultSetToClient` of
-- executor/select_executor.cpp. `none` is undefined behaviour or a failed `assert` of a buffer.
use uhp_sql.Common.{
  ℕ, zero, suc, ◌+◌, Option, none, some, List, [], ◌∷◌, ◌++◌, map, Bytes, codes, ◌>>=◌,
}
use uhp_sql.ProtocolBuffer.{u8, u16}
use uhp_sql.AsyncBuffer.{AsyncBuffer}
use uhp_sql.Packet.Field
use uhp_sql.Packet.Row
use uhp_sql.Packet.Eof
use uhp_sql.Reply.{send_framed, send_ok_message, send_error_message}
use uhp_sql.Store.{Redis}
use uhp_sql.Catalog.{
  DataTable, get_col_count, index_col_at, Dbms, get_cur_db, cur_table, create_table_in_cur,
}
use uhp_sql.Statement.{Statement, create, select, insert, delete, update, other}
use uhp_sql.Executor.Analyze.{
  Stack, SelectQuery, Condition, analyze_create, analyze_insert, analyze_select, analyze_delete,
  analyze_update,
}
use uhp_sql.Executor.Rows.{Row as Row_values, insert_row, select_rows, delete_rows, update_row}

-- The packets in turn, each with the next sequence number, which is a `uint8_t`.
unfoldable pub send_all : AsyncBuffer → List Bytes → ℕ → Option AsyncBuffer
send_all a [] seq = some a
send_all a (out ∷ outs) seq = do a' ← send_framed a out seq; send_all a' outs (u8 (seq + 1))

-- The description of column `i`: `TYPE_VARCHAR` and `CHARACTER_SET_UTF8`, whatever its type.
unfoldable pub field_of : Bytes → DataTable → Bytes → ℕ → Field.Field
field_of db_name t query_tab i = record {
  name = index_col_at t i;
  type = 6165;
  table = query_tab;
  org_table = query_tab;
  data_base = db_name;
  org_name = index_col_at t i;
  column_length = 80;
  charset = 33;
  decimals = 0;
  flags = 0;
}

-- The packed descriptions of `n` columns from index `i` on.
unfoldable pub field_packets : Bytes → DataTable → Bytes → ℕ → ℕ → List Bytes
unfolding field_of
field_packets db_name t query_tab i zero = []
field_packets db_name t query_tab i (suc n) =
    Field.pack (field_of db_name t query_tab i) ∷ field_packets db_name t query_tab (i + 1) n

unfoldable pub row_packet : Row_values → Bytes
row_packet row = Row.pack (map (λ c. c.val) row)

-- The packets of a result set behind its header.
unfoldable pub result_packets : Bytes → DataTable → Bytes → List Row_values → List Bytes
unfolding field_packets row_packet
result_packets db_name t query_tab rows =
    field_packets db_name t query_tab 0 (get_col_count t)
    ++ (Eof.pack (Eof.new 0 2) ∷ (map row_packet rows ++ (Eof.pack (Eof.new 0 2) ∷ [])))

-- `SendResultSetToClient`: the sequence number starts at 1 whatever it is given.
unfoldable pub send_result_set : AsyncBuffer → Dbms → List Row_values → Bytes → Option AsyncBuffer
unfolding send_all result_packets
send_result_set a d rows query_tab = do
  b ← get_cur_db d
  t ← cur_table d query_tab
  a' ← send_framed a (get_col_count t ∷ []) 1
  send_all a' (result_packets b.db_name t query_tab rows) 2

-- What the handlers work on: the databases, the store, and the client's socket.
module _ (R : Redis) where
  pub record Server : Type 0 where
    pub dbms : Dbms
    pub store : R.Store
    pub socket : AsyncBuffer

  -- `SendErrorMessageToClient` as every branch of `Exec` calls it.
  unfoldable pub fail : Server → ℕ → Bytes → Option Server
  fail v seq message = do
    socket ← send_error_message v.socket seq 50 (codes "ABCDE") message
    some (record v { socket = socket })

  -- `SendOkMessageToClient` with the status 2.
  unfoldable pub succeed : Server → ℕ → ℕ → ℕ → Option Server
  succeed v seq affected warnings = do
    socket ← send_ok_message v.socket seq affected 0 2 warnings
    some (record v { socket = socket })

  -- The branches of `Exec` behind their analysis.
  unfoldable pub exec_create : Server → ℕ → Option (Bytes × Row_values) → Option Server
  unfolding fail succeed
  exec_create v seq none = fail v seq (codes "exec create table sql error")
  exec_create v seq (some (tab_name, col_defs)) = do
    (dbms, store) ← create_table_in_cur R v.dbms v.store tab_name col_defs
    succeed (record v { dbms = dbms; store = store }) seq (u8 1) 0

  unfoldable pub exec_select : Server → ℕ → Option SelectQuery → Option Server
  unfolding fail
  exec_select v seq none = fail v seq (codes "exec select sql error")
  exec_select v seq (some q) = do
    rows ← select_rows R v.dbms v.store q
    socket ← send_result_set v.socket v.dbms rows q.query_tab
    some (record v { socket = socket })

  unfoldable pub exec_insert : Server → ℕ → Option (Bytes × Row_values) → Option Server
  unfolding fail succeed
  exec_insert v seq none = fail v seq (codes "exec insert sql error")
  exec_insert v seq (some (tab_name, row)) = do
    (affected, store) ← insert_row R v.dbms v.store tab_name row
    succeed (record v { store = store }) seq affected 0

  unfoldable pub exec_delete : Server → ℕ → Option (Bytes × Condition) → Option Server
  unfolding fail succeed
  exec_delete v seq none = fail v seq (codes "exec delete sql error")
  exec_delete v seq (some (tab_name, c)) = do
    (affected, store) ← delete_rows R v.dbms v.store tab_name c
    succeed (record v { store = store }) seq affected 1

  unfoldable pub exec_update :
      Server → ℕ → Option (Bytes × Bytes × Bytes × Condition) → Option Server
  unfolding fail succeed
  exec_update v seq none = fail v seq (codes "exec update sql error")
  exec_update v seq (some (tab_name, column, value, (op, field, query_value))) = do
    (affected, store) ← update_row R v.dbms v.store tab_name column value query_value
    succeed (record v { store = store }) seq (u16 affected) 1

  -- A round of the loop of `Exec`, answered with the sequence number `seq`.
  unfoldable pub exec_statement : Stack → Server → ℕ → Statement → Option Server
  unfolding succeed exec_create exec_select exec_insert exec_delete exec_update
  exec_statement stack v seq (create stmt) = analyze_create stmt >>= λ a. exec_create v seq a
  exec_statement stack v seq (select stmt) =
      analyze_select stack v.dbms stmt >>= λ a. exec_select v seq a
  exec_statement stack v seq (insert stmt) = analyze_insert v.dbms stmt >>= λ a. exec_insert v seq a
  exec_statement stack v seq (delete stmt) =
      analyze_delete stack v.dbms stmt >>= λ a. exec_delete v seq a
  exec_statement stack v seq (update stmt) =
      analyze_update stack v.dbms stmt >>= λ a. exec_update v seq a
  exec_statement stack v seq other = succeed v seq 0 1

  -- `Exec` on the statements of a result, each with what its round finds on the stack, and on the
  -- packet that they came in; `pack[3]` is its sequence number.
  unfoldable pub exec : List (Stack × Statement) → Server → ℕ → Option Server
  unfolding exec_statement
  exec [] v pack_seq = some v
  exec ((stack, stmt) ∷ result) v pack_seq = do
    v' ← exec_statement stack v (u8 (pack_seq + 1)) stmt
    exec result v' pack_seq
