-- ===== src/Executor/Selects.antt =====
-- A SELECT of a key, from the statement to the bytes of the reply.
use uhp_sql.Common.{
  ℕ, ◌+◌, ◌≤◌, ◌<◌, ◌≡◌, refl, sym, ap, ◌∙◌, Option, none, some, List, [], ◌∷◌, ◌++◌, map, arith,
  Bytes, length, All,
}
use mathlib.Core.Path.{subst}
use uhp_sql.ProtocolBuffer.{u8}
use uhp_sql.UnboundedBuffer.{max_buffer_size}
use uhp_sql.AsyncBuffer.Write.{IsValid, contents}
use uhp_sql.Packet.Field
use uhp_sql.Packet.Row
use uhp_sql.Packet.Eof
use uhp_sql.Meta.{TableColumn}
use uhp_sql.Store.{Redis, NoNul}
use uhp_sql.Catalog.{DataTable, DataBase, get_col_count}
use uhp_sql.Catalog.Tables.{Answers}
use uhp_sql.Statement.{Statement, select, name_of}
use uhp_sql.Executor.Analyze.{Stack, analyze_select, condition, limit_of, select_where}
use uhp_sql.Executor.Cells.{typed}
use uhp_sql.Executor.Exec.{
  Server, exec_statement, exec_select, field_packets, row_packet, result_packets,
}
use uhp_sql.Executor.Result.{frames, frames_size, IsShort, send_result_set-Sends}
use uhp_sql.Executor.Statements.{key_is, Executed, has_table-InUse}
use uhp_sql.Executor.Table.{Contents, InUse, Keeps, found}
use uhp_sql.Executor.Table.Refines.{select_rows-found, found_table}

-- `SELECT ... WHERE field = 'key'` with no limit.
abbrev pub select_key : Bytes → Bytes → Bytes → Statement
select_key tab field key =
    select (record { from_table = some tab; where_clause = key_is field key; limit = none })

-- The description of a column that a client is to get: its name, its table and its database, a
-- string of 80 characters in UTF-8.
abbrev pub column_packet : Bytes → Bytes → TableColumn → Bytes
column_packet db_name tab c = Field.pack (record {
  name = c.col_name;
  type = 6165;
  table = tab;
  org_table = tab;
  data_base = db_name;
  org_name = c.col_name;
  column_length = 80;
  charset = 33;
  decimals = 0;
  flags = 0;
})

-- The end of the columns, and of the rows: no warnings, and the status 2.
abbrev pub end_packet : Bytes
end_packet = Eof.pack (record { header = 0xfe; warnings = 0; status_flags = 2 })

-- The row that is there, if any.
abbrev pub row_packets : Option (List Bytes) → List Bytes
row_packets none = []
row_packets (some vals) = Row.pack vals ∷ []

-- The packets that answer a SELECT of a key, for the columns of the table and the row of the key:
-- how many columns there are, each of them, an end, the row, and an end.
abbrev pub key_packets : Bytes → Bytes → List TableColumn → Option (List Bytes) → List Bytes
key_packets db_name tab cols row =
    (length cols ∷ [])
    ∷ (map (column_packet db_name tab) cols
        ++ (end_packet ∷ (row_packets row ++ (end_packet ∷ []))))

field_packets-columns :
    (db_name tab : Bytes) (t : DataTable) (i : ℕ) (cols : List TableColumn)
    → Answers t i cols
    → field_packets db_name t tab i (length cols) ≡ map (column_packet db_name tab) cols
unfolding field_packets
field_packets-columns db_name tab t i [] h = refl
field_packets-columns db_name tab t i (c ∷ cols) ((_, name, _), h) =
    let next : Answers t (i + 1) cols = subst (λ j. Answers t j cols) (omega arith) h in
    rw (name, field_packets-columns db_name tab t (i + 1) cols next) refl

vals-typed :
    (cols : List TableColumn) (vals : List Bytes)
    → length vals ≡ length cols
    → map (λ c. c.val) (typed cols vals) ≡ vals
vals-typed [] [] h = refl
vals-typed [] (v ∷ vals) h = absurd (omega arith)
vals-typed (c ∷ cols) [] h = absurd (omega arith)
vals-typed (c ∷ cols) (v ∷ vals) h = ap (λ t. v ∷ t) (vals-typed cols vals (omega arith))

module _ (R : Redis) (v : Server R) (b : DataBase) (tab : Bytes) (cols : List TableColumn)
    (m : Contents) (u : InUse v.dbms b tab cols) (k : Keeps R v.dbms b tab cols v.store m)
    (listed : u.table.cols ≡ cols) where
  row_packet-found :
      (key : Bytes) (row : Option (List Bytes))
      → m key ≡ row
      → map row_packet (found cols row) ≡ row_packets row
  unfolding row_packet
  row_packet-found key none h = refl
  row_packet-found key (some vals) h =
      ap (λ t. Row.pack t ∷ []) (vals-typed cols vals (k.stored key vals h).2)

  -- What the executor packs, from the table that is in memory.
  packets_eq :
      (key : Bytes)
      → length cols < 256
      → (get_col_count u.table ∷ []) ∷ result_packets b.db_name u.table tab (found cols (m key))
        ≡ key_packets b.db_name tab cols (m key)
  unfolding get_col_count result_packets Eof.new
  packets_eq key few =
      let count : u8 (length u.table.cols) ≡ length cols =
        ap (λ t. u8 (length t)) listed ∙ omega arith in
      rw
        (
          count,
          field_packets-columns b.db_name tab u.table 0 cols u.answers,
          row_packet-found key (m key) refl,
        )
        refl

-- The packets as the executor makes them.
abbrev packets_of :
    DataBase → (tab : Bytes) → DataTable → List TableColumn → Option (List Bytes) → List Bytes
packets_of b tab t cols row =
    (get_col_count t ∷ []) ∷ result_packets b.db_name t tab (found cols row)

select-Executed :
    (R : Redis) (v : Server R) (b : DataBase) (tab : Bytes) (cols : List TableColumn) (m : Contents)
    (stack : Stack) (seq : ℕ) (field key : Bytes) (u : InUse v.dbms b tab cols)
    → Keeps R v.dbms b tab cols v.store m
    → IsValid v.socket
    → NoNul key
    → All IsShort (packets_of b tab u.table cols (m key))
    → frames_size (packets_of b tab u.table cols (m key)) + length (contents v.socket)
      ≤ max_buffer_size
    → Executed R v b tab cols m
        (frames (packets_of b tab u.table cols (m key)) 1)
        (exec_statement R stack v seq (select_key tab field key))
unfolding exec_statement analyze_select select_where limit_of exec_select condition name_of
select-Executed R v b tab cols m stack seq field key u k ok hk (one, short) room =
    let rows = found cols (m key) in
    let sent =
      send_result_set-Sends v.socket v.dbms b u.table rows tab ok u.current
        (found_table R v.dbms b tab cols u) short (omega arith) in
    rw (has_table-InUse v.dbms b tab cols u) (
      rw (select_rows-found R v.dbms b tab cols u v.store m field key 0 k hk) (
        rw sent.returns (record {
          after = record v { socket = sent.after };
          returns = refl;
          same = refl;
          keeps = k;
          valid = sent.valid;
          adds = sent.adds;
        })))

-- On a table in use with the columns `cols`, fewer than 256, whose rows the store keeps as the map `m` says, a SELECT
-- by `Exec` of a key without zero bytes changes neither the databases nor the rows, and sends the
-- client the number of columns, their descriptions, an EOF packet, exactly the row that `m` has
-- there, or no row, and an EOF packet, where the packets are shorter than 256 bytes and a valid
-- send buffer has room for them.
pub exec_statement-selected :
    (R : Redis) (v : Server R) (b : DataBase) (tab : Bytes) (cols : List TableColumn) (m : Contents)
    (stack : Stack) (seq : ℕ) (field key : Bytes)
    → (u : InUse v.dbms b tab cols) → Keeps R v.dbms b tab cols v.store m
    → u.table.cols ≡ cols
    → IsValid v.socket
    → NoNul key
    → length cols < 256
    → All IsShort (key_packets b.db_name tab cols (m key))
    → frames_size (key_packets b.db_name tab cols (m key)) + length (contents v.socket)
      ≤ max_buffer_size
    → Executed R v b tab cols m
        (frames (key_packets b.db_name tab cols (m key)) 1)
        (exec_statement R stack v seq (select_key tab field key))
exec_statement-selected R v b tab cols m stack seq field key u k listed ok hk few short room =
    let packets = packets_eq R v b tab cols m u k listed key few in
    subst
      (λ p.
        Executed R v b tab cols m (frames p 1)
          (exec_statement R stack v seq (select_key tab field key)))
      packets
      (select-Executed R v b tab cols m stack seq field key u k ok hk
        (subst (λ p. All IsShort p) (sym packets) short)
        (subst (λ p. frames_size p + length (contents v.socket) ≤ max_buffer_size) (sym packets)
          room))
