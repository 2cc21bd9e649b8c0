-- ===== src/Tests/Executor.antt =====
-- The executor on a server with one table.
use uhp_sql.Common.{
  ℕ, ◌+◌, ◌≤◌, ◌≡◌, ◌≢◌, refl, some, List, [], ◌∷◌, arith, Bytes, codes, All, take, true, false,
}
use uhp_sql.UnboundedBuffer.{max_buffer_size}
use uhp_sql.Store.{NoNul, c_str, command_scan}
use uhp_sql.Statement.{equals, greater}
use uhp_sql.Executor.Rows.{data_key, select_rows, is_above}
use uhp_sql.Executor.Table.{
  Contents, Change, inserting, updating, deleting, apply, apply_all, Legal, carry_out, found,
  by_key,
}
use uhp_sql.Catalog.{new_table}
use uhp_sql.Packet.Ok
use uhp_sql.Packet.Field
use uhp_sql.Packet.Row
use uhp_sql.Packet.Eof
use uhp_sql.ProtocolBuffer.{
  write_u8, write_u16, write_u32, write_len_encode, write_len_encode_string, write_string,
}
use uhp_sql.FieldType.{wire_code, wire_flags}
use uhp_sql.Reply.Frame.{frame}
use uhp_sql.Executor.Analyze.{Stack}
use uhp_sql.Executor.Exec.{Server, exec_statement}
use uhp_sql.Executor.Limit.{elements_of, rows_of, query, select_rows-all, select_rows-greater}
use uhp_sql.Executor.Result.{frames, frames_size, IsShort}
use uhp_sql.Executor.Selects.{select_key, key_packets, exec_statement-selected}
use uhp_sql.Executor.Statements.{Executed, statement_of, exec_statement-Executed}
use uhp_sql.Tests.Servers.{idle, idle-IsValid}
use uhp_sql.Executor.Table.Refines.{carry_out_refines}
use uhp_sql.Catalog.Tables.{new_table-Answers}
use uhp_sql.Tests.Servers.{
  columns-IsDistinct, current, known, toy, no_byte-All, name_column, columns, people, default_db,
  dbms, people-InUse, no_rows, no_rows-Keeps, bob-IsClean, one-IsClean,
}

-- INSERT 1, bob; INSERT bob, 1; UPDATE the name of 1 to 1; DELETE bob.
abbrev changes : List Change
changes =
    inserting (codes "1") (codes "bob" ∷ [])
    ∷ inserting (codes "bob") (codes "1" ∷ [])
    ∷ updating name_column 1 (codes "1") (codes "1")
    ∷ deleting (codes "id") (codes "bob")
    ∷ []

bob-NoNul : NoNul (codes "bob")
bob-NoNul = no_byte-All 0 (codes "bob") refl

one-NoNul : NoNul (codes "1")
one-NoNul = no_byte-All 0 (codes "1") refl

bob_ne : codes "bob" ≢ []
bob_ne e = cc

one_ne : codes "1" ≢ []
one_ne e = cc

changes-Legal : All (Legal columns) changes
changes-Legal = (
  ((one-IsClean, (bob-IsClean, bob_ne)), (one-NoNul, (bob-NoNul, tt)), refl),
  (
    ((bob-IsClean, (one-IsClean, one_ne)), (bob-NoNul, (one-NoNul, tt)), refl),
    ((refl, one-IsClean, one_ne, one-NoNul, one-NoNul), ((bob-NoNul, refl), tt)),
  ),
)

carry_out_refines_example :
    (after : List (Bytes × Bytes)) × (carry_out toy dbms default_db people columns [] changes
      ≡ some ((apply_all no_rows changes).0, after))
    × ((field key : Bytes) (limit : ℕ)
        → NoNul key
        → select_rows toy dbms after (by_key people field key limit)
          ≡ some (found columns ((apply_all no_rows changes).1 key)))
carry_out_refines_example =
    carry_out_refines toy dbms default_db people columns [] no_rows changes people-InUse
      no_rows-Keeps changes-Legal

-- Three rows of the table.
abbrev rows : List (Bytes × Bytes)
rows =
    (data_key default_db people (codes "1"), codes "1$$ann")
    ∷ (data_key default_db people (codes "2"), codes "2$$bob")
    ∷ (data_key default_db people (codes "3"), codes "3$$eve")
    ∷ []

scan-rows :
    command_scan toy rows (data_key default_db people (codes "*")) 100 ≡ some (elements_of rows)
unfolding command_scan c_str
scan-rows = refl

-- LIMIT 1 gives two rows.
select_rows-all_example :
    select_rows toy dbms rows (query true equals people [] [] 1)
    ≡ some (rows_of (new_table people columns) (λ key. true) (take 2 rows))
select_rows-all_example =
    select_rows-all toy dbms default_db (new_table people columns) rows equals people [] [] 1 rows
      current known scan-rows (omega arith)

select_rows-greater_example :
    select_rows toy dbms rows (query false greater people (codes "id") (codes "1") 0)
    ≡ some (
        rows_of
          (new_table people columns)
          (λ key. is_above key (data_key default_db people (codes "1")))
          (take 1 rows))
select_rows-greater_example =
    select_rows-greater toy dbms default_db (new_table people columns) rows people (codes "id")
      (codes "1") 0 rows current known scan-rows (omega arith)

-- A greater key is not found with no LIMIT, where it is not the first in the reply.
missed : select_rows toy dbms rows (query false greater people (codes "id") (codes "1") 0) ≡ some []
unfolding is_above
missed =
    select_rows-greater toy dbms default_db (new_table people columns) rows people (codes "id")
      (codes "1") 0 rows current known scan-rows (omega arith)

abbrev server : Server toy
server = record { dbms = dbms; store = []; socket = idle }

abbrev stack : Stack
stack = record { op_type = equals; limit = 7 }

exec_statement-Executed_example :
    Executed toy server default_db people columns
      (apply no_rows (inserting (codes "1") (codes "bob" ∷ []))).1
      (frame (Ok.pack 1 0 2 0) 1)
      (exec_statement toy stack server 1
        (statement_of people columns [] (inserting (codes "1") (codes "bob" ∷ []))))
exec_statement-Executed_example =
    exec_statement-Executed toy server default_db people columns no_rows stack 1 []
      (inserting (codes "1") (codes "bob" ∷ [])) people-InUse no_rows-Keeps idle-IsValid
      (omega arith) changes-Legal.0

-- The server with a row, which is read back.
inserted :
    Executed toy server default_db people columns
      (apply no_rows (inserting (codes "1") (codes "bob" ∷ []))).1
      (frame (Ok.pack 1 0 2 0) 1)
      (exec_statement toy stack server 1
        (statement_of people columns [] (inserting (codes "1") (codes "bob" ∷ []))))
inserted =
    exec_statement-Executed toy server default_db people columns no_rows stack 1 []
      (inserting (codes "1") (codes "bob" ∷ [])) people-InUse no_rows-Keeps idle-IsValid
      (omega arith) changes-Legal.0

abbrev one_row : Contents
one_row = (apply no_rows (inserting (codes "1") (codes "bob" ∷ []))).1

abbrev with_row : Server toy
with_row = record { dbms = dbms; store = inserted.after.store; socket = idle }

people-listed : people-InUse.table.cols ≡ columns
people-listed = (new_table-Answers people columns columns-IsDistinct).1

abbrev reply : List Bytes
reply = key_packets (codes "default") people columns (some (codes "1" ∷ codes "bob" ∷ []))

reply-IsShort : All IsShort reply
unfolding Field.pack Row.pack Row.pack_onto Eof.pack write_u8 write_u16 write_u32 write_len_encode
    write_len_encode_string write_string wire_code wire_flags
reply-IsShort =
    (omega arith, (omega arith, (omega arith, (omega arith, (omega arith, (omega arith, tt))))))

reply-size : frames_size reply + 0 ≤ max_buffer_size
unfolding Field.pack Row.pack Row.pack_onto Eof.pack write_u8 write_u16 write_u32 write_len_encode
    write_len_encode_string write_string wire_code wire_flags
reply-size = omega arith

exec_statement-selected_example :
    Executed toy with_row default_db people columns one_row
      (frames reply 1)
      (exec_statement toy stack with_row 1 (select_key people (codes "id") (codes "1")))
exec_statement-selected_example =
    exec_statement-selected toy with_row default_db people columns one_row stack 1 (codes "id")
      (codes "1") people-InUse inserted.keeps people-listed idle-IsValid one-NoNul (omega arith)
      reply-IsShort reply-size
