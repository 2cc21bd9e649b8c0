-- ===== src/Tests/Clients.antt =====
-- A client's packets, and its socket.
use uhp_sql.Common.{
  inl, ◌≡◌, ◌≢◌, refl, ◌+◌, true, false, some, List, [], ◌∷◌, arith, Bytes, bytes_eq, codes, length,
  get_or, drop,
}
use uhp_sql.ProtocolBuffer.{u8}
use uhp_sql.UnboundedBuffer
use uhp_sql.CircularBuffer.{CircularBuffer}
use uhp_sql.CircularBuffer.Invariant as Ring
use uhp_sql.Packet.Ok
use uhp_sql.Reply.Frame.{frame}
use uhp_sql.Statement.{equals}
use uhp_sql.Executor.Analyze.{Stack}
use uhp_sql.Executor.Exec.{exec}
use uhp_sql.Executor.Table.{Change, inserting, apply, Legal}
use uhp_sql.Executor.Statements.{statement_of, Executed}
use uhp_sql.Client.{
  Parsed, valid, version_query, Client, handle_parsed, handle_packet, do_msg_parse,
}
use uhp_sql.Client.Dispatch.{handle_packet-Executed, do_msg_parse-whole}
use uhp_sql.Stream.{Stream, again, failed, wrote}
use uhp_sql.Stream.Waits.{Settled, run-Settled}
use uhp_sql.Stream.Order.{
  IsWatched, Call, packet, try_send, writeable, run, step, packets_of, Streamed,
}
use uhp_sql.Tests.Servers.{
  toy, no_byte-All, columns, people, default_db, dbms, people-InUse, no_rows, no_rows-Keeps,
  bob-IsClean, one-IsClean, idle, idle-IsValid,
}

abbrev client : Client toy
client = record {
  server = record { dbms = dbms; store = []; socket = idle };
  reply = UnboundedBuffer.empty;
}

abbrev add_bob : Change
add_bob = inserting (codes "1") (codes "bob" ∷ [])

bob_ne : codes "bob" ≢ []
bob_ne e = cc

add_bob-Legal : Legal columns add_bob
add_bob-Legal = (
  (one-IsClean, (bob-IsClean, bob_ne)),
  (no_byte-All 0 (codes "1") refl, (no_byte-All 0 (codes "bob") refl, tt)),
  refl,
)

-- The header of a packet with the number 0, a command byte and a query.
abbrev query_packet : Bytes
query_packet = 23 ∷ 0 ∷ 0 ∷ 0 ∷ 3 ∷ codes "insert into people ..."

-- A parser that knows one query, and what stands on the stack.
abbrev parse_insert : Bytes → Parsed
parse_insert query = valid (statement_of people columns [] add_bob ∷ [])

abbrev stack : Stack
stack = record { op_type = equals; limit = 7 }

no_version : bytes_eq (drop 5 query_packet) version_query ≡ false
no_version = refl

handle_packet-Executed_example :
    (after : Client toy) × (handle_packet toy parse_insert (λ i. stack) client query_packet
      ≡ some (length query_packet, after))
    × Executed toy client.server default_db people columns
        (apply no_rows add_bob).1
        (frame (Ok.pack 1 0 2 0) (u8 (get_or query_packet 3 0 + 1)))
        (some after.server)
handle_packet-Executed_example =
    handle_packet-Executed toy parse_insert (λ i. stack) client default_db people columns no_rows []
      add_bob query_packet people-InUse no_rows-Keeps idle-IsValid (omega arith) add_bob-Legal
      (omega arith) (omega arith) no_version refl

-- Five bytes in a ring of eight, round its end.
abbrev received : CircularBuffer
received = record {
  max_size = 8;
  read_pos = 6;
  write_pos = 3;
  buffer = 0 ∷ 0 ∷ 3 ∷ 9 ∷ 9 ∷ 9 ∷ 1 ∷ 0 ∷ [];
}

received-IsValid : Ring.IsValid received
received-IsValid = record {
  exponent = 3;
  power = refl;
  small = omega arith;
  storage = refl;
  read_in = omega arith;
  write_in = omega arith;
}

abbrev parse_nothing : Bytes → Parsed
parse_nothing query = valid []

received_ne : Ring.contents received ≢ []
received_ne e = cc

handled :
    handle_packet toy parse_nothing (λ i. stack) client (Ring.contents received) ≡ some (5, client)
unfolding handle_packet handle_parsed exec
handled = refl

do_msg_parse-whole_example :
    (after : CircularBuffer) × (do_msg_parse toy parse_nothing (λ i. stack) client received
      ≡ some (true, client, after))
    × Ring.IsValid after
    × (Ring.contents after ≡ [])
do_msg_parse-whole_example =
    do_msg_parse-whole toy parse_nothing (λ i. stack) client client received 5 received-IsValid
      received_ne handled

abbrev stream : Stream
stream = record { send_buf = idle; epoll_out = false; write_event = true }

stream-IsWatched : IsWatched stream
stream-IsWatched = record { valid = idle-IsValid; watched = refl }

-- Two packets, of which the system takes two bytes, none and then the rest.
abbrev calls : List Call
calls =
    packet (codes "hello" ∷ [])
    ∷ try_send true (wrote 2)
    ∷ packet (codes "world" ∷ [])
    ∷ writeable true again
    ∷ writeable true (wrote 100)
    ∷ try_send true failed
    ∷ []

run-Settled_example :
    (x : Streamed stream (packets_of calls) (run calls stream)) × Settled x.after
      (step (try_send true again) x.after)
run-Settled_example = run-Settled calls stream again stream-IsWatched (omega arith) (inl refl)
