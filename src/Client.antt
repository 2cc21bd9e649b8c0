-- ===== src/Client.antt =====
-- `_HandlePacket` of network/client.cc and `DoMsgParse` of network/stream_socket.cc: what a client
-- sends is parsed, executed and answered. The generated SQL parser is a parameter. `none` is
-- undefined behaviour, an exception that nothing catches or a failed `assert`.
pub mod Dispatch
use uhp_sql.Common.{
  ℕ, zero, suc, ◌+◌, Bool, true, false, Option, none, some, List, [], ◌∷◌, ltb, ◌==◌, if◌then◌else◌,
  Bytes, codes, bytes_eq, ◌>>=◌, length, get_or, drop,
}
use uhp_sql.ProtocolBuffer.{u8}
use uhp_sql.UnboundedBuffer
use uhp_sql.UnboundedBuffer.{UnboundedBuffer}
use uhp_sql.CircularBuffer
use uhp_sql.CircularBuffer.{CircularBuffer}
use uhp_sql.AsyncBuffer.{stretches, joined}
use uhp_sql.Packet.Auth
use uhp_sql.Reply.{send_packet, send_error_message}
use uhp_sql.Store.{Redis}
use uhp_sql.Statement.{Statement}
use uhp_sql.Executor.Analyze.{Stack}
use uhp_sql.Executor.Exec.{Server, exec}

-- What the parser makes of a query: its statements, or a message.
pub data Parsed : Type 0 where
  valid : List Statement → Parsed
  invalid : Bytes → Parsed

-- The rounds of `Exec` from number `i` on, each with what it finds on the stack.
abbrev pub rounds : (ℕ → Stack) → ℕ → List Statement → List (Stack × Statement)
rounds stacks i [] = []
rounds stacks i (stmt ∷ stmts) = (stacks i, stmt) ∷ rounds stacks (i + 1) stmts

-- The OK packet with its header, as the client class writes it out.
abbrev pub ok_bytes : ℕ → Bytes
ok_bytes seq = 7 ∷ 0 ∷ 0 ∷ u8 (seq + 1) ∷ 0 ∷ 0 ∷ 0 ∷ 2 ∷ 0 ∷ 0 ∷ 0 ∷ []

abbrev pub version_query : Bytes
version_query = codes "select @@version_comment limit 1"

module _ (R : Redis) where
  -- A client with its `reply_`, and the server that works for it.
  pub record Client : Type 0 where
    pub server : Server R
    pub reply : UnboundedBuffer

  -- `PushData` of the OK packet, `SendPacket` and `Clear`.
  unfoldable pub send_ok : Client → ℕ → Option Client
  send_ok c seq = do
    pushed ← UnboundedBuffer.push_data c.reply (ok_bytes seq)
    socket ← send_packet c.server.socket pushed.1
    some (record c {
      server = record (c.server) { socket = socket };
      reply = UnboundedBuffer.clear pushed.1;
    })

  -- The handshake response. Where `UnPack` flows off its end, nothing is known of what follows.
  unfoldable pub handle_auth : Client → ℕ → Option (Auth.Auth × Auth.Ending) → Option Client
  unfolding send_ok
  handle_auth c seq none = none
  handle_auth c seq (some (a, Auth.no_return)) = none
  handle_auth c seq (some (a, Auth.returned b)) = send_ok c seq

  unfoldable pub handle_parsed : (ℕ → Stack) → Client → ℕ → Parsed → Option Client
  handle_parsed stacks c seq (valid stmts) =
      exec R (rounds stacks 0 stmts) c.server seq >>= λ v. some (record c { server = v })
  handle_parsed stacks c seq (invalid message) = do
    socket ← send_error_message c.server.socket (u8 (seq + 1)) 50 (codes "ABCDE") message
    some (record c { server = record (c.server) { socket = socket } })

  -- `_HandlePacket`: the bytes consumed, and the client afterwards. Of fewer than five bytes a string
  -- with its end before its start would be made.
  unfoldable pub handle_packet :
      (Bytes → Parsed) → (ℕ → Stack) → Client → Bytes → Option (ℕ × Client)
  unfolding send_ok handle_auth handle_parsed
  handle_packet parse stacks c bytes =
      let seq = get_or bytes 3 0 in
      let query = drop 5 bytes in
      let handled =
        if seq == 1
        then handle_auth c seq (Auth.unpack Auth.fresh (drop 4 bytes))
        else if bytes_eq query version_query
        then send_ok c seq
        else handle_parsed stacks c seq (parse query) in
      if ltb (length bytes) 5 then none else (handled >>= λ c'. some (length bytes, c'))

  -- The loop of `DoMsgParse`, with the ring buffer that was received to. A round that goes on
  -- consumes at least one byte.
  unfoldable pub msg_loop :
      (Bytes → Parsed)
      → (ℕ → Stack)
      → ℕ
      → Bool
      → Client
      → CircularBuffer
      → Option (Bool × Client × CircularBuffer)
  unfolding handle_packet
  msg_loop parse stacks zero busy c recv = some (busy, c, recv)
  msg_loop parse stacks (suc fuel) busy c recv =
      if CircularBuffer.is_empty recv then some (busy, c, recv) else (do
        datum ← CircularBuffer.get_datum recv (CircularBuffer.readable_size recv) 0
        (body_len, c') ← handle_packet parse stacks c (joined (stretches recv.buffer datum))
        let rest = msg_loop parse stacks fuel true c' (CircularBuffer.adjust_read_ptr recv body_len)
        if ltb 0 body_len then rest else some (busy, c', recv))

  unfoldable pub do_msg_parse :
      (Bytes → Parsed)
      → (ℕ → Stack)
      → Client
      → CircularBuffer
      → Option (Bool × Client × CircularBuffer)
  unfolding msg_loop
  do_msg_parse parse stacks c recv =
      msg_loop parse stacks (suc (CircularBuffer.readable_size recv)) false c recv
