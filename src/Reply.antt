-- ===== src/Reply.antt =====
-- The replies to a client: `SendPacket` of network/stream_socket.cc, `SendOkMessageToClient` and
-- `SendErrorMessageToClient` of executor/executor.cpp, and `OnConnect` of network/client.cc. A
-- socket is its send buffer here.
pub mod Frame
use uhp_sql.Common.{ℕ, Option, some, [], ◌∷◌, ◌++◌, ltb, if◌then◌else◌, Bytes, codes, ◌>>=◌, length}
use uhp_sql.ProtocolBuffer.{u8, push_back}
use uhp_sql.UnboundedBuffer
use uhp_sql.UnboundedBuffer.{UnboundedBuffer}
use uhp_sql.AsyncBuffer.{AsyncBuffer, Pieces, write, unread}
use uhp_sql.Packet.Ok
use uhp_sql.Packet.Err
use uhp_sql.Packet.Greeting

-- `StreamSocket::SendPacket(UnboundedBuffer &)`, by `SendPacket(const void *, size_t)`.
pub send_packet : AsyncBuffer → UnboundedBuffer → Option AsyncBuffer
send_packet a reply =
    let bytes = unread reply in if ltb 0 (length bytes) then write a (bytes ∷ []) else some a

-- `PushData` of each string in turn onto a new buffer.
push_strings : UnboundedBuffer → Pieces → Option UnboundedBuffer
push_strings reply [] = some reply
push_strings reply (d ∷ ds) = UnboundedBuffer.push_data reply d >>= λ r. push_strings r.1 ds

-- The four bytes before a packet, as the executor fills them: the lowest byte of the size only.
pub head_pack : Bytes → ℕ → Bytes
head_pack out seq = push_back (push_back (push_back (push_back [] (u8 (length out))) 0) 0) (u8 seq)

-- The header and the packet as one string, as most replies are sent.
pub send_framed : AsyncBuffer → Bytes → ℕ → Option AsyncBuffer
send_framed a out seq = do
  reply ← push_strings UnboundedBuffer.empty ((head_pack out seq ++ out) ∷ [])
  send_packet a reply

pub send_ok_message : AsyncBuffer → ℕ → ℕ → ℕ → ℕ → ℕ → Option AsyncBuffer
send_ok_message a seq affected_rows last_insert_id status_flags warnings = do
  let out = Ok.pack affected_rows last_insert_id status_flags warnings
  reply ← push_strings UnboundedBuffer.empty (head_pack out seq ∷ out ∷ [])
  send_packet a reply

pub send_error_message : AsyncBuffer → ℕ → ℕ → Bytes → Bytes → Option AsyncBuffer
send_error_message a seq error_code sql_state error_message = do
  let out = Err.pack error_code sql_state error_message
  reply ← push_strings UnboundedBuffer.empty ((head_pack out seq ++ out) ∷ [])
  send_packet a reply

-- `Client::OnConnect`, with the bytes that the greeting reads from /dev/urandom. The reply buffer
-- of a new client is empty.
pub on_connect : AsyncBuffer → Bytes → Bytes → Option AsyncBuffer
on_connect a random1 random2 = do
  let out = Greeting.pack (Greeting.new 1 (codes "UHP-SQL-v0.1") random1 random2)
  reply ← push_strings UnboundedBuffer.empty ((head_pack out 0 ++ out) ∷ [])
  send_packet a reply
