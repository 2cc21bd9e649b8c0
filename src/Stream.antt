-- ===== src/Stream.antt =====
-- The sending side of network/stream_socket.cc. What `writev` returns is a parameter of each call;
-- `write_event` says whether the poller of the sending thread reports when the socket can be written
-- to: `_AddSocket` of the thread registers EventTypeWrite for every new connection, while its
-- `epollOut_` is false; later `EnableWrite` and `DisableWrite` of the thread pool set it. `none` is a
-- failed `assert`.
pub mod Order
pub mod Waits
use uhp_sql.Common.{
  ℕ, Bool, true, false, ◌&&◌, ◌||◌, Option, some, [], ltb, ◌==◌, if◌then◌else◌, Bytes, ◌>>=◌,
  length, take,
}
use uhp_sql.AsyncBuffer.{AsyncBuffer, Pieces, total, joined, write, process_buffer}
use uhp_sql.AsyncBuffer.Fifo.{skip_sent}

pub record Stream : Type 0 where
  pub send_buf : AsyncBuffer
  pub epoll_out : Bool
  pub write_event : Bool

-- `writev` fails with EAGAIN or EWOULDBLOCK, fails otherwise, or takes a number of bytes, which is at
-- most all that it is given.
pub data Outcome : Type 0 where
  again : Outcome
  failed : Outcome
  wrote : ℕ → Outcome

abbrev pub accepted : Outcome → ℕ
accepted again = 0
accepted failed = 0
accepted (wrote n) = n

-- The bytes that go out.
abbrev pub sent_of : Outcome → Pieces → Bytes
sent_of o ds = take (accepted o) (joined ds)

-- `epollOut_` behind `_Send` of at least one byte.
abbrev pub epoll_after : Bool → Outcome → Pieces → Bool
epoll_after epoll_out again ds = true
epoll_after epoll_out failed ds = epoll_out
epoll_after epoll_out (wrote n) ds =
    let ret = length (sent_of (wrote n) ds) in
    if ltb 0 ret && ltb ret (total ds) then true else if ret == total ds then false else epoll_out

-- `nSent >= 0`.
abbrev pub returns_true : Outcome → Bool
returns_true again = true
returns_true failed = false
returns_true (wrote n) = true

-- `_Send` of at least one byte and what the callers do with its result, up to the event.
unfoldable pub send_pieces : Stream → Outcome → Pieces → AsyncBuffer → Option Stream
send_pieces s o ds a = do
  b ← skip_sent a (length (sent_of o ds))
  some (record s { send_buf = b; epoll_out = epoll_after s.epoll_out o ds })

-- `EnableWrite` where `epollOut_` is set.
abbrev pub enable_write : Stream → Stream
enable_write s = record s { write_event = s.write_event || s.epoll_out }

-- `DisableWrite` where `epollOut_` is not set.
abbrev pub disable_write : Stream → Stream
disable_write s = record s { write_event = s.write_event && s.epoll_out }

-- `Send`: what it returns, the bytes that went out, and the socket afterwards. `free` is the answer
-- of `try_lock`.
unfoldable pub send : Bool → Outcome → Stream → Option (Bool × Bytes × Stream)
unfolding send_pieces
send free o s = if s.epoll_out then some (true, [], s) else (do
  (ds, a) ← process_buffer free s.send_buf
  if total ds == 0
      then some (true, [], record s { send_buf = a })
      else (send_pieces s o ds a >>= λ s'. some (returns_true o, sent_of o ds, enable_write s')))

unfoldable pub on_writeable : Bool → Outcome → Stream → Option (Bool × Bytes × Stream)
unfolding send_pieces
on_writeable free o s = do
  (ds, a) ← process_buffer free s.send_buf
  if total ds == 0
      then some (true, [], disable_write (record s { send_buf = a; epoll_out = false }))
      else (send_pieces s o ds a >>= λ s'. some (returns_true o, sent_of o ds, disable_write s'))
