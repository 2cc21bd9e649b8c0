-- ===== src/Receive.antt =====
-- The receiving side of network/stream_socket.cc: what `readv` gives goes straight into the free
-- stretches of the ring. What `readv` returns is a parameter of each call.
pub mod Push
use uhp_sql.Common.{
  ℕ, ◌*◌, Bool, true, false, Option, some, List, [], ◌∷◌, ◌==◌, if◌then◌else◌, Bytes, ◌>>=◌, length,
  take, drop,
}
use uhp_sql.Common.Int.{ℤ, pos, negsuc}
use uhp_sql.Common.Segments.{overwrite}
use uhp_sql.CircularBuffer.{
  CircularBuffer, BufferSequence, init_capacity, get_space, adjust_write_ptr,
}

-- `readv` fails with EAGAIN or EWOULDBLOCK, fails otherwise, or reads some bytes, none of them where
-- the peer has closed the connection.
pub data Received : Type 0 where
  again : Received
  failed : Received
  read : Bytes → Received

-- The array once `readv` has filled stretches of it in turn.
unfoldable pub scatter : BufferSequence → Bytes → Bytes → Bytes
scatter [] bytes s = s
scatter ((from, len) ∷ bf) bytes s = scatter bf (drop len bytes) (overwrite from (take len bytes) s)

-- `Recv` once there is room: -1 is ERRORSOCKET and -2 is EOFSOCKET.
unfoldable pub read_in : Received → BufferSequence → CircularBuffer → ℤ × CircularBuffer
unfolding scatter
read_in again bf b = (pos 0, b)
read_in failed bf b = (negsuc 0, b)
read_in (read []) bf b = (negsuc 1, b)
read_in (read (x ∷ bytes)) bf b = (
  pos (length (x ∷ bytes)),
  adjust_write_ptr (record b { buffer = scatter bf (x ∷ bytes) b.buffer }) (length (x ∷ bytes)),
)

-- `Recv`: what it returns, and the ring afterwards.
unfoldable pub recv : Received → CircularBuffer → Option (ℤ × CircularBuffer)
unfolding read_in
recv o b = do
  ready ← if b.max_size == 0 then init_capacity b (64 * 1024) else some b
  bf ← get_space ready 0
  if length bf == 0 then some (pos 0, ready) else some (read_in o bf ready)

abbrev pub is_negative : ℤ → Bool
is_negative (pos n) = false
is_negative (negsuc n) = true

-- `OnReadable`, which asks the poller for no more events where it returns false.
unfoldable pub on_readable : Received → CircularBuffer → Option (Bool × CircularBuffer)
unfolding recv
on_readable o b = recv o b >>= λ r. some (if is_negative r.0 then false else true, r.1)
