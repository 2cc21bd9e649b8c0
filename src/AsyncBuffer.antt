-- ===== src/AsyncBuffer.antt =====
-- network/async_buffer.cc: the send buffer of a socket, a circular buffer with an unbounded one
-- behind it for what does not fit and another in front that takes the latter's place. The calls are
-- taken one after the other, as the lock and the single sending thread order them.
pub mod Write
pub mod Send
pub mod Fifo
use uhp_sql.Common.{
  ℕ, ◌+◌, Bool, not, ◌&&◌, ◌||◌, Option, none, some, List, [], ◌∷◌, ◌++◌, ltb, leb, ◌==◌,
  if◌then◌else◌, Bytes, ◌>>=◌, length,
}
use uhp_sql.Common.Segments.{segment}
use uhp_sql.UnboundedBuffer
use uhp_sql.UnboundedBuffer.{UnboundedBuffer, add_size}
use uhp_sql.CircularBuffer
use uhp_sql.CircularBuffer.{CircularBuffer, BufferSequence}

pub record AsyncBuffer : Type 0 where
  pub tmp_buf : UnboundedBuffer
  pub buffer : CircularBuffer
  pub back_buf : UnboundedBuffer
  pub back_bytes : ℕ

-- The bytes of a `BufferSequence`, a string for each of its stretches.
abbrev pub Pieces : Type 0
Pieces = List Bytes

-- `TotalBytes`.
abbrev pub total : Pieces → ℕ
total [] = 0
total (d ∷ ds) = length d + total ds

abbrev pub joined : Pieces → Bytes
joined [] = []
joined (d ∷ ds) = d ++ joined ds

push_all_back : UnboundedBuffer → Pieces → Option UnboundedBuffer
push_all_back b [] = some b
push_all_back b (d ∷ ds) = UnboundedBuffer.push_data b d >>= λ r. push_all_back r.1 ds

push_all : CircularBuffer → Pieces → Option CircularBuffer
push_all b [] = some b
push_all b (d ∷ ds) = CircularBuffer.push_data b d >>= λ r. push_all r.1 ds

-- The branch of `Write` under the lock, with its `assert`.
write_back : AsyncBuffer → Pieces → Option AsyncBuffer
write_back a ds = do
  back ← push_all_back a.back_buf ds
  let bytes = add_size a.back_bytes (total ds)
  if bytes == UnboundedBuffer.readable_size back
      then some (record a { back_buf = back; back_bytes = bytes })
      else none

pub write : AsyncBuffer → Pieces → Option AsyncBuffer
write a ds =
    if ltb 0 a.back_bytes || ltb (CircularBuffer.writeable_size a.buffer) (total ds)
    then write_back a ds
    else push_all a.buffer ds >>= λ b. some (record a { buffer = b })

-- The bytes at `ReadAddr()`, `ReadableSize()` of them.
abbrev pub unread : UnboundedBuffer → Bytes
unread b = segment b.read_pos (UnboundedBuffer.readable_size b) b.buffer

abbrev pub stretches : Bytes → BufferSequence → Pieces
stretches s [] = []
stretches s ((from, len) ∷ bf) = segment from len s ∷ stretches s bf

-- `ProcessBuffer`: what is to be sent next, and the buffers afterwards. `free` is the answer of
-- `try_lock`.
unfoldable pub process_buffer : Bool → AsyncBuffer → Option (Pieces × AsyncBuffer)
process_buffer free a =
    if not (UnboundedBuffer.is_empty a.tmp_buf)
    then some (unread a.tmp_buf ∷ [], a)
    else if not (CircularBuffer.is_empty a.buffer)
    then (do
      let n = CircularBuffer.readable_size a.buffer
      bf ← CircularBuffer.get_datum a.buffer n 0
      if n == CircularBuffer.total_bytes bf then some (stretches a.buffer.buffer bf, a) else none)
    else if ltb 0 a.back_bytes && free
    then some (
      unread a.back_buf ∷ [],
      record a { tmp_buf = a.back_buf; back_buf = a.tmp_buf; back_bytes = 0 },
    )
    else some ([], a)

unfoldable pub skip : AsyncBuffer → ℕ → Option AsyncBuffer
skip a size =
    if not (UnboundedBuffer.is_empty a.tmp_buf)
    then (if leb size (UnboundedBuffer.readable_size a.tmp_buf)
        then some (record a { tmp_buf = UnboundedBuffer.adjust_read_ptr a.tmp_buf size })
        else none)
    else (if leb size (CircularBuffer.readable_size a.buffer)
        then some (record a { buffer = CircularBuffer.adjust_read_ptr a.buffer size })
        else none)
