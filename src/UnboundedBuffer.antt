-- ===== src/UnboundedBuffer.antt =====
-- network/unbounded_buffer.h and network/unbounded_buffer.cc: a byte buffer that grows.
-- A `const void*` with its size is the bytes it points at; a null pointer is no bytes. An operation
-- that may end in a failed `assert` returns `none` there. Allocation is taken to succeed.
pub mod Invariant
pub mod Fifo
use uhp_sql.Common.{
  ℕ, zero, suc, ◌+◌, ◌-◌, ◌/◌, ◌%◌, ◌^◌, Bool, true, false, not, ◌&&◌, ◌||◌, Option, none, some, [],
  ltb, leb, ◌==◌, if◌then◌else◌, Bytes, ◌>>=◌, length,
}
use uhp_sql.Common.Segments.{segment, overwrite, resize}

pub record UnboundedBuffer : Type 0 where
  pub read_pos : ℕ
  pub write_pos : ℕ
  pub buffer : Bytes

abbrev pub empty : UnboundedBuffer
empty = record { read_pos = 0; write_pos = 0; buffer = [] }

abbrev pub max_buffer_size : ℕ
max_buffer_size = (2 ^ 64 - 1) / 2

-- `size_t` sums and differences.
abbrev pub add_size : ℕ → ℕ → ℕ
add_size a b = (a + b) % 2 ^ 64

abbrev pub sub_size : ℕ → ℕ → ℕ
sub_size a b = (a + 2 ^ 64 - b) % 2 ^ 64

abbrev pub readable_size : UnboundedBuffer → ℕ
readable_size b = sub_size b.write_pos b.read_pos

abbrev pub writeable_size : UnboundedBuffer → ℕ
writeable_size b = sub_size (length b.buffer) b.write_pos

unfoldable pub is_empty : UnboundedBuffer → Bool
is_empty b = readable_size b == 0

pub adjust_write_ptr : UnboundedBuffer → ℕ → UnboundedBuffer
adjust_write_ptr b n = record b { write_pos = add_size b.write_pos n }

pub adjust_read_ptr : UnboundedBuffer → ℕ → UnboundedBuffer
adjust_read_ptr b n = record b { read_pos = add_size b.read_pos n }

-- The size that the growth loop of `_AssureSpace` goes on to from `max_size`; `none` where it
-- breaks off.
next_size : ℕ → Option ℕ
next_size max_size =
    if ltb max_size 64
    then some 64
    else if leb max_size max_buffer_size
    then some (add_size max_size (max_size / 2))
    else none

-- The growth loop; `max_size` is the size of the buffer whenever its test is made. Every round adds
-- at least one byte, so `n_size` rounds are enough.
pub grow : ℕ → ℕ → UnboundedBuffer → UnboundedBuffer
grow zero n_size b = b
grow (suc fuel) n_size b = elim (ltb (add_size (writeable_size b) b.read_pos) n_size) [
  | false ↦ b
  | true ↦ elim (next_size (length b.buffer)) [
    | none ↦ b
    | some m ↦ grow fuel n_size (record b { buffer = resize m 0 b.buffer })
  ]
]

-- The `memmove` of the unread bytes to the front.
pub compact : UnboundedBuffer → UnboundedBuffer
compact b = record {
  read_pos = 0;
  write_pos = readable_size b;
  buffer = overwrite 0 (segment b.read_pos (readable_size b) b.buffer) b.buffer;
}

-- `_AssureSpace`.
pub assure_space : UnboundedBuffer → ℕ → UnboundedBuffer
assure_space b n_size =
    if leb n_size (writeable_size b)
    then b
    else let b' = grow n_size n_size b in if ltb 0 b'.read_pos then compact b' else b'

-- The `memcpy` of `PushDataAt`, behind its `assert`.
write_at : UnboundedBuffer → Bytes → ℕ → Option (ℕ × UnboundedBuffer)
write_at b bytes offset =
    if leb (add_size (length bytes) offset) (writeable_size b)
    then some
        (length bytes, record b { buffer = overwrite (add_size b.write_pos offset) bytes b.buffer })
    else none

pub push_data_at : UnboundedBuffer → Bytes → ℕ → Option (ℕ × UnboundedBuffer)
push_data_at b bytes offset =
    if length bytes == 0
    then some (0, b)
    else if readable_size b == max_buffer_size
    then some (0, b)
    else write_at (assure_space b (add_size (length bytes) offset)) bytes offset

unfoldable pub push_data : UnboundedBuffer → Bytes → Option (ℕ × UnboundedBuffer)
push_data b bytes = do
  pushed ← push_data_at b bytes 0
  some (pushed.0, adjust_write_ptr pushed.1 pushed.0)

-- `Write`.
abbrev pub write : UnboundedBuffer → Bytes → Option (ℕ × UnboundedBuffer)
write b bytes = push_data b bytes

-- The bytes that `PeekDataAt` copies out; their number is what it returns.
pub peek_data_at : UnboundedBuffer → ℕ → ℕ → Bytes
peek_data_at b n_size offset =
    if n_size == 0 || leb (readable_size b) offset
    then []
    else segment (add_size b.read_pos offset)
        (if ltb (readable_size b) (add_size n_size offset)
          then sub_size (readable_size b) offset
          else n_size)
        b.buffer

pub peek_data : UnboundedBuffer → ℕ → Bytes × UnboundedBuffer
peek_data b n_size = let out = peek_data_at b n_size 0 in (out, adjust_read_ptr b (length out))

-- `Shrink` on a vector of the given capacity. Its first `assert` wants that to be the size.
pub shrink : ℕ → Bool → UnboundedBuffer → Option UnboundedBuffer
shrink capacity tight b =
    if not (capacity == length b.buffer)
    then none
    else if length b.buffer == 0
    then (if b.read_pos == 0 && b.write_pos == 0 then some b else none)
    else if not tight && ltb (length b.buffer / 2) (readable_size b)
    then some b
    else some (record {
      read_pos = 0;
      write_pos = readable_size b;
      buffer = segment b.read_pos (readable_size b) b.buffer;
    })

pub clear : UnboundedBuffer → UnboundedBuffer
clear b = record b { read_pos = 0; write_pos = 0 }

-- `a.Swap(b)`: the two buffers afterwards.
pub swap : UnboundedBuffer → UnboundedBuffer → UnboundedBuffer × UnboundedBuffer
swap a b = (b, a)
