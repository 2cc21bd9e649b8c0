-- ===== src/CircularBuffer.antt =====
-- network/buffer.h: the power-of-two sizes, and `CircularBuffer` over a `std::vector<char>`
-- (`Buffer`), as the sockets use it. A pointer with its size is the bytes it points at; a null
-- pointer is no bytes. A failed `assert` is `none`. A `BufferSequence` is the list of its
-- stretches, each with the index in `buffer_` at which it begins and its length.
pub mod Power
pub mod Invariant
pub mod Push
pub mod Pop
pub mod Datum
pub mod Attached
use uhp_sql.Common.{
  ℕ, zero, suc, ◌+◌, ◌-◌, ◌*◌, ◌%◌, ◌^◌, bit_and, Bool, true, false, not, ◌&&◌, ◌||◌, Option, none,
  some, List, [], ◌∷◌, ◌++◌, ltb, leb, ◌==◌, if◌then◌else◌, Bytes, ◌>>=◌, length, take, drop,
  replicate,
}
use uhp_sql.Common.Segments.{segment, overwrite, resize}
use uhp_sql.UnboundedBuffer.{add_size, sub_size}

-- The loop of `RoundUp2Power`; `none` where the fuel runs out. `roundSize <<= 1` is a `size_t`.
round_loop : ℕ → ℕ → ℕ → Option ℕ
round_loop zero size round = none
round_loop (suc fuel) size round =
    let rest = round_loop fuel size (round * 2 % 2 ^ 64) in
    if ltb round size then rest else some round

-- `RoundUp2Power`. After 64 doublings `roundSize` is 0 for good, so 65 rounds decide the loop.
unfoldable pub round_up_2_power : ℕ → Option ℕ
unfolding round_loop
round_up_2_power size = if size == 0 then some 0 else round_loop 65 size 1

pub record CircularBuffer : Type 0 where
  pub max_size : ℕ
  pub read_pos : ℕ
  pub write_pos : ℕ
  pub buffer : Bytes

-- `Buffer(maxSize)`.
pub new : ℕ → Option CircularBuffer
new max_size = do
  size ← round_up_2_power max_size
  some (record { max_size = size; read_pos = 0; write_pos = 0; buffer = replicate size 0 })

-- `InitCapacity`.
unfoldable pub init_capacity : CircularBuffer → ℕ → Option CircularBuffer
init_capacity b size =
    if ltb 0 size && leb size (1024 * 1024 * 1024)
    then (do
      max_size ← round_up_2_power size
      some (record b { max_size = max_size; buffer = resize max_size 0 b.buffer }))
    else none

-- `x & (maxSize_ - 1)`
abbrev pub masked : CircularBuffer → ℕ → ℕ
masked b x = bit_and x (sub_size b.max_size 1)

unfoldable pub is_empty : CircularBuffer → Bool
is_empty b = b.write_pos == b.read_pos

pub is_full : CircularBuffer → Bool
is_full b = masked b (add_size b.write_pos 1) == b.read_pos

unfoldable pub readable_size : CircularBuffer → ℕ
readable_size b = masked b (sub_size b.write_pos b.read_pos)

unfoldable pub writeable_size : CircularBuffer → ℕ
writeable_size b = sub_size (sub_size b.max_size (readable_size b)) 1

unfoldable pub adjust_write_ptr : CircularBuffer → ℕ → CircularBuffer
adjust_write_ptr b size = record b { write_pos = masked b (add_size b.write_pos size) }

unfoldable pub adjust_read_ptr : CircularBuffer → ℕ → CircularBuffer
adjust_read_ptr b size = record b { read_pos = masked b (add_size b.read_pos size) }

abbrev pub BufferSequence : Type 0
BufferSequence = List (ℕ × ℕ)

-- `TotalBytes`.
abbrev pub total_bytes : BufferSequence → ℕ
total_bytes [] = 0
total_bytes ((_, len) ∷ bf) = len + total_bytes bf

-- The stretches of `GetDatum` from index `from`, when something is to be read.
unfoldable pub datum_from : CircularBuffer → ℕ → ℕ → BufferSequence
datum_from b from max_size =
    if ltb from b.write_pos
    then (from, (if ltb max_size (b.write_pos - from) then max_size else b.write_pos - from)) ∷ []
    else let first = if ltb (b.max_size - from) max_size then b.max_size - from else max_size in
      let left = max_size - first in
      if ltb 0 left && ltb 0 b.write_pos
      then (from, first) ∷ (0, (if ltb b.write_pos left then b.write_pos else left)) ∷ []
      else (from, first) ∷ []

unfoldable pub get_datum : CircularBuffer → ℕ → ℕ → Option BufferSequence
get_datum b max_size offset =
    if max_size == 0 || leb (readable_size b) offset
    then some []
    else let from = masked b (add_size b.read_pos offset) in
      if ltb b.read_pos b.max_size && ltb b.write_pos b.max_size && not (from == b.write_pos)
      then some (datum_from b from max_size)
      else none

-- The stretches of `GetSpace` from index `to`, when there is space.
unfoldable pub space_from : CircularBuffer → ℕ → Option BufferSequence
space_from b to =
    if ltb to b.read_pos
    then (if ltb 0 (b.read_pos - to - 1) then some ((to, b.read_pos - to - 1) ∷ []) else none)
    else if b.read_pos == 0
    then some ((to, b.max_size - to - 1) ∷ [])
    else if ltb 1 b.read_pos
    then some ((to, b.max_size - to) ∷ (0, b.read_pos - 1) ∷ [])
    else some ((to, b.max_size - to) ∷ [])

unfoldable pub get_space : CircularBuffer → ℕ → Option BufferSequence
get_space b offset =
    if ltb b.read_pos b.max_size && ltb b.write_pos b.max_size
    then (if leb (writeable_size b) (add_size offset 1)
        then some []
        else space_from b (masked b (add_size b.write_pos offset)))
    else none

-- The bytes that go to the front of the array, `bytesLeft` of them where that is a positive `int`.
pub wrap_in : Bytes → Bytes → Bytes
wrap_in bytes buffer =
    let left = length bytes % 2 ^ 32 in
    if ltb 0 left && ltb left (2 ^ 31) then overwrite 0 (take left bytes) buffer else buffer

-- The `memcpy`s of `PushDataAt`. They go to `writePos_`, whatever the offset.
unfoldable pub copy_in : CircularBuffer → Bytes → ℕ → Option (Bool × CircularBuffer)
copy_in b bytes to =
    if ltb to b.read_pos
    then (if ltb (length bytes) (b.read_pos - to)
        then some (true, record b { buffer = overwrite b.write_pos bytes b.buffer })
        else none)
    else let avail1 = b.max_size - b.write_pos in
      if ltb (avail1 + b.read_pos) (1 + length bytes)
      then none
      else if leb (length bytes + 1) avail1
      then some (true, record b { buffer = overwrite b.write_pos bytes b.buffer })
      else let first = overwrite b.write_pos (take avail1 bytes) b.buffer in
        some (true, record b { buffer = wrap_in (drop avail1 bytes) first })

unfoldable pub push_data_at : CircularBuffer → Bytes → ℕ → Option (Bool × CircularBuffer)
push_data_at b bytes offset =
    if length bytes == 0
    then some (true, b)
    else if ltb (writeable_size b) (add_size offset (length bytes))
    then some (false, b)
    else copy_in b bytes (masked b (add_size b.write_pos offset))

-- `PushData`: false leaves the buffer as it was.
unfoldable pub push_data : CircularBuffer → Bytes → Option (Bool × CircularBuffer)
push_data b bytes = do
  pushed ← push_data_at b bytes 0
  if pushed.0 then some (true, adjust_write_ptr pushed.1 (length bytes)) else some (false, pushed.1)

-- The `memcpy`s of `PeekDataAt` from index `from`.
copy_out : CircularBuffer → ℕ → ℕ → Option Bytes
copy_out b n_size from =
    if ltb from b.write_pos
    then (if leb n_size (b.write_pos - from) then some (segment from n_size b.buffer) else none)
    else if from == b.write_pos
    then none
    else let avail1 = b.max_size - from in
      if ltb (avail1 + b.write_pos) n_size
      then none
      else if leb n_size avail1
      then some (segment from n_size b.buffer)
      else some (segment from avail1 b.buffer ++ segment 0 (n_size - avail1) b.buffer)

-- `PeekDataAt`: `some none` where it returns false, and otherwise the bytes that it copies out.
pub peek_data_at : CircularBuffer → ℕ → ℕ → Option (Option Bytes)
peek_data_at b n_size offset =
    if n_size == 0
    then some (some [])
    else if ltb (readable_size b) (add_size n_size offset)
    then some none
    else copy_out b n_size (masked b (add_size b.read_pos offset)) >>= λ out. some (some out)

pub peek_data : CircularBuffer → ℕ → Option (Option Bytes × CircularBuffer)
peek_data b n_size = do
  out ← peek_data_at b n_size 0
  elim out [ none ↦ some (none, b) | some bytes ↦ some (some bytes, adjust_read_ptr b n_size) ]
