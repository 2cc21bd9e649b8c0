-- ===== src/CircularBuffer/Attached.antt =====
-- The other two kinds of `CircularBuffer` in network/buffer.h: `AttachedBuffer` over bytes that are
-- somewhere else, and `StackBuffer` over an array of its own, and what `<<` and `>>` do.
use uhp_sql.Common.{
  ℕ, suc, ◌+◌, ◌-◌, ◌^◌, ◌%◌, ◌<◌, bit_and, ◌≡◌, ap, ap₂, ◌∙◌, Option, none, some, [], ◌∷◌, arith,
  ltb, ◌==◌, if◌then◌else◌, Bytes, ◌>>=◌, length, take, replicate, take_of_length-le,
}
use native.Mathlib.Nat.{mod-eq_of_lt}
use uhp_sql.Common.Bits.{bit_and_mask}
use uhp_sql.Common.Segments.{segment}
use uhp_sql.UnboundedBuffer.{add_size, sub_size}
use uhp_sql.CircularBuffer.{
  CircularBuffer, BufferSequence, total_bytes, round_up_2_power, readable_size, push_data,
  peek_data,
}
use uhp_sql.CircularBuffer.Power.{round_up_2_power-power}
use uhp_sql.CircularBuffer.Datum.{gather}

-- A `size_t` made of a `static_cast<int>`.
abbrev pub through_int : ℕ → ℕ
through_int n = let low = n % 2 ^ 32 in if ltb low (2 ^ 31) then low else 2 ^ 64 - 2 ^ 32 + low

-- `writePos_` of an `AttachedBuffer` of some stretches.
abbrev pub attached_size : BufferSequence → ℕ
attached_size [] = 0
attached_size ((from, len) ∷ []) = through_int len
attached_size ((from, len) ∷ s ∷ bf) = total_bytes ((from, len) ∷ s ∷ bf)

-- A view of `bytes` with the write position `n`: its size is a power of two above `n`.
unfoldable pub attach_bytes : Bytes → ℕ → Option CircularBuffer
attach_bytes bytes n = round_up_2_power (add_size n 1) >>= λ size.
    some (record { max_size = size; read_pos = 0; write_pos = n; buffer = bytes })

-- `AttachedBuffer(bf)` of stretches of `s`. One stretch is used where it is, several are copied
-- behind each other.
unfoldable pub attach : Bytes → BufferSequence → Option CircularBuffer
unfolding attach_bytes
attach s bf = attach_bytes (gather s bf) (attached_size bf)

-- `StackBuffer<N>`: a size that is not a power of two is rounded up, beyond the array.
unfoldable pub stack_buffer : ℕ → Option CircularBuffer
stack_buffer n = (if bit_and n (sub_size n 1) == 0 then some n else round_up_2_power n) >>= λ size.
    some (record { max_size = size; read_pos = 0; write_pos = 0; buffer = replicate n 0 })

-- `<<` of an object's bytes and `>>` into one of `n` bytes, with their `assert`s.
unfoldable pub put_object : CircularBuffer → Bytes → Option CircularBuffer
put_object b bytes = push_data b bytes >>= λ r. if r.0 then some r.1 else none

taken : Option Bytes × CircularBuffer → Option (Bytes × CircularBuffer)
taken (none, b) = none
taken (some bytes, b) = some (bytes, b)

unfoldable pub get_object : CircularBuffer → ℕ → Option (Bytes × CircularBuffer)
unfolding taken
get_object b n = peek_data b n >>= λ r. taken r

-- A view of fewer than 2 ^ 31 bytes is made, and what can be read of it is those bytes.
pub attach_bytes_lem :
    (bytes : Bytes) (n : ℕ)
    → length bytes ≡ n
    → n < 2 ^ 31
    → (a : CircularBuffer) × (attach_bytes bytes n ≡ some a)
      × (readable_size a ≡ n)
      × (segment a.read_pos (readable_size a) a.buffer ≡ bytes)
unfolding attach_bytes readable_size
attach_bytes_lem bytes n len small =
    let one_more : add_size n 1 ≡ suc n = omega arith in
    let (j, size, above, below) = round_up_2_power-power (suc n) (omega arith) (omega arith) in
    let a = view (2 ^ j) in
    let low : sub_size n 0 ≡ n = omega arith in
    let mask : sub_size (2 ^ j) 1 ≡ 2 ^ j - 1 = omega arith in
    let reads : readable_size a ≡ n =
      ap₂ bit_and low mask ∙ bit_and_mask j n ∙ mod-eq_of_lt (omega arith) in
    (
      a,
      ap (λ k. round_up_2_power k >>= λ m. some (view m)) one_more
          ∙ ap (λ o. o >>= λ m. some (view m)) size,
      reads,
      ap (λ k. take k bytes) reads ∙ take_of_length-le n bytes (omega arith),
    )
  where
    view : ℕ → CircularBuffer
    view size = record { max_size = size; read_pos = 0; write_pos = n; buffer = bytes }
