-- ===== src/CircularBuffer/Invariant.antt =====
-- The representation of a `CircularBuffer`, and its unread bytes.
use uhp_sql.Common.{
  ℕ, ◌+◌, ◌-◌, ◌^◌, ◌≤◌, ◌<◌, bit_and, ◌≡◌, ap, ◌∙◌, ◌↔◌, true, ◌++◌, arith, ltb, leb,
  if◌then◌else◌, Bytes, length, length-append,
}
use uhp_sql.Common.Segments.{segment, length-segment}
use uhp_sql.UnboundedBuffer.{add_size, sub_size}
use uhp_sql.CircularBuffer.{
  CircularBuffer, masked, readable_size, writeable_size, is_empty, is_full,
}
use uhp_sql.CircularBuffer.Power.{masked_sub, masked_add, pow_le, pow_pos}

-- A power-of-two size of at most 1 GB, which is what the asserts of `InitCapacity` allow, an array
-- of that size, and positions inside it.
pub record IsValid (b : CircularBuffer) : Type 0 where
  pub exponent : ℕ
  pub power : b.max_size ≡ 2 ^ exponent
  pub small : exponent ≤ 30
  pub storage : length b.buffer ≡ b.max_size
  pub read_in : b.read_pos < b.max_size
  pub write_in : b.write_pos < b.max_size

-- The bytes written and not yet read: up to the write position, or round the end of the array.
abbrev pub contents : CircularBuffer → Bytes
contents b =
    if leb b.read_pos b.write_pos
    then segment b.read_pos (b.write_pos - b.read_pos) b.buffer
    else segment b.read_pos (b.max_size - b.read_pos) b.buffer ++ segment 0 b.write_pos b.buffer

-- The distance from the read to the write position, going up.
abbrev pub distance : CircularBuffer → ℕ
distance b =
    if leb b.read_pos b.write_pos
    then b.write_pos - b.read_pos
    else b.write_pos + b.max_size - b.read_pos

pub size_bounds : (b : CircularBuffer) → IsValid b → (0 < b.max_size) × (b.max_size ≤ 2 ^ 30)
size_bounds b v = omega (arith, v.power, pow_le v.exponent 30 v.small, pow_pos v.exponent)

mask_lem :
    (b : CircularBuffer) (v : IsValid b) (x : ℕ) → masked b x ≡ bit_and x (2 ^ v.exponent - 1)
mask_lem b v x =
    let e : sub_size b.max_size 1 ≡ 2 ^ v.exponent - 1 = omega (arith, v.power, size_bounds b v) in
    ap (λ m. bit_and x m) e

-- A position moved up by at most the size.
pub masked_lem :
    (b : CircularBuffer) (a n : ℕ)
    → IsValid b
    → a < b.max_size
    → n ≤ b.max_size
    → masked b (add_size a n) ≡ (if ltb (a + n) b.max_size then a + n else a + n - b.max_size)
masked_lem b a n v ha hn =
    mask_lem b v (add_size a n)
    ∙ masked_add v.exponent a n (omega (arith, v.small)) (omega (arith, v.power))
        (omega (arith, v.power))
    ∙ rw (v.power)

pub readable_size_lem : (b : CircularBuffer) → IsValid b → readable_size b ≡ distance b
unfolding readable_size
readable_size_lem b v =
    mask_lem b v (sub_size b.write_pos b.read_pos)
    ∙ masked_sub v.exponent b.write_pos b.read_pos (omega (arith, v.small))
        (omega (arith, v.power, v.write_in)) (omega (arith, v.power, v.read_in))
    ∙ rw (v.power)

pub distance-lt : (b : CircularBuffer) → IsValid b → distance b < b.max_size
distance-lt b v = ground (arith, v.read_in, v.write_in)

pub writeable_size_lem :
    (b : CircularBuffer) → IsValid b → writeable_size b ≡ b.max_size - distance b - 1
unfolding writeable_size
writeable_size_lem b v =
    rw (readable_size_lem b v) (omega (arith, distance-lt b v, size_bounds b v))

pub length-contents : (b : CircularBuffer) → IsValid b → length (contents b) ≡ distance b
length-contents b v = ground (
  arith,
  v.storage,
  v.read_in,
  v.write_in,
  length-segment b.read_pos (b.write_pos - b.read_pos) b.buffer,
  length-segment b.read_pos (b.max_size - b.read_pos) b.buffer,
  length-segment 0 b.write_pos b.buffer,
  length-append (segment b.read_pos (b.max_size - b.read_pos) b.buffer)
      (segment 0 b.write_pos b.buffer),
)

-- `ReadableSize` is the number of unread bytes, `WriteableSize` makes up the size less one byte
-- with it, and `IsEmpty` and `IsFull` say that one or the other is zero.
pub sizes_lem :
    (b : CircularBuffer)
    → IsValid b
    → (readable_size b ≡ length (contents b))
      × (length (contents b) + writeable_size b + 1 ≡ b.max_size)
      × ((is_empty b ≡ true) ↔ (length (contents b) ≡ 0))
      × ((is_full b ≡ true) ↔ (writeable_size b ≡ 0))
unfolding is_empty is_full
sizes_lem b v = (
  rw (readable_size_lem b v, length-contents b v),
  rw (writeable_size_lem b v, length-contents b v) (omega (arith, distance-lt b v)),
  rw (length-contents b v) (ground (arith, v.read_in, v.write_in)),
  rw
      (
        writeable_size_lem b v,
        masked_lem b b.write_pos 1 v v.write_in (omega (arith, size_bounds b v)),
      )
      (ground (arith, v.read_in, v.write_in)),
)
