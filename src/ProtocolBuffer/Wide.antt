-- ===== src/ProtocolBuffer/Wide.antt =====
-- `ReadU64`, whose bytes are shifted as a 32-bit `int`.
use uhp_sql.Common.{
  ℕ, ◌+◌, ◌-◌, ◌*◌, ◌/◌, ◌%◌, ◌^◌, ◌≤◌, ◌<◌, bit_or, ◌≡◌, ap, some, [], ◌++◌, arith, Bytes,
}
use uhp_sql.Common.Bits.{bit_or_fields, le-bit_or, le-bit_or_right, bit_or-zero}
use uhp_sql.ProtocolBuffer.{Platform, read_u64, write_u64, byte_shl, low_word, join_high}
use uhp_sql.ProtocolBuffer.Spec.{write_u64_lem}

low_word_small :
    (a b c d : ℕ)
    → a < 256
    → b < 256
    → c < 256
    → d < 128
    → low_word a b c d ≡ a + b * 256 + c * 65536 + d * 16777216
low_word_small a b c d ha hb hc hd =
    let eb : byte_shl b 8 ≡ b * 2 ^ 8 = ground arith in
    let ec : byte_shl c 16 ≡ c * 2 ^ 16 = ground arith in
    let ed : byte_shl d 24 ≡ d * 2 ^ 24 = ground arith in
    rw (eb, ec, ed, bit_or_fields 8 a b (omega arith))
      (omega (
        arith,
        bit_or_fields 16 (a + b * 2 ^ 8) c (omega arith),
        ap (λ (t : ℕ). bit_or t (d * 2 ^ 24)) (bit_or_fields 16 (a + b * 2 ^ 8) c (omega arith)),
        bit_or_fields 24 (a + b * 2 ^ 8 + c * 2 ^ 16) d (omega arith),
      ))

low_word_large : (a b c d : ℕ) → 128 ≤ d → d < 256 → 2 ^ 64 - 2 ^ 31 ≤ low_word a b c d
low_word_large a b c d lo hi =
    let ed : byte_shl d 24 ≡ d * 2 ^ 24 + (2 ^ 64 - 2 ^ 32) = ground arith in
    rw ed (
      omega (
        arith,
        le-bit_or_right (bit_or (bit_or a (byte_shl b 8)) (byte_shl c 16))
            (d * 2 ^ 24 + (2 ^ 64 - 2 ^ 32)),
      ))

le-join_high : (p : Platform) (low e f g h : ℕ) → low ≤ join_high p low e f g h
le-join_high p low e f g h = omega (
  arith,
  le-bit_or low (p.wide_shift e 32),
  le-bit_or (bit_or low (p.wide_shift e 32)) (p.wide_shift f 40),
  le-bit_or (bit_or (bit_or low (p.wide_shift e 32)) (p.wide_shift f 40)) (p.wide_shift g 48),
  le-bit_or
      (bit_or (bit_or (bit_or low (p.wide_shift e 32)) (p.wide_shift f 40)) (p.wide_shift g 48))
      (p.wide_shift h 56),
)

join_high_zeros :
    (p : Platform) (low : ℕ) → ((k : ℕ) → p.wide_shift 0 k ≡ 0) → join_high p low 0 0 0 0 ≡ low
join_high_zeros p low zeros = rw (zeros 32, zeros 40, zeros 48, zeros 56) (simp bit_or-zero)

-- Whatever the implementation makes of the shifts that are too wide, `ReadU64` does not read back
-- a number from 2 ^ 31 up to 2 ^ 32 that `WriteU64` wrote: it is read as at least 2 ^ 64 - 2 ^ 31.
pub read_u64-write_u64_wrong :
    (p : Platform) (v : ℕ) (rest : Bytes)
    → 2 ^ 31 ≤ v
    → v < 2 ^ 32
    → (r : ℕ) × (read_u64 p (write_u64 [] v ++ rest) ≡ some (r, rest)) × (2 ^ 64 - 2 ^ 31 ≤ r)
unfolding read_u64
read_u64-write_u64_wrong p v rest lo hi =
    let d3 = v / 256 / 256 / 256 in
    let low = low_word (v % 256) (v / 256 % 256) (v / 256 / 256 % 256) (d3 % 256) in
    let e = d3 / 256 in
    (
      join_high p low (e % 256) (e / 256 % 256) (e / 256 / 256 % 256) (e / 256 / 256 / 256 % 256),
      rw (write_u64_lem [] v),
      omega (
        arith,
        low_word_large (v % 256) (v / 256 % 256) (v / 256 / 256 % 256) (d3 % 256) (omega arith)
            (omega arith),
        le-join_high p low (e % 256) (e / 256 % 256) (e / 256 / 256 % 256)
            (e / 256 / 256 / 256 % 256),
      ),
    )

-- With wide shifts of a zero byte that give zero, `ReadU64` reads back every number below 2 ^ 31
-- that `WriteU64` wrote.
pub read_u64-write_u64 :
    (p : Platform) (v : ℕ) (rest : Bytes)
    → ((k : ℕ) → p.wide_shift 0 k ≡ 0)
    → v < 2 ^ 31
    → read_u64 p (write_u64 [] v ++ rest) ≡ some (v, rest)
unfolding read_u64
read_u64-write_u64 p v rest zeros h =
    let d3 = v / 256 / 256 / 256 in
    let z1 : d3 / 256 % 256 ≡ 0 = omega arith in
    let z2 : d3 / 256 / 256 % 256 ≡ 0 = omega arith in
    let z3 : d3 / 256 / 256 / 256 % 256 ≡ 0 = omega arith in
    let z4 : d3 / 256 / 256 / 256 / 256 % 256 ≡ 0 = omega arith in
    let e : low_word (v % 256) (v / 256 % 256) (v / 256 / 256 % 256) (d3 % 256) ≡ v = omega (
      arith,
      low_word_small (v % 256) (v / 256 % 256) (v / 256 / 256 % 256) (d3 % 256) (omega arith)
          (omega arith) (omega arith) (omega arith),
    ) in
    rw (write_u64_lem [] v, z1, z2, z3, z4, join_high_zeros p _ zeros, e)
