-- ===== src/ProtocolBuffer/Fixed.antt =====
-- The integers of fixed width: what is read back from what was written.
use uhp_sql.Common.{ℕ, ◌+◌, ◌*◌, ◌/◌, ◌%◌, ◌^◌, ◌<◌, ◌≡◌, bit_or, Bytes, [], ◌++◌, some, arith}
use uhp_sql.Common.Bits.{bit_or_fields}
use uhp_sql.ProtocolBuffer.{
  read_u16, read_u24, read_u32, write_u16, write_u24, write_u32, u16, u32, shl,
}
use uhp_sql.ProtocolBuffer.Spec.{le_bytes, write_u16_lem, write_u24_lem, write_u32_lem}

-- The digits, put together as the readers do.
pub join_two : (a b : ℕ) → a < 256 → b < 256 → bit_or (u16 a) (u16 (shl b 8)) ≡ a + b * 256
join_two a b ha hb =
    let ea : u16 a ≡ a = omega arith in
    let eb : u16 (shl b 8) ≡ b * 2 ^ 8 = omega arith in
    rw (ea, eb) (omega (arith, bit_or_fields 8 a b (omega arith)))

pub join_three :
    (a b c : ℕ)
    → a < 256
    → b < 256
    → c < 256
    → bit_or (bit_or (u32 a) (u32 (shl b 8))) (u32 (shl c 16)) ≡ a + b * 256 + c * 65536
join_three a b c ha hb hc =
    let ea : u32 a ≡ a = omega arith in
    let eb : u32 (shl b 8) ≡ b * 2 ^ 8 = omega arith in
    let ec : u32 (shl c 16) ≡ c * 2 ^ 16 = omega arith in
    rw (ea, eb, ec, bit_or_fields 8 a b (omega arith))
      (omega (arith, bit_or_fields 16 (a + b * 2 ^ 8) c (omega arith)))

pub join_four :
    (a b c d : ℕ)
    → a < 256
    → b < 256
    → c < 256
    → d < 256
    → bit_or (bit_or (bit_or (u32 a) (u32 (shl b 8))) (u32 (shl c 16))) (u32 (shl d 24))
      ≡ a + b * 256 + c * 65536 + d * 16777216
join_four a b c d ha hb hc hd =
    let ed : u32 (shl d 24) ≡ d * 2 ^ 24 = omega arith in
    rw (ed, join_three a b c ha hb hc)
      (omega (arith, bit_or_fields 24 (a + b * 256 + c * 65536) d (omega arith)))

pub read_u16-le_bytes :
    (v : ℕ) (rest : Bytes) → v < 2 ^ 16 → read_u16 (le_bytes 2 v ++ rest) ≡ some (v, rest)
unfolding read_u16
read_u16-le_bytes v rest h =
    ground (arith, join_two (v % 256) (v / 256 % 256) (omega arith) (omega arith))

-- `ReadU24` keeps the low sixteen bits only.
pub read_u24-le_bytes :
    (v : ℕ) (rest : Bytes) → v < 2 ^ 24 → read_u24 (le_bytes 3 v ++ rest) ≡ some (v % 2 ^ 16, rest)
unfolding read_u24
read_u24-le_bytes v rest h = ground (
  arith,
  join_three (v % 256) (v / 256 % 256) (v / 256 / 256 % 256) (omega arith) (omega arith)
      (omega arith),
)

pub read_u32-le_bytes :
    (v : ℕ) (rest : Bytes) → v < 2 ^ 32 → read_u32 (le_bytes 4 v ++ rest) ≡ some (v, rest)
unfolding read_u32
read_u32-le_bytes v rest h = ground (
  arith,
  join_four (v % 256) (v / 256 % 256) (v / 256 / 256 % 256) (v / 256 / 256 / 256 % 256)
      (omega arith) (omega arith) (omega arith) (omega arith),
)

-- A `uint16_t` and a `uint32_t` written at the end of any packet are read back, with whatever
-- follows them left over; of a 24-bit number `ReadU24` gives the low sixteen bits.
pub fixed_round_trip :
    (v : ℕ) (rest : Bytes)
    → (v < 2 ^ 16 → read_u16 (write_u16 [] v ++ rest) ≡ some (v, rest))
      × (v < 2 ^ 24 → read_u24 (write_u24 [] v ++ rest) ≡ some (v % 2 ^ 16, rest))
      × (v < 2 ^ 32 → read_u32 (write_u32 [] v ++ rest) ≡ some (v, rest))
fixed_round_trip v rest = (
  λ h. rw (write_u16_lem [] v) (read_u16-le_bytes v rest h),
  λ h. rw (write_u24_lem [] v) (read_u24-le_bytes v rest h),
  λ h. rw (write_u32_lem [] v) (read_u32-le_bytes v rest h),
)
