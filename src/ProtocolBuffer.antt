-- ===== src/ProtocolBuffer.antt =====
-- network/protocol_buffer.cc: the little-endian integers and the length-encoded strings of the
-- MySQL wire format. A packet under construction is its bytes; an iterator into a packet is the
-- bytes from it to the end, and a read past the end, undefined in the source, is `none`.
pub mod Spec
pub mod Fixed
pub mod RoundTrip
pub mod Wide
use uhp_sql.Common.{
  ℕ, ◌+◌, ◌-◌, ◌*◌, ◌/◌, ◌%◌, ◌^◌, bit_or, Bytes, [], ◌∷◌, ◌++◌, Option, none, some, ltb, leb, ◌==◌,
  if◌then◌else◌, length, take, drop, ◌>>=◌,
}

-- The casts to `uint8_t`, `uint16_t`, `uint32_t`.
abbrev pub u8 : ℕ → ℕ
u8 v = v % 2 ^ 8

abbrev pub u16 : ℕ → ℕ
u16 v = v % 2 ^ 16

abbrev pub u32 : ℕ → ℕ
u32 v = v % 2 ^ 32

abbrev pub shl : ℕ → ℕ → ℕ
shl v k = v * 2 ^ k

abbrev pub shr : ℕ → ℕ → ℕ
shr v k = v / 2 ^ k

-- What the source leaves to the C++ implementation: the value of `int << k` for k of at least the
-- width of `int` (undefined), and the address of `std::numeric_limits<uint64_t>::max`, a function
-- that the source casts to an integer without calling it.
pub record Platform : Type 0 where
  pub wide_shift : ℕ → ℕ → ℕ
  pub max_address : ℕ

-- The 64-bit word for a 32-bit `int` given by its bit pattern: a set top bit is copied upwards.
abbrev pub sign_extend : ℕ → ℕ
sign_extend w = if ltb w (2 ^ 31) then w else w + (2 ^ 64 - 2 ^ 32)

-- `static_cast<uint64_t>(b << k)` for a byte, which is shifted as an `int`.
abbrev pub byte_shl : ℕ → ℕ → ℕ
byte_shl b k = sign_extend (u32 (shl b k))

unfoldable pub read_u8 : Bytes → Option (ℕ × Bytes)
read_u8 (a ∷ it) = some (a, it)
read_u8 _ = none

unfoldable pub read_u16 : Bytes → Option (ℕ × Bytes)
read_u16 (a ∷ b ∷ it) = some (bit_or (u16 a) (u16 (shl b 8)), it)
read_u16 _ = none

-- The result type of `ReadU24` is `uint16_t`.
unfoldable pub read_u24 : Bytes → Option (ℕ × Bytes)
read_u24 (a ∷ b ∷ c ∷ it) =
    some (u16 (bit_or (bit_or (u32 a) (u32 (shl b 8))) (u32 (shl c 16))), it)
read_u24 _ = none

unfoldable pub read_u32 : Bytes → Option (ℕ × Bytes)
read_u32 (a ∷ b ∷ c ∷ d ∷ it) =
    some (bit_or (bit_or (bit_or (u32 a) (u32 (shl b 8))) (u32 (shl c 16))) (u32 (shl d 24)), it)
read_u32 _ = none

-- The eight bytes as `ReadU64` joins them: the first four with shifts of an `int`, the others with
-- shifts by at least its width.
abbrev pub low_word : ℕ → ℕ → ℕ → ℕ → ℕ
low_word a b c d = bit_or (bit_or (bit_or a (byte_shl b 8)) (byte_shl c 16)) (byte_shl d 24)

abbrev pub join_high : Platform → ℕ → ℕ → ℕ → ℕ → ℕ → ℕ
join_high p low e f g h =
    let mid = bit_or (bit_or low (p.wide_shift e 32)) (p.wide_shift f 40) in
    bit_or (bit_or mid (p.wide_shift g 48)) (p.wide_shift h 56)

unfoldable pub read_u64 : Platform → Bytes → Option (ℕ × Bytes)
read_u64 p (a ∷ b ∷ c ∷ d ∷ e ∷ f ∷ g ∷ h ∷ it) = some (join_high p (low_word a b c d) e f g h, it)
read_u64 p _ = none

-- The `switch` of `ReadLenEncode` on the first byte.
read_len_body : Platform → ℕ → Bytes → Option (ℕ × Bytes)
read_len_body p first it =
    if first == 0xfb
    then some (p.max_address, it)
    else if first == 0xfc
    then read_u16 it
    else if first == 0xfd
    then read_u24 it
    else if first == 0xfe
    then read_u64 p it
    else some (first, it)

unfoldable pub read_len_encode : Platform → Bytes → Option (ℕ × Bytes)
unfolding read_u8 read_len_body
read_len_encode p it = read_u8 it >>= λ r. read_len_body p r.0 r.1

unfoldable pub read_string : ℕ → Bytes → Option (Bytes × Bytes)
read_string n it = if leb n (length it) then some (take n it, drop n it) else none

unfoldable pub read_len_encode_string : Platform → Bytes → Option (Bytes × Bytes)
read_len_encode_string p it = read_len_encode p it >>= λ r. read_string r.0 r.1

abbrev pub push_back : Bytes → ℕ → Bytes
push_back packet b = packet ++ b ∷ []

unfoldable pub write_u8 : Bytes → ℕ → Bytes
write_u8 packet v = push_back packet v

unfoldable pub write_u16 : Bytes → ℕ → Bytes
write_u16 packet v = push_back (push_back packet (u8 v)) (u8 (shr v 8))

unfoldable pub write_u24 : Bytes → ℕ → Bytes
write_u24 packet v = push_back (push_back (push_back packet (u8 v)) (u8 (shr v 8))) (u8 (shr v 16))

unfoldable pub write_u32 : Bytes → ℕ → Bytes
write_u32 packet v =
    let half = push_back (push_back packet (u8 v)) (u8 (shr v 8)) in
    push_back (push_back half (u8 (shr v 16))) (u8 (shr v 24))

unfoldable pub write_u64 : Bytes → ℕ → Bytes
write_u64 packet v =
    let two = push_back (push_back packet (u8 v)) (u8 (shr v 8)) in
    let four = push_back (push_back two (u8 (shr v 16))) (u8 (shr v 24)) in
    let six = push_back (push_back four (u8 (shr v 32))) (u8 (shr v 40)) in
    push_back (push_back six (u8 (shr v 48))) (u8 (shr v 56))

unfoldable pub write_len_encode : Bytes → ℕ → Bytes
write_len_encode packet v =
    if ltb v 251
    then write_u8 packet (u8 v)
    else if ltb v (2 ^ 16)
    then write_u16 (write_u8 packet 0xfc) (u16 v)
    else if ltb v (2 ^ 24)
    then write_u24 (write_u8 packet 0xfd) (u32 v)
    else write_u64 (write_u8 packet 0xfe) v

unfoldable pub write_len_encode_nul : Bytes → Bytes
write_len_encode_nul packet = write_u8 packet 0xfb

unfoldable pub write_string : Bytes → Bytes → Bytes
write_string packet v = packet ++ v

unfoldable pub write_len_encode_string : Bytes → Bytes → Bytes
write_len_encode_string packet v = write_string (write_len_encode packet (length v)) v
