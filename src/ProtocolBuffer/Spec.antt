-- ===== src/ProtocolBuffer/Spec.antt =====
-- The wire format: little-endian digits in base 256, and the length prefix of a string.
use uhp_sql.Common.{
  ℕ, zero, suc, ◌/◌, ◌%◌, ◌^◌, ◌<◌, ◌≡◌, Bytes, [], ◌∷◌, ◌++◌, append_assoc, arith, ltb,
  if◌then◌else◌, length,
}
use uhp_sql.ProtocolBuffer.{
  write_u8, write_u16, write_u24, write_u32, write_u64, write_len_encode, write_string,
  write_len_encode_string,
}

-- The `n` low bytes of `v`, the lowest first.
abbrev pub le_bytes : ℕ → ℕ → Bytes
le_bytes zero v = []
le_bytes (suc n) v = v % 256 ∷ le_bytes n (v / 256)

-- The length prefix of the protocol.
abbrev pub len_prefix : ℕ → Bytes
len_prefix v =
    if ltb v 251
    then v ∷ []
    else if ltb v (2 ^ 16)
    then 0xfc ∷ le_bytes 2 v
    else if ltb v (2 ^ 24)
    then 0xfd ∷ le_bytes 3 v
    else 0xfe ∷ le_bytes 8 v

pub write_u16_lem : (packet : Bytes) (v : ℕ) → write_u16 packet v ≡ packet ++ le_bytes 2 v
unfolding write_u16
write_u16_lem packet v = simp append_assoc (ground arith)

pub write_u24_lem : (packet : Bytes) (v : ℕ) → write_u24 packet v ≡ packet ++ le_bytes 3 v
unfolding write_u24
write_u24_lem packet v = simp append_assoc (ground arith)

pub write_u32_lem : (packet : Bytes) (v : ℕ) → write_u32 packet v ≡ packet ++ le_bytes 4 v
unfolding write_u32
write_u32_lem packet v = simp append_assoc (ground arith)

pub write_u64_lem : (packet : Bytes) (v : ℕ) → write_u64 packet v ≡ packet ++ le_bytes 8 v
unfolding write_u64
write_u64_lem packet v = simp append_assoc (ground arith)

-- Appending a length writes its prefix; `static_cast` in the source changes nothing there.
pub write_len_encode_lem :
    (packet : Bytes) (v : ℕ) → v < 2 ^ 64 → write_len_encode packet v ≡ packet ++ len_prefix v
unfolding write_len_encode write_u8
write_len_encode_lem packet v h = ground (
  arith,
  write_u16_lem (packet ++ 0xfc ∷ []) (v % 2 ^ 16),
  write_u24_lem (packet ++ 0xfd ∷ []) (v % 2 ^ 32),
  write_u64_lem (packet ++ 0xfe ∷ []) v,
  append_assoc packet (0xfc ∷ []) (le_bytes 2 v),
  append_assoc packet (0xfd ∷ []) (le_bytes 3 v),
  append_assoc packet (0xfe ∷ []) (le_bytes 8 v),
)

pub write_len_encode_string_lem :
    (packet s : Bytes)
    → length s < 2 ^ 64
    → write_len_encode_string packet s ≡ packet ++ (len_prefix (length s) ++ s)
unfolding write_len_encode_string write_string
write_len_encode_string_lem packet s h =
    rw (write_len_encode_lem packet (length s) h) (append_assoc packet (len_prefix (length s)) s)

-- The same facts with the packet last, as rewriting rules.
pub onto_length :
    (v : ℕ) → v < 2 ^ 64 → (packet : Bytes) → write_len_encode packet v ≡ packet ++ len_prefix v
onto_length v h packet = write_len_encode_lem packet v h

pub onto_string :
    (s : Bytes)
    → length s < 2 ^ 64
    → (packet : Bytes) → write_len_encode_string packet s ≡ packet ++ (len_prefix (length s) ++ s)
onto_string s h packet = write_len_encode_string_lem packet s h
