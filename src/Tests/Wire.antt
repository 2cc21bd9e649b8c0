-- ===== src/Tests/Wire.antt =====
-- network/protocol_buffer.cc and network/type.h on small inputs.
use uhp_sql.Common.{ℕ, ◌-◌, ◌*◌, ◌%◌, ◌^◌, ◌≤◌, ◌≡◌, some, [], ◌∷◌, ◌++◌, arith}
use uhp_sql.ProtocolBuffer.{Platform, read_len_encode, write_len_encode, read_u64, write_u64}
use uhp_sql.ProtocolBuffer.RoundTrip as RoundTrip
use uhp_sql.ProtocolBuffer.Wide as Wide

-- An implementation whose wide shifts take the distance modulo 32, as x86 does.
abbrev x86 : Platform
x86 = record { wide_shift = λ b k. b * 2 ^ (k % 32); max_address = 4096 }

read-write_len_encode_example :
    read_len_encode x86 (write_len_encode [] 65537 ++ 7 ∷ []) ≡ some (1, 7 ∷ [])
read-write_len_encode_example = RoundTrip.read-write_len_encode x86 65537 (7 ∷ []) (omega arith)

read_u64-write_u64_wrong_example :
    (r : ℕ) × (read_u64 x86 (write_u64 [] (2 ^ 31) ++ []) ≡ some (r, [])) × (2 ^ 64 - 2 ^ 31 ≤ r)
read_u64-write_u64_wrong_example =
    Wide.read_u64-write_u64_wrong x86 (2 ^ 31) [] (omega arith) (omega arith)
