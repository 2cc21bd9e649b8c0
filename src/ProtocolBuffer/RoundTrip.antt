-- ===== src/ProtocolBuffer/RoundTrip.antt =====
-- Length-encoded integers and strings: what is read back from what was written.
use uhp_sql.Common.{
  ℕ, ◌%◌, ◌^◌, ◌≤◌, ◌<◌, ◌≡◌, Bytes, [], ◌++◌, some, arith, length, take, drop, append_assoc,
  length-append, take-append_length, drop-append_length, take-append_le, drop-append_le,
}
use uhp_sql.ProtocolBuffer.{
  Platform, read_len_encode, read_string, read_len_encode_string, write_len_encode,
  write_len_encode_string,
}
use uhp_sql.ProtocolBuffer.Spec.{len_prefix, write_len_encode_lem, write_len_encode_string_lem}
use uhp_sql.ProtocolBuffer.Fixed.{read_u16-le_bytes, read_u24-le_bytes}

pub read_len_encode-len_prefix :
    (p : Platform) (v : ℕ) (rest : Bytes)
    → v < 2 ^ 24
    → read_len_encode p (len_prefix v ++ rest) ≡ some (v % 2 ^ 16, rest)
unfolding read_len_encode
read_len_encode-len_prefix p v rest h =
    ground (arith, read_u16-le_bytes v rest, read_u24-le_bytes v rest)

-- A length below 2 ^ 24 that `WriteLenEncode` appends is read back by `ReadLenEncode` up to 2 ^ 16,
-- with whatever follows left over: from 2 ^ 16 on, where the three-byte form is used, only its low
-- sixteen bits come back.
pub read-write_len_encode :
    (p : Platform) (v : ℕ) (rest : Bytes)
    → v < 2 ^ 24
    → read_len_encode p (write_len_encode [] v ++ rest) ≡ some (v % 2 ^ 16, rest)
read-write_len_encode p v rest h =
    rw (write_len_encode_lem [] v (omega arith)) (read_len_encode-len_prefix p v rest h)

pub read_string-append : (s rest : Bytes) → read_string (length s) (s ++ rest) ≡ some (s, rest)
unfolding read_string
read_string-append s rest =
    ground (arith, length-append s rest, take-append_length s rest, drop-append_length s rest)

-- The encoded string as it stands in a packet, and its reading.
pub read_encoded_string :
    (p : Platform) (s rest : Bytes)
    → length s < 2 ^ 16
    → read_len_encode_string p (len_prefix (length s) ++ (s ++ rest)) ≡ some (s, rest)
unfolding read_len_encode_string
read_encoded_string p s rest h =
    let small : length s % 2 ^ 16 ≡ length s = omega arith in
    rw (read_len_encode-len_prefix p (length s) (s ++ rest) (omega arith), small)
      (read_string-append s rest)

-- A string shorter than 2 ^ 16 bytes that `WriteLenEncodeString` appends is read back by
-- `ReadLenEncodeString`, with whatever follows left over.
pub read-write_len_encode_string :
    (p : Platform) (s rest : Bytes)
    → length s < 2 ^ 16
    → read_len_encode_string p (write_len_encode_string [] s ++ rest) ≡ some (s, rest)
read-write_len_encode_string p s rest h =
    rw (write_len_encode_string_lem [] s (omega arith), append_assoc (len_prefix (length s)) s rest)
      (read_encoded_string p s rest h)

-- A string of at least 2 ^ 16 and below 2 ^ 24 bytes is cut when it is read back: its first
-- `length % 2 ^ 16` bytes are the result, and the others stay in front of whatever follows.
pub long_string_cut :
    (p : Platform) (s rest : Bytes)
    → 2 ^ 16 ≤ length s
    → length s < 2 ^ 24
    → read_len_encode_string p (write_len_encode_string [] s ++ rest)
      ≡ some (take (length s % 2 ^ 16) s, drop (length s % 2 ^ 16) s ++ rest)
unfolding read_len_encode_string read_string
long_string_cut p s rest lo hi =
    rw
      (
        write_len_encode_string_lem [] s (omega arith),
        append_assoc (len_prefix (length s)) s rest,
        read_len_encode-len_prefix p (length s) (s ++ rest) hi,
      )
      (ground (
        arith,
        length-append s rest,
        take-append_le (length s % 2 ^ 16) s rest (omega arith),
        drop-append_le (length s % 2 ^ 16) s rest (omega arith),
      ))
