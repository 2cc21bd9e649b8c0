-- ===== src/Packet/Row.antt =====
-- `RowPacket` of network/field.cc.
use uhp_sql.Common.{
  ℕ, zero, suc, ◌^◌, ◌<◌, ◌≡◌, sym, Bool, true, Option, some, List, [], ◌∷◌, ◌++◌, append-nil,
  append_assoc, arith, Bytes, ◌>>=◌, length, All,
}
use uhp_sql.ProtocolBuffer.{Platform, read_len_encode_string, write_len_encode_string}
use uhp_sql.ProtocolBuffer.Spec.{len_prefix, write_len_encode_string_lem}
use uhp_sql.ProtocolBuffer.RoundTrip.{read_encoded_string}

-- The loop of `RowPacket::Pack`.
unfoldable pub pack_onto : Bytes → List Bytes → Bytes
pack_onto packet [] = packet
pack_onto packet (str ∷ row) = pack_onto (write_len_encode_string packet str) row

unfoldable pub pack : List Bytes → Bytes
unfolding pack_onto
pack row = pack_onto [] row

-- The loop of `RowPacket::UnPack`, which appends to `impl_->row`.
unpack_columns : Platform → ℕ → Bytes → List Bytes → Option (List Bytes × Bytes)
unpack_columns p zero seek row = some (row, seek)
unpack_columns p (suc n) seek row =
    read_len_encode_string p seek >>= λ r. unpack_columns p n r.1 (row ++ r.0 ∷ [])

-- `RowPacket::UnPack` on a packet object that holds `row`; it always returns true.
unfoldable pub unpack : Platform → List Bytes → Bytes → ℕ → Option (List Bytes × Bool)
unfolding unpack_columns
unpack p row packet col_count = unpack_columns p col_count packet row >>= λ r. some (r.0, true)

-- `RowPacket::ToString`: every column with a space behind it.
pub to_string : List Bytes → Bytes
to_string [] = []
to_string (str ∷ row) = str ++ (32 ∷ to_string row)

-- The columns one after the other, each with its length.
abbrev pub encoded : List Bytes → Bytes
encoded [] = []
encoded (str ∷ row) = len_prefix (length str) ++ (str ++ encoded row)

-- Every column is shorter than `n` bytes.
abbrev pub Shorter : ℕ → List Bytes → Type 0
Shorter n = All (λ s. length s < n)

pack_onto_lem :
    (packet : Bytes) (row : List Bytes)
    → Shorter (2 ^ 64) row
    → pack_onto packet row ≡ packet ++ encoded row
unfolding pack_onto
pack_onto_lem packet [] h = sym (append-nil packet)
pack_onto_lem packet (str ∷ row) (hs, hr) =
    rw
      (
        pack_onto_lem (write_len_encode_string packet str) row hr,
        write_len_encode_string_lem packet str hs,
      )
      (simp append_assoc)

pub pack_lem : (row : List Bytes) → Shorter (2 ^ 64) row → pack row ≡ encoded row
unfolding pack
pack_lem row h = pack_onto_lem [] row h

Shorter-wider : (row : List Bytes) → Shorter (2 ^ 16) row → Shorter (2 ^ 64) row
Shorter-wider [] h = h
Shorter-wider (str ∷ row) (hs, hr) = (omega arith, Shorter-wider row hr)

unpack_columns-encoded :
    (p : Platform) (row seen : List Bytes) (rest : Bytes)
    → Shorter (2 ^ 16) row
    → unpack_columns p (length row) (encoded row ++ rest) seen ≡ some (seen ++ row, rest)
unfolding unpack_columns
unpack_columns-encoded p [] seen rest h = rw append-nil
unpack_columns-encoded p (str ∷ row) seen rest (hs, hr) =
    rw
      (
        append_assoc (len_prefix (length str)) (str ++ encoded row) rest,
        append_assoc str (encoded row) rest,
        read_encoded_string p str (encoded row ++ rest) hs,
        unpack_columns-encoded p row (seen ++ str ∷ []) rest hr,
      )
      (simp append_assoc)

-- `UnPack` with the right number of columns appends to the object's row exactly the columns that
-- `Pack` wrote, for columns shorter than 2 ^ 16 bytes.
pub unpack-pack_row :
    (p : Platform) (row seen : List Bytes)
    → Shorter (2 ^ 16) row
    → unpack p seen (pack row) (length row) ≡ some (seen ++ row, true)
unfolding unpack
unpack-pack_row p row seen h = rw (
  pack_lem row (Shorter-wider row h),
  ← append-nil (encoded row),
  unpack_columns-encoded p row seen [] h,
)
