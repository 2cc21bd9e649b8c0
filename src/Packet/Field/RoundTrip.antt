-- ===== src/Packet/Field/RoundTrip.antt =====
-- `FieldPacket::UnPack` after `FieldPacket::Pack`.
use uhp_sql.Common.{◌^◌, ◌<◌, ◌≡◌, true, some, ◌∷◌, ◌++◌, append_assoc, arith, Bytes, codes, length}
use uhp_sql.ProtocolBuffer.{Platform, u8, u16, read_u8, write_u8}
use uhp_sql.ProtocolBuffer.Spec.{
  le_bytes, len_prefix, write_u16_lem, write_u32_lem, onto_length, onto_string,
}
use uhp_sql.ProtocolBuffer.Fixed.{read_u16-le_bytes, read_u32-le_bytes}
use uhp_sql.ProtocolBuffer.RoundTrip.{read_encoded_string, read_len_encode-len_prefix}
use uhp_sql.FieldType.{type_to_mysql, wire_code, wire_flags}
use uhp_sql.FieldType.RoundTrip.{HasKey, mysql_to_type-wire, wire_fits}
use uhp_sql.Packet.Field.{Field, pack, unpack, unpack_strings, unpack_numbers}

-- The string `s` in a packet, in front of what follows.
abbrev encoded : Bytes → Bytes → Bytes
encoded s rest = len_prefix (length s) ++ (s ++ rest)

abbrev numbers : Field → Bytes
numbers f =
    0x0c
    ∷ (le_bytes 2 (u16 f.charset)
        ++ (le_bytes 4 f.column_length
            ++ u8 (wire_code f.type)
              ∷ (le_bytes 2 (u16 (wire_flags f.type)) ++ u8 f.decimals ∷ le_bytes 2 0)))

-- The members fit their types, and the strings are short enough to be read back.
pub record Fits (f : Field) : Type 0 where
  pub name : length f.name < 2 ^ 16
  pub table : length f.table < 2 ^ 16
  pub org_table : length f.org_table < 2 ^ 16
  pub data_base : length f.data_base < 2 ^ 16
  pub org_name : length f.org_name < 2 ^ 16
  pub charset : f.charset < 2 ^ 16
  pub column_length : f.column_length < 2 ^ 32
  pub decimals : f.decimals < 2 ^ 8
  pub type : HasKey f.type type_to_mysql

pack_lem :
    (f : Field)
    → Fits f
    → pack f
      ≡ encoded (codes "def") (
          encoded f.data_base (
            encoded f.table
              (encoded f.org_table (encoded f.name (encoded f.org_name (numbers f))))))
unfolding pack write_u8
pack_lem f v = simp (
  onto_string (codes "def") (omega arith),
  onto_string f.data_base (omega arith),
  onto_string f.table (omega arith),
  onto_string f.org_table (omega arith),
  onto_string f.name (omega arith),
  onto_string f.org_name (omega arith),
  onto_length 0x0c (omega arith),
  write_u16_lem,
  write_u32_lem,
  append_assoc,
)

unpack_strings-encoded :
    (p : Platform) (a b c d e rest : Bytes)
    → length a < 2 ^ 16
    → length b < 2 ^ 16
    → length c < 2 ^ 16
    → length d < 2 ^ 16
    → length e < 2 ^ 16
    → unpack_strings p
        (encoded (codes "def") (encoded a (encoded b (encoded c (encoded d (encoded e rest))))))
      ≡ some (a, b, c, d, e, rest)
unfolding unpack_strings
unpack_strings-encoded p a b c d e rest ha hb hc hd he = rw (
  read_encoded_string p (codes "def")
      (encoded a (encoded b (encoded c (encoded d (encoded e rest))))) (omega arith),
  read_encoded_string p a (encoded b (encoded c (encoded d (encoded e rest)))) ha,
  read_encoded_string p b (encoded c (encoded d (encoded e rest))) hb,
  read_encoded_string p c (encoded d (encoded e rest)) hc,
  read_encoded_string p d (encoded e rest) hd,
  read_encoded_string p e rest he,
)

unpack_numbers-numbers :
    (p : Platform) (f : Field)
    → Fits f
    → unpack_numbers p (numbers f)
      ≡ some (f.charset, f.column_length, wire_code f.type, wire_flags f.type, f.decimals)
unfolding unpack_numbers read_u8
unpack_numbers-numbers p f v =
    let ec : u16 f.charset ≡ f.charset = omega arith in
    let ed : u8 f.decimals ≡ f.decimals = omega arith in
    let code : u8 (wire_code f.type) ≡ wire_code f.type = omega (arith, wire_fits f.type v.type) in
    let flags : u16 (wire_flags f.type) ≡ wire_flags f.type =
      omega (arith, wire_fits f.type v.type) in
    let tail : Bytes = f.decimals ∷ le_bytes 2 0 in
    let body : Bytes = wire_code f.type ∷ (le_bytes 2 (wire_flags f.type) ++ tail) in
    rw (
      ec,
      ed,
      code,
      flags,
      read_len_encode-len_prefix p 0x0c
          (le_bytes 2 f.charset ++ (le_bytes 4 f.column_length ++ body)) (omega arith),
      read_u16-le_bytes f.charset (le_bytes 4 f.column_length ++ body) v.charset,
      read_u32-le_bytes f.column_length body v.column_length,
      read_u16-le_bytes (wire_flags f.type) tail (wire_fits f.type v.type).1,
    )

-- `UnPack` restores every member that `Pack` wrote, for a column that fits: members that fit their
-- wire types, strings shorter than 2 ^ 16 bytes and a type of the table. The flags, which `Pack`
-- does not write, come back as those of the type.
pub unpack-pack_field :
    (p : Platform) (f : Field)
    → Fits f
    → unpack p (pack f) ≡ some (record f { flags = wire_flags f.type }, true)
unfolding unpack
unpack-pack_field p f v = rw (
  pack_lem f v,
  unpack_strings-encoded p f.data_base f.table f.org_table f.name f.org_name (numbers f) v.data_base
      v.table v.org_table v.name v.org_name,
  unpack_numbers-numbers p f v,
  mysql_to_type-wire f.type v.type,
)
