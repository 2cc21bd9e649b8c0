-- ===== src/Packet/Field.antt =====
-- `FieldPacket` of network/field.cc: the description of a column.
pub mod RoundTrip
use uhp_sql.Common.{ℕ, Bool, true, Option, some, [], Bytes, codes, ◌>>=◌}
use uhp_sql.ProtocolBuffer.{
  Platform, u8, u16, read_u8, read_u16, read_u32, read_len_encode, read_len_encode_string, write_u8,
  write_u16, write_u32, write_len_encode, write_len_encode_string,
}
use uhp_sql.FieldType.{mysql_to_type, wire_code, wire_flags}

-- `FieldPacket::Impl`.
pub record Field : Type 0 where
  pub name : Bytes
  pub type : ℕ
  pub table : Bytes
  pub org_table : Bytes
  pub data_base : Bytes
  pub org_name : Bytes
  pub column_length : ℕ
  pub charset : ℕ
  pub decimals : ℕ
  pub flags : ℕ

unfoldable pub pack : Field → Bytes
pack f =
    let catalog = write_len_encode_string [] (codes "def") in
    let schema = write_len_encode_string catalog f.data_base in
    let tables = write_len_encode_string (write_len_encode_string schema f.table) f.org_table in
    let names = write_len_encode_string (write_len_encode_string tables f.name) f.org_name in
    let charset = write_u16 (write_len_encode names 0x0c) (u16 f.charset) in
    let size = write_u32 charset f.column_length in
    let code = write_u8 size (u8 (wire_code f.type)) in
    let flags = write_u16 code (u16 (wire_flags f.type)) in
    write_u16 (write_u8 flags (u8 f.decimals)) 0

-- The five strings behind the catalog, which is read and printed only.
unpack_strings : Platform → Bytes → Option (Bytes × Bytes × Bytes × Bytes × Bytes × Bytes)
unpack_strings p packet = do
  catalog ← read_len_encode_string p packet
  data_base ← read_len_encode_string p catalog.1
  table ← read_len_encode_string p data_base.1
  org_table ← read_len_encode_string p table.1
  name ← read_len_encode_string p org_table.1
  org_name ← read_len_encode_string p name.1
  some (data_base.0, table.0, org_table.0, name.0, org_name.0, org_name.1)

-- The fixed-length part: charset, column length, type, flags and decimals.
unpack_numbers : Platform → Bytes → Option (ℕ × ℕ × ℕ × ℕ × ℕ)
unpack_numbers p it = do
  skipped ← read_len_encode p it
  charset ← read_u16 skipped.1
  size ← read_u32 charset.1
  code ← read_u8 size.1
  flags ← read_u16 code.1
  decimals ← read_u8 flags.1
  some (charset.0, size.0, code.0, flags.0, decimals.0)

-- `FieldPacket::UnPack`: it sets every member, and always returns true.
unfoldable pub unpack : Platform → Bytes → Option (Field × Bool)
unfolding unpack_strings unpack_numbers
unpack p packet = do
  s ← unpack_strings p packet
  n ← unpack_numbers p s.5
  some (
    record {
      name = s.3;
      type = mysql_to_type n.2 n.3;
      table = s.1;
      org_table = s.2;
      data_base = s.0;
      org_name = s.4;
      column_length = n.1;
      charset = n.0;
      decimals = n.4;
      flags = n.3;
    },
    true,
  )
