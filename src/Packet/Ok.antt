-- ===== src/Packet/Ok.antt =====
-- network/ok.cc.
use uhp_sql.Common.{
  ℕ, ◌%◌, ◌^◌, ◌<◌, ◌≡◌, Option, some, [], ◌∷◌, ◌++◌, append_assoc, arith, Bytes, ◌>>=◌,
}
use uhp_sql.ProtocolBuffer.{
  Platform, read_u8, read_u16, read_len_encode, write_u8, write_u16, write_len_encode,
}
use uhp_sql.ProtocolBuffer.Spec.{le_bytes, len_prefix, write_u16_lem, write_len_encode_lem}
use uhp_sql.ProtocolBuffer.Fixed.{read_u16-le_bytes}
use uhp_sql.ProtocolBuffer.RoundTrip.{read_len_encode-len_prefix}

abbrev pub ok_packet : ℕ
ok_packet = 0x00

-- `OkPacket::Pack`. The `Impl` that it also fills is read by nothing.
unfoldable pub pack : ℕ → ℕ → ℕ → ℕ → Bytes
pack affected_rows last_insert_id status_flags warnings =
    let head = write_u8 [] ok_packet in
    let ids = write_len_encode (write_len_encode head affected_rows) last_insert_id in
    write_u16 (write_u16 ids status_flags) warnings

pub pack_lem :
    (rows id flags warnings : ℕ)
    → rows < 2 ^ 64
    → id < 2 ^ 64
    → pack rows id flags warnings
      ≡ 0 ∷ (len_prefix rows ++ (len_prefix id ++ (le_bytes 2 flags ++ le_bytes 2 warnings)))
unfolding pack write_u8
pack_lem rows id flags warnings hr hi =
    rw
      (
        write_len_encode_lem (0 ∷ []) rows hr,
        write_len_encode_lem (0 ∷ len_prefix rows) id hi,
        write_u16_lem (0 ∷ (len_prefix rows ++ len_prefix id)) flags,
        write_u16_lem (0 ∷ ((len_prefix rows ++ len_prefix id) ++ le_bytes 2 flags)) warnings,
      )
      (simp append_assoc)

-- A client's reading of an OK packet, by the readers of network/protocol_buffer.cc in the order of
-- the protocol.
abbrev pub parse : Platform → Bytes → Option (ℕ × ℕ × ℕ × ℕ × ℕ)
parse p packet = do
  head ← read_u8 packet
  rows ← read_len_encode p head.1
  id ← read_len_encode p rows.1
  flags ← read_u16 id.1
  warn ← read_u16 flags.1
  some (head.0, rows.0, id.0, flags.0, warn.0)

-- A client reads back from an OK packet the header 0, the two counts, the status flags and the
-- warnings, for counts below 2 ^ 16 and flags and warnings of sixteen bits.
pub parse-pack_ok :
    (p : Platform) (rows id flags warnings : ℕ)
    → rows < 2 ^ 16
    → id < 2 ^ 16
    → flags < 2 ^ 16
    → warnings < 2 ^ 16
    → parse p (pack rows id flags warnings) ≡ some (ok_packet, rows, id, flags, warnings)
unfolding read_u8
parse-pack_ok p rows id flags warnings hr hi hf hw =
    let er : rows % 2 ^ 16 ≡ rows = omega arith in
    let ei : id % 2 ^ 16 ≡ id = omega arith in
    let tail : Bytes = le_bytes 2 flags ++ le_bytes 2 warnings in
    rw (
      pack_lem rows id flags warnings (omega arith) (omega arith),
      read_len_encode-len_prefix p rows (len_prefix id ++ tail) (omega arith),
      er,
      read_len_encode-len_prefix p id tail (omega arith),
      ei,
      read_u16-le_bytes flags (le_bytes 2 warnings) hf,
      read_u16-le_bytes warnings [] hw,
    )
