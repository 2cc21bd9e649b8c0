-- ===== src/Packet/Err.antt =====
-- network/err.cc.
use uhp_sql.Common.{
  ℕ, ◌^◌, ◌<◌, ◌≡◌, Option, some, [], ◌∷◌, ◌++◌, append_assoc, Bytes, ◌>>=◌, length,
}
use uhp_sql.ProtocolBuffer.{read_u8, read_u16, read_string, write_u8, write_u16, write_string}
use uhp_sql.ProtocolBuffer.Spec.{le_bytes, write_u16_lem}
use uhp_sql.ProtocolBuffer.Fixed.{read_u16-le_bytes}
use uhp_sql.ProtocolBuffer.RoundTrip.{read_string-append}

abbrev pub err_packet : ℕ
err_packet = 0xff

-- `ErrPacket::Pack`. Under `sqlState == ""` the source compares with "HY000" and drops the result,
-- so the state is written as it is. The `Impl` that it also fills is read by nothing.
unfoldable pub pack : ℕ → Bytes → Bytes → Bytes
pack error_code sql_state error_message =
    let head = write_u16 (write_u8 [] err_packet) error_code in
    write_string (write_string (write_u8 head b'#') sql_state) error_message

pub pack_lem :
    (code : ℕ) (state message : Bytes)
    → pack code state message ≡ 0xff ∷ (le_bytes 2 code ++ b'#' ∷ (state ++ message))
unfolding pack write_u8 write_string
pack_lem code state message = rw (write_u16_lem (0xff ∷ []) code) (simp append_assoc)

-- A client's reading of an ERR packet: the header, the code, the marker `#`, a state of five bytes
-- and the message.
abbrev pub parse : Bytes → Option (ℕ × ℕ × Bytes × Bytes)
parse packet = do
  head ← read_u8 packet
  code ← read_u16 head.1
  marker ← read_u8 code.1
  state ← read_string 5 marker.1
  some (head.0, code.0, state.0, state.1)

-- A client reads back the error code, the state and the message of an ERR packet whose state has
-- five bytes and whose code has sixteen bits.
pub parse-pack_err :
    (code : ℕ) (state message : Bytes)
    → code < 2 ^ 16
    → length state ≡ 5
    → parse (pack code state message) ≡ some (err_packet, code, state, message)
unfolding read_u8
parse-pack_err code state message hc hs = rw (
  pack_lem code state message,
  read_u16-le_bytes code (b'#' ∷ (state ++ message)) hc,
  ← hs,
  read_string-append state message,
)

-- With an empty state, the client takes the first five bytes of the message for the state and
-- loses them from the message: the default "HY000" is not put in.
pub parse-pack_err_empty_state :
    (code : ℕ) (front message : Bytes)
    → code < 2 ^ 16
    → length front ≡ 5
    → parse (pack code [] (front ++ message)) ≡ some (err_packet, code, front, message)
unfolding read_u8
parse-pack_err_empty_state code front message hc hs = rw (
  pack_lem code [] (front ++ message),
  read_u16-le_bytes code (b'#' ∷ (front ++ message)) hc,
  ← hs,
  read_string-append front message,
)
