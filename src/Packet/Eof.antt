-- ===== src/Packet/Eof.antt =====
-- network/eof.cc.
use uhp_sql.Common.{ℕ, ◌^◌, ◌<◌, ◌≡◌, Bool, true, Option, some, [], ◌∷◌, ◌++◌, arith, Bytes, ◌>>=◌}
use uhp_sql.ProtocolBuffer.{u8, shr, push_back, read_u8, read_u16}
use uhp_sql.ProtocolBuffer.Spec.{le_bytes}
use uhp_sql.ProtocolBuffer.Fixed.{read_u16-le_bytes}

-- `EofPacket::Impl`.
pub record Eof : Type 0 where
  pub header : ℕ
  pub warnings : ℕ
  pub status_flags : ℕ

abbrev pub eof_packet : ℕ
eof_packet = 0xfe

unfoldable pub new : ℕ → ℕ → Eof
new warn_flag status_flag = record {
  header = eof_packet;
  warnings = warn_flag;
  status_flags = status_flag;
}

unfoldable pub pack : Eof → Bytes
pack e =
    let head = push_back [] e.header in
    let warn = push_back (push_back head (u8 e.warnings)) (u8 (shr e.warnings 8)) in
    push_back (push_back warn (u8 e.status_flags)) (u8 (shr e.status_flags 8))

-- Both fields are read by the expression that is also the body of `ReadU16`.
unfoldable pub unpack : Bytes → Option (Eof × Bool)
unpack packet = do
  head ← read_u8 packet
  warn ← read_u16 head.1
  status ← read_u16 warn.1
  some (record { header = head.0; warnings = warn.0; status_flags = status.0 }, true)

pub pack_lem : (e : Eof) → pack e ≡ e.header ∷ (le_bytes 2 e.warnings ++ le_bytes 2 e.status_flags)
unfolding pack
pack_lem e = ground arith

-- `UnPack` accepts what `Pack` wrote and restores the three fields, for fields that fit their types.
pub unpack-pack_eof :
    (e : Eof) → e.warnings < 2 ^ 16 → e.status_flags < 2 ^ 16 → unpack (pack e) ≡ some (e, true)
unfolding unpack read_u8
unpack-pack_eof e hw hs = ground (
  arith,
  pack_lem e,
  read_u16-le_bytes e.warnings (le_bytes 2 e.status_flags) hw,
  read_u16-le_bytes e.status_flags [] hs,
)
