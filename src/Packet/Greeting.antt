-- ===== src/Packet/Greeting.antt =====
-- network/greeting.cc: the server's handshake packet.
pub mod RoundTrip
use uhp_sql.Common.{
  ℕ, ◌%◌, ◌^◌, bit_or, Bool, true, false, Option, none, some, [], ◌++◌, map, Bytes, codes, ◌>>=◌,
  replicate,
}
use uhp_sql.ProtocolBuffer.{
  u8, u16, u32, shl, shr, read_u8, read_u16, read_u32, read_string, push_back,
}
use uhp_sql.Packet.{skip, find_zero}

-- `GreetingPacket::Impl`.
pub record Greeting : Type 0 where
  pub protocol_version : ℕ
  pub charset : ℕ
  pub status : ℕ
  pub capability : ℕ
  pub connection_id : ℕ
  pub server_version : Bytes
  pub auth_plugin_name : Bytes
  pub salt_part1 : Bytes
  pub salt_part2 : Bytes
  pub auth_plugin_data_length : ℕ

-- DEFAULT_SERVER_CAPABILITY: LONG_PASSWORD, LONG_FLAG, CONNECT_WITH_DB, PROTOCOL_41, TRANSACTIONS,
-- MULTI_STATEMENTS, PLUGIN_AUTH, DEPRECATE_EOF and SECURE_CONNECTION.
abbrev pub default_server_capability : ℕ
default_server_capability =
    bit_or
      (bit_or (bit_or (bit_or (bit_or (bit_or (bit_or (bit_or 1 4) 8) 512) 8192) (2 ^ 16)) (2 ^ 19))
        (2 ^ 24))
      32768

-- The constructor; `random1` and `random2` are the 8 and the 12 bytes that it reads from
-- /dev/urandom. The members that it leaves alone are value-initialised by `new Impl()`.
pub new : ℕ → Bytes → Bytes → Bytes → Greeting
new connection_id server_version random1 random2 = record {
  protocol_version = 10;
  charset = u8 33;
  status = u16 2;
  capability = u32 default_server_capability;
  connection_id = connection_id;
  server_version = server_version;
  auth_plugin_name = [];
  salt_part1 = map (λ b. b % 123) random1;
  salt_part2 = map (λ b. b % 123) random2;
  auth_plugin_data_length = 0;
}

-- Two bytes, the lower one first, as `Pack` writes the status and the capability halves.
abbrev put_u16 : Bytes → ℕ → Bytes
put_u16 packet v = push_back (push_back packet (u8 v)) (u8 (shr v 8))

unfoldable pub pack : Greeting → Bytes
pack g =
    let cap_lower = u16 g.capability in
    let cap_upper = u16 (shr g.capability 16) in
    let version = push_back (push_back [] g.protocol_version ++ g.server_version) 0x00 in
    let id_low = push_back (push_back version (u8 g.connection_id)) (u8 (shr g.connection_id 8)) in
    let id =
      push_back (push_back id_low (u8 (shr g.connection_id 16))) (u8 (shr g.connection_id 24)) in
    let salt = push_back (id ++ g.salt_part1) 0x00 in
    let charset = push_back (put_u16 salt cap_lower) g.charset in
    let flags = put_u16 (put_u16 charset g.status) cap_upper in
    let reserved = push_back flags 21 ++ replicate 10 0x00 in
    let salt2 = push_back (reserved ++ g.salt_part2) 0x00 in
    push_back (salt2 ++ codes "mysql_native_password") 0x00

-- The part of `UnPack` behind the server version; `g` holds what was read before.
unpack_body : Greeting → Bytes → Option (Greeting × Bool)
unpack_body g seek = do
  id ← read_u32 seek
  salt1 ← read_string 8 id.1
  after_filter ← skip 1 salt1.1
  lower ← read_u16 after_filter
  charset ← read_u8 lower.1
  status ← read_u16 charset.1
  upper ← read_u16 status.1
  size ← read_u8 upper.1
  after_reserved ← skip 10 size.1
  salt2 ← read_string 12 after_reserved
  seek' ← skip 1 salt2.1
  let g' = record g {
    connection_id = id.0;
    salt_part1 = salt1.0;
    charset = charset.0;
    status = status.0;
    capability = bit_or (u32 (shl upper.0 16)) lower.0;
    auth_plugin_data_length = size.0;
    salt_part2 = salt2.0;
  }
  elim (find_zero seek') [
    | none ↦ some (g', false)
    | some (name, rest) ↦ some (record g' { auth_plugin_name = name }, true)
  ]

-- The part behind the protocol version.
read_version : Greeting → Bytes → Option (Greeting × Bool)
read_version g seek = elim (find_zero seek) [
  | none ↦ some (g, false)
  | some (name, rest) ↦
      skip 1 rest >>= λ seek'. unpack_body (record g { server_version = name }) seek'
]

-- `UnPack` on a packet object that holds `g`. Where it returns false, what it had read stays.
pub unpack : Greeting → Bytes → Option (Greeting × Bool)
unpack g packet = do
  version ← read_u8 packet
  read_version (record g { protocol_version = version.0 }) version.1
