-- ===== src/Packet/Greeting/RoundTrip.antt =====
-- `GreetingPacket::UnPack` after `GreetingPacket::Pack`.
use uhp_sql.Common.{
  ℕ, suc, ◌+◌, ◌*◌, ◌/◌, ◌%◌, ◌^◌, ◌<◌, bit_or, ◌≡◌, refl, ap, ◌∙◌, true, some, [], ◌∷◌, ◌++◌, map,
  append_assoc, arith, Bytes, codes, length, replicate, length-append,
}
use uhp_sql.Common.Bits.{bit_or_fields, bit_or_comm}
use uhp_sql.ProtocolBuffer.{u16, u32, shl, shr, read_u8, read_string}
use uhp_sql.ProtocolBuffer.Spec.{le_bytes}
use uhp_sql.ProtocolBuffer.Fixed.{read_u16-le_bytes, read_u32-le_bytes}
use uhp_sql.ProtocolBuffer.RoundTrip.{read_string-append}
use uhp_sql.Packet.{NoZero, find_zero, skip-append, find_zero-append}
use uhp_sql.Packet.Greeting.{Greeting, new, pack, unpack, unpack_body, read_version}

-- The members fit the wire: a server version with no zero byte, 8 and 12 bytes of salt, and the
-- numbers within their types.
pub record Fits (g : Greeting) : Type 0 where
  pub server_version : NoZero g.server_version
  pub connection_id : g.connection_id < 2 ^ 32
  pub capability : g.capability < 2 ^ 32
  pub status : g.status < 2 ^ 16
  pub salt_part1 : length g.salt_part1 ≡ 8
  pub salt_part2 : length g.salt_part2 ≡ 12

abbrev plugin : Bytes
plugin = codes "mysql_native_password"

-- The packet behind the server version, in five parts.
-- The packet behind the server version, part by part from its end.
abbrev tail : Greeting → Bytes
tail g = g.salt_part2 ++ 0x00 ∷ (plugin ++ 0x00 ∷ [])

abbrev upper : Greeting → Bytes
upper g = le_bytes 2 (u16 (shr g.capability 16)) ++ 21 ∷ (replicate 10 0x00 ++ tail g)

abbrev lower : Greeting → Bytes
lower g = le_bytes 2 (u16 g.capability) ++ g.charset ∷ (le_bytes 2 g.status ++ upper g)

abbrev body : Greeting → Bytes
body g = le_bytes 4 g.connection_id ++ (g.salt_part1 ++ 0x00 ∷ lower g)

pack_lem : (g : Greeting) → pack g ≡ g.protocol_version ∷ (g.server_version ++ 0x00 ∷ body g)
unfolding pack
pack_lem g = simp append_assoc (ground arith)

capability_halves : (c : ℕ) → c < 2 ^ 32 → bit_or (u32 (shl (u16 (shr c 16)) 16)) (u16 c) ≡ c
capability_halves c h =
    let e : u32 (shl (u16 (shr c 16)) 16) ≡ c / 2 ^ 16 * 2 ^ 16 = omega arith in
    rw (e, bit_or_comm (c / 2 ^ 16 * 2 ^ 16) (c % 2 ^ 16))
      (omega (arith, bit_or_fields 16 (c % 2 ^ 16) (c / 2 ^ 16) (omega arith)))

unpack_body-body :
    (a g : Greeting)
    → Fits g
    → unpack_body a (body g)
      ≡ some (
        record g {
          protocol_version = a.protocol_version;
          server_version = a.server_version;
          auth_plugin_name = plugin;
          auth_plugin_data_length = 21;
        },
        true,
      )
unfolding unpack_body read_u8 find_zero
unpack_body-body a g v =
    let s1 : read_string 8 (g.salt_part1 ++ 0x00 ∷ lower g) ≡ some (g.salt_part1, 0x00 ∷ lower g) =
      rw (← v.salt_part1) (read_string-append g.salt_part1 (0x00 ∷ lower g)) in
    let s2 : read_string 12 (tail g) ≡ some (g.salt_part2, 0x00 ∷ (plugin ++ 0x00 ∷ [])) =
      rw (← v.salt_part2) (read_string-append g.salt_part2 (0x00 ∷ (plugin ++ 0x00 ∷ []))) in
    rw
      (
        read_u32-le_bytes g.connection_id (g.salt_part1 ++ 0x00 ∷ lower g) v.connection_id,
        s1,
        skip-append (0x00 ∷ []) (lower g),
        read_u16-le_bytes (u16 g.capability) (g.charset ∷ (le_bytes 2 g.status ++ upper g))
            (omega arith),
        read_u16-le_bytes g.status (upper g) v.status,
        read_u16-le_bytes (u16 (shr g.capability 16)) (21 ∷ (replicate 10 0x00 ++ tail g))
            (omega arith),
        skip-append (replicate 10 0x00) (tail g),
        s2,
        skip-append (0x00 ∷ []) (plugin ++ 0x00 ∷ []),
      )
      (rw (capability_halves g.capability v.capability))

-- `UnPack` accepts what `Pack` wrote and restores every member that is on the wire, for a greeting
-- that fits: a server version with no zero byte, 8 and 12 bytes of salt, and numbers within their
-- types. The plugin name and the length of its data come back as `Pack` writes them.
pub unpack-pack_greeting :
    (a g : Greeting)
    → Fits g
    → unpack a (pack g)
      ≡ some (record g { auth_plugin_name = plugin; auth_plugin_data_length = 21 }, true)
unfolding unpack read_u8 read_version
unpack-pack_greeting a g v = rw (
  pack_lem g,
  read_version,
  find_zero-append g.server_version (body g) v.server_version,
  skip-append (0x00 ∷ []) (body g),
  unpack_body-body
      (record a { protocol_version = g.protocol_version; server_version = g.server_version }) g v,
)

length-salt : (random : Bytes) → length (map (λ b. b % 123) random) ≡ length random
length-salt [] = refl
length-salt (b ∷ random) = ap suc (length-salt random)

-- A greeting that the constructor builds fits, for a server version with no zero byte.
pub new-Fits :
    (id : ℕ) (version random1 random2 : Bytes)
    → id < 2 ^ 32
    → NoZero version
    → length random1 ≡ 8
    → length random2 ≡ 12
    → Fits (new id version random1 random2)
unfolding new
new-Fits id version random1 random2 hi hv h1 h2 = record {
  server_version = hv;
  connection_id = hi;
  capability = omega arith;
  status = omega arith;
  salt_part1 = length-salt random1 ∙ h1;
  salt_part2 = length-salt random2 ∙ h2;
}

length-pack :
    (g : Greeting)
    → length (pack g) ≡ 48 + (length g.server_version + (length g.salt_part1 + length g.salt_part2))
length-pack g = omega (
  arith,
  ap length (pack_lem g),
  length-append g.server_version (0x00 ∷ body g),
  length-append g.salt_part1 (0x00 ∷ lower g),
  length-append g.salt_part2 (0x00 ∷ (plugin ++ 0x00 ∷ [])),
)

pub length-pack-new :
    (id : ℕ) (version random1 random2 : Bytes)
    → length (pack (new id version random1 random2))
      ≡ 48 + (length version + (length random1 + length random2))
unfolding new
length-pack-new id version random1 random2 =
    omega (
      arith,
      length-pack (new id version random1 random2),
      length-salt random1,
      length-salt random2,
    )
