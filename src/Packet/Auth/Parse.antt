-- ===== src/Packet/Auth/Parse.antt =====
-- What `AuthPacket::UnPack` makes of a well-formed handshake response.
use uhp_sql.Common.{
  ℕ, ◌^◌, ◌<◌, ◌≡◌, true, false, some, [], ◌∷◌, ◌++◌, arith, if◌then◌else◌, Bytes, bytes_eq, ◌>>=◌,
  length, replicate,
}
use uhp_sql.ProtocolBuffer.{read_u8}
use uhp_sql.ProtocolBuffer.Spec.{le_bytes}
use uhp_sql.ProtocolBuffer.Fixed.{read_u32-le_bytes}
use uhp_sql.ProtocolBuffer.RoundTrip.{read_string-append}
use uhp_sql.FieldType.{has_flag}
use uhp_sql.Packet.{skip, NoZero, skip-append, find_zero-append}
use uhp_sql.Packet.Auth.{
  Auth, returned, no_return, unpack, read_user, read_response, read_database, read_plugin,
  check_plugin, client_protocol_41, client_secure_connection, client_connect_with_db,
  client_plugin_auth, default_auth_plugin_name,
}

-- The fixed head of a handshake response: flags, packet size, charset and 23 reserved bytes.
abbrev pub head : ℕ → ℕ → ℕ → Bytes → Bytes
head flags size charset rest =
    le_bytes 4 flags ++ (le_bytes 4 size ++ charset ∷ (replicate 23 0 ++ rest))

unpack-head :
    (a : Auth) (flags size charset : ℕ) (rest : Bytes)
    → flags < 2 ^ 32
    → size < 2 ^ 32
    → has_flag flags client_protocol_41 ≡ true
    → unpack a (head flags size charset rest)
      ≡ read_user
          (record a { client_flags = flags; max_packet_size = size; charset = charset })
          rest
unfolding unpack read_u8
unpack-head a flags size charset rest hf hs h41 = rw (
  read_u32-le_bytes flags (le_bytes 4 size ++ charset ∷ (replicate 23 0 ++ rest)) hf,
  h41,
  read_u32-le_bytes size (charset ∷ (replicate 23 0 ++ rest)) hs,
  skip-append (replicate 23 0) rest,
)

read_user-name :
    (a : Auth) (user rest : Bytes)
    → NoZero user
    → read_user a (user ++ 0 ∷ rest) ≡ read_response (record a { user = user }) rest
unfolding read_user
read_user-name a user rest h =
    rw (read_user, find_zero-append user rest h, skip-append (0 ∷ []) rest)

read_response-secure :
    (a : Auth) (response after : Bytes)
    → has_flag a.client_flags client_secure_connection ≡ true
    → read_response a (length response ∷ (response ++ after)) ≡ (
        skip (length response) after >>= λ seek.
        read_database
          (record a {
            auth_response_len = length response;
            auth_response = a.auth_response ++ response;
          })
          seek)
unfolding read_response read_u8
read_response-secure a response after h = rw (h, read_string-append response after)

read_database-name :
    (a : Auth) (database rest : Bytes)
    → has_flag a.client_flags client_connect_with_db ≡ true
    → NoZero database
    → read_database a (database ++ 0 ∷ rest) ≡ read_plugin (record a { database = database }) rest
unfolding read_database
read_database-name a database rest hf h =
    rw (read_database, hf, find_zero-append database rest h, skip-append (0 ∷ []) rest)

read_plugin-name :
    (a : Auth) (plugin rest : Bytes)
    → has_flag a.client_flags client_plugin_auth ≡ true
    → NoZero plugin
    → read_plugin a (plugin ++ 0 ∷ rest) ≡ check_plugin (record a { plugin_name = plugin })
unfolding read_plugin
read_plugin-name a plugin rest hf h = rw (read_plugin, hf, find_zero-append plugin rest h)

-- The flags of a client that sends a length-prefixed response, a database and a plugin name.
pub record HasAllParts (flags : ℕ) : Type 0 where
  pub bits : flags < 2 ^ 32
  pub protocol_41 : has_flag flags client_protocol_41 ≡ true
  pub secure : has_flag flags client_secure_connection ≡ true
  pub with_db : has_flag flags client_connect_with_db ≡ true
  pub plugin_auth : has_flag flags client_plugin_auth ≡ true

-- A handshake response, with `gap` between the authentication response and the database name. The
-- protocol has no gap.
abbrev pub handshake : ℕ → ℕ → ℕ → Bytes → Bytes → Bytes → Bytes → Bytes → Bytes → Bytes
handshake flags size charset user response gap database plugin rest =
    head flags size charset
      (user ++ 0 ∷ length response ∷ (response ++ (gap ++ (database ++ 0 ∷ (plugin ++ 0 ∷ rest)))))

-- `UnPack` finds the user, the database and the plugin of a handshake response in which as many
-- bytes as the authentication response has stand between that response and the database name.
-- With an empty response this is the protocol, and with any other response the bytes of the
-- database name that the client sent are skipped. The method refuses every plugin but the
-- default one, and flows off its end for that.
pub unpack-handshake :
    (a : Auth) (flags size charset : ℕ) (user response gap database plugin rest : Bytes)
    → HasAllParts flags
    → size < 2 ^ 32
    → NoZero user
    → length gap ≡ length response
    → NoZero database
    → NoZero plugin
    → unpack a (handshake flags size charset user response gap database plugin rest)
      ≡ some (
        record {
          charset = charset;
          max_packet_size = size;
          auth_response_len = length response;
          client_flags = flags;
          auth_response = a.auth_response ++ response;
          plugin_name = plugin;
          database = database;
          user = user;
        },
        (if bytes_eq plugin default_auth_plugin_name then no_return else returned false),
      )
unfolding check_plugin
unpack-handshake a flags size charset user response gap database plugin rest f hs hu hg hd hp =
    let after : Bytes = database ++ 0 ∷ (plugin ++ 0 ∷ rest) in
    let e : skip (length response) (gap ++ after) ≡ some after =
      rw (← hg) (skip-append gap after) in
    rw
      (
        unpack-head a flags size charset
            (user ++ 0 ∷ length response ∷ (response ++ (gap ++ after))) f.bits hs f.protocol_41,
        read_user-name _ user (length response ∷ (response ++ (gap ++ after))) hu,
        read_response-secure _ response (gap ++ after) f.secure,
        e,
        read_database-name _ database (plugin ++ 0 ∷ rest) f.with_db hd,
        read_plugin-name _ plugin rest f.plugin_auth hp,
      )
      (ground arith)
