-- ===== src/Tests/Packets.antt =====
-- The packets of the protocol at concrete members.
use uhp_sql.Common.{ℕ, ◌≡◌, refl, true, some, [], ◌∷◌, arith, codes}
use uhp_sql.FieldType.RoundTrip.{has_key-HasKey}
use uhp_sql.FieldType.{type_to_mysql, wire_flags}
use uhp_sql.Packet.Err
use uhp_sql.Packet.Row
use uhp_sql.Packet.Field
use uhp_sql.Packet.Field.{Field}
use uhp_sql.Packet.Field.RoundTrip as FieldTrip
use uhp_sql.Packet.Greeting
use uhp_sql.Packet.Greeting.{Greeting}
use uhp_sql.Packet.Greeting.RoundTrip as GreetingTrip
use uhp_sql.Packet.Auth
use uhp_sql.Packet.Auth.{Auth, returned, no_return, default_auth_plugin_name}
use uhp_sql.Packet.Auth.Parse as Parse
use uhp_sql.ProtocolBuffer.{Platform}

abbrev zero_shift : Platform
zero_shift = record { wide_shift = λ b k. 0; max_address = 1 }

abbrev id_field : Field
id_field = record {
  name = codes "id";
  type = 6165;
  table = codes "t";
  org_table = codes "t";
  data_base = codes "default";
  org_name = codes "id";
  column_length = 80;
  charset = 33;
  decimals = 0;
  flags = 5;
}

id_field-Fits : FieldTrip.Fits id_field
id_field-Fits = record {
  name = omega arith;
  table = omega arith;
  org_table = omega arith;
  data_base = omega arith;
  org_name = omega arith;
  charset = omega arith;
  column_length = omega arith;
  decimals = omega arith;
  type = has_key-HasKey 6165 type_to_mysql refl;
}

unpack-pack_field_example :
    Field.unpack zero_shift (Field.pack id_field)
    ≡ some (record id_field { flags = wire_flags 6165 }, true)
unpack-pack_field_example = FieldTrip.unpack-pack_field zero_shift id_field id_field-Fits

unpack-pack_row_example :
    Row.unpack zero_shift [] (Row.pack ((1 ∷ []) ∷ [] ∷ [])) 2 ≡ some ((1 ∷ []) ∷ [] ∷ [], true)
unpack-pack_row_example = Row.unpack-pack_row zero_shift ((1 ∷ []) ∷ [] ∷ []) [] (omega arith)

parse-pack_err_empty_state_example :
    Err.parse (Err.pack 50 [] (codes "syntax error"))
    ≡ some (0xff, 50, codes "synta", codes "x error")
parse-pack_err_empty_state_example =
    Err.parse-pack_err_empty_state 50 (codes "synta") (codes "x error") (omega arith) refl

abbrev greeting : Greeting
greeting = record {
  protocol_version = 10;
  charset = 33;
  status = 2;
  capability = 0x1088020d;
  connection_id = 1;
  server_version = codes "5.1";
  auth_plugin_name = [];
  salt_part1 = 1 ∷ 2 ∷ 3 ∷ 4 ∷ 5 ∷ 6 ∷ 7 ∷ 8 ∷ [];
  salt_part2 = 1 ∷ 2 ∷ 3 ∷ 4 ∷ 5 ∷ 6 ∷ 7 ∷ 8 ∷ 9 ∷ 10 ∷ 11 ∷ 12 ∷ [];
  auth_plugin_data_length = 0;
}

greeting-Fits : GreetingTrip.Fits greeting
greeting-Fits = omega arith

unpack-pack_greeting_example :
    Greeting.unpack greeting (Greeting.pack greeting)
    ≡ some (
      record greeting {
        auth_plugin_name = codes "mysql_native_password";
        auth_plugin_data_length = 21;
      },
      true,
    )
unpack-pack_greeting_example = GreetingTrip.unpack-pack_greeting greeting greeting greeting-Fits

-- PROTOCOL_41, SECURE_CONNECTION, CONNECT_WITH_DB and PLUGIN_AUTH.
abbrev flags : ℕ
flags = 0x88208

flags-HasAllParts : Parse.HasAllParts flags
flags-HasAllParts = record {
  bits = omega arith;
  protocol_41 = refl;
  secure = refl;
  with_db = refl;
  plugin_auth = refl;
}

unpack-handshake_example :
    Auth.unpack Auth.fresh (
      Parse.handshake flags 16777216 33
        (codes "mock")
        (9 ∷ [])
        (0 ∷ [])
        (codes "test")
        default_auth_plugin_name
        [])
    ≡ some (
      record {
        charset = 33;
        max_packet_size = 16777216;
        auth_response_len = 1;
        client_flags = flags;
        auth_response = 9 ∷ [];
        plugin_name = default_auth_plugin_name;
        database = codes "test";
        user = codes "mock";
      },
      no_return,
    )
unpack-handshake_example =
    Parse.unpack-handshake Auth.fresh flags 16777216 33 (codes "mock") (9 ∷ []) (0 ∷ [])
      (codes "test") default_auth_plugin_name [] flags-HasAllParts (omega arith) (omega arith) refl
      (omega arith) (omega arith)
