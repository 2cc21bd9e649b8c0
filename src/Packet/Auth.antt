-- ===== src/Packet/Auth.antt =====
-- network/auth.cc: the client's handshake response.
pub mod Parse
use uhp_sql.Common.{
  ℕ, ◌^◌, Bool, false, Option, none, some, [], ◌++◌, if◌then◌else◌, Bytes, codes, bytes_eq, ◌>>=◌,
}
use uhp_sql.ProtocolBuffer.{read_u8, read_u32, read_string}
use uhp_sql.Packet.{skip, find_zero}
use uhp_sql.FieldType.{has_flag}

-- The capability flags of network/common.h that `UnPack` tests, and the plugin that it accepts.
abbrev pub client_connect_with_db : ℕ
client_connect_with_db = 8

abbrev pub client_protocol_41 : ℕ
client_protocol_41 = 512

abbrev pub client_secure_connection : ℕ
client_secure_connection = 32768

abbrev pub client_plugin_auth : ℕ
client_plugin_auth = 2 ^ 19

abbrev pub default_auth_plugin_name : Bytes
default_auth_plugin_name = codes "mysql_native_password"

-- `AuthPacket::Impl`.
pub record Auth : Type 0 where
  pub charset : ℕ
  pub max_packet_size : ℕ
  pub auth_response_len : ℕ
  pub client_flags : ℕ
  pub auth_response : Bytes
  pub plugin_name : Bytes
  pub database : Bytes
  pub user : Bytes

-- `new Impl()`.
abbrev pub fresh : Auth
fresh = record {
  charset = 0;
  max_packet_size = 0;
  auth_response_len = 0;
  client_flags = 0;
  auth_response = [];
  plugin_name = [];
  database = [];
  user = [];
}

-- How `UnPack` ends: by a `return`, or by flowing off the end of a function that has to return a
-- `bool`, after which its value is undefined.
pub data Ending : Type 0 where
  returned : Bool → Ending
  no_return : Ending

-- The members as they are left, with how the method ends; `none` for a read past the end.
abbrev pub Run : Type 0
Run = Option (Auth × Ending)

abbrev pub refused : Auth → Run
refused a = some (a, returned false)

check_plugin : Auth → Run
check_plugin a =
    if bytes_eq a.plugin_name default_auth_plugin_name then some (a, no_return) else refused a

read_plugin : Auth → Bytes → Run
read_plugin a seek =
    if has_flag a.client_flags client_plugin_auth
    then elim (find_zero seek) [
      | none ↦ refused a
      | some (name, _) ↦ check_plugin (record a { plugin_name = name })
    ]
    else check_plugin a

read_database : Auth → Bytes → Run
read_database a seek =
    if has_flag a.client_flags client_connect_with_db
    then elim (find_zero seek) [
      | none ↦ refused a
      | some (name, rest) ↦
          skip 1 rest >>= λ seek'. read_plugin (record a { database = name }) seek'
    ]
    else read_plugin a seek

-- With CLIENT_SECURE_CONNECTION the loop over the response moves `seek` past it, and
-- `seek += authResponseLen` moves it once more by as much.
read_response : Auth → Bytes → Run
read_response a seek =
    if has_flag a.client_flags client_secure_connection
    then (do
      len ← read_u8 seek
      response ← read_string len.0 len.1
      after ← skip len.0 response.1
      read_database
          (record a { auth_response_len = len.0; auth_response = a.auth_response ++ response.0 })
          after)
    else (do
      response ← read_string 20 seek
      after ← skip 1 response.1
      read_database (record a { auth_response = response.0 }) after)

read_user : Auth → Bytes → Run
read_user a seek = elim (find_zero seek) [
  | none ↦ refused a
  | some (name, rest) ↦ skip 1 rest >>= λ seek'. read_response (record a { user = name }) seek'
]

pub unpack : Auth → Bytes → Run
unpack a packet = do
  flags ← read_u32 packet
  let a1 = record a { client_flags = flags.0 }
  if has_flag flags.0 client_protocol_41
      then (do
        size ← read_u32 flags.1
        charset ← read_u8 size.1
        seek ← skip 23 charset.1
        read_user (record a1 { max_packet_size = size.0; charset = charset.0 }) seek)
      else refused a1
