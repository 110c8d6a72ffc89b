-- ===== src/Protocol/Header.antt =====
-- crates/oxidemq-protocol/src/header.rs: the headers of requests and answers.
pub mod Laws
use oxide_mq.Base.{ℕ, List, [], ◌∷◌, ◌++◌, Option, none, some, Bool, true, false, ◌&&◌}
use oxide_mq.Base.Int.{ℤ, pos, leb_ℤ, int_beq}
use oxide_mq.Bytes.{Bytes, get_i16, get_i32, put_i16, put_i32}
use oxide_mq.Protocol.Parser.{read_string, write_string}
use oxide_mq.Protocol.ApiKeys.{ApiKey, api_versions, from_i16, key_code}
use oxide_mq.Protocol.Reader.{Reader, ◌>>=◌, returns, ◌▸◌}
use oxide_mq.Protocol.Flexible.{guarded, fail, skip_tags}

pub record RequestHeader : Type 0 where
  pub api_key : ApiKey
  pub api_version : ℤ
  pub correlation_id : ℤ
  pub client_id : Option Bytes

-- `ApiKey::from_i16(key_raw).ok_or_else(..)?`
unfoldable pub known_key : Option ApiKey → Reader ApiKey
known_key (some key) = returns key
known_key none = fail

-- `api_key == ApiKey::ApiVersions && api_version >= 3`
unfoldable pub carries_tags : RequestHeader → Bool
carries_tags h = int_beq (key_code h.api_key) (key_code api_versions) && leb_ℤ (pos 3) h.api_version

-- The fields of the header, which `encode` writes, and the tagged fields, which it does not.
unfoldable pub decode_fields : Reader RequestHeader
unfolding known_key from_i16
decode_fields = do
  key_raw ← get_i16
  api_key ← known_key (from_i16 key_raw)
  api_version ← get_i16
  correlation_id ← get_i32
  client_id ← read_string
  returns (record {
    api_key = api_key;
    api_version = api_version;
    correlation_id = correlation_id;
    client_id = client_id;
  })

unfoldable pub decode_request_header : Reader RequestHeader
decode_request_header = guarded 8 (do h ← decode_fields; _ ← skip_tags (carries_tags h); returns h)

unfoldable pub encode_request_header : RequestHeader → Bytes
encode_request_header h =
    put_i16 (key_code h.api_key)
    ▸ put_i16 h.api_version
    ▸ put_i32 h.correlation_id
    ▸ write_string h.client_id

pub record ResponseHeader : Type 0 where
  pub correlation_id : ℤ

unfoldable pub decode_response_header : Reader ResponseHeader
decode_response_header =
    guarded 4 (do correlation_id ← get_i32; returns (record { correlation_id = correlation_id }))

unfoldable pub encode_response_header : ResponseHeader → Bytes
encode_response_header h = put_i32 h.correlation_id
