-- ===== src/Protocol/Messages/ApiVersions.antt =====
-- crates/oxidemq-protocol/src/messages.rs: ApiVersions.
-- An `if` over the version with several fields under it is that test on each of them.
use oxide_mq.Base.{◌≡◌, refl, List, ◌++◌, Option, none, if◌then◌else◌, arith}
use oxide_mq.Base.Int.{ℤ, pos, leb_ℤ}
use oxide_mq.Base.Result.{ok}
use oxide_mq.Bytes.{Bytes, get_i16, get_i32, put_i16, put_i32}
use oxide_mq.Broker.Codes.{KafkaErrorCode}
use oxide_mq.Protocol.Parser.{
  read_unsigned_varint, write_unsigned_varint, read_compact_string, write_compact_string,
}
use oxide_mq.Protocol.Reader.{
  Reader, ◌>>=◌, returns, ◌▸◌, read_if, write_if, get_error, put_error, IsI16, IsI32,
  IsOptionalText, IsVec,
}
use oxide_mq.Protocol.Reader.Laws.{
  Reads, reads_then, reads_last, reads_if, reads_i16, reads_i32, reads_error,
}
use oxide_mq.Protocol.Flexible.{get_plain_list, put_list}
use oxide_mq.Protocol.Flexible.Laws.{reads_varint, reads_compact_text, reads_same_plain_list}

pub record ApiVersionsRequest : Type 0 where
  pub client_software_name : Option Bytes
  pub client_software_version : Option Bytes

unfoldable pub encode_request : ℤ → ApiVersionsRequest → Bytes
encode_request version m =
    write_if (leb_ℤ (pos 3) version) (write_compact_string m.client_software_name)
    ▸ write_if (leb_ℤ (pos 3) version) (write_compact_string m.client_software_version)
    ▸ write_if (leb_ℤ (pos 3) version) (write_unsigned_varint 0)

unfoldable pub decode_request : ℤ → Reader ApiVersionsRequest
decode_request version = do
  client_software_name ← read_if (leb_ℤ (pos 3) version) read_compact_string none
  client_software_version ← read_if (leb_ℤ (pos 3) version) read_compact_string none
  _ ← read_if (leb_ℤ (pos 3) version) read_unsigned_varint 0
  returns (record {
    client_software_name = client_software_name;
    client_software_version = client_software_version;
  })

pub record IsApiVersionsRequest (m : ApiVersionsRequest) : Type 0 where
  pub client_software_name_in : IsOptionalText m.client_software_name
  pub client_software_version_in : IsOptionalText m.client_software_version

-- What a version carries of it; the decoder's defaults stand for the rest.
unfoldable pub request_at : ℤ → ApiVersionsRequest → ApiVersionsRequest
request_at version m = record {
  client_software_name = if leb_ℤ (pos 3) version then m.client_software_name else none;
  client_software_version = if leb_ℤ (pos 3) version then m.client_software_version else none;
}

reads_request :
    (version : ℤ) (m : ApiVersionsRequest)
    → IsApiVersionsRequest m
    → Reads (decode_request version) (encode_request version m) (request_at version m)
unfolding decode_request encode_request request_at
reads_request version m h =
    reads_then _ (reads_if _ _ (reads_compact_text _ h.client_software_name_in)) (
      reads_then _ (reads_if _ _ (reads_compact_text _ h.client_software_version_in))
        (reads_last _ (reads_if _ _ (reads_varint 0 (omega arith))) refl))

pub record ApiVersionKey : Type 0 where
  pub api_key : ℤ
  pub min_version : ℤ
  pub max_version : ℤ

unfoldable pub encode_key : ℤ → ApiVersionKey → Bytes
encode_key version m =
    put_i16 m.api_key
    ▸ put_i16 m.min_version
    ▸ put_i16 m.max_version
    ▸ write_if (leb_ℤ (pos 3) version) (write_unsigned_varint 0)

unfoldable pub decode_key : ℤ → Reader ApiVersionKey
decode_key version = do
  api_key ← get_i16
  min_version ← get_i16
  max_version ← get_i16
  _ ← read_if (leb_ℤ (pos 3) version) read_unsigned_varint 0
  returns (record { api_key = api_key; min_version = min_version; max_version = max_version })

pub record IsApiVersionKey (m : ApiVersionKey) : Type 0 where
  pub api_key_in : IsI16 m.api_key
  pub min_version_in : IsI16 m.min_version
  pub max_version_in : IsI16 m.max_version

reads_key :
    (version : ℤ) (m : ApiVersionKey)
    → IsApiVersionKey m
    → Reads (decode_key version) (encode_key version m) m
unfolding decode_key encode_key
reads_key version m h = reads_then _ (reads_i16 _ h.api_key_in) (
    reads_then _ (reads_i16 _ h.min_version_in) (
      reads_then _ (reads_i16 _ h.max_version_in)
        (reads_last _ (reads_if _ _ (reads_varint 0 (omega arith))) refl)))

pub record ApiVersionsResponse : Type 0 where
  pub error_code : KafkaErrorCode
  pub api_keys : List ApiVersionKey
  pub throttle_time_ms : ℤ

unfoldable pub encode_response : ℤ → ApiVersionsResponse → Bytes
encode_response version m =
    put_error m.error_code
    ▸ put_list (leb_ℤ (pos 3) version) (encode_key version) m.api_keys
    ▸ write_if (leb_ℤ (pos 1) version) (put_i32 m.throttle_time_ms)
    ▸ write_if (leb_ℤ (pos 3) version) (write_unsigned_varint 0)

unfoldable pub decode_response : ℤ → Reader ApiVersionsResponse
decode_response version = do
  error_code ← get_error
  api_keys ← get_plain_list (leb_ℤ (pos 3) version) (decode_key version)
  throttle_time_ms ← read_if (leb_ℤ (pos 1) version) get_i32 (pos 0)
  _ ← read_if (leb_ℤ (pos 3) version) read_unsigned_varint 0
  returns
      (record { error_code = error_code; api_keys = api_keys; throttle_time_ms = throttle_time_ms })

pub record IsApiVersionsResponse (m : ApiVersionsResponse) : Type 0 where
  pub api_keys_in : IsVec IsApiVersionKey m.api_keys
  pub throttle_time_ms_in : IsI32 m.throttle_time_ms

-- What a version carries of it; the decoder's defaults stand for the rest.
unfoldable pub response_at : ℤ → ApiVersionsResponse → ApiVersionsResponse
response_at version m = record {
  error_code = m.error_code;
  api_keys = m.api_keys;
  throttle_time_ms = if leb_ℤ (pos 1) version then m.throttle_time_ms else pos 0;
}

reads_response :
    (version : ℤ) (m : ApiVersionsResponse)
    → IsApiVersionsResponse m
    → Reads (decode_response version) (encode_response version m) (response_at version m)
unfolding decode_response encode_response response_at
reads_response version m h = reads_then _ (reads_error _) (
    reads_then _ (reads_same_plain_list _ _ _ _ (reads_key version) _ h.api_keys_in) (
      reads_then _ (reads_if _ _ (reads_i32 _ h.throttle_time_ms_in))
        (reads_last _ (reads_if _ _ (reads_varint 0 (omega arith))) refl)))

-- A ApiVersions request and its answer that fit the wire are read back from their bytes in any version,
-- whatever follows, which is left, with what that version carries.
pub decode-encode_api_versions :
    (version : ℤ) (req : ApiVersionsRequest) (resp : ApiVersionsResponse) (rest : Bytes)
    → IsApiVersionsRequest req
    → IsApiVersionsResponse resp
    → (decode_request version (encode_request version req ++ rest)
        ≡ ok (request_at version req, rest))
      × (decode_response version (encode_response version resp ++ rest)
          ≡ ok (response_at version resp, rest))
decode-encode_api_versions version req resp rest h_req h_resp =
    ((reads_request version req h_req).taken rest, (reads_response version resp h_resp).taken rest)
