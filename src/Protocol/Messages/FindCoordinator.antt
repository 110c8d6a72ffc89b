-- ===== src/Protocol/Messages/FindCoordinator.antt =====
-- crates/oxidemq-protocol/src/messages.rs: FindCoordinator.
use oxide_mq.Base.{◌≡◌, refl, ◌++◌, Option, none, if◌then◌else◌}
use oxide_mq.Base.Int.{ℤ, pos, leb_ℤ}
use oxide_mq.Base.Result.{ok}
use oxide_mq.Bytes.{Bytes, get_i32, put_i32}
use oxide_mq.Broker.Codes.{KafkaErrorCode}
use oxide_mq.Protocol.Parser.{read_string, write_string}
use oxide_mq.Protocol.Reader.{
  Reader, ◌>>=◌, returns, ◌▸◌, read_if, write_if, get_i8, put_i8, get_error, put_error, get_string,
  put_string, IsI8, IsI32, IsText, IsOptionalText,
}
use oxide_mq.Protocol.Reader.Laws.{
  Reads, reads_then, reads_last, reads_if, reads_i8, reads_i32, reads_error, reads_string,
  reads_text,
}

pub record FindCoordinatorRequest : Type 0 where
  pub key : Bytes
  pub key_type : ℤ

unfoldable pub encode_request : ℤ → FindCoordinatorRequest → Bytes
encode_request version m = put_string m.key ▸ write_if (leb_ℤ (pos 1) version) (put_i8 m.key_type)

unfoldable pub decode_request : ℤ → Reader FindCoordinatorRequest
decode_request version = do
  key ← get_string
  key_type ← read_if (leb_ℤ (pos 1) version) get_i8 (pos 0)
  returns (record { key = key; key_type = key_type })

pub record IsFindCoordinatorRequest (m : FindCoordinatorRequest) : Type 0 where
  pub key_in : IsText m.key
  pub key_type_in : IsI8 m.key_type

-- What a version carries of it; the decoder's defaults stand for the rest.
unfoldable pub request_at : ℤ → FindCoordinatorRequest → FindCoordinatorRequest
request_at version m = record {
  key = m.key;
  key_type = if leb_ℤ (pos 1) version then m.key_type else pos 0;
}

reads_request :
    (version : ℤ) (m : FindCoordinatorRequest)
    → IsFindCoordinatorRequest m
    → Reads (decode_request version) (encode_request version m) (request_at version m)
unfolding decode_request encode_request request_at
reads_request version m h =
    reads_then _ (reads_string _ h.key_in)
      (reads_last _ (reads_if _ _ (reads_i8 _ h.key_type_in)) refl)

pub record FindCoordinatorResponse : Type 0 where
  pub throttle_time_ms : ℤ
  pub error_code : KafkaErrorCode
  pub error_message : Option Bytes
  pub node_id : ℤ
  pub host : Bytes
  pub port : ℤ

unfoldable pub encode_response : ℤ → FindCoordinatorResponse → Bytes
encode_response version m =
    write_if (leb_ℤ (pos 1) version) (put_i32 m.throttle_time_ms)
    ▸ put_error m.error_code
    ▸ write_if (leb_ℤ (pos 1) version) (write_string m.error_message)
    ▸ put_i32 m.node_id
    ▸ put_string m.host
    ▸ put_i32 m.port

unfoldable pub decode_response : ℤ → Reader FindCoordinatorResponse
decode_response version = do
  throttle_time_ms ← read_if (leb_ℤ (pos 1) version) get_i32 (pos 0)
  error_code ← get_error
  error_message ← read_if (leb_ℤ (pos 1) version) read_string none
  node_id ← get_i32
  host ← get_string
  port ← get_i32
  returns (record {
    throttle_time_ms = throttle_time_ms;
    error_code = error_code;
    error_message = error_message;
    node_id = node_id;
    host = host;
    port = port;
  })

pub record IsFindCoordinatorResponse (m : FindCoordinatorResponse) : Type 0 where
  pub throttle_time_ms_in : IsI32 m.throttle_time_ms
  pub error_message_in : IsOptionalText m.error_message
  pub node_id_in : IsI32 m.node_id
  pub host_in : IsText m.host
  pub port_in : IsI32 m.port

-- What a version carries of it; the decoder's defaults stand for the rest.
unfoldable pub response_at : ℤ → FindCoordinatorResponse → FindCoordinatorResponse
response_at version m = record {
  throttle_time_ms = if leb_ℤ (pos 1) version then m.throttle_time_ms else pos 0;
  error_code = m.error_code;
  error_message = if leb_ℤ (pos 1) version then m.error_message else none;
  node_id = m.node_id;
  host = m.host;
  port = m.port;
}

reads_response :
    (version : ℤ) (m : FindCoordinatorResponse)
    → IsFindCoordinatorResponse m
    → Reads (decode_response version) (encode_response version m) (response_at version m)
unfolding decode_response encode_response response_at
reads_response version m h = reads_then _ (reads_if _ _ (reads_i32 _ h.throttle_time_ms_in)) (
    reads_then _ (reads_error _) (
      reads_then _ (reads_if _ _ (reads_text _ h.error_message_in)) (
        reads_then _ (reads_i32 _ h.node_id_in)
          (reads_then _ (reads_string _ h.host_in) (reads_last _ (reads_i32 _ h.port_in) refl)))))

-- A FindCoordinator request and its answer that fit the wire are read back from their bytes in any
-- version, whatever follows, which is left, with what that version carries.
pub decode-encode_find_coordinator :
    (version : ℤ) (req : FindCoordinatorRequest) (resp : FindCoordinatorResponse) (rest : Bytes)
    → IsFindCoordinatorRequest req
    → IsFindCoordinatorResponse resp
    → (decode_request version (encode_request version req ++ rest)
        ≡ ok (request_at version req, rest))
      × (decode_response version (encode_response version resp ++ rest)
          ≡ ok (response_at version resp, rest))
decode-encode_find_coordinator version req resp rest h_req h_resp =
    ((reads_request version req h_req).taken rest, (reads_response version resp h_resp).taken rest)
