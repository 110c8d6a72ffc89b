-- ===== src/Protocol/Messages/AlterConfigs.antt =====
-- crates/oxidemq-protocol/src/messages.rs: AlterConfigs.
use oxide_mq.Base.{◌≡◌, refl, List, ◌++◌, Option, Bool}
use oxide_mq.Base.Int.{ℤ}
use oxide_mq.Base.Result.{ok}
use oxide_mq.Bytes.{Bytes, get_i32, put_i32}
use oxide_mq.Broker.Codes.{KafkaErrorCode}
use oxide_mq.Protocol.Parser.{read_string, write_string}
use oxide_mq.Protocol.Reader.{
  Reader, ◌>>=◌, returns, ◌▸◌, get_i8, put_i8, get_bool, put_bool, get_error, put_error, get_string,
  put_string, put_vec, IsI8, IsI32, IsText, IsOptionalText, IsVec,
}
use oxide_mq.Protocol.Reader.Laws.{Reads, reads_then, reads_last, reads_string, reads_text}
use oxide_mq.Protocol.Flexible.{guarded, get_checked}
use oxide_mq.Protocol.Flexible.Laws.{
  guarded_i8, guarded_i32, guarded_error, guarded_bool, reads_same_checked_list,
}

pub record AlterableConfig : Type 0 where
  pub name : Bytes
  pub value : Option Bytes

unfoldable pub encode_config : AlterableConfig → Bytes
encode_config m = put_string m.name ▸ write_string m.value

unfoldable pub decode_config : Reader AlterableConfig
decode_config = do
  name ← get_string
  value ← read_string
  returns (record { name = name; value = value })

pub record IsAlterableConfig (m : AlterableConfig) : Type 0 where
  pub name_in : IsText m.name
  pub value_in : IsOptionalText m.value

reads_config : (m : AlterableConfig) → IsAlterableConfig m → Reads decode_config (encode_config m) m
unfolding decode_config encode_config
reads_config m h =
    reads_then _ (reads_string _ h.name_in) (reads_last _ (reads_text _ h.value_in) refl)

pub record AlterConfigsResource : Type 0 where
  pub resource_type : ℤ
  pub resource_name : Bytes
  pub configs : List AlterableConfig

unfoldable pub encode_resource : AlterConfigsResource → Bytes
encode_resource m =
    put_i8 m.resource_type ▸ put_string m.resource_name ▸ put_vec encode_config m.configs

unfoldable pub decode_resource : Reader AlterConfigsResource
decode_resource = do
  resource_type ← guarded 1 get_i8
  resource_name ← get_string
  configs ← get_checked decode_config
  returns
      (record { resource_type = resource_type; resource_name = resource_name; configs = configs })

pub record IsAlterConfigsResource (m : AlterConfigsResource) : Type 0 where
  pub resource_type_in : IsI8 m.resource_type
  pub resource_name_in : IsText m.resource_name
  pub configs_in : IsVec IsAlterableConfig m.configs

reads_resource :
    (m : AlterConfigsResource)
    → IsAlterConfigsResource m
    → Reads decode_resource (encode_resource m) m
unfolding decode_resource encode_resource
reads_resource m h = reads_then _ (guarded_i8 _ h.resource_type_in) (
    reads_then _ (reads_string _ h.resource_name_in)
      (reads_last _ (reads_same_checked_list _ _ _ reads_config _ h.configs_in) refl))

pub record AlterConfigsRequest : Type 0 where
  pub resources : List AlterConfigsResource
  pub validate_only : Bool

unfoldable pub encode_request : ℤ → AlterConfigsRequest → Bytes
encode_request _ m = put_vec encode_resource m.resources ▸ put_bool m.validate_only

unfoldable pub decode_request : ℤ → Reader AlterConfigsRequest
decode_request _ = do
  resources ← get_checked decode_resource
  validate_only ← guarded 1 get_bool
  returns (record { resources = resources; validate_only = validate_only })

pub record IsAlterConfigsRequest (m : AlterConfigsRequest) : Type 0 where
  pub resources_in : IsVec IsAlterConfigsResource m.resources

reads_request :
    (version : ℤ) (m : AlterConfigsRequest)
    → IsAlterConfigsRequest m
    → Reads (decode_request version) (encode_request version m) m
unfolding decode_request encode_request
reads_request version m h =
    reads_then _ (reads_same_checked_list _ _ _ reads_resource _ h.resources_in)
      (reads_last _ (guarded_bool _) refl)

pub record AlterConfigsResourceResponse : Type 0 where
  pub error_code : KafkaErrorCode
  pub error_message : Option Bytes
  pub resource_type : ℤ
  pub resource_name : Bytes

unfoldable pub encode_resource_response : AlterConfigsResourceResponse → Bytes
encode_resource_response m =
    put_error m.error_code
    ▸ write_string m.error_message
    ▸ put_i8 m.resource_type
    ▸ put_string m.resource_name

unfoldable pub decode_resource_response : Reader AlterConfigsResourceResponse
decode_resource_response = do
  error_code ← guarded 2 get_error
  error_message ← read_string
  resource_type ← guarded 1 get_i8
  resource_name ← get_string
  returns (record {
    error_code = error_code;
    error_message = error_message;
    resource_type = resource_type;
    resource_name = resource_name;
  })

pub record IsAlterConfigsResourceResponse (m : AlterConfigsResourceResponse) : Type 0 where
  pub error_message_in : IsOptionalText m.error_message
  pub resource_type_in : IsI8 m.resource_type
  pub resource_name_in : IsText m.resource_name

reads_resource_response :
    (m : AlterConfigsResourceResponse)
    → IsAlterConfigsResourceResponse m
    → Reads decode_resource_response (encode_resource_response m) m
unfolding decode_resource_response encode_resource_response
reads_resource_response m h = reads_then _ (guarded_error _) (
    reads_then _ (reads_text _ h.error_message_in) (
      reads_then _ (guarded_i8 _ h.resource_type_in)
        (reads_last _ (reads_string _ h.resource_name_in) refl)))

pub record AlterConfigsResponse : Type 0 where
  pub throttle_time_ms : ℤ
  pub responses : List AlterConfigsResourceResponse

unfoldable pub encode_response : ℤ → AlterConfigsResponse → Bytes
encode_response _ m = put_i32 m.throttle_time_ms ▸ put_vec encode_resource_response m.responses

unfoldable pub decode_response : ℤ → Reader AlterConfigsResponse
decode_response _ = do
  throttle_time_ms ← guarded 4 get_i32
  responses ← get_checked decode_resource_response
  returns (record { throttle_time_ms = throttle_time_ms; responses = responses })

pub record IsAlterConfigsResponse (m : AlterConfigsResponse) : Type 0 where
  pub throttle_time_ms_in : IsI32 m.throttle_time_ms
  pub responses_in : IsVec IsAlterConfigsResourceResponse m.responses

reads_response :
    (version : ℤ) (m : AlterConfigsResponse)
    → IsAlterConfigsResponse m
    → Reads (decode_response version) (encode_response version m) m
unfolding decode_response encode_response
reads_response version m h =
    reads_then _ (guarded_i32 _ h.throttle_time_ms_in)
      (reads_last _ (reads_same_checked_list _ _ _ reads_resource_response _ h.responses_in) refl)

-- A AlterConfigs request and its answer that fit the wire are read back whole from their bytes in any
-- version, whatever follows, which is left.
pub decode-encode_alter_configs :
    (version : ℤ) (req : AlterConfigsRequest) (resp : AlterConfigsResponse) (rest : Bytes)
    → IsAlterConfigsRequest req
    → IsAlterConfigsResponse resp
    → (decode_request version (encode_request version req ++ rest) ≡ ok (req, rest))
      × (decode_response version (encode_response version resp ++ rest) ≡ ok (resp, rest))
decode-encode_alter_configs version req resp rest h_req h_resp =
    ((reads_request version req h_req).taken rest, (reads_response version resp h_resp).taken rest)
