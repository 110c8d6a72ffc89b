-- ===== src/Protocol/Messages/CreateAcls.antt =====
-- crates/oxidemq-protocol/src/messages.rs: CreateAcls.
-- An `if` over the version with several fields under it is that test on each of them.
use oxide_mq.Base.{◌≡◌, refl, List, ◌++◌, map, Option, if◌then◌else◌}
use oxide_mq.Base.Int.{ℤ, pos, leb_ℤ}
use oxide_mq.Base.Result.{ok}
use oxide_mq.Bytes.{Bytes, get_i32, put_i32}
use oxide_mq.Broker.Codes.{KafkaErrorCode}
use oxide_mq.Protocol.Reader.{
  Reader, ◌>>=◌, returns, ◌▸◌, read_if, write_if, get_i8, put_i8, get_error, put_error, IsI8, IsI32,
  IsText, IsOptionalText, IsVec,
}
use oxide_mq.Protocol.Reader.Laws.{Reads, reads_then, reads_last, reads_if}
use oxide_mq.Protocol.Flexible.{
  guarded, pair, get_text, put_text, get_name, put_name, get_list, skip_tags, put_tags, put_list,
}
use oxide_mq.Protocol.Flexible.Laws.{
  guarded_i8, guarded_i32, guarded_error, guarded_i8s, reads_any_text, reads_name, reads_tags,
  reads_flexible_list, reads_same_flexible_list,
}

pub record AclCreation : Type 0 where
  pub resource_type : ℤ
  pub resource_name : Bytes
  pub resource_pattern_type : ℤ
  pub principal : Bytes
  pub host : Bytes
  pub operation : ℤ
  pub permission_type : ℤ

unfoldable pub encode_creation : ℤ → AclCreation → Bytes
encode_creation version m =
    put_i8 m.resource_type
    ▸ put_name (leb_ℤ (pos 2) version) m.resource_name
    ▸ write_if (leb_ℤ (pos 1) version) (put_i8 m.resource_pattern_type)
    ▸ put_name (leb_ℤ (pos 2) version) m.principal
    ▸ put_name (leb_ℤ (pos 2) version) m.host
    ▸ (put_i8 m.operation ▸ put_i8 m.permission_type)
    ▸ put_tags (leb_ℤ (pos 2) version)

unfoldable pub decode_creation : ℤ → Reader AclCreation
decode_creation version = do
  resource_type ← guarded 1 get_i8
  resource_name ← get_name (leb_ℤ (pos 2) version)
  resource_pattern_type ← read_if (leb_ℤ (pos 1) version) (guarded 1 get_i8) (pos 3)
  principal ← get_name (leb_ℤ (pos 2) version)
  host ← get_name (leb_ℤ (pos 2) version)
  (operation, permission_type) ← guarded 2 (pair get_i8 get_i8)
  _ ← skip_tags (leb_ℤ (pos 2) version)
  returns (record {
    resource_type = resource_type;
    resource_name = resource_name;
    resource_pattern_type = resource_pattern_type;
    principal = principal;
    host = host;
    operation = operation;
    permission_type = permission_type;
  })

pub record IsAclCreation (m : AclCreation) : Type 0 where
  pub resource_type_in : IsI8 m.resource_type
  pub resource_name_in : IsText m.resource_name
  pub resource_pattern_type_in : IsI8 m.resource_pattern_type
  pub principal_in : IsText m.principal
  pub host_in : IsText m.host
  pub operation_in : IsI8 m.operation
  pub permission_type_in : IsI8 m.permission_type

-- What a version carries of it; the decoder's defaults stand for the rest.
unfoldable pub creation_at : ℤ → AclCreation → AclCreation
creation_at version m = record {
  resource_type = m.resource_type;
  resource_name = m.resource_name;
  resource_pattern_type = if leb_ℤ (pos 1) version then m.resource_pattern_type else pos 3;
  principal = m.principal;
  host = m.host;
  operation = m.operation;
  permission_type = m.permission_type;
}

reads_creation :
    (version : ℤ) (m : AclCreation)
    → IsAclCreation m
    → Reads (decode_creation version) (encode_creation version m) (creation_at version m)
unfolding decode_creation encode_creation creation_at
reads_creation version m h = reads_then _ (guarded_i8 _ h.resource_type_in) (
    reads_then _ (reads_name _ _ h.resource_name_in) (
      reads_then _ (reads_if _ _ (guarded_i8 _ h.resource_pattern_type_in)) (
        reads_then _ (reads_name _ _ h.principal_in) (
          reads_then _ (reads_name _ _ h.host_in) (
            reads_then _
              (guarded_i8s m.operation m.permission_type h.operation_in h.permission_type_in)
              (reads_last _ (reads_tags _) refl))))))

pub record CreateAclsRequest : Type 0 where
  pub creations : List AclCreation

unfoldable pub encode_request : ℤ → CreateAclsRequest → Bytes
encode_request version m =
    put_list (leb_ℤ (pos 2) version) (encode_creation version) m.creations
    ▸ put_tags (leb_ℤ (pos 2) version)

unfoldable pub decode_request : ℤ → Reader CreateAclsRequest
decode_request version = do
  creations ← get_list (leb_ℤ (pos 2) version) (decode_creation version)
  _ ← skip_tags (leb_ℤ (pos 2) version)
  returns (record { creations = creations })

pub record IsCreateAclsRequest (m : CreateAclsRequest) : Type 0 where
  pub creations_in : IsVec IsAclCreation m.creations

-- What a version carries of it; the decoder's defaults stand for the rest.
unfoldable pub request_at : ℤ → CreateAclsRequest → CreateAclsRequest
request_at version m = record { creations = map (creation_at version) m.creations }

reads_request :
    (version : ℤ) (m : CreateAclsRequest)
    → IsCreateAclsRequest m
    → Reads (decode_request version) (encode_request version m) (request_at version m)
unfolding decode_request encode_request request_at
reads_request version m h =
    reads_then _ (reads_flexible_list _ _ _ _ _ (reads_creation version) _ h.creations_in)
      (reads_last _ (reads_tags _) refl)

pub record AclCreationResult : Type 0 where
  pub error_code : KafkaErrorCode
  pub error_message : Option Bytes

unfoldable pub encode_result : ℤ → AclCreationResult → Bytes
encode_result version m =
    put_error m.error_code
    ▸ put_text (leb_ℤ (pos 2) version) m.error_message
    ▸ put_tags (leb_ℤ (pos 2) version)

unfoldable pub decode_result : ℤ → Reader AclCreationResult
decode_result version = do
  error_code ← guarded 2 get_error
  error_message ← get_text (leb_ℤ (pos 2) version)
  _ ← skip_tags (leb_ℤ (pos 2) version)
  returns (record { error_code = error_code; error_message = error_message })

pub record IsAclCreationResult (m : AclCreationResult) : Type 0 where
  pub error_message_in : IsOptionalText m.error_message

reads_result :
    (version : ℤ) (m : AclCreationResult)
    → IsAclCreationResult m
    → Reads (decode_result version) (encode_result version m) m
unfolding decode_result encode_result
reads_result version m h =
    reads_then _ (guarded_error _)
      (reads_then _ (reads_any_text _ _ h.error_message_in) (reads_last _ (reads_tags _) refl))

pub record CreateAclsResponse : Type 0 where
  pub throttle_time_ms : ℤ
  pub results : List AclCreationResult

unfoldable pub encode_response : ℤ → CreateAclsResponse → Bytes
encode_response version m =
    write_if (leb_ℤ (pos 1) version) (put_i32 m.throttle_time_ms)
    ▸ put_list (leb_ℤ (pos 2) version) (encode_result version) m.results
    ▸ put_tags (leb_ℤ (pos 2) version)

unfoldable pub decode_response : ℤ → Reader CreateAclsResponse
decode_response version = do
  throttle_time_ms ← read_if (leb_ℤ (pos 1) version) (guarded 4 get_i32) (pos 0)
  results ← get_list (leb_ℤ (pos 2) version) (decode_result version)
  _ ← skip_tags (leb_ℤ (pos 2) version)
  returns (record { throttle_time_ms = throttle_time_ms; results = results })

pub record IsCreateAclsResponse (m : CreateAclsResponse) : Type 0 where
  pub throttle_time_ms_in : IsI32 m.throttle_time_ms
  pub results_in : IsVec IsAclCreationResult m.results

-- What a version carries of it; the decoder's defaults stand for the rest.
unfoldable pub response_at : ℤ → CreateAclsResponse → CreateAclsResponse
response_at version m = record {
  throttle_time_ms = if leb_ℤ (pos 1) version then m.throttle_time_ms else pos 0;
  results = m.results;
}

reads_response :
    (version : ℤ) (m : CreateAclsResponse)
    → IsCreateAclsResponse m
    → Reads (decode_response version) (encode_response version m) (response_at version m)
unfolding decode_response encode_response response_at
reads_response version m h = reads_then _ (reads_if _ _ (guarded_i32 _ h.throttle_time_ms_in)) (
    reads_then _ (reads_same_flexible_list _ _ _ _ (reads_result version) _ h.results_in)
      (reads_last _ (reads_tags _) refl))

-- A CreateAcls request and its answer that fit the wire are read back from their bytes in any version,
-- whatever follows, which is left, with what that version carries.
pub decode-encode_create_acls :
    (version : ℤ) (req : CreateAclsRequest) (resp : CreateAclsResponse) (rest : Bytes)
    → IsCreateAclsRequest req
    → IsCreateAclsResponse resp
    → (decode_request version (encode_request version req ++ rest)
        ≡ ok (request_at version req, rest))
      × (decode_response version (encode_response version resp ++ rest)
          ≡ ok (response_at version resp, rest))
decode-encode_create_acls version req resp rest h_req h_resp =
    ((reads_request version req h_req).taken rest, (reads_response version resp h_resp).taken rest)
