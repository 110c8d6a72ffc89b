-- ===== src/Protocol/Messages/DescribeAcls.antt =====
-- crates/oxidemq-protocol/src/messages.rs: DescribeAcls.
-- An `if` over the version with several fields under it is that test on each of them.
use oxide_mq.Base.{◌≡◌, refl, List, ◌++◌, map, Option, if◌then◌else◌}
use oxide_mq.Base.Int.{ℤ, pos, leb_ℤ}
use oxide_mq.Base.Result.{ok}
use oxide_mq.Bytes.{Bytes, get_i32, put_i32}
use oxide_mq.Broker.Codes.{KafkaErrorCode}
use oxide_mq.Protocol.Reader.{
  Reader, ◌>>=◌, returns, ◌▸◌, read_if, write_if, get_i8, put_i8, get_error, put_error, IsI8, IsI32,
  IsText, IsOptionalText, IsVec,
}
use oxide_mq.Protocol.Reader.Laws.{Reads, reads_then, reads_last, reads_if}
use oxide_mq.Protocol.Flexible.{
  guarded, pair, get_text, put_text, get_name, put_name, get_list, skip_tags, put_tags, put_list,
}
use oxide_mq.Protocol.Flexible.Laws.{
  guarded_i8, guarded_i8s, guarded_i32_error, reads_any_text, reads_name, reads_tags,
  reads_flexible_list, reads_same_flexible_list,
}

pub record DescribeAclsRequest : Type 0 where
  pub resource_type_filter : ℤ
  pub resource_name_filter : Option Bytes
  pub resource_pattern_type_filter : ℤ
  pub principal_filter : Option Bytes
  pub host_filter : Option Bytes
  pub operation : ℤ
  pub permission_type : ℤ

unfoldable pub encode_request : ℤ → DescribeAclsRequest → Bytes
encode_request version m =
    put_i8 m.resource_type_filter
    ▸ put_text (leb_ℤ (pos 2) version) m.resource_name_filter
    ▸ write_if (leb_ℤ (pos 1) version) (put_i8 m.resource_pattern_type_filter)
    ▸ put_text (leb_ℤ (pos 2) version) m.principal_filter
    ▸ put_text (leb_ℤ (pos 2) version) m.host_filter
    ▸ (put_i8 m.operation ▸ put_i8 m.permission_type)
    ▸ put_tags (leb_ℤ (pos 2) version)

unfoldable pub decode_request : ℤ → Reader DescribeAclsRequest
decode_request version = do
  resource_type_filter ← guarded 1 get_i8
  resource_name_filter ← get_text (leb_ℤ (pos 2) version)
  resource_pattern_type_filter ← read_if (leb_ℤ (pos 1) version) (guarded 1 get_i8) (pos 1)
  principal_filter ← get_text (leb_ℤ (pos 2) version)
  host_filter ← get_text (leb_ℤ (pos 2) version)
  (operation, permission_type) ← guarded 2 (pair get_i8 get_i8)
  _ ← skip_tags (leb_ℤ (pos 2) version)
  returns (record {
    resource_type_filter = resource_type_filter;
    resource_name_filter = resource_name_filter;
    resource_pattern_type_filter = resource_pattern_type_filter;
    principal_filter = principal_filter;
    host_filter = host_filter;
    operation = operation;
    permission_type = permission_type;
  })

pub record IsDescribeAclsRequest (m : DescribeAclsRequest) : Type 0 where
  pub resource_type_filter_in : IsI8 m.resource_type_filter
  pub resource_name_filter_in : IsOptionalText m.resource_name_filter
  pub resource_pattern_type_filter_in : IsI8 m.resource_pattern_type_filter
  pub principal_filter_in : IsOptionalText m.principal_filter
  pub host_filter_in : IsOptionalText m.host_filter
  pub operation_in : IsI8 m.operation
  pub permission_type_in : IsI8 m.permission_type

-- What a version carries of it; the decoder's defaults stand for the rest.
unfoldable pub request_at : ℤ → DescribeAclsRequest → DescribeAclsRequest
request_at version m = record {
  resource_type_filter = m.resource_type_filter;
  resource_name_filter = m.resource_name_filter;
  resource_pattern_type_filter =
      if leb_ℤ (pos 1) version then m.resource_pattern_type_filter else pos 1;
  principal_filter = m.principal_filter;
  host_filter = m.host_filter;
  operation = m.operation;
  permission_type = m.permission_type;
}

reads_request :
    (version : ℤ) (m : DescribeAclsRequest)
    → IsDescribeAclsRequest m
    → Reads (decode_request version) (encode_request version m) (request_at version m)
unfolding decode_request encode_request request_at
reads_request version m h = reads_then _ (guarded_i8 _ h.resource_type_filter_in) (
    reads_then _ (reads_any_text _ _ h.resource_name_filter_in) (
      reads_then _ (reads_if _ _ (guarded_i8 _ h.resource_pattern_type_filter_in)) (
        reads_then _ (reads_any_text _ _ h.principal_filter_in) (
          reads_then _ (reads_any_text _ _ h.host_filter_in) (
            reads_then _
              (guarded_i8s m.operation m.permission_type h.operation_in h.permission_type_in)
              (reads_last _ (reads_tags _) refl))))))

pub record AclDescription : Type 0 where
  pub principal : Bytes
  pub host : Bytes
  pub operation : ℤ
  pub permission_type : ℤ

unfoldable pub encode_description : ℤ → AclDescription → Bytes
encode_description version m =
    put_name (leb_ℤ (pos 2) version) m.principal
    ▸ put_name (leb_ℤ (pos 2) version) m.host
    ▸ (put_i8 m.operation ▸ put_i8 m.permission_type)
    ▸ put_tags (leb_ℤ (pos 2) version)

unfoldable pub decode_description : ℤ → Reader AclDescription
decode_description version = do
  principal ← get_name (leb_ℤ (pos 2) version)
  host ← get_name (leb_ℤ (pos 2) version)
  (operation, permission_type) ← guarded 2 (pair get_i8 get_i8)
  _ ← skip_tags (leb_ℤ (pos 2) version)
  returns (record {
    principal = principal;
    host = host;
    operation = operation;
    permission_type = permission_type;
  })

pub record IsAclDescription (m : AclDescription) : Type 0 where
  pub principal_in : IsText m.principal
  pub host_in : IsText m.host
  pub operation_in : IsI8 m.operation
  pub permission_type_in : IsI8 m.permission_type

reads_description :
    (version : ℤ) (m : AclDescription)
    → IsAclDescription m
    → Reads (decode_description version) (encode_description version m) m
unfolding decode_description encode_description
reads_description version m h = reads_then _ (reads_name _ _ h.principal_in) (
    reads_then _ (reads_name _ _ h.host_in) (
      reads_then _ (guarded_i8s m.operation m.permission_type h.operation_in h.permission_type_in)
        (reads_last _ (reads_tags _) refl)))

pub record DescribeAclsResource : Type 0 where
  pub resource_type : ℤ
  pub resource_name : Bytes
  pub resource_pattern_type : ℤ
  pub acls : List AclDescription

unfoldable pub encode_resource : ℤ → DescribeAclsResource → Bytes
encode_resource version m =
    put_i8 m.resource_type
    ▸ put_name (leb_ℤ (pos 2) version) m.resource_name
    ▸ write_if (leb_ℤ (pos 1) version) (put_i8 m.resource_pattern_type)
    ▸ put_list (leb_ℤ (pos 2) version) (encode_description version) m.acls
    ▸ put_tags (leb_ℤ (pos 2) version)

unfoldable pub decode_resource : ℤ → Reader DescribeAclsResource
decode_resource version = do
  resource_type ← guarded 1 get_i8
  resource_name ← get_name (leb_ℤ (pos 2) version)
  resource_pattern_type ← read_if (leb_ℤ (pos 1) version) (guarded 1 get_i8) (pos 3)
  acls ← get_list (leb_ℤ (pos 2) version) (decode_description version)
  _ ← skip_tags (leb_ℤ (pos 2) version)
  returns (record {
    resource_type = resource_type;
    resource_name = resource_name;
    resource_pattern_type = resource_pattern_type;
    acls = acls;
  })

pub record IsDescribeAclsResource (m : DescribeAclsResource) : Type 0 where
  pub resource_type_in : IsI8 m.resource_type
  pub resource_name_in : IsText m.resource_name
  pub resource_pattern_type_in : IsI8 m.resource_pattern_type
  pub acls_in : IsVec IsAclDescription m.acls

-- What a version carries of it; the decoder's defaults stand for the rest.
unfoldable pub resource_at : ℤ → DescribeAclsResource → DescribeAclsResource
resource_at version m = record {
  resource_type = m.resource_type;
  resource_name = m.resource_name;
  resource_pattern_type = if leb_ℤ (pos 1) version then m.resource_pattern_type else pos 3;
  acls = m.acls;
}

reads_resource :
    (version : ℤ) (m : DescribeAclsResource)
    → IsDescribeAclsResource m
    → Reads (decode_resource version) (encode_resource version m) (resource_at version m)
unfolding decode_resource encode_resource resource_at
reads_resource version m h = reads_then _ (guarded_i8 _ h.resource_type_in) (
    reads_then _ (reads_name _ _ h.resource_name_in) (
      reads_then _ (reads_if _ _ (guarded_i8 _ h.resource_pattern_type_in)) (
        reads_then _ (reads_same_flexible_list _ _ _ _ (reads_description version) _ h.acls_in)
          (reads_last _ (reads_tags _) refl))))

pub record DescribeAclsResponse : Type 0 where
  pub throttle_time_ms : ℤ
  pub error_code : KafkaErrorCode
  pub error_message : Option Bytes
  pub resources : List DescribeAclsResource

unfoldable pub encode_response : ℤ → DescribeAclsResponse → Bytes
encode_response version m =
    (put_i32 m.throttle_time_ms ▸ put_error m.error_code)
    ▸ put_text (leb_ℤ (pos 2) version) m.error_message
    ▸ put_list (leb_ℤ (pos 2) version) (encode_resource version) m.resources
    ▸ put_tags (leb_ℤ (pos 2) version)

unfoldable pub decode_response : ℤ → Reader DescribeAclsResponse
decode_response version = do
  (throttle_time_ms, error_code) ← guarded 6 (pair get_i32 get_error)
  error_message ← get_text (leb_ℤ (pos 2) version)
  resources ← get_list (leb_ℤ (pos 2) version) (decode_resource version)
  _ ← skip_tags (leb_ℤ (pos 2) version)
  returns (record {
    throttle_time_ms = throttle_time_ms;
    error_code = error_code;
    error_message = error_message;
    resources = resources;
  })

pub record IsDescribeAclsResponse (m : DescribeAclsResponse) : Type 0 where
  pub throttle_time_ms_in : IsI32 m.throttle_time_ms
  pub error_message_in : IsOptionalText m.error_message
  pub resources_in : IsVec IsDescribeAclsResource m.resources

-- What a version carries of it; the decoder's defaults stand for the rest.
unfoldable pub response_at : ℤ → DescribeAclsResponse → DescribeAclsResponse
response_at version m = record {
  throttle_time_ms = m.throttle_time_ms;
  error_code = m.error_code;
  error_message = m.error_message;
  resources = map (resource_at version) m.resources;
}

reads_response :
    (version : ℤ) (m : DescribeAclsResponse)
    → IsDescribeAclsResponse m
    → Reads (decode_response version) (encode_response version m) (response_at version m)
unfolding decode_response encode_response response_at
reads_response version m h =
    reads_then _ (guarded_i32_error m.throttle_time_ms m.error_code h.throttle_time_ms_in) (
      reads_then _ (reads_any_text _ _ h.error_message_in) (
        reads_then _ (reads_flexible_list _ _ _ _ _ (reads_resource version) _ h.resources_in)
          (reads_last _ (reads_tags _) refl)))

-- A DescribeAcls request and its answer that fit the wire are read back from their bytes in any version,
-- whatever follows, which is left, with what that version carries.
pub decode-encode_describe_acls :
    (version : ℤ) (req : DescribeAclsRequest) (resp : DescribeAclsResponse) (rest : Bytes)
    → IsDescribeAclsRequest req
    → IsDescribeAclsResponse resp
    → (decode_request version (encode_request version req ++ rest)
        ≡ ok (request_at version req, rest))
      × (decode_response version (encode_response version resp ++ rest)
          ≡ ok (response_at version resp, rest))
decode-encode_describe_acls version req resp rest h_req h_resp =
    ((reads_request version req h_req).taken rest, (reads_response version resp h_resp).taken rest)
