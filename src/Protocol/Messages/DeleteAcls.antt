-- ===== src/Protocol/Messages/DeleteAcls.antt =====
-- crates/oxidemq-protocol/src/messages.rs: DeleteAcls.
-- An `if` over the version with several fields under it is that test on each of them.
use oxide_mq.Base.{◌≡◌, refl, List, ◌++◌, map, Option, if◌then◌else◌}
use oxide_mq.Base.Int.{ℤ, pos, leb_ℤ}
use oxide_mq.Base.Result.{ok}
use oxide_mq.Bytes.{Bytes, get_i32, put_i32}
use oxide_mq.Broker.Codes.{KafkaErrorCode}
use oxide_mq.Protocol.Reader.{
  Reader, ◌>>=◌, returns, ◌▸◌, read_if, write_if, get_i8, put_i8, get_error, put_error, IsI8, IsI32,
  IsText, IsOptionalText, IsVec,
}
use oxide_mq.Protocol.Reader.Laws.{Reads, reads_then, reads_last, reads_if}
use oxide_mq.Protocol.Flexible.{
  guarded, pair, get_text, put_text, get_name, put_name, get_list, skip_tags, put_tags, put_list,
}
use oxide_mq.Protocol.Flexible.Laws.{
  guarded_i8, guarded_i32, guarded_error, guarded_i8s, reads_any_text, reads_name, reads_tags,
  reads_flexible_list,
}

pub record DeleteAclsFilter : Type 0 where
  pub resource_type_filter : ℤ
  pub resource_name_filter : Option Bytes
  pub resource_pattern_type_filter : ℤ
  pub principal_filter : Option Bytes
  pub host_filter : Option Bytes
  pub operation : ℤ
  pub permission_type : ℤ

unfoldable pub encode_filter : ℤ → DeleteAclsFilter → Bytes
encode_filter version m =
    put_i8 m.resource_type_filter
    ▸ put_text (leb_ℤ (pos 2) version) m.resource_name_filter
    ▸ write_if (leb_ℤ (pos 1) version) (put_i8 m.resource_pattern_type_filter)
    ▸ put_text (leb_ℤ (pos 2) version) m.principal_filter
    ▸ put_text (leb_ℤ (pos 2) version) m.host_filter
    ▸ (put_i8 m.operation ▸ put_i8 m.permission_type)
    ▸ put_tags (leb_ℤ (pos 2) version)

unfoldable pub decode_filter : ℤ → Reader DeleteAclsFilter
decode_filter version = do
  resource_type_filter ← guarded 1 get_i8
  resource_name_filter ← get_text (leb_ℤ (pos 2) version)
  resource_pattern_type_filter ← read_if (leb_ℤ (pos 1) version) (guarded 1 get_i8) (pos 1)
  principal_filter ← get_text (leb_ℤ (pos 2) version)
  host_filter ← get_text (leb_ℤ (pos 2) version)
  (operation, permission_type) ← guarded 2 (pair get_i8 get_i8)
  _ ← skip_tags (leb_ℤ (pos 2) version)
  returns (record {
    resource_type_filter = resource_type_filter;
    resource_name_filter = resource_name_filter;
    resource_pattern_type_filter = resource_pattern_type_filter;
    principal_filter = principal_filter;
    host_filter = host_filter;
    operation = operation;
    permission_type = permission_type;
  })

pub record IsDeleteAclsFilter (m : DeleteAclsFilter) : Type 0 where
  pub resource_type_filter_in : IsI8 m.resource_type_filter
  pub resource_name_filter_in : IsOptionalText m.resource_name_filter
  pub resource_pattern_type_filter_in : IsI8 m.resource_pattern_type_filter
  pub principal_filter_in : IsOptionalText m.principal_filter
  pub host_filter_in : IsOptionalText m.host_filter
  pub operation_in : IsI8 m.operation
  pub permission_type_in : IsI8 m.permission_type

-- What a version carries of it; the decoder's defaults stand for the rest.
unfoldable pub filter_at : ℤ → DeleteAclsFilter → DeleteAclsFilter
filter_at version m = record {
  resource_type_filter = m.resource_type_filter;
  resource_name_filter = m.resource_name_filter;
  resource_pattern_type_filter =
      if leb_ℤ (pos 1) version then m.resource_pattern_type_filter else pos 1;
  principal_filter = m.principal_filter;
  host_filter = m.host_filter;
  operation = m.operation;
  permission_type = m.permission_type;
}

reads_filter :
    (version : ℤ) (m : DeleteAclsFilter)
    → IsDeleteAclsFilter m
    → Reads (decode_filter version) (encode_filter version m) (filter_at version m)
unfolding decode_filter encode_filter filter_at
reads_filter version m h = reads_then _ (guarded_i8 _ h.resource_type_filter_in) (
    reads_then _ (reads_any_text _ _ h.resource_name_filter_in) (
      reads_then _ (reads_if _ _ (guarded_i8 _ h.resource_pattern_type_filter_in)) (
        reads_then _ (reads_any_text _ _ h.principal_filter_in) (
          reads_then _ (reads_any_text _ _ h.host_filter_in) (
            reads_then _
              (guarded_i8s m.operation m.permission_type h.operation_in h.permission_type_in)
              (reads_last _ (reads_tags _) refl))))))

pub record DeleteAclsRequest : Type 0 where
  pub filters : List DeleteAclsFilter

unfoldable pub encode_request : ℤ → DeleteAclsRequest → Bytes
encode_request version m =
    put_list (leb_ℤ (pos 2) version) (encode_filter version) m.filters
    ▸ put_tags (leb_ℤ (pos 2) version)

unfoldable pub decode_request : ℤ → Reader DeleteAclsRequest
decode_request version = do
  filters ← get_list (leb_ℤ (pos 2) version) (decode_filter version)
  _ ← skip_tags (leb_ℤ (pos 2) version)
  returns (record { filters = filters })

pub record IsDeleteAclsRequest (m : DeleteAclsRequest) : Type 0 where
  pub filters_in : IsVec IsDeleteAclsFilter m.filters

-- What a version carries of it; the decoder's defaults stand for the rest.
unfoldable pub request_at : ℤ → DeleteAclsRequest → DeleteAclsRequest
request_at version m = record { filters = map (filter_at version) m.filters }

reads_request :
    (version : ℤ) (m : DeleteAclsRequest)
    → IsDeleteAclsRequest m
    → Reads (decode_request version) (encode_request version m) (request_at version m)
unfolding decode_request encode_request request_at
reads_request version m h =
    reads_then _ (reads_flexible_list _ _ _ _ _ (reads_filter version) _ h.filters_in)
      (reads_last _ (reads_tags _) refl)

pub record DeleteAclsMatchingAcl : Type 0 where
  pub error_code : KafkaErrorCode
  pub error_message : Option Bytes
  pub resource_type : ℤ
  pub resource_name : Bytes
  pub resource_pattern_type : ℤ
  pub principal : Bytes
  pub host : Bytes
  pub operation : ℤ
  pub permission_type : ℤ

unfoldable pub encode_matching_acl : ℤ → DeleteAclsMatchingAcl → Bytes
encode_matching_acl version m =
    put_error m.error_code
    ▸ put_text (leb_ℤ (pos 2) version) m.error_message
    ▸ put_i8 m.resource_type
    ▸ put_name (leb_ℤ (pos 2) version) m.resource_name
    ▸ write_if (leb_ℤ (pos 1) version) (put_i8 m.resource_pattern_type)
    ▸ put_name (leb_ℤ (pos 2) version) m.principal
    ▸ put_name (leb_ℤ (pos 2) version) m.host
    ▸ (put_i8 m.operation ▸ put_i8 m.permission_type)
    ▸ put_tags (leb_ℤ (pos 2) version)

unfoldable pub decode_matching_acl : ℤ → Reader DeleteAclsMatchingAcl
decode_matching_acl version = do
  error_code ← guarded 2 get_error
  error_message ← get_text (leb_ℤ (pos 2) version)
  resource_type ← guarded 1 get_i8
  resource_name ← get_name (leb_ℤ (pos 2) version)
  resource_pattern_type ← read_if (leb_ℤ (pos 1) version) (guarded 1 get_i8) (pos 3)
  principal ← get_name (leb_ℤ (pos 2) version)
  host ← get_name (leb_ℤ (pos 2) version)
  (operation, permission_type) ← guarded 2 (pair get_i8 get_i8)
  _ ← skip_tags (leb_ℤ (pos 2) version)
  returns (record {
    error_code = error_code;
    error_message = error_message;
    resource_type = resource_type;
    resource_name = resource_name;
    resource_pattern_type = resource_pattern_type;
    principal = principal;
    host = host;
    operation = operation;
    permission_type = permission_type;
  })

pub record IsDeleteAclsMatchingAcl (m : DeleteAclsMatchingAcl) : Type 0 where
  pub error_message_in : IsOptionalText m.error_message
  pub resource_type_in : IsI8 m.resource_type
  pub resource_name_in : IsText m.resource_name
  pub resource_pattern_type_in : IsI8 m.resource_pattern_type
  pub principal_in : IsText m.principal
  pub host_in : IsText m.host
  pub operation_in : IsI8 m.operation
  pub permission_type_in : IsI8 m.permission_type

-- What a version carries of it; the decoder's defaults stand for the rest.
unfoldable pub matching_acl_at : ℤ → DeleteAclsMatchingAcl → DeleteAclsMatchingAcl
matching_acl_at version m = record {
  error_code = m.error_code;
  error_message = m.error_message;
  resource_type = m.resource_type;
  resource_name = m.resource_name;
  resource_pattern_type = if leb_ℤ (pos 1) version then m.resource_pattern_type else pos 3;
  principal = m.principal;
  host = m.host;
  operation = m.operation;
  permission_type = m.permission_type;
}

reads_matching_acl :
    (version : ℤ) (m : DeleteAclsMatchingAcl)
    → IsDeleteAclsMatchingAcl m
    → Reads
        (decode_matching_acl version)
        (encode_matching_acl version m)
        (matching_acl_at version m)
unfolding decode_matching_acl encode_matching_acl matching_acl_at
reads_matching_acl version m h = reads_then _ (guarded_error _) (
    reads_then _ (reads_any_text _ _ h.error_message_in) (
      reads_then _ (guarded_i8 _ h.resource_type_in) (
        reads_then _ (reads_name _ _ h.resource_name_in) (
          reads_then _ (reads_if _ _ (guarded_i8 _ h.resource_pattern_type_in)) (
            reads_then _ (reads_name _ _ h.principal_in) (
              reads_then _ (reads_name _ _ h.host_in) (
                reads_then _
                  (guarded_i8s m.operation m.permission_type h.operation_in h.permission_type_in)
                  (reads_last _ (reads_tags _) refl))))))))

pub record DeleteAclsFilterResult : Type 0 where
  pub error_code : KafkaErrorCode
  pub error_message : Option Bytes
  pub matching_acls : List DeleteAclsMatchingAcl

unfoldable pub encode_filter_result : ℤ → DeleteAclsFilterResult → Bytes
encode_filter_result version m =
    put_error m.error_code
    ▸ put_text (leb_ℤ (pos 2) version) m.error_message
    ▸ put_list (leb_ℤ (pos 2) version) (encode_matching_acl version) m.matching_acls
    ▸ put_tags (leb_ℤ (pos 2) version)

unfoldable pub decode_filter_result : ℤ → Reader DeleteAclsFilterResult
decode_filter_result version = do
  error_code ← guarded 2 get_error
  error_message ← get_text (leb_ℤ (pos 2) version)
  matching_acls ← get_list (leb_ℤ (pos 2) version) (decode_matching_acl version)
  _ ← skip_tags (leb_ℤ (pos 2) version)
  returns (record {
    error_code = error_code;
    error_message = error_message;
    matching_acls = matching_acls;
  })

pub record IsDeleteAclsFilterResult (m : DeleteAclsFilterResult) : Type 0 where
  pub error_message_in : IsOptionalText m.error_message
  pub matching_acls_in : IsVec IsDeleteAclsMatchingAcl m.matching_acls

-- What a version carries of it; the decoder's defaults stand for the rest.
unfoldable pub filter_result_at : ℤ → DeleteAclsFilterResult → DeleteAclsFilterResult
filter_result_at version m = record {
  error_code = m.error_code;
  error_message = m.error_message;
  matching_acls = map (matching_acl_at version) m.matching_acls;
}

reads_filter_result :
    (version : ℤ) (m : DeleteAclsFilterResult)
    → IsDeleteAclsFilterResult m
    → Reads
        (decode_filter_result version)
        (encode_filter_result version m)
        (filter_result_at version m)
unfolding decode_filter_result encode_filter_result filter_result_at
reads_filter_result version m h = reads_then _ (guarded_error _) (
    reads_then _ (reads_any_text _ _ h.error_message_in) (
      reads_then _ (reads_flexible_list _ _ _ _ _ (reads_matching_acl version) _ h.matching_acls_in)
        (reads_last _ (reads_tags _) refl)))

pub record DeleteAclsResponse : Type 0 where
  pub throttle_time_ms : ℤ
  pub filter_results : List DeleteAclsFilterResult

unfoldable pub encode_response : ℤ → DeleteAclsResponse → Bytes
encode_response version m =
    put_i32 m.throttle_time_ms
    ▸ put_list (leb_ℤ (pos 2) version) (encode_filter_result version) m.filter_results
    ▸ put_tags (leb_ℤ (pos 2) version)

unfoldable pub decode_response : ℤ → Reader DeleteAclsResponse
decode_response version = do
  throttle_time_ms ← guarded 4 get_i32
  filter_results ← get_list (leb_ℤ (pos 2) version) (decode_filter_result version)
  _ ← skip_tags (leb_ℤ (pos 2) version)
  returns (record { throttle_time_ms = throttle_time_ms; filter_results = filter_results })

pub record IsDeleteAclsResponse (m : DeleteAclsResponse) : Type 0 where
  pub throttle_time_ms_in : IsI32 m.throttle_time_ms
  pub filter_results_in : IsVec IsDeleteAclsFilterResult m.filter_results

-- What a version carries of it; the decoder's defaults stand for the rest.
unfoldable pub response_at : ℤ → DeleteAclsResponse → DeleteAclsResponse
response_at version m = record {
  throttle_time_ms = m.throttle_time_ms;
  filter_results = map (filter_result_at version) m.filter_results;
}

reads_response :
    (version : ℤ) (m : DeleteAclsResponse)
    → IsDeleteAclsResponse m
    → Reads (decode_response version) (encode_response version m) (response_at version m)
unfolding decode_response encode_response response_at
reads_response version m h = reads_then _ (guarded_i32 _ h.throttle_time_ms_in) (
    reads_then _ (reads_flexible_list _ _ _ _ _ (reads_filter_result version) _ h.filter_results_in)
      (reads_last _ (reads_tags _) refl))

-- A DeleteAcls request and its answer that fit the wire are read back from their bytes in any version,
-- whatever follows, which is left, with what that version carries.
pub decode-encode_delete_acls :
    (version : ℤ) (req : DeleteAclsRequest) (resp : DeleteAclsResponse) (rest : Bytes)
    → IsDeleteAclsRequest req
    → IsDeleteAclsResponse resp
    → (decode_request version (encode_request version req ++ rest)
        ≡ ok (request_at version req, rest))
      × (decode_response version (encode_response version resp ++ rest)
          ≡ ok (response_at version resp, rest))
decode-encode_delete_acls version req resp rest h_req h_resp =
    ((reads_request version req h_req).taken rest, (reads_response version resp h_resp).taken rest)
