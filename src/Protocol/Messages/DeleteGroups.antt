-- ===== src/Protocol/Messages/DeleteGroups.antt =====
-- crates/oxidemq-protocol/src/messages.rs: DeleteGroups.
use oxide_mq.Base.{◌≡◌, refl, List, ◌++◌}
use oxide_mq.Base.Int.{ℤ}
use oxide_mq.Base.Result.{ok}
use oxide_mq.Bytes.{Bytes, get_i32, put_i32}
use oxide_mq.Broker.Codes.{KafkaErrorCode}
use oxide_mq.Protocol.Reader.{
  Reader, ◌>>=◌, returns, ◌▸◌, get_error, put_error, get_string, put_string, put_vec, IsI32, IsText,
  IsVec,
}
use oxide_mq.Protocol.Reader.Laws.{Reads, reads_then, reads_last, reads_string}
use oxide_mq.Protocol.Flexible.{guarded, get_checked, get_names}
use oxide_mq.Protocol.Flexible.Laws.{
  guarded_i32, guarded_error, reads_same_checked_list, reads_names,
}

pub record DeleteGroupsRequest : Type 0 where
  pub groups_names : List Bytes

unfoldable pub encode_request : ℤ → DeleteGroupsRequest → Bytes
encode_request _ m = put_vec put_string m.groups_names

unfoldable pub decode_request : ℤ → Reader DeleteGroupsRequest
decode_request _ = do groups_names ← get_names; returns (record { groups_names = groups_names })

pub record IsDeleteGroupsRequest (m : DeleteGroupsRequest) : Type 0 where
  pub groups_names_in : IsVec IsText m.groups_names

reads_request :
    (version : ℤ) (m : DeleteGroupsRequest)
    → IsDeleteGroupsRequest m
    → Reads (decode_request version) (encode_request version m) m
unfolding decode_request encode_request
reads_request version m h = reads_last _ (reads_names _ h.groups_names_in) refl

pub record DeletableGroupResult : Type 0 where
  pub group_id : Bytes
  pub error_code : KafkaErrorCode

unfoldable pub encode_result : DeletableGroupResult → Bytes
encode_result m = put_string m.group_id ▸ put_error m.error_code

unfoldable pub decode_result : Reader DeletableGroupResult
decode_result = do
  group_id ← get_string
  error_code ← guarded 2 get_error
  returns (record { group_id = group_id; error_code = error_code })

pub record IsDeletableGroupResult (m : DeletableGroupResult) : Type 0 where
  pub group_id_in : IsText m.group_id

reads_result :
    (m : DeletableGroupResult) → IsDeletableGroupResult m → Reads decode_result (encode_result m) m
unfolding decode_result encode_result
reads_result m h = reads_then _ (reads_string _ h.group_id_in) (reads_last _ (guarded_error _) refl)

pub record DeleteGroupsResponse : Type 0 where
  pub throttle_time_ms : ℤ
  pub results : List DeletableGroupResult

unfoldable pub encode_response : ℤ → DeleteGroupsResponse → Bytes
encode_response _ m = put_i32 m.throttle_time_ms ▸ put_vec encode_result m.results

unfoldable pub decode_response : ℤ → Reader DeleteGroupsResponse
decode_response _ = do
  throttle_time_ms ← guarded 4 get_i32
  results ← get_checked decode_result
  returns (record { throttle_time_ms = throttle_time_ms; results = results })

pub record IsDeleteGroupsResponse (m : DeleteGroupsResponse) : Type 0 where
  pub throttle_time_ms_in : IsI32 m.throttle_time_ms
  pub results_in : IsVec IsDeletableGroupResult m.results

reads_response :
    (version : ℤ) (m : DeleteGroupsResponse)
    → IsDeleteGroupsResponse m
    → Reads (decode_response version) (encode_response version m) m
unfolding decode_response encode_response
reads_response version m h =
    reads_then _ (guarded_i32 _ h.throttle_time_ms_in)
      (reads_last _ (reads_same_checked_list _ _ _ reads_result _ h.results_in) refl)

-- A DeleteGroups request and its answer that fit the wire are read back whole from their bytes in any
-- version, whatever follows, which is left.
pub decode-encode_delete_groups :
    (version : ℤ) (req : DeleteGroupsRequest) (resp : DeleteGroupsResponse) (rest : Bytes)
    → IsDeleteGroupsRequest req
    → IsDeleteGroupsResponse resp
    → (decode_request version (encode_request version req ++ rest) ≡ ok (req, rest))
      × (decode_response version (encode_response version resp ++ rest) ≡ ok (resp, rest))
decode-encode_delete_groups version req resp rest h_req h_resp =
    ((reads_request version req h_req).taken rest, (reads_response version resp h_resp).taken rest)
