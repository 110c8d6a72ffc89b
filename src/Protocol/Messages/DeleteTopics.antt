-- ===== src/Protocol/Messages/DeleteTopics.antt =====
-- crates/oxidemq-protocol/src/messages.rs: DeleteTopics.
use oxide_mq.Base.{◌≡◌, refl, List, ◌++◌, if◌then◌else◌}
use oxide_mq.Base.Int.{ℤ, pos, leb_ℤ}
use oxide_mq.Base.Result.{ok}
use oxide_mq.Bytes.{Bytes, get_i32, put_i32}
use oxide_mq.Broker.Codes.{KafkaErrorCode}
use oxide_mq.Protocol.Reader.{
  Reader, ◌>>=◌, returns, ◌▸◌, read_if, write_if, get_error, put_error, get_string, put_string,
  put_vec, IsI32, IsText, IsVec,
}
use oxide_mq.Protocol.Reader.Laws.{Reads, reads_then, reads_last, reads_if, reads_string}
use oxide_mq.Protocol.Flexible.{guarded, get_checked, get_names}
use oxide_mq.Protocol.Flexible.Laws.{
  guarded_i32, guarded_error, reads_same_checked_list, reads_names,
}

pub record DeleteTopicsRequest : Type 0 where
  pub topic_names : List Bytes
  pub timeout_ms : ℤ

unfoldable pub encode_request : ℤ → DeleteTopicsRequest → Bytes
encode_request _ m = put_vec put_string m.topic_names ▸ put_i32 m.timeout_ms

unfoldable pub decode_request : ℤ → Reader DeleteTopicsRequest
decode_request _ = do
  topic_names ← get_names
  timeout_ms ← guarded 4 get_i32
  returns (record { topic_names = topic_names; timeout_ms = timeout_ms })

pub record IsDeleteTopicsRequest (m : DeleteTopicsRequest) : Type 0 where
  pub topic_names_in : IsVec IsText m.topic_names
  pub timeout_ms_in : IsI32 m.timeout_ms

reads_request :
    (version : ℤ) (m : DeleteTopicsRequest)
    → IsDeleteTopicsRequest m
    → Reads (decode_request version) (encode_request version m) m
unfolding decode_request encode_request
reads_request version m h =
    reads_then _ (reads_names _ h.topic_names_in)
      (reads_last _ (guarded_i32 _ h.timeout_ms_in) refl)

pub record DeletableTopicResult : Type 0 where
  pub name : Bytes
  pub error_code : KafkaErrorCode

unfoldable pub encode_result : DeletableTopicResult → Bytes
encode_result m = put_string m.name ▸ put_error m.error_code

unfoldable pub decode_result : Reader DeletableTopicResult
decode_result = do
  name ← get_string
  error_code ← guarded 2 get_error
  returns (record { name = name; error_code = error_code })

pub record IsDeletableTopicResult (m : DeletableTopicResult) : Type 0 where
  pub name_in : IsText m.name

reads_result :
    (m : DeletableTopicResult) → IsDeletableTopicResult m → Reads decode_result (encode_result m) m
unfolding decode_result encode_result
reads_result m h = reads_then _ (reads_string _ h.name_in) (reads_last _ (guarded_error _) refl)

pub record DeleteTopicsResponse : Type 0 where
  pub throttle_time_ms : ℤ
  pub responses : List DeletableTopicResult

unfoldable pub encode_response : ℤ → DeleteTopicsResponse → Bytes
encode_response version m =
    write_if (leb_ℤ (pos 1) version) (put_i32 m.throttle_time_ms)
    ▸ put_vec encode_result m.responses

unfoldable pub decode_response : ℤ → Reader DeleteTopicsResponse
decode_response version = do
  throttle_time_ms ← read_if (leb_ℤ (pos 1) version) (guarded 4 get_i32) (pos 0)
  responses ← get_checked decode_result
  returns (record { throttle_time_ms = throttle_time_ms; responses = responses })

pub record IsDeleteTopicsResponse (m : DeleteTopicsResponse) : Type 0 where
  pub throttle_time_ms_in : IsI32 m.throttle_time_ms
  pub responses_in : IsVec IsDeletableTopicResult m.responses

-- What a version carries of it; the decoder's defaults stand for the rest.
unfoldable pub response_at : ℤ → DeleteTopicsResponse → DeleteTopicsResponse
response_at version m = record {
  throttle_time_ms = if leb_ℤ (pos 1) version then m.throttle_time_ms else pos 0;
  responses = m.responses;
}

reads_response :
    (version : ℤ) (m : DeleteTopicsResponse)
    → IsDeleteTopicsResponse m
    → Reads (decode_response version) (encode_response version m) (response_at version m)
unfolding decode_response encode_response response_at
reads_response version m h =
    reads_then _ (reads_if _ _ (guarded_i32 _ h.throttle_time_ms_in))
      (reads_last _ (reads_same_checked_list _ _ _ reads_result _ h.responses_in) refl)

-- A DeleteTopics request and its answer that fit the wire are read back from their bytes in any version,
-- whatever follows, which is left, with what that version carries.
pub decode-encode_delete_topics :
    (version : ℤ) (req : DeleteTopicsRequest) (resp : DeleteTopicsResponse) (rest : Bytes)
    → IsDeleteTopicsRequest req
    → IsDeleteTopicsResponse resp
    → (decode_request version (encode_request version req ++ rest) ≡ ok (req, rest))
      × (decode_response version (encode_response version resp ++ rest)
          ≡ ok (response_at version resp, rest))
decode-encode_delete_topics version req resp rest h_req h_resp =
    ((reads_request version req h_req).taken rest, (reads_response version resp h_resp).taken rest)
