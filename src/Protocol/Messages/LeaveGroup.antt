-- ===== src/Protocol/Messages/LeaveGroup.antt =====
-- crates/oxidemq-protocol/src/messages.rs: LeaveGroup.
use oxide_mq.Base.{◌≡◌, refl, ◌++◌, if◌then◌else◌}
use oxide_mq.Base.Int.{ℤ, pos, leb_ℤ}
use oxide_mq.Base.Result.{ok}
use oxide_mq.Bytes.{Bytes, get_i32, put_i32}
use oxide_mq.Broker.Codes.{KafkaErrorCode}
use oxide_mq.Protocol.Reader.{
  Reader, ◌>>=◌, returns, ◌▸◌, read_if, write_if, get_error, put_error, get_string, put_string,
  IsI32, IsText,
}
use oxide_mq.Protocol.Reader.Laws.{
  Reads, reads_then, reads_last, reads_if, reads_i32, reads_error, reads_string,
}

pub record LeaveGroupRequest : Type 0 where
  pub group_id : Bytes
  pub member_id : Bytes

unfoldable pub encode_request : ℤ → LeaveGroupRequest → Bytes
encode_request _ m = put_string m.group_id ▸ put_string m.member_id

unfoldable pub decode_request : ℤ → Reader LeaveGroupRequest
decode_request _ = do
  group_id ← get_string
  member_id ← get_string
  returns (record { group_id = group_id; member_id = member_id })

pub record IsLeaveGroupRequest (m : LeaveGroupRequest) : Type 0 where
  pub group_id_in : IsText m.group_id
  pub member_id_in : IsText m.member_id

reads_request :
    (version : ℤ) (m : LeaveGroupRequest)
    → IsLeaveGroupRequest m
    → Reads (decode_request version) (encode_request version m) m
unfolding decode_request encode_request
reads_request version m h =
    reads_then _ (reads_string _ h.group_id_in) (reads_last _ (reads_string _ h.member_id_in) refl)

pub record LeaveGroupResponse : Type 0 where
  pub throttle_time_ms : ℤ
  pub error_code : KafkaErrorCode

unfoldable pub encode_response : ℤ → LeaveGroupResponse → Bytes
encode_response version m =
    write_if (leb_ℤ (pos 1) version) (put_i32 m.throttle_time_ms) ▸ put_error m.error_code

unfoldable pub decode_response : ℤ → Reader LeaveGroupResponse
decode_response version = do
  throttle_time_ms ← read_if (leb_ℤ (pos 1) version) get_i32 (pos 0)
  error_code ← get_error
  returns (record { throttle_time_ms = throttle_time_ms; error_code = error_code })

pub record IsLeaveGroupResponse (m : LeaveGroupResponse) : Type 0 where
  pub throttle_time_ms_in : IsI32 m.throttle_time_ms

-- What a version carries of it; the decoder's defaults stand for the rest.
unfoldable pub response_at : ℤ → LeaveGroupResponse → LeaveGroupResponse
response_at version m = record {
  throttle_time_ms = if leb_ℤ (pos 1) version then m.throttle_time_ms else pos 0;
  error_code = m.error_code;
}

reads_response :
    (version : ℤ) (m : LeaveGroupResponse)
    → IsLeaveGroupResponse m
    → Reads (decode_response version) (encode_response version m) (response_at version m)
unfolding decode_response encode_response response_at
reads_response version m h =
    reads_then _ (reads_if _ _ (reads_i32 _ h.throttle_time_ms_in))
      (reads_last _ (reads_error _) refl)

-- A LeaveGroup request and its answer that fit the wire are read back from their bytes in any
-- version, whatever follows, which is left, with what that version carries.
pub decode-encode_leave_group :
    (version : ℤ) (req : LeaveGroupRequest) (resp : LeaveGroupResponse) (rest : Bytes)
    → IsLeaveGroupRequest req
    → IsLeaveGroupResponse resp
    → (decode_request version (encode_request version req ++ rest) ≡ ok (req, rest))
      × (decode_response version (encode_response version resp ++ rest)
          ≡ ok (response_at version resp, rest))
decode-encode_leave_group version req resp rest h_req h_resp =
    ((reads_request version req h_req).taken rest, (reads_response version resp h_resp).taken rest)
