-- ===== src/Protocol/Messages/ListGroups.antt =====
-- crates/oxidemq-protocol/src/messages.rs: ListGroups, whose request is empty.
use oxide_mq.Base.{◌≡◌, refl, List, ◌++◌, if◌then◌else◌}
use oxide_mq.Base.Int.{ℤ, pos, leb_ℤ}
use oxide_mq.Base.Result.{ok}
use oxide_mq.Bytes.{Bytes, get_i32, put_i32}
use oxide_mq.Broker.Codes.{KafkaErrorCode}
use oxide_mq.Protocol.Reader.{
  Reader, ◌>>=◌, returns, ◌▸◌, read_if, write_if, get_error, put_error, get_string, put_string,
  put_vec, IsI32, IsText, IsVec,
}
use oxide_mq.Protocol.Reader.Laws.{Reads, reads_then, reads_last, reads_if, reads_string}
use oxide_mq.Protocol.Flexible.{guarded, get_checked}
use oxide_mq.Protocol.Flexible.Laws.{guarded_i32, guarded_error, reads_same_checked_list}

pub record ListedGroup : Type 0 where
  pub group_id : Bytes
  pub protocol_type : Bytes

unfoldable pub encode_group : ListedGroup → Bytes
encode_group m = put_string m.group_id ▸ put_string m.protocol_type

unfoldable pub decode_group : Reader ListedGroup
decode_group = do
  group_id ← get_string
  protocol_type ← get_string
  returns (record { group_id = group_id; protocol_type = protocol_type })

pub record IsListedGroup (m : ListedGroup) : Type 0 where
  pub group_id_in : IsText m.group_id
  pub protocol_type_in : IsText m.protocol_type

reads_group : (m : ListedGroup) → IsListedGroup m → Reads decode_group (encode_group m) m
unfolding decode_group encode_group
reads_group m h =
    reads_then _ (reads_string _ h.group_id_in)
      (reads_last _ (reads_string _ h.protocol_type_in) refl)

pub record ListGroupsResponse : Type 0 where
  pub throttle_time_ms : ℤ
  pub error_code : KafkaErrorCode
  pub groups : List ListedGroup

unfoldable pub encode_response : ℤ → ListGroupsResponse → Bytes
encode_response version m =
    write_if (leb_ℤ (pos 1) version) (put_i32 m.throttle_time_ms)
    ▸ put_error m.error_code
    ▸ put_vec encode_group m.groups

unfoldable pub decode_response : ℤ → Reader ListGroupsResponse
decode_response version = do
  throttle_time_ms ← read_if (leb_ℤ (pos 1) version) (guarded 4 get_i32) (pos 0)
  error_code ← guarded 2 get_error
  groups ← get_checked decode_group
  returns (record { throttle_time_ms = throttle_time_ms; error_code = error_code; groups = groups })

pub record IsListGroupsResponse (m : ListGroupsResponse) : Type 0 where
  pub throttle_time_ms_in : IsI32 m.throttle_time_ms
  pub groups_in : IsVec IsListedGroup m.groups

-- What a version carries of it; the decoder's defaults stand for the rest.
unfoldable pub response_at : ℤ → ListGroupsResponse → ListGroupsResponse
response_at version m = record {
  throttle_time_ms = if leb_ℤ (pos 1) version then m.throttle_time_ms else pos 0;
  error_code = m.error_code;
  groups = m.groups;
}

reads_response :
    (version : ℤ) (m : ListGroupsResponse)
    → IsListGroupsResponse m
    → Reads (decode_response version) (encode_response version m) (response_at version m)
unfolding decode_response encode_response response_at
reads_response version m h = reads_then _ (reads_if _ _ (guarded_i32 _ h.throttle_time_ms_in)) (
    reads_then _ (guarded_error _)
      (reads_last _ (reads_same_checked_list _ _ _ reads_group _ h.groups_in) refl))

-- A ListGroups answer that fits the wire is read back from its bytes in any version, whatever
-- follows, which is left, with what that version carries.
pub decode-encode_list_groups :
    (version : ℤ) (resp : ListGroupsResponse) (rest : Bytes)
    → IsListGroupsResponse resp
    → (decode_response version (encode_response version resp ++ rest)
        ≡ ok (response_at version resp, rest))
decode-encode_list_groups version resp rest h_resp = (reads_response version resp h_resp).taken rest
