-- ===== src/Protocol/Messages/DescribeGroups.antt =====
-- crates/oxidemq-protocol/src/messages.rs: DescribeGroups.
use oxide_mq.Base.{◌≡◌, refl, List, ◌++◌, if◌then◌else◌}
use oxide_mq.Base.Int.{ℤ, pos, leb_ℤ}
use oxide_mq.Base.Result.{ok}
use oxide_mq.Bytes.{Bytes, get_i32, put_i32}
use oxide_mq.Broker.Codes.{KafkaErrorCode}
use oxide_mq.Protocol.Reader.{
  Reader, ◌>>=◌, returns, ◌▸◌, read_if, write_if, get_error, put_error, get_string, put_string,
  get_data, put_data, put_vec, IsI32, IsText, IsData, IsVec,
}
use oxide_mq.Protocol.Reader.Laws.{
  Reads, reads_then, reads_last, reads_if, reads_string, reads_data,
}
use oxide_mq.Protocol.Flexible.{guarded, get_checked, get_names}
use oxide_mq.Protocol.Flexible.Laws.{
  guarded_i32, guarded_error, reads_same_checked_list, reads_names,
}

pub record DescribeGroupsRequest : Type 0 where
  pub groups : List Bytes

unfoldable pub encode_request : ℤ → DescribeGroupsRequest → Bytes
encode_request _ m = put_vec put_string m.groups

unfoldable pub decode_request : ℤ → Reader DescribeGroupsRequest
decode_request _ = do groups ← get_names; returns (record { groups = groups })

pub record IsDescribeGroupsRequest (m : DescribeGroupsRequest) : Type 0 where
  pub groups_in : IsVec IsText m.groups

reads_request :
    (version : ℤ) (m : DescribeGroupsRequest)
    → IsDescribeGroupsRequest m
    → Reads (decode_request version) (encode_request version m) m
unfolding decode_request encode_request
reads_request version m h = reads_last _ (reads_names _ h.groups_in) refl

pub record DescribedGroupMember : Type 0 where
  pub member_id : Bytes
  pub client_id : Bytes
  pub client_host : Bytes
  pub member_metadata : Bytes
  pub member_assignment : Bytes

unfoldable pub encode_member : DescribedGroupMember → Bytes
encode_member m =
    put_string m.member_id
    ▸ put_string m.client_id
    ▸ put_string m.client_host
    ▸ put_data m.member_metadata
    ▸ put_data m.member_assignment

unfoldable pub decode_member : Reader DescribedGroupMember
decode_member = do
  member_id ← get_string
  client_id ← get_string
  client_host ← get_string
  member_metadata ← get_data
  member_assignment ← get_data
  returns (record {
    member_id = member_id;
    client_id = client_id;
    client_host = client_host;
    member_metadata = member_metadata;
    member_assignment = member_assignment;
  })

pub record IsDescribedGroupMember (m : DescribedGroupMember) : Type 0 where
  pub member_id_in : IsText m.member_id
  pub client_id_in : IsText m.client_id
  pub client_host_in : IsText m.client_host
  pub member_metadata_in : IsData m.member_metadata
  pub member_assignment_in : IsData m.member_assignment

reads_member :
    (m : DescribedGroupMember) → IsDescribedGroupMember m → Reads decode_member (encode_member m) m
unfolding decode_member encode_member
reads_member m h = reads_then _ (reads_string _ h.member_id_in) (
    reads_then _ (reads_string _ h.client_id_in) (
      reads_then _ (reads_string _ h.client_host_in) (
        reads_then _ (reads_data _ h.member_metadata_in)
          (reads_last _ (reads_data _ h.member_assignment_in) refl))))

pub record DescribedGroup : Type 0 where
  pub error_code : KafkaErrorCode
  pub group_id : Bytes
  pub group_state : Bytes
  pub protocol_type : Bytes
  pub protocol_data : Bytes
  pub members : List DescribedGroupMember

unfoldable pub encode_group : DescribedGroup → Bytes
encode_group m =
    put_error m.error_code
    ▸ put_string m.group_id
    ▸ put_string m.group_state
    ▸ put_string m.protocol_type
    ▸ put_string m.protocol_data
    ▸ put_vec encode_member m.members

unfoldable pub decode_group : Reader DescribedGroup
decode_group = do
  error_code ← guarded 2 get_error
  group_id ← get_string
  group_state ← get_string
  protocol_type ← get_string
  protocol_data ← get_string
  members ← get_checked decode_member
  returns (record {
    error_code = error_code;
    group_id = group_id;
    group_state = group_state;
    protocol_type = protocol_type;
    protocol_data = protocol_data;
    members = members;
  })

pub record IsDescribedGroup (m : DescribedGroup) : Type 0 where
  pub group_id_in : IsText m.group_id
  pub group_state_in : IsText m.group_state
  pub protocol_type_in : IsText m.protocol_type
  pub protocol_data_in : IsText m.protocol_data
  pub members_in : IsVec IsDescribedGroupMember m.members

reads_group : (m : DescribedGroup) → IsDescribedGroup m → Reads decode_group (encode_group m) m
unfolding decode_group encode_group
reads_group m h = reads_then _ (guarded_error _) (
    reads_then _ (reads_string _ h.group_id_in) (
      reads_then _ (reads_string _ h.group_state_in) (
        reads_then _ (reads_string _ h.protocol_type_in) (
          reads_then _ (reads_string _ h.protocol_data_in)
            (reads_last _ (reads_same_checked_list _ _ _ reads_member _ h.members_in) refl)))))

pub record DescribeGroupsResponse : Type 0 where
  pub throttle_time_ms : ℤ
  pub groups : List DescribedGroup

unfoldable pub encode_response : ℤ → DescribeGroupsResponse → Bytes
encode_response version m =
    write_if (leb_ℤ (pos 1) version) (put_i32 m.throttle_time_ms) ▸ put_vec encode_group m.groups

unfoldable pub decode_response : ℤ → Reader DescribeGroupsResponse
decode_response version = do
  throttle_time_ms ← read_if (leb_ℤ (pos 1) version) (guarded 4 get_i32) (pos 0)
  groups ← get_checked decode_group
  returns (record { throttle_time_ms = throttle_time_ms; groups = groups })

pub record IsDescribeGroupsResponse (m : DescribeGroupsResponse) : Type 0 where
  pub throttle_time_ms_in : IsI32 m.throttle_time_ms
  pub groups_in : IsVec IsDescribedGroup m.groups

-- What a version carries of it; the decoder's defaults stand for the rest.
unfoldable pub response_at : ℤ → DescribeGroupsResponse → DescribeGroupsResponse
response_at version m = record {
  throttle_time_ms = if leb_ℤ (pos 1) version then m.throttle_time_ms else pos 0;
  groups = m.groups;
}

reads_response :
    (version : ℤ) (m : DescribeGroupsResponse)
    → IsDescribeGroupsResponse m
    → Reads (decode_response version) (encode_response version m) (response_at version m)
unfolding decode_response encode_response response_at
reads_response version m h =
    reads_then _ (reads_if _ _ (guarded_i32 _ h.throttle_time_ms_in))
      (reads_last _ (reads_same_checked_list _ _ _ reads_group _ h.groups_in) refl)

-- A DescribeGroups request and its answer that fit the wire are read back from their bytes in any version,
-- whatever follows, which is left, with what that version carries.
pub decode-encode_describe_groups :
    (version : ℤ) (req : DescribeGroupsRequest) (resp : DescribeGroupsResponse) (rest : Bytes)
    → IsDescribeGroupsRequest req
    → IsDescribeGroupsResponse resp
    → (decode_request version (encode_request version req ++ rest) ≡ ok (req, rest))
      × (decode_response version (encode_response version resp ++ rest)
          ≡ ok (response_at version resp, rest))
decode-encode_describe_groups version req resp rest h_req h_resp =
    ((reads_request version req h_req).taken rest, (reads_response version resp h_resp).taken rest)
