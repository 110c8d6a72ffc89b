-- ===== src/Broker/Coordinator.antt =====
-- crates/oxidemq-broker/src/coordinator.rs: the coordinator of the consumer groups. Each handler
-- holds the lock of the map to its end and is one step on the coordinator.
pub mod Members
pub mod Requests
pub mod Deletions
use mathlib.Core.Option
use oxide_mq.Base.{
  ℕ, ◌+◌, ◌%◌, ◌^◌, List, [], ◌∷◌, ◌++◌, map, length, Option, none, some, Bool, true, false, not,
  ◌&&◌, if◌then◌else◌, String,
}
use oxide_mq.Base.Eq.{◌==◌, string_eq, int_eq}
use oxide_mq.Base.Assoc.{get, insert, remove, contains_key}
use oxide_mq.Base.Int.{ℤ, pos, to_word, of_word, ◌+ℤ◌}
use oxide_mq.Bytes.{Bytes}
use oxide_mq.Broker.Codes.{
  KafkaErrorCode, no_error, invalid_group_id, illegal_generation, unknown_member_id,
  group_id_not_found, non_empty_group, TopicPartition, tp_eq,
}

pub data GroupState : Type 0 where
  empty preparing_rebalance completing_rebalance stable dead : GroupState

pub record GroupMember : Type 0 where
  pub member_id : String
  pub client_id : String
  pub client_host : String
  pub protocol_metadata : Bytes
  pub assignment : Bytes

pub record ConsumerGroup : Type 0 where
  pub group_id : String
  pub state : GroupState
  pub generation_id : ℤ
  pub leader_id : Option String
  pub protocol_type : String
  pub protocol_name : Option String
  pub members : List (String × GroupMember)
  pub offsets : List (TopicPartition × ℤ)

abbrev pub new_group : String → ConsumerGroup
new_group group_id = record {
  group_id = group_id;
  state = empty;
  generation_id = pos 0;
  leader_id = none;
  protocol_type = "";
  protocol_name = none;
  members = [];
  offsets = [];
}

pub record GroupCoordinator : Type 0 where
  pub groups : List (String × ConsumerGroup)
  pub next_member_counter : ℤ

abbrev pub new : GroupCoordinator
new = record { groups = []; next_member_counter = pos 1 }

abbrev pub is_empty {ℓ} : {A : Type ℓ} → List A → Bool
is_empty [] = true
is_empty (x ∷ xs) = false

-- `entry(group_id).or_insert_with(|| ConsumerGroup::new(group_id))`
abbrev pub group_or_new : GroupCoordinator → String → ConsumerGroup
group_or_new c group_id = Option.get_or (get group_id c.groups) (new_group group_id)

-- An `i32` addition, which wraps where overflow checks are off.
abbrev pub add_i32 : ℤ → ℤ → ℤ
add_i32 a b = of_word (2 ^ 32) (to_word (2 ^ 32) (a +ℤ b))

-- What `handle_join_group` does to the group, for the member's own name.
unfoldable pub join : ConsumerGroup → String → String → String → ConsumerGroup
join g member_id client_id protocol_type =
    let first = is_empty g.members in
    record g {
      leader_id = if first then some member_id else g.leader_id;
      protocol_type = if first then protocol_type else g.protocol_type;
      members =
          insert member_id
            (record {
              member_id = member_id;
              client_id = client_id;
              client_host = "127.0.0.1";
              protocol_metadata = [];
              assignment = [];
            })
            g.members;
      generation_id = add_i32 g.generation_id (pos 1);
      state = completing_rebalance;
    }

-- `format_id` is the `format!` of the client's name and the counter.
unfoldable pub handle_join_group :
    (String → ℤ → String)
    → GroupCoordinator
    → String
    → String
    → String
    → String
    → GroupCoordinator × KafkaErrorCode × ℤ × String × String
handle_join_group format_id c group_id member_id client_id protocol_type =
    let fresh = member_id == "" in
    let actual_member_id = if fresh then format_id client_id c.next_member_counter else member_id in
    let group = join (group_or_new c group_id) actual_member_id client_id protocol_type in
    (
      record {
        groups = insert group_id group c.groups;
        next_member_counter =
            if fresh then add_i32 c.next_member_counter (pos 1) else c.next_member_counter;
      },
      no_error,
      group.generation_id,
      actual_member_id,
      Option.get_or group.leader_id "",
    )

-- The loop over the assignments; those of unknown members are dropped.
unfoldable pub assign :
    List (String × Bytes) → List (String × GroupMember) → List (String × GroupMember)
assign [] members = members
assign ((m_id, bytes) ∷ rest) members = elim (get m_id members) [
  | none ↦ assign rest members
  | some m ↦ assign rest (insert m_id (record m { assignment = bytes }) members)
]

unfoldable pub sync : ConsumerGroup → List (String × Bytes) → ConsumerGroup
sync g assignments =
    if is_empty assignments
    then g
    else record g { members = assign assignments g.members; state = stable }

unfoldable pub handle_sync_group :
    GroupCoordinator
    → String
    → ℤ
    → String
    → List (String × Bytes)
    → GroupCoordinator × KafkaErrorCode × Bytes
handle_sync_group c group_id generation_id member_id assignments = elim (get group_id c.groups) [
  | none ↦ (c, invalid_group_id, [])
  | some group ↦
      if not (group.generation_id == generation_id)
      then (c, illegal_generation, [])
      else let group' = sync group assignments in
        (
          record c { groups = insert group_id group' c.groups },
          no_error,
          Option.get_or (Option.map (λ m. m.assignment) (get member_id group'.members)) [],
        )
]

unfoldable pub handle_heartbeat : GroupCoordinator → String → ℤ → String → KafkaErrorCode
handle_heartbeat c group_id generation_id member_id = elim (get group_id c.groups) [
  | none ↦ invalid_group_id
  | some group ↦
      if not (group.generation_id == generation_id)
      then illegal_generation
      else if not (contains_key member_id group.members)
      then unknown_member_id
      else no_error
]

-- `keys().next().cloned()`
abbrev pub first_key : List (String × GroupMember) → Option String
first_key [] = none
first_key ((k, m) ∷ rest) = some k

abbrev pub is_some_of : Option String → String → Bool
is_some_of none s = false
is_some_of (some t) s = t == s

-- What `handle_leave_group` does to the group.
unfoldable pub leave : ConsumerGroup → String → ConsumerGroup
leave g member_id =
    let members = remove member_id g.members in
    if is_empty members
    then record g { members = members; state = empty; leader_id = none }
    else if is_some_of g.leader_id member_id
    then record g { members = members; leader_id = first_key members; state = preparing_rebalance }
    else record g { members = members }

unfoldable pub handle_leave_group :
    GroupCoordinator → String → String → GroupCoordinator × KafkaErrorCode
handle_leave_group c group_id member_id = elim (get group_id c.groups) [
  | none ↦ (c, invalid_group_id)
  | some group ↦ (record c { groups = insert group_id (leave group member_id) c.groups }, no_error)
]

unfoldable pub commit_offset : GroupCoordinator → String → TopicPartition → ℤ → GroupCoordinator
commit_offset c group_id tp offset =
    let group = group_or_new c group_id in
    record c {
      groups = insert group_id (record group { offsets = insert tp offset group.offsets }) c.groups;
    }

unfoldable pub fetch_offset : GroupCoordinator → String → TopicPartition → Option ℤ
fetch_offset c group_id tp = elim (get group_id c.groups) [
  | none ↦ none
  | some group ↦ get tp group.offsets
]

unfoldable pub reset : GroupCoordinator → GroupCoordinator
reset c = record c { groups = [] }

unfoldable pub group_count : GroupCoordinator → ℕ
group_count c = length c.groups

unfoldable pub list_groups : GroupCoordinator → List (String × String)
list_groups c = map (λ e. (e.0, e.1.protocol_type)) c.groups

abbrev pub state_str : GroupState → String
state_str empty = "Empty"
state_str preparing_rebalance = "PreparingRebalance"
state_str completing_rebalance = "CompletingRebalance"
state_str stable = "Stable"
state_str dead = "Dead"

pub record DescribedGroup : Type 0 where
  pub error_code : KafkaErrorCode
  pub group_id : String
  pub group_state : String
  pub protocol_type : String
  pub protocol_data : String
  pub members : List GroupMember

unfoldable pub describe_group : GroupCoordinator → String → DescribedGroup
describe_group c gid = elim (get gid c.groups) [
  | some g ↦ record {
    error_code = no_error;
    group_id = gid;
    group_state = state_str g.state;
    protocol_type = g.protocol_type;
    protocol_data = Option.get_or g.protocol_name "";
    members = map (λ e. e.1) g.members;
  }
  | none ↦ record {
    error_code = no_error;
    group_id = gid;
    group_state = "Dead";
    protocol_type = "";
    protocol_data = "";
    members = [];
  }
]

unfoldable pub describe_groups : GroupCoordinator → List String → List DescribedGroup
unfolding describe_group
describe_groups c group_ids = map (describe_group c) group_ids

abbrev pub is_closed : GroupState → Bool
is_closed empty = true
is_closed dead = true
is_closed preparing_rebalance = false
is_closed completing_rebalance = false
is_closed stable = false

unfoldable pub delete_group : GroupCoordinator → String → GroupCoordinator × KafkaErrorCode
delete_group c gid = elim (get gid c.groups) [
  | none ↦ (c, group_id_not_found)
  | some group ↦
      if not (is_empty group.members) && not (is_closed group.state)
      then (c, non_empty_group)
      else (record c { groups = remove gid c.groups }, no_error)
]

unfoldable pub delete_groups :
    GroupCoordinator → List String → GroupCoordinator × List (String × KafkaErrorCode)
unfolding delete_group
delete_groups c [] = (c, [])
delete_groups c (gid ∷ rest) =
    let (c', code) = delete_group c gid in
    let (c'', results) = delete_groups c' rest in (c'', (gid, code) ∷ results)
