-- ===== src/Broker/Coordinator/Requests.antt =====
-- What the answers of the coordinator say about the requests that follow.
use mathlib.Core.Option
use oxide_mq.Base.{
  ◌≡◌, refl, sym, ap, ◌∙◌, List, none, some, true, false, not, ◌&&◌, if◌then◌else◌, String,
  Option-cases, Bool-cases, inl, inr,
}
use oxide_mq.Base.Eq.{◌==◌, string_eq, int_eq, ==-refl}
use oxide_mq.Base.Assoc.{get, insert, remove, contains_key, get-insert, get-remove, get-empty}
use oxide_mq.Base.Int.{ℤ}
use oxide_mq.Broker.Codes.{
  KafkaErrorCode, no_error, invalid_group_id, illegal_generation, unknown_member_id, TopicPartition,
  tp_eq,
}
use oxide_mq.Broker.Coordinator.Members.{contains_key_new}
use oxide_mq.Broker.Coordinator.{
  GroupMember, ConsumerGroup, GroupCoordinator, new_group, group_or_new, is_empty, is_some_of, join,
  leave, handle_join_group, handle_leave_group, handle_heartbeat, commit_offset, fetch_offset,
}

fetch_offset-group_or_new :
    (c : GroupCoordinator) (gid : String) (tp : TopicPartition)
    → fetch_offset c gid tp ≡ get tp (group_or_new c gid).offsets
unfolding fetch_offset
fetch_offset-group_or_new c gid tp = elim (Option-cases (get gid c.groups)) [
  | inl e ↦ rw (e, fetch_offset) (sym (get-empty tp))
  | inr (g, e) ↦ rw (e, fetch_offset) refl
]

module _ (c : GroupCoordinator) (gid : String) (tp : TopicPartition) (offset : ℤ) where
  committed : ConsumerGroup
  committed = record (group_or_new c gid) {
    offsets = insert tp offset (group_or_new c gid).offsets;
  }

  group_or_new-commit_offset :
      (gid' : String)
      → group_or_new (commit_offset c gid tp offset) gid'
        ≡ (if gid == gid' then committed else group_or_new c gid')
  unfolding commit_offset committed
  group_or_new-commit_offset gid' =
      ap (λ o. Option.get_or o (new_group gid')) (get-insert gid gid' committed c.groups)
      ∙ elim (Bool-cases (gid == gid')) [ inl e ↦ rw e refl | inr e ↦ rw e refl ]

-- A committed offset is what a fetch of the same group and partition returns, and every other
-- fetch is unchanged.
pub fetch_offset-commit_offset :
    (c : GroupCoordinator) (gid gid' : String) (tp tp' : TopicPartition) (offset : ℤ)
    → fetch_offset (commit_offset c gid tp offset) gid' tp'
      ≡ (if (gid == gid') && (tp == tp') then some offset else fetch_offset c gid' tp')
unfolding committed
fetch_offset-commit_offset c gid gid' tp tp' offset =
    fetch_offset-group_or_new (commit_offset c gid tp offset) gid' tp'
    ∙ ap (λ g. get tp' g.offsets) (group_or_new-commit_offset c gid tp offset gid')
    ∙ elim (Bool-cases (gid == gid')) [
      | inr other ↦ rw other (sym (fetch_offset-group_or_new c gid' tp'))
      | inl same ↦ rw same (
          get-insert tp tp' offset (group_or_new c gid).offsets
          ∙ ap (λ o. if tp == tp' then some offset else o)
              (ap (λ i. get tp' (group_or_new c i).offsets) ((string_eq.beq_iff gid gid').0 same)
                ∙ sym (fetch_offset-group_or_new c gid' tp')))
    ]

heartbeat_member :
    (c : GroupCoordinator) (gid member_id : String) (generation : ℤ) (g : ConsumerGroup)
    → get gid c.groups ≡ some g
    → handle_heartbeat c gid generation member_id ≡ (
        if not (g.generation_id == generation)
        then illegal_generation
        else if not (contains_key member_id g.members)
        then unknown_member_id
        else no_error)
unfolding handle_heartbeat
heartbeat_member c gid member_id generation g e = rw (e, handle_heartbeat) refl

-- A heartbeat that follows a join at once is accepted for the answered member and generation, and
-- refused for every other generation.
pub heartbeat-join :
    (format_id : String → ℤ → String) (c : GroupCoordinator)
    (group_id member_id client_id protocol_type : String) (generation : ℤ)
    → let (c', code, gen, actual, leader) =
        handle_join_group format_id c group_id member_id client_id protocol_type in
      handle_heartbeat c' group_id generation actual
      ≡ (if gen == generation then no_error else illegal_generation)
unfolding handle_join_group join
heartbeat-join format_id c group_id member_id client_id protocol_type generation =
    heartbeat_member joined.0 group_id joined.3 generation group found
    ∙ elim (Bool-cases (group.generation_id == generation)) [
      | inr other ↦ rw other refl
      | inl same ↦ rw same (rw inside refl)
    ]
  where
    joined : GroupCoordinator × KafkaErrorCode × ℤ × String × String
    joined = handle_join_group format_id c group_id member_id client_id protocol_type

    group : ConsumerGroup
    group = join (group_or_new c group_id) joined.3 client_id protocol_type

    found : get group_id joined.0.groups ≡ some group
    found = get-insert group_id group_id group c.groups ∙ rw (==-refl group_id) refl

    inside : contains_key joined.3 group.members ≡ true
    inside = contains_key_new joined.3 _ (group_or_new c group_id).members

leave-members :
    (g : ConsumerGroup) (member_id : String)
    → (leave g member_id).members ≡ remove member_id g.members
unfolding leave
leave-members g member_id = elim (Bool-cases (is_empty (remove member_id g.members))) [
  | inl e ↦ rw (e, leave) refl
  | inr e ↦
      rw (e, leave)
        (elim (Bool-cases (is_some_of g.leader_id member_id)) [
          | inl was ↦ rw was refl
          | inr not_it ↦ rw not_it refl
        ])
]

contains_key-remove :
    (k : String) (m : List (String × GroupMember)) → contains_key k (remove k m) ≡ false
unfolding contains_key
contains_key-remove k m = rw (gone, contains_key) refl
  where
    gone : get k (remove k m) ≡ none
    gone = get-remove k k m ∙ rw (==-refl k) refl

heartbeat_unknown :
    (c : GroupCoordinator) (gid member_id : String) (generation : ℤ)
    → get gid c.groups ≡ none
    → handle_heartbeat c gid generation member_id ≡ invalid_group_id
unfolding handle_heartbeat
heartbeat_unknown c gid member_id generation e = rw (e, handle_heartbeat) refl

-- A member that has left is refused at its next heartbeat, whatever the generation: its group is
-- unknown, or the generation is another one, or the member is unknown.
pub heartbeat-leave :
    (c : GroupCoordinator) (group_id member_id : String) (generation : ℤ)
    → handle_heartbeat (handle_leave_group c group_id member_id).0 group_id generation member_id
      ≡ elim (get group_id c.groups) [
        | none ↦ invalid_group_id
        | some g ↦
            if not ((leave g member_id).generation_id == generation)
            then illegal_generation
            else unknown_member_id
      ]
unfolding handle_leave_group
heartbeat-leave c group_id member_id generation = elim (Option-cases (get group_id c.groups)) [
  | inl e ↦ rw (e, handle_leave_group) (heartbeat_unknown c group_id member_id generation e)
  | inr (g, e) ↦
      rw (e, handle_leave_group)
        (heartbeat_member (left g) group_id member_id generation (leave g member_id)
            (get-insert group_id group_id (leave g member_id) c.groups ∙ rw (==-refl group_id) refl)
          ∙ rw
              (ap (contains_key member_id) (leave-members g member_id)
                ∙ contains_key-remove member_id g.members)
              refl)
]
  where
    left : ConsumerGroup → GroupCoordinator
    left g = record c { groups = insert group_id (leave g member_id) c.groups }
