-- ===== src/Broker/Coordinator/Members.antt =====
-- The members and the leader of a consumer group, through every step of the coordinator.
use mathlib.Core.Path.{subst}
use oxide_mq.Base.{
  ◌≡◌, refl, ap, ◌∙◌, List, [], ◌∷◌, none, some, true, false, not, String, arith, Option-cases,
  Bool-cases, inl, inr,
}
use oxide_mq.Base.Eq.{◌==◌, string_eq, int_eq, ==-refl}
use oxide_mq.Base.Assoc.{get, insert, remove, contains_key, get-insert, get-remove, get-empty}
use oxide_mq.Base.Int.{ℤ}
use oxide_mq.Bytes.{Bytes}
use oxide_mq.Broker.Codes.{TopicPartition, tp_eq}
use oxide_mq.Broker.Coordinator.{
  GroupMember, ConsumerGroup, GroupCoordinator, new, new_group, group_or_new, is_empty, join, sync,
  assign, leave, first_key, is_some_of, handle_join_group, handle_sync_group, handle_leave_group,
  commit_offset, delete_group, delete_groups, reset,
}

-- The group has a leader exactly when it has a member, and the leader is a member.
pub record IsLed (g : ConsumerGroup) : Type 0 where
  pub leader_in : (l : String) → g.leader_id ≡ some l → contains_key l g.members ≡ true
  pub leaderless : g.leader_id ≡ none → g.members ≡ []

contains_key-insert :
    (k j : String) (m : GroupMember) (ms : List (String × GroupMember))
    → contains_key j ms ≡ true
    → contains_key j (insert k m ms) ≡ true
unfolding contains_key
contains_key-insert k j m ms h = ground (arith, h, get-insert k j m ms)

pub contains_key_new :
    (k : String) (m : GroupMember) (ms : List (String × GroupMember))
    → contains_key k (insert k m ms) ≡ true
unfolding contains_key
contains_key_new k m ms = ground (arith, get-insert k k m ms, ==-refl k)

new-IsLed : (group_id : String) → IsLed (new_group group_id)
new-IsLed group_id = record { leader_in = λ l e. absurd (cc e); leaderless = λ e. refl }

join-IsLed :
    (g : ConsumerGroup) (member_id client_id protocol_type : String)
    → IsLed g
    → IsLed (join g member_id client_id protocol_type)
unfolding join
join-IsLed g member_id client_id protocol_type led = go g.members refl
  where
    m : GroupMember
    m = record {
      member_id = member_id;
      client_id = client_id;
      client_host = "127.0.0.1";
      protocol_metadata = [];
      assignment = [];
    }

    go :
        (ms : List (String × GroupMember))
        → g.members ≡ ms
        → IsLed (join g member_id client_id protocol_type)
    go [] e = record {
      leader_in = λ l h.
          subst (λ k. contains_key k (insert member_id m g.members) ≡ true) (ground (arith, h, e))
            (contains_key_new member_id m g.members);
      leaderless = λ h. absurd (ground (arith, h, e));
    }
    go (x ∷ xs) e = record {
      leader_in = λ l h.
          contains_key-insert member_id l m g.members (led.leader_in l (ground (arith, h, e)));
      leaderless = λ h. absurd (ground (arith, led.leaderless (ground (arith, h, e)), e));
    }

contains_key-assign :
    (j : String) (given : List (String × Bytes)) (ms : List (String × GroupMember))
    → contains_key j ms ≡ true
    → contains_key j (assign given ms) ≡ true
unfolding assign
contains_key-assign j [] ms h = h
contains_key-assign j ((k, b) ∷ given) ms h = elim (Option-cases (get k ms)) [
  | inl e ↦ rw (e, assign) (contains_key-assign j given ms h)
  | inr (m, e) ↦
      rw (e, assign)
        (contains_key-assign j given (insert k (record m { assignment = b }) ms)
          (contains_key-insert k j (record m { assignment = b }) ms h))
]

assign_none : (given : List (String × Bytes)) → assign given [] ≡ []
unfolding assign get
assign_none [] = refl
assign_none ((k, b) ∷ given) = assign_none given

sync-IsLed : (g : ConsumerGroup) (given : List (String × Bytes)) → IsLed g → IsLed (sync g given)
unfolding sync
sync-IsLed g [] led = led
sync-IsLed g (a ∷ given) led = record {
  leader_in = λ l e. contains_key-assign l (a ∷ given) g.members (led.leader_in l e);
  leaderless = λ e. rw (led.leaderless e) (assign_none (a ∷ given));
}

contains_key_first :
    (ms : List (String × GroupMember)) (l : String)
    → first_key ms ≡ some l
    → contains_key l ms ≡ true
unfolding contains_key get
contains_key_first [] l h = absurd (cc h)
contains_key_first ((k, m) ∷ ms) l h = ground (arith, h, ==-refl k)

leave-IsLed : (g : ConsumerGroup) (member_id : String) → IsLed g → IsLed (leave g member_id)
unfolding leave
leave-IsLed g member_id led = elim (Bool-cases (is_empty left)) [
  | inl e ↦
      rw (e, leave) record { leader_in = λ l h. absurd (cc h); leaderless = λ h. emptied left e }
  | inr e ↦
      rw (e, leave)
        (elim (Bool-cases (is_some_of g.leader_id member_id)) [
          | inl was ↦
              rw was
                record { leader_in = contains_key_first left; leaderless = λ h. led_first left h }
          | inr not_it ↦ rw not_it record {
            leader_in = λ l h. stays l h (led.leader_in l h) not_it;
            leaderless = λ h. ap (remove member_id) (led.leaderless h) ∙ remove_nil;
          }
        ])
]
  where
    left : List (String × GroupMember)
    left = remove member_id g.members

    emptied : (ms : List (String × GroupMember)) → is_empty ms ≡ true → ms ≡ []
    emptied [] h = refl
    emptied (x ∷ xs) h = absurd (cc h)

    led_first : (ms : List (String × GroupMember)) → first_key ms ≡ none → ms ≡ []
    led_first [] h = refl
    led_first ((k, m) ∷ xs) h = absurd (cc h)

    remove_nil : remove {V = GroupMember} member_id [] ≡ []
    remove_nil = unfold remove in refl

    stays :
        (l : String)
        → g.leader_id ≡ some l
        → contains_key l g.members ≡ true
        → is_some_of g.leader_id member_id ≡ false
        → contains_key l left ≡ true
    stays l h inside other =
        unfold contains_key in
        ground (
          arith,
          inside,
          get-remove member_id l g.members,
          string_eq.beq_iff member_id l,
          string_eq.beq_iff l member_id,
          subst (λ o. is_some_of o member_id ≡ false) h other,
        )

-- Every group of the coordinator is led.
abbrev pub IsSound : GroupCoordinator → Type 0
IsSound c = (gid : String) (g : ConsumerGroup) → get gid c.groups ≡ some g → IsLed g

-- One request handled. A request that is refused leaves the state as it is.
pub data Step (format_id : String → ℤ → String) : GroupCoordinator → GroupCoordinator → Type 0 where
  join_step :
      (c : GroupCoordinator) (group_id member_id client_id protocol_type : String)
      → Step format_id c
          (handle_join_group format_id c group_id member_id client_id protocol_type).0
  sync_step :
      (c : GroupCoordinator) (group_id : String) (generation_id : ℤ) (member_id : String)
      (given : List (String × Bytes))
      → Step format_id c (handle_sync_group c group_id generation_id member_id given).0
  leave_step :
      (c : GroupCoordinator) (group_id member_id : String)
      → Step format_id c (handle_leave_group c group_id member_id).0
  commit_step :
      (c : GroupCoordinator) (group_id : String) (tp : TopicPartition) (offset : ℤ)
      → Step format_id c (commit_offset c group_id tp offset)
  delete_step :
      (c : GroupCoordinator) (group_ids : List String)
      → Step format_id c (delete_groups c group_ids).0
  clear_step : (c : GroupCoordinator) → Step format_id c (reset c)

pub data Reachable (format_id : String → ℤ → String) : GroupCoordinator → Type 0 where
  start : Reachable format_id new
  after :
      (c c' : GroupCoordinator)
      → Reachable format_id c
      → Step format_id c c'
      → Reachable format_id c'

insert_sound :
    (groups : List (String × ConsumerGroup)) (group_id : String) (g : ConsumerGroup)
    → ((gid : String) (h : ConsumerGroup) → get gid groups ≡ some h → IsLed h)
    → IsLed g
    → (gid : String) (h : ConsumerGroup) → get gid (insert group_id g groups) ≡ some h
    → IsLed h
insert_sound groups group_id g all led gid h e = elim (Bool-cases (group_id == gid)) [
  | inl same ↦ subst IsLed (ground (arith, e, same, get-insert group_id gid g groups)) led
  | inr other ↦ all gid h (ground (arith, e, other, get-insert group_id gid g groups))
]

group_or_new-IsLed :
    (c : GroupCoordinator) (group_id : String) → IsSound c → IsLed (group_or_new c group_id)
group_or_new-IsLed c group_id s = elim (Option-cases (get group_id c.groups)) [
  | inl e ↦ rw e (new-IsLed group_id)
  | inr (g, e) ↦ rw e (s group_id g e)
]

delete_group-IsSound :
    (c : GroupCoordinator) (gid : String) → IsSound c → IsSound (delete_group c gid).0
unfolding delete_group
delete_group-IsSound c gid s = elim (Option-cases (get gid c.groups)) [
  | inl e ↦ rw (e, delete_group) s
  | inr (g, e) ↦
      rw (e, delete_group) (λ j h q. s j h (ground (arith, q, get-remove gid j c.groups)))
]

delete_groups-IsSound :
    (c : GroupCoordinator) (gids : List String) → IsSound c → IsSound (delete_groups c gids).0
unfolding delete_groups
delete_groups-IsSound c [] s = s
delete_groups-IsSound c (gid ∷ gids) s =
    delete_groups-IsSound (delete_group c gid).0 gids (delete_group-IsSound c gid s)

Step-IsSound :
    (f : String → ℤ → String) (c c' : GroupCoordinator) → Step f c c' → IsSound c → IsSound c'
unfolding handle_join_group handle_sync_group handle_leave_group commit_offset reset
Step-IsSound f _ _ (join_step c group_id member_id client_id protocol_type) s =
    insert_sound c.groups group_id _ s (
      join-IsLed (group_or_new c group_id) _ client_id protocol_type
        (group_or_new-IsLed c group_id s))
Step-IsSound f _ _ (sync_step c group_id generation_id member_id given) s =
    elim (Option-cases (get group_id c.groups)) [
      | inl e ↦ rw (e, handle_sync_group) s
      | inr (g, e) ↦
          rw (e, handle_sync_group)
            (elim (Bool-cases (not (g.generation_id == generation_id))) [
              | inl other ↦ rw other s
              | inr same ↦ rw same (
                  insert_sound c.groups group_id (sync g given) s
                    (sync-IsLed g given (s group_id g e)))
            ])
    ]
Step-IsSound f _ _ (leave_step c group_id member_id) s =
    elim (Option-cases (get group_id c.groups)) [
      | inl e ↦ rw (e, handle_leave_group) s
      | inr (g, e) ↦
          rw (e, handle_leave_group)
            (insert_sound c.groups group_id (leave g member_id) s
              (leave-IsLed g member_id (s group_id g e)))
    ]
Step-IsSound f _ _ (commit_step c group_id tp offset) s =
    let led = group_or_new-IsLed c group_id s in
    insert_sound c.groups group_id _ s
      record { leader_in = led.leader_in; leaderless = led.leaderless }
Step-IsSound f _ _ (delete_step c group_ids) s = delete_groups-IsSound c group_ids s
Step-IsSound f _ _ (clear_step c) s =
    λ gid g e. absurd (ground (arith, e, get-empty {V = ConsumerGroup} gid))

-- In every coordinator that requests can lead to, each group's leader is one of its members, and
-- only a group without members has no leader.
pub reachable-IsSound : (f : String → ℤ → String) (c : GroupCoordinator) → Reachable f c → IsSound c
reachable-IsSound f _ start =
    λ gid g e. absurd (ground (arith, e, get-empty {V = ConsumerGroup} gid))
reachable-IsSound f _ (after c c' r step) = Step-IsSound f c c' step (reachable-IsSound f c r)
