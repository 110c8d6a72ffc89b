-- ===== src/Broker/Coordinator/Deletions.antt =====
-- What deletions of groups leave and answer.
use oxide_mq.Base.{
  ◌≡◌, refl, ap, ◌∙◌, List, [], ◌∷◌, Option, none, some, Bool, true, false, ◌&&◌, ◌||◌,
  if◌then◌else◌, String, arith, Option-cases, Bool-cases, inl, inr,
}
use oxide_mq.Base.Eq.{◌==◌, string_eq}
use oxide_mq.Base.Assoc.{get, get-remove, get-empty}
use oxide_mq.Broker.Codes.{KafkaErrorCode, no_error, non_empty_group}
use oxide_mq.Broker.Coordinator.{
  ConsumerGroup, GroupCoordinator, is_empty, is_closed, delete_group, delete_groups,
}

-- A group may be deleted when it has no member or is closed.
abbrev pub deletable : ConsumerGroup → Bool
deletable g = is_empty g.members || is_closed g.state

-- A group after a deletion: it is gone when it was asked for and may be deleted.
abbrev pub spared : Bool → Option ConsumerGroup → Option ConsumerGroup
spared asked none = none
spared asked (some g) = if asked && deletable g then none else some g

get-delete_group :
    (c : GroupCoordinator) (gid j : String)
    → get j (delete_group c gid).0.groups ≡ spared (gid == j) (get j c.groups)
unfolding delete_group
get-delete_group c gid j = elim (Option-cases (get gid c.groups)) [
  | inl e ↦ rw (e, delete_group) (ground (arith, e, string_eq.beq_iff gid j))
  | inr (g, e) ↦
      rw (e, delete_group) (ground (arith, e, get-remove gid j c.groups, string_eq.beq_iff gid j))
]

abbrev pub asked : List String → String → Bool
asked [] j = false
asked (gid ∷ gids) j = (gid == j) || asked gids j

-- What deletions leave of any group.
get-delete_groups :
    (c : GroupCoordinator) (gids : List String) (j : String)
    → get j (delete_groups c gids).0.groups ≡ spared (asked gids j) (get j c.groups)
unfolding delete_groups
get-delete_groups c [] j = elim (Option-cases (get j c.groups)) [
  | inl e ↦ rw e refl
  | inr (g, e) ↦ rw e refl
]
get-delete_groups c (gid ∷ gids) j =
    get-delete_groups (delete_group c gid).0 gids j
    ∙ ap (spared (asked gids j)) (get-delete_group c gid j)
    ∙ spared_twice (gid == j) (asked gids j) (get j c.groups)
  where
    spared_twice :
        (a b : Bool) (o : Option ConsumerGroup) → spared b (spared a o) ≡ spared (a || b) o
    spared_twice a b none = refl
    spared_twice a b (some g) = ground arith

delete_group-code :
    (c : GroupCoordinator) (gid : String) (g : ConsumerGroup)
    → get gid c.groups ≡ some g
    → (delete_group c gid).1 ≡ (if deletable g then no_error else non_empty_group)
unfolding delete_group
delete_group-code c gid g e = rw (e, delete_group) (ground arith)

get-cons :
    (j gid : String) (code : KafkaErrorCode) (answers : List (String × KafkaErrorCode))
    → get j ((gid, code) ∷ answers) ≡ (if gid == j then some code else get j answers)
unfolding get
get-cons j gid code answers = elim (Bool-cases (gid == j)) [ inl e ↦ rw e refl | inr e ↦ rw e refl ]

get-deletions :
    (c : GroupCoordinator) (gids : List String) (j : String) (g : ConsumerGroup)
    → get j c.groups ≡ some g
    → get j (delete_groups c gids).1
      ≡ (if asked gids j then some (if deletable g then no_error else non_empty_group) else none)
unfolding delete_groups
get-deletions c [] j g e = get-empty j
get-deletions c (gid ∷ gids) j g e = elim (Bool-cases (gid == j)) [
  | inl same ↦
      get-cons j gid (delete_group c gid).1 (delete_groups (delete_group c gid).0 gids).1
      ∙ rw same (
          ap some (
            ap (λ k. (delete_group c k).1) ((string_eq.beq_iff gid j).0 same)
            ∙ delete_group-code c j g e))
  | inr other ↦
      get-cons j gid (delete_group c gid).1 (delete_groups (delete_group c gid).0 gids).1
      ∙ rw other (
          get-deletions (delete_group c gid).0 gids j g
            (get-delete_group c gid j ∙ rw other (rw e refl)))
]

-- Of a group that has a member unless it is Empty or Dead: a deletion that asks for it removes it
-- exactly when it is Empty or Dead, and its first answer is then that there is no error, otherwise
-- that the group is not empty. A deletion that does not ask for it leaves it and answers nothing.
pub delete_groups_lem :
    (c : GroupCoordinator) (gids : List String) (j : String) (g : ConsumerGroup)
    → get j c.groups ≡ some g
    → (is_empty g.members ≡ true → is_closed g.state ≡ true)
    → (get j (delete_groups c gids).0.groups
        ≡ (if asked gids j && is_closed g.state then none else some g))
      × (get j (delete_groups c gids).1 ≡ (
          if asked gids j
          then some (if is_closed g.state then no_error else non_empty_group)
          else none))
delete_groups_lem c gids j g e idle =
    let same : deletable g ≡ is_closed g.state = ground (arith, idle) in
    (get-delete_groups c gids j ∙ rw e (rw same refl), get-deletions c gids j g e ∙ rw same refl)
