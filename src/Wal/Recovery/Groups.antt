-- ===== src/Wal/Recovery/Groups.antt =====
-- The groups of `reconcile_stream_records`: each stream's records, in the order of the log.
use oxide_mq.Base.{
  ℕ, ◌≡◌, refl, ap, ◌∙◌, List, [], ◌∷◌, ◌++◌, append_assoc, Option, none, some, filter,
  if◌then◌else◌, arith, Bool-cases, Option-cases, inl, inr, nat_beq_iff,
}
use oxide_mq.Base.Eq.{◌==◌, nat_eq}
use oxide_mq.Base.Assoc.{get, insert, get-insert, Unique, insert-Unique}
use oxide_mq.Base.Int.{ℤ}
use oxide_mq.Base.Sort.{sort}
use oxide_mq.Wal.Frame.{WalRecord}
use oxide_mq.Wal.Recovery.Reconcile.{
  push_group, group_records, by_offset, take_run, reconcile_group, reconcile_groups,
}

-- `recs` is what the map has, if anything, followed by `new`.
abbrev pub extend : Option (List WalRecord) → List WalRecord → Option (List WalRecord)
extend o [] = o
extend none (r ∷ rs) = some (r ∷ rs)
extend (some recs) (r ∷ rs) = some (recs ++ (r ∷ rs))

module _ (stream_id : ℕ) where
  abbrev pub of_stream : List WalRecord → List WalRecord
  of_stream = filter (λ r. r.stream_id == stream_id)

  get-push_group :
      (grouped : List (ℕ × List WalRecord)) (r : WalRecord)
      → get stream_id (push_group grouped r) ≡ (
          if r.stream_id == stream_id
          then extend (get stream_id grouped) (r ∷ [])
          else get stream_id grouped)
  unfolding push_group
  get-push_group grouped r = elim (Option-cases (get r.stream_id grouped)) [
    | inl e ↦
        rw (e, push_group)
          (ground (
            arith,
            e,
            nat_beq_iff r.stream_id stream_id,
            get-insert r.stream_id stream_id (r ∷ []) grouped,
          ))
    | inr (recs, e) ↦
        rw (e, push_group)
          (ground (
            arith,
            e,
            nat_beq_iff r.stream_id stream_id,
            get-insert r.stream_id stream_id (recs ++ (r ∷ [])) grouped,
          ))
  ]

  extend-extend :
      (o : Option (List WalRecord)) (r : WalRecord) (rs : List WalRecord)
      → extend (extend o (r ∷ [])) rs ≡ extend o (r ∷ rs)
  extend-extend none r [] = refl
  extend-extend none r (s ∷ rs) = refl
  extend-extend (some recs) r [] = refl
  extend-extend (some recs) r (s ∷ rs) = ap some (append_assoc recs (r ∷ []) (s ∷ rs))

  pub get-group_records :
      (rs : List WalRecord) (grouped : List (ℕ × List WalRecord))
      → get stream_id (group_records grouped rs) ≡ extend (get stream_id grouped) (of_stream rs)
  unfolding group_records
  get-group_records [] grouped = refl
  get-group_records (r ∷ rs) grouped = elim (Bool-cases (r.stream_id == stream_id)) [
    | inl same ↦ rw same (
        get-group_records rs (push_group grouped r)
        ∙ ap (λ o. extend o (of_stream rs)) (get-push_group grouped r ∙ rw same)
        ∙ extend-extend (get stream_id grouped) r (of_stream rs))
    | inr other ↦ rw other (
        get-group_records rs (push_group grouped r)
        ∙ ap (λ o. extend o (of_stream rs)) (get-push_group grouped r ∙ rw other))
  ]

  -- What the groups leave for a stream, given what was there before.
  unfoldable pub after :
      List (ℕ × ℤ) → Option (List WalRecord) → List WalRecord → Option (List WalRecord)
  after ends o recs = elim (get stream_id ends) [
    | none ↦ o
    | some end_offset ↦ elim (take_run end_offset end_offset (sort by_offset recs)) [
      | [] ↦ o
      | r ∷ rs ↦ some (r ∷ rs)
    ]
  ]

  pub get-reconcile_group :
      (ends : List (ℕ × ℤ)) (reconciled : List (ℕ × List WalRecord)) (id : ℕ)
      (recs : List WalRecord)
      → get stream_id (reconcile_group ends reconciled id recs) ≡ (
          if id == stream_id
          then after ends (get stream_id reconciled) recs
          else get stream_id reconciled)
  unfolding reconcile_group after
  get-reconcile_group ends reconciled id recs = elim (Option-cases (get id ends)) [
    | inl e ↦ rw (e, reconcile_group) (ground (arith, e, nat_beq_iff id stream_id))
    | inr (end, e) ↦
        rw (e, reconcile_group) (with_run end (take_run end end (sort by_offset recs)) refl e)
  ]
    where
      with_run :
          (end : ℤ) (run : List WalRecord)
          → take_run end end (sort by_offset recs) ≡ run
          → get id ends ≡ some end
          → get stream_id (elim (take_run end end (sort by_offset recs)) [
            | [] ↦ reconciled
            | r ∷ rs ↦ insert id (r ∷ rs) reconciled
          ])
            ≡ (if id == stream_id
                then after ends (get stream_id reconciled) recs
                else get stream_id reconciled)
      with_run end [] p e = ground (arith, p, e, nat_beq_iff id stream_id)
      with_run end (r ∷ rs) p e =
          ground
            (arith, p, e, nat_beq_iff id stream_id, get-insert id stream_id (r ∷ rs) reconciled)

  pub get-reconcile_groups :
      (ends : List (ℕ × ℤ)) (grouped reconciled : List (ℕ × List WalRecord))
      → Unique grouped
      → get stream_id (reconcile_groups ends grouped reconciled) ≡ elim (get stream_id grouped) [
        | none ↦ get stream_id reconciled
        | some recs ↦ after ends (get stream_id reconciled) recs
      ]
  unfolding reconcile_groups get
  get-reconcile_groups ends [] reconciled u = refl
  get-reconcile_groups ends ((id, recs) ∷ grouped) reconciled u = ground (
    arith,
    u.0,
    nat_beq_iff id stream_id,
    get-reconcile_group ends reconciled id recs,
    get-reconcile_groups ends grouped (reconcile_group ends reconciled id recs) u.1,
  )

push_group-Unique :
    (grouped : List (ℕ × List WalRecord)) (r : WalRecord)
    → Unique grouped
    → Unique (push_group grouped r)
unfolding push_group
push_group-Unique grouped r u = elim (Option-cases (get r.stream_id grouped)) [
  | inl e ↦ rw (e, push_group) (insert-Unique r.stream_id (r ∷ []) grouped u)
  | inr (recs, e) ↦ rw (e, push_group) (insert-Unique r.stream_id (recs ++ (r ∷ [])) grouped u)
]

pub group_records-Unique :
    (grouped : List (ℕ × List WalRecord)) (rs : List WalRecord)
    → Unique grouped
    → Unique (group_records grouped rs)
unfolding group_records
group_records-Unique grouped [] u = u
group_records-Unique grouped (r ∷ rs) u =
    group_records-Unique (push_group grouped r) rs (push_group-Unique grouped r u)
