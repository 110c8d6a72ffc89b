-- ===== src/Wal/Recovery/Run.antt =====
-- The records that `reconcile_stream_records` hands to a stream: the longest run without a gap from
-- the stream's end offset on.
use mathlib.Core.Option
use mathlib.Core.Path.{subst}
use oxide_mq.Base.{
  ℕ, ◌≡◌, ◌≢◌, refl, sym, ap, ◌∙◌, List, [], ◌∷◌, Option, none, some, Bool, true, length, All,
  All-map, filter, arith, Bool-cases, inl, inr, nat_beq_iff,
}
use oxide_mq.Base.Eq.{◌==◌, nat_eq}
use oxide_mq.Base.Assoc.{get}
use oxide_mq.Base.Int.{ℤ, pos, IsOffset, ◌+ℤ◌}
use oxide_mq.Base.Sort.{sort, All-sort, All-of_sort, sort-IsSorted}
use oxide_mq.Wal.Frame.{WalRecord}
use oxide_mq.Wal.Recovery.Reconcile.{group_records, by_offset, take_run, reconcile_stream_records}
use oxide_mq.Wal.Recovery.TakeRun.{
  Consecutive, take_run-Consecutive, take_run-All, take_run_maximal, by_offset_total,
  by_offset_trans,
}
use oxide_mq.Wal.Recovery.Groups.{
  extend, of_stream, get-group_records, after, get-reconcile_groups, group_records-Unique,
}

-- The records handed to a stream; none, if the result has no entry for it.
abbrev pub recovered : List WalRecord → List (ℕ × ℤ) → ℕ → List WalRecord
recovered records ends stream_id =
    Option.get_or (get stream_id (reconcile_stream_records records ends)) []

All-filter :
    (P : WalRecord → Type 0) (p : WalRecord → Bool) (rs : List WalRecord)
    → All P rs
    → All P (filter p rs)
All-filter P p [] h = tt
All-filter P p (r ∷ rs) h = ground (arith, h.0, All-filter P p rs h.1)

All-filter_test : (p : WalRecord → Bool) (rs : List WalRecord) → All (λ r. p r ≡ true) (filter p rs)
All-filter_test p [] = tt
All-filter_test p (r ∷ rs) = ground (arith, All-filter_test p rs)

All-of_filter :
    (P : WalRecord → Type 0) (p : WalRecord → Bool) (rs : List WalRecord)
    → All P (filter p rs)
    → All (λ r. p r ≡ true → P r) rs
All-of_filter P p [] h = tt
All-of_filter P p (r ∷ rs) h = elim (Bool-cases (p r)) [
  | inl e ↦ let k : All P (r ∷ filter p rs) = rw e at h in (λ _. k.0, All-of_filter P p rs k.1)
  | inr e ↦ let k : All P (filter p rs) = rw e at h in ((λ t. cc), All-of_filter P p rs k)
]

run_or_none : (run : List WalRecord) → Option (List WalRecord)
run_or_none [] = none
run_or_none (r ∷ rs) = some (r ∷ rs)

get_or-run_or_none : (run : List WalRecord) → Option.get_or (run_or_none run) [] ≡ run
unfolding run_or_none
get_or-run_or_none [] = refl
get_or-run_or_none (r ∷ rs) = refl

module _ (records : List WalRecord) (ends : List (ℕ × ℤ)) (stream_id : ℕ) where
  after-registered :
      (end : ℤ) (recs : List WalRecord)
      → get stream_id ends ≡ some end
      → Option.get_or (after stream_id ends none recs) [] ≡ take_run end end (sort by_offset recs)
  unfolding after run_or_none
  after-registered end recs e =
      rw (e, after) (get_or-run_or_none (take_run end end (sort by_offset recs)))

  get-reconcile :
      get stream_id (reconcile_stream_records records ends)
      ≡ elim (extend none (of_stream stream_id records)) [
        | none ↦ none
        | some recs ↦ after stream_id ends none recs
      ]
  unfolding reconcile_stream_records get
  get-reconcile =
      get-reconcile_groups stream_id ends (group_records [] records) []
        (group_records-Unique [] records tt)
      ∙ ap (λ o. elim o [ none ↦ none | some recs ↦ after stream_id ends none recs ])
          (get-group_records stream_id records [])

  recovered-take_run :
      (end : ℤ)
      → get stream_id ends ≡ some end
      → recovered records ends stream_id
        ≡ take_run end end (sort by_offset (of_stream stream_id records))
  recovered-take_run end e =
      ap (λ o. Option.get_or o []) get-reconcile ∙ settle (of_stream stream_id records)
    where
      settle :
          (mine : List WalRecord)
          → Option.get_or
              (elim (extend none mine) [ none ↦ none | some recs ↦ after stream_id ends none recs ])
              []
            ≡ take_run end end (sort by_offset mine)
      settle [] = unfold take_run sort in refl
      settle (r ∷ rs) = after-registered end (r ∷ rs) e

  unregistered_none :
      get stream_id ends ≡ none → get stream_id (reconcile_stream_records records ends) ≡ none
  unregistered_none e = get-reconcile ∙ settle (extend none (of_stream stream_id records))
    where
      settle :
          (o : Option (List WalRecord))
          → elim o [ none ↦ none | some recs ↦ after stream_id ends none recs ] ≡ none
      settle none = refl
      settle (some recs) = unfold after in rw (e, after)

  -- `run` has whatever `P` says of the log's records, is consecutive from `end`, and cannot go on.
  abbrev pub Gives : (WalRecord → Type 0) → ℤ → List WalRecord → Type 0
  Gives P end run =
      Consecutive end run
      × All (λ r. r.stream_id ≡ stream_id) run
      × All P run
      × All (λ r. r.offset ≢ end +ℤ pos (length run)) (of_stream stream_id records)

  -- What a stream is given when its committed end offset is `end`: records of that stream, from
  -- `end` on with no gap and no repeat, each with whatever holds of all the log's records; and the
  -- run stops only at an offset that no record of the stream has. The offsets are below the last
  -- one that 64 bits hold.
  pub recovered_run :
      (P : WalRecord → Type 0) (end : ℤ)
      → All (λ r. IsOffset r.offset) records
      → All P records
      → get stream_id ends ≡ some end
      → Gives P end (recovered records ends stream_id)
  recovered_run P end offsets holds e = subst (Gives P end) (sym (recovered-take_run end e)) (
    take_run-Consecutive end end sorted (All-sort by_offset _ mine mine_offsets),
    take_run-All end _ end sorted
        (All-sort by_offset _ mine (All-map same mine (All-filter_test _ records))),
    take_run-All end P end sorted (All-sort by_offset P mine (All-filter P _ records holds)),
    All-of_sort by_offset _ mine (
        take_run_maximal end end sorted (omega arith)
          (sort-IsSorted by_offset by_offset_total by_offset_trans mine)
          (All-sort by_offset _ mine mine_offsets)),
  )
    where
      mine : List WalRecord
      mine = of_stream stream_id records

      same : (r : WalRecord) → (r.stream_id == stream_id) ≡ true → r.stream_id ≡ stream_id
      same r h = (nat_beq_iff r.stream_id stream_id).0 h

      sorted : List WalRecord
      sorted = sort by_offset mine

      mine_offsets : All (λ r. IsOffset r.offset) mine
      mine_offsets = All-filter _ _ records offsets
