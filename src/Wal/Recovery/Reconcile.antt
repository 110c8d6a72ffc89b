-- ===== src/Wal/Recovery/Reconcile.antt =====
-- `reconcile_stream_records` of crates/oxidemq-wal/src/recovery.rs: what is replayed to a stream.
use oxide_mq.Base.{ℕ, List, [], ◌∷◌, ◌++◌, none, some, Bool, if◌then◌else◌}
use oxide_mq.Base.Eq.{nat_eq}
use oxide_mq.Base.Assoc.{get, insert}
use oxide_mq.Base.Int.{ℤ, pos, add_i64, leb_ℤ, ltb_ℤ, int_beq}
use oxide_mq.Base.Sort.{sort}
use oxide_mq.Wal.Frame.{WalRecord}

-- `grouped.entry(r.stream_id).or_default().push(r)`
unfoldable pub push_group : List (ℕ × List WalRecord) → WalRecord → List (ℕ × List WalRecord)
push_group grouped r = elim (get r.stream_id grouped) [
  | none ↦ insert r.stream_id (r ∷ []) grouped
  | some recs ↦ insert r.stream_id (recs ++ (r ∷ [])) grouped
]

unfoldable pub group_records :
    List (ℕ × List WalRecord) → List WalRecord → List (ℕ × List WalRecord)
group_records grouped [] = grouped
group_records grouped (r ∷ rs) = group_records (push_group grouped r) rs

abbrev pub by_offset : WalRecord → WalRecord → Bool
by_offset a b = leb_ℤ a.offset b.offset

-- The loop over a stream's sorted records: `valid_stream_records`.
unfoldable pub take_run : (end_offset expected_offset : ℤ) → List WalRecord → List WalRecord
take_run end_offset expected_offset [] = []
take_run end_offset expected_offset (r ∷ recs) =
    let skipped = take_run end_offset expected_offset recs in
    let taken = r ∷ take_run end_offset (add_i64 r.offset (pos 1)) recs in
    if ltb_ℤ r.offset end_offset
    then skipped
    else if int_beq r.offset expected_offset
    then taken
    else if ltb_ℤ expected_offset r.offset
    then []
    else skipped

-- The body of the loop over the groups.
unfoldable pub reconcile_group :
    List (ℕ × ℤ) → List (ℕ × List WalRecord) → ℕ → List WalRecord → List (ℕ × List WalRecord)
reconcile_group stream_end_offsets reconciled stream_id recs =
    elim (get stream_id stream_end_offsets) [
      | none ↦ reconciled
      | some end_offset ↦ elim (take_run end_offset end_offset (sort by_offset recs)) [
        | [] ↦ reconciled
        | r ∷ rs ↦ insert stream_id (r ∷ rs) reconciled
      ]
    ]

unfoldable pub reconcile_groups :
    List (ℕ × ℤ) → List (ℕ × List WalRecord) → List (ℕ × List WalRecord) → List (ℕ × List WalRecord)
reconcile_groups ends [] reconciled = reconciled
reconcile_groups ends ((stream_id, recs) ∷ grouped) reconciled =
    reconcile_groups ends grouped (reconcile_group ends reconciled stream_id recs)

unfoldable pub reconcile_stream_records : List WalRecord → List (ℕ × ℤ) → List (ℕ × List WalRecord)
reconcile_stream_records records stream_end_offsets =
    reconcile_groups stream_end_offsets (group_records [] records) []
