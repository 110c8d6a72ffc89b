-- ===== src/Wal/Recovery/Scan.antt =====
-- The scan of one segment: it ends on every content, and it keeps exactly the records in front of a
-- torn one.
use oxide_mq.Base.{
  ℕ, zero, suc, ◌+◌, ◌<◌, ◌≤◌, ◌≡◌, ◌≢◌, ◌⊎◌, inl, inr, refl, [], ◌∷◌, Option, none, some, length,
  take, drop, length-drop, All, All-map, ltb, ltb→lt, arith, if◌then◌else◌, Option-cases,
  Bool-cases, nat_beq_iff,
}
use mathlib.Core.Option
use oxide_mq.Base.Eq.{◌==◌, nat_eq}
use oxide_mq.Base.Assoc.{get, get-insert}
use oxide_mq.Base.Result.{Result, Error, ok, err, panic}
use oxide_mq.Base.Sort.{All-sort}
use oxide_mq.Bytes.{Bytes}
use oxide_mq.Wal.Frame.{WalRecord, decode}
use oxide_mq.Wal.Frame.Bounds.{decode-ne-panic, decode_consumes}
use oxide_mq.Wal.Segment.{Dir, WalSegment, open_append, truncate, read_all}
use oxide_mq.Wal.Recovery.{
  RecoveryReport, note_record, cut, scan, recover_segment, recover_segments, segment_paths, recover,
}

decode_cases :
    (src : Bytes)
    → (((e : Error) × (decode src ≡ err e)) ⊎ (decode src ≡ ok none))
      ⊎ ((r : WalRecord) × (n : ℕ) × (decode src ≡ ok (some (r, n))) × (n ≤ length src) × (36 ≤ n))
decode_cases src = go (decode src) refl
  where
    go :
        (d : Result (Option (WalRecord × ℕ)))
        → decode src ≡ d
        → (((e : Error) × (decode src ≡ err e)) ⊎ (decode src ≡ ok none))
          ⊎ ((r : WalRecord) × (n : ℕ) × (decode src ≡ ok (some (r, n)))
              × (n ≤ length src)
              × (36 ≤ n))
    go (ok none) h = inl (inr h)
    go (ok (some (r, n))) h =
        let (fits, size) = decode_consumes src r n h in inr (r, n, h, fits, omega arith)
    go (err e) h = inl (inl (e, h))
    go panic h = absurd (decode-ne-panic src h)

abbrev pub Present : Dir → ℕ → Type 0
Present dir b = get b dir ≢ none

-- The file of the segment is cut, and no other changes.
pub get-truncate :
    (dir : Dir) (segment : WalSegment) (n b : ℕ)
    → get b (truncate dir segment n).0
      ≡ (if segment.base_seq == b then Option.map (take n) (get b dir) else get b dir)
unfolding truncate
get-truncate dir segment n b = elim (Option-cases (get segment.base_seq dir)) [
  | inl e ↦ rw (e, truncate) (ground (arith, nat_beq_iff segment.base_seq b, e))
  | inr (old, e) ↦
      rw (e, truncate)
        (ground (
          arith,
          nat_beq_iff segment.base_seq b,
          get-insert segment.base_seq b (take n old) dir,
          e,
        ))
]

module _ (dir : Dir) (segment : WalSegment) (raw : Bytes) where
  cut-Present :
      (report : RecoveryReport) (cursor b : ℕ)
      → Present dir b
      → Present (cut dir segment report cursor (length raw)).1 b
  unfolding cut
  cut-Present report cursor b h = ground (arith, h, get-truncate dir segment cursor b)

  -- With fuel for one round a byte left, the scan returns, and removes no file.
  scan_total :
      (fuel cursor : ℕ) (report : RecoveryReport)
      → cursor ≤ length raw
      → length raw < cursor + fuel
      → (p : RecoveryReport × Dir) × (scan fuel dir segment raw cursor report ≡ ok p)
        × ((b : ℕ) → Present dir b → Present p.1 b)
  unfolding scan
  scan_total zero cursor report b h = absurd (omega arith)
  scan_total (suc fuel) cursor report b h = elim (Bool-cases (ltb cursor (length raw))) [
    | inr done ↦ ((report, dir), rw done, λ b e. e)
    | inl more ↦ elim (decode_cases (drop cursor raw)) [
      | inl (inl (e, he)) ↦ (
        cut dir segment report cursor (length raw),
        rw (more, he, scan),
        cut-Present report cursor,
      )
      | inl (inr he) ↦ (
        cut dir segment report cursor (length raw),
        rw (more, he, scan),
        cut-Present report cursor,
      )
      | inr (r, n, he, fits, size) ↦
          let (p, hp, keeps) =
            scan_total fuel (cursor + n) (note_record report r)
              (omega (arith, length-drop cursor raw, ltb→lt cursor (length raw) more))
              (omega arith) in
          (p, rw (more, he, scan) hp, keeps)
    ]
  ]

-- A segment file that is there is scanned to its end.
recover_segment_total :
    (dir : Dir) (base : ℕ) (report : RecoveryReport)
    → Present dir base
    → (p : RecoveryReport × Dir) × (recover_segment dir base report ≡ ok p)
      × ((b : ℕ) → Present dir b → Present p.1 b)
unfolding recover_segment open_append
recover_segment_total dir base report h = elim (Option-cases (get base dir)) [
  | inl e ↦ absurd (h e)
  | inr (old, e) ↦
      let segment : WalSegment = record { base_seq = base; size = length old } in
      let raw : Bytes = read_all dir segment in
      let (p, hp, keeps) =
        scan_total dir segment raw (suc (length raw)) 0 report (omega arith) (omega arith) in
      (p, rw (e, open_append) hp, keeps)
]

recover_segments_total :
    (dir : Dir) (paths : Dir) (report : RecoveryReport)
    → All (λ f. Present dir f.0) paths
    → (p : RecoveryReport × Dir) × (recover_segments dir paths report ≡ ok p)
unfolding recover_segments
recover_segments_total dir [] report h = ((report, dir), refl)
recover_segments_total dir ((base, x) ∷ rest) report h =
    let (p, hp, keeps) = recover_segment_total dir base report h.0 in
    let (q, hq) = recover_segments_total p.1 rest p.0 (All-map (λ f. keeps f.0) rest h.1) in
    (q, rw hp hq)

Present-cons : (dir : Dir) (b j : ℕ) (x : Bytes) → Present dir b → Present ((j, x) ∷ dir) b
unfolding get
Present-cons dir b j x h = ground (arith, h)

All-Present : (dir : Dir) → All (λ f. Present dir f.0) dir
unfolding get
All-Present [] = tt
All-Present ((b, x) ∷ dir) =
    (ground (arith, nat_beq_iff b b), All-map (λ f. Present-cons dir f.0 b x) dir (All-Present dir))

-- Recovery returns a report for every directory, whatever bytes its files hold: no file makes it
-- fail, panic or run without end.
pub recover_total : (dir : Dir) → (p : RecoveryReport × Dir) × (recover dir ≡ ok p)
unfolding recover segment_paths
recover_total dir =
    recover_segments_total dir _ _ (All-sort _ (λ f. Present dir f.0) dir (All-Present dir))
