-- ===== src/Wal/Recovery/Torn.antt =====
-- Recovery of a segment whose last write was cut short: every whole record is kept, the rest is
-- given up.
use mathlib.Core.List.{foldl}
use mathlib.Core.Path.{subst}
use oxide_mq.Base.{
  ℕ, zero, suc, ◌+◌, ◌<◌, ◌≤◌, ◌≡◌, refl, sym, ap, ◌∙◌, List, [], ◌∷◌, ◌++◌, append_assoc,
  append-nil, none, some, length, drop, length-append, drop-append_length, take-append_length, All,
  lt→ltb, arith, if◌then◌else◌, nat_beq_iff,
}
use oxide_mq.Base.Eq.{◌==◌, nat_eq}
use oxide_mq.Base.Assoc.{get}
use oxide_mq.Base.Result.{ok}
use oxide_mq.Bytes.{Bytes}
use oxide_mq.Wal.Frame.{WalRecord, IsWalRecord, encode, decode}
use oxide_mq.Wal.Frame.RoundTrip.{frame, encode-frame, decode-frame, length-frame, decode_torn}
use oxide_mq.Wal.Segment.{Dir, WalSegment, open_append, read_all}
use oxide_mq.Wal.Recovery.{RecoveryReport, note_record, cut, scan, recover_segment}
use oxide_mq.Wal.Recovery.Scan.{get-truncate}

abbrev pub frames : List WalRecord → Bytes
frames [] = []
frames (r ∷ rs) = frame r ++ frames rs

-- The records written one after the other into one buffer, as a group commit does.
unfoldable pub encode_all : List WalRecord → Bytes → Bytes
encode_all [] dst = dst
encode_all (r ∷ rs) dst = encode_all rs (encode r dst)

pub encode_all-frames : (rs : List WalRecord) (dst : Bytes) → encode_all rs dst ≡ dst ++ frames rs
unfolding encode_all
encode_all-frames [] dst = sym (append-nil dst)
encode_all-frames (r ∷ rs) dst =
    encode_all-frames rs (encode r dst)
    ∙ ap (λ d. d ++ frames rs) (encode-frame r dst)
    ∙ append_assoc dst (frame r) (frames rs)

module _ (dir : Dir) (segment : WalSegment) (raw : Bytes) (fuel cursor : ℕ)
    (report : RecoveryReport) where
  next_record :
      (r : WalRecord) (n : ℕ)
      → cursor < length raw
      → decode (drop cursor raw) ≡ ok (some (r, n))
      → scan (suc fuel) dir segment raw cursor report
        ≡ scan fuel dir segment raw (cursor + n) (note_record report r)
  unfolding scan
  next_record r n more he = rw (lt→ltb cursor (length raw) more, he, scan)

  cut_short :
      cursor < length raw
      → decode (drop cursor raw) ≡ ok none
      → scan (suc fuel) dir segment raw cursor report
        ≡ ok (cut dir segment report cursor (length raw))
  unfolding scan
  cut_short more he = rw (lt→ltb cursor (length raw) more, he, scan)

  ended : length raw ≤ cursor → scan (suc fuel) dir segment raw cursor report ≡ ok (report, dir)
  unfolding scan
  ended h = ground arith

module _ (dir : Dir) (segment : WalSegment) where
  -- The end of the scan in front of a tail that is no record.
  at_tail : Bytes → RecoveryReport → ℕ → ℕ → RecoveryReport × Dir
  at_tail [] report cursor total = (report, dir)
  at_tail (x ∷ tail) report cursor total = cut dir segment report cursor total

  module _ (raw tail : Bytes) (torn : decode tail ≡ ok none) where
    scan-tail :
        (fuel : ℕ) (done : Bytes) (report : RecoveryReport)
        → raw ≡ done ++ tail
        → scan (suc fuel) dir segment raw (length done) report
          ≡ ok (at_tail tail report (length done) (length raw))
    unfolding at_tail
    scan-tail fuel done report e = elim_tail tail torn e
      where
        elim_tail :
            (t : Bytes)
            → decode t ≡ ok none
            → raw ≡ done ++ t
            → scan (suc fuel) dir segment raw (length done) report
              ≡ ok (at_tail t report (length done) (length raw))
        elim_tail [] h e' =
            ended dir segment raw fuel (length done) report
              (omega (arith, ap length e', length-append done []))
        elim_tail (x ∷ t) h e' =
            cut_short dir segment raw fuel (length done) report
              (omega (arith, ap length e', length-append done (x ∷ t)))
              (rw e' (ap decode (drop-append_length (length done) done (x ∷ t) refl) ∙ h))

    scan-frames :
        (rs : List WalRecord) (fuel : ℕ) (done : Bytes) (report : RecoveryReport)
        → All IsWalRecord rs
        → raw ≡ done ++ (frames rs ++ tail)
        → length raw < length done + fuel
        → scan fuel dir segment raw (length done) report
          ≡ ok
              (at_tail tail (foldl note_record report rs) (length (done ++ frames rs)) (length raw))
    scan-frames rs zero done report v e h =
        absurd (omega (arith, ap length e, length-append done (frames rs ++ tail)))
    scan-frames [] (suc fuel) done report v e h = rw append-nil (scan-tail fuel done report e)
    scan-frames (r ∷ rs) (suc fuel) done report v e h =
        next_record dir segment raw fuel (length done) report r (36 + length r.payload)
          (omega (
            arith,
            ap length e,
            length-append done (frames (r ∷ rs) ++ tail),
            length-append (frame r ++ frames rs) tail,
            length-append (frame r) (frames rs),
            length-frame r,
          ))
          (rw e (
            ap decode (
              drop-append_length (length done) done (frames (r ∷ rs) ++ tail) refl
              ∙ append_assoc (frame r) (frames rs) tail)
            ∙ decode-frame r (frames rs ++ tail) v.0))
        ∙ ap (λ c. scan fuel dir segment raw c (note_record report r)) (sym grown)
        ∙ scan-frames rs fuel (done ++ frame r) (note_record report r) v.1
            (e
              ∙ ap (λ t. done ++ t) (append_assoc (frame r) (frames rs) tail)
              ∙ sym (append_assoc done (frame r) (frames rs ++ tail)))
            (omega (arith, grown))
        ∙ ap
            (λ d.
              ok (
                at_tail tail (foldl note_record (note_record report r) rs) (length d) (length raw)))
            (append_assoc done (frame r) (frames rs))
      where
        grown : length (done ++ frame r) ≡ length done + (36 + length r.payload)
        grown = omega (arith, length-append done (frame r), length-frame r)

module _ (dir : Dir) (segment : WalSegment) (report : RecoveryReport) (cursor total : ℕ) where
  at_tail-report :
      (tail : Bytes)
      → total ≡ cursor + length tail
      → (at_tail dir segment tail report cursor total).0
        ≡ record report { truncated_bytes = report.truncated_bytes + length tail }
  unfolding at_tail cut
  at_tail-report [] h = ground arith
  at_tail-report (x ∷ tail) h = ground arith

  at_tail-dir :
      (kept tail : Bytes) (b : ℕ)
      → length kept ≡ cursor
      → get segment.base_seq dir ≡ some (kept ++ tail)
      → get b (at_tail dir segment tail report cursor total).1
        ≡ (if segment.base_seq == b then some kept else get b dir)
  unfolding at_tail cut
  at_tail-dir kept [] b h e = ground (arith, e, append-nil kept, nat_beq_iff segment.base_seq b)
  at_tail-dir kept (x ∷ tail) b h e = ground (
    arith,
    e,
    get-truncate dir segment cursor b,
    take-append_length cursor kept (x ∷ tail) h,
    nat_beq_iff segment.base_seq b,
  )

recover_segment-scan :
    (dir : Dir) (base : ℕ) (raw : Bytes) (report : RecoveryReport)
    → get base dir ≡ some raw
    → recover_segment dir base report
      ≡ scan (suc (length raw)) dir (record { base_seq = base; size = length raw }) raw 0 report
unfolding recover_segment open_append read_all
recover_segment-scan dir base raw report e = ground arith

-- What recovery leaves of a segment that holds `rs` and a torn tail.
pub recovers :
    (dir : Dir) (base : ℕ) (rs : List WalRecord) (tail : Bytes) (report : RecoveryReport)
    → All IsWalRecord rs
    → decode tail ≡ ok none
    → get base dir ≡ some (frames rs ++ tail)
    → (p : RecoveryReport × Dir) × (recover_segment dir base report ≡ ok p)
      × (p.0 ≡ record (foldl note_record report rs) {
        truncated_bytes = (foldl note_record report rs).truncated_bytes + length tail;
      })
      × ((b : ℕ) → get b p.1 ≡ (if base == b then some (frames rs) else get b dir))
recovers dir base rs tail report v torn e = (
  at_tail dir segment tail noted (length (frames rs)) (length raw),
  recover_segment-scan dir base raw report e
      ∙ scan-frames dir segment raw tail torn rs (suc (length raw)) [] report v refl (omega arith),
  at_tail-report dir segment noted (length (frames rs)) (length raw) tail
      (length-append (frames rs) tail),
  λ b. at_tail-dir dir segment noted (length (frames rs)) (length raw) (frames rs) tail b refl e,
)
  where
    raw : Bytes
    raw = frames rs ++ tail

    segment : WalSegment
    segment = record { base_seq = base; size = length raw }

    noted : RecoveryReport
    noted = foldl note_record report rs

noted_total :
    (rs : List WalRecord) (report : RecoveryReport)
    → (foldl note_record report rs).total_records_recovered
      ≡ report.total_records_recovered + length rs
unfolding note_record
noted_total [] report = omega arith
noted_total (r ∷ rs) report = omega (arith, noted_total rs (note_record report r))

noted_above :
    (rs : List WalRecord) (report : RecoveryReport)
    → report.highest_seq ≤ (foldl note_record report rs).highest_seq
unfolding note_record
noted_above [] report = omega arith
noted_above (r ∷ rs) report = ground (arith, noted_above rs (note_record report r))

noted_highest :
    (rs : List WalRecord) (report : RecoveryReport)
    → All (λ r. r.seq ≤ (foldl note_record report rs).highest_seq) rs
unfolding note_record
noted_highest [] report = tt
noted_highest (r ∷ rs) report =
    (ground (arith, noted_above rs (note_record report r)), noted_highest rs (note_record report r))

-- A segment to which a crash left the records `rs` and then a proper prefix `front` of another
-- record: recovery notes each of `rs`, in order, so that the count goes up by as many and the
-- highest sequence number is not below any of theirs; it gives up the bytes of `front`, and leaves a
-- file of exactly `rs`.
pub recover_segment_torn :
    (dir : Dir) (base : ℕ) (rs : List WalRecord) (r : WalRecord) (front back : Bytes) (x : ℕ)
    (report : RecoveryReport)
    → All IsWalRecord rs
    → IsWalRecord r
    → encode r [] ≡ front ++ (x ∷ back)
    → get base dir ≡ some (encode_all rs [] ++ front)
    → (p : RecoveryReport × Dir) × (recover_segment dir base report ≡ ok p)
      × (p.0 ≡ record (foldl note_record report rs) {
        truncated_bytes = (foldl note_record report rs).truncated_bytes + length front;
      })
      × (p.0.total_records_recovered ≡ report.total_records_recovered + length rs)
      × All (λ r. r.seq ≤ p.0.highest_seq) rs
      × ((b : ℕ) → get b p.1 ≡ (if base == b then some (encode_all rs []) else get b dir))
recover_segment_torn dir base rs r front back x report v vr cut_off e =
    let (p, runs, noted, files) =
      recovers dir base rs front report v (decode_torn r front back x vr cut_off)
        (e ∙ ap (λ d. some (d ++ front)) (encode_all-frames rs [])) in
    rw (encode_all-frames rs []) (
      p,
      runs,
      noted,
      ap (λ (q : RecoveryReport). q.total_records_recovered) noted ∙ noted_total rs report,
      subst (λ (q : RecoveryReport). All (λ r. r.seq ≤ q.highest_seq) rs) (sym noted)
          (noted_highest rs report),
      files,
    )
