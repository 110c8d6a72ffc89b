-- ===== src/Wal/Recovery/TakeRun.antt =====
-- The run that `reconcile_stream_records` takes from a stream's records in the order of their
-- offsets.
use mathlib.Core.Path.{subst}
use oxide_mq.Base.{
  ℕ, suc, ◌≡◌, ◌≢◌, ◌⊎◌, sym, ◌∙◌, List, [], ◌∷◌, true, false, length, All, All-map, arith, inl,
  inr,
}
use oxide_mq.Base.Eq.{nat_eq}
use oxide_mq.Base.Int.{ℤ, pos, add_i64, add_i64-one, leb_ℤ, int_beq_iff, IsOffset, ◌+ℤ◌, ◌≤ℤ◌, ◌<ℤ◌}
use oxide_mq.Base.Sort.{IsSorted}
use oxide_mq.Wal.Frame.{WalRecord}
use oxide_mq.Wal.Recovery.Reconcile.{by_offset, take_run}

-- The records of one stream are at the offsets `x`, `x + 1`, and so on.
abbrev pub Consecutive : ℤ → List WalRecord → Type 0
Consecutive x [] = Unit
Consecutive x (r ∷ rs) = (r.offset ≡ x) × Consecutive (x +ℤ pos 1) rs

order_cases : (a x : ℤ) → (a <ℤ x) ⊎ ((a ≡ x) ⊎ (x <ℤ a))
order_cases a x = ground arith

ne_of_lt : (a x : ℤ) (n : ℕ) → a <ℤ x → a ≢ x +ℤ pos n
ne_of_lt a x n h = ground arith

ne_of_eq : (a x : ℤ) (n : ℕ) → a ≡ x → a ≢ x +ℤ pos (suc n)
ne_of_eq a x n h = ground arith

ne_of_gt : (x a : ℤ) → x <ℤ a → a ≢ x +ℤ pos 0
ne_of_gt x a h = ground arith

gt_trans : (x a b : ℤ) → x <ℤ a → leb_ℤ a b ≡ true → x <ℤ b
gt_trans x a b h k = ground arith

add_suc : (x : ℤ) (n : ℕ) → x +ℤ pos (suc n) ≡ (x +ℤ pos 1) +ℤ pos n
add_suc x n = ground arith

pub by_offset_total : (a b : WalRecord) → by_offset a b ≡ false → by_offset b a ≡ true
by_offset_total a b h = ground arith

pub by_offset_trans :
    (a b c : WalRecord) → by_offset a b ≡ true → by_offset b c ≡ true → by_offset a c ≡ true
by_offset_trans a b c h k = ground arith

module _ (end : ℤ) where
  pub take_run-Consecutive :
      (x : ℤ) (recs : List WalRecord)
      → All (λ r. IsOffset r.offset) recs
      → Consecutive x (take_run end x recs)
  unfolding take_run
  take_run-Consecutive x [] h = tt
  take_run-Consecutive x (r ∷ recs) h = ground (
    arith,
    int_beq_iff r.offset x,
    add_i64-one r.offset h.0,
    take_run-Consecutive x recs h.1,
    take_run-Consecutive (x +ℤ pos 1) recs h.1,
  )

  pub take_run-All :
      (P : WalRecord → Type 0) (x : ℤ) (recs : List WalRecord)
      → All P recs
      → All P (take_run end x recs)
  unfolding take_run
  take_run-All P x [] h = tt
  take_run-All P x (r ∷ recs) h =
      ground
        (arith, h.0, take_run-All P x recs h.1, take_run-All P (add_i64 r.offset (pos 1)) recs h.1)

  module _ (x : ℤ) (r : WalRecord) (recs : List WalRecord) (le : end ≤ℤ x) where
    take_run_before : r.offset <ℤ x → take_run end x (r ∷ recs) ≡ take_run end x recs
    unfolding take_run
    take_run_before h = ground arith

    take_run_here :
        r.offset ≡ x
        → IsOffset r.offset
        → take_run end x (r ∷ recs) ≡ r ∷ take_run end (x +ℤ pos 1) recs
    unfolding take_run
    take_run_here h v = ground (arith, add_i64-one r.offset v)

    take_run_beyond : x <ℤ r.offset → take_run end x (r ∷ recs) ≡ []
    unfolding take_run
    take_run_beyond h = ground arith

  -- The offset at which the run ends is the offset of no record.
  pub take_run_maximal :
      (x : ℤ) (recs : List WalRecord)
      → end ≤ℤ x
      → IsSorted by_offset recs
      → All (λ r. IsOffset r.offset) recs
      → All (λ r. r.offset ≢ x +ℤ pos (length (take_run end x recs))) recs
  take_run_maximal x [] le s h = tt
  take_run_maximal x (r ∷ recs) le s h = elim (order_cases r.offset x) [
    | inl before ↦
        subst (λ run. All (λ r'. r'.offset ≢ x +ℤ pos (length run)) (r ∷ recs))
          (sym (take_run_before x r recs le before))
          (ne_of_lt r.offset x _ before, take_run_maximal x recs le s.1 h.1)
    | inr (inl here) ↦
        subst (λ run. All (λ r'. r'.offset ≢ x +ℤ pos (length run)) (r ∷ recs))
          (sym (take_run_here x r recs le here h.0))
          (
            ne_of_eq r.offset x _ here,
            All-map (λ r' p q. p (q ∙ add_suc x _)) recs
                (take_run_maximal (x +ℤ pos 1) recs (ground arith) s.1 h.1),
          )
    | inr (inr beyond) ↦
        subst (λ run. All (λ r'. r'.offset ≢ x +ℤ pos (length run)) (r ∷ recs))
          (sym (take_run_beyond x r recs le beyond))
          (
            ne_of_gt x r.offset beyond,
            All-map (λ r' p. ne_of_gt x r'.offset (gt_trans x r.offset r'.offset beyond p)) recs
                s.0,
          )
  ]
