-- ===== src/Broker/Partition/Stable.antt =====
-- The last stable offset: below the high watermark and below every open transaction.
use oxide_mq.Base.{inl, inr, List, [], ◌∷◌, All, All-map, Bool-cases, arith}
use oxide_mq.Base.Int.{ℤ, ◌≤ℤ◌}
use oxide_mq.Base.Eq.{int_eq, ◌==◌}
use oxide_mq.Base.Assoc.{remove}
use oxide_mq.Broker.Partition.{
  StreamOps, Partition, least, high_watermark, last_stable_offset, complete_txn,
}

least-le_bound : (bound : ℤ) (txns : List (ℤ × ℤ)) → least bound txns ≤ℤ bound
unfolding least
least-le_bound bound [] = omega arith
least-le_bound bound ((pid, first) ∷ txns) = ground (arith, least-le_bound bound txns)

lower :
    (a b : ℤ) (txns : List (ℤ × ℤ))
    → a ≤ℤ b
    → All (λ (pid, first). b ≤ℤ first) txns
    → All (λ (pid, first). a ≤ℤ first) txns
lower a b txns h all = All-map (λ (pid, first) h'. omega (arith, h, h')) txns all

least-le-All :
    (bound : ℤ) (txns : List (ℤ × ℤ)) → All (λ (pid, first). least bound txns ≤ℤ first) txns
unfolding least
least-le-All bound [] = tt
least-le-All bound ((pid, first) ∷ txns) = (
  ground arith,
  lower (least bound ((pid, first) ∷ txns)) (least bound txns) txns (ground arith)
      (least-le-All bound txns),
)

least-mono :
    (bound : ℤ) (pid : ℤ) (txns : List (ℤ × ℤ)) → least bound txns ≤ℤ least bound (remove pid txns)
unfolding least remove
least-mono bound pid [] = omega arith
least-mono bound pid ((i, first) ∷ txns) = elim (Bool-cases (i == pid)) [
  | inl same ↦ rw same (ground (arith, least-mono bound pid txns))
  | inr other ↦ rw other (ground (arith, least-mono bound pid txns))
]

module _ {S : Type 0} (ops : StreamOps S) where
  -- The last stable offset is at most the high watermark and at most the first offset of every open
  -- transaction, and it does not go down when a transaction is completed.
  pub last_stable_offset_lem :
      (p : Partition S) (pid : ℤ)
      → (last_stable_offset ops p ≤ℤ high_watermark ops p)
        × All (λ (producer, first). last_stable_offset ops p ≤ℤ first) p.ongoing_txns
        × (last_stable_offset ops p ≤ℤ last_stable_offset ops (complete_txn p pid))
  unfolding last_stable_offset high_watermark complete_txn
  last_stable_offset_lem p pid = (
    least-le_bound (ops.next_offset p.stream) p.ongoing_txns,
    least-le-All (ops.next_offset p.stream) p.ongoing_txns,
    least-mono (ops.next_offset p.stream) pid p.ongoing_txns,
  )
