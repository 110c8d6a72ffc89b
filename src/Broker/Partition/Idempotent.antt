-- ===== src/Broker/Partition/Idempotent.antt =====
-- A producer's batches: a retry of a stored batch is answered, not stored again.
use oxide_mq.Base.{◌-◌, ◌^◌, ◌<◌, ◌≡◌, refl, sym, ap, ◌∙◌, Bool, true, false, some, arith}
use oxide_mq.Base.Int.{ℤ, pos, negsuc, ◌<ℤ◌, ◌+ℤ◌}
use oxide_mq.Base.Eq.{int_eq, ==-refl}
use oxide_mq.Base.Assoc.{get, get-insert}
use oxide_mq.Base.Result.{Result, ok, err, panic, protocol}
use oxide_mq.Bytes.{Bytes}
use oxide_mq.Broker.Partition.{
  StreamOps, Partition, Verdict, accept, duplicate, refuse, judge, add_i32, append_records,
  remember, append_idempotent,
}

same_batch : (epoch seq off : ℤ) → judge (some (epoch, seq, off)) epoch seq ≡ duplicate off
unfolding judge
same_batch epoch seq off = ground arith

older_epoch :
    (epoch seq off old s : ℤ) → old <ℤ epoch → judge (some (epoch, seq, off)) old s ≡ refuse
unfolding judge
older_epoch epoch seq off old s h = ground (arith, h)

-- A sequence number that has a successor.
abbrev pub IsSequence : ℤ → Type 0
IsSequence (pos n) = n < 2 ^ 31 - 1
IsSequence (negsuc n) = n < 2 ^ 31

add_i32-one : (seq : ℤ) → IsSequence seq → add_i32 seq (pos 1) ≡ seq +ℤ pos 1
add_i32-one (pos n) h = ground (arith, h)
add_i32-one (negsuc n) h = ground (arith, h)

gap_ahead :
    (epoch seq off next : ℤ)
    → IsSequence seq
    → (seq +ℤ pos 1) <ℤ next
    → judge (some (epoch, seq, off)) epoch next ≡ refuse
unfolding judge
gap_ahead epoch seq off next hs h = rw (add_i32-one seq hs, judge) (ground (arith, h))

module _ {S : Type 0} (ops : StreamOps S) where
  recorded_remember :
      (q p' : Partition S) (pid epoch seq off t : ℤ) (answer : Result (ℤ × ℤ))
      → remember ops q pid epoch seq answer ≡ (p', ok (off, t, false))
      → get pid p'.producer_states ≡ some (epoch, seq, off)
  unfolding remember
  recorded_remember q p' pid epoch seq off t (ok (b, n)) e =
      sym (ap (λ x. get pid x.0.producer_states) e)
      ∙ get-insert pid pid (epoch, seq, b) q.producer_states
      ∙ rw (==-refl pid) (ap (λ z. some (epoch, seq, z)) same)
    where
      same : b ≡ off
      same = cc
  recorded_remember q p' pid epoch seq off t (err f) e = absurd cc
  recorded_remember q p' pid epoch seq off t panic e = absurd cc

  -- A batch that was stored is remembered.
  recorded :
      (p p' : Partition S) (pid epoch seq off t now : ℤ) (records : Bytes)
      → append_idempotent ops p pid epoch seq records now ≡ (p', ok (off, t, false))
      → get pid p'.producer_states ≡ some (epoch, seq, off)
  unfolding append_idempotent
  recorded p p' pid epoch seq off t now records e =
      by_verdict (judge (get pid p.producer_states) epoch seq) e
    where
      by_verdict :
          (v : Verdict)
          → (elim v as (λ x. Partition S × Result (ℤ × ℤ × Bool)) [
            | refuse ↦ (p, err protocol)
            | duplicate last_offset ↦ (p, ok (last_offset, now, true))
            | accept ↦
                remember ops
                  (append_records ops p records now).0
                  pid
                  epoch
                  seq
                  (append_records ops p records now).1
          ])
            ≡ (p', ok (off, t, false))
          → get pid p'.producer_states ≡ some (epoch, seq, off)
      by_verdict refuse e = absurd cc
      by_verdict (duplicate o) e = absurd cc
      by_verdict accept e =
          recorded_remember (append_records ops p records now).0 p' pid epoch seq off t
            (append_records ops p records now).1 e

  pub retry_lem :
      (p p' : Partition S) (pid epoch seq off t now old next later : ℤ) (records again : Bytes)
      → append_idempotent ops p pid epoch seq records now ≡ (p', ok (off, t, false))
      → old <ℤ epoch
      → IsSequence seq
      → (seq +ℤ pos 1) <ℤ next
      → (append_idempotent ops p' pid epoch seq again later ≡ (p', ok (off, later, true)))
        × (append_idempotent ops p' pid old next again later ≡ (p', err protocol))
        × (append_idempotent ops p' pid epoch next again later ≡ (p', err protocol))
  unfolding append_idempotent
  retry_lem p p' pid epoch seq off t now old next later records again e ho hs hn =
      let r = recorded p p' pid epoch seq off t now records e in
      (
        rw (r, append_idempotent, same_batch epoch seq off) refl,
        rw (r, append_idempotent, older_epoch epoch seq off old next ho) refl,
        rw (r, append_idempotent, gap_ahead epoch seq off next hs hn) refl,
      )
