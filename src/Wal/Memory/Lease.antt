-- ===== src/Wal/Memory/Lease.antt =====
-- Leases of the in-memory log: the epoch below which an append is fenced.
use mathlib.Core.Option
use oxide_mq.Base.{
  ℕ, ◌≤◌, ◌<◌, ◌≡◌, ◌≢◌, ◌∙◌, refl, sym, true, false, ltb, arith, Option-cases, Bool-cases, inl,
  inr, nat_beq_iff,
}
use oxide_mq.Base.Eq.{nat_eq}
use oxide_mq.Base.Assoc.{get, get-insert}
use oxide_mq.Base.Int.{ℤ}
use oxide_mq.Base.Result.{Result, ok, err, wal}
use oxide_mq.Bytes.{Bytes}
use oxide_mq.Wal.Memory.{
  MemoryWal, is_fenced, acquire_lease, check_epoch, append_with_epoch, append, take_seq, put_record,
  push_index, trim,
}

-- The epoch that holds the lease of a stream; 0 before the first lease.
abbrev pub active_epoch : MemoryWal → ℕ → ℕ
active_epoch w stream_id = Option.get_or (get stream_id w.active_epochs) 0

is_fenced-ltb :
    (w : MemoryWal) (stream_id epoch : ℕ)
    → is_fenced w stream_id epoch ≡ ltb epoch (active_epoch w stream_id)
unfolding is_fenced
is_fenced-ltb w stream_id epoch = elim (Option-cases (get stream_id w.active_epochs)) [
  | inl e ↦ rw (e, is_fenced) (ground arith)
  | inr (a, e) ↦ rw (e, is_fenced) refl
]

-- What one of the threads does at a time: take a lease, one of the three parts of an append, or a
-- trim. The check before an append changes nothing.
pub data Step : MemoryWal → MemoryWal → Type 0 where
  lease : (w : MemoryWal) (stream_id epoch : ℕ) → Step w (acquire_lease w stream_id epoch).0
  take : (w : MemoryWal) → Step w (take_seq w).0
  store :
      (w : MemoryWal) (seq stream_id : ℕ) (offset : ℤ) (payload : Bytes)
      → Step w (put_record w seq stream_id offset payload)
  index : (w : MemoryWal) (seq stream_id : ℕ) → Step w (push_index w seq stream_id)
  trimmed :
      (w : MemoryWal) (stream_id : ℕ) (up_to_offset : ℤ) → Step w (trim w stream_id up_to_offset)

-- The steps of any number of threads, in any order.
pub data Steps (w : MemoryWal) : MemoryWal → Type 0 where
  here : Steps w w
  then_ : {u v : MemoryWal} → Steps w u → Step u v → Steps w v

epoch_leased :
    (w : MemoryWal) (stream_id epoch j : ℕ)
    → active_epoch w j ≤ active_epoch (acquire_lease w stream_id epoch).0 j
unfolding acquire_lease
epoch_leased w stream_id epoch j = elim (Bool-cases (is_fenced w stream_id epoch)) [
  | inl e ↦ rw (e, acquire_lease) (omega arith)
  | inr e ↦
      let high : ltb epoch (active_epoch w stream_id) ≡ false =
        sym (is_fenced-ltb w stream_id epoch) ∙ e in
      rw (e, acquire_lease)
        (ground
          (arith, high, get-insert stream_id j epoch w.active_epochs, nat_beq_iff stream_id j))
]

trim_epochs :
    (w : MemoryWal) (stream_id : ℕ) (up_to_offset : ℤ)
    → (trim w stream_id up_to_offset).active_epochs ≡ w.active_epochs
unfolding trim
trim_epochs w stream_id up_to_offset = elim (Option-cases (get stream_id w.stream_indexes)) [
  | inl e ↦ rw (e, trim) refl
  | inr (seqs, e) ↦ rw (e, trim) refl
]

epoch_kept : {w w' : MemoryWal} → (j : ℕ) → Step w w' → active_epoch w j ≤ active_epoch w' j
epoch_kept j (lease w stream_id epoch) = epoch_leased w stream_id epoch j
epoch_kept j (take w) = omega arith
epoch_kept j (store w seq stream_id offset payload) = omega arith
epoch_kept j (index w seq stream_id) = omega arith
epoch_kept j (trimmed w stream_id up_to_offset) =
    rw (trim_epochs w stream_id up_to_offset) (omega arith)

epoch_grows : {w w' : MemoryWal} → (j : ℕ) → Steps w w' → active_epoch w j ≤ active_epoch w' j
epoch_grows j here = omega arith
epoch_grows j (then_ {u = u} {v = v} before step) =
    omega (arith, epoch_grows j before, epoch_kept j step)

granted_epoch :
    (w : MemoryWal) (stream_id epoch : ℕ)
    → (acquire_lease w stream_id epoch).1 ≡ ok tt
    → active_epoch (acquire_lease w stream_id epoch).0 stream_id ≡ epoch
unfolding acquire_lease
granted_epoch w stream_id epoch granted = elim (Bool-cases (is_fenced w stream_id epoch)) [
  | inl e ↦
      absurd (refused (acquire_lease w stream_id epoch).1 (rw (e, acquire_lease) refl) granted)
  | inr e ↦
      rw (e, acquire_lease)
        (ground (
          arith,
          get-insert stream_id stream_id epoch w.active_epochs,
          nat_beq_iff stream_id stream_id,
        ))
]
  where
    refused : (x : Result (Unit {0})) → x ≡ err wal → x ≢ ok tt
    refused x e e' = cc (e, e')

-- Once a lease is granted, whatever steps the threads take after it, in any order: a holder with a
-- lower epoch neither takes the lease of the stream nor passes the check before an append, and its
-- attempts change nothing. An append whose check came before the lease is not spoken of.
pub superseded_lem :
    (w w' : MemoryWal) (stream_id epoch old : ℕ) (offset : ℤ) (payload : Bytes)
    → (acquire_lease w stream_id epoch).1 ≡ ok tt
    → Steps (acquire_lease w stream_id epoch).0 w'
    → old < epoch
    → (acquire_lease w' stream_id old ≡ (w', err wal))
      × (check_epoch w' stream_id old ≡ err wal)
      × (append_with_epoch w' stream_id old offset payload ≡ (w', err wal))
unfolding acquire_lease check_epoch append_with_epoch
superseded_lem w w' stream_id epoch old offset payload granted steps low =
    let fenced : is_fenced w' stream_id old ≡ true =
      is_fenced-ltb w' stream_id old
      ∙ ground (arith, low, epoch_grows stream_id steps, granted_epoch w stream_id epoch granted) in
    (
      rw (fenced, acquire_lease) refl,
      rw (fenced, check_epoch) refl,
      rw (fenced, append_with_epoch, check_epoch) refl,
    )

-- A holder whose epoch is not below the active one takes the lease, the active epoch is then its
-- own and no stream's epoch has gone down; and it appends as if there were no lease.
pub granted_lem :
    (w : MemoryWal) (stream_id epoch : ℕ) (offset : ℤ) (payload : Bytes)
    → active_epoch w stream_id ≤ epoch
    → ((acquire_lease w stream_id epoch).1 ≡ ok tt)
      × (active_epoch (acquire_lease w stream_id epoch).0 stream_id ≡ epoch)
      × ((j : ℕ) → active_epoch w j ≤ active_epoch (acquire_lease w stream_id epoch).0 j)
      × (append_with_epoch w stream_id epoch offset payload ≡ append w stream_id offset payload)
unfolding acquire_lease append_with_epoch check_epoch
granted_lem w stream_id epoch offset payload h =
    let open_ : is_fenced w stream_id epoch ≡ false =
      is_fenced-ltb w stream_id epoch ∙ ground (arith, h) in
    (
      rw (open_, acquire_lease) refl,
      rw (open_, acquire_lease)
          (ground (
            arith,
            get-insert stream_id stream_id epoch w.active_epochs,
            nat_beq_iff stream_id stream_id,
          )),
      (λ j.
          rw (open_, acquire_lease)
            (ground
              (arith, h, get-insert stream_id j epoch w.active_epochs, nat_beq_iff stream_id j))),
      rw (open_, append_with_epoch, check_epoch) refl,
    )
