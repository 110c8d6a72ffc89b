-- ===== src/Broker/Transaction/Producers.antt =====
-- The producer identifiers that the coordinator of transactions hands out.
use mathlib.Core.Option
use mathlib.Core.Path.{subst}
use oxide_mq.Base.{
  ◌-◌, ◌^◌, ◌≡◌, ◌≢◌, ◌⊎◌, refl, sym, ap, ◌∙◌, [], Option, none, some, if◌then◌else◌, String, arith,
  Option-cases, Bool-cases, inl, inr,
}
use oxide_mq.Base.Eq.{◌==◌, string_eq}
use oxide_mq.Base.Int.{ℤ, pos, ◌≤ℤ◌, ◌<ℤ◌, add_i64, leb_ℤ}
use oxide_mq.Base.Assoc.{get, insert, get-insert}
use oxide_mq.Broker.Transaction.{
  TransactionMetadata, TransactionCoordinator, ok, bump, init_producer_id, empty,
}

-- The identifiers handed out are below the next one and each belongs to one transactional
-- identifier.
pub record IsSound (c : TransactionCoordinator) : Type 0 where
  pub below :
      (tx : String) (m : TransactionMetadata)
      → get tx c.transactions ≡ some m
      → m.producer_id <ℤ c.next_producer_id
  pub apart :
      (tx tx' : String) (m m' : TransactionMetadata)
      → get tx c.transactions ≡ some m
      → get tx' c.transactions ≡ some m'
      → m.producer_id ≡ m'.producer_id
      → tx ≡ tx'

add_i64_next : (n : ℤ) → pos 0 ≤ℤ n → n <ℤ pos (2 ^ 63 - 1) → n <ℤ add_i64 n (pos 1)
unfolding add_i64
add_i64_next n h0 h1 = ground arith

some_inj : {a b : TransactionMetadata} → some a ≡ some b → a ≡ b
some_inj {a = a} e = ap (λ o. Option.get_or o a) e

-- The identifier answered to an idempotent producer, or to a transactional identifier seen for the
-- first time, is that of no transactional identifier yet.
abbrev pub IsFresh : TransactionCoordinator → ℤ → Type 0
IsFresh c pid =
    (tx : String) (m : TransactionMetadata) → get tx c.transactions ≡ some m → m.producer_id ≢ pid

IsSound-lt :
    (c : TransactionCoordinator) (n : ℤ)
    → c.next_producer_id <ℤ n
    → IsSound c
    → IsSound (record c { next_producer_id = n })
IsSound-lt c n more s = record {
  below = λ tx m h. omega (arith, s.below tx m h, more);
  apart = s.apart;
}

IsFresh-next : (c : TransactionCoordinator) → IsSound c → IsFresh c c.next_producer_id
IsFresh-next c s tx m h e = ground (arith, s.below tx m h, e)

-- A transactional identifier's new entry, with an identifier below the next one that no other has.
insert-IsSound :
    (c : TransactionCoordinator) (tx_id : String) (meta : TransactionMetadata)
    → IsSound c
    → meta.producer_id <ℤ c.next_producer_id
    → ((tx : String) (m : TransactionMetadata)
        → get tx c.transactions ≡ some m
        → m.producer_id ≡ meta.producer_id
        → tx ≡ tx_id)
    → IsSound (record c { transactions = insert tx_id meta c.transactions })
insert-IsSound c tx_id meta s low own = record { below = below'; apart = apart' }
  where
    at :
        (tx : String) (m : TransactionMetadata)
        → get tx (insert tx_id meta c.transactions) ≡ some m
        → ((tx_id ≡ tx) × (meta ≡ m)) ⊎ (get tx c.transactions ≡ some m)
    at tx m h = elim (Bool-cases (tx_id == tx)) [
      | inl e ↦ inl (
        (string_eq.beq_iff tx_id tx).0 e,
        some_inj (sym (get-insert tx_id tx meta c.transactions ∙ rw e refl) ∙ h),
      )
      | inr e ↦ inr (sym (get-insert tx_id tx meta c.transactions ∙ rw e refl) ∙ h)
    ]

    below' :
        (tx : String) (m : TransactionMetadata)
        → get tx (insert tx_id meta c.transactions) ≡ some m
        → m.producer_id <ℤ c.next_producer_id
    below' tx m h = elim (at tx m h) [
      | inl (_, is) ↦
          subst (λ (x : TransactionMetadata). x.producer_id <ℤ c.next_producer_id) is low
      | inr old ↦ s.below tx m old
    ]

    apart' :
        (tx tx' : String) (m m' : TransactionMetadata)
        → get tx (insert tx_id meta c.transactions) ≡ some m
        → get tx' (insert tx_id meta c.transactions) ≡ some m'
        → m.producer_id ≡ m'.producer_id
        → tx ≡ tx'
    apart' tx tx' m m' h h' e = elim (at tx m h) [
      | inl (t, is) ↦ elim (at tx' m' h') [
        | inl (t', _) ↦ sym t ∙ t'
        | inr old' ↦
            sym t
            ∙ sym
                (own tx' m' old' (sym e ∙ ap (λ (x : TransactionMetadata). x.producer_id) (sym is)))
      ]
      | inr old ↦ elim (at tx' m' h') [
        | inl (t', is') ↦
            own tx m old (e ∙ ap (λ (x : TransactionMetadata). x.producer_id) (sym is')) ∙ t'
        | inr old' ↦ s.apart tx tx' m m' old old' e
      ]
    ]

pub init_producer_id_lem :
    (c : TransactionCoordinator) (transactional_id : Option String) (timeout : ℤ)
    → IsSound c
    → pos 0 ≤ℤ c.next_producer_id
    → c.next_producer_id <ℤ pos (2 ^ 63 - 1)
    → IsSound (init_producer_id c transactional_id timeout).0
      × (c.next_producer_id ≤ℤ (init_producer_id c transactional_id timeout).0.next_producer_id)
      × ((pid : ℤ) × (epoch : ℤ) × ((init_producer_id c transactional_id timeout).1
            ≡ ok (pid, epoch))
          × ((IsFresh c pid
                × (c.next_producer_id ≤ℤ pid)
                × (pid <ℤ (init_producer_id c transactional_id timeout).0.next_producer_id))
              ⊎ ((tx : String) × (m : TransactionMetadata) × (transactional_id ≡ some tx)
                  × (get tx c.transactions ≡ some m)
                  × (m.producer_id ≡ pid))))
unfolding init_producer_id bump
init_producer_id_lem c none timeout s room room' = (
  IsSound-lt c (add_i64 c.next_producer_id (pos 1)) (add_i64_next c.next_producer_id room room') s,
  omega (arith, add_i64_next c.next_producer_id room room'),
  (
    c.next_producer_id,
    pos 0,
    refl,
    inl (IsFresh-next c s, omega arith, add_i64_next c.next_producer_id room room'),
  ),
)
init_producer_id_lem c (some tx) timeout s room room' =
    elim (Option-cases (get tx c.transactions)) [
      | inr (m, e) ↦
          rw (e, init_producer_id)
            (
              insert-IsSound c tx (bump m) s (s.below tx m e)
                  (λ tx' m' h same. s.apart tx' tx m' m h e same),
              omega arith,
              (m.producer_id, (bump m).producer_epoch, refl, inr (tx, m, refl, e, refl)),
            )
      | inl e ↦
          rw (e, init_producer_id)
            (
              insert-IsSound (record c { next_producer_id = next }) tx meta
                  (IsSound-lt c next grows s) grows
                  (λ tx' m' h same. absurd (IsFresh-next c s tx' m' h same)),
              omega (arith, grows),
              (c.next_producer_id, pos 0, refl, inl (IsFresh-next c s, omega arith, grows)),
            )
    ]
  where
    next : ℤ
    next = add_i64 c.next_producer_id (pos 1)

    grows : c.next_producer_id <ℤ next
    grows = add_i64_next c.next_producer_id room room'

    meta : TransactionMetadata
    meta = record {
      transactional_id = tx;
      producer_id = c.next_producer_id;
      producer_epoch = pos 0;
      txn_timeout_ms = if leb_ℤ timeout (pos 0) then pos 60000 else timeout;
      state = empty;
      partitions = [];
    }
