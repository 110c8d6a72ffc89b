-- ===== src/Stream/LogCache/Reads.antt =====
-- What a read of the log cache returns.
use mathlib.Core.Path.{subst}
use oxide_mq.Base.{
  ℕ, suc, ◌+◌, ◌%◌, ◌^◌, ◌≡◌, ◌≢◌, refl, ap, sym, [], ◌∷◌, Option, none, some, not, length, take,
  filter, leb, Option-cases, Bool-cases, inl, inr,
}
use oxide_mq.Base.Eq.{◌==◌, nat_eq, int_eq}
use oxide_mq.Base.Int.{ℤ, pos, leb_ℤ, add_i64}
use oxide_mq.Base.Assoc.{get, contains_key}
use oxide_mq.Bytes.{Bytes}
use oxide_mq.Stream.LogCache.{StreamMap, LogCache, read_loop, read_range, stream_or_empty}

-- The records are at `x`, `x + 1`, and so on.
abbrev pub Consecutive : ℤ → StreamMap → Type 0
Consecutive x [] = Unit
Consecutive x (e ∷ es) = (e.0 ≡ x) × Consecutive (add_i64 x (pos 1)) es

read_loop-Consecutive :
    (x : ℤ) (max_bytes total : ℕ) (m : StreamMap) → Consecutive x (read_loop x max_bytes total m)
unfolding read_loop
read_loop-Consecutive x max_bytes total [] = tt
read_loop-Consecutive x max_bytes total ((o, p) ∷ m) = elim (Bool-cases (o == x)) [
  | inr e ↦ rw e tt
  | inl e ↦ rw e (
    (int_eq.beq_iff o x).0 e,
    elim (Bool-cases (leb max_bytes (total + length p))) [
      | inl full ↦ rw full tt
      | inr room ↦
          rw room (read_loop-Consecutive (add_i64 x (pos 1)) max_bytes (total + length p) m)
    ],
  )
]

read_loop-take :
    (x : ℤ) (max_bytes total : ℕ) (m : StreamMap)
    → (n : ℕ) × (read_loop x max_bytes total m ≡ take n m)
unfolding read_loop
read_loop-take x max_bytes total [] = (0, refl)
read_loop-take x max_bytes total ((o, p) ∷ m) = elim (Bool-cases (o == x)) [
  | inr e ↦ rw e (0, refl)
  | inl e ↦ elim (Bool-cases (leb max_bytes (total + length p))) [
    | inl full ↦ rw e (rw full (1, refl))
    | inr room ↦
        let (n, same) = read_loop-take (add_i64 x (pos 1)) max_bytes (total + length p) m in
        rw e (rw room (suc n, ap (◌∷◌ (o, p)) same))
  ]
]

some_inj : {a b : StreamMap} → some a ≡ some b → a ≡ b
some_inj {a = a} e = ap (λ o. elim o [ none ↦ a | some x ↦ x ]) e

-- What is shown of the answer `o` of a read of a stream that has the records `m`.
Reads : ℤ → StreamMap → Option StreamMap → Type 0
Reads start m o =
    (run : StreamMap)
    → o ≡ some run
    → Consecutive start run
      × (run ≢ [])
      × ((n : ℕ) × (run ≡ take n (filter (λ e. leb_ℤ start e.0) m)))

missed-Reads : (start : ℤ) (m : StreamMap) → Reads start m none
unfolding Reads
missed-Reads start m = λ run h. absurd (cc h)

hit-Reads :
    (start : ℤ) (m : StreamMap) (e : ℤ × Bytes) (es : StreamMap)
    → Consecutive start (e ∷ es)
    → (n : ℕ) × (e ∷ es ≡ take n (filter (λ e. leb_ℤ start e.0) m))
    → Reads start m (some (e ∷ es))
unfolding Reads
hit-Reads start m e es run (n, same) = λ found h.
    subst
      (λ found.
        Consecutive start found
        × (found ≢ [])
        × ((n : ℕ) × (found ≡ take n (filter (λ e. leb_ℤ start e.0) m))))
      (some_inj h) (run, (λ q. cc q), (n, same))

reads :
    (c : LogCache) (stream_id : ℕ) (start : ℤ) (max_bytes : ℕ)
    → Reads start (stream_or_empty stream_id c.streams) (read_range c stream_id start max_bytes).1
unfolding read_range
reads c stream_id start max_bytes = elim (Option-cases (get stream_id c.streams)) [
  | inl e ↦ rw (e, read_range) (missed-Reads start (stream_or_empty stream_id c.streams))
  | inr (m, e) ↦
      subst (λ rest. Reads start rest (read_range c stream_id start max_bytes).1) (sym (there m e))
        (rw (e, read_range)
          (elim (Bool-cases (not (contains_key start m))) [
            | inl out ↦ rw out (missed-Reads start m)
            | inr inside ↦ rw inside (
                settle m (read_loop start max_bytes 0 (filter (λ e. leb_ℤ start e.0) m))
                  (read_loop-Consecutive start max_bytes 0 (filter (λ e. leb_ℤ start e.0) m))
                  (read_loop-take start max_bytes 0 (filter (λ e. leb_ℤ start e.0) m)))
          ]))
]
  where
    there :
        (m : StreamMap) → get stream_id c.streams ≡ some m → stream_or_empty stream_id c.streams ≡ m
    there m e = rw (e, stream_or_empty) refl

    settle :
        (m l : StreamMap)
        → Consecutive start l
        → (n : ℕ) × (l ≡ take n (filter (λ e. leb_ℤ start e.0) m))
        → Reads start m
            (elim l as (λ _. LogCache × Option StreamMap) [
              | [] ↦ (record c { misses = (c.misses + 1) % 2 ^ 64 }, none)
              | e ∷ es ↦ (record c { hits = (c.hits + 1) % 2 ^ 64 }, some (e ∷ es))
            ]).1
    settle m [] run taken = missed-Reads start m
    settle m (e ∷ es) run taken = hit-Reads start m e es run taken

-- A read that hits returns records at the start offset and the offsets that follow it with no gap,
-- and they are the first of the stream's cached records from the start offset on.
pub read_range_lem :
    (c : LogCache) (stream_id : ℕ) (start : ℤ) (max_bytes : ℕ) (run : StreamMap)
    → (read_range c stream_id start max_bytes).1 ≡ some run
    → Consecutive start run
      × (run ≢ [])
      × ((n : ℕ) × (run
            ≡ take n (filter (λ e. leb_ℤ start e.0) (stream_or_empty stream_id c.streams))))
unfolding Reads
read_range_lem c stream_id start max_bytes run h = reads c stream_id start max_bytes run h
