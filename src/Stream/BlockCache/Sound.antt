-- ===== src/Stream/BlockCache/Sound.antt =====
-- The accounts of the block cache: its bytes, its order, and what a stored block gives back.
use mathlib.Core.Path.{subst}
use oxide_mq.Base.{
  ℕ, ◌+◌, ◌-◌, ◌≤◌, ◌<◌, ◌≡◌, ◌⊎◌, max, refl, sym, ap, ◌∙◌, List, [], ◌∷◌, ◌++◌, Option, none, some,
  false, length, ltb, if◌then◌else◌, arith, Option-cases, Bool-cases, inl, inr,
}
use oxide_mq.Base.Eq.{◌==◌}
use oxide_mq.Base.Assoc.{
  get as lookup, insert, remove, Unique, insert-Unique, get-insert, get-remove,
}
use oxide_mq.Bytes.{Bytes}
use oxide_mq.Stream.BlockCache.{BlockKey, key_eq, BlockCache, remove_first, evict, put}

-- How often a key stands in the order.
abbrev pub count : BlockKey → List BlockKey → ℕ
count key [] = 0
count key (k ∷ ks) = let rest = count key ks in if k == key then 1 + rest else rest

abbrev pub total : List (BlockKey × Bytes) → ℕ
total [] = 0
total ((k, b) ∷ m) = length b + total m

abbrev once : Option Bytes → ℕ
once none = 0
once (some b) = 1

abbrev size : Option Bytes → ℕ
size none = 0
size (some b) = length b

-- The keys of the map are unique, the order holds each of them once and no other key, and the
-- bytes counted are those of the entries.
pub record Sound (entries : List (BlockKey × Bytes)) (lru : List BlockKey) (cur : ℕ) : Type 0 where
  pub unique : Unique entries
  pub ordered : (key : BlockKey) → count key lru ≡ once (lookup key entries)
  pub counted : cur ≡ total entries

abbrev pub IsSound : BlockCache → Type 0
IsSound c = Sound c.entries c.lru_order c.current_bytes

remove_absent :
    (key : BlockKey) (m : List (BlockKey × Bytes)) → lookup key m ≡ none → remove key m ≡ m
unfolding remove lookup
remove_absent key [] h = refl
remove_absent key ((k, b) ∷ m) h = elim (Bool-cases (k == key)) [
  | inl e ↦ ground (arith, h, e)
  | inr e ↦ rw e (ap (◌∷◌ (k, b)) (remove_absent key m (ground (arith, h, e))))
]

total-remove :
    (key : BlockKey) (m : List (BlockKey × Bytes))
    → Unique m
    → total m ≡ total (remove key m) + size (lookup key m)
unfolding remove lookup
total-remove key [] u = refl
total-remove key ((k, b) ∷ m) u = elim (Bool-cases (k == key)) [
  | inl e ↦ rw e (ground (arith, remove_absent key m, u.0, key_eq.beq_iff k key, e))
  | inr e ↦ rw e (ground (arith, total-remove key m u.1))
]

total-insert :
    (key : BlockKey) (block : Bytes) (m : List (BlockKey × Bytes))
    → total (insert key block m) + size (lookup key m) ≡ total m + length block
unfolding insert lookup
total-insert key block [] = ground arith
total-insert key block ((k, b) ∷ m) = elim (Bool-cases (k == key)) [
  | inl e ↦ rw e (ground arith)
  | inr e ↦ rw e (ground (arith, total-insert key block m))
]

remove-Unique : (key : BlockKey) (m : List (BlockKey × Bytes)) → Unique m → Unique (remove key m)
unfolding remove
remove-Unique key [] u = tt
remove-Unique key ((k, b) ∷ m) u = elim (Bool-cases (k == key)) [
  | inl e ↦ rw e (remove-Unique key m u.1)
  | inr e ↦ rw e (ground (arith, u.0, get-remove key k m), remove-Unique key m u.1)
]

count-append :
    (key : BlockKey) (xs ys : List BlockKey) → count key (xs ++ ys) ≡ count key xs + count key ys
count-append key [] ys = omega arith
count-append key (x ∷ xs) ys = ground (arith, count-append key xs ys)

count-remove_first :
    (key k : BlockKey) (ks : List BlockKey)
    → count k (remove_first key ks) ≡ (if key == k then count k ks - 1 else count k ks)
unfolding remove_first
count-remove_first key k [] = ground arith
count-remove_first key k (x ∷ xs) = elim (Bool-cases (x == key)) [
  | inl e ↦
      let same = (key_eq.beq_iff x key).0 e in
      rw e (
        subst (λ z. count k xs ≡ (if z == k then count k (x ∷ xs) - 1 else count k (x ∷ xs))) same
          (elim (Bool-cases (x == k)) [ inl q ↦ rw q (omega arith) | inr q ↦ rw q refl ]))
  | inr e ↦ rw e (elim (Bool-cases (key == k)) [
    | inl q ↦
        let differ : (x == k) ≡ false =
          subst (λ z. (x == z) ≡ false) ((key_eq.beq_iff key k).0 q) e in
        rw q (rw differ (count-remove_first key k xs ∙ rw q refl))
    | inr q ↦ rw q (elim (Bool-cases (x == k)) [
      | inl p ↦ rw p (ap (◌+◌ 1) (count-remove_first key k xs ∙ rw q refl))
      | inr p ↦ rw p (count-remove_first key k xs ∙ rw q refl)
    ])
  ])
]

-- Without the first key of the order.
Sound-remove :
    (k : BlockKey) (b : Bytes) (lru : List BlockKey) (entries : List (BlockKey × Bytes)) (cur : ℕ)
    → Sound entries (k ∷ lru) cur
    → lookup k entries ≡ some b
    → Sound (remove k entries) lru (cur - length b)
Sound-remove k b lru entries cur s e = record {
  unique = remove-Unique k entries s.unique;
  ordered =
      λ j. ground (arith, s.ordered j, s.ordered k, e, get-remove k j entries, key_eq.beq_iff k j);
  counted = ground (arith, s.counted, total-remove k entries s.unique, e);
}

-- Before each of the keys was removed, the entries left had no room for the new block.
abbrev pub NoRoom : ℕ → ℕ → List BlockKey → List (BlockKey × Bytes) → Type 0
NoRoom max_bytes data_len [] entries = Unit
NoRoom max_bytes data_len (k ∷ ks) entries =
    (max_bytes < total entries + data_len) × NoRoom max_bytes data_len ks (remove k entries)

-- What the loop of `put` leaves: sound accounts, room for the new block or an empty cache, a tail
-- of the order, and the blocks that it does not remove.
module _ (max_bytes data_len : ℕ) where
  abbrev evicted :
      List (BlockKey × Bytes) → List BlockKey → ℕ → List (BlockKey × Bytes) × List BlockKey × ℕ
  evicted = evict max_bytes data_len

  evict-Sound :
      (lru : List BlockKey) (entries : List (BlockKey × Bytes)) (cur : ℕ)
      → Sound entries lru cur
      → Sound (evicted entries lru cur).0 (evicted entries lru cur).1 (evicted entries lru cur).2
  unfolding evict
  evict-Sound [] entries cur s = s
  evict-Sound (k ∷ lru) entries cur s = elim (Bool-cases (ltb max_bytes (cur + data_len))) [
    | inr room ↦ rw (room, evict) s
    | inl full ↦ elim (Option-cases (lookup k entries)) [
      | inl e ↦ absurd (ground (arith, s.ordered k, e, key_eq.beq_iff k k))
      | inr (b, e) ↦
          rw (full, evict)
            (rw (e, evict)
              (evict-Sound lru (remove k entries) (cur - length b)
                (Sound-remove k b lru entries cur s e)))
    ]
  ]

  evict_room :
      (lru : List BlockKey) (entries : List (BlockKey × Bytes)) (cur : ℕ)
      → ((evicted entries lru cur).1 ≡ []) ⊎ ((evicted entries lru cur).2 + data_len ≤ max_bytes)
  unfolding evict
  evict_room [] entries cur = inl refl
  evict_room (k ∷ lru) entries cur = elim (Bool-cases (ltb max_bytes (cur + data_len))) [
    | inr room ↦ rw (room, evict) (inr (ground (arith, room)))
    | inl full ↦ elim (Option-cases (lookup k entries)) [
      | inl e ↦ rw (full, evict) (rw (e, evict) (evict_room lru entries cur))
      | inr (b, e) ↦
          rw (full, evict) (rw (e, evict) (evict_room lru (remove k entries) (cur - length b)))
    ]
  ]

  evict_tail :
      (lru : List BlockKey) (entries : List (BlockKey × Bytes)) (cur : ℕ)
      → Sound entries lru cur
      → (gone : List BlockKey) × (lru ≡ gone ++ (evicted entries lru cur).1)
        × NoRoom max_bytes data_len gone entries
        × ((k : BlockKey)
            → lookup k (evicted entries lru cur).0
              ≡ (if ltb 0 (count k gone) then none else lookup k entries))
  unfolding evict
  evict_tail [] entries cur s = ([], refl, tt, λ k. refl)
  evict_tail (k ∷ lru) entries cur s = elim (Bool-cases (ltb max_bytes (cur + data_len))) [
    | inr room ↦ rw (room, evict) ([], refl, tt, λ k. refl)
    | inl full ↦ elim (Option-cases (lookup k entries)) [
      | inl e ↦ absurd (ground (arith, s.ordered k, e, key_eq.beq_iff k k))
      | inr (b, e) ↦
          let (gone, split, needed, left) =
            evict_tail lru (remove k entries) (cur - length b)
              (Sound-remove k b lru entries cur s e) in
          rw (full, evict)
            (rw (e, evict)
              (
                k ∷ gone,
                ap (◌∷◌ k) split,
                (ground (arith, full, s.counted), needed),
                λ j. left j ∙ ground (arith, e, get-remove k j entries, key_eq.beq_iff k j),
              ))
    ]
  ]

empty_counted : (entries : List (BlockKey × Bytes)) (cur : ℕ) → Sound entries [] cur → cur ≡ 0
unfolding lookup
empty_counted [] cur s = s.counted
empty_counted ((k, b) ∷ m) cur s = absurd (ground (arith, s.ordered k, key_eq.beq_iff k k))

remove_first_absent :
    (key : BlockKey) (ks : List BlockKey) → count key ks ≡ 0 → remove_first key ks ≡ ks
unfolding remove_first
remove_first_absent key [] h = refl
remove_first_absent key (x ∷ xs) h = elim (Bool-cases (x == key)) [
  | inl e ↦ absurd (ground (arith, h, e))
  | inr e ↦ rw e (ap (◌∷◌ x) (remove_first_absent key xs (ground (arith, h, e))))
]

-- Storing a block when the old one of its key, if any, is replaced.
store-Sound :
    (key : BlockKey) (block : Bytes) (entries : List (BlockKey × Bytes)) (lru : List BlockKey)
    (cur : ℕ)
    → Sound entries lru cur
    → Sound
        (insert key block entries)
        (remove_first key lru ++ (key ∷ []))
        ((cur - size (lookup key entries)) + length block)
store-Sound key block entries lru cur s = record {
  unique = insert-Unique key block entries s.unique;
  ordered = λ j. ground (
    arith,
    s.ordered j,
    s.ordered key,
    get-insert key j block entries,
    key_eq.beq_iff key j,
    count-append j (remove_first key lru) (key ∷ []),
    count-remove_first key j lru,
  );
  counted =
      ground (arith, s.counted, total-insert key block entries, total-remove key entries s.unique);
}

-- Storing a block gives it back under its key, keeps the accounts sound and the bytes within the
-- larger of the bound and the block. The other blocks that it loses are exactly those of a first
-- part of the order, each taken out while the blocks left had no room for the new one; the order
-- afterwards is the rest of the old one without the key, and then the key.
pub put_lem :
    (c : BlockCache) (key : BlockKey) (block : Bytes)
    → IsSound c
    → IsSound (put c key block)
      × ((put c key block).current_bytes ≤ max c.max_bytes (length block))
      × ((gone : List BlockKey) × (rest : List BlockKey) × (c.lru_order ≡ gone ++ rest)
          × NoRoom c.max_bytes (length block) gone c.entries
          × ((put c key block).lru_order ≡ remove_first key rest ++ (key ∷ []))
          × ((j : BlockKey)
              → lookup j (put c key block).entries ≡ (
                  if key == j
                  then some block
                  else if ltb 0 (count j gone)
                  then none
                  else lookup j c.entries)))
unfolding put
put_lem c key block s = elim (Option-cases (lookup key left.0)) [
  | inl e ↦
      rw (e, put)
        (
          record {
            unique = stored.unique;
            ordered =
                λ j. ap (count j) (ap (λ l. l ++ (key ∷ [])) (sym (absent e))) ∙ stored.ordered j;
            counted = ground (arith, stored.counted, e);
          },
          ground (arith, stored.counted, bound, e),
          (
            split.0,
            left.1,
            split.1,
            split.2,
            ap (λ l. l ++ (key ∷ [])) (sym (absent e)),
            λ j.
                get-insert key j block left.0
                ∙ ap (λ o. if key == j then some block else o) (split.3 j),
          ),
        )
  | inr (old, e) ↦
      rw (e, put)
        (
          record {
            unique = stored.unique;
            ordered = stored.ordered;
            counted = ground (arith, stored.counted, e);
          },
          ground (arith, bound, e),
          (
            split.0,
            left.1,
            split.1,
            split.2,
            refl,
            λ j.
                get-insert key j block left.0
                ∙ ap (λ o. if key == j then some block else o) (split.3 j),
          ),
        )
]
  where
    left : List (BlockKey × Bytes) × List BlockKey × ℕ
    left = evict c.max_bytes (length block) c.entries c.lru_order c.current_bytes

    sound : Sound left.0 left.1 left.2
    sound = evict-Sound c.max_bytes (length block) c.lru_order c.entries c.current_bytes s

    stored :
        Sound
          (insert key block left.0)
          (remove_first key left.1 ++ (key ∷ []))
          ((left.2 - size (lookup key left.0)) + length block)
    stored = store-Sound key block left.0 left.1 left.2 sound

    absent : lookup key left.0 ≡ none → remove_first key left.1 ≡ left.1
    absent e = remove_first_absent key left.1 (sound.ordered key ∙ ap once e)

    bound : left.2 + length block ≤ max c.max_bytes (length block)
    bound = elim (evict_room c.max_bytes (length block) c.lru_order c.entries c.current_bytes) [
      | inl none_left ↦
          ground (
            arith,
            empty_counted left.0 left.2 (subst (λ l. Sound left.0 l left.2) none_left sound),
          )
      | inr room ↦ omega (arith, room)
    ]

    split :
        (gone : List BlockKey) × (c.lru_order ≡ gone ++ left.1)
        × NoRoom c.max_bytes (length block) gone c.entries
        × ((k : BlockKey)
            → lookup k left.0 ≡ (if ltb 0 (count k gone) then none else lookup k c.entries))
    split = evict_tail c.max_bytes (length block) c.lru_order c.entries c.current_bytes s
