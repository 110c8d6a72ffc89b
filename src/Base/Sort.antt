-- ===== src/Base/Sort.antt =====
-- `sort_by_key`: a stable sort, here by insertion, over a Boolean order `le`.
use mathlib.Core.Path.{◌≡◌}
use mathlib.Core.Logic.{inl, inr}
use mathlib.Core.Bool.{Bool, true, false}
use mathlib.Core.List.{List, [], ◌∷◌}
use oxide_mq.Base.Tests.{if◌then◌else◌, Bool-cases}
use oxide_mq.Base.Lists.{All}

module _ {ℓ} {A : Type ℓ} (le : A → A → Bool) where
  unfoldable pub insert_sorted : A → List A → List A
  insert_sorted x [] = x ∷ []
  insert_sorted x (y ∷ ys) = if le x y then x ∷ (y ∷ ys) else y ∷ insert_sorted x ys

  unfoldable pub sort : List A → List A
  sort [] = []
  sort (x ∷ xs) = insert_sorted x (sort xs)

  abbrev pub IsSorted : List A → Type 0
  IsSorted [] = Unit
  IsSorted (x ∷ xs) = All (λ y. le x y ≡ true) xs × IsSorted xs

  module _ {κ} (P : A → Type κ) where
    All-insert_sorted : (x : A) (xs : List A) → P x → All P xs → All P (insert_sorted x xs)
    unfolding insert_sorted
    All-insert_sorted x [] hx h = (hx, h)
    All-insert_sorted x (y ∷ ys) hx h = elim (Bool-cases (le x y)) [
      | inl e ↦ rw e (hx, h)
      | inr e ↦ rw e (h.0, All-insert_sorted x ys hx h.1)
    ]

    -- What holds of all elements still does: the sort invents none.
    pub All-sort : (xs : List A) → All P xs → All P (sort xs)
    unfolding sort
    All-sort [] h = h
    All-sort (x ∷ xs) h = All-insert_sorted x (sort xs) h.0 (All-sort xs h.1)

    All-of_insert_sorted : (x : A) (xs : List A) → All P (insert_sorted x xs) → P x × All P xs
    unfolding insert_sorted
    All-of_insert_sorted x [] h = h
    All-of_insert_sorted x (y ∷ ys) h = elim (Bool-cases (le x y)) [
      | inl e ↦ rw e at h
      | inr e ↦
          let k : P y × All P (insert_sorted x ys) = rw e at h in
          let (px, pys) = All-of_insert_sorted x ys k.1 in (px, (k.0, pys))
    ]

    -- ... and it loses none.
    pub All-of_sort : (xs : List A) → All P (sort xs) → All P xs
    unfolding sort
    All-of_sort [] h = h
    All-of_sort (x ∷ xs) h =
        let (px, pxs) = All-of_insert_sorted x (sort xs) h in (px, All-of_sort xs pxs)

  module _ (total : (x y : A) → le x y ≡ false → le y x ≡ true)
      (trans : (x y z : A) → le x y ≡ true → le y z ≡ true → le x z ≡ true) where
    All-le_trans :
        (x y : A) (ys : List A)
        → le x y ≡ true
        → All (λ z. le y z ≡ true) ys
        → All (λ z. le x z ≡ true) ys
    All-le_trans x y [] h hs = hs
    All-le_trans x y (z ∷ zs) h hs = (trans x y z h hs.0, All-le_trans x y zs h hs.1)

    insert_sorted-IsSorted : (x : A) (xs : List A) → IsSorted xs → IsSorted (insert_sorted x xs)
    unfolding insert_sorted
    insert_sorted-IsSorted x [] h = (tt, tt)
    insert_sorted-IsSorted x (y ∷ ys) h = elim (Bool-cases (le x y)) [
      | inl e ↦ rw e ((e, All-le_trans x y ys e h.0), h)
      | inr e ↦ rw e (
        All-insert_sorted (λ z. le y z ≡ true) x ys (total x y e) h.0,
        insert_sorted-IsSorted x ys h.1,
      )
    ]

    pub sort-IsSorted : (xs : List A) → IsSorted (sort xs)
    unfolding sort
    sort-IsSorted [] = tt
    sort-IsSorted (x ∷ xs) = insert_sorted-IsSorted x (sort xs) (sort-IsSorted xs)
