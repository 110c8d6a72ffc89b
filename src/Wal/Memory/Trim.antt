-- ===== src/Wal/Memory/Trim.antt =====
-- `trim` of the in-memory log drops the records of one stream below an offset.
use mathlib.Core.Option
use mathlib.Core.Path.{subst}
use oxide_mq.Base.{
  ℕ, ◌<◌, ◌≡◌, ◌≢◌, refl, sym, ap, ◌∙◌, List, [], ◌∷◌, ◌++◌, append_assoc, append-nil, none, some,
  Bool, true, false, not, ◌&&◌, ◌||◌, All, All-map, filter, if◌then◌else◌, arith, Option-cases,
  Bool-cases, inl, inr, nat_beq_iff,
}
use oxide_mq.Base.Eq.{◌==◌, nat_eq}
use oxide_mq.Base.Assoc.{get, insert, remove, get-insert, get-remove}
use oxide_mq.Base.Int.{ℤ, ltb_ℤ, leb_ℤ}
use oxide_mq.Wal.Frame.{WalRecord}
use oxide_mq.Wal.Memory.{MemoryWal, index_of, trim_loop, trim}
use oxide_mq.Wal.Memory.View.{lookup_all, view, Owned, IsValid}

abbrev contains : List ℕ → ℕ → Bool
contains [] s = false
contains (x ∷ xs) s = (x == s) || contains xs s

module _ (up_to : ℤ) where
  -- The record at `seq` is there and below the offset.
  expired : List (ℕ × WalRecord) → ℕ → Bool
  expired records seq = elim (get seq records) [ none ↦ false | some r ↦ ltb_ℤ r.offset up_to ]

  -- The record at `seq` is there and not below the offset.
  live : List (ℕ × WalRecord) → ℕ → Bool
  live records seq = elim (get seq records) [ none ↦ false | some r ↦ not (ltb_ℤ r.offset up_to) ]

  get-trim_loop :
      (seqs : List ℕ) (records : List (ℕ × WalRecord)) (retained : List ℕ) (s : ℕ)
      → get s (trim_loop up_to seqs records retained).0
        ≡ (if contains seqs s && expired records s then none else get s records)
  unfolding trim_loop expired
  get-trim_loop [] records retained s = refl
  get-trim_loop (q ∷ seqs) records retained s = elim (Option-cases (get q records)) [
    | inl e ↦
        rw (e, trim_loop)
          (ground (arith, e, nat_beq_iff q s, get-trim_loop seqs records retained s))
    | inr (r, e) ↦
        rw (e, trim_loop)
          (ground (
            arith,
            e,
            nat_beq_iff q s,
            get-remove q s records,
            get-trim_loop seqs records (retained ++ (q ∷ [])) s,
            get-trim_loop seqs (remove q records) retained s,
          ))
  ]

  filter-remove :
      (q : ℕ) (records : List (ℕ × WalRecord)) (seqs : List ℕ)
      → live records q ≡ false
      → filter (live (remove q records)) seqs ≡ filter (live records) seqs
  unfolding live
  filter-remove q records [] h = refl
  filter-remove q records (s ∷ seqs) h =
      ground (arith, h, nat_beq_iff q s, get-remove q s records, filter-remove q records seqs h)

  retained-trim_loop :
      (seqs : List ℕ) (records : List (ℕ × WalRecord)) (retained : List ℕ)
      → (trim_loop up_to seqs records retained).1 ≡ retained ++ filter (live records) seqs
  unfolding trim_loop live
  retained-trim_loop [] records retained = sym (append-nil retained)
  retained-trim_loop (q ∷ seqs) records retained = elim (Option-cases (get q records)) [
    | inl e ↦ rw (e, trim_loop) (rw (e, live) (retained-trim_loop seqs records retained))
    | inr (r, e) ↦
        rw (e, trim_loop)
          (ground (
            arith,
            e,
            append_assoc retained (q ∷ []) (filter (live records) seqs),
            filter-remove q records seqs,
            retained-trim_loop seqs records (retained ++ (q ∷ [])),
            retained-trim_loop seqs (remove q records) retained,
          ))
  ]

  keep :
      (records records' : List (ℕ × WalRecord)) (s : ℕ) (seqs : List ℕ) (r : WalRecord)
      → get s records ≡ some r
      → ltb_ℤ r.offset up_to ≡ false
      → get s records' ≡ some r
      → lookup_all records' (filter (live records) seqs)
        ≡ filter (λ r. leb_ℤ up_to r.offset) (lookup_all records seqs)
      → lookup_all records' (filter (live records) (s ∷ seqs))
        ≡ filter (λ r. leb_ℤ up_to r.offset) (lookup_all records (s ∷ seqs))
  unfolding lookup_all live
  keep records records' s seqs r e new e' ih =
      rw (e, live, lookup_all) (rw new (rw e' (rw kept (ap (◌∷◌ r) ih))))
    where
      kept : leb_ℤ up_to r.offset ≡ true
      kept = ground (arith, new)

  expire :
      (records records' : List (ℕ × WalRecord)) (s : ℕ) (seqs : List ℕ) (r : WalRecord)
      → get s records ≡ some r
      → ltb_ℤ r.offset up_to ≡ true
      → lookup_all records' (filter (live records) seqs)
        ≡ filter (λ r. leb_ℤ up_to r.offset) (lookup_all records seqs)
      → lookup_all records' (filter (live records) (s ∷ seqs))
        ≡ filter (λ r. leb_ℤ up_to r.offset) (lookup_all records (s ∷ seqs))
  unfolding lookup_all live
  expire records records' s seqs r e old ih = rw (e, live, lookup_all) (rw old (rw kept ih))
    where
      kept : leb_ℤ up_to r.offset ≡ false
      kept = ground (arith, old)

  lookup_all-live :
      (records records' : List (ℕ × WalRecord)) (seqs : List ℕ)
      → ((s : ℕ) → live records s ≡ true → get s records' ≡ get s records)
      → lookup_all records' (filter (live records) seqs)
        ≡ filter (λ r. leb_ℤ up_to r.offset) (lookup_all records seqs)
  unfolding lookup_all live
  lookup_all-live records records' [] agree = refl
  lookup_all-live records records' (s ∷ seqs) agree = elim (Option-cases (get s records)) [
    | inl e ↦ rw (e, live, lookup_all) (lookup_all-live records records' seqs agree)
    | inr (r, e) ↦ elim (Bool-cases (ltb_ℤ r.offset up_to)) [
      | inl old ↦
          expire records records' s seqs r e old (lookup_all-live records records' seqs agree)
      | inr new ↦
          keep records records' s seqs r e new (agree s (rw (e, live) (rw new refl)) ∙ e)
            (lookup_all-live records records' seqs agree)
    ]
  ]

lookup_all-agree :
    (records records' : List (ℕ × WalRecord)) (seqs : List ℕ)
    → All (λ s. get s records' ≡ get s records) seqs
    → lookup_all records' seqs ≡ lookup_all records seqs
unfolding lookup_all
lookup_all-agree records records' [] h = refl
lookup_all-agree records records' (s ∷ seqs) h =
    ground (arith, h.0, lookup_all-agree records records' seqs h.1)

All-contains : (P : ℕ → Type 0) (xs : List ℕ) (s : ℕ) → All P xs → contains xs s ≡ true → P s
All-contains P [] s h c = absurd (cc c)
All-contains P (x ∷ xs) s h c = elim (Bool-cases (x == s)) [
  | inl e ↦ subst P ((nat_beq_iff x s).0 e) h.0
  | inr e ↦ All-contains P xs s h.1 (ground (arith, c, e))
]

module _ (w : MemoryWal) (v : IsValid w) (id : ℕ) (up_to : ℤ) (seqs : List ℕ)
    (has : get id w.stream_indexes ≡ some seqs) where
  records' : List (ℕ × WalRecord)
  records' = (trim_loop up_to seqs w.records []).0

  index-eq : index_of w id ≡ seqs
  index-eq = ap (λ o. Option.get_or o []) has

  agree_live : (s : ℕ) → live up_to w.records s ≡ true → get s records' ≡ get s w.records
  unfolding records' live expired
  agree_live s h = elim (Option-cases (get s w.records)) [
    | inl e ↦ ground (arith, e, get-trim_loop up_to seqs w.records [] s)
    | inr (r, e) ↦ ground (arith, e, h, get-trim_loop up_to seqs w.records [] s)
  ]

  agree_other : (j s : ℕ) → id ≢ j → Owned w.records j s → get s records' ≡ get s w.records
  unfolding records'
  agree_other j s ne (r, e, mine) = elim (Bool-cases (contains seqs s)) [
    | inr out ↦ get-trim_loop up_to seqs w.records [] s ∙ rw out
    | inl inside ↦
        let (r', e', his) =
          All-contains (Owned w.records id) seqs s
            (subst (All (Owned w.records id)) index-eq (v.owned id)) inside in
        absurd (ne (ground (arith, e, e', mine, his)))
  ]

  trimmed : MemoryWal
  trimmed = record w {
    records = records';
    stream_indexes = insert id (filter (live up_to w.records) seqs) w.stream_indexes;
  }

  trim-trimmed : trim w id up_to ≡ trimmed
  unfolding trim trimmed records'
  trim-trimmed = rw (has, trim) (rw (retained-trim_loop up_to seqs w.records []))

  index_of-trimmed :
      (j : ℕ)
      → index_of trimmed j ≡ (if id == j then filter (live up_to w.records) seqs else index_of w j)
  unfolding trimmed
  index_of-trimmed j = ground (
    arith,
    get-insert id j (filter (live up_to w.records) seqs) w.stream_indexes,
    nat_beq_iff id j,
  )

  trimmed-view :
      (j : ℕ)
      → view trimmed j
        ≡ (if id == j then filter (λ r. leb_ℤ up_to r.offset) (view w j) else view w j)
  unfolding view
  trimmed-view j =
      ap (lookup_all trimmed.records) (index_of-trimmed j) ∙ elim (Bool-cases (id == j)) [
        | inl e ↦ rw e (
            unfold trimmed records' in
            subst
              (λ is.
                lookup_all records' (filter (live up_to w.records) seqs)
                ≡ filter (λ r. leb_ℤ up_to r.offset) (lookup_all w.records is))
              (sym (ap (index_of w) (sym ((nat_beq_iff id j).0 e)) ∙ index-eq))
              (lookup_all-live up_to w.records records' seqs agree_live))
        | inr e ↦ rw e (
            unfold trimmed in
            lookup_all-agree w.records records' (index_of w j) (
              All-map (λ s o. agree_other j s (λ p. ground (arith, p, e, nat_beq_iff id j)) o)
                (index_of w j) (v.owned j)))
      ]

  All-live :
      (xs : List ℕ)
      → All (Owned w.records id) xs
      → All (Owned records' id) (filter (live up_to w.records) xs)
  All-live [] h = tt
  All-live (x ∷ xs) h = elim (Bool-cases (live up_to w.records x)) [
    | inl e ↦ rw e ((h.0.0, agree_live x e ∙ h.0.1, h.0.2), All-live xs h.1)
    | inr e ↦ rw e (All-live xs h.1)
  ]

  trimmed-IsValid : IsValid trimmed
  trimmed-IsValid = record { fresh = fresh'; owned = owned' }
    where
      fresh' : (s : ℕ) (r : WalRecord) → get s trimmed.records ≡ some r → s < trimmed.next_seq
      fresh' s r h =
          unfold trimmed records' in
          ground (arith, h, get-trim_loop up_to seqs w.records [] s, v.fresh s r)

      owned' : (j : ℕ) → All (Owned trimmed.records j) (index_of trimmed j)
      owned' j =
          subst (All (Owned trimmed.records j)) (sym (index_of-trimmed j))
            (elim (Bool-cases (id == j)) [
              | inl e ↦ rw e (
                  unfold trimmed in
                  subst (λ k. All (Owned records' k) (filter (live up_to w.records) seqs))
                    ((nat_beq_iff id j).0 e)
                    (All-live seqs (subst (All (Owned w.records id)) index-eq (v.owned id))))
              | inr e ↦ rw e (
                  unfold trimmed in
                  All-map
                    (λ s o. (
                      o.0,
                      agree_other j s (λ p. ground (arith, p, e, nat_beq_iff id j)) o ∙ o.1,
                      o.2,
                    ))
                    (index_of w j) (v.owned j))
            ])

trim_none :
    (w : MemoryWal) (id : ℕ) (up_to : ℤ) → get id w.stream_indexes ≡ none → trim w id up_to ≡ w
unfolding trim
trim_none w id up_to e = rw (e, trim) refl

view-none :
    (w : MemoryWal) (id : ℕ) (up_to : ℤ)
    → get id w.stream_indexes ≡ none
    → (j : ℕ) → id ≡ j
    → view w j ≡ filter (λ r. leb_ℤ up_to r.offset) (view w j)
unfolding view lookup_all
view-none w id up_to e j same = rw (sym same) (
    subst
      (λ xs. lookup_all w.records xs ≡ filter (λ r. leb_ℤ up_to r.offset) (lookup_all w.records xs))
      (sym (ap (λ o. Option.get_or o []) e)) refl)

-- A trim keeps the log valid, drops from its own stream the records below the offset, in place,
-- and changes no other stream.
pub trim_lem :
    (w : MemoryWal) (id : ℕ) (up_to : ℤ)
    → IsValid w
    → IsValid (trim w id up_to)
      × ((j : ℕ)
          → view (trim w id up_to) j
            ≡ (if id == j then filter (λ r. leb_ℤ up_to r.offset) (view w j) else view w j))
trim_lem w id up_to v = elim (Option-cases (get id w.stream_indexes)) [
  | inr (seqs, e) ↦
      subst
        (λ w'.
          IsValid w'
          × ((j : ℕ)
              → view w' j
                ≡ (if id == j then filter (λ r. leb_ℤ up_to r.offset) (view w j) else view w j)))
        (sym (trim-trimmed w v id up_to seqs e))
        (trimmed-IsValid w v id up_to seqs e, trimmed-view w v id up_to seqs e)
  | inl e ↦
      subst
        (λ w'.
          IsValid w'
          × ((j : ℕ)
              → view w' j
                ≡ (if id == j then filter (λ r. leb_ℤ up_to r.offset) (view w j) else view w j)))
        (sym (trim_none w id up_to e))
        (
          v,
          λ j. elim (Bool-cases (id == j)) [
            | inl same ↦ rw same (view-none w id up_to e j ((nat_beq_iff id j).0 same))
            | inr other ↦ rw other refl
          ],
        )
]
