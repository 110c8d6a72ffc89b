-- ===== src/Wal/Memory/Append.antt =====
-- `append` of the in-memory log adds one record at the end of its stream.
use mathlib.Core.Path.{subst}
use oxide_mq.Base.{
  ℕ, ◌+◌, ◌^◌, ◌<◌, ◌≡◌, refl, sym, ap, ◌∙◌, List, [], ◌∷◌, ◌++◌, some, Bool, true, false, All,
  All-map, All-append, if◌then◌else◌, arith, Bool-cases, inl, inr, nat_beq_iff,
}
use oxide_mq.Base.Eq.{◌==◌, nat_eq}
use oxide_mq.Base.Assoc.{get, insert, get-insert}
use oxide_mq.Base.Int.{ℤ}
use oxide_mq.Base.Result.{ok}
use oxide_mq.Bytes.{Bytes}
use oxide_mq.Wal.Frame.{WalRecord}
use oxide_mq.Wal.Memory.{MemoryWal, index_of, append}
use oxide_mq.Wal.Memory.View.{lookup_all, view, Owned, IsValid}

lookup_all-insert :
    (records : List (ℕ × WalRecord)) (seq : ℕ) (r : WalRecord) (seqs : List ℕ)
    → All (λ s. s < seq) seqs
    → lookup_all (insert seq r records) seqs ≡ lookup_all records seqs
unfolding lookup_all
lookup_all-insert records seq r [] h = refl
lookup_all-insert records seq r (s ∷ seqs) h = ground (
  arith,
  h.0,
  get-insert seq s r records,
  nat_beq_iff seq s,
  lookup_all-insert records seq r seqs h.1,
)

lookup_all-append :
    (records : List (ℕ × WalRecord)) (xs ys : List ℕ)
    → lookup_all records (xs ++ ys) ≡ lookup_all records xs ++ lookup_all records ys
unfolding lookup_all
lookup_all-append records [] ys = refl
lookup_all-append records (x ∷ xs) ys = ground (arith, lookup_all-append records xs ys)

lookup_all_one :
    (records : List (ℕ × WalRecord)) (seq : ℕ) (r : WalRecord)
    → lookup_all (insert seq r records) (seq ∷ []) ≡ r ∷ []
unfolding lookup_all
lookup_all_one records seq r = ground (arith, get-insert seq seq r records, nat_beq_iff seq seq)

module _ (w : MemoryWal) (v : IsValid w) (stream_id : ℕ) (offset : ℤ) (payload : Bytes) where
  abbrev pub appended : WalRecord
  appended = record { seq = w.next_seq; stream_id = stream_id; offset = offset; payload = payload }

  abbrev w' : MemoryWal
  w' = (append w stream_id offset payload).0

  below : (j : ℕ) → All (λ s. s < w.next_seq) (index_of w j)
  below j = All-map (λ s o. v.fresh s o.0 o.1) (index_of w j) (v.owned j)

  index_of-append :
      (j : ℕ)
      → index_of w' j ≡ (if stream_id == j then index_of w j ++ (w.next_seq ∷ []) else index_of w j)
  unfolding append
  index_of-append j = ground (
    arith,
    get-insert stream_id j (index_of w stream_id ++ (w.next_seq ∷ [])) w.stream_indexes,
    nat_beq_iff stream_id j,
  )

  still-Owned : (j : ℕ) → All (Owned w'.records j) (index_of w j)
  unfolding append
  still-Owned j =
      All-map
        (λ s o. (
          o.0,
          ground (
            arith,
            get-insert w.next_seq s appended w.records,
            nat_beq_iff w.next_seq s,
            v.fresh s o.0 o.1,
            o.1,
          ),
          o.2,
        ))
        (index_of w j) (v.owned j)

  new-Owned : Owned w'.records stream_id w.next_seq
  unfolding append
  new-Owned = (
    appended,
    ground (
      arith,
      get-insert w.next_seq w.next_seq appended w.records,
      nat_beq_iff w.next_seq w.next_seq,
    ),
    refl,
  )

  append-view :
      (j : ℕ) → view w' j ≡ (if stream_id == j then view w j ++ (appended ∷ []) else view w j)
  unfolding view
  append-view j = ap (lookup_all w'.records) (index_of-append j) ∙ cases (stream_id == j)
    where
      old : lookup_all w'.records (index_of w j) ≡ lookup_all w.records (index_of w j)
      old =
          unfold append in lookup_all-insert w.records w.next_seq appended (index_of w j) (below j)

      one : lookup_all w'.records (w.next_seq ∷ []) ≡ appended ∷ []
      one = unfold append in lookup_all_one w.records w.next_seq appended

      cases :
          (b : Bool)
          → lookup_all w'.records (if b then index_of w j ++ (w.next_seq ∷ []) else index_of w j)
            ≡ (if b
                then lookup_all w.records (index_of w j) ++ (appended ∷ [])
                else lookup_all w.records (index_of w j))
      cases true = lookup_all-append w'.records (index_of w j) (w.next_seq ∷ []) ∙ cc (old, one)
      cases false = old

  append-IsValid : w.next_seq + 1 < 2 ^ 64 → IsValid w'
  append-IsValid room = record { fresh = fresh'; owned = owned' }
    where
      fresh' : (s : ℕ) (r : WalRecord) → get s w'.records ≡ some r → s < w'.next_seq
      fresh' s r h =
          unfold append in
          ground (
            arith,
            h,
            get-insert w.next_seq s appended w.records,
            nat_beq_iff w.next_seq s,
            v.fresh s r,
          )

      owned' : (j : ℕ) → All (Owned w'.records j) (index_of w' j)
      owned' j =
          subst (All (Owned w'.records j)) (sym (index_of-append j))
            (elim (Bool-cases (stream_id == j)) [
              | inl e ↦ rw e (
                  All-append (Owned w'.records j) (index_of w j) (w.next_seq ∷ []) (still-Owned j) (
                    subst (λ k. Owned w'.records k w.next_seq) ((nat_beq_iff stream_id j).0 e)
                        new-Owned,
                    tt,
                  ))
              | inr e ↦ rw e (still-Owned j)
            ])

-- An append with a sequence number to spare returns it, adds the record at the end of its own
-- stream, changes no other stream, and keeps the log valid.
pub append_lem :
    (w : MemoryWal) (stream_id : ℕ) (offset : ℤ) (payload : Bytes)
    → IsValid w
    → w.next_seq + 1 < 2 ^ 64
    → ((append w stream_id offset payload).1 ≡ ok w.next_seq)
      × IsValid (append w stream_id offset payload).0
      × ((j : ℕ)
          → view (append w stream_id offset payload).0 j ≡ (
              if stream_id == j
              then view w j
                ++ (record {
                  seq = w.next_seq;
                  stream_id = stream_id;
                  offset = offset;
                  payload = payload;
                }
                    ∷ [])
              else view w j))
append_lem w stream_id offset payload v room = (
  unfold append in refl,
  append-IsValid w v stream_id offset payload room,
  append-view w v stream_id offset payload,
)
