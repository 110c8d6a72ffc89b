-- ===== src/Broker/SchemaRegistry/Sound.antt =====
-- The catalog's invariant, and that storing a schema keeps it.
use mathlib.Core.Option
use mathlib.Core.Path.{subst}
use oxide_mq.Base.{
  ◌-◌, ◌^◌, ◌≡◌, ◌⊎◌, refl, sym, ap, ◌∙◌, List, [], ◌∷◌, ◌++◌, All, All-append, All-map, none, some,
  true, if◌then◌else◌, length, String, arith, Option-cases, Bool-cases, inl, inr,
}
use oxide_mq.Base.Eq.{◌==◌, string_eq, int_eq, ==-refl, ==-eq_false}
use oxide_mq.Base.Assoc.{get, insert, get-insert}
use oxide_mq.Base.Int.{ℤ, pos, ◌<ℤ◌, ◌≤ℤ◌}
use oxide_mq.Broker.Coordinator.{add_i32}
use oxide_mq.Broker.SchemaRegistry.{
  SchemaType, SchemaReference, SchemaEntry, Registry, Texts, key_eq, SubjectRecord, default_subject,
  store,
}

-- An entry of the catalog is the one that its number stands for: same text, same type.
abbrev pub Filed : Registry → SchemaEntry → Type 0
Filed r e = get (e.schema_type, e.schema) r.schema_fingerprints ≡ some e.id

-- Every number in use is below the next one and stands for one text of one type; the entry found
-- by a number has that text, and there is one for every text.
pub record IsSound (r : Registry) : Type 0 where
  pub below :
      (k : SchemaType × String) (id : ℤ)
      → get k r.schema_fingerprints ≡ some id
      → id <ℤ r.next_global_id
  pub apart :
      (k j : SchemaType × String) (id : ℤ)
      → get k r.schema_fingerprints ≡ some id
      → get j r.schema_fingerprints ≡ some id
      → k ≡ j
  pub found :
      (k : SchemaType × String) (id : ℤ)
      → get k r.schema_fingerprints ≡ some id
      → (e : SchemaEntry) × (get id r.global_schemas ≡ some e)
        × (e.schema_type ≡ k.0)
        × (e.schema ≡ k.1)
  pub filed :
      (subject : String) (rec : SubjectRecord)
      → get subject r.subjects ≡ some rec
      → All (Filed r) rec.versions

add_i32_one : (n : ℤ) → pos 0 ≤ℤ n → n <ℤ pos (2 ^ 31 - 1) → n <ℤ add_i32 n (pos 1)
add_i32_one n h0 h1 = ground arith

pub some_inj {ℓ} : {A : Type ℓ} {a b : A} → some a ≡ some b → a ≡ b
some_inj {a = a} e = ap (λ o. Option.get_or o a) e

irrefl : (a b : ℤ) → a <ℤ b → a ≡ b → ⊥
irrefl a b h e = ground (arith, h, e)

trans_lt : (a b c : ℤ) → a <ℤ b → b <ℤ c → a <ℤ c
trans_lt a b c h k = omega (arith, h, k)

none-ne-some :
    (k : SchemaType × String) (r : Registry) (id : ℤ)
    → get k r.schema_fingerprints ≡ none
    → get k r.schema_fingerprints ≡ some id
    → ⊥
none-ne-some k r id e h = ground (arith, e, h)

module _ (t : Texts) (r : Registry) (s : IsSound r) (subject schema : String) (st : SchemaType)
    (references : List SchemaReference) where
  key : SchemaType × String
  key = (st, t.trim schema)

  stored : Registry
  stored = (store t r subject schema st references).0

  added : ℤ → SchemaEntry
  added id = record {
    subject = subject;
    version =
        add_i32 (pos (length (Option.get_or (get subject r.subjects) default_subject).versions))
          (pos 1);
    id = id;
    schema_type = st;
    schema = t.trim schema;
    references = references;
  }

  old_versions : All (Filed r) (Option.get_or (get subject r.subjects) default_subject).versions
  old_versions = elim (Option-cases (get subject r.subjects)) [
    | inl e ↦ rw e tt
    | inr (rec, e) ↦ rw e (s.filed subject rec e)
  ]

  extended : ℤ → SubjectRecord
  extended id = record (Option.get_or (get subject r.subjects) default_subject) {
    versions = (Option.get_or (get subject r.subjects) default_subject).versions ++ (added id ∷ []);
  }

  -- The entries of every subject, when the new one is put at the end of its own.
  Filed-insert :
      (r' : Registry) (id : ℤ)
      → r'.subjects ≡ insert subject (extended id) r.subjects
      → ((e : SchemaEntry) → Filed r e → Filed r' e)
      → Filed r' (added id)
      → (sub : String) (rec : SubjectRecord) → get sub r'.subjects ≡ some rec
      → All (Filed r') rec.versions
  unfolding extended
  Filed-insert r' id eq keep new_one sub rec h = elim (Bool-cases (subject == sub)) [
    | inl same ↦
        subst (λ (v : SubjectRecord). All (Filed r') v.versions) (some_inj (sym (own same) ∙ h))
          extended_filed
    | inr other ↦ All-map keep rec.versions (s.filed sub rec (sym (looked ∙ rw other refl) ∙ h))
  ]
    where
      looked :
          get sub r'.subjects ≡ (if subject == sub then some (extended id) else get sub r.subjects)
      looked = ap (get sub) eq ∙ get-insert subject sub (extended id) r.subjects

      own : (subject == sub) ≡ true → get sub r'.subjects ≡ some (extended id)
      own same = looked ∙ rw same refl

      extended_filed : All (Filed r') (extended id).versions
      extended_filed =
          All-append (Filed r') (Option.get_or (get subject r.subjects) default_subject).versions
            (added id ∷ [])
            (All-map keep (Option.get_or (get subject r.subjects) default_subject).versions
              old_versions)
            (new_one, tt)

  module _ (fresh : get key r.schema_fingerprints ≡ none) (room : pos 0 ≤ℤ r.next_global_id)
      (room' : r.next_global_id <ℤ pos (2 ^ 31 - 1)) where
    grows : r.next_global_id <ℤ add_i32 r.next_global_id (pos 1)
    grows = add_i32_one r.next_global_id room room'

    r_new : Registry
    r_new = record {
      next_global_id = add_i32 r.next_global_id (pos 1);
      subjects = insert subject (extended r.next_global_id) r.subjects;
      global_schemas = insert r.next_global_id (added r.next_global_id) r.global_schemas;
      schema_fingerprints = insert key r.next_global_id r.schema_fingerprints;
      global_config = r.global_config;
    }

    stored_new : store t r subject schema st references ≡ (r_new, r.next_global_id)
    unfolding store r_new key added extended
    stored_new = rw (fresh, store) (λ _. (r_new, r.next_global_id))

    finger :
        (k : SchemaType × String) (id : ℤ)
        → get k r_new.schema_fingerprints ≡ some id
        → ((key ≡ k) × (id ≡ r.next_global_id)) ⊎ (get k r.schema_fingerprints ≡ some id)
    unfolding r_new
    finger k id h = elim (Bool-cases (key == k)) [
      | inl same ↦ inl (
        (key_eq.beq_iff key k).0 same,
        some_inj (sym h ∙ get-insert key k r.next_global_id r.schema_fingerprints ∙ rw same refl),
      )
      | inr other ↦
          inr (sym (get-insert key k r.next_global_id r.schema_fingerprints ∙ rw other refl) ∙ h)
    ]

    new-IsSound : IsSound r_new
    unfolding r_new added key
    new-IsSound = record { below = below'; apart = apart'; found = found'; filed = filed' }
      where
        below' :
            (k : SchemaType × String) (id : ℤ)
            → get k r_new.schema_fingerprints ≡ some id
            → id <ℤ r_new.next_global_id
        below' k id h = elim (finger k id h) [
          | inl (_, is) ↦ subst (λ i. i <ℤ r_new.next_global_id) (sym is) grows
          | inr old ↦ trans_lt id r.next_global_id r_new.next_global_id (s.below k id old) grows
        ]

        apart' :
            (k j : SchemaType × String) (id : ℤ)
            → get k r_new.schema_fingerprints ≡ some id
            → get j r_new.schema_fingerprints ≡ some id
            → k ≡ j
        apart' k j id hk hj = elim (finger k id hk) [
          | inl (ek, is) ↦ elim (finger j id hj) [
            | inl (ej, _) ↦ sym ek ∙ ej
            | inr old ↦ absurd (irrefl id r.next_global_id (s.below j id old) is)
          ]
          | inr old ↦ elim (finger j id hj) [
            | inl (_, is) ↦ absurd (irrefl id r.next_global_id (s.below k id old) is)
            | inr old' ↦ s.apart k j id old old'
          ]
        ]

        found' :
            (k : SchemaType × String) (id : ℤ)
            → get k r_new.schema_fingerprints ≡ some id
            → (e : SchemaEntry) × (get id r_new.global_schemas ≡ some e)
              × (e.schema_type ≡ k.0)
              × (e.schema ≡ k.1)
        found' k id h = elim (finger k id h) [
          | inl (ek, is) ↦ (
            added r.next_global_id,
            get-insert r.next_global_id id (added r.next_global_id) r.global_schemas
                ∙ rw ((int_eq.beq_iff r.next_global_id id).1 (sym is)) refl,
            ap (λ p. p.0) ek,
            ap (λ p. p.1) ek,
          )
          | inr old ↦
              let (e, at, ty, text) = s.found k id old in
              (
                e,
                get-insert r.next_global_id id (added r.next_global_id) r.global_schemas
                    ∙ rw
                        (==-eq_false r.next_global_id id
                          (λ q. irrefl id r.next_global_id (s.below k id old) (sym q)))
                        at,
                ty,
                text,
              )
        ]

        kept : (e : SchemaEntry) → Filed r e → Filed r_new e
        kept e h =
            get-insert key (e.schema_type, e.schema) r.next_global_id r.schema_fingerprints
            ∙ rw
                (==-eq_false key (e.schema_type, e.schema)
                  (λ q.
                    none-ne-some key r e.id fresh
                      (subst (λ k. get k r.schema_fingerprints ≡ some e.id) (sym q) h)))
                h

        filed' :
            (sub : String) (rec : SubjectRecord)
            → get sub r_new.subjects ≡ some rec
            → All (Filed r_new) rec.versions
        filed' =
            Filed-insert r_new r.next_global_id refl kept
              (get-insert key key r.next_global_id r.schema_fingerprints ∙ rw (==-refl key) refl)

  module _ (id : ℤ) (known : get key r.schema_fingerprints ≡ some id) where
    r_old : Registry
    r_old = record r {
      subjects = insert subject (extended id) r.subjects;
      global_schemas = insert id (added id) r.global_schemas;
    }

    stored_old : store t r subject schema st references ≡ (r_old, id)
    unfolding store r_old key added extended
    stored_old = rw (known, store) (λ _. (r_old, id))

    old-IsSound : IsSound r_old
    unfolding r_old added key
    old-IsSound = record {
      below = s.below;
      apart = s.apart;
      found = found';
      filed = Filed-insert r_old id refl (λ e h. h) known;
    }
      where
        found' :
            (k : SchemaType × String) (i : ℤ)
            → get k r_old.schema_fingerprints ≡ some i
            → (e : SchemaEntry) × (get i r_old.global_schemas ≡ some e)
              × (e.schema_type ≡ k.0)
              × (e.schema ≡ k.1)
        found' k i h = elim (Bool-cases (id == i)) [
          | inl same ↦
              let same_key =
                s.apart key k id known (h ∙ ap some (sym ((int_eq.beq_iff id i).0 same))) in
              (
                added id,
                get-insert id i (added id) r.global_schemas ∙ rw same refl,
                ap (λ p. p.0) same_key,
                ap (λ p. p.1) same_key,
              )
          | inr other ↦
              let (e, at, ty, text) = s.found k i h in
              (e, get-insert id i (added id) r.global_schemas ∙ rw other at, ty, text)
        ]

  unfoldable pub Stored : Registry × ℤ → Type 0
  Stored p =
      IsSound p.0
      × ((e : SchemaEntry) × (get p.1 p.0.global_schemas ≡ some e)
          × (e.schema_type ≡ st)
          × (e.schema ≡ t.trim schema))

  pub store_lem :
      pos 0 ≤ℤ r.next_global_id
      → r.next_global_id <ℤ pos (2 ^ 31 - 1)
      → Stored (store t r subject schema st references)
  store_lem room room' = elim (Option-cases (get key r.schema_fingerprints)) [
    | inl fresh ↦ subst Stored (sym (stored_new fresh room room')) (
        unfold Stored in
        (
          new-IsSound fresh room room',
          unfold r_new added in
              (
                added r.next_global_id,
                get-insert r.next_global_id r.next_global_id (added r.next_global_id)
                      r.global_schemas
                    ∙ rw (==-refl r.next_global_id) refl,
                refl,
                refl,
              ),
        ))
    | inr (id, known) ↦ subst Stored (sym (stored_old id known)) (
        unfold Stored in
        (
          old-IsSound id known,
          unfold r_old added in
              (
                added id,
                get-insert id id (added id) r.global_schemas ∙ rw (==-refl id) refl,
                refl,
                refl,
              ),
        ))
  ]
