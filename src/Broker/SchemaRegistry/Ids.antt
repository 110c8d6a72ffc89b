-- ===== src/Broker/SchemaRegistry/Ids.antt =====
-- The numbers of the registered schemas.
use mathlib.Core.Option
use mathlib.Core.Path.{subst}
use oxide_mq.Base.{
  ◌-◌, ◌^◌, ◌≡◌, ◌⊎◌, refl, sym, ap, ◌∙◌, List, [], ◌∷◌, All, Option, some, true, false, String,
  arith, Option-cases, Bool-cases, inl, inr,
}
use oxide_mq.Base.Eq.{string_eq, int_eq}
use oxide_mq.Base.Assoc.{get}
use oxide_mq.Base.Int.{ℤ, pos, ◌<ℤ◌, ◌≤ℤ◌}
use oxide_mq.Broker.SchemaRegistry.{
  SchemaType, SchemaReference, SchemaEntry, Registry, RegistryError, Result, ok, err, Texts, avro,
  key_eq, registered, compatible, is_same, find, SubjectRecord, store, register_schema,
  validate_schema_syntax,
}
use oxide_mq.Broker.SchemaRegistry.Queries.{get_schema_by_id}
use oxide_mq.Broker.SchemaRegistry.Sound.{Filed, IsSound, some_inj, Stored, store_lem}

find_same :
    (t : Texts) (r : Registry) (st : SchemaType) (schema : String) (es : List SchemaEntry)
    (e : SchemaEntry)
    → All (Filed r) es
    → find (is_same t st schema) es ≡ some e
    → Filed r e × (e.schema_type ≡ st) × (t.trim e.schema ≡ t.trim schema)
find_same t r st schema [] e all h = absurd (ground (arith, h))
find_same t r st schema (x ∷ es) e all h = elim (Bool-cases (is_same t st schema x)) [
  | inl e' ↦
      let same = (key_eq.beq_iff (x.schema_type, t.trim x.schema) (st, t.trim schema)).0 e' in
      let is : x ≡ e = some_inj (sym (found_here e') ∙ h) in
      subst
        (λ (y : SchemaEntry). Filed r y × (y.schema_type ≡ st) × (t.trim y.schema ≡ t.trim schema))
        is (all.0, ap (λ p. p.0) same, ap (λ p. p.1) same)
  | inr e' ↦ find_same t r st schema es e all.1 (sym (found_later e') ∙ h)
]
  where
    found_here : is_same t st schema x ≡ true → find (is_same t st schema) (x ∷ es) ≡ some x
    found_here q = rw q refl

    found_later :
        is_same t st schema x ≡ false
        → find (is_same t st schema) (x ∷ es) ≡ find (is_same t st schema) es
    found_later q = rw q refl

Result-cases {ℓ} :
    {A : Type ℓ} (m : Result A) → ((a : A) × (m ≡ ok a)) ⊎ ((e : RegistryError) × (m ≡ err e))
Result-cases (ok a) = inl (a, refl)
Result-cases (err e) = inr (e, refl)

value_or {ℓ} : {A : Type ℓ} → A → Result A → A
value_or a (ok x) = x
value_or a (err e) = a

ok_inj {ℓ} : {A : Type ℓ} {a b : A} → ok a ≡ ok b → a ≡ b
unfolding value_or
ok_inj {a = a} h = ap (value_or a) h

registered-Filed :
    (t : Texts) (r : Registry) (subject schema : String) (st : SchemaType) (e : SchemaEntry)
    → IsSound r
    → registered t r subject schema st ≡ some e
    → Filed r e × (e.schema_type ≡ st) × (t.trim e.schema ≡ t.trim schema)
registered-Filed t r subject schema st e s h = elim (Option-cases (get subject r.subjects)) [
  | inl q ↦ absurd (ground (arith, h, q))
  | inr (rec, q) ↦
      find_same t r st schema rec.versions e (s.filed subject rec q) (sym (at_subject rec q) ∙ h)
]
  where
    at_subject :
        (rec : SubjectRecord)
        → get subject r.subjects ≡ some rec
        → registered t r subject schema st ≡ find (is_same t st schema) rec.versions
    at_subject rec q = rw (q, registered) refl

-- The answer to a registration that succeeds, on a catalog that may have taken it in.
Registers : Texts → SchemaType → String → ℤ → Registry × Result ℤ → Type 0
Registers t st schema id p =
    p.1 ≡ ok id
    → IsSound p.0
      × ((e : SchemaEntry) × (get_schema_by_id p.0 id ≡ some e)
          × (e.schema_type ≡ st)
          × (t.trim e.schema ≡ t.trim schema))

registers :
    (t : Texts) (r : Registry) (subject schema : String) (schema_type : Option SchemaType)
    (references : List SchemaReference) (id : ℤ)
    → ((s : String) → t.trim (t.trim s) ≡ t.trim s)
    → IsSound r
    → pos 0 ≤ℤ r.next_global_id
    → r.next_global_id <ℤ pos (2 ^ 31 - 1)
    → Registers t
        (Option.get_or schema_type avro)
        schema
        id
        (register_schema t r subject schema schema_type references)
unfolding Registers register_schema get_schema_by_id
registers t r subject schema schema_type references id trims s room room' =
    elim (Result-cases (validate_schema_syntax t schema st)) [
      | inr (e, bad) ↦ rw (bad, register_schema) (λ h. absurd (cc h))
      | inl (_, fine) ↦ elim (Option-cases (registered t r subject schema st)) [
        | inr (e, was) ↦
            rw (fine, register_schema)
              (rw (was, register_schema) (λ h. (s, again e was (ok_inj h))))
        | inl never ↦ elim (Result-cases (compatible t r subject schema st)) [
          | inr (e, bad) ↦
              rw (fine, register_schema)
                (rw (never, register_schema) (rw (bad, register_schema) (λ h. absurd (cc h))))
          | inl (_, good) ↦
              rw (fine, register_schema)
                (rw (never, register_schema) (rw (good, register_schema) (λ h. anew (ok_inj h))))
        ]
      ]
    ]
  where
    st : SchemaType
    st = Option.get_or schema_type avro

    again :
        (e : SchemaEntry)
        → registered t r subject schema st ≡ some e
        → e.id ≡ id
        → (e' : SchemaEntry) × (get id r.global_schemas ≡ some e')
          × (e'.schema_type ≡ st)
          × (t.trim e'.schema ≡ t.trim schema)
    again e was is =
        let (filed, ty, text) = registered-Filed t r subject schema st e s was in
        let (e', at, ty', text') = s.found (e.schema_type, e.schema) e.id filed in
        (e', ap (λ i. get i r.global_schemas) (sym is) ∙ at, ty' ∙ ty, ap t.trim text' ∙ text)

    answered : Registry × ℤ
    answered = store t r subject schema st references

    held :
        IsSound answered.0
        × ((e' : SchemaEntry) × (get answered.1 answered.0.global_schemas ≡ some e')
            × (e'.schema_type ≡ st)
            × (e'.schema ≡ t.trim schema))
    held = unfold Stored in store_lem t r s subject schema st references room room'

    anew :
        answered.1 ≡ id
        → IsSound answered.0
          × ((e' : SchemaEntry) × (get id answered.0.global_schemas ≡ some e')
              × (e'.schema_type ≡ st)
              × (t.trim e'.schema ≡ t.trim schema))
    anew is =
        let (sound, (e', at, ty, text)) = held in
        (
          sound,
          (
            e',
            ap (λ i. get i answered.0.global_schemas) (sym is) ∙ at,
            ty,
            ap t.trim text ∙ trims schema,
          ),
        )

-- A registration that succeeds keeps the catalog sound, and the number that it answers finds a
-- schema of the registered type whose text is the registered one up to the spaces around it. There
-- are numbers left, and trimming a text twice is trimming it once.
pub get_schema_by_id-register_schema :
    (t : Texts) (r : Registry) (subject schema : String) (schema_type : Option SchemaType)
    (references : List SchemaReference) (id : ℤ)
    → ((s : String) → t.trim (t.trim s) ≡ t.trim s)
    → IsSound r
    → pos 0 ≤ℤ r.next_global_id
    → r.next_global_id <ℤ pos (2 ^ 31 - 1)
    → (register_schema t r subject schema schema_type references).1 ≡ ok id
    → IsSound (register_schema t r subject schema schema_type references).0
      × ((e : SchemaEntry) × (get_schema_by_id
              (register_schema t r subject schema schema_type references).0
              id
            ≡ some e)
          × (e.schema_type ≡ Option.get_or schema_type avro)
          × (t.trim e.schema ≡ t.trim schema))
unfolding Registers
get_schema_by_id-register_schema t r subject schema schema_type references id trims s room room' =
    registers t r subject schema schema_type references id trims s room room'
