-- ===== src/Broker/Acl/Rules.antt =====
-- The set of rules under creations.
use oxide_mq.Base.{
  ◌≡◌, ◌↔◌, ◌≢◌, ◌⊎◌, refl, sym, ap, ◌∙◌, List, [], ◌∷◌, ◌++◌, Bool, true, false, not, ◌&&◌, ◌||◌,
  arith, Bool-cases, inl, inr,
}
use oxide_mq.Base.Eq.{◌==◌, string_eq}
use oxide_mq.Broker.Acl.Kinds.{resource_type_eq, pattern_type_eq, operation_eq, permission_eq}
use oxide_mq.Broker.Acl.{
  AclBinding, AclCreation, contains, binding_beq, is_invalid, binding_of, create_acl, create_acls,
}

all_seven :
    (a b c d e f g : Bool)
    → ((a && b && c && d && e && f && g) ≡ true)
      ↔ ((a ≡ true) × (b ≡ true) × (c ≡ true) × (d ≡ true) × (e ≡ true) × (f ≡ true) × (g ≡ true))
all_seven true true true true true true true =
    ((λ e. (refl, refl, refl, refl, refl, refl, refl)), (λ e. refl))
all_seven a b c d e f g = ((λ h. ground (arith, h)), (λ h. ground (arith, h)))

binding_beq_iff : (a b : AclBinding) → (binding_beq a b ≡ true) ↔ (a ≡ b)
binding_beq_iff a b = (to, from)
  where
    Tests : Type 0
    Tests =
        ((a.resource_type == b.resource_type) ≡ true)
        × ((a.resource_name == b.resource_name) ≡ true)
        × ((a.pattern_type == b.pattern_type) ≡ true)
        × ((a.principal == b.principal) ≡ true)
        × ((a.host == b.host) ≡ true)
        × ((a.operation == b.operation) ≡ true)
        × ((a.permission_type == b.permission_type) ≡ true)

    tests : (binding_beq a b ≡ true) ↔ Tests
    tests =
        all_seven (a.resource_type == b.resource_type) (a.resource_name == b.resource_name)
          (a.pattern_type == b.pattern_type) (a.principal == b.principal) (a.host == b.host)
          (a.operation == b.operation) (a.permission_type == b.permission_type)

    to : binding_beq a b ≡ true → a ≡ b
    to e =
        let h = tests.0 e in
        λ i. record {
          resource_type = (resource_type_eq.beq_iff a.resource_type b.resource_type).0 h.0 i;
          resource_name = (string_eq.beq_iff a.resource_name b.resource_name).0 h.1 i;
          pattern_type = (pattern_type_eq.beq_iff a.pattern_type b.pattern_type).0 h.2 i;
          principal = (string_eq.beq_iff a.principal b.principal).0 h.3 i;
          host = (string_eq.beq_iff a.host b.host).0 h.4 i;
          operation = (operation_eq.beq_iff a.operation b.operation).0 h.5 i;
          permission_type = (permission_eq.beq_iff a.permission_type b.permission_type).0 h.6 i;
        }

    from : a ≡ b → binding_beq a b ≡ true
    from e = tests.1 (
      ((resource_type_eq.beq_iff a.resource_type b.resource_type).1 (ap (λ x. x.resource_type) e)),
      ((string_eq.beq_iff a.resource_name b.resource_name).1 (ap (λ x. x.resource_name) e)),
      ((pattern_type_eq.beq_iff a.pattern_type b.pattern_type).1 (ap (λ x. x.pattern_type) e)),
      ((string_eq.beq_iff a.principal b.principal).1 (ap (λ x. x.principal) e)),
      ((string_eq.beq_iff a.host b.host).1 (ap (λ x. x.host) e)),
      ((operation_eq.beq_iff a.operation b.operation).1 (ap (λ x. x.operation) e)),
      ((permission_eq.beq_iff a.permission_type b.permission_type).1
          (ap (λ x. x.permission_type) e)),
    )

other_way : (a b : AclBinding) → binding_beq a b ≡ false → binding_beq b a ≡ false
other_way a b h = elim (Bool-cases (binding_beq b a)) [
  | inr e ↦ e
  | inl e ↦ absurd (differ (sym h ∙ (binding_beq_iff a b).1 (sym ((binding_beq_iff b a).0 e))))
]
  where
    differ : false ≢ true
    differ e = cc e

neither : (a b : Bool) → (a || b) ≡ false → (a ≡ false) × (b ≡ false)
neither a b h = ground (arith, h)

-- No rule stands twice in the list.
abbrev pub NoDup : List AclBinding → Type 0
NoDup [] = Unit
NoDup (b ∷ bs) = (contains binding_beq bs b ≡ false) × NoDup bs

contains-append :
    (bs : List AclBinding) (a b : AclBinding)
    → contains binding_beq (bs ++ (a ∷ [])) b ≡ (contains binding_beq bs b || binding_beq a b)
contains-append [] a b = swap (binding_beq a b)
  where
    swap : (x : Bool) → (x || false) ≡ (false || x)
    swap x = ground arith
contains-append (x ∷ bs) a b =
    ap (λ r. binding_beq x b || r) (contains-append bs a b)
    ∙ assoc (binding_beq x b) (contains binding_beq bs b) (binding_beq a b)
  where
    assoc : (x y z : Bool) → (x || (y || z)) ≡ ((x || y) || z)
    assoc x y z = ground arith

append-NoDup :
    (bs : List AclBinding) (a : AclBinding)
    → NoDup bs
    → contains binding_beq bs a ≡ false
    → NoDup (bs ++ (a ∷ []))
append-NoDup [] a d h = (refl, tt)
append-NoDup (x ∷ bs) a d h =
    let (differs, out) = neither (binding_beq x a) (contains binding_beq bs a) h in
    (contains-append bs a x ∙ rw (d.0) (other_way x a differs), append-NoDup bs a d.1 out)

create_acl-NoDup : (bs : List AclBinding) (c : AclCreation) → NoDup bs → NoDup (create_acl bs c).0
unfolding create_acl
create_acl-NoDup bs c d = elim (Bool-cases (is_invalid c)) [
  | inl bad ↦ rw (bad, create_acl) d
  | inr good ↦
      rw (good, create_acl)
        (elim (Bool-cases (contains binding_beq bs (binding_of c))) [
          | inl old ↦ rw old d
          | inr new ↦ rw new (append-NoDup bs (binding_of c) d new)
        ])
]

create_acls-NoDup :
    (bs : List AclBinding) (cs : List AclCreation) → NoDup bs → NoDup (create_acls bs cs).0
unfolding create_acls
create_acls-NoDup bs [] d = d
create_acls-NoDup bs (c ∷ cs) d = create_acls-NoDup (create_acl bs c).0 cs (create_acl-NoDup bs c d)

-- The rule is asked for by one of the valid creations.
abbrev pub asked : List AclCreation → AclBinding → Bool
asked [] b = false
asked (c ∷ cs) b = (not (is_invalid c) && binding_beq (binding_of c) b) || asked cs b

contains-create_acl :
    (bs : List AclBinding) (c : AclCreation) (b : AclBinding)
    → contains binding_beq (create_acl bs c).0 b
      ≡ (contains binding_beq bs b || (not (is_invalid c) && binding_beq (binding_of c) b))
unfolding create_acl
contains-create_acl bs c b = elim (Bool-cases (is_invalid c)) [
  | inl bad ↦ rw (bad, create_acl) (added (contains binding_beq bs b) false false refl)
  | inr good ↦
      rw (good, create_acl)
        (elim (Bool-cases (contains binding_beq bs (binding_of c))) [
          | inr new ↦ rw new (contains-append bs (binding_of c) b)
          | inl old ↦ rw old (there (Bool-cases (binding_beq (binding_of c) b)) old)
        ])
]
  where
    added : (x y z : Bool) → y ≡ false → x ≡ (x || y)
    added x y z h = ground (arith, h)

    there :
        (binding_beq (binding_of c) b ≡ true) ⊎ (binding_beq (binding_of c) b ≡ false)
        → contains binding_beq bs (binding_of c) ≡ true
        → contains binding_beq bs b ≡ (contains binding_beq bs b || binding_beq (binding_of c) b)
    there (inl e) old =
        rw (ap (contains binding_beq bs) (sym ((binding_beq_iff (binding_of c) b).0 e)) ∙ old) refl
    there (inr e) old = rw e (added (contains binding_beq bs b) false false refl)

contains-create_acls :
    (bs : List AclBinding) (cs : List AclCreation) (b : AclBinding)
    → contains binding_beq (create_acls bs cs).0 b ≡ (contains binding_beq bs b || asked cs b)
unfolding create_acls
contains-create_acls bs [] b = none_more (contains binding_beq bs b)
  where
    none_more : (x : Bool) → x ≡ (x || false)
    none_more x = ground arith
contains-create_acls bs (c ∷ cs) b =
    contains-create_acls (create_acl bs c).0 cs b
    ∙ ap (λ x. x || asked cs b) (contains-create_acl bs c b)
    ∙ or_assoc (contains binding_beq bs b) (not (is_invalid c) && binding_beq (binding_of c) b)
        (asked cs b)
  where
    or_assoc : (x y z : Bool) → ((x || y) || z) ≡ (x || (y || z))
    or_assoc x y z = ground arith

-- Creations keep the rules without repetition, and the rules after them are those before and the
-- ones that the valid creations ask for.
pub create_acls_lem :
    (bs : List AclBinding) (cs : List AclCreation)
    → NoDup bs
    → NoDup (create_acls bs cs).0
      × ((b : AclBinding)
          → contains binding_beq (create_acls bs cs).0 b
            ≡ (contains binding_beq bs b || asked cs b))
create_acls_lem bs cs d = (create_acls-NoDup bs cs d, contains-create_acls bs cs)
