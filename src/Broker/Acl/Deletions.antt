-- ===== src/Broker/Acl/Deletions.antt =====
-- Which rules a filter names, and what deletions by filters leave and answer.
use mathlib.Core.List.{Perm, perm_middle}
use mathlib.Core.List.Perm
use mathlib.Core.Path.{subst}
use text.Mathlib.Text.{starts_with}
use Prim.Native.String
use oxide_mq.Base.{
  ◌≡◌, ◌↔◌, ◌≢◌, ◌⊎◌, refl, List, [], ◌∷◌, ◌++◌, append_assoc, Option, none, some, Bool, true,
  false, not, ◌&&◌, ◌||◌, if◌then◌else◌, String, arith, All, Bool-cases, All-append, Option-cases,
  inl, inr, sym, ◌∙◌,
}
use oxide_mq.Base.Eq.{◌==◌, string_eq, int_eq}
use oxide_mq.Base.Int.{ℤ, pos}
use oxide_mq.Broker.Acl.Kinds.ResourceType
use oxide_mq.Broker.Acl.Kinds.Operation
use oxide_mq.Broker.Acl.Kinds.Permission
use oxide_mq.Broker.Acl.{
  AclBinding, AclFilter, has_colon, name_passes, principal_passes, host_passes, passes,
  delete_matching, delete_acls,
}

-- The number 1 asks for any.
abbrev pub NumberMatches : ℤ → ℤ → Type 0
NumberMatches wanted actual = (wanted ≡ pos 1) ⊎ (actual ≡ wanted)

-- The name of the rule is the one asked for, except for the prefixed kind (4); the any (1), match
-- (2) and prefixed kinds also take a rule whose name is a prefix of it, and the any and match kinds
-- the wildcard.
abbrev pub NameMatches : Option String → ℤ → String → Type 0
NameMatches none kind actual = Unit
NameMatches (some name) kind actual =
    ((kind ≢ pos 4) × (actual ≡ name))
    ⊎ ((((kind ≡ pos 1) ⊎ ((kind ≡ pos 2) ⊎ (kind ≡ pos 4))) × (starts_with name actual ≡ true))
        ⊎ (((kind ≡ pos 1) ⊎ (kind ≡ pos 2)) × (actual ≡ "*")))

-- A principal without a kind stands for the user of that name, too.
abbrev pub PrincipalMatches : Option String → String → Type 0
PrincipalMatches none actual = Unit
PrincipalMatches (some wanted) actual =
    (wanted ≡ "*")
    ⊎ ((actual ≡ wanted)
        ⊎ ((has_colon wanted ≡ false) × (actual ≡ Prim.Native.String.◌++◌ "User:" wanted)))

abbrev pub HostMatches : Option String → String → Type 0
HostMatches none actual = Unit
HostMatches (some wanted) actual = (wanted ≡ "*") ⊎ (actual ≡ wanted)

abbrev pub Matches : AclFilter → AclBinding → Type 0
Matches f b =
    NumberMatches f.resource_type_filter (ResourceType.as_i8 b.resource_type)
    × NameMatches f.resource_name_filter f.resource_pattern_type_filter b.resource_name
    × PrincipalMatches f.principal_filter b.principal
    × HostMatches f.host_filter b.host
    × NumberMatches f.operation (Operation.as_i8 b.operation)
    × NumberMatches f.permission_type (Permission.as_i8 b.permission_type)

number_iff :
    (wanted actual : ℤ)
    → (not (not (wanted == pos 1) && not (actual == wanted)) ≡ true) ↔ NumberMatches wanted actual
number_iff wanted actual =
    ground (arith, int_eq.beq_iff wanted (pos 1), int_eq.beq_iff actual wanted)

name_iff :
    (f : AclFilter) (b : AclBinding)
    → (name_passes f b ≡ true)
      ↔ NameMatches f.resource_name_filter f.resource_pattern_type_filter b.resource_name
unfolding name_passes
name_iff f b = elim (Option-cases f.resource_name_filter) [
  | inl e ↦ rw (e, name_passes) ((λ h. tt), (λ h. refl))
  | inr (name, e) ↦
      rw (e, name_passes)
        (kinds f.resource_pattern_type_filter name (starts_with name b.resource_name))
]
  where
    kinds :
        (kind : ℤ) (name : String) (prefix : Bool)
        → ((if (kind == pos 1) || (kind == pos 2)
              then (b.resource_name == name) || prefix || (b.resource_name == "*")
              else if kind == pos 4
              then prefix
              else b.resource_name == name)
            ≡ true)
          ↔ (((kind ≢ pos 4) × (b.resource_name ≡ name))
              ⊎ ((((kind ≡ pos 1) ⊎ ((kind ≡ pos 2) ⊎ (kind ≡ pos 4))) × (prefix ≡ true))
                  ⊎ (((kind ≡ pos 1) ⊎ (kind ≡ pos 2)) × (b.resource_name ≡ "*"))))
    kinds kind name prefix = ground (
      arith,
      int_eq.beq_iff kind (pos 1),
      int_eq.beq_iff kind (pos 2),
      int_eq.beq_iff kind (pos 4),
      string_eq.beq_iff b.resource_name name,
      string_eq.beq_iff b.resource_name "*",
    )

principal_iff :
    (f : AclFilter) (b : AclBinding)
    → (principal_passes f b ≡ true) ↔ PrincipalMatches f.principal_filter b.principal
unfolding principal_passes
principal_iff f b = elim (Option-cases f.principal_filter) [
  | inl e ↦ rw (e, principal_passes) ((λ h. tt), (λ h. refl))
  | inr (wanted, e) ↦
      rw (e, principal_passes)
        (kinds wanted (has_colon wanted) (Prim.Native.String.◌++◌ "User:" wanted))
]
  where
    kinds :
        (wanted : String) (colon : Bool) (user : String)
        → (not (
              not (wanted == "*")
              && not (b.principal == (if not colon && not (wanted == "*") then user else wanted))
              && not (b.principal == wanted))
            ≡ true)
          ↔ ((wanted ≡ "*") ⊎ ((b.principal ≡ wanted) ⊎ ((colon ≡ false) × (b.principal ≡ user))))
    kinds wanted colon user = ground (
      arith,
      string_eq.beq_iff wanted "*",
      string_eq.beq_iff b.principal wanted,
      string_eq.beq_iff b.principal user,
    )

host_iff :
    (f : AclFilter) (b : AclBinding) → (host_passes f b ≡ true) ↔ HostMatches f.host_filter b.host
unfolding host_passes
host_iff f b = elim (Option-cases f.host_filter) [
  | inl e ↦ rw (e, host_passes) ((λ h. tt), (λ h. refl))
  | inr (wanted, e) ↦
      rw (e, host_passes)
        (ground (arith, string_eq.beq_iff wanted "*", string_eq.beq_iff b.host wanted))
]

both_iff :
    {P Q : Type 0} (x y : Bool) → (x ≡ true) ↔ P → (y ≡ true) ↔ Q → ((x && y) ≡ true) ↔ (P × Q)
both_iff true y p q = ((λ h. (p.0 refl, q.0 h)), (λ h. q.1 h.1))
both_iff false y p q = ((λ h. absurd (cc h)), (λ h. p.1 h.0))

-- A rule passes a filter exactly when the filter names it.
pub passes-Matches : (f : AclFilter) (b : AclBinding) → (passes f b ≡ true) ↔ Matches f b
unfolding passes
passes-Matches f b =
    let tests =
      both_iff _ _
        (both_iff _ _
          (both_iff _ _
            (both_iff _ _
              (both_iff _ _ (number_iff f.resource_type_filter (ResourceType.as_i8 b.resource_type))
                (name_iff f b))
              (principal_iff f b))
            (host_iff f b))
          (number_iff f.operation (Operation.as_i8 b.operation)))
        (number_iff f.permission_type (Permission.as_i8 b.permission_type)) in
    (
      (λ h. let (((((a, n), p), o), c), d) = tests.0 h in (a, n, p, o, c, d)),
      (λ (a, n, p, o, c, d). tests.1 (((((a, n), p), o), c), d)),
    )

abbrev pub all_answered : List (List AclBinding) → List AclBinding
all_answered [] = []
all_answered (gone ∷ results) = gone ++ all_answered results

-- The rules answered for a filter are named by it, and those answered for a later one are not.
abbrev pub IsAnswered : List AclFilter → List (List AclBinding) → Type 0
IsAnswered [] [] = Unit
IsAnswered (f ∷ fs) (gone ∷ results) =
    All (Matches f) gone × All (λ b. ¬ Matches f b) (all_answered results) × IsAnswered fs results
IsAnswered [] (gone ∷ results) = ⊥
IsAnswered (f ∷ fs) [] = ⊥

delete_matching-All :
    (P : AclBinding → Type 0) (f : AclFilter) (bs : List AclBinding)
    → All P bs
    → All P (delete_matching f bs).0 × All P (delete_matching f bs).1
unfolding delete_matching
delete_matching-All P f [] h = (tt, tt)
delete_matching-All P f (b ∷ bs) (hb, hs) =
    let (kept, gone) = delete_matching-All P f bs hs in
    elim (Bool-cases (passes f b)) [
      | inl e ↦ rw e (kept, (hb, gone))
      | inr e ↦ rw e ((hb, kept), gone)
    ]

delete_acls-All :
    (P : AclBinding → Type 0) (bs : List AclBinding) (fs : List AclFilter)
    → All P bs
    → All P (delete_acls bs fs).0 × All P (all_answered (delete_acls bs fs).1)
unfolding delete_acls
delete_acls-All P bs [] h = (h, tt)
delete_acls-All P bs (f ∷ fs) h =
    let (kept, gone) = delete_matching-All P f bs h in
    let (left, answered) = delete_acls-All P (delete_matching f bs).0 fs kept in
    (left, All-append P (delete_matching f bs).1 _ gone answered)

delete_matching_lem :
    (f : AclFilter) (bs : List AclBinding)
    → Perm ((delete_matching f bs).1 ++ (delete_matching f bs).0) bs
      × All (λ b. ¬ Matches f b) (delete_matching f bs).0
      × All (Matches f) (delete_matching f bs).1
unfolding delete_matching
delete_matching_lem f [] = (Perm.refl [], tt, tt)
delete_matching_lem f (b ∷ bs) =
    let (same, kept, gone) = delete_matching_lem f bs in
    elim (Bool-cases (passes f b)) [
      | inl e ↦ rw e (Perm.cons b same, kept, ((passes-Matches f b).0 e, gone))
      | inr e ↦ rw e (
        Perm.trans (perm_middle (delete_matching f bs).1 (delete_matching f bs).0)
            (Perm.cons b same),
        ((λ m. differ (sym ((passes-Matches f b).1 m) ∙ e)), kept),
        gone,
      )
    ]
  where
    differ : true ≢ false
    differ e = cc e

-- A deletion neither loses nor doubles a rule: those answered and those left are the rules before,
-- in some order. No rule left is named by a filter; each rule answered for a filter is named by
-- that filter and by none before it.
pub delete_acls_lem :
    (bs : List AclBinding) (fs : List AclFilter)
    → Perm (all_answered (delete_acls bs fs).1 ++ (delete_acls bs fs).0) bs
      × All (λ f. All (λ b. ¬ Matches f b) (delete_acls bs fs).0) fs
      × IsAnswered fs (delete_acls bs fs).1
unfolding delete_acls
delete_acls_lem bs [] = (Perm.refl bs, tt, tt)
delete_acls_lem bs (f ∷ fs) =
    let (same, kept, gone) = delete_matching_lem f bs in
    let (later, unnamed, answered) = delete_acls_lem (delete_matching f bs).0 fs in
    let (left, others) = delete_acls-All (λ b. ¬ Matches f b) (delete_matching f bs).0 fs kept in
    (
      subst (λ l. Perm l bs)
          (sym
            (append_assoc (delete_matching f bs).1 _ (delete_acls (delete_matching f bs).0 fs).0))
          (Perm.trans (Perm.append_left (delete_matching f bs).1 later) same),
      (left, unnamed),
      (gone, others, answered),
    )
