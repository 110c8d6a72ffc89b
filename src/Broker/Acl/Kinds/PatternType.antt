-- ===== src/Broker/Acl/Kinds/PatternType.antt =====
-- AclResourcePatternType of crates/oxidemq-protocol/src/messages.rs.
use oxide_mq.Base.{◌≡◌, ◌↔◌, refl, sym, ap, ◌∙◌, Bool, true, if◌then◌else◌}
use oxide_mq.Base.Eq.{Eq, ◌==◌, int_eq}
use oxide_mq.Base.Int.{ℤ, pos, int_beq_iff}

pub data AclPatternType : Type 0 where
  unknown any match_ literal prefixed : AclPatternType

-- `as i8`
abbrev pub as_i8 : AclPatternType → ℤ
as_i8 unknown = pos 0
as_i8 any = pos 1
as_i8 match_ = pos 2
as_i8 literal = pos 3
as_i8 prefixed = pos 4

abbrev pub from_i8 : ℤ → AclPatternType
from_i8 n =
    if n == pos 1
    then any
    else if n == pos 2
    then match_
    else if n == pos 3
    then literal
    else if n == pos 4
    then prefixed
    else unknown

-- Each value is read back from its number.
pub from_i8-as_i8 : (x : AclPatternType) → from_i8 (as_i8 x) ≡ x
from_i8-as_i8 unknown = refl
from_i8-as_i8 any = refl
from_i8-as_i8 match_ = refl
from_i8-as_i8 literal = refl
from_i8-as_i8 prefixed = refl

abbrev pub pattern_type_beq : AclPatternType → AclPatternType → Bool
pattern_type_beq a b = as_i8 a == as_i8 b

pub pattern_type_beq_iff : (a b : AclPatternType) → (pattern_type_beq a b ≡ true) ↔ (a ≡ b)
pattern_type_beq_iff a b = (
  (λ e.
      sym (from_i8-as_i8 a) ∙ ap from_i8 ((int_beq_iff (as_i8 a) (as_i8 b)).0 e) ∙ from_i8-as_i8 b),
  (λ e. (int_beq_iff (as_i8 a) (as_i8 b)).1 (ap as_i8 e)),
)

instance abbrev pub pattern_type_eq : Eq AclPatternType
pattern_type_eq = record { beq = pattern_type_beq; beq_iff = pattern_type_beq_iff }
