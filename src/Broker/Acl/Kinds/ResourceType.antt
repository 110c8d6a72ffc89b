-- ===== src/Broker/Acl/Kinds/ResourceType.antt =====
-- AclResourceType of crates/oxidemq-protocol/src/messages.rs.
use oxide_mq.Base.{◌≡◌, ◌↔◌, refl, sym, ap, ◌∙◌, Bool, true, if◌then◌else◌}
use oxide_mq.Base.Eq.{Eq, ◌==◌, int_eq}
use oxide_mq.Base.Int.{ℤ, pos, int_beq_iff}

pub data AclResourceType : Type 0 where
  unknown any topic group cluster transactional_id : AclResourceType
  delegation_token user : AclResourceType

-- `as i8`
abbrev pub as_i8 : AclResourceType → ℤ
as_i8 unknown = pos 0
as_i8 any = pos 1
as_i8 topic = pos 2
as_i8 group = pos 3
as_i8 cluster = pos 4
as_i8 transactional_id = pos 5
as_i8 delegation_token = pos 6
as_i8 user = pos 7

abbrev pub from_i8 : ℤ → AclResourceType
from_i8 n =
    if n == pos 1
    then any
    else if n == pos 2
    then topic
    else if n == pos 3
    then group
    else if n == pos 4
    then cluster
    else if n == pos 5
    then transactional_id
    else if n == pos 6
    then delegation_token
    else if n == pos 7
    then user
    else unknown

-- Each value is read back from its number.
pub from_i8-as_i8 : (x : AclResourceType) → from_i8 (as_i8 x) ≡ x
from_i8-as_i8 unknown = refl
from_i8-as_i8 any = refl
from_i8-as_i8 topic = refl
from_i8-as_i8 group = refl
from_i8-as_i8 cluster = refl
from_i8-as_i8 transactional_id = refl
from_i8-as_i8 delegation_token = refl
from_i8-as_i8 user = refl

abbrev pub resource_type_beq : AclResourceType → AclResourceType → Bool
resource_type_beq a b = as_i8 a == as_i8 b

pub resource_type_beq_iff : (a b : AclResourceType) → (resource_type_beq a b ≡ true) ↔ (a ≡ b)
resource_type_beq_iff a b = (
  (λ e.
      sym (from_i8-as_i8 a) ∙ ap from_i8 ((int_beq_iff (as_i8 a) (as_i8 b)).0 e) ∙ from_i8-as_i8 b),
  (λ e. (int_beq_iff (as_i8 a) (as_i8 b)).1 (ap as_i8 e)),
)

instance abbrev pub resource_type_eq : Eq AclResourceType
resource_type_eq = record { beq = resource_type_beq; beq_iff = resource_type_beq_iff }
