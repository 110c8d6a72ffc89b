-- ===== src/Broker/Acl/Kinds/Permission.antt =====
-- AclPermissionType of crates/oxidemq-protocol/src/messages.rs.
use oxide_mq.Base.{◌≡◌, ◌↔◌, refl, sym, ap, ◌∙◌, Bool, true, if◌then◌else◌}
use oxide_mq.Base.Eq.{Eq, ◌==◌, int_eq}
use oxide_mq.Base.Int.{ℤ, pos, int_beq_iff}

pub data AclPermission : Type 0 where
  unknown any deny allow : AclPermission

-- `as i8`
abbrev pub as_i8 : AclPermission → ℤ
as_i8 unknown = pos 0
as_i8 any = pos 1
as_i8 deny = pos 2
as_i8 allow = pos 3

abbrev pub from_i8 : ℤ → AclPermission
from_i8 n =
    if n == pos 1 then any else if n == pos 2 then deny else if n == pos 3 then allow else unknown

-- Each value is read back from its number.
pub from_i8-as_i8 : (x : AclPermission) → from_i8 (as_i8 x) ≡ x
from_i8-as_i8 unknown = refl
from_i8-as_i8 any = refl
from_i8-as_i8 deny = refl
from_i8-as_i8 allow = refl

abbrev pub permission_beq : AclPermission → AclPermission → Bool
permission_beq a b = as_i8 a == as_i8 b

pub permission_beq_iff : (a b : AclPermission) → (permission_beq a b ≡ true) ↔ (a ≡ b)
permission_beq_iff a b = (
  (λ e.
      sym (from_i8-as_i8 a) ∙ ap from_i8 ((int_beq_iff (as_i8 a) (as_i8 b)).0 e) ∙ from_i8-as_i8 b),
  (λ e. (int_beq_iff (as_i8 a) (as_i8 b)).1 (ap as_i8 e)),
)

instance abbrev pub permission_eq : Eq AclPermission
permission_eq = record { beq = permission_beq; beq_iff = permission_beq_iff }
