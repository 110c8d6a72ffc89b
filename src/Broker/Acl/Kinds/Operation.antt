-- ===== src/Broker/Acl/Kinds/Operation.antt =====
-- AclOperation of crates/oxidemq-protocol/src/messages.rs.
use oxide_mq.Base.{◌≡◌, ◌↔◌, refl, sym, ap, ◌∙◌, Bool, true, if◌then◌else◌}
use oxide_mq.Base.Eq.{Eq, ◌==◌, int_eq}
use oxide_mq.Base.Int.{ℤ, pos, int_beq_iff}

pub data AclOperation : Type 0 where
  unknown any all read write create : AclOperation
  delete alter describe cluster_action describe_configs alter_configs : AclOperation
  idempotent_write : AclOperation

-- `as i8`
abbrev pub as_i8 : AclOperation → ℤ
as_i8 unknown = pos 0
as_i8 any = pos 1
as_i8 all = pos 2
as_i8 read = pos 3
as_i8 write = pos 4
as_i8 create = pos 5
as_i8 delete = pos 6
as_i8 alter = pos 7
as_i8 describe = pos 8
as_i8 cluster_action = pos 9
as_i8 describe_configs = pos 10
as_i8 alter_configs = pos 11
as_i8 idempotent_write = pos 12

abbrev pub from_i8 : ℤ → AclOperation
from_i8 n =
    if n == pos 1
    then any
    else if n == pos 2
    then all
    else if n == pos 3
    then read
    else if n == pos 4
    then write
    else if n == pos 5
    then create
    else if n == pos 6
    then delete
    else if n == pos 7
    then alter
    else if n == pos 8
    then describe
    else if n == pos 9
    then cluster_action
    else if n == pos 10
    then describe_configs
    else if n == pos 11
    then alter_configs
    else if n == pos 12
    then idempotent_write
    else unknown

-- Each value is read back from its number.
pub from_i8-as_i8 : (x : AclOperation) → from_i8 (as_i8 x) ≡ x
from_i8-as_i8 unknown = refl
from_i8-as_i8 any = refl
from_i8-as_i8 all = refl
from_i8-as_i8 read = refl
from_i8-as_i8 write = refl
from_i8-as_i8 create = refl
from_i8-as_i8 delete = refl
from_i8-as_i8 alter = refl
from_i8-as_i8 describe = refl
from_i8-as_i8 cluster_action = refl
from_i8-as_i8 describe_configs = refl
from_i8-as_i8 alter_configs = refl
from_i8-as_i8 idempotent_write = refl

abbrev pub operation_beq : AclOperation → AclOperation → Bool
operation_beq a b = as_i8 a == as_i8 b

pub operation_beq_iff : (a b : AclOperation) → (operation_beq a b ≡ true) ↔ (a ≡ b)
operation_beq_iff a b = (
  (λ e.
      sym (from_i8-as_i8 a) ∙ ap from_i8 ((int_beq_iff (as_i8 a) (as_i8 b)).0 e) ∙ from_i8-as_i8 b),
  (λ e. (int_beq_iff (as_i8 a) (as_i8 b)).1 (ap as_i8 e)),
)

instance abbrev pub operation_eq : Eq AclOperation
operation_eq = record { beq = operation_beq; beq_iff = operation_beq_iff }
