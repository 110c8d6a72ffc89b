-- ===== src/Broker/Acl.antt =====
-- crates/oxidemq-broker/src/acl.rs: the access rules. Log lines are left out.
pub mod Kinds
pub mod Decide
pub mod Rules
pub mod Deletions
use mathlib.Core.Option
use oxide_mq.Base.{
  ℕ, List, [], ◌∷◌, ◌++◌, map, filter, Option, none, some, Bool, true, false, not, ◌&&◌, ◌||◌,
  if◌then◌else◌, String,
}
use Prim.Native.String
use text.Mathlib.Text.{find?, starts_with}
use oxide_mq.Base.Eq.{◌==◌, nat_eq, string_eq, int_eq}
use oxide_mq.Base.Int.{ℤ, pos}
use oxide_mq.Broker.Codes.{KafkaErrorCode, no_error, invalid_request}
use oxide_mq.Broker.Acl.Kinds.{
  AclResourceType, AclPatternType, AclOperation, AclPermission, resource_type_eq, pattern_type_eq,
  operation_eq, permission_eq,
}
use oxide_mq.Broker.Acl.Kinds.ResourceType
use oxide_mq.Broker.Acl.Kinds.PatternType
use oxide_mq.Broker.Acl.Kinds.Operation
use oxide_mq.Broker.Acl.Kinds.Permission

pub record AclBinding : Type 0 where
  pub resource_type : AclResourceType
  pub resource_name : String
  pub pattern_type : AclPatternType
  pub principal : String
  pub host : String
  pub operation : AclOperation
  pub permission_type : AclPermission

pub record AclAuthorizer : Type 0 where
  pub enabled : Bool
  pub super_users : List String
  pub allow_everyone_if_no_acl_found : Bool
  pub bindings : List AclBinding

abbrev pub contains {ℓ} : {A : Type ℓ} → (A → A → Bool) → List A → A → Bool
contains beq [] a = false
contains beq (x ∷ xs) a = beq x a || contains beq xs a

abbrev pub any {ℓ} : {A : Type ℓ} → (A → Bool) → List A → Bool
any p [] = false
any p (x ∷ xs) = p x || any p xs

-- `s.contains(':')`
abbrev pub has_colon : String → Bool
has_colon s = elim (find? s ":") [ none ↦ false | some _ ↦ true ]

abbrev pub normalize_principal : String → String
normalize_principal p = if not (has_colon p) then Prim.Native.String.◌++◌ "User:" p else p

-- A `HashSet` of users is a list of them.
unfoldable pub new : Bool → List String → Bool → AclAuthorizer
new enabled super_users allow_everyone = record {
  enabled = enabled;
  super_users = map normalize_principal super_users;
  allow_everyone_if_no_acl_found = allow_everyone;
  bindings = [];
}

abbrev literal_match : AclBinding → String → Bool
literal_match b name = (b.resource_name == name) || (b.resource_name == "*")

unfoldable pub resource_matches : AclBinding → String → Bool
resource_matches b name =
    if b.pattern_type == PatternType.prefixed
    then starts_with name b.resource_name
    else literal_match b name

-- The tests that a rule passes before its permission is looked at.
unfoldable pub applies :
    AclBinding → String → String → AclResourceType → String → AclOperation → Bool
unfolding resource_matches
applies b norm_principal host resource_type resource_name operation =
    (b.resource_type == resource_type)
    && resource_matches b resource_name
    && ((b.principal == norm_principal) || (b.principal == "User:*") || (b.principal == "*"))
    && ((b.host == host) || (b.host == "*"))
    && ((b.operation == operation) || (b.operation == Operation.all))

-- The loop over the rules, which a deny ends.
unfoldable pub decide_rules :
    String → String → AclResourceType → String → AclOperation → Bool → List AclBinding → Bool
unfolding applies
decide_rules principal host resource_type name operation matched_allows [] = matched_allows
decide_rules principal host resource_type name operation matched_allows (b ∷ bs) =
    let same = decide_rules principal host resource_type name operation matched_allows bs in
    let allowed = decide_rules principal host resource_type name operation true bs in
    if not (applies b principal host resource_type name operation)
    then same
    else if b.permission_type == Permission.deny
    then false
    else if b.permission_type == Permission.allow
    then allowed
    else same

unfoldable pub is_super_user : AclAuthorizer → String → Bool
is_super_user a principal =
    contains (λ x y. x == y) a.super_users (normalize_principal principal)
    || contains (λ x y. x == y) a.super_users principal

unfoldable pub has_rules : AclAuthorizer → AclResourceType → String → Bool
unfolding resource_matches
has_rules a resource_type name =
    any (λ b. (b.resource_type == resource_type) && resource_matches b name) a.bindings

unfoldable pub authorize :
    AclAuthorizer → String → String → AclResourceType → String → AclOperation → Bool
unfolding is_super_user has_rules decide_rules
authorize a principal host resource_type name operation =
    if not a.enabled
    then true
    else if is_super_user a principal
    then true
    else if not (has_rules a resource_type name)
    then a.allow_everyone_if_no_acl_found
    else decide_rules (normalize_principal principal) host resource_type name operation false
        a.bindings

pub record AclCreation : Type 0 where
  pub resource_type : ℤ
  pub resource_name : String
  pub resource_pattern_type : ℤ
  pub principal : String
  pub host : String
  pub operation : ℤ
  pub permission_type : ℤ

abbrev pub binding_beq : AclBinding → AclBinding → Bool
binding_beq a b =
    (a.resource_type == b.resource_type)
    && (a.resource_name == b.resource_name)
    && (a.pattern_type == b.pattern_type)
    && (a.principal == b.principal)
    && (a.host == b.host)
    && (a.operation == b.operation)
    && (a.permission_type == b.permission_type)

-- A creation is invalid when one of its four numbers names nothing.
unfoldable pub is_invalid : AclCreation → Bool
is_invalid c =
    (ResourceType.from_i8 c.resource_type == ResourceType.unknown)
    || (PatternType.from_i8 c.resource_pattern_type == PatternType.unknown)
    || (Operation.from_i8 c.operation == Operation.unknown)
    || (Permission.from_i8 c.permission_type == Permission.unknown)

unfoldable pub binding_of : AclCreation → AclBinding
binding_of c = record {
  resource_type = ResourceType.from_i8 c.resource_type;
  resource_name = c.resource_name;
  pattern_type = PatternType.from_i8 c.resource_pattern_type;
  principal = normalize_principal c.principal;
  host = if c.host == "" then "*" else c.host;
  operation = Operation.from_i8 c.operation;
  permission_type = Permission.from_i8 c.permission_type;
}

-- One creation on the rules; the text of the error is left out of the answer.
unfoldable pub create_acl : List AclBinding → AclCreation → List AclBinding × KafkaErrorCode
unfolding is_invalid binding_of
create_acl bindings c =
    if is_invalid c
    then (bindings, invalid_request)
    else if not (contains binding_beq bindings (binding_of c))
    then (bindings ++ (binding_of c ∷ []), no_error)
    else (bindings, no_error)

unfoldable pub create_acls :
    List AclBinding → List AclCreation → List AclBinding × List KafkaErrorCode
unfolding create_acl
create_acls bindings [] = (bindings, [])
create_acls bindings (c ∷ cs) =
    let (bindings', code) = create_acl bindings c in
    let (bindings'', codes) = create_acls bindings' cs in (bindings'', code ∷ codes)

-- DescribeAclsRequest and DeleteAclsFilter, which have the same fields.
pub record AclFilter : Type 0 where
  pub resource_type_filter : ℤ
  pub resource_name_filter : Option String
  pub resource_pattern_type_filter : ℤ
  pub principal_filter : Option String
  pub host_filter : Option String
  pub operation : ℤ
  pub permission_type : ℤ

unfoldable pub name_passes : AclFilter → AclBinding → Bool
name_passes f b = elim f.resource_name_filter [
  | none ↦ true
  | some name ↦
      let kind = f.resource_pattern_type_filter in
      if (kind == pos 1) || (kind == pos 2)
      then (b.resource_name == name) || starts_with name b.resource_name || (b.resource_name == "*")
      else if kind == pos 4
      then starts_with name b.resource_name
      else b.resource_name == name
]

unfoldable pub principal_passes : AclFilter → AclBinding → Bool
principal_passes f b = elim f.principal_filter [
  | none ↦ true
  | some wanted ↦
      let norm =
        if not (has_colon wanted) && not (wanted == "*")
        then Prim.Native.String.◌++◌ "User:" wanted
        else wanted in
      not (not (wanted == "*") && not (b.principal == norm) && not (b.principal == wanted))
]

unfoldable pub host_passes : AclFilter → AclBinding → Bool
host_passes f b = elim f.host_filter [
  | none ↦ true
  | some wanted ↦ not (not (wanted == "*") && not (b.host == wanted))
]

abbrev pub number_passes : ℤ → ℤ → Bool
number_passes wanted actual = not (not (wanted == pos 1) && not (actual == wanted))

unfoldable pub passes : AclFilter → AclBinding → Bool
unfolding name_passes principal_passes host_passes
passes f b =
    number_passes f.resource_type_filter (ResourceType.as_i8 b.resource_type)
    && name_passes f b
    && principal_passes f b
    && host_passes f b
    && number_passes f.operation (Operation.as_i8 b.operation)
    && number_passes f.permission_type (Permission.as_i8 b.permission_type)

-- The rules that `describe_acls` answers with; their grouping by resource is left out.
unfoldable pub describe_acls : List AclBinding → AclFilter → List AclBinding
unfolding passes
describe_acls bindings f = filter (passes f) bindings

-- The `retain` of one filter, with the rules that it removes.
unfoldable pub delete_matching : AclFilter → List AclBinding → List AclBinding × List AclBinding
unfolding passes
delete_matching f [] = ([], [])
delete_matching f (b ∷ bs) =
    let (kept, gone) = delete_matching f bs in
    if passes f b then (kept, b ∷ gone) else (b ∷ kept, gone)

unfoldable pub delete_acls :
    List AclBinding → List AclFilter → List AclBinding × List (List AclBinding)
unfolding delete_matching
delete_acls bindings [] = (bindings, [])
delete_acls bindings (f ∷ fs) =
    let (kept, gone) = delete_matching f bindings in
    let (left, results) = delete_acls kept fs in (left, gone ∷ results)
