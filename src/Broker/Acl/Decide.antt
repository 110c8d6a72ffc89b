-- ===== src/Broker/Acl/Decide.antt =====
-- What `authorize` answers, without its loop: the order of the rules does not matter.
use oxide_mq.Base.{
  ◌≡◌, List, [], ◌∷◌, Bool, true, false, not, ◌&&◌, ◌||◌, if◌then◌else◌, String, arith,
}
use oxide_mq.Base.Eq.{◌==◌}
use oxide_mq.Broker.Acl.Kinds.{AclResourceType, AclOperation, AclPermission, permission_eq}
use oxide_mq.Broker.Acl.Kinds.Permission
use oxide_mq.Broker.Acl.{
  AclBinding, AclAuthorizer, any, applies, decide_rules, is_super_user, has_rules, authorize,
  normalize_principal,
}

deny_first :
    (applies denies allows matched allowed denied same granted : Bool)
    → same ≡ ((matched || allowed) && not denied)
    → granted ≡ ((true || allowed) && not denied)
    → (if not applies then same else if denies then false else if allows then granted else same)
      ≡ ((matched || ((applies && allows) || allowed)) && not ((applies && denies) || denied))
deny_first applies denies allows matched allowed denied same granted hs hg = ground arith

module _ (principal host : String) (resource_type : AclResourceType) (name : String)
    (operation : AclOperation) where
  -- Some rule with the given permission applies to the request.
  abbrev pub some_rule : AclPermission → List AclBinding → Bool
  some_rule p bs =
      any (λ b. applies b principal host resource_type name operation && (b.permission_type == p))
        bs

  decide_rules-some_rule :
      (matched : Bool) (bs : List AclBinding)
      → decide_rules principal host resource_type name operation matched bs
        ≡ ((matched || some_rule Permission.allow bs) && not (some_rule Permission.deny bs))
  unfolding decide_rules
  decide_rules-some_rule matched [] = ground arith
  decide_rules-some_rule matched (b ∷ bs) =
      deny_first (applies b principal host resource_type name operation)
        (b.permission_type == Permission.deny) (b.permission_type == Permission.allow) matched
        (some_rule Permission.allow bs) (some_rule Permission.deny bs)
        (decide_rules principal host resource_type name operation matched bs)
        (decide_rules principal host resource_type name operation true bs)
        (decide_rules-some_rule matched bs) (decide_rules-some_rule true bs)

-- The answer to a request: everything is allowed when the checks are off or the user is a super
-- user; a resource that no rule names gets the configured default; otherwise an allowing rule must
-- apply and no denying rule may.
pub authorize_lem :
    (a : AclAuthorizer) (principal host : String) (resource_type : AclResourceType) (name : String)
    (operation : AclOperation)
    → authorize a principal host resource_type name operation ≡ (
        not a.enabled
        || is_super_user a principal
        || (if has_rules a resource_type name
            then some_rule
                (normalize_principal principal)
                host
                resource_type
                name
                operation
                Permission.allow
                a.bindings
              && not (
                  some_rule
                    (normalize_principal principal)
                    host
                    resource_type
                    name
                    operation
                    Permission.deny
                    a.bindings)
            else a.allow_everyone_if_no_acl_found))
unfolding authorize
authorize_lem a principal host resource_type name operation = ground (
  arith,
  decide_rules-some_rule (normalize_principal principal) host resource_type name operation false
      a.bindings,
)
