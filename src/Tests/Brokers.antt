-- ===== src/Tests/Brokers.antt =====
-- The broker's coordinators, access rules and schema catalog at concrete inputs.
use oxide_mq.Base.{
  ℕ, ◌≡◌, refl, [], ◌∷◌, none, some, true, not, ◌&&◌, ◌||◌, ◌⊎◌, if◌then◌else◌, String, arith,
}
use oxide_mq.Base.Eq.{◌==◌, string_eq, int_eq}
use oxide_mq.Base.Int.{ℤ, pos, ◌≤ℤ◌, ◌<ℤ◌}
use oxide_mq.Base.Assoc.{get, insert}
use oxide_mq.Broker.Codes.{
  no_error, non_empty_group, illegal_generation, invalid_group_id, unknown_member_id,
  producer_fenced, TopicPartition, tp_eq,
}
use oxide_mq.Broker.Coordinator.{
  GroupCoordinator, new, handle_join_group, handle_leave_group, handle_heartbeat, commit_offset,
  fetch_offset, delete_groups, leave, is_closed, is_empty, ConsumerGroup, new_group, join,
}
use mathlib.Core.List.{Perm}
use oxide_mq.Base.{All, ◌++◌, ◌≢◌, false}
use oxide_mq.Broker.Coordinator.Members.{start, after, join_step, IsSound, reachable-IsSound}
use oxide_mq.Broker.Coordinator.Requests.{
  fetch_offset-commit_offset, heartbeat-join, heartbeat-leave,
}
use oxide_mq.Broker.Coordinator.Deletions.{asked, delete_groups_lem}
use oxide_mq.Broker.Transaction as Tx
use oxide_mq.Broker.Transaction.Fencing.{fencing_lem, end_txn-end_txn}
use oxide_mq.Broker.Transaction.Producers as Producers
use oxide_mq.Broker.Transaction.Producers.{init_producer_id_lem}
use oxide_mq.Broker.Acl as Acl
use oxide_mq.Broker.Acl.{AclBinding, AclAuthorizer, AclCreation, AclFilter}
use oxide_mq.Broker.Acl.Kinds.ResourceType
use oxide_mq.Broker.Acl.Kinds.PatternType
use oxide_mq.Broker.Acl.Kinds.Operation
use oxide_mq.Broker.Acl.Kinds.Permission
use oxide_mq.Broker.Acl.Decide.{some_rule, authorize_lem}
use oxide_mq.Broker.Acl.Rules as Rules
use oxide_mq.Broker.Acl.Rules.{create_acls_lem}
use oxide_mq.Broker.Acl.Deletions.{Matches, all_answered, IsAnswered, delete_acls_lem}
use oxide_mq.Broker.SchemaRegistry as Registry_
use oxide_mq.Broker.SchemaRegistry.Queries.{get_schema_by_id}
use oxide_mq.Broker.SchemaRegistry.Sound as Ids
use oxide_mq.Broker.SchemaRegistry.Ids.{get_schema_by_id-register_schema}

abbrev format_id : String → ℤ → String
format_id client n = client

abbrev joined : GroupCoordinator
joined = (handle_join_group format_id new "g" "m" "client" "consumer").0

reachable-IsSound_example : IsSound joined
reachable-IsSound_example =
    reachable-IsSound format_id joined
      (after new joined start (join_step new "g" "m" "client" "consumer"))

abbrev orders : TopicPartition
orders = record { topic = "orders"; partition = pos 0 }

abbrev group_name : String
group_name = "g"

fetch_offset-commit_offset_example :
    fetch_offset (commit_offset new "g" orders (pos 150)) "g" orders ≡ (
      if (group_name == group_name) && (orders == orders)
      then some (pos 150)
      else fetch_offset new "g" orders)
fetch_offset-commit_offset_example = fetch_offset-commit_offset new "g" "g" orders orders (pos 150)

heartbeat-join_example :
    let (c', code, gen, actual, leader) =
      handle_join_group format_id new "g" "m" "client" "consumer" in
    handle_heartbeat c' "g" (pos 1) actual ≡ (if gen == pos 1 then no_error else illegal_generation)
heartbeat-join_example = heartbeat-join format_id new "g" "m" "client" "consumer" (pos 1)

heartbeat-leave_example :
    handle_heartbeat (handle_leave_group joined "g" "m").0 "g" (pos 1) "m"
    ≡ elim (get "g" joined.groups) [
      | none ↦ invalid_group_id
      | some g ↦
          if not ((leave g "m").generation_id == pos 1)
          then illegal_generation
          else unknown_member_id
    ]
heartbeat-leave_example = heartbeat-leave joined "g" "m" (pos 1)

abbrev one_member : ConsumerGroup
one_member = join (new_group "g") "m" "client" "consumer"

joined_found : get "g" joined.groups ≡ some one_member
unfolding handle_join_group get join insert
joined_found = refl

has_member : is_empty one_member.members ≡ true → is_closed one_member.state ≡ true
unfolding join insert
has_member h = absurd (differ h)
  where
    differ : false ≢ true
    differ e = cc e

delete_groups_lem_example :
    (get "g" (delete_groups joined ("g" ∷ [])).0.groups
      ≡ (if asked ("g" ∷ []) "g" && is_closed one_member.state then none else some one_member))
    × (get "g" (delete_groups joined ("g" ∷ [])).1 ≡ (
        if asked ("g" ∷ []) "g"
        then some (if is_closed one_member.state then no_error else non_empty_group)
        else none))
delete_groups_lem_example =
    delete_groups_lem joined ("g" ∷ []) "g" one_member joined_found has_member

abbrev meta : Tx.TransactionMetadata
meta = record {
  transactional_id = "tx";
  producer_id = pos 1000;
  producer_epoch = pos 0;
  txn_timeout_ms = pos 60000;
  state = Tx.ongoing;
  partitions = orders ∷ [];
}

abbrev coordinator : Tx.TransactionCoordinator
coordinator = record { transactions = ("tx", meta) ∷ []; next_producer_id = pos 1001 }

tx_known : get "tx" coordinator.transactions ≡ some meta
unfolding get
tx_known = refl

-- A cluster that counts the markers and refuses the append of every one.
abbrev broken : Tx.Cluster ℕ
broken = record {
  append_control = λ n tp pid epoch committed. (n, none);
  complete_txn = λ n tp pid. n;
  record_aborted_txn = λ n tp pid offset. n;
}

fencing_lem_example :
    let c' = (Tx.init_producer_id coordinator (some "tx") (pos 0)).0 in
    (Tx.add_partitions_to_txn c' "tx" (pos 1000) (pos 0) (orders ∷ [])
      ≡ (c', Tx.err producer_fenced))
    × (Tx.add_offsets_to_txn c' "tx" (pos 1000) (pos 0) "g" ≡ Tx.err producer_fenced)
    × (Tx.end_txn broken c' 0 "tx" (pos 1000) (pos 0) true ≡ (c', 0, Tx.err producer_fenced))
fencing_lem_example =
    fencing_lem broken 0 coordinator "tx" meta (pos 0) (pos 0) (orders ∷ []) "g" true tx_known
      (omega arith) (omega arith) (omega arith)

heard : Tx.refusal meta (pos 1000) (pos 0) ≡ none
unfolding Tx.refusal
heard = refl

end_txn-end_txn_example :
    let c' = (Tx.end_txn broken coordinator 0 "tx" (pos 1000) (pos 0) true).0 in
    ((Tx.end_txn broken c' 3 "tx" (pos 1000) (pos 0) true).1 ≡ 3)
    × ((Tx.end_txn broken c' 3 "tx" (pos 1000) (pos 0) true).2 ≡ Tx.ok tt)
end_txn-end_txn_example =
    end_txn-end_txn broken coordinator 0 3 "tx" meta (pos 1000) (pos 0) true true tx_known heard

new-IsSound : Producers.IsSound Tx.new
unfolding get
new-IsSound = record {
  below = λ tx m h. absurd (cc h);
  apart = λ tx tx' m m' h h' e. absurd (cc h);
}

init_producer_id_lem_example :
    Producers.IsSound (Tx.init_producer_id Tx.new (some "tx") (pos 0)).0
    × (pos 1000 ≤ℤ (Tx.init_producer_id Tx.new (some "tx") (pos 0)).0.next_producer_id)
    × ((pid : ℤ) × (epoch : ℤ) × ((Tx.init_producer_id Tx.new (some "tx") (pos 0)).1
          ≡ Tx.ok (pid, epoch))
        × ((Producers.IsFresh Tx.new pid
              × (pos 1000 ≤ℤ pid)
              × (pid <ℤ (Tx.init_producer_id Tx.new (some "tx") (pos 0)).0.next_producer_id))
            ⊎ ((tx : String) × (m : Tx.TransactionMetadata) × (some "tx" ≡ some tx)
                × (get tx Tx.new.transactions ≡ some m)
                × (m.producer_id ≡ pid))))
init_producer_id_lem_example =
    init_producer_id_lem Tx.new (some "tx") (pos 0) new-IsSound (omega arith) (omega arith)

abbrev rule : AclBinding
rule = record {
  resource_type = ResourceType.topic;
  resource_name = "orders";
  pattern_type = PatternType.literal;
  principal = "User:alice";
  host = "*";
  operation = Operation.all;
  permission_type = Permission.deny;
}

abbrev authorizer : AclAuthorizer
authorizer = record {
  enabled = true;
  super_users = "User:admin" ∷ [];
  allow_everyone_if_no_acl_found = true;
  bindings = rule ∷ [];
}

authorize_lem_example :
    Acl.authorize authorizer "alice" "host" ResourceType.topic "orders" Operation.write ≡ (
      not authorizer.enabled
      || Acl.is_super_user authorizer "alice"
      || (if Acl.has_rules authorizer ResourceType.topic "orders"
          then some_rule
              (Acl.normalize_principal "alice")
              "host"
              ResourceType.topic
              "orders"
              Operation.write
              Permission.allow
              authorizer.bindings
            && not (
                some_rule
                  (Acl.normalize_principal "alice")
                  "host"
                  ResourceType.topic
                  "orders"
                  Operation.write
                  Permission.deny
                  authorizer.bindings)
          else authorizer.allow_everyone_if_no_acl_found))
authorize_lem_example =
    authorize_lem authorizer "alice" "host" ResourceType.topic "orders" Operation.write

abbrev creation : AclCreation
creation = record {
  resource_type = pos 2;
  resource_name = "orders";
  resource_pattern_type = pos 3;
  principal = "alice";
  host = "";
  operation = pos 2;
  permission_type = pos 2;
}

create_acls_lem_example :
    Rules.NoDup (Acl.create_acls [] (creation ∷ [])).0
    × ((b : AclBinding)
        → Acl.contains Acl.binding_beq (Acl.create_acls [] (creation ∷ [])).0 b
          ≡ (Acl.contains Acl.binding_beq [] b || Rules.asked (creation ∷ []) b))
create_acls_lem_example = create_acls_lem [] (creation ∷ []) tt

abbrev every_rule : AclFilter
every_rule = record {
  resource_type_filter = pos 1;
  resource_name_filter = none;
  resource_pattern_type_filter = pos 1;
  principal_filter = none;
  host_filter = none;
  operation = pos 1;
  permission_type = pos 1;
}

delete_acls_lem_example :
    Perm
      (all_answered (Acl.delete_acls (rule ∷ []) (every_rule ∷ [])).1
        ++ (Acl.delete_acls (rule ∷ []) (every_rule ∷ [])).0)
      (rule ∷ [])
    × All
        (λ f. All (λ b. ¬ Matches f b) (Acl.delete_acls (rule ∷ []) (every_rule ∷ [])).0)
        (every_rule ∷ [])
    × IsAnswered (every_rule ∷ []) (Acl.delete_acls (rule ∷ []) (every_rule ∷ [])).1
delete_acls_lem_example = delete_acls_lem (rule ∷ []) (every_rule ∷ [])

-- Texts as they are, numbers not read, everything JSON without a name.
abbrev texts : Registry_.Texts
texts = record {
  trim = λ s. s;
  is_latest = λ s. s == "latest";
  parse_i32 = λ s. none;
  parse_json = λ s. some none;
  is_protobuf = λ s. true;
}

empty-IsSound : Ids.IsSound Registry_.new
unfolding get
empty-IsSound = record {
  below = λ k id h. absurd (cc h);
  apart = λ k j id h h'. absurd (cc h);
  found = λ k id h. absurd (cc h);
  filed = λ s rec h. absurd (cc h);
}

registers_first :
    (Registry_.register_schema texts Registry_.new "users" "{}" none []).1 ≡ Registry_.ok (pos 1)
unfolding Registry_.register_schema Registry_.validate_schema_syntax Registry_.store get
registers_first = refl

get_schema_by_id-register_schema_example :
    Ids.IsSound (Registry_.register_schema texts Registry_.new "users" "{}" none []).0
    × ((e : Registry_.SchemaEntry) × (get_schema_by_id
            (Registry_.register_schema texts Registry_.new "users" "{}" none []).0
            (pos 1)
          ≡ some e)
        × (e.schema_type ≡ Registry_.avro)
        × (e.schema ≡ "{}"))
get_schema_by_id-register_schema_example =
    get_schema_by_id-register_schema texts Registry_.new "users" "{}" none [] (pos 1) (λ s. refl)
      empty-IsSound (omega arith) (omega arith) registers_first
