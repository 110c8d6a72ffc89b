-- ===== src/Protocol/ApiKeys.antt =====
-- crates/oxidemq-protocol/src/lib.rs: the keys of the APIs.
use oxide_mq.Base.{ℕ, ◌≡◌, refl, List, [], ◌∷◌, Option, none, some, ◌^◌, arith}
use oxide_mq.Base.Int.{ℤ, pos, negsuc, InWord}
use oxide_mq.Base.Eq.{nat_eq}
use oxide_mq.Base.Assoc.{get}

pub data ApiKey : Type 0 where
  produce fetch list_offsets metadata : ApiKey
  offset_commit offset_fetch find_coordinator join_group : ApiKey
  heartbeat leave_group sync_group describe_groups : ApiKey
  list_groups sasl_handshake api_versions create_topics : ApiKey
  delete_topics delete_records init_producer_id add_partitions_to_txn : ApiKey
  add_offsets_to_txn end_txn describe_acls create_acls : ApiKey
  delete_acls describe_configs alter_configs sasl_authenticate : ApiKey
  create_partitions delete_groups : ApiKey

abbrev pub key_table : List (ℕ × ApiKey)
key_table =
    (0, produce)
    ∷ (1, fetch)
    ∷ (2, list_offsets)
    ∷ (3, metadata)
    ∷ (8, offset_commit)
    ∷ (9, offset_fetch)
    ∷ (10, find_coordinator)
    ∷ (11, join_group)
    ∷ (12, heartbeat)
    ∷ (13, leave_group)
    ∷ (14, sync_group)
    ∷ (15, describe_groups)
    ∷ (16, list_groups)
    ∷ (17, sasl_handshake)
    ∷ (18, api_versions)
    ∷ (19, create_topics)
    ∷ (20, delete_topics)
    ∷ (21, delete_records)
    ∷ (22, init_producer_id)
    ∷ (24, add_partitions_to_txn)
    ∷ (25, add_offsets_to_txn)
    ∷ (26, end_txn)
    ∷ (29, describe_acls)
    ∷ (30, create_acls)
    ∷ (31, delete_acls)
    ∷ (32, describe_configs)
    ∷ (33, alter_configs)
    ∷ (36, sasl_authenticate)
    ∷ (37, create_partitions)
    ∷ (42, delete_groups)
    ∷ []

unfoldable pub from_i16 : ℤ → Option ApiKey
from_i16 (pos n) = get n key_table
from_i16 (negsuc n) = none

-- `key as i16`
abbrev pub key_code : ApiKey → ℤ
key_code produce = pos 0
key_code fetch = pos 1
key_code list_offsets = pos 2
key_code metadata = pos 3
key_code offset_commit = pos 8
key_code offset_fetch = pos 9
key_code find_coordinator = pos 10
key_code join_group = pos 11
key_code heartbeat = pos 12
key_code leave_group = pos 13
key_code sync_group = pos 14
key_code describe_groups = pos 15
key_code list_groups = pos 16
key_code sasl_handshake = pos 17
key_code api_versions = pos 18
key_code create_topics = pos 19
key_code delete_topics = pos 20
key_code delete_records = pos 21
key_code init_producer_id = pos 22
key_code add_partitions_to_txn = pos 24
key_code add_offsets_to_txn = pos 25
key_code end_txn = pos 26
key_code describe_acls = pos 29
key_code create_acls = pos 30
key_code delete_acls = pos 31
key_code describe_configs = pos 32
key_code alter_configs = pos 33
key_code sasl_authenticate = pos 36
key_code create_partitions = pos 37
key_code delete_groups = pos 42

pub key_codes :
    (key : ApiKey) → InWord (2 ^ 16) (key_code key) × (from_i16 (key_code key) ≡ some key)
unfolding from_i16 get
key_codes produce = (omega arith, refl)
key_codes fetch = (omega arith, refl)
key_codes list_offsets = (omega arith, refl)
key_codes metadata = (omega arith, refl)
key_codes offset_commit = (omega arith, refl)
key_codes offset_fetch = (omega arith, refl)
key_codes find_coordinator = (omega arith, refl)
key_codes join_group = (omega arith, refl)
key_codes heartbeat = (omega arith, refl)
key_codes leave_group = (omega arith, refl)
key_codes sync_group = (omega arith, refl)
key_codes describe_groups = (omega arith, refl)
key_codes list_groups = (omega arith, refl)
key_codes sasl_handshake = (omega arith, refl)
key_codes api_versions = (omega arith, refl)
key_codes create_topics = (omega arith, refl)
key_codes delete_topics = (omega arith, refl)
key_codes delete_records = (omega arith, refl)
key_codes init_producer_id = (omega arith, refl)
key_codes add_partitions_to_txn = (omega arith, refl)
key_codes add_offsets_to_txn = (omega arith, refl)
key_codes end_txn = (omega arith, refl)
key_codes describe_acls = (omega arith, refl)
key_codes create_acls = (omega arith, refl)
key_codes delete_acls = (omega arith, refl)
key_codes describe_configs = (omega arith, refl)
key_codes alter_configs = (omega arith, refl)
key_codes sasl_authenticate = (omega arith, refl)
key_codes create_partitions = (omega arith, refl)
key_codes delete_groups = (omega arith, refl)
