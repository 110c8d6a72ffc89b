-- ===== src/Protocol/Advertised.antt =====
-- crates/oxidemq-protocol/src/messages.rs: the versions that the broker advertises.
use oxide_mq.Base.{
  ℕ, ◌+◌, ◌≡◌, ◌↔◌, refl, sym, ap, ◌∙◌, List, [], ◌∷◌, map, Option, none, some, All, if◌then◌else◌,
  arith, Bool-cases, inl, inr,
}
use oxide_mq.Base.Int.{ℤ, pos, negsuc, ◌≤ℤ◌, int_beq}
use oxide_mq.Base.Eq.{◌==◌, nat_eq}
use oxide_mq.Base.Assoc.{get, Unique}
use oxide_mq.Broker.Codes.{no_error}
use oxide_mq.Protocol.ApiKeys.{
  ApiKey, from_i16, key_code, key_codes, key_table, produce, fetch, list_offsets, metadata,
  offset_commit, offset_fetch, find_coordinator, join_group, heartbeat, leave_group, sync_group,
  describe_groups, list_groups, sasl_handshake, api_versions, create_topics, delete_topics,
  delete_records, init_producer_id, add_partitions_to_txn, add_offsets_to_txn, end_txn,
  describe_acls, create_acls, delete_acls, describe_configs, alter_configs, sasl_authenticate,
  create_partitions, delete_groups,
}
use oxide_mq.Protocol.Messages.ApiVersions.{ApiVersionKey, ApiVersionsResponse}

abbrev supports : ℤ → ℤ → ℤ → ApiVersionKey
supports api_key min_version max_version = record {
  api_key = api_key;
  min_version = min_version;
  max_version = max_version;
}

unfoldable pub default_supported : ApiVersionsResponse
default_supported = record {
  error_code = no_error;
  api_keys =
      supports (pos 0) (pos 0) (pos 7)
      ∷ supports (pos 1) (pos 0) (pos 6)
      ∷ supports (pos 2) (pos 0) (pos 5)
      ∷ supports (pos 3) (pos 0) (pos 7)
      ∷ supports (pos 8) (pos 0) (pos 2)
      ∷ supports (pos 9) (pos 0) (pos 5)
      ∷ supports (pos 10) (pos 0) (pos 2)
      ∷ supports (pos 11) (pos 0) (pos 5)
      ∷ supports (pos 12) (pos 0) (pos 3)
      ∷ supports (pos 13) (pos 0) (pos 3)
      ∷ supports (pos 14) (pos 0) (pos 3)
      ∷ supports (pos 15) (pos 0) (pos 2)
      ∷ supports (pos 16) (pos 0) (pos 2)
      ∷ supports (pos 17) (pos 0) (pos 1)
      ∷ supports (pos 18) (pos 0) (pos 3)
      ∷ supports (pos 19) (pos 0) (pos 4)
      ∷ supports (pos 20) (pos 0) (pos 3)
      ∷ supports (pos 21) (pos 0) (pos 2)
      ∷ supports (pos 22) (pos 0) (pos 4)
      ∷ supports (pos 24) (pos 0) (pos 3)
      ∷ supports (pos 25) (pos 0) (pos 3)
      ∷ supports (pos 26) (pos 0) (pos 3)
      ∷ supports (pos 29) (pos 0) (pos 2)
      ∷ supports (pos 30) (pos 0) (pos 2)
      ∷ supports (pos 31) (pos 0) (pos 2)
      ∷ supports (pos 32) (pos 0) (pos 2)
      ∷ supports (pos 33) (pos 0) (pos 1)
      ∷ supports (pos 36) (pos 0) (pos 2)
      ∷ supports (pos 37) (pos 0) (pos 2)
      ∷ supports (pos 42) (pos 0) (pos 2)
      ∷ [];
  throttle_time_ms = pos 0;
}

-- The first entry for a key.
unfoldable pub find_version : ℤ → List ApiVersionKey → Option ApiVersionKey
find_version key [] = none
find_version key (v ∷ versions) =
    let rest = find_version key versions in if int_beq v.api_key key then some v else rest

-- How many entries there are for a key.
abbrev pub entries_of : ℤ → List ApiVersionKey → ℕ
entries_of key [] = 0
entries_of key (v ∷ versions) =
    let rest = entries_of key versions in if int_beq v.api_key key then 1 + rest else rest

abbrev pub once : Option ApiKey → ℕ
once none = 0
once (some key) = 1

advertised :
    (key : ApiKey)
    → (v : ApiVersionKey) × (find_version (key_code key) default_supported.api_keys ≡ some v)
      × (v.min_version ≡ pos 0)
      × (v.min_version ≤ℤ v.max_version)
unfolding default_supported find_version
advertised produce = (_, refl, refl, omega arith)
advertised fetch = (_, refl, refl, omega arith)
advertised list_offsets = (_, refl, refl, omega arith)
advertised metadata = (_, refl, refl, omega arith)
advertised offset_commit = (_, refl, refl, omega arith)
advertised offset_fetch = (_, refl, refl, omega arith)
advertised find_coordinator = (_, refl, refl, omega arith)
advertised join_group = (_, refl, refl, omega arith)
advertised heartbeat = (_, refl, refl, omega arith)
advertised leave_group = (_, refl, refl, omega arith)
advertised sync_group = (_, refl, refl, omega arith)
advertised describe_groups = (_, refl, refl, omega arith)
advertised list_groups = (_, refl, refl, omega arith)
advertised sasl_handshake = (_, refl, refl, omega arith)
advertised api_versions = (_, refl, refl, omega arith)
advertised create_topics = (_, refl, refl, omega arith)
advertised delete_topics = (_, refl, refl, omega arith)
advertised delete_records = (_, refl, refl, omega arith)
advertised init_producer_id = (_, refl, refl, omega arith)
advertised add_partitions_to_txn = (_, refl, refl, omega arith)
advertised add_offsets_to_txn = (_, refl, refl, omega arith)
advertised end_txn = (_, refl, refl, omega arith)
advertised describe_acls = (_, refl, refl, omega arith)
advertised create_acls = (_, refl, refl, omega arith)
advertised delete_acls = (_, refl, refl, omega arith)
advertised describe_configs = (_, refl, refl, omega arith)
advertised alter_configs = (_, refl, refl, omega arith)
advertised sasl_authenticate = (_, refl, refl, omega arith)
advertised create_partitions = (_, refl, refl, omega arith)
advertised delete_groups = (_, refl, refl, omega arith)

table_codes : All (λ e. key_code e.1 ≡ pos e.0) key_table
table_codes = (
  refl,
  (
    refl,
    (
      refl,
      (
        refl,
        (
          refl,
          (
            refl,
            (
              refl,
              (
                refl,
                (
                  refl,
                  (
                    refl,
                    (
                      refl,
                      (
                        refl,
                        (
                          refl,
                          (
                            refl,
                            (
                              refl,
                              (
                                refl,
                                (
                                  refl,
                                  (
                                    refl,
                                    (
                                      refl,
                                      (
                                        refl,
                                        (
                                          refl,
                                          (
                                            refl,
                                            (
                                              refl,
                                              (
                                                refl,
                                                (refl, (refl, (refl, (refl, (refl, (refl, tt)))))),
                                              ),
                                            ),
                                          ),
                                        ),
                                      ),
                                    ),
                                  ),
                                ),
                              ),
                            ),
                          ),
                        ),
                      ),
                    ),
                  ),
                ),
              ),
            ),
          ),
        ),
      ),
    ),
  ),
)

get-code :
    (n : ℕ) (table : List (ℕ × ApiKey)) (key : ApiKey)
    → All (λ e. key_code e.1 ≡ pos e.0) table
    → get n table ≡ some key
    → pos n ≡ key_code key
unfolding get
get-code n [] key codes h = absurd (cc h)
get-code n ((m, k) ∷ table) key codes h = elim (Bool-cases (m == n)) [
  | inl e ↦
      ap pos (sym ((nat_eq.beq_iff m n).0 e))
      ∙ sym (codes.0)
      ∙ ap key_code (same (sym (rw e refl) ∙ h))
  | inr e ↦ get-code n table key codes.1 (sym (rw e refl) ∙ h)
]
  where
    same : some k ≡ some key → k ≡ key
    same q = cc q

from_i16-code : (z : ℤ) (key : ApiKey) → from_i16 z ≡ some key → z ≡ key_code key
unfolding from_i16
from_i16-code (pos n) key h = get-code n key_table key table_codes h
from_i16-code (negsuc n) key h = absurd (cc h)

-- The advertised keys are those of the table, in its order.
advertised_codes : map (λ v. v.api_key) default_supported.api_keys ≡ map (λ e. pos e.0) key_table
unfolding default_supported
advertised_codes = refl

count_code : ℤ → List ℤ → ℕ
count_code key [] = 0
count_code key (z ∷ zs) = let rest = count_code key zs in if int_beq z key then 1 + rest else rest

entries_of-count :
    (key : ℤ) (versions : List ApiVersionKey)
    → entries_of key versions ≡ count_code key (map (λ v. v.api_key) versions)
unfolding count_code
entries_of-count key [] = refl
entries_of-count key (v ∷ versions) =
    ap (λ n. if int_beq v.api_key key then 1 + n else n) (entries_of-count key versions)

count_code-get :
    (n : ℕ) (table : List (ℕ × ApiKey))
    → Unique table
    → count_code (pos n) (map (λ e. pos e.0) table) ≡ once (get n table)
unfolding count_code get
count_code-get n [] u = refl
count_code-get n ((m, k) ∷ table) u = elim (Bool-cases (m == n)) [
  | inl e ↦ ground (arith, count_code-get n table u.1, u.0, e, nat_eq.beq_iff m n)
  | inr e ↦ ground (arith, count_code-get n table u.1, e)
]

count_code_negsuc :
    (n : ℕ) (table : List (ℕ × ApiKey)) → count_code (negsuc n) (map (λ e. pos e.0) table) ≡ 0
unfolding count_code
count_code_negsuc n [] = refl
count_code_negsuc n ((m, k) ∷ table) = ground (arith, count_code_negsuc n table)

key_table-Unique : Unique key_table
unfolding get
key_table-Unique = (
  refl,
  (
    refl,
    (
      refl,
      (
        refl,
        (
          refl,
          (
            refl,
            (
              refl,
              (
                refl,
                (
                  refl,
                  (
                    refl,
                    (
                      refl,
                      (
                        refl,
                        (
                          refl,
                          (
                            refl,
                            (
                              refl,
                              (
                                refl,
                                (
                                  refl,
                                  (
                                    refl,
                                    (
                                      refl,
                                      (
                                        refl,
                                        (
                                          refl,
                                          (
                                            refl,
                                            (
                                              refl,
                                              (
                                                refl,
                                                (refl, (refl, (refl, (refl, (refl, (refl, tt)))))),
                                              ),
                                            ),
                                          ),
                                        ),
                                      ),
                                    ),
                                  ),
                                ),
                              ),
                            ),
                          ),
                        ),
                      ),
                    ),
                  ),
                ),
              ),
            ),
          ),
        ),
      ),
    ),
  ),
)

entries_of-from_i16 : (z : ℤ) → entries_of z default_supported.api_keys ≡ once (from_i16 z)
unfolding from_i16
entries_of-from_i16 (pos n) =
    entries_of-count (pos n) default_supported.api_keys
    ∙ ap (count_code (pos n)) advertised_codes
    ∙ count_code-get n key_table key_table-Unique
entries_of-from_i16 (negsuc n) =
    entries_of-count (negsuc n) default_supported.api_keys
    ∙ ap (count_code (negsuc n)) advertised_codes
    ∙ count_code_negsuc n key_table

-- A code is read as a key exactly when it is that key's code. A code has one advertised entry when
-- it is read as a key and no entry otherwise, and the entry for a key has versions from 0 up to one
-- that is not negative.
pub default_supported-from_i16 :
    (z : ℤ) (key : ApiKey)
    → ((from_i16 z ≡ some key) ↔ (z ≡ key_code key))
      × (entries_of z default_supported.api_keys ≡ once (from_i16 z))
      × ((v : ApiVersionKey) × (find_version (key_code key) default_supported.api_keys ≡ some v)
          × (v.min_version ≡ pos 0)
          × (v.min_version ≤ℤ v.max_version))
default_supported-from_i16 z key = (
  (from_i16-code z key, (λ e. ap from_i16 e ∙ (key_codes key).1)),
  entries_of-from_i16 z,
  advertised key,
)
