-- ===== src/Broker/SchemaRegistry.antt =====
-- crates/oxidemq-broker/src/schema_registry.rs: the catalog of schemas. Each method holds the lock
-- of the catalog and is one step on it. The texts of the errors are left out.
pub mod Queries
pub mod Sound
pub mod Ids
use mathlib.Core.Option
use oxide_mq.Base.{
  ℕ, ◌+◌, ◌*◌, ◌^◌, ◌<◌, ◌≡◌, ◌↔◌, List, [], ◌∷◌, ◌++◌, map, filter, length, get_or, Option, none,
  some, Bool, true, false, not, ◌&&◌, ◌||◌, if◌then◌else◌, String, ltb, arith,
}
use oxide_mq.Base.Eq.{Eq, ◌==◌, nat_eq, string_eq, int_eq}
use oxide_mq.Base.Int.{ℤ, pos, of_word}
use oxide_mq.Base.Assoc.{get, insert, contains_key}
use oxide_mq.Bytes.{Bytes}
use oxide_mq.Base.Sort.{sort}
use Prim.Native.String.{compare}
use text.Mathlib.Text.{is_le}
use oxide_mq.Broker.Coordinator.{add_i32}

pub data SchemaType : Type 0 where
  avro protobuf json : SchemaType

abbrev pub schema_type_beq : SchemaType → SchemaType → Bool
schema_type_beq avro avro = true
schema_type_beq avro protobuf = false
schema_type_beq avro json = false
schema_type_beq protobuf avro = false
schema_type_beq protobuf protobuf = true
schema_type_beq protobuf json = false
schema_type_beq json avro = false
schema_type_beq json protobuf = false
schema_type_beq json json = true

pub record SchemaReference : Type 0 where
  pub name : String
  pub subject : String
  pub version : ℤ

pub record SchemaEntry : Type 0 where
  pub subject : String
  pub version : ℤ
  pub id : ℤ
  pub schema_type : SchemaType
  pub schema : String
  pub references : List SchemaReference

pub data CompatibilityLevel : Type 0 where
  no_check backward backward_transitive forward forward_transitive full full_transitive :
      CompatibilityLevel

pub data RegistryError : Type 0 where
  subject_not_found version_not_found schema_not_found invalid_schema : RegistryError
  incompatible_schema invalid_record_payload : RegistryError

abbrev pub error_details : RegistryError → ℕ × ℕ
error_details subject_not_found = (404, 40401)
error_details version_not_found = (404, 40402)
error_details schema_not_found = (404, 40403)
error_details invalid_schema = (422, 42201)
error_details incompatible_schema = (409, 409)
error_details invalid_record_payload = (422, 42202)

pub data Result {ℓ} (A : Type ℓ) : Type ℓ where
  ok : A → Result A
  err : RegistryError → Result A

infixl 5 ◌>>=◌
abbrev pub ◌>>=◌ {ℓ κ} : {A : Type ℓ} {B : Type κ} (m : Result A) (next : A → Result B) → Result B
err fault >>= next = err fault
ok value >>= next = next value

pub record SubjectRecord : Type 0 where
  pub versions : List SchemaEntry
  pub config : Option CompatibilityLevel

abbrev pub default_subject : SubjectRecord
default_subject = record { versions = []; config = none }

abbrev pub key_beq : SchemaType × String → SchemaType × String → Bool
key_beq a b = schema_type_beq a.0 b.0 && (a.1 == b.1)

pub key_beq_iff : (a b : SchemaType × String) → (key_beq a b ≡ true) ↔ (a ≡ b)
key_beq_iff a b = ground (arith, string_eq.beq_iff a.1 b.1)

instance abbrev pub key_eq : Eq (SchemaType × String)
key_eq = record { beq = key_beq; beq_iff = key_beq_iff }

pub record Registry : Type 0 where
  pub next_global_id : ℤ
  pub subjects : List (String × SubjectRecord)
  pub global_schemas : List (ℤ × SchemaEntry)
  pub schema_fingerprints : List ((SchemaType × String) × ℤ)
  pub global_config : CompatibilityLevel

abbrev pub new : Registry
new = record {
  next_global_id = pos 1;
  subjects = [];
  global_schemas = [];
  schema_fingerprints = [];
  global_config = backward;
}

-- What the catalog uses of the standard library and of `serde_json`: `str::trim`, the test against
-- "latest" that ignores case, `str::parse` to an `i32`, whether a text is JSON, with the `name`
-- field of its object if it has one, as printed, and whether a text has "syntax" or "message" in it.
pub record Texts : Type 0 where
  pub trim : String → String
  pub is_latest : String → Bool
  pub parse_i32 : String → Option ℤ
  pub parse_json : String → Option (Option String)
  pub is_protobuf : String → Bool

abbrev pub last : List SchemaEntry → Option SchemaEntry
last [] = none
last (e ∷ []) = some e
last (e ∷ f ∷ es) = last (f ∷ es)

abbrev pub find : (SchemaEntry → Bool) → List SchemaEntry → Option SchemaEntry
find p [] = none
find p (e ∷ es) = if p e then some e else find p es

abbrev pub is_no_check : CompatibilityLevel → Bool
is_no_check no_check = true
is_no_check backward = false
is_no_check backward_transitive = false
is_no_check forward = false
is_no_check forward_transitive = false
is_no_check full = false
is_no_check full_transitive = false

module _ (t : Texts) where
  unfoldable pub validate_schema_syntax : String → SchemaType → Result (Unit {0})
  validate_schema_syntax schema protobuf =
      if t.trim schema == ""
      then err invalid_schema
      else if t.is_protobuf schema
      then ok tt
      else err invalid_schema
  validate_schema_syntax schema avro =
      if t.trim schema == ""
      then err invalid_schema
      else elim (t.parse_json schema) [ none ↦ err invalid_schema | some _ ↦ ok tt ]
  validate_schema_syntax schema json =
      if t.trim schema == ""
      then err invalid_schema
      else elim (t.parse_json schema) [ none ↦ err invalid_schema | some _ ↦ ok tt ]

  -- The names are compared when both are there.
  abbrev pub same_name : Option String → Option String → Bool
  same_name none next = true
  same_name (some prev) none = true
  same_name (some prev) (some next) = prev == next

  abbrev pub verify_names : SchemaEntry → String → Result (Unit {0})
  verify_names existing candidate = elim (t.parse_json candidate) [
    | none ↦ err invalid_schema
    | some next_name ↦
        let prev_name = Option.get_or (t.parse_json existing.schema) none in
        if same_name prev_name next_name then ok tt else err incompatible_schema
  ]

  unfoldable pub verify_compatibility :
      CompatibilityLevel → SchemaEntry → String → SchemaType → Result (Unit {0})
  verify_compatibility level existing candidate candidate_type =
      if is_no_check level
      then ok tt
      else if not (schema_type_beq existing.schema_type candidate_type)
      then err incompatible_schema
      else if schema_type_beq candidate_type protobuf
      then ok tt
      else verify_names existing candidate

  abbrev pub is_same : SchemaType → String → SchemaEntry → Bool
  is_same st schema e = schema_type_beq e.schema_type st && (t.trim e.schema == t.trim schema)

  abbrev pub level_of : Registry → SubjectRecord → CompatibilityLevel
  level_of r rec = Option.get_or rec.config r.global_config

  -- The part of `register_schema` after the checks.
  unfoldable pub store :
      Registry → String → String → SchemaType → List SchemaReference → Registry × ℤ
  store r subject schema st references =
      let normalized = t.trim schema in
      let key : SchemaType × String = (st, normalized) in
      let known = get key r.schema_fingerprints in
      let id = Option.get_or known r.next_global_id in
      let rec = Option.get_or (get subject r.subjects) default_subject in
      let entry : SchemaEntry = record {
        subject = subject;
        version = add_i32 (pos (length rec.versions)) (pos 1);
        id = id;
        schema_type = st;
        schema = normalized;
        references = references;
      } in
      (
        record {
          next_global_id = elim known [
            | none ↦ add_i32 r.next_global_id (pos 1)
            | some _ ↦ r.next_global_id
          ];
          subjects =
              insert subject (record rec { versions = rec.versions ++ (entry ∷ []) }) r.subjects;
          global_schemas = insert id entry r.global_schemas;
          schema_fingerprints = elim known [
            | none ↦ insert key r.next_global_id r.schema_fingerprints
            | some _ ↦ r.schema_fingerprints
          ];
          global_config = r.global_config;
        },
        id,
      )

  -- The schema's own earlier entry in the subject, if any.
  abbrev pub registered : Registry → String → String → SchemaType → Option SchemaEntry
  registered r subject schema st = elim (get subject r.subjects) [
    | none ↦ none
    | some rec ↦ find (is_same st schema) rec.versions
  ]

  abbrev pub compatible : Registry → String → String → SchemaType → Result (Unit {0})
  compatible r subject schema st = elim (get subject r.subjects) [
    | none ↦ ok tt
    | some rec ↦ elim (last rec.versions) [
      | none ↦ ok tt
      | some latest ↦ verify_compatibility (level_of r rec) latest schema st
    ]
  ]

  unfoldable pub register_schema :
      Registry → String → String → Option SchemaType → List SchemaReference → Registry × Result ℤ
  unfolding validate_schema_syntax verify_compatibility store
  register_schema r subject schema schema_type references =
      let st = Option.get_or schema_type avro in
      elim (validate_schema_syntax schema st) [
        | err e ↦ (r, err e)
        | ok _ ↦ elim (registered r subject schema st) [
          | some entry ↦ (r, ok entry.id)
          | none ↦ elim (compatible r subject schema st) [
            | err e ↦ (r, err e)
            | ok _ ↦ let (r', id) = store r subject schema st references in (r', ok id)
          ]
        ]
      ]
