-- ===== src/Broker/SchemaRegistry/Queries.antt =====
-- crates/oxidemq-broker/src/schema_registry.rs: the catalog's methods other than registration.
use mathlib.Core.Option
use oxide_mq.Base.{
  ◌+◌, ◌*◌, ◌^◌, List, [], ◌∷◌, map, filter, length, get_or, Option, none, some, Bool, true, false,
  not, ◌||◌, if◌then◌else◌, String, ltb,
}
use oxide_mq.Base.Eq.{◌==◌, nat_eq, string_eq, int_eq}
use oxide_mq.Base.Int.{ℤ, of_word}
use oxide_mq.Base.Assoc.{get, insert, contains_key}
use oxide_mq.Bytes.{Bytes}
use oxide_mq.Base.Sort.{sort}
use Prim.Native.String.{compare}
use text.Mathlib.Text.{is_le}
use oxide_mq.Broker.SchemaRegistry.{
  SchemaType, avro, SchemaEntry, CompatibilityLevel, Result, ok, err, ◌>>=◌, subject_not_found,
  version_not_found, schema_not_found, invalid_schema, incompatible_schema, invalid_record_payload,
  SubjectRecord, default_subject, Registry, Texts, last, find, registered, level_of,
  validate_schema_syntax, verify_compatibility,
}

module _ (t : Texts) where
  unfoldable pub get_schema_by_subject_version : Registry → String → String → Result SchemaEntry
  get_schema_by_subject_version r subject version_str = elim (get subject r.subjects) [
    | none ↦ err subject_not_found
    | some rec ↦ elim (last rec.versions) [
      | none ↦ err subject_not_found
      | some latest ↦
          if t.is_latest version_str then ok latest else elim (t.parse_i32 version_str) [
            | none ↦ err version_not_found
            | some ver ↦ elim (find (λ e. e.version == ver) rec.versions) [
              | none ↦ err version_not_found
              | some e ↦ ok e
            ]
          ]
    ]
  ]

  unfoldable pub check_schema_registered :
      Registry → String → String → Option SchemaType → Option SchemaEntry
  check_schema_registered r subject schema schema_type =
      registered t r subject schema (Option.get_or schema_type avro)

  -- `position` and `remove` of the entry with the version.
  unfoldable pub remove_version : ℤ → List SchemaEntry → Option (List SchemaEntry)
  remove_version ver [] = none
  remove_version ver (e ∷ es) =
      let rest = Option.map (λ left. e ∷ left) (remove_version ver es) in
      if e.version == ver then some es else rest

  unfoldable pub delete_version : Registry → String → String → Registry × Result ℤ
  unfolding remove_version
  delete_version r subject version_str = elim (get subject r.subjects) [
    | none ↦ (r, err subject_not_found)
    | some rec ↦ elim (last rec.versions) [
      | none ↦ (r, err subject_not_found)
      | some latest ↦
          elim (if t.is_latest version_str then some latest.version else t.parse_i32 version_str) [
            | none ↦ (r, err version_not_found)
            | some target_ver ↦ elim (remove_version target_ver rec.versions) [
              | none ↦ (r, err version_not_found)
              | some left ↦ (
                record r { subjects = insert subject (record rec { versions = left }) r.subjects },
                ok target_ver,
              )
            ]
          ]
    ]
  ]

  abbrev pub existing_version : SubjectRecord → String → Result SchemaEntry
  existing_version rec version_str =
      if t.is_latest version_str
      then elim (last rec.versions) [ none ↦ err subject_not_found | some e ↦ ok e ]
      else elim (t.parse_i32 version_str) [
        | none ↦ err version_not_found
        | some ver ↦ elim (find (λ e. e.version == ver) rec.versions) [
          | none ↦ err version_not_found
          | some e ↦ ok e
        ]
      ]

  abbrev pub as_answer : Result (Unit {0}) → Result Bool
  as_answer (ok _) = ok true
  as_answer (err subject_not_found) = err subject_not_found
  as_answer (err version_not_found) = err version_not_found
  as_answer (err schema_not_found) = err schema_not_found
  as_answer (err invalid_schema) = err invalid_schema
  as_answer (err incompatible_schema) = ok false
  as_answer (err invalid_record_payload) = err invalid_record_payload

  unfoldable pub check_compatibility :
      Registry → String → String → String → Option SchemaType → Result Bool
  unfolding validate_schema_syntax verify_compatibility
  check_compatibility r subject version_str candidate candidate_type =
      let st = Option.get_or candidate_type avro in
      validate_schema_syntax t candidate st >>= λ _. elim (get subject r.subjects) [
        | none ↦ err subject_not_found
        | some rec ↦ existing_version rec version_str >>= λ existing.
            as_answer (verify_compatibility t (level_of t r rec) existing candidate st)
      ]

unfoldable pub get_schema_by_id : Registry → ℤ → Option SchemaEntry
get_schema_by_id r id = get id r.global_schemas

abbrev pub is_nil {ℓ} : {A : Type ℓ} → List A → Bool
is_nil [] = true
is_nil (x ∷ xs) = false

unfoldable pub list_subjects : Registry → List String
list_subjects r =
    sort (λ a b. is_le (compare a b))
      (map (λ e. e.0) (filter (λ e. not (is_nil e.1.versions)) r.subjects))

unfoldable pub list_versions : Registry → String → Result (List ℤ)
list_versions r subject = elim (get subject r.subjects) [
  | none ↦ err subject_not_found
  | some rec ↦
      if is_nil rec.versions then err subject_not_found else ok (map (λ e. e.version) rec.versions)
]

unfoldable pub delete_subject : Registry → String → Registry × Result (List ℤ)
delete_subject r subject = elim (get subject r.subjects) [
  | none ↦ (r, err subject_not_found)
  | some rec ↦ if is_nil rec.versions then (r, err subject_not_found) else (
    record r { subjects = insert subject (record rec { versions = [] }) r.subjects },
    ok (map (λ e. e.version) rec.versions),
  )
]

unfoldable pub get_config : Registry → Option String → CompatibilityLevel
get_config r none = r.global_config
get_config r (some sub) = elim (get sub r.subjects) [
  | none ↦ r.global_config
  | some rec ↦ Option.get_or rec.config r.global_config
]

unfoldable pub set_config : Registry → Option String → CompatibilityLevel → Registry
set_config r none level = record r { global_config = level }
set_config r (some sub) level =
    let rec = Option.get_or (get sub r.subjects) default_subject in
    record r { subjects = insert sub (record rec { config = some level }) r.subjects }

-- The big-endian `i32` of bytes 1 to 4 of a payload of five bytes and more.
abbrev pub payload_id : Bytes → ℤ
payload_id payload = of_word (2 ^ 32) (
    ((get_or payload 1 0 * 256 + get_or payload 2 0) * 256 + get_or payload 3 0) * 256
    + get_or payload 4 0)

unfoldable pub validate_magic_byte_payload : Registry → Bytes → Result (Option ℤ)
validate_magic_byte_payload r payload =
    if ltb (length payload) 5 || not (get_or payload 0 0 == 0)
    then ok none
    else if contains_key (payload_id payload) r.global_schemas
    then ok (some (payload_id payload))
    else err schema_not_found

unfoldable pub validate_record : Registry → Bytes → Bool → Result (Option ℤ)
unfolding validate_magic_byte_payload
validate_record r payload require_magic_byte = validate_magic_byte_payload r payload >>= λ res.
    elim res [
      | none ↦ if require_magic_byte then err invalid_record_payload else ok none
      | some id ↦ ok (some id)
    ]
