-- ===== src/Redaction/Serialize.antt =====
-- redaction.ts: `serializeMetadata`. `JSON.stringify` and the length of a text in UTF-8 are given.
use learnault_api.Base.{ℕ, Bool, true, Option, none, some, List, [], ◌∷◌, ltb, if◌then◌else◌, take}
use learnault_api.Redaction.{Text, codes}
use learnault_api.Redaction.Walk.{
  Json, Fields, Heap, set_field, items_of, redact_metadata, max_keys,
}

pub record Encoding : Type 0 where
  pub stringify : Json → Text
  pub byte_length : Text → ℕ

-- `RedactionLimits.maxSerializedBytes`
abbrev pub max_serialized_bytes : ℕ
max_serialized_bytes = 4096

abbrev pub keys_of : Fields → List Text
keys_of Fields.no_fields = []
keys_of (Fields.field k j fs) = k ∷ keys_of fs

-- What is stored in place of an object that is too large.
abbrev pub summary : Fields → Json
summary fs = Json.object (
    Fields.field (codes "_truncated") (Json.bool true) (
      Fields.field (codes "_reason") (Json.text (codes "metadata exceeded size limit")) (
        Fields.field (codes "_keys") (Json.array (items_of (take max_keys (keys_of fs))))
          Fields.no_fields)))

abbrev pub marked : Fields → Json
marked fs = Json.object (set_field (codes "_truncated") (Json.bool true) fs)

-- The text of an object with a field.
unfoldable pub serialize_object : Encoding → Bool → Fields → Text
serialize_object enc truncated fs =
    let serialized = enc.stringify (Json.object fs) in
    if ltb max_serialized_bytes (enc.byte_length serialized)
    then enc.stringify (summary fs)
    else if truncated
    then enc.stringify (marked fs)
    else serialized

-- The filtered value: the input is an object, as its type says, and so is what the walk makes of it.
unfoldable pub serialize_json : Encoding → Bool → Json → Option Text
unfolding serialize_object
serialize_json enc truncated (Json.object Fields.no_fields) = none
serialize_json enc truncated (Json.object (Fields.field k j fs)) =
    some (serialize_object enc truncated (Fields.field k j fs))
serialize_json enc truncated _ = none

abbrev pub serialize_value : Encoding → Bool → Option Json → Option Text
serialize_value enc truncated none = none
serialize_value enc truncated (some j) = serialize_json enc truncated j

-- `serializeMetadata`; a redacted object never fails to serialize.
unfoldable pub serialize_metadata : Encoding → Heap → Option ℕ → Option Text
unfolding redact_metadata serialize_json
serialize_metadata enc heap input =
    let r = redact_metadata heap input in serialize_value enc r.truncated r.value
