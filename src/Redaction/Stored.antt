-- ===== src/Redaction/Stored.antt =====
-- redaction.ts: what `serializeMetadata` stores, which is what the audit log keeps.
use learnault_api.Base.{
  ℕ, suc, ◌≡◌, ◌≤◌, ◌<◌, ◌⊎◌, ◌≢◌, [], refl, Bool, true, false, Option, none, some, List, ltb,
  arith, Bool-cases, inl, inr,
}
use learnault_api.Redaction.{Text}
use learnault_api.Redaction.Walk.{
  reference, Json, Fields, Heap, with_paths, redact_metadata, walk, start, max_depth,
}
use learnault_api.Redaction.Serialize.{
  Encoding, max_serialized_bytes, summary, marked, serialize_object, serialize_json,
  serialize_metadata,
}
use learnault_api.Redaction.Safe.{Safe, walk-Safe}
use learnault_api.Redaction.Bounded.{Within, walk-Within}

module _ (enc : Encoding) (P : Json → Type 0) (paths : List Text) (truncated : Bool) where
  -- What is stored of a filtered value with the property `P`: it with the list of its redacted paths, in
  -- full; or, where something was cut, with the mark of it as a further field; or, where the text of
  -- it is too long, the summary of its field names.
  pub data IsStored (j : Json) : Json → Type 0 where
    in_full :
        P j
        → truncated ≡ false
        → enc.byte_length (enc.stringify (with_paths paths j)) ≤ max_serialized_bytes
        → IsStored j (with_paths paths j)
    with_mark :
        (fs : Fields)
        → P j
        → with_paths paths j ≡ Json.object fs
        → truncated ≡ true
        → enc.byte_length (enc.stringify (Json.object fs)) ≤ max_serialized_bytes
        → IsStored j (marked fs)
    in_summary :
        (fs : Fields)
        → P j
        → with_paths paths j ≡ Json.object fs
        → max_serialized_bytes < enc.byte_length (enc.stringify (Json.object fs))
        → IsStored j (summary fs)

  -- The answer for a filtered value: nothing where it is no object with a field, else a stored text.
  abbrev pub Answers : Json → Option Text → Type 0
  Answers j answer =
      ((answer ≡ none)
        × ((key : Text) (v : Json) (fs : Fields)
            → with_paths paths j ≢ Json.object (Fields.field key v fs)))
      ⊎ ((stored : Json) × (answer ≡ some (enc.stringify stored)) × IsStored j stored)

  serialize_object-Answers :
      (j : Json) (fs : Fields)
      → P j
      → with_paths paths j ≡ Json.object fs
      → (stored : Json) × (serialize_object enc truncated fs ≡ enc.stringify stored)
        × IsStored j stored
  unfolding serialize_object
  serialize_object-Answers j fs h e =
      elim (Bool-cases
        (ltb max_serialized_bytes (enc.byte_length (enc.stringify (Json.object fs))))) [
          | inl big ↦
              (summary fs, rw (serialize_object, big) refl, in_summary fs h e (ground arith))
          | inr fits ↦
              let le : enc.byte_length (enc.stringify (Json.object fs)) ≤ max_serialized_bytes =
                ground arith in
              elim (Bool-cases truncated) [
                | inl cut ↦
                    (marked fs, rw (serialize_object, fits, cut) refl, with_mark fs h e cut le)
                | inr uncut ↦ (
                  with_paths paths j,
                  rw (serialize_object, fits, uncut, e) refl,
                  in_full h uncut (rw e le),
                )
              ]
        ]

  serialize_json-Answers :
      (j w : Json) → P j → with_paths paths j ≡ w → Answers j (serialize_json enc truncated w)
  unfolding serialize_json
  serialize_json-Answers j (Json.object Fields.no_fields) h e = inl (refl, λ key v fs is. cc)
  serialize_json-Answers j (Json.object (Fields.field k v fs)) h e =
      let (stored, same, is) = serialize_object-Answers j (Fields.field k v fs) h e in
      inr (stored, rw same refl, is)
  serialize_json-Answers j Json.null h e = inl (refl, λ key v fs is. cc)
  serialize_json-Answers j (Json.text t) h e = inl (refl, λ key v fs is. cc)
  serialize_json-Answers j (Json.number n) h e = inl (refl, λ key v fs is. cc)
  serialize_json-Answers j (Json.bool b) h e = inl (refl, λ key v fs is. cc)
  serialize_json-Answers j (Json.array js) h e = inl (refl, λ key v fs is. cc)

-- What `serializeMetadata` answers for an object is stored of a value with the property.
abbrev pub Stores : (Json → Type 0) → Encoding → Heap → ℕ → Type 0
Stores P enc heap id =
    let r = redact_metadata heap (some id) in
    (j : Json) × (r.value ≡ some (with_paths r.redacted_paths j))
    × Answers enc P r.redacted_paths r.truncated j (serialize_metadata enc heap (some id))

-- Whatever object is serialized, where the text of its filtered value fits, the stored text is that of a
-- value with the list of redacted paths put on it and, where something was cut, the mark of it; in
-- the value a denied key stands only before the marker, and every text is a marker, one that no pattern
-- denies, whole or cut, a number, a time or the class of an error. Where the text does not fit, the
-- summary is stored: constants and the first 32 field names, which are not filtered. Nothing is stored
-- only where the filtered value has no field.
pub serialize_metadata-Safe :
    (enc : Encoding) (heap : Heap) (id : ℕ) → Stores (Safe heap) enc heap id
unfolding serialize_metadata redact_metadata
serialize_metadata-Safe enc heap id =
    let out = walk heap (suc max_depth) (reference id) [] start in
    (
      out.0,
      refl,
      serialize_json-Answers enc (Safe heap) out.1.paths out.1.truncated out.0
          (with_paths out.1.paths out.0) (walk-Safe heap (suc max_depth) (reference id) [] start)
          refl,
    )

-- Whatever object is serialized, one that contains itself too: the value of which `serializeMetadata`
-- stores the text, before the list of redacted paths and the mark of a cut are put on it, or of which
-- it stores the summary where that text does not fit, has at most five levels of arrays and objects, of at
-- most 20 entries and 32 fields each. Without a summary the stored text is at most 4096 bytes, but
-- for that mark.
pub serialize_metadata-Within :
    (enc : Encoding) (heap : Heap) (id : ℕ) → Stores (Within (suc max_depth)) enc heap id
unfolding serialize_metadata redact_metadata
serialize_metadata-Within enc heap id =
    let out = walk heap (suc max_depth) (reference id) [] start in
    (
      out.0,
      refl,
      serialize_json-Answers enc (Within (suc max_depth)) out.1.paths out.1.truncated out.0
          (with_paths out.1.paths out.0) (walk-Within heap (suc max_depth) (reference id) [] start)
          refl,
    )
