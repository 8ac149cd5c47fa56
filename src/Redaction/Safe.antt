-- ===== src/Redaction/Safe.antt =====
-- redaction.ts: what `redactMetadata` lets through.
use learnault_api.Base.{
  ℕ, zero, suc, ◌≡◌, ◌⊎◌, refl, Bool, true, false, some, List, [], ◌∷◌, ◌++◌, ◌≤◌, arith, ltb,
  length, take, Bool-cases, inl, inr,
}
use learnault_api.Redaction.{Text, codes}
use learnault_api.Redaction.Keys.{is_denied_key}
use learnault_api.Redaction.Patterns.{is_denied_value}
use learnault_api.Redaction.Walk.{
  Value, null, text, number, not_finite, bool, bigint, function, date, error, reference, Object,
  array, fields, Json, Items, Fields, Heap, State, redacted, truncated_mark, max_string_length,
  max_array_length, max_keys, walk_text, bigint_text, is_member, walk_items, child_path, walk_field,
  walk_fields, walk_object, see, walk_deep, walk, with_paths, redact_metadata, start, max_depth,
}

-- A text that is written: a marker, a value that no pattern denies, cut when it is too long, a number or
-- a time, the class of an error, or a path.
pub data SafeText (heap : Heap) : Text → Type 0 where
  marker_redacted : SafeText heap redacted
  marker_truncated : SafeText heap truncated_mark
  whole : (t : Text) → is_denied_value t ≡ false → length t ≤ max_string_length → SafeText heap t
  cut :
      (t : Text)
      → is_denied_value t ≡ false
      → SafeText heap (take max_string_length t ++ truncated_mark)
  of_bigint : (s : Bool) (n : ℕ) → SafeText heap (bigint_text s n)
  of_date : (n : ℕ) → SafeText heap (heap.iso n)

-- A denied key stands only before the marker. An error keeps the name of its class.
unfoldable mutual
  pub Safe : Heap → Json → Type 0
  Safe heap Json.null = Unit
  Safe heap (Json.text t) = SafeText heap t
  Safe heap (Json.number n) = Unit
  Safe heap (Json.bool b) = Unit
  Safe heap (Json.array js) = SafeItems heap js
  Safe heap (Json.object fs) = SafeFields heap fs ⊎ SafeError heap fs

  pub SafeItems : Heap → Items → Type 0
  SafeItems heap Items.no_items = Unit
  SafeItems heap (Items.item j js) = Safe heap j × SafeItems heap js

  pub SafeFields : Heap → Fields → Type 0
  SafeFields heap Fields.no_fields = Unit
  SafeFields heap (Fields.field key j fs) =
      (is_denied_key key ≡ true → j ≡ Json.text redacted) × Safe heap j × SafeFields heap fs

  pub SafeError : Heap → Fields → Type 0
  SafeError heap (Fields.field key (Json.text name) (Fields.field key' message Fields.no_fields)) =
      (key ≡ codes "name") × (key' ≡ codes "message") × Safe heap message
  SafeError heap _ = ⊥

module _ (heap : Heap) where
  -- A walk whose results are safe.
  abbrev SafeWalk : (Value → Text → State → Json × State) → Type 0
  SafeWalk step = (v : Value) (path : Text) (st : State) → Safe heap (step v path st).0

  walk_text-Safe : (t path : Text) (st : State) → Safe heap (walk_text t path st).0
  unfolding walk_text Safe
  walk_text-Safe t path st = elim (Bool-cases (is_denied_value t)) [
    | inl e ↦ rw e marker_redacted
    | inr e ↦ elim (Bool-cases (ltb max_string_length (length t))) [
      | inl g ↦ rw (e, g) (cut t e)
      | inr g ↦ rw (e, g) (whole t e (ground arith))
    ]
  ]

  walk_items-Safe :
      (step : Value → Text → State → Json × State)
      → SafeWalk step
      → (path : Text) (index : ℕ) (vs : List Value) (st : State)
      → SafeItems heap (walk_items step path index vs st).0
  unfolding walk_items Safe
  walk_items-Safe step safe path index [] st = tt
  walk_items-Safe step safe path index (v ∷ vs) st =
      (safe v _ st, walk_items-Safe step safe path (suc index) vs _)

  walk_field-Safe :
      (step : Value → Text → State → Json × State)
      → SafeWalk step
      → (path key : Text) (v : Value) (st : State)
      → (is_denied_key key ≡ true → (walk_field step path key v st).0 ≡ Json.text redacted)
        × Safe heap (walk_field step path key v st).0
  unfolding walk_field Safe
  walk_field-Safe step safe path key v st = elim (Bool-cases (is_denied_key key)) [
    | inl e ↦ rw e ((λ d. refl), marker_redacted)
    | inr e ↦ rw e ((λ d. cc), safe v (child_path path key) st)
  ]

  walk_fields-Safe :
      (step : Value → Text → State → Json × State)
      → SafeWalk step
      → (path : Text) (vs : List (Text × Value)) (st : State)
      → SafeFields heap (walk_fields step path vs st).0
  unfolding walk_fields Safe
  walk_fields-Safe step safe path [] st = tt
  walk_fields-Safe step safe path ((key, v) ∷ vs) st =
      let (denied, is) = walk_field-Safe step safe path key v st in
      (denied, is, walk_fields-Safe step safe path vs _)

  walk_object-Safe :
      (step : Value → Text → State → Json × State)
      → SafeWalk step
      → (path : Text) (o : Object) (st : State) → Safe heap (walk_object step path o st).0
  unfolding walk_object Safe
  walk_object-Safe step safe path (array vs) st =
      walk_items-Safe step safe path 0 (take max_array_length vs) _
  walk_object-Safe step safe path (fields vs) st =
      inl (walk_fields-Safe step safe path (take max_keys vs) _)

  walk_deep-Safe : (v : Value) (st : State) → Safe heap (walk_deep v st).0
  unfolding Safe
  walk_deep-Safe null st = tt
  walk_deep-Safe (text t) st = marker_truncated
  walk_deep-Safe (number n) st = marker_truncated
  walk_deep-Safe not_finite st = marker_truncated
  walk_deep-Safe (bool b) st = marker_truncated
  walk_deep-Safe (bigint s n) st = marker_truncated
  walk_deep-Safe function st = marker_truncated
  walk_deep-Safe (date n) st = marker_truncated
  walk_deep-Safe (error name message) st = marker_truncated
  walk_deep-Safe (reference id) st = marker_truncated

  pub walk-Safe : (levels : ℕ) → SafeWalk (walk heap levels)
  unfolding walk Safe
  walk-Safe zero v path st = walk_deep-Safe v st
  walk-Safe (suc levels) null path st = tt
  walk-Safe (suc levels) (text t) path st = walk_text-Safe t path st
  walk-Safe (suc levels) (number n) path st = tt
  walk-Safe (suc levels) not_finite path st = tt
  walk-Safe (suc levels) (bool b) path st = tt
  walk-Safe (suc levels) (bigint s n) path st = of_bigint s n
  walk-Safe (suc levels) function path st = marker_redacted
  walk-Safe (suc levels) (date n) path st = of_date n
  walk-Safe (suc levels) (error name message) path st =
      inr (refl, refl, walk-Safe levels (text message) _ st)
  walk-Safe (suc levels) (reference id) path st = elim (Bool-cases (is_member id st.seen)) [
    | inl e ↦ rw e marker_truncated
    | inr e ↦ rw e (
        walk_object-Safe (walk heap levels) (walk-Safe levels) path (heap.object_at id) (see id st))
  ]

-- Whatever object is redacted, the value of `redactMetadata` is the list of redacted paths put on one in which
-- a denied key stands only before the marker, and every text is a marker, one that no pattern
-- denies, whole or cut, a number, a time or the class of an error.
pub redact_metadata-Safe :
    (heap : Heap) (id : ℕ)
    → (j : Json) × Safe heap j
      × ((redact_metadata heap (some id)).value
          ≡ some (with_paths (redact_metadata heap (some id)).redacted_paths j))
unfolding redact_metadata
redact_metadata-Safe heap id =
    let out = walk heap (suc max_depth) (reference id) [] start in
    (out.0, walk-Safe heap (suc max_depth) (reference id) [] start, refl)
