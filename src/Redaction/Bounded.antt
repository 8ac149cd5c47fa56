-- ===== src/Redaction/Bounded.antt =====
-- redaction.ts: the caps on depth and breadth.
use learnault_api.Base.{
  ℕ, zero, suc, ◌≡◌, refl, ap, some, List, [], ◌∷◌, ◌≤◌, arith, ltb, length, take, length-take,
  Bool-cases, inl, inr,
}
use learnault_api.Redaction.{Text}
use learnault_api.Redaction.Keys.{is_denied_key}
use learnault_api.Redaction.Patterns.{is_denied_value}
use learnault_api.Redaction.Walk.{
  Value, null, text, number, not_finite, bool, bigint, function, date, error, reference, Object,
  array, fields, Json, Items, Fields, Heap, State, max_string_length, max_array_length, max_keys,
  max_depth, walk_text, is_member, walk_items, child_path, walk_field, walk_fields, walk_object,
  see, walk_deep, walk, with_paths, redact_metadata, start,
}

abbrev pub count_items : Items → ℕ
count_items Items.no_items = 0
count_items (Items.item j js) = suc (count_items js)

abbrev pub count_fields : Fields → ℕ
count_fields Fields.no_fields = 0
count_fields (Fields.field k j fs) = suc (count_fields fs)

-- At most this many levels of arrays and objects, none of them broader than its cap.
unfoldable mutual
  pub Within : ℕ → Json → Type 0
  Within n Json.null = Unit
  Within n (Json.text t) = Unit
  Within n (Json.number m) = Unit
  Within n (Json.bool b) = Unit
  Within zero (Json.array js) = ⊥
  Within zero (Json.object fs) = ⊥
  Within (suc n) (Json.array js) = (count_items js ≤ max_array_length) × WithinItems n js
  Within (suc n) (Json.object fs) = (count_fields fs ≤ max_keys) × WithinFields n fs

  pub WithinItems : ℕ → Items → Type 0
  WithinItems n Items.no_items = Unit
  WithinItems n (Items.item j js) = Within n j × WithinItems n js

  pub WithinFields : ℕ → Fields → Type 0
  WithinFields n Fields.no_fields = Unit
  WithinFields n (Fields.field key j fs) = Within n j × WithinFields n fs

abbrev WalksWithin : ℕ → (Value → Text → State → Json × State) → Type 0
WalksWithin n step = (v : Value) (path : Text) (st : State) → Within n (step v path st).0

module _ (step : Value → Text → State → Json × State) (n : ℕ) (within : WalksWithin n step) where
  walk_items-Within :
      (path : Text) (index : ℕ) (vs : List Value) (st : State)
      → (count_items (walk_items step path index vs st).0 ≡ length vs)
        × WithinItems n (walk_items step path index vs st).0
  unfolding walk_items Within
  walk_items-Within path index [] st = (refl, tt)
  walk_items-Within path index (v ∷ vs) st =
      let (same, rest) = walk_items-Within path (suc index) vs _ in
      (ap suc same, (within v _ st, rest))

  walk_field-Within :
      (path key : Text) (v : Value) (st : State) → Within n (walk_field step path key v st).0
  unfolding walk_field Within
  walk_field-Within path key v st = elim (Bool-cases (is_denied_key key)) [
    | inl e ↦ rw e tt
    | inr e ↦ rw e (within v (child_path path key) st)
  ]

  walk_fields-Within :
      (path : Text) (vs : List (Text × Value)) (st : State)
      → (count_fields (walk_fields step path vs st).0 ≡ length vs)
        × WithinFields n (walk_fields step path vs st).0
  unfolding walk_fields Within
  walk_fields-Within path [] st = (refl, tt)
  walk_fields-Within path ((key, v) ∷ vs) st =
      let (same, rest) = walk_fields-Within path vs _ in
      (ap suc same, (walk_field-Within path key v st, rest))

  walk_object-Within :
      (path : Text) (o : Object) (st : State) → Within (suc n) (walk_object step path o st).0
  unfolding walk_object Within
  walk_object-Within path (array vs) st =
      let (same, rest) = walk_items-Within path 0 (take max_array_length vs) _ in
      (omega (arith, same, length-take max_array_length vs), rest)
  walk_object-Within path (fields vs) st =
      let (same, rest) = walk_fields-Within path (take max_keys vs) _ in
      (omega (arith, same, length-take max_keys vs), rest)

walk_text-Within : (n : ℕ) (t path : Text) (st : State) → Within n (walk_text t path st).0
unfolding walk_text Within
walk_text-Within n t path st = elim (Bool-cases (is_denied_value t)) [
  | inl e ↦ rw e tt
  | inr e ↦ elim (Bool-cases (ltb max_string_length (length t))) [
    | inl g ↦ rw (e, g) tt
    | inr g ↦ rw (e, g) tt
  ]
]

walk_deep-Within : (n : ℕ) (v : Value) (st : State) → Within n (walk_deep v st).0
unfolding Within
walk_deep-Within n null st = tt
walk_deep-Within n (text t) st = tt
walk_deep-Within n (number m) st = tt
walk_deep-Within n not_finite st = tt
walk_deep-Within n (bool b) st = tt
walk_deep-Within n (bigint s m) st = tt
walk_deep-Within n function st = tt
walk_deep-Within n (date m) st = tt
walk_deep-Within n (error name message) st = tt
walk_deep-Within n (reference id) st = tt

pub walk-Within : (heap : Heap) (n : ℕ) → WalksWithin n (walk heap n)
unfolding walk Within
walk-Within heap zero v path st = walk_deep-Within zero v st
walk-Within heap (suc n) null path st = tt
walk-Within heap (suc n) (text t) path st = walk_text-Within (suc n) t path st
walk-Within heap (suc n) (number m) path st = tt
walk-Within heap (suc n) not_finite path st = tt
walk-Within heap (suc n) (bool b) path st = tt
walk-Within heap (suc n) (bigint s m) path st = tt
walk-Within heap (suc n) function path st = tt
walk-Within heap (suc n) (date m) path st = tt
walk-Within heap (suc n) (error name message) path st =
    (omega arith, (tt, (walk-Within heap n (text message) _ st, tt)))
walk-Within heap (suc n) (reference id) path st = elim (Bool-cases (is_member id st.seen)) [
  | inl e ↦ rw e tt
  | inr e ↦
      rw e (
        walk_object-Within (walk heap n) n (walk-Within heap n) path (heap.object_at id)
          (see id st))
]

-- Whatever object is redacted, one that contains itself too, the value of `redactMetadata` is the list of redacted
-- paths put on a value with at most five levels of arrays and objects, of at most 20 entries and 32
-- fields each.
pub redact_metadata-Within :
    (heap : Heap) (id : ℕ)
    → (j : Json) × Within (suc max_depth) j
      × ((redact_metadata heap (some id)).value
          ≡ some (with_paths (redact_metadata heap (some id)).redacted_paths j))
unfolding redact_metadata
redact_metadata-Within heap id =
    let out = walk heap (suc max_depth) (reference id) [] start in
    (out.0, walk-Within heap (suc max_depth) (reference id) [] start, refl)
