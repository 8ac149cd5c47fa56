-- ===== src/Redaction/Walk.antt =====
-- redaction.ts: `redactMetadata`. Objects and arrays have identities, so that an input may share parts
-- or contain itself; the depth cap, not the input's shape, ends the recursion.
use learnault_api.Base.{
  ℕ, zero, suc, Bool, true, false, ◌||◌, Option, none, some, List, [], ◌∷◌, ◌++◌, ltb, ◌==◌,
  if◌then◌else◌, length, take,
}
use learnault_api.Money.Decimal.{to_string}
use learnault_api.Redaction.{Text, codes, same_text}
use learnault_api.Redaction.Keys.{is_denied_key}
use learnault_api.Redaction.Patterns.{is_denied_value}

-- A value that a caller passes: what `typeof` and `instanceof` tell apart. `undefined` is `null` here,
-- a symbol is a function, and a number is finite or not.
pub data Value : Type 0 where
  null : Value
  text : Text → Value
  number : ℕ → Value
  not_finite : Value
  bool : Bool → Value
  bigint : (is_negative : Bool) → ℕ → Value
  function : Value
  date : ℕ → Value
  error : (name message : Text) → Value
  reference : ℕ → Value

-- What an identity stands for.
pub data Object : Type 0 where
  array : List Value → Object
  fields : List (Text × Value) → Object

mutual
  -- The filtered value.
  pub data Json : Type 0 where
    null : Json
    text : Text → Json
    number : ℕ → Json
    bool : Bool → Json
    array : Items → Json
    object : Fields → Json

  pub data Items : Type 0 where
    no_items : Items
    item : Json → Items → Items

  pub data Fields : Type 0 where
    no_fields : Fields
    field : Text → Json → Fields → Fields

-- The objects that the input reaches, and `toISOString`.
pub record Heap : Type 0 where
  pub object_at : ℕ → Object
  pub iso : ℕ → Text

-- `redactedPaths`, `state.truncated` and `seen`
pub record State : Type 0 where
  pub paths : List Text
  pub truncated : Bool
  pub seen : List ℕ

abbrev pub redacted : Text
redacted = codes "[REDACTED]"

abbrev pub truncated_mark : Text
truncated_mark = codes "[TRUNCATED]"

-- `RedactionLimits`
abbrev pub max_depth : ℕ
max_depth = 4

abbrev pub max_array_length : ℕ
max_array_length = 20

abbrev pub max_keys : ℕ
max_keys = 32

abbrev pub max_string_length : ℕ
max_string_length = 256

abbrev pub add_path : Text → State → State
add_path path st = record st { paths = st.paths ++ path ∷ [] }

abbrev pub truncate_if : Bool → State → State
truncate_if b st = record st { truncated = st.truncated || b }

-- The case of a string.
unfoldable pub walk_text : Text → Text → State → Json × State
walk_text value path st =
    if is_denied_value value
    then (Json.text redacted, add_path path st)
    else if ltb max_string_length (length value)
    then (Json.text (take max_string_length value ++ truncated_mark), truncate_if true st)
    else (Json.text value, st)

abbrev pub bigint_text : Bool → ℕ → Text
bigint_text true n = b'-' ∷ to_string n
bigint_text false n = to_string n

abbrev pub is_member : ℕ → List ℕ → Bool
is_member n [] = false
is_member n (m ∷ ms) = n == m || is_member n ms

-- `kept.map(…)`, with the walk of the entries.
unfoldable pub walk_items :
    (Value → Text → State → Json × State) → Text → ℕ → List Value → State → Items × State
walk_items walk path index [] st = (Items.no_items, st)
walk_items walk path index (v ∷ vs) st =
    let (j, st') = walk v (path ++ b'[' ∷ to_string index ++ b']' ∷ []) st in
    let (js, st'') = walk_items walk path (suc index) vs st' in (Items.item j js, st'')

abbrev pub child_path : Text → Text → Text
child_path [] key = key
child_path (c ∷ cs) key = (c ∷ cs) ++ b'.' ∷ key

-- One entry of the loop over the kept fields.
unfoldable pub walk_field :
    (Value → Text → State → Json × State) → Text → Text → Value → State → Json × State
walk_field walk path key v st =
    if is_denied_key key
    then (Json.text redacted, add_path (child_path path key) st)
    else walk v (child_path path key) st

unfoldable pub walk_fields :
    (Value → Text → State → Json × State) → Text → List (Text × Value) → State → Fields × State
unfolding walk_field
walk_fields walk path [] st = (Fields.no_fields, st)
walk_fields walk path ((key, v) ∷ vs) st =
    let (j, st') = walk_field walk path key v st in
    let (js, st'') = walk_fields walk path vs st' in (Fields.field key j js, st'')

-- The end of `walk`: an array or an object that was not seen before.
unfoldable pub walk_object :
    (Value → Text → State → Json × State) → Text → Object → State → Json × State
unfolding walk_items walk_fields
walk_object walk path (array vs) st =
    let st' = truncate_if (ltb max_array_length (length vs)) st in
    let (js, st'') = walk_items walk path 0 (take max_array_length vs) st' in (Json.array js, st'')
walk_object walk path (fields vs) st =
    let st' = truncate_if (ltb max_keys (length vs)) st in
    let (js, st'') = walk_fields walk path (take max_keys vs) st' in (Json.object js, st'')

abbrev pub see : ℕ → State → State
see id st = record st { seen = id ∷ st.seen }

-- `new Error(…)` becomes its name and its message.
abbrev pub error_json : Text → Json → Json
error_json name message = Json.object (
    Fields.field (codes "name") (Json.text name)
      (Fields.field (codes "message") message Fields.no_fields))

abbrev pub walk_error :
    (Value → Text → State → Json × State) → Text → Text → Text → State → Json × State
walk_error walk path name message st =
    let (j, st') = walk (text message) (path ++ codes ".message") st in (error_json name j, st')

-- A value below the depth cap.
abbrev pub walk_deep : Value → State → Json × State
walk_deep null st = (Json.null, st)
walk_deep _ st = (Json.text truncated_mark, truncate_if true st)

-- `walk`: the number of levels that are left, which is `maxDepth + 1 - depth`.
unfoldable pub walk : Heap → ℕ → Value → Text → State → Json × State
unfolding walk_text walk_object
walk heap zero v path st = walk_deep v st
walk heap (suc levels) null path st = (Json.null, st)
walk heap (suc levels) (text t) path st = walk_text t path st
walk heap (suc levels) (number n) path st = (Json.number n, st)
walk heap (suc levels) not_finite path st = (Json.null, st)
walk heap (suc levels) (bool b) path st = (Json.bool b, st)
walk heap (suc levels) (bigint s n) path st = (Json.text (bigint_text s n), st)
walk heap (suc levels) function path st = (Json.text redacted, add_path path st)
walk heap (suc levels) (date n) path st = (Json.text (heap.iso n), st)
walk heap (suc levels) (error name message) path st =
    walk_error (walk heap levels) path name message st
walk heap (suc levels) (reference id) path st =
    if is_member id st.seen
    then (Json.text truncated_mark, truncate_if true st)
    else walk_object (walk heap levels) path (heap.object_at id) (see id st)

-- `RedactionResult`
pub record RedactionResult : Type 0 where
  pub value : Option Json
  pub redacted_paths : List Text
  pub truncated : Bool

abbrev pub items_of : List Text → Items
items_of [] = Items.no_items
items_of (p ∷ ps) = Items.item (Json.text p) (items_of ps)

-- `object[key] = value`
unfoldable pub set_field : Text → Json → Fields → Fields
set_field key j Fields.no_fields = Fields.field key j Fields.no_fields
set_field key j (Fields.field k v fs) =
    if same_text key k then Fields.field k j fs else Fields.field k v (set_field key j fs)

-- `safe._redacted = redactedPaths`, when there are any.
unfoldable pub with_paths : List Text → Json → Json
unfolding set_field
with_paths [] j = j
with_paths (p ∷ ps) (Json.object fs) =
    Json.object (set_field (codes "_redacted") (Json.array (items_of (p ∷ ps))) fs)
with_paths (p ∷ ps) j = j

abbrev pub start : State
start = record { paths = []; truncated = false; seen = [] }

-- `redactMetadata` of nothing, or of the object with an identity.
unfoldable pub redact_metadata : Heap → Option ℕ → RedactionResult
unfolding walk with_paths
redact_metadata heap none = record { value = none; redacted_paths = []; truncated = false }
redact_metadata heap (some id) =
    let (safe, st) = walk heap (suc max_depth) (reference id) [] start in
    record {
      value = some (with_paths st.paths safe);
      redacted_paths = st.paths;
      truncated = st.truncated;
    }
