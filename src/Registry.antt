-- ===== src/Registry.antt =====
-- src/lib/transactions/handler-registry.ts and the schema registry of event-schema.ts. An event type
-- with its version is the key `type:vVersion`. Names are numbers in the order of their texts.
pub mod Consistent
mod Tests
use learnault_api.Base.{
  ℕ, Bool, true, false, not, ◌&&◌, Option, none, some, List, [], ◌∷◌, ◌++◌, ◌==◌, if◌then◌else◌,
  map,
}
use learnault_api.Base.Result.{Result, ok, throw, ◌>>=◌, ◌>>◌, throw_if}
use learnault_api.Base.Table.{filter_where, sort_by}

-- `keyOf`
pub record EventKey : Type 0 where
  pub event_type : ℕ
  pub event_version : ℕ

abbrev pub same_key : EventKey → EventKey → Bool
same_key a b = a.event_type == b.event_type && a.event_version == b.event_version

-- `OutboxEventHandler`, without its `handle`, which is an argument of the relay.
pub record Handler : Type 0 where
  pub name : ℕ
  pub key : EventKey
  pub max_attempts : Option ℕ
  pub backoff_base_ms : Option ℕ
  pub backoff_multiplier : Option ℕ

-- `EventSchemaRegistry`: a validator for each key. A validator throws or returns.
pub record EventSchema : Type 0 where
  pub key : EventKey
  pub validate : ℕ → Bool

abbrev pub Schemas : Type 0
Schemas = List EventSchema

-- `EventSchemaRegistry.register`
unfoldable pub register_schema : EventSchema → Schemas → Schemas
register_schema schema [] = schema ∷ []
register_schema schema (s ∷ ss) =
    if same_key s.key schema.key then schema ∷ ss else s ∷ register_schema schema ss

unfoldable pub find_schema : EventKey → Schemas → Option EventSchema
find_schema key [] = none
find_schema key (s ∷ ss) = if same_key s.key key then some s else find_schema key ss

-- `EventSchemaRegistry.has`
abbrev pub has_schema : EventKey → Schemas → Bool
has_schema key ss = elim (find_schema key ss) [ none ↦ false | some _ ↦ true ]

pub data SchemaError : Type 0 where
  no_schema invalid_payload : SchemaError

-- `EventSchemaRegistry.validate`
unfoldable pub validate : EventKey → ℕ → Schemas → Result SchemaError (Unit {0})
validate key payload ss = elim (find_schema key ss) [
  | none ↦ throw no_schema
  | some s ↦ throw_if (not (s.validate payload)) invalid_payload
]

-- `OutboxHandlerRegistry`
pub record Registry : Type 0 where
  pub by_event : List (EventKey × List Handler)
  pub by_name : List (ℕ × Handler)

abbrev pub empty_registry : Registry
empty_registry = record { by_event = []; by_name = [] }

-- `byEvent.get(key) ?? []`
unfoldable pub handlers_at : EventKey → List (EventKey × List Handler) → List Handler
handlers_at key [] = []
handlers_at key ((k, hs) ∷ m) = if same_key k key then hs else handlers_at key m

-- `byEvent.set`
unfoldable pub set_handlers :
    EventKey → List Handler → List (EventKey × List Handler) → List (EventKey × List Handler)
set_handlers key hs [] = (key, hs) ∷ []
set_handlers key hs ((k, old) ∷ m) =
    if same_key k key then (k, hs) ∷ m else (k, old) ∷ set_handlers key hs m

unfoldable pub get_name : ℕ → List (ℕ × Handler) → Option Handler
get_name name [] = none
get_name name ((n, h) ∷ m) = if n == name then some h else get_name name m

-- `handlersFor`
unfoldable pub handlers_for : EventKey → Registry → List Handler
unfolding handlers_at
handlers_for key r = handlers_at key r.by_event

-- `handlerByName`
unfoldable pub handler_by_name : ℕ → Registry → Option Handler
unfolding get_name
handler_by_name name r = get_name name r.by_name

pub data RegistryError : Type 0 where
  duplicate_handler unknown_event_type : RegistryError
  unhandled_event_types : List EventKey → RegistryError

abbrev pub is_some {ℓ} : {A : Type ℓ} → Option A → Bool
is_some none = false
is_some (some _) = true

-- `register`
unfoldable pub register : Schemas → Handler → Registry → Result RegistryError Registry
register schemas h r = do
  throw_if (is_some (handler_by_name h.name r)) duplicate_handler
  throw_if (not (has_schema h.key schemas)) unknown_event_type
  ok (record {
    by_event = set_handlers h.key (handlers_for h.key r ++ h ∷ []) r.by_event;
    by_name = r.by_name ++ (h.name, h) ∷ [];
  })

-- `registeredNames`
unfoldable pub registered_names : Registry → List ℕ
registered_names r = sort_by (λ n. n) (map (λ e. e.0) r.by_name)

abbrev pub is_empty {ℓ} : {A : Type ℓ} → List A → Bool
is_empty [] = true
is_empty (_ ∷ _) = false

-- The keys that `assertHandlersFor` reports.
unfoldable pub missing_handlers : List EventKey → Registry → List EventKey
missing_handlers emitted r = filter_where (λ k. is_empty (handlers_for k r)) emitted

-- `assertHandlersFor`
unfoldable pub assert_handlers_for : List EventKey → Registry → Result RegistryError (Unit {0})
unfolding missing_handlers
assert_handlers_for emitted r =
    let missing = missing_handlers emitted r in
    throw_if (not (is_empty missing)) (unhandled_event_types missing)
