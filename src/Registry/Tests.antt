-- ===== src/Registry/Tests.antt =====
-- The registries on concrete inputs, and their theorems applied.
use learnault_api.Base.{◌≡◌, refl, none, [], ◌∷◌, ◌==◌}
use learnault_api.Base.Result.{ok}
use learnault_api.Registry.{
  EventKey, Handler, Schemas, find_schema, Registry, empty_registry, handlers_for, handlers_at,
  set_handlers, handler_by_name, get_name, register,
}
use learnault_api.Registry.Consistent.{IsConsistent}

abbrev key : EventKey
key = record { event_type = 3; event_version = 1 }

abbrev handler : Handler
handler = record {
  name = 5;
  key = key;
  max_attempts = none;
  backoff_base_ms = none;
  backoff_multiplier = none;
}

abbrev schemas : Schemas
schemas = record { key = key; validate = λ payload. payload == 42 } ∷ []

abbrev registry : Registry
registry = record { by_event = (key, handler ∷ []) ∷ []; by_name = (5, handler) ∷ [] }

registers : register schemas handler empty_registry ≡ ok registry
unfolding register handler_by_name get_name find_schema handlers_for handlers_at set_handlers
registers = refl

empty-IsConsistent : IsConsistent empty_registry
unfolding handlers_for handlers_at
empty-IsConsistent k = tt
