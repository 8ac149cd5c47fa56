-- ===== src/Registry/Consistent.antt =====
-- handler-registry.ts: `register` and the two maps, and the start-up check.
use learnault_api.Base.{
  ℕ, ◌≡◌, ◌↔◌, refl, ap, ◌∙◌, Bool, true, false, none, some, List, [], ◌∷◌, ◌++◌, ◌==◌,
  if◌then◌else◌, Bool-cases, inl, inr, arith,
}
use learnault_api.Base.Result.{ok}
use learnault_api.Base.Table.{filter_where, All, All-append, All-map}
use learnault_api.Registry.{
  EventKey, same_key, Handler, Schemas, has_schema, Registry, handlers_at, set_handlers, get_name,
  handlers_for, handler_by_name, register, assert_handlers_for, is_empty,
}

same_key-eq : (a b : EventKey) → same_key a b ≡ true → a ≡ b
same_key-eq a b h = ground arith

handlers_at-set_handlers :
    (key k : EventKey) (hs : List Handler) (m : List (EventKey × List Handler))
    → handlers_at key (set_handlers k hs m) ≡ (if same_key k key then hs else handlers_at key m)
unfolding handlers_at set_handlers
handlers_at-set_handlers key k hs [] = refl
handlers_at-set_handlers key k hs ((j, old) ∷ m) =
    ground (arith, handlers_at-set_handlers key k hs m)

get_name-append :
    (name : ℕ) (h : Handler) (m : List (ℕ × Handler))
    → get_name name (m ++ (h.name, h) ∷ [])
      ≡ elim (get_name name m) [ none ↦ if h.name == name then some h else none | some g ↦ some g ]
unfolding get_name
get_name-append name h [] = refl
get_name-append name h ((n, g) ∷ m) = elim (Bool-cases (n == name)) [
  | inl e ↦ rw e
  | inr e ↦ rw e (get_name-append name h m)
]

-- The guards of `register`, and the registry that it makes.
register_guards :
    (schemas : Schemas) (h : Handler) (r r' : Registry)
    → register schemas h r ≡ ok r'
    → (handler_by_name h.name r ≡ none)
      × (has_schema h.key schemas ≡ true)
      × (r' ≡ record {
        by_event = set_handlers h.key (handlers_for h.key r ++ h ∷ []) r.by_event;
        by_name = r.by_name ++ (h.name, h) ∷ [];
      })
unfolding register
register_guards schemas h r r' e = ground arith

handlers_for-register :
    (schemas : Schemas) (h : Handler) (r r' : Registry)
    → register schemas h r ≡ ok r'
    → (key : EventKey)
    → handlers_for key r'
      ≡ (if same_key h.key key then handlers_for h.key r ++ h ∷ [] else handlers_for key r)
handlers_for-register schemas h r r' e key =
    let (_, _, made) = register_guards schemas h r r' e in
    rw made (
      unfold handlers_for in
      handlers_at-set_handlers key h.key (handlers_at h.key r.by_event ++ h ∷ []) r.by_event)

name_added :
    (h : Handler) (name : ℕ) (m : List (ℕ × Handler))
    → get_name h.name m ≡ none
    → get_name name (m ++ (h.name, h) ∷ []) ≡ (if h.name == name then some h else get_name name m)
name_added h name m absent = elim (Bool-cases (h.name == name)) [
  | inl e ↦
      let same : name ≡ h.name = ground arith in
      let absent' : get_name name m ≡ none = ap (λ n. get_name n m) same ∙ absent in
      rw (get_name-append name h m, absent', e)
  | inr e ↦ rw (get_name-append name h m, e) (ground arith)
]

handler_by_name-register :
    (schemas : Schemas) (h : Handler) (r r' : Registry)
    → register schemas h r ≡ ok r'
    → (name : ℕ)
    → handler_by_name name r' ≡ (if h.name == name then some h else handler_by_name name r)
handler_by_name-register schemas h r r' e name =
    let (absent, _, made) = register_guards schemas h r r' e in
    rw made (unfold handler_by_name in name_added h name r.by_name absent)

-- What a registration does, exactly: the event has a schema, the handler is the last one of its
-- event and is found under its name, and no other event and no other name is touched.
pub register_lem :
    (schemas : Schemas) (h : Handler) (r r' : Registry)
    → register schemas h r ≡ ok r'
    → (has_schema h.key schemas ≡ true)
      × ((key : EventKey)
          → handlers_for key r'
            ≡ (if same_key h.key key then handlers_for h.key r ++ h ∷ [] else handlers_for key r))
      × ((name : ℕ)
          → handler_by_name name r' ≡ (if h.name == name then some h else handler_by_name name r))
register_lem schemas h r r' e = (
  (register_guards schemas h r r' e).1,
  handlers_for-register schemas h r r' e,
  handler_by_name-register schemas h r r' e,
)

-- A handler that names the event and is found under its name.
abbrev pub IsHandlerOf : EventKey → Registry → Handler → Type 0
IsHandlerOf key r h = (h.key ≡ key) × (handler_by_name h.name r ≡ some h)

abbrev pub IsConsistent : Registry → Type 0
IsConsistent r = (key : EventKey) → All (IsHandlerOf key r) (handlers_for key r)

kept_handler :
    (schemas : Schemas) (h g : Handler) (key : EventKey) (r r' : Registry)
    → register schemas h r ≡ ok r'
    → IsHandlerOf key r g
    → IsHandlerOf key r' g
kept_handler schemas h g key r r' e (k, found) =
    let (absent, _, _) = register_guards schemas h r r' e in
    (
      k,
      rw (handler_by_name-register schemas h r r' e g.name) (elim (Bool-cases (h.name == g.name)) [
        | inl same ↦
            let named : h.name ≡ g.name = ground arith in
            let gone = ap (λ n. handler_by_name n r) named in cc
        | inr other ↦ rw other found
      ]),
    )

-- A registration keeps the two maps in agreement: every handler of every event names that event and
-- is the one that is found under its name.
pub register-IsConsistent :
    (schemas : Schemas) (h : Handler) (r r' : Registry)
    → register schemas h r ≡ ok r'
    → IsConsistent r
    → IsConsistent r'
register-IsConsistent schemas h r r' e c key =
    rw (handlers_for-register schemas h r r' e key) (elim (Bool-cases (same_key h.key key)) [
      | inl same ↦
          let is_key = same_key-eq h.key key same in
          rw same (
            All-append (IsHandlerOf key r') (handlers_for h.key r) (h ∷ [])
              (rw is_key (
                All-map (IsHandlerOf key r) _ (handlers_for key r)
                  (λ g k. kept_handler schemas h g key r r' e k) (c key)))
              ((is_key, rw (handler_by_name-register schemas h r r' e h.name) (ground arith)), tt))
      | inr other ↦ rw other (
          All-map (IsHandlerOf key r) _ (handlers_for key r)
            (λ g k. kept_handler schemas h g key r r' e k) (c key))
    ])

no_missing :
    (p : EventKey → Bool) (ks : List EventKey)
    → (is_empty (filter_where p ks) ≡ true) ↔ All (λ k. p k ≡ false) ks
no_missing p [] = (λ h. tt, λ h. refl)
no_missing p (k ∷ ks) = elim (Bool-cases (p k)) [
  | inl e ↦ rw e (λ h. cc, λ h. cc (h.0))
  | inr e ↦ rw e (λ h. (refl, (no_missing p ks).0 h), λ h. (no_missing p ks).1 h.1)
]

-- The start-up check passes exactly when every emitted event has a handler.
pub assert_handlers_for_iff :
    (emitted : List EventKey) (r : Registry)
    → (assert_handlers_for emitted r ≡ ok tt)
      ↔ All (λ k. is_empty (handlers_for k r) ≡ false) emitted
unfolding assert_handlers_for
assert_handlers_for_iff emitted r =
    let iff = no_missing (λ k. is_empty (handlers_for k r)) emitted in
    (λ h. iff.0 (ground arith), λ h. let e = iff.1 h in rw e)
