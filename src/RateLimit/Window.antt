-- ===== src/RateLimit/Window.antt =====
-- rate-limit.middleware.ts: how many requests pass in a window.
use learnault_api.Base.{
  ℕ, suc, ◌+◌, ◌-◌, ◌≤◌, ◌<◌, ◌≡◌, ◌≢◌, refl, sym, ap, ◌∙◌, Bool, true, false, some, List, [], ◌∷◌,
  ◌==◌, leb, ltb, if◌then◌else◌, Option-cases, Bool-cases, inl, inr, arith,
}
use learnault_api.Base.Table.{All}
use Prim.Native.Nat.{min}
use learnault_api.RateLimit.{
  RateLimitOptions, RateLimitData, Store, get, put, Response, passed, too_many_requests, current,
  limit,
}

-- A request: its key and its time.
pub record Request : Type 0 where
  pub key : ℕ
  pub now : ℕ

abbrev pub is_passed : Response → Bool
is_passed (passed _ _) = true
is_passed (too_many_requests _) = false

-- The requests of a key that pass, of those that come one after the other.
unfoldable pub passed_count : RateLimitOptions → ℕ → List Request → Store → ℕ
passed_count o key [] store = 0
passed_count o key (r ∷ rs) store =
    let rest = passed_count o key rs (limit o r.key r.now store).1 in
    if r.key == key
    then (if is_passed (limit o r.key r.now store).0 then suc rest else rest)
    else rest

-- The requests of a key.
abbrev pub asked : ℕ → List Request → ℕ
asked key [] = 0
asked key (r ∷ rs) = if r.key == key then suc (asked key rs) else asked key rs

get-put :
    (k key : ℕ) (d : RateLimitData) (s : Store)
    → get k (put key d s) ≡ (if key == k then some d else get k s)
unfolding get put
get-put k key d [] = refl
get-put k key d ((j, e) ∷ s) = ground (arith, get-put k key d s)

get-put_self : (key : ℕ) (d : RateLimitData) (s : Store) → get key (put key d s) ≡ some d
get-put_self key d s =
    let here : (key == key) ≡ true = ground arith in rw (get-put key key d s, here) refl

get-put_other :
    (k key : ℕ) (d : RateLimitData) (s : Store) → key ≢ k → get k (put key d s) ≡ get k s
get-put_other k key d s ne =
    let there : (key == k) ≡ false = ground arith in rw (get-put k key d s, there) refl

current_open :
    (o : RateLimitOptions) (key now : ℕ) (d : RateLimitData) (s : Store)
    → get key s ≡ some d
    → now ≤ d.reset_time
    → current o key now s ≡ (true, d)
unfolding current
current_open o key now d s found le =
    let still : ltb d.reset_time now ≡ false = ground arith in rw (found, current, still) refl

current_closed :
    (o : RateLimitOptions) (key now : ℕ) (s : Store)
    → ((d : RateLimitData) → get key s ≡ some d → d.reset_time < now)
    → current o key now s ≡ (false, record { count = 0; reset_time = now + o.window_ms })
unfolding current
current_closed o key now s over = elim (Option-cases (get key s)) [
  | inl missing ↦ rw (missing, current) refl
  | inr (d, found) ↦
      let late = over d found in
      let gone : ltb d.reset_time now ≡ true = ground arith in rw (found, current, gone) refl
]

-- A request while the window of its key is open.
limit_open :
    (o : RateLimitOptions) (key now : ℕ) (d : RateLimitData) (s : Store)
    → get key s ≡ some d
    → now ≤ d.reset_time
    → (is_passed (limit o key now s).0 ≡ leb (suc d.count) o.max)
      × (get key (limit o key now s).1 ≡ some (record d { count = suc d.count }))
unfolding limit
limit_open o key now d s found le = elim (Bool-cases (ltb o.max (suc d.count))) [
  | inl full ↦
      rw (current_open o key now d s found le, limit, full) (ground arith, get-put_self key _ s)
  | inr free ↦
      rw (current_open o key now d s found le, limit, free) (ground arith, get-put_self key _ s)
]

-- A request of another key.
limit_other :
    (o : RateLimitOptions) (k key now : ℕ) (s : Store)
    → key ≢ k
    → get k (limit o key now s).1 ≡ get k s
unfolding limit
limit_other o k key now s ne = elim (Bool-cases (ltb o.max (suc (current o key now s).1.count))) [
  | inl full ↦ elim (Bool-cases (current o key now s).0) [
    | inl shared ↦ rw (limit, full, shared) (get-put_other k key _ s ne)
    | inr fresh ↦ rw (limit, full, fresh) refl
  ]
  | inr free ↦ rw (limit, free) (get-put_other k key _ s ne)
]

-- While the window of a key is open, exactly as many of its requests pass as the limit still allows,
-- whatever is asked under other keys.
pub passed_in_window :
    (o : RateLimitOptions) (key : ℕ) (rs : List Request) (d : RateLimitData) (s : Store)
    → get key s ≡ some d
    → All (λ r. r.now ≤ d.reset_time) rs
    → passed_count o key rs s ≡ min (asked key rs) (o.max - d.count)
unfolding passed_count
passed_in_window o key [] d s found le = omega arith
passed_in_window o key (r ∷ rs) d s found (le, les) = elim (Bool-cases (r.key == key)) [
  | inl mine ↦
      let same : r.key ≡ key = ground arith in
      let (verdict, next) = limit_open o r.key r.now d s (ap (λ k. get k s) same ∙ found) le in
      let rest =
        passed_in_window o key rs (record d { count = suc d.count }) (limit o r.key r.now s).1
          (ap (λ k. get k (limit o r.key r.now s).1) (sym same) ∙ next) les in
      rw (mine, passed_count, verdict, rest) (ground arith)
  | inr other ↦
      let ne : r.key ≢ key = ground arith in
      let rest =
        passed_in_window o key rs d (limit o r.key r.now s).1
          (limit_other o key r.key r.now s ne ∙ found) les in
      rw (other, passed_count) rest
]

limit-is_passed :
    (o : RateLimitOptions) (key now : ℕ) (s : Store)
    → is_passed (limit o key now s).0 ≡ leb (suc (current o key now s).1.count) o.max
unfolding limit
limit-is_passed o key now s = elim (Bool-cases (ltb o.max (suc (current o key now s).1.count))) [
  | inl full ↦ rw (limit, full) (ground arith)
  | inr free ↦ rw (limit, free) (ground arith)
]

-- Nothing passes a limit of 0.
none_passes :
    (o : RateLimitOptions) (key : ℕ) (rs : List Request) (s : Store)
    → o.max ≡ 0
    → passed_count o key rs s ≡ 0
unfolding passed_count
none_passes o key [] s zero = refl
none_passes o key (r ∷ rs) s zero =
    let rest = none_passes o key rs (limit o r.key r.now s).1 zero in
    let refused : is_passed (limit o r.key r.now s).0 ≡ false =
      limit-is_passed o r.key r.now s ∙ ground arith in
    rw (passed_count, refused, rest) (ground arith)

-- The first request of a window is stored, where the limit lets it pass.
limit_closed :
    (o : RateLimitOptions) (key now : ℕ) (s : Store)
    → ((d : RateLimitData) → get key s ≡ some d → d.reset_time < now)
    → 1 ≤ o.max
    → get key (limit o key now s).1 ≡ some (record { count = 1; reset_time = now + o.window_ms })
unfolding limit
limit_closed o key now s over le =
    let free : ltb o.max 1 ≡ false = ground arith in
    rw (current_closed o key now s over, limit, free) (get-put_self key _ s)

-- A request of a key that has no window, or one that is over, opens a window: of it and the
-- requests that follow until the window ends, at most `max` of that key pass.
pub window_bounded :
    (o : RateLimitOptions) (r : Request) (rs : List Request) (s : Store)
    → ((d : RateLimitData) → get r.key s ≡ some d → d.reset_time < r.now)
    → All (λ q. q.now ≤ r.now + o.window_ms) rs
    → passed_count o r.key (r ∷ rs) s ≤ o.max
unfolding passed_count
window_bounded o r rs s over les = elim (Bool-cases (o.max == 0)) [
  | inl none_left ↦ rw (none_passes o r.key (r ∷ rs) s (ground arith)) (omega arith)
  | inr some_left ↦
      let rest =
        passed_in_window o r.key rs (record { count = 1; reset_time = r.now + o.window_ms })
          (limit o r.key r.now s).1 (limit_closed o r.key r.now s over (ground arith)) les in
      let same : (r.key == r.key) ≡ true = ground arith in
      rw (passed_count, same, rest) (ground arith)
]
