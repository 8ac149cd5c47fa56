-- ===== src/RateLimit.antt =====
-- src/middleware/rate-limit.middleware.ts: the limiter on its shared store. The key of a request, its
-- client address and URL, is a number; times are milliseconds. The header and the status that a
-- response gets are the constructors of `Response`.
pub mod Window
mod Tests
use learnault_api.Base.{
  ℕ, suc, ◌+◌, ◌-◌, Bool, true, false, Option, none, some, List, [], ◌∷◌, ◌==◌, ltb, if◌then◌else◌,
}

pub record RateLimitOptions : Type 0 where
  pub window_ms : ℕ
  pub max : ℕ

pub record RateLimitData : Type 0 where
  pub count : ℕ
  pub reset_time : ℕ

abbrev pub Store : Type 0
Store = List (ℕ × RateLimitData)

-- `store.get`
unfoldable pub get : ℕ → Store → Option RateLimitData
get key [] = none
get key ((k, d) ∷ store) = if k == key then some d else get key store

-- `store.set`
unfoldable pub put : ℕ → RateLimitData → Store → Store
put key d [] = (key, d) ∷ []
put key d ((k, e) ∷ store) = if k == key then (k, d) ∷ store else (k, e) ∷ put key d store

-- `X-RateLimit-Remaining` and `X-RateLimit-Reset` of a request that passes; `Retry-After`, in
-- milliseconds, of one that is refused with 429.
pub data Response : Type 0 where
  passed : ℕ → ℕ → Response
  too_many_requests : ℕ → Response

-- The data of the key, and whether it is the object that the store holds.
unfoldable pub current : RateLimitOptions → ℕ → ℕ → Store → Bool × RateLimitData
unfolding get
current o key now store =
    let fresh : Bool × RateLimitData =
      (false, record { count = 0; reset_time = now + o.window_ms }) in
    elim (get key store) [
      | none ↦ fresh
      | some d ↦ if ltb d.reset_time now then fresh else (true, d)
    ]

-- The middleware. `data.count++` counts a refused request too where the store holds the object.
unfoldable pub limit : RateLimitOptions → ℕ → ℕ → Store → Response × Store
unfolding current put
limit o key now store =
    let (shared, old) = current o key now store in
    let d : RateLimitData = record old { count = suc old.count } in
    if ltb o.max d.count
    then (too_many_requests (d.reset_time - now), if shared then put key d store else store)
    else (passed (o.max - d.count) d.reset_time, put key d store)
