-- ===== src/RateLimit/Tests.antt =====
-- The rate limiter on concrete inputs, and its theorems applied.
use learnault_api.Base.{ℕ, ◌≤◌, ◌<◌, ◌≡◌, refl, some, [], ◌∷◌, arith}
use learnault_api.RateLimit.{
  RateLimitOptions, RateLimitData, Store, get, put, too_many_requests, current, limit,
}
use learnault_api.RateLimit.Window.{Request, passed_count, window_bounded}

abbrev options : RateLimitOptions
options = record { window_ms = 1_000; max = 2 }

abbrev request : ℕ → Request
request now = record { key = 4; now = now }

abbrev full : Store
full = (4, record { count = 2; reset_time = 1_100 }) ∷ []

refuses : (limit options 4 300 full).0 ≡ too_many_requests 800
unfolding limit current get put
refuses = refl

-- The refused request is counted in the shared object.
counts_refused :
    get 4 (limit options 4 300 full).1 ≡ some (record { count = 3; reset_time = 1_100 })
unfolding limit current get put
counts_refused = refl

counts : passed_count options 4 (request 100 ∷ request 200 ∷ request 300 ∷ []) [] ≡ 2
unfolding passed_count limit current get put
counts = refl

nothing_stored : (d : RateLimitData) → get 4 [] ≡ some d → d.reset_time < 100
unfolding get
nothing_stored d e = cc

window_bounded_example :
    passed_count options 4 (request 100 ∷ request 200 ∷ request 300 ∷ []) [] ≤ 2
window_bounded_example =
    window_bounded options (request 100) (request 200 ∷ request 300 ∷ []) [] nothing_stored
      (omega arith, (omega arith, tt))

stored : get 4 full ≡ some (record { count = 2; reset_time = 1_100 })
unfolding get
stored = refl
