-- ===== src/Relay/Drained.antt =====
-- outbox-relay.ts: the counts of `dispatchLeasable`.
use learnault_api.Base.{
  ℕ, zero, suc, ◌+◌, ◌*◌, ◌≤◌, ◌≡◌, sym, List, [], ◌∷◌, inl, inr, arith, length,
}
use learnault_api.Base.Result.{ok}
use learnault_api.Base.Inversion.{>>=-ok, ok-injective, Result-cases}
use learnault_api.Jobs.{Db}
use learnault_api.Registry.{registered_names}
use learnault_api.Relay.Dispatch.{
  Relay, Tick, Dispatched, handled, failed, idle, dispatch_one, Drain, count_outcome, drain,
  drain_names, dispatch_leasable,
}

-- The jobs that were taken.
abbrev taken : Drain → ℕ
taken d = d.dispatched + d.failures

-- What a turn of the loop adds, by its outcome.
abbrev pub counted : Dispatched → Db → Drain → Drain
counted handled db d = record d { dispatched = suc d.dispatched; calls = suc d.calls; db = db }
counted failed db d = record d { failures = suc d.failures; calls = suc d.calls; db = db }
counted idle db d = record d { calls = suc d.calls; db = db }

abbrev pub GoesOn : Relay → (ℕ → Tick) → ℕ → ℕ → Drain → Drain → Dispatched → Type 0
GoesOn relay ticks name fuel q d' idle = d' ≡ q
GoesOn relay ticks name fuel q d' handled = drain relay ticks name fuel q ≡ ok d'
GoesOn relay ticks name fuel q d' failed = drain relay ticks name fuel q ≡ ok d'

pub drain-turn :
    (relay : Relay) (ticks : ℕ → Tick) (name fuel : ℕ) (d d' : Drain)
    → drain relay ticks name (suc fuel) d ≡ ok d'
    → (o : Dispatched) × ((dispatch_one relay (ticks d.calls) name d.db).0 ≡ ok o)
      × GoesOn relay ticks name fuel
          (counted o (dispatch_one relay (ticks d.calls) name d.db).1 d)
          d'
          o
unfolding drain count_outcome
drain-turn relay ticks name fuel d d' h =
    elim (Result-cases (dispatch_one relay (ticks d.calls) name d.db).0) [
      | inl (e, thrown) ↦ absurd (ground arith)
      | inr (idle, e) ↦ (idle, e, ground arith)
      | inr (handled, e) ↦ (handled, e, ground arith)
      | inr (failed, e) ↦ (failed, e, ground arith)
    ]

-- From the counts before and after: at most `n` jobs were taken, and one more call was made.
abbrev IsDrained : ℕ → ℕ → Drain → Drain → Type 0
IsDrained n extra d d' =
    (taken d' ≤ taken d + n)
    × (taken d ≤ taken d')
    × (d'.calls + taken d ≤ d.calls + taken d' + extra)

turn-IsDrained :
    (relay : Relay) (ticks : ℕ → Tick) (name fuel : ℕ) (d d' : Drain) (o : Dispatched) (db : Db)
    → GoesOn relay ticks name fuel (counted o db d) d' o
    → ((q : Drain) → drain relay ticks name fuel q ≡ ok d' → IsDrained fuel 1 q d')
    → IsDrained (suc fuel) 1 d d'
turn-IsDrained relay ticks name fuel d d' idle db e k = rw e (omega arith, omega arith, omega arith)
turn-IsDrained relay ticks name fuel d d' handled db e k =
    let (a, b, c) = k _ e in (omega arith, omega arith, omega arith)
turn-IsDrained relay ticks name fuel d d' failed db e k =
    let (a, b, c) = k _ e in (omega arith, omega arith, omega arith)

drain-IsDrained :
    (relay : Relay) (ticks : ℕ → Tick) (name fuel : ℕ) (d d' : Drain)
    → drain relay ticks name fuel d ≡ ok d'
    → IsDrained fuel 1 d d'
unfolding drain
drain-IsDrained relay ticks name zero d d' h =
    rw (sym (ok-injective h)) (omega arith, omega arith, omega arith)
drain-IsDrained relay ticks name (suc fuel) d d' h =
    let (o, _, next) = drain-turn relay ticks name fuel d d' h in
    turn-IsDrained relay ticks name fuel d d' o _ next
      (λ q. drain-IsDrained relay ticks name fuel q d')

drain_names-IsDrained :
    (relay : Relay) (ticks : ℕ → Tick) (names : List ℕ) (d d' : Drain)
    → drain_names relay ticks names d ≡ ok d'
    → IsDrained (length names * relay.batch_size) (length names) d d'
unfolding drain_names
drain_names-IsDrained relay ticks [] d d' h =
    rw (sym (ok-injective h)) (omega arith, omega arith, omega arith)
drain_names-IsDrained relay ticks (name ∷ names) d d' h =
    let (q, first, rest) =
      >>=-ok (drain relay ticks name relay.batch_size d) (drain_names relay ticks names) h in
    let (a, b, c) = drain-IsDrained relay ticks name relay.batch_size d q first in
    let (a', b', c') = drain_names-IsDrained relay ticks names q d' rest in
    (omega arith, omega arith, omega arith)

-- One call of `dispatchLeasable` takes at most a batch of jobs for each handler, and it calls
-- `dispatchOne` at most once more for each handler than it takes jobs.
pub dispatch_leasable_bounded :
    (relay : Relay) (ticks : ℕ → Tick) (db : Db) (d : Drain)
    → dispatch_leasable relay ticks db ≡ ok d
    → (d.dispatched + d.failures ≤ length (registered_names relay.registry) * relay.batch_size)
      × (d.calls ≤ d.dispatched + d.failures + length (registered_names relay.registry))
unfolding dispatch_leasable
dispatch_leasable_bounded relay ticks db d h =
    let (a, b, c) = drain_names-IsDrained relay ticks (registered_names relay.registry) _ d h in
    (omega arith, omega arith)
