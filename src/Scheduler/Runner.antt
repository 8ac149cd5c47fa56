-- ===== src/Scheduler/Runner.antt =====
-- scheduled-job-runner.ts: `start`, `schedule`, `tick` and `stop`, cut at their awaits: a step is what
-- runs between two of them.
use learnault_api.Base.{ℕ, Bool, true, false, not, ◌&&◌, ◌||◌, List, [], ◌∷◌, ◌==◌, if◌then◌else◌}

-- The flags, the timers that will fire, and the queues with a tick in flight. The maps of timers and
-- ticks are keyed by queue; they are lists here, which is the same while no queue stands twice.
pub record Runner : Type 0 where
  pub queues : List ℕ
  pub started : Bool
  pub stopping : Bool
  pub timers : List ℕ
  pub in_flight : List ℕ

-- `schedule`
abbrev pub schedule : ℕ → Runner → Runner
schedule queue r = record r { timers = queue ∷ r.timers }

unfoldable pub schedule_all : List ℕ → Runner → Runner
schedule_all [] r = r
schedule_all (q ∷ qs) r = schedule_all qs (schedule q r)

-- `start`
unfoldable pub start : Runner → Runner
unfolding schedule_all
start r =
    if r.started then r else schedule_all r.queues (record r { started = true; stopping = false })

-- The first element of a list that is a queue, taken out.
abbrev pub remove_one : ℕ → List ℕ → List ℕ
remove_one q [] = []
remove_one q (p ∷ ps) = if p == q then ps else p ∷ remove_one q ps

abbrev pub is_among : ℕ → List ℕ → Bool
is_among q [] = false
is_among q (p ∷ ps) = p == q || is_among q ps

-- A timer of a queue fires, which is the start of `tick`.
abbrev pub fired : ℕ → Runner → Runner
fired queue r =
    let waiting = remove_one queue r.timers in
    record r {
      timers = waiting;
      in_flight = if r.stopping then r.in_flight else queue ∷ r.in_flight;
    }

unfoldable pub fire : ℕ → Runner → Runner
fire queue r = if is_among queue r.timers then fired queue r else r

-- `runQueue` of a queue settles, which is the end of `tick`.
abbrev pub settled : ℕ → Runner → Runner
settled queue r = record r {
  in_flight = remove_one queue r.in_flight;
  timers = if r.stopping then r.timers else queue ∷ r.timers;
}

unfoldable pub settle : ℕ → Runner → Runner
settle queue r = if is_among queue r.in_flight then settled queue r else r

-- The start of `stop`: what runs before it waits.
unfoldable pub begin_stop : Runner → Runner
begin_stop r = if not r.started || r.stopping then r else record r { stopping = true; timers = [] }

-- The end of `stop`: everything in flight has settled, or the deadline has passed.
unfoldable pub end_stop : Runner → Runner
end_stop r = if r.stopping && r.started then record r { started = false } else r

pub data Step : Type 0 where
  starts : Step
  fires settles : ℕ → Step
  begins_stop ends_stop : Step

unfoldable pub run : Step → Runner → Runner
unfolding start fire settle begin_stop end_stop
run starts r = start r
run (fires q) r = fire q r
run (settles q) r = settle q r
run begins_stop r = begin_stop r
run ends_stop r = end_stop r

unfoldable pub run_all : List Step → Runner → Runner
unfolding run
run_all [] r = r
run_all (s ∷ ss) r = run_all ss (run s r)
