-- ===== src/Scheduler/Tests.antt =====
-- Ticks and runners on concrete inputs, and their theorems applied.
use learnault_api.Base.{ℕ, ◌≡◌, ◌≤◌, refl, true, false, Option, none, some, List, [], ◌∷◌}
use learnault_api.Jobs.{Db}
use learnault_api.Jobs.QueueLeases.Calls.{IsHolder}
use learnault_api.Scheduler.{Tick}
use learnault_api.Scheduler.Runner.{Step, starts, fires, settles, begins_stop, ends_stop, run_all}
use learnault_api.Scheduler.OneTick.{count, busy, new_runner, run_all-busy}

abbrev db : Db
db = record { jobs = []; events = []; rolled_back_records = []; queue_leases = [] }

abbrev tick : Tick
tick = record {
  queue = 4;
  now = 100;
  started_at = 101;
  ended_at = 150;
  probe = some (record { depth = 3; due = 2; oldest_due_at = some 40 });
  lease_ms = 60;
  owner = 8;
  token = 55;
  acquire_error = none;
  is_release_lost = false;
  heartbeats = 130 ∷ [];
}

-- A drain that throws.
abbrev throwing : Db → Option ℕ × Db
throwing d = (some 13, d)

abbrev held_db : Db
held_db = record db {
  queue_leases =
      record {
        queue_name = 4;
        lease_token = some 77;
        leased_until = some 120;
        owner = none;
        last_tick_at = none;
      }
      ∷ [];
}

abbrev held : IsHolder 4 77 120 held_db
held = record { row = _; found = refl; has_token = refl; ends_at = refl }

-- Two queues: the first has ticked once and ticks again when `stop` begins.
abbrev steps : List Step
steps = starts ∷ fires 4 ∷ settles 4 ∷ fires 4 ∷ begins_stop ∷ settles 4 ∷ ends_stop ∷ []

run_all-busy_example :
    (busy 4 (run_all steps (new_runner (4 ∷ 5 ∷ [])))
      ≤ count 4 (run_all steps (new_runner (4 ∷ 5 ∷ []))).queues)
    × ((run_all steps (new_runner (4 ∷ 5 ∷ []))).started ≡ true
        → (run_all steps (new_runner (4 ∷ 5 ∷ []))).stopping ≡ false
        → busy 4 (run_all steps (new_runner (4 ∷ 5 ∷ [])))
          ≡ count 4 (run_all steps (new_runner (4 ∷ 5 ∷ []))).queues)
    × ((run_all steps (new_runner (4 ∷ 5 ∷ []))).stopping ≡ true
        → (run_all steps (new_runner (4 ∷ 5 ∷ []))).timers ≡ [])
run_all-busy_example =
    run_all-busy steps (4 ∷ 5 ∷ []) 4 ((λ e. refl), (tt, (tt, (tt, (tt, (tt, (tt, tt)))))))

-- The deadline of `stop` passes while a tick is in flight, and the runner is started again: the queue
-- has a timer and a tick, and two timers when the tick settles.
two_timers :
    (run_all
      (starts ∷ fires 4 ∷ begins_stop ∷ ends_stop ∷ starts ∷ settles 4 ∷ [])
      (new_runner (4 ∷ []))).timers
    ≡ 4 ∷ 4 ∷ []
unfolding run_all
two_timers = refl
