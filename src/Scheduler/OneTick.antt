-- ===== src/Scheduler/OneTick.antt =====
-- scheduled-job-runner.ts: the timers and ticks of a queue.
use learnault_api.Base.{
  ℕ, ◌+◌, ◌≤◌, ◌≡◌, ◌⊎◌, refl, sym, ◌∙◌, Bool, true, false, not, ◌&&◌, ◌||◌, List, [], ◌∷◌, ◌==◌,
  if◌then◌else◌, Bool-cases, inl, inr, arith,
}
use mathlib.Core.Path.{subst}
use learnault_api.Base.Table.{count_where}
use learnault_api.Scheduler.Runner.{
  Runner, schedule, schedule_all, start, remove_one, is_among, fired, fire, settled, settle,
  begin_stop, end_stop, Step, starts, fires, settles, begins_stop, ends_stop, run, run_all,
}

abbrev pub count : ℕ → List ℕ → ℕ
count q qs = count_where (λ p. p == q) qs

-- The timers and the ticks in flight of a queue.
abbrev pub busy : ℕ → Runner → ℕ
busy q r = count q r.timers + count q r.in_flight

pub record Inv (r : Runner) : Type 0 where
  pub at_most : (q : ℕ) → busy q r ≤ count q r.queues
  pub exactly : r.started ≡ true → r.stopping ≡ false → (q : ℕ) → busy q r ≡ count q r.queues
  pub off : r.started ≡ false → (r.timers ≡ []) × ((r.stopping ≡ true) ⊎ (r.in_flight ≡ []))
  pub stopped : r.stopping ≡ true → r.timers ≡ []

-- A runner is started again only when nothing is in flight any more.
abbrev pub IsCalm : Step → Runner → Type 0
IsCalm starts r = r.started ≡ false → r.in_flight ≡ []
IsCalm _ r = Unit

abbrev pub AllCalm : List Step → Runner → Type 0
AllCalm [] r = Unit
AllCalm (s ∷ ss) r = IsCalm s r × AllCalm ss (run s r)

abbrev one_if : Bool → ℕ
one_if true = 1
one_if false = 0

count-cons : (q p : ℕ) (ps : List ℕ) → count q (p ∷ ps) ≡ one_if (p == q) + count q ps
count-cons q p ps = elim (Bool-cases (p == q)) [
  | inl e ↦ rw e (omega arith)
  | inr e ↦ rw e (omega arith)
]

count-remove_one :
    (q p : ℕ) (ps : List ℕ)
    → is_among p ps ≡ true
    → one_if (p == q) + count q (remove_one p ps) ≡ count q ps
count-remove_one q p [] h = cc
count-remove_one q p (x ∷ ps) h = elim (Bool-cases (x == p)) [
  | inl e ↦ let same : x ≡ p = ground arith in rw (e, count-cons q x ps, same) refl
  | inr e ↦
      let rest = count-remove_one q p ps (rw e at h) in
      rw e (omega (arith, rest, count-cons q x ps, count-cons q x (remove_one p ps)))
]

count-schedule_all :
    (q : ℕ) (qs : List ℕ) (r : Runner)
    → (count q (schedule_all qs r).timers ≡ count q qs + count q r.timers)
      × ((schedule_all qs r).in_flight ≡ r.in_flight)
      × ((schedule_all qs r).queues ≡ r.queues)
      × ((schedule_all qs r).started ≡ r.started)
      × ((schedule_all qs r).stopping ≡ r.stopping)
unfolding schedule_all
count-schedule_all q [] r = (omega arith, refl, refl, refl, refl)
count-schedule_all q (p ∷ qs) r =
    let (a, b, c, d, e) = count-schedule_all q qs (schedule p r) in
    (omega (arith, a, count-cons q p qs, count-cons q p r.timers), b, c, d, e)

-- A started runner: its timers are those of its queues, and nothing is in flight.
started-Inv :
    (r : Runner)
    → r.timers ≡ []
    → r.in_flight ≡ []
    → Inv (schedule_all r.queues (record r { started = true; stopping = false }))
started-Inv r no_timers no_ticks =
    let r' = record r { started = true; stopping = false } in
    let exact : (q : ℕ) → busy q (schedule_all r.queues r') ≡ count q r.queues = λ q.
      (let (a, b, _, _, _) = count-schedule_all q r.queues r' in
        let none_here : count q r.timers ≡ 0 = rw no_timers refl in
        let none_there : count q r.in_flight ≡ 0 = rw no_ticks refl in
        rw b (omega (arith, a, none_here, none_there))) in
    let (_, _, same, on, going) = count-schedule_all 0 r.queues r' in
    record {
      at_most = λ q. rw same (omega (arith, exact q));
      exactly = λ _ _ q. rw same (exact q);
      off = λ e. absurd (cc);
      stopped = λ e. absurd (cc);
    }

if_true : {b : Bool} (x y : Runner) → b ≡ true → (if b then x else y) ≡ x
if_true x y e = rw e

if_false : {b : Bool} (x y : Runner) → b ≡ false → (if b then x else y) ≡ y
if_false x y e = rw e

start-Inv : (r : Runner) → (r.started ≡ false → r.in_flight ≡ []) → Inv r → Inv (start r)
unfolding start
start-Inv r calm h = elim (Bool-cases r.started) [
  | inl on ↦ subst Inv (sym (if_true _ _ on)) h
  | inr off ↦ subst Inv (sym (if_false _ _ off)) (started-Inv r (h.off off).0 (calm off))
]

busy-fired :
    (p q : ℕ) (r : Runner)
    → r.stopping ≡ false
    → is_among q r.timers ≡ true
    → busy p (fired q r) ≡ busy p r
busy-fired p q r going e =
    rw going (omega (arith, count-remove_one p q r.timers e, count-cons p q r.in_flight))

none_among : (q : ℕ) (ps : List ℕ) → ps ≡ [] → is_among q ps ≡ true → ⊥
none_among q ps e h = cc (rw e at h)

fire-Inv : (q : ℕ) (r : Runner) → Inv r → Inv (fire q r)
unfolding fire
fire-Inv q r h = elim (Bool-cases (is_among q r.timers)) [
  | inr e ↦ rw e h
  | inl e ↦ elim (Bool-cases r.stopping) [
    | inl halted ↦ absurd (none_among q r.timers (h.stopped halted) e)
    | inr going ↦ rw e (record {
      at_most = λ p. omega (arith, h.at_most p, busy-fired p q r going e);
      exactly = λ on _ p. busy-fired p q r going e ∙ h.exactly on going p;
      off = λ stays. absurd (none_among q r.timers (h.off stays).0 e);
      stopped = λ halted. absurd (cc);
    })
  ]
]

busy-settled :
    (p q : ℕ) (r : Runner)
    → r.stopping ≡ false
    → is_among q r.in_flight ≡ true
    → busy p (settled q r) ≡ busy p r
busy-settled p q r going e =
    rw going (omega (arith, count-remove_one p q r.in_flight e, count-cons p q r.timers))

settled_halted :
    (p q : ℕ) (r : Runner)
    → r.stopping ≡ true
    → is_among q r.in_flight ≡ true
    → busy p (settled q r) ≤ busy p r
settled_halted p q r halted e = rw halted (omega (arith, count-remove_one p q r.in_flight e))

not_empty :
    (q : ℕ) (r : Runner)
    → is_among q r.in_flight ≡ true
    → r.stopping ≡ false
    → (r.stopping ≡ true) ⊎ (r.in_flight ≡ [])
    → ⊥
not_empty q r e going (inl halted) = cc
not_empty q r e going (inr empty) = none_among q r.in_flight empty e

settle-Inv : (q : ℕ) (r : Runner) → Inv r → Inv (settle q r)
unfolding settle
settle-Inv q r h = elim (Bool-cases (is_among q r.in_flight)) [
  | inr e ↦ rw e h
  | inl e ↦ elim (Bool-cases r.stopping) [
    | inl halted ↦ rw e (record {
      at_most = λ p. omega (arith, h.at_most p, settled_halted p q r halted e);
      exactly = λ on going. absurd (cc);
      off = λ stays. (rw halted (h.stopped halted), inl halted);
      stopped = λ _. rw halted (h.stopped halted);
    })
    | inr going ↦ rw e (record {
      at_most = λ p. omega (arith, h.at_most p, busy-settled p q r going e);
      exactly = λ on _ p. busy-settled p q r going e ∙ h.exactly on going p;
      off = λ stays. absurd (not_empty q r e going (h.off stays).1);
      stopped = λ halted. absurd (cc);
    })
  ]
]

begin_stop-Inv : (r : Runner) → Inv r → Inv (begin_stop r)
unfolding begin_stop
begin_stop-Inv r h = elim (Bool-cases (not r.started || r.stopping)) [
  | inl e ↦ rw e h
  | inr e ↦ rw e (record {
    at_most = λ p. omega (arith, h.at_most p);
    exactly = λ on going. absurd (cc);
    off = λ stays. absurd (ground arith);
    stopped = λ _. refl;
  })
]

end_stop-Inv : (r : Runner) → Inv r → Inv (end_stop r)
unfolding end_stop
end_stop-Inv r h = elim (Bool-cases (r.stopping && r.started)) [
  | inr e ↦ rw e h
  | inl e ↦
      let halted : r.stopping ≡ true = ground arith in
      rw e (record {
        at_most = h.at_most;
        exactly = λ on. absurd (cc);
        off = λ _. (h.stopped halted, inl halted);
        stopped = h.stopped;
      })
]

run-Inv : (s : Step) (r : Runner) → IsCalm s r → Inv r → Inv (run s r)
unfolding run
run-Inv starts r calm h = start-Inv r calm h
run-Inv (fires q) r calm h = fire-Inv q r h
run-Inv (settles q) r calm h = settle-Inv q r h
run-Inv begins_stop r calm h = begin_stop-Inv r h
run-Inv ends_stop r calm h = end_stop-Inv r h

run_all-Inv : (ss : List Step) (r : Runner) → AllCalm ss r → Inv r → Inv (run_all ss r)
unfolding run_all
run_all-Inv [] r calm h = h
run_all-Inv (s ∷ ss) r (calm, calms) h = run_all-Inv ss (run s r) calms (run-Inv s r calm h)

-- A runner that was not started.
abbrev pub new_runner : List ℕ → Runner
new_runner queues = record {
  queues = queues;
  started = false;
  stopping = false;
  timers = [];
  in_flight = [];
}

new-Inv : (queues : List ℕ) → Inv (new_runner queues)
new-Inv queues = record {
  at_most = λ q. omega arith;
  exactly = λ on. absurd (cc);
  off = λ _. (refl, inr refl);
  stopped = λ _. refl;
}

-- However starts, timers, ticks and stops follow each other from a new runner, if it is started again only
-- when nothing is in flight: a queue has at most as many timers and ticks as it is registered, exactly
-- as many while the runner is started and not stopping, and once `stop` has begun no timer is left.
pub run_all-busy :
    (ss : List Step) (queues : List ℕ) (q : ℕ)
    → AllCalm ss (new_runner queues)
    → (let r = run_all ss (new_runner queues) in
        (busy q r ≤ count q r.queues)
        × (r.started ≡ true → r.stopping ≡ false → busy q r ≡ count q r.queues)
        × (r.stopping ≡ true → r.timers ≡ []))
run_all-busy ss queues q calm =
    let h = run_all-Inv ss (new_runner queues) calm (new-Inv queues) in
    (h.at_most q, (λ on going. h.exactly on going q), h.stopped)
