-- ===== src/Relay/Turns.antt =====
-- outbox-relay.ts: what a turn of the loop of `materializePending` does to the waiting events.
use learnault_api.Base.{
  ℕ, suc, ◌+◌, ◌≡◌, refl, sym, ◌∙◌, Bool, true, false, List, [], ◌∷◌, ◌++◌, ◌==◌, if◌then◌else◌,
  Bool-cases, inl, inr, arith, map, length,
}
use learnault_api.Base.Result.{ok}
use learnault_api.Base.Inversion.{>>=-ok, ok-injective}
use learnault_api.Base.Table.{count_where, update_where, All, All-update, All-map}
use learnault_api.Jobs.{OutboxEvent, JobAttempt, Db}
use learnault_api.Jobs.Finish.{update_event, event_as_dead_letter}
use learnault_api.Jobs.Outbox.{JobConfig, new_job, create_job_attempts}
use learnault_api.Registry.{Handler, Registry, handlers_for, is_empty}
use learnault_api.Relay.{
  key_of, jobs_of, is_waiting, job_config, Progress, materialize_event, materialize_all,
}

-- No row with the id waits.
abbrev pub IsSettled : ℕ → Db → Type 0
IsSettled id db = All (λ e. e.id ≡ id → is_waiting db e ≡ false) db.events

pub count_where-append :
    (p : JobAttempt → Bool) (xs ys : List JobAttempt)
    → count_where p (xs ++ ys) ≡ count_where p xs + count_where p ys
count_where-append p [] ys = omega arith
count_where-append p (x ∷ xs) ys = elim (Bool-cases (p x)) [
  | inl e ↦ rw e (omega (arith, count_where-append p xs ys))
  | inr e ↦ rw e (count_where-append p xs ys)
]

pub jobs_of-create :
    (k id now event_id : ℕ) (cs : List JobConfig) (db : Db)
    → jobs_of k (create_job_attempts id now event_id cs db)
      ≡ jobs_of k db + (if event_id == k then length cs else 0)
unfolding create_job_attempts
jobs_of-create k id now event_id [] db = ground arith
jobs_of-create k id now event_id (c ∷ cs) db =
    let rest =
      jobs_of-create k (suc id) now event_id cs
        (record db { jobs = db.jobs ++ new_job id now event_id c ∷ [] }) in
    let one =
      count_where-append (λ j. j.outbox_event_id == k) db.jobs (new_job id now event_id c ∷ []) in
    rest ∙ rw one (ground arith)

pub events-create :
    (id now event_id : ℕ) (cs : List JobConfig) (db : Db)
    → (create_job_attempts id now event_id cs db).events ≡ db.events
unfolding create_job_attempts
events-create id now event_id [] db = refl
events-create id now event_id (c ∷ cs) db = events-create (suc id) now event_id cs _

-- What the two branches of a turn write.
pub dead_lettered :
    (r : Registry) (now : ℕ) (e : OutboxEvent) (p p' : Progress)
    → is_empty (handlers_for (key_of e) r) ≡ true
    → materialize_event r now e p ≡ ok p'
    → p'.db
      ≡ record p.db { events = update_where (λ x. x.id == e.id) event_as_dead_letter p.db.events }
unfolding materialize_event update_event
dead_lettered r now e p p' empty h = ground arith

pub got_jobs :
    (r : Registry) (now : ℕ) (e : OutboxEvent) (p p' : Progress)
    → is_empty (handlers_for (key_of e) r) ≡ false
    → materialize_event r now e p ≡ ok p'
    → p'.db
      ≡ create_job_attempts p.next_id now e.id (map job_config (handlers_for (key_of e) r)) p.db
unfolding materialize_event
got_jobs r now e p p' some_handler h = ground arith

-- More jobs make no event wait.
pub IsSettled-create :
    (k id now event_id : ℕ) (cs : List JobConfig) (db : Db)
    → IsSettled k db
    → IsSettled k (create_job_attempts id now event_id cs db)
IsSettled-create k id now event_id cs db s = rw (events-create id now event_id cs db) (
    All-map _ _ db.events
      (λ x settled same.
        let was = settled same in
        let more = jobs_of-create x.id id now event_id cs db in ground arith)
      s)

pub IsSettled-dead_letter :
    (k id : ℕ) (db : Db)
    → IsSettled k db
    → IsSettled k
        (record db { events = update_where (λ x. x.id == id) event_as_dead_letter db.events })
IsSettled-dead_letter k id db s =
    All-update (λ x. x.id ≡ k → is_waiting db x ≡ false) (λ x. x.id == id) event_as_dead_letter
      db.events (λ x h e same. refl) s

pub materialize_event-keeps :
    (r : Registry) (now : ℕ) (e : OutboxEvent) (p p' : Progress) (k : ℕ)
    → materialize_event r now e p ≡ ok p'
    → IsSettled k p.db
    → IsSettled k p'.db
materialize_event-keeps r now e p p' k h s =
    elim (Bool-cases (is_empty (handlers_for (key_of e) r))) [
      | inl empty ↦ rw (dead_lettered r now e p p' empty h) (IsSettled-dead_letter k e.id p.db s)
      | inr full ↦ rw (got_jobs r now e p p' full h) (
          IsSettled-create k p.next_id now e.id (map job_config (handlers_for (key_of e) r)) p.db s)
    ]

pub dead_letter-settles :
    (id : ℕ) (db : Db) (xs : List OutboxEvent)
    → All
        (λ x. x.id ≡ id → is_waiting db x ≡ false)
        (update_where (λ x. x.id == id) event_as_dead_letter xs)
dead_letter-settles id db [] = tt
dead_letter-settles id db (x ∷ xs) = (
  elim (Bool-cases (x.id == id)) [
    | inl e ↦ rw e (λ _. refl)
    | inr e ↦ rw e (λ same. absurd (ground arith))
  ],
  dead_letter-settles id db xs,
)

pub create-settles :
    (id now event_id : ℕ) (hs : List Handler) (db : Db) (xs : List OutboxEvent)
    → is_empty hs ≡ false
    → All
        (λ x.
          x.id ≡ event_id
          → is_waiting (create_job_attempts id now event_id (map job_config hs) db) x ≡ false)
        xs
create-settles id now event_id hs db [] full = tt
create-settles id now event_id [] db (x ∷ xs) full = absurd (cc)
create-settles id now event_id (h ∷ hs) db (x ∷ xs) full = (
  (λ same.
      let more = jobs_of-create x.id id now event_id (map job_config (h ∷ hs)) db in ground arith),
  create-settles id now event_id (h ∷ hs) db xs full,
)

pub materialize_event-settles :
    (r : Registry) (now : ℕ) (e : OutboxEvent) (p p' : Progress)
    → materialize_event r now e p ≡ ok p'
    → IsSettled e.id p'.db
materialize_event-settles r now e p p' h =
    elim (Bool-cases (is_empty (handlers_for (key_of e) r))) [
      | inl empty ↦
          rw (dead_lettered r now e p p' empty h) (dead_letter-settles e.id p.db p.db.events)
      | inr full ↦
          rw (got_jobs r now e p p' full h)
            (create-settles p.next_id now e.id (handlers_for (key_of e) r) p.db _ full)
    ]

pub materialize_all-keeps :
    (r : Registry) (now : ℕ) (es : List OutboxEvent) (p p' : Progress) (k : ℕ)
    → materialize_all r now es p ≡ ok p'
    → IsSettled k p.db
    → IsSettled k p'.db
unfolding materialize_all
materialize_all-keeps r now [] p p' k h s = rw (sym (ok-injective h)) s
materialize_all-keeps r now (e ∷ es) p p' k h s =
    let (q, first, rest) = >>=-ok (materialize_event r now e p) (materialize_all r now es) h in
    materialize_all-keeps r now es q p' k rest (materialize_event-keeps r now e p q k first s)

pub materialize_all-settles :
    (r : Registry) (now : ℕ) (es : List OutboxEvent) (p p' : Progress)
    → materialize_all r now es p ≡ ok p'
    → All (λ e. IsSettled e.id p'.db) es
unfolding materialize_all
materialize_all-settles r now [] p p' h = tt
materialize_all-settles r now (e ∷ es) p p' h =
    let (q, first, rest) = >>=-ok (materialize_event r now e p) (materialize_all r now es) h in
    (
      materialize_all-keeps r now es q p' e.id rest (materialize_event-settles r now e p q first),
      materialize_all-settles r now es q p' rest,
    )
