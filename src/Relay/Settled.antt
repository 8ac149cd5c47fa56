-- ===== src/Relay/Settled.antt =====
-- outbox-relay.ts: a whole run of `materializePending`.
use learnault_api.Base.{
  ℕ, ◌≡◌, refl, true, none, List, [], ◌∷◌, ◌==◌, Option-cases, Bool-cases, inl, inr, arith,
}
use learnault_api.Base.Result.{ok}
use learnault_api.Base.Inversion.{returns}
use learnault_api.Base.Table.{
  update_where, find_where, All, All-map, All-take, All-sort_by, All-filter_where,
}
use learnault_api.Base.Rows.{find_where-update_where}
use learnault_api.Jobs.{OutboxEvent, Db}
use learnault_api.Jobs.Finish.{update_event, event_as_dead_letter}
use learnault_api.Registry.{Registry, handlers_for, is_empty, is_some}
use learnault_api.Relay.{
  key_of, is_waiting, waiting_events, Progress, materialize_event, materialize_all,
  materialize_pending,
}
use learnault_api.Relay.Turns.{
  IsSettled, events-create, dead_lettered, got_jobs, materialize_all-settles,
}

-- An event of the table, by its id.
abbrev IsRow : List OutboxEvent → ℕ → Type 0
IsRow xs k = is_some (find_where (λ x. x.id == k) xs) ≡ true

IsRow-there : (x : OutboxEvent) (xs : List OutboxEvent) (k : ℕ) → IsRow xs k → IsRow (x ∷ xs) k
IsRow-there x xs k h = elim (Bool-cases (x.id == k)) [ inl e ↦ rw e refl | inr e ↦ rw e h ]

IsRow-here : (x : OutboxEvent) (xs : List OutboxEvent) → IsRow (x ∷ xs) x.id
IsRow-here x xs = let same : (x.id == x.id) ≡ true = ground arith in rw same refl

rows_found : (xs : List OutboxEvent) → All (λ e. IsRow xs e.id) xs
rows_found [] = tt
rows_found (x ∷ xs) = (IsRow-here x xs, All-map _ _ xs (λ e. IsRow-there x xs e.id) (rows_found xs))

IsRow-dead_letter :
    (id k : ℕ) (xs : List OutboxEvent)
    → IsRow xs k
    → IsRow (update_where (λ x. x.id == id) event_as_dead_letter xs) k
IsRow-dead_letter id k xs h =
    rw
      (find_where-update_where (λ x. x.id == k) (λ x. x.id == id) event_as_dead_letter xs
        (λ _. refl))
      (elim (Option-cases (find_where (λ x. x.id == k) xs)) [
        | inl e ↦ let bad : is_some {A = OutboxEvent} none ≡ true = rw e at h in absurd (cc)
        | inr (x, e) ↦ rw e refl
      ])

-- A turn succeeds on an event of the table, and the table keeps its ids.
materialize_event-succeeds :
    (r : Registry) (now : ℕ) (e : OutboxEvent) (p : Progress)
    → IsRow p.db.events e.id
    → (p' : Progress) × (materialize_event r now e p ≡ ok p')
unfolding materialize_event update_event
materialize_event-succeeds r now e p row = returns (materialize_event r now e p) (λ error h.
    elim (Option-cases (find_where (λ x. x.id == e.id) p.db.events)) [
      | inl missing ↦
          let bad : is_some {A = OutboxEvent} none ≡ true = rw missing at row in absurd (cc)
      | inr (x, found) ↦ ground arith
    ])

materialize_event-IsRow :
    (r : Registry) (now : ℕ) (e : OutboxEvent) (p p' : Progress) (k : ℕ)
    → materialize_event r now e p ≡ ok p'
    → IsRow p.db.events k
    → IsRow p'.db.events k
materialize_event-IsRow r now e p p' k h row =
    elim (Bool-cases (is_empty (handlers_for (key_of e) r))) [
      | inl empty ↦
          rw (dead_lettered r now e p p' empty h) (IsRow-dead_letter e.id k p.db.events row)
      | inr full ↦ rw (got_jobs r now e p p' full h, events-create) row
    ]

materialize_all-succeeds :
    (r : Registry) (now : ℕ) (es : List OutboxEvent) (p : Progress)
    → All (λ e. IsRow p.db.events e.id) es
    → (p' : Progress) × (materialize_all r now es p ≡ ok p')
unfolding materialize_all
materialize_all-succeeds r now [] p rows = (p, refl)
materialize_all-succeeds r now (e ∷ es) p (row, rows) =
    let (q, first) = materialize_event-succeeds r now e p row in
    let kept = All-map _ _ es (λ x. materialize_event-IsRow r now e p q x.id first) rows in
    let (p', rest) = materialize_all-succeeds r now es q kept in
    (p', rw (first, materialize_all) rest)

-- `materializePending` does not fail, and no event that it read waits for jobs afterwards: an event
-- gets its jobs in one run only, or is a dead letter.
pub materialize_pending-settles :
    (r : Registry) (batch_size id now : ℕ) (db : Db)
    → (p : Progress) × (materialize_pending r batch_size id now db ≡ ok p)
      × All (λ e. IsSettled e.id p.db) (waiting_events batch_size db)
unfolding materialize_pending waiting_events
materialize_pending-settles r batch_size id now db =
    let start : Progress = record { materialized = 0; unhandled = 0; next_id = id; db = db } in
    let rows =
      All-take (λ e. IsRow db.events e.id) batch_size _
        (All-sort_by (λ e. IsRow db.events e.id) (λ e. e.created_at) _
          (All-filter_where (λ e. IsRow db.events e.id) (is_waiting db) db.events
            (rows_found db.events))) in
    let (p, done) = materialize_all-succeeds r now (waiting_events batch_size db) start rows in
    (p, done, materialize_all-settles r now (waiting_events batch_size db) start p done)
