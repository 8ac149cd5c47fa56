-- ===== src/Jobs/QueueLeases/Mutex.antt =====
-- job-lease.service.ts: two workers and one queue.
use mathlib.Core.Path.{subst}
use mathlib.Core.Option.{some-injective}
use learnault_api.Base.{
  ℕ, ◌+◌, ◌<◌, ◌≡◌, ◌≢◌, refl, sym, ap, ◌∙◌, Bool, true, false, Option, none, some, List, [], ◌∷◌,
  ◌++◌, ◌==◌, Option-cases, Bool-cases, inl, inr, arith,
}
use learnault_api.Base.Table.{find_where, update_where, All}
use learnault_api.Base.Rows.{find_where-true, find_where-update_where}
use learnault_api.Jobs.{QueueLease, Db}
use learnault_api.Jobs.QueueLeases.{
  AcquireQueueLeaseOptions, QueueLeaseResult, queue_lease_ms, is_free, find_queue, new_lease,
  with_new_lease, lease_result, acquire_queue_lease, holds_queue, renewed, released,
  renew_queue_lease, release_queue_lease,
}
use learnault_api.Jobs.QueueLeases.Calls.{
  IsHolder, Call, acquire, renew, release, run, run_all, IsOther, find_where-append_some,
  update_other, acquire_taken, acquire_free, acquire_new, not_free,
}

module _ (name token until : ℕ) where
  pub refused :
      (o : AcquireQueueLeaseOptions) (token' now : ℕ) (db : Db)
      → IsHolder name token until db
      → o.queue_name ≡ name
      → now < until
      → acquire_queue_lease o token' now db ≡ (none, db)
  refused o token' now db h same early =
      acquire_taken o token' now db h.row (ap (λ q. find_queue q db) same ∙ h.found)
        (not_free now until h.row h.ends_at early)

  acquire_free-IsHolder :
      (o : AcquireQueueLeaseOptions) (token' now : ℕ) (db : Db) (l : QueueLease)
      → now < until
      → IsHolder name token until db
      → find_queue o.queue_name db ≡ some l
      → is_free now l ≡ true
      → IsHolder name token until (acquire_queue_lease o token' now db).1
  acquire_free-IsHolder o token' now db l early h found free =
      let named = find_where-true (λ k. k.queue_name == name) db.queue_leases h.row h.found in
      let other : (h.row.queue_name == o.queue_name) ≡ false =
        elim (Bool-cases (h.row.queue_name == o.queue_name)) [
          | inl e ↦
              let same : o.queue_name ≡ name = ground arith in
              let l_is = sym found ∙ ap (λ q. find_queue q db) same ∙ h.found in
              let busy = not_free now until h.row h.ends_at early in absurd (ground arith)
          | inr e ↦ e
        ] in
      rw (acquire_free o token' now db l found free) (record {
        row = h.row;
        found =
            update_other name (λ k. k.queue_name == o.queue_name) (with_new_lease o token' now)
              db.queue_leases h.row (λ _. refl) h.found other;
        has_token = h.has_token;
        ends_at = h.ends_at;
      })

  acquire-IsHolder :
      (o : AcquireQueueLeaseOptions) (token' now : ℕ) (db : Db)
      → now < until
      → IsHolder name token until db
      → IsHolder name token until (acquire_queue_lease o token' now db).1
  acquire-IsHolder o token' now db early h = elim (Option-cases (find_queue o.queue_name db)) [
    | inl absent ↦ rw (acquire_new o token' now db absent) (record {
      row = h.row;
      found =
          find_where-append_some (λ k. k.queue_name == name) db.queue_leases
            (new_lease o token' now ∷ []) h.row h.found;
      has_token = h.has_token;
      ends_at = h.ends_at;
    })
    | inr (l, found) ↦ elim (Bool-cases (is_free now l)) [
      | inl free ↦ acquire_free-IsHolder o token' now db l early h found free
      | inr taken ↦ rw (acquire_taken o token' now db l found taken) h
    ]
  ]

  -- Renewing and releasing under another token pass the row by.
  update_held-IsHolder :
      (name' token' : ℕ) (f : QueueLease → QueueLease) (db : Db)
      → token' ≢ token
      → ((l : QueueLease) → (f l).queue_name ≡ l.queue_name)
      → IsHolder name token until db
      → IsHolder name token until
          (record db { queue_leases = update_where (holds_queue name' token') f db.queue_leases })
  update_held-IsHolder name' token' f db ne same h =
      let token_is = h.has_token in
      record {
        row = h.row;
        found =
            update_other name (holds_queue name' token') f db.queue_leases h.row same h.found
              (ground arith);
        has_token = h.has_token;
        ends_at = h.ends_at;
      }

  run-IsHolder :
      (c : Call) (db : Db)
      → IsOther token until c
      → IsHolder name token until db
      → IsHolder name token until (run c db)
  unfolding run
  run-IsHolder (acquire o token' now) db early h = acquire-IsHolder o token' now db early h
  run-IsHolder (renew name' token' ms now) db ne h =
      unfold renew_queue_lease in
      update_held-IsHolder name' token' (renewed (now + queue_lease_ms ms)) db ne (λ _. refl) h
  run-IsHolder (release name' token' now) db ne h =
      unfold release_queue_lease in
      update_held-IsHolder name' token' (released now) db ne (λ _. refl) h

  pub run_all-IsHolder :
      (cs : List Call) (db : Db)
      → All (IsOther token until) cs
      → IsHolder name token until db
      → IsHolder name token until (run_all cs db)
  unfolding run_all
  run_all-IsHolder [] db others h = h
  run_all-IsHolder (c ∷ cs) db (other, others) h =
      run_all-IsHolder cs (run c db) others (run-IsHolder c db other h)

find_where-append_none :
    (p : QueueLease → Bool) (xs : List QueueLease) (x : QueueLease)
    → find_where p xs ≡ none
    → p x ≡ true
    → find_where p (xs ++ x ∷ []) ≡ some x
find_where-append_none p [] x h e = rw e
find_where-append_none p (y ∷ xs) x h e = elim (Bool-cases (p y)) [
  | inl g ↦ absurd (ground arith)
  | inr g ↦ rw g (find_where-append_none p xs x (rw g at h) e)
]

-- How a successful call ends.
abbrev pub Acquired : AcquireQueueLeaseOptions → ℕ → ℕ → Option QueueLeaseResult × Db → Type 0
Acquired o token now (m, db) =
    (m ≡ some (lease_result o token now))
    × IsHolder o.queue_name token (now + queue_lease_ms o.lease_ms) db

pub acquire_queue_lease-Acquired :
    (o : AcquireQueueLeaseOptions) (token now : ℕ) (db : Db) (r : QueueLeaseResult)
    → (acquire_queue_lease o token now db).0 ≡ some r
    → Acquired o token now (acquire_queue_lease o token now db)
acquire_queue_lease-Acquired o token now db r h = elim (Option-cases (find_queue o.queue_name db)) [
  | inl absent ↦ rw (acquire_new o token now db absent) (
    refl,
    record {
      row = new_lease o token now;
      found =
          find_where-append_none (λ l. l.queue_name == o.queue_name) db.queue_leases
            (new_lease o token now) absent (ground arith);
      has_token = refl;
      ends_at = refl;
    },
  )
  | inr (l, found) ↦ elim (Bool-cases (is_free now l)) [
    | inl free ↦
        let named = find_where-true (λ k. k.queue_name == o.queue_name) db.queue_leases l found in
        rw (acquire_free o token now db l found free) (
          refl,
          record {
            row = with_new_lease o token now l;
            found = rw (
              find_where-update_where (λ k. k.queue_name == o.queue_name)
                  (λ k. k.queue_name == o.queue_name) (with_new_lease o token now) db.queue_leases
                  (λ _. refl),
              found,
              named,
            );
            has_token = refl;
            ends_at = refl;
          },
        )
    | inr taken ↦ absurd (ground (arith, acquire_taken o token now db l found taken))
  ]
]

-- A successful `acquireQueueLease` makes the caller the holder until the time that it returns.
pub acquire_queue_lease-holds :
    (o : AcquireQueueLeaseOptions) (token now : ℕ) (db : Db) (r : QueueLeaseResult)
    → (acquire_queue_lease o token now db).0 ≡ some r
    → IsHolder o.queue_name token r.leased_until (acquire_queue_lease o token now db).1
acquire_queue_lease-holds o token now db r h =
    let (m, holder) = acquire_queue_lease-Acquired o token now db r h in
    subst
      (λ (x : QueueLeaseResult).
        IsHolder o.queue_name token x.leased_until (acquire_queue_lease o token now db).1)
      (some-injective (lease_result o token now) r (sym m ∙ h)) holder

-- While a worker holds a queue no other call gets its lease before that ends, whatever calls
-- without its token, made before that end, acquire, renew and release in between.
pub acquire_queue_lease_exclusive :
    (o o' : AcquireQueueLeaseOptions) (token now token' now' : ℕ) (db : Db) (r : QueueLeaseResult)
    (cs : List Call)
    → (acquire_queue_lease o token now db).0 ≡ some r
    → All (IsOther token r.leased_until) cs
    → o'.queue_name ≡ o.queue_name
    → now' < r.leased_until
    → (acquire_queue_lease o' token' now' (run_all cs (acquire_queue_lease o token now db).1)).0
      ≡ none
acquire_queue_lease_exclusive o o' token now token' now' db r cs h others same early =
    let held = acquire_queue_lease-holds o token now db r h in
    let kept = run_all-IsHolder o.queue_name token r.leased_until cs _ others held in
    ap (λ (x : Option QueueLeaseResult × Db). x.0)
      (refused o.queue_name token r.leased_until o' token' now' _ kept same early)
