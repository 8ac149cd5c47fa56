-- ===== src/Jobs/QueueLeases/Calls.antt =====
-- job-lease.service.ts: the calls for queue leases as data, and what an acquisition finds.
use learnault_api.Base.{
  ℕ, ◌<◌, ◌≡◌, ◌≢◌, Bool, true, false, Option, none, some, List, [], ◌∷◌, ◌++◌, ◌==◌, Bool-cases,
  inl, inr, arith,
}
use learnault_api.Base.Table.{find_where, update_where}
use learnault_api.Base.Rows.{find_where-update_where}
use learnault_api.Jobs.{QueueLease, Db}
use learnault_api.Jobs.QueueLeases.{
  AcquireQueueLeaseOptions, is_free, find_queue, new_lease, with_new_lease, lease_result,
  acquire_queue_lease, renew_queue_lease, release_queue_lease,
}

-- The queue's row carries this token, and its lease ends at this time.
pub record IsHolder (name token until : ℕ) (db : Db) : Type 0 where
  pub row : QueueLease
  pub found : find_queue name db ≡ some row
  pub has_token : row.lease_token ≡ some token
  pub ends_at : row.leased_until ≡ some until

-- A call by a worker, at a time of the database's clock.
pub data Call : Type 0 where
  acquire : AcquireQueueLeaseOptions → (token now : ℕ) → Call
  renew : (name token : ℕ) → Option ℕ → (now : ℕ) → Call
  release : (name token now : ℕ) → Call

unfoldable pub run : Call → Db → Db
run (acquire o token now) db = (acquire_queue_lease o token now db).1
run (renew name token ms now) db = (renew_queue_lease name token ms now db).1
run (release name token now) db = (release_queue_lease name token now db).1

unfoldable pub run_all : List Call → Db → Db
run_all [] db = db
run_all (c ∷ cs) db = run_all cs (run c db)

-- A call before the lease ends that does not present its token.
abbrev pub IsOther : ℕ → ℕ → Call → Type 0
IsOther token until (acquire o token' now) = now < until
IsOther token until (renew name token' ms now) = token' ≢ token
IsOther token until (release name token' now) = token' ≢ token

pub find_where-append_some :
    (p : QueueLease → Bool) (xs ys : List QueueLease) (x : QueueLease)
    → find_where p xs ≡ some x
    → find_where p (xs ++ ys) ≡ some x
find_where-append_some p [] ys x h = cc
find_where-append_some p (y ∷ xs) ys x h = elim (Bool-cases (p y)) [
  | inl e ↦ rw e (rw e at h)
  | inr e ↦ rw e (find_where-append_some p xs ys x (rw e at h))
]

-- An update of other rows leaves the row where it is found.
pub update_other :
    (name : ℕ) (p : QueueLease → Bool) (f : QueueLease → QueueLease) (xs : List QueueLease)
    (x : QueueLease)
    → ((l : QueueLease) → (f l).queue_name ≡ l.queue_name)
    → find_where (λ l. l.queue_name == name) xs ≡ some x
    → p x ≡ false
    → find_where (λ l. l.queue_name == name) (update_where p f xs) ≡ some x
update_other name p f xs x same h e =
    rw (
      find_where-update_where (λ l. l.queue_name == name) p f xs (λ l. ground (arith, same l)),
      h,
      e,
    )

pub acquire_taken :
    (o : AcquireQueueLeaseOptions) (token now : ℕ) (db : Db) (l : QueueLease)
    → find_queue o.queue_name db ≡ some l
    → is_free now l ≡ false
    → acquire_queue_lease o token now db ≡ (none, db)
unfolding acquire_queue_lease
acquire_taken o token now db l h e = rw (h, acquire_queue_lease, e)

pub acquire_free :
    (o : AcquireQueueLeaseOptions) (token now : ℕ) (db : Db) (l : QueueLease)
    → find_queue o.queue_name db ≡ some l
    → is_free now l ≡ true
    → acquire_queue_lease o token now db ≡ (
      some (lease_result o token now),
      record db {
        queue_leases =
            update_where
              (λ k. k.queue_name == o.queue_name)
              (with_new_lease o token now)
              db.queue_leases;
      },
    )
unfolding acquire_queue_lease
acquire_free o token now db l h e = rw (h, acquire_queue_lease, e)

pub acquire_new :
    (o : AcquireQueueLeaseOptions) (token now : ℕ) (db : Db)
    → find_queue o.queue_name db ≡ none
    → acquire_queue_lease o token now db ≡ (
      some (lease_result o token now),
      record db { queue_leases = db.queue_leases ++ new_lease o token now ∷ [] },
    )
unfolding acquire_queue_lease
acquire_new o token now db h = rw (h, acquire_queue_lease)

pub not_free :
    (now until : ℕ) (l : QueueLease)
    → l.leased_until ≡ some until
    → now < until
    → is_free now l ≡ false
not_free now until l h early = ground arith
