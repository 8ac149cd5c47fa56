-- ===== src/Jobs/QueueLeases.antt =====
-- src/lib/transactions/job-lease.service.ts: the leases of whole queues. Each call is one SQL
-- statement, and its `now()` is the database's clock.
pub mod Calls
pub mod Mutex
use learnault_api.Base.{
  ℕ, suc, ◌+◌, Bool, true, false, not, ◌&&◌, Option, none, some, List, [], ◌∷◌, ◌++◌, ltb, leb,
  ◌==◌, if◌then◌else◌,
}
use learnault_api.Base.Table.{find_where, update_where, count_where}
use learnault_api.Jobs.{QueueLease, Db, is_value}

pub record AcquireQueueLeaseOptions : Type 0 where
  pub queue_name : ℕ
  pub lease_ms : Option ℕ
  pub owner : Option ℕ

pub record QueueLeaseResult : Type 0 where
  pub queue_name : ℕ
  pub lease_token : ℕ
  pub leased_until : ℕ

abbrev pub default_queue_lease_ms : ℕ
default_queue_lease_ms = 60_000

abbrev pub queue_lease_ms : Option ℕ → ℕ
queue_lease_ms none = default_queue_lease_ms
queue_lease_ms (some ms) = ms

-- `"leasedUntil" IS NULL OR "leasedUntil" <= now()`
abbrev pub is_free : ℕ → QueueLease → Bool
is_free now l = elim l.leased_until [ none ↦ true | some until ↦ leb until now ]

abbrev pub find_queue : ℕ → Db → Option QueueLease
find_queue name db = find_where (λ l. l.queue_name == name) db.queue_leases

abbrev pub new_lease : AcquireQueueLeaseOptions → ℕ → ℕ → QueueLease
new_lease o token now = record {
  queue_name = o.queue_name;
  lease_token = some token;
  leased_until = some (now + queue_lease_ms o.lease_ms);
  owner = o.owner;
  last_tick_at = none;
}

abbrev pub with_new_lease : AcquireQueueLeaseOptions → ℕ → ℕ → QueueLease → QueueLease
with_new_lease o token now l = record l {
  lease_token = some token;
  leased_until = some (now + queue_lease_ms o.lease_ms);
  owner = o.owner;
}

abbrev pub lease_result : AcquireQueueLeaseOptions → ℕ → ℕ → QueueLeaseResult
lease_result o token now = record {
  queue_name = o.queue_name;
  lease_token = token;
  leased_until = now + queue_lease_ms o.lease_ms;
}

-- `acquireQueueLease`: insert the row, or take it over if its lease is free.
unfoldable pub acquire_queue_lease :
    AcquireQueueLeaseOptions → ℕ → ℕ → Db → Option QueueLeaseResult × Db
acquire_queue_lease o token now db = elim (find_queue o.queue_name db) [
  | none ↦ (
    some (lease_result o token now),
    record db { queue_leases = db.queue_leases ++ new_lease o token now ∷ [] },
  )
  | some l ↦
      if is_free now l
      then (
        some (lease_result o token now),
        record db {
          queue_leases =
              update_where (λ k. k.queue_name == o.queue_name) (with_new_lease o token now)
                db.queue_leases;
        },
      )
      else (none, db)
]

abbrev pub holds_queue : ℕ → ℕ → QueueLease → Bool
holds_queue name token l = l.queue_name == name && is_value l.lease_token token

abbrev pub renewed : ℕ → QueueLease → QueueLease
renewed until l = record l { leased_until = some until }

abbrev pub released : ℕ → QueueLease → QueueLease
released now l = record l { lease_token = none; leased_until = none; last_tick_at = some now }

-- `updated > 0`, and the new table.
abbrev update_held : ℕ → ℕ → (QueueLease → QueueLease) → Db → Bool × Db
update_held name token f db = (
  not (count_where (holds_queue name token) db.queue_leases == 0),
  record db { queue_leases = update_where (holds_queue name token) f db.queue_leases },
)

-- `renewQueueLease`
unfoldable pub renew_queue_lease : ℕ → ℕ → Option ℕ → ℕ → Db → Bool × Db
renew_queue_lease name token lease_ms now =
    update_held name token (renewed (now + queue_lease_ms lease_ms))

-- `releaseQueueLease`
unfoldable pub release_queue_lease : ℕ → ℕ → ℕ → Db → Bool × Db
release_queue_lease name token now = update_held name token (released now)
