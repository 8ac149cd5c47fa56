-- ===== src/Accounts/Diagram.antt =====
-- account-lifecycle.service.ts: the statuses of deletion requests.
use learnault_api.Base.{
  ℕ, ◌+◌, ◌≡◌, ◌≢◌, ◌⊎◌, ap, ◌∙◌, Bool, true, false, Option, some, List, ◌==◌, leb, arith,
  Bool-cases, Option-cases, inl, inr,
}
use learnault_api.Base.Table.{find_where, update_where, All}
use learnault_api.Base.Rows.{find_where-All, find_where-true, find_where-update_where}
use learnault_api.Base.Unique.{IsUnique, updated, find_where-none}
use learnault_api.Accounts.{
  DeletionStatus, pending, processing, completed, cancelled, failed, DeletionRequest, is_pending,
  is_processing,
}
use learnault_api.Accounts.Sweep.{after_failure}
use learnault_api.Accounts.Steps.{Live}

-- The diagram of a request's status.
abbrev pub can_follow : DeletionStatus → DeletionStatus → Bool
can_follow pending processing = true
can_follow pending cancelled = true
can_follow processing completed = true
can_follow processing failed = true
can_follow processing pending = true
can_follow _ _ = false

abbrev pub is_terminal : DeletionStatus → Bool
is_terminal pending = false
is_terminal processing = false
is_terminal _ = true

-- A request's row before and after a step.
infix 40 ◌⇒◌
pub data ◌⇒◌ : DeletionRequest → DeletionRequest → Type 0 where
  stay : {r : DeletionRequest} → r ⇒ r
  edge : {r r' : DeletionRequest} → can_follow r.status r'.status ≡ true → r ⇒ r'

abbrev pub find_request : ℕ → List DeletionRequest → Option DeletionRequest
find_request id rs = find_where (λ r. r.id == id) rs

-- The request is there and is being processed.
abbrev pub IsProcessed : List DeletionRequest → DeletionRequest → Type 0
IsProcessed rs read =
    (r : DeletionRequest) × (find_request read.id rs ≡ some r) × (r.status ≡ processing)

-- Ids are unique, and every claimed request is being processed.
pub record Inv (s : Live) : Type 0 where
  pub ids : IsUnique (λ r. r.id) s.db.requests
  pub processed : All (IsProcessed s.db.requests) s.claimed

abbrev pub Follows : ℕ → DeletionRequest → List DeletionRequest → Type 0
Follows id r rs' = (r' : DeletionRequest) × (find_request id rs' ≡ some r') × (r ⇒ r')

abbrev pub KeepsId : (DeletionRequest → DeletionRequest) → Type 0
KeepsId f = (r : DeletionRequest) → (f r).id ≡ r.id

pub found_updated :
    (id : ℕ) (p : DeletionRequest → Bool) (f : DeletionRequest → DeletionRequest)
    (rs : List DeletionRequest) (r : DeletionRequest)
    → KeepsId f
    → find_request id rs ≡ some r
    → find_request id (update_where p f rs) ≡ some (updated p f r)
found_updated id p f rs r same found =
    rw (find_where-update_where (λ q. q.id == id) p f rs (λ q. ap (λ n. n == id) (same q)), found)

pub update-Follows :
    (id : ℕ) (p : DeletionRequest → Bool) (f : DeletionRequest → DeletionRequest)
    (rs : List DeletionRequest) (r : DeletionRequest)
    → KeepsId f
    → find_request id rs ≡ some r
    → (p r ≡ true → can_follow r.status (f r).status ≡ true)
    → Follows id r (update_where p f rs)
update-Follows id p f rs r same found k = elim (Bool-cases (p r)) [
  | inl e ↦ (f r, rw (found_updated id p f rs r same found, e), edge (k e))
  | inr e ↦ (r, rw (found_updated id p f rs r same found, e), stay)
]

pub found_by_id :
    (id : ℕ) (p : DeletionRequest → Bool) (rs : List DeletionRequest) (r : DeletionRequest)
    → IsUnique (λ q. q.id) rs
    → find_where p rs ≡ some r
    → r.id ≡ id
    → find_request id rs ≡ some r
found_by_id id p rs r ids found is = elim (Option-cases (find_request id rs)) [
  | inl e ↦
      absurd (find_where-All (λ q. q.id ≢ id) p rs r (find_where-none (λ q. q.id) id rs e) found is)
  | inr (q, e) ↦
      let only =
        find_where-All (λ x. All (λ y. x.id ≡ y.id → x ≡ y) rs) (λ x. x.id == id) rs q ids e in
      let at_id = find_where-true (λ x. x.id == id) rs q e in
      e ∙ ap some (find_where-All (λ y. q.id ≡ y.id → q ≡ y) p rs r only found (ground arith))
]

pub after_failure-id :
    (read : DeletionRequest) (error now : ℕ) → KeepsId (after_failure read error now)
after_failure-id read error now r =
    elim (Bool-cases (leb read.max_attempts (read.attempt_count + 1))) [
      | inl e ↦ rw e
      | inr e ↦ rw e
    ]

pub after_failure-edge :
    (read : DeletionRequest) (error now : ℕ) (r : DeletionRequest)
    → r.status ≡ processing
    → can_follow r.status (after_failure read error now r).status ≡ true
after_failure-edge read error now r is =
    elim (Bool-cases (leb read.max_attempts (read.attempt_count + 1))) [
      | inl e ↦ rw (e, is)
      | inr e ↦ rw (e, is)
    ]

pub processing_of : (s : DeletionStatus) → is_processing s ≡ true → s ≡ processing
processing_of s h = ground arith

pub pending_edge :
    (s t : DeletionStatus)
    → is_pending s ≡ true
    → (t ≡ processing) ⊎ (t ≡ cancelled)
    → can_follow s t ≡ true
pending_edge s t p (inl e) = ground arith
pending_edge s t p (inr e) = ground arith
