-- ===== src/Accounts/Erased.antt =====
-- account-lifecycle.service.ts: what a finalization leaves of a user.
use learnault_api.Base.{
  ◌⊎◌, false, some, ℕ, ◌≡◌, ◌≢◌, refl, not, none, List, ◌==◌, arith, Bool-cases, inl, inr,
}
use learnault_api.Base.Table.{update_where, All, All-filter, All-append}
use learnault_api.Base.Unique.{updated, All-updated, All-every}
use learnault_api.Accounts.{
  completed, DeletionRequest, redacted, about, deleted, User, AuditLog, Db,
}
use learnault_api.Accounts.Sweep.{
  as_completed, Tombstone, as_tombstone, not_owned, as_scrubbed, finalize_deletion,
}

-- No row of a table belongs to the user.
abbrev pub NotOwned : ℕ → List ℕ → Type 0
NotOwned user_id owners = All (λ o. o ≢ user_id) owners

not_owned-NotOwned : (user_id : ℕ) (owners : List ℕ) → NotOwned user_id (not_owned user_id owners)
not_owned-NotOwned user_id owners =
    All-filter (λ o. o ≢ user_id) (λ o. not (o == user_id)) owners
      (λ o e same. absurd (ground arith))

-- The columns of a tombstone that a finalization writes.
pub record IsTombstone (t : Tombstone) (now : ℕ) (u : User) : Type 0 where
  pub status : u.status ≡ deleted
  pub status_changed_at : u.status_changed_at ≡ some now
  pub email : u.email ≡ t.email
  pub username : u.username ≡ t.username
  pub password : u.password ≡ t.password
  pub wallet_address : u.wallet_address ≡ none
  pub is_verified : u.is_verified ≡ false
  pub last_login_at : u.last_login_at ≡ none

-- A row of the audit log says nothing of the user but that the request was finalized.
abbrev pub IsScrubbed : ℕ → AuditLog → Type 0
IsScrubbed id a =
    (a.ip_address ≡ none)
    × (a.user_agent ≡ none)
    × ((a.metadata ≡ redacted) ⊎ (a.metadata ≡ about id))

-- What is left of a user after a finalization.
pub record IsErased (t : Tombstone) (id user_id now : ℕ) (db : Db) : Type 0 where
  pub row : All (λ u. u.id ≡ user_id → IsTombstone t now u) db.users
  pub sessions : All (λ s. s.user_id ≢ user_id) db.sessions
  pub verification_tokens : NotOwned user_id db.personal.verification_tokens
  pub device_tokens : NotOwned user_id db.personal.device_tokens
  pub sync_events : NotOwned user_id db.personal.sync_events
  pub notification_logs : NotOwned user_id db.personal.notification_logs
  pub notification_preferences : NotOwned user_id db.personal.notification_preferences
  pub email_deliveries : NotOwned user_id db.personal.email_deliveries
  pub completions : NotOwned user_id db.personal.completions
  pub referral_codes : NotOwned user_id db.personal.referral_codes
  pub data_export_requests : NotOwned user_id db.personal.data_export_requests
  pub audit : All (λ a. a.user_id ≡ user_id → IsScrubbed id a) db.audit
  pub request :
      All (λ r. r.id ≡ id → (r.status ≡ completed) × (r.completed_at ≡ some now)) db.requests

completed_row :
    (id now : ℕ) (r : DeletionRequest)
    → (updated (λ q. q.id == id) (as_completed now) r).id ≡ id
    → ((updated (λ q. q.id == id) (as_completed now) r).status ≡ completed)
      × ((updated (λ q. q.id == id) (as_completed now) r).completed_at ≡ some now)
completed_row id now r = elim (Bool-cases (r.id == id)) [
  | inl e ↦ rw e (λ same. (refl, refl))
  | inr e ↦ rw e (λ same. absurd (ground arith))
]

tombstone_row :
    (t : Tombstone) (user_id now : ℕ) (u : User)
    → (updated (λ v. v.id == user_id) (as_tombstone t now) u).id ≡ user_id
    → IsTombstone t now (updated (λ v. v.id == user_id) (as_tombstone t now) u)
tombstone_row t user_id now u = elim (Bool-cases (u.id == user_id)) [
  | inl e ↦ rw e (λ same. record {
    status = refl;
    status_changed_at = refl;
    email = refl;
    username = refl;
    password = refl;
    wallet_address = refl;
    is_verified = refl;
    last_login_at = refl;
  })
  | inr e ↦ rw e (λ same. absurd (ground arith))
]

as_scrubbed-IsScrubbed :
    (id user_id : ℕ) (a : AuditLog)
    → (updated (λ b. b.user_id == user_id) as_scrubbed a).user_id ≡ user_id
    → IsScrubbed id (updated (λ b. b.user_id == user_id) as_scrubbed a)
as_scrubbed-IsScrubbed id user_id a = elim (Bool-cases (a.user_id == user_id)) [
  | inl e ↦ rw e (λ same. (refl, refl, inl refl))
  | inr e ↦ rw e (λ same. absurd (ground arith))
]

-- A finalization leaves the user's row deleted, with the tombstone's e-mail, name and password, without a
-- wallet, a verification or a last login; none of the user's sessions or rows of the personal tables;
-- no address, agent or metadata in the user's audit log but the id of the request; and the request
-- completed. (The phone number is not among the columns.)
pub finalize_deletion-IsErased :
    (t : Tombstone) (id user_id now : ℕ) (db : Db)
    → IsErased t id user_id now (finalize_deletion t id user_id now db)
unfolding finalize_deletion
finalize_deletion-IsErased t id user_id now db = record {
  row =
      All-updated _ (λ u. u.id == user_id) (as_tombstone t now) db.users
        (All-every (tombstone_row t user_id now) db.users);
  sessions =
      All-filter (λ s. s.user_id ≢ user_id) (λ s. not (s.user_id == user_id)) db.sessions
        (λ s e same. absurd (ground arith));
  verification_tokens = not_owned-NotOwned user_id db.personal.verification_tokens;
  device_tokens = not_owned-NotOwned user_id db.personal.device_tokens;
  sync_events = not_owned-NotOwned user_id db.personal.sync_events;
  notification_logs = not_owned-NotOwned user_id db.personal.notification_logs;
  notification_preferences = not_owned-NotOwned user_id db.personal.notification_preferences;
  email_deliveries = not_owned-NotOwned user_id db.personal.email_deliveries;
  completions = not_owned-NotOwned user_id db.personal.completions;
  referral_codes = not_owned-NotOwned user_id db.personal.referral_codes;
  data_export_requests = not_owned-NotOwned user_id db.personal.data_export_requests;
  audit =
      All-append _ (update_where (λ a. a.user_id == user_id) as_scrubbed db.audit) _
        (All-updated _ (λ a. a.user_id == user_id) as_scrubbed db.audit
          (All-every (as_scrubbed-IsScrubbed id user_id) db.audit))
        ((λ same. (refl, refl, inr refl)), tt);
  request =
      All-updated _ (λ r. r.id == id) (as_completed now) db.requests
        (All-every (completed_row id now) db.requests);
}
