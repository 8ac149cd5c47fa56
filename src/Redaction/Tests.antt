-- ===== src/Redaction/Tests.antt =====
-- The redaction filter on concrete inputs, and its theorems applied.
use learnault_api.Base.Table.{All}
use learnault_api.Base.{
  length, ℕ, zero, suc, ◌≡◌, refl, true, false, some, [], ◌∷◌, ◌++◌, inl, replicate,
}
use learnault_api.Redaction.{codes}
use learnault_api.Redaction.Keys.{is_denied_key}
use learnault_api.Redaction.Patterns.{is_denied_value, test_from, match_at, match_run, is_base32}
use learnault_api.Redaction.Walk.{
  text, reference, fields, Json, Fields, Items, Heap, redact_metadata, redacted, truncated_mark,
}
use learnault_api.Redaction.Safe.{Safe}
use learnault_api.Redaction.Bounded.{Within}
use learnault_api.Redaction.Serialize.{Encoding}
use learnault_api.Redaction.Stored.{Stores, serialize_metadata-Safe, serialize_metadata-Within}
use learnault_api.Redaction.Seeds.{stellar_key_denied}

denies_email : is_denied_value (codes "mail jane.doe@example.com") ≡ true
unfolding is_denied_value test_from match_at match_run
denies_email = refl

denies_ip : is_denied_value (codes "from 10.0.0.255") ≡ true
unfolding is_denied_value test_from match_at match_run
denies_ip = refl

denies_bearer : is_denied_value (codes "BEARER abcdefgh1234") ≡ true
unfolding is_denied_value test_from match_at match_run
denies_bearer = refl

denies_phone : is_denied_value (codes "+2348012345678") ≡ true
unfolding is_denied_value test_from match_at match_run
denies_phone = refl

keeps_status : is_denied_value (codes "PENDING -> ACTIVE") ≡ false
unfolding is_denied_value test_from match_at match_run
keeps_status = refl

denies_user_agent : is_denied_key (codes "user_Agent") ≡ true
unfolding is_denied_key
denies_user_agent = refl

keeps_status_code : is_denied_key (codes "statusCode") ≡ false
unfolding is_denied_key
keeps_status_code = refl

-- An object with a password, an amount and itself.
abbrev heap : Heap
heap = record {
  object_at =
      λ id. fields ((codes "pw_password", text (codes "x")) ∷ (codes "self", reference 1) ∷ []);
  iso = λ n. [];
}

redacts_password :
    (redact_metadata heap (some 1)).value
    ≡ some (
        Json.object (
          Fields.field (codes "pw_password") (Json.text redacted) (
            Fields.field (codes "self") (Json.text truncated_mark) (
              Fields.field
                (codes "_redacted")
                (Json.array (Items.item (Json.text (codes "pw_password")) Items.no_items))
                Fields.no_fields))))
unfolding redact_metadata is_denied_key
redacts_password = refl

abbrev encoding : Encoding
encoding = record { stringify = λ j. codes "{}"; byte_length = length }

serialize_metadata-Safe_example : Stores (Safe heap) encoding heap 1
serialize_metadata-Safe_example = serialize_metadata-Safe encoding heap 1

serialize_metadata-Within_example : Stores (Within 5) encoding heap 1
serialize_metadata-Within_example = serialize_metadata-Within encoding heap 1

All-replicate : (n : ℕ) → All (λ x. is_base32 x ≡ true) (replicate n b'A')
All-replicate zero = tt
All-replicate (suc n) = (refl, All-replicate n)

stellar_key_denied_example :
    is_denied_value (codes "seed " ++ (b'S' ∷ (replicate 55 b'A' ++ codes "."))) ≡ true
stellar_key_denied_example =
    stellar_key_denied b'S' (codes "seed ") (replicate 55 b'A') (codes ".") (inl refl) refl
      (All-replicate 55) refl refl
