-- ===== src/Wallets/Kms.antt =====
-- src/services/kms: the `KmsSecretStore` interface as operations with laws, and `InMemoryEnvelopeKms`,
-- which implements it. What the encryption makes of a secret is one number; an entry keeps it.
use learnault_api.Base.{
  ℕ, ◌≡◌, ap, sym, Bool, true, Option, none, some, List, [], ◌∷◌, ◌++◌, ◌==◌, if◌then◌else◌,
  Bool-cases, Option-cases, inl, inr, arith,
}
use learnault_api.Base.Result.{Result, ok, throw, ◌>>◌, throw_if}
use learnault_api.Base.Inversion.{ok-injective}
use mathlib.Core.Option.{some-injective}
use learnault_api.Base.Table.{find_where}
use learnault_api.Wallets.{StoredStellarKey}

-- The hooks of one call: whether each throws.
pub record Hooks : Type 0 where
  pub before_lookup : Bool
  pub before_store : Bool
  pub after_store : Bool

-- `StoreStellarSecretInput`
pub record StoreInput : Type 0 where
  pub idempotency_key : ℕ
  pub public_key : ℕ
  pub secret : ℕ

pub data KmsError : Type 0 where
  hook_failed reference_not_found : KmsError

-- The two operations that provisioning uses, by the faults that strike and the random reference, and
-- what the interface's comment asks of them: a lookup answers what is kept, a store that returns has
-- kept what it returns, and no store changes what is kept under a key.
pub record KmsSecretStore (S : Type 0) : Type 1 where
  pub kept : ℕ → S → Option StoredStellarKey
  pub find_by_idempotency_key : Hooks → ℕ → S → Result KmsError (Option StoredStellarKey)
  pub store_stellar_secret : Hooks → ℕ → StoreInput → S → Result KmsError StoredStellarKey × S
  pub find_kept :
      (h : Hooks) (key : ℕ) (s : S) (o : Option StoredStellarKey)
      → find_by_idempotency_key h key s ≡ ok o
      → o ≡ kept key s
  pub store_kept :
      (h : Hooks) (fresh : ℕ) (input : StoreInput) (s : S) (m : StoredStellarKey)
      → (store_stellar_secret h fresh input s).0 ≡ ok m
      → kept input.idempotency_key (store_stellar_secret h fresh input s).1 ≡ some m
  pub store_keeps :
      (h : Hooks) (fresh : ℕ) (input : StoreInput) (s : S) (key : ℕ) (m : StoredStellarKey)
      → kept key s ≡ some m
      → kept key (store_stellar_secret h fresh input s).1 ≡ some m

-- `EncryptedEntry`, with its key in the map.
pub record EncryptedEntry : Type 0 where
  pub idempotency_key : ℕ
  pub material : StoredStellarKey
  pub ciphertext : ℕ

abbrev pub Entries : Type 0
Entries = List EncryptedEntry

abbrev in_memory_provider : ℕ
in_memory_provider = 1

abbrev material_of : Option EncryptedEntry → Option StoredStellarKey
material_of none = none
material_of (some e) = some e.material

abbrev pub kept_in_memory : ℕ → Entries → Option StoredStellarKey
kept_in_memory key es = material_of (find_where (λ e. e.idempotency_key == key) es)

-- `findByIdempotencyKey`
unfoldable pub find_in_memory : Hooks → ℕ → Entries → Result KmsError (Option StoredStellarKey)
find_in_memory h key es = throw_if h.before_lookup hook_failed >> ok (kept_in_memory key es)

abbrev new_entry : (ℕ → ℕ) → ℕ → StoreInput → EncryptedEntry
new_entry encrypt fresh input = record {
  idempotency_key = input.idempotency_key;
  material = record {
    provider = in_memory_provider;
    opaque_reference = fresh;
    key_version = some 1;
    public_key = input.public_key;
  };
  ciphertext = encrypt input.secret;
}

-- The rest of `storeStellarSecret`, for a key that has no entry.
unfoldable pub add_entry :
    (ℕ → ℕ) → Hooks → ℕ → StoreInput → Entries → Result KmsError StoredStellarKey × Entries
add_entry encrypt h fresh input es =
    let e = new_entry encrypt fresh input in
    if h.before_store
    then (throw hook_failed, es)
    else (throw_if h.after_store hook_failed >> ok e.material, es ++ e ∷ [])

-- `storeStellarSecret`; the cipher under the master key is a parameter.
unfoldable pub store_in_memory :
    (ℕ → ℕ) → Hooks → ℕ → StoreInput → Entries → Result KmsError StoredStellarKey × Entries
unfolding add_entry
store_in_memory encrypt h fresh input es =
    elim (find_where (λ e. e.idempotency_key == input.idempotency_key) es) [
      | some e ↦ (ok e.material, es)
      | none ↦ add_entry encrypt h fresh input es
    ]

pub find_in_memory-kept :
    (h : Hooks) (key : ℕ) (es : Entries) (o : Option StoredStellarKey)
    → find_in_memory h key es ≡ ok o
    → o ≡ kept_in_memory key es
unfolding find_in_memory
find_in_memory-kept h key es o e = elim (Bool-cases h.before_lookup) [
  | inl g ↦ absurd (cc (rw g at e))
  | inr g ↦ sym (ok-injective (rw g at e))
]

find_where-append :
    (key : ℕ) (es : Entries) (e x : EncryptedEntry)
    → find_where (λ y. y.idempotency_key == key) es ≡ some x
    → find_where (λ y. y.idempotency_key == key) (es ++ e ∷ []) ≡ some x
find_where-append key [] e x h = cc
find_where-append key (y ∷ es) e x h = elim (Bool-cases (y.idempotency_key == key)) [
  | inl g ↦ rw g (rw g at h)
  | inr g ↦ rw g (find_where-append key es e x (rw g at h))
]

find_where-last :
    (key : ℕ) (es : Entries) (e : EncryptedEntry)
    → find_where (λ y. y.idempotency_key == key) es ≡ none
    → (e.idempotency_key == key) ≡ true
    → find_where (λ y. y.idempotency_key == key) (es ++ e ∷ []) ≡ some e
find_where-last key [] e h same = rw same
find_where-last key (y ∷ es) e h same = elim (Bool-cases (y.idempotency_key == key)) [
  | inl g ↦ absurd (cc (rw g at h))
  | inr g ↦ rw g (find_where-last key es e (rw g at h) same)
]

add_entry-kept :
    (encrypt : ℕ → ℕ) (h : Hooks) (fresh : ℕ) (input : StoreInput) (es : Entries)
    (m : StoredStellarKey)
    → find_where (λ e. e.idempotency_key == input.idempotency_key) es ≡ none
    → (add_entry encrypt h fresh input es).0 ≡ ok m
    → kept_in_memory input.idempotency_key (add_entry encrypt h fresh input es).1 ≡ some m
unfolding add_entry
add_entry-kept encrypt h fresh input es m absent e = elim (Bool-cases h.before_store) [
  | inl g ↦ absurd (cc (rw g at e))
  | inr g ↦ elim (Bool-cases h.after_store) [
    | inl g' ↦ absurd (cc (rw (g, g') at e))
    | inr g' ↦
        let last =
          find_where-last input.idempotency_key es (new_entry encrypt fresh input) absent
            (ground arith) in
        rw (g, last) (ap some (ok-injective (rw (g, g') at e)))
  ]
]

pub store_in_memory-kept :
    (encrypt : ℕ → ℕ) (h : Hooks) (fresh : ℕ) (input : StoreInput) (es : Entries)
    (m : StoredStellarKey)
    → (store_in_memory encrypt h fresh input es).0 ≡ ok m
    → kept_in_memory input.idempotency_key (store_in_memory encrypt h fresh input es).1 ≡ some m
unfolding store_in_memory
store_in_memory-kept encrypt h fresh input es m e =
    elim (Option-cases (find_where (λ x. x.idempotency_key == input.idempotency_key) es)) [
      | inl absent ↦
          rw (absent, store_in_memory)
            (add_entry-kept encrypt h fresh input es m absent (rw (absent, store_in_memory) at e))
      | inr (x, there) ↦
          rw (there, store_in_memory, there)
            (ap some (ok-injective (rw (there, store_in_memory) at e)))
    ]

find_where-kept :
    (key : ℕ) (es : Entries) (m : StoredStellarKey)
    → kept_in_memory key es ≡ some m
    → (x : EncryptedEntry) × (find_where (λ y. y.idempotency_key == key) es ≡ some x)
      × (x.material ≡ m)
find_where-kept key es m h = elim (Option-cases (find_where (λ y. y.idempotency_key == key) es)) [
  | inl absent ↦ absurd (cc (rw absent at h))
  | inr (x, there) ↦ (x, there, some-injective x.material m (rw there at h))
]

add_entry-keeps :
    (encrypt : ℕ → ℕ) (h : Hooks) (fresh : ℕ) (input : StoreInput) (es : Entries) (key : ℕ)
    (m : StoredStellarKey)
    → kept_in_memory key es ≡ some m
    → kept_in_memory key (add_entry encrypt h fresh input es).1 ≡ some m
unfolding add_entry
add_entry-keeps encrypt h fresh input es key m kept =
    let (x, there, same) = find_where-kept key es m kept in
    let appended = find_where-append key es (new_entry encrypt fresh input) x there in
    elim (Bool-cases h.before_store) [ inl g ↦ rw g kept | inr g ↦ rw (g, appended) (ap some same) ]

pub store_in_memory-keeps :
    (encrypt : ℕ → ℕ) (h : Hooks) (fresh : ℕ) (input : StoreInput) (es : Entries) (key : ℕ)
    (m : StoredStellarKey)
    → kept_in_memory key es ≡ some m
    → kept_in_memory key (store_in_memory encrypt h fresh input es).1 ≡ some m
unfolding store_in_memory
store_in_memory-keeps encrypt h fresh input es key m kept =
    elim (Option-cases (find_where (λ x. x.idempotency_key == input.idempotency_key) es)) [
      | inl absent ↦
          rw (absent, store_in_memory) (add_entry-keeps encrypt h fresh input es key m kept)
      | inr (x, there) ↦ rw (there, store_in_memory) kept
    ]

-- `InMemoryEnvelopeKms` keeps the interface's laws.
abbrev pub in_memory_envelope_kms : (ℕ → ℕ) → KmsSecretStore Entries
in_memory_envelope_kms encrypt = record {
  kept = kept_in_memory;
  find_by_idempotency_key = find_in_memory;
  store_stellar_secret = store_in_memory encrypt;
  find_kept = find_in_memory-kept;
  store_kept = store_in_memory-kept encrypt;
  store_keeps = store_in_memory-keeps encrypt;
}
