-- ===== src/Base/Inversion.antt =====
-- Taking a successful call apart into its steps.
use mathlib.Core.Path.{◌≡◌, refl, ap}
use mathlib.Core.Logic.{◌≢◌, ◌⊎◌, inl, inr}
use learnault_api.Base.Result.{Result, ok, throw, ◌>>=◌}

pub >>=-ok :
    {E A B : Type 0} (call : Result E A) (next : A → Result E B) {value : B}
    → (call >>= next) ≡ ok value
    → (a : A) × (call ≡ ok a) × (next a ≡ ok value)
>>=-ok (throw error) next h = cc
>>=-ok (ok a) next h = (a, refl, h)

value_or : {E A : Type 0} → A → Result E A → A
value_or a (ok b) = b
value_or a (throw e) = a

pub ok-injective : {E A : Type 0} {a b : A} → ◌≡◌ {A = Result E A} (ok a) (ok b) → a ≡ b
unfolding value_or
ok-injective {a} h = ap (value_or a) h

-- A call that does not throw returns.
pub returns : {E A : Type 0} (m : Result E A) → ((e : E) → m ≢ throw e) → (a : A) × (m ≡ ok a)
returns (ok a) h = (a, refl)
returns (throw e) h = absurd (h e refl)

pub Result-cases :
    {E A : Type 0} (m : Result E A) → ((e : E) × (m ≡ throw e)) ⊎ ((a : A) × (m ≡ ok a))
Result-cases (ok a) = inr (a, refl)
Result-cases (throw e) = inl (e, refl)
