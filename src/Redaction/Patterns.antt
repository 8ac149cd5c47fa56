-- ===== src/Redaction/Patterns.antt =====
-- redaction.ts: `DENIED_VALUE_PATTERNS` and `isDeniedValue`. The patterns repeat single characters
-- only, so a pattern is a list of pieces, and a piece that repeats tries every length.
use learnault_api.Base.{
  ℕ, zero, suc, ◌+◌, Bool, true, false, ◌&&◌, ◌||◌, not, Option, none, some, List, [], ◌∷◌, ◌++◌,
  ◌==◌,
}
use learnault_api.Money.Decimal.{is_space}
use learnault_api.Redaction.{Text, codes, is_between, is_upper, is_lower, is_digit}

-- A character of a class, a run of `lo` to `hi` of them, `\b`, `(?:^|\s)` and `(?=$|\s)`.
pub data Piece : Type 0 where
  one : (ℕ → Bool) → Piece
  run : (lo : ℕ) → (hi : Option ℕ) → (ℕ → Bool) → Piece
  word_boundary start_or_space end_or_space : Piece

-- `\w`
abbrev pub is_word : ℕ → Bool
is_word c = is_upper c || is_lower c || is_digit c || c == b'_'

abbrev pub is_word_at : Option ℕ → Bool
is_word_at none = false
is_word_at (some c) = is_word c

abbrev pub first : Text → Option ℕ
first [] = none
first (c ∷ _) = some c

abbrev is_end_or_space : Text → Bool
is_end_or_space [] = true
is_end_or_space (c ∷ _) = is_space c

abbrev pub differ : Bool → Bool → Bool
differ true b = not b
differ false b = b

-- One less, when there is a bound.
abbrev pub allows_more : Option ℕ → Bool
allows_more none = true
allows_more (some zero) = false
allows_more (some (suc _)) = true

abbrev pub one_less : Option ℕ → Option ℕ
one_less none = none
one_less (some zero) = some zero
one_less (some (suc n)) = some n

abbrev pub pred : ℕ → ℕ
pred zero = zero
pred (suc n) = n

abbrev pub is_zero : ℕ → Bool
is_zero zero = true
is_zero (suc _) = false

-- A run and what follows it, from the character before a position and the text behind it.
unfoldable pub match_run :
    (Option ℕ → Text → Bool) → ℕ → Option ℕ → (ℕ → Bool) → Option ℕ → Text → Bool
match_run next lo hi c before [] = is_zero lo && next before []
match_run next lo hi c before (x ∷ rest) =
    is_zero lo && next before (x ∷ rest)
    || (allows_more hi && c x) && match_run next (pred lo) (one_less hi) c (some x) rest

abbrev match_one : (Option ℕ → Text → Bool) → (ℕ → Bool) → Text → Bool
match_one next c [] = false
match_one next c (x ∷ rest) = c x && next (some x) rest

abbrev match_start : (Text → Bool) → (Option ℕ → Text → Bool) → Option ℕ → Text → Bool
match_start next after none rest = next rest || match_one after is_space rest
match_start next after (some _) rest = match_one after is_space rest

unfoldable pub match_at : List Piece → Option ℕ → Text → Bool
unfolding match_run
match_at [] before rest = true
match_at (one c ∷ ps) before rest = match_one (match_at ps) c rest
match_at (run lo hi c ∷ ps) before rest = match_run (match_at ps) lo hi c before rest
match_at (word_boundary ∷ ps) before rest =
    differ (is_word_at before) (is_word_at (first rest)) && match_at ps before rest
match_at (start_or_space ∷ ps) before rest =
    match_start (match_at ps before) (match_at ps) before rest
match_at (end_or_space ∷ ps) before rest = is_end_or_space rest && match_at ps before rest

-- `pattern.test(value)`: the pattern matches somewhere.
unfoldable pub test_from : List Piece → Option ℕ → Text → Bool
unfolding match_at
test_from ps before [] = match_at ps before []
test_from ps before (x ∷ rest) = match_at ps before (x ∷ rest) || test_from ps (some x) rest

abbrev pub is_base32 : ℕ → Bool
is_base32 c = is_upper c || is_between b'2' b'7' c

abbrev is_token : ℕ → Bool
is_token c = is_upper c || is_lower c || is_digit c || c == b'_' || c == b'-'

abbrev is_dot : ℕ → Bool
is_dot c = c == b'.'

abbrev is_credential : ℕ → Bool
is_credential c =
    is_upper c
    || is_lower c
    || is_digit c
    || c == b'.'
    || c == b'_'
    || c == b'~'
    || c == b'+'
    || c == b'/'
    || c == b'='
    || c == b'-'

abbrev is_local : ℕ → Bool
is_local c = is_word c || c == b'.' || c == b'+' || c == b'-'

abbrev is_domain : ℕ → Bool
is_domain c = is_word c || c == b'-'

abbrev is_domain_end : ℕ → Bool
is_domain_end c = is_word c || c == b'.' || c == b'-'

abbrev is_hex : ℕ → Bool
is_hex c = is_digit c || is_between b'a' b'f' c || is_between b'A' b'F' c

abbrev is_upper_or_blank : ℕ → Bool
is_upper_or_blank c = is_upper c || c == b' '

abbrev literal : Text → List Piece
literal [] = []
literal (c ∷ cs) = one (λ x. x == c) ∷ literal cs

-- A lower-case literal under the flag `i`.
abbrev any_case : Text → List Piece
any_case [] = []
any_case (c ∷ cs) = one (λ x. x == c || x + 32 == c && is_upper x) ∷ any_case cs

abbrev pub stellar_key : ℕ → List Piece
stellar_key letter =
    word_boundary ∷ one (λ x. x == letter) ∷ run 55 (some 55) is_base32 ∷ word_boundary ∷ []

abbrev pub stellar_seed : List Piece
stellar_seed = stellar_key b'S'

abbrev pub stellar_public_key : List Piece
stellar_public_key = stellar_key b'G'

abbrev jwt : List Piece
jwt =
    word_boundary
    ∷ (literal (codes "eyJ")
        ++ run 8 none is_token
          ∷ one is_dot
          ∷ run 8 none is_token
          ∷ one is_dot
          ∷ run 0 none is_token
          ∷ [])

abbrev bearer_of : Text → List Piece
bearer_of scheme =
    word_boundary ∷ (any_case scheme ++ run 1 none is_space ∷ run 12 none is_credential ∷ [])

abbrev email : List Piece
email =
    run 1 none is_local
    ∷ one (λ x. x == b'@')
    ∷ run 1 none is_domain
    ∷ one is_dot
    ∷ run 1 none is_domain_end
    ∷ []

abbrev phone : List Piece
phone =
    start_or_space
    ∷ one (λ x. x == b'+')
    ∷ one (is_between b'1' b'9')
    ∷ run 7 (some 14) is_digit
    ∷ end_or_space
    ∷ []

abbrev ipv4 : List Piece
ipv4 =
    word_boundary
    ∷ run 1 (some 3) is_digit
    ∷ one is_dot
    ∷ run 1 (some 3) is_digit
    ∷ one is_dot
    ∷ run 1 (some 3) is_digit
    ∷ one is_dot
    ∷ run 1 (some 3) is_digit
    ∷ word_boundary
    ∷ []

abbrev hex_blob : List Piece
hex_blob = word_boundary ∷ run 40 none is_hex ∷ word_boundary ∷ []

abbrev pem : List Piece
pem =
    literal (codes "-----BEGIN ")
    ++ run 0 none is_upper_or_blank ∷ literal (codes "PRIVATE KEY-----")

-- `DENIED_VALUE_PATTERNS`; the alternatives `bearer` and `basic` are two patterns here.
abbrev pub denied_value_patterns : List (List Piece)
denied_value_patterns =
    stellar_seed
    ∷ stellar_public_key
    ∷ jwt
    ∷ bearer_of (codes "bearer")
    ∷ bearer_of (codes "basic")
    ∷ email
    ∷ phone
    ∷ ipv4
    ∷ hex_blob
    ∷ pem
    ∷ []

abbrev any_matches : List (List Piece) → Text → Bool
any_matches [] value = false
any_matches (p ∷ ps) value = test_from p none value || any_matches ps value

-- `isDeniedValue`
unfoldable pub is_denied_value : Text → Bool
unfolding test_from
is_denied_value value = any_matches denied_value_patterns value
