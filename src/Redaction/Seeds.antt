-- ===== src/Redaction/Seeds.antt =====
-- redaction.ts: which texts the pattern of a Stellar secret seed finds.
use learnault_api.Base.{
  ℕ, ◌≡◌, ◌⊎◌, refl, Bool, true, false, ◌||◌, Option, none, some, List, [], ◌∷◌, ◌++◌, ◌==◌, arith,
  length, inl, inr,
}
use learnault_api.Base.Table.{All}
use learnault_api.Redaction.{Text}
use learnault_api.Redaction.Patterns.{
  Piece, word_boundary, is_word, is_word_at, first, is_base32, match_run, match_at, test_from,
  stellar_key, stellar_seed, stellar_public_key, is_denied_value,
}

-- No word goes on before or behind: the text's end, or a character that no word has.
abbrev pub EndsWord : Option ℕ → Type 0
EndsWord c = is_word_at c ≡ false

-- The last character of a text.
abbrev pub last_of : Option ℕ → Text → Option ℕ
last_of before [] = before
last_of before (c ∷ cs) = last_of (some c) cs

or_right : (a b : Bool) → b ≡ true → (a || b) ≡ true
or_right true b h = refl
or_right false b h = h

-- A run of exactly as many characters of a class as there are.
match_run-exact :
    (next : Option ℕ → Text → Bool) (c : ℕ → Bool) (before : Option ℕ) (body rest : Text)
    → All (λ x. c x ≡ true) body
    → next (last_of before body) rest ≡ true
    → match_run next (length body) (some (length body)) c before (body ++ rest) ≡ true
unfolding match_run
match_run-exact next c before [] [] h k = rw k
match_run-exact next c before [] (x ∷ rest) h k = rw k
match_run-exact next c before (x ∷ body) rest (h, hs) k =
    rw (h, match_run-exact next c (some x) body rest hs k)

base32_word : (c : ℕ) → is_base32 c ≡ true → is_word c ≡ true
base32_word c h = ground arith

last-IsWord :
    (c : ℕ) (body : Text)
    → is_word c ≡ true
    → All (λ x. is_base32 x ≡ true) body
    → is_word_at (last_of (some c) body) ≡ true
last-IsWord c [] w h = w
last-IsWord c (x ∷ body) w (h, hs) = last-IsWord x body (base32_word x h) hs

key_matches :
    (letter : ℕ) (before : Option ℕ) (body rest : Text)
    → is_word letter ≡ true
    → EndsWord before
    → length body ≡ 55
    → All (λ x. is_base32 x ≡ true) body
    → EndsWord (first rest)
    → match_at (stellar_key letter) before (letter ∷ (body ++ rest)) ≡ true
unfolding match_at
key_matches letter before body rest w start len h stop =
    let itself : (letter == letter) ≡ true = ground arith in
    let ends : match_at (word_boundary ∷ []) (last_of (some letter) body) rest ≡ true =
      rw (last-IsWord letter body w h, stop) refl in
    let body_matches =
      match_run-exact (match_at (word_boundary ∷ [])) is_base32 (some letter) body rest h ends in
    rw (start, w, itself) (rw len at body_matches)

test_from-later :
    (ps : List Piece) (before : Option ℕ) (pre text : Text)
    → match_at ps (last_of before pre) text ≡ true
    → test_from ps before (pre ++ text) ≡ true
unfolding test_from
test_from-later ps before [] [] h = h
test_from-later ps before [] (x ∷ text) h = rw h
test_from-later ps before (x ∷ pre) text h =
    or_right (match_at ps before (x ∷ pre ++ text)) (test_from ps (some x) (pre ++ text))
      (test_from-later ps (some x) pre text h)

or_left : (a b : Bool) → a ≡ true → (a || b) ≡ true
or_left true b h = refl
or_left false b h = cc

-- A text in which a Stellar secret seed or public key, `S` or `G` and 55 characters of base 32, stands
-- as a word, wherever it stands and whatever is around it, is denied.
pub stellar_key_denied :
    (letter : ℕ) (pre body post : Text)
    → (letter ≡ b'S') ⊎ (letter ≡ b'G')
    → length body ≡ 55
    → All (λ x. is_base32 x ≡ true) body
    → EndsWord (last_of none pre)
    → EndsWord (first post)
    → is_denied_value (pre ++ (letter ∷ (body ++ post))) ≡ true
unfolding is_denied_value
stellar_key_denied letter pre body post (inl s) len h start stop =
    let at = key_matches b'S' (last_of none pre) body post refl start len h stop in
    rw s (
      or_left (test_from stellar_seed none (pre ++ (b'S' ∷ (body ++ post)))) _
        (test_from-later stellar_seed none pre (b'S' ∷ (body ++ post)) at))
stellar_key_denied letter pre body post (inr g) len h start stop =
    let at = key_matches b'G' (last_of none pre) body post refl start len h stop in
    rw g (
      or_right (test_from stellar_seed none (pre ++ (b'G' ∷ (body ++ post)))) _ (
        or_left (test_from stellar_public_key none (pre ++ (b'G' ∷ (body ++ post)))) _
          (test_from-later stellar_public_key none pre (b'G' ∷ (body ++ post)) at)))
