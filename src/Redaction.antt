-- ===== src/Redaction.antt =====
-- src/audit/redaction.ts: the filter in front of the audit log. A text is the list of its code units.
pub mod Patterns
pub mod Keys
pub mod Walk
pub mod Serialize
pub mod Safe
pub mod Bounded
pub mod Stored
pub mod Seeds
mod Tests
use learnault_api.Base.{ℕ, Bool, true, false, ◌&&◌, ◌||◌, List, [], ◌∷◌, leb, ◌==◌, if◌then◌else◌}
use Prim.Native.String.{String}
use Prim.Native.String
use Prim.Native.Char.{code}

abbrev pub Text : Type 0
Text = List ℕ

-- A text of the source, which is ASCII.
abbrev pub codes : String → Text
codes String.[] = []
codes (String.◌∷◌ c s) = code c ∷ codes s

abbrev pub same_text : Text → Text → Bool
same_text [] [] = true
same_text (a ∷ s) (b ∷ t) = a == b && same_text s t
same_text _ _ = false

abbrev pub is_between : ℕ → ℕ → ℕ → Bool
is_between lo hi c = leb lo c && leb c hi

abbrev pub is_upper : ℕ → Bool
is_upper c = is_between b'A' b'Z' c

abbrev pub is_lower : ℕ → Bool
is_lower c = is_between b'a' b'z' c

abbrev pub is_digit : ℕ → Bool
is_digit c = is_between b'0' b'9' c
