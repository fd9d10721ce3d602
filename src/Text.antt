-- ===== src/Text.antt =====
-- Package strings on texts as lists of code points, for the code that walks characters.
use Prim.Native.Char.{code}
use truespec_agent.Prelude.{
  ℕ, ◌==◌, leb, Bool, true, false, ◌&&◌, ◌||◌, List, [], ◌∷◌, String, if◌then◌else◌,
}

abbrev pub Text : Type 0
Text = List ℕ

-- The code points of a literal.
abbrev pub codes : String → Text
codes String.[] = []
codes (String.◌∷◌ c s) = code c ∷ codes s

abbrev pub same_text : Text → Text → Bool
same_text [] [] = true
same_text [] (d ∷ t) = false
same_text (c ∷ s) [] = false
same_text (c ∷ s) (d ∷ t) = c == d && same_text s t

-- `unicode.IsSpace`
unfoldable pub is_space : ℕ → Bool
is_space c =
    (leb 9 c && leb c 13)
    || c == 32
    || c == 0x85
    || c == 0xa0
    || c == 0x1680
    || (leb 0x2000 c && leb c 0x200a)
    || c == 0x2028
    || c == 0x2029
    || c == 0x202f
    || c == 0x205f
    || c == 0x3000

abbrev pub trim_left : Text → Text
trim_left [] = []
trim_left (c ∷ s) = let rest = trim_left s in if is_space c then rest else c ∷ s

abbrev pub trim_right : Text → Text
trim_right [] = []
trim_right (c ∷ s) = elim (trim_right s) [
  | [] ↦ if is_space c then [] else c ∷ []
  | d ∷ t ↦ c ∷ d ∷ t
]

-- `strings.TrimSpace`
abbrev pub trim_space : Text → Text
trim_space s = trim_right (trim_left s)

abbrev pub has_prefix : Text → Text → Bool
has_prefix [] s = true
has_prefix (c ∷ sub) [] = false
has_prefix (c ∷ sub) (d ∷ s) = c == d && has_prefix sub s

-- `strings.Contains(s, sub)`
unfoldable pub contains : Text → Text → Bool
contains sub [] = has_prefix sub []
contains sub (c ∷ s) = has_prefix sub (c ∷ s) || contains sub s

abbrev pub onto_first : ℕ → List Text → List Text
onto_first c [] = (c ∷ []) ∷ []
onto_first c (field ∷ fields) = (c ∷ field) ∷ fields

-- `strings.Split(s, sep)` for a separator of one character.
unfoldable pub split : ℕ → Text → List Text
split sep [] = [] ∷ []
split sep (c ∷ s) = let rest = split sep s in if c == sep then [] ∷ rest else onto_first c rest
