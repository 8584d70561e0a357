-- ===== src/Validation/Text.antt =====
-- The tests on texts of src/validation.rs.
use Prim.Native.Char.{Char, code}
use Prim.Native.String.{◌++◌ as str_append, len}
use mathlib.Core.List.{reverse}
use spark_stage.Base.{
  ℕ, String, Bool, true, false, Option, none, some, List, [], ◌∷◌, not, ◌&&◌, ◌||◌, ◌==◌, ◌+◌, leb,
  all, any, codes, get_last?, is_whitespace, is_ascii_digit, length, if◌then◌else◌, find, is_some,
  normal, is_absolute, components, is_normal, Component,
}
use spark_stage.Store.Support.{is_slug_byte, has_double_dash, strip_prefix, head?}

abbrev pub skip_spaces : List ℕ → List ℕ
skip_spaces [] = []
skip_spaces (c ∷ s) = if is_whitespace c then skip_spaces s else c ∷ s

-- `trim`.
unfoldable pub trim : List ℕ → List ℕ
trim s = reverse (skip_spaces (reverse (skip_spaces s)))

abbrev pub codes_eq : List ℕ → List ℕ → Bool
codes_eq [] [] = true
codes_eq (c ∷ s) (d ∷ t) = c == d && codes_eq s t
codes_eq _ _ = false

-- `value.trim().is_empty() || value.trim() == "..."`.
unfoldable pub is_placeholder : String → Bool
unfolding trim
is_placeholder value =
    let trimmed = trim (codes value) in codes_eq trimmed [] || codes_eq trimmed (codes "...")

abbrev pub is_dash : Option ℕ → Bool
is_dash none = false
is_dash (some c) = c == b'-'

unfoldable pub is_slug : String → Bool
unfolding is_slug_byte has_double_dash
is_slug value =
    not (len value == 0)
    && not (is_dash (head? (codes value)))
    && not (is_dash (get_last? (codes value)))
    && not (has_double_dash (codes value))
    && all is_slug_byte (codes value)

abbrev pub are_digits : Option (List ℕ) → Bool
are_digits none = false
are_digits (some digits) = leb 2 (length digits) && all is_ascii_digit digits

-- `S` followed by at least two digits.
unfoldable pub is_shot_id : String → Bool
unfolding strip_prefix
is_shot_id value = are_digits (strip_prefix (codes "S") (codes value))

-- `to_ascii_lowercase` and `contains`, on the codes.
abbrev pub lowercase : List ℕ → List ℕ
lowercase [] = []
lowercase (c ∷ s) = (if leb b'A' c && leb c b'Z' then c + 32 else c) ∷ lowercase s

unfoldable pub has_infix : (needle : List ℕ) → List ℕ → Bool
unfolding strip_prefix
has_infix needle [] = is_some (strip_prefix needle [])
has_infix needle (c ∷ s) = is_some (strip_prefix needle (c ∷ s)) || has_infix needle s

-- The first of the terms that the text contains.
unfoldable pub find_term : List String → String → Option String
unfolding has_infix
find_term terms value = find (λ term. has_infix (codes term) (lowercase (codes value))) terms

abbrev pub backend_controls : List String
backend_controls =
    "comfyui" ∷ "workflow json" ∷ "node_id" ∷ "node id" ∷ "scheduler:" ∷ "sampler:" ∷ "steps:" ∷ []

abbrev pub prohibited_terms : List String
prohibited_terms = "未成年" ∷ "校服" ∷ "童装" ∷ "真实公众人物" ∷ "public figure" ∷ []

abbrev pub is_refs : Option Component → Bool
is_refs (some (normal s)) = codes_eq s (codes "refs")
is_refs _ = false

abbrev pub first {ℓ} : {A : Type ℓ} → List A → Option A
first [] = none
first (x ∷ xs) = some x

-- A safe path inside the project, under refs/.
unfoldable pub is_reference_path : String → Bool
is_reference_path value =
    not (len value == 0)
    && not (is_absolute (codes value))
    && all is_normal (components (codes value))
    && is_refs (first (components (codes value)))

-- What stands before the first dot: `split_once('.')`.
abbrev pub prepend : Char → Option String → Option String
prepend c none = none
prepend c (some s) = some (String.◌∷◌ c s)

unfoldable pub owner_of : String → Option String
owner_of String.[] = none
owner_of (String.◌∷◌ c s) =
    let later = owner_of s in if code c == b'.' then some "" else prepend c later

-- `escape_pointer`.
unfoldable pub escape_pointer : String → String
escape_pointer String.[] = ""
escape_pointer (String.◌∷◌ c s) =
    let later = escape_pointer s in
    if code c == b'~'
    then str_append "~0" later
    else if code c == b'/'
    then str_append "~1" later
    else String.◌∷◌ c later

-- `is_pause_punctuation`.
unfoldable pub is_pause_punctuation : ℕ → Bool
is_pause_punctuation c = any (λ p. c == p) (codes "，。！？；：、,.!?;:")
