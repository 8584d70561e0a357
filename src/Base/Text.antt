-- ===== src/Base/Text.antt =====
-- What the source takes from `str` and `std::path` (Unix): trimming, bytes, path components.
use Prim.Native.Nat.{ℕ, zero, suc, ◌/◌, ◌%◌}
use Prim.Native.Char.{code}
use Prim.Native.String.{String, ◌++◌ as str_append}
use mathlib.Core.Bool.{Bool, true, false, ◌&&◌, ◌||◌}
use mathlib.Core.List.{List, [], ◌∷◌}
use spark_stage.Base.Tests.{leb, ◌==◌, if◌then◌else◌}
use spark_stage.Base.Lists.{all}

-- The code points of a text, which are its bytes where it is ASCII.
abbrev pub codes : String → List ℕ
codes String.[] = []
codes (String.◌∷◌ letter later) = code letter ∷ codes later

-- `char::is_whitespace`.
unfoldable pub is_whitespace : ℕ → Bool
is_whitespace c =
    c == 32
    || leb 9 c && leb c 13
    || c == 0x85
    || c == 0xA0
    || c == 0x1680
    || leb 0x2000 c && leb c 0x200A
    || c == 0x2028
    || c == 0x2029
    || c == 0x202F
    || c == 0x205F
    || c == 0x3000

-- `s.trim().is_empty()`.
unfoldable pub is_blank : String → Bool
unfolding all is_whitespace
is_blank s = all is_whitespace (codes s)

unfoldable pub is_ascii_digit : ℕ → Bool
is_ascii_digit c = leb b'0' c && leb c b'9'

unfoldable pub is_ascii_lowercase : ℕ → Bool
is_ascii_lowercase c = leb b'a' c && leb c b'z'

unfoldable pub is_ascii_alphanumeric : ℕ → Bool
unfolding is_ascii_digit is_ascii_lowercase
is_ascii_alphanumeric c = is_ascii_digit c || is_ascii_lowercase c || leb b'A' c && leb c b'Z'

-- The pieces between separators; a text with no separator is one piece.
unfoldable pub split : ℕ → List ℕ → List (List ℕ)
split sep [] = [] ∷ []
split sep (c ∷ s) = push (split sep s)
  where
    push : List (List ℕ) → List (List ℕ)
    push [] = [] ∷ []
    push (piece ∷ rest) = if c == sep then [] ∷ piece ∷ rest else (c ∷ piece) ∷ rest

-- `std::path::Component`, without Windows prefixes.
pub data Component : Type 0 where
  root_dir cur_dir parent_dir : Component
  normal : List ℕ → Component

abbrev is_dot : List ℕ → Bool
is_dot (c ∷ []) = c == b'.'
is_dot _ = false

abbrev is_dot_dot : List ℕ → Bool
is_dot_dot (c ∷ d ∷ []) = c == b'.' && d == b'.'
is_dot_dot _ = false

-- Empty pieces and inner `.` pieces are dropped.
unfoldable pub inner_components : List (List ℕ) → List Component
inner_components [] = []
inner_components ([] ∷ rest) = inner_components rest
inner_components ((c ∷ s) ∷ rest) =
    let later = inner_components rest in
    if is_dot (c ∷ s)
    then later
    else if is_dot_dot (c ∷ s)
    then parent_dir ∷ later
    else normal (c ∷ s) ∷ later

unfoldable pub is_absolute : List ℕ → Bool
is_absolute [] = false
is_absolute (c ∷ s) = c == b'/'

abbrev leading : List (List ℕ) → List Component → List Component
leading [] rest = rest
leading (piece ∷ pieces) rest = if is_dot piece then cur_dir ∷ rest else rest

-- `Path::components`.
unfoldable pub components : List ℕ → List Component
unfolding is_absolute split inner_components
components s =
    let pieces = split b'/' s in
    if is_absolute s
    then root_dir ∷ inner_components pieces
    else leading pieces (inner_components pieces)

unfoldable pub is_normal : Component → Bool
is_normal (normal s) = true
is_normal _ = false

-- `Display` of an unsigned number. Twenty digits hold every `u64`.
abbrev pick : ℕ → List String → String
pick n [] = ""
pick zero (s ∷ rest) = s
pick (suc n) (s ∷ rest) = pick n rest

abbrev pub digit : ℕ → String
digit n = pick n ("0" ∷ "1" ∷ "2" ∷ "3" ∷ "4" ∷ "5" ∷ "6" ∷ "7" ∷ "8" ∷ "9" ∷ [])

unfoldable pub digits_of : (fuel : ℕ) → ℕ → String
digits_of zero n = digit (n % 10)
digits_of (suc fuel) n =
    let before = digits_of fuel (n / 10) in
    if leb 10 n then str_append before (digit (n % 10)) else digit n

unfoldable pub decimal : ℕ → String
unfolding digits_of
decimal n = digits_of 19 n

-- `concat` and `join` of texts.
abbrev pub concat : List String → String
concat [] = ""
concat (s ∷ rest) = str_append s (concat rest)

abbrev pub join : String → List String → String
join sep [] = ""
join sep (s ∷ []) = s
join sep (s ∷ t ∷ rest) = str_append s (str_append sep (join sep (t ∷ rest)))
