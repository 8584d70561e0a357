-- ===== src/Validation/Issues.antt =====
-- The issues that the checks of src/validation.rs collect, in order, and the checks of one value.
use spark_stage.Base.{
  ℕ, String, Bool, true, false, Option, none, some, List, [], ◌∷◌, ◌++◌, not, str_eq, concat,
  decimal,
}
use spark_stage.Validation.Text.{
  is_placeholder, is_slug, is_reference_path, find_term, backend_controls, prohibited_terms,
}

pub record ValidationIssue : Type 0 where
  pub code : String
  pub path : String
  pub message : String

abbrev pub Issues : Type 0
Issues = List ValidationIssue

-- `if b { self.push(code, path, message) }`.
abbrev pub push_if : Bool → (code path message : String) → Issues
push_if false code path message = []
push_if true code path message = record { code = code; path = path; message = message } ∷ []

abbrev pub push_found : Option String → (code path : String) → (String → String) → Issues
push_found none code path message = []
push_found (some term) code path message =
    record { code = code; path = path; message = message term } ∷ []

-- `format!("{base}/{index}")`.
abbrev pub at_index : (base : String) → ℕ → String
at_index base index = concat (base ∷ "/" ∷ decimal index ∷ [])

abbrev pub at : (base field : String) → String
at base field = concat (base ∷ "/" ∷ field ∷ [])

-- `for (index, x) in xs.iter().enumerate()`.
unfoldable pub for_each_index {ℓ} : {A : Type ℓ} → (ℕ → A → Issues) → (index : ℕ) → List A → Issues
for_each_index check index [] = []
for_each_index check index (x ∷ xs) = check index x ++ for_each_index check (ℕ.suc index) xs

-- `for x in xs`.
unfoldable pub for_all {ℓ} : {A : Type ℓ} → (A → Issues) → List A → Issues
for_all check [] = []
for_all check (x ∷ xs) = check x ++ for_all check xs

abbrev pub supported_schema_version : String
supported_schema_version = "1.0"

abbrev pub require_schema_version : (version path : String) → Issues
require_schema_version version path =
    push_if (not (str_eq version supported_schema_version)) "SCHEMA_VERSION" path (
      concat (
        "unsupported schema version `" ∷ version ∷ "`; expected `" ∷ supported_schema_version ∷ "`"
        ∷ []))

unfoldable pub require_slug : (value path : String) → Issues
unfolding is_slug
require_slug value path =
    push_if (not (is_slug value)) "INVALID_ID" path
      "id must contain lowercase ASCII letters, digits, and single hyphens"

unfoldable pub require_text : (value path code : String) → Issues
unfolding is_placeholder
require_text value path code =
    push_if (is_placeholder value) code path "text must contain a concrete value"

unfoldable pub require_reference_path : (value path : String) → Issues
unfolding is_reference_path
require_reference_path value path =
    push_if (not (is_reference_path value)) "REFERENCE_PATH" path
      "reference path must be a safe project-relative path under refs/"

unfoldable pub reject_backend_controls : (value path : String) → Issues
unfolding find_term
reject_backend_controls value path =
    push_found (find_term backend_controls value) "BACKEND_FIELD" path
      (λ term. concat ("prompt contains backend control `" ∷ term ∷ "`" ∷ []))

unfoldable pub reject_prohibited_story_terms : (value path : String) → Issues
unfolding find_term
reject_prohibited_story_terms value path =
    push_found (find_term prohibited_terms value) "CONTENT_BOUNDARY" path
      (λ term. concat ("text contains prohibited short-drama term `" ∷ term ∷ "`" ∷ []))
