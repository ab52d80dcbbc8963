-- ===== src/Control/Requirements.antt =====
-- backend/app/core/k8s/requirements_policy.py: which lines of a requirements.txt reach pip.
pub mod Allowed
pub mod Samples
use python_flow_hub.Prelude.{
  ℕ, String, Bool, true, false, not, ◌&&◌, ◌||◌, List, [], ◌∷◌, ◌++◌, map, contains, eqb, ◌==◌,
  if◌then◌else◌, Result, ok, err, until, has_char, replace_char, starts_with, drop_prefix,
}
use python_flow_hub.Runtime.Errors.{Error, raised}

-- Python's functions that know the characters of Unicode.
pub record Unicode : Type 0 where
  pub strip : String → String
  pub lower : String → String
  pub splitlines : String → List String
  pub split_commas : String → List String

pub data Kind : Type 0 where
  minio gcs : Kind

pub record WheelRef : Type 0 where
  pub kind : Kind
  pub ref : String

pub record ParsedRequirements : Type 0 where
  pub wheel_refs : List WheelRef
  pub pypi_lines : List String
  pub pip_options : List String

-- The settings that the policy reads.
pub record Settings : Type 0 where
  pub pip_require_whitelist : Bool
  pub pip_allowed_packages : String

abbrev pub no_lines : ParsedRequirements
no_lines = record { wheel_refs = []; pypi_lines = []; pip_options = [] }

abbrev pub add_ref : WheelRef → ParsedRequirements → ParsedRequirements
add_ref r p = record p { wheel_refs = p.wheel_refs ++ r ∷ [] }

abbrev pub add_option : String → ParsedRequirements → ParsedRequirements
add_option line p = record p { pip_options = p.pip_options ++ line ∷ [] }

abbrev pub add_package : String → ParsedRequirements → ParsedRequirements
add_package line p = record p { pypi_lines = p.pypi_lines ++ line ∷ [] }

-- The characters that end a package's name: "[", "=", "<", ">", "!" and "~".
abbrev pub ends_name : ℕ → Bool
ends_name n = eqb n 91 || (eqb n 61 || (eqb n 60 || (eqb n 62 || (eqb n 33 || eqb n 126))))

module _ (unicode : Unicode) where
  open unicode use {strip, lower}

  -- The body of the loop, on a line without blanks around it.
  unfoldable pub parse_line : String → ParsedRequirements → ParsedRequirements
  parse_line stripped p =
      if stripped == "" || starts_with "#" stripped
      then p
      else if starts_with "@wheel:" stripped
      then add_ref (record { kind = minio; ref = strip (drop_prefix "@wheel:" stripped) }) p
      else if starts_with "@gcs:" stripped
      then add_ref (record { kind = gcs; ref = strip (drop_prefix "@gcs:" stripped) }) p
      else if starts_with "-" stripped || starts_with "--" stripped
      then add_option stripped p
      else add_package stripped p

  unfoldable pub parse_lines : List String → ParsedRequirements → ParsedRequirements
  unfolding parse_line
  parse_lines [] p = p
  parse_lines (line ∷ lines) p = parse_lines lines (parse_line (strip line) p)

  unfoldable pub parse_requirements : String → ParsedRequirements
  unfolding parse_lines
  parse_requirements text = parse_lines (unicode.splitlines text) no_lines

  -- 35 is "#" and 64 is "@".
  abbrev pub before_at : String → String
  before_at token =
      if has_char 64 token && not (starts_with "@" token)
      then strip (until (eqb 64) token)
      else token

  unfoldable pub package_name : String → String
  package_name line = lower (strip (until ends_name (before_at (strip (until (eqb 35) line)))))

  abbrev pub add_item : String → List String → List String
  add_item x xs = if strip x == "" then xs else lower (strip x) ∷ xs

  unfoldable pub split_csv : List String → List String
  split_csv [] = []
  split_csv (x ∷ xs) = add_item x (split_csv xs)

  -- 95 is "_".
  unfoldable pub is_allowed : List String → String → Bool
  unfolding package_name
  is_allowed allowed line =
      (package_name line == "")
      || (contains (package_name line) allowed
          || contains (replace_char 95 "-" (package_name line)) allowed)

  -- The loop over the packages; the lists of packages that may be built has no effect on it.
  unfoldable pub check_lines : List String → List String → Result Error (Unit {0})
  unfolding is_allowed
  check_lines allowed [] = ok tt
  check_lines allowed (line ∷ lines) =
      if is_allowed allowed line
      then check_lines allowed lines
      else err (raised "PYFLOW_EXEC_INPUT_INVALID")

  abbrev pub then_parsed :
      Result Error (Unit {0}) → ParsedRequirements → Result Error ParsedRequirements
  then_parsed (ok tt) p = ok p
  then_parsed (err e) p = err e

  abbrev pub allowed_of : Settings → List String
  allowed_of settings = split_csv (unicode.split_commas settings.pip_allowed_packages)

  abbrev pub is_empty_list : List String → Bool
  is_empty_list [] = true
  is_empty_list (x ∷ xs) = false

  unfoldable pub validate_requirements : String → Settings → Result Error ParsedRequirements
  unfolding parse_requirements check_lines split_csv
  validate_requirements text settings =
      let parsed = parse_requirements text in
      if not settings.pip_require_whitelist || is_empty_list (allowed_of settings)
      then ok parsed
      else then_parsed (check_lines (allowed_of settings) parsed.pypi_lines) parsed

-- The lines of the file that pip installs.
abbrev pub pip_lines : ParsedRequirements → List String
pip_lines parsed = parsed.pip_options ++ parsed.pypi_lines
