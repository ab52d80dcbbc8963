-- ===== src/Prelude/Texts.antt =====
-- Python's methods of texts that look at single characters and prefixes.
use Prim.Native.Nat.{ℕ}
use Prim.Native.Char.{Char, code}
use Prim.Native.String.{String, [], ◌∷◌, len, slice, ◌++◌}
use mathlib.Core.Bool.{Bool, true, false, ◌||◌, ◌&&◌}
use mathlib.Core.Path.{◌≡◌, refl, ap}
use mathlib.Core.Logic.{inl, inr}
use native.Mathlib.Omega.{arith}
use text.Mathlib.Text.{◌==◌}
use text.Mathlib.TextEquality.{eq_iff}
use text.Mathlib.TextLemmas.{cons-append}
use python_flow_hub.Prelude.Tests.{if◌then◌else◌, eqb, Bool-cases}

-- `s.split(c, 1)[0]`, for the characters of a test.
abbrev pub until : (ℕ → Bool) → String → String
until p [] = []
until p (c ∷ s) = let rest = until p s in if p (code c) then [] else c ∷ rest

-- `c in s`
abbrev pub has_char : ℕ → String → Bool
has_char n [] = false
has_char n (c ∷ s) = eqb (code c) n || has_char n s

-- `s.replace(a, b)` for two characters.
abbrev pub replace_char : ℕ → Char → String → String
replace_char n d [] = []
replace_char n d (c ∷ s) = (if eqb (code c) n then d else c) ∷ replace_char n d s

-- `s.startswith(prefix)`
abbrev pub starts_with : String → String → Bool
starts_with [] s = true
starts_with (c ∷ prefix) [] = false
starts_with (c ∷ prefix) (d ∷ s) = eqb (code c) (code d) && starts_with prefix s

-- A text that begins with "-" begins with no other character.
pub starts_with-append : (prefix s : String) → starts_with prefix (prefix ++ s) ≡ true
starts_with-append [] s = refl
starts_with-append (c ∷ prefix) s =
    rw (cons-append c prefix s) (ground (arith, starts_with-append prefix s))

pub starts_with_hyphen :
    (s : String)
    → starts_with "-" s ≡ true
    → ((s == "") ≡ false)
      × (starts_with "#" s ≡ false)
      × (starts_with "@wheel:" s ≡ false)
      × (starts_with "@gcs:" s ≡ false)
starts_with_hyphen [] h = absurd (cc)
starts_with_hyphen (d ∷ s) h =
    let full : (d ∷ s == "") ≡ false = elim (Bool-cases (d ∷ s == "")) [
      | inl same ↦ absurd (ground (arith, h, ap (starts_with "-") ((eq_iff (d ∷ s) "").0 same)))
      | inr other ↦ other
    ] in
    (full, ground arith, ground arith, ground arith)

-- `s[len(prefix):]`
abbrev pub drop_prefix : String → String → String
drop_prefix prefix s = slice s (len prefix) (len s)
