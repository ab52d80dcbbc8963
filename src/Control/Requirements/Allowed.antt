-- ===== src/Control/Requirements/Allowed.antt =====
-- Which requirements pass the policy of backend/app/core/k8s/requirements_policy.py.
use mathlib.Core.List.{Memᴰ, append_assoc, append-nil}
use python_flow_hub.Prelude.{
  String, ◌≡◌, refl, sym, ◌∙◌, ap, Bool, true, false, not, ◌||◌, List, [], ◌∷◌, ◌++◌, every,
  if◌then◌else◌, Result, ok, err, Bool-cases, inl, inr, map, starts_with, starts_with_hyphen,
}
use python_flow_hub.Runtime.Errors.{Error, raised}
use python_flow_hub.Control.Requirements.{
  Unicode, ParsedRequirements, Settings, no_lines, parse_line, parse_lines, parse_requirements,
  is_allowed, check_lines, then_parsed, allowed_of, is_empty_list, validate_requirements, pip_lines,
}

-- The Boolean tests of `validate_requirements`.
passes_eq :
    (off empty all : Bool) (unicode : Unicode) (p : ParsedRequirements) (e : Error)
    → (if off || empty then ok p else then_parsed unicode (if all then ok tt else err e) p)
      ≡ (if off || (empty || all) then ok p else err e)
passes_eq true empty all unicode p e = refl
passes_eq false true all unicode p e = refl
passes_eq false false true unicode p e = refl
passes_eq false false false unicode p e = refl

passes_all :
    (off empty : Bool) (p : ParsedRequirements) (e : Error)
    → (if off || (empty || true) then ok p else err e) ≡ ok p
passes_all true empty p e = refl
passes_all false true p e = refl
passes_all false false p e = refl

module _ (unicode : Unicode) (settings : Settings) where
  check_lines-every :
      (allowed lines : List String)
      → check_lines unicode allowed lines ≡ (
          if every (is_allowed unicode allowed) lines
          then ok tt
          else err (raised "PYFLOW_EXEC_INPUT_INVALID"))
  unfolding check_lines
  check_lines-every allowed [] = refl
  check_lines-every allowed (line ∷ lines) = elim (Bool-cases (is_allowed unicode allowed line)) [
    | inl fine ↦ rw fine (check_lines-every allowed lines)
    | inr refused ↦ rw refused refl
  ]

  -- With a white list that is in force, a text passes exactly if each of its packages, those that
  -- have a name, is on the list; else it is refused. With none in force every text passes.
  pub validate_requirements-eq :
      (text : String)
      → validate_requirements unicode text settings ≡ (
          if not settings.pip_require_whitelist
            || (is_empty_list unicode (allowed_of unicode settings)
                || every
                    (is_allowed unicode (allowed_of unicode settings))
                    (parse_requirements unicode text).pypi_lines)
          then ok (parse_requirements unicode text)
          else err (raised "PYFLOW_EXEC_INPUT_INVALID"))
  unfolding validate_requirements
  validate_requirements-eq text =
      let parsed = parse_requirements unicode text in
      let allowed = allowed_of unicode settings in
      let off = not settings.pip_require_whitelist in
      ap
        (λ (r : Result Error (Unit {0})).
          if off || is_empty_list unicode allowed then ok parsed else then_parsed unicode r parsed)
        (check_lines-every allowed parsed.pypi_lines)
      ∙ passes_eq off (is_empty_list unicode allowed)
          (every (is_allowed unicode allowed) parsed.pypi_lines) unicode parsed
          (raised "PYFLOW_EXEC_INPUT_INVALID")

  parse_lines_options :
      (lines : List String) (p : ParsedRequirements)
      → ((line : String) → Memᴰ line lines → starts_with "-" (unicode.strip line) ≡ true)
      → parse_lines unicode lines p
        ≡ record p { pip_options = p.pip_options ++ map unicode.strip lines }
  unfolding parse_lines parse_line
  parse_lines_options [] p h =
      ap (λ (o : List String). record p { pip_options = o }) (sym (append-nil p.pip_options))
  parse_lines_options (line ∷ lines) p h =
      let option = h line (Memᴰ.head refl) in
      let (blank, comment, wheel, gcs) = starts_with_hyphen (unicode.strip line) option in
      rw (blank, comment, wheel, gcs, option)
        (parse_lines_options lines _ (λ l m. h l (Memᴰ.tail m))
          ∙ ap (λ (o : List String). record p { pip_options = o })
              (append_assoc p.pip_options (unicode.strip line ∷ []) (map unicode.strip lines)))

  -- Whatever the white list, a text of which every line is an option of pip passes, and pip is
  -- given all its lines.
  pub validate_requirements-options :
      (text : String)
      → ((line : String)
          → Memᴰ line (unicode.splitlines text)
          → starts_with "-" (unicode.strip line) ≡ true)
      → (parsed : ParsedRequirements) × (validate_requirements unicode text settings ≡ ok parsed)
        × (pip_lines parsed ≡ map unicode.strip (unicode.splitlines text))
  unfolding parse_requirements
  validate_requirements-options text h =
      let lines = map unicode.strip (unicode.splitlines text) in
      let read = parse_lines_options (unicode.splitlines text) no_lines h in
      (
        parse_requirements unicode text,
        validate_requirements-eq text
            ∙ (ap
                  (λ (packages : List String).
                    if not settings.pip_require_whitelist
                      || (is_empty_list unicode (allowed_of unicode settings)
                          || every (is_allowed unicode (allowed_of unicode settings)) packages)
                    then ok (parse_requirements unicode text)
                    else err (raised "PYFLOW_EXEC_INPUT_INVALID"))
                  (ap (λ (p : ParsedRequirements). p.pypi_lines) read)
                ∙ passes_all _ _ _ _),
        ap pip_lines read ∙ append-nil lines,
      )
