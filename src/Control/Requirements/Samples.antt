-- ===== src/Control/Requirements/Samples.antt =====
-- Options of pip in a requirements.txt (backend/app/core/k8s/requirements_policy.py).
use python_flow_hub.Prelude.{String, ◌≡◌, refl, true, List, [], ◌∷◌, ok, starts_with, every_mem}
use python_flow_hub.Control.Requirements.{
  Unicode, Settings, ParsedRequirements, package_name, validate_requirements, pip_lines,
}
use python_flow_hub.Control.Requirements.Allowed.{validate_requirements-options}

abbrev lines : List String
lines = "-e git+https://example.org/x" ∷ "--index-url=https://example.org" ∷ []

abbrev unicode : Unicode
unicode = record {
  strip = λ s. s;
  lower = λ s. s;
  splitlines = λ s. lines;
  split_commas = λ s. s ∷ [];
}

abbrev settings : Settings
settings = record { pip_require_whitelist = true; pip_allowed_packages = "numpy" }

package_name_sample : package_name unicode "numpy>=1.26 # pinned" ≡ "numpy"
unfolding package_name
package_name_sample = refl

validate_requirements-options_example :
    (parsed : ParsedRequirements) × (validate_requirements unicode "text" settings ≡ ok parsed)
    × (pip_lines parsed ≡ lines)
validate_requirements-options_example =
    validate_requirements-options unicode settings "text"
      (every_mem (λ line. starts_with "-" line) lines refl)
