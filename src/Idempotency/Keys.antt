-- ===== src/Idempotency/Keys.antt =====
-- The keys of the state and of the token never clash.
use Prim.Native.Char.{Char, code}
use Prim.Native.String.{◌++◌}
use Prim.Native.String.append
use text.Mathlib.TextLemmas.{append_cancel_left, append_cancel_right, append_assoc}
use text.Mathlib.TextEquality.{eq_iff}
use python_flow_hub.Prelude.{
  ℕ, String, ◌≡◌, ◌≢◌, refl, sym, ◌∙◌, ap, false, ◌==◌, arith, Bool-cases, inl, inr,
}
use python_flow_hub.Idempotency.Redis.{state_key, fence_key}

abbrev first : String → ℕ
first String.[] = 0
first (String.◌∷◌ c s) = code c

split : (a b t : String) (whole : String) → whole ≡ a ++ b → whole ++ t ≡ a ++ (b ++ t)
split a b t whole e = ap (λ (x : String). x ++ t) e ∙ append_assoc a b t

first-append : (c : Char) (r t s : String) → s ≡ String.◌∷◌ c r → first (s ++ t) ≡ code c
first-append c r t s e = ap (λ (x : String). first (x ++ t)) e ∙ ap first (append.cons c r t)

differ : (s t : String) → "state:{" ++ s ≢ "fence:{" ++ t
differ s t e =
    let a : first ("state:{" ++ s) ≡ code "s" = first-append "s" "tate:{" s "state:{" refl in
    let b : first ("fence:{" ++ t) ≡ code "f" = first-append "f" "ence:{" t "fence:{" refl in
    absurd (omega (arith, a, b, ap first e))

fence_key-ne-state_key : (i j : String) → fence_key i ≢ state_key j
unfolding state_key fence_key
fence_key-ne-state_key i j e = differ (j ++ "}") (i ++ "}") (
    append_cancel_left "pyflow:exec:" _ _ (
      sym (split "pyflow:exec:" "state:{" (j ++ "}") "pyflow:exec:state:{" refl)
      ∙ sym e
      ∙ split "pyflow:exec:" "fence:{" (i ++ "}") "pyflow:exec:fence:{" refl))

-- No key of a token is a key of a state.
pub keys_differ : (i j : String) → (fence_key i == state_key j) ≡ false
keys_differ i j = elim (Bool-cases (fence_key i == state_key j)) [
  | inl same ↦ absurd (fence_key-ne-state_key i j ((eq_iff _ _).0 same))
  | inr other ↦ other
]

pub keys_differ' : (i j : String) → (state_key i == fence_key j) ≡ false
keys_differ' i j = elim (Bool-cases (state_key i == fence_key j)) [
  | inl same ↦ absurd (fence_key-ne-state_key j i (sym ((eq_iff _ _).0 same)))
  | inr other ↦ other
]

-- Two executions share no state.
pub state_key-injective : (i j : String) → state_key i ≡ state_key j → i ≡ j
unfolding state_key
state_key-injective i j e =
    append_cancel_right i j "}" (append_cancel_left "pyflow:exec:state:{" _ _ e)
