-- ===== src/Value.antt =====
-- The JSON values of payloads, outputs and configurations. Numbers are integers.
use python_flow_hub.Prelude.{
  List, ℕ, zero, suc, String, ◌≡◌, refl, ap, Bool, true, false, Option, some, none, [], ◌∷◌, Dict,
  insert, lookup, ◌==◌, not,
}

pub data ℤ : Type 0 where
  pos : ℕ → ℤ
  negsuc : ℕ → ℤ

mutual
  pub data Value : Type 0 where
    null : Value
    bool : Bool → Value
    num : ℤ → Value
    text : String → Value
    list : Items → Value
    dict : Fields → Value

  pub data Items : Type 0 where
    nil : Items
    cons : Value → Items → Items

  pub data Fields : Type 0 where
    end : Fields
    field : String → Value → Fields → Fields

-- A dictionary as a value, and back.
abbrev pub fields : Dict Value → Fields
fields [] = end
fields ((k, v) ∷ d) = field k v (fields d)

abbrev pub entries : Fields → Dict Value
entries end = []
entries (field k v fs) = (k, v) ∷ entries fs

pub entries-fields : (d : Dict Value) → entries (fields d) ≡ d
entries-fields [] = refl
entries-fields ((k, v) ∷ d) = ap (λ (r : Dict Value). (k, v) ∷ r) (entries-fields d)

abbrev pub items : List Value → Items
items [] = nil
items (v ∷ vs) = cons v (items vs)

-- `v if isinstance(v, dict)`
abbrev pub as_dict : Value → Option (Dict Value)
as_dict (dict fs) = some (entries fs)
as_dict null = none
as_dict (bool b) = none
as_dict (num n) = none
as_dict (text s) = none
as_dict (list xs) = none

-- Python's `bool(v)`.
unfoldable pub truthy : Value → Bool
truthy null = false
truthy (bool b) = b
truthy (num (pos zero)) = false
truthy (num (pos (suc n))) = true
truthy (num (negsuc n)) = true
truthy (text s) = not (s == "")
truthy (list nil) = false
truthy (list (cons v vs)) = true
truthy (dict end) = false
truthy (dict (field k v fs)) = true

-- `d.get(key, default)`
abbrev pub get_value : String → Value → Dict Value → Value
get_value key default d = elim (lookup key d) [ none ↦ default | some v ↦ v ]

-- `d.update(e)`
unfoldable pub update : Dict Value → Dict Value → Dict Value
update d [] = d
update d ((k, v) ∷ e) = update (insert k v d) e
