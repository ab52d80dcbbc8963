-- ===== src/Prelude/Members.antt =====
-- Members of selected and mapped lists.
use mathlib.Core.Path.{◌≡◌, refl, ap, sym}
use mathlib.Core.Logic.{◌↔◌, inl, inr}
use mathlib.Core.Bool.{Bool, true}
use mathlib.Core.List.{List, [], ◌∷◌, Memᴰ, map}
use mathlib.Core.List.Memᴰ
use Prim.Native.String.{String}
use native.Mathlib.Omega.{arith}
use text.Mathlib.Text.{◌==◌}
use text.Mathlib.TextEquality.{eq_iff}
use python_flow_hub.Prelude.Tests.{Bool-cases}
use python_flow_hub.Prelude.Lists.{select, every}
use python_flow_hub.Prelude.Counts.{contains}

module _ {ℓ} {A : Type ℓ} (p : A → Bool) where
  mem_of_select : (x : A) (xs : List A) → Memᴰ x (select p xs) → Memᴰ x xs × (p x ≡ true)
  mem_of_select x [] m = absurd (Memᴰ.not-nil m)
  mem_of_select x (y ∷ ys) m = elim (Bool-cases (p y)) [
    | inl keep ↦ elim (Memᴰ.cases_cons (rw keep at m)) [
      | inl same ↦ (Memᴰ.head same, rw same keep)
      | inr later ↦ let (m', h) = mem_of_select x ys later in (Memᴰ.tail m', h)
    ]
    | inr drop ↦ let (m', h) = mem_of_select x ys (rw drop at m) in (Memᴰ.tail m', h)
  ]

  select_of_mem : (x : A) (xs : List A) → Memᴰ x xs → p x ≡ true → Memᴰ x (select p xs)
  select_of_mem x [] m h = absurd (Memᴰ.not-nil m)
  select_of_mem x (y ∷ ys) m h = elim (Memᴰ.cases_cons m) [
    | inl same ↦ rw (ap p (sym same), h) (Memᴰ.head same)
    | inr later ↦ elim (Bool-cases (p y)) [
      | inl keep ↦ rw keep (Memᴰ.tail (select_of_mem x ys later h))
      | inr drop ↦ rw drop (select_of_mem x ys later h)
    ]
  ]

  pub mem-select : (x : A) (xs : List A) → Memᴰ x (select p xs) ↔ (Memᴰ x xs × (p x ≡ true))
  mem-select x xs = (mem_of_select x xs, λ h. select_of_mem x xs h.0 h.1)

  pub every_mem : (xs : List A) → every p xs ≡ true → (x : A) → Memᴰ x xs → p x ≡ true
  every_mem [] h x m = absurd (Memᴰ.not-nil m)
  every_mem (y ∷ ys) h x m = elim (Memᴰ.cases_cons m) [
    | inl same ↦ rw same (ground arith)
    | inr later ↦ every_mem ys (ground arith) x later
  ]

pub mem_of_contains : (x : String) (xs : List String) → contains x xs ≡ true → Memᴰ x xs
mem_of_contains x [] h = absurd (cc)
mem_of_contains x (y ∷ ys) h = elim (Bool-cases (y == x)) [
  | inl same ↦ Memᴰ.head (sym ((eq_iff y x).0 same))
  | inr other ↦ Memᴰ.tail (mem_of_contains x ys (rw other at h))
]

pub contains_of_mem : (x : String) (xs : List String) → Memᴰ x xs → contains x xs ≡ true
contains_of_mem x [] m = absurd (Memᴰ.not-nil m)
contains_of_mem x (y ∷ ys) m = elim (Memᴰ.cases_cons m) [
  | inl same ↦ ground (arith, eq_iff y x, sym same)
  | inr later ↦ ground (arith, contains_of_mem x ys later)
]

-- A key of a mapped list comes from some item.
pub contains-map {ℓ} :
    {A : Type ℓ} (f : A → String) (k : String) (xs : List A)
    → contains k (map f xs) ≡ true
    → (x : A) × Memᴰ x xs × (f x ≡ k)
contains-map f k [] h = absurd (cc)
contains-map f k (x ∷ xs) h = elim (Bool-cases (f x == k)) [
  | inl same ↦ (x, Memᴰ.head refl, (eq_iff (f x) k).0 same)
  | inr other ↦ let (y, m, e) = contains-map f k xs (rw other at h) in (y, Memᴰ.tail m, e)
]

pub mem-map {ℓ} :
    {A : Type ℓ} (f : A → String) (x : A) (xs : List A)
    → Memᴰ x xs
    → contains (f x) (map f xs) ≡ true
mem-map f x [] m = absurd (Memᴰ.not-nil m)
mem-map f x (y ∷ ys) m = elim (Memᴰ.cases_cons m) [
  | inl same ↦ ground (arith, eq_iff (f y) (f x), ap f same)
  | inr later ↦ ground (arith, mem-map f x ys later)
]
