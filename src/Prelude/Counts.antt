-- ===== src/Prelude/Counts.antt =====
-- How often a text stands in a list, membership, and lists compared by their counts.
use Prim.Native.Nat.{ℕ, suc, ◌+◌, ◌≤◌, ◌<◌}
use Prim.Native.String.{String}
use mathlib.Core.Path.{◌≡◌, refl}
use mathlib.Core.Bool.{Bool, true, false, ◌||◌}
use mathlib.Core.List.{List, [], ◌∷◌, ◌++◌}
use native.Mathlib.Omega.{arith}
use text.Mathlib.Text.{◌==◌}
use text.Mathlib.TextEquality.{eq_iff}
use python_flow_hub.Prelude.Tests.{if◌then◌else◌}
use python_flow_hub.Prelude.Lists.{length}

-- `x in xs`
abbrev pub contains : String → List String → Bool
contains x [] = false
contains x (y ∷ ys) = y == x || contains x ys

abbrev pub count : String → List String → ℕ
count x [] = 0
count x (y ∷ ys) = (if y == x then 1 else 0) + count x ys

pub count-append : (x : String) (xs ys : List String) → count x (xs ++ ys) ≡ count x xs + count x ys
count-append x [] ys = omega arith
count-append x (y ∷ xs) ys = omega (arith, count-append x xs ys)

pub contains_of_count : (x : String) (xs : List String) → 0 < count x xs → contains x xs ≡ true
contains_of_count x [] h = absurd (omega arith)
contains_of_count x (y ∷ xs) h = ground (arith, contains_of_count x xs)

pub count_of_contains : (x : String) (xs : List String) → contains x xs ≡ true → 0 < count x xs
count_of_contains x [] h = absurd (cc)
count_of_contains x (y ∷ xs) h = ground (arith, count_of_contains x xs)

pub contains-append :
    (x : String) (xs ys : List String) → contains x (xs ++ ys) ≡ (contains x xs || contains x ys)
contains-append x [] ys = refl
contains-append x (y ∷ xs) ys = ground (arith, contains-append x xs ys)

-- One occurrence less.
remove_one : String → List String → List String
remove_one x [] = []
remove_one x (y ∷ ys) = if y == x then ys else y ∷ remove_one x ys

length-remove_one :
    (x : String) (xs : List String) → 0 < count x xs → suc (length (remove_one x xs)) ≡ length xs
unfolding remove_one
length-remove_one x [] h = absurd (omega arith)
length-remove_one x (y ∷ xs) h = ground (arith, length-remove_one x xs)

count-remove_one :
    (v x : String) (xs : List String)
    → 0 < count x xs
    → count v (remove_one x xs) + (if x == v then 1 else 0) ≡ count v xs
unfolding remove_one
count-remove_one v x [] h = absurd (omega arith)
count-remove_one v x (y ∷ xs) h =
    ground (arith, count-remove_one v x xs, eq_iff y x, eq_iff y v, eq_iff x v)

pub count_self : (x : String) (xs : List String) → 0 < count x (x ∷ xs)
count_self x xs = ground (arith, eq_iff x x)

-- A list whose every count is bounded by that of another is no longer than it.
pub length-le_of_count :
    (xs ys : List String) → ((v : String) → count v xs ≤ count v ys) → length xs ≤ length ys
length-le_of_count [] ys h = omega arith
length-le_of_count (x ∷ xs) ys h =
    let here : 0 < count x ys = omega (arith, count_self x xs, h x) in
    let rest =
      length-le_of_count xs (remove_one x ys)
        (λ v. omega (arith, count-remove_one v x ys here, h v)) in
    omega (arith, rest, length-remove_one x ys here)

-- Of two such lists of one length, each has every text as often as the other.
pub count-eq_of_length :
    (xs ys : List String)
    → ((v : String) → count v xs ≤ count v ys)
    → length ys ≤ length xs
    → (v : String) → count v xs ≡ count v ys
count-eq_of_length [] [] h l v = refl
count-eq_of_length [] (y ∷ ys) h l v = absurd (omega arith)
count-eq_of_length (x ∷ xs) ys h l v =
    let here : 0 < count x ys = omega (arith, count_self x xs, h x) in
    let rest =
      count-eq_of_length xs (remove_one x ys)
        (λ w. omega (arith, count-remove_one w x ys here, h w))
        (omega (arith, length-remove_one x ys here)) v in
    omega (arith, rest, count-remove_one v x ys here)
