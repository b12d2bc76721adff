-- ===== src/Prelude/Lists.antt =====
-- Lists measured by the native numbers, with the JavaScript array tests that the program uses.
use Prim.Native.Nat.{ℕ, suc, ◌+◌}
use mathlib.Core.Path.{◌≡◌, refl, ap}
use mathlib.Core.Bool.{Bool, true, false, ◌&&◌, ◌||◌}
use mathlib.Core.Option.{Option, none, some}
use mathlib.Core.List.{List, [], ◌∷◌, ◌++◌, map}
use native.Mathlib.Omega.{arith}
use monopoly_bank.Prelude.Tests.{◌==◌, if◌then◌else◌}

module _ {ℓ} {A : Type ℓ} where
  abbrev pub length : List A → ℕ
  length [] = 0
  length (x ∷ xs) = suc (length xs)

  -- `xs.find(p)`
  abbrev pub find : (A → Bool) → List A → Option A
  find p [] = none
  find p (x ∷ xs) = if p x then some x else find p xs

  -- `xs.filter(p)`
  abbrev pub filter : (A → Bool) → List A → List A
  filter p [] = []
  filter p (x ∷ xs) = let rest = filter p xs in if p x then x ∷ rest else rest

  -- `xs.some(p)`
  abbrev pub any : (A → Bool) → List A → Bool
  any p [] = false
  any p (x ∷ xs) = p x || any p xs

  abbrev pub all : (A → Bool) → List A → Bool
  all p [] = true
  all p (x ∷ xs) = p x && all p xs

  abbrev pub All {κ} : (A → Type κ) → List A → Type κ
  All P [] = Unit
  All P (x ∷ xs) = P x × All P xs

  pub length-append : (xs ys : List A) → length (xs ++ ys) ≡ length xs + length ys
  length-append [] ys = omega arith
  length-append (x ∷ xs) ys = omega (arith, length-append xs ys)

module _ {ℓ κ} {A : Type ℓ} {B : Type κ} where
  pub length-map : (f : A → B) (xs : List A) → length (map f xs) ≡ length xs
  length-map f [] = refl
  length-map f (x ∷ xs) = ap suc (length-map f xs)

-- `xs.includes(n)`, on identifiers
abbrev pub includes : ℕ → List ℕ → Bool
includes n xs = any (λ x. x == n) xs

abbrev pub map_option {ℓ} : {A : Type ℓ} → (A → A) → Option A → Option A
map_option f none = none
map_option f (some a) = some (f a)

find_step {ℓ} :
    {A : Type ℓ} (f : A → A) (x : A) (here there : Bool) (left right : Option A)
    → there ≡ here
    → left ≡ map_option f right
    → (if there then some (f x) else left) ≡ map_option f (if here then some x else right)
find_step f x true there left right e rest = rw e refl
find_step f x false there left right e rest = rw e rest

-- A map that keeps a test keeps what the test finds.
pub find-map {ℓ} :
    {A : Type ℓ} (p : A → Bool) (f : A → A) (xs : List A)
    → ((x : A) → p (f x) ≡ p x)
    → find p (map f xs) ≡ map_option f (find p xs)
find-map p f [] keeps = refl
find-map p f (x ∷ xs) keeps =
    find_step f x (p x) (p (f x)) (find p (map f xs)) (find p xs) (keeps x) (find-map p f xs keeps)

pub map_option-some {ℓ} :
    {A : Type ℓ} (f : A → A) (o : Option A) (y : A)
    → map_option f o ≡ some y
    → (x : A) × (o ≡ some x) × (f x ≡ y)
map_option-some f none y h = cc
map_option-some f (some x) y h = (x, refl, cc)
