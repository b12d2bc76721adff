-- ===== src/Property/Levels.antt =====
-- `Math.min(...levels)` and `Math.max(...levels)`: `none` is the infinity of an empty call.
use monopoly_bank.Prelude.{
  ◌≡◌, refl, inl, inr, Bool, false, Option, none, some, List, [], ◌∷◌, arith, Option-cases, All,
}
use monopoly_bank.Prelude.Int.{ℤ, pos, ◌+ℤ◌, ◌≤ℤ◌, ltb_ℤ, min_ℤ, max_ℤ, int_laws}

unfoldable pub min_of : List ℤ → Option ℤ
min_of [] = none
min_of (x ∷ xs) = elim (min_of xs) [ none ↦ some x | some m ↦ some (min_ℤ x m) ]

unfoldable pub max_of : List ℤ → Option ℤ
max_of [] = none
max_of (x ∷ xs) = elim (max_of xs) [ none ↦ some x | some m ↦ some (max_ℤ x m) ]

-- `level > Math.min(...levels)` and `level < Math.max(...levels)`
abbrev pub exceeds : ℤ → Option ℤ → Bool
exceeds level none = false
exceeds level (some m) = ltb_ℤ m level

abbrev pub falls_below : ℤ → Option ℤ → Bool
falls_below level none = false
falls_below level (some m) = ltb_ℤ level m

-- `Math.max(...levels) - Math.min(...levels) > 1`
unfoldable pub is_uneven : List ℤ → Bool
is_uneven levels = elim (max_of levels) [
  | none ↦ false
  | some high ↦ elim (min_of levels) [ none ↦ false | some low ↦ ltb_ℤ (low +ℤ pos 1) high ]
]

All-weaken : (P Q : ℤ → Type 0) (xs : List ℤ) → ((x : ℤ) → P x → Q x) → All P xs → All Q xs
All-weaken P Q [] weaker h = tt
All-weaken P Q (x ∷ xs) weaker (h, hs) = (weaker x h, All-weaken P Q xs weaker hs)

max_of-none : (levels : List ℤ) → max_of levels ≡ none → levels ≡ []
unfolding max_of
max_of-none [] h = refl
max_of-none (x ∷ xs) h = ground arith

min_of-none : (levels : List ℤ) → min_of levels ≡ none → levels ≡ []
unfolding min_of
min_of-none [] h = refl
min_of-none (x ∷ xs) h = ground arith

max_of-bound :
    (levels : List ℤ) (high : ℤ) → max_of levels ≡ some high → All (λ x. x ≤ℤ high) levels
unfolding max_of max_ℤ
max_of-bound [] high h = tt
max_of-bound (x ∷ xs) high h = elim (Option-cases (max_of xs)) [
  | inl empty ↦ (ground arith, rw (max_of-none xs empty) tt)
  | inr (m, top) ↦ (
    ground arith,
    All-weaken (λ y. y ≤ℤ m) (λ y. y ≤ℤ high) xs (λ y below. ground arith) (max_of-bound xs m top),
  )
]

min_of-bound : (levels : List ℤ) (low : ℤ) → min_of levels ≡ some low → All (λ x. low ≤ℤ x) levels
unfolding min_of min_ℤ
min_of-bound [] low h = tt
min_of-bound (x ∷ xs) low h = elim (Option-cases (min_of xs)) [
  | inl empty ↦ (ground arith, rw (min_of-none xs empty) tt)
  | inr (m, bottom) ↦ (
    ground arith,
    All-weaken (λ y. m ≤ℤ y) (λ y. low ≤ℤ y) xs (λ y above. ground arith)
        (min_of-bound xs m bottom),
  )
]

-- No level is more than one above another.
abbrev pub IsEven : List ℤ → Type 0
IsEven levels = All (λ a. All (λ b. a ≤ℤ b +ℤ pos 1) levels) levels

-- Levels that do not count as uneven differ by one at most.
pub is_uneven-IsEven : (levels : List ℤ) → is_uneven levels ≡ false → IsEven levels
unfolding is_uneven
is_uneven-IsEven levels h = elim (Option-cases (max_of levels)) [
  | inl empty ↦ rw (max_of-none levels empty) tt
  | inr (high, top) ↦ elim (Option-cases (min_of levels)) [
    | inl empty ↦ rw (min_of-none levels empty) tt
    | inr (low, bottom) ↦
        let gap : high ≤ℤ low +ℤ pos 1 = ground arith in
        let above = min_of-bound levels low bottom in
        All-weaken (λ a. a ≤ℤ high) (λ a. All (λ b. a ≤ℤ b +ℤ pos 1) levels) levels
          (λ a below.
            All-weaken (λ b. low ≤ℤ b) (λ b. a ≤ℤ b +ℤ pos 1) levels
              (λ b up. omega (int_laws, gap, below, up)) above)
          (max_of-bound levels high top)
  ]
]
