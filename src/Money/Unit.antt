-- ===== src/Money/Unit.antt =====
-- The money unit: the search of `deriveMoneyUnit` finds the nearest value of the 1-2-5 series.
use native.Mathlib.Decide.{dec_le}
use native.Mathlib.Nat.{pow-suc}
use monopoly_bank.Outcome.{ok}
use monopoly_bank.Prelude.Int.{ℤ, pos_part}
use monopoly_bank.Prelude.{
  ℕ, zero, suc, ◌+◌, ◌*◌, ◌^◌, ◌≤◌, ◌<◌, ◌≡◌, refl, ◌⊎◌, inl, inr, ◌&&◌, List, [], ◌∷◌, arith, All,
  leb, ltb, Bool-cases,
}
use monopoly_bank.Money.Defs.{
  minimum_unit, round_mantissas, distance, nearer, try_mantissas, try_powers, derive_money_unit,
}

nearer-le : (b c best : ℕ) → distance b (nearer b c best) ≤ distance b best
unfolding nearer
nearer-le b c best = ground arith

nearer-le-candidate :
    (b c best : ℕ) → minimum_unit ≤ c → distance b (nearer b c best) ≤ distance b c
unfolding nearer
nearer-le-candidate b c best h = ground arith

try_mantissas-le :
    (b p : ℕ) (ms : List ℕ) (best : ℕ) → distance b (try_mantissas b p ms best) ≤ distance b best
unfolding try_mantissas
try_mantissas-le b p [] best = omega arith
try_mantissas-le b p (m ∷ ms) best =
    omega
      (arith, try_mantissas-le b p ms (nearer b (m * 10 ^ p) best), nearer-le b (m * 10 ^ p) best)

try_powers-le : (b rounds p best : ℕ) → distance b (try_powers b rounds p best) ≤ distance b best
unfolding try_powers
try_powers-le b zero p best = omega arith
try_powers-le b (suc rounds) p best = omega (
  arith,
  try_powers-le b rounds (p + 1) (try_mantissas b p round_mantissas best),
  try_mantissas-le b p round_mantissas best,
)

-- Every candidate of the series that a round tries is no nearer than what the round keeps.
abbrev Beats : ℕ → ℕ → ℕ → Type 0
Beats b p best =
    All (λ m. minimum_unit ≤ m * 10 ^ p → distance b best ≤ distance b (m * 10 ^ p)) round_mantissas

round-Beats : (b p best : ℕ) → Beats b p (try_mantissas b p round_mantissas best)
unfolding try_mantissas
round-Beats b p best =
    let first = nearer b (1 * 10 ^ p) best in
    let second = nearer b (2 * 10 ^ p) first in
    let third = nearer b (5 * 10 ^ p) second in
    let step2 : distance b second ≤ distance b first = nearer-le b (2 * 10 ^ p) first in
    let step3 : distance b third ≤ distance b second = nearer-le b (5 * 10 ^ p) second in
    (
      λ h. omega (arith, step2, step3, nearer-le-candidate b (1 * 10 ^ p) best h),
      (
        λ h. omega (arith, step3, nearer-le-candidate b (2 * 10 ^ p) first h),
        (λ h. nearer-le-candidate b (5 * 10 ^ p) second h, tt),
      ),
    )

Beats-le : (b p x y : ℕ) → Beats b p y → distance b x ≤ distance b y → Beats b p x
Beats-le b p x y (h1, (h2, (h5, _))) k =
    (λ e. omega (arith, h1 e), (λ e. omega (arith, h2 e), (λ e. omega (arith, h5 e), tt)))

try_powers-Beats :
    (b rounds p₀ p best : ℕ) → p₀ ≤ p → p < p₀ + rounds → Beats b p (try_powers b rounds p₀ best)
unfolding try_powers
try_powers-Beats b zero p₀ p best h k = absurd (omega arith)
try_powers-Beats b (suc rounds) p₀ p best h k =
    let kept = try_mantissas b p₀ round_mantissas best in
    elim (dec_le (p₀ + 1) p) [
      | yes later ↦ try_powers-Beats b rounds (p₀ + 1) p kept later (omega arith)
      | no here ↦
          let same : p₀ ≡ p = omega arith in
          Beats-le b p (try_powers b rounds (p₀ + 1) kept) kept
            (rw (← same) (round-Beats b p₀ best)) (try_powers-le b rounds (p₀ + 1) kept)
    ]

abbrev pub IsMantissa : ℕ → Type 0
IsMantissa m = (m ≡ 1) ⊎ ((m ≡ 2) ⊎ (m ≡ 5))

ten_le_pow : (q : ℕ) → 10 ≤ 10 ^ suc q
ten_le_pow zero = omega arith
ten_le_pow (suc q) = rw (pow-suc 10 (suc q)) (omega (arith, ten_le_pow q))

minimum_le : (m q : ℕ) → IsMantissa m → minimum_unit ≤ m * 10 ^ suc q
minimum_le m q (inl e) = rw e (omega (arith, ten_le_pow q))
minimum_le m q (inr (inl e)) = rw e (omega (arith, ten_le_pow q))
minimum_le m q (inr (inr e)) = rw e (omega (arith, ten_le_pow q))

Beats-IsMantissa :
    (b q m x : ℕ) → IsMantissa m → Beats b (suc q) x → distance b x ≤ distance b (m * 10 ^ suc q)
Beats-IsMantissa b q m x (inl e) h = rw e (h.0 (minimum_le 1 q (inl refl)))
Beats-IsMantissa b q m x (inr (inl e)) h = rw e (h.1.0 (minimum_le 2 q (inr (inl refl))))
Beats-IsMantissa b q m x (inr (inr e)) h = rw e (h.1.1.0 (minimum_le 5 q (inr (inr refl))))

-- A value of the 1-2-5 series.
abbrev pub IsSeries : ℕ → Type 0
IsSeries unit = (m : ℕ) × ((p : ℕ) × (IsMantissa m × (unit ≡ m * 10 ^ p)))

nearer-IsSeries :
    (b candidate best : ℕ) → IsSeries candidate → IsSeries best → IsSeries (nearer b candidate best)
unfolding nearer
nearer-IsSeries b candidate best new old =
    let taken = leb minimum_unit candidate && ltb (distance b candidate) (distance b best) in
    elim (Bool-cases taken) [ inl yes_taken ↦ rw yes_taken new | inr not_taken ↦ rw not_taken old ]

try_mantissas-IsSeries :
    (b p best : ℕ) → IsSeries best → IsSeries (try_mantissas b p round_mantissas best)
unfolding try_mantissas
try_mantissas-IsSeries b p best h =
    nearer-IsSeries b (5 * 10 ^ p) _ (5, (p, (inr (inr refl), refl)))
      (nearer-IsSeries b (2 * 10 ^ p) _ (2, (p, (inr (inl refl), refl)))
        (nearer-IsSeries b (1 * 10 ^ p) best (1, (p, (inl refl, refl))) h))

try_powers-IsSeries : (b rounds p best : ℕ) → IsSeries best → IsSeries (try_powers b rounds p best)
unfolding try_powers
try_powers-IsSeries b zero p best h = h
try_powers-IsSeries b (suc rounds) p best h =
    try_powers-IsSeries b rounds (p + 1) _ (try_mantissas-IsSeries b p best h)

-- The unit of a starting balance is a value of the 1-2-5 series, and the nearest to a
-- hundred-and-fiftieth of it: no mantissa 1, 2 or 5 at a power of ten from 1 to 12 is nearer.
pub derive_money_unit-nearest :
    (starting_balance : ℤ) (unit : ℕ)
    → derive_money_unit starting_balance ≡ ok unit
    → IsSeries unit
      × ((m q : ℕ)
          → IsMantissa m
          → q < 12
          → distance (pos_part starting_balance) unit
            ≤ distance (pos_part starting_balance) (m * 10 ^ suc q))
unfolding derive_money_unit
derive_money_unit-nearest sb unit h =
    let best = try_powers (pos_part sb) 12 1 minimum_unit in
    let found : best ≡ unit = ground arith in
    rw (← found) (
      try_powers-IsSeries (pos_part sb) 12 1 minimum_unit (1, (1, (inl refl, omega arith))),
      λ m q mantissa bound.
          Beats-IsMantissa (pos_part sb) q m best mantissa
            (try_powers-Beats (pos_part sb) 12 1 (suc q) minimum_unit (omega arith) (omega arith)),
    )
