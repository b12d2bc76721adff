-- ===== src/Money/Rounding.antt =====
-- Rounding half up: the cost of a redemption and the interest of a bank loan.
use monopoly_bank.Prelude.{ℕ, ◌+◌, ◌*◌, ◌/◌, ◌≤◌, ◌≡◌, arith}
use monopoly_bank.Prelude.Int.{ℤ, pos, pos_part, ◌+ℤ◌, ◌*ℤ◌, ◌≤ℤ◌, floor_div}
use monopoly_bank.Types.{InterestRatePercent, rate0, rate10, rate20, percent}
use monopoly_bank.Outcome.{ok}
use monopoly_bank.Money.Defs.{redemption_cost, bank_loan_interest}

-- For every mortgage value of zero or more, the redemption cost is `floor((value * 11 + 5) / 10)`:
-- the value plus 10%, rounded half up.
pub redemption_cost-rounds : (v : ℕ) → redemption_cost (pos v) ≡ pos ((v * 11 + 5) / 10)
unfolding redemption_cost floor_div ◌+ℤ◌
redemption_cost-rounds v = ground arith

-- When the interest is returned, it is the principal times the rate divided by 100, rounded half
-- up: a hundred times the interest lies at most 49 below and at most 50 above principal times rate.
-- The principal is then positive, and the interest is not negative.
pub bank_loan_interest-rounds :
    (p : ℤ) (r : InterestRatePercent) (i : ℤ)
    → bank_loan_interest p r ≡ ok i
    → (pos 1 ≤ℤ p)
      × (pos 0 ≤ℤ i)
      × (pos_part p * pos_part (percent r) ≤ 100 * pos_part i + 49)
      × (100 * pos_part i ≤ pos_part p * pos_part (percent r) + 50)
unfolding bank_loan_interest floor_div ◌+ℤ◌ ◌*ℤ◌
bank_loan_interest-rounds p rate0 i h = ground arith
bank_loan_interest-rounds p rate10 i h = ground arith
bank_loan_interest-rounds p rate20 i h = ground arith
