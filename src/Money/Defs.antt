-- ===== src/Money/Defs.antt =====
-- Safe integers, the cost of a redemption, the interest of a bank loan, and the settings that are
-- derived from a starting balance (a game with no board).
use monopoly_bank.Prelude.{
  ℕ, zero, suc, ◌+◌, ◌-◌, ◌*◌, ◌/◌, ◌^◌, String, Bool, not, none, some, Option, List, [], ◌∷◌, ◌&&◌,
  ◌||◌, ltb, leb, ◌==◌, if◌then◌else◌,
}
use monopoly_bank.Prelude.Int.{ℤ, pos, pos_part, neg_part, ◌+ℤ◌, ◌*ℤ◌, floor_div, leb_ℤ}
use monopoly_bank.Types.{InterestRatePercent, percent, GameSettings}
use monopoly_bank.Outcome.{Result, ok, range_error, throw_if, ◌>>=◌, ◌>>◌}

-- `Number.MAX_SAFE_INTEGER`
abbrev max_safe_integer : ℕ
max_safe_integer = 9007199254740991

-- `Number.isSafeInteger`, on a whole number
abbrev pub is_safe_integer : ℤ → Bool
is_safe_integer a = leb (pos_part a + neg_part a) max_safe_integer

unfoldable pub redemption_cost : ℤ → ℤ
redemption_cost mortgage_value = mortgage_value +ℤ floor_div (mortgage_value +ℤ pos 5) 10

unfoldable pub bank_loan_interest : ℤ → InterestRatePercent → Result ℤ
bank_loan_interest principal rate = do
  let product = principal *ℤ percent rate
  throw_if
      (not (is_safe_integer principal)
        || leb_ℤ principal (pos 0)
        || not (is_safe_integer (product +ℤ pos 50)))
      range_error
  ok (floor_div (product +ℤ pos 50) 100)

abbrev units_per_starting_balance : ℕ
units_per_starting_balance = 150

abbrev pub minimum_unit : ℕ
minimum_unit = 10

abbrev pub round_mantissas : List ℕ
round_mantissas = 1 ∷ 2 ∷ 5 ∷ []

-- `Math.abs(candidate - raw)` with `raw = startingBalance / 150`, times 150: the quotient is no
-- whole number, and the code only compares such distances.
unfoldable pub distance : ℕ → ℕ → ℕ
distance balance candidate =
    let scaled = candidate * units_per_starting_balance in (scaled - balance) + (balance - scaled)

-- The body of the inner loop.
unfoldable pub nearer : ℕ → ℕ → ℕ → ℕ
nearer balance candidate best =
    if leb minimum_unit candidate && ltb (distance balance candidate) (distance balance best)
    then candidate
    else best

unfoldable pub try_mantissas : ℕ → ℕ → List ℕ → ℕ → ℕ
try_mantissas balance power [] best = best
try_mantissas balance power (m ∷ ms) best =
    try_mantissas balance power ms (nearer balance (m * 10 ^ power) best)

-- The outer loop, by the rounds left: `power` runs up to 12.
unfoldable pub try_powers : ℕ → ℕ → ℕ → ℕ → ℕ
try_powers balance zero power best = best
try_powers balance (suc rounds) power best =
    try_powers balance rounds (power + 1) (try_mantissas balance power round_mantissas best)

unfoldable pub derive_money_unit : ℤ → Result ℕ
derive_money_unit starting_balance = do
  throw_if (not (is_safe_integer starting_balance) || leb_ℤ starting_balance (pos 0)) range_error
  ok (try_powers (pos_part starting_balance) 12 1 minimum_unit)

-- `buildGameSettings(startingBalance)`: the board mode is `none`.
unfoldable pub build_game_settings : ℤ → Result GameSettings
build_game_settings starting_balance = do
  unit ← derive_money_unit starting_balance
  ok (record {
    unit = pos unit;
    income_tax = pos (unit * 20);
    luxury_tax = pos (unit * 10);
    jail_fine = pos (unit * 5);
    bank_loan_max = pos (unit * 20);
    auction_min_bid = pos unit;
    auction_bid_steps = pos unit ∷ pos (unit * 5 / 2) ∷ pos (unit * 5) ∷ pos (unit * 10) ∷ [];
    board = none;
  })

abbrev max_property_name_length : ℕ
max_property_name_length = 60

-- The text functions of the JavaScript runtime that a property name passes through: `normalize` to
-- NFC, the two whitespace steps, the length in UTF-16 units, the test for forbidden characters
-- and `toLowerCase`.
pub record TextHost : Type 0 where
  pub nfc : String → String
  pub collapse_whitespace : String → String
  pub trim : String → String
  pub utf16_length : String → ℕ
  pub has_forbidden : String → Bool
  pub to_lower_case : String → String

unfoldable pub property_name_key : TextHost → String → String
property_name_key host name = host.to_lower_case (host.nfc name)

unfoldable pub normalize_property_name : TextHost → String → Option String
normalize_property_name host value =
    let name = host.trim (host.collapse_whitespace (host.nfc value)) in
    if host.utf16_length name == 0 || ltb max_property_name_length (host.utf16_length name)
    then none
    else if host.has_forbidden name
    then none
    else some name
