-- ===== src/Banking/Effects/Borrows.antt =====
-- When the bank lends: the conditions of `issueBankLoan`, each of them needed.
use monopoly_bank.Prelude.{◌≡◌, refl, ◌↔◌, Bool, true, false, Option, none, some, arith}
use monopoly_bank.Prelude.Int.{ℤ, ◌+ℤ◌, ◌≤ℤ◌, int_laws}
use monopoly_bank.Types.{Player, BankLoanCooldown}
use monopoly_bank.Outcome.{ok, must}
use monopoly_bank.Money.{is_safe_integer}
use monopoly_bank.Banking.Command.{IssueBankLoanCommand}
use monopoly_bank.Banking.Pending.{BankingOperationResult}
use monopoly_bank.Banking.Guards.{
  is_bankrupt, validate_game, validate_amount, find_player, ensure_active,
}
use monopoly_bank.Banking.Deltas.{transfer_deltas, create_balance_change, apply_deltas}
use monopoly_bank.Banking.Transfers.{is_true}
use monopoly_bank.Banking.Loans.{
  bank_loan_limit, ensure_no_bank_loan, ensure_cooldown, issue_bank_loan,
}
use monopoly_bank.Banking.Effects.Applies.{validate_game-eq}
use monopoly_bank.Banking.Effects.Changes.{known_player}
use monopoly_bank.Banking.Effects.Table.{validate_game-IsTable}
use monopoly_bank.Banking.Effects.Returns.{IsAmount, found-IsSeated, create_balance_change-ok}

-- No cooldown runs, or the borrower has taken note of it.
abbrev pub IsFree : Option BankLoanCooldown → Option Bool → Type 0
IsFree none acknowledged = Unit {0}
IsFree (some cooldown) acknowledged = is_true acknowledged ≡ true

pub record CanBorrow (c : IssueBankLoanCommand) (borrower : Player) (max : ℤ) : Type 0 where
  pub valid : validate_game c.game c.players ≡ ok c.players
  pub amount : IsAmount c.amount
  pub limit : bank_loan_limit c.game ≡ ok max
  pub within : c.amount ≤ℤ max
  pub found : find_player c.players c.player_id ≡ ok borrower
  pub solvent : is_bankrupt borrower ≡ false
  pub no_loan : c.active_bank_loan ≡ none
  pub free : IsFree c.cooldown c.acknowledge_cooldown
  pub fits : is_safe_integer (borrower.balance +ℤ c.amount) ≡ true

IsFree-ensure_cooldown :
    (borrower : Player) (cooldown : Option BankLoanCooldown) (acknowledged : Option Bool)
    → IsFree cooldown acknowledged
    → ensure_cooldown borrower cooldown acknowledged ≡ ok tt
unfolding ensure_cooldown
IsFree-ensure_cooldown borrower none acknowledged free = refl
IsFree-ensure_cooldown borrower (some cooldown) acknowledged free = rw free refl

ensure_cooldown-IsFree :
    (borrower : Player) (cooldown : Option BankLoanCooldown) (acknowledged : Option Bool)
    → ensure_cooldown borrower cooldown acknowledged ≡ ok tt
    → IsFree cooldown acknowledged
unfolding ensure_cooldown
ensure_cooldown-IsFree borrower none acknowledged h = tt
ensure_cooldown-IsFree borrower (some cooldown) acknowledged h = ground arith

CanBorrow-issue_bank_loan :
    (c : IssueBankLoanCommand) (borrower : Player) (max : ℤ)
    → CanBorrow c borrower max
    → (r : BankingOperationResult) × (issue_bank_loan c ≡ ok r)
unfolding issue_bank_loan validate_amount ensure_active ensure_no_bank_loan apply_deltas
    transfer_deltas
CanBorrow-issue_bank_loan c borrower max can =
    let again = known_player c.players c.player_id borrower can.found in
    let table = validate_game-IsTable c.game c.players can.valid in
    let (_, (low, _)) =
      found-IsSeated c.game.id c.players c.player_id borrower table.seated can.found in
    let (change, made) =
      create_balance_change-ok borrower c.amount can.fits (omega (int_laws, low, can.amount.0)) in
    let free = IsFree-ensure_cooldown borrower c.cooldown c.acknowledge_cooldown can.free in
    must _ (λ e failed. ground arith)

module _ (c : IssueBankLoanCommand) (r : BankingOperationResult)
    (h : issue_bank_loan c ≡ ok r) where
  borrows_valid : validate_game c.game c.players ≡ ok c.players
  unfolding issue_bank_loan
  borrows_valid = grind (arith, validate_game-eq)

  borrows_limit : (max : ℤ) × (bank_loan_limit c.game ≡ ok max)
  unfolding issue_bank_loan
  borrows_limit = let valid = borrows_valid in must _ (λ e failed. ground arith)

  borrows_found : (p : Player) × (find_player c.players c.player_id ≡ ok p)
  unfolding issue_bank_loan
  borrows_found =
      let valid = borrows_valid in
      let (max, limit) = borrows_limit in must _ (λ e failed. ground arith)

  module _ (borrower : Player) (max : ℤ) (limit : bank_loan_limit c.game ≡ ok max)
      (found : find_player c.players c.player_id ≡ ok borrower) where
    borrows_cooldown : ensure_cooldown borrower c.cooldown c.acknowledge_cooldown ≡ ok tt
    unfolding issue_bank_loan
    borrows_cooldown = let valid = borrows_valid in ground arith

    borrows_can : CanBorrow c borrower max
    unfolding issue_bank_loan validate_amount ensure_active ensure_no_bank_loan apply_deltas
        transfer_deltas create_balance_change
    borrows_can =
        let valid = borrows_valid in
        let again = known_player c.players c.player_id borrower found in
        record {
          valid = valid;
          amount = (ground arith, ground arith);
          limit = limit;
          within = ground arith;
          found = found;
          solvent = ground arith;
          no_loan = ground arith;
          free = ensure_cooldown-IsFree borrower c.cooldown c.acknowledge_cooldown borrows_cooldown;
          fits = ground arith;
        }

-- A bank loan is issued exactly when the game and its players are valid, the amount is a safe one
-- above zero and within the limit of the game, the borrower is an active player of the game with no
-- running bank loan, a cooldown that still runs is acknowledged, and the new balance is safe.
pub issue_bank_loan_iff :
    (c : IssueBankLoanCommand)
    → ((r : BankingOperationResult) × (issue_bank_loan c ≡ ok r))
      ↔ ((borrower : Player) × ((max : ℤ) × CanBorrow c borrower max))
issue_bank_loan_iff c = (
  (λ (r, h).
      let (max, limit) = borrows_limit c r h in
      let (borrower, found) = borrows_found c r h in
      (borrower, (max, borrows_can c r h borrower max limit found))),
  (λ (borrower, (max, can)). CanBorrow-issue_bank_loan c borrower max can),
)
