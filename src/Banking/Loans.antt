-- ===== src/Banking/Loans.antt =====
-- shared/domain/banking.ts: loans between players and from the bank.
use monopoly_bank.Prelude.{Bool, true, false, not, ◌||◌, Option, none, some, ◌==◌, if◌then◌else◌}
use monopoly_bank.Prelude.Int.{ℤ, pos, ◌+ℤ◌, ◌-ℤ◌, ltb_ℤ, eqb_ℤ}
use monopoly_bank.Types.{
  GameId, PlayerId, Game, Player, LoanState, LoanLenderKind, Loan, BankLoanCooldown, loan_issue,
  loan_repayment,
}
use monopoly_bank.Outcome.{
  loan_not_found, loan_amount_exceeds_debt, full_repayment_required, bank_loan_limit_exceeded,
  bank_loan_already_active, bank_loan_cooldown, Result, ok, err, ◌>>=◌, ◌>>◌, throw_if,
}
use monopoly_bank.Money.{bank_loan_interest, build_game_settings}
use monopoly_bank.Reversal.{is_set}
use monopoly_bank.Banking.Command.{
  IssueLoanCommand, RepayLoanCommand, IssueBankLoanCommand, RepayBankLoanCommand,
}
use monopoly_bank.Banking.Pending.{NewLoan, LoanRepayment, BankingOperationResult}
use monopoly_bank.Banking.Guards.{
  validate_game, validate_amount, find_player, ensure_different_players, ensure_sufficient_funds,
  ensure_active,
}
use monopoly_bank.Banking.Deltas.{transfer_deltas, repayment_deltas, apply_deltas, create_result}
use monopoly_bank.Banking.Transfers.{is_true}

abbrev is_active_loan : LoanState → Bool
is_active_loan LoanState.active = true
is_active_loan LoanState.repaid = false
is_active_loan LoanState.written_off = false

abbrev is_bank_loan : LoanLenderKind → Bool
is_bank_loan LoanLenderKind.bank = true
is_bank_loan LoanLenderKind.player = false

abbrev with_new_loan : BankingOperationResult → NewLoan → BankingOperationResult
with_new_loan result new_loan = record result {
  transaction = record result.transaction { new_loan = some new_loan };
}

abbrev with_repayment : BankingOperationResult → LoanRepayment → BankingOperationResult
with_repayment result repayment = record result {
  transaction = record result.transaction { loan_repayment = some repayment };
}

unfoldable pub issue_loan : IssueLoanCommand → Result BankingOperationResult
issue_loan c = do
  players ← validate_game c.game c.players
  validate_amount c.amount
  lender ← find_player players c.lender_player_id
  borrower ← find_player players c.borrower_player_id
  ensure_active lender
  ensure_active borrower
  ensure_different_players lender borrower
  ensure_sufficient_funds lender c.amount
  changes ← apply_deltas players (transfer_deltas (some lender.id) (some borrower.id) c.amount)
  let result = create_result c.game.id loan_issue c.amount c.amount none changes
  ok (
      with_new_loan result (record {
        lender_kind = LoanLenderKind.player;
        lender_player_id = some lender.id;
        borrower_player_id = borrower.id;
        principal = c.amount;
        cooldown_acknowledged = false;
      }))

abbrev pub outstanding_of : Loan → ℤ
outstanding_of loan = loan.principal -ℤ loan.repaid_amount

-- The guard of `repayLoan`, which hands on the lender.
unfoldable pub player_lender : Loan → GameId → PlayerId → Result PlayerId
player_lender loan game_id player_id =
    if not (loan.game_id == game_id)
      || (not (loan.borrower_player_id == player_id) || not (is_active_loan loan.state))
    then err (loan_not_found loan.id)
    else elim loan.lender_player_id [
      | none ↦ err (loan_not_found loan.id)
      | some lender ↦ ok lender
    ]

unfoldable pub repay_loan : RepayLoanCommand → Result BankingOperationResult
repay_loan c = do
  players ← validate_game c.game c.players
  lender_id ← player_lender c.loan c.game.id c.player_id
  validate_amount c.amount
  let outstanding = outstanding_of c.loan
  throw_if (ltb_ℤ outstanding c.amount) (loan_amount_exceeds_debt c.loan.id outstanding c.amount)
  borrower ← find_player players c.player_id
  lender ← find_player players lender_id
  ensure_active borrower
  ensure_active lender
  ensure_sufficient_funds borrower c.amount
  changes ← apply_deltas players (repayment_deltas borrower.id (some lender.id) c.amount (pos 0))
  let result = create_result c.game.id loan_repayment c.amount c.amount none changes
  ok (
      with_repayment result (record {
        loan_id = c.loan.id;
        lender_player_id = some lender.id;
        borrower_player_id = borrower.id;
        amount = c.amount;
        interest_amount = none;
        interest_rate_percent = none;
        suggested_rate_percent = none;
      }))

-- `(game.settings ?? buildGameSettings(game.startingBalance)).bankLoanMax`
unfoldable pub bank_loan_limit : Game → Result ℤ
bank_loan_limit game = elim game.settings [
  | some settings ↦ ok settings.bank_loan_max
  | none ↦ build_game_settings game.starting_balance >>= λ settings. ok settings.bank_loan_max
]

unfoldable pub ensure_no_bank_loan : Player → Option Loan → Result (Unit {0})
ensure_no_bank_loan borrower none = ok tt
ensure_no_bank_loan borrower (some loan) = err (bank_loan_already_active borrower.id loan.id)

unfoldable pub ensure_cooldown : Player → Option BankLoanCooldown → Option Bool → Result (Unit {0})
ensure_cooldown borrower none acknowledged = ok tt
ensure_cooldown borrower (some cooldown) acknowledged =
    throw_if (not (is_true acknowledged)) (bank_loan_cooldown borrower.id cooldown.rounds_left)

unfoldable pub issue_bank_loan : IssueBankLoanCommand → Result BankingOperationResult
issue_bank_loan c = do
  players ← validate_game c.game c.players
  validate_amount c.amount
  max ← bank_loan_limit c.game
  throw_if (ltb_ℤ max c.amount) (bank_loan_limit_exceeded c.amount max)
  borrower ← find_player players c.player_id
  ensure_active borrower
  ensure_no_bank_loan borrower c.active_bank_loan
  ensure_cooldown borrower c.cooldown c.acknowledge_cooldown
  changes ← apply_deltas players (transfer_deltas none (some borrower.id) c.amount)
  let result = create_result c.game.id loan_issue c.amount c.amount none changes
  ok (
      with_new_loan result (record {
        lender_kind = LoanLenderKind.bank;
        lender_player_id = none;
        borrower_player_id = borrower.id;
        principal = c.amount;
        cooldown_acknowledged = is_set c.cooldown;
      }))

-- The guard that `repayBankLoan` and `settleBankLoan` share.
unfoldable pub require_bank_loan : Loan → GameId → PlayerId → Result (Unit {0})
require_bank_loan loan game_id player_id =
    throw_if
      (not (loan.game_id == game_id)
        || (not (loan.borrower_player_id == player_id)
            || (not (is_active_loan loan.state) || not (is_bank_loan loan.lender_kind))))
      (loan_not_found loan.id)

unfoldable pub repay_bank_loan : RepayBankLoanCommand → Result BankingOperationResult
repay_bank_loan c = do
  players ← validate_game c.game c.players
  require_bank_loan c.loan c.game.id c.player_id
  validate_amount c.amount
  let outstanding = outstanding_of c.loan
  throw_if (not (eqb_ℤ c.amount outstanding))
      (full_repayment_required c.loan.id outstanding c.amount)
  interest ← bank_loan_interest outstanding c.interest_rate_percent
  let total = outstanding +ℤ interest
  validate_amount total
  borrower ← find_player players c.player_id
  ensure_active borrower
  ensure_sufficient_funds borrower total
  changes ← apply_deltas players (repayment_deltas borrower.id none outstanding interest)
  let result = create_result c.game.id loan_repayment total total none changes
  ok (
      with_repayment result (record {
        loan_id = c.loan.id;
        lender_player_id = none;
        borrower_player_id = borrower.id;
        amount = outstanding;
        interest_amount = some interest;
        interest_rate_percent = some c.interest_rate_percent;
        suggested_rate_percent = some c.suggested_rate_percent;
      }))
