-- ===== src/Banking/Effects/Credit.antt =====
-- The deltas that each loan operation applies.
use monopoly_bank.Prelude.{◌≡◌, inl, inr, none, some, arith}
use monopoly_bank.Prelude.Int.{ℤ, pos, ◌+ℤ◌}
use monopoly_bank.Outcome.{ok, Result-cases}
use monopoly_bank.Money.{bank_loan_interest}
use monopoly_bank.Banking.Command.{
  IssueLoanCommand, RepayLoanCommand, IssueBankLoanCommand, RepayBankLoanCommand,
}
use monopoly_bank.Banking.Pending.{BankingOperationResult}
use monopoly_bank.Banking.Deltas.{transfer_deltas, repayment_deltas, create_result}
use monopoly_bank.Banking.Loans.{
  issue_loan, outstanding_of, player_lender, repay_loan, issue_bank_loan, repay_bank_loan,
}
use monopoly_bank.Banking.Effects.Changes.{find_player-id}
use monopoly_bank.Banking.Effects.Applies.{Applies, validate_game-eq}

pub issue_loan-Applies :
    (c : IssueLoanCommand) (r : BankingOperationResult)
    → issue_loan c ≡ ok r
    → Applies c.game c.players
        (transfer_deltas (some c.lender_player_id) (some c.borrower_player_id) c.amount)
        r
unfolding issue_loan create_result
issue_loan-Applies c r h = grind (arith, find_player-id, validate_game-eq)

pub repay_loan-Applies :
    (c : RepayLoanCommand) (r : BankingOperationResult)
    → repay_loan c ≡ ok r
    → Applies c.game c.players
        (repayment_deltas c.player_id c.loan.lender_player_id c.amount (pos 0))
        r
unfolding repay_loan create_result player_lender
repay_loan-Applies c r h = grind (arith, find_player-id, validate_game-eq)

pub issue_bank_loan-Applies :
    (c : IssueBankLoanCommand) (r : BankingOperationResult)
    → issue_bank_loan c ≡ ok r
    → Applies c.game c.players (transfer_deltas none (some c.player_id) c.amount) r
unfolding issue_bank_loan create_result
issue_bank_loan-Applies c r h = grind (arith, find_player-id, validate_game-eq)

-- What a repaid bank loan costs above its principal.
pub record Repays (c : RepayBankLoanCommand) (r : BankingOperationResult) (interest : ℤ)
    : Type 0 where
  pub charged : bank_loan_interest (outstanding_of c.loan) c.interest_rate_percent ≡ ok interest
  pub total : r.transaction.total_amount ≡ outstanding_of c.loan +ℤ interest
  pub applies :
      Applies c.game c.players
        (repayment_deltas c.player_id none (outstanding_of c.loan) interest)
        r

repay_bank_loan-charge :
    (c : RepayBankLoanCommand) (r : BankingOperationResult)
    → repay_bank_loan c ≡ ok r
    → (interest : ℤ) × (bank_loan_interest (outstanding_of c.loan) c.interest_rate_percent
        ≡ ok interest)
unfolding repay_bank_loan
repay_bank_loan-charge c r h =
    elim (Result-cases (bank_loan_interest (outstanding_of c.loan) c.interest_rate_percent)) [
      | inl charged ↦ charged
      | inr (e, failed) ↦ absurd (ground arith)
    ]

repay_bank_loan-Repays_at :
    (c : RepayBankLoanCommand) (r : BankingOperationResult) (interest : ℤ)
    → repay_bank_loan c ≡ ok r
    → bank_loan_interest (outstanding_of c.loan) c.interest_rate_percent ≡ ok interest
    → Repays c r interest
unfolding repay_bank_loan create_result
repay_bank_loan-Repays_at c r interest h e = grind (arith, find_player-id, validate_game-eq)

pub repay_bank_loan-Repays :
    (c : RepayBankLoanCommand) (r : BankingOperationResult)
    → repay_bank_loan c ≡ ok r
    → (interest : ℤ) × Repays c r interest
repay_bank_loan-Repays c r h =
    let (interest, e) = repay_bank_loan-charge c r h in
    (interest, repay_bank_loan-Repays_at c r interest h e)
