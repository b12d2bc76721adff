-- ===== src/Service/LoanView.antt =====
-- worker/services/bank-loan-view.ts with withLoanRounds of shared/domain/round-tracking.ts: the
-- active loans with the round of each bank loan, and who is in the cooldown.
use monopoly_bank.Prelude.{
  ℕ, Bool, true, false, not, ◌&&◌, Option, none, some, List, [], ◌∷◌, ◌++◌, map, ◌==◌,
  if◌then◌else◌, find, filter, includes,
}
use monopoly_bank.Prelude.Int.{pos, ltb_ℤ}
use monopoly_bank.Types.{GameId, PlayerId, Player, RecordId, Loan, BankLoanCooldown, Transaction}
use monopoly_bank.Rounds.{
  LoanRoundStatus, loan_round_status, Repayment, latest_of, bank_loan_cooldowns,
}
use monopoly_bank.Banking.Guards.{is_bankrupt}
use monopoly_bank.Banking.Transfers.{ids}
use monopoly_bank.Store.{LedgerRow, Store, is_active_loan_row, is_bank_lender, is_repaid}
use monopoly_bank.Service.Reads.{list_active_loans, list_ledger, list_chronological_since}

-- A loan, with the round that `withLoanRounds` adds to an active bank loan.
pub record LoanView : Type 0 where
  pub loan : Loan
  pub rounds : Option LoanRoundStatus

abbrev is_active_bank_loan : Loan → Bool
is_active_bank_loan loan = is_bank_lender loan.lender_kind && is_active_loan_row loan.state

unfoldable pub with_loan_rounds : List Loan → List Transaction → List LoanView
with_loan_rounds loans transactions =
    map
      (λ loan. record {
        loan = loan;
        rounds =
            if is_active_bank_loan loan then some (loan_round_status transactions loan) else none;
      })
      loans

-- The repayment that a row of the ledger records, of a bank loan that is repaid.
abbrev repaid_bank_loan : List Loan → RecordId → RecordId → List Repayment
repaid_bank_loan loans loan_id transaction_id =
    elim (find
      (λ loan. loan.id == loan_id && (is_bank_lender loan.lender_kind && is_repaid loan.state))
      loans) [
        | none ↦ []
        | some loan ↦
            record { player_id = loan.borrower_player_id; transaction_id = transaction_id } ∷ []
      ]

abbrev repayments_of_row : List Loan → LedgerRow → List Repayment
repayments_of_row loans row = elim row.transaction.loan_repayment [
  | some repayment ↦ repaid_bank_loan loans repayment.loan_id row.id
  | none ↦ elim row.transaction.bank_loan_settlement [
    | none ↦ []
    | some settlement ↦
        if ltb_ℤ (pos 0) settlement.paid_principal
        then repaid_bank_loan loans settlement.loan_id row.id
        else []
  ]
]

abbrev repayments_of : List Loan → List LedgerRow → List Repayment
repayments_of loans [] = []
repayments_of loans (row ∷ rows) = repayments_of_row loans row ++ repayments_of loans rows

unfoldable pub list_bank_loan_repayments : Store → GameId → List Repayment
list_bank_loan_repayments store game_id =
    repayments_of (filter (λ loan. loan.game_id == game_id) store.loans) (list_ledger store game_id)

pub record BankLoanView : Type 0 where
  pub loans : List LoanView
  pub bank_loan_cooldowns : List BankLoanCooldown

abbrev cooldown_scan_transactions : ℕ
cooldown_scan_transactions = 300

abbrev pub plain_view : Loan → LoanView
plain_view loan = record { loan = loan; rounds = none }

abbrev transaction_ids : List Transaction → List RecordId
transaction_ids transactions = map (λ t. t.id) transactions

abbrev pub is_empty_list {ℓ} : {A : Type ℓ} → List A → Bool
is_empty_list [] = true
is_empty_list (x ∷ xs) = false

unfoldable pub load_bank_loan_view : Store → GameId → List Player → BankLoanView
load_bank_loan_view store game_id players =
    let bankrupt = ids (filter is_bankrupt players) in
    let loans = list_active_loans store game_id in
    let latest = latest_of [] (list_bank_loan_repayments store game_id) in
    let loan_anchors = map (λ l. l.id) (filter (λ l. is_bank_lender l.lender_kind) loans) in
    let solvent = filter (λ (r : Repayment). not (includes r.player_id bankrupt)) latest in
    let anchors = loan_anchors ++ map (λ (r : Repayment). r.transaction_id) solvent in
    if is_empty_list anchors
    then record { loans = map plain_view loans; bank_loan_cooldowns = [] }
    else (let transactions =
          list_chronological_since store game_id anchors
            (if is_empty_list loan_anchors then some cooldown_scan_transactions else none) in
        let read = transaction_ids transactions in
        record {
          loans = with_loan_rounds loans transactions;
          bank_loan_cooldowns =
              bank_loan_cooldowns
                (filter (λ (r : Repayment). includes r.transaction_id read) latest) transactions
                bankrupt;
        })

-- `bankLoanOf`
unfoldable pub bank_loan_of : List LoanView → PlayerId → Option LoanView
bank_loan_of views player_id =
    find (λ view. is_bank_lender view.loan.lender_kind && view.loan.borrower_player_id == player_id)
      views
