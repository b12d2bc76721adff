-- ===== src/Store/Insolvency.antt =====
-- worker/repositories/operation-statements/bankruptcy-statements.ts: what a bankruptcy does to the
-- players, the mortgages and the loans.
use monopoly_bank.Prelude.{
  Bool, true, false, not, ◌&&◌, ◌||◌, none, some, List, [], ◌∷◌, map, ◌==◌, if◌then◌else◌, any,
}
use monopoly_bank.Prelude.Int.{pos, ◌+ℤ◌, ltb_ℤ, eqb_ℤ}
use monopoly_bank.Types.{GameId, PlayerId, PlayerStatus, Player, LoanState, Loan}
use monopoly_bank.Outcome.{database_error, Result, ok, throw_if, ◌>>=◌, ◌>>◌}
use monopoly_bank.Money.{TextHost, property_name_key}
use monopoly_bank.Property.Lookup.{is_owner}
use monopoly_bank.Banking.Pending.{SettlementOutcome, BankLoanSettlement}
use monopoly_bank.Banking.Guards.{is_bankrupt}
use monopoly_bank.Store.Tables.{MortgageRow}
use monopoly_bank.Store.Writes.{same_flag}
use monopoly_bank.Store.Records.{
  same_text, is_active_mortgage, released_row, is_active_loan_row, is_bank_lender,
}
use monopoly_bank.Store.Closing.{PersistInput}

-- `status = 'ACTIVE'`: the column is never NULL, and an absent status reads as ACTIVE.
abbrev pub bankrupt_row : GameId → PlayerId → Player → Player
bankrupt_row game_id bankrupt row =
    if row.id == bankrupt && (row.game_id == game_id && not (is_bankrupt row))
    then record row { status = some PlayerStatus.bankrupt; balance = pos 0 }
    else row

unfoldable pub bankrupt_status_statements : PersistInput → List Player → List Player
bankrupt_status_statements input rows = elim input.bankrupt_player_id [
  | none ↦ rows
  | some bankrupt ↦ map (bankrupt_row input.transaction.game_id bankrupt) rows
]

abbrev pub is_active_of : GameId → PlayerId → MortgageRow → Bool
is_active_of game_id player_id row =
    row.game_id == game_id && (row.player_id == player_id && is_active_mortgage row.state)

-- OR IGNORE: a mortgage that the heir already has under the same name stays.
abbrev inherit_mortgage :
    TextHost → GameId → PlayerId → PlayerId → List MortgageRow → MortgageRow → MortgageRow
inherit_mortgage host game_id bankrupt heir rows row =
    if is_active_of game_id bankrupt row
      && not (
          any
            (λ other.
              other.player_id == heir
              && (is_active_mortgage other.state
                  && same_text (property_name_key host other.property_name)
                      (property_name_key host row.property_name)))
            rows)
    then record row { player_id = heir }
    else row

abbrev pub release_mortgage : GameId → PlayerId → MortgageRow → MortgageRow
release_mortgage game_id bankrupt row =
    if is_active_of game_id bankrupt row then released_row row else row

unfoldable pub bankrupt_mortgage_statements :
    TextHost → PersistInput → List MortgageRow → List MortgageRow
bankrupt_mortgage_statements host input rows = elim input.bankrupt_player_id [
  | none ↦ rows
  | some bankrupt ↦
      map (release_mortgage input.transaction.game_id bankrupt)
        (elim input.mortgage_heir_player_id [
          | none ↦ rows
          | some heir ↦
              map (inherit_mortgage host input.transaction.game_id bankrupt heir rows) rows
        ])
]

abbrev settled_state : SettlementOutcome → LoanState
settled_state SettlementOutcome.repaid = LoanState.repaid
settled_state SettlementOutcome.written_off = LoanState.written_off

abbrev pub is_repaid : LoanState → Bool
is_repaid LoanState.active = false
is_repaid LoanState.repaid = true
is_repaid LoanState.written_off = false

-- The CHECKs: a loan is repaid exactly when its principal is, and never by more.
unfoldable pub settlement_statements : GameId → BankLoanSettlement → List Loan → Result (List Loan)
settlement_statements game_id settlement [] = ok []
settlement_statements game_id settlement (row ∷ rows) = do
  let named = row.id == settlement.loan_id && row.game_id == game_id
  let paid = row.repaid_amount +ℤ settlement.paid_principal
  let state = settled_state settlement.outcome
  throw_if
      (named
        && (not (is_active_loan_row row.state)
            || (not (is_bank_lender row.lender_kind)
                || (not (row.borrower_player_id == settlement.borrower_player_id)
                    || (ltb_ℤ row.principal paid
                        || not (same_flag (is_repaid state) (eqb_ℤ paid row.principal)))))))
      database_error
  rest ← settlement_statements game_id settlement rows
  ok ((if named then record row { repaid_amount = paid; state = state } else row) ∷ rest)

unfoldable pub bank_loan_settlement_statements : PersistInput → List Loan → Result (List Loan)
bank_loan_settlement_statements input rows = elim input.bankrupt_player_id [
  | none ↦ ok rows
  | some bankrupt ↦ elim input.transaction.bank_loan_settlement [
    | none ↦ ok rows
    | some settlement ↦
        if ltb_ℤ (pos 0) settlement.paid_principal
        then settlement_statements input.transaction.game_id settlement rows
        else ok rows
  ]
]

abbrev pub write_off_owed : GameId → PlayerId → Loan → Loan
write_off_owed game_id bankrupt row =
    if row.game_id == game_id
      && (row.borrower_player_id == bankrupt && is_active_loan_row row.state)
    then record row { state = LoanState.written_off }
    else row

abbrev pub inherit_loan : GameId → PlayerId → PlayerId → Loan → Loan
inherit_loan game_id bankrupt heir row =
    if row.game_id == game_id
      && (is_owner row.lender_player_id bankrupt
          && (not (row.borrower_player_id == heir) && is_active_loan_row row.state))
    then record row { lender_player_id = some heir }
    else row

abbrev pub write_off_lent : GameId → PlayerId → Loan → Loan
write_off_lent game_id bankrupt row =
    if row.game_id == game_id
      && (is_owner row.lender_player_id bankrupt && is_active_loan_row row.state)
    then record row { state = LoanState.written_off }
    else row

unfoldable pub bankrupt_debt_statements : PersistInput → List Loan → List Loan
bankrupt_debt_statements input rows = elim input.bankrupt_player_id [
  | none ↦ rows
  | some bankrupt ↦
      let game_id = input.transaction.game_id in
      let forgiven = map (write_off_owed game_id bankrupt) rows in
      map (write_off_lent game_id bankrupt) (elim input.loan_heir_player_id [
        | none ↦ forgiven
        | some heir ↦ map (inherit_loan game_id bankrupt heir) forgiven
      ])
]
