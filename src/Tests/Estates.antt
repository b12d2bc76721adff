-- ===== src/Tests/Estates.antt =====
-- Bob's bankruptcy on the sample database, with Alice as his heir.
use monopoly_bank.Prelude.{refl, false, none, some, [], ◌∷◌}
use monopoly_bank.Prelude.Int.{pos, ◌+ℤ◌, neg}
use monopoly_bank.Types.{LoanState, LoanLenderKind, Loan, PlayerStatus}
use monopoly_bank.Banking.Deltas.{create_result}
use monopoly_bank.Store.{
  MortgageState, MortgageRow, TradeRequest, PaymentRequestState, PersistInput, Store, write_row,
  update_balances, guarded_balance_update, is_ledger_row, insert_transaction, registry_statements,
  jackpot_statements, mortgage_record_statements, mortgage_reversal_statements,
  mortgage_handover_statements, loan_statements, auction_statements, accepted_trade_statements,
  bankrupt_trade_statements, bankrupt_status_statements, bankrupt_mortgage_statements,
  bank_loan_settlement_statements, bankrupt_debt_statements, persist,
}
use monopoly_bank.Store.Closed.{IsClosedOut, persist-IsClosedOut}
use monopoly_bank.Tests.Samples.{sample_host, alice, bob}
use monopoly_bank.Tests.Wallets.{ruined}
use monopoly_bank.Tests.Desk.{desk, accepted_trade}

abbrev loan_of_alice : Loan
loan_of_alice = record {
  id = 7;
  game_id = 1;
  lender_kind = LoanLenderKind.player;
  lender_player_id = some 1;
  borrower_player_id = 2;
  principal = pos 50;
  repaid_amount = pos 0;
  state = LoanState.active;
}

-- The heir is the borrower.
abbrev loan_of_bob : Loan
loan_of_bob = record loan_of_alice { id = 8; lender_player_id = some 2; borrower_player_id = 1 }

abbrev mortgage_of_bob : MortgageRow
mortgage_of_bob = record {
  id = 9;
  game_id = 1;
  player_id = 2;
  property_name = "Mill";
  tile_id = none;
  mortgage_value = pos 40;
  state = MortgageState.active;
  redeemed_by_transaction_id = none;
}

abbrev pending_trade : TradeRequest
pending_trade = record accepted_trade { state = PaymentRequestState.pending; transaction_id = none }

abbrev indebted_desk : Store
indebted_desk = record desk {
  loans = loan_of_alice ∷ loan_of_bob ∷ [];
  mortgages = mortgage_of_bob ∷ [];
  trade_requests = pending_trade ∷ [];
}

abbrev ruin_input : PersistInput
ruin_input = record {
  transaction_id = 12;
  transaction = ruined.transaction;
  balance_changes = ruined.affected_players;
  bankrupt_player_id = some 2;
  mortgage_heir_player_id = some 1;
  loan_heir_player_id = some 1;
  withdraw_auction_bid = false;
  accept_trade_request_id = none;
}

abbrev closed_desk : Store
closed_desk = record desk {
  players =
      record alice { balance = pos 800 }
      ∷ record bob { balance = pos 0; status = some PlayerStatus.bankrupt }
      ∷ [];
  transactions = record { id = 12; transaction = ruined.transaction } ∷ [];
  loans =
      record loan_of_alice { state = LoanState.written_off }
      ∷ record loan_of_bob { state = LoanState.written_off }
      ∷ [];
  mortgages = record mortgage_of_bob { player_id = 1 } ∷ [];
  trade_requests = record pending_trade { state = PaymentRequestState.cancelled } ∷ [];
}

persist-IsClosedOut_example : IsClosedOut 1 2 closed_desk
unfolding persist guarded_balance_update update_balances write_row insert_transaction is_ledger_row
    accepted_trade_statements registry_statements mortgage_record_statements
    mortgage_reversal_statements loan_statements jackpot_statements auction_statements
    bank_loan_settlement_statements bankrupt_status_statements bankrupt_mortgage_statements
    mortgage_handover_statements bankrupt_debt_statements bankrupt_trade_statements create_result
    ◌+ℤ◌ neg
persist-IsClosedOut_example =
    persist-IsClosedOut sample_host 0 ruin_input 2 indebted_desk closed_desk refl refl
