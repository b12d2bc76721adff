-- ===== src/Tests/Writes.antt =====
-- Commands and answers on the sample database.
use monopoly_bank.Prelude.{ℕ, some, ◌≡◌, refl, none, [], ◌∷◌, arith}
use monopoly_bank.Prelude.Int.{◌-ℤ◌, pos, ◌+ℤ◌, neg, ◌≤ℤ◌, sum}
use monopoly_bank.Outcome.{trade_request_not_pending, conflict, ok, err}
use monopoly_bank.Property.Changes.{invert_changes, apply_changes, IsRead}
use monopoly_bank.Auction.{auction_reserve, assert_reserve_respected}
use monopoly_bank.Banking.Guards.{
  validate_players, validate_game, validate_amount, find_player, ensure_different_players,
  ensure_sufficient_funds, ensure_active,
}
use monopoly_bank.Banking.Deltas.{
  transfer_deltas, create_balance_change, apply_deltas, create_result,
}
use monopoly_bank.Banking.Transfers.{player_to_player}
use monopoly_bank.Banking.Loans.{issue_loan}
use monopoly_bank.Banking.Dispatch.{execute}
use monopoly_bank.Banking.Effects.Flow.{net}
use monopoly_bank.Store.{
  PaymentRequestState, PaymentRequestKind, Store, write_row, update_balances,
  guarded_balance_update, is_ledger_row, insert_transaction, write_property,
  registry_guard_statement, registry_statements, jackpot_statements, mortgage_record_statements,
  mortgage_reversal_statements, mortgage_handover_statements, loan_statements, auction_statements,
  accepted_trade_statements, bankrupt_trade_statements, bankrupt_status_statements,
  bankrupt_mortgage_statements, bank_loan_settlement_statements, bankrupt_debt_statements, persist,
  create_payment_request, get_payment_request, expire_payments, pending_reserved_amount,
  settlement_loans, settle, get_trade_request, expire_trades,
}
use monopoly_bank.Store.Wallets.{AreWritten, wallets}
use monopoly_bank.Store.Deeds.{deeds, registry_statements-deeds, registry_statements-invert_changes}
use monopoly_bank.Store.Settled.{unwritten}
use monopoly_bank.Store.Once.{settle-once}
use monopoly_bank.Service.{
  get_game, list_players, get_active_auction, running_auction, list_ledger, get_transaction,
  request_payment, request_to_bank, CreateTransactionRequest, direct_request, request_operation,
  check_result, run_request, transaction_response, requests_response, require_game,
  assert_auction_reserve_respected, assert_request_rules, PaymentPair, available_balance,
  check_payer, check_pairs, create_requests, create_confirmation_requests, loan_payment_request,
  create_loan_request, require_stored, write_operation, commit_operation, commit_direct, commit_new,
  commit_found, commit, require_payment_request, after_expiry, request_result, settle_request,
  Clock, accept_state, accept_payment_request, resolve_trade_request,
}
use monopoly_bank.Service.Conservation.{write_operation-wallets}
use monopoly_bank.Service.Repeats.{commit-again}
use monopoly_bank.Service.Replay.{accept_payment_request-again}
use monopoly_bank.Service.Reserves.{
  create_loan_request-reserves, create_confirmation_requests-reserves,
}
use monopoly_bank.Service.Finality.{resolve_trade_request-answered}
use monopoly_bank.Tests.Samples.{sample_host, sample_game, alice, bob, both}
use monopoly_bank.Tests.Wallets.{paid, payment}
use monopoly_bank.Tests.Desk.{
  desk, paid_players, paid_row, paid_desk, waiting_payment, waiting_desk, settled_desk,
  answered_payment, accepted_trade, traded_desk, handover, handed_streets,
}

write_operation-wallets_example :
    (AreWritten 1 paid.affected_players both paid_players)
    × (wallets 1 paid_players ≡ wallets 1 both +ℤ net paid)
unfolding execute player_to_player validate_game validate_players validate_amount find_player
    ensure_active ensure_different_players ensure_sufficient_funds apply_deltas
    create_balance_change transfer_deltas create_result ◌+ℤ◌ neg write_operation persist
    guarded_balance_update update_balances write_row insert_transaction is_ledger_row
    accepted_trade_statements registry_statements mortgage_record_statements
    mortgage_reversal_statements loan_statements jackpot_statements auction_statements
    bank_loan_settlement_statements bankrupt_status_statements bankrupt_mortgage_statements
    mortgage_handover_statements bankrupt_debt_statements bankrupt_trade_statements require_stored
    get_transaction list_ledger list_players
write_operation-wallets_example =
    write_operation-wallets sample_host 0 9 none payment paid desk paid_desk
      (transaction_response paid_row paid_players) refl refl
      ((refl, ((omega arith, tt), (refl, (tt, tt)))))

abbrev payment_request : CreateTransactionRequest
payment_request = direct_request (request_payment 1 2 (pos 100) none)

commit-again_example :
    commit sample_host 50 9 none 1 (direct_request (request_to_bank 1 (pos 5) none)) paid_desk
    ≡ ok (paid_desk, transaction_response paid_row (list_players paid_desk 1))
unfolding execute player_to_player validate_game validate_players validate_amount find_player
    ensure_active ensure_different_players ensure_sufficient_funds apply_deltas
    create_balance_change transfer_deltas create_result ◌+ℤ◌ neg write_operation persist
    guarded_balance_update update_balances write_row insert_transaction is_ledger_row
    accepted_trade_statements registry_statements mortgage_record_statements
    mortgage_reversal_statements loan_statements jackpot_statements auction_statements
    bank_loan_settlement_statements bankrupt_status_statements bankrupt_mortgage_statements
    mortgage_handover_statements bankrupt_debt_statements bankrupt_trade_statements require_stored
    get_transaction list_ledger list_players commit_found require_game get_game commit_new
    assert_request_rules commit_direct commit_operation run_request request_operation check_result
    assert_auction_reserve_respected running_auction get_active_auction assert_reserve_respected
commit-again_example =
    commit-again sample_host 0 50 9 none none 1 payment_request
      (direct_request (request_to_bank 1 (pos 5) none)) desk paid_desk paid_row paid_players refl

settle-once_example :
    ¬ (settle 40 41 5 10 paid.transaction paid.affected_players settled_desk ≡ ok settled_desk)
unfolding settle settlement_loans guarded_balance_update update_balances write_row
    insert_transaction is_ledger_row create_result
settle-once_example =
    settle-once 10 11 40 41 5 9 10 paid.transaction paid.transaction paid.affected_players
      paid.affected_players waiting_desk settled_desk settled_desk settled_desk refl refl unwritten
      (omega arith) refl

abbrev at_once : ℕ → Clock
at_once now = record { expired = now; checked = now; accepted = now }

accept_payment_request-again_example :
    accept_payment_request (at_once 40) 11 1 5 settled_desk
    ≡ ok (record answered_payment { store = after_expiry 40 1 settled_desk })
unfolding player_to_player validate_game validate_players validate_amount find_player ensure_active
    ensure_different_players ensure_sufficient_funds apply_deltas create_balance_change
    transfer_deltas create_result ◌+ℤ◌ neg settle settlement_loans guarded_balance_update
    update_balances write_row insert_transaction is_ledger_row require_stored get_transaction
    list_ledger list_players require_game get_game assert_auction_reserve_respected running_auction
    get_active_auction assert_reserve_respected accept_payment_request accept_state settle_request
    request_result require_payment_request get_payment_request expire_payments
accept_payment_request-again_example =
    accept_payment_request-again (at_once 10) (at_once 40) 9 11 1 5 waiting_desk answered_payment
      refl refl

registry_statements-deeds_example :
    (deeds 1 handed_streets ≡ apply_changes (deeds 1 desk.properties) handover)
    × IsRead handover (deeds 1 desk.properties)
unfolding registry_statements registry_guard_statement write_property
registry_statements-deeds_example =
    registry_statements-deeds 1 handover desk.properties handed_streets refl (tt, tt)

registry_statements-invert_changes_example : deeds 1 desk.properties ≡ deeds 1 desk.properties
unfolding registry_statements registry_guard_statement write_property invert_changes
registry_statements-invert_changes_example =
    registry_statements-invert_changes 1 handover desk.properties handed_streets desk.properties
      refl refl (tt, tt)

-- Bob asks Alice for a loan of 100.
abbrev loan_desk : Store
loan_desk = record desk {
  payment_requests =
      record waiting_payment {
        id = 32;
        kind = PaymentRequestKind.loan;
        creator_player_id = 2;
        approver_player_id = 1;
        expires_at = 300010;
      }
      ∷ [];
}

create_loan_request-reserves_example :
    pending_reserved_amount 10 1 1 loan_desk.payment_requests
      +ℤ auction_reserve (running_auction desk sample_game) 1
    ≤ℤ alice.balance
unfolding issue_loan validate_game validate_players validate_amount find_player ensure_active
    ensure_different_players ensure_sufficient_funds apply_deltas create_balance_change
    transfer_deltas create_result ◌+ℤ◌ ◌-ℤ◌ neg running_auction get_active_auction auction_reserve
    create_loan_request loan_payment_request create_payment_request expire_payments
    pending_reserved_amount sum get_payment_request
create_loan_request-reserves_example =
    create_loan_request-reserves 10 sample_game 1 2 (pos 100) both 37 desk loan_desk
      (requests_response loan_desk.payment_requests both) alice refl refl

abbrev asked_pair : PaymentPair
asked_pair = record {
  payer_player_id = 1;
  recipient_player_id = 2;
  creator_player_id = 1;
  approver_player_id = 2;
  amount = pos 100;
  comment = none;
}

abbrev asked_desk : Store
asked_desk = record desk {
  payment_requests = record waiting_payment { id = 32; expires_at = 300010 } ∷ [];
}

abbrev asked_back : PaymentPair
asked_back = record {
  payer_player_id = 2;
  recipient_player_id = 1;
  creator_player_id = 2;
  approver_player_id = 1;
  amount = pos 100;
  comment = none;
}

abbrev asked_both : Store
asked_both = record desk {
  payment_requests =
      record waiting_payment { id = 32; expires_at = 300010 }
      ∷ record waiting_payment {
        id = 33;
        expires_at = 300010;
        payer_player_id = 2;
        recipient_player_id = 1;
        creator_player_id = 2;
        approver_player_id = 1;
      }
      ∷ [];
}

create_confirmation_requests-reserves_example :
    pending_reserved_amount 10 1 2 asked_both.payment_requests
      +ℤ auction_reserve (running_auction desk sample_game) 2
    ≤ℤ bob.balance
unfolding ◌+ℤ◌ ◌-ℤ◌ running_auction get_active_auction auction_reserve create_confirmation_requests
    check_pairs check_payer available_balance create_requests create_payment_request expire_payments
    pending_reserved_amount sum get_payment_request
create_confirmation_requests-reserves_example =
    create_confirmation_requests-reserves 10 sample_game (asked_pair ∷ asked_back ∷ []) asked_back
      both 37 desk asked_both (requests_response asked_both.payment_requests both) bob refl refl
      refl

resolve_trade_request-answered_example :
    (resolve_trade_request 40 1 6 PaymentRequestState.declined traded_desk
      ≡ (traded_desk, err (conflict trade_request_not_pending)))
    × (get_trade_request
          (resolve_trade_request 40 1 6 PaymentRequestState.declined traded_desk).0.trade_requests
          1
          6
        ≡ some accepted_trade)
unfolding get_trade_request expire_trades
resolve_trade_request-answered_example =
    resolve_trade_request-answered 40 1 6 PaymentRequestState.declined traded_desk accepted_trade
      refl refl
