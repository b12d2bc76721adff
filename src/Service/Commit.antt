-- ===== src/Service/Commit.antt =====
-- worker/services/banking-service.ts: `commit`, in the order of its checks, and a loan request. A
-- command is run on one state of the database; `write_operation` takes the state at the time of the
-- write by itself. The lists that a response carries for the client are left out but for the
-- players.
use monopoly_bank.Prelude.{
  ℕ, ◌+◌, Bool, true, false, Option, none, some, List, [], ◌∷◌, ◌==◌, if◌then◌else◌, find,
}
use monopoly_bank.Prelude.Int.{ℤ, pos, ◌+ℤ◌, ◌-ℤ◌, ltb_ℤ}
use monopoly_bank.Types.{GameId, PlayerId, GameRuleKey, Game, Player, RecordId, Auction}
use monopoly_bank.Outcome.{
  trade_request_required, insufficient_available_funds, persistence_consistency, conflict, Result,
  ok, err, throw_if, ◌>>=◌, ◌>>◌,
}
use monopoly_bank.Money.{TextHost}
use monopoly_bank.Auction.{auction_reserve}
use monopoly_bank.Banking.Pending.{BankingOperationResult}
use monopoly_bank.Banking.Command.{IssueLoanCommand}
use monopoly_bank.Banking.Loans.{issue_loan}
use monopoly_bank.Store.{
  LedgerRow, PaymentRequestState, PaymentRequestKind, PaymentRequest, Store, PersistInput, persist,
  payment_request_ttl, create_payment_request, get_payment_request, expire_payments,
  pending_reserved_amount,
}
use monopoly_bank.Service.Reads.{
  list_players, running_auction, get_transaction, assert_rule_enabled,
}
use monopoly_bank.Service.Requests.{
  TransactionRequest, request_transfer, CreateTransactionRequest, direct_request,
  request_player_loan,
}
use monopoly_bank.Service.Run.{run_request}
use monopoly_bank.Service.Offers.{
  CommandResponse, transaction_response, requests_response, require_game,
  assert_auction_reserve_respected, assert_request_rules, PaymentPair, confirmation_pairs,
  is_confirmed, command_scoped_id, create_confirmation_requests,
}

-- `lender.balance - reserved` for a lender that is there, and `0 - reserved` otherwise
abbrev pub lender_available :
    ℕ → GameId → List PaymentRequest → Option Auction → PlayerId → Option Player → ℤ
lender_available now game_id requests auction lender none =
    pos 0 -ℤ (pending_reserved_amount now game_id lender requests +ℤ auction_reserve auction lender)
lender_available now game_id requests auction lender (some player) =
    player.balance
    -ℤ (pending_reserved_amount now game_id lender requests +ℤ auction_reserve auction lender)

unfoldable pub loan_payment_request :
    ℕ → GameId → RecordId → PlayerId → PlayerId → ℤ → PaymentRequest
loan_payment_request now game_id id lender borrower amount = record {
  id = id;
  kind = PaymentRequestKind.loan;
  game_id = game_id;
  payer_player_id = lender;
  recipient_player_id = borrower;
  creator_player_id = borrower;
  approver_player_id = lender;
  amount = amount;
  comment = none;
  state = PaymentRequestState.pending;
  expires_at = now + payment_request_ttl;
  transaction_id = none;
}

abbrev pub loan_command : Game → List Player → PlayerId → PlayerId → ℤ → IssueLoanCommand
loan_command game players lender borrower amount = record {
  game = game;
  players = players;
  lender_player_id = lender;
  borrower_player_id = borrower;
  amount = amount;
}

-- Nothing moves until the lender accepts. That the lender is there is among what `issueLoan`
-- checks.
unfoldable pub create_loan_request :
    ℕ
    → Game
    → PlayerId
    → PlayerId
    → ℤ
    → List Player
    → RecordId
    → Store
    → Result (Store × CommandResponse)
create_loan_request now game lender borrower amount players command_id store = do
  checked ← issue_loan (loan_command game players lender borrower amount)
  let requests = expire_payments now game.id store.payment_requests
  let available =
      lender_available now game.id requests (running_auction store game) lender
        (find (λ (player : Player). player.id == lender) players)
  throw_if (ltb_ℤ available amount) (insufficient_available_funds lender available amount)
  let id = command_scoped_id command_id 0
  created ←
      create_payment_request (loan_payment_request now game.id id lender borrower amount) requests
  ok (
    record store { payment_requests = created },
    requests_response
        (elim (get_payment_request created game.id id) [ none ↦ [] | some row ↦ row ∷ [] ]) players,
  )

abbrev pub persist_input : RecordId → Option RecordId → BankingOperationResult → PersistInput
persist_input transaction_id trade_request_id result = record {
  transaction_id = transaction_id;
  transaction = result.transaction;
  balance_changes = result.affected_players;
  bankrupt_player_id = none;
  mortgage_heir_player_id = none;
  loan_heir_player_id = none;
  withdraw_auction_bid = false;
  accept_trade_request_id = trade_request_id;
}

unfoldable pub require_stored : Store → GameId → RecordId → Result LedgerRow
require_stored store game_id id = elim (get_transaction store game_id id) [
  | none ↦ err persistence_consistency
  | some row ↦ ok row
]

-- The write of an operation, on the database as it is then.
unfoldable pub write_operation :
    TextHost
    → ℕ
    → RecordId
    → Option RecordId
    → GameId
    → BankingOperationResult
    → Store
    → Result (Store × CommandResponse)
write_operation host now id trade_request_id game_id result store = do
  written ← persist host now (persist_input id trade_request_id result) store
  row ← require_stored written game_id id
  ok (written, transaction_response row (list_players written game_id))

unfoldable pub commit_operation :
    TextHost
    → ℕ
    → RecordId
    → Option RecordId
    → Game
    → List Player
    → TransactionRequest
    → Store
    → Result (Store × CommandResponse)
commit_operation host now id trade_request_id game players request store = do
  result ← run_request host store game players request
  assert_auction_reserve_respected store game result
  write_operation host now id trade_request_id game.id result store

abbrev pub pairs_of : Game → List Player → TransactionRequest → Option (List PaymentPair)
pairs_of game players request =
    if is_confirmed game.payment_mode then confirmation_pairs players request else none

-- `pairs` are the payments of a confirmation game.
unfoldable pub commit_direct :
    TextHost
    → ℕ
    → RecordId
    → Option RecordId
    → Game
    → List Player
    → TransactionRequest
    → Store
    → Option (List PaymentPair)
    → Result (Store × CommandResponse)
commit_direct host now id trade game players request store (some pairs) =
    create_confirmation_requests now game pairs players id store
commit_direct host now id trade game players request store none =
    commit_operation host now id trade game players request store

unfoldable pub commit_new :
    TextHost
    → ℕ
    → RecordId
    → Option RecordId
    → Game
    → List Player
    → CreateTransactionRequest
    → Store
    → Result (Store × CommandResponse)
commit_new host now id trade game players (request_player_loan lender borrower amount) store = do
  assert_rule_enabled game GameRuleKey.player_loans
  create_loan_request now game lender borrower amount players id store
commit_new host now id trade game players (direct_request request) store = do
  assert_request_rules game request
  commit_direct host now id trade game players request store (pairs_of game players request)

-- A command whose transaction is already stored is answered from the store.
unfoldable pub commit_found :
    TextHost
    → ℕ
    → RecordId
    → Option RecordId
    → GameId
    → CreateTransactionRequest
    → Store
    → Option LedgerRow
    → Result (Store × CommandResponse)
commit_found host now id trade_request_id game_id request store (some row) =
    ok (store, transaction_response row (list_players store game_id))
commit_found host now id trade_request_id game_id request store none = do
  game ← require_game store game_id
  commit_new host now id trade_request_id game (list_players store game_id) request store

abbrev pub commit :
    TextHost
    → ℕ
    → RecordId
    → Option RecordId
    → GameId
    → CreateTransactionRequest
    → Store
    → Result (Store × CommandResponse)
commit host now id trade_request_id game_id request store =
    commit_found host now id trade_request_id game_id request store
      (get_transaction store game_id id)

abbrev is_transfer : CreateTransactionRequest → Bool
is_transfer (direct_request (request_transfer _)) = true
is_transfer _ = false

-- A trade only happens through a trade request.
unfoldable pub create_transaction :
    TextHost
    → ℕ
    → RecordId
    → GameId
    → CreateTransactionRequest
    → Store
    → Result (Store × CommandResponse)
create_transaction host now id game_id request store = do
  throw_if (is_transfer request) (conflict trade_request_required)
  commit host now id none game_id request store
