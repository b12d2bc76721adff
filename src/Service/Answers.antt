-- ===== src/Service/Answers.antt =====
-- worker/services/banking-service.ts: accepting, declining and cancelling payment requests.
use monopoly_bank.Prelude.{ℕ, Option, none, some, List, if◌then◌else◌}
use monopoly_bank.Types.{GameId, GameRuleKey, Game, Player, RecordId}
use monopoly_bank.Outcome.{
  payment_request_resource, payment_request_not_pending, persistence_consistency,
  resource_not_found, conflict, Result, ok, err, ◌>>=◌, ◌>>◌,
}
use monopoly_bank.Banking.Pending.{BankingOperationResult}
use monopoly_bank.Banking.Loans.{issue_loan}
use monopoly_bank.Banking.Transfers.{player_to_player}
use monopoly_bank.Store.{
  LedgerRow, PaymentRequestState, PaymentRequestKind, PaymentRequest, Store, is_pending,
  get_payment_request, expire_payments, settle, resolve_payments,
}
use monopoly_bank.Service.Reads.{list_players, assert_rule_enabled}
use monopoly_bank.Service.Offers.{require_game, assert_auction_reserve_respected}
use monopoly_bank.Service.Commit.{loan_command, require_stored}

unfoldable pub require_payment_request : Store → GameId → RecordId → Result PaymentRequest
require_payment_request store game_id request_id =
    elim (get_payment_request store.payment_requests game_id request_id) [
      | none ↦ err (resource_not_found payment_request_resource)
      | some request ↦ ok request
    ]

abbrev pub after_expiry : ℕ → GameId → Store → Store
after_expiry now game_id store = record store {
  payment_requests = expire_payments now game_id store.payment_requests;
}

-- The transaction that an accepted request names.
unfoldable pub accepted_transaction : Store → GameId → Option RecordId → Result LedgerRow
accepted_transaction store game_id none = err persistence_consistency
accepted_transaction store game_id (some id) = require_stored store game_id id

-- The operation of a request, under the rule of player loans for a loan.
unfoldable pub request_result :
    Game → List Player → PaymentRequest → PaymentRequestKind → Result BankingOperationResult
request_result game players request PaymentRequestKind.loan = do
  assert_rule_enabled game GameRuleKey.player_loans
  issue_loan
      (loan_command game players request.payer_player_id request.recipient_player_id request.amount)
request_result game players request PaymentRequestKind.payment = player_to_player (record {
  game = game;
  players = players;
  comment = request.comment;
  source_player_id = request.payer_player_id;
  destination_player_id = request.recipient_player_id;
  amount = request.amount;
})

pub record Answered : Type 0 where
  pub store : Store
  pub payment_request : PaymentRequest
  pub transaction : LedgerRow

-- The times at which an acceptance reads the clock: when it expires requests, and in the two
-- statements of the settlement.
pub record Clock : Type 0 where
  pub expired : ℕ
  pub checked : ℕ
  pub accepted : ℕ

unfoldable pub settle_request : Clock → RecordId → GameId → PaymentRequest → Store → Result Answered
settle_request clock id game_id request store = do
  game ← require_game store game_id
  result ← request_result game (list_players store game_id) request request.kind
  assert_auction_reserve_respected store game result
  settled ←
      settle clock.checked clock.accepted request.id id result.transaction result.affected_players
        store
  transaction ← require_stored settled game_id id
  accepted ← require_payment_request settled game_id request.id
  ok (record { store = settled; payment_request = accepted; transaction = transaction })

unfoldable pub accept_state :
    Clock → RecordId → GameId → PaymentRequest → PaymentRequestState → Store → Result Answered
accept_state clock id game_id request PaymentRequestState.accepted store = do
  transaction ← accepted_transaction store game_id request.transaction_id
  ok (record { store = store; payment_request = request; transaction = transaction })
accept_state clock id game_id request PaymentRequestState.pending store =
    settle_request clock id game_id request store
accept_state clock id game_id request _ store = err (conflict payment_request_not_pending)

unfoldable pub accept_payment_request :
    Clock → RecordId → GameId → RecordId → Store → Result Answered
accept_payment_request clock id game_id request_id store = do
  let current = after_expiry clock.expired game_id store
  request ← require_payment_request current game_id request_id
  accept_state clock id game_id request request.state current

abbrev pub resolved_store : RecordId → PaymentRequestState → Store → Store
resolved_store request_id state store = record store {
  payment_requests = resolve_payments request_id state store.payment_requests;
}

-- `declinePaymentRequest` with DECLINED and `cancelPaymentRequest` with CANCELLED.
unfoldable pub resolve_payment_request :
    ℕ → GameId → RecordId → PaymentRequestState → Store → Result (Store × PaymentRequest)
resolve_payment_request now game_id request_id state store = do
  let expired = after_expiry now game_id store
  current ← require_payment_request expired game_id request_id
  let written =
      if is_pending current.state then resolved_store request_id state expired else expired
  answered ← require_payment_request written game_id request_id
  ok (written, answered)
