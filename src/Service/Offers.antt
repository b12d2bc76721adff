-- ===== src/Service/Offers.antt =====
-- worker/services/banking-service.ts: the switch of the rule that a request needs, and the payment
-- requests of a confirmation game. An id is a number in base 16, so `commandScopedId` replaces its
-- last digit.
use monopoly_bank.Prelude.{
  ℕ, ◌+◌, ◌*◌, ◌/◌, String, Bool, true, false, not, ◌&&◌, Option, none, some, List, [], ◌∷◌, map,
  ◌==◌, if◌then◌else◌, get_or, find, filter,
}
use monopoly_bank.Prelude.Int.{ℤ, ◌+ℤ◌, ◌-ℤ◌, ltb_ℤ}
use monopoly_bank.Types.{
  GameId, PlayerId, GameRuleKey, PaymentMode, Game, Player, RecordId, Auction,
}
use monopoly_bank.Outcome.{
  game_resource, invalid_payment_request, no_other_active_players, insufficient_available_funds,
  resource_not_found, conflict, Result, ok, err, throw_if, ◌>>=◌, ◌>>◌,
}
use monopoly_bank.Auction.{auction_reserve, assert_reserve_respected}
use monopoly_bank.Banking.Pending.{BankingOperationResult}
use monopoly_bank.Banking.Guards.{is_bankrupt}
use monopoly_bank.Store.{
  LedgerRow, PaymentRequestState, PaymentRequestKind, PaymentRequest, Store, payment_request_ttl,
  create_payment_request, get_payment_request, expire_payments, pending_reserved_amount,
}
use monopoly_bank.Service.Reads.{get_game, running_auction, assert_rule_enabled}
use monopoly_bank.Service.LoanView.{is_empty_list}
use monopoly_bank.Service.Requests.{
  TransactionRequest, request_payment, request_from_all, request_pass_go, request_to_jackpot,
  request_jackpot, request_bank_loan, request_repayment,
}

pub data CommandResponse : Type 0 where
  transaction_response : LedgerRow → List Player → CommandResponse
  requests_response : List PaymentRequest → List Player → CommandResponse

unfoldable pub require_game : Store → GameId → Result Game
require_game store game_id = elim (get_game store game_id) [
  | none ↦ err (resource_not_found game_resource)
  | some game ↦ ok game
]

unfoldable pub assert_auction_reserve_respected :
    Store → Game → BankingOperationResult → Result (Unit {0})
assert_auction_reserve_respected store game result = elim result.transaction.settles_auction [
  | some _ ↦ ok tt
  | none ↦ assert_reserve_respected result.affected_players (running_auction store game)
]

-- The switch of the game rules that a request needs.
unfoldable pub assert_request_rules : Game → TransactionRequest → Result (Unit {0})
assert_request_rules game (request_to_jackpot player_id amount comment) =
    assert_rule_enabled game GameRuleKey.free_parking_jackpot
assert_request_rules game (request_jackpot player_id amount) =
    assert_rule_enabled game GameRuleKey.free_parking_jackpot
assert_request_rules game (request_bank_loan player_id amount acknowledged) =
    assert_rule_enabled game GameRuleKey.bank_loans
assert_request_rules game (request_repayment player_id loan_id amount rate) =
    if game.rules GameRuleKey.bank_loans
    then ok tt
    else assert_rule_enabled game GameRuleKey.player_loans
assert_request_rules game (request_pass_go player_id exact_landing comment) =
    if get_or exact_landing false
    then assert_rule_enabled game GameRuleKey.double_reward_on_exact_go
    else ok tt
assert_request_rules game _ = ok tt

-- One payment that waits for its approver.
pub record PaymentPair : Type 0 where
  pub payer_player_id : PlayerId
  pub recipient_player_id : PlayerId
  pub creator_player_id : PlayerId
  pub approver_player_id : PlayerId
  pub amount : ℤ
  pub comment : Option String

abbrev is_asked : PlayerId → Player → Bool
is_asked recipient player = not (player.id == recipient) && not (is_bankrupt player)

-- The payments of a confirmation game, or `none` for a request that is not confirmed.
unfoldable pub confirmation_pairs : List Player → TransactionRequest → Option (List PaymentPair)
confirmation_pairs players (request_payment source destination amount comment) = some (
    record {
      payer_player_id = source;
      recipient_player_id = destination;
      creator_player_id = source;
      approver_player_id = destination;
      amount = amount;
      comment = comment;
    }
    ∷ [])
confirmation_pairs players (request_from_all recipient amount comment) = some (
    map
      (λ (player : Player). record {
        payer_player_id = player.id;
        recipient_player_id = recipient;
        creator_player_id = recipient;
        approver_player_id = player.id;
        amount = amount;
        comment = comment;
      })
      (filter (is_asked recipient) players))
confirmation_pairs players _ = none

abbrev pub is_confirmed : PaymentMode → Bool
is_confirmed PaymentMode.fast = false
is_confirmed PaymentMode.confirmation = true

-- What a wallet has left beside its pending requests and its leading bid.
unfoldable pub available_balance : ℕ → GameId → List PaymentRequest → Option Auction → Player → ℤ
available_balance now game_id requests auction payer =
    payer.balance
    -ℤ (pending_reserved_amount now game_id payer.id requests +ℤ auction_reserve auction payer.id)

unfoldable pub check_payer :
    ℕ
    → GameId
    → List PaymentRequest
    → Option Auction
    → PaymentPair
    → Option Player
    → Result (Unit {0})
check_payer now game_id requests auction pair none = err (conflict invalid_payment_request)
check_payer now game_id requests auction pair (some payer) = do
  throw_if (pair.payer_player_id == pair.recipient_player_id) (conflict invalid_payment_request)
  let available = available_balance now game_id requests auction payer
  throw_if (ltb_ℤ available pair.amount)
      (insufficient_available_funds payer.id available pair.amount)

-- The body of the loop over the pairs.
abbrev pub check_pair :
    ℕ
    → GameId
    → List Player
    → List PaymentRequest
    → Option Auction
    → PaymentPair
    → Result (Unit {0})
check_pair now game_id players requests auction pair =
    check_payer now game_id requests auction pair
      (find (λ (player : Player). player.id == pair.payer_player_id) players)

unfoldable pub check_pairs :
    ℕ
    → GameId
    → List Player
    → List PaymentRequest
    → Option Auction
    → List PaymentPair
    → Result (Unit {0})
check_pairs now game_id players requests auction [] = ok tt
check_pairs now game_id players requests auction (pair ∷ pairs) = do
  check_pair now game_id players requests auction pair
  check_pairs now game_id players requests auction pairs

abbrev pub command_scoped_id : RecordId → ℕ → RecordId
command_scoped_id command_id index = command_id / 16 * 16 + index

abbrev pub request_of_pair : ℕ → GameId → RecordId → PaymentPair → PaymentRequest
request_of_pair now game_id id pair = record {
  id = id;
  kind = PaymentRequestKind.payment;
  game_id = game_id;
  payer_player_id = pair.payer_player_id;
  recipient_player_id = pair.recipient_player_id;
  creator_player_id = pair.creator_player_id;
  approver_player_id = pair.approver_player_id;
  amount = pair.amount;
  comment = pair.comment;
  state = PaymentRequestState.pending;
  expires_at = now + payment_request_ttl;
  transaction_id = none;
}

unfoldable pub create_requests :
    ℕ
    → GameId
    → RecordId
    → ℕ
    → List PaymentPair
    → List PaymentRequest
    → Result (List PaymentRequest)
create_requests now game_id command_id index [] rows = ok rows
create_requests now game_id command_id index (pair ∷ pairs) rows = do
  created ←
      create_payment_request (request_of_pair now game_id (command_scoped_id command_id index) pair)
        rows
  create_requests now game_id command_id (index + 1) pairs created

-- The requests that were created, as they are stored.
abbrev created_requests :
    GameId → RecordId → ℕ → List PaymentPair → List PaymentRequest → List PaymentRequest
created_requests game_id command_id index [] rows = []
created_requests game_id command_id index (pair ∷ pairs) rows =
    let rest = created_requests game_id command_id (index + 1) pairs rows in
    elim (get_payment_request rows game_id (command_scoped_id command_id index)) [
      | none ↦ rest
      | some row ↦ row ∷ rest
    ]

unfoldable pub create_confirmation_requests :
    ℕ → Game → List PaymentPair → List Player → RecordId → Store → Result (Store × CommandResponse)
create_confirmation_requests now game pairs players command_id store = do
  throw_if (is_empty_list pairs) no_other_active_players
  let requests = expire_payments now game.id store.payment_requests
  check_pairs now game.id players requests (running_auction store game) pairs
  created ← create_requests now game.id command_id 0 pairs requests
  ok (
    record store { payment_requests = created },
    requests_response (created_requests game.id command_id 0 pairs created) players,
  )
