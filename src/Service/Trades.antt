-- ===== src/Service/Trades.antt =====
-- worker/services/banking-service.ts: trade requests, and what a trade that failed reports.
use monopoly_bank.Prelude.{
  ℕ, ◌+◌, Bool, true, false, not, ◌&&◌, Option, none, some, List, [], ◌∷◌, ◌==◌, if◌then◌else◌,
  get_or,
}
use monopoly_bank.Prelude.Int.{pos, eqb_ℤ}
use monopoly_bank.Types.{TileId, GameId, RecordId}
use monopoly_bank.Outcome.{
  trade_request_resource, trade_request_not_pending, trade_request_exists, trade_request_stale,
  AppError, insufficient_funds, insufficient_available_funds, range_error, database_error,
  persistence_consistency, internal_error, resource_not_found, conflict, Result, ok, err, throw_if,
  ◌>>=◌, ◌>>◌,
}
use monopoly_bank.Money.{TextHost}
use monopoly_bank.Store.{
  LedgerRow, PaymentRequestState, TradeRequest, Store, is_pending, payment_request_ttl,
  create_trade_request, get_trade_request, expire_trades, resolve_trades,
}
use monopoly_bank.Service.Reads.{list_players}
use monopoly_bank.Service.Requests.{TransferRequest, request_transfer, direct_request}
use monopoly_bank.Service.Run.{run_request}
use monopoly_bank.Service.Offers.{
  CommandResponse, transaction_response, requests_response, require_game,
  assert_auction_reserve_respected,
}
use monopoly_bank.Service.Commit.{commit}
use monopoly_bank.Service.Answers.{accepted_transaction}

unfoldable pub require_trade_request : Store → GameId → RecordId → Result TradeRequest
require_trade_request store game_id request_id =
    elim (get_trade_request store.trade_requests game_id request_id) [
      | none ↦ err (resource_not_found trade_request_resource)
      | some request ↦ ok request
    ]

abbrev pub after_trade_expiry : ℕ → GameId → Store → Store
after_trade_expiry now game_id store = record store {
  trade_requests = expire_trades now game_id store.trade_requests;
}

unfoldable pub trade_transfer_of : TradeRequest → TransferRequest
trade_transfer_of request = record {
  player_id = request.proposer_player_id;
  counterparty_player_id = request.counterparty_player_id;
  give_tile_ids = request.give_tile_ids;
  take_tile_ids = request.take_tile_ids;
  cash_give = some request.cash_give;
  cash_take = some request.cash_take;
}

unfoldable pub same_tiles : List TileId → List TileId → Bool
same_tiles [] [] = true
same_tiles [] (y ∷ ys) = false
same_tiles (x ∷ xs) [] = false
same_tiles (x ∷ xs) (y ∷ ys) = x == y && same_tiles xs ys

-- A repeated proposal with the same id must be the same proposal.
unfoldable pub is_same_trade : TradeRequest → TransferRequest → Bool
is_same_trade existing body =
    existing.proposer_player_id == body.player_id
    && (existing.counterparty_player_id == body.counterparty_player_id
        && (same_tiles existing.give_tile_ids body.give_tile_ids
            && (same_tiles existing.take_tile_ids body.take_tile_ids
                && (eqb_ℤ existing.cash_give (get_or body.cash_give (pos 0))
                    && eqb_ℤ existing.cash_take (get_or body.cash_take (pos 0))))))

abbrev new_trade : ℕ → GameId → RecordId → TransferRequest → TradeRequest
new_trade now game_id id body = record {
  id = id;
  game_id = game_id;
  proposer_player_id = body.player_id;
  counterparty_player_id = body.counterparty_player_id;
  give_tile_ids = body.give_tile_ids;
  take_tile_ids = body.take_tile_ids;
  cash_give = get_or body.cash_give (pos 0);
  cash_take = get_or body.cash_take (pos 0);
  state = PaymentRequestState.pending;
  expires_at = now + payment_request_ttl;
  transaction_id = none;
}

-- A trade that could not be accepted now is refused up front.
unfoldable pub propose_trade :
    TextHost → ℕ → GameId → RecordId → TransferRequest → Store → Result (Store × TradeRequest)
propose_trade host now game_id id body store = do
  game ← require_game store game_id
  result ← run_request host store game (list_players store game_id) (request_transfer body)
  assert_auction_reserve_respected store game result
  created ← create_trade_request (new_trade now game_id id body) store.trade_requests
  let written = record store { trade_requests = created }
  request ← require_trade_request written game_id id
  ok (written, request)

unfoldable pub create_trade :
    TextHost → ℕ → GameId → RecordId → TransferRequest → Store → Result (Store × TradeRequest)
create_trade host now game_id id body store =
    let current = after_trade_expiry now game_id store in
    elim (get_trade_request current.trade_requests game_id id) [
      | some existing ↦ do
        throw_if (not (is_same_trade existing body)) (conflict trade_request_exists)
        ok (current, existing)
      | none ↦ propose_trade host now game_id id body current
    ]

-- The errors that `staleTradeError` hands on: the internal ones, conflicts, and a lack of money.
unfoldable pub keeps_code : AppError → Bool
keeps_code range_error = true
keeps_code internal_error = true
keeps_code database_error = true
keeps_code persistence_consistency = true
keeps_code (conflict code) = true
keeps_code (insufficient_available_funds player_id available required) = true
keeps_code (insufficient_funds player_id balance required) = true
keeps_code _ = false

unfoldable pub stale_trade_error : AppError → AppError
stale_trade_error error = if keeps_code error then error else conflict trade_request_stale

abbrev is_database_error : AppError → Bool
is_database_error database_error = true
is_database_error _ = false

abbrev is_resolved_meanwhile : Option TradeRequest → Bool
is_resolved_meanwhile none = false
is_resolved_meanwhile (some current) = not (is_pending current.state)

-- What a trade that failed reports; `current` is the request as it is stored then.
unfoldable pub trade_failure : Option TradeRequest → AppError → AppError
trade_failure current error =
    if is_database_error error && is_resolved_meanwhile current
    then conflict trade_request_not_pending
    else stale_trade_error error

unfoldable pub catch_trade : {V : Type 0} → Option TradeRequest → Result V → Result V
catch_trade current (ok value) = ok value
catch_trade current (err error) = err (trade_failure current error)

pub record TradeAnswered : Type 0 where
  pub store : Store
  pub trade_request : TradeRequest
  pub transaction : LedgerRow

-- `if (!('transaction' in committed)) throw`
unfoldable pub committed_transaction : CommandResponse → Result LedgerRow
committed_transaction (transaction_response row players) = ok row
committed_transaction (requests_response requests players) = err persistence_consistency

unfoldable pub accept_trade_state :
    TextHost
    → ℕ
    → RecordId
    → GameId
    → TradeRequest
    → PaymentRequestState
    → Store
    → Result TradeAnswered
accept_trade_state host now id game_id request PaymentRequestState.accepted store = do
  transaction ← accepted_transaction store game_id request.transaction_id
  ok (record { store = store; trade_request = request; transaction = transaction })
accept_trade_state host now id game_id request PaymentRequestState.pending store = do
  committed ← catch_trade (get_trade_request store.trade_requests game_id request.id) (
      commit host now id (some request.id) game_id
        (direct_request (request_transfer (trade_transfer_of request))) store)
  transaction ← committed_transaction committed.1
  accepted ← require_trade_request committed.0 game_id request.id
  ok (record { store = committed.0; trade_request = accepted; transaction = transaction })
accept_trade_state host now id game_id request _ store = err (conflict trade_request_not_pending)

unfoldable pub accept_trade_request :
    TextHost → ℕ → RecordId → GameId → RecordId → Store → Result TradeAnswered
accept_trade_request host now id game_id request_id store = do
  let current = after_trade_expiry now game_id store
  request ← require_trade_request current game_id request_id
  accept_trade_state host now id game_id request request.state current

abbrev state_index : PaymentRequestState → ℕ
state_index PaymentRequestState.pending = 0
state_index PaymentRequestState.accepted = 1
state_index PaymentRequestState.declined = 2
state_index PaymentRequestState.cancelled = 3
state_index PaymentRequestState.expired = 4

abbrev pub is_state : PaymentRequestState → PaymentRequestState → Bool
is_state a b = state_index a == state_index b

abbrev pub resolved_trade_store : RecordId → PaymentRequestState → Store → Store
resolved_trade_store request_id state store = record store {
  trade_requests = resolve_trades request_id state store.trade_requests;
}

-- A request that is no longer pending, or is not there, is not written to.
abbrev pub answered_store : Store → GameId → RecordId → PaymentRequestState → Store
answered_store store game_id request_id state =
    elim (get_trade_request store.trade_requests game_id request_id) [
      | none ↦ store
      | some current ↦
          if is_pending current.state then resolved_trade_store request_id state store else store
    ]

-- The store is what the repository has written by then, also when the answer is an error.
-- Repeating the same answer is harmless; any other final state is not turned into this one.
unfoldable pub resolve_trade_request :
    ℕ → GameId → RecordId → PaymentRequestState → Store → Store × Result TradeRequest
resolve_trade_request now game_id request_id state store =
    let expired = after_trade_expiry now game_id store in
    let written = answered_store expired game_id request_id state in
    (
      written,
      (do
        current ← require_trade_request expired game_id request_id
        resolved ← require_trade_request written game_id request_id
        throw_if (not (is_state resolved.state state)) (conflict trade_request_not_pending)
        ok resolved),
    )
