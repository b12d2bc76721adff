-- ===== src/Service/Finality.antt =====
-- An answer to a trade request is final.
use mathlib.Core.Path.{ap₂, subst}
use monopoly_bank.Prelude.{
  ℕ, ◌≡◌, refl, sym, ap, ◌∙◌, Bool, true, false, not, ◌&&◌, some, List, arith, ◌==◌, if◌then◌else◌,
  map_option, find-map,
}
use monopoly_bank.Types.{GameId, RecordId}
use monopoly_bank.Outcome.{trade_request_not_pending, AppError, conflict, ok, err, throw_if, ◌>>◌}
use monopoly_bank.Store.{
  PaymentRequestState, TradeRequest, Store, is_pending, get_trade_request, expire_trade,
  expire_trades,
}
use monopoly_bank.Service.Trades.{
  require_trade_request, after_trade_expiry, is_state, answered_store, resolve_trade_request,
}

expire_trade-keeps :
    (now : ℕ) (game_id : GameId) (row : TradeRequest)
    → ((expire_trade now game_id row).game_id ≡ row.game_id)
      × ((expire_trade now game_id row).id ≡ row.id)
expire_trade-keeps now game_id row = ground arith

answered_trade-stays :
    (now : ℕ) (game_id : GameId) (row : TradeRequest)
    → is_pending row.state ≡ false
    → expire_trade now game_id row ≡ row
answered_trade-stays now game_id row h = ground arith

get_trade_request-answered :
    (now : ℕ) (game_id : GameId) (id : RecordId) (rows : List TradeRequest) (row : TradeRequest)
    → get_trade_request rows game_id id ≡ some row
    → is_pending row.state ≡ false
    → get_trade_request (expire_trades now game_id rows) game_id id ≡ some row
unfolding get_trade_request expire_trades
get_trade_request-answered now game_id id rows row found answered =
    find-map _ (expire_trade now game_id) rows (λ r.
      ap₂ (λ g i. g == game_id && i == id) (expire_trade-keeps now game_id r).0
        (expire_trade-keeps now game_id r).1)
    ∙ ap (λ o. map_option (expire_trade now game_id) o) found
    ∙ ap some (answered_trade-stays now game_id row answered)

require_trade_request-ok :
    (store : Store) (game_id : GameId) (id : RecordId) (row : TradeRequest)
    → get_trade_request store.trade_requests game_id id ≡ some row
    → require_trade_request store game_id id ≡ ok row
unfolding require_trade_request
require_trade_request-ok store game_id id row found = ground arith

only_if :
    {V : Type 0} (b : Bool) (e : AppError) (v : V)
    → (throw_if (not b) e >> ok v) ≡ (if b then ok v else err e)
only_if true e v = refl
only_if false e v = refl

answered_store-stays :
    (store : Store) (game_id : GameId) (id : RecordId) (state : PaymentRequestState)
    (row : TradeRequest)
    → get_trade_request store.trade_requests game_id id ≡ some row
    → is_pending row.state ≡ false
    → answered_store store game_id id state ≡ store
answered_store-stays store game_id id state row found answered = ground arith

-- Declining or cancelling a trade request that was answered before: the same answer is repeated,
-- any other answer is refused, and in both cases nothing is written but that other requests of the
-- game whose time is up expire, so that the request keeps its answer.
pub resolve_trade_request-answered :
    (now : ℕ) (game_id : GameId) (id : RecordId) (state : PaymentRequestState) (store : Store)
    (row : TradeRequest)
    → get_trade_request store.trade_requests game_id id ≡ some row
    → is_pending row.state ≡ false
    → (resolve_trade_request now game_id id state store ≡ (
      after_trade_expiry now game_id store,
      (if is_state row.state state then ok row else err (conflict trade_request_not_pending)),
    ))
      × (get_trade_request
            (resolve_trade_request now game_id id state store).0.trade_requests
            game_id
            id
          ≡ some row)
unfolding resolve_trade_request
resolve_trade_request-answered now game_id id state store row found answered =
    let current = after_trade_expiry now game_id store in
    let kept = get_trade_request-answered now game_id id store.trade_requests row found answered in
    let read = require_trade_request-ok current game_id id row kept in
    let untouched = answered_store-stays current game_id id state row kept answered in
    let refused = conflict trade_request_not_pending in
    let result : resolve_trade_request now game_id id state store
        ≡ (current, (if is_state row.state state then ok row else err refused)) =
      rw (untouched, read)
        (ap (λ r. (current, r)) (only_if (is_state row.state state) refused row)) in
    (
      result,
      subst (λ p. get_trade_request p.0.trade_requests game_id id ≡ some row) (sym result) kept,
    )
