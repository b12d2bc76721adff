-- ===== src/Service/Replay.antt =====
-- An answer that is sent again: the stored transaction is found, and nothing moves.

use monopoly_bank.Prelude.{ℕ, ◌≡◌, refl, ap, ◌∙◌, Option, none, some, map, arith, map_option}
use monopoly_bank.Types.{GameId, RecordId}
use monopoly_bank.Outcome.{ok, ◌>>=◌}
use monopoly_bank.Store.{
  LedgerRow, PaymentRequestState, PaymentRequest, Store, get_payment_request, expire_payment,
  expire_payments,
}
use monopoly_bank.Service.Reads.{list_ledger, get_transaction}
use monopoly_bank.Service.Commit.{require_stored}
use monopoly_bank.Service.Answers.{
  require_payment_request, after_expiry, accepted_transaction, Answered, Clock, accept_state,
  accept_payment_request,
}
use monopoly_bank.Service.Settling.{
  get_payment_request-map, expire_payment-keeps, accept_payment_request-Accepted,
}

accepted_transaction-after_expiry :
    (now : ℕ) (game_id : GameId) (store : Store) (link : Option RecordId)
    → accepted_transaction (after_expiry now game_id store) game_id link
      ≡ accepted_transaction store game_id link
unfolding accepted_transaction require_stored get_transaction list_ledger
accepted_transaction-after_expiry now game_id store none = refl
accepted_transaction-after_expiry now game_id store (some id) = refl

require_payment_request-ok :
    (store : Store) (game_id : GameId) (id : RecordId) (request : PaymentRequest)
    → get_payment_request store.payment_requests game_id id ≡ some request
    → require_payment_request store game_id id ≡ ok request
unfolding require_payment_request
require_payment_request-ok store game_id id request found = ground arith

accept_state-accepted :
    (clock : Clock) (id : RecordId) (game_id : GameId) (request : PaymentRequest)
    (state : PaymentRequestState) (store : Store) (row : LedgerRow)
    → state ≡ PaymentRequestState.accepted
    → accepted_transaction store game_id request.transaction_id ≡ ok row
    → accept_state clock id game_id request state store
      ≡ ok (record { store = store; payment_request = request; transaction = row })
unfolding accept_state
accept_state-accepted clock id game_id request state store row accepted kept =
    rw accepted (rw kept refl)

answer_accepted :
    (clock : Clock) (id : RecordId) (game_id : GameId) (request_id : RecordId) (store : Store)
    (request : PaymentRequest) (row : LedgerRow)
    → get_payment_request store.payment_requests game_id request_id ≡ some request
    → request.state ≡ PaymentRequestState.accepted
    → accepted_transaction store game_id request.transaction_id ≡ ok row
    → (require_payment_request store game_id request_id >>= λ found.
        accept_state clock id game_id found found.state store)
      ≡ ok (record { store = store; payment_request = request; transaction = row })
answer_accepted clock id game_id request_id store request row found accepted kept =
    rw (require_payment_request-ok store game_id request_id request found)
      (accept_state-accepted clock id game_id request request.state store row accepted kept)

accepted-stays :
    (now : ℕ) (game_id : GameId) (row : PaymentRequest)
    → row.state ≡ PaymentRequestState.accepted
    → expire_payment now game_id row ≡ row
accepted-stays now game_id row h = ground arith

-- When a payment request was answered as accepted, accepting it again, at any time and with any new
-- id, answers with the same request and the same transaction, and changes nothing but that other
-- requests of the game whose time is up expire.
pub accept_payment_request-again :
    (clock later : Clock) (id other : RecordId) (game_id : GameId) (request_id : RecordId)
    (store : Store) (a : Answered)
    → accept_payment_request clock id game_id request_id store ≡ ok a
    → a.payment_request.state ≡ PaymentRequestState.accepted
    → accept_payment_request later other game_id request_id a.store
      ≡ ok (record a { store = after_expiry later.expired game_id a.store })
unfolding accept_payment_request expire_payments
accept_payment_request-again clock later id other game_id request_id store a h accepts =
    let done = accept_payment_request-Accepted clock id game_id request_id store a h accepts in
    let mapped =
      get_payment_request-map (expire_payment later.expired game_id) a.store.payment_requests
        game_id request_id (expire_payment-keeps later.expired game_id) in
    let kept : expire_payment later.expired game_id a.payment_request ≡ a.payment_request =
      accepted-stays later.expired game_id a.payment_request done.state in
    let found : get_payment_request
          (map (expire_payment later.expired game_id) a.store.payment_requests) game_id request_id
        ≡ some a.payment_request =
      mapped
      ∙ ap (λ o. map_option (expire_payment later.expired game_id) o) done.stored
      ∙ ap some kept in
    answer_accepted later other game_id request_id (after_expiry later.expired game_id a.store)
      a.payment_request a.transaction found done.state
      (accepted_transaction-after_expiry later.expired game_id a.store
          a.payment_request.transaction_id
        ∙ done.transaction)
