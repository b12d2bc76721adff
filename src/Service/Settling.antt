-- ===== src/Service/Settling.antt =====
-- What the database holds once a payment request has been accepted.
use mathlib.Core.Path.{ap₂, subst}
use monopoly_bank.Prelude.{
  ℕ, ◌≡◌, refl, sym, ap, ◌∙◌, inl, inr, true, ◌&&◌, some, List, [], ◌∷◌, map, arith, ◌==◌,
  Option-cases, value-eq, map_option, find-map,
}
use monopoly_bank.Types.{GameId, RecordId}
use monopoly_bank.Outcome.{ok, >>=-eq-ok, ok-injective}
use monopoly_bank.Banking.Pending.{PendingTransaction, PlayerBalanceChange}
use monopoly_bank.Store.{
  LedgerRow, PaymentRequestState, PaymentRequest, Store, guarded_balance_update, insert_transaction,
  is_pending, get_payment_request, expire_payment, accept_payment, settlement_loans, settle,
}
use monopoly_bank.Service.Reads.{get_transaction}
use monopoly_bank.Service.Offers.{require_game, assert_auction_reserve_respected}
use monopoly_bank.Service.Commit.{require_stored}
use monopoly_bank.Service.Answers.{
  require_payment_request, after_expiry, accepted_transaction, request_result, Answered, Clock,
  settle_request, accept_state, accept_payment_request,
}

pub require_stored-found :
    (store : Store) (game_id : GameId) (id : RecordId) (row : LedgerRow)
    → require_stored store game_id id ≡ ok row
    → get_transaction store game_id id ≡ some row
unfolding require_stored
require_stored-found store game_id id row h =
    elim (Option-cases (get_transaction store game_id id)) [
      | inl missing ↦ ground arith
      | inr (found, e) ↦ ground arith
    ]

require_payment_request-found :
    (store : Store) (game_id : GameId) (id : RecordId) (request : PaymentRequest)
    → require_payment_request store game_id id ≡ ok request
    → get_payment_request store.payment_requests game_id id ≡ some request
unfolding require_payment_request
require_payment_request-found store game_id id request h =
    elim (Option-cases (get_payment_request store.payment_requests game_id id)) [
      | inl missing ↦ ground arith
      | inr (found, e) ↦ ground arith
    ]

pub get_payment_request-map :
    (f : PaymentRequest → PaymentRequest) (rows : List PaymentRequest) (game_id : GameId)
    (id : RecordId)
    → ((row : PaymentRequest) → ((f row).game_id ≡ row.game_id) × ((f row).id ≡ row.id))
    → get_payment_request (map f rows) game_id id
      ≡ map_option f (get_payment_request rows game_id id)
unfolding get_payment_request
get_payment_request-map f rows game_id id keeps =
    find-map _ f rows (λ row. ap₂ (λ g i. g == game_id && i == id) (keeps row).0 (keeps row).1)

pub expire_payment-keeps :
    (now : ℕ) (game_id : GameId) (row : PaymentRequest)
    → ((expire_payment now game_id row).game_id ≡ row.game_id)
      × ((expire_payment now game_id row).id ≡ row.id)
expire_payment-keeps now game_id row = ground arith

accept_payment-keeps :
    (now : ℕ) (id transaction_id : RecordId) (row : PaymentRequest)
    → ((accept_payment now id transaction_id row).game_id ≡ row.game_id)
      × ((accept_payment now id transaction_id row).id ≡ row.id)
accept_payment-keeps now id transaction_id row = ground arith

get_payment_request-key :
    (rows : List PaymentRequest) (game_id : GameId) (id : RecordId) (row : PaymentRequest)
    → get_payment_request rows game_id id ≡ some row
    → (row.game_id ≡ game_id) × (row.id ≡ id)
unfolding get_payment_request
get_payment_request-key [] game_id id row h = cc
get_payment_request-key (r ∷ rs) game_id id row h =
    ground (arith, get_payment_request-key rs game_id id row)

-- What an accepted request leaves: it is stored as accepted, with its transaction. An answer whose
-- request is accepted leaves that.
pub record Accepted (game_id : GameId) (id : RecordId) (a : Answered) : Type 0 where
  pub stored : get_payment_request a.store.payment_requests game_id id ≡ some a.payment_request
  pub state : a.payment_request.state ≡ PaymentRequestState.accepted
  pub transaction :
      accepted_transaction a.store game_id a.payment_request.transaction_id ≡ ok a.transaction

settle-payment_requests :
    (now later : ℕ) (id transaction_id : RecordId) (t : PendingTransaction)
    (changes : List PlayerBalanceChange) (store written : Store)
    → settle now later id transaction_id t changes store ≡ ok written
    → written.payment_requests ≡ map (accept_payment later id transaction_id) store.payment_requests
unfolding settle
settle-payment_requests now later id transaction_id t changes store written h =
    let (players, updated, h1) = >>=-eq-ok (guarded_balance_update _ _ _) _ h in
    let (ledger, inserted, h2) = >>=-eq-ok (insert_transaction _ _ _) _ h1 in
    let (loans, lent, h3) = >>=-eq-ok (settlement_loans _ _ _ _ _) _ h2 in
    ap (λ (s : Store). s.payment_requests) (sym (ok-injective h3))

accept_payment-linked :
    (now : ℕ) (transaction_id : RecordId) (request : PaymentRequest)
    → is_pending request.state ≡ true
    → (accept_payment now request.id transaction_id request).state ≡ PaymentRequestState.accepted
    → (accept_payment now request.id transaction_id request).transaction_id ≡ some transaction_id
accept_payment-linked now transaction_id request pending accepted = ground arith

settle_request-Accepted :
    (clock : Clock) (id : RecordId) (game_id : GameId) (request : PaymentRequest) (store : Store)
    (a : Answered)
    → get_payment_request store.payment_requests game_id request.id ≡ some request
    → is_pending request.state ≡ true
    → settle_request clock id game_id request store ≡ ok a
    → a.payment_request.state ≡ PaymentRequestState.accepted
    → Accepted game_id request.id a
unfolding settle_request accepted_transaction
settle_request-Accepted clock id game_id request store a found pending h accepts =
    let (game, _, h1) = >>=-eq-ok (require_game _ _) _ h in
    let (result, _, h2) = >>=-eq-ok (request_result _ _ _ _) _ h1 in
    let (_, _, h3) = >>=-eq-ok (assert_auction_reserve_respected _ _ _) _ h2 in
    let (settled, done, h4) = >>=-eq-ok (settle _ _ _ _ _ _ _) _ h3 in
    let (transaction, kept, h5) = >>=-eq-ok (require_stored _ _ _) _ h4 in
    let (accepted, read, h6) = >>=-eq-ok (require_payment_request _ _ _) _ h5 in
    let requests =
      settle-payment_requests clock.checked clock.accepted request.id id _ _ store settled done in
    let mapped =
      get_payment_request-map (accept_payment clock.accepted request.id id) store.payment_requests
        game_id request.id (accept_payment-keeps clock.accepted request.id id) in
    let now_stored : get_payment_request settled.payment_requests game_id request.id
        ≡ some (accept_payment clock.accepted request.id id request) =
      ap (λ rs. get_payment_request rs game_id request.id) requests
      ∙ mapped
      ∙ ap (λ o. map_option (accept_payment clock.accepted request.id id) o) found in
    let stored = require_payment_request-found settled game_id request.id accepted read in
    let same : accept_payment clock.accepted request.id id request ≡ accepted =
      value-eq (sym now_stored ∙ stored) in
    let state : accepted.state ≡ PaymentRequestState.accepted =
      ap (λ (x : Answered). x.payment_request.state) (ok-injective h6) ∙ accepts in
    let named =
      accept_payment-linked clock.accepted id request pending
        (ap (λ (r : PaymentRequest). r.state) same ∙ state) in
    let link : accepted.transaction_id ≡ some id =
      ap (λ (r : PaymentRequest). r.transaction_id) (sym same) ∙ named in
    subst (Accepted game_id request.id) (ok-injective h6) (record {
      stored = stored;
      state = state;
      transaction = ap (λ link. accepted_transaction settled game_id link) link ∙ kept;
    })

accept_state-Accepted :
    (clock : Clock) (id : RecordId) (game_id : GameId) (request : PaymentRequest)
    (state : PaymentRequestState) (store : Store) (a : Answered)
    → get_payment_request store.payment_requests game_id request.id ≡ some request
    → request.state ≡ state
    → accept_state clock id game_id request state store ≡ ok a
    → a.payment_request.state ≡ PaymentRequestState.accepted
    → Accepted game_id request.id a
unfolding accept_state
accept_state-Accepted clock id game_id request PaymentRequestState.accepted store a found state h
      accepts =
    let (transaction, kept, h1) = >>=-eq-ok (accepted_transaction _ _ _) _ h in
    subst (Accepted game_id request.id) (ok-injective h1)
      (record { stored = found; state = state; transaction = kept })
accept_state-Accepted clock id game_id request PaymentRequestState.pending store a found state h
      accepts =
    let waiting : is_pending request.state ≡ true = ap is_pending state in
    settle_request-Accepted clock id game_id request store a found waiting h accepts
accept_state-Accepted clock id game_id request PaymentRequestState.declined store a found state h
      accepts =
    cc
accept_state-Accepted clock id game_id request PaymentRequestState.cancelled store a found state h
      accepts =
    cc
accept_state-Accepted clock id game_id request PaymentRequestState.expired store a found state h
      accepts =
    cc

pub accept_payment_request-Accepted :
    (clock : Clock) (id : RecordId) (game_id : GameId) (request_id : RecordId) (store : Store)
    (a : Answered)
    → accept_payment_request clock id game_id request_id store ≡ ok a
    → a.payment_request.state ≡ PaymentRequestState.accepted
    → Accepted game_id request_id a
unfolding accept_payment_request
accept_payment_request-Accepted clock id game_id request_id store a h accepts =
    let current = after_expiry clock.expired game_id store in
    let (request, read, h1) = >>=-eq-ok (require_payment_request _ _ _) _ h in
    let found = require_payment_request-found current game_id request_id request read in
    let (_, same) =
      get_payment_request-key current.payment_requests game_id request_id request found in
    subst (λ id. Accepted game_id id a) same
      (accept_state-Accepted clock id game_id request request.state current a
        (subst (λ id. get_payment_request current.payment_requests game_id id ≡ some request)
          (sym same) found)
        refl h1 accepts)
