-- ===== src/Store/Pending.antt =====
-- worker/repositories/payment-request-repository.ts and trade-request-repository.ts: the requests
-- that wait for an answer. `now` is the time of the database.
use monopoly_bank.Prelude.{
  ℕ, ◌+◌, Bool, true, false, ◌&&◌, ◌||◌, Option, none, some, List, [], ◌∷◌, ◌++◌, map, ltb, leb,
  ◌==◌, if◌then◌else◌, length, find, filter, any, includes,
}
use monopoly_bank.Prelude.Int.{ℤ, pos, ◌+ℤ◌, ltb_ℤ, leb_ℤ, sum}
use monopoly_bank.Types.{GameId, PlayerId, RecordId, LoanLenderKind, Loan}
use monopoly_bank.Outcome.{internal_error, Result, ok, throw_if, ◌>>=◌, ◌>>◌}
use monopoly_bank.Banking.Pending.{NewLoan, PendingTransaction, PlayerBalanceChange}
use monopoly_bank.Store.Tables.{PaymentRequestState, PaymentRequest, TradeRequest, Store}
use monopoly_bank.Store.Writes.{same_id, guarded_balance_update, insert_transaction}
use monopoly_bank.Store.Records.{insert_loan}
use monopoly_bank.Store.Closing.{is_pending}

-- `PAYMENT_REQUEST_TTL_MS`
abbrev pub payment_request_ttl : ℕ
payment_request_ttl = 300000

-- Whether a request can still be accepted.
abbrev pub is_open_request : ℕ → PaymentRequest → Bool
is_open_request now row = is_pending row.state && ltb now row.expires_at

-- `ON CONFLICT(id) DO NOTHING`, with the CHECKs on the amount and the two wallets, whose failure
-- the repository does not catch.
unfoldable pub create_payment_request :
    PaymentRequest → List PaymentRequest → Result (List PaymentRequest)
create_payment_request request rows = do
  throw_if (leb_ℤ request.amount (pos 0) || request.payer_player_id == request.recipient_player_id)
      internal_error
  ok (if any (λ row. row.id == request.id) rows then rows else rows ++ request ∷ [])

unfoldable pub get_payment_request : List PaymentRequest → GameId → RecordId → Option PaymentRequest
get_payment_request rows game_id id = find (λ row. row.game_id == game_id && row.id == id) rows

abbrev pub expire_payment : ℕ → GameId → PaymentRequest → PaymentRequest
expire_payment now game_id row =
    if row.game_id == game_id && (is_pending row.state && leb row.expires_at now)
    then record row { state = PaymentRequestState.expired }
    else row

unfoldable pub expire_payments : ℕ → GameId → List PaymentRequest → List PaymentRequest
expire_payments now game_id rows = map (expire_payment now game_id) rows

-- `approver_player_id IN (...) OR creator_player_id IN (...)`, of the requests that are pending
unfoldable list_for_payers : ℕ → GameId → List PlayerId → List PaymentRequest → List PaymentRequest
list_for_payers now game_id player_ids rows =
    filter
      (λ row.
        row.game_id == game_id
        && (is_pending row.state
            && (includes row.approver_player_id player_ids
                || includes row.creator_player_id player_ids)))
      (expire_payments now game_id rows)

abbrev pub reserves : ℕ → GameId → PlayerId → PaymentRequest → Bool
reserves now game_id payer row =
    row.game_id == game_id && (row.payer_player_id == payer && is_open_request now row)

unfoldable pub pending_reserved_amount : ℕ → GameId → PlayerId → List PaymentRequest → ℤ
pending_reserved_amount now game_id payer rows =
    sum (map (λ (row : PaymentRequest). row.amount) (filter (reserves now game_id payer) rows))

abbrev pub accept_payment : ℕ → RecordId → RecordId → PaymentRequest → PaymentRequest
accept_payment now request_id transaction_id row =
    if row.id == request_id && is_open_request now row
    then record row { state = PaymentRequestState.accepted; transaction_id = some transaction_id }
    else row

abbrev is_accepted : PaymentRequestState → Bool
is_accepted PaymentRequestState.pending = false
is_accepted PaymentRequestState.accepted = true
is_accepted PaymentRequestState.declined = false
is_accepted PaymentRequestState.cancelled = false
is_accepted PaymentRequestState.expired = false

-- The loan that a request funds has principal 0, which breaks its CHECK, if it was not accepted.
unfoldable pub funded_loan : RecordId → RecordId → NewLoan → List PaymentRequest → NewLoan
funded_loan request_id transaction_id new rows = record new {
  lender_kind = LoanLenderKind.player;
  principal =
      if any
        (λ row.
          row.id == request_id
          && (is_accepted row.state && same_id row.transaction_id (some transaction_id)))
        rows
      then new.principal
      else pos 0;
}

-- A loan request creates its loan with the transaction that funds it.
unfoldable pub settlement_loans :
    RecordId → RecordId → PendingTransaction → List PaymentRequest → List Loan → Result (List Loan)
settlement_loans request_id transaction_id t requests loans = elim t.new_loan [
  | none ↦ ok loans
  | some new ↦
      insert_loan transaction_id t.game_id (funded_loan request_id transaction_id new requests)
        loans
]

-- `settle`: the batch that moves the money of an accepted request. Each statement reads the clock:
-- the guard of the balances at `now`, the update of the request at `later`.
unfoldable pub settle :
    ℕ
    → ℕ
    → RecordId
    → RecordId
    → PendingTransaction
    → List PlayerBalanceChange
    → Store
    → Result Store
settle now later request_id transaction_id t changes store = do
  let opened = any (λ row. row.id == request_id && is_open_request now row) store.payment_requests
  players ← guarded_balance_update changes opened store.players
  transactions ← insert_transaction transaction_id t store.transactions
  let requests = map (accept_payment later request_id transaction_id) store.payment_requests
  loans ← settlement_loans request_id transaction_id t requests store.loans
  ok (record store {
    players = players;
    transactions = transactions;
    payment_requests = requests;
    loans = loans;
  })

-- `resolve`: the answer DECLINED or CANCELLED.
abbrev pub resolve_payment : RecordId → PaymentRequestState → PaymentRequest → PaymentRequest
resolve_payment request_id state row =
    if row.id == request_id && is_pending row.state then record row { state = state } else row

unfoldable pub resolve_payments :
    RecordId → PaymentRequestState → List PaymentRequest → List PaymentRequest
resolve_payments request_id state rows = map (resolve_payment request_id state) rows

abbrev is_empty_trade : TradeRequest → Bool
is_empty_trade request =
    length request.give_tile_ids + length request.take_tile_ids == 0
    && leb_ℤ (request.cash_give +ℤ request.cash_take) (pos 0)

-- The CHECKs of `trade_requests`: two wallets, no negative cash, and something to trade.
unfoldable pub create_trade_request : TradeRequest → List TradeRequest → Result (List TradeRequest)
create_trade_request request rows = do
  throw_if
      (request.proposer_player_id == request.counterparty_player_id
        || (ltb_ℤ request.cash_give (pos 0)
            || (ltb_ℤ request.cash_take (pos 0) || is_empty_trade request)))
      internal_error
  ok (if any (λ row. row.id == request.id) rows then rows else rows ++ request ∷ [])

unfoldable pub get_trade_request : List TradeRequest → GameId → RecordId → Option TradeRequest
get_trade_request rows game_id id = find (λ row. row.game_id == game_id && row.id == id) rows

abbrev pub expire_trade : ℕ → GameId → TradeRequest → TradeRequest
expire_trade now game_id row =
    if row.game_id == game_id && (is_pending row.state && leb row.expires_at now)
    then record row { state = PaymentRequestState.expired }
    else row

unfoldable pub expire_trades : ℕ → GameId → List TradeRequest → List TradeRequest
expire_trades now game_id rows = map (expire_trade now game_id) rows

unfoldable list_pending_for_players :
    ℕ → GameId → List PlayerId → List TradeRequest → List TradeRequest
list_pending_for_players now game_id player_ids rows =
    filter
      (λ row.
        row.game_id == game_id
        && (is_pending row.state
            && (includes row.counterparty_player_id player_ids
                || includes row.proposer_player_id player_ids)))
      (expire_trades now game_id rows)

abbrev pub resolve_trade : RecordId → PaymentRequestState → TradeRequest → TradeRequest
resolve_trade request_id state row =
    if row.id == request_id && is_pending row.state then record row { state = state } else row

unfoldable pub resolve_trades :
    RecordId → PaymentRequestState → List TradeRequest → List TradeRequest
resolve_trades request_id state rows = map (resolve_trade request_id state) rows
