-- ===== src/Store/Closing.antt =====
-- worker/repositories/operation-statements/{auction,trade}-statements.ts, and the input of a batch.
use monopoly_bank.Prelude.{
  ℕ, ◌+◌, Bool, true, false, not, ◌&&◌, ◌||◌, Option, none, some, List, [], ◌∷◌, map, ltb, ◌==◌,
  if◌then◌else◌,
}
use monopoly_bank.Types.{GameId, PlayerId, RecordId, AuctionState, Auction}
use monopoly_bank.Outcome.{database_error, Result, ok, throw_if, ◌>>=◌, ◌>>◌}
use monopoly_bank.Property.Lookup.{is_owner}
use monopoly_bank.Auction.{is_running}
use monopoly_bank.Banking.Pending.{SettlesAuction, PendingTransaction, PlayerBalanceChange}
use monopoly_bank.Store.Tables.{PaymentRequestState, TradeRequest}

pub record PersistInput : Type 0 where
  pub transaction_id : RecordId
  pub transaction : PendingTransaction
  pub balance_changes : List PlayerBalanceChange
  pub bankrupt_player_id : Option PlayerId
  pub mortgage_heir_player_id : Option PlayerId
  pub loan_heir_player_id : Option PlayerId
  pub withdraw_auction_bid : Bool
  pub accept_trade_request_id : Option RecordId

-- Settling closes the auction, if it is still running at the version that was read.
unfoldable pub settle_auction : GameId → SettlesAuction → List Auction → Result (List Auction)
settle_auction game_id settles [] = ok []
settle_auction game_id settles (row ∷ rows) = do
  let named = row.id == settles.auction_id && row.game_id == game_id
  throw_if (named && not (is_running row.state && row.version == settles.expected_version))
      database_error
  rest ← settle_auction game_id settles rows
  ok (
      (if named then record row { state = AuctionState.sold; version = row.version + 1 } else row)
      ∷ rest)

abbrev withdraw_bid : GameId → PlayerId → Auction → Auction
withdraw_bid game_id bankrupt row =
    if row.game_id == game_id && (is_running row.state && is_owner row.current_bidder_id bankrupt)
    then record row { current_bidder_id = none; version = row.version + 1 }
    else row

unfoldable pub auction_statements : PersistInput → List Auction → Result (List Auction)
auction_statements input rows = do
  settled ← elim input.transaction.settles_auction [
    | none ↦ ok rows
    | some settles ↦ settle_auction input.transaction.game_id settles rows
  ]
  ok (elim input.bankrupt_player_id [
    | none ↦ settled
    | some bankrupt ↦
        if input.withdraw_auction_bid
        then map (withdraw_bid input.transaction.game_id bankrupt) settled
        else settled
  ])

abbrev pub is_pending : PaymentRequestState → Bool
is_pending PaymentRequestState.pending = true
is_pending PaymentRequestState.accepted = false
is_pending PaymentRequestState.declined = false
is_pending PaymentRequestState.cancelled = false
is_pending PaymentRequestState.expired = false

-- A request that is not pending, or has expired, gets a state that breaks its CHECK.
unfoldable pub accept_trade_row :
    ℕ → GameId → RecordId → RecordId → List TradeRequest → Result (List TradeRequest)
accept_trade_row now game_id request_id transaction_id [] = ok []
accept_trade_row now game_id request_id transaction_id (row ∷ rows) = do
  let named = row.id == request_id && row.game_id == game_id
  throw_if (named && not (is_pending row.state && ltb now row.expires_at)) database_error
  rest ← accept_trade_row now game_id request_id transaction_id rows
  ok (
      (if named
        then record row {
          state = PaymentRequestState.accepted;
          transaction_id = some transaction_id;
        }
        else row)
      ∷ rest)

unfoldable pub accepted_trade_statements :
    ℕ → PersistInput → List TradeRequest → Result (List TradeRequest)
accepted_trade_statements now input rows = elim input.accept_trade_request_id [
  | none ↦ ok rows
  | some request_id ↦
      accept_trade_row now input.transaction.game_id request_id input.transaction_id rows
]

abbrev pub cancel_trade : GameId → PlayerId → TradeRequest → TradeRequest
cancel_trade game_id bankrupt row =
    if row.game_id == game_id
      && (is_pending row.state
          && (row.proposer_player_id == bankrupt || row.counterparty_player_id == bankrupt))
    then record row { state = PaymentRequestState.cancelled }
    else row

unfoldable pub bankrupt_trade_statements : PersistInput → List TradeRequest → List TradeRequest
bankrupt_trade_statements input rows = elim input.bankrupt_player_id [
  | none ↦ rows
  | some bankrupt ↦ map (cancel_trade input.transaction.game_id bankrupt) rows
]
