-- ===== src/Store/Tables.antt =====
-- worker/repositories: the rows of the tables that the banking statements read and write
-- (src/migrations), and the state of the database. Every table holds the rows of all games. The
-- rows of transaction_participants, property_changes and loan_repayments are written with their
-- transaction and never changed, so they stand in the row of the ledger.
use monopoly_bank.Prelude.{ℕ, String, Option, List}
use monopoly_bank.Prelude.Int.{ℤ}
use monopoly_bank.Types.{
  TileId, GameId, PlayerId, Game, Player, GameProperty, RecordId, Loan, Auction,
}
use monopoly_bank.Banking.Pending.{PendingTransaction}

pub record LedgerRow : Type 0 where
  pub id : RecordId
  pub transaction : PendingTransaction

-- The columns of `games` that a banking statement writes.
pub record PotRow : Type 0 where
  pub id : GameId
  pub jackpot_balance : ℤ

pub data MortgageState : Type 0 where
  active redeemed released : MortgageState

pub record MortgageRow : Type 0 where
  pub id : RecordId
  pub game_id : GameId
  pub player_id : PlayerId
  pub property_name : String
  pub tile_id : Option TileId
  pub mortgage_value : ℤ
  pub state : MortgageState
  pub redeemed_by_transaction_id : Option RecordId

pub data PaymentRequestState : Type 0 where
  pending accepted declined cancelled expired : PaymentRequestState

pub data PaymentRequestKind : Type 0 where
  payment loan : PaymentRequestKind

-- A time is a number of milliseconds.
pub record PaymentRequest : Type 0 where
  pub id : RecordId
  pub kind : PaymentRequestKind
  pub game_id : GameId
  pub payer_player_id : PlayerId
  pub recipient_player_id : PlayerId
  pub creator_player_id : PlayerId
  pub approver_player_id : PlayerId
  pub amount : ℤ
  pub comment : Option String
  pub state : PaymentRequestState
  pub expires_at : ℕ
  pub transaction_id : Option RecordId

pub record TradeRequest : Type 0 where
  pub id : RecordId
  pub game_id : GameId
  pub proposer_player_id : PlayerId
  pub counterparty_player_id : PlayerId
  pub give_tile_ids : List TileId
  pub take_tile_ids : List TileId
  pub cash_give : ℤ
  pub cash_take : ℤ
  pub state : PaymentRequestState
  pub expires_at : ℕ
  pub transaction_id : Option RecordId

pub record Store : Type 0 where
  pub games : List Game
  pub players : List Player
  pub transactions : List LedgerRow
  pub properties : List GameProperty
  pub pots : List PotRow
  pub mortgages : List MortgageRow
  pub loans : List Loan
  pub auctions : List Auction
  pub payment_requests : List PaymentRequest
  pub trade_requests : List TradeRequest
