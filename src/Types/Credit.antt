-- ===== src/Types/Credit.antt =====
-- shared/types/monopoly.ts: mortgages, loans and auctions.
use monopoly_bank.Prelude.{ℕ, String, Option}
use monopoly_bank.Prelude.Int.{ℤ, pos}
use monopoly_bank.Types.Board.{TileId}
use monopoly_bank.Types.Tables.{GameId, PlayerId}

abbrev pub RecordId : Type 0
RecordId = ℕ

pub record Mortgage : Type 0 where
  pub id : RecordId
  pub game_id : GameId
  pub player_id : PlayerId
  pub property_name : String
  pub tile_id : Option TileId
  pub mortgage_value : ℤ

pub data LoanState : Type 0 where
  active repaid written_off : LoanState

pub data LoanLenderKind : Type 0 where
  player bank : LoanLenderKind

pub record Loan : Type 0 where
  pub id : RecordId
  pub game_id : GameId
  pub lender_kind : LoanLenderKind
  pub lender_player_id : Option PlayerId
  pub borrower_player_id : PlayerId
  pub principal : ℤ
  pub repaid_amount : ℤ
  pub state : LoanState

pub data InterestRatePercent : Type 0 where
  rate0 rate10 rate20 : InterestRatePercent

abbrev pub percent : InterestRatePercent → ℤ
percent rate0 = pos 0
percent rate10 = pos 10
percent rate20 = pos 20

pub record BankLoanCooldown : Type 0 where
  pub player_id : PlayerId
  pub rounds_left : ℤ

pub data AuctionState : Type 0 where
  active sold no_sale : AuctionState

-- `ends_at` is the parsed time of the end, in milliseconds.
pub record Auction : Type 0 where
  pub id : RecordId
  pub game_id : GameId
  pub lot_name : String
  pub tile_id : Option TileId
  pub state : AuctionState
  pub current_bid : ℤ
  pub current_bidder_id : Option PlayerId
  pub version : ℕ
  pub ends_at : ℕ
