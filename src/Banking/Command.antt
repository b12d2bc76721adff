-- ===== src/Banking/Command.antt =====
-- shared/domain/banking.ts: the commands. Every command carries the game and all of its players.
use monopoly_bank.Prelude.{String, Bool, Option, List}
use monopoly_bank.Prelude.Int.{ℤ}
use monopoly_bank.Types.{
  TileId, PlayerId, Game, Player, PropertyChange, PropertyContext, RecordId, Mortgage, Loan,
  InterestRatePercent, BankLoanCooldown, Transaction,
}
use monopoly_bank.Property.Plan.{Targets}

pub record PlayerToPlayerCommand : Type 0 where
  pub game : Game
  pub players : List Player
  pub comment : Option String
  pub source_player_id : PlayerId
  pub destination_player_id : PlayerId
  pub amount : ℤ

-- `PlayerToBankCommand`, `BankToPlayerCommand` and `ToJackpotCommand` have the same fields.
pub record PlayerAmountCommand : Type 0 where
  pub game : Game
  pub players : List Player
  pub comment : Option String
  pub player_id : PlayerId
  pub amount : ℤ

-- `PlayerToAllCommand` (the payer) and `AllToPlayerCommand` (the recipient).
pub record FanCommand : Type 0 where
  pub game : Game
  pub players : List Player
  pub comment : Option String
  pub player_id : PlayerId
  pub amount_per_player : ℤ

pub record PassGoCommand : Type 0 where
  pub game : Game
  pub players : List Player
  pub player_id : PlayerId
  pub exact_landing : Option Bool
  pub comment : Option String

pub record JackpotPayoutCommand : Type 0 where
  pub game : Game
  pub players : List Player
  pub player_id : PlayerId
  pub jackpot : ℤ
  pub expected_amount : ℤ

pub record AuctionPaymentCommand : Type 0 where
  pub game : Game
  pub players : List Player
  pub player_id : PlayerId
  pub amount : ℤ
  pub lot_name : String
  pub tile_id : Option TileId
  pub property : Option PropertyContext

pub record MortgageTileCommand : Type 0 where
  pub game : Game
  pub players : List Player
  pub player_id : PlayerId
  pub tile_id : TileId
  pub property : PropertyContext

pub record PropertyPurchaseCommand : Type 0 where
  pub game : Game
  pub players : List Player
  pub comment : Option String
  pub player_id : PlayerId
  pub tile_id : TileId
  pub property : PropertyContext
  pub price_override : Option ℤ

pub record BuildPropertyCommand : Type 0 where
  pub game : Game
  pub players : List Player
  pub player_id : PlayerId
  pub tile_id : Option TileId
  pub targets : Option Targets
  pub property : PropertyContext

pub record TransferPropertiesCommand : Type 0 where
  pub game : Game
  pub players : List Player
  pub player_id : PlayerId
  pub counterparty_player_id : PlayerId
  pub give_tile_ids : List TileId
  pub take_tile_ids : List TileId
  pub cash_give : ℤ
  pub cash_take : ℤ
  pub property : PropertyContext

pub record PayRentCommand : Type 0 where
  pub game : Game
  pub players : List Player
  pub comment : Option String
  pub payer_player_id : PlayerId
  pub tile_id : TileId
  pub dice_sum_given : Option ℤ
  pub property : PropertyContext

pub record MortgagePropertyCommand : Type 0 where
  pub game : Game
  pub players : List Player
  pub player_id : PlayerId
  pub property_name : String
  pub amount : ℤ

pub record RedeemMortgageCommand : Type 0 where
  pub game : Game
  pub players : List Player
  pub player_id : PlayerId
  pub mortgage : Mortgage
  pub property : Option PropertyContext

pub record IssueLoanCommand : Type 0 where
  pub game : Game
  pub players : List Player
  pub lender_player_id : PlayerId
  pub borrower_player_id : PlayerId
  pub amount : ℤ

pub record RepayLoanCommand : Type 0 where
  pub game : Game
  pub players : List Player
  pub player_id : PlayerId
  pub loan : Loan
  pub amount : ℤ

pub record IssueBankLoanCommand : Type 0 where
  pub game : Game
  pub players : List Player
  pub player_id : PlayerId
  pub amount : ℤ
  pub active_bank_loan : Option Loan
  pub cooldown : Option BankLoanCooldown
  pub acknowledge_cooldown : Option Bool

pub record RepayBankLoanCommand : Type 0 where
  pub game : Game
  pub players : List Player
  pub player_id : PlayerId
  pub loan : Loan
  pub amount : ℤ
  pub interest_rate_percent : InterestRatePercent
  pub suggested_rate_percent : InterestRatePercent

pub record ReversalCommand : Type 0 where
  pub game : Game
  pub players : List Player
  pub original : Transaction
  pub later : Option (List Transaction)
  pub original_registry_changes : Option (List PropertyChange)
  pub redeemed_mortgage_id : Option RecordId
  pub group_tile_ids : Option (List TileId)
  pub comment : Option String

pub record BankLoanOwed : Type 0 where
  pub loan : Loan
  pub suggested_rate_percent : InterestRatePercent

pub record BankruptcyCommand : Type 0 where
  pub game : Game
  pub players : List Player
  pub player_id : PlayerId
  pub creditor_player_id : Option PlayerId
  pub bank_loan : Option BankLoanOwed
  pub property : Option PropertyContext
