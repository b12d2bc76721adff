-- ===== src/Types/Ledger.antt =====
-- shared/types/monopoly.ts: the records of the transaction ledger.
use monopoly_bank.Prelude.{ℕ, String, Bool, Option, List, any, ◌==◌}
use monopoly_bank.Prelude.Int.{ℤ}
use monopoly_bank.Types.Board.{TileId}
use monopoly_bank.Types.Tables.{GameId, PlayerId}
use monopoly_bank.Types.Credit.{RecordId}

pub data TransactionType : Type 0 where
  player_to_player player_to_bank bank_to_player player_to_all all_to_player : TransactionType
  pay_rent pass_go bankruptcy_transfer reversal mortgage mortgage_redemption : TransactionType
  loan_issue loan_repayment to_jackpot jackpot_payout auction_payment : TransactionType
  property_purchase property_build property_sell_building property_transfer : TransactionType

-- The position in `transactionTypes`, by which types are compared.
abbrev pub type_index : TransactionType → ℕ
type_index player_to_player = 0
type_index player_to_bank = 1
type_index bank_to_player = 2
type_index player_to_all = 3
type_index all_to_player = 4
type_index pay_rent = 5
type_index pass_go = 6
type_index bankruptcy_transfer = 7
type_index reversal = 8
type_index mortgage = 9
type_index mortgage_redemption = 10
type_index loan_issue = 11
type_index loan_repayment = 12
type_index to_jackpot = 13
type_index jackpot_payout = 14
type_index auction_payment = 15
type_index property_purchase = 16
type_index property_build = 17
type_index property_sell_building = 18
type_index property_transfer = 19

-- `types.includes(type)`
abbrev pub includes_type : TransactionType → List TransactionType → Bool
includes_type t types = any (λ u. type_index u == type_index t) types

pub record TransactionParticipant : Type 0 where
  pub player_id : PlayerId
  pub balance_delta : ℤ

pub record Transaction : Type 0 where
  pub id : RecordId
  pub game_id : GameId
  pub type : TransactionType
  pub amount : ℤ
  pub total_amount : ℤ
  pub comment : Option String
  pub participants : List TransactionParticipant
  pub tile_id : Option TileId
  pub initiator_player_id : Option PlayerId
  pub tile_ids : Option (List TileId)
  pub reversed_by_transaction_id : Option RecordId
