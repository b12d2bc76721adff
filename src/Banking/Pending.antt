-- ===== src/Banking/Pending.antt =====
-- shared/domain/banking.ts: what an operation returns, before it is written.
use monopoly_bank.Prelude.{ℕ, String, Bool, Option, List}
use monopoly_bank.Prelude.Int.{ℤ}
use monopoly_bank.Types.{
  TileId, GameId, PlayerId, Player, PropertyChange, RecordId, LoanLenderKind, InterestRatePercent,
  TransactionType, TransactionParticipant,
}

pub data JackpotChange : Type 0 where
  deposit collect : ℤ → JackpotChange

pub data MortgageReversal : Type 0 where
  cancel restore : RecordId → MortgageReversal

pub record NewMortgage : Type 0 where
  pub player_id : PlayerId
  pub property_name : String
  pub mortgage_value : ℤ
  pub tile_id : Option TileId

pub record NewLoan : Type 0 where
  pub lender_kind : LoanLenderKind
  pub lender_player_id : Option PlayerId
  pub borrower_player_id : PlayerId
  pub principal : ℤ
  pub cooldown_acknowledged : Bool

pub record LoanRepayment : Type 0 where
  pub loan_id : RecordId
  pub lender_player_id : Option PlayerId
  pub borrower_player_id : PlayerId
  pub amount : ℤ
  pub interest_amount : Option ℤ
  pub interest_rate_percent : Option InterestRatePercent
  pub suggested_rate_percent : Option InterestRatePercent

pub data SettlementOutcome : Type 0 where
  repaid written_off : SettlementOutcome

pub record BankLoanSettlement : Type 0 where
  pub loan_id : RecordId
  pub borrower_player_id : PlayerId
  pub outcome : SettlementOutcome
  pub paid_principal : ℤ
  pub paid_interest : ℤ
  pub interest_rate_percent : InterestRatePercent
  pub suggested_rate_percent : InterestRatePercent

pub record SettlesAuction : Type 0 where
  pub auction_id : RecordId
  pub expected_version : ℕ

pub record PendingTransaction : Type 0 where
  pub game_id : GameId
  pub type : TransactionType
  pub amount : ℤ
  pub total_amount : ℤ
  pub comment : Option String
  pub participants : List TransactionParticipant
  pub reverses_transaction_id : Option RecordId
  pub jackpot : Option JackpotChange
  pub price_overridden : Bool
  pub initiator_player_id : Option PlayerId
  pub mortgage_reversal : Option MortgageReversal
  pub tile_id : Option TileId
  pub registry_changes : Option (List PropertyChange)
  pub new_mortgage : Option NewMortgage
  pub redeemed_mortgage_id : Option RecordId
  pub new_loan : Option NewLoan
  pub loan_repayment : Option LoanRepayment
  pub bank_loan_settlement : Option BankLoanSettlement
  pub settles_auction : Option SettlesAuction

pub record PlayerBalanceChange : Type 0 where
  pub player : Player
  pub balance_before : ℤ
  pub balance_after : ℤ
  pub balance_delta : ℤ

pub record BankingOperationResult : Type 0 where
  pub transaction : PendingTransaction
  pub affected_players : List PlayerBalanceChange
