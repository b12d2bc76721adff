-- ===== src/Service/Requests.antt =====
-- shared/contracts/api.ts: the requests of `POST /transactions`, with the fields that the banking
-- service reads.
use monopoly_bank.Prelude.{String, Bool, Option, List}
use monopoly_bank.Prelude.Int.{ℤ}
use monopoly_bank.Types.{TileId, PlayerId, RecordId, InterestRatePercent}
use monopoly_bank.Property.Plan.{Targets}

pub record BuildRequest : Type 0 where
  pub player_id : PlayerId
  pub tile_id : Option TileId
  pub targets : Option Targets

pub record TransferRequest : Type 0 where
  pub player_id : PlayerId
  pub counterparty_player_id : PlayerId
  pub give_tile_ids : List TileId
  pub take_tile_ids : List TileId
  pub cash_give : Option ℤ
  pub cash_take : Option ℤ

-- `CreateTransactionRequest`, by its `type`, but for a loan between players.
pub data TransactionRequest : Type 0 where
  request_payment : PlayerId → PlayerId → ℤ → Option String → TransactionRequest
  request_to_bank request_from_bank : PlayerId → ℤ → Option String → TransactionRequest
  request_to_all request_from_all : PlayerId → ℤ → Option String → TransactionRequest
  request_pass_go : PlayerId → Option Bool → Option String → TransactionRequest
  request_to_jackpot : PlayerId → ℤ → Option String → TransactionRequest
  request_jackpot : PlayerId → ℤ → TransactionRequest
  request_reversal : RecordId → Option String → TransactionRequest
  request_bank_loan : PlayerId → ℤ → Option Bool → TransactionRequest
  request_mortgage_tile : PlayerId → TileId → TransactionRequest
  request_mortgage : PlayerId → String → ℤ → TransactionRequest
  request_redemption : PlayerId → RecordId → TransactionRequest
  request_repayment : PlayerId → RecordId → ℤ → Option InterestRatePercent → TransactionRequest
  request_purchase : PlayerId → TileId → Option ℤ → TransactionRequest
  request_build request_sell : BuildRequest → TransactionRequest
  request_transfer : TransferRequest → TransactionRequest
  request_rent : PlayerId → TileId → Option ℤ → TransactionRequest

-- `CreateTransactionRequest`: a loan between players names the lender, the borrower and the amount.
pub data CreateTransactionRequest : Type 0 where
  direct_request : TransactionRequest → CreateTransactionRequest
  request_player_loan : PlayerId → PlayerId → ℤ → CreateTransactionRequest
