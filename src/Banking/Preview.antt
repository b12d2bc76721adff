-- ===== src/Banking/Preview.antt =====
-- shared/domain/banking.ts and player-control.ts: the preview of a request, and the wallet whose
-- controller must authorise it.
use monopoly_bank.Prelude.{not, Option, none, some, List, [], ◌==◌, find, filter}
use monopoly_bank.Prelude.Int.{ℤ}
use monopoly_bank.Types.{PlayerId, Player, RecordId, Loan}
use monopoly_bank.Banking.Deltas.{
  PlayerDelta, transfer_deltas, fan_out_deltas, fan_in_deltas, repayment_deltas,
}
use monopoly_bank.Banking.Transfers.{ids}

-- `PlayerTransactionRequest`, by its `type`; the fields are the ones that the preview and the
-- authority read.
pub data PlayerTransactionRequest : Type 0 where
  player_to_player_request : PlayerId → PlayerId → ℤ → PlayerTransactionRequest
  player_to_bank_request to_jackpot_request : PlayerId → ℤ → PlayerTransactionRequest
  bank_to_player_request : PlayerId → ℤ → PlayerTransactionRequest
  player_to_all_request all_to_player_request : PlayerId → ℤ → PlayerTransactionRequest
  pass_go_request jackpot_payout_request : PlayerId → PlayerTransactionRequest
  mortgage_request : PlayerId → ℤ → PlayerTransactionRequest
  tile_mortgage_request purchase_request build_request : PlayerId → PlayerTransactionRequest
  sell_request rent_request redeem_request : PlayerId → PlayerTransactionRequest
  trade_request : PlayerId → PlayerTransactionRequest
  loan_request : PlayerId → PlayerTransactionRequest
  bank_loan_request : PlayerId → ℤ → PlayerTransactionRequest
  repayment_request : PlayerId → RecordId → ℤ → PlayerTransactionRequest

pub record PreviewContext : Type 0 where
  pub pass_go_reward : ℤ
  pub redemption_amount : ℤ
  pub loans : List Loan
  pub interest : ℤ
  pub jackpot : ℤ
  pub tile_amount : ℤ
  pub tile_owner_player_id : Option PlayerId

-- `players.filter(({ id }) => id !== playerId).map(({ id }) => id)`
abbrev pub others : List Player → PlayerId → List PlayerId
others players player_id = ids (filter (λ p. not (p.id == player_id)) players)

-- `context.loans.find(...)?.lenderPlayerId ?? null`
abbrev pub lender_of : List Loan → RecordId → Option PlayerId
lender_of loans loan_id = elim (find (λ loan. loan.id == loan_id) loans) [
  | none ↦ none
  | some loan ↦ loan.lender_player_id
]

unfoldable pub preview_deltas :
    PlayerTransactionRequest → List Player → PreviewContext → List PlayerDelta
preview_deltas (player_to_player_request source destination amount) players context =
    transfer_deltas (some source) (some destination) amount
preview_deltas (player_to_bank_request player amount) players context =
    transfer_deltas (some player) none amount
preview_deltas (to_jackpot_request player amount) players context =
    transfer_deltas (some player) none amount
preview_deltas (bank_to_player_request player amount) players context =
    transfer_deltas none (some player) amount
preview_deltas (player_to_all_request payer amount) players context =
    fan_out_deltas payer (others players payer) amount
preview_deltas (all_to_player_request recipient amount) players context =
    fan_in_deltas recipient (others players recipient) amount
preview_deltas (pass_go_request player) players context =
    transfer_deltas none (some player) context.pass_go_reward
preview_deltas (jackpot_payout_request player) players context =
    transfer_deltas none (some player) context.jackpot
preview_deltas (mortgage_request player amount) players context =
    transfer_deltas none (some player) amount
preview_deltas (tile_mortgage_request player) players context =
    transfer_deltas none (some player) context.tile_amount
preview_deltas (purchase_request player) players context =
    transfer_deltas (some player) none context.tile_amount
preview_deltas (build_request player) players context =
    transfer_deltas (some player) none context.tile_amount
preview_deltas (sell_request player) players context =
    transfer_deltas none (some player) context.tile_amount
preview_deltas (rent_request payer) players context =
    transfer_deltas (some payer) context.tile_owner_player_id context.tile_amount
preview_deltas (redeem_request player) players context =
    transfer_deltas (some player) none context.redemption_amount
preview_deltas (trade_request player) players context = []
preview_deltas (loan_request borrower) players context = []
preview_deltas (bank_loan_request player amount) players context =
    transfer_deltas none (some player) amount
preview_deltas (repayment_request player loan_id amount) players context =
    repayment_deltas player (lender_of context.loans loan_id) amount context.interest

unfoldable pub controlled_of_request : PlayerTransactionRequest → PlayerId
controlled_of_request (player_to_player_request source destination amount) = source
controlled_of_request (player_to_bank_request player amount) = player
controlled_of_request (to_jackpot_request player amount) = player
controlled_of_request (bank_to_player_request player amount) = player
controlled_of_request (player_to_all_request payer amount) = payer
controlled_of_request (all_to_player_request recipient amount) = recipient
controlled_of_request (pass_go_request player) = player
controlled_of_request (jackpot_payout_request player) = player
controlled_of_request (mortgage_request player amount) = player
controlled_of_request (tile_mortgage_request player) = player
controlled_of_request (purchase_request player) = player
controlled_of_request (build_request player) = player
controlled_of_request (sell_request player) = player
controlled_of_request (rent_request payer) = payer
controlled_of_request (redeem_request player) = player
controlled_of_request (trade_request player) = player
controlled_of_request (loan_request borrower) = borrower
controlled_of_request (bank_loan_request player amount) = player
controlled_of_request (repayment_request player loan_id amount) = player

-- `PlayerTransactionRequest | BankruptcyRequest`
pub data AuthorizedRequest : Type 0 where
  transaction_request : PlayerTransactionRequest → AuthorizedRequest
  bankruptcy_request : PlayerId → AuthorizedRequest

unfoldable controlled_player_id : AuthorizedRequest → PlayerId
unfolding controlled_of_request
controlled_player_id (transaction_request request) = controlled_of_request request
controlled_player_id (bankruptcy_request player) = player
