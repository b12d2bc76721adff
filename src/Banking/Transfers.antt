-- ===== src/Banking/Transfers.antt =====
-- shared/domain/banking.ts: cash between wallets, the bank and the Free Parking pot.
use monopoly_bank.Prelude.{
  Bool, false, not, ◌&&◌, Option, none, some, List, [], ◌∷◌, map, ◌==◌, if◌then◌else◌, length,
  filter,
}
use monopoly_bank.Prelude.Int.{ℤ, pos, ltb_ℤ, eqb_ℤ}
use monopoly_bank.Types.{PlayerId, Player, TransactionType}
use monopoly_bank.Outcome.{
  no_other_active_players, jackpot_empty, jackpot_changed, bank_to_player_limit_exceeded, Result,
  ok, ◌>>=◌, ◌>>◌, throw_if,
}
use monopoly_bank.Banking.Command.{
  PlayerToPlayerCommand, PlayerAmountCommand, FanCommand, PassGoCommand, JackpotPayoutCommand,
}
use monopoly_bank.Banking.Pending.{JackpotChange, deposit, collect, BankingOperationResult}
use monopoly_bank.Banking.Guards.{
  is_bankrupt, validate_game, validate_amount, find_player, ensure_different_players,
  ensure_sufficient_funds, ensure_active, multiply_amounts,
}
use monopoly_bank.Banking.Deltas.{
  transfer_deltas, fan_out_deltas, fan_in_deltas, apply_deltas, create_result,
}

abbrev bank_to_player_max_amount : ℤ
bank_to_player_max_amount = pos 4000000

unfoldable pub player_to_player : PlayerToPlayerCommand → Result BankingOperationResult
player_to_player c = do
  players ← validate_game c.game c.players
  validate_amount c.amount
  source ← find_player players c.source_player_id
  destination ← find_player players c.destination_player_id
  ensure_active source
  ensure_active destination
  ensure_different_players source destination
  ensure_sufficient_funds source c.amount
  changes ← apply_deltas players (transfer_deltas (some source.id) (some destination.id) c.amount)
  ok (create_result c.game.id TransactionType.player_to_player c.amount c.amount c.comment changes)

unfoldable pub player_to_bank : PlayerAmountCommand → Result BankingOperationResult
player_to_bank c = do
  players ← validate_game c.game c.players
  validate_amount c.amount
  player ← find_player players c.player_id
  ensure_active player
  ensure_sufficient_funds player c.amount
  changes ← apply_deltas players (transfer_deltas (some player.id) none c.amount)
  ok (create_result c.game.id TransactionType.player_to_bank c.amount c.amount c.comment changes)

abbrev with_jackpot : BankingOperationResult → JackpotChange → BankingOperationResult
with_jackpot result change = record result {
  transaction = record result.transaction { jackpot = some change };
}

unfoldable pub to_jackpot : PlayerAmountCommand → Result BankingOperationResult
to_jackpot c = do
  players ← validate_game c.game c.players
  validate_amount c.amount
  player ← find_player players c.player_id
  ensure_active player
  ensure_sufficient_funds player c.amount
  changes ← apply_deltas players (transfer_deltas (some player.id) none c.amount)
  let result =
      create_result c.game.id TransactionType.to_jackpot c.amount c.amount c.comment changes
  ok (with_jackpot result (deposit c.amount))

unfoldable pub jackpot_payout : JackpotPayoutCommand → Result BankingOperationResult
jackpot_payout c = do
  players ← validate_game c.game c.players
  player ← find_player players c.player_id
  ensure_active player
  throw_if (eqb_ℤ c.jackpot (pos 0)) jackpot_empty
  validate_amount c.jackpot
  throw_if (not (eqb_ℤ c.jackpot c.expected_amount)) (jackpot_changed c.jackpot c.expected_amount)
  changes ← apply_deltas players (transfer_deltas none (some player.id) c.jackpot)
  let result =
      create_result c.game.id TransactionType.jackpot_payout c.jackpot c.jackpot none changes
  ok (with_jackpot result (collect c.jackpot))

unfoldable pub bank_to_player : PlayerAmountCommand → Result BankingOperationResult
bank_to_player c = do
  players ← validate_game c.game c.players
  validate_amount c.amount
  throw_if (ltb_ℤ bank_to_player_max_amount c.amount)
      (bank_to_player_limit_exceeded c.amount bank_to_player_max_amount)
  player ← find_player players c.player_id
  ensure_active player
  changes ← apply_deltas players (transfer_deltas none (some player.id) c.amount)
  ok (create_result c.game.id TransactionType.bank_to_player c.amount c.amount c.comment changes)

-- `players.filter((player) => player.id !== self.id && player.status !== 'BANKRUPT')`
abbrev pub other_active : PlayerId → List Player → List Player
other_active self players = filter (λ p. not (p.id == self) && not (is_bankrupt p)) players

abbrev pub ids : List Player → List PlayerId
ids players = map (λ p. p.id) players

unfoldable pub player_to_all : FanCommand → Result BankingOperationResult
player_to_all c = do
  players ← validate_game c.game c.players
  validate_amount c.amount_per_player
  payer ← find_player players c.player_id
  ensure_active payer
  let recipients = other_active payer.id players
  throw_if (length recipients == 0) no_other_active_players
  total ← multiply_amounts c.amount_per_player (length recipients)
  ensure_sufficient_funds payer total
  changes ← apply_deltas players (fan_out_deltas payer.id (ids recipients) c.amount_per_player)
  ok (
      create_result c.game.id TransactionType.player_to_all c.amount_per_player total c.comment
        changes)

-- `for (const payer of payers) ensureSufficientFunds(payer, amount)`
unfoldable pub ensure_all_funds : List Player → ℤ → Result (Unit {0})
ensure_all_funds [] amount = ok tt
ensure_all_funds (payer ∷ payers) amount = do
  ensure_sufficient_funds payer amount
  ensure_all_funds payers amount

unfoldable pub all_to_player : FanCommand → Result BankingOperationResult
all_to_player c = do
  players ← validate_game c.game c.players
  validate_amount c.amount_per_player
  recipient ← find_player players c.player_id
  ensure_active recipient
  let payers = other_active recipient.id players
  throw_if (length payers == 0) no_other_active_players
  ensure_all_funds payers c.amount_per_player
  total ← multiply_amounts c.amount_per_player (length payers)
  changes ← apply_deltas players (fan_in_deltas recipient.id (ids payers) c.amount_per_player)
  ok (
      create_result c.game.id TransactionType.all_to_player c.amount_per_player total c.comment
        changes)

-- `command.exactLanding === true`
abbrev pub is_true : Option Bool → Bool
is_true none = false
is_true (some b) = b

unfoldable pub pass_go : PassGoCommand → Result BankingOperationResult
pass_go c = do
  players ← validate_game c.game c.players
  validate_amount c.game.pass_go_reward
  player ← find_player players c.player_id
  ensure_active player
  reward ← multiply_amounts c.game.pass_go_reward (if is_true c.exact_landing then 2 else 1)
  changes ← apply_deltas players (transfer_deltas none (some player.id) reward)
  ok (create_result c.game.id TransactionType.pass_go reward reward c.comment changes)
