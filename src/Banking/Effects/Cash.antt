-- ===== src/Banking/Effects/Cash.antt =====
-- The deltas that each cash operation applies.
use monopoly_bank.Prelude.{◌≡◌, none, some, arith, if◌then◌else◌}
use monopoly_bank.Prelude.Int.{pos, ◌*ℤ◌}
use monopoly_bank.Outcome.{ok}
use monopoly_bank.Banking.Command.{
  PlayerToPlayerCommand, PlayerAmountCommand, FanCommand, PassGoCommand, JackpotPayoutCommand,
}
use monopoly_bank.Banking.Pending.{BankingOperationResult}
use monopoly_bank.Banking.Guards.{multiply_amounts}
use monopoly_bank.Banking.Deltas.{transfer_deltas, fan_out_deltas, fan_in_deltas, create_result}
use monopoly_bank.Banking.Transfers.{
  player_to_player, player_to_bank, to_jackpot, jackpot_payout, bank_to_player, other_active, ids,
  player_to_all, all_to_player, is_true, pass_go,
}
use monopoly_bank.Banking.Effects.Changes.{find_player-id}
use monopoly_bank.Banking.Effects.Applies.{Applies, validate_game-eq}

pub player_to_player-Applies :
    (c : PlayerToPlayerCommand) (r : BankingOperationResult)
    → player_to_player c ≡ ok r
    → Applies c.game c.players
        (transfer_deltas (some c.source_player_id) (some c.destination_player_id) c.amount)
        r
unfolding player_to_player create_result
player_to_player-Applies c r h = grind (arith, find_player-id, validate_game-eq)

pub player_to_bank-Applies :
    (c : PlayerAmountCommand) (r : BankingOperationResult)
    → player_to_bank c ≡ ok r
    → Applies c.game c.players (transfer_deltas (some c.player_id) none c.amount) r
unfolding player_to_bank create_result
player_to_bank-Applies c r h = grind (arith, find_player-id, validate_game-eq)

pub to_jackpot-Applies :
    (c : PlayerAmountCommand) (r : BankingOperationResult)
    → to_jackpot c ≡ ok r
    → Applies c.game c.players (transfer_deltas (some c.player_id) none c.amount) r
unfolding to_jackpot create_result
to_jackpot-Applies c r h = grind (arith, find_player-id, validate_game-eq)

pub jackpot_payout-Applies :
    (c : JackpotPayoutCommand) (r : BankingOperationResult)
    → jackpot_payout c ≡ ok r
    → Applies c.game c.players (transfer_deltas none (some c.player_id) c.jackpot) r
unfolding jackpot_payout create_result
jackpot_payout-Applies c r h = grind (arith, find_player-id, validate_game-eq)

pub bank_to_player-Applies :
    (c : PlayerAmountCommand) (r : BankingOperationResult)
    → bank_to_player c ≡ ok r
    → Applies c.game c.players (transfer_deltas none (some c.player_id) c.amount) r
unfolding bank_to_player create_result
bank_to_player-Applies c r h = grind (arith, find_player-id, validate_game-eq)

pub player_to_all-Applies :
    (c : FanCommand) (r : BankingOperationResult)
    → player_to_all c ≡ ok r
    → Applies c.game c.players
        (fan_out_deltas c.player_id (ids (other_active c.player_id c.players)) c.amount_per_player)
        r
unfolding player_to_all create_result
player_to_all-Applies c r h = grind (arith, find_player-id, validate_game-eq)

pub all_to_player-Applies :
    (c : FanCommand) (r : BankingOperationResult)
    → all_to_player c ≡ ok r
    → Applies c.game c.players
        (fan_in_deltas c.player_id (ids (other_active c.player_id c.players)) c.amount_per_player)
        r
unfolding all_to_player create_result
all_to_player-Applies c r h = grind (arith, find_player-id, validate_game-eq)

pub pass_go-Applies :
    (c : PassGoCommand) (r : BankingOperationResult)
    → pass_go c ≡ ok r
    → Applies c.game c.players
        (transfer_deltas none
          (some c.player_id)
          (c.game.pass_go_reward *ℤ (if is_true c.exact_landing then pos 2 else pos 1)))
        r
unfolding pass_go create_result multiply_amounts
pass_go-Applies c r h = grind (arith, find_player-id, validate_game-eq)
