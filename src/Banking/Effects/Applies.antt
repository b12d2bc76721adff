-- ===== src/Banking/Effects/Applies.antt =====
-- The shape that the operations share: valid players, and deltas that are applied to them.
use monopoly_bank.Prelude.{◌≡◌, List, map, arith}
use monopoly_bank.Types.{Game, Player}
use monopoly_bank.Outcome.{ok}
use monopoly_bank.Banking.Pending.{BankingOperationResult}
use monopoly_bank.Banking.Guards.{validate_game}
use monopoly_bank.Banking.Deltas.{PlayerDelta, apply_deltas, participant_of}

-- The game and its players passed the checks, and the result is what the deltas make of them.
pub record Applies (game : Game) (players : List Player) (deltas : List PlayerDelta)
    (result : BankingOperationResult) : Type 0 where
  pub valid : validate_game game players ≡ ok players
  pub applied : apply_deltas players deltas ≡ ok result.affected_players
  pub recorded : result.transaction.participants ≡ map participant_of result.affected_players

pub validate_game-eq :
    (game : Game) (players checked : List Player)
    → validate_game game players ≡ ok checked
    → players ≡ checked
unfolding validate_game
validate_game-eq game players checked h = ground arith
