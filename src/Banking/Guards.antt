-- ===== src/Banking/Guards.antt =====
-- shared/domain/banking.ts: the checks that every operation makes before it moves money.
use monopoly_bank.Prelude.{
  ℕ, Bool, true, false, not, ◌||◌, none, some, List, [], ◌∷◌, ltb, ◌==◌, length, find, includes,
}
use monopoly_bank.Prelude.Int.{ℤ, pos, ◌*ℤ◌, ltb_ℤ, leb_ℤ}
use monopoly_bank.Types.{GameId, PlayerId, GameStatus, PlayerStatus, Game, Player}
use monopoly_bank.Outcome.{
  status_is, player_count, belongs_to_another_game, invalid_balance, appears_more_than_once,
  invalid_amount, player_not_found, same_source_and_destination, player_bankrupt,
  insufficient_funds, invalid_game_state, Result, ok, err, ◌>>◌, throw_if,
}
use monopoly_bank.Money.{is_safe_integer}

-- `player.status === 'BANKRUPT'`
abbrev pub is_bankrupt : Player → Bool
is_bankrupt player = elim player.status [
  | none ↦ false
  | some status ↦ elim status [ PlayerStatus.active ↦ false | PlayerStatus.bankrupt ↦ true ]
]

abbrev pub is_active_game : GameStatus → Bool
is_active_game GameStatus.lobby = false
is_active_game GameStatus.active = true
is_active_game GameStatus.finished = false

-- The loop over the players; `seen` is the set of ids so far.
unfoldable pub validate_players : GameId → List PlayerId → List Player → Result (Unit {0})
validate_players game_id seen [] = ok tt
validate_players game_id seen (player ∷ players) = do
  throw_if (not (player.game_id == game_id))
      (invalid_game_state (belongs_to_another_game player.id))
  throw_if (not (is_safe_integer player.balance) || ltb_ℤ player.balance (pos 0))
      (invalid_game_state (invalid_balance player.id))
  throw_if (includes player.id seen) (invalid_game_state (appears_more_than_once player.id))
  validate_players game_id (player.id ∷ seen) players

unfoldable pub validate_game : Game → List Player → Result (List Player)
validate_game game players = do
  throw_if (not (is_active_game game.status)) (invalid_game_state (status_is game.status))
  throw_if (ltb (length players) 2 || ltb 6 (length players)) (invalid_game_state player_count)
  validate_players game.id [] players
  ok players

unfoldable pub validate_amount : ℤ → Result (Unit {0})
validate_amount amount =
    throw_if (not (is_safe_integer amount) || leb_ℤ amount (pos 0)) (invalid_amount amount)

unfoldable pub find_player : List Player → PlayerId → Result Player
find_player players player_id = elim (find (λ candidate. candidate.id == player_id) players) [
  | none ↦ err (player_not_found player_id)
  | some player ↦ ok player
]

unfoldable pub ensure_different_players : Player → Player → Result (Unit {0})
ensure_different_players source destination =
    throw_if (source.id == destination.id) (same_source_and_destination source.id)

unfoldable pub ensure_sufficient_funds : Player → ℤ → Result (Unit {0})
ensure_sufficient_funds player required =
    throw_if (ltb_ℤ player.balance required) (insufficient_funds player.id player.balance required)

unfoldable pub ensure_active : Player → Result (Unit {0})
ensure_active player = throw_if (is_bankrupt player) (player_bankrupt player.id)

unfoldable pub multiply_amounts : ℤ → ℕ → Result ℤ
multiply_amounts amount multiplier = do
  let total = amount *ℤ pos multiplier
  throw_if (not (is_safe_integer total)) (invalid_amount total)
  ok total
