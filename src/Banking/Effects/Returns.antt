-- ===== src/Banking/Effects/Returns.antt =====
-- When a payment between players returns: its conditions, each of them needed.
use mathlib.Core.Path.{subst}
use monopoly_bank.Prelude.{
  ◌≡◌, ◌≢◌, ◌↔◌, inl, inr, true, false, some, List, [], ◌∷◌, arith, ◌==◌, Bool-cases, All,
}
use monopoly_bank.Prelude.Int.{ℤ, pos, ◌+ℤ◌, neg, ◌≤ℤ◌, int_laws, sum}
use monopoly_bank.Types.{GameId, PlayerId, Player}
use monopoly_bank.Outcome.{ok, must}
use monopoly_bank.Money.{is_safe_integer}
use monopoly_bank.Banking.Command.{PlayerToPlayerCommand}
use monopoly_bank.Banking.Pending.{PlayerBalanceChange, BankingOperationResult}
use monopoly_bank.Banking.Guards.{
  is_bankrupt, validate_game, validate_amount, find_player, ensure_different_players,
  ensure_sufficient_funds, ensure_active,
}
use monopoly_bank.Banking.Deltas.{transfer_deltas, create_balance_change, apply_deltas}
use monopoly_bank.Banking.Transfers.{player_to_player}
use monopoly_bank.Banking.Effects.Applies.{validate_game-eq}
use monopoly_bank.Banking.Effects.Changes.{known_player}
use monopoly_bank.Banking.Effects.Table.{IsSeated, validate_game-IsTable}

abbrev pub IsAmount : ℤ → Type 0
IsAmount amount = (pos 1 ≤ℤ amount) × (is_safe_integer amount ≡ true)

-- The conditions of a payment from one player to another.
pub record CanPay (c : PlayerToPlayerCommand) (source destination : Player) : Type 0 where
  pub valid : validate_game c.game c.players ≡ ok c.players
  pub amount : IsAmount c.amount
  pub source_found : find_player c.players c.source_player_id ≡ ok source
  pub destination_found : find_player c.players c.destination_player_id ≡ ok destination
  pub source_active : is_bankrupt source ≡ false
  pub destination_active : is_bankrupt destination ≡ false
  pub different : source.id ≢ destination.id
  pub funds : c.amount ≤ℤ source.balance
  pub fits : is_safe_integer (destination.balance +ℤ c.amount) ≡ true

pub found-IsSeated :
    (game_id : GameId) (players : List Player) (id : PlayerId) (player : Player)
    → All (IsSeated game_id) players
    → find_player players id ≡ ok player
    → IsSeated game_id player
unfolding find_player
found-IsSeated game_id [] id player seated h = cc
found-IsSeated game_id (p ∷ ps) id player (here, later) h =
    let rest = found-IsSeated game_id ps id player later in
    elim (Bool-cases (p.id == id)) [
      | inl hit ↦ let same : p ≡ player = ground arith in subst (IsSeated game_id) same here
      | inr miss ↦ rest (ground arith)
    ]

-- What is left of a safe balance is safe.
pub safe_rest :
    (balance amount : ℤ)
    → is_safe_integer balance ≡ true
    → pos 1 ≤ℤ amount
    → amount ≤ℤ balance
    → is_safe_integer (balance +ℤ neg amount) ≡ true
unfolding ◌+ℤ◌ neg
safe_rest balance amount safe positive covered = ground arith

pub create_balance_change-ok :
    (player : Player) (delta : ℤ)
    → is_safe_integer (player.balance +ℤ delta) ≡ true
    → pos 0 ≤ℤ player.balance +ℤ delta
    → (change : PlayerBalanceChange) × (create_balance_change player delta ≡ ok change)
unfolding create_balance_change
create_balance_change-ok player delta safe nonneg = must _ (λ e failed. ground arith)

apply_deltas-ok :
    (players : List Player) (source destination : Player) (amount : ℤ)
    → find_player players source.id ≡ ok source
    → find_player players destination.id ≡ ok destination
    → amount ≤ℤ source.balance
    → is_safe_integer (source.balance +ℤ neg amount) ≡ true
    → is_safe_integer (destination.balance +ℤ amount) ≡ true
    → pos 0 ≤ℤ destination.balance +ℤ amount
    → (changes : List PlayerBalanceChange) × (apply_deltas players
          (transfer_deltas (some source.id) (some destination.id) amount)
        ≡ ok changes)
unfolding apply_deltas transfer_deltas
apply_deltas-ok players source destination amount found found' funds rest sum nonneg =
    let (own, own_made) =
      create_balance_change-ok source (neg amount) rest (omega (int_laws, funds)) in
    let (other, other_made) = create_balance_change-ok destination amount sum nonneg in
    must _ (λ e failed. ground arith)

CanPay-player_to_player :
    (c : PlayerToPlayerCommand) (source destination : Player)
    → CanPay c source destination
    → (r : BankingOperationResult) × (player_to_player c ≡ ok r)
unfolding player_to_player validate_amount ensure_active ensure_different_players
    ensure_sufficient_funds
CanPay-player_to_player c source destination can =
    let found = known_player c.players c.source_player_id source can.source_found in
    let found' = known_player c.players c.destination_player_id destination can.destination_found in
    let table = validate_game-IsTable c.game c.players can.valid in
    let (_, (_, safe)) =
      found-IsSeated c.game.id c.players c.source_player_id source table.seated can.source_found in
    let (_, (low, _)) =
      found-IsSeated c.game.id c.players c.destination_player_id destination table.seated
        can.destination_found in
    let (changes, applied) =
      apply_deltas-ok c.players source destination c.amount found found' can.funds
        (safe_rest source.balance c.amount safe can.amount.0 can.funds) can.fits
        (omega (int_laws, low, can.amount.0)) in
    must _ (λ e failed. ground arith)

module _ (c : PlayerToPlayerCommand) (r : BankingOperationResult)
    (h : player_to_player c ≡ ok r) where
  pays_valid : validate_game c.game c.players ≡ ok c.players
  unfolding player_to_player
  pays_valid = grind (arith, validate_game-eq)

  pays_source : (p : Player) × (find_player c.players c.source_player_id ≡ ok p)
  unfolding player_to_player
  pays_source = let valid = pays_valid in must _ (λ e failed. ground arith)

  pays_destination : (p : Player) × (find_player c.players c.destination_player_id ≡ ok p)
  unfolding player_to_player
  pays_destination = let valid = pays_valid in must _ (λ e failed. ground arith)

  module _ (source destination : Player)
      (found : find_player c.players c.source_player_id ≡ ok source)
      (found' : find_player c.players c.destination_player_id ≡ ok destination) where
    pays_can : CanPay c source destination
    unfolding player_to_player validate_amount ensure_active ensure_different_players
        ensure_sufficient_funds apply_deltas transfer_deltas create_balance_change
    pays_can =
        let valid = pays_valid in
        let again = known_player c.players c.destination_player_id destination found' in
        let first = known_player c.players c.source_player_id source found in
        record {
          valid = valid;
          amount = (ground arith, ground arith);
          source_found = found;
          destination_found = found';
          source_active = ground arith;
          destination_active = ground arith;
          different = λ same. ground arith;
          funds = ground arith;
          fits = ground arith;
        }

-- A payment between players returns exactly when the game and its players are valid, the amount is
-- a safe one above zero, both players are in the game, active and different, the payer has the
-- amount, and the balance of the payee stays safe.
pub player_to_player_iff :
    (c : PlayerToPlayerCommand)
    → ((r : BankingOperationResult) × (player_to_player c ≡ ok r))
      ↔ ((source : Player) × ((destination : Player) × CanPay c source destination))
player_to_player_iff c = (
  (λ (r, h).
      let (source, found) = pays_source c r h in
      let (destination, found') = pays_destination c r h in
      (source, (destination, pays_can c r h source destination found found'))),
  (λ (source, (destination, can)). CanPay-player_to_player c source destination can),
)
