-- ===== src/Banking/Trade.antt =====
-- shared/domain/banking.ts: building, selling and trading tiles.
use monopoly_bank.Prelude.{
  Bool, false, not, ◌||◌, none, some, List, [], ◌∷◌, ◌++◌, map, ◌==◌, if◌then◌else◌, length,
  includes,
}
use monopoly_bank.Prelude.Int.{
  ℤ, pos, negsuc, ◌+ℤ◌, ◌-ℤ◌, neg, ◌*ℤ◌, ltb_ℤ, leb_ℤ, eqb_ℤ, abs_ℤ, sum,
}
use monopoly_bank.Types.{
  TileId, BoardSnapshot, PlayerId, Player, GameProperty, PropertyChange, property_build,
  property_sell_building, property_transfer,
}
use monopoly_bank.Outcome.{
  no_property, traded_twice, no_street_named, invalid_amount, invalid_trade, property_not_owned,
  property_has_buildings, no_buildings, max_buildings, invalid_build_target, Result, ok, err, ◌>>=◌,
  ◌>>◌, throw_if,
}
use monopoly_bank.Money.{is_safe_integer, redemption_cost}
use monopoly_bank.Property.Lookup.{is_owner, require_tile, state_of, group_has_buildings}
use monopoly_bank.Property.Changes.{owner_change}
use monopoly_bank.Property.Plan.{
  Targets, Direction, build, sell, plan_buildings, build_cost, sell_refund,
}
use monopoly_bank.Property.Blockers.{max_buildings_count}
use monopoly_bank.Banking.Command.{BuildPropertyCommand, TransferPropertiesCommand}
use monopoly_bank.Banking.Pending.{BankingOperationResult}
use monopoly_bank.Banking.Guards.{
  validate_game, validate_amount, find_player, ensure_different_players, ensure_sufficient_funds,
  ensure_active,
}
use monopoly_bank.Banking.Deltas.{
  transfer_deltas, create_balance_change, apply_deltas, create_result, with_property,
}

abbrev one_step : Direction → ℤ
one_step build = pos 1
one_step sell = negsuc 0

-- A single step keeps its own precise reasons.
unfoldable pub check_step : Direction → TileId → ℤ → Result (Unit {0})
check_step build tile_id houses =
    throw_if (leb_ℤ max_buildings_count houses) (max_buildings tile_id)
check_step sell tile_id houses = throw_if (eqb_ℤ houses (pos 0)) (no_buildings tile_id)

unfoldable pub building_targets : BuildPropertyCommand → Direction → Result Targets
building_targets c direction = elim c.targets [
  | some targets ↦ ok targets
  | none ↦ elim c.tile_id [
    | none ↦ err (invalid_build_target no_street_named none)
    | some tile_id ↦
        let houses = (state_of c.property.registry tile_id).houses in
        check_step direction tile_id houses >> ok ((tile_id, houses +ℤ one_step direction) ∷ [])
  ]
]

-- A plan has a change, so its first one names the tile (`plan.changes[0]!.tileId`).
unfoldable pub with_buildings :
    BankingOperationResult → List PropertyChange → BankingOperationResult
with_buildings result [] = result
with_buildings result (change ∷ changes) = with_property result change.tile_id (change ∷ changes)

-- `plan.changes.reduce(...)`: the buildings added to each street, at its house cost.
unfoldable pub building_costs : BoardSnapshot → List PropertyChange → Result ℤ
building_costs board [] = ok (pos 0)
building_costs board (change ∷ changes) = do
  price ← build_cost board change.tile_id
  rest ← building_costs board changes
  ok ((change.after.houses -ℤ change.before.houses) *ℤ price +ℤ rest)

-- The same for a sale: the buildings taken from each street, at its refund.
unfoldable pub building_refunds : BoardSnapshot → List PropertyChange → Result ℤ
building_refunds board [] = ok (pos 0)
building_refunds board (change ∷ changes) = do
  price ← sell_refund board change.tile_id
  rest ← building_refunds board changes
  ok ((change.before.houses -ℤ change.after.houses) *ℤ price +ℤ rest)

unfoldable pub build_property : BuildPropertyCommand → Result BankingOperationResult
build_property c = do
  players ← validate_game c.game c.players
  targets ← building_targets c build
  plan ← plan_buildings c.property c.player_id targets build
  cost ← building_costs c.property.board plan.changes
  validate_amount cost
  player ← find_player players c.player_id
  ensure_active player
  ensure_sufficient_funds player cost
  changes ← apply_deltas players (transfer_deltas (some player.id) none cost)
  ok (with_buildings (create_result c.game.id property_build cost cost none changes) plan.changes)

unfoldable pub sell_building : BuildPropertyCommand → Result BankingOperationResult
sell_building c = do
  players ← validate_game c.game c.players
  targets ← building_targets c sell
  plan ← plan_buildings c.property c.player_id targets sell
  refund ← building_refunds c.property.board plan.changes
  validate_amount refund
  player ← find_player players c.player_id
  ensure_active player
  changes ← apply_deltas players (transfer_deltas none (some player.id) refund)
  ok (
      with_buildings (create_result c.game.id property_sell_building refund refund none changes)
        plan.changes)

unfoldable pub mortgage_transfer_fee : BoardSnapshot → TileId → Result ℤ
mortgage_transfer_fee board tile_id = do
  tile ← require_tile board tile_id
  ok (redemption_cost tile.mortgage -ℤ tile.mortgage)

-- One call of `move`: the change, who receives the tile, and the fee that they owe the bank.
pub record Move : Type 0 where
  pub change : PropertyChange
  pub receiver : PlayerId
  pub fee : ℤ

unfoldable pub move_tile :
    BoardSnapshot → List GameProperty → Player → Player → TileId → Result Move
move_tile board registry from to tile_id = do
  tile ← require_tile board tile_id
  let state = state_of registry tile_id
  throw_if (not (is_owner state.owner_player_id from.id)) (property_not_owned tile_id)
  throw_if (group_has_buildings board registry tile) (property_has_buildings tile_id)
  fee ← (if state.mortgaged then mortgage_transfer_fee board tile_id else ok (pos 0))
  ok (record { change = owner_change tile_id state (some to.id); receiver = to.id; fee = fee })

unfoldable pub move_tiles :
    BoardSnapshot → List GameProperty → Player → Player → List TileId → Result (List Move)
move_tiles board registry from to [] = ok []
move_tiles board registry from to (tile_id ∷ tile_ids) = do
  move ← move_tile board registry from to tile_id
  moves ← move_tiles board registry from to tile_ids
  ok (move ∷ moves)

-- `if (to.id === proposer.id) proposerFee += fee; else counterpartyFee += fee;`
unfoldable pub proposer_fees : PlayerId → List Move → ℤ
proposer_fees proposer moves =
    sum (map (λ move. if move.receiver == proposer then move.fee else pos 0) moves)

unfoldable pub counterparty_fees : PlayerId → List Move → ℤ
counterparty_fees proposer moves =
    sum (map (λ move. if move.receiver == proposer then pos 0 else move.fee) moves)

-- `new Set(tileIds).size !== tileIds.length`
unfoldable pub has_duplicates : List TileId → Bool
has_duplicates [] = false
has_duplicates (tile_id ∷ tile_ids) = includes tile_id tile_ids || has_duplicates tile_ids

unfoldable pub validate_cash : ℤ → Result (Unit {0})
validate_cash cash =
    throw_if (not (is_safe_integer cash) || ltb_ℤ cash (pos 0)) (invalid_amount cash)

-- `if (delta < 0) ensureSufficientFunds(player, -delta)`
unfoldable pub ensure_covers : Player → ℤ → Result (Unit {0})
unfolding ensure_sufficient_funds
ensure_covers player delta =
    if ltb_ℤ delta (pos 0) then ensure_sufficient_funds player (neg delta) else ok tt

unfoldable pub transfer_properties : TransferPropertiesCommand → Result BankingOperationResult
transfer_properties c = do
  players ← validate_game c.game c.players
  proposer ← find_player players c.player_id
  counterparty ← find_player players c.counterparty_player_id
  ensure_active proposer
  ensure_active counterparty
  ensure_different_players proposer counterparty
  validate_cash c.cash_give
  validate_cash c.cash_take
  let tile_ids = c.give_tile_ids ++ c.take_tile_ids
  throw_if (length tile_ids == 0) (invalid_trade no_property)
  throw_if (has_duplicates tile_ids) (invalid_trade traded_twice)
  given ← move_tiles c.property.board c.property.registry proposer counterparty c.give_tile_ids
  taken ← move_tiles c.property.board c.property.registry counterparty proposer c.take_tile_ids
  let moves = given ++ taken
  let proposer_delta = c.cash_take -ℤ c.cash_give -ℤ proposer_fees proposer.id moves
  let counterparty_delta = c.cash_give -ℤ c.cash_take -ℤ counterparty_fees proposer.id moves
  ensure_covers proposer proposer_delta
  ensure_covers counterparty counterparty_delta
  let net = abs_ℤ (c.cash_give -ℤ c.cash_take)
  proposer_change ← create_balance_change proposer proposer_delta
  counterparty_change ← create_balance_change counterparty counterparty_delta
  let result =
      create_result c.game.id property_transfer net net none
        (proposer_change ∷ counterparty_change ∷ [])
  ok (record result {
    transaction = record result.transaction {
      initiator_player_id = some proposer.id;
      registry_changes = some (map (λ move. move.change) moves);
    };
  })
