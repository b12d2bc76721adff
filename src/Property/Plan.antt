-- ===== src/Property/Plan.antt =====
-- shared/domain/property.ts: `planBuildings`, which raises or lowers the streets of one colour
-- group to wanted levels, and the prices of a building.
use monopoly_bank.Prelude.{
  Bool, not, ◌&&◌, ◌||◌, Option, none, some, List, [], ◌∷◌, map, ◌==◌, if◌then◌else◌, get_or, any,
}
use monopoly_bank.Prelude.Int.{ℤ, pos, ◌-ℤ◌, ◌*ℤ◌, ltb_ℤ, eqb_ℤ, floor_div, abs_ℤ, sum}
use monopoly_bank.Types.{
  TileId, same_group, PropertyTile, BoardSnapshot, PlayerId, GameProperty, PropertyChange,
  PropertyContext,
}
use monopoly_bank.Outcome.{
  BuildReason, no_street_named, one_colour_group, level_range, cannot_remove, cannot_add,
  nothing_changes, property_not_owned, tile_not_buildable, build_requires_full_group, build_uneven,
  build_mortgaged_group, invalid_build_target, Result, ok, err, ◌>>=◌, ◌>>◌, throw_if,
}
use monopoly_bank.Property.Lookup.{is_owner, require_tile, group_tiles, state_of, holds_full_group}
use monopoly_bank.Property.Changes.{building_change}
use monopoly_bank.Property.Levels.{is_uneven}
use monopoly_bank.Property.Blockers.{max_buildings_count, is_buildable}

-- `Object.entries(targets)`: the keys are distinct tile ids, in order.
abbrev pub Targets : Type 0
Targets = List (TileId × ℤ)

pub data Direction : Type 0 where
  build sell : Direction

pub record BuildingPlan : Type 0 where
  pub changes : List PropertyChange
  pub buildings : ℤ

-- `targets[tileId]`
abbrev pub target_of : Targets → TileId → Option ℤ
target_of [] tile_id = none
target_of ((key, level) ∷ rest) tile_id =
    if key == tile_id then some level else target_of rest tile_id

-- The body of the loop over the entries.
unfoldable pub check_target :
    PropertyContext → PlayerId → PropertyTile → TileId × ℤ → Result (Unit {0})
check_target context player first (tile_id, level) = do
  tile ← require_tile context.board tile_id
  throw_if (not (is_buildable tile)) (tile_not_buildable tile_id)
  throw_if (not (same_group tile.group first.group))
      (invalid_build_target one_colour_group (some tile_id))
  throw_if (ltb_ℤ level (pos 0) || ltb_ℤ max_buildings_count level)
      (invalid_build_target level_range (some tile_id))
  throw_if (not (is_owner (state_of context.registry tile_id).owner_player_id player))
      (property_not_owned tile_id)

unfoldable pub check_targets :
    PropertyContext → PlayerId → PropertyTile → Targets → Result (Unit {0})
check_targets context player first [] = ok tt
check_targets context player first (entry ∷ entries) = do
  check_target context player first entry
  check_targets context player first entries

-- `direction === 'BUILD' ? level < state.houses : level > state.houses`
abbrev is_wrong_way : Direction → ℤ → ℤ → Bool
is_wrong_way build level houses = ltb_ℤ level houses
is_wrong_way sell level houses = ltb_ℤ houses level

abbrev wrong_way : Direction → BuildReason
wrong_way build = cannot_remove
wrong_way sell = cannot_add

-- One street of the group: its final level, and its change if the level is a new one.
pub record StreetPlan : Type 0 where
  pub level : ℤ
  pub change : Option PropertyChange
  pub moved : ℤ

unfoldable pub plan_street : List GameProperty → Targets → Direction → TileId → Result StreetPlan
plan_street registry targets direction tile_id =
    let state = state_of registry tile_id in
    let level = get_or (target_of targets tile_id) state.houses in
    if eqb_ℤ level state.houses
    then ok (record { level = level; change = none; moved = pos 0 })
    else if is_wrong_way direction level state.houses
    then err (invalid_build_target (wrong_way direction) (some tile_id))
    else ok (record {
      level = level;
      change = some (building_change tile_id state level);
      moved = abs_ℤ (level -ℤ state.houses);
    })

-- The loop over the group: the plans of the streets, in board order.
unfoldable pub plan_streets :
    List GameProperty → Targets → Direction → List PropertyTile → Result (List StreetPlan)
plan_streets registry targets direction [] = ok []
plan_streets registry targets direction (tile ∷ tiles) = do
  plan ← plan_street registry targets direction tile.id
  plans ← plan_streets registry targets direction tiles
  ok (plan ∷ plans)

unfoldable pub changes_of : List StreetPlan → List PropertyChange
changes_of [] = []
changes_of (plan ∷ plans) = elim plan.change [
  | none ↦ changes_of plans
  | some change ↦ change ∷ changes_of plans
]

abbrev pub levels_of : List StreetPlan → List ℤ
levels_of plans = map (λ plan. plan.level) plans

-- The tail of `planBuildings`: something changes, and evenly where the board asks for it.
unfoldable pub finish_plan : Bool → List StreetPlan → Result BuildingPlan
finish_plan build_evenly plans = elim (changes_of plans) [
  | [] ↦ err (invalid_build_target nothing_changes none)
  | change ∷ changes ↦
      if build_evenly && is_uneven (levels_of plans)
      then err (build_uneven change.tile_id)
      else ok
          (record { changes = change ∷ changes; buildings = sum (map (λ plan. plan.moved) plans) })
]

unfoldable pub plan_buildings :
    PropertyContext → PlayerId → Targets → Direction → Result BuildingPlan
plan_buildings context player [] direction = err (invalid_build_target no_street_named none)
plan_buildings context player (entry ∷ entries) direction = do
  first ← require_tile context.board entry.0
  let group = group_tiles context.board first
  check_targets context player first (entry ∷ entries)
  throw_if (not (holds_full_group context.board context.registry first player))
      (build_requires_full_group first.id)
  throw_if (any (λ tile. (state_of context.registry tile.id).mortgaged) group)
      (build_mortgaged_group first.id)
  plans ← plan_streets context.registry (entry ∷ entries) direction group
  finish_plan context.board.rules.build_evenly plans

unfoldable pub build_cost : BoardSnapshot → TileId → Result ℤ
build_cost board tile_id = do tile ← require_tile board tile_id; ok (get_or tile.house_cost (pos 0))

-- `Math.floor(cost * sellBuildingRefund)`
unfoldable pub sell_refund : BoardSnapshot → TileId → Result ℤ
sell_refund board tile_id = do
  cost ← build_cost board tile_id
  ok (
      floor_div (cost *ℤ pos board.rules.sell_building_refund.num)
        board.rules.sell_building_refund.den)

unfoldable pub purchase_price : BoardSnapshot → TileId → Result ℤ
purchase_price board tile_id = do tile ← require_tile board tile_id; ok tile.price
