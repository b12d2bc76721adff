-- ===== src/Property/Blockers.antt =====
-- shared/domain/property.ts: the reasons that stop a single build or sale on a tile.
use monopoly_bank.Prelude.{
  Bool, true, false, not, ◌&&◌, Option, none, some, List, map, ◌==◌, if◌then◌else◌, any,
}
use monopoly_bank.Prelude.Int.{ℤ, pos, leb_ℤ, eqb_ℤ}
use monopoly_bank.Types.{
  TileId, PropertyTileType, street, railway, utility, PropertyTile, PlayerId, PropertyState,
  PropertyContext,
}
use monopoly_bank.Outcome.{
  AppError, property_not_owned, tile_not_buildable, build_requires_full_group, build_uneven,
  build_mortgaged_group, no_buildings, max_buildings, Result, ok, err, ◌>>=◌,
}
use monopoly_bank.Property.Lookup.{is_owner, require_tile, group_tiles, state_of, holds_full_group}
use monopoly_bank.Property.Levels.{min_of, max_of, exceeds, falls_below}

-- four houses, then a hotel counted as the fifth
abbrev pub max_buildings_count : ℤ
max_buildings_count = pos 5

abbrev is_street : PropertyTileType → Bool
is_street street = true
is_street railway = false
is_street utility = false

abbrev pub is_utility : PropertyTileType → Bool
is_utility street = false
is_utility railway = false
is_utility utility = true

-- `tile.type !== 'street' || tile.houseCost === undefined`, negated
abbrev pub is_buildable : PropertyTile → Bool
is_buildable tile = is_street tile.type && elim tile.house_cost [ none ↦ false | some _ ↦ true ]

abbrev group_states : PropertyContext → PropertyTile → List PropertyState
group_states context tile =
    map (λ candidate. state_of context.registry candidate.id) (group_tiles context.board tile)

pub build_blocker : PropertyContext → TileId → PlayerId → Result (Option AppError)
build_blocker context tile_id player = do
  tile ← require_tile context.board tile_id
  let state = state_of context.registry tile_id
  let group = group_states context tile
  ok (
      if not (is_buildable tile)
      then some (tile_not_buildable tile_id)
      else if not (is_owner state.owner_player_id player)
      then some (property_not_owned tile_id)
      else if not (holds_full_group context.board context.registry tile player)
      then some (build_requires_full_group tile_id)
      else if any (λ s. s.mortgaged) group
      then some (build_mortgaged_group tile_id)
      else if leb_ℤ max_buildings_count state.houses
      then some (max_buildings tile_id)
      else if context.board.rules.build_evenly
          && exceeds state.houses (min_of (map (λ s. s.houses) group))
      then some (build_uneven tile_id)
      else none)

pub sell_blocker : PropertyContext → TileId → PlayerId → Result (Option AppError)
sell_blocker context tile_id player = do
  tile ← require_tile context.board tile_id
  let state = state_of context.registry tile_id
  let group = group_states context tile
  ok (
      if not (is_buildable tile)
      then some (tile_not_buildable tile_id)
      else if not (is_owner state.owner_player_id player)
      then some (property_not_owned tile_id)
      else if eqb_ℤ state.houses (pos 0)
      then some (no_buildings tile_id)
      else if context.board.rules.build_evenly
          && falls_below state.houses (max_of (map (λ s. s.houses) group))
      then some (build_uneven tile_id)
      else none)

-- `blocker === null`, after the test that the tile is on the board
abbrev passes : Result (Option AppError) → Bool
passes (ok none) = true
passes _ = false

abbrev rethrow : Option AppError → Result (Unit {0})
rethrow none = ok tt
rethrow (some e) = err e

unfoldable can_build : PropertyContext → TileId → PlayerId → Bool
unfolding build_blocker
can_build context tile_id player =
    any (λ tile. tile.id == tile_id) context.board.tiles
    && passes (build_blocker context tile_id player)

unfoldable can_sell_building : PropertyContext → TileId → PlayerId → Bool
unfolding sell_blocker
can_sell_building context tile_id player =
    any (λ tile. tile.id == tile_id) context.board.tiles
    && passes (sell_blocker context tile_id player)

unfoldable assert_can_build : PropertyContext → TileId → PlayerId → Result (Unit {0})
assert_can_build context tile_id player = do
  blocker ← build_blocker context tile_id player
  rethrow blocker

unfoldable assert_can_sell_building : PropertyContext → TileId → PlayerId → Result (Unit {0})
assert_can_sell_building context tile_id player = do
  blocker ← sell_blocker context tile_id player
  rethrow blocker
