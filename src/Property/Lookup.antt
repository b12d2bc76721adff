-- ===== src/Property/Lookup.antt =====
-- shared/domain/property.ts: finding tiles, the registry state of a tile, colour groups, and who
-- may mortgage.
use monopoly_bank.Prelude.{
  ℕ, ◌≡◌, ◌↔◌, Bool, true, false, not, ◌&&◌, ◌||◌, Option, none, some, List, arith, ◌==◌, length,
  find, filter, any,
}
use monopoly_bank.Prelude.Int.{pos, ◌≤ℤ◌, ltb_ℤ, eqb_ℤ}
use monopoly_bank.Types.{
  TileId, same_group, PropertyTile, BoardSnapshot, PlayerId, GameProperty, PropertyState,
  PropertyContext,
}
use monopoly_bank.Outcome.{
  tile_not_found, property_not_owned, property_mortgaged, property_has_buildings, Result, ok, err,
  ◌>>=◌, ◌>>◌, throw_if,
}

abbrev pub unowned : PropertyState
unowned = record { owner_player_id = none; mortgaged = false; houses = pos 0 }

-- `id === owner`, where the owner may be null
abbrev pub is_owner : Option PlayerId → PlayerId → Bool
is_owner none player = false
is_owner (some owner) player = owner == player

unfoldable pub find_tile : BoardSnapshot → TileId → Option PropertyTile
find_tile board tile_id = find (λ tile. tile.id == tile_id) board.tiles

unfoldable pub require_tile : BoardSnapshot → TileId → Result PropertyTile
require_tile board tile_id = elim (find_tile board tile_id) [
  | none ↦ err (tile_not_found tile_id)
  | some tile ↦ ok tile
]

unfoldable pub group_tiles : BoardSnapshot → PropertyTile → List PropertyTile
group_tiles board tile = filter (λ candidate. same_group candidate.group tile.group) board.tiles

abbrev pub state_of_row : GameProperty → PropertyState
state_of_row row = record {
  owner_player_id = row.owner_player_id;
  mortgaged = row.mortgaged;
  houses = row.houses;
}

unfoldable pub state_of : List GameProperty → TileId → PropertyState
state_of registry tile_id = elim (find (λ row. row.tile_id == tile_id) registry) [
  | none ↦ unowned
  | some row ↦ state_of_row row
]

unfoldable pub owned_count : BoardSnapshot → List GameProperty → PropertyTile → PlayerId → ℕ
owned_count board registry tile owner = length (
    filter (λ candidate. is_owner (state_of registry candidate.id).owner_player_id owner)
      (group_tiles board tile))

unfoldable pub holds_full_group : BoardSnapshot → List GameProperty → PropertyTile → PlayerId → Bool
holds_full_group board registry tile owner =
    owned_count board registry tile owner == length (group_tiles board tile)

unfoldable pub group_has_buildings : BoardSnapshot → List GameProperty → PropertyTile → Bool
group_has_buildings board registry tile =
    any (λ candidate. ltb_ℤ (pos 0) (state_of registry candidate.id).houses)
      (group_tiles board tile)

pub can_mortgage : BoardSnapshot → List GameProperty → TileId → PlayerId → Bool
can_mortgage board registry tile_id player = elim (find_tile board tile_id) [
  | none ↦ false
  | some tile ↦
      let state = state_of registry tile_id in
      is_owner state.owner_player_id player
      && (not state.mortgaged
          && (eqb_ℤ state.houses (pos 0) && not (group_has_buildings board registry tile)))
]

pub assert_can_mortgage : PropertyContext → TileId → PlayerId → Result (Unit {0})
assert_can_mortgage context tile_id player = do
  tile ← require_tile context.board tile_id
  let state = state_of context.registry tile_id
  throw_if (not (is_owner state.owner_player_id player)) (property_not_owned tile_id)
  throw_if state.mortgaged (property_mortgaged tile_id)
  throw_if (ltb_ℤ (pos 0) state.houses || group_has_buildings context.board context.registry tile)
      (property_has_buildings tile_id)

-- For houses of zero or more, the picker's test and the rule that throws agree: a tile can be
-- mortgaged exactly when the assertion returns.
pub can_mortgage_iff :
    (context : PropertyContext) (tile_id : TileId) (player : PlayerId)
    → pos 0 ≤ℤ (state_of context.registry tile_id).houses
    → (can_mortgage context.board context.registry tile_id player ≡ true)
      ↔ (assert_can_mortgage context tile_id player ≡ ok tt)
unfolding can_mortgage assert_can_mortgage require_tile
can_mortgage_iff context tile_id player h = ground arith
