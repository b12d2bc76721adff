-- ===== src/Property/Rent.antt =====
-- shared/domain/property.ts: `rentFor`.
use monopoly_bank.Prelude.{
  ℕ, zero, suc, Bool, true, false, not, ◌&&◌, Option, none, some, List, [], ◌∷◌, ◌==◌,
  if◌then◌else◌,
}
use monopoly_bank.Prelude.Int.{ℤ, pos, negsuc, ◌*ℤ◌, eqb_ℤ}
use monopoly_bank.Types.{
  TileId, PropertyTileType, street, railway, utility, StreetRent, PropertyTile, BoardSnapshot,
  PlayerId, GameProperty, PropertyState,
}
use monopoly_bank.Outcome.{
  AppError, tile_not_found, property_not_owned, property_mortgaged, dice_sum, Result, ok, err,
  ◌>>=◌, ◌>>◌, throw_if,
}
use monopoly_bank.Property.Lookup.{
  require_tile, state_of, owned_count, holds_full_group, group_has_buildings,
}

abbrev utility_rent_unit : ℤ
utility_rent_unit = pos 1000

-- `rent[Math.min(houses, 5)]` for one building or more. A row of the registry has no negative
-- count; the source reads `undefined` there, which no amount test lets through, as 0 is not.
abbrev rent_at : StreetRent → ℤ → ℤ
rent_at rent (pos zero) = rent.base
rent_at rent (pos (suc zero)) = rent.house1
rent_at rent (pos (suc (suc zero))) = rent.house2
rent_at rent (pos (suc (suc (suc zero)))) = rent.house3
rent_at rent (pos (suc (suc (suc (suc zero))))) = rent.house4
rent_at rent (pos (suc (suc (suc (suc (suc _)))))) = rent.hotel
rent_at rent (negsuc _) = pos 0

-- `table[String(count)]`
abbrev entry_for : ℕ → List (ℕ × ℤ) → Option ℤ
entry_for count [] = none
entry_for count ((key, value) ∷ rest) = if key == count then some value else entry_for count rest

abbrev pub is_some {ℓ} : {A : Type ℓ} → Option A → Bool
is_some none = false
is_some (some _) = true

abbrev or_throw : Option ℤ → AppError → Result ℤ
or_throw none e = err e
or_throw (some v) e = ok v

unfoldable pub street_rent :
    BoardSnapshot → List GameProperty → PropertyTile → PropertyState → PlayerId → StreetRent → ℤ
street_rent board registry tile state owner rent =
    if eqb_ℤ state.houses (pos 0)
    then (if holds_full_group board registry tile owner
          && not (group_has_buildings board registry tile)
        then rent.base *ℤ board.rules.monopoly_base_rent_multiplier
        else rent.base)
    else rent_at rent state.houses

-- The branch of each kind of tile.
unfoldable pub rent_of_kind :
    BoardSnapshot
    → List GameProperty
    → PropertyTile
    → TileId
    → PropertyState
    → PlayerId
    → Option ℤ
    → PropertyTileType
    → Result ℤ
rent_of_kind board registry tile tile_id state owner dice street = do
  throw_if (is_some dice) (dice_sum false)
  elim tile.rent [
    | none ↦ err (tile_not_found tile_id)
    | some rent ↦ ok (street_rent board registry tile state owner rent)
  ]
rent_of_kind board registry tile tile_id state owner dice railway = do
  throw_if (is_some dice) (dice_sum false)
  or_throw (entry_for (owned_count board registry tile owner) board.rules.railway_rent)
      (tile_not_found tile_id)
rent_of_kind board registry tile tile_id state owner none utility = err (dice_sum true)
rent_of_kind board registry tile tile_id state owner (some dice) utility = do
  multiplier ←
      or_throw
        (entry_for (owned_count board registry tile owner) board.rules.utility_dice_multiplier)
        (tile_not_found tile_id)
  ok (multiplier *ℤ dice *ℤ utility_rent_unit)

unfoldable pub rent_for : BoardSnapshot → List GameProperty → TileId → Option ℤ → Result ℤ
rent_for board registry tile_id dice = do
  tile ← require_tile board tile_id
  let state = state_of registry tile_id
  elim state.owner_player_id [
    | none ↦ err (property_not_owned tile_id)
    | some owner ↦
        throw_if state.mortgaged (property_mortgaged tile_id)
        >> rent_of_kind board registry tile tile_id state owner dice tile.type
  ]
