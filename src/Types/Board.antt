-- ===== src/Types/Board.antt =====
-- shared/board/types.ts: the catalog of a board, as frozen into a game.
use monopoly_bank.Prelude.{ℕ, String, Bool, Option, List, ◌==◌}
use monopoly_bank.Prelude.Int.{ℤ}

abbrev pub TileId : Type 0
TileId = ℕ

pub data PropertyGroupId : Type 0 where
  brown lightblue pink orange red yellow green blue railway_group utility_group : PropertyGroupId

-- The position in `propertyGroupIds`, by which groups are compared.
abbrev group_index : PropertyGroupId → ℕ
group_index brown = 0
group_index lightblue = 1
group_index pink = 2
group_index orange = 3
group_index red = 4
group_index yellow = 5
group_index green = 6
group_index blue = 7
group_index railway_group = 8
group_index utility_group = 9

-- `a === b` on groups
abbrev pub same_group : PropertyGroupId → PropertyGroupId → Bool
same_group a b = group_index a == group_index b

pub data PropertyTileType : Type 0 where
  street railway utility : PropertyTileType

-- Rent for the bare street, one to four houses, and the hotel.
pub record StreetRent : Type 0 where
  pub base : ℤ
  pub house1 : ℤ
  pub house2 : ℤ
  pub house3 : ℤ
  pub house4 : ℤ
  pub hotel : ℤ

pub record PropertyTile : Type 0 where
  pub id : TileId
  pub name : String
  pub type : PropertyTileType
  pub group : PropertyGroupId
  pub price : ℤ
  pub mortgage : ℤ
  pub rent : Option StreetRent
  pub house_cost : Option ℤ

-- A fraction such as 0.5, kept as numerator and denominator.
pub record Ratio : Type 0 where
  pub num : ℕ
  pub den : ℕ

-- The two rent tables are keyed by the number of tiles owned.
pub record BoardRules : Type 0 where
  pub monopoly_base_rent_multiplier : ℤ
  pub build_evenly : Bool
  pub sell_building_refund : Ratio
  pub railway_rent : List (ℕ × ℤ)
  pub utility_dice_multiplier : List (ℕ × ℤ)

pub record BoardSnapshot : Type 0 where
  pub rules : BoardRules
  pub tiles : List PropertyTile
