-- ===== src/Types/Registry.antt =====
-- shared/types/monopoly.ts: the property registry of a board game.
use monopoly_bank.Prelude.{Bool, Option, List}
use monopoly_bank.Prelude.Int.{ℤ}
use monopoly_bank.Types.Board.{TileId, BoardSnapshot}
use monopoly_bank.Types.Tables.{GameId, PlayerId}

-- One row of the registry. `houses` is 0 to 4, and 5 is a hotel.
pub record GameProperty : Type 0 where
  pub game_id : GameId
  pub tile_id : TileId
  pub owner_player_id : Option PlayerId
  pub mortgaged : Bool
  pub houses : ℤ

pub record PropertyState : Type 0 where
  pub owner_player_id : Option PlayerId
  pub mortgaged : Bool
  pub houses : ℤ

pub record PropertyChange : Type 0 where
  pub tile_id : TileId
  pub before : PropertyState
  pub after : PropertyState

pub record PropertyContext : Type 0 where
  pub board : BoardSnapshot
  pub registry : List GameProperty
