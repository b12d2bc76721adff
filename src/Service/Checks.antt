-- ===== src/Service/Checks.antt =====
-- worker/services/banking-service.ts: the context of a board game, and the checks of a request
-- against what is stored.
use monopoly_bank.Prelude.{
  String, Bool, false, not, ◌&&◌, Option, none, some, List, [], ◌∷◌, ◌==◌, find, any,
}
use monopoly_bank.Types.{
  TileId, BoardSnapshot, GameId, PlayerId, Game, GameProperty, PropertyChange, PropertyContext,
  Mortgage, Auction,
}
use monopoly_bank.Outcome.{
  property_changed, property_in_auction, mortgage_already_active, persistence_consistency, conflict,
  Result, ok, throw_if, ◌>>=◌, ◌>>◌,
}
use monopoly_bank.Money.{TextHost, property_name_key}
use monopoly_bank.Property.Lookup.{require_tile, state_of_row}
use monopoly_bank.Banking.Pending.{BankingOperationResult}
use monopoly_bank.Store.{Store, same_id, same_state, same_text}
use monopoly_bank.Service.Reads.{list_properties, list_active_mortgages, assert_board_enabled}

-- A tile that is named must be on the board and have its row.
unfoldable pub check_named_tile :
    BoardSnapshot → List GameProperty → Option TileId → Result (Unit {0})
check_named_tile board registry none = ok tt
check_named_tile board registry (some tile_id) = do
  tile ← require_tile board tile_id
  throw_if (not (any (λ row. row.tile_id == tile_id) registry)) persistence_consistency

unfoldable pub property_context : Store → Game → Option TileId → Result PropertyContext
property_context store game tile_id = do
  board ← assert_board_enabled game
  let registry = list_properties store game.id
  check_named_tile board registry tile_id
  ok (record { board = board; registry = registry })

-- A tile being auctioned is not bought from the bank meanwhile.
unfoldable pub assert_not_in_auction : Option Auction → TileId → Result (Unit {0})
assert_not_in_auction none tile_id = ok tt
assert_not_in_auction (some auction) tile_id =
    throw_if (same_id auction.tile_id (some tile_id)) (conflict property_in_auction)

abbrev mortgage_name : BankingOperationResult → String
mortgage_name result = elim result.transaction.new_mortgage [
  | none ↦ ""
  | some new ↦ new.property_name
]

abbrev has_name : TextHost → PlayerId → String → Mortgage → Bool
has_name host player_id name item =
    item.player_id == player_id
    && same_text (property_name_key host item.property_name) (property_name_key host name)

unfoldable pub assert_not_mortgaged :
    TextHost → Store → GameId → PlayerId → BankingOperationResult → Result (Unit {0})
assert_not_mortgaged host store game_id player_id result =
    throw_if
      (any (has_name host player_id (mortgage_name result)) (list_active_mortgages store game_id))
      (conflict mortgage_already_active)

-- The tile of a change is still in the state that the change expects; the table has one row per
-- tile.
unfoldable pub is_unchanged : List GameProperty → PropertyChange → Bool
is_unchanged registry change = elim (find (λ row. row.tile_id == change.tile_id) registry) [
  | none ↦ false
  | some row ↦ same_state (state_of_row row) change.before
]

unfoldable pub assert_registry_matches : List GameProperty → List PropertyChange → Result (Unit {0})
assert_registry_matches registry [] = ok tt
assert_registry_matches registry (change ∷ changes) = do
  throw_if (not (is_unchanged registry change)) (conflict property_changed)
  assert_registry_matches registry changes
