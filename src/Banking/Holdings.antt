-- ===== src/Banking/Holdings.antt =====
-- shared/domain/banking.ts: purchases, auctions, mortgages, redemptions and rent.
use monopoly_bank.Prelude.{
  String, true, false, not, ◌&&◌, ◌||◌, Option, none, some, [], ◌∷◌, ◌==◌, if◌then◌else◌, get_or,
}
use monopoly_bank.Prelude.Int.{eqb_ℤ}
use monopoly_bank.Types.{
  TileId, PlayerId, PropertyState, PropertyContext, TransactionType, pay_rent, mortgage_redemption,
  auction_payment, property_purchase,
}
use monopoly_bank.Outcome.{
  status_is, needs_registry, invalid_game_state, invalid_property_name, mortgage_not_found,
  property_not_owned, property_mortgaged, property_already_owned, dice_sum, Result, ok, err, ◌>>=◌,
  ◌>>◌, throw_if,
}
use monopoly_bank.Money.{redemption_cost, TextHost, normalize_property_name}
use monopoly_bank.Property.Lookup.{is_owner, require_tile, state_of, assert_can_mortgage}
use monopoly_bank.Property.Changes.{owner_change, mortgage_change}
use monopoly_bank.Property.Plan.{purchase_price}
use monopoly_bank.Property.Blockers.{is_utility}
use monopoly_bank.Property.Rent.{is_some, rent_for}
use monopoly_bank.Banking.Command.{
  AuctionPaymentCommand, MortgageTileCommand, PropertyPurchaseCommand, PayRentCommand,
  MortgagePropertyCommand, RedeemMortgageCommand,
}
use monopoly_bank.Banking.Pending.{NewMortgage, BankingOperationResult}
use monopoly_bank.Banking.Guards.{
  is_active_game, validate_game, validate_amount, find_player, ensure_different_players,
  ensure_sufficient_funds, ensure_active,
}
use monopoly_bank.Banking.Deltas.{transfer_deltas, apply_deltas, create_result, with_property}

-- `if (state.ownerPlayerId !== null) throw new PropertyAlreadyOwnedError(...)`
unfoldable pub ensure_unowned : TileId → PropertyState → Result (Unit {0})
ensure_unowned tile_id state = elim state.owner_player_id [
  | none ↦ ok tt
  | some owner ↦ err (property_already_owned tile_id owner)
]

-- The second half of `auctionPayment`, for a board tile.
unfoldable pub hand_over :
    BankingOperationResult
    → TileId
    → Option PropertyContext
    → PlayerId
    → Result BankingOperationResult
hand_over result tile_id none winner = err (invalid_game_state needs_registry)
hand_over result tile_id (some property) winner = do
  tile ← require_tile property.board tile_id
  let state = state_of property.registry tile_id
  ensure_unowned tile_id state
  ok (with_property result tile_id (owner_change tile_id state (some winner) ∷ []))

abbrev auction_type : Option TileId → TransactionType
auction_type none = auction_payment
auction_type (some _) = property_purchase

unfoldable pub pay_auction : AuctionPaymentCommand → Result BankingOperationResult
pay_auction c = do
  players ← validate_game c.game c.players
  validate_amount c.amount
  player ← find_player players c.player_id
  ensure_active player
  ensure_sufficient_funds player c.amount
  changes ← apply_deltas players (transfer_deltas (some player.id) none c.amount)
  let result =
      create_result c.game.id (auction_type c.tile_id) c.amount c.amount (some c.lot_name) changes
  elim c.tile_id [ none ↦ ok result | some tile_id ↦ hand_over result tile_id c.property player.id ]

unfoldable pub purchase_property : PropertyPurchaseCommand → Result BankingOperationResult
purchase_property c = do
  players ← validate_game c.game c.players
  list_price ← purchase_price c.property.board c.tile_id
  validate_amount list_price
  elim c.price_override [ none ↦ ok tt | some price ↦ validate_amount price ]
  let price = get_or c.price_override list_price
  let state = state_of c.property.registry c.tile_id
  ensure_unowned c.tile_id state
  player ← find_player players c.player_id
  ensure_active player
  ensure_sufficient_funds player price
  changes ← apply_deltas players (transfer_deltas (some player.id) none price)
  let result = create_result c.game.id property_purchase price price c.comment changes
  let purchase = with_property result c.tile_id (owner_change c.tile_id state (some player.id) ∷ [])
  ok (
      if eqb_ℤ price list_price then purchase else record purchase {
        transaction = record purchase.transaction { price_overridden = true };
      })

abbrev with_mortgage : BankingOperationResult → NewMortgage → BankingOperationResult
with_mortgage result new_mortgage = record result {
  transaction = record result.transaction { new_mortgage = some new_mortgage };
}

abbrev or_invalid_name : Option String → Result String
or_invalid_name none = err invalid_property_name
or_invalid_name (some name) = ok name

unfoldable pub mortgage_property :
    TextHost → MortgagePropertyCommand → Result BankingOperationResult
mortgage_property host c = do
  players ← validate_game c.game c.players
  validate_amount c.amount
  validate_amount (redemption_cost c.amount)
  property_name ← or_invalid_name (normalize_property_name host c.property_name)
  player ← find_player players c.player_id
  ensure_active player
  changes ← apply_deltas players (transfer_deltas none (some player.id) c.amount)
  let result =
      create_result c.game.id TransactionType.mortgage c.amount c.amount (some property_name)
        changes
  ok (
      with_mortgage result (record {
        player_id = player.id;
        property_name = property_name;
        mortgage_value = c.amount;
        tile_id = none;
      }))

-- `newMortgage === undefined ? withTile : { ..., newMortgage: { ...newMortgage, tileId } }`
abbrev on_tile : BankingOperationResult → Option NewMortgage → TileId → BankingOperationResult
on_tile result none tile_id = result
on_tile result (some new_mortgage) tile_id =
    with_mortgage result (record new_mortgage { tile_id = some tile_id })

unfoldable pub mortgage_tile : TextHost → MortgageTileCommand → Result BankingOperationResult
mortgage_tile host c = do
  tile ← require_tile c.property.board c.tile_id
  throw_if (not (is_active_game c.game.status)) (invalid_game_state (status_is c.game.status))
  assert_can_mortgage c.property c.tile_id c.player_id
  result ← mortgage_property host (record {
    game = c.game;
    players = c.players;
    player_id = c.player_id;
    property_name = tile.name;
    amount = tile.mortgage;
  })
  let state = state_of c.property.registry c.tile_id
  let with_tile = with_property result tile.id (mortgage_change tile.id state true ∷ [])
  ok (on_tile with_tile result.transaction.new_mortgage tile.id)

-- The last part of `redeemMortgage`: the registry flag of a board tile turns off.
unfoldable pub release_tile :
    BankingOperationResult
    → Option TileId
    → Option PropertyContext
    → PlayerId
    → Result BankingOperationResult
release_tile redeemed none property player_id = ok redeemed
release_tile redeemed (some tile_id) none player_id = err (invalid_game_state needs_registry)
release_tile redeemed (some tile_id) (some property) player_id = do
  let state = state_of property.registry tile_id
  throw_if (not (is_owner state.owner_player_id player_id) || not state.mortgaged)
      (property_not_owned tile_id)
  ok (with_property redeemed tile_id (mortgage_change tile_id state false ∷ []))

unfoldable pub redeem_mortgage : RedeemMortgageCommand → Result BankingOperationResult
redeem_mortgage c = do
  players ← validate_game c.game c.players
  throw_if (not (c.mortgage.game_id == c.game.id) || not (c.mortgage.player_id == c.player_id))
      (mortgage_not_found c.mortgage.id)
  let cost = redemption_cost c.mortgage.mortgage_value
  validate_amount cost
  player ← find_player players c.player_id
  ensure_active player
  ensure_sufficient_funds player cost
  changes ← apply_deltas players (transfer_deltas (some player.id) none cost)
  let result =
      create_result c.game.id mortgage_redemption cost cost (some c.mortgage.property_name) changes
  let redeemed = record result {
    transaction = record result.transaction { redeemed_mortgage_id = some c.mortgage.id };
  }
  release_tile redeemed c.mortgage.tile_id c.property player.id

-- The tests of `payRent` on the tile, which hand on its owner.
unfoldable pub require_owner : TileId → PropertyState → Result PlayerId
require_owner tile_id state = elim state.owner_player_id [
  | none ↦ err (property_not_owned tile_id)
  | some owner ↦ ok owner
]

unfoldable pub rent_payment : PayRentCommand → Result BankingOperationResult
rent_payment c = do
  players ← validate_game c.game c.players
  tile ← require_tile c.property.board c.tile_id
  throw_if (not (is_utility tile.type) && is_some c.dice_sum_given) (dice_sum false)
  let state = state_of c.property.registry c.tile_id
  owner_id ← require_owner c.tile_id state
  throw_if state.mortgaged (property_mortgaged c.tile_id)
  payer ← find_player players c.payer_player_id
  owner ← find_player players owner_id
  ensure_active payer
  ensure_active owner
  ensure_different_players payer owner
  elim c.dice_sum_given [ none ↦ ok tt | some dice ↦ validate_amount dice ]
  rent ← rent_for c.property.board c.property.registry c.tile_id c.dice_sum_given
  validate_amount rent
  ensure_sufficient_funds payer rent
  changes ← apply_deltas players (transfer_deltas (some payer.id) (some owner.id) rent)
  let result = create_result c.game.id pay_rent rent rent c.comment changes
  ok (record result { transaction = record result.transaction { tile_id = some c.tile_id } })
