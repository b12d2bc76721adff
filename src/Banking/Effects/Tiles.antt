-- ===== src/Banking/Effects/Tiles.antt =====
-- The deltas that each operation on tiles applies, by the amount that it records.
use monopoly_bank.Prelude.{◌≡◌, none, some, arith}
use monopoly_bank.Outcome.{ok}
use monopoly_bank.Money.{redemption_cost, TextHost}
use monopoly_bank.Property.Lookup.{state_of}
use monopoly_bank.Banking.Command.{
  AuctionPaymentCommand, MortgageTileCommand, PropertyPurchaseCommand, BuildPropertyCommand,
  PayRentCommand, MortgagePropertyCommand, RedeemMortgageCommand,
}
use monopoly_bank.Banking.Pending.{BankingOperationResult}
use monopoly_bank.Banking.Deltas.{transfer_deltas, create_result, with_property}
use monopoly_bank.Banking.Holdings.{
  hand_over, pay_auction, purchase_property, mortgage_property, mortgage_tile, release_tile,
  redeem_mortgage, require_owner, rent_payment,
}
use monopoly_bank.Banking.Trade.{with_buildings, build_property, sell_building}
use monopoly_bank.Banking.Effects.Changes.{find_player-id}
use monopoly_bank.Banking.Effects.Applies.{Applies, validate_game-eq}

pub pay_auction-Applies :
    (c : AuctionPaymentCommand) (r : BankingOperationResult)
    → pay_auction c ≡ ok r
    → Applies c.game c.players (transfer_deltas (some c.player_id) none c.amount) r
unfolding pay_auction create_result hand_over with_property
pay_auction-Applies c r h = grind (arith, find_player-id, validate_game-eq)

pub purchase_property-Applies :
    (c : PropertyPurchaseCommand) (r : BankingOperationResult)
    → purchase_property c ≡ ok r
    → Applies c.game c.players (transfer_deltas (some c.player_id) none r.transaction.amount) r
unfolding purchase_property create_result with_property
purchase_property-Applies c r h = grind (arith, find_player-id, validate_game-eq)

pub mortgage_property-Applies :
    (host : TextHost) (c : MortgagePropertyCommand) (r : BankingOperationResult)
    → mortgage_property host c ≡ ok r
    → Applies c.game c.players (transfer_deltas none (some c.player_id) c.amount) r
unfolding mortgage_property create_result
mortgage_property-Applies host c r h = grind (arith, find_player-id, validate_game-eq)

pub mortgage_tile-Applies :
    (host : TextHost) (c : MortgageTileCommand) (r : BankingOperationResult)
    → mortgage_tile host c ≡ ok r
    → Applies c.game c.players (transfer_deltas none (some c.player_id) r.transaction.amount) r
unfolding mortgage_tile mortgage_property create_result with_property
mortgage_tile-Applies host c r h = grind (arith, find_player-id, validate_game-eq)

pub redeem_mortgage-Applies :
    (c : RedeemMortgageCommand) (r : BankingOperationResult)
    → redeem_mortgage c ≡ ok r
    → Applies c.game c.players
        (transfer_deltas (some c.player_id) none (redemption_cost c.mortgage.mortgage_value))
        r
unfolding redeem_mortgage create_result release_tile with_property
redeem_mortgage-Applies c r h = grind (arith, find_player-id, validate_game-eq)

pub rent_payment-Applies :
    (c : PayRentCommand) (r : BankingOperationResult)
    → rent_payment c ≡ ok r
    → Applies c.game c.players
        (transfer_deltas
          (some c.payer_player_id)
          (state_of c.property.registry c.tile_id).owner_player_id
          r.transaction.amount)
        r
unfolding rent_payment create_result require_owner
rent_payment-Applies c r h = grind (arith, find_player-id, validate_game-eq)

pub build_property-Applies :
    (c : BuildPropertyCommand) (r : BankingOperationResult)
    → build_property c ≡ ok r
    → Applies c.game c.players (transfer_deltas (some c.player_id) none r.transaction.amount) r
unfolding build_property create_result with_property with_buildings
build_property-Applies c r h = grind (arith, find_player-id, validate_game-eq)

pub sell_building-Applies :
    (c : BuildPropertyCommand) (r : BankingOperationResult)
    → sell_building c ≡ ok r
    → Applies c.game c.players (transfer_deltas none (some c.player_id) r.transaction.amount) r
unfolding sell_building create_result with_property with_buildings
sell_building-Applies c r h = grind (arith, find_player-id, validate_game-eq)
