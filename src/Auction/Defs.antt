-- ===== src/Auction/Defs.antt =====
-- shared/domain/auction-rules.ts and auction.ts. A time is a number of milliseconds.
use monopoly_bank.Prelude.{
  ℕ, Bool, true, false, not, ◌&&◌, Option, none, some, List, [], ◌∷◌, ltb, leb, ◌==◌, if◌then◌else◌,
  find, any,
}
use monopoly_bank.Prelude.Int.{ℤ, pos, ◌+ℤ◌, ◌-ℤ◌, ltb_ℤ, leb_ℤ, eqb_ℤ, max_ℤ}
use monopoly_bank.Types.{
  TileId, PlayerId, PlayerStatus, GameSettings, Game, Player, PropertyContext, AuctionState,
  Auction,
}
use monopoly_bank.Outcome.{
  invalid_amount, player_bankrupt, auction_closed, auction_already_leading, auction_bid_stale,
  invalid_bid_step, insufficient_available_funds, Result, ok, ◌>>=◌, ◌>>◌, throw_if,
}
use monopoly_bank.Money.{is_safe_integer}
use monopoly_bank.Property.Lookup.{is_owner, state_of}
use monopoly_bank.Reversal.{is_set}
use monopoly_bank.Banking.Pending.{PlayerBalanceChange, BankingOperationResult}
use monopoly_bank.Banking.Guards.{is_bankrupt, is_active_game}
use monopoly_bank.Banking.Holdings.{pay_auction}

abbrev pub is_running : AuctionState → Bool
is_running AuctionState.active = true
is_running AuctionState.sold = false
is_running AuctionState.no_sale = false

unfoldable pub auction_reserve : Option Auction → PlayerId → ℤ
auction_reserve none player_id = pos 0
auction_reserve (some auction) player_id =
    if not (is_running auction.state)
    then pos 0
    else if is_owner auction.current_bidder_id player_id
    then auction.current_bid
    else pos 0

unfoldable pub is_auction_open : Auction → ℕ → Bool
is_auction_open auction now = is_running auction.state && ltb now auction.ends_at

unfoldable is_auction_due : Auction → ℕ → Bool
is_auction_due auction now = is_running auction.state && leb auction.ends_at now

unfoldable pub next_bid : Auction → ℤ → GameSettings → ℤ
next_bid auction step settings = max_ℤ (auction.current_bid +ℤ step) settings.auction_min_bid

pub record PlaceBidCommand : Type 0 where
  pub auction : Auction
  pub settings : GameSettings
  pub bidder : Player
  pub expected_version : ℕ
  pub step : ℤ
  pub reserved_by_requests : ℤ
  pub now : ℕ

unfoldable pub validate_bid : PlaceBidCommand → Result ℤ
validate_bid c = do
  throw_if (not (any (λ step. eqb_ℤ step c.step) c.settings.auction_bid_steps))
      (invalid_bid_step c.step)
  throw_if (not (is_auction_open c.auction c.now)) (auction_closed c.auction.id)
  throw_if (not (c.expected_version == c.auction.version)) (auction_bid_stale c.auction)
  throw_if (is_bankrupt c.bidder) (player_bankrupt c.bidder.id)
  throw_if (is_owner c.auction.current_bidder_id c.bidder.id) (auction_already_leading c.bidder.id)
  let bid = next_bid c.auction c.step c.settings
  throw_if (not (is_safe_integer bid)) (invalid_amount bid)
  let available = c.bidder.balance -ℤ c.reserved_by_requests
  throw_if (ltb_ℤ available bid) (insufficient_available_funds c.bidder.id available bid)
  ok bid

-- The body of the loop of `assertReserveRespected`.
unfoldable pub check_reserve : Auction → PlayerBalanceChange → Result (Unit {0})
check_reserve auction change =
    let reserve = auction_reserve (some auction) change.player.id in
    throw_if
      (ltb_ℤ change.balance_after change.balance_before
        && (ltb_ℤ (pos 0) reserve && ltb_ℤ change.balance_after reserve))
      (insufficient_available_funds change.player.id (change.balance_before -ℤ reserve)
        (change.balance_before -ℤ change.balance_after))

unfoldable pub check_reserves : Auction → List PlayerBalanceChange → Result (Unit {0})
check_reserves auction [] = ok tt
check_reserves auction (change ∷ changes) = do
  check_reserve auction change
  check_reserves auction changes

unfoldable pub assert_reserve_respected :
    List PlayerBalanceChange → Option Auction → Result (Unit {0})
assert_reserve_respected changes none = ok tt
assert_reserve_respected changes (some auction) = check_reserves auction changes

pub data AuctionSettlementPlan : Type 0 where
  sold : BankingOperationResult → AuctionSettlementPlan
  no_sale : AuctionSettlementPlan

abbrev pub find_leader : List Player → Option PlayerId → Option Player
find_leader players none = none
find_leader players (some id) = find (λ player. player.id == id) players

abbrev is_active_player : Player → Bool
is_active_player player = elim player.status [
  | none ↦ false
  | some status ↦ elim status [ PlayerStatus.active ↦ true | PlayerStatus.bankrupt ↦ false ]
]

-- A tile that is no longer unowned, or cannot be checked, is not sold.
unfoldable pub is_sellable : Option TileId → Option PropertyContext → Bool
is_sellable none property = true
is_sellable (some tile_id) none = false
is_sellable (some tile_id) (some property) =
    not (is_set (state_of property.registry tile_id).owner_player_id)

unfoldable pub can_pay : Game → Auction → Player → Bool
can_pay game auction leader =
    is_active_game game.status
    && (is_active_player leader
        && (ltb_ℤ (pos 0) auction.current_bid && leb_ℤ auction.current_bid leader.balance))

unfoldable pub plan_auction_settlement :
    Game → List Player → Auction → Option PropertyContext → Result AuctionSettlementPlan
plan_auction_settlement game players auction property =
    elim (find_leader players auction.current_bidder_id) [
      | none ↦ ok AuctionSettlementPlan.no_sale
      | some leader ↦
          if can_pay game auction leader && is_sellable auction.tile_id property
          then (pay_auction (record {
            game = game;
            players = players;
            player_id = leader.id;
            amount = auction.current_bid;
            lot_name = auction.lot_name;
            tile_id = auction.tile_id;
            property = property;
          })
              >>= λ result. ok (AuctionSettlementPlan.sold result))
          else ok AuctionSettlementPlan.no_sale
    ]
