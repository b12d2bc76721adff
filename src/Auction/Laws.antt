-- ===== src/Auction/Laws.antt =====
-- What a bid and a reserve promise: a bid that is taken can be paid, and the leader keeps it.
use monopoly_bank.Prelude.{◌<◌, ◌≡◌, refl, ◌↔◌, true, false, some, List, [], ◌∷◌, arith, any, All}
use monopoly_bank.Prelude.Int.{ℤ, pos, ◌+ℤ◌, ◌-ℤ◌, ◌≤ℤ◌, ◌<ℤ◌, eqb_ℤ, max_ℤ}
use monopoly_bank.Types.{Auction}
use monopoly_bank.Outcome.{ok, >>=-eq-ok}
use monopoly_bank.Money.{is_safe_integer}
use monopoly_bank.Banking.Pending.{PlayerBalanceChange}
use monopoly_bank.Banking.Guards.{is_bankrupt}
use monopoly_bank.Property.Lookup.{is_owner}
use monopoly_bank.Auction.Defs.{
  is_running, auction_reserve, is_auction_open, next_bid, PlaceBidCommand, validate_bid,
  check_reserve, check_reserves, assert_reserve_respected,
}

-- What `assertReserveRespected` asks of one balance change.
abbrev pub Leaves : Auction → PlayerBalanceChange → Type 0
Leaves auction change =
    change.balance_after <ℤ change.balance_before
    → pos 0 <ℤ auction_reserve (some auction) change.player.id
    → auction_reserve (some auction) change.player.id ≤ℤ change.balance_after

check_reserve-Leaves :
    (auction : Auction) (change : PlayerBalanceChange)
    → check_reserve auction change ≡ ok tt
    → Leaves auction change
unfolding check_reserve
check_reserve-Leaves auction change h = ground arith

Leaves-check_reserve :
    (auction : Auction) (change : PlayerBalanceChange)
    → Leaves auction change
    → check_reserve auction change ≡ ok tt
unfolding check_reserve
Leaves-check_reserve auction change h = ground arith

check_reserves-All :
    (auction : Auction) (changes : List PlayerBalanceChange)
    → check_reserves auction changes ≡ ok tt
    → All (Leaves auction) changes
unfolding check_reserves
check_reserves-All auction [] h = tt
check_reserves-All auction (change ∷ changes) h =
    let (_, first, rest) = >>=-eq-ok (check_reserve auction change) _ h in
    (check_reserve-Leaves auction change (cc), check_reserves-All auction changes rest)

All-check_reserves :
    (auction : Auction) (changes : List PlayerBalanceChange)
    → All (Leaves auction) changes
    → check_reserves auction changes ≡ ok tt
unfolding check_reserves
All-check_reserves auction [] h = refl
All-check_reserves auction (change ∷ changes) (h, hs) =
    rw (Leaves-check_reserve auction change h) (All-check_reserves auction changes hs)

-- The reserve of a running auction is respected exactly when every balance change that lowers the
-- balance of a player with a reserve leaves at least that reserve.
pub assert_reserve_respected_iff :
    (changes : List PlayerBalanceChange) (auction : Auction)
    → (assert_reserve_respected changes (some auction) ≡ ok tt) ↔ All (Leaves auction) changes
unfolding assert_reserve_respected
assert_reserve_respected_iff changes auction =
    (check_reserves-All auction changes, All-check_reserves auction changes)

-- The conditions of a bid, and the amount that it puts down.
pub record Bids (c : PlaceBidCommand) (bid : ℤ) : Type 0 where
  pub step_offered : any (λ step. eqb_ℤ step c.step) c.settings.auction_bid_steps ≡ true
  pub running : is_running c.auction.state ≡ true
  pub in_time : c.now < c.auction.ends_at
  pub current : c.expected_version ≡ c.auction.version
  pub solvent : is_bankrupt c.bidder ≡ false
  pub not_leading : is_owner c.auction.current_bidder_id c.bidder.id ≡ false
  pub amount : bid ≡ max_ℤ (c.auction.current_bid +ℤ c.step) c.settings.auction_min_bid
  pub safe : is_safe_integer bid ≡ true
  pub covered : bid ≤ℤ c.bidder.balance -ℤ c.reserved_by_requests

validate_bid-Bids : (c : PlaceBidCommand) (bid : ℤ) → validate_bid c ≡ ok bid → Bids c bid
unfolding validate_bid next_bid is_auction_open
validate_bid-Bids c bid h = ground arith

Bids-validate_bid : (c : PlaceBidCommand) (bid : ℤ) → Bids c bid → validate_bid c ≡ ok bid
unfolding validate_bid next_bid is_auction_open
Bids-validate_bid c bid b = ground arith

-- A bid is taken exactly when its step is offered, the auction runs and has not ended, the bidder
-- has seen its latest version, is not bankrupt and does not lead already, and the next bid is a
-- safe amount that the balance covers beside the bidder's requests; the bid is then the current one
-- plus the step, or the least bid if that is more.
pub validate_bid_iff : (c : PlaceBidCommand) (bid : ℤ) → (validate_bid c ≡ ok bid) ↔ Bids c bid
validate_bid_iff c bid = (validate_bid-Bids c bid, Bids-validate_bid c bid)
