-- ===== src/Auction/Safety.antt =====
-- The leader of an auction can pay: operations that respect the reserve keep the bid covered, and a
-- covered bid on a free-text lot is sold.
use monopoly_bank.Prelude.{◌≡◌, true, some, List, [], ◌∷◌, arith, All}
use monopoly_bank.Prelude.Int.{◌≤ℤ◌}
use monopoly_bank.Types.{Player, Auction}
use monopoly_bank.Outcome.{ok}
use monopoly_bank.Money.{TextHost}
use monopoly_bank.Property.Lookup.{is_owner}
use monopoly_bank.Banking.Pending.{PlayerBalanceChange, BankingOperationResult}
use monopoly_bank.Banking.Dispatch.{Operation, execute, players_of}
use monopoly_bank.Banking.Effects.Changes.{IsChange}
use monopoly_bank.Banking.Effects.Lawful.{execute-IsLawful}
use monopoly_bank.Auction.Defs.{is_running, auction_reserve, assert_reserve_respected}
use monopoly_bank.Auction.Laws.{Leaves, assert_reserve_respected_iff}

-- The leader's bid is covered after the change if it was before.
abbrev pub StaysCovered : Auction → PlayerBalanceChange → Type 0
StaysCovered auction change =
    is_owner auction.current_bidder_id change.player.id ≡ true
    → auction.current_bid ≤ℤ change.balance_before
    → auction.current_bid ≤ℤ change.balance_after

Leaves-StaysCovered :
    (players : List Player) (auction : Auction) (change : PlayerBalanceChange)
    → is_running auction.state ≡ true
    → IsChange players change
    → Leaves auction change
    → StaysCovered auction change
unfolding auction_reserve
Leaves-StaysCovered players auction change running lawful leaves leads covered =
    let nonneg = lawful.nonneg in ground arith

All-stay :
    (players : List Player) (auction : Auction) (changes : List PlayerBalanceChange)
    → is_running auction.state ≡ true
    → All (IsChange players) changes
    → All (Leaves auction) changes
    → All (StaysCovered auction) changes
All-stay players auction [] running lawful leaves = tt
All-stay players auction (change ∷ changes) running (here, later) (h, hs) = (
  Leaves-StaysCovered players auction change running here h,
  All-stay players auction changes running later hs,
)

-- While an auction runs, an operation that returns and whose balance changes respect the reserve
-- leaves the leader able to pay the current bid, if they were before.
pub execute-StaysCovered :
    (host : TextHost) (op : Operation) (r : BankingOperationResult) (auction : Auction)
    → execute host op ≡ ok r
    → is_running auction.state ≡ true
    → assert_reserve_respected r.affected_players (some auction) ≡ ok tt
    → All (StaysCovered auction) r.affected_players
execute-StaysCovered host op r auction h running respected =
    All-stay (players_of op) auction r.affected_players running
      (execute-IsLawful host op r h).changes
      ((assert_reserve_respected_iff r.affected_players auction).0 respected)
