-- ===== src/Auction/Settlement.antt =====
-- What the end of an auction does: a sale that its leader pays, or nothing.
use mathlib.Core.Path.{ap₂}
use monopoly_bank.Prelude.{
  ◌≡◌, refl, ap, ◌∙◌, inl, inr, ◌&&◌, Option, none, some, List, [], ◌∷◌, map, arith, Bool-cases,
  Option-cases,
}
use monopoly_bank.Prelude.Int.{ℤ, neg, ◌≤ℤ◌}
use monopoly_bank.Types.{
  TileId, PlayerId, Game, Player, TransactionParticipant, PropertyContext, Auction,
}
use monopoly_bank.Outcome.{ok, >>=-eq-ok, ok-injective}
use monopoly_bank.Property.Lookup.{state_of}
use monopoly_bank.Property.Changes.{owner_change}
use monopoly_bank.Banking.Command.{AuctionPaymentCommand}
use monopoly_bank.Banking.Deltas.{
  delta_for, create_balance_change, apply_deltas, transfer_deltas, participant_of, with_property,
}
use monopoly_bank.Banking.Pending.{PlayerBalanceChange, BankingOperationResult}
use monopoly_bank.Banking.Holdings.{ensure_unowned, hand_over, pay_auction}
use monopoly_bank.Banking.Guards.{find_player}
use monopoly_bank.Banking.Effects.Changes.{find_player-id, create_balance_change-delta}
use monopoly_bank.Banking.Effects.Tiles.{pay_auction-Applies}
use monopoly_bank.Auction.Defs.{
  AuctionSettlementPlan, find_leader, is_sellable, can_pay, plan_auction_settlement,
}

-- The command of the sale.
abbrev pub sale :
    Game → List Player → Auction → Option PropertyContext → Player → AuctionPaymentCommand
sale game players auction property leader = record {
  game = game;
  players = players;
  player_id = leader.id;
  amount = auction.current_bid;
  lot_name = auction.lot_name;
  tile_id = auction.tile_id;
  property = property;
}

-- The tile of a lot goes from nobody to the winner.
pub record GoesTo (r : BankingOperationResult) (tile_id : TileId)
    (property : Option PropertyContext) (winner : Player) : Type 0 where
  pub context : PropertyContext
  pub registry : property ≡ some context
  pub unowned : (state_of context.registry tile_id).owner_player_id ≡ none
  pub handed :
      r.transaction.registry_changes
      ≡ some (owner_change tile_id (state_of context.registry tile_id) (some winner.id) ∷ [])

pay_auction-GoesTo :
    (c : AuctionPaymentCommand) (r : BankingOperationResult) (tile_id : TileId) (winner : Player)
    → pay_auction c ≡ ok r
    → c.tile_id ≡ some tile_id
    → c.player_id ≡ winner.id
    → GoesTo r tile_id c.property winner
unfolding pay_auction hand_over ensure_unowned with_property
pay_auction-GoesTo c r tile_id winner h e same = elim (Option-cases c.property) [
  | inl missing ↦ absurd (ground arith)
  | inr (context, given) ↦ record {
    context = context;
    registry = given;
    unowned = grind (arith, find_player-id);
    handed = grind (arith, find_player-id);
  }
]

create_balance_change-player :
    (player : Player) (delta : ℤ) (change : PlayerBalanceChange)
    → create_balance_change player delta ≡ ok change
    → change.player ≡ player
unfolding create_balance_change
create_balance_change-player player delta change h = ground arith

-- What a single delta records.
abbrev pub single : PlayerId → ℤ → List TransactionParticipant
single id delta = record { player_id = id; balance_delta = delta } ∷ []

apply_deltas-single :
    (players : List Player) (id : PlayerId) (delta : ℤ) (changes : List PlayerBalanceChange)
    → apply_deltas players (delta_for id delta ∷ []) ≡ ok changes
    → map participant_of changes ≡ single id delta
unfolding apply_deltas
apply_deltas-single players id delta changes h =
    let (player, found, h1) = >>=-eq-ok (find_player players id) _ h in
    let (change, made, h2) = >>=-eq-ok (create_balance_change player delta) _ h1 in
    let same = create_balance_change-delta player delta change made in
    let known = create_balance_change-player player delta change made in
    rw (← ok-injective h2)
      (ap₂ single (ap (λ (p : Player). p.id) known ∙ find_player-id players id player found) same)

pay_auction-participants :
    (c : AuctionPaymentCommand) (r : BankingOperationResult)
    → pay_auction c ≡ ok r
    → r.transaction.participants ≡ single c.player_id (neg c.amount)
unfolding transfer_deltas
pay_auction-participants c r h =
    let a = pay_auction-Applies c r h in
    a.recorded
    ∙ apply_deltas-single c.players c.player_id (neg c.amount) r.affected_players a.applied

-- An auction that sells does so to its leader: the current bid, which the leader has, is taken from
-- the leader and from nobody else, and goes to the bank; and a board tile goes from nobody to the
-- leader.
pub plan_auction_settlement-sold :
    (game : Game) (players : List Player) (auction : Auction) (property : Option PropertyContext)
    (r : BankingOperationResult)
    → plan_auction_settlement game players auction property ≡ ok (AuctionSettlementPlan.sold r)
    → (leader : Player) × ((find_leader players auction.current_bidder_id ≡ some leader)
        × ((auction.current_bid ≤ℤ leader.balance)
            × ((r.transaction.participants ≡ single leader.id (neg auction.current_bid))
                × ((tile_id : TileId)
                    → auction.tile_id ≡ some tile_id
                    → GoesTo r tile_id property leader))))
unfolding plan_auction_settlement can_pay
plan_auction_settlement-sold game players auction property r h =
    elim (Option-cases (find_leader players auction.current_bidder_id)) [
      | inl nobody ↦ absurd (ground arith)
      | inr (leader, found) ↦
          let test =
            Bool-cases (can_pay game auction leader && is_sellable auction.tile_id property) in
          let (covered, paid) : (auction.current_bid ≤ℤ leader.balance)
              × (pay_auction (sale game players auction property leader) ≡ ok r) =
            ground (arith, test) in
          let c = sale game players auction property leader in
          (
            leader,
            (
              found,
              (
                covered,
                (
                  pay_auction-participants c r paid,
                  λ tile_id lot. pay_auction-GoesTo c r tile_id leader paid lot refl,
                ),
              ),
            ),
          )
    ]
