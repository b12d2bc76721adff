-- ===== src/Banking/Effects/Barter.antt =====
-- What a trade hands over, and what it costs both sides together.
use mathlib.Core.Path.{ap₂}
use monopoly_bank.Prelude.{
  ◌≡◌, refl, ap, ◌∙◌, inl, inr, true, false, some, List, [], ◌∷◌, ◌++◌, map, arith, ◌==◌,
  Bool-cases, All,
}
use monopoly_bank.Prelude.Int.{ℤ, pos, ◌+ℤ◌, ◌-ℤ◌, neg, int_laws, sum}
use monopoly_bank.Types.{TileId, PropertyTile, BoardSnapshot, PlayerId, Player, GameProperty}
use monopoly_bank.Outcome.{ok, >>=-eq-ok, ok-injective, Result-cases}
use monopoly_bank.Property.Lookup.{is_owner, require_tile, state_of}
use monopoly_bank.Money.{redemption_cost}
use monopoly_bank.Property.Changes.{owner_change}
use monopoly_bank.Banking.Command.{TransferPropertiesCommand}
use monopoly_bank.Banking.Pending.{PlayerBalanceChange, BankingOperationResult}
use monopoly_bank.Banking.Deltas.{participant_of}
use monopoly_bank.Banking.Trade.{
  Move, mortgage_transfer_fee, move_tile, move_tiles, proposer_fees, counterparty_fees,
  transfer_properties,
}
use monopoly_bank.Banking.Effects.Flow.{net_of, net}
use monopoly_bank.Banking.Effects.Changes.{create_balance_change-delta}
use monopoly_bank.Banking.Effects.Exchange.{Trade, transfer_properties-Trade}

-- A move of a tile: the giver owns it, it goes to the receiver with its level and its mortgage, and
-- it costs the interest of its redemption when it is mortgaged, and nothing when it is not.
pub record Hands (board : BoardSnapshot) (registry : List GameProperty) (from to : Player)
    (move : Move) : Type 0 where
  pub current : move.change.before ≡ state_of registry move.change.tile_id
  pub owned : is_owner move.change.before.owner_player_id from.id ≡ true
  pub received : move.change.after.owner_player_id ≡ some to.id
  pub mortgage : move.change.after.mortgaged ≡ move.change.before.mortgaged
  pub level : move.change.after.houses ≡ move.change.before.houses
  pub receiver : move.receiver ≡ to.id
  pub free : move.change.before.mortgaged ≡ false → move.fee ≡ pos 0
  pub charged :
      move.change.before.mortgaged ≡ true
      → (tile : PropertyTile) × ((require_tile board move.change.tile_id ≡ ok tile)
          × (move.fee ≡ redemption_cost tile.mortgage -ℤ tile.mortgage))

-- The tile that a move is about.
abbrev pub tile_of : Move → TileId
tile_of move = move.change.tile_id

move_tile-charged :
    (board : BoardSnapshot) (registry : List GameProperty) (from to : Player) (tile_id : TileId)
    (move : Move)
    → move_tile board registry from to tile_id ≡ ok move
    → move.change.before.mortgaged ≡ true
    → (tile : PropertyTile) × ((require_tile board move.change.tile_id ≡ ok tile)
        × (move.fee ≡ redemption_cost tile.mortgage -ℤ tile.mortgage))
unfolding move_tile owner_change mortgage_transfer_fee
move_tile-charged board registry from to tile_id move h m =
    elim (Result-cases (require_tile board tile_id)) [
      | inl (tile, found) ↦ (tile, (ground arith, ground arith))
      | inr (e, failed) ↦ absurd (ground arith)
    ]

move_tile-Hands :
    (board : BoardSnapshot) (registry : List GameProperty) (from to : Player) (tile_id : TileId)
    (move : Move)
    → move_tile board registry from to tile_id ≡ ok move
    → Hands board registry from to move × (move.change.tile_id ≡ tile_id)
unfolding move_tile owner_change
move_tile-Hands board registry from to tile_id move h =
    let fee = move_tile-charged board registry from to tile_id move h in
    (
      record {
        current = ground arith;
        owned = ground arith;
        received = ground arith;
        mortgage = ground arith;
        level = ground arith;
        receiver = ground arith;
        free = ground arith;
        charged = fee;
      },
      ground arith,
    )

move_tiles-Hands :
    (board : BoardSnapshot) (registry : List GameProperty) (from to : Player)
    (tile_ids : List TileId) (moves : List Move)
    → move_tiles board registry from to tile_ids ≡ ok moves
    → All (Hands board registry from to) moves × (map tile_of moves ≡ tile_ids)
unfolding move_tiles
move_tiles-Hands board registry from to [] moves h = rw (← ok-injective h) (tt, refl)
move_tiles-Hands board registry from to (tile_id ∷ tile_ids) moves h =
    let (move, one, h1) = >>=-eq-ok (move_tile board registry from to tile_id) _ h in
    let (rest, more, h2) = >>=-eq-ok (move_tiles board registry from to tile_ids) _ h1 in
    let (hands, named) = move_tile-Hands board registry from to tile_id move one in
    let (all_hands, all_named) = move_tiles-Hands board registry from to tile_ids rest more in
    rw (← ok-injective h2) ((hands, all_hands), ap₂ ◌∷◌ named all_named)

-- The moves of one side of a trade: exactly its tiles, each handed over.
abbrev pub AllHanded :
    TransferPropertiesCommand → Player → Player → List TileId → List Move → Type 0
AllHanded c from to tile_ids moves =
    All (Hands c.property.board c.property.registry from to) moves × (map tile_of moves ≡ tile_ids)

abbrev pub fees : List Move → ℤ
fees moves = sum (map (λ move. move.fee) moves)

first_pays : (fee a b : ℤ) → (fee +ℤ a) +ℤ (pos 0 +ℤ b) ≡ fee +ℤ (a +ℤ b)
first_pays fee a b = omega int_laws

second_pays : (fee a b : ℤ) → (pos 0 +ℤ a) +ℤ (fee +ℤ b) ≡ fee +ℤ (a +ℤ b)
second_pays fee a b = omega int_laws

-- The cash cancels, and the fees of both sides are left.
cash_cancels : (give take a b : ℤ) → (take -ℤ give -ℤ a) +ℤ (give -ℤ take -ℤ b) ≡ neg (a +ℤ b)
cash_cancels give take a b = omega int_laws

fees-split :
    (proposer : PlayerId) (moves : List Move)
    → proposer_fees proposer moves +ℤ counterparty_fees proposer moves ≡ fees moves
unfolding proposer_fees counterparty_fees sum
fees-split proposer [] = omega int_laws
fees-split proposer (move ∷ moves) =
    let rest = fees-split proposer moves in
    elim (Bool-cases (move.receiver == proposer)) [
      | inl own ↦ rw (own, ← rest) (first_pays move.fee _ _)
      | inr other ↦ rw (other, ← rest) (second_pays move.fee _ _)
    ]

net_of-pair :
    (own other : PlayerBalanceChange)
    → net_of (map participant_of (own ∷ other ∷ [])) ≡ own.balance_delta +ℤ other.balance_delta
unfolding net_of sum
net_of-pair own other = omega int_laws

-- A trade that returns hands exactly the tiles given, in their order, from the proposer, who owns
-- them, to the counterparty, and exactly the tiles taken the other way, each with its level and its
-- mortgage; and its deltas sum to what both sides pay the bank in fees, whatever cash changes
-- hands: a mortgaged tile costs its redemption less its mortgage value, any other tile nothing.
pub transfer_properties-Hands :
    (c : TransferPropertiesCommand) (r : BankingOperationResult)
    → transfer_properties c ≡ ok r
    → (t : Trade c r) × (AllHanded c t.proposer t.counterparty c.give_tile_ids t.given
        × (AllHanded c t.counterparty t.proposer c.take_tile_ids t.taken
            × (net r ≡ neg (fees (t.given ++ t.taken)))))
transfer_properties-Hands c r h =
    let t = transfer_properties-Trade c r h in
    let moves = t.given ++ t.taken in
    let own = create_balance_change-delta t.proposer _ t.own t.trades.own_made in
    let other = create_balance_change-delta t.counterparty _ t.other t.trades.other_made in
    let split = fees-split t.proposer.id moves in
    (
      t,
      (
        move_tiles-Hands c.property.board c.property.registry t.proposer t.counterparty
            c.give_tile_ids t.given t.sides.gives,
        (
          move_tiles-Hands c.property.board c.property.registry t.counterparty t.proposer
              c.take_tile_ids t.taken t.sides.takes,
          ap net_of (t.trades.recorded ∙ ap (map participant_of) t.trades.affected)
              ∙ net_of-pair t.own t.other
              ∙ ap₂ ◌+ℤ◌ own other
              ∙ cash_cancels c.cash_give c.cash_take _ _
              ∙ ap neg split,
        ),
      ),
    )
