-- ===== src/Banking/Effects/Exchange.antt =====
-- What a trade that returns has established: the two sides, the moves of the tiles, and the balance
-- change of each side.
use monopoly_bank.Prelude.{◌≡◌, ◌≢◌, false, some, List, [], ◌∷◌, ◌++◌, map, arith}
use monopoly_bank.Prelude.Int.{◌-ℤ◌}
use monopoly_bank.Types.{Player}
use monopoly_bank.Outcome.{ok, must}
use monopoly_bank.Banking.Command.{TransferPropertiesCommand}
use monopoly_bank.Banking.Pending.{PlayerBalanceChange, BankingOperationResult}
use monopoly_bank.Banking.Guards.{validate_game, find_player, ensure_different_players}
use monopoly_bank.Banking.Deltas.{create_balance_change, participant_of, create_result}
use monopoly_bank.Banking.Trade.{
  Move, move_tiles, proposer_fees, counterparty_fees, has_duplicates, transfer_properties,
}
use monopoly_bank.Banking.Effects.Applies.{validate_game-eq}

pub record Trades (c : TransferPropertiesCommand) (r : BankingOperationResult)
    (proposer counterparty : Player) (given taken : List Move) (own other : PlayerBalanceChange)
    : Type 0 where
  pub valid : validate_game c.game c.players ≡ ok c.players
  pub distinct : has_duplicates (c.give_tile_ids ++ c.take_tile_ids) ≡ false
  pub own_made :
      create_balance_change proposer
        (c.cash_take -ℤ c.cash_give -ℤ proposer_fees proposer.id (given ++ taken))
      ≡ ok own
  pub other_made :
      create_balance_change counterparty
        (c.cash_give -ℤ c.cash_take -ℤ counterparty_fees proposer.id (given ++ taken))
      ≡ ok other
  pub affected : r.affected_players ≡ own ∷ other ∷ []
  pub recorded : r.transaction.participants ≡ map participant_of r.affected_players
  pub registry : r.transaction.registry_changes ≡ some (map (λ move. move.change) (given ++ taken))

pub record Sides (c : TransferPropertiesCommand) (proposer counterparty : Player)
    (given taken : List Move) : Type 0 where
  pub proposer_found : find_player c.players c.player_id ≡ ok proposer
  pub counterparty_found : find_player c.players c.counterparty_player_id ≡ ok counterparty
  pub different : proposer.id ≢ counterparty.id
  pub gives :
      move_tiles c.property.board c.property.registry proposer counterparty c.give_tile_ids
      ≡ ok given
  pub takes :
      move_tiles c.property.board c.property.registry counterparty proposer c.take_tile_ids
      ≡ ok taken

trade-valid :
    (c : TransferPropertiesCommand) (r : BankingOperationResult)
    → transfer_properties c ≡ ok r
    → validate_game c.game c.players ≡ ok c.players
unfolding transfer_properties
trade-valid c r h = grind (arith, validate_game-eq)

module _ (c : TransferPropertiesCommand) (r : BankingOperationResult)
    (h : transfer_properties c ≡ ok r) where
  trade-proposer : (p : Player) × (find_player c.players c.player_id ≡ ok p)
  unfolding transfer_properties
  trade-proposer =
      let valid = trade-valid c r h in
      must (find_player c.players c.player_id) (λ e failed. ground arith)

  trade-counterparty : (p : Player) × (find_player c.players c.counterparty_player_id ≡ ok p)
  unfolding transfer_properties
  trade-counterparty =
      let valid = trade-valid c r h in
      must (find_player c.players c.counterparty_player_id) (λ e failed. ground arith)

  module _ (proposer counterparty : Player)
      (found : find_player c.players c.player_id ≡ ok proposer)
      (found' : find_player c.players c.counterparty_player_id ≡ ok counterparty) where
    trade-different : proposer.id ≢ counterparty.id
    unfolding transfer_properties ensure_different_players
    trade-different = let valid = trade-valid c r h in λ same. ground arith

    trade-given :
        (moves : List Move) × (move_tiles c.property.board c.property.registry proposer counterparty
            c.give_tile_ids
          ≡ ok moves)
    unfolding transfer_properties
    trade-given = let valid = trade-valid c r h in must _ (λ e failed. ground arith)

    trade-taken :
        (moves : List Move) × (move_tiles c.property.board c.property.registry counterparty proposer
            c.take_tile_ids
          ≡ ok moves)
    unfolding transfer_properties
    trade-taken = let valid = trade-valid c r h in must _ (λ e failed. ground arith)

    module _ (given taken : List Move)
        (gives : move_tiles c.property.board c.property.registry proposer counterparty
            c.give_tile_ids
          ≡ ok given)
        (takes : move_tiles c.property.board c.property.registry counterparty proposer
            c.take_tile_ids
          ≡ ok taken) where
      trade-own :
          (own : PlayerBalanceChange) × (create_balance_change proposer
              (c.cash_take -ℤ c.cash_give -ℤ proposer_fees proposer.id (given ++ taken))
            ≡ ok own)
      unfolding transfer_properties
      trade-own = let valid = trade-valid c r h in must _ (λ e failed. ground arith)

      trade-other :
          (other : PlayerBalanceChange) × (create_balance_change counterparty
              (c.cash_give -ℤ c.cash_take -ℤ counterparty_fees proposer.id (given ++ taken))
            ≡ ok other)
      unfolding transfer_properties
      trade-other =
          let valid = trade-valid c r h in
          let (own, own_made) = trade-own in must _ (λ e failed. ground arith)

      trade-Trades :
          (own other : PlayerBalanceChange)
          → create_balance_change proposer
              (c.cash_take -ℤ c.cash_give -ℤ proposer_fees proposer.id (given ++ taken))
            ≡ ok own
          → create_balance_change counterparty
              (c.cash_give -ℤ c.cash_take -ℤ counterparty_fees proposer.id (given ++ taken))
            ≡ ok other
          → Trades c r proposer counterparty given taken own other
      unfolding transfer_properties create_result
      trade-Trades own other own_made other_made = let valid = trade-valid c r h in ground arith

-- Everything that a trade that returns has established.
pub record Trade (c : TransferPropertiesCommand) (r : BankingOperationResult) : Type 0 where
  pub proposer : Player
  pub counterparty : Player
  pub given : List Move
  pub taken : List Move
  pub own : PlayerBalanceChange
  pub other : PlayerBalanceChange
  pub sides : Sides c proposer counterparty given taken
  pub trades : Trades c r proposer counterparty given taken own other

pub transfer_properties-Trade :
    (c : TransferPropertiesCommand) (r : BankingOperationResult)
    → transfer_properties c ≡ ok r
    → Trade c r
transfer_properties-Trade c r h =
    let (p, found) = trade-proposer c r h in
    let (q, found') = trade-counterparty c r h in
    let (given, gives) = trade-given c r h p q found found' in
    let (taken, takes) = trade-taken c r h p q found found' in
    let (own, own_made) = trade-own c r h p q found found' given taken gives takes in
    let (other, other_made) = trade-other c r h p q found found' given taken gives takes in
    record {
      proposer = p;
      counterparty = q;
      given = given;
      taken = taken;
      own = own;
      other = other;
      sides = record {
        proposer_found = found;
        counterparty_found = found';
        different = trade-different c r h p q found found';
        gives = gives;
        takes = takes;
      };
      trades =
          trade-Trades c r h p q found found' given taken gives takes own other own_made other_made;
    }
