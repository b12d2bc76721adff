-- ===== src/Banking/Effects/Lawful.antt =====
-- Every operation that returns: valid players, lawful balance changes, and participants that
-- record exactly those changes.
use mathlib.Core.Path.{subst}
use monopoly_bank.Prelude.{
  ◌≡◌, refl, sym, inl, inr, Option, none, some, List, [], ◌∷◌, ◌++◌, map, arith, All,
}
use monopoly_bank.Prelude.Int.{ℤ, neg}
use monopoly_bank.Types.{
  PlayerId, Game, Player, PropertyChange, TransactionParticipant, Transaction,
}
use monopoly_bank.Outcome.{ok, >>=-eq-ok, ok-injective, Result-cases}
use monopoly_bank.Money.{TextHost}
use monopoly_bank.Banking.Command.{TransferPropertiesCommand, ReversalCommand, BankruptcyCommand}
use monopoly_bank.Banking.Pending.{MortgageReversal, PlayerBalanceChange, BankingOperationResult}
use monopoly_bank.Banking.Guards.{validate_game, find_player, ensure_active}
use monopoly_bank.Banking.Deltas.{PlayerDelta, create_balance_change, participant_of, create_result}
use monopoly_bank.Banking.Trade.{ensure_covers, transfer_properties}
use monopoly_bank.Banking.Undo.{reverse_participants, as_reversal, reverse_transaction}
use monopoly_bank.Banking.Bankruptcy.{
  find_creditor, change_unless_zero, creditor_changes, declare_bankruptcy,
}
use monopoly_bank.Banking.Effects.Changes.{
  IsChange, create_balance_change-IsChange, known_player, apply_deltas-IsChange,
}
use monopoly_bank.Banking.Effects.Applies.{Applies, validate_game-eq}
use monopoly_bank.Banking.Dispatch.{
  Operation, player_to_player_op, player_to_bank_op, to_jackpot_op, bank_to_player_op,
  player_to_all_op, all_to_player_op, pass_go_op, jackpot_payout_op, auction_op, mortgage_tile_op,
  purchase_op, build_op, sell_op, trade_op, rent_op, mortgage_op, redeem_op, loan_op, repay_op,
  bank_loan_op, repay_bank_op, reversal_op, bankruptcy_op, execute, players_of, game_of,
}
use monopoly_bank.Banking.Effects.Cash.{
  player_to_player-Applies, player_to_bank-Applies, to_jackpot-Applies, jackpot_payout-Applies,
  bank_to_player-Applies, player_to_all-Applies, all_to_player-Applies, pass_go-Applies,
}
use monopoly_bank.Banking.Effects.Credit.{
  issue_loan-Applies, repay_loan-Applies, issue_bank_loan-Applies, repay_bank_loan-Repays,
}
use monopoly_bank.Banking.Effects.Tiles.{
  pay_auction-Applies, purchase_property-Applies, mortgage_property-Applies, mortgage_tile-Applies,
  redeem_mortgage-Applies, rent_payment-Applies, build_property-Applies, sell_building-Applies,
}
use monopoly_bank.Banking.Effects.Exchange.{transfer_properties-Trade}
use monopoly_bank.Banking.Effects.Insolvency.{declare_bankruptcy-Insolvency}
use monopoly_bank.Banking.Effects.Table.{IsTable, validate_game-IsTable}

pub record IsLawful (game : Game) (players : List Player) (r : BankingOperationResult)
    : Type 0 where
  pub table : IsTable game players
  pub changes : All (IsChange players) r.affected_players
  pub recorded : r.transaction.participants ≡ map participant_of r.affected_players

Applies-IsLawful :
    {game : Game} {players : List Player} {deltas : List PlayerDelta} {r : BankingOperationResult}
    → Applies game players deltas r
    → IsLawful game players r
Applies-IsLawful {game = game} {players = players} {deltas = deltas} {r = r} a = record {
  table = validate_game-IsTable game players a.valid;
  changes = (apply_deltas-IsChange players deltas r.affected_players a.applied).0;
  recorded = a.recorded;
}

reverse_participants-IsChange :
    (players : List Player) (participants : List TransactionParticipant)
    (changes : List PlayerBalanceChange)
    → reverse_participants players participants ≡ ok changes
    → All (IsChange players) changes
unfolding reverse_participants
reverse_participants-IsChange players [] changes h = rw (← ok-injective h) tt
reverse_participants-IsChange players (p ∷ ps) changes h =
    let (player, found, h1) = >>=-eq-ok (find_player players p.player_id) _ h in
    let (_, _, h2) = >>=-eq-ok (ensure_active player) _ h1 in
    let (_, _, h3) = >>=-eq-ok (ensure_covers player (neg p.balance_delta)) _ h2 in
    let (change, made, h4) = >>=-eq-ok (create_balance_change player (neg p.balance_delta)) _ h3 in
    let (rest, done, h5) = >>=-eq-ok (reverse_participants players ps) _ h4 in
    subst (All (IsChange players)) (ok-injective h5) (
      (create_balance_change-IsChange players player (neg p.balance_delta) change
          (known_player players p.player_id player found) made).0,
      reverse_participants-IsChange players ps rest done,
    )

-- What a reversal writes: the original's participants, each with the opposite delta.
pub record Reverses (c : ReversalCommand) (r : BankingOperationResult) : Type 0 where
  pub valid : validate_game c.game c.players ≡ ok c.players
  pub reversed : reverse_participants c.players c.original.participants ≡ ok r.affected_players
  pub recorded : r.transaction.participants ≡ map participant_of r.affected_players

as_reversal-keeps :
    (result : BankingOperationResult) (original : Transaction) (m : Option MortgageReversal)
    (changes : List PropertyChange)
    → ((as_reversal result original m changes).affected_players ≡ result.affected_players)
      × ((as_reversal result original m changes).transaction.participants
          ≡ result.transaction.participants)
unfolding as_reversal
as_reversal-keeps result original m [] = (refl, refl)
as_reversal-keeps result original m (_ ∷ _) = (refl, refl)

pub reverse_transaction-Reverses :
    (c : ReversalCommand) (r : BankingOperationResult) → reverse_transaction c ≡ ok r → Reverses c r
unfolding reverse_transaction create_result
reverse_transaction-Reverses c r h = grind (arith, validate_game-eq, as_reversal-keeps)

reverse_transaction-IsLawful :
    (c : ReversalCommand) (r : BankingOperationResult)
    → reverse_transaction c ≡ ok r
    → IsLawful c.game c.players r
reverse_transaction-IsLawful c r h =
    let done = reverse_transaction-Reverses c r h in
    record {
      table = validate_game-IsTable c.game c.players done.valid;
      changes =
          reverse_participants-IsChange c.players c.original.participants r.affected_players
            done.reversed;
      recorded = done.recorded;
    }

transfer_properties-IsLawful :
    (c : TransferPropertiesCommand) (r : BankingOperationResult)
    → transfer_properties c ≡ ok r
    → IsLawful c.game c.players r
transfer_properties-IsLawful c r h =
    let t = transfer_properties-Trade c r h in
    let own =
      create_balance_change-IsChange c.players t.proposer _ t.own
        (known_player c.players c.player_id t.proposer t.sides.proposer_found) t.trades.own_made in
    let other =
      create_balance_change-IsChange c.players t.counterparty _ t.other
        (known_player c.players c.counterparty_player_id t.counterparty t.sides.counterparty_found)
        t.trades.other_made in
    record {
      table = validate_game-IsTable c.game c.players t.trades.valid;
      changes = subst (All (IsChange c.players)) (sym t.trades.affected) (own.0, (other.0, tt));
      recorded = t.trades.recorded;
    }

change_unless_zero-IsChange :
    (players : List Player) (player : Player) (delta : ℤ) (changes : List PlayerBalanceChange)
    → find_player players player.id ≡ ok player
    → change_unless_zero player delta ≡ ok changes
    → All (IsChange players) changes
unfolding change_unless_zero
change_unless_zero-IsChange players player delta changes known h =
    elim (Result-cases (create_balance_change player delta)) [
      | inl (change, made) ↦
          let lawful = create_balance_change-IsChange players player delta change known made in
          ground arith
      | inr (e, failed) ↦ ground arith
    ]

creditor_changes-IsChange :
    (players : List Player) (id : Option PlayerId) (creditor : Option Player) (net : ℤ)
    (changes : List PlayerBalanceChange)
    → find_creditor players id ≡ ok creditor
    → creditor_changes creditor net ≡ ok changes
    → All (IsChange players) changes
unfolding creditor_changes find_creditor
creditor_changes-IsChange players id none net changes known h = rw (← ok-injective h) tt
creditor_changes-IsChange players none (some creditor) net changes known h = cc
creditor_changes-IsChange players (some id) (some creditor) net changes known h =
    change_unless_zero-IsChange players creditor net changes
      (known_player players id creditor (ground arith)) h

All-append :
    (P : PlayerBalanceChange → Type 0) (xs ys : List PlayerBalanceChange)
    → All P xs
    → All P ys
    → All P (xs ++ ys)
All-append P [] ys h k = k
All-append P (x ∷ xs) ys (h, hs) k = (h, All-append P xs ys hs k)

declare_bankruptcy-IsLawful :
    (c : BankruptcyCommand) (r : BankingOperationResult)
    → declare_bankruptcy c ≡ ok r
    → IsLawful c.game c.players r
declare_bankruptcy-IsLawful c r h =
    let t = declare_bankruptcy-Insolvency c r h in
    let own =
      change_unless_zero-IsChange c.players t.bankrupt _ t.own
        (known_player c.players c.player_id t.bankrupt t.estate.bankrupt_found)
        t.settles.own_made in
    let others =
      creditor_changes-IsChange c.players c.creditor_player_id t.creditor _ t.others
        t.estate.creditor_found t.settles.others_made in
    record {
      table = validate_game-IsTable c.game c.players t.valid;
      changes =
          subst (All (IsChange c.players)) (sym t.settles.affected)
            (All-append (IsChange c.players) t.own t.others own others);
      recorded = t.settles.recorded;
    }

-- Whichever operation returns, the game was active with two to six distinct players of its own,
-- each with a valid balance; every balance change is of one of those players, starts at their
-- balance, ends at it plus the delta, and is again a safe amount of zero or more; and the
-- participants of the transaction record exactly those changes.
pub execute-IsLawful :
    (host : TextHost) (op : Operation) (r : BankingOperationResult)
    → execute host op ≡ ok r
    → IsLawful (game_of op) (players_of op) r
unfolding execute
execute-IsLawful host (player_to_player_op c) r h =
    Applies-IsLawful (player_to_player-Applies c r h)
execute-IsLawful host (player_to_bank_op c) r h = Applies-IsLawful (player_to_bank-Applies c r h)
execute-IsLawful host (to_jackpot_op c) r h = Applies-IsLawful (to_jackpot-Applies c r h)
execute-IsLawful host (bank_to_player_op c) r h = Applies-IsLawful (bank_to_player-Applies c r h)
execute-IsLawful host (player_to_all_op c) r h = Applies-IsLawful (player_to_all-Applies c r h)
execute-IsLawful host (all_to_player_op c) r h = Applies-IsLawful (all_to_player-Applies c r h)
execute-IsLawful host (pass_go_op c) r h = Applies-IsLawful (pass_go-Applies c r h)
execute-IsLawful host (jackpot_payout_op c) r h = Applies-IsLawful (jackpot_payout-Applies c r h)
execute-IsLawful host (auction_op c) r h = Applies-IsLawful (pay_auction-Applies c r h)
execute-IsLawful host (mortgage_tile_op c) r h = Applies-IsLawful (mortgage_tile-Applies host c r h)
execute-IsLawful host (purchase_op c) r h = Applies-IsLawful (purchase_property-Applies c r h)
execute-IsLawful host (build_op c) r h = Applies-IsLawful (build_property-Applies c r h)
execute-IsLawful host (sell_op c) r h = Applies-IsLawful (sell_building-Applies c r h)
execute-IsLawful host (trade_op c) r h = transfer_properties-IsLawful c r h
execute-IsLawful host (rent_op c) r h = Applies-IsLawful (rent_payment-Applies c r h)
execute-IsLawful host (mortgage_op c) r h = Applies-IsLawful (mortgage_property-Applies host c r h)
execute-IsLawful host (redeem_op c) r h = Applies-IsLawful (redeem_mortgage-Applies c r h)
execute-IsLawful host (loan_op c) r h = Applies-IsLawful (issue_loan-Applies c r h)
execute-IsLawful host (repay_op c) r h = Applies-IsLawful (repay_loan-Applies c r h)
execute-IsLawful host (bank_loan_op c) r h = Applies-IsLawful (issue_bank_loan-Applies c r h)
execute-IsLawful host (repay_bank_op c) r h =
    Applies-IsLawful (repay_bank_loan-Repays c r h).1.applies
execute-IsLawful host (reversal_op c) r h = reverse_transaction-IsLawful c r h
execute-IsLawful host (bankruptcy_op c) r h = declare_bankruptcy-IsLawful c r h
