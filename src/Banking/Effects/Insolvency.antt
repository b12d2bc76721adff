-- ===== src/Banking/Effects/Insolvency.antt =====
-- What a bankruptcy that returns has established.
use monopoly_bank.Prelude.{◌≡◌, refl, Option, none, some, List, [], ◌∷◌, ◌++◌, map, arith}
use monopoly_bank.Prelude.Int.{ℤ, ◌+ℤ◌, ◌-ℤ◌, neg}
use monopoly_bank.Types.{Player, PropertyChange}
use monopoly_bank.Outcome.{ok, must}
use monopoly_bank.Banking.Command.{BankruptcyCommand}
use monopoly_bank.Banking.Pending.{BankLoanSettlement, PlayerBalanceChange, BankingOperationResult}
use monopoly_bank.Banking.Guards.{validate_game, find_player}
use monopoly_bank.Banking.Deltas.{participant_of, create_result, with_registry_changes}
use monopoly_bank.Banking.Bankruptcy.{
  BankruptcyAssets, bankruptcy_assets, settle_bank_loan, with_bank_loan_settlement, bank_take,
  find_creditor, check_creditor, change_unless_zero, creditor_changes, declare_bankruptcy,
}
use monopoly_bank.Banking.Effects.Applies.{validate_game-eq}

pub record Estate (c : BankruptcyCommand) (bankrupt : Player) (creditor : Option Player)
    (assets : BankruptcyAssets) (settlement : Option BankLoanSettlement) : Type 0 where
  pub bankrupt_found : find_player c.players c.player_id ≡ ok bankrupt
  pub creditor_found : find_creditor c.players c.creditor_player_id ≡ ok creditor
  pub valued : bankruptcy_assets c.property bankrupt creditor ≡ ok assets
  pub settled :
      settle_bank_loan c.game.id c.bank_loan bankrupt (bankrupt.balance +ℤ assets.proceeds)
      ≡ ok settlement

abbrev pub creditor_net : Player → BankruptcyAssets → Option BankLoanSettlement → ℤ
creditor_net bankrupt assets settlement =
    bankrupt.balance +ℤ assets.proceeds -ℤ bank_take settlement -ℤ assets.creditor_fee

pub record Settles (c : BankruptcyCommand) (r : BankingOperationResult) (bankrupt : Player)
    (creditor : Option Player) (assets : BankruptcyAssets) (settlement : Option BankLoanSettlement)
    (own others : List PlayerBalanceChange) : Type 0 where
  pub checked : check_creditor bankrupt creditor ≡ ok tt
  pub own_made : change_unless_zero bankrupt (neg bankrupt.balance) ≡ ok own
  pub others_made : creditor_changes creditor (creditor_net bankrupt assets settlement) ≡ ok others
  pub affected : r.affected_players ≡ own ++ others
  pub recorded : r.transaction.participants ≡ map participant_of r.affected_players

bankruptcy-valid :
    (c : BankruptcyCommand) (r : BankingOperationResult)
    → declare_bankruptcy c ≡ ok r
    → validate_game c.game c.players ≡ ok c.players
unfolding declare_bankruptcy
bankruptcy-valid c r h = grind (arith, validate_game-eq)

with_parts-keep :
    (result : BankingOperationResult) (settlement : Option BankLoanSettlement)
    (changes : List PropertyChange)
    → ((with_registry_changes
          (with_bank_loan_settlement result settlement)
          changes).affected_players
        ≡ result.affected_players)
      × ((with_registry_changes
            (with_bank_loan_settlement result settlement)
            changes).transaction.participants
          ≡ result.transaction.participants)
unfolding with_registry_changes with_bank_loan_settlement
with_parts-keep result none [] = (refl, refl)
with_parts-keep result none (_ ∷ _) = (refl, refl)
with_parts-keep result (some _) [] = (refl, refl)
with_parts-keep result (some _) (_ ∷ _) = (refl, refl)

module _ (c : BankruptcyCommand) (r : BankingOperationResult)
    (h : declare_bankruptcy c ≡ ok r) where
  bankruptcy-bankrupt : (p : Player) × (find_player c.players c.player_id ≡ ok p)
  unfolding declare_bankruptcy
  bankruptcy-bankrupt = let valid = bankruptcy-valid c r h in must _ (λ e failed. ground arith)

  bankruptcy-creditor : (q : Option Player) × (find_creditor c.players c.creditor_player_id ≡ ok q)
  unfolding declare_bankruptcy
  bankruptcy-creditor = let valid = bankruptcy-valid c r h in must _ (λ e failed. ground arith)

  module _ (bankrupt : Player) (creditor : Option Player)
      (found : find_player c.players c.player_id ≡ ok bankrupt)
      (found' : find_creditor c.players c.creditor_player_id ≡ ok creditor) where
    bankruptcy-checked : check_creditor bankrupt creditor ≡ ok tt
    unfolding declare_bankruptcy
    bankruptcy-checked = let valid = bankruptcy-valid c r h in ground arith

    bankruptcy-assets :
        (assets : BankruptcyAssets) × (bankruptcy_assets c.property bankrupt creditor ≡ ok assets)
    unfolding declare_bankruptcy
    bankruptcy-assets = let valid = bankruptcy-valid c r h in must _ (λ e failed. ground arith)

    module _ (assets : BankruptcyAssets)
        (valued : bankruptcy_assets c.property bankrupt creditor ≡ ok assets) where
      bankruptcy-settlement :
          (s : Option BankLoanSettlement) × (settle_bank_loan c.game.id c.bank_loan bankrupt
              (bankrupt.balance +ℤ assets.proceeds)
            ≡ ok s)
      unfolding declare_bankruptcy
      bankruptcy-settlement =
          let valid = bankruptcy-valid c r h in must _ (λ e failed. ground arith)

      module _ (s : Option BankLoanSettlement)
          (settled : settle_bank_loan c.game.id c.bank_loan bankrupt
              (bankrupt.balance +ℤ assets.proceeds)
            ≡ ok s) where
        bankruptcy-own :
            (own : List PlayerBalanceChange) × (change_unless_zero bankrupt (neg bankrupt.balance)
              ≡ ok own)
        unfolding declare_bankruptcy
        bankruptcy-own = let valid = bankruptcy-valid c r h in must _ (λ e failed. ground arith)

        bankruptcy-others :
            (others : List PlayerBalanceChange) × (creditor_changes creditor
                (creditor_net bankrupt assets s)
              ≡ ok others)
        unfolding declare_bankruptcy
        bankruptcy-others =
            let valid = bankruptcy-valid c r h in
            let (own, made) = bankruptcy-own in must _ (λ e failed. ground arith)

        bankruptcy-Settles :
            (own others : List PlayerBalanceChange)
            → change_unless_zero bankrupt (neg bankrupt.balance) ≡ ok own
            → creditor_changes creditor (creditor_net bankrupt assets s) ≡ ok others
            → Settles c r bankrupt creditor assets s own others
        unfolding declare_bankruptcy create_result
        bankruptcy-Settles own others made made' =
            let valid = bankruptcy-valid c r h in
            let checked = bankruptcy-checked in grind (arith, with_parts-keep)

-- Everything that a bankruptcy that returns has established.
pub record Insolvency (c : BankruptcyCommand) (r : BankingOperationResult) : Type 0 where
  pub valid : validate_game c.game c.players ≡ ok c.players
  pub bankrupt : Player
  pub creditor : Option Player
  pub assets : BankruptcyAssets
  pub settlement : Option BankLoanSettlement
  pub own : List PlayerBalanceChange
  pub others : List PlayerBalanceChange
  pub estate : Estate c bankrupt creditor assets settlement
  pub settles : Settles c r bankrupt creditor assets settlement own others

pub declare_bankruptcy-Insolvency :
    (c : BankruptcyCommand) (r : BankingOperationResult)
    → declare_bankruptcy c ≡ ok r
    → Insolvency c r
declare_bankruptcy-Insolvency c r h =
    let (p, found) = bankruptcy-bankrupt c r h in
    let (q, found') = bankruptcy-creditor c r h in
    let (assets, valued) = bankruptcy-assets c r h p q found found' in
    let (s, settled) = bankruptcy-settlement c r h p q found found' assets valued in
    let (own, made) = bankruptcy-own c r h p q found found' assets valued s settled in
    let (others, made') = bankruptcy-others c r h p q found found' assets valued s settled in
    record {
      valid = bankruptcy-valid c r h;
      bankrupt = p;
      creditor = q;
      assets = assets;
      settlement = s;
      own = own;
      others = others;
      estate = record {
        bankrupt_found = found;
        creditor_found = found';
        valued = valued;
        settled = settled;
      };
      settles =
          bankruptcy-Settles c r h p q found found' assets valued s settled own others made made';
    }
