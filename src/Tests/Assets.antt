-- ===== src/Tests/Assets.antt =====
-- Prices, the registry, a building plan and the offer of a reversal in the sample game.
use monopoly_bank.Prelude.{
  ◌++◌, ◌<◌, ℕ, suc, ◌+◌, ◌*◌, ◌/◌, ◌^◌, ◌≤◌, ◌≡◌, refl, ap, ◌↔◌, ◌⊎◌, true, false, none, some,
  List, [], ◌∷◌, arith, value-eq, All, includes,
}
use monopoly_bank.Prelude.Int.{◌*ℤ◌, ◌+ℤ◌, pos, negsuc, ◌≤ℤ◌, floor_div}
use monopoly_bank.Types.{PlayerId, PropertyChange, rate10, TransactionType, Transaction}
use monopoly_bank.Outcome.{ok}
use monopoly_bank.Money.{
  redemption_cost, bank_loan_interest, distance, nearer, try_mantissas, try_powers,
  derive_money_unit,
}
use monopoly_bank.Money.Rounding.{redemption_cost-rounds, bank_loan_interest-rounds}
use monopoly_bank.Money.Unit.{IsMantissa, IsSeries, derive_money_unit-nearest}
use monopoly_bank.Property.Lookup.{state_of, can_mortgage, assert_can_mortgage, can_mortgage_iff}
use monopoly_bank.Property.Changes.{
  building_change, mortgage_change, invert_changes, apply_changes, apply_changes-invert_changes,
}
use monopoly_bank.Property.Plan.{BuildingPlan}
use monopoly_bank.Reversal.{
  reversible_transaction, reversal_initiator_player_id, is_within_reversal_window,
  find_reversal_dependency, allowed, reversal_availability,
}
use monopoly_bank.Reversal.Laws.{DependsOn, find_reversal_dependency_iff, reversal_availability_iff}
use monopoly_bank.Tests.Samples.{
  sample_board, owned_streets, sample_transaction, sample_participant,
}

redemption_cost-rounds_example : redemption_cost (pos 45) ≡ pos ((45 * 11 + 5) / 10)
redemption_cost-rounds_example = redemption_cost-rounds 45

bank_loan_interest-rounds_example :
    (pos 1 ≤ℤ pos 15) × (pos 0 ≤ℤ pos 2) × (15 * 10 ≤ 100 * 2 + 49) × (100 * 2 ≤ 15 * 10 + 50)
unfolding bank_loan_interest floor_div ◌+ℤ◌ ◌*ℤ◌
bank_loan_interest-rounds_example = bank_loan_interest-rounds (pos 15) rate10 (pos 2) refl

derive_money_unit-nearest_example :
    IsSeries 10
    × ((m q : ℕ) → IsMantissa m → q < 12 → distance 1500 10 ≤ distance 1500 (m * 10 ^ suc q))
unfolding derive_money_unit try_powers try_mantissas nearer distance
derive_money_unit-nearest_example = derive_money_unit-nearest (pos 1500) 10 refl

can_mortgage_iff_example :
    (can_mortgage sample_board owned_streets.registry 1 1 ≡ true)
    ↔ (assert_can_mortgage owned_streets 1 1 ≡ ok tt)
unfolding state_of
can_mortgage_iff_example = can_mortgage_iff owned_streets 1 1 (omega arith)

-- The mortgage of the second street.
abbrev mortgaging : List PropertyChange
mortgaging = mortgage_change 3 (state_of owned_streets.registry 3) true ∷ []

apply_changes-invert_changes_example :
    apply_changes (apply_changes owned_streets.registry mortgaging) (invert_changes mortgaging)
    ≡ owned_streets.registry
unfolding mortgage_change state_of
apply_changes-invert_changes_example =
    apply_changes-invert_changes owned_streets.registry mortgaging (
      (λ change found. absurd (cc found)),
      ((λ change found. ap (λ (ch : PropertyChange). ch.before) (value-eq found)), tt),
    )

-- Two houses, one on each street.
abbrev planned : BuildingPlan
planned = record {
  changes =
      building_change 1 (state_of owned_streets.registry 1) (pos 1)
      ∷ building_change 3 (state_of owned_streets.registry 3) (pos 1)
      ∷ [];
  buildings = pos 2;
}

-- Bob's payment of 50 to the bank.
abbrev spent : Transaction
spent =
    sample_transaction 9 TransactionType.player_to_bank (pos 50)
      (sample_participant 2 (negsuc 49) ∷ [])

-- Bob mortgages afterwards.
abbrev borrowed : Transaction
borrowed =
    sample_transaction 10 TransactionType.mortgage (pos 30) (sample_participant 2 (pos 30) ∷ [])

find_reversal_dependency_iff_example :
    ((find_reversal_dependency spent (borrowed ∷ []) [] ≡ none)
      ↔ All (λ x. ¬ DependsOn spent [] x) (borrowed ∷ []))
    × ((x : Transaction)
        → find_reversal_dependency spent (borrowed ∷ []) [] ≡ some x
        → DependsOn spent [] x
          × ((before : List Transaction) × ((after : List Transaction) × ((borrowed ∷ []
                    ≡ before ++ x ∷ after)
                  × All (λ y. ¬ DependsOn spent [] y) before))))
find_reversal_dependency_iff_example = find_reversal_dependency_iff spent (borrowed ∷ []) []

reversal_availability_iff_example :
    (reversal_availability spent false (2 ∷ []) (some 1000) 2000 [] [] ≡ allowed) ↔ (
      (reversible_transaction spent ≡ true)
      × ((spent.reversed_by_transaction_id ≡ none)
          × ((find_reversal_dependency spent [] [] ≡ none)
              × ((false ≡ true)
                  ⊎ ((player : PlayerId) × ((reversal_initiator_player_id spent ≡ some player)
                        × ((includes player (2 ∷ []) ≡ true)
                            × (is_within_reversal_window (some 1000) 2000 ≡ true))))))))
reversal_availability_iff_example =
    reversal_availability_iff spent false (2 ∷ []) (some 1000) 2000 [] []
