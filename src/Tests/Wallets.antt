-- ===== src/Tests/Wallets.antt =====
-- Transfers, a reversal, a bankruptcy and a trade of the sample game.
use monopoly_bank.Prelude.{◌≡◌, refl, ◌↔◌, none, some, [], ◌∷◌, ◌++◌, if◌then◌else◌, get_or}
use monopoly_bank.Prelude.Int.{
  ◌*ℤ◌, ◌-ℤ◌, pos, negsuc, ◌+ℤ◌, neg, ◌≤ℤ◌, ◌<ℤ◌, floor_div, min_ℤ, abs_ℤ, sum,
}
use monopoly_bank.Types.{LoanState, LoanLenderKind, Loan, rate10, TransactionType}
use monopoly_bank.Money.{redemption_cost, bank_loan_interest}
use monopoly_bank.Property.Changes.{owner_change, invert_changes}
use monopoly_bank.Property.Lookup.{
  find_tile, require_tile, group_tiles, state_of, group_has_buildings,
}
use monopoly_bank.Reversal.{is_set, reversible_transaction, find_reversal_dependency}
use monopoly_bank.Banking.Command.{
  TransferPropertiesCommand, ReversalCommand, BankLoanOwed, BankruptcyCommand,
}
use monopoly_bank.Banking.Pending.{SettlementOutcome, BankLoanSettlement, BankingOperationResult}
use monopoly_bank.Banking.Guards.{
  validate_players, validate_game, validate_amount, find_player, ensure_different_players,
  ensure_sufficient_funds, ensure_active,
}
use monopoly_bank.Banking.Deltas.{
  transfer_deltas, create_balance_change, apply_deltas, create_result, with_registry_changes,
}
use monopoly_bank.Banking.Transfers.{player_to_player}
use monopoly_bank.Banking.Loans.{outstanding_of, require_bank_loan}
use monopoly_bank.Banking.Trade.{
  mortgage_transfer_fee, move_tile, move_tiles, proposer_fees, counterparty_fees, has_duplicates,
  validate_cash, ensure_covers, transfer_properties,
}
use monopoly_bank.Banking.Undo.{
  needs_registry_change, mortgage_reversal_of, ensure_not_reversed, ensure_no_dependency,
  reverse_participants, as_reversal, reverse_transaction,
}
use monopoly_bank.Banking.Bankruptcy.{
  bankruptcy_assets, settle_bank_loan, with_bank_loan_settlement, bank_take, find_creditor,
  check_creditor, ensure_creditor_covers, change_unless_zero, creditor_changes, declare_bankruptcy,
}
use monopoly_bank.Banking.Dispatch.{Operation, player_to_player_op, execute}
use monopoly_bank.Banking.Effects.Flow.{net}
use monopoly_bank.Banking.Effects.Lawful.{IsLawful, execute-IsLawful}
use monopoly_bank.Banking.Effects.Conservation.{execute-net}
use monopoly_bank.Banking.Effects.Opposite.{reverse_transaction-opposite}
use monopoly_bank.Banking.Effects.Insolvency.{creditor_net, Insolvency}
use monopoly_bank.Banking.Effects.Estate.{settle_bank_loan-principal_first, declare_bankruptcy-net}
use monopoly_bank.Banking.Effects.Exchange.{Trade}
use monopoly_bank.Banking.Effects.Barter.{AllHanded, fees, transfer_properties-Hands}
use monopoly_bank.Tests.Samples.{
  sample_host, mortgaged_street, sample_game, alice, bob, both, moved, sample_transaction,
  sample_participant,
}

-- Alice pays Bob 100.
abbrev pub payment : Operation
payment = player_to_player_op (record {
  game = sample_game;
  players = both;
  comment = none;
  source_player_id = 1;
  destination_player_id = 2;
  amount = pos 100;
})

abbrev pub paid : BankingOperationResult
paid =
    create_result 1 TransactionType.player_to_player (pos 100) (pos 100) none
      (moved alice (negsuc 99) (pos 400) ∷ moved bob (pos 100) (pos 400) ∷ [])

execute-IsLawful_example : IsLawful sample_game both paid
unfolding execute player_to_player validate_game validate_players validate_amount find_player
    ensure_active ensure_different_players ensure_sufficient_funds apply_deltas
    create_balance_change transfer_deltas create_result ◌+ℤ◌ neg
execute-IsLawful_example = execute-IsLawful sample_host payment paid refl

execute-net_example : net paid ≡ pos 0
unfolding execute player_to_player validate_game validate_players validate_amount find_player
    ensure_active ensure_different_players ensure_sufficient_funds apply_deltas
    create_balance_change transfer_deltas create_result ◌+ℤ◌ neg
execute-net_example = execute-net sample_host payment paid (pos 0) refl refl

-- Bob's payment of 50 to the bank, moved back.
abbrev undoing : ReversalCommand
undoing = record {
  game = sample_game;
  players = both;
  original =
      sample_transaction 9 TransactionType.player_to_bank (pos 50)
        (sample_participant 2 (negsuc 49) ∷ []);
  later = some [];
  original_registry_changes = none;
  redeemed_mortgage_id = none;
  group_tile_ids = none;
  comment = none;
}

abbrev undone : BankingOperationResult
undone =
    as_reversal
      (create_result 1 TransactionType.reversal (pos 50) (pos 50) none
        (moved bob (pos 50) (pos 350) ∷ []))
      undoing.original none []

reverse_transaction-opposite_example :
    (undone.transaction.participants ≡ sample_participant 2 (pos 50) ∷ [])
    × ((undone.transaction.reverses_transaction_id ≡ some 9)
        × (get_or undone.transaction.registry_changes [] ≡ []))
unfolding reverse_transaction validate_game validate_players find_player ensure_active
    reverse_participants ensure_covers as_reversal create_balance_change create_result ◌+ℤ◌ neg
    reversible_transaction ensure_not_reversed ensure_no_dependency find_reversal_dependency
    invert_changes needs_registry_change mortgage_reversal_of
reverse_transaction-opposite_example = reverse_transaction-opposite undoing undone refl

-- Bob owes the bank 400 of a loan, at 10%.
abbrev owed_loan : Loan
owed_loan = record {
  id = 5;
  game_id = 1;
  lender_kind = LoanLenderKind.bank;
  lender_player_id = none;
  borrower_player_id = 2;
  principal = pos 400;
  repaid_amount = pos 0;
  state = LoanState.active;
}

abbrev owed : BankLoanOwed
owed = record { loan = owed_loan; suggested_rate_percent = rate10 }

abbrev settled : BankLoanSettlement
settled = record {
  loan_id = 5;
  borrower_player_id = 2;
  outcome = SettlementOutcome.written_off;
  paid_principal = pos 300;
  paid_interest = pos 0;
  interest_rate_percent = rate10;
  suggested_rate_percent = rate10;
}

settle_bank_loan-principal_first_example :
    (bank_take (some settled) ≡ min_ℤ (pos 300) (outstanding_of owed.loan +ℤ pos 40))
    × ((settled.paid_principal ≡ min_ℤ (pos 300) (outstanding_of owed.loan))
        × ((pos 0 ≤ℤ settled.paid_interest)
            × ((pos 0 <ℤ settled.paid_interest → settled.paid_principal ≡ outstanding_of owed.loan)
                × ((settled.outcome ≡ SettlementOutcome.repaid)
                    ↔ (outstanding_of owed.loan ≤ℤ pos 300)))))
unfolding settle_bank_loan require_bank_loan bank_loan_interest ◌+ℤ◌ ◌*ℤ◌ ◌-ℤ◌ floor_div min_ℤ
settle_bank_loan-principal_first_example =
    settle_bank_loan-principal_first 1 owed bob (pos 300) (pos 40) settled refl refl

-- Bob goes bankrupt to Alice.
abbrev ruin : BankruptcyCommand
ruin = record {
  game = sample_game;
  players = both;
  player_id = 2;
  creditor_player_id = some 1;
  bank_loan = none;
  property = none;
}

abbrev pub ruined : BankingOperationResult
ruined =
    create_result 1 TransactionType.bankruptcy_transfer (pos 300) (pos 300) none
      (moved bob (negsuc 299) (pos 0) ∷ moved alice (pos 300) (pos 800) ∷ [])

declare_bankruptcy-net_example :
    (t : Insolvency ruin ruined) × (net ruined
      ≡ neg t.bankrupt.balance
        +ℤ (if is_set t.creditor then creditor_net t.bankrupt t.assets t.settlement else pos 0))
unfolding declare_bankruptcy validate_game validate_players find_player ensure_active find_creditor
    check_creditor ensure_different_players bankruptcy_assets settle_bank_loan
    ensure_creditor_covers change_unless_zero create_balance_change creditor_changes create_result
    with_bank_loan_settlement with_registry_changes ◌+ℤ◌ ◌-ℤ◌ neg
declare_bankruptcy-net_example = declare_bankruptcy-net ruin ruined refl

-- Alice gives the mortgaged street for 20.
abbrev deal : TransferPropertiesCommand
deal = record {
  game = sample_game;
  players = both;
  player_id = 1;
  counterparty_player_id = 2;
  give_tile_ids = 3 ∷ [];
  take_tile_ids = [];
  cash_give = pos 0;
  cash_take = pos 20;
  property = mortgaged_street;
}

abbrev dealt : BankingOperationResult
dealt =
    let result =
      create_result 1 TransactionType.property_transfer (pos 20) (pos 20) none
        (moved alice (pos 20) (pos 520) ∷ moved bob (negsuc 22) (pos 277) ∷ []) in
    record result {
      transaction = record result.transaction {
        initiator_player_id = some 1;
        registry_changes =
            some (owner_change 3 (state_of mortgaged_street.registry 3) (some 2) ∷ []);
      };
    }

transfer_properties-Hands_example :
    (t : Trade deal dealt) × (AllHanded deal t.proposer t.counterparty (3 ∷ []) t.given
      × (AllHanded deal t.counterparty t.proposer [] t.taken
          × (net dealt ≡ neg (fees (t.given ++ t.taken)))))
unfolding transfer_properties validate_game validate_players find_player ensure_active
    ensure_different_players validate_cash has_duplicates move_tiles move_tile require_tile
    group_has_buildings state_of mortgage_transfer_fee redemption_cost proposer_fees
    counterparty_fees ensure_covers ensure_sufficient_funds create_balance_change create_result
    owner_change ◌+ℤ◌ ◌-ℤ◌ neg abs_ℤ sum floor_div find_tile group_tiles
transfer_properties-Hands_example = transfer_properties-Hands deal dealt refl
