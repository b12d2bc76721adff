-- ===== src/Tests/Undoing.antt =====
-- A purchase of the sample game and its reversal; and the conditions of a payment and a bank loan.
use monopoly_bank.Prelude.{◌≡◌, refl, ◌↔◌, true, false, none, some, [], ◌∷◌, arith}
use monopoly_bank.Prelude.Int.{◌+ℤ◌, ℤ, pos, negsuc, neg}
use monopoly_bank.Types.{Player, PropertyChange, PropertyContext, TransactionType}
use monopoly_bank.Outcome.{ok}
use monopoly_bank.Property.Changes.{owner_change, invert_changes, apply_changes}
use monopoly_bank.Property.Lookup.{find_tile, require_tile, state_of}
use monopoly_bank.Property.Plan.{purchase_price}
use monopoly_bank.Reversal.{
  reversible_transaction, find_reversal_dependency, allowed, reversal_availability,
}
use monopoly_bank.Banking.Command.{
  PlayerToPlayerCommand, PropertyPurchaseCommand, IssueBankLoanCommand, ReversalCommand,
}
use monopoly_bank.Banking.Pending.{BankingOperationResult}
use monopoly_bank.Banking.Guards.{
  validate_players, validate_game, validate_amount, find_player, ensure_sufficient_funds,
  ensure_active,
}
use monopoly_bank.Banking.Deltas.{
  transfer_deltas, create_balance_change, apply_deltas, create_result, with_property,
}
use monopoly_bank.Banking.Transfers.{player_to_player}
use monopoly_bank.Banking.Loans.{issue_bank_loan}
use monopoly_bank.Banking.Holdings.{ensure_unowned, purchase_property}
use monopoly_bank.Banking.Trade.{ensure_covers}
use monopoly_bank.Banking.Undo.{
  needs_registry_change, mortgage_reversal_of, ensure_not_reversed, ensure_no_dependency,
  reverse_participants, as_reversal, reverse_transaction,
}
use monopoly_bank.Banking.Dispatch.{purchase_op, execute}
use monopoly_bank.Banking.Effects.Returns.{CanPay, player_to_player_iff}
use monopoly_bank.Banking.Effects.Borrows.{CanBorrow, issue_bank_loan_iff}
use monopoly_bank.Banking.Effects.Offer.{reverse_transaction-allowed}
use monopoly_bank.Banking.Effects.Restored.{changes_in, execute-restored}
use monopoly_bank.Tests.Samples.{
  sample_host, sample_board, sample_row, sample_game, bob, both, moved, sample_transaction,
  sample_participant,
}

abbrev unsold : PropertyContext
unsold = record {
  board = sample_board;
  registry =
      sample_row 1 false (pos 0)
      ∷ record (sample_row 3 false (pos 0)) { owner_player_id = none }
      ∷ [];
}

-- Bob buys the second street.
abbrev buying : PropertyPurchaseCommand
buying = record {
  game = sample_game;
  players = both;
  comment = none;
  player_id = 2;
  tile_id = 3;
  property = unsold;
  price_override = none;
}

abbrev purchase : PropertyChange
purchase = owner_change 3 (state_of unsold.registry 3) (some 2)

abbrev bought : BankingOperationResult
bought =
    with_property
      (create_result 1 TransactionType.property_purchase (pos 60) (pos 60) none
        (moved bob (negsuc 59) (pos 240) ∷ []))
      3 (purchase ∷ [])

abbrev returning : ReversalCommand
returning = record {
  game = sample_game;
  players = both;
  original =
      sample_transaction 20 TransactionType.property_purchase (pos 60)
        (sample_participant 2 (negsuc 59) ∷ []);
  later = some [];
  original_registry_changes = some (purchase ∷ []);
  redeemed_mortgage_id = none;
  group_tile_ids = none;
  comment = none;
}

abbrev returned : BankingOperationResult
returned =
    as_reversal
      (create_result 1 TransactionType.reversal (pos 60) (pos 60) none
        (moved bob (pos 60) (pos 360) ∷ []))
      returning.original none (invert_changes (purchase ∷ []))

execute-restored_example :
    apply_changes (apply_changes unsold.registry (changes_in bought)) (changes_in returned)
    ≡ unsold.registry
unfolding execute purchase_property purchase_price require_tile find_tile validate_game
    validate_players validate_amount find_player ensure_active ensure_sufficient_funds
    ensure_unowned state_of apply_deltas create_balance_change transfer_deltas create_result
    with_property reverse_transaction reverse_participants ensure_covers as_reversal
    reversible_transaction ensure_not_reversed ensure_no_dependency find_reversal_dependency
    invert_changes needs_registry_change mortgage_reversal_of owner_change ◌+ℤ◌ neg
execute-restored_example =
    execute-restored sample_host (purchase_op buying) bought unsold.registry returning returned refl
      refl (((λ same. ground arith), tt), (tt, tt)) refl refl

reverse_transaction-allowed_example :
    reversal_availability returning.original true [] none 0 [] [] ≡ allowed
unfolding validate_game validate_players find_player ensure_active ensure_sufficient_funds state_of
    create_balance_change create_result reverse_transaction reverse_participants ensure_covers
    as_reversal reversible_transaction ensure_not_reversed ensure_no_dependency
    find_reversal_dependency invert_changes needs_registry_change mortgage_reversal_of owner_change
    ◌+ℤ◌ neg
reverse_transaction-allowed_example = reverse_transaction-allowed returning returned [] none 0 refl

-- Bob pays Alice 50.
abbrev paying : PlayerToPlayerCommand
paying = record {
  game = sample_game;
  players = both;
  comment = none;
  source_player_id = 2;
  destination_player_id = 1;
  amount = pos 50;
}

player_to_player_iff_example :
    ((r : BankingOperationResult) × (player_to_player paying ≡ ok r))
    ↔ ((source : Player) × ((destination : Player) × CanPay paying source destination))
player_to_player_iff_example = player_to_player_iff paying

-- Bob borrows 150 from the bank.
abbrev borrowing : IssueBankLoanCommand
borrowing = record {
  game = sample_game;
  players = both;
  player_id = 2;
  amount = pos 150;
  active_bank_loan = none;
  cooldown = some (record { player_id = 2; rounds_left = pos 1 });
  acknowledge_cooldown = some true;
}

issue_bank_loan_iff_example :
    ((r : BankingOperationResult) × (issue_bank_loan borrowing ≡ ok r))
    ↔ ((borrower : Player) × ((max : ℤ) × CanBorrow borrowing borrower max))
issue_bank_loan_iff_example = issue_bank_loan_iff borrowing
