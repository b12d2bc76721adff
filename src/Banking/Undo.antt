-- ===== src/Banking/Undo.antt =====
-- shared/domain/banking.ts: reversals, and the preview that the client shows.
use monopoly_bank.Prelude.{
  Bool, true, false, not, ◌&&◌, ◌||◌, Option, none, some, List, [], ◌∷◌, ◌==◌, if◌then◌else◌,
  get_or,
}
use monopoly_bank.Prelude.Int.{neg}
use monopoly_bank.Types.{
  TileId, Player, PropertyChange, RecordId, TransactionType, reversal, mortgage_redemption,
  auction_payment, property_purchase, property_build, property_sell_building, property_transfer,
  type_index, includes_type, TransactionParticipant, Transaction,
}
use monopoly_bank.Outcome.{
  transaction_not_found, transaction_not_reversible, transaction_already_reversed, reversal_blocked,
  Result, ok, err, ◌>>=◌, ◌>>◌, throw_if,
}
use monopoly_bank.Property.Lookup.{group_tiles}
use monopoly_bank.Property.Changes.{invert_changes}
use monopoly_bank.Reversal.{is_set, reversible_transaction, find_reversal_dependency}
use monopoly_bank.Banking.Command.{ReversalCommand}
use monopoly_bank.Banking.Pending.{
  MortgageReversal, cancel, restore, PlayerBalanceChange, BankingOperationResult,
}
use monopoly_bank.Banking.Guards.{validate_game, find_player, ensure_active}
use monopoly_bank.Banking.Deltas.{create_balance_change, create_result}
use monopoly_bank.Banking.Trade.{ensure_covers}

-- The types whose reversal must move a registry change back.
unfoldable pub needs_registry_change : Transaction → Bool
needs_registry_change original =
    includes_type original.type (property_purchase ∷ property_transfer ∷ [])
    || is_set original.tile_id
      && includes_type original.type (
          auction_payment ∷ property_build ∷ property_sell_building ∷ TransactionType.mortgage
          ∷ mortgage_redemption ∷ [])

abbrev is_type : TransactionType → TransactionType → Bool
is_type a b = type_index a == type_index b

unfoldable pub mortgage_reversal_of :
    Transaction → Option RecordId → Result (Option MortgageReversal)
mortgage_reversal_of original redeemed_mortgage_id =
    if not (is_set original.tile_id)
    then ok none
    else if is_type original.type TransactionType.mortgage
    then ok (some (cancel original.id))
    else if is_type original.type mortgage_redemption
    then elim redeemed_mortgage_id [
      | none ↦ err (transaction_not_reversible original.type)
      | some mortgage_id ↦ ok (some (restore mortgage_id))
    ]
    else ok none

unfoldable pub ensure_not_reversed : Transaction → Result (Unit {0})
ensure_not_reversed original = elim original.reversed_by_transaction_id [
  | none ↦ ok tt
  | some reversal_id ↦ err (transaction_already_reversed original.id reversal_id)
]

unfoldable pub ensure_no_dependency :
    Transaction → List Transaction → List TileId → Result (Unit {0})
ensure_no_dependency original later group_tiles =
    elim (find_reversal_dependency original later group_tiles) [
      | none ↦ ok tt
      | some dependency ↦ err (reversal_blocked original.id dependency)
    ]

-- The loop over the participants.
unfoldable pub reverse_participants :
    List Player → List TransactionParticipant → Result (List PlayerBalanceChange)
reverse_participants players [] = ok []
reverse_participants players (participant ∷ participants) = do
  player ← find_player players participant.player_id
  ensure_active player
  let balance_delta = neg participant.balance_delta
  ensure_covers player balance_delta
  change ← create_balance_change player balance_delta
  changes ← reverse_participants players participants
  ok (change ∷ changes)

-- The fields that a reversal sets: `registryChanges` and `tileId` only with a registry change.
unfoldable pub as_reversal :
    BankingOperationResult
    → Transaction
    → Option MortgageReversal
    → List PropertyChange
    → BankingOperationResult
as_reversal result original mortgage_reversal [] = record result {
  transaction = record result.transaction {
    reverses_transaction_id = some original.id;
    mortgage_reversal = mortgage_reversal;
  };
}
as_reversal result original mortgage_reversal (change ∷ changes) = record result {
  transaction = record result.transaction {
    reverses_transaction_id = some original.id;
    mortgage_reversal = mortgage_reversal;
    registry_changes = some (change ∷ changes);
    tile_id = original.tile_id;
  };
}

abbrev is_empty {ℓ} : {A : Type ℓ} → List A → Bool
is_empty [] = true
is_empty (_ ∷ _) = false

unfoldable pub reverse_transaction : ReversalCommand → Result BankingOperationResult
reverse_transaction c = do
  players ← validate_game c.game c.players
  throw_if (not (c.original.game_id == c.game.id)) (transaction_not_found c.original.id)
  throw_if (not (reversible_transaction c.original)) (transaction_not_reversible c.original.type)
  ensure_not_reversed c.original
  ensure_no_dependency c.original (get_or c.later []) (get_or c.group_tile_ids [])
  let registry_changes = invert_changes (get_or c.original_registry_changes [])
  throw_if (is_empty registry_changes && needs_registry_change c.original)
      (transaction_not_reversible c.original.type)
  mortgage_reversal ← mortgage_reversal_of c.original c.redeemed_mortgage_id
  changes ← reverse_participants players c.original.participants
  ok (
      as_reversal
        (create_result c.game.id reversal c.original.amount c.original.total_amount c.comment
          changes)
        c.original mortgage_reversal registry_changes)
