-- ===== src/Banking/Deltas.antt =====
-- shared/domain/banking.ts: the deltas of an operation, the balance changes that they make, and
-- the pending transaction.
use monopoly_bank.Prelude.{
  String, false, not, ◌||◌, Option, none, some, List, [], ◌∷◌, ◌++◌, map, length,
}
use monopoly_bank.Prelude.Int.{ℤ, pos, ◌+ℤ◌, neg, ◌*ℤ◌, ltb_ℤ}
use monopoly_bank.Types.{
  TileId, GameId, PlayerId, Player, PropertyChange, TransactionType, TransactionParticipant,
}
use monopoly_bank.Outcome.{
  would_produce_invalid_balance, invalid_game_state, Result, ok, ◌>>=◌, ◌>>◌, throw_if,
}
use monopoly_bank.Money.{is_safe_integer}
use monopoly_bank.Banking.Guards.{find_player}
use monopoly_bank.Banking.Pending.{PlayerBalanceChange, BankingOperationResult}

pub record PlayerDelta : Type 0 where
  pub player_id : PlayerId
  pub delta : ℤ

abbrev pub delta_for : PlayerId → ℤ → PlayerDelta
delta_for player_id delta = record { player_id = player_id; delta = delta }

unfoldable pub transfer_deltas : Option PlayerId → Option PlayerId → ℤ → List PlayerDelta
transfer_deltas none none amount = []
transfer_deltas (some from) none amount = delta_for from (neg amount) ∷ []
transfer_deltas none (some to) amount = delta_for to amount ∷ []
transfer_deltas (some from) (some to) amount =
    delta_for from (neg amount) ∷ delta_for to amount ∷ []

unfoldable pub fan_out_deltas : PlayerId → List PlayerId → ℤ → List PlayerDelta
fan_out_deltas payer recipients amount =
    delta_for payer (neg amount *ℤ pos (length recipients))
    ∷ map (λ recipient. delta_for recipient amount) recipients

unfoldable pub fan_in_deltas : PlayerId → List PlayerId → ℤ → List PlayerDelta
fan_in_deltas recipient payers amount =
    map (λ payer. delta_for payer (neg amount)) payers
    ++ delta_for recipient (amount *ℤ pos (length payers)) ∷ []

unfoldable pub repayment_deltas : PlayerId → Option PlayerId → ℤ → ℤ → List PlayerDelta
repayment_deltas borrower none amount interest = delta_for borrower (neg (amount +ℤ interest)) ∷ []
repayment_deltas borrower (some lender) amount interest =
    delta_for borrower (neg (amount +ℤ interest)) ∷ delta_for lender amount ∷ []

unfoldable pub create_balance_change : Player → ℤ → Result PlayerBalanceChange
create_balance_change player balance_delta = do
  let balance_after = player.balance +ℤ balance_delta
  throw_if (not (is_safe_integer balance_after) || ltb_ℤ balance_after (pos 0))
      (invalid_game_state (would_produce_invalid_balance player.id))
  ok (record {
    player = player;
    balance_before = player.balance;
    balance_after = balance_after;
    balance_delta = balance_delta;
  })

unfoldable pub apply_deltas : List Player → List PlayerDelta → Result (List PlayerBalanceChange)
apply_deltas players [] = ok []
apply_deltas players (d ∷ deltas) = do
  player ← find_player players d.player_id
  change ← create_balance_change player d.delta
  changes ← apply_deltas players deltas
  ok (change ∷ changes)

abbrev pub participant_of : PlayerBalanceChange → TransactionParticipant
participant_of change = record {
  player_id = change.player.id;
  balance_delta = change.balance_delta;
}

unfoldable pub create_result :
    GameId
    → TransactionType
    → ℤ
    → ℤ
    → Option String
    → List PlayerBalanceChange
    → BankingOperationResult
create_result game_id type amount total_amount comment affected = record {
  transaction = record {
    game_id = game_id;
    type = type;
    amount = amount;
    total_amount = total_amount;
    comment = comment;
    participants = map participant_of affected;
    reverses_transaction_id = none;
    jackpot = none;
    price_overridden = false;
    initiator_player_id = none;
    mortgage_reversal = none;
    tile_id = none;
    registry_changes = none;
    new_mortgage = none;
    redeemed_mortgage_id = none;
    new_loan = none;
    loan_repayment = none;
    bank_loan_settlement = none;
    settles_auction = none;
  };
  affected_players = affected;
}

-- `{ ...result, transaction: { ...result.transaction, tileId, registryChanges } }`
unfoldable pub with_property :
    BankingOperationResult → TileId → List PropertyChange → BankingOperationResult
with_property result tile_id changes = record result {
  transaction = record result.transaction {
    tile_id = some tile_id;
    registry_changes = some changes;
  };
}

unfoldable pub with_registry_changes :
    BankingOperationResult → List PropertyChange → BankingOperationResult
with_registry_changes result [] = result
with_registry_changes result (change ∷ changes) = record result {
  transaction = record result.transaction { registry_changes = some (change ∷ changes) };
}
