-- ===== src/Banking/Effects/Opposite.antt =====
-- A reversal moves exactly the original's deltas back.
use monopoly_bank.Prelude.{
  String, ◌≡◌, refl, sym, ap, ◌∙◌, Option, some, List, [], ◌∷◌, map, arith, get_or,
}
use monopoly_bank.Prelude.Int.{ℤ, neg}
use monopoly_bank.Types.{
  GameId, Player, PropertyChange, TransactionType, TransactionParticipant, Transaction,
}
use monopoly_bank.Outcome.{ok, >>=-eq-ok, ok-injective, must}
use monopoly_bank.Property.Changes.{invert_changes}
use monopoly_bank.Banking.Command.{ReversalCommand}
use monopoly_bank.Banking.Pending.{MortgageReversal, PlayerBalanceChange, BankingOperationResult}
use monopoly_bank.Banking.Guards.{find_player, ensure_active}
use monopoly_bank.Banking.Deltas.{create_balance_change, participant_of, create_result}
use monopoly_bank.Banking.Trade.{ensure_covers}
use monopoly_bank.Banking.Undo.{
  mortgage_reversal_of, reverse_participants, as_reversal, reverse_transaction,
}
use monopoly_bank.Banking.Effects.Changes.{
  find_player-id, create_balance_change-IsChange, known_player,
}
use monopoly_bank.Banking.Effects.Lawful.{reverse_transaction-Reverses}

abbrev pub opposite : TransactionParticipant → TransactionParticipant
opposite p = record { player_id = p.player_id; balance_delta = neg p.balance_delta }

reverse_participants-opposite :
    (players : List Player) (participants : List TransactionParticipant)
    (changes : List PlayerBalanceChange)
    → reverse_participants players participants ≡ ok changes
    → map participant_of changes ≡ map opposite participants
unfolding reverse_participants
reverse_participants-opposite players [] changes h = ap (map participant_of) (sym (ok-injective h))
reverse_participants-opposite players (p ∷ ps) changes h =
    let (player, found, h1) = >>=-eq-ok (find_player players p.player_id) _ h in
    let (_, _, h2) = >>=-eq-ok (ensure_active player) _ h1 in
    let (_, _, h3) = >>=-eq-ok (ensure_covers player (neg p.balance_delta)) _ h2 in
    let (change, made, h4) = >>=-eq-ok (create_balance_change player (neg p.balance_delta)) _ h3 in
    let (rest, done, h5) = >>=-eq-ok (reverse_participants players ps) _ h4 in
    let (_, same, delta) =
      create_balance_change-IsChange players player (neg p.balance_delta) change
        (known_player players p.player_id player found) made in
    let id_eq : change.player.id ≡ p.player_id =
      ap (λ (q : Player). q.id) same ∙ find_player-id players p.player_id player found in
    let later = reverse_participants-opposite players ps rest done in
    ap (map participant_of) (sym (ok-injective h5)) ∙ ground arith

reverse_transaction-mortgage :
    (c : ReversalCommand) (r : BankingOperationResult)
    → reverse_transaction c ≡ ok r
    → (m : Option MortgageReversal) × (mortgage_reversal_of c.original c.redeemed_mortgage_id
        ≡ ok m)
unfolding reverse_transaction
reverse_transaction-mortgage c r h =
    let valid = (reverse_transaction-Reverses c r h).valid in must _ (λ e failed. ground arith)

reverse_transaction-form :
    (c : ReversalCommand) (r : BankingOperationResult) (m : Option MortgageReversal)
    → reverse_transaction c ≡ ok r
    → mortgage_reversal_of c.original c.redeemed_mortgage_id ≡ ok m
    → r
      ≡ as_reversal
          (create_result c.game.id TransactionType.reversal c.original.amount
            c.original.total_amount c.comment r.affected_players)
          c.original
          m
          (invert_changes (get_or c.original_registry_changes []))
unfolding reverse_transaction
reverse_transaction-form c r m h e =
    let done = reverse_transaction-Reverses c r h in
    let valid = done.valid in let reversed = done.reversed in ground arith

as_reversal-marks :
    (game_id : GameId) (type : TransactionType) (amount total : ℤ) (comment : Option String)
    (affected : List PlayerBalanceChange) (original : Transaction) (m : Option MortgageReversal)
    (changes : List PropertyChange)
    → let t =
        (as_reversal
          (create_result game_id type amount total comment affected)
          original
          m
          changes).transaction in
      (t.reverses_transaction_id ≡ some original.id) × (get_or t.registry_changes [] ≡ changes)
unfolding as_reversal create_result
as_reversal-marks game_id type amount total comment affected original m [] = (refl, refl)
as_reversal-marks game_id type amount total comment affected original m (_ ∷ _) = (refl, refl)

-- A reversal that returns names the transaction that it moves back, records the original's
-- participants in their order with the opposite deltas, and carries the original's registry
-- changes, inverted.
pub reverse_transaction-opposite :
    (c : ReversalCommand) (r : BankingOperationResult)
    → reverse_transaction c ≡ ok r
    → (r.transaction.participants ≡ map opposite c.original.participants)
      × ((r.transaction.reverses_transaction_id ≡ some c.original.id)
          × (get_or r.transaction.registry_changes []
              ≡ invert_changes (get_or c.original_registry_changes [])))
reverse_transaction-opposite c r h =
    let done = reverse_transaction-Reverses c r h in
    let (m, e) = reverse_transaction-mortgage c r h in
    let form = reverse_transaction-form c r m h e in
    let (named, registry) =
      as_reversal-marks c.game.id TransactionType.reversal c.original.amount c.original.total_amount
        c.comment r.affected_players c.original m
        (invert_changes (get_or c.original_registry_changes [])) in
    (
      done.recorded
          ∙ reverse_participants-opposite c.players c.original.participants r.affected_players
              done.reversed,
      (
        ap (λ (x : BankingOperationResult). x.transaction.reverses_transaction_id) form ∙ named,
        ap (λ (x : BankingOperationResult). get_or x.transaction.registry_changes []) form
            ∙ registry,
      ),
    )
