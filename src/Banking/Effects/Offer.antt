-- ===== src/Banking/Effects/Offer.antt =====
-- The operation keeps to the offer: whoever reverses was the owner's to offer.
use monopoly_bank.Prelude.{ℕ, ◌≡◌, refl, inl, true, Option, none, List, [], arith, get_or}
use monopoly_bank.Types.{PlayerId}
use monopoly_bank.Outcome.{ok}
use monopoly_bank.Reversal.{
  reversible_transaction, find_reversal_dependency, allowed, reversal_availability,
}
use monopoly_bank.Reversal.Laws.{reversal_availability_iff}
use monopoly_bank.Banking.Command.{ReversalCommand}
use monopoly_bank.Banking.Pending.{BankingOperationResult}
use monopoly_bank.Banking.Undo.{ensure_not_reversed, ensure_no_dependency, reverse_transaction}
use monopoly_bank.Banking.Effects.Lawful.{reverse_transaction-Reverses}

reverse_transaction-reversible :
    (c : ReversalCommand) (r : BankingOperationResult)
    → reverse_transaction c ≡ ok r
    → reversible_transaction c.original ≡ true
unfolding reverse_transaction
reverse_transaction-reversible c r h =
    let valid = (reverse_transaction-Reverses c r h).valid in ground arith

reverse_transaction-first :
    (c : ReversalCommand) (r : BankingOperationResult)
    → reverse_transaction c ≡ ok r
    → c.original.reversed_by_transaction_id ≡ none
unfolding reverse_transaction ensure_not_reversed
reverse_transaction-first c r h =
    let valid = (reverse_transaction-Reverses c r h).valid in ground arith

reverse_transaction-unblocked :
    (c : ReversalCommand) (r : BankingOperationResult)
    → reverse_transaction c ≡ ok r
    → find_reversal_dependency c.original (get_or c.later []) (get_or c.group_tile_ids []) ≡ none
unfolding reverse_transaction ensure_no_dependency
reverse_transaction-unblocked c r h =
    let valid = (reverse_transaction-Reverses c r h).valid in ground arith

-- A reversal that returns was one to offer: with the same later transactions and group tiles, the
-- offer to the owner is `allowed`, whatever the time and the wallets that the owner controls.
pub reverse_transaction-allowed :
    (c : ReversalCommand) (r : BankingOperationResult) (controlled : List PlayerId)
    (created : Option ℕ) (now : ℕ)
    → reverse_transaction c ≡ ok r
    → reversal_availability c.original true controlled created now
        (get_or c.later [])
        (get_or c.group_tile_ids [])
      ≡ allowed
reverse_transaction-allowed c r controlled created now h =
    (reversal_availability_iff c.original true controlled created now (get_or c.later [])
        (get_or c.group_tile_ids [])).1
      (
        reverse_transaction-reversible c r h,
        (reverse_transaction-first c r h, (reverse_transaction-unblocked c r h, inl refl)),
      )
