-- ===== src/Banking/Effects/Flow.antt =====
-- The money that an operation brings into the wallets: what the bank or the pot pays, less what it
-- takes.
use monopoly_bank.Prelude.{◌≡◌, refl, sym, ap, ◌∙◌, none, some, List, [], ◌∷◌, ◌++◌, map, length}
use monopoly_bank.Prelude.Int.{ℤ, pos, ◌+ℤ◌, neg, ◌*ℤ◌, int_laws, *ℤ_zero, *ℤ_suc, *ℤ_neg, sum}
use monopoly_bank.Types.{PlayerId, Game, Player, TransactionParticipant}
use monopoly_bank.Banking.Pending.{PlayerBalanceChange, BankingOperationResult}
use monopoly_bank.Banking.Deltas.{
  PlayerDelta, delta_for, transfer_deltas, fan_out_deltas, fan_in_deltas, repayment_deltas,
  participant_of,
}
use monopoly_bank.Banking.Transfers.{ids}
use monopoly_bank.Banking.Effects.Changes.{Follows, apply_deltas-IsChange}
use monopoly_bank.Banking.Effects.Applies.{Applies}

unfoldable pub net_of : List TransactionParticipant → ℤ
net_of participants = sum (map (λ p. p.balance_delta) participants)

abbrev pub net : BankingOperationResult → ℤ
net r = net_of r.transaction.participants

pub sum_deltas : List PlayerDelta → ℤ
sum_deltas deltas = sum (map (λ d. d.delta) deltas)

net_of-participants :
    (changes : List PlayerBalanceChange) (deltas : List PlayerDelta)
    → Follows changes deltas
    → net_of (map participant_of changes) ≡ sum_deltas deltas
unfolding net_of sum_deltas sum
net_of-participants [] [] h = refl
net_of-participants [] (d ∷ ds) h = absurd h
net_of-participants (c ∷ cs) [] h = absurd h
net_of-participants (c ∷ cs) (d ∷ ds) ((_, same), rest) = cc (same, net_of-participants cs ds rest)

pub Applies-net :
    {game : Game} {players : List Player} {deltas : List PlayerDelta} {r : BankingOperationResult}
    → Applies game players deltas r
    → net r ≡ sum_deltas deltas
Applies-net {players = players} {deltas = deltas} {r = r} a = rw a.recorded (
    net_of-participants r.affected_players deltas
      (apply_deltas-IsChange players deltas r.affected_players a.applied).1)

pub sum_deltas-transfer_deltas :
    (from to : PlayerId) (amount : ℤ)
    → sum_deltas (transfer_deltas (some from) (some to) amount) ≡ pos 0
unfolding sum_deltas transfer_deltas sum
sum_deltas-transfer_deltas from to amount = omega int_laws

pub sum_deltas-pay :
    (from : PlayerId) (amount : ℤ)
    → sum_deltas (transfer_deltas (some from) none amount) ≡ neg amount
unfolding sum_deltas transfer_deltas sum
sum_deltas-pay from amount = omega int_laws

pub sum_deltas-receive :
    (to : PlayerId) (amount : ℤ) → sum_deltas (transfer_deltas none (some to) amount) ≡ amount
unfolding sum_deltas transfer_deltas sum
sum_deltas-receive to amount = omega int_laws

sum_deltas-same :
    (amount : ℤ) (ids : List PlayerId)
    → sum_deltas (map (λ id. delta_for id amount) ids) ≡ amount *ℤ pos (length ids)
unfolding sum_deltas sum
sum_deltas-same amount [] = sym (*ℤ_zero amount)
sum_deltas-same amount (id ∷ ids) =
    rw (*ℤ_suc amount (length ids)) (ap (λ s. amount +ℤ s) (sum_deltas-same amount ids))

sum_deltas-cons :
    (id : PlayerId) (amount : ℤ) (ds : List PlayerDelta)
    → sum_deltas (delta_for id amount ∷ ds) ≡ amount +ℤ sum_deltas ds
unfolding sum_deltas sum
sum_deltas-cons id amount ds = refl

sum_deltas-single : (id : PlayerId) (amount : ℤ) → sum_deltas (delta_for id amount ∷ []) ≡ amount
unfolding sum_deltas sum
sum_deltas-single id amount = omega int_laws

sum_deltas-append :
    (ds es : List PlayerDelta) → sum_deltas (ds ++ es) ≡ sum_deltas ds +ℤ sum_deltas es
unfolding sum_deltas sum
sum_deltas-append [] es = omega int_laws
sum_deltas-append (d ∷ ds) es = rw (sum_deltas-append ds es) (omega int_laws)

pub sum_deltas-fan_out_deltas :
    (payer : PlayerId) (recipients : List PlayerId) (amount : ℤ)
    → sum_deltas (fan_out_deltas payer recipients amount) ≡ pos 0
unfolding fan_out_deltas
sum_deltas-fan_out_deltas payer recipients amount =
    sum_deltas-cons payer (neg amount *ℤ pos (length recipients)) _
    ∙ rw (sum_deltas-same amount recipients, *ℤ_neg amount (pos (length recipients)))
        (omega int_laws)

pub sum_deltas-fan_in_deltas :
    (recipient : PlayerId) (payers : List PlayerId) (amount : ℤ)
    → sum_deltas (fan_in_deltas recipient payers amount) ≡ pos 0
unfolding fan_in_deltas
sum_deltas-fan_in_deltas recipient payers amount =
    sum_deltas-append (map (λ payer. delta_for payer (neg amount)) payers) _
    ∙ rw
        (
          sum_deltas-same (neg amount) payers,
          *ℤ_neg amount (pos (length payers)),
          sum_deltas-single recipient (amount *ℤ pos (length payers)),
        )
        (omega int_laws)

pub sum_deltas-repayment_deltas :
    (borrower lender : PlayerId) (amount : ℤ)
    → sum_deltas (repayment_deltas borrower (some lender) amount (pos 0)) ≡ pos 0
unfolding sum_deltas repayment_deltas sum
sum_deltas-repayment_deltas borrower lender amount = omega int_laws

pub sum_deltas-bank_repayment :
    (borrower : PlayerId) (amount interest : ℤ)
    → sum_deltas (repayment_deltas borrower none amount interest) ≡ neg (amount +ℤ interest)
unfolding sum_deltas repayment_deltas sum
sum_deltas-bank_repayment borrower amount interest = omega int_laws
