-- ===== src/Banking/Effects/Estate.antt =====
-- What a bankruptcy takes and pays.
use mathlib.Core.Path.{ap₂}
use monopoly_bank.Prelude.{
  ◌≡◌, refl, ap, ◌∙◌, ◌↔◌, ◌⊎◌, inl, inr, Option, none, some, List, [], ◌∷◌, ◌++◌, map, arith,
  if◌then◌else◌, Bool-cases,
}
use monopoly_bank.Prelude.Int.{ℤ, pos, ◌+ℤ◌, ◌-ℤ◌, neg, ◌≤ℤ◌, ◌<ℤ◌, eqb_ℤ, min_ℤ, int_laws, sum}
use monopoly_bank.Types.{GameId, Player}
use monopoly_bank.Outcome.{ok, ok-injective, Result-cases}
use monopoly_bank.Money.{bank_loan_interest}
use monopoly_bank.Money.Rounding.{bank_loan_interest-rounds}
use monopoly_bank.Reversal.{is_set}
use monopoly_bank.Banking.Command.{BankLoanOwed, BankruptcyCommand}
use monopoly_bank.Banking.Pending.{
  SettlementOutcome, BankLoanSettlement, PlayerBalanceChange, BankingOperationResult,
}
use monopoly_bank.Banking.Deltas.{create_balance_change, participant_of}
use monopoly_bank.Banking.Loans.{outstanding_of}
use monopoly_bank.Banking.Bankruptcy.{
  outcome_of, settle_bank_loan, bank_take, change_unless_zero, creditor_changes, declare_bankruptcy,
}
use monopoly_bank.Banking.Effects.Changes.{create_balance_change-delta}
use monopoly_bank.Banking.Effects.Flow.{net_of, net}
use monopoly_bank.Banking.Effects.Insolvency.{
  creditor_net, Insolvency, declare_bankruptcy-Insolvency,
}

-- The settlement by its parts.
settle_bank_loan-parts :
    (game_id : GameId) (owed : BankLoanOwed) (bankrupt : Player) (wallet interest : ℤ)
    (settlement : BankLoanSettlement)
    → bank_loan_interest owed.loan.principal owed.suggested_rate_percent ≡ ok interest
    → settle_bank_loan game_id (some owed) bankrupt wallet ≡ ok (some settlement)
    → let taken = min_ℤ wallet (outstanding_of owed.loan +ℤ interest) in
      (settlement.paid_principal ≡ min_ℤ taken (outstanding_of owed.loan))
      × ((settlement.paid_interest ≡ taken -ℤ settlement.paid_principal)
          × (settlement.outcome ≡ outcome_of settlement.paid_principal (outstanding_of owed.loan)))
unfolding settle_bank_loan
settle_bank_loan-parts game_id owed bankrupt wallet interest settlement charged h = ground arith

-- The smaller of the debt and the wallet covers no more of the principal than the wallet does.
min_ℤ-capped :
    (wallet outstanding interest : ℤ)
    → pos 0 ≤ℤ interest
    → min_ℤ (min_ℤ wallet (outstanding +ℤ interest)) outstanding ≡ min_ℤ wallet outstanding
unfolding min_ℤ ◌+ℤ◌
min_ℤ-capped wallet outstanding interest h = ground arith

interest_left :
    (taken outstanding : ℤ) (settlement : BankLoanSettlement)
    → settlement.paid_principal ≡ min_ℤ taken outstanding
    → settlement.paid_interest ≡ taken -ℤ settlement.paid_principal
    → pos 0 ≤ℤ settlement.paid_interest
unfolding min_ℤ ◌-ℤ◌
interest_left taken outstanding settlement principal rest = ground arith

bank_take-eq :
    (settlement : BankLoanSettlement) (taken : ℤ)
    → settlement.paid_interest ≡ taken -ℤ settlement.paid_principal
    → bank_take (some settlement) ≡ taken
bank_take-eq settlement taken e = rw e (omega int_laws)

interest_last :
    (taken outstanding : ℤ) (settlement : BankLoanSettlement)
    → settlement.paid_principal ≡ min_ℤ taken outstanding
    → settlement.paid_interest ≡ taken -ℤ settlement.paid_principal
    → pos 0 <ℤ settlement.paid_interest
    → settlement.paid_principal ≡ outstanding
unfolding min_ℤ ◌-ℤ◌
interest_last taken outstanding settlement principal rest paid = ground arith

outcome_iff :
    (wallet outstanding : ℤ)
    → (outcome_of (min_ℤ wallet outstanding) outstanding ≡ SettlementOutcome.repaid)
      ↔ (outstanding ≤ℤ wallet)
unfolding min_ℤ
outcome_iff wallet outstanding = ground arith

-- A settlement that returns, with the interest that the bank charges: the bank takes of the wallet
-- what covers its debt, principal first. Its take is the smaller of the wallet and the debt; the
-- principal paid is the smaller of the wallet and what is outstanding; the interest paid is not
-- negative, and is paid only once the principal is covered; and the loan counts as repaid exactly
-- when the wallet holds what is outstanding.
pub settle_bank_loan-principal_first :
    (game_id : GameId) (owed : BankLoanOwed) (bankrupt : Player) (wallet interest : ℤ)
    (settlement : BankLoanSettlement)
    → bank_loan_interest owed.loan.principal owed.suggested_rate_percent ≡ ok interest
    → settle_bank_loan game_id (some owed) bankrupt wallet ≡ ok (some settlement)
    → (bank_take (some settlement) ≡ min_ℤ wallet (outstanding_of owed.loan +ℤ interest))
      × ((settlement.paid_principal ≡ min_ℤ wallet (outstanding_of owed.loan))
          × ((pos 0 ≤ℤ settlement.paid_interest)
              × ((pos 0 <ℤ settlement.paid_interest
                    → settlement.paid_principal ≡ outstanding_of owed.loan)
                  × ((settlement.outcome ≡ SettlementOutcome.repaid)
                      ↔ (outstanding_of owed.loan ≤ℤ wallet)))))
settle_bank_loan-principal_first game_id owed bankrupt wallet interest settlement charged h =
    let (principal, (rest, outcome)) =
      settle_bank_loan-parts game_id owed bankrupt wallet interest settlement charged h in
    let taken = min_ℤ wallet (outstanding_of owed.loan +ℤ interest) in
    let (_, positive, _, _) =
      bank_loan_interest-rounds owed.loan.principal owed.suggested_rate_percent interest charged in
    let capped = principal ∙ min_ℤ-capped wallet (outstanding_of owed.loan) interest positive in
    (
      bank_take-eq settlement taken rest,
      (
        capped,
        (
          interest_left taken (outstanding_of owed.loan) settlement principal rest,
          (
            λ paid. interest_last taken (outstanding_of owed.loan) settlement principal rest paid,
            rw (outcome, capped) (outcome_iff wallet (outstanding_of owed.loan)),
          ),
        ),
      ),
    )

net_of-nil : net_of [] ≡ pos 0
unfolding net_of sum
net_of-nil = refl

net_of-single :
    (change : PlayerBalanceChange) → net_of (participant_of change ∷ []) ≡ change.balance_delta
unfolding net_of sum
net_of-single change = omega int_laws

net_of-append :
    (xs ys : List PlayerBalanceChange)
    → net_of (map participant_of (xs ++ ys))
      ≡ net_of (map participant_of xs) +ℤ net_of (map participant_of ys)
unfolding net_of sum
net_of-append [] ys = omega int_laws
net_of-append (x ∷ xs) ys = rw (net_of-append xs ys) (omega int_laws)

change_unless_zero-cases :
    (player : Player) (delta : ℤ) (changes : List PlayerBalanceChange)
    → change_unless_zero player delta ≡ ok changes
    → ((delta ≡ pos 0) × (changes ≡ []))
      ⊎ ((change : PlayerBalanceChange) × (change.balance_delta ≡ delta) × (changes ≡ change ∷ []))
unfolding change_unless_zero
change_unless_zero-cases player delta changes h = elim (Bool-cases (eqb_ℤ delta (pos 0))) [
  | inl zero_delta ↦ inl (ground arith, ground arith)
  | inr moved ↦ elim (Result-cases (create_balance_change player delta)) [
    | inl (change, made) ↦
        inr (change, create_balance_change-delta player delta change made, ground arith)
    | inr (e, failed) ↦ absurd (ground arith)
  ]
]

change_unless_zero-net :
    (player : Player) (delta : ℤ) (changes : List PlayerBalanceChange)
    → change_unless_zero player delta ≡ ok changes
    → net_of (map participant_of changes) ≡ delta
change_unless_zero-net player delta changes h =
    elim (change_unless_zero-cases player delta changes h) [
      | inl (none_owed, empty) ↦ rw (empty, none_owed) net_of-nil
      | inr (change, same, single) ↦ rw single (net_of-single change ∙ same)
    ]

creditor_changes-net :
    (creditor : Option Player) (net : ℤ) (changes : List PlayerBalanceChange)
    → creditor_changes creditor net ≡ ok changes
    → net_of (map participant_of changes) ≡ (if is_set creditor then net else pos 0)
unfolding creditor_changes
creditor_changes-net none net changes h = rw (← ok-injective h) net_of-nil
creditor_changes-net (some creditor) net changes h = change_unless_zero-net creditor net changes h

-- A bankruptcy that returns moves, in sum, what the bankrupt player loses, the whole balance, and
-- what the creditor receives: the wallet (balance and proceeds of the buildings) less the bank's
-- take and the fees for mortgaged tiles. Without a creditor nobody receives anything.
pub declare_bankruptcy-net :
    (c : BankruptcyCommand) (r : BankingOperationResult)
    → declare_bankruptcy c ≡ ok r
    → (t : Insolvency c r) × (net r
        ≡ neg t.bankrupt.balance
          +ℤ (if is_set t.creditor then creditor_net t.bankrupt t.assets t.settlement else pos 0))
declare_bankruptcy-net c r h =
    let t = declare_bankruptcy-Insolvency c r h in
    let own = change_unless_zero-net t.bankrupt (neg t.bankrupt.balance) t.own t.settles.own_made in
    let others =
      creditor_changes-net t.creditor (creditor_net t.bankrupt t.assets t.settlement) t.others
        t.settles.others_made in
    (
      t,
      ap net_of (t.settles.recorded ∙ ap (map participant_of) t.settles.affected)
          ∙ net_of-append t.own t.others
          ∙ ap₂ ◌+ℤ◌ own others,
    )
