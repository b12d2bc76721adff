-- ===== src/Banking/Effects/Conservation.antt =====
-- The flow of money by operation: which conserve the sum of the wallets, and what the others bring
-- in or take out.
use monopoly_bank.Prelude.{
  ◌≡◌, sym, ap, ◌∙◌, inl, inr, Option, none, some, arith, if◌then◌else◌, Option-cases, value-eq,
}
use monopoly_bank.Prelude.Int.{ℤ, pos, neg, ◌*ℤ◌}
use monopoly_bank.Types.{PlayerId}
use monopoly_bank.Outcome.{ok}
use monopoly_bank.Money.{redemption_cost, TextHost}
use monopoly_bank.Property.Lookup.{state_of}
use monopoly_bank.Banking.Command.{PayRentCommand, RepayLoanCommand}
use monopoly_bank.Banking.Pending.{BankingOperationResult}
use monopoly_bank.Banking.Transfers.{is_true}
use monopoly_bank.Banking.Loans.{outstanding_of, player_lender, repay_loan}
use monopoly_bank.Banking.Holdings.{require_owner, rent_payment}
use monopoly_bank.Banking.Dispatch.{
  Operation, player_to_player_op, player_to_bank_op, to_jackpot_op, bank_to_player_op,
  player_to_all_op, all_to_player_op, pass_go_op, jackpot_payout_op, auction_op, mortgage_tile_op,
  purchase_op, build_op, sell_op, trade_op, rent_op, mortgage_op, redeem_op, loan_op, repay_op,
  bank_loan_op, repay_bank_op, reversal_op, bankruptcy_op, execute,
}
use monopoly_bank.Banking.Effects.Cash.{
  player_to_player-Applies, player_to_bank-Applies, to_jackpot-Applies, jackpot_payout-Applies,
  bank_to_player-Applies, player_to_all-Applies, all_to_player-Applies, pass_go-Applies,
}
use monopoly_bank.Banking.Effects.Credit.{
  issue_loan-Applies, repay_loan-Applies, issue_bank_loan-Applies, repay_bank_loan-Repays,
}
use monopoly_bank.Banking.Effects.Tiles.{
  pay_auction-Applies, purchase_property-Applies, mortgage_property-Applies, mortgage_tile-Applies,
  redeem_mortgage-Applies, rent_payment-Applies, build_property-Applies, sell_building-Applies,
}
use monopoly_bank.Banking.Effects.Flow.{
  net, Applies-net, sum_deltas-transfer_deltas, sum_deltas-pay, sum_deltas-receive,
  sum_deltas-fan_out_deltas, sum_deltas-fan_in_deltas, sum_deltas-repayment_deltas,
  sum_deltas-bank_repayment,
}

-- What comes into the wallets from the bank or the pot; a payment to them counts negative. `none`
-- for a trade, a reversal and a bankruptcy, which have laws of their own.
abbrev inflow : Operation → BankingOperationResult → Option ℤ
inflow (player_to_player_op c) r = some (pos 0)
inflow (player_to_bank_op c) r = some (neg c.amount)
inflow (to_jackpot_op c) r = some (neg c.amount)
inflow (bank_to_player_op c) r = some (c.amount)
inflow (player_to_all_op c) r = some (pos 0)
inflow (all_to_player_op c) r = some (pos 0)
inflow (pass_go_op c) r =
    some (c.game.pass_go_reward *ℤ (if is_true c.exact_landing then pos 2 else pos 1))
inflow (jackpot_payout_op c) r = some (c.jackpot)
inflow (auction_op c) r = some (neg c.amount)
inflow (mortgage_tile_op c) r = some (r.transaction.amount)
inflow (purchase_op c) r = some (neg r.transaction.amount)
inflow (build_op c) r = some (neg r.transaction.amount)
inflow (sell_op c) r = some (r.transaction.amount)
inflow (rent_op c) r = some (pos 0)
inflow (mortgage_op c) r = some (c.amount)
inflow (redeem_op c) r = some (neg (redemption_cost c.mortgage.mortgage_value))
inflow (loan_op c) r = some (pos 0)
inflow (repay_op c) r = some (pos 0)
inflow (bank_loan_op c) r = some (c.amount)
inflow (repay_bank_op c) r = some (neg r.transaction.total_amount)
inflow (trade_op c) r = none
inflow (reversal_op c) r = none
inflow (bankruptcy_op c) r = none

rent_payment-owner :
    (c : PayRentCommand) (r : BankingOperationResult)
    → rent_payment c ≡ ok r
    → (owner : PlayerId) × ((state_of c.property.registry c.tile_id).owner_player_id ≡ some owner)
unfolding rent_payment require_owner
rent_payment-owner c r h =
    elim (Option-cases (state_of c.property.registry c.tile_id).owner_player_id) [
      | inl unowned_tile ↦ absurd (ground arith)
      | inr owned ↦ owned
    ]

repay_loan-lender :
    (c : RepayLoanCommand) (r : BankingOperationResult)
    → repay_loan c ≡ ok r
    → (lender : PlayerId) × (c.loan.lender_player_id ≡ some lender)
unfolding repay_loan player_lender
repay_loan-lender c r h = elim (Option-cases c.loan.lender_player_id) [
  | inl bank_loan ↦ absurd (ground arith)
  | inr lent ↦ lent
]

-- For every operation but a trade, a reversal and a bankruptcy, the recorded balance deltas sum to
-- the inflow of the operation: transfers between players, rent, player loans and their repayments
-- conserve the sum of the wallets; a payment to the bank or the pot lowers it by the amount
-- charged; a payment from them raises it by the amount paid.
pub execute-net :
    (host : TextHost) (op : Operation) (r : BankingOperationResult) (flow : ℤ)
    → execute host op ≡ ok r
    → inflow op r ≡ some flow
    → net r ≡ flow
unfolding execute
execute-net host (player_to_player_op c) r flow h e =
    Applies-net (player_to_player-Applies c r h)
    ∙ sum_deltas-transfer_deltas c.source_player_id c.destination_player_id c.amount
    ∙ value-eq e
execute-net host (player_to_bank_op c) r flow h e =
    Applies-net (player_to_bank-Applies c r h) ∙ sum_deltas-pay c.player_id _ ∙ value-eq e
execute-net host (to_jackpot_op c) r flow h e =
    Applies-net (to_jackpot-Applies c r h) ∙ sum_deltas-pay c.player_id _ ∙ value-eq e
execute-net host (bank_to_player_op c) r flow h e =
    Applies-net (bank_to_player-Applies c r h) ∙ sum_deltas-receive c.player_id _ ∙ value-eq e
execute-net host (player_to_all_op c) r flow h e =
    Applies-net (player_to_all-Applies c r h)
    ∙ sum_deltas-fan_out_deltas c.player_id _ c.amount_per_player
    ∙ value-eq e
execute-net host (all_to_player_op c) r flow h e =
    Applies-net (all_to_player-Applies c r h)
    ∙ sum_deltas-fan_in_deltas c.player_id _ c.amount_per_player
    ∙ value-eq e
execute-net host (pass_go_op c) r flow h e =
    Applies-net (pass_go-Applies c r h) ∙ sum_deltas-receive c.player_id _ ∙ value-eq e
execute-net host (jackpot_payout_op c) r flow h e =
    Applies-net (jackpot_payout-Applies c r h) ∙ sum_deltas-receive c.player_id _ ∙ value-eq e
execute-net host (auction_op c) r flow h e =
    Applies-net (pay_auction-Applies c r h) ∙ sum_deltas-pay c.player_id _ ∙ value-eq e
execute-net host (mortgage_tile_op c) r flow h e =
    Applies-net (mortgage_tile-Applies host c r h) ∙ sum_deltas-receive c.player_id _ ∙ value-eq e
execute-net host (purchase_op c) r flow h e =
    Applies-net (purchase_property-Applies c r h) ∙ sum_deltas-pay c.player_id _ ∙ value-eq e
execute-net host (build_op c) r flow h e =
    Applies-net (build_property-Applies c r h) ∙ sum_deltas-pay c.player_id _ ∙ value-eq e
execute-net host (sell_op c) r flow h e =
    Applies-net (sell_building-Applies c r h) ∙ sum_deltas-receive c.player_id _ ∙ value-eq e
execute-net host (rent_op c) r flow h e =
    let (owner, owned) = rent_payment-owner c r h in
    Applies-net (rent_payment-Applies c r h)
    ∙ rw owned (sum_deltas-transfer_deltas c.payer_player_id owner r.transaction.amount)
    ∙ value-eq e
execute-net host (mortgage_op c) r flow h e =
    Applies-net (mortgage_property-Applies host c r h)
    ∙ sum_deltas-receive c.player_id _
    ∙ value-eq e
execute-net host (redeem_op c) r flow h e =
    Applies-net (redeem_mortgage-Applies c r h) ∙ sum_deltas-pay c.player_id _ ∙ value-eq e
execute-net host (loan_op c) r flow h e =
    Applies-net (issue_loan-Applies c r h)
    ∙ sum_deltas-transfer_deltas c.lender_player_id c.borrower_player_id c.amount
    ∙ value-eq e
execute-net host (repay_op c) r flow h e =
    let (lender, lent) = repay_loan-lender c r h in
    Applies-net (repay_loan-Applies c r h)
    ∙ rw lent (sum_deltas-repayment_deltas c.player_id lender c.amount)
    ∙ value-eq e
execute-net host (bank_loan_op c) r flow h e =
    Applies-net (issue_bank_loan-Applies c r h) ∙ sum_deltas-receive c.player_id _ ∙ value-eq e
execute-net host (repay_bank_op c) r flow h e =
    let (interest, repays) = repay_bank_loan-Repays c r h in
    Applies-net repays.applies
    ∙ sum_deltas-bank_repayment c.player_id (outstanding_of c.loan) interest
    ∙ ap neg (sym repays.total)
    ∙ value-eq e
execute-net host (trade_op c) r flow h e = cc
execute-net host (reversal_op c) r flow h e = cc
execute-net host (bankruptcy_op c) r flow h e = cc
