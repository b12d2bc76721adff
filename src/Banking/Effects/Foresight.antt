-- ===== src/Banking/Effects/Foresight.antt =====
-- What the preview promises: the deltas that the operation applies, and the wallet that must
-- authorise them.
use monopoly_bank.Prelude.{
  ◌≡◌, refl, ◌⊎◌, inl, inr, Bool, true, not, Option, none, some, List, [], ◌∷◌, ◌++◌, map, arith,
  ◌==◌, Bool-cases, value-eq, length, any, all,
}
use monopoly_bank.Prelude.Int.{ℤ, pos, neg, ◌*ℤ◌}
use monopoly_bank.Types.{PlayerId, Player}
use monopoly_bank.Outcome.{ok}
use monopoly_bank.Money.{TextHost}
use monopoly_bank.Banking.Pending.{BankingOperationResult}
use monopoly_bank.Banking.Guards.{is_bankrupt}
use monopoly_bank.Banking.Deltas.{
  PlayerDelta, delta_for, transfer_deltas, fan_out_deltas, fan_in_deltas, repayment_deltas,
}
use monopoly_bank.Banking.Transfers.{other_active, ids}
use monopoly_bank.Banking.Preview.{
  PlayerTransactionRequest, player_to_player_request, player_to_bank_request, to_jackpot_request,
  bank_to_player_request, player_to_all_request, all_to_player_request, pass_go_request,
  jackpot_payout_request, mortgage_request, tile_mortgage_request, purchase_request, build_request,
  sell_request, rent_request, redeem_request, trade_request, loan_request, bank_loan_request,
  repayment_request, PreviewContext, others, lender_of, preview_deltas, controlled_of_request,
}
use monopoly_bank.Banking.Dispatch.{
  Operation, player_to_player_op, player_to_bank_op, to_jackpot_op, bank_to_player_op,
  player_to_all_op, all_to_player_op, pass_go_op, jackpot_payout_op, auction_op, mortgage_tile_op,
  purchase_op, build_op, sell_op, trade_op, rent_op, mortgage_op, redeem_op, loan_op, repay_op,
  bank_loan_op, repay_bank_op, reversal_op, bankruptcy_op, execute, players_of, game_of,
}
use monopoly_bank.Banking.Effects.Applies.{Applies}
use monopoly_bank.Banking.Effects.Cash.{
  player_to_player-Applies, player_to_bank-Applies, to_jackpot-Applies, bank_to_player-Applies,
  player_to_all-Applies, all_to_player-Applies,
}
use monopoly_bank.Banking.Effects.Credit.{issue_bank_loan-Applies}
use monopoly_bank.Banking.Effects.Tiles.{mortgage_property-Applies}

-- The request of an operation, for those whose preview rests on the request alone.
abbrev pub request_of : Operation → Option PlayerTransactionRequest
request_of (player_to_player_op c) =
    some (player_to_player_request c.source_player_id c.destination_player_id c.amount)
request_of (player_to_bank_op c) = some (player_to_bank_request c.player_id c.amount)
request_of (to_jackpot_op c) = some (to_jackpot_request c.player_id c.amount)
request_of (bank_to_player_op c) = some (bank_to_player_request c.player_id c.amount)
request_of (player_to_all_op c) = some (player_to_all_request c.player_id c.amount_per_player)
request_of (all_to_player_op c) = some (all_to_player_request c.player_id c.amount_per_player)
request_of (mortgage_op c) = some (mortgage_request c.player_id c.amount)
request_of (bank_loan_op c) = some (bank_loan_request c.player_id c.amount)
request_of _ = none

others-active :
    (players : List Player) (player_id : PlayerId)
    → all (λ p. not (is_bankrupt p)) players ≡ true
    → ids (other_active player_id players) ≡ others players player_id
others-active [] player_id h = refl
others-active (p ∷ ps) player_id h =
    let rest = others-active ps player_id in
    elim (Bool-cases (is_bankrupt p)) [
      | inl broke ↦ absurd (ground arith)
      | inr solvent ↦ ground arith
    ]

-- When nobody is bankrupt and the operation returns, the preview of a payment, a bank payment, a
-- payment to or by all, a mortgage by name or a bank loan shows exactly the deltas that the
-- operation applies.
pub preview_deltas-exact :
    (host : TextHost) (op : Operation) (request : PlayerTransactionRequest)
    (context : PreviewContext) (r : BankingOperationResult)
    → request_of op ≡ some request
    → all (λ p. not (is_bankrupt p)) (players_of op) ≡ true
    → execute host op ≡ ok r
    → Applies (game_of op) (players_of op) (preview_deltas request (players_of op) context) r
unfolding execute preview_deltas
preview_deltas-exact host (player_to_player_op c) request context r e h x =
    rw (← value-eq e) (player_to_player-Applies c r x)
preview_deltas-exact host (player_to_bank_op c) request context r e h x =
    rw (← value-eq e) (player_to_bank-Applies c r x)
preview_deltas-exact host (to_jackpot_op c) request context r e h x =
    rw (← value-eq e) (to_jackpot-Applies c r x)
preview_deltas-exact host (bank_to_player_op c) request context r e h x =
    rw (← value-eq e) (bank_to_player-Applies c r x)
preview_deltas-exact host (mortgage_op c) request context r e h x =
    rw (← value-eq e) (mortgage_property-Applies host c r x)
preview_deltas-exact host (bank_loan_op c) request context r e h x =
    rw (← value-eq e) (issue_bank_loan-Applies c r x)
preview_deltas-exact host (player_to_all_op c) request context r e h x =
    rw (← value-eq e, ← others-active c.players c.player_id h) (player_to_all-Applies c r x)
preview_deltas-exact host (all_to_player_op c) request context r e h x =
    rw (← value-eq e, ← others-active c.players c.player_id h) (all_to_player-Applies c r x)
preview_deltas-exact host (pass_go_op c) request context r e h x = cc
preview_deltas-exact host (jackpot_payout_op c) request context r e h x = cc
preview_deltas-exact host (auction_op c) request context r e h x = cc
preview_deltas-exact host (mortgage_tile_op c) request context r e h x = cc
preview_deltas-exact host (purchase_op c) request context r e h x = cc
preview_deltas-exact host (build_op c) request context r e h x = cc
preview_deltas-exact host (sell_op c) request context r e h x = cc
preview_deltas-exact host (trade_op c) request context r e h x = cc
preview_deltas-exact host (rent_op c) request context r e h x = cc
preview_deltas-exact host (redeem_op c) request context r e h x = cc
preview_deltas-exact host (loan_op c) request context r e h x = cc
preview_deltas-exact host (repay_op c) request context r e h x = cc
preview_deltas-exact host (repay_bank_op c) request context r e h x = cc
preview_deltas-exact host (reversal_op c) request context r e h x = cc
preview_deltas-exact host (bankruptcy_op c) request context r e h x = cc

abbrev pub touches : PlayerId → List PlayerDelta → Bool
touches player_id deltas = any (λ d. d.player_id == player_id) deltas

touches-append :
    (player_id : PlayerId) (xs ys : List PlayerDelta)
    → touches player_id ys ≡ true
    → touches player_id (xs ++ ys) ≡ true
touches-append player_id [] ys h = h
touches-append player_id (x ∷ xs) ys h = ground (arith, touches-append player_id xs ys)

touches-fan_in :
    (recipient : PlayerId) (payers : List PlayerId) (amount : ℤ)
    → touches recipient (fan_in_deltas recipient payers amount) ≡ true
unfolding fan_in_deltas
touches-fan_in recipient payers amount =
    touches-append recipient (map (λ payer. delta_for payer (neg amount)) payers)
      (delta_for recipient (amount *ℤ pos (length payers)) ∷ []) (ground arith)

touches-pay :
    (payer : PlayerId) (to : Option PlayerId) (amount : ℤ)
    → touches payer (transfer_deltas (some payer) to amount) ≡ true
unfolding transfer_deltas
touches-pay payer none amount = ground arith
touches-pay payer (some to) amount = ground arith

touches-repayment :
    (borrower : PlayerId) (lender : Option PlayerId) (amount interest : ℤ)
    → touches borrower (repayment_deltas borrower lender amount interest) ≡ true
unfolding repayment_deltas
touches-repayment borrower none amount interest = ground arith
touches-repayment borrower (some lender) amount interest = ground arith

-- Every preview that shows a change shows one of the wallet whose controller must authorise the
-- request.
pub preview_deltas-authorised :
    (request : PlayerTransactionRequest) (players : List Player) (context : PreviewContext)
    → (preview_deltas request players context ≡ [])
      ⊎ (touches (controlled_of_request request) (preview_deltas request players context) ≡ true)
unfolding preview_deltas controlled_of_request transfer_deltas fan_out_deltas fan_in_deltas
    repayment_deltas
preview_deltas-authorised (player_to_player_request s d a) players context = inr (ground arith)
preview_deltas-authorised (player_to_bank_request p a) players context = inr (ground arith)
preview_deltas-authorised (to_jackpot_request p a) players context = inr (ground arith)
preview_deltas-authorised (bank_to_player_request p a) players context = inr (ground arith)
preview_deltas-authorised (player_to_all_request p a) players context = inr (ground arith)
preview_deltas-authorised (all_to_player_request p a) players context =
    inr (touches-fan_in p (others players p) a)
preview_deltas-authorised (pass_go_request p) players context = inr (ground arith)
preview_deltas-authorised (jackpot_payout_request p) players context = inr (ground arith)
preview_deltas-authorised (mortgage_request p a) players context = inr (ground arith)
preview_deltas-authorised (tile_mortgage_request p) players context = inr (ground arith)
preview_deltas-authorised (purchase_request p) players context = inr (ground arith)
preview_deltas-authorised (build_request p) players context = inr (ground arith)
preview_deltas-authorised (sell_request p) players context = inr (ground arith)
preview_deltas-authorised (rent_request p) players context =
    inr (touches-pay p context.tile_owner_player_id context.tile_amount)
preview_deltas-authorised (redeem_request p) players context = inr (ground arith)
preview_deltas-authorised (trade_request p) players context = inl refl
preview_deltas-authorised (loan_request p) players context = inl refl
preview_deltas-authorised (bank_loan_request p a) players context = inr (ground arith)
preview_deltas-authorised (repayment_request p l a) players context =
    inr (touches-repayment p (lender_of context.loans l) a context.interest)
