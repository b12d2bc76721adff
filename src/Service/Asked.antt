-- ===== src/Service/Asked.antt =====
-- What each request asks for, and that the operation that is run is the one asked for.

use monopoly_bank.Prelude.{
  ◌≡◌, refl, sym, ◌⊎◌, inl, inr, Bool, true, false, not, Option, none, some, get_or, Option-cases,
  List, arith, if◌then◌else◌,
}
use monopoly_bank.Prelude.Int.{ℤ, pos}
use monopoly_bank.Types.{
  GameId, PlayerId, RecordId, Game, Player, Loan, Mortgage, InterestRatePercent,
}
use monopoly_bank.Outcome.{
  tile_required, validation_error, Result, ok, >>=-eq-ok, ok-injective, throw_if-passed,
}
use monopoly_bank.Banking.Dispatch.{
  Operation, player_to_player_op, player_to_bank_op, bank_to_player_op, to_jackpot_op,
  player_to_all_op, all_to_player_op, pass_go_op, jackpot_payout_op, reversal_op, bank_loan_op,
  mortgage_tile_op, mortgage_op, redeem_op, repay_op, repay_bank_op, purchase_op, build_op, sell_op,
  trade_op, rent_op,
}
use monopoly_bank.Store.{LedgerRow, Store, is_bank_lender}
use monopoly_bank.Service.Reads.{assert_rule_enabled}
use monopoly_bank.Service.Requests.{
  TransactionRequest, request_payment, request_to_bank, request_from_bank, request_to_all,
  request_from_all, request_pass_go, request_to_jackpot, request_jackpot, request_reversal,
  request_bank_loan, request_mortgage_tile, request_mortgage, request_redemption, request_repayment,
  request_purchase, request_build, request_sell, request_transfer, request_rent,
}
use monopoly_bank.Service.Reads.{
  get_transaction, get_jackpot, get_active_loan, get_active_mortgage, map_transaction,
}
use monopoly_bank.Banking.Command.{
  PlayerToPlayerCommand, PlayerAmountCommand, FanCommand, PassGoCommand, JackpotPayoutCommand,
  ReversalCommand, IssueBankLoanCommand, MortgageTileCommand, MortgagePropertyCommand,
  RedeemMortgageCommand, RepayLoanCommand, RepayBankLoanCommand, PropertyPurchaseCommand,
  BuildPropertyCommand, TransferPropertiesCommand, PayRentCommand,
}
use monopoly_bank.Service.Checks.{property_context, assert_not_in_auction}
use monopoly_bank.Service.Lookups.{
  require_transaction, reversal_operation, require_loan, require_mortgage, require_rate,
  require_rounds, repay_operation, redemption_context,
}
use monopoly_bank.Service.Run.{request_operation}

-- The operation that a request asks for, by what the request names: who pays and who is paid, the
-- amount, the tiles, and the row of the database that an id stands for.
pub Asks : Store → Game → TransactionRequest → Operation → Type 0
Asks store game (request_payment source destination amount comment) op =
    (c : PlayerToPlayerCommand) × ((op ≡ player_to_player_op c)
      × ((c.source_player_id ≡ source)
          × ((c.destination_player_id ≡ destination)
              × ((c.amount ≡ amount) × (c.comment ≡ comment)))))
Asks store game (request_to_bank player amount comment) op =
    (c : PlayerAmountCommand) × ((op ≡ player_to_bank_op c)
      × ((c.player_id ≡ player) × ((c.amount ≡ amount) × (c.comment ≡ comment))))
Asks store game (request_from_bank player amount comment) op =
    (c : PlayerAmountCommand) × ((op ≡ bank_to_player_op c)
      × ((c.player_id ≡ player) × ((c.amount ≡ amount) × (c.comment ≡ comment))))
Asks store game (request_to_jackpot player amount comment) op =
    (c : PlayerAmountCommand) × ((op ≡ to_jackpot_op c)
      × ((c.player_id ≡ player) × ((c.amount ≡ amount) × (c.comment ≡ comment))))
Asks store game (request_to_all player amount comment) op =
    (c : FanCommand) × ((op ≡ player_to_all_op c)
      × ((c.player_id ≡ player) × ((c.amount_per_player ≡ amount) × (c.comment ≡ comment))))
Asks store game (request_from_all player amount comment) op =
    (c : FanCommand) × ((op ≡ all_to_player_op c)
      × ((c.player_id ≡ player) × ((c.amount_per_player ≡ amount) × (c.comment ≡ comment))))
Asks store game (request_pass_go player exact comment) op =
    (c : PassGoCommand) × ((op ≡ pass_go_op c)
      × ((c.player_id ≡ player) × ((c.exact_landing ≡ exact) × (c.comment ≡ comment))))
Asks store game (request_jackpot player expected) op =
    (c : JackpotPayoutCommand) × ((op ≡ jackpot_payout_op c)
      × ((c.player_id ≡ player)
          × ((c.expected_amount ≡ expected) × (c.jackpot ≡ get_jackpot store game.id))))
Asks store game (request_bank_loan player amount acknowledged) op =
    (c : IssueBankLoanCommand) × ((op ≡ bank_loan_op c)
      × ((c.player_id ≡ player)
          × ((c.amount ≡ amount) × (c.acknowledge_cooldown ≡ some (get_or acknowledged false)))))
Asks store game (request_reversal id comment) op =
    (row : LedgerRow) × ((get_transaction store game.id id ≡ some row)
      × ((c : ReversalCommand) × ((op ≡ reversal_op c)
            × ((c.original ≡ map_transaction store.transactions row) × (c.comment ≡ comment)))))
Asks store game (request_mortgage_tile player tile) op =
    (c : MortgageTileCommand) × ((op ≡ mortgage_tile_op c)
      × ((c.player_id ≡ player)
          × ((c.tile_id ≡ tile) × (property_context store game (some tile) ≡ ok c.property))))
Asks store game (request_mortgage player name amount) op =
    (c : MortgagePropertyCommand) × ((op ≡ mortgage_op c)
      × ((c.player_id ≡ player) × ((c.property_name ≡ name) × (c.amount ≡ amount))))
Asks store game (request_redemption player id) op =
    (c : RedeemMortgageCommand) × ((op ≡ redeem_op c)
      × ((c.player_id ≡ player) × (get_active_mortgage store game.id id ≡ some c.mortgage)))
Asks store game (request_repayment player id amount rate) op =
    ((c : RepayLoanCommand) × ((op ≡ repay_op c)
        × ((c.player_id ≡ player)
            × ((get_active_loan store game.id id ≡ some c.loan)
                × ((c.amount ≡ amount) × (is_bank_lender c.loan.lender_kind ≡ false))))))
    ⊎ ((c : RepayBankLoanCommand) × ((op ≡ repay_bank_op c)
          × ((c.player_id ≡ player)
              × ((get_active_loan store game.id id ≡ some c.loan)
                  × ((c.amount ≡ amount) × (rate ≡ some c.interest_rate_percent))))))
Asks store game (request_purchase player tile override) op =
    (c : PropertyPurchaseCommand) × ((op ≡ purchase_op c)
      × ((c.player_id ≡ player)
          × ((c.tile_id ≡ tile)
              × ((c.price_override ≡ override)
                  × (property_context store game (some tile) ≡ ok c.property)))))
Asks store game (request_build request) op =
    (c : BuildPropertyCommand) × ((op ≡ build_op c)
      × ((c.player_id ≡ request.player_id)
          × ((c.tile_id ≡ request.tile_id)
              × ((c.targets ≡ request.targets)
                  × (property_context store game request.tile_id ≡ ok c.property)))))
Asks store game (request_sell request) op =
    (c : BuildPropertyCommand) × ((op ≡ sell_op c)
      × ((c.player_id ≡ request.player_id)
          × ((c.tile_id ≡ request.tile_id)
              × ((c.targets ≡ request.targets)
                  × (property_context store game request.tile_id ≡ ok c.property)))))
Asks store game (request_transfer request) op =
    (c : TransferPropertiesCommand) × ((op ≡ trade_op c)
      × ((c.player_id ≡ request.player_id)
          × ((c.counterparty_player_id ≡ request.counterparty_player_id)
              × ((c.give_tile_ids ≡ request.give_tile_ids)
                  × ((c.take_tile_ids ≡ request.take_tile_ids)
                      × ((c.cash_give ≡ get_or request.cash_give (pos 0))
                          × ((c.cash_take ≡ get_or request.cash_take (pos 0))
                              × (property_context store game none ≡ ok c.property))))))))
Asks store game (request_rent payer tile dice) op =
    (c : PayRentCommand) × ((op ≡ rent_op c)
      × ((c.payer_player_id ≡ payer)
          × ((c.tile_id ≡ tile)
              × ((c.dice_sum_given ≡ dice)
                  × (property_context store game (some tile) ≡ ok c.property)))))

require_transaction-found :
    (store : Store) (game_id : GameId) (id : RecordId) (row : LedgerRow)
    → require_transaction store game_id id ≡ ok row
    → get_transaction store game_id id ≡ some row
unfolding require_transaction
require_transaction-found store game_id id row h =
    elim (Option-cases (get_transaction store game_id id)) [
      | inl missing ↦ ground arith
      | inr (found, e) ↦ ground arith
    ]

require_mortgage-found :
    (store : Store) (game_id : GameId) (id : RecordId) (mortgage : Mortgage)
    → require_mortgage store game_id id ≡ ok mortgage
    → get_active_mortgage store game_id id ≡ some mortgage
unfolding require_mortgage
require_mortgage-found store game_id id mortgage h =
    elim (Option-cases (get_active_mortgage store game_id id)) [
      | inl missing ↦ ground arith
      | inr (found, e) ↦ ground arith
    ]

require_loan-found :
    (store : Store) (game_id : GameId) (id : RecordId) (loan : Loan)
    → require_loan store game_id id ≡ ok loan
    → get_active_loan store game_id id ≡ some loan
unfolding require_loan
require_loan-found store game_id id loan h =
    elim (Option-cases (get_active_loan store game_id id)) [
      | inl missing ↦ ground arith
      | inr (found, e) ↦ ground arith
    ]

require_rate-given :
    (rate : Option InterestRatePercent) (given : InterestRatePercent)
    → require_rate rate ≡ ok given
    → rate ≡ some given
unfolding require_rate
require_rate-given none given h = cc
require_rate-given (some asked) given h = cc

decided :
    {V : Type 0} (b : Bool) (x y : Result V) {v : V}
    → (if b then x else y) ≡ ok v
    → ((b ≡ true) × (x ≡ ok v)) ⊎ (y ≡ ok v)
decided true x y h = inl (refl, h)
decided false x y h = inr h

repay_operation-Asks :
    (store : Store) (game : Game) (players : List Player) (player : PlayerId) (id : RecordId)
    (loan : Loan) (amount : ℤ) (rate : Option InterestRatePercent) (op : Operation)
    → get_active_loan store game.id id ≡ some loan
    → repay_operation store game players player loan amount rate ≡ ok op
    → Asks store game (request_repayment player id amount rate) op
unfolding repay_operation Asks
repay_operation-Asks store game players player id loan amount rate op found h =
    elim (decided (not (is_bank_lender loan.lender_kind)) _ _ h) [
      | inl (lent, h0) ↦
          let (_, enabled, h1) = >>=-eq-ok (assert_rule_enabled _ _) _ h0 in
          let (_, h2) = throw_if-passed _ validation_error _ h1 in
          inl (_, (sym (ok-injective h2), (refl, (found, (refl, ground (arith, lent))))))
      | inr owed ↦
          let (_, enabled, h1) = >>=-eq-ok (assert_rule_enabled _ _) _ owed in
          let (given, asked, h2) = >>=-eq-ok (require_rate _) _ h1 in
          let (rounds, known, h3) = >>=-eq-ok (require_rounds _ _) _ h2 in
          inr (
            _,
            (sym (ok-injective h3), (refl, (found, (refl, require_rate-given rate given asked)))),
          )
    ]

pub request_operation-Asks :
    (store : Store) (game : Game) (players : List Player) (request : TransactionRequest)
    (op : Operation)
    → request_operation store game players request ≡ ok op
    → Asks store game request op
unfolding request_operation reversal_operation Asks
request_operation-Asks store game players (request_payment source destination amount comment) op h =
    (_, (sym (ok-injective h), (refl, (refl, (refl, refl)))))
request_operation-Asks store game players (request_to_bank player amount comment) op h =
    (_, (sym (ok-injective h), (refl, (refl, refl))))
request_operation-Asks store game players (request_from_bank player amount comment) op h =
    (_, (sym (ok-injective h), (refl, (refl, refl))))
request_operation-Asks store game players (request_to_jackpot player amount comment) op h =
    (_, (sym (ok-injective h), (refl, (refl, refl))))
request_operation-Asks store game players (request_to_all player amount comment) op h =
    (_, (sym (ok-injective h), (refl, (refl, refl))))
request_operation-Asks store game players (request_from_all player amount comment) op h =
    (_, (sym (ok-injective h), (refl, (refl, refl))))
request_operation-Asks store game players (request_pass_go player exact comment) op h =
    (_, (sym (ok-injective h), (refl, (refl, refl))))
request_operation-Asks store game players (request_jackpot player expected) op h =
    (_, (sym (ok-injective h), (refl, (refl, refl))))
request_operation-Asks store game players (request_bank_loan player amount acknowledged) op h =
    (_, (sym (ok-injective h), (refl, (refl, refl))))
request_operation-Asks store game players (request_reversal id comment) op h =
    let (row, found, h1) = >>=-eq-ok (require_transaction _ _ _) _ h in
    (
      row,
      (
        require_transaction-found store game.id id row found,
        (_, (sym (ok-injective h1), (refl, refl))),
      ),
    )
request_operation-Asks store game players (request_mortgage_tile player tile) op h =
    let (property, read, h1) = >>=-eq-ok (property_context _ _ _) _ h in
    (_, (sym (ok-injective h1), (refl, (refl, read))))
request_operation-Asks store game players (request_mortgage player name amount) op h =
    let (_, h1) = throw_if-passed _ tile_required _ h in
    (_, (sym (ok-injective h1), (refl, (refl, refl))))
request_operation-Asks store game players (request_redemption player id) op h =
    let (mortgage, found, h1) = >>=-eq-ok (require_mortgage _ _ _) _ h in
    let (property, read, h2) = >>=-eq-ok (redemption_context _ _ _) _ h1 in
    (_, (sym (ok-injective h2), (refl, require_mortgage-found store game.id id mortgage found)))
request_operation-Asks store game players (request_repayment player id amount rate) op h =
    let (loan, found, h1) = >>=-eq-ok (require_loan _ _ _) _ h in
    repay_operation-Asks store game players player id loan amount rate op
      (require_loan-found store game.id id loan found) h1
request_operation-Asks store game players (request_purchase player tile override) op h =
    let (property, read, h1) = >>=-eq-ok (property_context _ _ _) _ h in
    let (_, free, h2) = >>=-eq-ok (assert_not_in_auction _ _) _ h1 in
    (_, (sym (ok-injective h2), (refl, (refl, (refl, read)))))
request_operation-Asks store game players (request_build request) op h =
    let (property, read, h1) = >>=-eq-ok (property_context _ _ _) _ h in
    (_, (sym (ok-injective h1), (refl, (refl, (refl, read)))))
request_operation-Asks store game players (request_sell request) op h =
    let (property, read, h1) = >>=-eq-ok (property_context _ _ _) _ h in
    (_, (sym (ok-injective h1), (refl, (refl, (refl, read)))))
request_operation-Asks store game players (request_transfer request) op h =
    let (property, read, h1) = >>=-eq-ok (property_context _ _ _) _ h in
    (_, (sym (ok-injective h1), (refl, (refl, (refl, (refl, (refl, (refl, read))))))))
request_operation-Asks store game players (request_rent payer tile dice) op h =
    let (property, read, h1) = >>=-eq-ok (property_context _ _ _) _ h in
    (_, (sym (ok-injective h1), (refl, (refl, (refl, read)))))
