-- ===== src/Service/Run.antt =====
-- worker/services/banking-service.ts: `execute`, which reads what a request needs and runs the
-- operation.
use monopoly_bank.Prelude.{false, none, some, List, ◌==◌, get_or, find}
use monopoly_bank.Prelude.Int.{pos}
use monopoly_bank.Types.{Game, Player, BankLoanCooldown}
use monopoly_bank.Outcome.{tile_required, Result, ok, throw_if, ◌>>=◌, ◌>>◌}
use monopoly_bank.Money.{TextHost}
use monopoly_bank.Banking.Pending.{BankingOperationResult}
use monopoly_bank.Banking.Dispatch.{
  Operation, player_to_player_op, player_to_bank_op, to_jackpot_op, bank_to_player_op,
  player_to_all_op, all_to_player_op, pass_go_op, jackpot_payout_op, mortgage_tile_op, purchase_op,
  build_op, sell_op, trade_op, rent_op, mortgage_op, redeem_op, bank_loan_op, execute,
}
use monopoly_bank.Store.{Store}
use monopoly_bank.Service.Reads.{list_properties, get_jackpot, running_auction, map_transaction}
use monopoly_bank.Service.LoanView.{load_bank_loan_view, bank_loan_of}
use monopoly_bank.Service.Requests.{
  TransactionRequest, request_payment, request_to_bank, request_from_bank, request_to_all,
  request_from_all, request_pass_go, request_to_jackpot, request_jackpot, request_reversal,
  request_bank_loan, request_mortgage_tile, request_mortgage, request_redemption, request_repayment,
  request_purchase, request_build, request_sell, request_transfer, request_rent,
}
use monopoly_bank.Service.Checks.{
  property_context, assert_not_in_auction, assert_not_mortgaged, assert_registry_matches,
}
use monopoly_bank.Service.Lookups.{
  require_transaction, reversal_operation, require_loan, require_mortgage, repay_operation,
  amount_command, fan_command, build_command, has_board, loan_of, redemption_context,
}

-- The operation of a request, with what was read for it.
unfoldable pub request_operation :
    Store → Game → List Player → TransactionRequest → Result Operation
request_operation store game players (request_payment source destination amount comment) = ok (
    player_to_player_op (record {
      game = game;
      players = players;
      comment = comment;
      source_player_id = source;
      destination_player_id = destination;
      amount = amount;
    }))
request_operation store game players (request_to_bank player_id amount comment) =
    ok (player_to_bank_op (amount_command game players player_id amount comment))
request_operation store game players (request_from_bank player_id amount comment) =
    ok (bank_to_player_op (amount_command game players player_id amount comment))
request_operation store game players (request_to_jackpot player_id amount comment) =
    ok (to_jackpot_op (amount_command game players player_id amount comment))
request_operation store game players (request_to_all player_id amount comment) =
    ok (player_to_all_op (fan_command game players player_id amount comment))
request_operation store game players (request_from_all player_id amount comment) =
    ok (all_to_player_op (fan_command game players player_id amount comment))
request_operation store game players (request_pass_go player_id exact_landing comment) = ok (
    pass_go_op (record {
      game = game;
      players = players;
      player_id = player_id;
      exact_landing = exact_landing;
      comment = comment;
    }))
request_operation store game players (request_jackpot player_id expected_amount) = ok (
    jackpot_payout_op (record {
      game = game;
      players = players;
      player_id = player_id;
      jackpot = get_jackpot store game.id;
      expected_amount = expected_amount;
    }))
request_operation store game players (request_reversal transaction_id comment) = do
  row ← require_transaction store game.id transaction_id
  ok (reversal_operation store game players (map_transaction store.transactions row) comment)
request_operation store game players (request_bank_loan player_id amount acknowledge_cooldown) =
    let view = load_bank_loan_view store game.id players in
    ok (
      bank_loan_op (record {
        game = game;
        players = players;
        player_id = player_id;
        amount = amount;
        active_bank_loan = loan_of (bank_loan_of view.loans player_id);
        cooldown =
            find (λ (c : BankLoanCooldown). c.player_id == player_id) view.bank_loan_cooldowns;
        acknowledge_cooldown = some (get_or acknowledge_cooldown false);
      }))
request_operation store game players (request_mortgage_tile player_id tile_id) = do
  property ← property_context store game (some tile_id)
  ok (
      mortgage_tile_op (record {
        game = game;
        players = players;
        player_id = player_id;
        tile_id = tile_id;
        property = property;
      }))
request_operation store game players (request_mortgage player_id property_name amount) = do
  throw_if (has_board game) tile_required
  ok (
      mortgage_op (record {
        game = game;
        players = players;
        player_id = player_id;
        property_name = property_name;
        amount = amount;
      }))
request_operation store game players (request_redemption player_id mortgage_id) = do
  mortgage ← require_mortgage store game.id mortgage_id
  property ← redemption_context store game mortgage
  ok (
      redeem_op (record {
        game = game;
        players = players;
        player_id = player_id;
        mortgage = mortgage;
        property = property;
      }))
request_operation store game players (request_repayment player_id loan_id amount rate) = do
  loan ← require_loan store game.id loan_id
  repay_operation store game players player_id loan amount rate
request_operation store game players (request_purchase player_id tile_id price_override) = do
  property ← property_context store game (some tile_id)
  assert_not_in_auction (running_auction store game) tile_id
  ok (
      purchase_op (record {
        game = game;
        players = players;
        comment = none;
        player_id = player_id;
        tile_id = tile_id;
        property = property;
        price_override = price_override;
      }))
request_operation store game players (request_build request) = do
  property ← property_context store game request.tile_id
  ok (build_op (build_command game players request property))
request_operation store game players (request_sell request) = do
  property ← property_context store game request.tile_id
  ok (sell_op (build_command game players request property))
request_operation store game players (request_transfer request) = do
  property ← property_context store game none
  ok (
      trade_op (record {
        game = game;
        players = players;
        player_id = request.player_id;
        counterparty_player_id = request.counterparty_player_id;
        give_tile_ids = request.give_tile_ids;
        take_tile_ids = request.take_tile_ids;
        cash_give = get_or request.cash_give (pos 0);
        cash_take = get_or request.cash_take (pos 0);
        property = property;
      }))
request_operation store game players (request_rent payer tile_id dice) = do
  property ← property_context store game (some tile_id)
  ok (
      rent_op (record {
        game = game;
        players = players;
        comment = none;
        payer_player_id = payer;
        tile_id = tile_id;
        dice_sum_given = dice;
        property = property;
      }))

-- What two requests check once the operation has returned.
unfoldable pub check_result :
    TextHost → Store → Game → TransactionRequest → BankingOperationResult → Result (Unit {0})
check_result host store game (request_mortgage player_id property_name amount) result =
    assert_not_mortgaged host store game.id player_id result
check_result host store game (request_reversal transaction_id comment) result =
    elim result.transaction.registry_changes [
      | none ↦ ok tt
      | some changes ↦ assert_registry_matches (list_properties store game.id) changes
    ]
check_result host store game _ result = ok tt

unfoldable pub run_request :
    TextHost → Store → Game → List Player → TransactionRequest → Result BankingOperationResult
run_request host store game players request = do
  operation ← request_operation store game players request
  result ← execute host operation
  check_result host store game request result
  ok result
