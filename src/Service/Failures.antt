-- ===== src/Service/Failures.antt =====
-- worker/services/banking-service.ts: what `commit` reports when its write failed, from the
-- database as it is by then, and `declareBankruptcy`.
use monopoly_bank.Prelude.{ℕ, not, Option, none, some, List, map, ◌==◌, if◌then◌else◌, filter}
use monopoly_bank.Prelude.Int.{ℤ, pos, eqb_ℤ}
use monopoly_bank.Types.{
  GameId, PlayerId, GameRuleKey, Game, Player, PropertyContext, RecordId, rate0,
}
use monopoly_bank.Outcome.{
  AppError, transaction_already_reversed, jackpot_empty, jackpot_changed, bank_loan_already_active,
  database_error, Result, ok, err, throw_if, ◌>>=◌, ◌>>◌,
}
use monopoly_bank.Money.{TextHost}
use monopoly_bank.Reversal.{is_set}
use monopoly_bank.Auction.{assert_reserve_respected}
use monopoly_bank.Banking.Pending.{deposit, collect, PlayerBalanceChange, BankingOperationResult}
use monopoly_bank.Banking.Command.{BankLoanOwed}
use monopoly_bank.Banking.Bankruptcy.{declare_bankruptcy}
use monopoly_bank.Store.{LedgerRow, Store, PersistInput, persist}
use monopoly_bank.Service.Reads.{
  list_players, get_jackpot, running_auction, list_active_loans, map_transaction, get_transaction,
}
use monopoly_bank.Service.LoanView.{plain_view, load_bank_loan_view, bank_loan_of}
use monopoly_bank.Service.Requests.{
  TransactionRequest, request_jackpot, request_reversal, request_bank_loan, request_mortgage,
}
use monopoly_bank.Service.Checks.{property_context, assert_not_mortgaged}
use monopoly_bank.Service.Lookups.{has_board}
use monopoly_bank.Service.Run.{run_request}
use monopoly_bank.Service.Offers.{require_game}
use monopoly_bank.Service.Commit.{require_stored}

-- `assertNoActiveBankLoan`
unfoldable pub assert_no_active_bank_loan : Store → GameId → PlayerId → Result (Unit {0})
assert_no_active_bank_loan store game_id player_id =
    elim (bank_loan_of (map plain_view (list_active_loans store game_id)) player_id) [
      | none ↦ ok tt
      | some view ↦ err (bank_loan_already_active player_id view.loan.id)
    ]

abbrev expected_pot : BankingOperationResult → ℤ
expected_pot result = elim result.transaction.jackpot [
  | none ↦ pos 0
  | some change ↦ elim change [ deposit amount ↦ pos 0 | collect expected ↦ expected ]
]

unfoldable pub assert_jackpot_unchanged :
    Store → GameId → BankingOperationResult → Result (Unit {0})
assert_jackpot_unchanged store game_id result = do
  let current = get_jackpot store game_id
  let expected = expected_pot result
  throw_if (eqb_ℤ current (pos 0)) jackpot_empty
  throw_if (not (eqb_ℤ current expected)) (jackpot_changed current expected)

-- Whether the original of a reversal has been reversed meanwhile.
unfoldable pub assert_not_reversed : Store → GameId → RecordId → Result (Unit {0})
assert_not_reversed store game_id transaction_id =
    elim (get_transaction store game_id transaction_id) [
      | none ↦ ok tt
      | some row ↦ elim (map_transaction store.transactions row).reversed_by_transaction_id [
        | none ↦ ok tt
        | some reversal_id ↦ err (transaction_already_reversed row.id reversal_id)
      ]
    ]

-- A tile operation is run again on the fresh registry.
unfoldable pub rerun :
    TextHost → Store → Game → TransactionRequest → BankingOperationResult → Result (Unit {0})
rerun host store game (request_reversal transaction_id comment) result = ok tt
rerun host store game request result =
    if is_set result.transaction.registry_changes
    then (run_request host store game (list_players store game.id) request >>= λ again. ok tt)
    else ok tt

-- The check that only one type of request makes.
unfoldable pub explain_by_type :
    TextHost → Store → Game → TransactionRequest → BankingOperationResult → Result (Unit {0})
explain_by_type host store game (request_bank_loan player_id amount acknowledged) result =
    assert_no_active_bank_loan store game.id player_id
explain_by_type host store game (request_jackpot player_id expected_amount) result =
    assert_jackpot_unchanged store game.id result
explain_by_type host store game (request_reversal transaction_id comment) result =
    assert_not_reversed store game.id transaction_id
explain_by_type host store game (request_mortgage player_id property_name amount) result =
    assert_not_mortgaged host store game.id player_id result
explain_by_type host store game _ result = ok tt

-- A failed write is explained by the first of these that throws, or reported as it is.
unfoldable pub explain_failure :
    TextHost → Store → Game → TransactionRequest → BankingOperationResult → AppError → AppError
explain_failure host store game request result database_error =
    elim (explain_by_type host store game request result >> rerun host store game request result) [
      | ok _ ↦ database_error
      | err explained ↦ explained
    ]
explain_failure host store game request result error = error

unfoldable pub bank_loan_owed : Store → Game → List Player → PlayerId → Option BankLoanOwed
bank_loan_owed store game players player_id =
    if not (game.rules GameRuleKey.bank_loans)
    then none
    else elim (bank_loan_of (load_bank_loan_view store game.id players).loans player_id) [
      | none ↦ none
      | some view ↦ some (record {
        loan = view.loan;
        suggested_rate_percent = elim view.rounds [
          | none ↦ rate0
          | some rounds ↦ rounds.suggested_rate_percent
        ];
      })
    ]

unfoldable pub bankruptcy_context : Store → Game → Result (Option PropertyContext)
bankruptcy_context store game =
    if has_board game
    then (property_context store game none >>= λ property. ok (some property))
    else ok none

abbrev bankruptcy_input :
    RecordId → Game → PlayerId → Option PlayerId → BankingOperationResult → PersistInput
bankruptcy_input id game player_id creditor result = record {
  transaction_id = id;
  transaction = result.transaction;
  balance_changes = result.affected_players;
  bankrupt_player_id = some player_id;
  mortgage_heir_player_id = creditor;
  loan_heir_player_id = creditor;
  withdraw_auction_bid = game.rules GameRuleKey.auctions;
  accept_trade_request_id = none;
}

-- The creditor must keep their own leading bid covered.
unfoldable pub write_bankruptcy :
    TextHost
    → ℕ
    → RecordId
    → Game
    → PlayerId
    → Option PlayerId
    → BankingOperationResult
    → Store
    → Result (Store × LedgerRow)
write_bankruptcy host now id game player_id creditor result store = do
  assert_reserve_respected
      (filter (λ (c : PlayerBalanceChange). not (c.player.id == player_id)) result.affected_players)
      (running_auction store game)
  written ← persist host now (bankruptcy_input id game player_id creditor result) store
  row ← require_stored written game.id id
  ok (written, row)

unfoldable pub declare_player_bankrupt :
    TextHost
    → ℕ
    → RecordId
    → GameId
    → PlayerId
    → Option PlayerId
    → Store
    → Result (Store × LedgerRow)
declare_player_bankrupt host now id game_id player_id creditor store = do
  game ← require_game store game_id
  let players = list_players store game_id
  property ← bankruptcy_context store game
  result ← declare_bankruptcy (record {
    game = game;
    players = players;
    player_id = player_id;
    creditor_player_id = creditor;
    bank_loan = bank_loan_owed store game players player_id;
    property = property;
  })
  elim (get_transaction store game_id id) [
    | some row ↦ ok (store, row)
    | none ↦ write_bankruptcy host now id game player_id creditor result store
  ]
