-- ===== src/Store/Persist.antt =====
-- worker/repositories/banking-operation-repository.ts: the batch of statements that an operation
-- writes. The batch is atomic: a statement that fails leaves the store as it was. The recent
-- amounts, which only the client's buttons show, are left out.
use monopoly_bank.Prelude.{ℕ, true, none, some, List, [], get_or}
use monopoly_bank.Types.{PropertyChange}
use monopoly_bank.Outcome.{Result, ok, ◌>>=◌}
use monopoly_bank.Money.{TextHost}
use monopoly_bank.Store.Tables.{Store}
use monopoly_bank.Store.Writes.{
  guarded_balance_update, insert_transaction, registry_statements, jackpot_statements,
}
use monopoly_bank.Store.Records.{
  mortgage_record_statements, mortgage_reversal_statements, mortgage_handover_statements,
  loan_statements,
}
use monopoly_bank.Store.Closing.{
  PersistInput, auction_statements, accepted_trade_statements, bankrupt_trade_statements,
}
use monopoly_bank.Store.Insolvency.{
  bankrupt_status_statements, bankrupt_mortgage_statements, bank_loan_settlement_statements,
  bankrupt_debt_statements,
}

-- A bankruptcy moves its mortgages itself.
abbrev handover_of : PersistInput → List PropertyChange
handover_of input = elim input.bankrupt_player_id [
  | none ↦ get_or input.transaction.registry_changes []
  | some _ ↦ []
]

-- `persist`, at the time `now`
unfoldable pub persist : TextHost → ℕ → PersistInput → Store → Result Store
persist host now input store = do
  let t = input.transaction
  balances ← guarded_balance_update input.balance_changes true store.players
  transactions ← insert_transaction input.transaction_id t store.transactions
  trades ← accepted_trade_statements now input store.trade_requests
  properties ← registry_statements t.game_id (get_or t.registry_changes []) store.properties
  recorded ← mortgage_record_statements host input.transaction_id t store.mortgages
  reversed ← mortgage_reversal_statements t recorded
  lent ← loan_statements input.transaction_id t store.loans
  pots ← jackpot_statements t.game_id t.jackpot store.pots
  auctions ← auction_statements input store.auctions
  settled ← bank_loan_settlement_statements input lent
  ok (record {
    games = store.games;
    players = bankrupt_status_statements input balances;
    transactions = transactions;
    properties = properties;
    pots = pots;
    mortgages =
        bankrupt_mortgage_statements host input
          (mortgage_handover_statements t.game_id (handover_of input) reversed);
    loans = bankrupt_debt_statements input settled;
    auctions = auctions;
    payment_requests = store.payment_requests;
    trade_requests = bankrupt_trade_statements input trades;
  })
