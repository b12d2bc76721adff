-- ===== src/Store/Written.antt =====
-- What a batch that goes through has written.
use monopoly_bank.Prelude.{ℕ, ◌≡◌, sym, ap, ◌∙◌, true, List, [], get_or}
use monopoly_bank.Types.{Player, Loan}
use monopoly_bank.Outcome.{ok, >>=-eq-ok, ok-injective}
use monopoly_bank.Money.{TextHost}
use monopoly_bank.Store.Tables.{MortgageRow, TradeRequest, Store}
use monopoly_bank.Store.Writes.{
  guarded_balance_update, insert_transaction, registry_statements, jackpot_statements,
}
use monopoly_bank.Store.Records.{
  mortgage_record_statements, mortgage_reversal_statements, loan_statements,
}
use monopoly_bank.Store.Closing.{
  PersistInput, auction_statements, accepted_trade_statements, bankrupt_trade_statements,
}
use monopoly_bank.Store.Insolvency.{
  bankrupt_status_statements, bankrupt_mortgage_statements, bank_loan_settlement_statements,
  bankrupt_debt_statements,
}
use monopoly_bank.Store.Persist.{persist}

pub record IsPersisted (host : TextHost) (input : PersistInput) (store written : Store)
    : Type 0 where
  pub balances : List Player
  pub updated : guarded_balance_update input.balance_changes true store.players ≡ ok balances
  pub players : written.players ≡ bankrupt_status_statements input balances
  pub ledger :
      insert_transaction input.transaction_id input.transaction store.transactions
      ≡ ok written.transactions
  pub registry :
      registry_statements input.transaction.game_id
        (get_or input.transaction.registry_changes [])
        store.properties
      ≡ ok written.properties
  pub handed : List MortgageRow
  pub mortgages : written.mortgages ≡ bankrupt_mortgage_statements host input handed
  pub settled : List Loan
  pub loans : written.loans ≡ bankrupt_debt_statements input settled
  pub accepted : List TradeRequest
  pub trade_requests : written.trade_requests ≡ bankrupt_trade_statements input accepted

pub persist-IsPersisted :
    (host : TextHost) (now : ℕ) (input : PersistInput) (store written : Store)
    → persist host now input store ≡ ok written
    → IsPersisted host input store written
unfolding persist
persist-IsPersisted host now input store written h =
    let (balances, updated, h1) = >>=-eq-ok (guarded_balance_update _ _ _) _ h in
    let (ledger, inserted, h2) = >>=-eq-ok (insert_transaction _ _ _) _ h1 in
    let (trades, traded, h3) = >>=-eq-ok (accepted_trade_statements _ _ _) _ h2 in
    let (properties, moved, h4) = >>=-eq-ok (registry_statements _ _ _) _ h3 in
    let (recorded, e5, h5) = >>=-eq-ok (mortgage_record_statements _ _ _ _) _ h4 in
    let (reversed, e6, h6) = >>=-eq-ok (mortgage_reversal_statements _ _) _ h5 in
    let (lent, e7, h7) = >>=-eq-ok (loan_statements _ _ _) _ h6 in
    let (pots, e8, h8) = >>=-eq-ok (jackpot_statements _ _ _) _ h7 in
    let (auctions, e9, h9) = >>=-eq-ok (auction_statements _ _) _ h8 in
    let (settled, e10, h10) = >>=-eq-ok (bank_loan_settlement_statements _ _) _ h9 in
    let same = ok-injective h10 in
    record {
      balances = balances;
      updated = updated;
      players = ap (λ (s : Store). s.players) (sym same);
      ledger = inserted ∙ ap (λ (s : Store). ok s.transactions) same;
      registry = moved ∙ ap (λ (s : Store). ok s.properties) same;
      handed = _;
      mortgages = ap (λ (s : Store). s.mortgages) (sym same);
      settled = settled;
      loans = ap (λ (s : Store). s.loans) (sym same);
      accepted = trades;
      trade_requests = ap (λ (s : Store). s.trade_requests) (sym same);
    }
