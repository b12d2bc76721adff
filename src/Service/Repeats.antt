-- ===== src/Service/Repeats.antt =====
-- A command that is sent again is answered from the ledger.
use mathlib.Core.Path.{subst}
use monopoly_bank.Prelude.{ℕ, ◌≡◌, refl, ap, Option, none, some, List}
use monopoly_bank.Types.{GameId, Player, RecordId}
use monopoly_bank.Outcome.{ok, >>=-eq-ok, ok-injective}
use monopoly_bank.Money.{TextHost}
use monopoly_bank.Banking.Pending.{BankingOperationResult}
use monopoly_bank.Store.{LedgerRow, Store, persist}
use monopoly_bank.Service.Reads.{list_players, get_transaction}
use monopoly_bank.Service.Requests.{CreateTransactionRequest}
use monopoly_bank.Service.Offers.{CommandResponse, transaction_response, requests_response}
use monopoly_bank.Service.Commit.{require_stored, write_operation, commit_found, commit}
use monopoly_bank.Service.Settling.{require_stored-found}
use monopoly_bank.Service.Commands.{commit_found-Wrote}

abbrev row_of : LedgerRow → CommandResponse → LedgerRow
row_of default (transaction_response row players) = row
row_of default (requests_response requests players) = default

write_operation-found :
    (host : TextHost) (now : ℕ) (id : RecordId) (trade : Option RecordId) (game_id : GameId)
    (result : BankingOperationResult) (store written : Store) (row : LedgerRow)
    (shown : List Player)
    → write_operation host now id trade game_id result store
      ≡ ok (written, transaction_response row shown)
    → get_transaction written game_id id ≡ some row
unfolding write_operation
write_operation-found host now id trade game_id result store written row shown h =
    let (stored, persisted, h1) = >>=-eq-ok (persist _ _ _ _) _ h in
    let (found, read, h2) = >>=-eq-ok (require_stored _ _ _) _ h1 in
    let found_row = require_stored-found stored game_id id found read in
    let same : stored ≡ written = ap (λ (p : Store × CommandResponse). p.0) (ok-injective h2) in
    let same_row : found ≡ row =
      ap (λ (p : Store × CommandResponse). row_of found p.1) (ok-injective h2) in
    subst (λ s. get_transaction s game_id id ≡ some row) same (rw (← same_row) found_row)

found-answered :
    (host : TextHost) (now : ℕ) (id : RecordId) (trade : Option RecordId) (game_id : GameId)
    (request : CreateTransactionRequest) (store written : Store) (row found : LedgerRow)
    (shown : List Player)
    → get_transaction store game_id id ≡ some found
    → commit_found host now id trade game_id request store (some found)
      ≡ ok (written, transaction_response row shown)
    → get_transaction written game_id id ≡ some row
unfolding commit_found
found-answered host now id trade game_id request store written row found shown e h =
    let same : store ≡ written = ap (λ (p : Store × CommandResponse). p.0) (ok-injective h) in
    let same_row : found ≡ row =
      ap (λ (p : Store × CommandResponse). row_of found p.1) (ok-injective h) in
    rw (← same, ← same_row) e

commit_found-found :
    (host : TextHost) (now : ℕ) (id : RecordId) (trade : Option RecordId) (game_id : GameId)
    (request : CreateTransactionRequest) (store written : Store) (row : LedgerRow)
    (shown : List Player) (stored : Option LedgerRow)
    → get_transaction store game_id id ≡ stored
    → commit_found host now id trade game_id request store stored
      ≡ ok (written, transaction_response row shown)
    → get_transaction written game_id id ≡ some row
commit_found-found host now id trade game_id request store written row shown none e h =
    let wrote = commit_found-Wrote host now id trade game_id request store written row shown h in
    write_operation-found host now id trade game_id wrote.result store written row shown wrote.wrote
commit_found-found host now id trade game_id request store written row shown (some found) e h =
    found-answered host now id trade game_id request store written row found shown e h

answer_found :
    (host : TextHost) (now : ℕ) (id : RecordId) (trade : Option RecordId) (game_id : GameId)
    (request : CreateTransactionRequest) (store : Store) (row : LedgerRow)
    → commit_found host now id trade game_id request store (some row)
      ≡ ok (store, transaction_response row (list_players store game_id))
unfolding commit_found
answer_found host now id trade game_id request store row = refl

-- A command that was answered with a transaction is answered with the same transaction when it is
-- sent again with its id, whatever the request says then, and changes nothing.
pub commit-again :
    (host : TextHost) (now later : ℕ) (id : RecordId) (trade other : Option RecordId)
    (game_id : GameId) (request repeated : CreateTransactionRequest) (store written : Store)
    (row : LedgerRow) (shown : List Player)
    → commit host now id trade game_id request store ≡ ok (written, transaction_response row shown)
    → commit host later id other game_id repeated written
      ≡ ok (written, transaction_response row (list_players written game_id))
commit-again host now later id trade other game_id request repeated store written row shown h =
    let found =
      commit_found-found host now id trade game_id request store written row shown
        (get_transaction store game_id id) refl h in
    rw found (answer_found host later id other game_id repeated written row)
