-- ===== src/Service/Commands.antt =====
-- What `commit` writes is what an operation of the rules returned.
use mathlib.Core.Path.{subst}
use monopoly_bank.Prelude.{
  ℕ, ◌≡◌, refl, ap, inl, inr, Option, none, some, List, arith, ◌==◌, Option-cases, find,
}
use monopoly_bank.Prelude.Int.{ℤ}
use monopoly_bank.Types.{GameId, PlayerId, Game, Player, RecordId}
use monopoly_bank.Outcome.{no_other_active_players, ok, >>=-eq-ok, ok-injective, throw_if-passed}
use monopoly_bank.Money.{TextHost}
use monopoly_bank.Banking.Pending.{BankingOperationResult}
use monopoly_bank.Banking.Dispatch.{Operation, execute}
use monopoly_bank.Store.{LedgerRow, PaymentRequest, Store, create_payment_request}
use monopoly_bank.Service.Reads.{get_game, list_players, assert_rule_enabled}
use monopoly_bank.Service.Requests.{
  TransactionRequest, CreateTransactionRequest, direct_request, request_player_loan,
}
use monopoly_bank.Service.Run.{run_request}
use monopoly_bank.Service.Offers.{
  CommandResponse, transaction_response, requests_response, require_game,
  assert_auction_reserve_respected, assert_request_rules, PaymentPair, check_pairs, create_requests,
  create_confirmation_requests,
}
use monopoly_bank.Service.Commit.{
  create_loan_request, write_operation, commit_operation, pairs_of, commit_direct, commit_new,
  commit_found,
}
use monopoly_bank.Banking.Loans.{issue_loan}
use monopoly_bank.Service.LoanView.{is_empty_list}
use monopoly_bank.Service.Asked.{Asks}
use monopoly_bank.Service.Runs.{IsOn, found-game, run_request-executes}

get_game-id :
    (store : Store) (game_id : GameId) (game : Game)
    → require_game store game_id ≡ ok game
    → game.id ≡ game_id
unfolding require_game get_game
get_game-id store game_id game h = elim (Option-cases (find (λ g. g.id == game_id) store.games)) [
  | inl missing ↦ ground arith
  | inr (found, e) ↦ found-game game_id store.games game (ground arith)
]

-- What `commit` wrote: the result of the operation that was asked for, within the reserve of a
-- running auction.
pub record Wrote (host : TextHost) (now : ℕ) (id : RecordId) (trade : Option RecordId)
    (game_id : GameId) (request : CreateTransactionRequest) (store written : Store)
    (response : CommandResponse) : Type 0 where
  pub game : Game
  pub op : Operation
  pub result : BankingOperationResult
  pub read : require_game store game_id ≡ ok game
  pub is_on : IsOn game (list_players store game_id) op
  pub direct : TransactionRequest
  pub sent : request ≡ direct_request direct
  pub asks : Asks store game direct op
  pub ran : execute host op ≡ ok result
  pub covered : assert_auction_reserve_respected store game result ≡ ok tt
  pub wrote : write_operation host now id trade game_id result store ≡ ok (written, response)

commit_operation-Wrote :
    (host : TextHost) (now : ℕ) (id : RecordId) (trade : Option RecordId) (game_id : GameId)
    (game : Game) (request : TransactionRequest) (store written : Store)
    (response : CommandResponse)
    → require_game store game_id ≡ ok game
    → commit_operation host now id trade game (list_players store game_id) request store
      ≡ ok (written, response)
    → Wrote host now id trade game_id (direct_request request) store written response
unfolding commit_operation
commit_operation-Wrote host now id trade game_id game request store written response read h =
    let players = list_players store game_id in
    let (result, run, h1) = >>=-eq-ok (run_request _ _ _ _ _) _ h in
    let (_, covered, h2) = >>=-eq-ok (assert_auction_reserve_respected _ _ _) _ h1 in
    let (op, (ran, (is_on, asks))) =
      run_request-executes host store game players request result run in
    record {
      game = game;
      op = op;
      result = result;
      read = read;
      is_on = is_on;
      direct = request;
      sent = refl;
      asks = asks;
      ran = ran;
      covered = covered;
      wrote =
          subst (λ g. write_operation host now id trade g result store ≡ ok (written, response))
            (get_game-id store game_id game read) h2;
    }

responses-apart :
    {requests : List PaymentRequest} {players shown : List Player} {row : LedgerRow}
    → requests_response requests players ≡ transaction_response row shown
    → ⊥
responses-apart h = cc

create_loan_request-waits :
    (now : ℕ) (game : Game) (lender borrower : PlayerId) (amount : ℤ) (players : List Player)
    (id : RecordId) (store written : Store) (row : LedgerRow) (shown : List Player)
    → create_loan_request now game lender borrower amount players id store
      ≡ ok (written, transaction_response row shown)
    → ⊥
unfolding create_loan_request
create_loan_request-waits now game lender borrower amount players id store written row shown h =
    let (checked, _, h1) = >>=-eq-ok (issue_loan _) _ h in
    let (_, h2) = throw_if-passed _ _ _ h1 in
    let (created, _, h3) = >>=-eq-ok (create_payment_request _ _) _ h2 in
    responses-apart (ap (λ (p : Store × CommandResponse). p.1) (ok-injective h3))

create_confirmation_requests-waits :
    (now : ℕ) (game : Game) (pairs : List PaymentPair) (players : List Player) (id : RecordId)
    (store written : Store) (row : LedgerRow) (shown : List Player)
    → create_confirmation_requests now game pairs players id store
      ≡ ok (written, transaction_response row shown)
    → ⊥
unfolding create_confirmation_requests
create_confirmation_requests-waits now game pairs players id store written row shown h =
    let (_, h1) = throw_if-passed (is_empty_list pairs) no_other_active_players _ h in
    let (_, _, h2) = >>=-eq-ok (check_pairs _ _ _ _ _ _) _ h1 in
    let (created, _, h3) = >>=-eq-ok (create_requests _ _ _ _ _ _) _ h2 in
    responses-apart (ap (λ (p : Store × CommandResponse). p.1) (ok-injective h3))

commit_direct-Wrote :
    (host : TextHost) (now : ℕ) (id : RecordId) (trade : Option RecordId) (game_id : GameId)
    (game : Game) (request : TransactionRequest) (store written : Store) (row : LedgerRow)
    (shown : List Player) (pairs : Option (List PaymentPair))
    → require_game store game_id ≡ ok game
    → commit_direct host now id trade game (list_players store game_id) request store pairs
      ≡ ok (written, transaction_response row shown)
    → Wrote host now id trade game_id
        (direct_request request)
        store
        written
        (transaction_response row shown)
unfolding commit_direct
commit_direct-Wrote host now id trade game_id game request store written row shown (some pairs) read
      h =
    absurd (create_confirmation_requests-waits now game pairs _ id store written row shown h)
commit_direct-Wrote host now id trade game_id game request store written row shown none read h =
    commit_operation-Wrote host now id trade game_id game request store written _ read h

commit_new-Wrote :
    (host : TextHost) (now : ℕ) (id : RecordId) (trade : Option RecordId) (game_id : GameId)
    (game : Game) (request : CreateTransactionRequest) (store written : Store) (row : LedgerRow)
    (shown : List Player)
    → require_game store game_id ≡ ok game
    → commit_new host now id trade game (list_players store game_id) request store
      ≡ ok (written, transaction_response row shown)
    → Wrote host now id trade game_id request store written (transaction_response row shown)
unfolding commit_new
commit_new-Wrote host now id trade game_id game (request_player_loan lender borrower amount) store
      written row shown read h =
    let (_, _, h1) = >>=-eq-ok (assert_rule_enabled _ _) _ h in
    absurd
      (create_loan_request-waits now game lender borrower amount _ id store written row shown h1)
commit_new-Wrote host now id trade game_id game (direct_request request) store written row shown
      read h =
    let (_, _, h1) = >>=-eq-ok (assert_request_rules _ _) _ h in
    commit_direct-Wrote host now id trade game_id game request store written row shown
      (pairs_of game (list_players store game_id) request) read h1

pub commit_found-Wrote :
    (host : TextHost) (now : ℕ) (id : RecordId) (trade : Option RecordId) (game_id : GameId)
    (request : CreateTransactionRequest) (store written : Store) (row : LedgerRow)
    (shown : List Player)
    → commit_found host now id trade game_id request store none
      ≡ ok (written, transaction_response row shown)
    → Wrote host now id trade game_id request store written (transaction_response row shown)
unfolding commit_found
commit_found-Wrote host now id trade game_id request store written row shown h =
    let (game, read, h1) = >>=-eq-ok (require_game store game_id) _ h in
    commit_new-Wrote host now id trade game_id game request store written row shown read h1
