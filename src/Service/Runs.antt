-- ===== src/Service/Runs.antt =====
-- What an operation that a request runs was given: the game and the players as they were read.
use mathlib.Core.Path.{subst}
use monopoly_bank.Prelude.{
  ◌≡◌, refl, ap, ◌∙◌, ◌⊎◌, inl, inr, Bool, true, false, not, Option, some, List, [], ◌∷◌, arith,
  ◌==◌, if◌then◌else◌, find,
}
use monopoly_bank.Prelude.Int.{ℤ}
use monopoly_bank.Types.{GameId, PlayerId, Game, Player, Loan, InterestRatePercent}
use monopoly_bank.Outcome.{
  tile_required, validation_error, Result, ok, >>=-eq-ok, ok-injective, throw_if-passed,
}
use monopoly_bank.Money.{TextHost}
use monopoly_bank.Banking.Pending.{BankingOperationResult}
use monopoly_bank.Banking.Dispatch.{Operation, execute, players_of, game_of}
use monopoly_bank.Store.{Store, is_bank_lender}
use monopoly_bank.Service.Reads.{assert_rule_enabled}
use monopoly_bank.Service.Requests.{
  TransactionRequest, request_payment, request_to_bank, request_from_bank, request_to_all,
  request_from_all, request_pass_go, request_to_jackpot, request_jackpot, request_reversal,
  request_bank_loan, request_mortgage_tile, request_mortgage, request_redemption, request_repayment,
  request_purchase, request_build, request_sell, request_transfer, request_rent,
}
use monopoly_bank.Service.Checks.{property_context, assert_not_in_auction}
use monopoly_bank.Service.Lookups.{
  require_transaction, reversal_operation, require_loan, require_mortgage, require_rate,
  require_rounds, repay_operation, redemption_context,
}
use monopoly_bank.Service.Asked.{Asks, request_operation-Asks}
use monopoly_bank.Service.Run.{request_operation, check_result, run_request}

-- An operation is on the game and the players that were read.
abbrev pub IsOn : Game → List Player → Operation → Type 0
IsOn game players op = (game_of op ≡ game) × (players_of op ≡ players)

either :
    {V : Type 0} (b : Bool) (x y : Result V) {v : V}
    → (if b then x else y) ≡ ok v
    → (x ≡ ok v) ⊎ (y ≡ ok v)
either true x y h = inl h
either false x y h = inr h

repay_operation-IsOn :
    (store : Store) (game : Game) (players : List Player) (player_id : PlayerId) (loan : Loan)
    (amount : ℤ) (rate : Option InterestRatePercent) (op : Operation)
    → repay_operation store game players player_id loan amount rate ≡ ok op
    → IsOn game players op
unfolding repay_operation
repay_operation-IsOn store game players player_id loan amount rate op h =
    elim (either (not (is_bank_lender loan.lender_kind)) _ _ h) [
      | inl lent ↦
          let (_, enabled, h1) = >>=-eq-ok (assert_rule_enabled _ _) _ lent in
          let (_, h2) = throw_if-passed _ validation_error _ h1 in
          subst (IsOn game players) (ok-injective h2) (refl, refl)
      | inr owed ↦
          let (_, enabled, h1) = >>=-eq-ok (assert_rule_enabled _ _) _ owed in
          let (rate', given, h2) = >>=-eq-ok (require_rate _) _ h1 in
          let (rounds, known, h3) = >>=-eq-ok (require_rounds _ _) _ h2 in
          subst (IsOn game players) (ok-injective h3) (refl, refl)
    ]

request_operation-IsOn :
    (store : Store) (game : Game) (players : List Player) (request : TransactionRequest)
    (op : Operation)
    → request_operation store game players request ≡ ok op
    → IsOn game players op
unfolding request_operation reversal_operation
request_operation-IsOn store game players (request_payment s d a c) op h =
    subst (IsOn game players) (ok-injective h) (refl, refl)
request_operation-IsOn store game players (request_to_bank p a c) op h =
    subst (IsOn game players) (ok-injective h) (refl, refl)
request_operation-IsOn store game players (request_from_bank p a c) op h =
    subst (IsOn game players) (ok-injective h) (refl, refl)
request_operation-IsOn store game players (request_to_jackpot p a c) op h =
    subst (IsOn game players) (ok-injective h) (refl, refl)
request_operation-IsOn store game players (request_to_all p a c) op h =
    subst (IsOn game players) (ok-injective h) (refl, refl)
request_operation-IsOn store game players (request_from_all p a c) op h =
    subst (IsOn game players) (ok-injective h) (refl, refl)
request_operation-IsOn store game players (request_pass_go p e c) op h =
    subst (IsOn game players) (ok-injective h) (refl, refl)
request_operation-IsOn store game players (request_jackpot p e) op h =
    subst (IsOn game players) (ok-injective h) (refl, refl)
request_operation-IsOn store game players (request_bank_loan p a k) op h =
    subst (IsOn game players) (ok-injective h) (refl, refl)
request_operation-IsOn store game players (request_reversal t c) op h =
    let (row, found, h1) = >>=-eq-ok (require_transaction _ _ _) _ h in
    subst (IsOn game players) (ok-injective h1) (refl, refl)
request_operation-IsOn store game players (request_mortgage_tile p t) op h =
    let (property, read, h1) = >>=-eq-ok (property_context _ _ _) _ h in
    subst (IsOn game players) (ok-injective h1) (refl, refl)
request_operation-IsOn store game players (request_mortgage p n a) op h =
    let (_, h1) = throw_if-passed _ tile_required _ h in
    subst (IsOn game players) (ok-injective h1) (refl, refl)
request_operation-IsOn store game players (request_redemption p m) op h =
    let (mortgage, found, h1) = >>=-eq-ok (require_mortgage _ _ _) _ h in
    let (property, read, h2) = >>=-eq-ok (redemption_context _ _ _) _ h1 in
    subst (IsOn game players) (ok-injective h2) (refl, refl)
request_operation-IsOn store game players (request_repayment p l a r) op h =
    let (loan, found, h1) = >>=-eq-ok (require_loan _ _ _) _ h in
    repay_operation-IsOn store game players p loan a r op h1
request_operation-IsOn store game players (request_purchase p t o) op h =
    let (property, read, h1) = >>=-eq-ok (property_context _ _ _) _ h in
    let (_, free, h2) = >>=-eq-ok (assert_not_in_auction _ _) _ h1 in
    subst (IsOn game players) (ok-injective h2) (refl, refl)
request_operation-IsOn store game players (request_build b) op h =
    let (property, read, h1) = >>=-eq-ok (property_context _ _ _) _ h in
    subst (IsOn game players) (ok-injective h1) (refl, refl)
request_operation-IsOn store game players (request_sell b) op h =
    let (property, read, h1) = >>=-eq-ok (property_context _ _ _) _ h in
    subst (IsOn game players) (ok-injective h1) (refl, refl)
request_operation-IsOn store game players (request_transfer t) op h =
    let (property, read, h1) = >>=-eq-ok (property_context _ _ _) _ h in
    subst (IsOn game players) (ok-injective h1) (refl, refl)
request_operation-IsOn store game players (request_rent p t d) op h =
    let (property, read, h1) = >>=-eq-ok (property_context _ _ _) _ h in
    subst (IsOn game players) (ok-injective h1) (refl, refl)

pub found-game :
    (game_id : GameId) (games : List Game) (game : Game)
    → find (λ g. g.id == game_id) games ≡ some game
    → game.id ≡ game_id
found-game game_id [] game h = cc
found-game game_id (g ∷ gs) game h = ground (arith, found-game game_id gs game)

-- A request that runs is the operation that it asks for, on the game and the players that were
-- read.
pub run_request-executes :
    (host : TextHost) (store : Store) (game : Game) (players : List Player)
    (request : TransactionRequest) (r : BankingOperationResult)
    → run_request host store game players request ≡ ok r
    → (op : Operation) × ((execute host op ≡ ok r)
        × ((IsOn game players op) × (Asks store game request op)))
unfolding run_request
run_request-executes host store game players request r h =
    let (op, asked, h1) = >>=-eq-ok (request_operation _ _ _ _) _ h in
    let (result, ran, h2) = >>=-eq-ok (execute _ _) _ h1 in
    let (_, passed, h3) = >>=-eq-ok (check_result _ _ _ _ _) _ h2 in
    (
      op,
      (
        ran ∙ ap (λ v. ok v) (ok-injective h3),
        (
          request_operation-IsOn store game players request op asked,
          request_operation-Asks store game players request op asked,
        ),
      ),
    )
