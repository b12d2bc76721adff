-- ===== src/Service/Reserves.antt =====
-- A wallet never promises more than it holds: the pending requests of a payer, with the leading bid
-- that is reserved, stay within the balance.
use mathlib.Core.Path.{subst}
use monopoly_bank.Prelude.{
  ℕ, ◌≡◌, sym, ap, ◌∙◌, inl, inr, Bool, true, false, Option, some, List, [], ◌∷◌, ◌++◌, arith, ◌==◌,
  if◌then◌else◌, Bool-cases, find, any, map, filter, All, ◌+◌,
}
use monopoly_bank.Prelude.Int.{ℤ, pos, ◌+ℤ◌, ◌-ℤ◌, ◌≤ℤ◌, ltb_ℤ, int_laws, sum}
use monopoly_bank.Types.{GameId, PlayerId, Game, Player, RecordId, Auction}
use monopoly_bank.Outcome.{
  invalid_payment_request, no_other_active_players, internal_error, conflict, ok, >>=-eq-ok,
  ok-injective, throw_if-passed, throw_if-false,
}
use monopoly_bank.Auction.{auction_reserve}
use monopoly_bank.Banking.Loans.{issue_loan}
use monopoly_bank.Store.{
  PaymentRequest, Store, create_payment_request, expire_payments, reserves, pending_reserved_amount,
}
use monopoly_bank.Service.Reads.{running_auction}
use monopoly_bank.Service.Offers.{
  CommandResponse, PaymentPair, available_balance, check_payer, check_pair, check_pairs,
  command_scoped_id, request_of_pair, create_requests, create_confirmation_requests,
}
use monopoly_bank.Service.Commit.{lender_available, loan_payment_request, create_loan_request}
use monopoly_bank.Service.LoanView.{is_empty_list}

pending_reserved_amount-append :
    (now : ℕ) (game_id : GameId) (payer : PlayerId) (rows : List PaymentRequest)
    (request : PaymentRequest)
    → pos 1 ≤ℤ request.amount
    → pending_reserved_amount now game_id payer (rows ++ request ∷ [])
      ≤ℤ pending_reserved_amount now game_id payer rows +ℤ request.amount
unfolding pending_reserved_amount sum
pending_reserved_amount-append now game_id payer [] request positive =
    elim (Bool-cases (reserves now game_id payer request)) [
      | inl counted ↦ rw counted (omega int_laws)
      | inr other ↦ rw other (omega (int_laws, positive))
    ]
pending_reserved_amount-append now game_id payer (row ∷ rows) request positive =
    let rest = pending_reserved_amount-append now game_id payer rows request positive in
    elim (Bool-cases (reserves now game_id payer row)) [
      | inl counted ↦ rw counted (omega (int_laws, rest))
      | inr other ↦ rw other rest
    ]

inserted-reserves :
    (now : ℕ) (game_id : GameId) (payer : PlayerId) (rows created : List PaymentRequest)
    (request : PaymentRequest) (taken : Bool)
    → pos 1 ≤ℤ request.amount
    → (if taken then rows else rows ++ request ∷ []) ≡ created
    → pending_reserved_amount now game_id payer created
      ≤ℤ pending_reserved_amount now game_id payer rows +ℤ request.amount
inserted-reserves now game_id payer rows created request true positive h =
    rw (← h) (omega (int_laws, positive))
inserted-reserves now game_id payer rows created request false positive h =
    rw (← h) (pending_reserved_amount-append now game_id payer rows request positive)

create_payment_request-inserts :
    (rows created : List PaymentRequest) (request : PaymentRequest)
    → create_payment_request request rows ≡ ok created
    → (if any (λ (row : PaymentRequest). row.id == request.id) rows
        then rows
        else rows ++ request ∷ [])
      ≡ created
unfolding create_payment_request
create_payment_request-inserts rows created request h =
    let (_, made) = throw_if-passed _ internal_error _ h in ok-injective made

create_payment_request-reserves :
    (now : ℕ) (game_id : GameId) (payer : PlayerId) (rows created : List PaymentRequest)
    (request : PaymentRequest)
    → create_payment_request request rows ≡ ok created
    → pending_reserved_amount now game_id payer created
      ≤ℤ pending_reserved_amount now game_id payer rows +ℤ request.amount
unfolding create_payment_request
create_payment_request-reserves now game_id payer rows created request h =
    let (valid, made) = throw_if-passed _ internal_error _ h in
    inserted-reserves now game_id payer rows created request
      (any (λ row. row.id == request.id) rows) (ground arith) (ok-injective made)

not_below : (a b : ℤ) → ltb_ℤ a b ≡ false → b ≤ℤ a
not_below a b h = ground arith

stays_within :
    (balance waiting reserve amount created : ℤ)
    → amount ≤ℤ balance -ℤ (waiting +ℤ reserve)
    → created ≤ℤ waiting +ℤ amount
    → created +ℤ reserve ≤ℤ balance
stays_within balance waiting reserve amount created enough bound = omega (int_laws, enough, bound)

check_pair-covers :
    (now : ℕ) (game_id : GameId) (players : List Player) (requests : List PaymentRequest)
    (auction : Option Auction) (pair : PaymentPair) (player : Player)
    → check_pair now game_id players requests auction pair ≡ ok tt
    → find (λ (p : Player). p.id == pair.payer_player_id) players ≡ some player
    → pair.amount
      ≤ℤ player.balance
        -ℤ (pending_reserved_amount now game_id player.id requests
            +ℤ auction_reserve auction player.id)
unfolding check_payer available_balance
check_pair-covers now game_id players requests auction pair player h found =
    let found_payer : check_payer now game_id requests auction pair (some player) ≡ ok tt =
      subst (λ o. check_payer now game_id requests auction pair o ≡ ok tt) found h in
    let (_, paid) =
      throw_if-passed (pair.payer_player_id == pair.recipient_player_id)
        (conflict invalid_payment_request) _ found_payer in
    not_below _ pair.amount (throw_if-false _ _ paid)

-- After a loan request is created, the pending requests of its lender, with the bid of a running
-- auction that is reserved on that wallet, are within the balance of the lender.
pub create_loan_request-reserves :
    (now : ℕ) (game : Game) (lender borrower : PlayerId) (amount : ℤ) (players : List Player)
    (id : RecordId) (store written : Store) (response : CommandResponse) (player : Player)
    → create_loan_request now game lender borrower amount players id store ≡ ok (written, response)
    → find (λ (p : Player). p.id == lender) players ≡ some player
    → pending_reserved_amount now game.id lender written.payment_requests
        +ℤ auction_reserve (running_auction store game) lender
      ≤ℤ player.balance
unfolding create_loan_request loan_payment_request
create_loan_request-reserves now game lender borrower amount players id store written response
      player h found =
    let requests = expire_payments now game.id store.payment_requests in
    let auction = running_auction store game in
    let request =
      loan_payment_request now game.id (command_scoped_id id 0) lender borrower amount in
    let (checked, _, h1) = >>=-eq-ok (issue_loan _) _ h in
    let (enough, h2) = throw_if-passed _ _ _ h1 in
    let (created, made, h3) = >>=-eq-ok (create_payment_request _ _) _ h2 in
    let kept : created ≡ written.payment_requests =
      ap (λ (p : Store × CommandResponse). p.0.payment_requests) (ok-injective h3) in
    let bound = create_payment_request-reserves now game.id lender requests created request made in
    let covered : ltb_ℤ (lender_available now game.id requests auction lender (some player)) amount
        ≡ false =
      subst (λ o. ltb_ℤ (lender_available now game.id requests auction lender o) amount ≡ false)
        found enough in
    rw (← kept) (
      stays_within player.balance (pending_reserved_amount now game.id lender requests)
        (auction_reserve auction lender) amount (pending_reserved_amount now game.id lender created)
        (not_below _ amount covered) bound)

-- The payments of a list that one player has to make.
abbrev pub owed_by : PlayerId → List PaymentPair → List PaymentPair
owed_by payer pairs = filter (λ pair. pair.payer_player_id == payer) pairs

abbrev total_of : List PaymentPair → ℤ
total_of pairs = sum (map (λ pair. pair.amount) pairs)

pending_reserved_amount-other :
    (now : ℕ) (game_id : GameId) (payer : PlayerId) (rows : List PaymentRequest)
    (request : PaymentRequest)
    → (request.payer_player_id == payer) ≡ false
    → pending_reserved_amount now game_id payer (rows ++ request ∷ [])
      ≡ pending_reserved_amount now game_id payer rows
unfolding pending_reserved_amount sum
pending_reserved_amount-other now game_id payer [] request other = ground arith
pending_reserved_amount-other now game_id payer (row ∷ rows) request other =
    let rest = pending_reserved_amount-other now game_id payer rows request other in
    elim (Bool-cases (reserves now game_id payer row)) [
      | inl counted ↦ rw counted (ap (λ total. row.amount +ℤ total) rest)
      | inr missed ↦ rw missed rest
    ]

inserted-other :
    (now : ℕ) (game_id : GameId) (payer : PlayerId) (rows created : List PaymentRequest)
    (request : PaymentRequest) (taken : Bool)
    → (request.payer_player_id == payer) ≡ false
    → (if taken then rows else rows ++ request ∷ []) ≡ created
    → pending_reserved_amount now game_id payer created
      ≡ pending_reserved_amount now game_id payer rows
inserted-other now game_id payer rows created request true other h =
    ap (pending_reserved_amount now game_id payer) (sym h)
inserted-other now game_id payer rows created request false other h =
    rw (← h) (pending_reserved_amount-other now game_id payer rows request other)

create_payment_request-other :
    (now : ℕ) (game_id : GameId) (payer : PlayerId) (rows created : List PaymentRequest)
    (request : PaymentRequest)
    → create_payment_request request rows ≡ ok created
    → (request.payer_player_id == payer) ≡ false
    → pending_reserved_amount now game_id payer created
      ≡ pending_reserved_amount now game_id payer rows
create_payment_request-other now game_id payer rows created request h other =
    inserted-other now game_id payer rows created request (any (λ row. row.id == request.id) rows)
      other (create_payment_request-inserts rows created request h)

-- The requests of a list of payments reserve at most what the player owes by it.
create_requests-reserves :
    (now : ℕ) (game_id : GameId) (payer : PlayerId) (id : RecordId) (index : ℕ)
    (pairs : List PaymentPair) (rows created : List PaymentRequest)
    → create_requests now game_id id index pairs rows ≡ ok created
    → pending_reserved_amount now game_id payer created
      ≤ℤ pending_reserved_amount now game_id payer rows +ℤ total_of (owed_by payer pairs)
unfolding create_requests sum
create_requests-reserves now game_id payer id index [] rows created h =
    rw (← ok-injective h) (omega int_laws)
create_requests-reserves now game_id payer id index (pair ∷ pairs) rows created h =
    let request = request_of_pair now game_id (command_scoped_id id index) pair in
    let (first, made, h1) = >>=-eq-ok (create_payment_request request rows) _ h in
    let rest = create_requests-reserves now game_id payer id (index + 1) pairs first created h1 in
    elim (Bool-cases (pair.payer_player_id == payer)) [
      | inl own ↦
          let one = create_payment_request-reserves now game_id payer rows first request made in
          rw own (omega (int_laws, rest, one))
      | inr other ↦
          let same = create_payment_request-other now game_id payer rows first request made other in
          rw other (rw (← same) rest)
    ]

-- What a loop of checks passes, each of its payments has passed.
check_pairs-owed :
    (now : ℕ) (game_id : GameId) (players : List Player) (requests : List PaymentRequest)
    (auction : Option Auction) (payer : PlayerId) (pairs : List PaymentPair)
    → check_pairs now game_id players requests auction pairs ≡ ok tt
    → All
        (λ pair. check_pair now game_id players requests auction pair ≡ ok tt)
        (owed_by payer pairs)
unfolding check_pairs
check_pairs-owed now game_id players requests auction payer [] h = tt
check_pairs-owed now game_id players requests auction payer (pair ∷ pairs) h =
    let (_, one, h1) = >>=-eq-ok (check_pair now game_id players requests auction pair) _ h in
    let rest = check_pairs-owed now game_id players requests auction payer pairs h1 in
    elim (Bool-cases (pair.payer_player_id == payer)) [
      | inl own ↦ rw own (one, rest)
      | inr other ↦ rw other rest
    ]

total_of-single : (pair : PaymentPair) → total_of (pair ∷ []) ≡ pair.amount
unfolding sum
total_of-single pair = omega int_laws

-- After a confirmation game has created the requests of a list of payments, the pending requests of
-- every payer, with the bid of a running auction that is reserved on that wallet, are within the
-- balance of the payer. The list names the payer once.
pub create_confirmation_requests-reserves :
    (now : ℕ) (game : Game) (pairs : List PaymentPair) (pair : PaymentPair) (players : List Player)
    (id : RecordId) (store written : Store) (response : CommandResponse) (player : Player)
    → create_confirmation_requests now game pairs players id store ≡ ok (written, response)
    → owed_by player.id pairs ≡ pair ∷ []
    → find (λ (p : Player). p.id == pair.payer_player_id) players ≡ some player
    → pending_reserved_amount now game.id player.id written.payment_requests
        +ℤ auction_reserve (running_auction store game) player.id
      ≤ℤ player.balance
unfolding create_confirmation_requests
create_confirmation_requests-reserves now game pairs pair players id store written response player h
      once found =
    let requests = expire_payments now game.id store.payment_requests in
    let auction = running_auction store game in
    let (_, h1) = throw_if-passed (is_empty_list pairs) no_other_active_players _ h in
    let (_, checked, h2) = >>=-eq-ok (check_pairs now game.id players requests auction _) _ h1 in
    let (created, done, h3) = >>=-eq-ok (create_requests now game.id id 0 pairs requests) _ h2 in
    let passed =
      subst (All (λ p. check_pair now game.id players requests auction p ≡ ok tt)) once
        (check_pairs-owed now game.id players requests auction player.id pairs checked) in
    let enough =
      check_pair-covers now game.id players requests auction pair player passed.0 found in
    let kept : created ≡ written.payment_requests =
      ap (λ (p : Store × CommandResponse). p.0.payment_requests) (ok-injective h3) in
    let bound : pending_reserved_amount now game.id player.id created
        ≤ℤ pending_reserved_amount now game.id player.id requests +ℤ pair.amount =
      subst
        (λ total.
          pending_reserved_amount now game.id player.id created
          ≤ℤ pending_reserved_amount now game.id player.id requests +ℤ total)
        (ap total_of once ∙ total_of-single pair)
        (create_requests-reserves now game.id player.id id 0 pairs requests created done) in
    rw (← kept) (
      stays_within player.balance (pending_reserved_amount now game.id player.id requests)
        (auction_reserve auction player.id) pair.amount
        (pending_reserved_amount now game.id player.id created) enough bound)
