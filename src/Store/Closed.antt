-- ===== src/Store/Closed.antt =====
-- What a bankruptcy leaves of the player who goes bankrupt.
use mathlib.Core.Path.{subst}
use monopoly_bank.Prelude.{
  ℕ, ◌≡◌, sym, false, not, ◌&&◌, ◌||◌, Option, none, some, List, [], ◌∷◌, map, arith, ◌==◌, All,
}
use monopoly_bank.Types.{GameId, PlayerId, Player, Loan}
use monopoly_bank.Outcome.{ok}
use monopoly_bank.Money.{TextHost}
use monopoly_bank.Property.Lookup.{is_owner}
use monopoly_bank.Banking.Guards.{is_bankrupt}
use monopoly_bank.Store.Tables.{MortgageRow, TradeRequest, Store}
use monopoly_bank.Store.Records.{is_active_loan_row}
use monopoly_bank.Store.Closing.{PersistInput, is_pending, bankrupt_trade_statements, cancel_trade}
use monopoly_bank.Store.Insolvency.{
  bankrupt_row, is_active_of, release_mortgage, write_off_owed, inherit_loan, write_off_lent,
  bankrupt_status_statements, bankrupt_mortgage_statements, bankrupt_debt_statements,
}
use monopoly_bank.Store.Persist.{persist}
use monopoly_bank.Store.Written.{persist-IsPersisted}

module _ {ℓ} {A : Type ℓ} where
  map-All :
      (P Q : A → Type 0) (f : A → A)
      → ((x : A) → P x → Q (f x))
      → (xs : List A) → All P xs
      → All Q (map f xs)
  map-All P Q f step [] h = tt
  map-All P Q f step (x ∷ xs) (here, later) = (step x here, map-All P Q f step xs later)

  map-Every : (Q : A → Type 0) (f : A → A) → ((x : A) → Q (f x)) → (xs : List A) → All Q (map f xs)
  map-Every Q f step [] = tt
  map-Every Q f step (x ∷ xs) = (step x, map-Every Q f step xs)

module _ (game_id : GameId) (bankrupt : PlayerId) where
  -- The player is bankrupt in the game.
  abbrev pub IsOut : Player → Type 0
  IsOut row = row.game_id == game_id && (row.id == bankrupt && not (is_bankrupt row)) ≡ false

  -- No active mortgage of the player.
  abbrev pub IsReleased : MortgageRow → Type 0
  IsReleased row = is_active_of game_id bankrupt row ≡ false

  abbrev IsForgiven : Loan → Type 0
  IsForgiven row =
      row.game_id == game_id && (row.borrower_player_id == bankrupt && is_active_loan_row row.state)
      ≡ false

  -- No active loan that the player borrowed or lent.
  abbrev pub IsWrittenOff : Loan → Type 0
  IsWrittenOff row =
      row.game_id == game_id
        && ((row.borrower_player_id == bankrupt || is_owner row.lender_player_id bankrupt)
            && is_active_loan_row row.state)
      ≡ false

  -- No pending trade with the player.
  abbrev pub IsCancelled : TradeRequest → Type 0
  IsCancelled row =
      row.game_id == game_id
        && (is_pending row.state
            && (row.proposer_player_id == bankrupt || row.counterparty_player_id == bankrupt))
      ≡ false

  bankrupt_row-IsOut : (row : Player) → IsOut (bankrupt_row game_id bankrupt row)
  bankrupt_row-IsOut row = ground arith

  release_mortgage-IsReleased :
      (row : MortgageRow) → IsReleased (release_mortgage game_id bankrupt row)
  release_mortgage-IsReleased row = ground arith

  write_off_owed-IsForgiven : (row : Loan) → IsForgiven (write_off_owed game_id bankrupt row)
  write_off_owed-IsForgiven row = ground arith

  inherit_loan-IsForgiven :
      (heir : PlayerId) (row : Loan)
      → IsForgiven row
      → IsForgiven (inherit_loan game_id bankrupt heir row)
  inherit_loan-IsForgiven heir row h = ground arith

  write_off_lent-IsWrittenOff :
      (row : Loan) → IsForgiven row → IsWrittenOff (write_off_lent game_id bankrupt row)
  write_off_lent-IsWrittenOff row h = ground arith

  cancel_trade-IsCancelled : (row : TradeRequest) → IsCancelled (cancel_trade game_id bankrupt row)
  cancel_trade-IsCancelled row = ground arith

-- The store has nothing open of a bankrupt player of the game.
pub record IsClosedOut (game_id : GameId) (bankrupt : PlayerId) (store : Store) : Type 0 where
  pub players : All (IsOut game_id bankrupt) store.players
  pub mortgages : All (IsReleased game_id bankrupt) store.mortgages
  pub loans : All (IsWrittenOff game_id bankrupt) store.loans
  pub trade_requests : All (IsCancelled game_id bankrupt) store.trade_requests

module _ (input : PersistInput) (bankrupt : PlayerId)
    (named : input.bankrupt_player_id ≡ some bankrupt) where
  bankrupt_status_statements-IsOut :
      (rows : List Player)
      → All (IsOut input.transaction.game_id bankrupt) (bankrupt_status_statements input rows)
  unfolding bankrupt_status_statements
  bankrupt_status_statements-IsOut rows =
      rw named (map-Every _ _ (bankrupt_row-IsOut input.transaction.game_id bankrupt) rows)

  bankrupt_mortgage_statements-IsReleased :
      (host : TextHost) (rows : List MortgageRow)
      → All
          (IsReleased input.transaction.game_id bankrupt)
          (bankrupt_mortgage_statements host input rows)
  unfolding bankrupt_mortgage_statements
  bankrupt_mortgage_statements-IsReleased host rows =
      rw named (map-Every _ _ (release_mortgage-IsReleased input.transaction.game_id bankrupt) _)

  inherited-IsForgiven :
      (heir : Option PlayerId) (rows : List Loan)
      → All (IsForgiven input.transaction.game_id bankrupt) rows
      → All (IsForgiven input.transaction.game_id bankrupt) (elim heir [
        | none ↦ rows
        | some heir ↦ map (inherit_loan input.transaction.game_id bankrupt heir) rows
      ])
  inherited-IsForgiven none rows h = h
  inherited-IsForgiven (some heir) rows h =
      map-All _ _ _ (inherit_loan-IsForgiven input.transaction.game_id bankrupt heir) rows h

  bankrupt_debt_statements-IsWrittenOff :
      (rows : List Loan)
      → All (IsWrittenOff input.transaction.game_id bankrupt) (bankrupt_debt_statements input rows)
  unfolding bankrupt_debt_statements
  bankrupt_debt_statements-IsWrittenOff rows = rw named (
      map-All _ _ _ (write_off_lent-IsWrittenOff input.transaction.game_id bankrupt) _ (
        inherited-IsForgiven input.loan_heir_player_id _
          (map-Every _ _ (write_off_owed-IsForgiven input.transaction.game_id bankrupt) rows)))

  bankrupt_trade_statements-IsCancelled :
      (rows : List TradeRequest)
      → All (IsCancelled input.transaction.game_id bankrupt) (bankrupt_trade_statements input rows)
  unfolding bankrupt_trade_statements
  bankrupt_trade_statements-IsCancelled rows =
      rw named (map-Every _ _ (cancel_trade-IsCancelled input.transaction.game_id bankrupt) rows)

-- A batch of a bankruptcy that goes through leaves nothing open of that player in the game: the
-- player is bankrupt, and is in no active mortgage, no active loan, as borrower or as lender, and
-- no pending trade, whoever is the heir and whatever else the batch wrote.
pub persist-IsClosedOut :
    (host : TextHost) (now : ℕ) (input : PersistInput) (bankrupt : PlayerId) (store written : Store)
    → input.bankrupt_player_id ≡ some bankrupt
    → persist host now input store ≡ ok written
    → IsClosedOut input.transaction.game_id bankrupt written
persist-IsClosedOut host now input bankrupt store written named h =
    let game_id = input.transaction.game_id in
    let parts = persist-IsPersisted host now input store written h in
    record {
      players =
          subst (All (IsOut game_id bankrupt)) (sym parts.players)
            (bankrupt_status_statements-IsOut input bankrupt named parts.balances);
      mortgages =
          subst (All (IsReleased game_id bankrupt)) (sym parts.mortgages)
            (bankrupt_mortgage_statements-IsReleased input bankrupt named host parts.handed);
      loans =
          subst (All (IsWrittenOff game_id bankrupt)) (sym parts.loans)
            (bankrupt_debt_statements-IsWrittenOff input bankrupt named parts.settled);
      trade_requests =
          subst (All (IsCancelled game_id bankrupt)) (sym parts.trade_requests)
            (bankrupt_trade_statements-IsCancelled input bankrupt named parts.accepted);
    }
