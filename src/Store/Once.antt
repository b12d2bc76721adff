-- ===== src/Store/Once.antt =====
-- A settlement goes through only for an open request, so a request is settled at most once.
use mathlib.Core.Path.{subst}
use monopoly_bank.Prelude.{
  ◌≤◌, ℕ, ◌≡◌, refl, sym, ap, Bool, true, false, ◌&&◌, Option, none, some, List, [], ◌∷◌, map,
  arith, ◌==◌, if◌then◌else◌, any,
}
use monopoly_bank.Types.{Player, RecordId}
use monopoly_bank.Outcome.{internal_error, ok, >>=-eq-ok, ok-injective, throw_if-passed}
use monopoly_bank.Banking.Pending.{PendingTransaction, PlayerBalanceChange}
use monopoly_bank.Store.Tables.{Store}
use monopoly_bank.Store.Writes.{
  write_row, update_balance, update_balances, guarded_balance_update, insert_transaction,
}
use monopoly_bank.Store.Pending.{accept_payment, settlement_loans, settle}
use monopoly_bank.Store.Settled.{
  RequestRun, opens, IsClosed, accepted-IsClosed, unopened, RequestRun-IsClosed,
}

-- A change names a row of its game.
abbrev pub NamesSome : List PlayerBalanceChange → List Player → Type 0
NamesSome [] rows = ⊥
NamesSome (change ∷ changes) rows =
    any (λ (row : Player). row.game_id == change.player.game_id && row.id == change.player.id) rows
    ≡ true

shut_row :
    (named inside : Bool) (change : PlayerBalanceChange) (other : Option PlayerBalanceChange)
    (row updated : Player)
    → write_row false (if inside then (if named then some change else other) else none) row
      ≡ ok updated
    → inside && named ≡ false
unfolding write_row
shut_row false false change other row updated h = refl
shut_row true false change other row updated h = refl
shut_row false true change other row updated h = refl
shut_row true true change other row updated h = ground arith

-- An update whose guard does not hold goes through only if it names no row.
shut-update_balances :
    (change : PlayerBalanceChange) (changes : List PlayerBalanceChange) (rows written : List Player)
    → update_balances change.player.game_id (change ∷ changes) false rows ≡ ok written
    → any
        (λ (row : Player). row.game_id == change.player.game_id && row.id == change.player.id)
        rows
      ≡ false
unfolding update_balances
shut-update_balances change changes [] written h = refl
shut-update_balances change changes (row ∷ rows) written h =
    let game_id = change.player.game_id in
    let (updated, one, h1) = >>=-eq-ok (update_balance game_id (change ∷ changes) false row) _ h in
    let (rest, more, h2) = >>=-eq-ok (update_balances game_id (change ∷ changes) false rows) _ h1 in
    rw
      (
        shut_row (row.id == change.player.id) (row.game_id == game_id) change _ row updated one,
        shut-update_balances change changes rows rest more,
      )
      refl

shut-guarded_balance_update :
    (guard : Bool) (changes : List PlayerBalanceChange) (rows written : List Player)
    → guarded_balance_update changes guard rows ≡ ok written
    → NamesSome changes rows
    → guard ≡ true
unfolding guarded_balance_update
shut-guarded_balance_update true changes rows written h named = refl
shut-guarded_balance_update false [] rows written h named = absurd named
shut-guarded_balance_update false (c ∷ cs) rows written h named =
    let shut = shut-update_balances c cs rows written (throw_if-passed _ internal_error _ h).1 in cc

-- A settlement that names a wallet of the store goes through only for an open request.
settle-opened :
    (now later : ℕ) (id transaction_id : RecordId) (t : PendingTransaction)
    (changes : List PlayerBalanceChange) (store written : Store)
    → settle now later id transaction_id t changes store ≡ ok written
    → NamesSome changes store.players
    → (any (opens now id) store.payment_requests ≡ true)
      × (written.payment_requests
          ≡ map (accept_payment later id transaction_id) store.payment_requests)
unfolding settle
settle-opened now later id transaction_id t changes store written h named =
    let (players, updated, h1) =
      >>=-eq-ok
        (guarded_balance_update changes (any (opens now id) store.payment_requests) store.players) _
        h in
    let (ledger, inserted, h2) = >>=-eq-ok (insert_transaction _ _ _) _ h1 in
    let (loans, lent, h3) = >>=-eq-ok (settlement_loans _ _ _ _ _) _ h2 in
    (
      shut-guarded_balance_update _ changes store.players players updated named,
      ap (λ (s : Store). s.payment_requests) (sym (ok-injective h3)),
    )

-- A payment request is settled at most once: after a settlement of it that names a wallet, whatever
-- the repository writes to the requests, no other that begins later and names a wallet goes
-- through, for any transaction and on any store that holds these requests. In a settlement the
-- guard of the balances and the update of the request read the clock on their own.
pub settle-once :
    (now ended begun later : ℕ) (id first second : RecordId) (t u : PendingTransaction)
    (changes others : List PlayerBalanceChange) (store written current again : Store)
    → NamesSome changes store.players
    → settle now ended id first t changes store ≡ ok written
    → RequestRun written.payment_requests current.payment_requests
    → ended ≤ begun
    → NamesSome others current.players
    → ¬ (settle begun later id second u others current ≡ ok again)
settle-once now ended begun later id first second t u changes others store written current again
      named paid run order others_named h =
    let (opened, same) = settle-opened now ended id first t changes store written paid named in
    let closed = accepted-IsClosed now ended id first store.payment_requests opened in
    let (has, answered) =
      RequestRun-IsClosed ended id run (subst (IsClosed ended id) (sym same) closed) in
    let (reopened, _) = settle-opened begun later id second u others current again h others_named in
    let shut = unopened ended begun id current.payment_requests order answered in cc
