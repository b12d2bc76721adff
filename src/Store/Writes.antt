-- ===== src/Store/Writes.antt =====
-- worker/repositories: balance-statements.ts and operation-statements/{ledger,registry,jackpot,

use monopoly_bank.Prelude.{
  ℕ, Bool, true, false, not, ◌&&◌, ◌||◌, Option, none, some, List, [], ◌∷◌, ◌++◌, ◌==◌,
  if◌then◌else◌, find, any, all,
}
use monopoly_bank.Prelude.Int.{ℤ, pos, negsuc, ◌+ℤ◌, ltb_ℤ, leb_ℤ, eqb_ℤ}
use monopoly_bank.Types.{
  GameId, Player, GameProperty, PropertyState, PropertyChange, RecordId, TransactionType, reversal,
  property_transfer, type_index, includes_type,
}
use monopoly_bank.Outcome.{database_error, internal_error, Result, ok, throw_if, ◌>>=◌, ◌>>◌}
use monopoly_bank.Property.Lookup.{state_of_row}
use monopoly_bank.Banking.Pending.{
  JackpotChange, deposit, collect, PendingTransaction, PlayerBalanceChange,
}
use monopoly_bank.Store.Tables.{LedgerRow, PotRow}

-- trade,auction}-statements.ts. A statement is a function of its table; a CHECK or a UNIQUE
-- constraint of src/migrations that it breaks is a `database_error`, which ends the batch.

-- `IS`, on identifiers that may be NULL
abbrev pub same_id : Option ℕ → Option ℕ → Bool
same_id none none = true
same_id none (some b) = false
same_id (some a) none = false
same_id (some a) (some b) = a == b

-- `CASE id WHEN ... THEN CASE WHEN balance = ? AND guard THEN ? ELSE -1 END`
abbrev pub written_balance : Bool → PlayerBalanceChange → Player → ℤ
written_balance guard change row =
    if eqb_ℤ row.balance change.balance_before && guard then change.balance_after else negsuc 0

-- The change of a row that the UPDATE touches.
abbrev pub change_of : GameId → List PlayerBalanceChange → Player → Option PlayerBalanceChange
change_of game_id changes row =
    if row.game_id == game_id then find (λ c. row.id == c.player.id) changes else none

-- `CHECK (balance >= 0)`
unfoldable pub write_row : Bool → Option PlayerBalanceChange → Player → Result Player
write_row guard none row = ok row
write_row guard (some change) row = do
  let balance = written_balance guard change row
  throw_if (ltb_ℤ balance (pos 0)) database_error
  ok (record row { balance = balance })

abbrev pub update_balance : GameId → List PlayerBalanceChange → Bool → Player → Result Player
update_balance game_id changes guard row = write_row guard (change_of game_id changes row) row

unfoldable pub update_balances :
    GameId → List PlayerBalanceChange → Bool → List Player → Result (List Player)
update_balances game_id changes guard [] = ok []
update_balances game_id changes guard (row ∷ rows) = do
  updated ← update_balance game_id changes guard row
  rest ← update_balances game_id changes guard rows
  ok (updated ∷ rest)

-- `guard` is whether the condition of the guard holds; it is true when there is none.
unfoldable pub guarded_balance_update :
    List PlayerBalanceChange → Bool → List Player → Result (List Player)
guarded_balance_update [] guard rows = ok rows
guarded_balance_update (change ∷ changes) guard rows = do
  let game_id = change.player.game_id
  throw_if (any (λ c. not (c.player.game_id == game_id)) (change ∷ changes)) internal_error
  update_balances game_id (change ∷ changes) guard rows

-- An amount of 0 is for a trade and a reversal.
abbrev pub is_ledger_amount : TransactionType → ℤ → Bool
is_ledger_amount type amount =
    ltb_ℤ (pos 0) amount
    || includes_type type (property_transfer ∷ reversal ∷ []) && eqb_ℤ amount (pos 0)

-- A trigger refuses a delta of 0 but on a trade and on a reversal.
abbrev pub is_ledger_delta : TransactionType → ℤ → Bool
is_ledger_delta type delta =
    not (eqb_ℤ delta (pos 0)) || includes_type type (property_transfer ∷ reversal ∷ [])

-- The constraints on a new row of `transactions` and on its participants.
unfoldable pub is_ledger_row : List LedgerRow → RecordId → PendingTransaction → Bool
is_ledger_row rows id t =
    not (any (λ row. row.id == id) rows)
    && (is_ledger_amount t.type t.amount
        && (is_ledger_amount t.type t.total_amount
            && (all (λ p. is_ledger_delta t.type p.balance_delta) t.participants
                && (elim t.reverses_transaction_id [
                  | none ↦ not (type_index t.type == type_index reversal)
                  | some original ↦
                      type_index t.type == type_index reversal
                      && (not (original == id)
                          && not (
                              any
                                (λ row.
                                  same_id row.transaction.reverses_transaction_id (some original))
                                rows))
                ]))))

unfoldable pub insert_transaction :
    RecordId → PendingTransaction → List LedgerRow → Result (List LedgerRow)
insert_transaction id transaction rows = do
  throw_if (not (is_ledger_row rows id transaction)) database_error
  ok (rows ++ record { id = id; transaction = transaction } ∷ [])

abbrev pub same_flag : Bool → Bool → Bool
same_flag true b = b
same_flag false b = not b

abbrev pub same_state : PropertyState → PropertyState → Bool
same_state a b =
    same_id a.owner_player_id b.owner_player_id
    && (same_flag a.mortgaged b.mortgaged && eqb_ℤ a.houses b.houses)

-- The constraints of `game_properties`: at most a hotel, and no buildings under a mortgage.
abbrev pub is_stored_state : PropertyState → Bool
is_stored_state state =
    leb_ℤ (pos 0) state.houses
    && (leb_ℤ state.houses (pos 5) && (not state.mortgaged || eqb_ℤ state.houses (pos 0)))

abbrev pub put_state : GameProperty → PropertyState → GameProperty
put_state row state = record row {
  owner_player_id = state.owner_player_id;
  mortgaged = state.mortgaged;
  houses = state.houses;
}

-- A row that is not as the change read it gets `mortgaged = -1`, which breaks its CHECK.
unfoldable pub write_property : PropertyChange → GameProperty → Result GameProperty
write_property change row = do
  throw_if (not (same_state (state_of_row row) change.before && is_stored_state change.after))
      database_error
  ok (put_state row change.after)

abbrev pub update_property : GameId → PropertyChange → GameProperty → Result GameProperty
update_property game_id change row =
    if row.game_id == game_id
    then (if change.tile_id == row.tile_id then write_property change row else ok row)
    else ok row

unfoldable pub registry_guard_statement :
    GameId → PropertyChange → List GameProperty → Result (List GameProperty)
registry_guard_statement game_id change [] = ok []
registry_guard_statement game_id change (row ∷ rows) = do
  updated ← update_property game_id change row
  rest ← registry_guard_statement game_id change rows
  ok (updated ∷ rest)

unfoldable pub registry_statements :
    GameId → List PropertyChange → List GameProperty → Result (List GameProperty)
registry_statements game_id [] rows = ok rows
registry_statements game_id (change ∷ changes) rows = do
  updated ← registry_guard_statement game_id change rows
  registry_statements game_id changes updated

-- `jackpot_balance + ?`, or `CASE WHEN jackpot_balance = ? THEN 0 ELSE -1 END`
abbrev pub pot_after : JackpotChange → ℤ → ℤ
pot_after (deposit amount) balance = balance +ℤ amount
pot_after (collect expected) balance = if eqb_ℤ balance expected then pos 0 else negsuc 0

unfoldable pub update_pots : GameId → JackpotChange → List PotRow → Result (List PotRow)
update_pots game_id change [] = ok []
update_pots game_id change (row ∷ rows) = do
  let balance =
      if row.id == game_id then pot_after change row.jackpot_balance else row.jackpot_balance
  throw_if (row.id == game_id && ltb_ℤ balance (pos 0)) database_error
  rest ← update_pots game_id change rows
  ok (record row { jackpot_balance = balance } ∷ rest)

unfoldable pub jackpot_statements :
    GameId → Option JackpotChange → List PotRow → Result (List PotRow)
jackpot_statements game_id none rows = ok rows
jackpot_statements game_id (some change) rows = update_pots game_id change rows
