-- ===== src/Store/Records.antt =====
-- worker/repositories/operation-statements/{mortgage,loan,auction,trade}-statements.ts. A statement
-- that updates one row by its id leaves the table as it is when there is no such row.
use Prim.Native.String.{compare}
use Prim.Native.Nat.{Ordering}
use monopoly_bank.Prelude.{
  String, Bool, true, false, not, ◌&&◌, ◌||◌, Option, none, some, List, [], ◌∷◌, ◌++◌, map, ◌==◌,
  if◌then◌else◌, any,
}
use monopoly_bank.Prelude.Int.{pos, ◌+ℤ◌, ltb_ℤ, leb_ℤ, eqb_ℤ}
use monopoly_bank.Types.{
  TileId, GameId, PlayerId, PropertyChange, RecordId, LoanState, LoanLenderKind, Loan,
}
use monopoly_bank.Outcome.{database_error, Result, ok, err, throw_if, ◌>>=◌, ◌>>◌}
use monopoly_bank.Money.{TextHost, property_name_key}
use monopoly_bank.Property.Lookup.{is_owner}
use monopoly_bank.Reversal.{is_set}
use monopoly_bank.Banking.Pending.{
  cancel, restore, NewMortgage, NewLoan, LoanRepayment, PendingTransaction,
}
use monopoly_bank.Store.Tables.{MortgageState, MortgageRow}
use monopoly_bank.Store.Writes.{same_id}

abbrev pub same_text : String → String → Bool
same_text a b = elim (compare a b) [ Ordering.eq ↦ true | _ ↦ false ]

abbrev pub is_active_mortgage : MortgageState → Bool
is_active_mortgage MortgageState.active = true
is_active_mortgage MortgageState.redeemed = false
is_active_mortgage MortgageState.released = false

abbrev pub is_redeemed_mortgage : MortgageState → Bool
is_redeemed_mortgage MortgageState.active = false
is_redeemed_mortgage MortgageState.redeemed = true
is_redeemed_mortgage MortgageState.released = false

-- The indexes mortgages_one_active_per_name and mortgages_one_active_per_tile.
abbrev collides : TextHost → GameId → NewMortgage → MortgageRow → Bool
collides host game_id new row =
    is_active_mortgage row.state
    && (row.player_id == new.player_id
          && same_text (property_name_key host row.property_name)
              (property_name_key host new.property_name)
        || row.game_id == game_id && (is_set new.tile_id && same_id row.tile_id new.tile_id))

unfoldable pub insert_mortgage :
    TextHost → RecordId → GameId → NewMortgage → List MortgageRow → Result (List MortgageRow)
insert_mortgage host id game_id new rows = do
  throw_if
      (any (λ row. row.id == id) rows
        || leb_ℤ new.mortgage_value (pos 0)
        || any (collides host game_id new) rows)
      database_error
  ok (
      rows
      ++ record {
        id = id;
        game_id = game_id;
        player_id = new.player_id;
        property_name = new.property_name;
        tile_id = new.tile_id;
        mortgage_value = new.mortgage_value;
        state = MortgageState.active;
        redeemed_by_transaction_id = none;
      }
        ∷ [])

-- `UPDATE mortgages SET state = CASE WHEN state = ? THEN ? ELSE 'NOT_ACTIVE' END, ... WHERE id = ?`
unfoldable pub move_mortgage :
    GameId
    → RecordId
    → (MortgageState → Bool)
    → (MortgageRow → MortgageRow)
    → List MortgageRow
    → Result (List MortgageRow)
move_mortgage game_id id expected moved [] = ok []
move_mortgage game_id id expected moved (row ∷ rows) = do
  let named = row.id == id && row.game_id == game_id
  throw_if (named && not (expected row.state)) database_error
  rest ← move_mortgage game_id id expected moved rows
  ok ((if named then moved row else row) ∷ rest)

abbrev redeemed_by : RecordId → MortgageRow → MortgageRow
redeemed_by id row = record row {
  state = MortgageState.redeemed;
  redeemed_by_transaction_id = some id;
}

abbrev pub released_row : MortgageRow → MortgageRow
released_row row = record row { state = MortgageState.released }

abbrev restored_row : MortgageRow → MortgageRow
restored_row row = record row { state = MortgageState.active; redeemed_by_transaction_id = none }

unfoldable pub mortgage_record_statements :
    TextHost → RecordId → PendingTransaction → List MortgageRow → Result (List MortgageRow)
mortgage_record_statements host id t rows = do
  inserted ← elim t.new_mortgage [
    | none ↦ ok rows
    | some new ↦ insert_mortgage host id t.game_id new rows
  ]
  elim t.redeemed_mortgage_id [
    | none ↦ ok inserted
    | some mortgage_id ↦
        move_mortgage t.game_id mortgage_id is_active_mortgage (redeemed_by id) inserted
  ]

unfoldable pub mortgage_reversal_statements :
    PendingTransaction → List MortgageRow → Result (List MortgageRow)
mortgage_reversal_statements t rows = elim t.mortgage_reversal [
  | none ↦ ok rows
  | some kind ↦ elim kind [
    | cancel mortgage_id ↦ move_mortgage t.game_id mortgage_id is_active_mortgage released_row rows
    | restore mortgage_id ↦
        move_mortgage t.game_id mortgage_id is_redeemed_mortgage restored_row rows
  ]
]

abbrev hand_mortgage : GameId → TileId → PlayerId → MortgageRow → MortgageRow
hand_mortgage game_id tile_id owner row =
    if row.game_id == game_id
      && (same_id row.tile_id (some tile_id) && is_active_mortgage row.state)
    then record row { player_id = owner }
    else row

-- A mortgage follows its tile to the new owner.
unfoldable pub mortgage_handover_statements :
    GameId → List PropertyChange → List MortgageRow → List MortgageRow
mortgage_handover_statements game_id [] rows = rows
mortgage_handover_statements game_id (change ∷ changes) rows =
    mortgage_handover_statements game_id changes (elim change.after.owner_player_id [
      | none ↦ rows
      | some owner ↦
          if change.before.mortgaged
            && (change.after.mortgaged && not (is_owner change.before.owner_player_id owner))
          then map (hand_mortgage game_id change.tile_id owner) rows
          else rows
    ])

abbrev pub is_active_loan_row : LoanState → Bool
is_active_loan_row LoanState.active = true
is_active_loan_row LoanState.repaid = false
is_active_loan_row LoanState.written_off = false

abbrev pub is_bank_lender : LoanLenderKind → Bool
is_bank_lender LoanLenderKind.player = false
is_bank_lender LoanLenderKind.bank = true

-- The index loans_one_active_bank_loan, and the CHECKs on a new row.
unfoldable pub insert_loan : RecordId → GameId → NewLoan → List Loan → Result (List Loan)
insert_loan id game_id new rows = do
  throw_if
      (any (λ row. row.id == id) rows
        || (leb_ℤ new.principal (pos 0)
            || (is_owner new.lender_player_id new.borrower_player_id
                || is_bank_lender new.lender_kind
                  && any
                      (λ row.
                        row.borrower_player_id == new.borrower_player_id
                        && (is_bank_lender row.lender_kind && is_active_loan_row row.state))
                      rows)))
      database_error
  ok (
      rows
      ++ record {
        id = id;
        game_id = game_id;
        lender_kind = new.lender_kind;
        lender_player_id = new.lender_player_id;
        borrower_player_id = new.borrower_player_id;
        principal = new.principal;
        repaid_amount = pos 0;
        state = LoanState.active;
      }
        ∷ [])

-- The state that a repayment leaves, or `none` for 'NOT_ACTIVE' and for more than is owed.
abbrev repaid_state : Loan → LoanRepayment → Option LoanState
repaid_state row repayment =
    let paid = row.repaid_amount +ℤ repayment.amount in
    if not (
        is_active_loan_row row.state
        && (same_id row.lender_player_id repayment.lender_player_id
            && row.borrower_player_id == repayment.borrower_player_id))
      || ltb_ℤ row.principal paid
    then none
    else some (if eqb_ℤ paid row.principal then LoanState.repaid else LoanState.active)

unfoldable pub repayment_statements : GameId → LoanRepayment → List Loan → Result (List Loan)
repayment_statements game_id repayment [] = ok []
repayment_statements game_id repayment (row ∷ rows) = do
  updated ←
      if row.id == repayment.loan_id && row.game_id == game_id
      then elim (repaid_state row repayment) [
        | none ↦ err database_error
        | some state ↦
            ok (record row { repaid_amount = row.repaid_amount +ℤ repayment.amount; state = state })
      ]
      else ok row
  rest ← repayment_statements game_id repayment rows
  ok (updated ∷ rest)

unfoldable pub loan_statements : RecordId → PendingTransaction → List Loan → Result (List Loan)
loan_statements id t rows = do
  inserted ← elim t.new_loan [ none ↦ ok rows | some new ↦ insert_loan id t.game_id new rows ]
  elim t.loan_repayment [
    | none ↦ ok inserted
    | some repayment ↦ repayment_statements t.game_id repayment inserted
  ]
