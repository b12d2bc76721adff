-- ===== src/Banking/Bankruptcy.antt =====
-- shared/domain/banking.ts: bankruptcy, the sale of the buildings and the bank loan that it
-- settles.
use monopoly_bank.Prelude.{
  ℕ, ◌+◌, Bool, ◌&&◌, Option, none, some, List, [], ◌∷◌, ◌++◌, map, if◌then◌else◌, filter,
}
use monopoly_bank.Prelude.Int.{ℤ, pos, ◌+ℤ◌, ◌-ℤ◌, neg, ◌*ℤ◌, ltb_ℤ, eqb_ℤ, min_ℤ}
use monopoly_bank.Types.{
  BoardSnapshot, GameId, PlayerId, Player, GameProperty, PropertyChange, PropertyContext,
  bankruptcy_transfer,
}
use monopoly_bank.Outcome.{creditor_short, Result, ok, ◌>>=◌, ◌>>◌, throw_if}
use monopoly_bank.Money.{bank_loan_interest}
use monopoly_bank.Property.Lookup.{unowned, is_owner, state_of_row}
use monopoly_bank.Property.Plan.{sell_refund}
use monopoly_bank.Reversal.{is_set}
use monopoly_bank.Banking.Command.{BankLoanOwed, BankruptcyCommand}
use monopoly_bank.Banking.Pending.{
  SettlementOutcome, BankLoanSettlement, PlayerBalanceChange, BankingOperationResult,
}
use monopoly_bank.Banking.Guards.{
  validate_game, find_player, ensure_different_players, ensure_active,
}
use monopoly_bank.Banking.Deltas.{create_balance_change, create_result, with_registry_changes}
use monopoly_bank.Banking.Loans.{outstanding_of, require_bank_loan}
use monopoly_bank.Banking.Trade.{mortgage_transfer_fee}

pub record BankruptcyPreview : Type 0 where
  pub tile_count : ℕ
  pub buildings : ℤ
  pub proceeds : ℤ
  pub creditor_fee : ℤ

abbrev empty_preview : BankruptcyPreview
empty_preview = record { tile_count = 0; buildings = pos 0; proceeds = pos 0; creditor_fee = pos 0 }

unfoldable pub preview_row :
    BoardSnapshot → Bool → GameProperty → BankruptcyPreview → Result BankruptcyPreview
preview_row board has_creditor row preview = do
  refund ← sell_refund board row.tile_id
  fee ←
      (if has_creditor && row.mortgaged
        then mortgage_transfer_fee board row.tile_id
        else ok (pos 0))
  ok (record {
    tile_count = preview.tile_count + 1;
    buildings = preview.buildings +ℤ row.houses;
    proceeds = preview.proceeds +ℤ row.houses *ℤ refund;
    creditor_fee = preview.creditor_fee +ℤ fee;
  })

-- The loop over the registry; `continue` keeps the preview.
unfoldable pub preview_rows :
    BoardSnapshot
    → Bool
    → PlayerId
    → List GameProperty
    → BankruptcyPreview
    → Result BankruptcyPreview
preview_rows board has_creditor player_id [] preview = ok preview
preview_rows board has_creditor player_id (row ∷ rows) preview = do
  next ←
      (if is_owner row.owner_player_id player_id
        then preview_row board has_creditor row preview
        else ok preview)
  preview_rows board has_creditor player_id rows next

unfoldable pub bankruptcy_preview :
    Option PropertyContext → PlayerId → Bool → Result BankruptcyPreview
bankruptcy_preview none player_id has_creditor = ok empty_preview
bankruptcy_preview (some property) player_id has_creditor =
    preview_rows property.board has_creditor player_id property.registry empty_preview

pub record BankruptcyAssets : Type 0 where
  pub changes : List PropertyChange
  pub proceeds : ℤ
  pub creditor_fee : ℤ

unfoldable pub surrender : Option Player → GameProperty → PropertyChange
surrender creditor row = record {
  tile_id = row.tile_id;
  before = state_of_row row;
  after = elim creditor [
    | none ↦ unowned
    | some player ↦ record {
      owner_player_id = some player.id;
      mortgaged = row.mortgaged;
      houses = pos 0;
    }
  ];
}

unfoldable pub bankruptcy_assets :
    Option PropertyContext → Player → Option Player → Result BankruptcyAssets
bankruptcy_assets none bankrupt creditor =
    ok (record { changes = []; proceeds = pos 0; creditor_fee = pos 0 })
bankruptcy_assets (some property) bankrupt creditor = do
  preview ← bankruptcy_preview (some property) bankrupt.id (is_set creditor)
  ok (record {
    changes =
        map (surrender creditor)
          (filter (λ row. is_owner row.owner_player_id bankrupt.id) property.registry);
    proceeds = preview.proceeds;
    creditor_fee = preview.creditor_fee;
  })

abbrev pub outcome_of : ℤ → ℤ → SettlementOutcome
outcome_of paid outstanding =
    if eqb_ℤ paid outstanding then SettlementOutcome.repaid else SettlementOutcome.written_off

unfoldable pub settle_bank_loan :
    GameId → Option BankLoanOwed → Player → ℤ → Result (Option BankLoanSettlement)
settle_bank_loan game_id none bankrupt wallet = ok none
settle_bank_loan game_id (some owed) bankrupt wallet = do
  require_bank_loan owed.loan game_id bankrupt.id
  let outstanding = outstanding_of owed.loan
  interest ← bank_loan_interest owed.loan.principal owed.suggested_rate_percent
  let debt = outstanding +ℤ interest
  let taken = min_ℤ wallet debt
  let paid_principal = min_ℤ taken outstanding
  ok (
      some (record {
        loan_id = owed.loan.id;
        borrower_player_id = bankrupt.id;
        outcome = outcome_of paid_principal outstanding;
        paid_principal = paid_principal;
        paid_interest = taken -ℤ paid_principal;
        interest_rate_percent = owed.suggested_rate_percent;
        suggested_rate_percent = owed.suggested_rate_percent;
      }))

unfoldable pub with_bank_loan_settlement :
    BankingOperationResult → Option BankLoanSettlement → BankingOperationResult
with_bank_loan_settlement result none = result
with_bank_loan_settlement result (some settlement) = record result {
  transaction = record result.transaction { bank_loan_settlement = some settlement };
}

-- `settlement === null ? 0 : settlement.paidPrincipal + settlement.paidInterest`
abbrev pub bank_take : Option BankLoanSettlement → ℤ
bank_take none = pos 0
bank_take (some settlement) = settlement.paid_principal +ℤ settlement.paid_interest

unfoldable pub find_creditor : List Player → Option PlayerId → Result (Option Player)
find_creditor players none = ok none
find_creditor players (some player_id) = do player ← find_player players player_id; ok (some player)

unfoldable pub check_creditor : Player → Option Player → Result (Unit {0})
check_creditor bankrupt none = ok tt
check_creditor bankrupt (some creditor) = do
  ensure_active creditor
  ensure_different_players bankrupt creditor

-- If the share does not cover the fees, the creditor must raise cash first.
unfoldable pub ensure_creditor_covers : Option Player → ℤ → ℤ → ℤ → Result (Unit {0})
ensure_creditor_covers none fee share net = ok tt
ensure_creditor_covers (some creditor) fee share net =
    throw_if (ltb_ℤ (creditor.balance +ℤ net) (pos 0))
      (creditor_short creditor.id fee (creditor.balance +ℤ share))

-- `balance === 0 ? [] : [createBalanceChange(player, delta)]`
unfoldable pub change_unless_zero : Player → ℤ → Result (List PlayerBalanceChange)
change_unless_zero player delta =
    if eqb_ℤ delta (pos 0)
    then ok []
    else create_balance_change player delta >>= λ change. ok (change ∷ [])

unfoldable pub creditor_changes : Option Player → ℤ → Result (List PlayerBalanceChange)
creditor_changes none net = ok []
creditor_changes (some creditor) net = change_unless_zero creditor net

unfoldable pub declare_bankruptcy : BankruptcyCommand → Result BankingOperationResult
declare_bankruptcy c = do
  players ← validate_game c.game c.players
  bankrupt ← find_player players c.player_id
  ensure_active bankrupt
  creditor ← find_creditor players c.creditor_player_id
  check_creditor bankrupt creditor
  assets ← bankruptcy_assets c.property bankrupt creditor
  let wallet = bankrupt.balance +ℤ assets.proceeds
  settlement ← settle_bank_loan c.game.id c.bank_loan bankrupt wallet
  let share = wallet -ℤ bank_take settlement
  let net = share -ℤ assets.creditor_fee
  ensure_creditor_covers creditor assets.creditor_fee share net
  own ← change_unless_zero bankrupt (neg bankrupt.balance)
  others ← creditor_changes creditor net
  let amount = (if eqb_ℤ wallet (pos 0) then pos 1 else wallet)
  ok (
      with_registry_changes
        (with_bank_loan_settlement
          (create_result c.game.id bankruptcy_transfer amount amount none (own ++ others))
          settlement)
        assets.changes)
