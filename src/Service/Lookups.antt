-- ===== src/Service/Lookups.antt =====
-- worker/services/banking-service.ts: what `reverse`, `repay`, `redeem` and `building` hand to
-- their operations.
use monopoly_bank.Prelude.{
  String, Bool, true, false, not, ◌&&◌, ◌||◌, Option, none, some, List, [], ◌∷◌, ◌++◌, map, ◌==◌,
  if◌then◌else◌, find, filter,
}
use monopoly_bank.Prelude.Int.{ℤ}
use monopoly_bank.Types.{
  TileId, PropertyTile, BoardSnapshot, GameId, PlayerId, GameRuleKey, Game, Player, PropertyChange,
  PropertyContext, RecordId, Mortgage, Loan, InterestRatePercent, mortgage_redemption, type_index,
  Transaction,
}
use monopoly_bank.Outcome.{
  transaction_not_found, mortgage_not_found, loan_not_found, persistence_consistency,
  validation_error, Result, ok, err, throw_if, ◌>>=◌, ◌>>◌,
}
use monopoly_bank.Property.Lookup.{find_tile, group_tiles}
use monopoly_bank.Reversal.{is_set}
use monopoly_bank.Rounds.{LoanRoundStatus}
use monopoly_bank.Banking.Command.{PlayerAmountCommand, FanCommand, BuildPropertyCommand}
use monopoly_bank.Banking.Dispatch.{Operation, repay_op, repay_bank_op, reversal_op}
use monopoly_bank.Store.{LedgerRow, Store, is_bank_lender}
use monopoly_bank.Service.Reads.{
  get_active_mortgage, find_redeemed_by, get_active_loan, get_transaction, list_chronological_since,
  list_changes, assert_rule_enabled, board_of,
}
use monopoly_bank.Service.LoanView.{LoanView, load_bank_loan_view}
use monopoly_bank.Service.Requests.{BuildRequest}
use monopoly_bank.Service.Checks.{property_context}

unfoldable pub require_transaction : Store → GameId → RecordId → Result LedgerRow
require_transaction store game_id transaction_id =
    elim (get_transaction store game_id transaction_id) [
      | none ↦ err (transaction_not_found transaction_id)
      | some row ↦ ok row
    ]

abbrev group_ids : BoardSnapshot → List TileId → List TileId
group_ids board [] = []
group_ids board (tile_id ∷ tile_ids) =
    let rest = group_ids board tile_ids in
    elim (find_tile board tile_id) [
      | none ↦ rest
      | some tile ↦ map (λ (item : PropertyTile). item.id) (group_tiles board tile) ++ rest
    ]

-- `original.tileIds ?? (original.tileId == null ? [] : [original.tileId])`
abbrev named_tiles : Transaction → List TileId
named_tiles original = elim original.tile_ids [
  | some tile_ids ↦ tile_ids
  | none ↦ elim original.tile_id [ none ↦ [] | some tile_id ↦ tile_id ∷ [] ]
]

abbrev group_tile_ids_of : Game → Transaction → List TileId
group_tile_ids_of game original = elim (board_of game) [
  | none ↦ []
  | some board ↦ group_ids board (named_tiles original)
]

abbrev stored_changes_of : Store → Game → Transaction → List PropertyChange
stored_changes_of store game original =
    if is_set original.tile_id || is_set original.tile_ids
    then list_changes store game.id original.id
    else []

abbrev redeemed_mortgage_of : Store → Game → Transaction → Option RecordId
redeemed_mortgage_of store game original =
    if type_index original.type == type_index mortgage_redemption && is_set original.tile_id
    then find_redeemed_by store game.id original.id
    else none

-- The reversal that `reverse` runs, before the tiles are checked.
unfoldable pub reversal_operation :
    Store → Game → List Player → Transaction → Option String → Operation
reversal_operation store game players original comment = reversal_op (record {
  game = game;
  players = players;
  original = original;
  later = some (
      filter (λ (t : Transaction). not (t.id == original.id))
        (list_chronological_since store game.id (original.id ∷ []) none));
  original_registry_changes = some (stored_changes_of store game original);
  redeemed_mortgage_id = redeemed_mortgage_of store game original;
  group_tile_ids = some (group_tile_ids_of game original);
  comment = comment;
})

unfoldable pub require_loan : Store → GameId → RecordId → Result Loan
require_loan store game_id loan_id = elim (get_active_loan store game_id loan_id) [
  | none ↦ err (loan_not_found loan_id)
  | some loan ↦ ok loan
]

unfoldable pub require_mortgage : Store → GameId → RecordId → Result Mortgage
require_mortgage store game_id mortgage_id = elim (get_active_mortgage store game_id mortgage_id) [
  | none ↦ err (mortgage_not_found mortgage_id)
  | some mortgage ↦ ok mortgage
]

unfoldable pub require_rate : Option InterestRatePercent → Result InterestRatePercent
require_rate none = err validation_error
require_rate (some rate) = ok rate

-- `view.loans.find((item) => item.id === loan.id)?.rounds`
unfoldable pub require_rounds : List LoanView → RecordId → Result LoanRoundStatus
require_rounds views loan_id = elim (find (λ view. view.loan.id == loan_id) views) [
  | none ↦ err persistence_consistency
  | some view ↦ elim view.rounds [ none ↦ err persistence_consistency | some rounds ↦ ok rounds ]
]

unfoldable pub repay_operation :
    Store → Game → List Player → PlayerId → Loan → ℤ → Option InterestRatePercent → Result Operation
repay_operation store game players player_id loan amount rate =
    if not (is_bank_lender loan.lender_kind)
    then (do
      assert_rule_enabled game GameRuleKey.player_loans
      throw_if (is_set rate) validation_error
      ok (
          repay_op (record {
            game = game;
            players = players;
            player_id = player_id;
            loan = loan;
            amount = amount;
          })))
    else (do
      assert_rule_enabled game GameRuleKey.bank_loans
      interest_rate ← require_rate rate
      rounds ← require_rounds (load_bank_loan_view store game.id players).loans loan.id
      ok (
          repay_bank_op (record {
            game = game;
            players = players;
            player_id = player_id;
            loan = loan;
            amount = amount;
            interest_rate_percent = interest_rate;
            suggested_rate_percent = rounds.suggested_rate_percent;
          })))

abbrev pub amount_command : Game → List Player → PlayerId → ℤ → Option String → PlayerAmountCommand
amount_command game players player_id amount comment = record {
  game = game;
  players = players;
  comment = comment;
  player_id = player_id;
  amount = amount;
}

abbrev pub fan_command : Game → List Player → PlayerId → ℤ → Option String → FanCommand
fan_command game players player_id amount comment = record {
  game = game;
  players = players;
  comment = comment;
  player_id = player_id;
  amount_per_player = amount;
}

abbrev pub build_command :
    Game → List Player → BuildRequest → PropertyContext → BuildPropertyCommand
build_command game players request property = record {
  game = game;
  players = players;
  player_id = request.player_id;
  tile_id = request.tile_id;
  targets = request.targets;
  property = property;
}

abbrev pub has_board : Game → Bool
has_board game = elim (board_of game) [ none ↦ false | some board ↦ true ]

abbrev pub loan_of : Option LoanView → Option Loan
loan_of none = none
loan_of (some view) = some view.loan

-- A mortgage of a tile needs the context of its game.
unfoldable pub redemption_context : Store → Game → Mortgage → Result (Option PropertyContext)
redemption_context store game mortgage =
    if is_set mortgage.tile_id
    then (property_context store game none >>= λ property. ok (some property))
    else ok none
