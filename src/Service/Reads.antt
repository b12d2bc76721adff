-- ===== src/Service/Reads.antt =====
-- What the banking service reads: the SELECTs of worker/repositories/{game,player,transaction,
use monopoly_bank.Prelude.{
  ℕ, Bool, not, ◌&&◌, Option, none, some, List, [], ◌∷◌, map, ltb, leb, ◌==◌, if◌then◌else◌, get_or,
  length, find, filter, includes,
}
use monopoly_bank.Prelude.Int.{ℤ, pos}
use monopoly_bank.Types.{
  TileId, BoardSnapshot, GameId, GameRuleKey, Game, Player, GameProperty, PropertyChange, RecordId,
  Mortgage, Loan, Auction, property_build, property_sell_building, property_transfer, includes_type,
  TransactionParticipant, Transaction,
}
use monopoly_bank.Outcome.{rule_disabled, board_disabled, Result, ok, err, throw_if}
use monopoly_bank.Auction.{is_running}
use monopoly_bank.Banking.Pending.{PendingTransaction}
use monopoly_bank.Store.{
  LedgerRow, MortgageRow, Store, same_id, is_active_mortgage, is_active_loan_row,
}

-- property,mortgage,loan,auction}-repository.ts, services/bank-loan-view.ts and rule-guard.ts. The
-- rows of a table stand in the order in which they were written, which is the order of its rowids.

unfoldable pub get_game : Store → GameId → Option Game
get_game store game_id = find (λ game. game.id == game_id) store.games

unfoldable pub list_players : Store → GameId → List Player
list_players store game_id = filter (λ row. row.game_id == game_id) store.players

unfoldable pub list_properties : Store → GameId → List GameProperty
list_properties store game_id = filter (λ row. row.game_id == game_id) store.properties

unfoldable pub get_jackpot : Store → GameId → ℤ
get_jackpot store game_id = elim (find (λ row. row.id == game_id) store.pots) [
  | none ↦ pos 0
  | some row ↦ row.jackpot_balance
]

-- `AuctionRepository.getActive`
unfoldable pub get_active_auction : Store → GameId → Option Auction
get_active_auction store game_id =
    find (λ row. row.game_id == game_id && is_running row.state) store.auctions

-- The running auction of a game with the rule.
unfoldable pub running_auction : Store → Game → Option Auction
running_auction store game =
    if game.rules GameRuleKey.auctions then get_active_auction store game.id else none

abbrev pub is_mortgage_of : GameId → MortgageRow → Bool
is_mortgage_of game_id row = row.game_id == game_id && is_active_mortgage row.state

abbrev mortgage_of_row : MortgageRow → Mortgage
mortgage_of_row row = record {
  id = row.id;
  game_id = row.game_id;
  player_id = row.player_id;
  property_name = row.property_name;
  tile_id = row.tile_id;
  mortgage_value = row.mortgage_value;
}

unfoldable pub list_active_mortgages : Store → GameId → List Mortgage
list_active_mortgages store game_id =
    map mortgage_of_row (filter (is_mortgage_of game_id) store.mortgages)

unfoldable pub get_active_mortgage : Store → GameId → RecordId → Option Mortgage
get_active_mortgage store game_id mortgage_id =
    find (λ row. row.id == mortgage_id) (list_active_mortgages store game_id)

unfoldable pub find_redeemed_by : Store → GameId → RecordId → Option RecordId
find_redeemed_by store game_id transaction_id =
    elim (find
      (λ row.
        row.game_id == game_id && same_id row.redeemed_by_transaction_id (some transaction_id))
      store.mortgages) [ none ↦ none | some row ↦ some row.id ]

unfoldable pub list_active_loans : Store → GameId → List Loan
list_active_loans store game_id =
    filter (λ row. row.game_id == game_id && is_active_loan_row row.state) store.loans

unfoldable pub get_active_loan : Store → GameId → RecordId → Option Loan
get_active_loan store game_id loan_id =
    find (λ row. row.id == loan_id) (list_active_loans store game_id)

-- `ORDER BY transaction_participants.player_id ASC`
abbrev insert_participant :
    TransactionParticipant → List TransactionParticipant → List TransactionParticipant
insert_participant p [] = p ∷ []
insert_participant p (q ∷ qs) =
    let rest = insert_participant p qs in
    if ltb q.player_id p.player_id then q ∷ rest else p ∷ q ∷ qs

abbrev by_player : List TransactionParticipant → List TransactionParticipant
by_player [] = []
by_player (p ∷ ps) = insert_participant p (by_player ps)

-- `changed_tile_ids`
abbrev changed_tile_ids : PendingTransaction → Option (List TileId)
changed_tile_ids t =
    if includes_type t.type (property_transfer ∷ property_build ∷ property_sell_building ∷ [])
    then elim (get_or t.registry_changes []) [
      | [] ↦ none
      | change ∷ changes ↦ some (map (λ c. c.tile_id) (change ∷ changes))
    ]
    else none

-- The reversal that `transactions` joins to a row.
abbrev reversal_of : List LedgerRow → RecordId → Option RecordId
reversal_of rows id =
    elim (find (λ row. same_id row.transaction.reverses_transaction_id (some id)) rows) [
      | none ↦ none
      | some row ↦ some row.id
    ]

unfoldable pub map_transaction : List LedgerRow → LedgerRow → Transaction
map_transaction rows row = record {
  id = row.id;
  game_id = row.transaction.game_id;
  type = row.transaction.type;
  amount = row.transaction.amount;
  total_amount = row.transaction.total_amount;
  comment = row.transaction.comment;
  participants = by_player row.transaction.participants;
  tile_id = row.transaction.tile_id;
  initiator_player_id = row.transaction.initiator_player_id;
  tile_ids = changed_tile_ids row.transaction;
  reversed_by_transaction_id = reversal_of rows row.id;
}

unfoldable pub list_ledger : Store → GameId → List LedgerRow
list_ledger store game_id = filter (λ row. row.transaction.game_id == game_id) store.transactions

unfoldable pub get_transaction : Store → GameId → RecordId → Option LedgerRow
get_transaction store game_id transaction_id =
    find (λ row. row.id == transaction_id) (list_ledger store game_id)

-- The rows from the earliest anchor on, that one included.
abbrev from_anchor : List RecordId → List LedgerRow → List LedgerRow
from_anchor anchors [] = []
from_anchor anchors (row ∷ rows) =
    let rest = from_anchor anchors rows in if includes row.id anchors then row ∷ rows else rest

-- The newest `n` rows.
abbrev newest : ℕ → List LedgerRow → List LedgerRow
newest n [] = []
newest n (row ∷ rows) =
    let rest = newest n rows in if leb (length (row ∷ rows)) n then row ∷ rows else rest

unfoldable pub list_chronological_since :
    Store → GameId → List RecordId → Option ℕ → List Transaction
list_chronological_since store game_id anchors latest =
    let since = from_anchor anchors (list_ledger store game_id) in
    map (map_transaction store.transactions)
      (elim latest [ none ↦ since | some n ↦ newest n since ])

-- `PropertyRepository.listChanges`
unfoldable pub list_changes : Store → GameId → RecordId → List PropertyChange
list_changes store game_id transaction_id = elim (get_transaction store game_id transaction_id) [
  | none ↦ []
  | some row ↦ get_or row.transaction.registry_changes []
]

unfoldable pub assert_rule_enabled : Game → GameRuleKey → Result (Unit {0})
assert_rule_enabled game rule = throw_if (not (game.rules rule)) (rule_disabled rule)

abbrev pub board_of : Game → Option BoardSnapshot
board_of game = elim game.settings [ none ↦ none | some settings ↦ settings.board ]

unfoldable pub assert_board_enabled : Game → Result BoardSnapshot
assert_board_enabled game = elim (board_of game) [
  | none ↦ err board_disabled
  | some board ↦ ok board
]
