-- ===== src/Tests/Rules.antt =====
-- Auctions and rounds in the sample game.
use monopoly_bank.Prelude.{◌≤◌, ◌≡◌, refl, ◌↔◌, none, some, List, [], ◌∷◌, ◌++◌, All}
use monopoly_bank.Prelude.Int.{◌+ℤ◌, pos, negsuc, neg, ◌≤ℤ◌}
use monopoly_bank.Types.{reversal, TileId, PlayerId, Player, RecordId, TransactionType, Transaction}
use monopoly_bank.Outcome.{ok}
use monopoly_bank.Banking.Pending.{PlayerBalanceChange, BankingOperationResult}
use monopoly_bank.Banking.Guards.{
  validate_players, validate_game, validate_amount, find_player, ensure_different_players,
  ensure_sufficient_funds, ensure_active,
}
use monopoly_bank.Banking.Deltas.{
  transfer_deltas, create_balance_change, apply_deltas, create_result,
}
use monopoly_bank.Banking.Holdings.{hand_over, pay_auction}
use monopoly_bank.Auction.{
  auction_reserve, PlaceBidCommand, validate_bid, check_reserve, check_reserves,
  assert_reserve_respected, find_leader, is_sellable, can_pay, plan_auction_settlement,
}
use monopoly_bank.Auction.Laws.{Leaves, assert_reserve_respected_iff, Bids, validate_bid_iff}
use monopoly_bank.Auction.Settlement.{GoesTo, single, plan_auction_settlement-sold}
use monopoly_bank.Rounds.{turns_started_since}
use monopoly_bank.Rounds.Laws.{turns_started_since-append, turns_started_since-reversed}
use monopoly_bank.Tests.Samples.{
  sample_host, sample_settings, sample_game, alice, bob, both, moved, sample_auction,
  sample_transaction, sample_participant,
}
use monopoly_bank.Banking.Transfers.{player_to_player}
use monopoly_bank.Banking.Dispatch.{execute}
use monopoly_bank.Auction.Safety.{StaysCovered, execute-StaysCovered}
use monopoly_bank.Tests.Wallets.{payment, paid}

-- Alice leads with 100 and spends 300 of her 500.
abbrev spending : List PlayerBalanceChange
spending = moved alice (negsuc 299) (pos 200) ∷ []

assert_reserve_respected_iff_example :
    (assert_reserve_respected spending (some sample_auction) ≡ ok tt)
    ↔ All (Leaves sample_auction) spending
assert_reserve_respected_iff_example = assert_reserve_respected_iff spending sample_auction

-- Bob raises by 25.
abbrev raise_bid : PlaceBidCommand
raise_bid = record {
  auction = sample_auction;
  settings = sample_settings;
  bidder = bob;
  expected_version = 4;
  step = pos 25;
  reserved_by_requests = pos 150;
  now = 4000;
}

validate_bid_iff_example : (validate_bid raise_bid ≡ ok (pos 125)) ↔ Bids raise_bid (pos 125)
validate_bid_iff_example = validate_bid_iff raise_bid (pos 125)

abbrev knocked_down : BankingOperationResult
knocked_down =
    create_result 1 TransactionType.auction_payment (pos 100) (pos 100) (some "Street")
      (moved alice (negsuc 99) (pos 400) ∷ [])

plan_auction_settlement-sold_example :
    (leader : Player) × ((find_leader both (some 1) ≡ some leader)
      × ((pos 100 ≤ℤ leader.balance)
          × ((knocked_down.transaction.participants ≡ single leader.id (neg (pos 100)))
              × ((tile_id : TileId)
                  → none ≡ some tile_id
                  → GoesTo knocked_down tile_id none leader))))
unfolding plan_auction_settlement can_pay is_sellable pay_auction validate_game validate_players
    validate_amount find_player ensure_active ensure_sufficient_funds apply_deltas
    create_balance_change transfer_deltas create_result hand_over ◌+ℤ◌ neg
plan_auction_settlement-sold_example =
    plan_auction_settlement-sold sample_game both sample_auction none knocked_down refl

-- A log: the loan, then Bob and Alice by turns.
abbrev turn : RecordId → PlayerId → Transaction
turn id player_id =
    sample_transaction id TransactionType.player_to_bank (pos 10)
      (sample_participant player_id (negsuc 9) ∷ [])

abbrev log_start : List Transaction
log_start = turn 5 2 ∷ turn 11 1 ∷ turn 12 2 ∷ []

abbrev log_more : List Transaction
log_more = turn 13 1 ∷ turn 14 2 ∷ []

turns_started_since-append_example :
    turns_started_since log_start 5 2 ≤ turns_started_since (log_start ++ log_more) 5 2
turns_started_since-append_example = turns_started_since-append log_start log_more 5 2

-- The first row of Alice is reversed.
abbrev taken_back : Transaction
taken_back = sample_transaction 15 reversal (pos 10) (sample_participant 1 (pos 10) ∷ [])

turns_started_since-reversed_example :
    turns_started_since
      ((turn 5 2 ∷ [])
        ++ record (turn 11 1) { reversed_by_transaction_id = some 15 }
          ∷ ((turn 12 2 ∷ []) ++ taken_back ∷ []))
      5
      2
    ≡ turns_started_since ((turn 5 2 ∷ []) ++ turn 12 2 ∷ []) 5 2
turns_started_since-reversed_example =
    turns_started_since-reversed (turn 5 2 ∷ []) (turn 12 2 ∷ []) (turn 11 1) taken_back 5 2 refl
      refl refl

-- Alice, who leads with 100, pays Bob 100.
execute-StaysCovered_example : All (StaysCovered sample_auction) paid.affected_players
unfolding execute player_to_player validate_game validate_players validate_amount find_player
    ensure_active ensure_different_players ensure_sufficient_funds apply_deltas
    create_balance_change transfer_deltas create_result ◌+ℤ◌ neg assert_reserve_respected
    check_reserves check_reserve auction_reserve
execute-StaysCovered_example =
    execute-StaysCovered sample_host payment paid sample_auction refl refl refl
