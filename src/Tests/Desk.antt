-- ===== src/Tests/Desk.antt =====
-- A database with the sample game, its two players and the board's two streets.
use monopoly_bank.Prelude.{false, none, some, List, [], ◌∷◌}
use monopoly_bank.Prelude.Int.{pos}
use monopoly_bank.Types.{Player, GameProperty, PropertyChange}
use monopoly_bank.Store.{
  LedgerRow, PaymentRequestState, PaymentRequestKind, PaymentRequest, TradeRequest, Store,
}
use monopoly_bank.Tests.Samples.{sample_row, owned_streets, sample_game, alice, bob, both}
use monopoly_bank.Tests.Wallets.{paid}
use monopoly_bank.Service.{Answered}

abbrev pub desk : Store
desk = record {
  games = sample_game ∷ [];
  players = both;
  transactions = [];
  properties = owned_streets.registry;
  pots = record { id = 1; jackpot_balance = pos 0 } ∷ [];
  mortgages = [];
  loans = [];
  auctions = [];
  payment_requests = [];
  trade_requests = [];
}

abbrev pub paid_players : List Player
paid_players = record alice { balance = pos 400 } ∷ record bob { balance = pos 400 } ∷ []

abbrev pub paid_row : LedgerRow
paid_row = record { id = 9; transaction = paid.transaction }

-- After the payment of 100 under the id 9.
abbrev pub paid_desk : Store
paid_desk = record desk { players = paid_players; transactions = paid_row ∷ [] }

-- Alice's payment of 100 to Bob, which Bob still has to accept.
abbrev pub waiting_payment : PaymentRequest
waiting_payment = record {
  id = 5;
  kind = PaymentRequestKind.payment;
  game_id = 1;
  payer_player_id = 1;
  recipient_player_id = 2;
  creator_player_id = 1;
  approver_player_id = 2;
  amount = pos 100;
  comment = none;
  state = PaymentRequestState.pending;
  expires_at = 1000;
  transaction_id = none;
}

abbrev pub accepted_payment : PaymentRequest
accepted_payment = record waiting_payment {
  state = PaymentRequestState.accepted;
  transaction_id = some 9;
}

abbrev pub waiting_desk : Store
waiting_desk = record desk { payment_requests = waiting_payment ∷ [] }

abbrev pub settled_desk : Store
settled_desk = record paid_desk { payment_requests = accepted_payment ∷ [] }

abbrev pub answered_payment : Answered
answered_payment = record {
  store = settled_desk;
  payment_request = accepted_payment;
  transaction = paid_row;
}

-- A trade that was accepted.
abbrev pub accepted_trade : TradeRequest
accepted_trade = record {
  id = 6;
  game_id = 1;
  proposer_player_id = 1;
  counterparty_player_id = 2;
  give_tile_ids = 1 ∷ [];
  take_tile_ids = [];
  cash_give = pos 0;
  cash_take = pos 50;
  state = PaymentRequestState.accepted;
  expires_at = 1000;
  transaction_id = some 9;
}

abbrev pub traded_desk : Store
traded_desk = record desk { trade_requests = accepted_trade ∷ [] }

-- The first street goes from Alice to Bob.
abbrev pub handover : List PropertyChange
handover =
    record {
      tile_id = 1;
      before = record { owner_player_id = some 1; mortgaged = false; houses = pos 0 };
      after = record { owner_player_id = some 2; mortgaged = false; houses = pos 0 };
    }
    ∷ []

abbrev pub handed_streets : List GameProperty
handed_streets =
    record (sample_row 1 false (pos 0)) { owner_player_id = some 2 }
    ∷ sample_row 3 false (pos 0)
    ∷ []
