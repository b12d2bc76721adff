-- ===== src/Tests/Samples.antt =====
-- A game of two players on a board of two brown streets, the first of them built on.
use monopoly_bank.Prelude.{Bool, true, false, none, some, List, [], ◌∷◌}
use monopoly_bank.Prelude.Int.{ℤ, pos}
use monopoly_bank.Types.{
  TileId, brown, street, StreetRent, PropertyTile, BoardSnapshot, PlayerId, GameStatus, PaymentMode,
  PlayerStatus, GameSettings, Game, Player, GameProperty, PropertyContext, RecordId, AuctionState,
  Auction, TransactionType, TransactionParticipant, Transaction,
}
use monopoly_bank.Money.{TextHost}
use monopoly_bank.Banking.Pending.{PlayerBalanceChange}

abbrev pub sample_host : TextHost
sample_host = record {
  nfc = λ s. s;
  collapse_whitespace = λ s. s;
  trim = λ s. s;
  utf16_length = λ s. 3;
  has_forbidden = λ s. false;
  to_lower_case = λ s. s;
}

abbrev sample_rent : StreetRent
sample_rent = record {
  base = pos 2;
  house1 = pos 10;
  house2 = pos 30;
  house3 = pos 90;
  house4 = pos 160;
  hotel = pos 250;
}

abbrev sample_tile : TileId → PropertyTile
sample_tile id = record {
  id = id;
  name = "Street";
  type = street;
  group = brown;
  price = pos 60;
  mortgage = pos 30;
  rent = some sample_rent;
  house_cost = some (pos 50);
}

abbrev pub sample_board : BoardSnapshot
sample_board = record {
  rules = record {
    monopoly_base_rent_multiplier = pos 2;
    build_evenly = true;
    sell_building_refund = record { num = 1; den = 2 };
    railway_rent = (1, pos 25) ∷ [];
    utility_dice_multiplier = (1, pos 4) ∷ [];
  };
  tiles = sample_tile 1 ∷ sample_tile 3 ∷ [];
}

abbrev pub sample_row : TileId → Bool → ℤ → GameProperty
sample_row tile_id mortgaged houses = record {
  game_id = 1;
  tile_id = tile_id;
  owner_player_id = some 1;
  mortgaged = mortgaged;
  houses = houses;
}

-- The first player owns both streets.
abbrev pub owned_streets : PropertyContext
owned_streets = record {
  board = sample_board;
  registry = sample_row 1 false (pos 0) ∷ sample_row 3 false (pos 0) ∷ [];
}

-- The same with the second street mortgaged.
abbrev pub mortgaged_street : PropertyContext
mortgaged_street = record {
  board = sample_board;
  registry = sample_row 1 false (pos 0) ∷ sample_row 3 true (pos 0) ∷ [];
}

abbrev pub sample_settings : GameSettings
sample_settings = record {
  unit = pos 10;
  income_tax = pos 200;
  luxury_tax = pos 100;
  jail_fine = pos 50;
  bank_loan_max = pos 200;
  auction_min_bid = pos 10;
  auction_bid_steps = pos 10 ∷ pos 25 ∷ [];
  board = none;
}

abbrev pub sample_game : Game
sample_game = record {
  id = 1;
  starting_balance = pos 1500;
  pass_go_reward = pos 200;
  payment_mode = PaymentMode.fast;
  rules = λ rule. true;
  settings = some sample_settings;
  status = GameStatus.active;
}

abbrev sample_player : PlayerId → ℤ → Player
sample_player id balance = record {
  id = id;
  game_id = 1;
  balance = balance;
  status = some PlayerStatus.active;
}

abbrev pub alice : Player
alice = sample_player 1 (pos 500)

abbrev pub bob : Player
bob = sample_player 2 (pos 300)

abbrev pub both : List Player
both = alice ∷ bob ∷ []

abbrev pub moved : Player → ℤ → ℤ → PlayerBalanceChange
moved player delta after = record {
  player = player;
  balance_before = player.balance;
  balance_after = after;
  balance_delta = delta;
}

abbrev pub sample_auction : Auction
sample_auction = record {
  id = 7;
  game_id = 1;
  lot_name = "Street";
  tile_id = none;
  state = AuctionState.active;
  current_bid = pos 100;
  current_bidder_id = some 1;
  version = 4;
  ends_at = 5000;
}

abbrev pub sample_transaction :
    RecordId → TransactionType → ℤ → List TransactionParticipant → Transaction
sample_transaction id type amount participants = record {
  id = id;
  game_id = 1;
  type = type;
  amount = amount;
  total_amount = amount;
  comment = none;
  participants = participants;
  tile_id = none;
  initiator_player_id = none;
  tile_ids = none;
  reversed_by_transaction_id = none;
}

abbrev pub sample_participant : PlayerId → ℤ → TransactionParticipant
sample_participant player_id delta = record { player_id = player_id; balance_delta = delta }
