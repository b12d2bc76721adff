-- ===== src/Types/Tables.antt =====
-- shared/types/monopoly.ts: games, their settings, and players.
use monopoly_bank.Prelude.{ℕ, Bool, Option, List}
use monopoly_bank.Prelude.Int.{ℤ}
use monopoly_bank.Types.Board.{BoardSnapshot}

abbrev pub GameId : Type 0
GameId = ℕ

abbrev pub PlayerId : Type 0
PlayerId = ℕ

pub data GameStatus : Type 0 where
  lobby active finished : GameStatus

pub data PlayerStatus : Type 0 where
  active bankrupt : PlayerStatus

pub record GameSettings : Type 0 where
  pub unit : ℤ
  pub income_tax : ℤ
  pub luxury_tax : ℤ
  pub jail_fine : ℤ
  pub bank_loan_max : ℤ
  pub auction_min_bid : ℤ
  pub auction_bid_steps : List ℤ
  pub board : Option BoardSnapshot

pub data GameRuleKey : Type 0 where
  double_reward_on_exact_go player_loans bank_loans free_parking_jackpot auctions : GameRuleKey

-- The switches of the optional house rules.
abbrev pub GameRules : Type 0
GameRules = GameRuleKey → Bool

pub data PaymentMode : Type 0 where
  fast confirmation : PaymentMode

pub record Game : Type 0 where
  pub id : GameId
  pub starting_balance : ℤ
  pub pass_go_reward : ℤ
  pub payment_mode : PaymentMode
  pub rules : GameRules
  pub settings : Option GameSettings
  pub status : GameStatus

-- `status` is optional: an absent status is no bankruptcy.
pub record Player : Type 0 where
  pub id : PlayerId
  pub game_id : GameId
  pub balance : ℤ
  pub status : Option PlayerStatus
