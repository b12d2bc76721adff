-- ===== src/Outcome.antt =====
-- The errors that the domain rules throw (shared/domain/banking-errors.ts, property-errors.ts and
-- the ones declared in auction.ts), the ones of the banking service (worker/services/errors.ts),
-- and a function that may throw as a `Result`. A constructor carries what the source's error
-- carries; the text of a message is its constructor.
use monopoly_bank.Prelude.{◌≡◌, refl, ◌⊎◌, inl, inr, Bool, true, false, Option}
use monopoly_bank.Prelude.Int.{ℤ}
use monopoly_bank.Types.{
  TileId, PlayerId, GameRuleKey, GameStatus, RecordId, Auction, TransactionType, Transaction,
}

-- The reasons of `InvalidGameStateError`.
pub data GameStateReason : Type 0 where
  status_is : GameStatus → GameStateReason
  player_count : GameStateReason
  belongs_to_another_game invalid_balance appears_more_than_once : PlayerId → GameStateReason
  would_produce_invalid_balance : PlayerId → GameStateReason
  needs_registry : GameStateReason

-- The reasons of `InvalidTradeError`.
pub data TradeReason : Type 0 where
  no_property traded_twice : TradeReason

-- The reasons of `InvalidBuildTargetError`.
pub data BuildReason : Type 0 where
  no_street_named one_colour_group level_range : BuildReason
  cannot_remove cannot_add nothing_changes : BuildReason

-- The resources of `ResourceNotFoundError`.
pub data Resource : Type 0 where
  game_resource player_resource payment_request_resource trade_request_resource : Resource

-- The codes of the plain `ConflictError`s of the banking service.
pub data ConflictCode : Type 0 where
  trade_request_required payment_request_not_pending trade_request_not_pending : ConflictCode
  trade_request_exists trade_request_stale property_changed property_in_auction : ConflictCode
  mortgage_already_active invalid_payment_request : ConflictCode

pub data AppError : Type 0 where
  invalid_amount : ℤ → AppError
  player_not_found same_source_and_destination player_bankrupt : PlayerId → AppError
  insufficient_funds : PlayerId → ℤ → ℤ → AppError
  invalid_game_state : GameStateReason → AppError
  no_other_active_players : AppError
  transaction_not_found : RecordId → AppError
  transaction_not_reversible : TransactionType → AppError
  transaction_already_reversed : RecordId → RecordId → AppError
  reversal_blocked : RecordId → Transaction → AppError
  jackpot_empty : AppError
  jackpot_changed : ℤ → ℤ → AppError
  invalid_property_name : AppError
  mortgage_not_found loan_not_found : RecordId → AppError
  loan_amount_exceeds_debt full_repayment_required : RecordId → ℤ → ℤ → AppError
  bank_to_player_limit_exceeded bank_loan_limit_exceeded : ℤ → ℤ → AppError
  bank_loan_already_active : PlayerId → RecordId → AppError
  bank_loan_cooldown : PlayerId → ℤ → AppError
  creditor_short : PlayerId → ℤ → ℤ → AppError
  invalid_trade : TradeReason → AppError
  tile_not_found property_not_owned property_mortgaged : TileId → AppError
  property_has_buildings tile_not_buildable build_requires_full_group : TileId → AppError
  build_uneven build_mortgaged_group no_buildings max_buildings : TileId → AppError
  property_already_owned : TileId → PlayerId → AppError
  invalid_build_target : BuildReason → Option TileId → AppError
  dice_sum : Bool → AppError
  auction_closed auction_already_leading : RecordId → AppError
  auction_bid_stale : Auction → AppError
  invalid_bid_step : ℤ → AppError
  insufficient_available_funds : PlayerId → ℤ → ℤ → AppError
  range_error : AppError
  database_error persistence_consistency internal_error : AppError
  resource_not_found : Resource → AppError
  conflict : ConflictCode → AppError
  rule_disabled : GameRuleKey → AppError
  board_disabled tile_required validation_error : AppError

-- A call that returns a value, or throws.
pub data Result {ℓ} (V : Type ℓ) : Type ℓ where
  ok : V → Result V
  err : AppError → Result V

-- `if (test) throw e;`
abbrev pub throw_if : Bool → AppError → Result (Unit {0})
throw_if false e = ok tt
throw_if true e = err e

-- Statements in a row: the first one that throws ends the call.
infixl 5 ◌>>=◌ ◌>>◌
abbrev pub ◌>>=◌ {ℓ ℓ'} : {V : Type ℓ} {W : Type ℓ'} → Result V → (V → Result W) → Result W
err thrown >>= next = err thrown
ok value >>= next = next value

abbrev pub ◌>>◌ {ℓ'} : {W : Type ℓ'} → Result (Unit {0}) → Result W → Result W
check >> next = check >>= λ _. next

-- What a call that returned normally had to pass.
pub >>=-eq-ok {ℓ ℓ'} :
    {V : Type ℓ} {W : Type ℓ'} (call : Result V) (next : V → Result W) {w : W}
    → (call >>= next) ≡ ok w
    → (v : V) × (call ≡ ok v) × (next v ≡ ok w)
>>=-eq-ok (err thrown) next returned = cc
>>=-eq-ok (ok value) next returned = (value, refl, returned)

pub ok-injective {ℓ} : {A : Type ℓ} {a b : A} → ok a ≡ ok b → a ≡ b
ok-injective h = cc

pub Result-cases {ℓ} :
    {A : Type ℓ} (m : Result A) → ((a : A) × (m ≡ ok a)) ⊎ ((e : AppError) × (m ≡ err e))
Result-cases (ok a) = inl (a, refl)
Result-cases (err e) = inr (e, refl)

-- A call that cannot have thrown has returned.
pub must {ℓ} : {A : Type ℓ} (m : Result A) → ((e : AppError) → m ≡ err e → ⊥) → (a : A) × (m ≡ ok a)
must (ok a) never = (a, refl)
must (err e) never = absurd (never e refl)

-- A check that did not throw leaves what follows it.
pub throw_if-passed {ℓ} :
    {W : Type ℓ} (test : Bool) (thrown : AppError) (next : Result W) {w : W}
    → (throw_if test thrown >> next) ≡ ok w
    → (test ≡ false) × (next ≡ ok w)
throw_if-passed false thrown next returned = (refl, returned)
throw_if-passed true thrown next returned = cc

pub throw_if-false : (b : Bool) (e : AppError) → throw_if b e ≡ ok tt → b ≡ false
throw_if-false false e h = refl
throw_if-false true e h = cc
