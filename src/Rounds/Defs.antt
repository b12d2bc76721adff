-- ===== src/Rounds/Defs.antt =====
-- shared/domain/round-tracking.ts and winner-calculation.ts: turns inferred from the log, the round
-- of a bank loan, the cooldown after one, and the winners.
use monopoly_bank.Prelude.{
  ℕ, ◌+◌, ◌-◌, Bool, true, not, ◌&&◌, ◌||◌, Option, none, some, List, [], ◌∷◌, ltb, leb, ◌==◌,
  if◌then◌else◌, length, filter, includes,
}
use monopoly_bank.Prelude.Int.{pos, ◌-ℤ◌}
use monopoly_bank.Types.{
  PlayerId, Player, RecordId, Loan, InterestRatePercent, rate0, rate10, rate20, BankLoanCooldown,
  TransactionType, player_to_player, player_to_bank, bank_to_player, player_to_all, all_to_player,
  pay_rent, pass_go, to_jackpot, jackpot_payout, Transaction,
}
use monopoly_bank.Reversal.{ParticipantSide, debit, credit, sole_participant}
use monopoly_bank.Banking.Guards.{is_bankrupt}

abbrev overdue_round : ℕ
overdue_round = 4

abbrev bank_loan_cooldown_rounds : ℕ
bank_loan_cooldown_rounds = 2

-- `ACTOR_SIDE`
abbrev actor_side : TransactionType → Option ParticipantSide
actor_side player_to_player = some debit
actor_side pay_rent = some debit
actor_side player_to_bank = some debit
actor_side player_to_all = some debit
actor_side to_jackpot = some debit
actor_side bank_to_player = some credit
actor_side pass_go = some credit
actor_side all_to_player = some credit
actor_side jackpot_payout = some credit
actor_side _ = none

unfoldable pub transaction_actor : Transaction → Option PlayerId
transaction_actor transaction = elim transaction.reversed_by_transaction_id [
  | some _ ↦ none
  | none ↦ elim (actor_side transaction.type) [
    | none ↦ none
    | some side ↦ sole_participant transaction.participants side
  ]
]

-- `transactions.slice(anchorIndex + 1)`: what follows the first transaction with that id, or
-- `none` if there is none.
unfoldable pub after_anchor : List Transaction → RecordId → Option (List Transaction)
after_anchor [] anchor = none
after_anchor (transaction ∷ rest) anchor =
    if transaction.id == anchor then some rest else after_anchor rest anchor

-- `runs[runs.length - 1] !== actor`, where `last` is the last run so far.
abbrev pub starts_run : Option PlayerId → PlayerId → Bool
starts_run none actor = true
starts_run (some last) actor = not (last == actor)

-- The runs that the loop pushes behind `last`.
unfoldable pub runs_from : Option PlayerId → List Transaction → List PlayerId
runs_from last [] = []
runs_from last (transaction ∷ rest) = elim (transaction_actor transaction) [
  | none ↦ runs_from last rest
  | some actor ↦
      if starts_run last actor then actor ∷ runs_from (some actor) rest else runs_from last rest
]

-- `runs.filter((actor, index) => actor === playerId && index > 0).length`
unfoldable pub count_turns : PlayerId → List PlayerId → ℕ
count_turns player_id [] = 0
count_turns player_id (first ∷ runs) = length (filter (λ actor. actor == player_id) runs)

unfoldable pub turns_started_since : List Transaction → RecordId → PlayerId → ℕ
turns_started_since transactions anchor player_id = elim (after_anchor transactions anchor) [
  | none ↦ 0
  | some rest ↦ count_turns player_id (runs_from none rest)
]

unfoldable pub suggested_rate_percent : ℕ → InterestRatePercent
suggested_rate_percent round = if leb round 1 then rate0 else if round == 2 then rate10 else rate20

pub record LoanRoundStatus : Type 0 where
  pub round : ℕ
  pub suggested_rate_percent : InterestRatePercent
  pub overdue : Bool

unfoldable pub loan_round_status : List Transaction → Loan → LoanRoundStatus
loan_round_status transactions loan =
    let round = 1 + turns_started_since transactions loan.id loan.borrower_player_id in
    record {
      round = round;
      suggested_rate_percent = suggested_rate_percent round;
      overdue = leb overdue_round round;
    }

pub record Repayment : Type 0 where
  pub player_id : PlayerId
  pub transaction_id : RecordId

-- `latest.set(playerId, transactionId)`: a Map keeps a key where it first stood.
unfoldable pub set_latest : Repayment → List Repayment → List Repayment
set_latest repayment [] = repayment ∷ []
set_latest repayment (entry ∷ entries) =
    if entry.player_id == repayment.player_id
    then repayment ∷ entries
    else entry ∷ set_latest repayment entries

unfoldable pub latest_of : List Repayment → List Repayment → List Repayment
latest_of latest [] = latest
latest_of latest (repayment ∷ repayments) = latest_of (set_latest repayment latest) repayments

unfoldable pub cooldowns_of :
    List Transaction → List PlayerId → List Repayment → List BankLoanCooldown
cooldowns_of transactions bankrupt [] = []
cooldowns_of transactions bankrupt (entry ∷ entries) =
    let rest = cooldowns_of transactions bankrupt entries in
    let turns = turns_started_since transactions entry.transaction_id entry.player_id in
    if includes entry.player_id bankrupt || leb bank_loan_cooldown_rounds turns
    then rest
    else record {
      player_id = entry.player_id;
      rounds_left = pos bank_loan_cooldown_rounds -ℤ pos turns;
    }
      ∷ rest

unfoldable pub bank_loan_cooldowns :
    List Repayment → List Transaction → List PlayerId → List BankLoanCooldown
bank_loan_cooldowns repayments transactions bankrupt =
    cooldowns_of transactions bankrupt (latest_of [] repayments)

unfoldable calculate_winners : List Player → List Player
calculate_winners players =
    let active = filter (λ player. not (is_bankrupt player)) players in
    let bankrupt_count = length players - length active in
    if length active == 0 || ltb 2 (length active) && ltb bankrupt_count 2 then [] else active
