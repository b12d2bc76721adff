-- ===== src/Store/Wallets.antt =====
-- What a guarded update of the balances writes, whatever the database holds by then.
use mathlib.Core.Path.{subst}
use monopoly_bank.Prelude.{
  ℕ, suc, ◌≡◌, refl, sym, ap, ◌∙◌, ◌≢◌, inl, inr, Bool, true, false, ◌&&◌, Option, none, some, List,
  [], ◌∷◌, map, arith, ◌==◌, if◌then◌else◌, Bool-cases, find, All,
}
use monopoly_bank.Prelude.Int.{ℤ, pos, ◌+ℤ◌, ◌-ℤ◌, ◌*ℤ◌, ◌≤ℤ◌, int_laws, *ℤ_zero, *ℤ_suc, sum}
use monopoly_bank.Types.{GameId, PlayerId, Player}
use monopoly_bank.Outcome.{internal_error, ok, >>=-eq-ok, ok-injective, throw_if-passed}
use monopoly_bank.Banking.Pending.{PlayerBalanceChange}
use monopoly_bank.Store.Writes.{
  change_of, write_row, update_balance, update_balances, guarded_balance_update,
}

-- How the change that names a row, if any, writes it.
abbrev pub WrittenAs : Option PlayerBalanceChange → Player → Player → Type 0
WrittenAs none row updated = updated ≡ row
WrittenAs (some change) row updated =
    (row.balance ≡ change.balance_before)
    × ((pos 0 ≤ℤ change.balance_after) × (updated ≡ record row { balance = change.balance_after }))

write_row-WrittenAs :
    (change : Option PlayerBalanceChange) (row updated : Player)
    → write_row true change row ≡ ok updated
    → WrittenAs change row updated
unfolding write_row
write_row-WrittenAs none row updated h = sym (ok-injective h)
write_row-WrittenAs (some change) row updated h = ground arith

-- The tables agree row by row, but for the rows that the changes name.
abbrev pub AreWritten : GameId → List PlayerBalanceChange → List Player → List Player → Type 0
AreWritten game_id changes [] [] = Unit
AreWritten game_id changes [] (u ∷ us) = ⊥
AreWritten game_id changes (row ∷ rows) [] = ⊥
AreWritten game_id changes (row ∷ rows) (u ∷ us) =
    WrittenAs (change_of game_id changes row) row u × AreWritten game_id changes rows us

update_balances-AreWritten :
    (game_id : GameId) (changes : List PlayerBalanceChange) (rows written : List Player)
    → update_balances game_id changes true rows ≡ ok written
    → AreWritten game_id changes rows written
unfolding update_balances
update_balances-AreWritten game_id changes [] written h = rw (← ok-injective h) tt
update_balances-AreWritten game_id changes (row ∷ rows) written h =
    let (updated, one, h1) = >>=-eq-ok (update_balance game_id changes true row) _ h in
    let (rest, more, h2) = >>=-eq-ok (update_balances game_id changes true rows) _ h1 in
    rw (← ok-injective h2) (
      write_row-WrittenAs (change_of game_id changes row) row updated one,
      update_balances-AreWritten game_id changes rows rest more,
    )

-- What a row counts for in the wallets of a game, and the sum of these.
abbrev share : GameId → Player → ℤ
share game_id row = if row.game_id == game_id then row.balance else pos 0

abbrev pub wallets : GameId → List Player → ℤ
wallets game_id [] = pos 0
wallets game_id (row ∷ rows) = share game_id row +ℤ wallets game_id rows

abbrev pub moved_by : PlayerBalanceChange → ℤ
moved_by change = change.balance_after -ℤ change.balance_before

abbrev drift : Option PlayerBalanceChange → ℤ
drift none = pos 0
drift (some change) = moved_by change

abbrev drifts : GameId → List PlayerBalanceChange → List Player → ℤ
drifts game_id changes [] = pos 0
drifts game_id changes (row ∷ rows) =
    drift (change_of game_id changes row) +ℤ drifts game_id changes rows

plus_zero : (a : ℤ) → a ≡ a +ℤ pos 0
plus_zero a = omega int_laws

zero_plus : (a : ℤ) → a ≡ pos 0 +ℤ a
zero_plus a = omega int_laws

catch_up : (a b : ℤ) → b ≡ a +ℤ (b -ℤ a)
catch_up a b = omega int_laws

share-WrittenAs :
    (game_id : GameId) (change : Option PlayerBalanceChange) (row updated : Player)
    → (row.game_id == game_id) ≡ true
    → WrittenAs change row updated
    → share game_id updated ≡ share game_id row +ℤ drift change
share-WrittenAs game_id none row updated inside h = rw h (plus_zero (share game_id row))
share-WrittenAs game_id (some change) row updated inside (before, (nonneg, h)) =
    rw (h, inside, before) (catch_up change.balance_before change.balance_after)

unnamed-row : (row updated : Player) → WrittenAs none row updated → updated ≡ row
unnamed-row row updated h = h

share-outside :
    (game_id : GameId) (changes : List PlayerBalanceChange) (row updated : Player)
    → (row.game_id == game_id) ≡ false
    → WrittenAs (change_of game_id changes row) row updated
    → share game_id updated ≡ share game_id row +ℤ drift (change_of game_id changes row)
share-outside game_id changes row updated outside h =
    let unnamed : change_of game_id changes row ≡ none = rw outside refl in
    let same = unnamed-row row updated (subst (λ c. WrittenAs c row updated) unnamed h) in
    rw (same, unnamed, outside) (plus_zero (pos 0))

share-change_of :
    (game_id : GameId) (changes : List PlayerBalanceChange) (row updated : Player)
    → WrittenAs (change_of game_id changes row) row updated
    → share game_id updated ≡ share game_id row +ℤ drift (change_of game_id changes row)
share-change_of game_id changes row updated h = elim (Bool-cases (row.game_id == game_id)) [
  | inl inside ↦ share-WrittenAs game_id _ row updated inside h
  | inr outside ↦ share-outside game_id changes row updated outside h
]

wallets-AreWritten :
    (game_id : GameId) (changes : List PlayerBalanceChange) (rows written : List Player)
    → AreWritten game_id changes rows written
    → wallets game_id written ≡ wallets game_id rows +ℤ drifts game_id changes rows
wallets-AreWritten game_id changes [] [] h = omega int_laws
wallets-AreWritten game_id changes [] (u ∷ us) h = absurd h
wallets-AreWritten game_id changes (row ∷ rows) [] h = absurd h
wallets-AreWritten game_id changes (row ∷ rows) (u ∷ us) (here, later) =
    let rest = wallets-AreWritten game_id changes rows us later in
    let one = share-change_of game_id changes row u here in rw (one, rest) (omega int_laws)

-- How many rows of the game have an id.
abbrev pub rows_with : GameId → PlayerId → List Player → ℕ
rows_with game_id id [] = 0
rows_with game_id id (row ∷ rows) =
    let rest = rows_with game_id id rows in
    if row.game_id == game_id && row.id == id then suc rest else rest

-- Every change names one row of the game, and no other change names it.
abbrev pub NamesEach : GameId → List PlayerBalanceChange → List Player → Type 0
NamesEach game_id [] rows = Unit
NamesEach game_id (change ∷ changes) rows =
    (rows_with game_id change.player.id rows ≡ 1)
    × (All (λ other. change.player.id ≢ other.player.id) changes × NamesEach game_id changes rows)

find-other :
    (id : PlayerId) (change : PlayerBalanceChange) (changes : List PlayerBalanceChange)
    → All (λ other. change.player.id ≢ other.player.id) changes
    → (id == change.player.id) ≡ true
    → find (λ c. id == c.player.id) changes ≡ none
find-other id change [] h e = refl
find-other id change (c ∷ cs) (here, later) e = ground (arith, find-other id change cs later e)

drift_step :
    (inside named : Bool) (change : PlayerBalanceChange) (other : Option PlayerBalanceChange)
    → (named ≡ true → other ≡ none)
    → drift (if inside then (if named then some change else other) else none)
      ≡ (if inside && named then moved_by change else pos 0)
        +ℤ drift (if inside then other else none)
drift_step false named change other h = plus_zero (pos 0)
drift_step true false change other h = zero_plus (drift other)
drift_step true true change other h = rw (h refl) (plus_zero (moved_by change))

drift-one :
    (game_id : GameId) (change : PlayerBalanceChange) (changes : List PlayerBalanceChange)
    (row : Player)
    → All (λ other. change.player.id ≢ other.player.id) changes
    → drift (change_of game_id (change ∷ changes) row)
      ≡ (if row.game_id == game_id && row.id == change.player.id then moved_by change else pos 0)
        +ℤ drift (change_of game_id changes row)
drift-one game_id change changes row apart =
    drift_step (row.game_id == game_id) (row.id == change.player.id) change _
      (λ named. find-other row.id change changes apart named)

count_step :
    (b : Bool) (a : ℤ) (n : ℕ)
    → a *ℤ pos (if b then suc n else n) ≡ (if b then a else pos 0) +ℤ a *ℤ pos n
count_step true a n = *ℤ_suc a n
count_step false a n = omega int_laws

middle_four : (a b c d : ℤ) → (a +ℤ b) +ℤ (c +ℤ d) ≡ (a +ℤ c) +ℤ (b +ℤ d)
middle_four a b c d = omega int_laws

drifts-one :
    (game_id : GameId) (change : PlayerBalanceChange) (changes : List PlayerBalanceChange)
    (rows : List Player)
    → All (λ other. change.player.id ≢ other.player.id) changes
    → drifts game_id (change ∷ changes) rows
      ≡ moved_by change *ℤ pos (rows_with game_id change.player.id rows)
        +ℤ drifts game_id changes rows
drifts-one game_id change changes [] apart = rw (*ℤ_zero (moved_by change)) (omega int_laws)
drifts-one game_id change changes (row ∷ rows) apart =
    let rest = drifts-one game_id change changes rows apart in
    let one = drift-one game_id change changes row apart in
    let step =
      count_step (row.game_id == game_id && row.id == change.player.id) (moved_by change)
        (rows_with game_id change.player.id rows) in
    rw (one, rest, step) (middle_four _ _ _ _)

drift-none : (b : Bool) → drift (if b then none else none) ≡ pos 0
drift-none true = refl
drift-none false = refl

times_one : (a : ℤ) → a *ℤ pos 1 ≡ a
times_one a = *ℤ_suc a 0 ∙ rw (*ℤ_zero a) (sym (plus_zero a))

drifts-none : (game_id : GameId) (rows : List Player) → drifts game_id [] rows ≡ pos 0
drifts-none game_id [] = refl
drifts-none game_id (row ∷ rows) =
    rw (drifts-none game_id rows, drift-none (row.game_id == game_id)) (sym (plus_zero (pos 0)))

drifts-moved_by :
    (game_id : GameId) (changes : List PlayerBalanceChange) (rows : List Player)
    → NamesEach game_id changes rows
    → drifts game_id changes rows ≡ sum (map moved_by changes)
unfolding sum
drifts-moved_by game_id [] rows h = drifts-none game_id rows
drifts-moved_by game_id (change ∷ changes) rows (once, (apart, later)) =
    drifts-one game_id change changes rows apart
    ∙ rw (once, drifts-moved_by game_id changes rows later, times_one (moved_by change)) refl

untouched-WrittenAs : (b : Bool) (row : Player) → WrittenAs (if b then none else none) row row
untouched-WrittenAs true row = refl
untouched-WrittenAs false row = refl

rows-AreWritten : (game_id : GameId) (rows : List Player) → AreWritten game_id [] rows rows
rows-AreWritten game_id [] = tt
rows-AreWritten game_id (row ∷ rows) =
    (untouched-WrittenAs (row.game_id == game_id) row, rows-AreWritten game_id rows)

-- A guarded update of the balances that goes through finds every row that it names as the changes
-- read it, and moves the wallets of the game by what the changes add up to.
pub guarded_balance_update-wallets :
    (game_id : GameId) (changes : List PlayerBalanceChange) (rows written : List Player)
    → guarded_balance_update changes true rows ≡ ok written
    → All (λ c. c.player.game_id ≡ game_id) changes
    → NamesEach game_id changes rows
    → (AreWritten game_id changes rows written)
      × (wallets game_id written ≡ wallets game_id rows +ℤ sum (map moved_by changes))
unfolding guarded_balance_update sum
guarded_balance_update-wallets game_id [] rows written h same each =
    rw (← ok-injective h) (rows-AreWritten game_id rows, plus_zero (wallets game_id rows))
guarded_balance_update-wallets game_id (c ∷ cs) rows written h (here, later) each =
    let done : update_balances game_id (c ∷ cs) true rows ≡ ok written =
      subst (λ g. update_balances g (c ∷ cs) true rows ≡ ok written) here
        (throw_if-passed _ internal_error _ h).1 in
    let all = update_balances-AreWritten game_id (c ∷ cs) rows written done in
    (
      all,
      wallets-AreWritten game_id (c ∷ cs) rows written all
          ∙ ap (λ d. wallets game_id rows +ℤ d) (drifts-moved_by game_id (c ∷ cs) rows each),
    )
