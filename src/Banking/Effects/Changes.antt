-- ===== src/Banking/Effects/Changes.antt =====
-- The balance changes that `applyDeltas` and `createBalanceChange` make.
use mathlib.Core.Path.{subst}
use monopoly_bank.Prelude.{◌≡◌, ap, ◌∙◌, true, List, [], ◌∷◌, arith, all, All}
use monopoly_bank.Prelude.Int.{ℤ, pos, ◌+ℤ◌, ◌≤ℤ◌}
use monopoly_bank.Types.{PlayerId, Player}
use monopoly_bank.Outcome.{ok, >>=-eq-ok, ok-injective}
use monopoly_bank.Money.{is_safe_integer}
use monopoly_bank.Banking.Pending.{PlayerBalanceChange}
use monopoly_bank.Banking.Guards.{find_player}
use monopoly_bank.Banking.Deltas.{PlayerDelta, create_balance_change, apply_deltas}

-- A change is of a player of the game, starts at their balance, ends at that balance plus the
-- delta, and never leaves it negative or unsafe.
pub record IsChange (players : List Player) (change : PlayerBalanceChange) : Type 0 where
  pub known : find_player players change.player.id ≡ ok change.player
  pub before : change.balance_before ≡ change.player.balance
  pub after : change.balance_after ≡ change.player.balance +ℤ change.balance_delta
  pub nonneg : pos 0 ≤ℤ change.balance_after
  pub safe : is_safe_integer change.balance_after ≡ true

pub find_player-id :
    (players : List Player) (id : PlayerId) (player : Player)
    → find_player players id ≡ ok player
    → player.id ≡ id
unfolding find_player
find_player-id [] id player h = cc
find_player-id (p ∷ ps) id player h = ground (arith, find_player-id ps id player)

pub create_balance_change-IsChange :
    (players : List Player) (player : Player) (delta : ℤ) (change : PlayerBalanceChange)
    → find_player players player.id ≡ ok player
    → create_balance_change player delta ≡ ok change
    → IsChange players change × (change.player ≡ player) × (change.balance_delta ≡ delta)
unfolding create_balance_change
create_balance_change-IsChange players player delta change known h = ground arith

pub create_balance_change-delta :
    (player : Player) (delta : ℤ) (change : PlayerBalanceChange)
    → create_balance_change player delta ≡ ok change
    → change.balance_delta ≡ delta
unfolding create_balance_change
create_balance_change-delta player delta change h = ground arith

pub known_player :
    (players : List Player) (id : PlayerId) (player : Player)
    → find_player players id ≡ ok player
    → find_player players player.id ≡ ok player
known_player players id player h = simp (find_player-id players id player h) h

-- The changes follow the deltas one by one.
abbrev pub Follows : List PlayerBalanceChange → List PlayerDelta → Type 0
Follows [] [] = Unit
Follows [] (d ∷ ds) = ⊥
Follows (c ∷ cs) [] = ⊥
Follows (c ∷ cs) (d ∷ ds) =
    ((c.player.id ≡ d.player_id) × (c.balance_delta ≡ d.delta)) × Follows cs ds

pub apply_deltas-IsChange :
    (players : List Player) (deltas : List PlayerDelta) (changes : List PlayerBalanceChange)
    → apply_deltas players deltas ≡ ok changes
    → All (IsChange players) changes × Follows changes deltas
unfolding apply_deltas
apply_deltas-IsChange players [] changes h = rw (← ok-injective h) (tt, tt)
apply_deltas-IsChange players (d ∷ ds) changes h =
    let (player, found, h1) = >>=-eq-ok (find_player players d.player_id) _ h in
    let (change, made, h2) = >>=-eq-ok (create_balance_change player d.delta) _ h1 in
    let (rest, done, h3) = >>=-eq-ok (apply_deltas players ds) _ h2 in
    let (lawful, same, delta) =
      create_balance_change-IsChange players player d.delta change
        (known_player players d.player_id player found) made in
    let (all, follows) = apply_deltas-IsChange players ds rest done in
    let id_eq : change.player.id ≡ d.player_id =
      ap (λ (p : Player). p.id) same ∙ find_player-id players d.player_id player found in
    subst (λ cs. All (IsChange players) cs × Follows cs (d ∷ ds)) (ok-injective h3)
      ((lawful, all), ((id_eq, delta), follows))
