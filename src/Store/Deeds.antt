-- ===== src/Store/Deeds.antt =====
-- The registry statements of a batch write what `applyChanges` works out, and check what it
-- assumes.
use mathlib.Core.Path.{ap₂, subst}
use monopoly_bank.Prelude.{
  ℕ, ◌≡◌, refl, sym, ap, ◌∙◌, ◌≢◌, inl, inr, Bool, true, false, Option, none, some, List, [], ◌∷◌,
  map, arith, ◌==◌, if◌then◌else◌, Bool-cases, find, filter, All,
}
use monopoly_bank.Types.{TileId, GameId, GameProperty, PropertyState, PropertyChange}
use monopoly_bank.Outcome.{ok, >>=-eq-ok, ok-injective}
use monopoly_bank.Property.Lookup.{state_of_row}
use monopoly_bank.Property.Changes.{
  invert_change, invert_changes, apply_to_row, apply_changes, IsRead, apply_changes-invert_changes,
}
use monopoly_bank.Store.Writes.{
  same_id, same_flag, same_state, put_state, write_property, update_property,
  registry_guard_statement, registry_statements,
}

-- The rows of a game, as `listByGame` reads them.
abbrev pub deeds : GameId → List GameProperty → List GameProperty
deeds game_id rows = filter (λ row. row.game_id == game_id) rows

-- No tile is changed twice.
abbrev pub AreApart : List PropertyChange → Type 0
AreApart [] = Unit
AreApart (change ∷ changes) =
    All (λ other. change.tile_id ≢ other.tile_id) changes × AreApart changes

same_id-eq : (a b : Option ℕ) → same_id a b ≡ true → a ≡ b
same_id-eq none none h = refl
same_id-eq none (some b) h = cc
same_id-eq (some a) none h = cc
same_id-eq (some a) (some b) h = ap some (ground arith)

same_flag-eq : (a b : Bool) → same_flag a b ≡ true → a ≡ b
same_flag-eq true b h = sym h
same_flag-eq false true h = h
same_flag-eq false false h = refl

same_state-eq : (a b : PropertyState) → same_state a b ≡ true → a ≡ b
same_state-eq a b h =
    ground
      (arith, same_id-eq a.owner_player_id b.owner_player_id, same_flag-eq a.mortgaged b.mortgaged)

write_property-reads :
    (change : PropertyChange) (row updated : GameProperty)
    → write_property change row ≡ ok updated
    → (updated ≡ put_state row change.after) × (state_of_row row ≡ change.before)
unfolding write_property
write_property-reads change row updated h =
    ground (arith, same_state-eq (state_of_row row) change.before)

-- What one statement does to one row of the game.
Row : PropertyChange → GameProperty → GameProperty → Type 0
Row change row updated =
    (updated ≡ apply_to_row (change ∷ []) row)
    × ((c : PropertyChange)
        → find (λ c. c.tile_id == row.tile_id) (change ∷ []) ≡ some c
        → state_of_row row ≡ c.before)

apply_to_row-named :
    (change : PropertyChange) (row : GameProperty)
    → (change.tile_id == row.tile_id) ≡ true
    → apply_to_row (change ∷ []) row ≡ put_state row change.after
apply_to_row-named change row named = ground arith

apply_to_row-other :
    (change : PropertyChange) (row : GameProperty)
    → (change.tile_id == row.tile_id) ≡ false
    → apply_to_row (change ∷ []) row ≡ row
apply_to_row-other change row other = ground arith

apply_to_row-game_id :
    (change : PropertyChange) (row : GameProperty)
    → (apply_to_row (change ∷ []) row).game_id ≡ row.game_id
apply_to_row-game_id change row = ground arith

update_property-Row :
    (named : Bool) (change : PropertyChange) (row updated : GameProperty)
    → (change.tile_id == row.tile_id) ≡ named
    → (if named then write_property change row else ok row) ≡ ok updated
    → Row change row updated
unfolding Row
update_property-Row true change row updated named h =
    let (same, read) = write_property-reads change row updated h in
    (same ∙ sym (apply_to_row-named change row named), λ c found. ground arith)
update_property-Row false change row updated named h =
    (sym (ok-injective h) ∙ sym (apply_to_row-other change row named), λ c found. ground arith)

deeds_step :
    (game_id : GameId) (change : PropertyChange) (row updated : GameProperty) (inside : Bool)
    → (row.game_id == game_id) ≡ inside
    → (if inside
        then (if change.tile_id == row.tile_id then write_property change row else ok row)
        else ok row)
      ≡ ok updated
    → (written rows : List GameProperty) → written ≡ apply_changes rows (change ∷ [])
    → IsRead (change ∷ []) rows
    → ((if updated.game_id == game_id then updated ∷ written else written)
        ≡ apply_changes (if inside then row ∷ rows else rows) (change ∷ []))
      × IsRead (change ∷ []) (if inside then row ∷ rows else rows)
unfolding apply_changes Row
deeds_step game_id change row updated true inside h written rows applied read =
    let (same, now) =
      update_property-Row (change.tile_id == row.tile_id) change row updated refl h in
    let kept : updated.game_id ≡ row.game_id =
      ap (λ (r : GameProperty). r.game_id) same ∙ apply_to_row-game_id change row in
    let still : (updated.game_id == game_id) ≡ true = ap (λ g. g == game_id) kept ∙ inside in
    rw still (ap₂ (λ r rs. r ∷ rs) same applied, (now, read))
deeds_step game_id change row updated false inside h written rows applied read =
    rw (← ok-injective h, inside) (applied, read)

registry_guard_statement-deeds :
    (game_id : GameId) (change : PropertyChange) (rows written : List GameProperty)
    → registry_guard_statement game_id change rows ≡ ok written
    → (deeds game_id written ≡ apply_changes (deeds game_id rows) (change ∷ []))
      × IsRead (change ∷ []) (deeds game_id rows)
unfolding registry_guard_statement apply_changes
registry_guard_statement-deeds game_id change [] written h = rw (← ok-injective h) (refl, tt)
registry_guard_statement-deeds game_id change (row ∷ rows) written h =
    let (updated, one, h1) = >>=-eq-ok (update_property game_id change row) _ h in
    let (rest, more, h2) = >>=-eq-ok (registry_guard_statement game_id change rows) _ h1 in
    let (applied, read) = registry_guard_statement-deeds game_id change rows rest more in
    rw (← ok-injective h2) (
      deeds_step game_id change row updated (row.game_id == game_id) refl one (deeds game_id rest)
        (deeds game_id rows) applied read)

find-apart :
    (tile_id : TileId) (change : PropertyChange) (changes : List PropertyChange)
    → All (λ other. change.tile_id ≢ other.tile_id) changes
    → (change.tile_id == tile_id) ≡ true
    → find (λ c. c.tile_id == tile_id) changes ≡ none
find-apart tile_id change [] h e = refl
find-apart tile_id change (c ∷ cs) (here, later) e =
    ground (arith, find-apart tile_id change cs later e)

apply_to_row-cons :
    (change : PropertyChange) (changes : List PropertyChange) (row : GameProperty)
    → All (λ other. change.tile_id ≢ other.tile_id) changes
    → apply_to_row changes (apply_to_row (change ∷ []) row) ≡ apply_to_row (change ∷ changes) row
apply_to_row-cons change changes row apart = elim (Bool-cases (change.tile_id == row.tile_id)) [
  | inl named ↦
      let clear = find-apart row.tile_id change changes apart named in
      let one = apply_to_row-named change row named in ground arith
  | inr other ↦ ground arith
]

-- Applying changes one after the other, or at once, when no tile is changed twice.
apply_changes-cons :
    (change : PropertyChange) (changes : List PropertyChange) (rows : List GameProperty)
    → All (λ other. change.tile_id ≢ other.tile_id) changes
    → apply_changes (apply_changes rows (change ∷ [])) changes
      ≡ apply_changes rows (change ∷ changes)
unfolding apply_changes
apply_changes-cons change changes [] apart = refl
apply_changes-cons change changes (row ∷ rows) apart =
    ap₂ (λ r rs. r ∷ rs) (apply_to_row-cons change changes row apart)
      (apply_changes-cons change changes rows apart)

abbrev Reads : List PropertyChange → GameProperty → Type 0
Reads changes row =
    (change : PropertyChange)
    → find (λ c. c.tile_id == row.tile_id) changes ≡ some change
    → state_of_row row ≡ change.before

IsRead-cons :
    (change : PropertyChange) (changes : List PropertyChange) (rows : List GameProperty)
    → IsRead (change ∷ []) rows
    → IsRead changes (apply_changes rows (change ∷ []))
    → IsRead (change ∷ changes) rows
unfolding apply_changes
IsRead-cons change changes [] one more = tt
IsRead-cons change changes (row ∷ rows) (here, later) (next, rest) = (
  λ c found. elim (Bool-cases (change.tile_id == row.tile_id)) [
    | inl named ↦ let read = here change (ground arith) in ground arith
    | inr other ↦
        subst (λ r. Reads changes r) (apply_to_row-other change row other) next c (ground arith)
  ],
  IsRead-cons change changes rows later rest,
)

apply_to_row-nothing : (rows : List GameProperty) → apply_changes rows [] ≡ rows
unfolding apply_changes
apply_to_row-nothing [] = refl
apply_to_row-nothing (row ∷ rows) = ap (λ rs. row ∷ rs) (apply_to_row-nothing rows)

IsRead-nothing : (rows : List GameProperty) → IsRead [] rows
IsRead-nothing [] = tt
IsRead-nothing (row ∷ rows) = (λ c found. cc, IsRead-nothing rows)

-- The registry statements of a batch that goes through: the rows of the game are then the ones that
-- `applyChanges` works out, and were as the changes read them. No tile is changed twice.
pub registry_statements-deeds :
    (game_id : GameId) (changes : List PropertyChange) (rows written : List GameProperty)
    → registry_statements game_id changes rows ≡ ok written
    → AreApart changes
    → (deeds game_id written ≡ apply_changes (deeds game_id rows) changes)
      × IsRead changes (deeds game_id rows)
unfolding registry_statements
registry_statements-deeds game_id [] rows written h apart =
    rw (← ok-injective h)
      (sym (apply_to_row-nothing (deeds game_id rows)), IsRead-nothing (deeds game_id rows))
registry_statements-deeds game_id (change ∷ changes) rows written h (here, later) =
    let (updated, one, h1) = >>=-eq-ok (registry_guard_statement game_id change rows) _ h in
    let (first, read) = registry_guard_statement-deeds game_id change rows updated one in
    let (after, more) = registry_statements-deeds game_id changes updated written h1 later in
    (
      after
          ∙ ap (λ rs. apply_changes rs changes) first
          ∙ apply_changes-cons change changes (deeds game_id rows) here,
      IsRead-cons change changes (deeds game_id rows) read
          (subst (λ rs. IsRead changes rs) first more),
    )

apart-invert :
    (tile_id : TileId) (changes : List PropertyChange)
    → All (λ other. tile_id ≢ other.tile_id) changes
    → All (λ other. tile_id ≢ other.tile_id) (map invert_change changes)
apart-invert tile_id [] h = tt
apart-invert tile_id (c ∷ cs) (here, later) = (here, apart-invert tile_id cs later)

AreApart-invert_changes :
    (changes : List PropertyChange) → AreApart changes → AreApart (invert_changes changes)
unfolding invert_changes
AreApart-invert_changes [] h = tt
AreApart-invert_changes (c ∷ cs) (here, later) =
    (apart-invert c.tile_id cs here, AreApart-invert_changes cs later)

-- A batch of registry statements that goes through, followed by its inverse that goes through,
-- gives back the rows of the game. No tile is changed twice.
pub registry_statements-invert_changes :
    (game_id : GameId) (changes : List PropertyChange) (rows written again : List GameProperty)
    → registry_statements game_id changes rows ≡ ok written
    → registry_statements game_id (invert_changes changes) written ≡ ok again
    → AreApart changes
    → deeds game_id again ≡ deeds game_id rows
registry_statements-invert_changes game_id changes rows written again h back apart =
    let (done, read) = registry_statements-deeds game_id changes rows written h apart in
    let (undone, _) =
      registry_statements-deeds game_id (invert_changes changes) written again back
        (AreApart-invert_changes changes apart) in
    undone
    ∙ ap (λ rs. apply_changes rs (invert_changes changes)) done
    ∙ apply_changes-invert_changes (deeds game_id rows) changes read
