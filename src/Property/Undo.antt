-- ===== src/Property/Undo.antt =====
-- Changes that start at the registry's own state can be taken back.
use mathlib.Core.Path.{subst}
use monopoly_bank.Prelude.{
  ◌≡◌, sym, ◌∙◌, ◌≢◌, inl, inr, some, List, [], ◌∷◌, arith, ◌==◌, Bool-cases, find, All,
}
use monopoly_bank.Types.{TileId, GameProperty, PropertyChange}
use monopoly_bank.Property.Lookup.{state_of_row, state_of}
use monopoly_bank.Property.Changes.{
  invert_changes, apply_changes, IsRead, apply_changes-invert_changes,
}

-- No two rows of the registry are of the same tile.
abbrev pub IsUnique : List GameProperty → Type 0
IsUnique [] = Unit
IsUnique (row ∷ rows) = All (λ other. row.tile_id ≢ other.tile_id) rows × IsUnique rows

abbrev pub IsCurrent : List GameProperty → PropertyChange → Type 0
IsCurrent registry change = change.before ≡ state_of registry change.tile_id

-- Each of these rows is the one that the registry has for its tile.
abbrev IsKnown : List GameProperty → GameProperty → Type 0
IsKnown registry row = state_of registry row.tile_id ≡ state_of_row row

IsKnown-behind :
    (first : GameProperty) (registry rows : List GameProperty)
    → All (λ other. first.tile_id ≢ other.tile_id) rows
    → All (IsKnown registry) rows
    → All (IsKnown (first ∷ registry)) rows
unfolding state_of
IsKnown-behind first registry [] others known = tt
IsKnown-behind first registry (row ∷ rows) (other, others) (here, later) =
    (ground arith, IsKnown-behind first registry rows others later)

IsUnique-IsKnown :
    (registry : List GameProperty) → IsUnique registry → All (IsKnown registry) registry
unfolding state_of
IsUnique-IsKnown [] unique = tt
IsUnique-IsKnown (row ∷ rows) (others, unique) =
    (ground arith, IsKnown-behind row rows rows others (IsUnique-IsKnown rows unique))

find-current :
    (registry : List GameProperty) (tile_id : TileId) (changes : List PropertyChange)
    (change : PropertyChange)
    → All (IsCurrent registry) changes
    → find (λ c. c.tile_id == tile_id) changes ≡ some change
    → change.before ≡ state_of registry tile_id
find-current registry tile_id [] change current h = cc
find-current registry tile_id (c ∷ cs) change (here, later) h =
    elim (Bool-cases (c.tile_id == tile_id)) [
      | inl hit ↦
          let same : c ≡ change = ground arith in
          let tile : c.tile_id ≡ tile_id = ground arith in
          subst (λ (x : PropertyChange). x.before ≡ state_of registry tile_id) same
            (rw (← tile) here)
      | inr miss ↦ find-current registry tile_id cs change later (ground arith)
    ]

rows-IsRead :
    (registry rows : List GameProperty) (changes : List PropertyChange)
    → All (IsKnown registry) rows
    → All (IsCurrent registry) changes
    → IsRead changes rows
rows-IsRead registry [] changes known current = tt
rows-IsRead registry (row ∷ rows) changes (here, later) current = (
  (λ change found. sym here ∙ sym (find-current registry row.tile_id changes change current found)),
  rows-IsRead registry rows changes later current,
)

-- Changes that start at the states of a registry with one row for each tile are taken back by their
-- inverse.
pub apply_changes-current :
    (registry : List GameProperty) (changes : List PropertyChange)
    → IsUnique registry
    → All (IsCurrent registry) changes
    → apply_changes (apply_changes registry changes) (invert_changes changes) ≡ registry
apply_changes-current registry changes unique current =
    apply_changes-invert_changes registry changes
      (rows-IsRead registry registry changes (IsUnique-IsKnown registry unique) current)
