-- ===== src/Property/Changes.antt =====
-- shared/domain/property.ts: the changes of the registry, and the registry after them.
use monopoly_bank.Prelude.{
  ◌≡◌, refl, inl, inr, Bool, Option, none, some, List, [], ◌∷◌, map, arith, ◌==◌, Option-cases,
  find,
}
use monopoly_bank.Prelude.Int.{ℤ}
use monopoly_bank.Types.{TileId, PlayerId, GameProperty, PropertyState, PropertyChange}
use monopoly_bank.Property.Lookup.{unowned, state_of_row}

unfoldable pub building_change : TileId → PropertyState → ℤ → PropertyChange
building_change tile_id before level = record {
  tile_id = tile_id;
  before = before;
  after = record before { houses = level };
}

unfoldable pub owner_change : TileId → PropertyState → Option PlayerId → PropertyChange
owner_change tile_id before none = record { tile_id = tile_id; before = before; after = unowned }
owner_change tile_id before (some owner) = record {
  tile_id = tile_id;
  before = before;
  after = record before { owner_player_id = some owner };
}

unfoldable pub mortgage_change : TileId → PropertyState → Bool → PropertyChange
mortgage_change tile_id before flag = record {
  tile_id = tile_id;
  before = before;
  after = record before { mortgaged = flag };
}

abbrev pub invert_change : PropertyChange → PropertyChange
invert_change change = record {
  tile_id = change.tile_id;
  before = change.after;
  after = change.before;
}

unfoldable pub invert_changes : List PropertyChange → List PropertyChange
invert_changes changes = map invert_change changes

abbrev pub apply_to_row : List PropertyChange → GameProperty → GameProperty
apply_to_row changes row = elim (find (λ change. change.tile_id == row.tile_id) changes) [
  | none ↦ row
  | some change ↦ record row {
    owner_player_id = change.after.owner_player_id;
    mortgaged = change.after.mortgaged;
    houses = change.after.houses;
  }
]

unfoldable pub apply_changes : List GameProperty → List PropertyChange → List GameProperty
apply_changes registry changes = map (apply_to_row changes) registry

-- Every row that the changes name is still as they read it.
abbrev pub IsRead : List PropertyChange → List GameProperty → Type 0
IsRead changes [] = Unit
IsRead changes (row ∷ rows) =
    ((change : PropertyChange)
      → find (λ c. c.tile_id == row.tile_id) changes ≡ some change
      → state_of_row row ≡ change.before)
    × IsRead changes rows

find-invert :
    (tile_id : TileId) (changes : List PropertyChange)
    → find (λ c. c.tile_id == tile_id) (map invert_change changes)
      ≡ (elim (find (λ c. c.tile_id == tile_id) changes) [
        | none ↦ none
        | some change ↦ some (invert_change change)
      ])
find-invert tile_id [] = refl
find-invert tile_id (c ∷ cs) = ground (arith, find-invert tile_id cs)

apply_to_row-apply_to_row :
    (changes : List PropertyChange) (row : GameProperty)
    → ((change : PropertyChange)
        → find (λ c. c.tile_id == row.tile_id) changes ≡ some change
        → state_of_row row ≡ change.before)
    → apply_to_row (map invert_change changes) (apply_to_row changes row) ≡ row
apply_to_row-apply_to_row changes row h =
    elim (Option-cases (find (λ c. c.tile_id == row.tile_id) changes)) [
      | inl untouched ↦ ground (arith, find-invert row.tile_id changes)
      | inr (change, found) ↦ ground (arith, find-invert row.tile_id changes, h change found)
    ]

-- A registry change and its inverse: when every row that the changes name is still as they read it,
-- applying them and then their inverse gives back the registry.
pub apply_changes-invert_changes :
    (registry : List GameProperty) (changes : List PropertyChange)
    → IsRead changes registry
    → apply_changes (apply_changes registry changes) (invert_changes changes) ≡ registry
unfolding apply_changes invert_changes
apply_changes-invert_changes [] changes h = refl
apply_changes-invert_changes (row ∷ rows) changes (here, later) =
    cc (apply_to_row-apply_to_row changes row here, apply_changes-invert_changes rows changes later)
