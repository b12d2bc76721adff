-- ===== src/Property/Build.antt =====
-- What a building plan promises.
use mathlib.Core.Path.{subst}
use monopoly_bank.Prelude.{
  ◌≡◌, refl, sym, inl, inr, Bool, true, false, not, some, List, [], ◌∷◌, map, arith, Option-cases,
  get_or, any, All,
}
use monopoly_bank.Prelude.Int.{ℤ, pos, ◌≤ℤ◌, ◌<ℤ◌}
use monopoly_bank.Types.{
  TileId, same_group, PropertyTile, PlayerId, GameProperty, PropertyChange, PropertyContext,
}
use monopoly_bank.Outcome.{
  AppError, build_requires_full_group, build_mortgaged_group, ok, throw_if, >>=-eq-ok, ok-injective,
  throw_if-false, Result-cases,
}
use monopoly_bank.Property.Lookup.{is_owner, require_tile, group_tiles, state_of, holds_full_group}
use monopoly_bank.Property.Changes.{building_change}
use monopoly_bank.Property.Levels.{IsEven, is_uneven-IsEven}
use monopoly_bank.Property.Blockers.{is_buildable}
use monopoly_bank.Property.Plan.{
  Targets, Direction, build, sell, BuildingPlan, target_of, check_target, check_targets, StreetPlan,
  plan_street, plan_streets, changes_of, levels_of, finish_plan, plan_buildings,
}

-- The level of a street after the plan.
abbrev level_after : List GameProperty → Targets → PropertyTile → ℤ
level_after registry targets tile =
    get_or (target_of targets tile.id) (state_of registry tile.id).houses

abbrev Raises : Direction → ℤ → ℤ → Type 0
Raises build before after = before <ℤ after
Raises sell before after = after <ℤ before

-- A change of the plan: it starts at the state of the registry, keeps all but the level, and moves
-- the level the right way to the one that the targets name for the tile.
pub record Raise (registry : List GameProperty) (targets : Targets) (direction : Direction)
    (change : PropertyChange) : Type 0 where
  pub current : change.before ≡ state_of registry change.tile_id
  pub owner : change.after.owner_player_id ≡ change.before.owner_player_id
  pub mortgage : change.after.mortgaged ≡ change.before.mortgaged
  pub way : Raises direction change.before.houses change.after.houses
  pub reached : target_of targets change.tile_id ≡ some change.after.houses

abbrev InRange : ℤ → Type 0
InRange level = (pos 0 ≤ℤ level) × (level ≤ℤ pos 5)

-- A street that the targets name: it is a street that can be built on, of the group of the first
-- one, the player owns it, and its level is one of 0 to 5.
pub record IsNamed (context : PropertyContext) (player : PlayerId) (first : PropertyTile)
    (entry : TileId × ℤ) : Type 0 where
  pub tile : PropertyTile
  pub found : require_tile context.board entry.0 ≡ ok tile
  pub buildable : is_buildable tile ≡ true
  pub grouped : same_group tile.group first.group ≡ true
  pub owned : is_owner (state_of context.registry entry.0).owner_player_id player ≡ true
  pub in_range : InRange entry.1

check_target-IsNamed :
    (context : PropertyContext) (player : PlayerId) (first : PropertyTile) (tile_id : TileId)
    (level : ℤ)
    → check_target context player first (tile_id, level) ≡ ok tt
    → IsNamed context player first (tile_id, level)
unfolding check_target
check_target-IsNamed context player first tile_id level h =
    elim (Result-cases (require_tile context.board tile_id)) [
      | inl (tile, found) ↦ record {
        tile = tile;
        found = found;
        buildable = ground arith;
        grouped = ground arith;
        owned = ground arith;
        in_range = ground arith;
      }
      | inr (e, failed) ↦ absurd (ground arith)
    ]

check_targets-IsNamed :
    (context : PropertyContext) (player : PlayerId) (first : PropertyTile) (targets : Targets)
    → check_targets context player first targets ≡ ok tt
    → All (IsNamed context player first) targets
unfolding check_targets
check_targets-IsNamed context player first [] h = tt
check_targets-IsNamed context player first ((tile_id, level) ∷ entries) h =
    let (_, checked, rest) = >>=-eq-ok (check_target context player first (tile_id, level)) _ h in
    (
      check_target-IsNamed context player first tile_id level checked,
      check_targets-IsNamed context player first entries rest,
    )

plan_street-level :
    (registry : List GameProperty) (targets : Targets) (direction : Direction) (tile : PropertyTile)
    (plan : StreetPlan)
    → plan_street registry targets direction tile.id ≡ ok plan
    → plan.level ≡ level_after registry targets tile
unfolding plan_street
plan_street-level registry targets direction tile plan h = ground arith

plan_streets-levels :
    (registry : List GameProperty) (targets : Targets) (direction : Direction)
    (tiles : List PropertyTile) (plans : List StreetPlan)
    → plan_streets registry targets direction tiles ≡ ok plans
    → levels_of plans ≡ map (level_after registry targets) tiles
unfolding plan_streets
plan_streets-levels registry targets direction [] plans h = rw (← ok-injective h) refl
plan_streets-levels registry targets direction (tile ∷ tiles) plans h =
    let (plan, one, h1) = >>=-eq-ok (plan_street registry targets direction tile.id) _ h in
    let (rest, more, h2) = >>=-eq-ok (plan_streets registry targets direction tiles) _ h1 in
    let level = plan_street-level registry targets direction tile plan one in
    let levels = plan_streets-levels registry targets direction tiles rest more in
    rw (← ok-injective h2, level, levels) refl

plan_street-Raise :
    (registry : List GameProperty) (targets : Targets) (direction : Direction) (tile_id : TileId)
    (plan : StreetPlan) (change : PropertyChange)
    → plan_street registry targets direction tile_id ≡ ok plan
    → plan.change ≡ some change
    → Raise registry targets direction change
unfolding plan_street building_change
plan_street-Raise registry targets build tile_id plan change h e =
    elim (Option-cases (target_of targets tile_id)) [
      | inl unnamed ↦ absurd (ground arith)
      | inr (level, named) ↦ ground arith
    ]
plan_street-Raise registry targets sell tile_id plan change h e =
    elim (Option-cases (target_of targets tile_id)) [
      | inl unnamed ↦ absurd (ground arith)
      | inr (level, named) ↦ ground arith
    ]

plan_streets-Raise :
    (registry : List GameProperty) (targets : Targets) (direction : Direction)
    (tiles : List PropertyTile) (plans : List StreetPlan)
    → plan_streets registry targets direction tiles ≡ ok plans
    → All (Raise registry targets direction) (changes_of plans)
unfolding plan_streets changes_of
plan_streets-Raise registry targets direction [] plans h = rw (← ok-injective h) tt
plan_streets-Raise registry targets direction (tile ∷ tiles) plans h =
    let (plan, one, h1) = >>=-eq-ok (plan_street registry targets direction tile.id) _ h in
    let (rest, more, h2) = >>=-eq-ok (plan_streets registry targets direction tiles) _ h1 in
    let later = plan_streets-Raise registry targets direction tiles rest more in
    rw (← ok-injective h2) (elim (Option-cases plan.change) [
      | inl same ↦ rw (same, changes_of) later
      | inr (change, moved) ↦
          rw (moved, changes_of)
            (plan_street-Raise registry targets direction tile.id plan change one moved, later)
    ])

-- What a plan of `planBuildings` promises, where `first` is the first street that the targets name.
pub record Builds (context : PropertyContext) (player : PlayerId) (targets : Targets)
    (direction : Direction) (first : PropertyTile) (plan : BuildingPlan) : Type 0 where
  pub full : holds_full_group context.board context.registry first player ≡ true
  pub unmortgaged :
      any (λ tile. (state_of context.registry tile.id).mortgaged) (group_tiles context.board first)
      ≡ false
  pub is_first :
      (entry : TileId × ℤ) × ((entries : Targets) × ((targets ≡ entry ∷ entries)
          × (require_tile context.board entry.0 ≡ ok first)))
  pub named : All (IsNamed context player first) targets
  pub changes : All (Raise context.registry targets direction) plan.changes
  pub even :
      context.board.rules.build_evenly ≡ true
      → IsEven (map (level_after context.registry targets) (group_tiles context.board first))

finish_plan-changes :
    (build_evenly : Bool) (plans : List StreetPlan) (plan : BuildingPlan)
    → finish_plan build_evenly plans ≡ ok plan
    → (plan.changes ≡ changes_of plans) × (build_evenly ≡ true → IsEven (levels_of plans))
unfolding finish_plan
finish_plan-changes build_evenly plans plan h =
    let even = is_uneven-IsEven (levels_of plans) in (ground arith, ground arith)

throw_if-not : (b : Bool) (e : AppError) → throw_if (not b) e ≡ ok tt → b ≡ true
throw_if-not b e h = ground arith

pub plan_buildings-Builds :
    (context : PropertyContext) (player : PlayerId) (targets : Targets) (direction : Direction)
    (plan : BuildingPlan)
    → plan_buildings context player targets direction ≡ ok plan
    → (first : PropertyTile) × Builds context player targets direction first plan
unfolding plan_buildings
plan_buildings-Builds context player [] direction plan h = cc
plan_buildings-Builds context player (entry ∷ entries) direction plan h =
    let targets = entry ∷ entries in
    let (first, found, h1) = >>=-eq-ok (require_tile context.board entry.0) _ h in
    let (_, checked, h2) = >>=-eq-ok (check_targets context player first targets) _ h1 in
    let held = holds_full_group context.board context.registry first player in
    let (_, full, h3) = >>=-eq-ok (throw_if (not held) (build_requires_full_group first.id)) _ h2 in
    let blocked =
      any (λ tile. (state_of context.registry tile.id).mortgaged)
        (group_tiles context.board first) in
    let (_, free, h4) = >>=-eq-ok (throw_if blocked (build_mortgaged_group first.id)) _ h3 in
    let tiles = group_tiles context.board first in
    let (plans, planned, h5) =
      >>=-eq-ok (plan_streets context.registry targets direction tiles) _ h4 in
    let (changes, even) = finish_plan-changes context.board.rules.build_evenly plans plan h5 in
    (
      first,
      record {
        full = throw_if-not held (build_requires_full_group first.id) full;
        unmortgaged = throw_if-false blocked (build_mortgaged_group first.id) free;
        is_first = (entry, (entries, (refl, found)));
        named = check_targets-IsNamed context player first targets checked;
        changes =
            subst (All (Raise context.registry targets direction)) (sym changes)
              (plan_streets-Raise context.registry targets direction tiles plans planned);
        even = λ evenly.
            subst IsEven
              (plan_streets-levels context.registry targets direction tiles plans planned)
              (even evenly);
      },
    )
