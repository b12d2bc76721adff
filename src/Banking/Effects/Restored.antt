-- ===== src/Banking/Effects/Restored.antt =====
-- An operation and its reversal leave the property registry as it was.
use mathlib.Core.Path.{subst}
use monopoly_bank.Prelude.{
  ◌≡◌, refl, ap, Option, none, some, List, [], ◌∷◌, ◌++◌, map, arith, get_or, value-eq, All,
}
use monopoly_bank.Types.{BoardSnapshot, Player, GameProperty, PropertyChange}
use monopoly_bank.Outcome.{ok, must}
use monopoly_bank.Money.{TextHost}
use monopoly_bank.Property.Changes.{owner_change, apply_changes}
use monopoly_bank.Property.Undo.{IsUnique, IsCurrent, apply_changes-current}
use monopoly_bank.Property.Plan.{Targets, Direction, build, sell, BuildingPlan, plan_buildings}
use monopoly_bank.Property.Build.{Raise, plan_buildings-Builds}
use monopoly_bank.Banking.Command.{
  PropertyPurchaseCommand, BuildPropertyCommand, TransferPropertiesCommand, ReversalCommand,
}
use monopoly_bank.Banking.Pending.{BankingOperationResult}
use monopoly_bank.Banking.Guards.{validate_game}
use monopoly_bank.Banking.Deltas.{create_result, with_property}
use monopoly_bank.Banking.Holdings.{purchase_property}
use monopoly_bank.Banking.Trade.{
  building_targets, with_buildings, build_property, sell_building, Move, transfer_properties,
}
use monopoly_bank.Banking.Undo.{reverse_transaction}
use monopoly_bank.Banking.Dispatch.{
  Operation, player_to_player_op, player_to_bank_op, to_jackpot_op, bank_to_player_op,
  player_to_all_op, all_to_player_op, pass_go_op, jackpot_payout_op, auction_op, mortgage_tile_op,
  purchase_op, build_op, sell_op, trade_op, rent_op, mortgage_op, redeem_op, loan_op, repay_op,
  bank_loan_op, repay_bank_op, reversal_op, bankruptcy_op, execute,
}
use monopoly_bank.Banking.Effects.Applies.{validate_game-eq}
use monopoly_bank.Banking.Effects.Barter.{Hands, transfer_properties-Hands}
use monopoly_bank.Banking.Effects.Opposite.{reverse_transaction-opposite}

-- The registry changes of a result; an absent list is empty.
abbrev pub changes_in : BankingOperationResult → List PropertyChange
changes_in r = get_or r.transaction.registry_changes []

purchase_property-changes :
    (c : PropertyPurchaseCommand) (r : BankingOperationResult)
    → purchase_property c ≡ ok r
    → All (IsCurrent c.property.registry) (changes_in r)
unfolding purchase_property with_property owner_change
purchase_property-changes c r h = grind (arith, validate_game-eq)

with_buildings-changes :
    (result : BankingOperationResult) (changes : List PropertyChange)
    → result.transaction.registry_changes ≡ none
    → changes_in (with_buildings result changes) ≡ changes
unfolding with_buildings with_property
with_buildings-changes result [] h = ground arith
with_buildings-changes result (change ∷ changes) h = refl

Raise-IsCurrent :
    (registry : List GameProperty) (targets : Targets) (direction : Direction)
    (changes : List PropertyChange)
    → All (Raise registry targets direction) changes
    → All (IsCurrent registry) changes
Raise-IsCurrent registry targets direction [] h = tt
Raise-IsCurrent registry targets direction (change ∷ changes) (h, hs) =
    (h.current, Raise-IsCurrent registry targets direction changes hs)

Hands-IsCurrent :
    (board : BoardSnapshot) (registry : List GameProperty) (from to : Player) (moves : List Move)
    → All (Hands board registry from to) moves
    → All (IsCurrent registry) (map (λ move. move.change) moves)
Hands-IsCurrent board registry from to [] h = tt
Hands-IsCurrent board registry from to (move ∷ moves) (h, hs) =
    (h.current, Hands-IsCurrent board registry from to moves hs)

module _ (c : BuildPropertyCommand) (r : BankingOperationResult) (h : build_property c ≡ ok r) where
  build-valid : validate_game c.game c.players ≡ ok c.players
  unfolding build_property
  build-valid = grind (arith, validate_game-eq)

  build-targets : (targets : Targets) × (building_targets c build ≡ ok targets)
  unfolding build_property
  build-targets = let valid = build-valid in must _ (λ e failed. ground arith)

  build-plan :
      (targets : Targets)
      → building_targets c build ≡ ok targets
      → (plan : BuildingPlan) × (plan_buildings c.property c.player_id targets build ≡ ok plan)
  unfolding build_property
  build-plan targets wanted = let valid = build-valid in must _ (λ e failed. ground arith)

  build-changes :
      (targets : Targets) (plan : BuildingPlan)
      → building_targets c build ≡ ok targets
      → plan_buildings c.property c.player_id targets build ≡ ok plan
      → changes_in r ≡ plan.changes
  unfolding build_property create_result
  build-changes targets plan wanted planned =
      let valid = build-valid in grind (arith, with_buildings-changes)

  build_property-changes : All (IsCurrent c.property.registry) (changes_in r)
  build_property-changes =
      let (targets, wanted) = build-targets in
      let (plan, planned) = build-plan targets wanted in
      let (first, builds) =
        plan_buildings-Builds c.property c.player_id targets build plan planned in
      rw (build-changes targets plan wanted planned)
        (Raise-IsCurrent c.property.registry targets build plan.changes builds.changes)

module _ (c : BuildPropertyCommand) (r : BankingOperationResult) (h : sell_building c ≡ ok r) where
  sell-valid : validate_game c.game c.players ≡ ok c.players
  unfolding sell_building
  sell-valid = grind (arith, validate_game-eq)

  sell-targets : (targets : Targets) × (building_targets c sell ≡ ok targets)
  unfolding sell_building
  sell-targets = let valid = sell-valid in must _ (λ e failed. ground arith)

  sell-plan :
      (targets : Targets)
      → building_targets c sell ≡ ok targets
      → (plan : BuildingPlan) × (plan_buildings c.property c.player_id targets sell ≡ ok plan)
  unfolding sell_building
  sell-plan targets wanted = let valid = sell-valid in must _ (λ e failed. ground arith)

  sell-changes :
      (targets : Targets) (plan : BuildingPlan)
      → building_targets c sell ≡ ok targets
      → plan_buildings c.property c.player_id targets sell ≡ ok plan
      → changes_in r ≡ plan.changes
  unfolding sell_building create_result
  sell-changes targets plan wanted planned =
      let valid = sell-valid in grind (arith, with_buildings-changes)

  sell_building-changes : All (IsCurrent c.property.registry) (changes_in r)
  sell_building-changes =
      let (targets, wanted) = sell-targets in
      let (plan, planned) = sell-plan targets wanted in
      let (first, builds) =
        plan_buildings-Builds c.property c.player_id targets sell plan planned in
      rw (sell-changes targets plan wanted planned)
        (Raise-IsCurrent c.property.registry targets sell plan.changes builds.changes)

All-map-append :
    (registry : List GameProperty) (given taken : List Move)
    → All (IsCurrent registry) (map (λ move. move.change) given)
    → All (IsCurrent registry) (map (λ move. move.change) taken)
    → All (IsCurrent registry) (map (λ move. move.change) (given ++ taken))
All-map-append registry [] taken h k = k
All-map-append registry (move ∷ moves) taken (h, hs) k =
    (h, All-map-append registry moves taken hs k)

transfer_properties-changes :
    (c : TransferPropertiesCommand) (r : BankingOperationResult)
    → transfer_properties c ≡ ok r
    → All (IsCurrent c.property.registry) (changes_in r)
transfer_properties-changes c r h =
    let (t, (given, (taken, _))) = transfer_properties-Hands c r h in
    let registry = c.property.registry in
    rw (ap (λ (x : Option (List PropertyChange)). get_or x []) t.trades.registry) (
      All-map-append registry t.given t.taken
        (Hands-IsCurrent c.property.board registry t.proposer t.counterparty t.given given.0)
        (Hands-IsCurrent c.property.board registry t.counterparty t.proposer t.taken taken.0))

-- The registry that an operation on tiles reads: a purchase, a trade, building and selling.
abbrev pub registry_of : Operation → Option (List GameProperty)
registry_of (purchase_op c) = some c.property.registry
registry_of (build_op c) = some c.property.registry
registry_of (sell_op c) = some c.property.registry
registry_of (trade_op c) = some c.property.registry
registry_of _ = none

execute-changes :
    (host : TextHost) (op : Operation) (r : BankingOperationResult) (registry : List GameProperty)
    → execute host op ≡ ok r
    → registry_of op ≡ some registry
    → All (IsCurrent registry) (changes_in r)
unfolding execute
execute-changes host (purchase_op c) r registry h e =
    subst (λ (x : List GameProperty). All (IsCurrent x) (changes_in r)) (value-eq e)
      (purchase_property-changes c r h)
execute-changes host (build_op c) r registry h e =
    subst (λ (x : List GameProperty). All (IsCurrent x) (changes_in r)) (value-eq e)
      (build_property-changes c r h)
execute-changes host (sell_op c) r registry h e =
    subst (λ (x : List GameProperty). All (IsCurrent x) (changes_in r)) (value-eq e)
      (sell_building-changes c r h)
execute-changes host (trade_op c) r registry h e =
    subst (λ (x : List GameProperty). All (IsCurrent x) (changes_in r)) (value-eq e)
      (transfer_properties-changes c r h)
execute-changes host (player_to_player_op c) r registry h e = cc
execute-changes host (player_to_bank_op c) r registry h e = cc
execute-changes host (to_jackpot_op c) r registry h e = cc
execute-changes host (bank_to_player_op c) r registry h e = cc
execute-changes host (player_to_all_op c) r registry h e = cc
execute-changes host (all_to_player_op c) r registry h e = cc
execute-changes host (pass_go_op c) r registry h e = cc
execute-changes host (jackpot_payout_op c) r registry h e = cc
execute-changes host (auction_op c) r registry h e = cc
execute-changes host (mortgage_tile_op c) r registry h e = cc
execute-changes host (rent_op c) r registry h e = cc
execute-changes host (mortgage_op c) r registry h e = cc
execute-changes host (redeem_op c) r registry h e = cc
execute-changes host (loan_op c) r registry h e = cc
execute-changes host (repay_op c) r registry h e = cc
execute-changes host (bank_loan_op c) r registry h e = cc
execute-changes host (repay_bank_op c) r registry h e = cc
execute-changes host (reversal_op c) r registry h e = cc
execute-changes host (bankruptcy_op c) r registry h e = cc

-- A purchase, a trade, a building or a sale of buildings that returns, and then a reversal that
-- returns of a transaction with its registry changes, leave the property registry as it was, when
-- the registry has one row for each tile.
pub execute-restored :
    (host : TextHost) (op : Operation) (r : BankingOperationResult) (registry : List GameProperty)
    (undo : ReversalCommand) (r' : BankingOperationResult)
    → execute host op ≡ ok r
    → registry_of op ≡ some registry
    → IsUnique registry
    → undo.original_registry_changes ≡ r.transaction.registry_changes
    → reverse_transaction undo ≡ ok r'
    → apply_changes (apply_changes registry (changes_in r)) (changes_in r') ≡ registry
execute-restored host op r registry undo r' h e unique carried reversed =
    let inverse = (reverse_transaction-opposite undo r' reversed).1.1 in
    let current = execute-changes host op r registry h e in
    rw (inverse, carried) (apply_changes-current registry (changes_in r) unique current)
