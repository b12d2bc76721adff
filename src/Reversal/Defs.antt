-- ===== src/Reversal/Defs.antt =====
-- shared/domain/participants.ts and reversal.ts: which transactions can be undone, by whom, and
-- what later transaction stands in the way.
use monopoly_bank.Prelude.{
  ℕ, ◌+◌, Bool, true, false, not, ◌&&◌, ◌||◌, Option, none, some, List, [], ◌∷◌, map, leb, ◌==◌,
  if◌then◌else◌, find, filter, any, includes,
}
use monopoly_bank.Prelude.Int.{pos, ltb_ℤ}
use monopoly_bank.Types.{
  TileId, PlayerId, TransactionType, player_to_player, player_to_bank, bank_to_player,
  player_to_all, all_to_player, pay_rent, pass_go, bankruptcy_transfer, reversal,
  mortgage_redemption, loan_issue, loan_repayment, to_jackpot, jackpot_payout, auction_payment,
  property_purchase, property_build, property_sell_building, property_transfer, type_index,
  includes_type, TransactionParticipant, Transaction,
}

pub data ParticipantSide : Type 0 where
  debit credit : ParticipantSide

abbrev is_on_side : ParticipantSide → TransactionParticipant → Bool
is_on_side debit participant = ltb_ℤ participant.balance_delta (pos 0)
is_on_side credit participant = ltb_ℤ (pos 0) participant.balance_delta

-- `matching.length === 1 ? matching[0].playerId : null`
abbrev pub sole : List TransactionParticipant → Option PlayerId
sole [] = none
sole (participant ∷ []) = some participant.player_id
sole (participant ∷ another ∷ rest) = none

pub sole_participant : List TransactionParticipant → ParticipantSide → Option PlayerId
sole_participant participants side = sole (filter (is_on_side side) participants)

-- 15 minutes, in milliseconds
abbrev reversal_window_ms : ℕ
reversal_window_ms = 900000

abbrev non_reversible_types : List TransactionType
non_reversible_types =
    reversal ∷ bankruptcy_transfer ∷ loan_issue ∷ loan_repayment ∷ to_jackpot ∷ jackpot_payout ∷ []

unfoldable is_reversible_type : TransactionType → Bool
is_reversible_type type = not (includes_type type non_reversible_types)

abbrev pub is_set {ℓ} : {A : Type ℓ} → Option A → Bool
is_set none = false
is_set (some _) = true

unfoldable pub reversible_transaction : Transaction → Bool
unfolding is_reversible_type
reversible_transaction transaction =
    if includes_type transaction.type (TransactionType.mortgage ∷ mortgage_redemption ∷ [])
    then is_set transaction.tile_id
    else is_reversible_type transaction.type

-- `REVERSAL_INITIATOR_SIDE`
abbrev reversal_initiator_side : TransactionType → Option ParticipantSide
reversal_initiator_side player_to_player = some debit
reversal_initiator_side pay_rent = some debit
reversal_initiator_side player_to_bank = some debit
reversal_initiator_side mortgage_redemption = some debit
reversal_initiator_side property_build = some debit
reversal_initiator_side auction_payment = some debit
reversal_initiator_side property_purchase = some debit
reversal_initiator_side player_to_all = some debit
reversal_initiator_side bank_to_player = some credit
reversal_initiator_side pass_go = some credit
reversal_initiator_side TransactionType.mortgage = some credit
reversal_initiator_side property_sell_building = some credit
reversal_initiator_side all_to_player = some credit
reversal_initiator_side _ = none

pub reversal_initiator_player_id : Transaction → Option PlayerId
unfolding sole_participant
reversal_initiator_player_id transaction =
    if type_index transaction.type == type_index property_transfer
    then transaction.initiator_player_id
    else elim (reversal_initiator_side transaction.type) [
      | none ↦ none
      | some side ↦ sole_participant transaction.participants side
    ]

-- `isWithinReversalWindow`, where the parsed creation time is none if it is not finite. A creation
-- time in the future is within the window.
unfoldable pub is_within_reversal_window : Option ℕ → ℕ → Bool
is_within_reversal_window none now = false
is_within_reversal_window (some created) now = leb now (created + reversal_window_ms)

abbrev pub dependent_types : List TransactionType
dependent_types =
    TransactionType.mortgage ∷ mortgage_redemption ∷ loan_issue ∷ loan_repayment ∷ auction_payment
    ∷ to_jackpot ∷ jackpot_payout ∷ bankruptcy_transfer ∷ []

abbrev pub registry_types : List TransactionType
registry_types =
    property_purchase ∷ TransactionType.mortgage ∷ mortgage_redemption ∷ auction_payment ∷ pay_rent
    ∷ property_build ∷ property_sell_building ∷ property_transfer ∷ []

abbrev building_types : List TransactionType
building_types = property_build ∷ property_sell_building ∷ []

abbrev pub group_blockers : TransactionType → List TransactionType
group_blockers property_purchase = pay_rent ∷ building_types
group_blockers auction_payment = pay_rent ∷ building_types
group_blockers property_build =
    pay_rent ∷ property_build ∷ property_sell_building ∷ TransactionType.mortgage ∷ []
group_blockers property_sell_building =
    pay_rent ∷ property_build ∷ property_sell_building ∷ TransactionType.mortgage ∷ []
group_blockers mortgage_redemption = building_types
group_blockers property_transfer = pay_rent ∷ building_types
group_blockers _ = []

unfoldable pub tiles_of : Transaction → List TileId
tiles_of item = elim item.tile_ids [
  | some tile_ids ↦ tile_ids
  | none ↦ elim item.tile_id [ none ↦ [] | some tile_id ↦ tile_id ∷ [] ]
]

-- Whether two sets of ids meet.
abbrev pub meets : List ℕ → List ℕ → Bool
meets xs ys = any (λ x. includes x ys) xs

-- The test that `findReversalDependency` makes of each later transaction.
unfoldable pub blocks : Transaction → List TileId → Transaction → Bool
blocks original group_tiles candidate =
    not (candidate.id == original.id)
    && (not (is_set candidate.reversed_by_transaction_id)
        && (includes_type candidate.type dependent_types
              && meets (map (λ p. p.player_id) candidate.participants)
                  (map (λ p. p.player_id) original.participants)
            || (includes_type candidate.type registry_types
                  && meets (tiles_of candidate) (tiles_of original)
                || meets (tiles_of candidate) group_tiles
                  && includes_type candidate.type (group_blockers original.type))))

unfoldable pub find_reversal_dependency :
    Transaction → List Transaction → List TileId → Option Transaction
find_reversal_dependency original later group_tiles = find (blocks original group_tiles) later

pub data ReversalAvailability : Type 0 where
  allowed hidden window_expired : ReversalAvailability
  later_operation : Transaction → ReversalAvailability

-- `created` is the parsed `createdAt` of the transaction.
unfoldable pub reversal_availability :
    Transaction
    → Bool
    → List PlayerId
    → Option ℕ
    → ℕ
    → List Transaction
    → List TileId
    → ReversalAvailability
unfolding reversible_transaction reversal_initiator_player_id
reversal_availability transaction is_owner controlled created now later group_tiles =
    let initiator = reversal_initiator_player_id transaction in
    let is_actor : Bool = elim initiator [
      | none ↦ false
      | some player ↦ includes player controlled
    ] in
    if not (reversible_transaction transaction) || is_set transaction.reversed_by_transaction_id
    then hidden
    else if not is_owner && not is_actor
    then hidden
    else if not is_owner && not (is_within_reversal_window created now)
    then window_expired
    else elim (find_reversal_dependency transaction later group_tiles) [
      | none ↦ allowed
      | some dependency ↦ later_operation dependency
    ]
