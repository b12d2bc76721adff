-- ===== src/Reversal/Laws.antt =====
-- When a transaction can be reversed: the dependency that stands in its way, and the offer to the
-- players.
use mathlib.Core.Path.{subst}
use monopoly_bank.Prelude.{
  ap, ◌∙◌, ◌++◌, ◌&&◌, ◌||◌, ℕ, ◌≡◌, refl, ◌↔◌, ◌⊎◌, inl, inr, Bool, true, false, Option, none,
  some, List, [], ◌∷◌, arith, Bool-cases, find, All, includes, map, any, ◌==◌, sym,
}
use monopoly_bank.Types.{
  player_to_player, player_to_bank, bank_to_player, player_to_all, all_to_player, pass_go, reversal,
  includes_type, TileId, PlayerId, Transaction, TransactionType, mortgage_redemption, loan_issue,
  loan_repayment, auction_payment, to_jackpot, jackpot_payout, bankruptcy_transfer,
  property_purchase, pay_rent, property_build, property_sell_building, property_transfer,
}
use monopoly_bank.Reversal.Defs.{
  reversible_transaction, reversal_initiator_player_id, is_within_reversal_window, group_blockers,
  tiles_of, blocks, find_reversal_dependency, allowed, reversal_availability,
}

-- What `find` returns is the first element that passes: none before it does.
find-first :
    (p : Transaction → Bool) (xs : List Transaction) (x : Transaction)
    → find p xs ≡ some x
    → (p x ≡ true)
      × ((before : List Transaction) × ((after : List Transaction) × ((xs ≡ before ++ x ∷ after)
              × All (λ y. p y ≡ false) before)))
find-first p [] x h = cc
find-first p (y ∷ ys) x h = elim (Bool-cases (p y)) [
  | inl hit ↦
      let same : y ≡ x = ground arith in
      (subst (λ z. p z ≡ true) same hit, ([], (ys, (ap (λ z. z ∷ ys) same, tt))))
  | inr miss ↦
      let (passes, (before, (after, (split, free)))) = find-first p ys x (ground arith) in
      (passes, (y ∷ before, (after, (ap (λ zs. y ∷ zs) split, (miss, free)))))
]

find-none :
    (p : Transaction → Bool) (xs : List Transaction) → find p xs ≡ none → All (λ x. p x ≡ false) xs
find-none p [] h = tt
find-none p (y ∷ ys) h = elim (Bool-cases (p y)) [
  | inl hit ↦ absurd (ground arith)
  | inr miss ↦ (miss, find-none p ys (ground arith))
]

none-find :
    (p : Transaction → Bool) (xs : List Transaction) → All (λ x. p x ≡ false) xs → find p xs ≡ none
none-find p [] h = refl
none-find p (y ∷ ys) (h, hs) = rw h (none-find p ys hs)

-- Two lists of ids have one in common.
abbrev pub Shares : List ℕ → List ℕ → Type 0
Shares xs ys = (n : ℕ) × ((includes n xs ≡ true) × (includes n ys ≡ true))

eq-true : (a b : ℕ) → (a == b) ≡ true → a ≡ b
eq-true a b h = ground arith

any-hit : (xs ys : List ℕ) → any (λ x. includes x ys) xs ≡ true → Shares xs ys
any-hit [] ys h = cc
any-hit (x ∷ xs) ys h = elim (Bool-cases (includes x ys)) [
  | inl here ↦ (x, (ground arith, here))
  | inr miss ↦
      let (n, (own, other)) = any-hit xs ys (ground arith) in (n, (ground (arith, own), other))
]

hit-any :
    (xs ys : List ℕ) (n : ℕ)
    → includes n xs ≡ true
    → includes n ys ≡ true
    → any (λ x. includes x ys) xs ≡ true
hit-any [] ys n h k = cc
hit-any (x ∷ xs) ys n h k = elim (Bool-cases (x == n)) [
  | inl same ↦
      let found = subst (λ m. includes m ys ≡ true) (sym (eq-true x n same)) k in rw found refl
  | inr other ↦ let rest = hit-any xs ys n (ground arith) k in ground (arith, rest)
]

-- Later types that stand on what an original did to its colour group: a purchase, an auction or a
-- trade can complete the group, which changes its rents and lets it be built on; buildings change
-- the rents of the group and what may be mortgaged; a redemption lets the group be built on.
abbrev disturbs : TransactionType → TransactionType → Bool
disturbs original later =
    includes_type original (property_purchase ∷ auction_payment ∷ property_transfer ∷ [])
      && includes_type later (pay_rent ∷ property_build ∷ property_sell_building ∷ [])
    || (includes_type original (property_build ∷ property_sell_building ∷ [])
          && includes_type later
              (pay_rent ∷ property_build ∷ property_sell_building ∷ TransactionType.mortgage ∷ [])
        || includes_type original (mortgage_redemption ∷ [])
          && includes_type later (property_build ∷ property_sell_building ∷ []))

group_blockers-disturbs :
    (original later : TransactionType)
    → includes_type later (group_blockers original) ≡ disturbs original later
group_blockers-disturbs player_to_player later = refl
group_blockers-disturbs player_to_bank later = refl
group_blockers-disturbs bank_to_player later = refl
group_blockers-disturbs player_to_all later = refl
group_blockers-disturbs all_to_player later = refl
group_blockers-disturbs pay_rent later = refl
group_blockers-disturbs pass_go later = refl
group_blockers-disturbs bankruptcy_transfer later = refl
group_blockers-disturbs reversal later = refl
group_blockers-disturbs TransactionType.mortgage later = refl
group_blockers-disturbs mortgage_redemption later = ground arith
group_blockers-disturbs loan_issue later = refl
group_blockers-disturbs loan_repayment later = refl
group_blockers-disturbs to_jackpot later = refl
group_blockers-disturbs jackpot_payout later = refl
group_blockers-disturbs auction_payment later = ground arith
group_blockers-disturbs property_purchase later = ground arith
group_blockers-disturbs property_build later = ground arith
group_blockers-disturbs property_sell_building later = ground arith
group_blockers-disturbs property_transfer later = ground arith

-- A later transaction that depends on the original: it is another one, it was not reversed itself,
-- and it either builds on the wallet of one of its players, or changes or charges one of its tiles,
-- or stands on a tile of the colour group whose rent or buildings the original changed.
abbrev pub DependsOn : Transaction → List TileId → Transaction → Type 0
DependsOn original group_tiles later =
    ((later.id == original.id) ≡ false)
    × ((later.reversed_by_transaction_id ≡ none)
        × (((includes_type later.type (
                  TransactionType.mortgage ∷ mortgage_redemption ∷ loan_issue ∷ loan_repayment
                  ∷ auction_payment ∷ to_jackpot ∷ jackpot_payout ∷ bankruptcy_transfer ∷ [])
                ≡ true)
              × Shares (map (λ p. p.player_id) later.participants)
                  (map (λ p. p.player_id) original.participants))
            ⊎ (((includes_type later.type (
                      property_purchase ∷ TransactionType.mortgage ∷ mortgage_redemption
                      ∷ auction_payment ∷ pay_rent ∷ property_build ∷ property_sell_building
                      ∷ property_transfer ∷ [])
                    ≡ true)
                  × Shares (tiles_of later) (tiles_of original))
                ⊎ (Shares (tiles_of later) group_tiles
                    × (disturbs original.type later.type ≡ true)))))

blocks-DependsOn :
    (original : Transaction) (group_tiles : List TileId) (later : Transaction)
    → blocks original group_tiles later ≡ true
    → DependsOn original group_tiles later
unfolding blocks
blocks-DependsOn original group_tiles later h =
    let players =
      any-hit (map (λ p. p.player_id) later.participants)
        (map (λ p. p.player_id) original.participants) in
    let tiles = any-hit (tiles_of later) (tiles_of original) in
    let group = any-hit (tiles_of later) group_tiles in ground (arith, players, tiles, group)

DependsOn-blocks :
    (original : Transaction) (group_tiles : List TileId) (later : Transaction)
    → DependsOn original group_tiles later
    → blocks original group_tiles later ≡ true
unfolding blocks
DependsOn-blocks original group_tiles later (other, (kept, inl (type, (n, (a, b))))) =
    let hit = hit-any _ _ n a b in rw (other, kept, type, hit) refl
DependsOn-blocks original group_tiles later (other, (kept, inr (inl (type, (n, (a, b)))))) =
    let hit = hit-any _ _ n a b in ground (arith, hit)
DependsOn-blocks original group_tiles later (other, (kept, inr (inr ((n, (a, b)), type)))) =
    let hit = hit-any _ _ n a b in
    let stands = group_blockers-disturbs original.type later.type ∙ type in
    ground (arith, hit, stands)

none-DependsOn :
    (original : Transaction) (group_tiles : List TileId) (later : List Transaction)
    → All (λ x. blocks original group_tiles x ≡ false) later
    → All (λ x. ¬ DependsOn original group_tiles x) later
none-DependsOn original group_tiles [] h = tt
none-DependsOn original group_tiles (x ∷ xs) (h, hs) = (
  λ d. let hit = DependsOn-blocks original group_tiles x d in absurd (ground arith),
  none-DependsOn original group_tiles xs hs,
)

free-blocks :
    (original : Transaction) (group_tiles : List TileId) (later : List Transaction)
    → All (λ x. ¬ DependsOn original group_tiles x) later
    → All (λ x. blocks original group_tiles x ≡ false) later
free-blocks original group_tiles [] h = tt
free-blocks original group_tiles (x ∷ xs) (h, hs) = (
  elim (Bool-cases (blocks original group_tiles x)) [
    | inl hit ↦ absurd (h (blocks-DependsOn original group_tiles x hit))
    | inr free ↦ free
  ],
  free-blocks original group_tiles xs hs,
)

-- Nothing stands in the way of a reversal exactly when none of the later transactions depends on
-- the original; and the one that is named is the first of them that does.
pub find_reversal_dependency_iff :
    (original : Transaction) (later : List Transaction) (group_tiles : List TileId)
    → ((find_reversal_dependency original later group_tiles ≡ none)
        ↔ All (λ x. ¬ DependsOn original group_tiles x) later)
      × ((x : Transaction)
          → find_reversal_dependency original later group_tiles ≡ some x
          → DependsOn original group_tiles x
            × ((before : List Transaction) × ((after : List Transaction) × ((later
                      ≡ before ++ x ∷ after)
                    × All (λ y. ¬ DependsOn original group_tiles y) before))))
unfolding find_reversal_dependency
find_reversal_dependency_iff original later group_tiles =
    let p = blocks original group_tiles in
    (
      (
        λ h. none-DependsOn original group_tiles later (find-none p later h),
        λ h. none-find p later (free-blocks original group_tiles later h),
      ),
      λ x h.
          let (hit, (before, (after, (split, free)))) = find-first p later x h in
          (
            blocks-DependsOn original group_tiles x hit,
            (before, (after, (split, none-DependsOn original group_tiles before free))),
          ),
    )

-- A reversal is offered exactly when the type can be reversed, nothing has reversed it, no later
-- transaction blocks it, and who asks is the owner, or controls the player who began it and asks
-- within the window.
pub reversal_availability_iff :
    (transaction : Transaction) (is_owner : Bool) (controlled : List PlayerId) (created : Option ℕ)
    (now : ℕ) (later : List Transaction) (group_tiles : List TileId)
    → (reversal_availability transaction is_owner controlled created now later group_tiles
        ≡ allowed)
      ↔ ((reversible_transaction transaction ≡ true)
          × ((transaction.reversed_by_transaction_id ≡ none)
              × ((find_reversal_dependency transaction later group_tiles ≡ none)
                  × ((is_owner ≡ true)
                      ⊎ ((player : PlayerId) × ((reversal_initiator_player_id transaction
                              ≡ some player)
                            × ((includes player controlled ≡ true)
                                × (is_within_reversal_window created now ≡ true))))))))
unfolding reversal_availability
reversal_availability_iff transaction is_owner controlled created now later group_tiles =
    ground arith
