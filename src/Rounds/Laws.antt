-- ===== src/Rounds/Laws.antt =====
-- The turns that players start, as transactions are appended to the log and reversed.
use mathlib.Core.List.{append_assoc, append-nil}
use monopoly_bank.Prelude.{
  ◌∙◌, sym, ℕ, ◌≤◌, ◌≡◌, refl, inl, inr, false, ap, Bool-cases, Option, none, some, List, [], ◌∷◌,
  ◌++◌, arith, ◌==◌, Option-cases, length, filter,
}
use monopoly_bank.Types.{reversal, PlayerId, RecordId, Transaction}
use monopoly_bank.Rounds.Defs.{
  transaction_actor, after_anchor, starts_run, runs_from, count_turns, turns_started_since,
}

-- The last run after a stretch of the log that began behind `last`.
last_run : Option PlayerId → List Transaction → Option PlayerId
last_run last [] = last
last_run last (transaction ∷ rest) = elim (transaction_actor transaction) [
  | none ↦ last_run last rest
  | some actor ↦ last_run (some actor) rest
]

starts_run-again :
    (last : Option PlayerId) (actor : PlayerId) → starts_run last actor ≡ false → last ≡ some actor
starts_run-again none actor h = cc
starts_run-again (some last) actor h = ground arith

runs_from-append :
    (last : Option PlayerId) (xs ys : List Transaction)
    → runs_from last (xs ++ ys) ≡ runs_from last xs ++ runs_from (last_run last xs) ys
unfolding runs_from last_run
runs_from-append last [] ys = refl
runs_from-append last (x ∷ xs) ys = elim (Option-cases (transaction_actor x)) [
  | inl silent ↦ rw (silent, runs_from, last_run) (runs_from-append last xs ys)
  | inr (actor, acts) ↦
      let later = runs_from-append (some actor) xs ys in
      elim (Bool-cases (starts_run last actor)) [
        | inl starts ↦ rw (acts, starts, runs_from, last_run) (ap (λ runs. actor ∷ runs) later)
        | inr again ↦
            rw (acts, again, runs_from, last_run) (rw (starts_run-again last actor again) later)
      ]
]

count_of : PlayerId → List PlayerId → ℕ
count_of player_id runs = length (filter (λ actor. actor == player_id) runs)

count_of-append :
    (player_id : PlayerId) (xs ys : List PlayerId)
    → count_of player_id xs ≤ count_of player_id (xs ++ ys)
unfolding count_of
count_of-append player_id [] ys = omega arith
count_of-append player_id (x ∷ xs) ys = ground (arith, count_of-append player_id xs ys)

count_turns-append :
    (player_id : PlayerId) (xs ys : List PlayerId)
    → count_turns player_id xs ≤ count_turns player_id (xs ++ ys)
unfolding count_turns
count_turns-append player_id [] ys = omega arith
count_turns-append player_id (x ∷ xs) ys = unfold count_of in count_of-append player_id xs ys

after_anchor-append :
    (xs ys rest : List Transaction) (anchor : RecordId)
    → after_anchor xs anchor ≡ some rest
    → after_anchor (xs ++ ys) anchor ≡ some (rest ++ ys)
unfolding after_anchor
after_anchor-append [] ys rest anchor h = cc
after_anchor-append (x ∷ xs) ys rest anchor h =
    ground (arith, after_anchor-append xs ys rest anchor)

runs_from-silent :
    (last : Option PlayerId) (xs ys : List Transaction) (x : Transaction)
    → transaction_actor x ≡ none
    → runs_from last (xs ++ x ∷ ys) ≡ runs_from last (xs ++ ys)
unfolding runs_from
runs_from-silent last xs ys x silent =
    rw (runs_from-append last xs (x ∷ ys), runs_from-append last xs ys)
      (rw (runs_from, silent) refl)

-- A row without an actor that is not the anchor does not count.
turns_started_since-silent :
    (before after : List Transaction) (x : Transaction) (anchor : RecordId) (player_id : PlayerId)
    → transaction_actor x ≡ none
    → (x.id == anchor) ≡ false
    → turns_started_since (before ++ x ∷ after) anchor player_id
      ≡ turns_started_since (before ++ after) anchor player_id
unfolding turns_started_since after_anchor
turns_started_since-silent [] after x anchor player_id silent other =
    rw (turns_started_since, other) refl
turns_started_since-silent (y ∷ ys) after x anchor player_id silent other =
    elim (Bool-cases (y.id == anchor)) [
      | inl found ↦ rw (turns_started_since, found, runs_from-silent none ys after x silent) refl
      | inr miss ↦
          rw (turns_started_since, miss)
            (turns_started_since-silent ys after x anchor player_id silent other)
    ]

transaction_actor-reversed :
    (x : Transaction) (by : RecordId)
    → transaction_actor (record x { reversed_by_transaction_id = some by }) ≡ none
unfolding transaction_actor
transaction_actor-reversed x by = refl

transaction_actor-reversal : (x : Transaction) → x.type ≡ reversal → transaction_actor x ≡ none
unfolding transaction_actor
transaction_actor-reversal x h = ground arith

-- A reversal is appended to the log and marks the row that it reverses: from then on every player
-- has started as many turns since an anchor as if neither row had been written, where the anchor is
-- neither of them.
pub turns_started_since-reversed :
    (before after : List Transaction) (original undo : Transaction) (anchor : RecordId)
    (player_id : PlayerId)
    → undo.type ≡ reversal
    → (original.id == anchor) ≡ false
    → (undo.id == anchor) ≡ false
    → turns_started_since
        (before
          ++ record original { reversed_by_transaction_id = some undo.id } ∷ (after ++ undo ∷ []))
        anchor
        player_id
      ≡ turns_started_since (before ++ after) anchor player_id
turns_started_since-reversed before after original undo anchor player_id type other another =
    let marked = record original { reversed_by_transaction_id = some undo.id } in
    let taken =
      turns_started_since-silent before (after ++ undo ∷ []) marked anchor player_id
        (transaction_actor-reversed original undo.id) other in
    let left =
      turns_started_since-silent (before ++ after) [] undo anchor player_id
        (transaction_actor-reversal undo type) another in
    taken
    ∙ (ap (λ log. turns_started_since log anchor player_id)
          (sym (append_assoc before after (undo ∷ [])))
        ∙ (left
            ∙ ap (λ log. turns_started_since log anchor player_id) (append-nil (before ++ after))))

-- While transactions are appended and no row that was in the log before is changed, no player has
-- started fewer turns since an anchor than before. An appended reversal that marks such a row is
-- not covered: it can take turns back.
pub turns_started_since-append :
    (log more : List Transaction) (anchor : RecordId) (player_id : PlayerId)
    → turns_started_since log anchor player_id ≤ turns_started_since (log ++ more) anchor player_id
unfolding turns_started_since
turns_started_since-append log more anchor player_id =
    elim (Option-cases (after_anchor log anchor)) [
      | inl missing ↦ rw (missing, turns_started_since) (omega arith)
      | inr (rest, found) ↦
          rw
            (
              found,
              turns_started_since,
              after_anchor-append log more rest anchor found,
              runs_from-append none rest more,
            )
            (count_turns-append player_id (runs_from none rest)
              (runs_from (last_run none rest) more))
    ]
