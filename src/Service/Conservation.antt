-- ===== src/Service/Conservation.antt =====
-- Money is kept from the operation to the database: the wallets of a game move by what the
-- operation recorded, on whatever database the write finds.
use monopoly_bank.Prelude.{ℕ, ◌≡◌, refl, sym, ap, ◌∙◌, Option, List, [], ◌∷◌, map, all, All}
use monopoly_bank.Prelude.Int.{ℤ, ◌+ℤ◌, ◌-ℤ◌, int_laws, sum}
use monopoly_bank.Types.{Game, Player, RecordId}
use monopoly_bank.Outcome.{ok, >>=-eq-ok, ok-injective}
use monopoly_bank.Money.{TextHost}
use monopoly_bank.Banking.Pending.{PlayerBalanceChange, BankingOperationResult}
use monopoly_bank.Banking.Deltas.{participant_of}
use monopoly_bank.Banking.Dispatch.{Operation, execute, players_of, game_of}
use monopoly_bank.Banking.Effects.Changes.{IsChange}
use monopoly_bank.Banking.Effects.Table.{IsTable}
use monopoly_bank.Banking.Effects.Flow.{net_of, net}
use monopoly_bank.Banking.Effects.Lawful.{execute-IsLawful}
use monopoly_bank.Banking.Effects.Returns.{found-IsSeated}
use monopoly_bank.Store.{Store, bankrupt_status_statements, persist}
use monopoly_bank.Store.Wallets.{
  AreWritten, wallets, moved_by, NamesEach, guarded_balance_update-wallets,
}
use monopoly_bank.Store.Written.{persist-IsPersisted}
use monopoly_bank.Service.Commit.{persist_input, require_stored, write_operation}
use monopoly_bank.Service.Offers.{CommandResponse}

gain : (a d : ℤ) → a +ℤ d -ℤ a ≡ d
gain a d = omega int_laws

moved_by-IsChange :
    (players : List Player) (change : PlayerBalanceChange)
    → IsChange players change
    → moved_by change ≡ change.balance_delta
moved_by-IsChange players change is =
    rw (is.after, is.before) (gain change.player.balance change.balance_delta)

sum-moved_by :
    (players : List Player) (changes : List PlayerBalanceChange)
    → All (IsChange players) changes
    → sum (map moved_by changes) ≡ net_of (map participant_of changes)
unfolding sum net_of
sum-moved_by players [] all = refl
sum-moved_by players (c ∷ cs) (here, later) =
    rw (moved_by-IsChange players c here, sum-moved_by players cs later) refl

All-seated :
    (game : Game) (players : List Player) (changes : List PlayerBalanceChange)
    → IsTable game players
    → All (IsChange players) changes
    → All (λ c. c.player.game_id ≡ game.id) changes
All-seated game players [] table all = tt
All-seated game players (c ∷ cs) table (here, later) = (
  (found-IsSeated game.id players c.player.id c.player table.seated here.known).0,
  All-seated game players cs table later,
)

-- An operation that returned for what was read, and whose write goes through on the database as it
-- is by then: every player it names still had the balance that was read and has the one that was
-- worked out, every other row is as it was, and the wallets of the game have moved by what the
-- transaction records. Each named player has one row.
pub write_operation-wallets :
    (host : TextHost) (now : ℕ) (id : RecordId) (trade : Option RecordId) (op : Operation)
    (r : BankingOperationResult) (store written : Store) (response : CommandResponse)
    → execute host op ≡ ok r
    → write_operation host now id trade (game_of op).id r store ≡ ok (written, response)
    → NamesEach (game_of op).id r.affected_players store.players
    → (AreWritten (game_of op).id r.affected_players store.players written.players)
      × (wallets (game_of op).id written.players ≡ wallets (game_of op).id store.players +ℤ net r)
unfolding write_operation bankrupt_status_statements
write_operation-wallets host now id trade op r store written response ran wrote each =
    let lawful = execute-IsLawful host op r ran in
    let (stored, persisted, h) =
      >>=-eq-ok (persist host now (persist_input id trade r) store) _ wrote in
    let parts = persist-IsPersisted host now (persist_input id trade r) store stored persisted in
    let (row, found, h2) = >>=-eq-ok (require_stored stored (game_of op).id id) _ h in
    let same : stored ≡ written = ap (λ (p : Store × CommandResponse). p.0) (ok-injective h2) in
    let seated =
      All-seated (game_of op) (players_of op) r.affected_players lawful.table lawful.changes in
    let (all, total) =
      guarded_balance_update-wallets (game_of op).id r.affected_players store.players parts.balances
        parts.updated seated each in
    let kept : parts.balances ≡ written.players =
      sym parts.players ∙ ap (λ (s : Store). s.players) same in
    let paid : sum (map moved_by r.affected_players) ≡ net r =
      sum-moved_by (players_of op) r.affected_players lawful.changes
      ∙ ap net_of (sym lawful.recorded) in
    rw (← kept) (all, rw (← paid) total)
