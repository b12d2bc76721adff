-- ===== src/Banking/Effects/Table.antt =====
-- What `validateGame` establishes about the game and its players.
use monopoly_bank.Prelude.{◌≤◌, ◌≡◌, ◌≢◌, true, false, List, [], ◌∷◌, arith, length, All, includes}
use monopoly_bank.Prelude.Int.{pos, ◌≤ℤ◌}
use monopoly_bank.Types.{GameId, PlayerId, GameStatus, Game, Player}
use monopoly_bank.Outcome.{ok}
use monopoly_bank.Money.{is_safe_integer}
use monopoly_bank.Banking.Guards.{validate_players, validate_game}

-- No two players have one id.
abbrev IsDistinct : List Player → Type 0
IsDistinct [] = Unit
IsDistinct (p ∷ ps) = All (λ q. p.id ≢ q.id) ps × IsDistinct ps

abbrev pub IsSeated : GameId → Player → Type 0
IsSeated game_id p =
    (p.game_id ≡ game_id) × ((pos 0 ≤ℤ p.balance) × (is_safe_integer p.balance ≡ true))

-- An active game, and two to six distinct players of it with valid balances.
pub record IsTable (game : Game) (players : List Player) : Type 0 where
  pub active : game.status ≡ GameStatus.active
  pub at_least : 2 ≤ length players
  pub at_most : length players ≤ 6
  pub seated : All (IsSeated game.id) players
  pub distinct : IsDistinct players

abbrev IsFresh : List PlayerId → List Player → Type 0
IsFresh seen players = All (λ p. includes p.id seen ≡ false) players

IsFresh-ne :
    (id : PlayerId) (seen : List PlayerId) (players : List Player)
    → IsFresh (id ∷ seen) players
    → All (λ q. id ≢ q.id) players × IsFresh seen players
IsFresh-ne id seen [] h = (tt, tt)
IsFresh-ne id seen (q ∷ qs) (h, hs) =
    let (others, fresh) = IsFresh-ne id seen qs hs in
    (((λ same. ground arith), others), (ground arith, fresh))

validate_players-IsSeated :
    (game_id : GameId) (seen : List PlayerId) (players : List Player)
    → validate_players game_id seen players ≡ ok tt
    → All (IsSeated game_id) players × (IsDistinct players × IsFresh seen players)
unfolding validate_players
validate_players-IsSeated game_id seen [] h = (tt, (tt, tt))
validate_players-IsSeated game_id seen (p ∷ ps) h =
    let later : validate_players game_id (p.id ∷ seen) ps ≡ ok tt = ground arith in
    let (seated, (distinct, fresh)) = validate_players-IsSeated game_id (p.id ∷ seen) ps later in
    let (others, older) = IsFresh-ne p.id seen ps fresh in
    (
      ((ground arith, (ground arith, ground arith)), seated),
      ((others, distinct), (ground arith, older)),
    )

pub validate_game-IsTable :
    (game : Game) (players : List Player)
    → validate_game game players ≡ ok players
    → IsTable game players
unfolding validate_game
validate_game-IsTable game players h =
    let checked : validate_players game.id [] players ≡ ok tt = ground arith in
    let (seated, (distinct, _)) = validate_players-IsSeated game.id [] players checked in
    record {
      active = ground arith;
      at_least = ground arith;
      at_most = ground arith;
      seated = seated;
      distinct = distinct;
    }
