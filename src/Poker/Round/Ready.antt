-- ===== src/Poker/Round/Ready.antt =====
-- What `pkrsrv_poker_restart` of src/poker.c leaves for the next round.
use pokerunicorn_server.Prelude.{◌≡◌, ◌≢◌, refl, true, List, [], ◌∷◌, map, All, All-map, arith}
use pokerunicorn_server.Poker.Types.{Player, Poker}
use pokerunicorn_server.Poker.Players.{player_is_playing}
use pokerunicorn_server.Poker.Round.Restart.{player_reset, reset}
use pokerunicorn_server.Poker.Store.{AreApart, chips}

chips-reset : (ps : List Player) → chips (map player_reset ps) ≡ chips ps
chips-reset [] = refl
chips-reset (p ∷ ps) = omega (arith, chips-reset ps)

ready :
    (ps : List Player) → All (λ p. (player_is_playing p ≡ true) × (p.bet ≡ 0)) (map player_reset ps)
ready [] = tt
ready (p ∷ ps) = ((refl, refl), ready ps)

AreApart-reset : (ps : List Player) → AreApart ps → AreApart (map player_reset ps)
AreApart-reset [] h = tt
AreApart-reset (p ∷ ps) h =
    (All-map player_reset (λ q. q.addr ≢ p.addr) ps h.0, AreApart-reset ps h.1)

-- Before the next start, whatever the round before has left: if the players stood apart they do, they
-- hold the chips they held, the pot is empty, and every one of them can act and has bet nothing.
pub reset_lem :
    (poker : Poker)
    → AreApart poker.players
    → AreApart (reset poker).players
      × (chips (reset poker).players ≡ chips poker.players)
      × ((reset poker).pot_amount ≡ 0)
      × All (λ p. (player_is_playing p ≡ true) × (p.bet ≡ 0)) (reset poker).players
unfolding reset
reset_lem poker h =
    (AreApart-reset poker.players h, chips-reset poker.players, refl, ready poker.players)
