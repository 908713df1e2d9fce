-- ===== src/Poker/Showdown/Winner.antt =====
-- Who wins a showdown of src/poker.c.
use mathlib.Core.List.{Mem, mem-cons_self, mem-cons_of_mem}
use mathlib.Core.List.Perm
use pokerunicorn_server.Prelude.{
  ℕ, ◌≤◌, ◌≡◌, subst, true, some, List, [], ◌∷◌, arith, inl, inr, ltb, All, All-mono, Bool-cases,
  length,
}
use pokerunicorn_server.Prelude.Result.{ok, >>=-eq-ok, ok_injective}
use pokerunicorn_server.Exchange.Order.{IsFalling, exchange_sort-IsFalling, exchange_sort-perm}
use pokerunicorn_server.Exchange.Members.{exchange_sort-All, Mem-bound}
use pokerunicorn_server.Poker.Types.{Player, Poker}
use pokerunicorn_server.Poker.Turn.{follow, follow_lem}
use pokerunicorn_server.Poker.Showdown.{
  Rank, contends, rank_player, rank_of_player, rank_players, sort_ranks, settle, scores_size,
  first_player, showdown, seven_slots, all_cards,
}

-- The player contends, and has the rank.
abbrev pub IsRanked : Poker → Player → Rank → Type 0
IsRanked poker p r = (contends p ≡ true) × (rank_player poker p ≡ ok r)

rank_of_player_lem :
    (poker : Poker) (p : Player) (r : Rank) → rank_of_player poker p ≡ ok r → IsRanked poker p r
unfolding rank_of_player
rank_of_player_lem poker p r h = elim (Bool-cases (contends p)) [
  | inl b ↦ (b, rw b at h)
  | inr b ↦ absurd (cc (rw b at h))
]

-- A player's rank carries the player's address.
rank_player_addr :
    (poker : Poker) (p : Player) (r : Rank) → rank_player poker p ≡ ok r → r.player ≡ p.addr
unfolding rank_player
rank_player_addr poker p r h =
    let (cs, _, e) = >>=-eq-ok (all_cards (seven_slots poker p)) _ h in ground (arith, e)

-- Each element of the array is the rank of a player, and each player has an element.
rank_players_lem :
    (poker : Poker) (ps : List Player) (rs : List Rank)
    → rank_players poker ps ≡ ok rs
    → All (λ r. (p : Player) × Mem p ps × IsRanked poker p r) rs
      × All (λ p. (r : Rank) × Mem r rs × IsRanked poker p r) ps
unfolding rank_players
rank_players_lem poker [] rs h =
    subst
      (λ l.
        All (λ r. (p : Player) × Mem p [] × IsRanked poker p r) l
        × All (λ p. (r : Rank) × Mem r l × IsRanked poker p r) [])
      (ok_injective h) (tt, tt)
rank_players_lem poker (p ∷ ps) rs h =
    let (r, a, h1) = >>=-eq-ok (rank_of_player poker p) _ h in
    let (ss, b, h2) = >>=-eq-ok (rank_players poker ps) _ h1 in
    let here = rank_of_player_lem poker p r a in
    let (x, y) = rank_players_lem poker ps ss b in
    subst
      (λ l.
        All (λ s. (q : Player) × Mem q (p ∷ ps) × IsRanked poker q s) l
        × All (λ q. (s : Rank) × Mem s l × IsRanked poker q s) (p ∷ ps))
      (ok_injective h2)
      (
        ((p, mem-cons_self, here), All-mono _ _ ss (λ s (q, m, e). (q, mem-cons_of_mem p m, e)) x),
        ((r, mem-cons_self, here), All-mono _ _ ps (λ q (s, m, e). (s, mem-cons_of_mem r m, e)) y),
      )

-- The first element of a list that falls has the highest rank.
first_lem :
    (P : Rank → Type 0) (l : List Rank) (n : ℕ)
    → first_player l ≡ some n
    → All P l
    → IsFalling (λ s. s.rank) l
    → (r : Rank) × P r × (r.player ≡ n) × All (λ s. s.rank ≤ r.rank) l
first_lem P [] n e h k = absurd (cc e)
first_lem P (r ∷ l) n e h k = (r, h.0, ground (arith, e), (omega arith, k.0))

-- A showdown that returns has ranked every player of the table, each of whom contends, and its
-- winner is one of the players, with a rank that no player's passes.
pub showdown_winner :
    (poker q : Poker)
    → showdown poker ≡ ok q
    → (w : Player) × (r : Rank) × Mem w poker.players
      × IsRanked poker w r
      × (q.winner ≡ some w.addr)
      × All (λ p. (s : Rank) × IsRanked poker p s × (s.rank ≤ r.rank)) poker.players
unfolding showdown
showdown_winner poker q h =
    let (ranks, a, h1) = >>=-eq-ok (rank_players poker poker.players) _ h in
    let (paid, _, h2) =
      >>=-eq-ok
        (settle scores_size (length poker.players) poker.current_bet poker.pot_amount
          (sort_ranks ranks) poker.players)
        _ h1 in
    let (n, b, h3) = >>=-eq-ok (follow (first_player (sort_ranks ranks))) _ h2 in
    let (x, y) = rank_players_lem poker poker.players ranks a in
    let sorted = sort_ranks ranks in
    let (r, (p, m, e), c, top) =
      first_lem (λ r. (p : Player) × Mem p poker.players × IsRanked poker p r) sorted n
        (follow_lem (first_player sorted) b)
        (unfold sort_ranks in exchange_sort-All _ (λ x y. ltb y.rank x.rank) ranks x)
        (unfold sort_ranks in exchange_sort-IsFalling (λ s. s.rank) ranks) in
    let own = rank_player_addr poker p r e.1 in
    (
      p,
      r,
      m,
      e,
      ground (arith, h3, own, c),
      All-mono _ _ poker.players
          (λ o (s, k, z). (
            s,
            z,
            Mem-bound (λ s. s.rank) r.rank s sorted top
                (unfold sort_ranks in
                  (Perm.mem_iff (exchange_sort-perm (λ x y. ltb y.rank x.rank) ranks)).0 k),
          ))
          y,
    )
