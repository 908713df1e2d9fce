-- ===== src/Poker/Players/Seating.antt =====
-- Who joins, who leaves, and the sorted array of the players, of src/poker.c.
use mathlib.Core.List.{Perm}
use pokerunicorn_server.Prelude.{
  ℕ, ◌+◌, ◌%◌, ◌≤◌, ◌≡◌, ◌≢◌, ◌∙◌, refl, ap, sym, subst, some, List, [], ◌∷◌, ◌++◌, map, arith, ltb,
  All, length, length-append, ==_refl,
}
use pokerunicorn_server.Exchange.{exchange_sort}
use pokerunicorn_server.Exchange.Order.{IsRising, exchange_sort-IsRising, exchange_sort-perm}
use pokerunicorn_server.Poker.Types.{Player, Poker, deref, State, state_lt, state_le}
use pokerunicorn_server.Poker.Players.{
  get_sorted, player_new, players_add, players_addby_account, players_remove, unlink,
}

-- The sorted array holds the addresses of the players, each as often, in the order of their positions.
pub get_sorted_lem :
    (ps : List Player)
    → (qs : List Player) × Perm ps qs
      × IsRising (λ p. p.position) qs
      × (get_sorted ps ≡ map (λ p. p.addr) qs)
unfolding get_sorted
get_sorted_lem ps = (
  exchange_sort (λ x y. ltb x.position y.position) ps,
  exchange_sort-perm (λ x y. ltb x.position y.position) ps,
  exchange_sort-IsRising (λ p. p.position) ps,
  refl,
)

pub unlink_appended :
    (ps : List Player) (p : Player)
    → All (λ q. q.addr ≢ p.addr) ps
    → unlink p.addr (ps ++ (p ∷ [])) ≡ ps
unlink_appended [] p h = rw (==_refl p.addr)
unlink_appended (q ∷ ps) p h = ground (arith, h.0, unlink_appended ps p h.1)

deref_appended :
    (ps : List Player) (p : Player)
    → All (λ q. q.addr ≢ p.addr) ps
    → deref p.addr (ps ++ (p ∷ [])) ≡ some p
deref_appended [] p h = rw (==_refl p.addr)
deref_appended (q ∷ ps) p h = ground (arith, h.0, deref_appended ps p h.1)

-- What a join leaves in the list, in each of its three cases.
pub players_add_players :
    (poker : Poker) (p : Player)
    → length poker.players ≤ poker.table.max_players
    → (q : Player) × (q.addr ≡ p.addr)
      × (q.account ≡ p.account)
      × (q.position ≡ p.position)
      × (q.balance ≡ p.balance)
      × ((players_add poker p).0.players ≡ poker.players ++ (q ∷ []))
unfolding players_add
players_add_players poker p h = (
  record p { is_playing = state_lt poker.state State.small_blind },
  refl,
  refl,
  refl,
  refl,
  ground (arith, h),
)

-- A join at an address where no player stands, of a table with no more players than its limit: the
-- new player is found there, with the account, without chips, and at the position modulo the limit;
-- the list is one longer; and if the player is removed, the list is as it was.
pub join_and_leave :
    (poker : Poker) (addr account position : ℕ)
    → All (λ q. q.addr ≢ addr) poker.players
    → length poker.players ≤ poker.table.max_players
    → let joined = (players_addby_account poker addr account position).0 in
      ((players_addby_account poker addr account position).1 ≡ some addr)
      × ((p : Player) × (deref addr joined.players ≡ some p)
          × (p.account ≡ account)
          × (p.balance ≡ 0)
          × (p.position ≡ position % poker.table.max_players))
      × (length joined.players ≡ length poker.players + 1)
      × ((players_remove joined addr).players ≡ poker.players)
unfolding players_addby_account players_remove player_new
join_and_leave poker addr account position h m =
    let (q, a, b, c, d, e) = players_add_players poker new m in
    let here : (players_addby_account poker addr account position).0.players
        ≡ poker.players ++ (q ∷ []) =
      ground (arith, m, e) in
    let apart : All (λ x. x.addr ≢ q.addr) poker.players =
      subst (λ n. All (λ x. x.addr ≢ n) poker.players) (sym a) h in
    (
      ground (arith, m),
      (
        q,
        ap (λ (l : List Player). deref addr l) here
            ∙ subst (λ n. deref n (poker.players ++ (q ∷ [])) ≡ some q) a
                (deref_appended poker.players q apart),
        b,
        d,
        c,
      ),
      ap (λ (l : List Player). length l) here ∙ length-append poker.players (q ∷ []),
      ap (λ (l : List Player). unlink addr l) here
          ∙ subst (λ n. unlink n (poker.players ++ (q ∷ [])) ≡ poker.players) a
              (unlink_appended poker.players q apart),
    )
  where
    new : Player
    new = record (player_new addr account (position % poker.table.max_players)) {
      is_playing = state_le poker.state State.w4p;
    }

-- A join of a table with no more players than its limit puts one player behind the others, at the
-- address and with the account.
pub players_addby_account_lem :
    (poker : Poker) (addr account position : ℕ)
    → length poker.players ≤ poker.table.max_players
    → let (joined, player) = players_addby_account poker addr account position in
      (player ≡ some addr)
      × ((q : Player) × (q.addr ≡ addr)
          × (q.account ≡ account)
          × (joined.players ≡ poker.players ++ (q ∷ [])))
unfolding players_addby_account player_new
players_addby_account_lem poker addr account position m =
    let (q, a, b, _, _, e) = players_add_players poker new m in
    (ground (arith, m), (q, a, b, ground (arith, m, e)))
  where
    new : Player
    new = record (player_new addr account (position % poker.table.max_players)) {
      is_playing = state_le poker.state State.w4p;
    }

pub players_addby_account-state :
    (poker : Poker) (addr account position : ℕ)
    → (players_addby_account poker addr account position).0.state ≡ poker.state
unfolding players_addby_account players_add
players_addby_account-state poker addr account position = ground arith
