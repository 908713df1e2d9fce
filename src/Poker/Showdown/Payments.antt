-- ===== src/Poker/Showdown/Payments.antt =====
-- What the loop over j at the showdown of src/poker.c pays to a player.
use pokerunicorn_server.Prelude.{
  ℕ, ◌+◌, ◌*◌, ◌<◌, ◌≡◌, List, [], ◌∷◌, arith, inl, inr, leb, Bool-cases, u64_mod, count_if,
}
use pokerunicorn_server.Poker.Types.{Player}
use pokerunicorn_server.Poker.Players.{add_balance, add_balance_lem}
use pokerunicorn_server.Poker.Showdown.{Rank, collect}

-- Where the sum fits a word: from each element behind a player's own whose bet is no less than the
-- player's, the player is paid the own share; from one whose bet is less, nothing.
pub collect-balance :
    (r : Rank) (bet : ℕ) (os : List Rank) (w : Player)
    → w.balance + count_if (λ o. leb bet o.bet) os * r.bet < u64_mod
    → (collect r bet os w).1.balance ≡ w.balance + count_if (λ o. leb bet o.bet) os * r.bet
unfolding collect
collect-balance r bet [] w h = omega arith
collect-balance r bet (o ∷ os) w h = elim (Bool-cases (leb bet o.bet)) [
  | inl b ↦
      let fits : w.balance + (1 + count_if (λ o. leb bet o.bet) os) * r.bet < u64_mod = rw b at h in
      let paid : (add_balance w r.bet).balance ≡ w.balance + r.bet =
        add_balance_lem w r.bet (omega (arith, fits)) in
      let ih = collect-balance r bet os (add_balance w r.bet) (omega (arith, fits, paid)) in
      rw b (omega (arith, ih, paid))
  | inr b ↦
      let fits : w.balance + (0 + count_if (λ o. leb bet o.bet) os) * r.bet < u64_mod = rw b at h in
      let paid : (add_balance w 0).balance ≡ w.balance + 0 =
        add_balance_lem w 0 (omega (arith, fits)) in
      let ih = collect-balance r bet os (add_balance w 0) (omega (arith, fits, paid)) in
      rw b (omega (arith, ih, paid))
]
