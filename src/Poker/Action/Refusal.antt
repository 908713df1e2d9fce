-- ===== src/Poker/Action/Refusal.antt =====
-- The calls of `pkrsrv_poker_do_action` of src/poker.c whose result is not `is_done`.
use pokerunicorn_server.Prelude.{ℕ, ◌≡◌, ◌∙◌, sym, subst, true, false, List, arith, ◌⊎◌, inl, inr}
use pokerunicorn_server.Prelude.Result.{ok, ◌>>=◌, >>=-eq-ok}
use pokerunicorn_server.Card.Draw.{Draw}
use pokerunicorn_server.Poker.Types.{
  State, ActionKind, HandKind, Action, Player, Poker, deref, state_eq,
}
use pokerunicorn_server.Poker.Betting.{goes, refused, big_blind_stage, small_blind_stage, bet_stage}
use pokerunicorn_server.Poker.Turn.{follow}
use pokerunicorn_server.Poker.Action.{do_action, bets, Outcome, refuse}
use pokerunicorn_server.Poker.Action.Cases.{
  Stage-cases, settled-ne-refused, Went, barred, declined, acted, do_action-Went, IsBet,
  small_blind_refused, small_blind_goes, big_blind_refused, big_blind_goes, bet_stage_refused,
}

not_bet : (k : ActionKind) → IsBet k → (k ≡ ActionKind.small_blind) ⊎ (k ≡ ActionKind.big_blind) → ⊥
not_bet ActionKind.raise h (inl e) = cc e
not_bet ActionKind.raise h (inr e) = cc e
not_bet ActionKind.check h (inl e) = cc e
not_bet ActionKind.check h (inr e) = cc e
not_bet _ h e = absurd h

-- The big blind and what follows, on the machine that the small blind's part has left.
big_blind_refusal :
    (hand : HandKind) (poker r q : Poker) (addr : ℕ) (p : Player) (action : Action)
    → (poker ≡ r)
      ⊎ ((action.kind ≡ ActionKind.small_blind) × (state_eq r.state State.small_blind ≡ true))
    → (elim (big_blind_stage hand r p action) [
      | refused t ↦ ok (refused t)
      | goes t ↦ follow (deref addr t.players) >>= λ p2. bet_stage hand t p2 action
    ])
      ≡ ok (refused q)
    → q ≡ poker
big_blind_refusal hand poker r q addr p action from s =
    elim (Stage-cases (big_blind_stage hand r p action)) [
      | inl (t, z) ↦
          let (same, big) = big_blind_refused hand r t p action z in
          let last : t ≡ q = ground (arith, s, z) in
          elim from [
            | inl e ↦ sym last ∙ same ∙ sym e
            | inr (_, small) ↦ absurd (ground (arith, big, small))
          ]
      | inr (t, z) ↦
          let (p2, w, u) = >>=-eq-ok (follow (deref addr t.players)) _ (rw z at s) in
          let (same, bet) = bet_stage_refused hand t q p2 action u in
          elim (big_blind_goes hand r t p action z) [
            | inr k ↦ absurd (not_bet action.kind bet (inr k))
            | inl d ↦ elim from [
              | inl e ↦ same ∙ sym d ∙ sym e
              | inr (k, _) ↦ absurd (not_bet action.kind bet (inl k))
            ]
          ]
    ]

pub bets_refused :
    (hand : HandKind) (poker q : Poker) (addr : ℕ) (action : Action)
    → bets hand poker addr action ≡ ok (refused q)
    → q ≡ poker
unfolding bets
bets_refused hand poker q addr action s =
    let (p, w, t) = >>=-eq-ok (follow (deref addr poker.players)) _ s in
    elim (Stage-cases (small_blind_stage poker p action)) [
      | inl (r, z) ↦
          let last : r ≡ q = ground (arith, t, z) in
          sym last ∙ small_blind_refused poker r p action z
      | inr (r, z) ↦
          let (p1, w1, t1) = >>=-eq-ok (follow (deref addr r.players)) _ (rw z at t) in
          big_blind_refusal hand poker r q addr p1 action (small_blind_goes poker r p action z) t1
    ]

-- A call that returns with `is_done` false leaves the machine as it was, uses no value of rand(), and
-- puts no task on the event loop.
pub do_action_refusal :
    (now : ℕ) (draws : List Draw) (poker : Poker) (addr : ℕ) (action : Action) (o : Outcome)
    → do_action now draws poker addr action ≡ ok o
    → o.is_done ≡ false
    → o ≡ refuse poker draws
do_action_refusal now draws poker addr action o s e =
    by_cases (do_action-Went now draws poker addr action o s)
  where
    by_cases : Went now draws poker addr action o → o ≡ refuse poker draws
    by_cases (barred x) = x
    by_cases (declined hand q b x) =
        subst (λ (m : Poker). o ≡ refuse m draws) (bets_refused hand poker q addr action b) x
    by_cases (acted hand q _ b x) = absurd (settled-ne-refused hand now draws q addr action o x e)
