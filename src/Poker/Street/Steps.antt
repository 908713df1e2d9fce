-- ===== src/Poker/Street/Steps.antt =====
-- How the blocks of `pkrsrv_poker_do_action` of src/poker.c move the state of the machine.
use pokerunicorn_server.Prelude.{
  ℕ, ◌≡◌, ◌∙◌, refl, subst, true, arith, inl, inr, ◌==◌, Bool-cases, Option-cases, find,
}
use pokerunicorn_server.Prelude.Result.{ok, ◌>>=◌, >>=-eq-ok, ok_injective}
use pokerunicorn_server.Card.Types.{Card}
use pokerunicorn_server.Poker.Types.{State, ActionKind, check, fold, Poker}
use pokerunicorn_server.Poker.Players.{player_is_ingame}
use pokerunicorn_server.Poker.Turn.{
  Dealing, pass_turn, draw_card, deal_flop, deal_turn, deal_river, is_last_to_act, turn_position,
}
use pokerunicorn_server.Poker.Street.{
  Flow, ends, goes_on, heads_up_turn, round_reset, count_action, street, close_round, end_round,
  fold_street, deal_street, is_street, next_state, win_by_fold, fold_counts,
}

-- From a street to the next, or to the end; otherwise the state stays.
pub data Step (s t : State) : Type 0 where
  stays : t ≡ s → Step s t
  advances : is_street s ≡ true → t ≡ next_state s → Step s t
  over : t ≡ State.done → Step s t

draw_card_state : (d : Dealing) (x : Card × Dealing) → draw_card d ≡ ok x → x.1.0.state ≡ d.0.state
unfolding draw_card
draw_card_state d x h = ground (arith, h)

deal_turn_state : (d e : Dealing) → deal_turn d ≡ ok e → e.0.state ≡ d.0.state
unfolding deal_turn
deal_turn_state d e h =
    let (x, p, q) = >>=-eq-ok (draw_card d) _ h in ground (arith, draw_card_state d x p, q)

deal_river_state : (d e : Dealing) → deal_river d ≡ ok e → e.0.state ≡ d.0.state
unfolding deal_river
deal_river_state d e h =
    let (x, p, q) = >>=-eq-ok (draw_card d) _ h in ground (arith, draw_card_state d x p, q)

deal_flop_state : (d e : Dealing) → deal_flop d ≡ ok e → e.0.state ≡ d.0.state
unfolding deal_flop
deal_flop_state d e h =
    let (x, p, q) = >>=-eq-ok (draw_card d) _ h in
    let (y, r, s) = >>=-eq-ok (draw_card x.1) _ q in
    let (z, t, u) = >>=-eq-ok (draw_card y.1) _ s in
    ground (arith, draw_card_state d x p, draw_card_state x.1 y r, draw_card_state y.1 z t, u)

deal_street_state : (st : State) (d e : Dealing) → deal_street st d ≡ ok e → e.0.state ≡ d.0.state
deal_street_state State.preflop d e h = deal_flop_state d e h
deal_street_state State.flop d e h = deal_turn_state d e h
deal_street_state State.turn d e h = deal_river_state d e h
deal_street_state _ d e h = ground (arith, h)

heads_up_state : (poker q : Poker) → heads_up_turn poker ≡ ok q → q.state ≡ poker.state
heads_up_state poker q h = ground (arith, h)

end_round_state : (st : State) (d e : Dealing) → end_round st d ≡ ok e → e.0.state ≡ next_state st
unfolding end_round
end_round_state st (poker, draws) e h =
    let (x, p, q) = >>=-eq-ok (heads_up_turn (round_reset st poker)) _ h in
    deal_street_state st (x, draws) e q ∙ heads_up_state (round_reset st poker) x p

pub pass_turn_state : (poker q : Poker) → pass_turn poker ≡ ok q → q.state ≡ poker.state
unfolding pass_turn
pass_turn_state poker q h = let (x, p, s) = >>=-eq-ok (turn_position poker) _ h in ground (arith, s)

close_round-Step :
    (d e : Dealing) (counts position playing : ℕ)
    → is_street d.0.state ≡ true
    → close_round d.0.state d counts position playing ≡ ok e
    → Step d.0.state e.0.state
unfolding close_round
close_round-Step (poker, draws) e counts position playing st h =
    let (x, p, q) = >>=-eq-ok (is_last_to_act (count_action counts poker) position playing) _ h in
    elim (Bool-cases x) [
      | inl b ↦
          advances st (end_round_state poker.state (count_action counts poker, draws) e (rw b at q))
      | inr b ↦ stays (ground (arith, b, q))
    ]

win_by_fold_over : (poker q : Poker) → win_by_fold poker ≡ ok q → q.state ≡ State.done
unfolding win_by_fold
win_by_fold_over poker q h = elim (Option-cases (find player_is_ingame poker.players)) [
  | inl z ↦ absurd (ground (arith, h, z))
  | inr (w, z) ↦ ground (arith, h, z)
]

-- The machine that a block leaves, however it ends.
abbrev pub left : Flow → Dealing
left (ends d) = d
left (goes_on d) = d

fold_street-Step :
    (d : Dealing) (position playing ingame : ℕ) (flow : Flow)
    → is_street d.0.state ≡ true
    → fold_street d.0.state d position playing ingame ≡ ok flow
    → Step d.0.state (left flow).0.state
unfolding fold_street
fold_street-Step d position playing ingame flow st h = elim (Bool-cases (ingame == 1)) [
  | inl b ↦
      let (w, p, q) = >>=-eq-ok (win_by_fold d.0) (λ w. ok (ends (w, d.1))) (rw b at h) in
      subst (λ f. Step d.0.state (left f).0.state) (ok_injective q)
        (over (win_by_fold_over d.0 w p))
  | inr b ↦
      let (e, p, q) =
        >>=-eq-ok (close_round d.0.state d (fold_counts d.0.state) position playing)
          (λ e. ok (goes_on e)) (rw b at h) in
      subst (λ f. Step d.0.state (left f).0.state) (ok_injective q)
        (close_round-Step d e (fold_counts d.0.state) position playing st p)
]

-- The block on the machine's state moves it by a step.
pub street-Step :
    (d : Dealing) (position : ℕ) (kind : ActionKind) (playing ingame : ℕ) (flow : Flow)
    → street d.0.state d position kind playing ingame ≡ ok flow
    → Step d.0.state (left flow).0.state
unfolding street
street-Step d position kind playing ingame flow h = elim (Bool-cases (is_street d.0.state)) [
  | inl b ↦ by_kind b kind (rw b at h)
  | inr b ↦ subst (λ f. Step d.0.state (left f).0.state) (ok_injective (rw b at h)) (stays refl)
]
  where
    by_kind :
        is_street d.0.state ≡ true
        → (k : ActionKind)
        → (elim k [
          | check ↦ close_round d.0.state d 1 position playing >>= λ e. ok (goes_on e)
          | fold ↦ fold_street d.0.state d position playing ingame
          | _ ↦ ok (goes_on d)
        ])
          ≡ ok flow
        → Step d.0.state (left flow).0.state
    by_kind b check g =
        let (e, p, q) =
          >>=-eq-ok (close_round d.0.state d 1 position playing) (λ e. ok (goes_on e)) g in
        subst (λ f. Step d.0.state (left f).0.state) (ok_injective q)
          (close_round-Step d e 1 position playing b p)
    by_kind b fold g = fold_street-Step d position playing ingame flow b g
    by_kind b _ g = subst (λ f. Step d.0.state (left f).0.state) (ok_injective g) (stays refl)
