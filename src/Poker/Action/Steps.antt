-- ===== src/Poker/Action/Steps.antt =====
-- How `pkrsrv_poker_do_action` of src/poker.c moves the state of the machine.
use pokerunicorn_server.Prelude.{
  ℕ, ◌≡◌, ◌∙◌, refl, ap, sym, subst, true, List, arith, ◌⊎◌, inl, inr, if◌then◌else◌, ◌==◌, ◌&&◌,
  ◌||◌, Bool-cases,
}
use pokerunicorn_server.Prelude.Result.{Result, ok, >>=-eq-ok, ok_injective}
use pokerunicorn_server.Card.Draw.{Draw}
use pokerunicorn_server.Poker.Types.{
  State, ActionKind, raise, check, fold, HandKind, Action, Hand, Player, Poker, deref, state_eq,
}
use pokerunicorn_server.Poker.Players.{get_playing_count, get_ingame_count}
use pokerunicorn_server.Poker.Betting.{
  goes, put, with_hand, small_blind_stage, big_blind_stage, bet_stage, raise_stage, raise_counts,
  check_stage, sb_call_stage, call_stage, record_action,
}
use pokerunicorn_server.Poker.Betting.Chips.{goes_injective}
use pokerunicorn_server.Poker.Turn.{Dealing, follow, pass_turn}
use pokerunicorn_server.Poker.Street.{Flow, ends, goes_on, street, run_out}
use pokerunicorn_server.Poker.Street.Steps.{Step, stays, over, left, street-Step, pass_turn_state}
use pokerunicorn_server.Poker.Showdown.{showdown}
use pokerunicorn_server.Poker.Action.{
  after_street, move_on, bets, do_action, settle_action, Outcome,
}
use pokerunicorn_server.Poker.Action.Cases.{
  Stage-cases, Went, barred, declined, acted, do_action-Went,
}
use pokerunicorn_server.Poker.Action.Refusal.{do_action_refusal}
use pokerunicorn_server.Poker.Action.Money.{showdown_state}

with_hand_state :
    (hand : HandKind) (f : Hand → Hand) (poker : Poker)
    → (with_hand hand f poker).state ≡ poker.state
with_hand_state HandKind.preflop f poker = refl
with_hand_state HandKind.flop f poker = refl
with_hand_state HandKind.turn f poker = refl
with_hand_state HandKind.river f poker = refl

raise_counts_state :
    (hand : HandKind) (poker : Poker) (q : Player) (to bet by : ℕ)
    → (raise_counts hand poker q to bet by).state ≡ poker.state
unfolding raise_counts
raise_counts_state HandKind.preflop poker q to bet by = ground arith
raise_counts_state HandKind.flop poker q to bet by = ground arith
raise_counts_state HandKind.turn poker q to bet by = ground arith
raise_counts_state HandKind.river poker q to bet by = ground arith

small_blind_state :
    (poker q : Poker) (p : Player) (action : Action)
    → small_blind_stage poker p action ≡ goes q
    → q.state ≡ poker.state
unfolding small_blind_stage
small_blind_state poker q p action s = ground (arith, s)

big_blind_state :
    (hand : HandKind) (poker q : Poker) (p : Player) (action : Action)
    → big_blind_stage hand poker p action ≡ goes q
    → q.state ≡ poker.state
unfolding big_blind_stage
big_blind_state HandKind.preflop poker q p action s = ground (arith, s)
big_blind_state HandKind.flop poker q p action s = ground (arith, s)
big_blind_state HandKind.turn poker q p action s = ground (arith, s)
big_blind_state HandKind.river poker q p action s = ground (arith, s)

raise_state :
    (hand : HandKind) (poker q : Poker) (p : Player) (n : ℕ)
    → raise_stage hand poker p n ≡ goes q
    → q.state ≡ poker.state
unfolding raise_stage
raise_state hand poker q p n s = ground (arith, s, raise_counts_state hand)

check_state :
    (hand : HandKind) (poker q : Poker) (p : Player)
    → check_stage hand poker p ≡ ok (goes q)
    → q.state ≡ poker.state
unfolding check_stage sb_call_stage call_stage
check_state hand poker q p s = ground (arith, s)

bet_stage_state :
    (hand : HandKind) (poker q : Poker) (p : Player) (action : Action)
    → bet_stage hand poker p action ≡ ok (goes q)
    → q.state ≡ poker.state
unfolding bet_stage
bet_stage_state hand poker q p action s = by_kind action.kind s
  where
    by_kind :
        (k : ActionKind)
        → (elim k [
          | raise ↦ ok (raise_stage hand poker p action.amount)
          | fold ↦ ok (goes (put poker (record p { is_folded = true })))
          | check ↦ check_stage hand poker p
          | _ ↦ ok (goes poker)
        ])
          ≡ ok (goes q)
        → q.state ≡ poker.state
    by_kind raise g = raise_state hand poker q p action.amount (ok_injective g)
    by_kind check g = check_state hand poker q p g
    by_kind fold g = ap (λ (x : Poker). x.state) (sym (goes_injective (ok_injective g)))
    by_kind _ g = ap (λ (x : Poker). x.state) (sym (goes_injective (ok_injective g)))

bets_state :
    (hand : HandKind) (poker q : Poker) (addr : ℕ) (action : Action)
    → bets hand poker addr action ≡ ok (goes q)
    → q.state ≡ poker.state
unfolding bets
bets_state hand poker q addr action s =
    let (p, w, t) = >>=-eq-ok (follow (deref addr poker.players)) _ s in
    elim (Stage-cases (small_blind_stage poker p action)) [
      | inl (r, z) ↦ absurd (ground (arith, t, z))
      | inr (r, z) ↦
          let (p1, w1, t1) = >>=-eq-ok (follow (deref addr r.players)) _ (rw z at t) in
          elim (Stage-cases (big_blind_stage hand r p1 action)) [
            | inl (u, y) ↦ absurd (ground (arith, t1, y))
            | inr (u, y) ↦
                let (p2, w2, t2) = >>=-eq-ok (follow (deref addr u.players)) _ (rw y at t1) in
                bet_stage_state hand u q p2 action t2
                ∙ big_blind_state hand r u p1 action y
                ∙ small_blind_state poker r p action z
          ]
    ]

record_action_state :
    (hand : HandKind) (poker : Poker) (p : Player) (action : Action)
    → (record_action hand poker p action).state ≡ poker.state
unfolding record_action
record_action_state hand poker p action = with_hand_state hand _ _ ∙ ground arith

-- Behind the blocks the state stays, or the game is over.
after_street_state :
    (entered : State) (playing : ℕ) (d e : Dealing)
    → after_street entered playing d ≡ ok e
    → (e.0.state ≡ State.done) ⊎ (e.0.state ≡ d.0.state)
unfolding after_street
after_street_state entered playing d e h =
    elim (Bool-cases (state_eq entered State.river && state_eq d.0.state State.done)) [
      | inl b ↦
          let (s, p, q) = >>=-eq-ok (showdown d.0) _ (rw b at h) in
          inr (ground (arith, b, showdown_state d.0 s p, q))
      | inr b ↦ elim (Bool-cases (d.0.is_playing_last || playing == 0)) [
        | inl c ↦
            let (r, p, q) = >>=-eq-ok (run_out d) _ (rw (b, c) at h) in
            let (s, t, u) = >>=-eq-ok (showdown (record (r.0) { state = State.done })) _ q in
            inl (ground (arith, showdown_state (record (r.0) { state = State.done }) s t, u))
        | inr c ↦ inr (ground (arith, b, c, h))
      ]
    ]

-- What follows the bets moves the state by a step.
move_on-Step :
    (poker : Poker) (draws : List Draw) (p : Player) (action : Action) (d : Dealing)
    → move_on poker draws p action ≡ ok d
    → Step poker.state d.0.state
unfolding move_on
move_on-Step poker draws p action d h =
    let (next, w, t) = >>=-eq-ok turned _ h in
    let (flow, z, u) =
      >>=-eq-ok (street poker.state (next, draws) p.position action.kind playing ingame) _ t in
    let same : next.state ≡ poker.state = turned_state next w in
    after flow
      (subst (λ s. Step s (left flow).0.state) same
        (street-Step (next, draws) p.position action.kind playing ingame flow
          (subst (λ s. street s (next, draws) p.position action.kind playing ingame ≡ ok flow)
            (sym same) z)))
      u
  where
    playing : ℕ
    playing = get_playing_count poker.players

    ingame : ℕ
    ingame = get_ingame_count poker.players

    turned : Result Poker
    turned = if playing == 0 then ok poker else pass_turn poker

    turned_state : (q : Poker) → turned ≡ ok q → q.state ≡ poker.state
    turned_state q e = elim (Bool-cases (playing == 0)) [
      | inl b ↦ ap (λ (x : Poker). x.state) (sym (ok_injective (rw b at e)))
      | inr b ↦ pass_turn_state poker q (rw b at e)
    ]

    after :
        (flow : Flow)
        → Step poker.state (left flow).0.state
        → (elim flow [ ends e ↦ ok e | goes_on e ↦ after_street poker.state playing e ]) ≡ ok d
        → Step poker.state d.0.state
    after (ends e) m u = subst (λ (x : Dealing). Step poker.state x.0.state) (ok_injective u) m
    after (goes_on e) m u = elim (after_street_state poker.state playing e d u) [
      | inl x ↦ over x
      | inr y ↦ subst (Step poker.state) (sym y) m
    ]

settle_action-Step :
    (hand : HandKind) (now : ℕ) (draws : List Draw) (poker : Poker) (addr : ℕ) (action : Action)
    (o : Outcome)
    → settle_action hand now draws poker addr action ≡ ok o
    → Step poker.state o.poker.state
unfolding settle_action
settle_action-Step hand now draws poker addr action o x =
    let (p, w, t) = >>=-eq-ok (follow (deref addr poker.players)) _ x in
    let r = record_action hand poker p action in
    let (d, z, u) = >>=-eq-ok (move_on r draws p action) _ t in
    subst (λ (o : Outcome). Step poker.state o.poker.state) (ok_injective u)
      (subst (λ s. Step s d.0.state) (record_action_state hand poker p action)
        (move_on-Step r draws p action d z))

-- A call that returns leaves the state, moves it from a betting round to the next, or ends the game.
pub do_action-Step :
    (now : ℕ) (draws : List Draw) (poker : Poker) (addr : ℕ) (action : Action) (o : Outcome)
    → do_action now draws poker addr action ≡ ok o
    → Step poker.state o.poker.state
do_action-Step now draws poker addr action o s =
    by_cases (do_action-Went now draws poker addr action o s)
  where
    by_cases : Went now draws poker addr action o → Step poker.state o.poker.state
    by_cases (barred x) = stays (ap (λ (o : Outcome). o.poker.state) x)
    by_cases (declined hand q b x) = stays (
        ap (λ (o : Outcome). o.poker.state)
          (do_action_refusal now draws poker addr action o s (ap (λ (o : Outcome). o.is_done) x)))
    by_cases (acted hand q _ b x) =
        subst (λ s. Step s o.poker.state) (bets_state hand poker q addr action b)
          (settle_action-Step hand now draws q addr action o x)
