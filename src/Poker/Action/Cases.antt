-- ===== src/Poker/Action/Cases.antt =====
-- The ways in which `pkrsrv_poker_do_action` returns, and what a refusal leaves.
use pokerunicorn_server.Prelude.{
  ℕ, ◌≡◌, ◌≢◌, refl, sym, true, false, some, List, arith, ◌⊎◌, inl, inr, Bool-cases,
}
use pokerunicorn_server.Prelude.Result.{ok, >>=-eq-ok, ok_injective}
use pokerunicorn_server.Card.Draw.{Draw}
use pokerunicorn_server.Poker.Types.{
  State, ActionKind, HandKind, Action, Player, Poker, deref, state_eq, raise, check, fold,
}
use pokerunicorn_server.Poker.Betting.{
  Stage, goes, refused, get_current_hand, record_action, may_act, small_blind_stage,
  big_blind_stage, bet_stage, raise_stage, check_stage, sb_call_stage, call_stage, put,
}
use pokerunicorn_server.Poker.Turn.{follow, follow_lem}
use pokerunicorn_server.Poker.Action.{do_action, bets, settle_action, Outcome, refuse, move_on}

pub Stage-cases : (s : Stage) → ((q : Poker) × (s ≡ refused q)) ⊎ ((q : Poker) × (s ≡ goes q))
Stage-cases (refused q) = inl (q, refl)
Stage-cases (goes q) = inr (q, refl)

-- How a call that returns has gone.
pub data Went (now : ℕ) (draws : List Draw) (poker : Poker) (addr : ℕ) (action : Action)
    (o : Outcome) : Type 0 where
  barred : o ≡ refuse poker draws → Went now draws poker addr action o
  declined :
      (hand : HandKind) (q : Poker)
      → bets hand poker addr action ≡ ok (refused q)
      → o ≡ refuse q draws
      → Went now draws poker addr action o
  acted :
      (hand : HandKind) (q : Poker)
      → get_current_hand poker.state ≡ some hand
      → bets hand poker addr action ≡ ok (goes q)
      → settle_action hand now draws q addr action ≡ ok o
      → Went now draws poker addr action o

pub do_action-Went :
    (now : ℕ) (draws : List Draw) (poker : Poker) (addr : ℕ) (action : Action) (o : Outcome)
    → do_action now draws poker addr action ≡ ok o
    → Went now draws poker addr action o
unfolding do_action
do_action-Went now draws poker addr action o s =
    let (p, w, t) = >>=-eq-ok (follow (deref addr poker.players)) _ s in
    elim (Bool-cases (may_act poker p)) [
      | inr b ↦ barred (sym (ok_injective (rw b at t)))
      | inl b ↦
          let (hand, x, u) = >>=-eq-ok (follow (get_current_hand poker.state)) _ (rw b at t) in
          let (stage, y, v) = >>=-eq-ok (bets hand poker addr action) _ u in
          elim (Stage-cases stage) [
            | inl (q, z) ↦ declined hand q (rw z at y) (sym (ok_injective (rw z at v)))
            | inr (q, z) ↦
                acted hand q (follow_lem (get_current_hand poker.state) x) (rw z at y) (rw z at v)
          ]
    ]

-- A stage refuses before it changes anything, and goes on as a blind only on an action of its kind.
pub small_blind_refused :
    (poker q : Poker) (p : Player) (action : Action)
    → small_blind_stage poker p action ≡ refused q
    → q ≡ poker
unfolding small_blind_stage
small_blind_refused poker q p action s = ground (arith, s)

pub small_blind_goes :
    (poker q : Poker) (p : Player) (action : Action)
    → small_blind_stage poker p action ≡ goes q
    → (poker ≡ q)
      ⊎ ((action.kind ≡ ActionKind.small_blind) × (state_eq q.state State.small_blind ≡ true))
unfolding small_blind_stage
small_blind_goes poker q p action s = elim (Bool-cases (state_eq poker.state State.small_blind)) [
  | inr b ↦ inl (ground (arith, s, b))
  | inl b ↦ inr (ground (arith, s, b), ground (arith, s, b))
]

pub big_blind_refused :
    (hand : HandKind) (poker q : Poker) (p : Player) (action : Action)
    → big_blind_stage hand poker p action ≡ refused q
    → (q ≡ poker) × (state_eq poker.state State.big_blind ≡ true)
unfolding big_blind_stage
big_blind_refused hand poker q p action s = (ground (arith, s), ground (arith, s))

pub big_blind_goes :
    (hand : HandKind) (poker q : Poker) (p : Player) (action : Action)
    → big_blind_stage hand poker p action ≡ goes q
    → (poker ≡ q) ⊎ (action.kind ≡ ActionKind.big_blind)
unfolding big_blind_stage
big_blind_goes hand poker q p action s = elim (Bool-cases (state_eq poker.state State.big_blind)) [
  | inr b ↦ inl (ground (arith, s, b))
  | inl b ↦ inr (ground (arith, s, b))
]

raise_refused :
    (hand : HandKind) (poker q : Poker) (p : Player) (n : ℕ)
    → raise_stage hand poker p n ≡ refused q
    → q ≡ poker
unfolding raise_stage
raise_refused hand poker q p n s = ground (arith, s)

check_refused :
    (hand : HandKind) (poker q : Poker) (p : Player)
    → check_stage hand poker p ≡ ok (refused q)
    → q ≡ poker
unfolding check_stage sb_call_stage call_stage
check_refused hand poker q p s = ground (arith, s)

abbrev pub IsBet : ActionKind → Type 0
IsBet raise = Unit {0}
IsBet check = Unit {0}
IsBet _ = ⊥

pub bet_stage_refused :
    (hand : HandKind) (poker q : Poker) (p : Player) (action : Action)
    → bet_stage hand poker p action ≡ ok (refused q)
    → (q ≡ poker) × IsBet action.kind
unfolding bet_stage
bet_stage_refused hand poker q p action s = by_kind action.kind s
  where
    by_kind :
        (k : ActionKind)
        → (elim k [
          | raise ↦ ok (raise_stage hand poker p action.amount)
          | fold ↦ ok (goes (put poker (record p { is_folded = true })))
          | check ↦ check_stage hand poker p
          | _ ↦ ok (goes poker)
        ])
          ≡ ok (refused q)
        → (q ≡ poker) × IsBet k
    by_kind raise g = (raise_refused hand poker q p action.amount (ok_injective g), tt)
    by_kind check g = (check_refused hand poker q p g, tt)
    by_kind fold g = absurd (cc g)
    by_kind _ g = absurd (cc g)

-- What follows the bets is done.
pub settled-ne-refused :
    (hand : HandKind) (now : ℕ) (draws : List Draw) (poker : Poker) (addr : ℕ) (action : Action)
    (o : Outcome)
    → settle_action hand now draws poker addr action ≡ ok o
    → o.is_done ≢ false
unfolding settle_action
settled-ne-refused hand now draws poker addr action o s e =
    let (p, w, t) = >>=-eq-ok (follow (deref addr poker.players)) _ s in
    let (d, z, u) = >>=-eq-ok (move_on (record_action hand poker p action) draws p action) _ t in
    ground (arith, u, e)
