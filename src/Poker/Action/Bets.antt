-- ===== src/Poker/Action/Bets.antt =====
-- The chips and the pot through the bets of an action and its record in `pkrsrv_poker_do_action` of
-- src/poker.c.
use pokerunicorn_server.Prelude.{
  ℕ, ◌≤◌, ◌≡◌, ◌∙◌, refl, ap, sym, subst, true, some, List, arith, inl, inr, ◌==◌, Bool-cases,
}
use pokerunicorn_server.Prelude.Result.{ok, ◌>>=◌, >>=-eq-ok, ok_injective}
use pokerunicorn_server.Poker.Types.{
  ActionKind, raise, check, fold, HandKind, Action, Player, Poker, deref,
}
use pokerunicorn_server.Poker.Betting.{
  goes, refused, put, raise_stage, check_stage, small_blind_stage, big_blind_stage, bet_stage,
  record_action,
}
use pokerunicorn_server.Poker.Betting.Chips.{
  IsFunded, Keeps, small_blind_stage-Keeps, big_blind_stage-Keeps, raise_stage-Keeps,
  check_stage-Keeps, Keeps-same, goes_injective, Keeps-rewritten,
}
use pokerunicorn_server.Poker.Turn.{follow, follow_lem}
use pokerunicorn_server.Poker.Action.Cases.{Stage-cases}
use pokerunicorn_server.Poker.Action.{bets}
use pokerunicorn_server.Poker.Store.{AreApart, deref_addr}

pub record_action-Keeps :
    (hand : HandKind) (poker : Poker) (p : Player) (action : Action)
    → IsFunded poker
    → deref p.addr poker.players ≡ some p
    → Keeps poker (record_action hand poker p action)
unfolding record_action
record_action-Keeps hand poker p action f e = elim (Bool-cases (p.balance == 0)) [
  | inl b ↦
      Keeps-rewritten poker (record_action hand poker p action) p (record p { is_allin = true }) f e
        refl refl (ground (arith, b)) (ground (arith, b))
  | inr b ↦ record {
    same_total = ground (arith, b);
    apart = subst AreApart (ground (arith, b)) f.apart;
  }
]

bet_stage-Keeps :
    (hand : HandKind) (poker q : Poker) (p : Player) (action : Action)
    → IsFunded poker
    → deref p.addr poker.players ≡ some p
    → (action.kind ≡ raise → poker.current_bet ≤ action.amount)
    → bet_stage hand poker p action ≡ ok (goes q)
    → Keeps poker q
unfolding bet_stage
bet_stage-Keeps hand poker q p action f e h s = by_kind action.kind refl s
  where
    by_kind :
        (k : ActionKind)
        → action.kind ≡ k
        → (elim k [
          | raise ↦ ok (raise_stage hand poker p action.amount)
          | fold ↦ ok (goes (put poker (record p { is_folded = true })))
          | check ↦ check_stage hand poker p
          | _ ↦ ok (goes poker)
        ])
          ≡ ok (goes q)
        → Keeps poker q
    by_kind raise m g = raise_stage-Keeps hand poker q p action.amount f e (h m) (ok_injective g)
    by_kind check m g = check_stage-Keeps hand poker q p f e g
    by_kind fold m g =
        let same = goes_injective (ok_injective g) in
        Keeps-rewritten poker q p (record p { is_folded = true }) f e refl refl
          (ap (λ (x : Poker). x.players) (sym same)) (ap (λ (x : Poker). x.pot_amount) (sym same))
    by_kind _ m g = Keeps-same poker q f (goes_injective (ok_injective g))

pub IsFunded-Keeps : (poker q : Poker) → IsFunded poker → Keeps poker q → IsFunded q
IsFunded-Keeps poker q f k = record { apart = k.apart; fits = omega (arith, f.fits, k.same_total) }

pub Keeps-trans : (a b c : Poker) → Keeps a b → Keeps b c → Keeps a c
Keeps-trans a b c k l = record { same_total = l.same_total ∙ k.same_total; apart = l.apart }

-- A small blind is no raise, and leaves the current bet.
small_blind_stage_bet :
    (poker q : Poker) (p : Player) (action : Action)
    → small_blind_stage poker p action ≡ goes q
    → q.current_bet ≡ poker.current_bet
unfolding small_blind_stage
small_blind_stage_bet poker q p action s = ground (arith, s)

big_blind_stage_bet :
    (hand : HandKind) (poker q : Poker) (p : Player) (action : Action)
    → big_blind_stage hand poker p action ≡ goes q
    → q.current_bet ≡ poker.current_bet
unfolding big_blind_stage
big_blind_stage_bet hand poker q p action s = ground (arith, s)

-- `deref` with the player's own address.
pub own_addr :
    (a : ℕ) (ps : List Player) (p : Player) → deref a ps ≡ some p → deref p.addr ps ≡ some p
own_addr a ps p e = subst (λ n. deref n ps ≡ some p) (sym (deref_addr a ps p e)) e

big_blind_then :
    (hand : HandKind) (poker q : Poker) (addr : ℕ) (p : Player) (action : Action)
    → IsFunded poker
    → (action.kind ≡ raise → poker.current_bet ≤ action.amount)
    → deref addr poker.players ≡ some p
    → (elim (big_blind_stage hand poker p action) [
      | refused r ↦ ok (refused r)
      | goes r ↦ follow (deref addr r.players) >>= λ p2. bet_stage hand r p2 action
    ])
      ≡ ok (goes q)
    → Keeps poker q
big_blind_then hand poker q addr p action f h e s =
    elim (Stage-cases (big_blind_stage hand poker p action)) [
      | inl (r, z) ↦ absurd (ground (arith, s, z))
      | inr (r, z) ↦
          let k =
            big_blind_stage-Keeps hand poker r p action f (own_addr addr poker.players p e) z in
          let (p2, w, t) = >>=-eq-ok (follow (deref addr r.players)) _ (rw z at s) in
          Keeps-trans poker r q k (
            bet_stage-Keeps hand r q p2 action (IsFunded-Keeps poker r f k)
              (own_addr addr r.players p2 (follow_lem _ w))
              (λ m. rw (big_blind_stage_bet hand poker r p action z) (h m)) t)
    ]

-- The bets of an action keep the sum.
pub bets-Keeps :
    (hand : HandKind) (poker q : Poker) (addr : ℕ) (action : Action)
    → IsFunded poker
    → (action.kind ≡ raise → poker.current_bet ≤ action.amount)
    → bets hand poker addr action ≡ ok (goes q)
    → Keeps poker q
unfolding bets
bets-Keeps hand poker q addr action f h s =
    let (p, w, t) = >>=-eq-ok (follow (deref addr poker.players)) _ s in
    let e : deref addr poker.players ≡ some p = follow_lem (deref addr poker.players) w in
    elim (Stage-cases (small_blind_stage poker p action)) [
      | inl (r, z) ↦ absurd (ground (arith, t, z))
      | inr (r, z) ↦
          let k = small_blind_stage-Keeps poker r p action f (own_addr addr poker.players p e) z in
          let (p1, w1, t1) = >>=-eq-ok (follow (deref addr r.players)) _ (rw z at t) in
          Keeps-trans poker r q k (
            big_blind_then hand r q addr p1 action (IsFunded-Keeps poker r f k)
              (λ m. rw (small_blind_stage_bet poker r p action z) (h m)) (follow_lem _ w1) t1)
    ]
