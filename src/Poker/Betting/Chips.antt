-- ===== src/Poker/Betting/Chips.antt =====
-- The chips and the pot through the stages of a bet in `pkrsrv_poker_do_action` of src/poker.c.
use pokerunicorn_server.Prelude.{
  ℕ, ◌-◌, ◌≤◌, ◌<◌, ◌≡◌, ◌∙◌, refl, ap, subst, true, some, arith, inl, inr, ltb, Bool-cases,
  Option-cases, add64, sub64, u64_mod, add64_exact, sub64_exact,
}
use pokerunicorn_server.Prelude.Result.{ok}
use pokerunicorn_server.Poker.Types.{
  State, state_eq, HandKind, Action, Hand, Player, Poker, deref, write,
}
use pokerunicorn_server.Poker.Players.{remove_balance}
use pokerunicorn_server.Poker.Betting.{
  goes, put, with_hand, small_blind_stage, big_blind_stage, raise_counts, raise_stage,
  sb_call_stage, call_stage, check_stage,
}
use pokerunicorn_server.Poker.Store.{
  AreApart, total, chips-write, write-AreApart, balance-le-chips, write_twice,
}

-- The store is in order: no address twice, and all chips together fit a word.
pub record IsFunded (poker : Poker) : Type 0 where
  pub apart : AreApart poker.players
  pub fits : total poker < u64_mod

pub remove_balance_lem :
    (p q : Player) (n : ℕ)
    → p.balance < u64_mod
    → remove_balance p n ≡ some q
    → (n ≤ p.balance) × (q ≡ record p { balance = p.balance - n })
unfolding remove_balance
remove_balance_lem p q n h e = elim (Bool-cases (ltb p.balance n)) [
  | inl s ↦ absurd (cc (rw s at e))
  | inr s ↦ (ground (arith, s), ground (arith, s, e, sub64_exact p.balance n))
]

-- What a stage keeps: the chips, and the order of the store.
pub record Keeps (poker q : Poker) : Type 0 where
  pub same_total : total q ≡ total poker
  pub apart : AreApart q.players

-- Chips moved from a player to the pot: the sum stays.
pub Keeps-paid :
    (poker q : Poker) (p r : Player) (n : ℕ)
    → IsFunded poker
    → deref p.addr poker.players ≡ some p
    → n ≤ p.balance
    → r.addr ≡ p.addr
    → r.balance ≡ p.balance - n
    → q.players ≡ write p.addr (λ _. r) poker.players
    → q.pot_amount ≡ add64 poker.pot_amount n
    → Keeps poker q
Keeps-paid poker q p r n f e h ka kb ep eq = record {
  same_total = rw ep (
      omega (
        arith,
        eq,
        kb,
        chips-write p.addr p r poker.players f.apart e,
        balance-le-chips p.addr p poker.players e,
        add64_exact poker.pot_amount n,
        f.fits,
      ));
  apart = rw ep (write-AreApart p.addr r poker.players ka f.apart);
}

pub Keeps-same : (poker q : Poker) → IsFunded poker → poker ≡ q → Keeps poker q
Keeps-same poker q f e = subst (Keeps poker) e (record { same_total = refl; apart = f.apart })

balance_fits :
    (poker : Poker) (p : Player)
    → IsFunded poker
    → deref p.addr poker.players ≡ some p
    → p.balance < u64_mod
balance_fits poker p f e = omega (arith, f.fits, balance-le-chips p.addr p poker.players e)

-- A payment by `remove_balance`.
Keeps-removed :
    (poker q : Poker) (p r : Player) (n bet : ℕ)
    → IsFunded poker
    → deref p.addr poker.players ≡ some p
    → remove_balance p n ≡ some r
    → q.players ≡ write p.addr (λ _. record r { bet = bet }) poker.players
    → q.pot_amount ≡ add64 poker.pot_amount n
    → Keeps poker q
Keeps-removed poker q p r n bet f e er ep eq =
    let (le, same) = remove_balance_lem p r n (balance_fits poker p f e) er in
    Keeps-paid poker q p (record r { bet = bet }) n f e le (ap (λ (x : Player). x.addr) same)
      (ap (λ (x : Player). x.balance) same) ep eq

pub small_blind_stage-Keeps :
    (poker q : Poker) (p : Player) (action : Action)
    → IsFunded poker
    → deref p.addr poker.players ≡ some p
    → small_blind_stage poker p action ≡ goes q
    → Keeps poker q
unfolding small_blind_stage
small_blind_stage-Keeps poker q p action f e s =
    elim (Bool-cases (state_eq poker.state State.small_blind)) [
      | inl b ↦ elim (Option-cases (remove_balance p poker.table.small_blind)) [
        | inl z ↦ absurd (ground (arith, s, b, z))
        | inr (r, z) ↦
            Keeps-removed poker q p r poker.table.small_blind (add64 r.bet poker.table.small_blind)
              f e z (ground (arith, s, b, z)) (ground (arith, s, b, z))
      ]
      | inr b ↦ Keeps-same poker q f (ground (arith, s, b))
    ]

pub with_hand_players :
    (hand : HandKind) (f : Hand → Hand) (poker : Poker)
    → (with_hand hand f poker).players ≡ poker.players
with_hand_players hand f poker = ground arith

pub with_hand_pot :
    (hand : HandKind) (f : Hand → Hand) (poker : Poker)
    → (with_hand hand f poker).pot_amount ≡ poker.pot_amount
with_hand_pot hand f poker = ground arith

pub big_blind_stage-Keeps :
    (hand : HandKind) (poker q : Poker) (p : Player) (action : Action)
    → IsFunded poker
    → deref p.addr poker.players ≡ some p
    → big_blind_stage hand poker p action ≡ goes q
    → Keeps poker q
unfolding big_blind_stage
big_blind_stage-Keeps hand poker q p action f e s =
    elim (Bool-cases (state_eq poker.state State.big_blind)) [
      | inl b ↦ elim (Option-cases (remove_balance p poker.table.big_blind)) [
        | inl z ↦ absurd (ground (arith, s, b, z))
        | inr (r, z) ↦
            Keeps-removed poker q p r poker.table.big_blind (add64 r.bet poker.table.big_blind) f e
              z (ground (arith, s, b, z)) (ground (arith, s, b, z))
      ]
      | inr b ↦ Keeps-same poker q f (ground (arith, s, b))
    ]

sb_call_stage-Keeps :
    (poker q : Poker) (p : Player)
    → IsFunded poker
    → deref p.addr poker.players ≡ some p
    → sb_call_stage poker p ≡ goes q
    → Keeps poker q
unfolding sb_call_stage
sb_call_stage-Keeps poker q p f e s =
    elim (Option-cases (remove_balance p poker.table.small_blind)) [
      | inl z ↦ absurd (ground (arith, s, z))
      | inr (r, z) ↦
          Keeps-removed poker q p r poker.table.small_blind (add64 r.bet poker.table.small_blind) f
            e z (ground (arith, s, z)) (ground (arith, s, z))
    ]

call_stage-Keeps :
    (poker q : Poker) (p : Player)
    → IsFunded poker
    → deref p.addr poker.players ≡ some p
    → call_stage poker p ≡ goes q
    → Keeps poker q
unfolding call_stage
call_stage-Keeps poker q p f e s =
    elim (Option-cases (remove_balance p (sub64 poker.current_bet p.bet))) [
      | inl z ↦
          Keeps-paid poker q p
            (record p { is_allin = true; balance = 0; bet = add64 p.bet p.balance }) p.balance f e
            (omega arith) refl (omega arith) (ground (arith, s, z)) (ground (arith, s, z))
      | inr (r, z) ↦
          Keeps-removed poker q p r (sub64 poker.current_bet p.bet)
            (add64 r.bet (sub64 poker.current_bet p.bet)) f e z (ground (arith, s, z))
            (ground (arith, s, z))
    ]

pub check_stage-Keeps :
    (hand : HandKind) (poker q : Poker) (p : Player)
    → IsFunded poker
    → deref p.addr poker.players ≡ some p
    → check_stage hand poker p ≡ ok (goes q)
    → Keeps poker q
unfolding check_stage
check_stage-Keeps hand poker q p f e s = ground (
  arith,
  s,
  sb_call_stage-Keeps poker q p f e,
  call_stage-Keeps poker q p f e,
  Keeps-same poker q f,
)

raise_counts_players :
    (hand : HandKind) (poker : Poker) (r : Player) (raise_to to_bet raise_by : ℕ)
    → (raise_counts hand poker r raise_to to_bet raise_by).players
      ≡ write r.addr (λ _. record r { bet = add64 r.bet to_bet }) poker.players
unfolding raise_counts
raise_counts_players hand poker r raise_to to_bet raise_by = ground arith

raise_counts_pot :
    (hand : HandKind) (poker : Poker) (r : Player) (raise_to to_bet raise_by : ℕ)
    → (raise_counts hand poker r raise_to to_bet raise_by).pot_amount
      ≡ add64 poker.pot_amount to_bet
unfolding raise_counts
raise_counts_pot hand poker r raise_to to_bet raise_by = ground arith

-- An accepted raise in terms of its parts.
raise_stage_lem :
    (hand : HandKind) (poker q : Poker) (p r : Player) (raise_to : ℕ)
    → poker.current_bet ≤ raise_to
    → remove_balance p (sub64 raise_to p.bet) ≡ some r
    → raise_stage hand poker p raise_to ≡ goes q
    → let c =
        raise_counts hand
          (put poker r)
          r
          raise_to
          (sub64 raise_to p.bet)
          (sub64 raise_to poker.current_bet) in
      (q.players ≡ c.players) × (q.pot_amount ≡ c.pot_amount)
unfolding raise_stage
raise_stage_lem hand poker q p r raise_to h z s = (ground (arith, s, z, h), ground (arith, s, z, h))

pub raise_stage-Keeps :
    (hand : HandKind) (poker q : Poker) (p : Player) (raise_to : ℕ)
    → IsFunded poker
    → deref p.addr poker.players ≡ some p
    → poker.current_bet ≤ raise_to
    → raise_stage hand poker p raise_to ≡ goes q
    → Keeps poker q
raise_stage-Keeps hand poker q p raise_to f e h s = elim (Option-cases (remove_balance p to_bet)) [
  | inl z ↦ absurd (unfold raise_stage in ground (arith, s, z))
  | inr (r, z) ↦
      let k =
        ap (λ (x : Player). x.addr)
          (remove_balance_lem p r to_bet (balance_fits poker p f e) z).1 in
      let c = raise_stage_lem hand poker q p r raise_to h z s in
      Keeps-removed poker q p r to_bet (add64 r.bet to_bet) f e z
        (c.0
          ∙ raise_counts_players hand (put poker r) r raise_to to_bet raise_by
          ∙ ap
              (λ (n : ℕ).
                write n (λ _. record r { bet = add64 r.bet to_bet })
                  (write n (λ _. r) poker.players))
              k
          ∙ write_twice p.addr r (record r { bet = add64 r.bet to_bet }) poker.players k)
        (c.1 ∙ raise_counts_pot hand (put poker r) r raise_to to_bet raise_by)
]
  where
    to_bet : ℕ
    to_bet = sub64 raise_to p.bet

    raise_by : ℕ
    raise_by = sub64 raise_to poker.current_bet

pub goes_injective : {p q : Poker} → goes p ≡ goes q → p ≡ q
goes_injective e = cc e

-- A player written anew with the same balance.
pub Keeps-rewritten :
    (poker q : Poker) (p r : Player)
    → IsFunded poker
    → deref p.addr poker.players ≡ some p
    → r.addr ≡ p.addr
    → r.balance ≡ p.balance
    → q.players ≡ write p.addr (λ _. r) poker.players
    → q.pot_amount ≡ poker.pot_amount
    → Keeps poker q
Keeps-rewritten poker q p r f e ka kb ep eq =
    Keeps-paid poker q p r 0 f e (omega arith) ka (omega (arith, kb)) ep
      (omega (arith, eq, add64_exact poker.pot_amount 0, f.fits))
