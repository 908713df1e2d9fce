-- ===== src/Poker/Round/Deal.antt =====
-- The cards that `pkrsrv_poker_deal` of src/poker.c deals.
use mathlib.Core.List.{append_assoc, append-nil, map-append}
use pokerunicorn_server.Prelude.{
  ℕ, zero, suc, ◌+◌, ◌*◌, ◌≤◌, ◌<◌, ◌≡◌, ◌≢◌, ◌∙◌, refl, ap, sym, subst, true, Option, some, List,
  [], ◌∷◌, ◌++◌, arith, inl, inr, All, All-append, length, set, Option-cases, length-append, map,
  ==_refl,
}
use pokerunicorn_server.Prelude.Result.{ok, >>=-eq-ok, ok_injective}
use pokerunicorn_server.Card.Types.{Card}
use pokerunicorn_server.Card.Draw.{Draw, get_random, look, generated}
use pokerunicorn_server.Card.Draw.Fresh.{drawn, IsPacked, IsNew, AreDistinct, get_random-IsNew}
use pokerunicorn_server.Poker.Types.{Player, Poker, write}
use pokerunicorn_server.Poker.Store.{AreApart, write_none, write-AreApart}
use pokerunicorn_server.Poker.Turn.{Dealing, draw_card}
use pokerunicorn_server.Poker.Round.{player_deal, deal_players, deal, empty_history}

-- The history in order: packed, of 52 slots, and no card in it twice.
pub record IsDealing (h : List (Option Card)) : Type 0 where
  pub packed : IsPacked h
  pub slots : length h ≡ 52
  pub distinct : AreDistinct (drawn h)

distinct_append :
    (cs : List Card) (c : Card) → AreDistinct cs → IsNew c cs → AreDistinct (cs ++ (c ∷ []))
distinct_append [] c h n = (tt, tt)
distinct_append (d ∷ cs) c h n =
    (All-append (λ e. d ≢ e) cs (c ∷ []) h.0 (n.0, tt), distinct_append cs c h.1 n.1)

length-set {ℓ} : {A : Type ℓ} (l : List A) (i : ℕ) (a : A) → length (set l i a) ≡ length l
length-set [] i a = refl
length-set (x ∷ l) zero a = refl
length-set (x ∷ l) (suc i) a = ap suc (length-set l i a)

get_random-length :
    (rs : List Draw) (h : List (Option Card)) (c : Card) (h' : List (Option Card)) (rs' : List Draw)
    → get_random rs h ≡ ok (c, h', rs')
    → length h' ≡ length h
unfolding get_random
get_random-length [] h c h' rs' e = absurd (cc e)
get_random-length (r ∷ rs) h c h' rs' e = elim (Option-cases (look (generated r) 0 h)) [
  | inl s ↦ get_random-length rs h c h' rs' (rw (s, get_random) at e)
  | inr (n, s) ↦
      let put : set h n (some (generated r)) ≡ h' = ground (arith, s, e) in
      ap (λ (l : List (Option Card)). length l) (sym put) ∙ length-set h n (some (generated r))
]

-- A drawn card is put behind those drawn before.
draw_card_lem :
    (d e : Dealing) (c : Card)
    → IsDealing d.0.card_history
    → length (drawn d.0.card_history) < 52
    → draw_card d ≡ ok (c, e)
    → IsDealing e.0.card_history
      × (drawn e.0.card_history ≡ drawn d.0.card_history ++ (c ∷ []))
      × (e.0.players ≡ d.0.players)
unfolding draw_card
draw_card_lem (poker, draws) e c k m h =
    let ((x, hist, rest), a, b) = >>=-eq-ok (get_random draws poker.card_history) _ h in
    let (_, new, behind, packed) =
      get_random-IsNew draws poker.card_history x hist rest k.packed (omega (arith, m, k.slots))
        a in
    let same : x ≡ c = ground (arith, b) in
    let state : hist ≡ e.0.card_history = ground (arith, b) in
    let long : length hist ≡ length poker.card_history =
      get_random-length draws poker.card_history x hist rest a in
    let added : drawn e.0.card_history ≡ drawn poker.card_history ++ (c ∷ []) =
      rw (← state, ← same) behind in
    (
      record {
        packed = rw (← state) packed;
        slots = rw (← state) (long ∙ k.slots);
        distinct =
            rw added (distinct_append (drawn poker.card_history) c k.distinct (rw (← same) (new)));
      },
      added,
      ground (arith, b),
    )

deal_two_lem :
    (d e : Dealing) (p : Player)
    → IsDealing d.0.card_history
    → length (drawn d.0.card_history) + 2 ≤ 52
    → player_deal d p ≡ ok e
    → (a b : Card) × IsDealing e.0.card_history
      × (drawn e.0.card_history ≡ drawn d.0.card_history ++ (a ∷ b ∷ []))
      × (e.0.players
          ≡ write p.addr
              (λ _. record p { is_dealt = true; card0 = some a; card1 = some b })
              d.0.players)
unfolding player_deal
deal_two_lem d e p k m h =
    let ((a, d1), ha, h1) = >>=-eq-ok (draw_card d) _ h in
    let (k1, s1, p1) = draw_card_lem d d1 a k (omega (arith, m)) ha in
    let ((b, d2), hb, h2) = >>=-eq-ok (draw_card d1) _ h1 in
    let room : length (drawn d1.0.card_history) < 52 = omega (
      arith,
      ap (λ (l : List Card). length l) s1,
      length-append (drawn d.0.card_history) (a ∷ []),
      m,
    ) in
    let (k2, s2, p2) = draw_card_lem d1 d2 b k1 room hb in
    let both : drawn d2.0.card_history ≡ drawn d.0.card_history ++ (a ∷ b ∷ []) =
      s2
      ∙ ap (λ (l : List Card). l ++ (b ∷ [])) s1
      ∙ append_assoc (drawn d.0.card_history) (a ∷ []) (b ∷ []) in
    let dealt : Player = record p { is_dealt = true; card0 = some a; card1 = some b } in
    subst
      (λ (x : Dealing).
        (u v : Card) × IsDealing x.0.card_history
        × (drawn x.0.card_history ≡ drawn d.0.card_history ++ (u ∷ v ∷ []))
        × (x.0.players
            ≡ write p.addr (λ _. record p { is_dealt = true; card0 = some u; card1 = some v })
                d.0.players))
      (ok_injective h2)
      (a, b, k2, both, ap (λ (l : List Player). write p.addr (λ _. dealt) l) (p2 ∙ p1))

-- A write in the middle of a list of players who stand apart.
write_middle :
    (before : List Player) (p q : Player) (after : List Player)
    → AreApart (before ++ (p ∷ after))
    → write p.addr (λ _. q) (before ++ (p ∷ after)) ≡ before ++ (q ∷ after)
write_middle [] p q after h = rw (==_refl p.addr, write_none p.addr (λ _. q) after h.0)
write_middle (r ∷ before) p q after h =
    let other : p.addr ≢ r.addr = All-middle before p after h.0 in
    ground (arith, other, write_middle before p q after h.1)
  where
    All-middle :
        (before : List Player) (p : Player) (after : List Player) {n : ℕ}
        → All (λ x. x.addr ≢ n) (before ++ (p ∷ after))
        → p.addr ≢ n
    All-middle [] p after k = k.0
    All-middle (x ∷ before) p after k = All-middle before p after k.1

-- The two cards of each player, in the order of the list.
abbrev pub pockets : List Player → List (Option Card)
pockets [] = []
pockets (p ∷ ps) = p.card0 ∷ p.card1 ∷ pockets ps

deal_players_lem :
    (before ps : List Player) (d e : Dealing)
    → d.0.players ≡ before ++ ps
    → AreApart (before ++ ps)
    → IsDealing d.0.card_history
    → length (drawn d.0.card_history) + 2 * length ps ≤ 52
    → deal_players ps d ≡ ok e
    → IsDealing e.0.card_history
      × ((qs : List Player) × (e.0.players ≡ before ++ qs)
          × (map (λ c. some c) (drawn e.0.card_history)
              ≡ map (λ c. some c) (drawn d.0.card_history) ++ pockets qs)
          × (length qs ≡ length ps))
unfolding deal_players
deal_players_lem before [] d e s h k m g =
    subst
      (λ (x : Dealing).
        IsDealing x.0.card_history
        × ((qs : List Player) × (x.0.players ≡ before ++ qs)
            × (map (λ c. some c) (drawn x.0.card_history)
                ≡ map (λ c. some c) (drawn d.0.card_history) ++ pockets qs)
            × (length qs ≡ 0)))
      (ok_injective g) (k, ([], s, sym (append-nil _), refl))
deal_players_lem before (p ∷ ps) d e s h k m g =
    let (d1, a, g1) = >>=-eq-ok (player_deal d p) _ g in
    let (b, c, k1, s1, p1) = deal_two_lem d d1 p k (omega (arith, m)) a in
    let q : Player = record p { is_dealt = true; card0 = some b; card1 = some c } in
    let moved = write_middle before p q ps h ∙ sym (append_assoc before (q ∷ []) ps) in
    let s2 : d1.0.players ≡ before ++ (q ∷ []) ++ ps =
      p1 ∙ ap (λ (l : List Player). write p.addr (λ _. q) l) s ∙ moved in
    let h2 : AreApart (before ++ (q ∷ []) ++ ps) =
      subst AreApart moved (write-AreApart p.addr q (before ++ (p ∷ ps)) refl h) in
    let m2 : length (drawn d1.0.card_history) + 2 * length ps ≤ 52 = omega (
      arith,
      ap (λ (l : List Card). length l) s1,
      length-append (drawn d.0.card_history) (b ∷ c ∷ []),
      m,
    ) in
    let (k3, (qs, s3, e3, l3)) = deal_players_lem (before ++ (q ∷ [])) ps d1 e s2 h2 k1 m2 g1 in
    (k3, (q ∷ qs, s3 ∙ append_assoc before (q ∷ []) qs, e3 ∙ joined d d1 b c qs s1, ap suc l3))
  where
    joined :
        (d d1 : Dealing) (b c : Card) (qs : List Player)
        → drawn d1.0.card_history ≡ drawn d.0.card_history ++ (b ∷ c ∷ [])
        → map (λ c. some c) (drawn d1.0.card_history) ++ pockets qs
          ≡ map (λ c. some c) (drawn d.0.card_history) ++ (some b ∷ some c ∷ pockets qs)
    joined d d1 b c qs s =
        ap (λ (l : List Card). map (λ c. some c) l ++ pockets qs) s
        ∙ ap (λ (l : List (Option Card)). l ++ pockets qs)
            (map-append (λ c. some c) (drawn d.0.card_history) (b ∷ c ∷ []))
        ∙ append_assoc (map (λ c. some c) (drawn d.0.card_history)) (some b ∷ some c ∷ [])
            (pockets qs)

empty_IsDealing : IsDealing empty_history
empty_IsDealing = record { packed = ground arith; slots = refl; distinct = tt }

-- A deal that returns, to at most 26 players at different addresses and with no card drawn before,
-- keeps the number of the players and has given each two cards; no card is among these twice.
pub deal_hands :
    (poker : Poker) (draws : List Draw) (e : Dealing)
    → AreApart poker.players
    → poker.card_history ≡ empty_history
    → length poker.players ≤ 26
    → deal (poker, draws) ≡ ok e
    → (cs : List Card) × AreDistinct cs
      × (map (λ c. some c) cs ≡ pockets e.0.players)
      × (length e.0.players ≡ length poker.players)
unfolding deal
deal_hands poker draws e h s m g =
    let (d, a, b) = >>=-eq-ok (deal_players poker.players (poker, draws)) _ g in
    let start : IsDealing poker.card_history = subst IsDealing (sym s) empty_IsDealing in
    let none_yet : drawn poker.card_history ≡ [] = ap drawn s in
    let (k, (qs, p, c, l)) =
      deal_players_lem [] poker.players (poker, draws) d refl h start
        (omega (arith, m, ap (λ (l : List Card). length l) none_yet)) a in
    let players : e.0.players ≡ qs = ground (arith, b, p) in
    (
      drawn d.0.card_history,
      k.distinct,
      c
          ∙ ap (λ (l : List Card). map (λ c. some c) l ++ pockets qs) none_yet
          ∙ ap pockets (sym players),
      ap (λ (l : List Player). length l) players ∙ l,
    )
