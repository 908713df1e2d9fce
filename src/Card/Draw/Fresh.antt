-- ===== src/Card/Draw/Fresh.antt =====
-- The cards that `pkrsrv_card_get_random` of src/card.c draws against a history.
use pokerunicorn_server.Prelude.{
  ℕ, suc, ◌+◌, ◌-◌, ◌<◌, ◌≡◌, ◌≢◌, refl, ap, Option, none, some, List, [], ◌∷◌, ◌++◌, arith, inl,
  inr, set, length, All, Bool-cases, Option-cases,
}
use pokerunicorn_server.Prelude.Result.{ok}
use pokerunicorn_server.Card.Types.{Card}
use pokerunicorn_server.Card.Draw.{Draw, random_range, generated, same_card, look, get_random}

-- The cards that a history holds before its first empty slot.
abbrev pub drawn : List (Option Card) → List Card
drawn [] = []
drawn (none ∷ h) = []
drawn (some c ∷ h) = c ∷ drawn h

abbrev pub AllEmpty : List (Option Card) → Type 0
AllEmpty = All (λ s. s ≡ none)

-- Behind the first empty slot every slot is empty.
abbrev pub IsPacked : List (Option Card) → Type 0
IsPacked [] = Unit {0}
IsPacked (none ∷ h) = AllEmpty h
IsPacked (some c ∷ h) = IsPacked h

abbrev pub IsNew : Card → List Card → Type 0
IsNew c = All (λ d. d ≢ c)

-- No card stands twice.
abbrev pub AreDistinct : List Card → Type 0
AreDistinct [] = Unit {0}
AreDistinct (c ∷ cs) = All (λ d. c ≢ d) cs × AreDistinct cs

drawn-AllEmpty : (h : List (Option Card)) → AllEmpty h → drawn h ≡ []
drawn-AllEmpty [] e = refl
drawn-AllEmpty (none ∷ h) e = refl
drawn-AllEmpty (some c ∷ h) e = absurd (cc (e.0))

IsPacked-AllEmpty : (h : List (Option Card)) → AllEmpty h → IsPacked h
IsPacked-AllEmpty [] e = tt
IsPacked-AllEmpty (none ∷ h) e = e.1
IsPacked-AllEmpty (some c ∷ h) e = absurd (cc (e.0))

-- What the loop finds: the first empty slot, and that the card is not before it.
look_lem :
    (c : Card) (i n : ℕ) (h : List (Option Card))
    → IsPacked h
    → length (drawn h) < length h
    → look c i h ≡ some n
    → (j : ℕ) × (n ≡ i + j)
      × IsNew c (drawn h)
      × (drawn (set h j (some c)) ≡ drawn h ++ (c ∷ []))
      × IsPacked (set h j (some c))
unfolding look
look_lem c i n [] k m e = absurd (omega arith)
look_lem c i n (none ∷ h) k m e =
    (0, ground arith, tt, rw (drawn-AllEmpty h k), IsPacked-AllEmpty h k)
look_lem c i n (some d ∷ h) k m e = elim (Bool-cases (same_card d c)) [
  | inl s ↦ absurd (cc (rw s at e))
  | inr s ↦
      let (j, p, new, q, r) = look_lem c (i + 1) n h k (omega arith) (rw s at e) in
      (
        suc j,
        omega (arith, p),
        ((λ (w : d ≡ c). absurd (ground (arith, s, w))), new),
        ap (λ (cs : List Card). d ∷ cs) q,
        r,
      )
]

-- A new card is not passed over.
look_new :
    (c : Card) (i : ℕ) (h : List (Option Card))
    → IsNew c (drawn h)
    → (n : ℕ) × (look c i h ≡ some n)
unfolding look
look_new c i [] k = (i - 1, refl)
look_new c i (none ∷ h) k = (i, refl)
look_new c i (some d ∷ h) k = elim (Bool-cases (same_card d c)) [
  | inl s ↦ absurd (k.0 (ground (arith, s)))
  | inr s ↦ let (n, e) = look_new c (i + 1) h k.1 in (n, rw s e)
]

-- A card that the deck of the program can hold: the kinds are three.
abbrev pub IsOfDeck : Card → Type 0
IsOfDeck c = (c.index < 13) × (c.kind < 3)

generated-IsOfDeck : (r : Draw) → IsOfDeck (generated r)
unfolding generated random_range
generated-IsOfDeck (i, k) = omega arith

-- With room in a packed history, a card that is drawn is one of 13 indexes and 3 kinds, was not drawn
-- before, and is put behind the cards drawn before; the history stays packed.
pub get_random-IsNew :
    (rs : List Draw) (h : List (Option Card)) (c : Card) (h' : List (Option Card)) (rs' : List Draw)
    → IsPacked h
    → length (drawn h) < length h
    → get_random rs h ≡ ok (c, h', rs')
    → IsOfDeck c × IsNew c (drawn h) × (drawn h' ≡ drawn h ++ (c ∷ [])) × IsPacked h'
unfolding get_random
get_random-IsNew [] h c h' rs' k m e = absurd (cc e)
get_random-IsNew (r ∷ rs) h c h' rs' k m e = elim (Option-cases (look (generated r) 0 h)) [
  | inl s ↦ get_random-IsNew rs h c h' rs' k m (rw (s, get_random) at e)
  | inr (n, s) ↦
      let (j, p, new, q, u) = look_lem (generated r) 0 n h k m s in
      let same : c ≡ generated r = ground (arith, s, e) in
      let put : h' ≡ set h n (some (generated r)) = ground (arith, s, e) in
      let at : n ≡ j = omega (arith, p) in rw (same, put, at) (generated-IsOfDeck r, new, q, u)
]

-- If one of the values of rand() gives a card that is not among those before the first empty slot
-- of the history, a card is drawn, whatever the values before it are.
pub get_random_finds :
    (before : List Draw) (r : Draw) (after : List Draw) (h : List (Option Card))
    → IsNew (generated r) (drawn h)
    → (c : Card) × (h' : List (Option Card)) × (rs' : List Draw) × (get_random
          (before ++ (r ∷ after))
          h
        ≡ ok (c, h', rs'))
unfolding get_random
get_random_finds [] r after h k =
    let (n, e) = look_new (generated r) 0 h k in
    (generated r, set h n (some (generated r)), after, ground (arith, e))
get_random_finds (q ∷ before) r after h k = elim (Option-cases (look (generated q) 0 h)) [
  | inl s ↦
      let (c, h', rs', e) = get_random_finds before r after h k in
      (c, h', rs', ground (arith, s, e))
  | inr (n, s) ↦
      (generated q, set h n (some (generated q)), before ++ (r ∷ after), ground (arith, s))
]
