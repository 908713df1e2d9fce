-- ===== src/Card/Best.antt =====
-- The choice of the best hand out of seven cards, `pkrsrv_card_get_best_fives_score` of src/card.c.
use mathlib.Core.List.{Mem, mem-cons_self, mem-cons_of_mem}
use native.Mathlib.Nat.{le_trans}
use pokerunicorn_server.Prelude.{
  ℕ, zero, suc, ◌<◌, ◌≤◌, ◌≡◌, refl, ap, false, ◌⊎◌, inl, inr, List, [], ◌∷◌, ◌∙◌, arith, ltb,
  Bool-cases, All, All-mono, All-map,
}
use pokerunicorn_server.Exchange.Order.{IsFalling, exchange_sort-IsFalling}
use pokerunicorn_server.Card.Types.{Card, Five, ScoreResult, zero_score}
use pokerunicorn_server.Card.Check.{
  check_straight, check_straight_flush, check_quad, check_full_house, check_flush, check_three_kind,
  check_two_pair, check_pair, check_high_card,
}
use pokerunicorn_server.Card.Score.{
  score_check, score_rank, get_fives_score, sort_sevens, card_at, pick_five, fives_indexes,
  get_fives, better, highest_score, get_best_fives_score,
}
use pokerunicorn_server.Card.Bands.{check_royal_flush_never}

abbrev pub rank_of : Five → ℕ
rank_of f = (get_fives_score f).check_result.rank

-- The loop never lowers the rank in hand.
highest_score-ge :
    (h : ScoreResult) (fs : List Five)
    → h.check_result.rank ≤ (highest_score h fs).check_result.rank
unfolding highest_score
highest_score-ge h [] = omega arith
highest_score-ge h (f ∷ fs) =
    le_trans {m = (better h (get_fives_score f)).check_result.rank} (ground arith)
      (highest_score-ge (better h (get_fives_score f)) fs)

highest_score-max :
    (h : ScoreResult) (fs : List Five)
    → All (λ f. rank_of f ≤ (highest_score h fs).check_result.rank) fs
unfolding highest_score
highest_score-max h [] = tt
highest_score-max h (f ∷ fs) = (
  le_trans {m = (better h (get_fives_score f)).check_result.rank} (ground arith)
      (highest_score-ge (better h (get_fives_score f)) fs),
  highest_score-max (better h (get_fives_score f)) fs,
)

abbrev pub Among : ScoreResult → List Five → Type 0
Among s fs = (f : Five) × Mem f fs × (get_fives_score f ≡ s)

highest_score-Among :
    (h : ScoreResult) (fs : List Five) → (highest_score h fs ≡ h) ⊎ Among (highest_score h fs) fs
unfolding highest_score
highest_score-Among h [] = inl refl
highest_score-Among h (f ∷ fs) = elim (highest_score-Among (better h (get_fives_score f)) fs) [
  | inl e ↦ elim (Bool-cases (ltb h.check_result.rank (rank_of f))) [
    | inl b ↦ inr (f, mem-cons_self, cc (e, b))
    | inr b ↦ inl (e ∙ rw b)
  ]
  | inr (g, m, e) ↦ inr (g, mem-cons_of_mem f m, e)
]

score_positive : (f : Five) → 0 < rank_of f
unfolding get_fives_score score_check score_rank check_straight_flush check_quad check_full_house
    check_flush check_straight check_three_kind check_two_pair check_pair check_high_card
score_positive f = ground (arith, check_royal_flush_never f)

-- The score that is chosen is that of one of the 21 hands of five, and no other of the 21 ranks above
-- it.
pub best_is_highest :
    (sevens : List Card)
    → let best = get_best_fives_score sevens in
      let hands = get_fives (sort_sevens sevens) in
      Among best hands × All (λ f. rank_of f ≤ best.check_result.rank) hands
unfolding get_best_fives_score
best_is_highest sevens = (
  elim (highest_score-Among zero_score (get_fives (sort_sevens sevens))) [
    | inl e ↦ absurd (positive e)
    | inr m ↦ m
  ],
  highest_score-max zero_score (get_fives (sort_sevens sevens)),
)
  where
    first : Five
    first = pick_five (sort_sevens sevens) (0, 1, 2, 3, 4)

    below :
        rank_of first
        ≤ (highest_score zero_score (get_fives (sort_sevens sevens))).check_result.rank
    below = unfold get_fives in (highest_score-max zero_score (get_fives (sort_sevens sevens))).0

    positive : highest_score zero_score (get_fives (sort_sevens sevens)) ≡ zero_score → ⊥
    positive e =
        omega (arith, below, score_positive first, ap (λ (s : ScoreResult). s.check_result.rank) e)

-- The first card of a hand is no lower than the second.
abbrev pub StartsFalling : Five → Type 0
StartsFalling f = f.c1.index ≤ f.c0.index

abbrev pub NoStraight : ScoreResult → Type 0
NoStraight s = (s.is_straight ≡ false) × (s.is_straight_flush ≡ false) × (s.is_royal_flush ≡ false)

check_straight_falling : (f : Five) → StartsFalling f → (check_straight f).is_exists ≡ false
unfolding check_straight
check_straight_falling f h = ground arith

check_straight_flush_falling :
    (f : Five) → StartsFalling f → (check_straight_flush f).is_exists ≡ false
unfolding check_straight_flush
check_straight_flush_falling f h = ground arith

score-NoStraight : (f : Five) → StartsFalling f → NoStraight (get_fives_score f)
unfolding get_fives_score score_check score_rank
score-NoStraight f h =
    ground (
      arith,
      check_royal_flush_never f,
      check_straight_falling f h,
      check_straight_flush_falling f h,
    )

highest_score-NoStraight :
    (h : ScoreResult) (fs : List Five)
    → NoStraight h
    → All StartsFalling fs
    → NoStraight (highest_score h fs)
unfolding highest_score
highest_score-NoStraight h [] n k = n
highest_score-NoStraight h (f ∷ fs) n k =
    highest_score-NoStraight (better h (get_fives_score f)) fs
      (ground (arith, n, score-NoStraight f k.0)) k.1

card_at-le : (n : ℕ) (cs : List Card) (b : ℕ) → All (λ c. c.index ≤ n) cs → (card_at cs b).index ≤ n
card_at-le n [] b h = omega arith
card_at-le n (c ∷ cs) zero h = h.0
card_at-le n (c ∷ cs) (suc b) h = card_at-le n cs b h.1

card_at-falling :
    (cs : List Card) (a b : ℕ)
    → a < b
    → IsFalling (λ c. c.index) cs
    → (card_at cs b).index ≤ (card_at cs a).index
card_at-falling [] a b h k = omega arith
card_at-falling (c ∷ cs) a zero h k = absurd (omega arith)
card_at-falling (c ∷ cs) zero (suc b) h k = card_at-le c.index cs b k.0
card_at-falling (c ∷ cs) (suc a) (suc b) h k = card_at-falling cs a b (omega arith) k.1

get_fives-StartsFalling :
    (cs : List Card) → IsFalling (λ c. c.index) cs → All StartsFalling (get_fives cs)
unfolding get_fives
get_fives-StartsFalling cs k = All-map (pick_five cs) StartsFalling fives_indexes (
    All-mono (λ r. r.0 < r.1) _ fives_indexes (λ r h. card_at-falling cs r.0 r.1 h k) (omega arith))

-- The best hand of any cards is never scored as a straight, a straight flush or a royal flush.
pub best-NoStraight : (sevens : List Card) → NoStraight (get_best_fives_score sevens)
unfolding get_best_fives_score sort_sevens
best-NoStraight sevens =
    highest_score-NoStraight zero_score (get_fives (sort_sevens sevens)) (refl, refl, refl)
      (get_fives-StartsFalling (sort_sevens sevens) (exchange_sort-IsFalling (λ c. c.index) sevens))
