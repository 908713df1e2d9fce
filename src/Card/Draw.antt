-- ===== src/Card/Draw.antt =====
-- `pkrsrv_card_get_random` of src/card.c over `pkrsrv_random_range` of src/random.c. The values of
-- rand(), which no code of the repository computes, are a list that is used up from the front.
pub mod Fresh
use pokerunicorn_server.Prelude.{
  ℕ, zero, suc, ◌+◌, ◌-◌, ◌%◌, Bool, ◌&&◌, Option, none, some, List, [], ◌∷◌, if◌then◌else◌, ◌==◌,
  set,
}
use pokerunicorn_server.Prelude.Result.{Result, ok, fault, no_draw}
use pokerunicorn_server.Card.Types.{Card}

-- `min + (rand() % max - min)` in `int`: the sum is taken first, so that nothing falls below zero.
unfoldable pub random_range : ℕ → ℕ → ℕ → ℕ
random_range rand min max = min + rand % max - min

-- The values of rand() behind a card's index and kind.
abbrev pub Draw : Type 0
Draw = ℕ × ℕ

unfoldable pub generated : Draw → Card
unfolding random_range
generated (i, k) = record { index = random_range i 0 13; kind = random_range k 0 3 }

-- `(previous.index == generated.index) && (previous.kind == generated.kind)`
abbrev pub same_card : Card → Card → Bool
same_card p g = p.index == g.index && p.kind == g.kind

-- The loop over the history, at `i`. `none` is the jump back to GENERATE; else the value that
-- `current_i` has after the loop.
unfoldable pub look : Card → ℕ → List (Option Card) → Option ℕ
look g i [] = some (i - 1)
look g i (none ∷ h) = some i
look g i (some p ∷ h) = if same_card p g then none else look g (i + 1) h

-- The card, the history and the values of rand() that are left. The code loops until a card is new;
-- `no_draw` says that the list of values ended first.
unfoldable pub get_random :
    List Draw → List (Option Card) → Result (Card × List (Option Card) × List Draw)
unfolding look generated
get_random [] h = fault no_draw
get_random (r ∷ rs) h = elim (look (generated r) 0 h) [
  | none ↦ get_random rs h
  | some i ↦ ok (generated r, set h i (some (generated r)), rs)
]
