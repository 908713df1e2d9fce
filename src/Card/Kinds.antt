-- ===== src/Card/Kinds.antt =====
-- The checks of a pair, of three and of four of a kind of src/card.c on cards in falling order.
use pokerunicorn_server.Prelude.{ℕ, ◌+◌, ◌≤◌, ◌≡◌, ◌↔◌, Bool, true, arith, if◌then◌else◌, ◌==◌}
use pokerunicorn_server.Card.Types.{Five}
use pokerunicorn_server.Card.Check.{check_pair, check_three_kind, check_quad}

pub record Falls (f : Five) : Type 0 where
  pub down1 : f.c1.index ≤ f.c0.index
  pub down2 : f.c2.index ≤ f.c1.index
  pub down3 : f.c3.index ≤ f.c2.index
  pub down4 : f.c4.index ≤ f.c3.index

abbrev one_if : Bool → ℕ
one_if b = if b then 1 else 0

-- How many of the five cards have the index.
abbrev pub count_of : ℕ → Five → ℕ
count_of i f =
    one_if (f.c0.index == i)
    + one_if (f.c1.index == i)
    + one_if (f.c2.index == i)
    + one_if (f.c3.index == i)
    + one_if (f.c4.index == i)

-- Some index is that of at least `n` of the cards.
abbrev pub HasKind : ℕ → Five → Type 0
HasKind n f = (i : ℕ) × (n ≤ count_of i f)

quad_found : (f : Five) → Falls f → (check_quad f).is_exists ≡ true → HasKind 4 f
unfolding check_quad
quad_found f h e = (f.c2.index, ground arith)

quad_complete : (f : Five) → Falls f → HasKind 4 f → (check_quad f).is_exists ≡ true
unfolding check_quad
quad_complete f h (i, k) = ground arith

three_kind_found : (f : Five) → Falls f → (check_three_kind f).is_exists ≡ true → HasKind 3 f
unfolding check_three_kind
three_kind_found f h e = (f.c2.index, ground arith)

three_kind_complete : (f : Five) → Falls f → HasKind 3 f → (check_three_kind f).is_exists ≡ true
unfolding check_three_kind
three_kind_complete f h (i, k) = ground arith

pair_complete : (f : Five) → Falls f → HasKind 2 f → (check_pair f).is_exists ≡ true
unfolding check_pair
pair_complete f h (i, k) = ground arith

-- The index of the first two neighbours that agree.
pair_index : Five → ℕ
pair_index f =
    if f.c0.index == f.c1.index
    then f.c0.index
    else if f.c1.index == f.c2.index
    then f.c1.index
    else if f.c2.index == f.c3.index
    then f.c2.index
    else f.c3.index

pair_found : (f : Five) → (check_pair f).is_exists ≡ true → HasKind 2 f
unfolding check_pair pair_index
pair_found f e = (pair_index f, ground arith)

-- On five cards in falling order of the index, the checks of a pair, of three and of four of a kind
-- succeed exactly when some index is that of at least two, three and four of the cards.
pub kinds_exact :
    (f : Five)
    → Falls f
    → (((check_pair f).is_exists ≡ true) ↔ HasKind 2 f)
      × (((check_three_kind f).is_exists ≡ true) ↔ HasKind 3 f)
      × (((check_quad f).is_exists ≡ true) ↔ HasKind 4 f)
kinds_exact f h = (
  (pair_found f, pair_complete f h),
  (three_kind_found f h, three_kind_complete f h),
  (quad_found f h, quad_complete f h),
)
