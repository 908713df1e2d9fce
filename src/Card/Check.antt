-- ===== src/Card/Check.antt =====
-- The checks `pkrsrv_card_check_*` of src/card.c.
use pokerunicorn_server.Prelude.{◌+◌, Bool, not, ◌&&◌, if◌then◌else◌, ◌==◌}
use pokerunicorn_server.Card.Types.{
  Card, Five, CheckResult, high_card, pair, two_pair, three_kind, straight, flush, full_house, quad,
  straight_flush, royal_flush, no_result, found,
}

-- `a.index == b.index`
abbrev pub same_index : Card → Card → Bool
same_index a b = a.index == b.index

-- `a.index == (b.index - 1)`, in `int`
abbrev pub just_below : Card → Card → Bool
just_below a b = a.index + 1 == b.index

-- `a.kind == b.kind`
abbrev pub same_kind : Card → Card → Bool
same_kind a b = a.kind == b.kind

-- The condition of a straight, written out in three checks.
abbrev pub in_sequence : Five → Bool
in_sequence f = just_below c0 c1 && just_below c1 c2 && just_below c2 c3 && just_below c3 c4
  where
    open f use {c0, c1, c2, c3, c4}

-- The condition of a flush, written out in three checks.
abbrev pub in_suit : Five → Bool
in_suit f = same_kind c0 c1 && same_kind c1 c2 && same_kind c2 c3 && same_kind c3 c4
  where
    open f use {c0, c1, c2, c3, c4}

unfoldable pub check_high_card : Five → CheckResult
check_high_card f = record (no_result high_card) { cards = f }

unfoldable pub check_two_pair : Five → CheckResult
check_two_pair f =
    if same_index c0 c1 && same_index c2 c3
    then found two_pair c0 c1 c2 c3 c4
    else if same_index c0 c1 && same_index c3 c4
    then found two_pair c0 c1 c3 c4 c2
    else if same_index c1 c2 && same_index c3 c4
    then found two_pair c1 c2 c3 c4 c0
    else no_result two_pair
  where
    open f use {c0, c1, c2, c3, c4}

unfoldable pub check_pair : Five → CheckResult
check_pair f =
    if same_index c0 c1
    then found pair c0 c1 c2 c3 c4
    else if same_index c1 c2
    then found pair c1 c2 c0 c3 c4
    else if same_index c2 c3
    then found pair c2 c3 c0 c1 c4
    else if same_index c3 c4
    then found pair c3 c4 c0 c1 c2
    else no_result pair
  where
    open f use {c0, c1, c2, c3, c4}

unfoldable pub check_three_kind : Five → CheckResult
check_three_kind f =
    if same_index c0 c1 && same_index c1 c2
    then found three_kind c0 c1 c2 c3 c4
    else if same_index c1 c2 && same_index c2 c3
    then found three_kind c1 c2 c3 c0 c4
    else if same_index c2 c3 && same_index c3 c4
    then found three_kind c2 c3 c4 c0 c1
    else no_result three_kind
  where
    open f use {c0, c1, c2, c3, c4}

unfoldable pub check_straight : Five → CheckResult
check_straight f = if in_sequence f then found straight c0 c1 c2 c3 c4 else no_result straight
  where
    open f use {c0, c1, c2, c3, c4}

unfoldable pub check_flush : Five → CheckResult
check_flush f = if in_suit f then found flush c0 c1 c2 c3 c4 else no_result flush
  where
    open f use {c0, c1, c2, c3, c4}

unfoldable pub check_full_house : Five → CheckResult
check_full_house f =
    if same_index c0 c1 && same_index c1 c2 && same_index c3 c4
    then found full_house c0 c1 c2 c3 c4
    else if same_index c0 c1 && same_index c2 c3 && same_index c3 c4
    then found full_house c2 c3 c4 c0 c1
    else no_result full_house
  where
    open f use {c0, c1, c2, c3, c4}

unfoldable pub check_quad : Five → CheckResult
check_quad f =
    if same_index c0 c1 && same_index c1 c2 && same_index c2 c3
    then found quad c0 c1 c2 c3 c4
    else if same_index c1 c2 && same_index c2 c3 && same_index c3 c4
    then found quad c1 c2 c3 c4 c0
    else no_result quad
  where
    open f use {c0, c1, c2, c3, c4}

unfoldable pub check_straight_flush : Five → CheckResult
check_straight_flush f =
    if not (in_sequence f)
    then no_result straight_flush
    else if in_suit f
    then found straight_flush c0 c1 c2 c3 c4
    else no_result straight_flush
  where
    open f use {c0, c1, c2, c3, c4}

-- Ace down to ten, by position.
abbrev pub is_royal : Five → Bool
is_royal f =
    f.c0.index == 12 && f.c1.index == 11 && f.c2.index == 10 && f.c3.index == 9 && f.c4.index == 8

-- Every path returns the result as it was made.
unfoldable pub check_royal_flush : Five → CheckResult
check_royal_flush f =
    if not (in_sequence f)
    then no_result royal_flush
    else if in_suit f
    then no_result royal_flush
    else if not (is_royal f)
    then no_result royal_flush
    else no_result royal_flush
