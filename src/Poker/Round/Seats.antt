-- ===== src/Poker/Round/Seats.antt =====
-- The seats of the blinds that `pkrsrv_poker_start` of src/poker.c finds.
use mathlib.Core.Bool.{true≢false}
use pokerunicorn_server.Prelude.{
  ℕ, zero, suc, ◌+◌, ◌-◌, ◌%◌, ◌≤◌, ◌<◌, ◌≡◌, ◌≢◌, ◌∙◌, refl, ap, sym, true, Option, none, some,
  List, [], ◌∷◌, arith, inl, inr, if◌then◌else◌, ◌==◌, Bool-cases, leb,
}
use pokerunicorn_server.Prelude.Result.{ok}
use pokerunicorn_server.Poker.Types.{Player, Poker}
use pokerunicorn_server.Poker.Players.{getby_position}
use pokerunicorn_server.Poker.Round.{is_seated, find_seat, seat_fuel, seat_blinds, blinds_at}

-- A player found by position sits there.
getby_position_lem :
    (ps : List Player) (i : ℕ) (p : Player) → getby_position ps i ≡ some p → p.position ≡ i
getby_position_lem [] i p e = absurd (cc e)
getby_position_lem (q ∷ ps) i p e = ground (arith, e, getby_position_lem ps i p)

-- A player who has not left sits at position `i`.
abbrev pub IsTaken : List Player → ℕ → Type 0
IsTaken ps i = is_seated (getby_position ps i) ≡ true

-- How far the seat `t` is from `i`, ten seats round.
abbrev ahead : ℕ → ℕ → ℕ
ahead i t = if leb i t then t - i else 10 - i + t

ahead_next : (i t : ℕ) → i < 10 → t < 10 → i ≢ t → ahead i t ≡ ahead ((i + 1) % 10) t + 1
ahead_next i t h k n = ground arith

ahead_next_le : (i p : ℕ) → i < 10 → p < 10 → ahead i p ≤ ahead ((i + 1) % 10) p + 1
ahead_next_le i p h k = ground arith

seated_lem : (o : Option Player) → is_seated o ≡ true → (p : Player) × (o ≡ some p)
seated_lem none e = absurd (cc e)
seated_lem (some p) e = (p, refl)

-- Where a seat is taken, the loop ends at a taken seat no further on.
pub find_seat_total :
    (ps : List Player) (t : ℕ)
    → IsTaken ps t
    → t < 10
    → (fuel : ℕ) (i : ℕ) → ahead (i % 10) t < fuel
    → (p : Player) × (find_seat fuel ps i ≡ ok p)
      × IsTaken ps p.position
      × (getby_position ps p.position ≡ some p)
      × (p.position < 10)
      × (ahead (i % 10) p.position ≤ ahead (i % 10) t)
unfolding find_seat
find_seat_total ps t h l zero i k = absurd (omega arith)
find_seat_total ps t h l (suc fuel) i k =
    elim (Bool-cases (is_seated (getby_position ps (i % 10)))) [
      | inl b ↦
          let (p, e) = seated_lem (getby_position ps (i % 10)) b in
          let at : p.position ≡ i % 10 = getby_position_lem ps (i % 10) p e in
          (p, ground (arith, b, e), rw at b, rw at e, omega (arith, at), ground (arith, at))
      | inr b ↦
          let other : i % 10 ≢ t =
            λ e. true≢false (sym h ∙ ap (λ n. is_seated (getby_position ps n)) (sym e) ∙ b) in
          let (p, e, x, y, z, w) =
            find_seat_total ps t h l fuel (i % 10 + 1)
              (omega (arith, ahead_next (i % 10) t (omega arith) l other, k)) in
          (p, ground (arith, b, e), x, y, z, far (i % 10) t p.position (omega arith) l z other w)
    ]
  where
    far :
        (j t p : ℕ)
        → j < 10
        → t < 10
        → p < 10
        → j ≢ t
        → ahead ((j + 1) % 10) p ≤ ahead ((j + 1) % 10) t
        → ahead j p ≤ ahead j t
    far j t p a b c n h = omega (arith, ahead_next j t a b n, ahead_next_le j p a c, h)

-- With players who have not left at two positions below ten, the start finds the seats of the
-- blinds: two players at different positions, neither of whom has left, with the turn on the small
-- blind.
pub seat_blinds_total :
    (now : ℕ) (poker : Poker) (s t : ℕ)
    → IsTaken poker.players s
    → IsTaken poker.players t
    → s < 10
    → t < 10
    → s ≢ t
    → (q : Poker) × (sb : Player) × (bb : Player) × (seat_blinds now poker ≡ ok (q, sb, bb))
      × IsTaken poker.players sb.position
      × IsTaken poker.players bb.position
      × (sb.position ≢ bb.position)
      × (q.sb_player ≡ some sb.addr)
      × (q.bb_player ≡ some bb.addr)
      × (q.playing_position ≡ some sb.position)
unfolding seat_blinds blinds_at
seat_blinds_total now poker s t hs ht ls lt n =
    let (sb, e, x, _, l, _) =
      find_seat_total poker.players s hs ls seat_fuel poker.button_position (near _ s ls) in
    let (o, ho, lo, ne) = other sb.position in
    let (bb, f, y, _, m, near_bb) =
      find_seat_total poker.players o ho lo seat_fuel (sb.position + 1) (near _ o lo) in
    (
      blinds_at now sb bb poker,
      sb,
      bb,
      ground (arith, e, f),
      x,
      y,
      apart sb.position bb.position o l m lo ne near_bb,
      refl,
      refl,
      refl,
    )
  where
    near : (i t : ℕ) → t < 10 → ahead (i % 10) t < seat_fuel
    near i t h = ground arith

    other : (i : ℕ) → (o : ℕ) × IsTaken poker.players o × (o < 10) × (o ≢ i)
    other i = elim (Bool-cases (s == i)) [
      | inl b ↦ (t, ht, lt, ground (arith, b, n))
      | inr b ↦ (s, hs, ls, ground (arith, b))
    ]

    apart :
        (i p o : ℕ)
        → i < 10
        → p < 10
        → o < 10
        → o ≢ i
        → ahead ((i + 1) % 10) p ≤ ahead ((i + 1) % 10) o
        → i ≢ p
    apart i p o a b c k h e = ground (arith, h, e)
