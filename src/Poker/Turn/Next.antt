-- ===== src/Poker/Turn/Next.antt =====
-- The loop at NEXT_PLAYER in `pkrsrv_poker_do_action` of src/poker.c.
use pokerunicorn_server.Prelude.{
  ℕ, zero, suc, ◌+◌, ◌-◌, ◌≤◌, ◌<◌, ◌≡◌, ◌≢◌, refl, true, false, Option, none, some, List, [], ◌∷◌,
  arith, inl, inr, if◌then◌else◌, ◌==◌, leb, All, Bool-cases, subst, sym, ap, ◌∙◌,
}
use pokerunicorn_server.Prelude.Result.{ok, ◌>>=◌, >>=-eq-ok, ok_injective}
use mathlib.Core.Bool.{false≢true}
use pokerunicorn_server.Poker.Types.{Player, deref}
use pokerunicorn_server.Poker.Players.{player_is_playing, getby_position_in_sorted}
use pokerunicorn_server.Poker.Turn.{next_position, can_act, next_player, turn_fuel}

module _ (ps : List Player) (sorted : List ℕ) (first last : ℕ) where
  -- If the loop at NEXT_PLAYER stops at a position, a search by position in the sorted array finds
  -- a player there, and that player is playing: in the game, not folded and not all-in.
  pub next_player_stops :
      (fuel : ℕ) (pos : Option ℕ) (n : ℕ)
      → next_player fuel ps sorted first last pos ≡ ok n
      → (p : Player) × (getby_position_in_sorted ps sorted n ≡ ok (some p))
        × (player_is_playing p ≡ true)
  unfolding next_player
  next_player_stops zero pos n h = absurd (cc h)
  next_player_stops (suc fuel) pos n h =
      let (o, e, t) =
        >>=-eq-ok (getby_position_in_sorted ps sorted (next_position first last pos)) _ h in
      at (next_player_stops fuel (some (next_position first last pos)) n) o e t
    where
      at :
          (next_player fuel ps sorted first last (some (next_position first last pos)) ≡ ok n
            → (p : Player) × (getby_position_in_sorted ps sorted n ≡ ok (some p))
              × (player_is_playing p ≡ true))
          → (o : Option Player)
          → getby_position_in_sorted ps sorted (next_position first last pos) ≡ ok o
          → (elim (can_act o) [
            | true ↦ ok (next_position first last pos)
            | false ↦ next_player fuel ps sorted first last (some (next_position first last pos))
          ])
            ≡ ok n
          → (p : Player) × (getby_position_in_sorted ps sorted n ≡ ok (some p))
            × (player_is_playing p ≡ true)
      at ih none e t = ih t
      at ih (some p) e t = elim (Bool-cases (player_is_playing p)) [
        | inl b ↦ (
          p,
          subst (λ m. getby_position_in_sorted ps sorted m ≡ ok (some p)) (ok_injective (rw b at t))
              e,
          b,
        )
        | inr b ↦ ih (rw b at t)
      ]

  -- The rounds from a position to the position `t`, round the table.
  abbrev gap : ℕ → ℕ → ℕ
  gap t m = if leb m t then t - m else last - m + 1 + (t - first)

  gap_lem :
      (t m : ℕ)
      → first ≤ t
      → t ≤ last
      → m ≤ last
      → m ≢ t
      → (gap t (next_position first last (some m)) < gap t m)
        × (next_position first last (some m) ≤ last)
  gap_lem t m a b c d = (ground arith, ground arith)

  next_player_loop :
      (t : ℕ) (p : Player)
      → getby_position_in_sorted ps sorted t ≡ ok (some p)
      → player_is_playing p ≡ true
      → ((m : ℕ) → (o : Option Player) × (getby_position_in_sorted ps sorted m ≡ ok o))
      → first ≤ t
      → t ≤ last
      → (fuel : ℕ) (pos : Option ℕ) → next_position first last pos ≤ last
      → gap t (next_position first last pos) < fuel
      → (n : ℕ) × (next_player fuel ps sorted first last pos ≡ ok n)
  unfolding next_player
  next_player_loop t p e playing safe a b zero pos c d = absurd (omega arith)
  next_player_loop t p e playing safe a b (suc fuel) pos c d =
      let m = next_position first last pos in
      let (o, s) = safe m in
      step m o s (λ z.
        let less = gap_lem t m a b c (not_there t p e playing m o s z) in
        next_player_loop t p e playing safe a b fuel (some m) less.1 (omega (arith, less.0, d)))
    where
      step :
          (m : ℕ) (o : Option Player)
          → getby_position_in_sorted ps sorted m ≡ ok o
          → (can_act o ≡ false → (n : ℕ) × (next_player fuel ps sorted first last (some m) ≡ ok n))
          → (n : ℕ) × ((getby_position_in_sorted ps sorted m >>= λ o'. elim (can_act o') [
            | true ↦ ok m
            | false ↦ next_player fuel ps sorted first last (some m)
          ])
              ≡ ok n)
      step m none s ih = let (n, r) = ih refl in (n, rw s r)
      step m (some q) s ih = elim (Bool-cases (player_is_playing q)) [
        | inl z ↦ (m, ground (arith, s, z))
        | inr z ↦ let (n, r) = ih z in (n, ground (arith, s, z, r))
      ]

      not_there :
          (t : ℕ) (p : Player)
          → getby_position_in_sorted ps sorted t ≡ ok (some p)
          → player_is_playing p ≡ true
          → (m : ℕ) (o : Option Player) → getby_position_in_sorted ps sorted m ≡ ok o
          → can_act o ≡ false
          → m ≢ t
      not_there t p e playing m o s z k =
          let same : o ≡ some p =
            ok_injective (sym s ∙ ap (λ n. getby_position_in_sorted ps sorted n) k ∙ e) in
          false≢true (sym z ∙ ap can_act same ∙ playing)

  -- Where a search by position meets no dangling pointer, and finds a playing player at some
  -- position from that of the first seat to that of the last, the loop at NEXT_PLAYER ends from
  -- any position within the fuel that the model gives it.
  pub next_player_total :
      (t : ℕ) (p : Player) (pos : Option ℕ)
      → getby_position_in_sorted ps sorted t ≡ ok (some p)
      → player_is_playing p ≡ true
      → ((m : ℕ) → (o : Option Player) × (getby_position_in_sorted ps sorted m ≡ ok o))
      → first ≤ t
      → t ≤ last
      → (n : ℕ) × (next_player (turn_fuel last) ps sorted first last pos ≡ ok n)
  next_player_total t p pos e playing safe a b =
      next_player_loop t p e playing safe a b (turn_fuel last) pos (start_le pos) (start_gap pos)
    where
      start_le : (pos : Option ℕ) → next_position first last pos ≤ last
      start_le none = ground arith
      start_le (some m) = ground arith

      start_gap : (pos : Option ℕ) → gap t (next_position first last pos) < turn_fuel last
      start_gap none = ground arith
      start_gap (some m) = ground arith

-- Every address of a list of addresses is that of a player.
abbrev pub AllLive : List Player → List ℕ → Type 0
AllLive ps = All (λ a. (p : Player) × (deref a ps ≡ some p))

-- Then a search by position follows no dangling pointer.
pub getby_position_in_sorted_safe :
    (ps : List Player) (sorted : List ℕ) (m : ℕ)
    → AllLive ps sorted
    → (o : Option Player) × (getby_position_in_sorted ps sorted m ≡ ok o)
unfolding getby_position_in_sorted
getby_position_in_sorted_safe ps [] m h = (none, refl)
getby_position_in_sorted_safe ps (a ∷ sorted) m h =
    let (p, e) = h.0 in
    elim (Bool-cases (p.position == m)) [
      | inl b ↦ (some p, ground (arith, e, b))
      | inr b ↦
          let (o, r) = getby_position_in_sorted_safe ps sorted m h.1 in (o, ground (arith, e, b, r))
    ]
