-- ===== src/Exchange/Order.antt =====
-- The order and the elements of what the exchange sort of src/card.c and src/poker.c leaves.
use mathlib.Core.List.{Perm, perm_middle, append-nil, append_assoc}
use mathlib.Core.List.Perm
use pokerunicorn_server.Prelude.{
  ℕ, zero, suc, ◌≤◌, ◌≡◌, refl, sym, ap, subst, Bool, true, false, inl, inr, List, [], ◌∷◌, ◌++◌,
  arith, if◌then◌else◌, length, All, All-append, All-mono, Bool-cases, ltb,
}
use pokerunicorn_server.Exchange.{pass, rounds, exchange_sort}

module _ {ℓ} {A : Type ℓ} (wrong : A → A → Bool) where
  pub pass-perm : (x : A) (p : List A) → Perm (x ∷ p) ((pass wrong x p).1 ∷ (pass wrong x p).0)
  unfolding pass
  pass-perm x [] = Perm.refl _
  pass-perm x (y ∷ ys) = elim (Bool-cases (wrong x y)) [
    | inl e ↦ rw e (Perm.trans (Perm.cons x (pass-perm y ys)) (Perm.swap _ _ _))
    | inr e ↦
        rw e (
          Perm.trans (Perm.swap _ _ _)
            (Perm.trans (Perm.cons y (pass-perm x ys)) (Perm.swap _ _ _)))
  ]

  pass-length : (x : A) (p : List A) → length (pass wrong x p).0 ≡ length p
  unfolding pass
  pass-length x [] = refl
  pass-length x (y ∷ ys) = ap suc (pass-length (if wrong x y then y else x) ys)

  rounds-perm : (n : ℕ) (p s : List A) → Perm (p ++ s) (rounds wrong n p s)
  unfolding rounds
  rounds-perm zero p s = Perm.refl _
  rounds-perm (suc n) p [] = rw append-nil (Perm.refl p)
  rounds-perm (suc n) p (x ∷ s) =
      let (p', x1) = pass wrong x p in
      let (s', x2) = pass wrong x1 s in
      Perm.trans (perm_middle p s) (
        Perm.trans (Perm.append (pass-perm x p) (Perm.refl s)) (
          Perm.trans (Perm.symm (perm_middle p' s)) (
            Perm.trans (Perm.append (Perm.refl p') (pass-perm x1 s))
              (rw (← append_assoc p' (x2 ∷ []) s') (rounds-perm n (p' ++ (x2 ∷ [])) s')))))

  -- The result holds the elements of the array, each as often.
  pub exchange_sort-perm : (xs : List A) → Perm xs (exchange_sort wrong xs)
  unfolding exchange_sort
  exchange_sort-perm xs = rounds-perm (length xs) [] xs

All-last {ℓ κ} : {A : Type ℓ} (P : A → Type κ) (p : List A) (m : A) → All P (p ++ (m ∷ [])) → P m
All-last P [] m h = h.0
All-last P (x ∷ p) m h = All-last P p m h.1

-- Each element may stand before all behind it.
abbrev pub IsSorted {ℓ} : {A : Type ℓ} → (A → A → Type 0) → List A → Type 0
IsSorted R [] = Unit {0}
IsSorted R (x ∷ xs) = All (R x) xs × IsSorted R xs

-- `R x y` says that x may stand before y. The test is to hold only where x may move before y, and to
-- fail exactly where y may stay before x.
module _ {ℓ} {A : Type ℓ} (R : A → A → Type 0) (wrong : A → A → Bool) (R_refl : (x : A) → R x x)
    (R_trans : (x y z : A) → R x y → R y z → R x z) (swaps : (x y : A) → wrong x y ≡ true → R x y)
    (keeps : (x y : A) → wrong x y ≡ false → R y x)
    (idle : (x y : A) → R y x → wrong x y ≡ false) where
  pass-All :
      (w x : A) (p : List A)
      → R w x
      → All (R w) p
      → All (R w) (pass wrong x p).0 × R w (pass wrong x p).1
  unfolding pass
  pass-All w x [] h k = (tt, h)
  pass-All w x (y ∷ ys) h k = elim (Bool-cases (wrong x y)) [
    | inl e ↦ rw e (let r = pass-All w y ys k.0 k.1 in ((h, r.0), r.1))
    | inr e ↦ rw e (let r = pass-All w x ys h k.1 in ((k.0, r.0), r.1))
  ]

  pass_swap :
      (x y : A) (ys : List A)
      → wrong x y ≡ true
      → pass wrong x (y ∷ ys) ≡ (x ∷ (pass wrong y ys).0, (pass wrong y ys).1)
  unfolding pass
  pass_swap x y ys e = rw e

  pass_keep :
      (x y : A) (ys : List A)
      → wrong x y ≡ false
      → pass wrong x (y ∷ ys) ≡ (y ∷ (pass wrong x ys).0, (pass wrong x ys).1)
  unfolding pass
  pass_keep x y ys e = rw e

  abbrev Least : A → A → List A → List A × A → Type 0
  Least x y ys r = All (λ z. R z r.1) (y ∷ ys) × R x r.1

  -- What comes to stand at i may stand behind all.
  pass_least : (x : A) (p : List A) → All (λ y. R y (pass wrong x p).1) p × R x (pass wrong x p).1
  pass_least x [] = unfold pass in (tt, R_refl x)
  pass_least x (y ∷ ys) = elim (Bool-cases (wrong x y)) [
    | inl e ↦
        subst (Least x y ys) (sym (pass_swap x y ys e))
          (let r = pass_least y ys in ((r.1, r.0), R_trans x y _ (swaps x y e) r.1))
    | inr e ↦
        subst (Least x y ys) (sym (pass_keep x y ys e))
          (let r = pass_least x ys in ((R_trans y x _ (keeps x y e) r.1, r.0), r.1))
  ]

  -- And so it does behind those that stay.
  pass_stays : (x : A) (p : List A) → All (λ y. R y (pass wrong x p).1) (pass wrong x p).0
  pass_stays x [] = unfold pass in tt
  pass_stays x (y ∷ ys) = elim (Bool-cases (wrong x y)) [
    | inl e ↦
        rw (pass_swap x y ys e) (R_trans x y _ (swaps x y e) (pass_least y ys).1, pass_stays y ys)
    | inr e ↦
        rw (pass_keep x y ys e) (R_trans y x _ (keeps x y e) (pass_least x ys).1, pass_stays x ys)
  ]

  -- Over a sorted run the pass is an insertion.
  pass-IsSorted :
      (x : A) (p : List A)
      → IsSorted R p
      → IsSorted R ((pass wrong x p).0 ++ ((pass wrong x p).1 ∷ []))
  unfolding pass
  pass-IsSorted x [] h = (tt, tt)
  pass-IsSorted x (y ∷ ys) h = elim (Bool-cases (wrong x y)) [
    | inl e ↦ rw e (
        let s = swaps x y e in
        let r = pass-All x y ys s (All-mono _ _ ys (λ a k. R_trans x y a s k) h.0) in
        (All-append _ _ _ r.0 (r.1, tt), pass-IsSorted y ys h.1))
    | inr e ↦ rw e (
        let r = pass-All y x ys (keeps x y e) h.0 in
        (All-append _ _ _ r.0 (r.1, tt), pass-IsSorted x ys h.1))
  ]

  -- A pass with a last element in hand exchanges nothing.
  pass_idle : (x : A) (s : List A) → All (λ y. R y x) s → pass wrong x s ≡ (s, x)
  unfolding pass
  pass_idle x [] h = refl
  pass_idle x (y ∷ ys) h = rw (idle x y h.0, pass_idle x ys h.1)

  -- From the second round on, the last of the elements before i may stand behind all.
  rounds-IsSorted :
      (n : ℕ) (p : List A) (m : A) (s : List A)
      → length s ≡ n
      → IsSorted R (p ++ (m ∷ []))
      → All (λ y. R y m) s
      → IsSorted R (rounds wrong n (p ++ (m ∷ [])) s)
  unfolding rounds
  rounds-IsSorted zero p m [] e h k = rw append-nil h
  rounds-IsSorted zero p m (x ∷ s) e h k = absurd (omega arith)
  rounds-IsSorted (suc n) p m [] e h k = h
  rounds-IsSorted (suc n) p m (x ∷ s) e h k =
      let q = p ++ (m ∷ []) in
      let r = pass_least x q in
      let low : All (λ y. R y (pass wrong x q).1) s =
        All-mono _ _ s (λ a j. R_trans a m _ j (All-last _ p m r.0)) k.1 in
      rw (pass_idle (pass wrong x q).1 s low) (
        rounds-IsSorted n (pass wrong x q).0 (pass wrong x q).1 s (omega arith)
          (pass-IsSorted x q h) low)

  -- The array ends in order.
  pub exchange_sort-IsSorted : (xs : List A) → IsSorted R (exchange_sort wrong xs)
  unfolding exchange_sort rounds pass
  exchange_sort-IsSorted [] = tt
  exchange_sort-IsSorted (x ∷ xs) =
      rounds-IsSorted (length xs) [] (pass wrong x xs).1 (pass wrong x xs).0
        (pass-length wrong x xs) (tt, tt) (pass_stays x xs)

module _ {ℓ} {A : Type ℓ} (key : A → ℕ) where
  -- The key falls or stays along the list, or rises or stays.
  abbrev pub IsFalling : List A → Type 0
  IsFalling = IsSorted λ x y. key y ≤ key x

  abbrev pub IsRising : List A → Type 0
  IsRising = IsSorted λ x y. key x ≤ key y

  -- Exchanged where the element at i has the greater key, the keys end in falling order,
  pub exchange_sort-IsFalling :
      (xs : List A) → IsFalling (exchange_sort (λ x y. ltb (key y) (key x)) xs)
  exchange_sort-IsFalling =
      exchange_sort-IsSorted (λ x y. key y ≤ key x) (λ x y. ltb (key y) (key x)) (λ x. omega arith)
        (λ x y z h k. omega arith) (λ x y e. ground arith) (λ x y e. ground arith)
        (λ x y h. ground arith)

  -- and where it has the smaller key, in rising order.
  pub exchange_sort-IsRising :
      (xs : List A) → IsRising (exchange_sort (λ x y. ltb (key x) (key y)) xs)
  exchange_sort-IsRising =
      exchange_sort-IsSorted (λ x y. key x ≤ key y) (λ x y. ltb (key x) (key y)) (λ x. omega arith)
        (λ x y z h k. omega arith) (λ x y e. ground arith) (λ x y e. ground arith)
        (λ x y h. ground arith)
