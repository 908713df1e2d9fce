-- ===== src/Exchange/Members.antt =====
-- The members of an array and of what the exchange sort makes of it.
use mathlib.Core.List.{Mem, eq-or-mem_of_mem-cons, not-mem-nil}
use mathlib.Core.Logic.Or
use mathlib.Core.HLevel.{⊥_prop}
use pokerunicorn_server.Prelude.{
  ℕ, zero, suc, ◌≤◌, ◌≡◌, ap, Bool, inl, inr, List, [], ◌∷◌, ◌++◌, arith, length, All, All-append,
  Bool-cases, leb,
}
use pokerunicorn_server.Exchange.{pass, rounds, exchange_sort}

module _ {ℓ κ} {A : Type ℓ} (P : A → Type κ) (wrong : A → A → Bool) where
  pass-All : (x : A) (p : List A) → P x → All P p → All P (pass wrong x p).0 × P (pass wrong x p).1
  unfolding pass
  pass-All x [] h k = (tt, h)
  pass-All x (y ∷ ys) h k = elim (Bool-cases (wrong x y)) [
    | inl e ↦ let r = pass-All y ys k.0 k.1 in rw e ((h, r.0), r.1)
    | inr e ↦ let r = pass-All x ys h k.1 in rw e ((k.0, r.0), r.1)
  ]

  rounds-All : (n : ℕ) (p s : List A) → All P p → All P s → All P (rounds wrong n p s)
  unfolding rounds
  rounds-All zero p s h k = All-append P p s h k
  rounds-All (suc n) p [] h k = h
  rounds-All (suc n) p (x ∷ s) h k =
      let a = pass-All x p k.0 h in
      let b = pass-All (pass wrong x p).1 s a.1 k.1 in
      rounds-All n ((pass wrong x p).0 ++ ((pass wrong (pass wrong x p).1 s).1 ∷ []))
        (pass wrong (pass wrong x p).1 s).0 (All-append P _ _ a.0 (b.1, tt)) b.0

  -- What holds of every element of the array holds of every element of the result.
  pub exchange_sort-All : (xs : List A) → All P xs → All P (exchange_sort wrong xs)
  unfolding exchange_sort
  exchange_sort-All xs h = rounds-All (length xs) [] xs tt h

-- A member of a list meets a bound that all its elements meet.
pub Mem-bound {ℓ} :
    {A : Type ℓ} (key : A → ℕ) (b : ℕ) (a : A) (xs : List A)
    → All (λ x. key x ≤ b) xs
    → Mem a xs
    → key a ≤ b
Mem-bound key b a [] h m = absurd (not-mem-nil m)
Mem-bound key b a (x ∷ xs) h m = elim (Bool-cases (leb (key a) b)) [
  | inl e ↦ ground (arith, e)
  | inr e ↦ absurd (
      Or.elim ⊥_prop (eq-or-mem_of_mem-cons m) (λ (s : a ≡ x). ground (arith, e, h.0, ap key s))
        (λ (n : Mem a xs). ground (arith, e, Mem-bound key b a xs h.1 n)))
]
