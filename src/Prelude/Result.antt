-- ===== src/Prelude/Result.antt =====
-- Outcomes of C code that can leave the defined behaviour: a fault, or a value.

use mathlib.Core.Path.{◌≡◌, refl}

-- `null_pointer`: a null or dangling pointer is followed. `uninitialised`: memory that nothing has
-- written is read. `no_draw`: the stream of random numbers ended before a card was found.
-- `no_reference`: a reference count falls below zero, or a freed object is released.
-- `overflow`: an `int` leaves its range. `out_of_bounds`: an array is used outside of its bounds.
-- `use_after_free`: memory that has been given back is read or written.
-- `no_card`: a slot without a card is scored. `endless`: a loop was still running when its fuel ran out.
pub data Fault : Type 0 where
  null_pointer uninitialised no_draw no_card endless no_reference overflow out_of_bounds
        use_after_free :
      Fault

-- What a function of the model returns: `fault` where the C code's behaviour is undefined.
pub data Result {ℓ} (X : Type ℓ) : Type ℓ where
  fault : Fault → Result X
  ok : X → Result X

module _ {ℓ κ} {X : Type ℓ} {Y : Type κ} where
  infixl 5 ◌>>=◌
  -- The next step runs on the value of the step before, and a fault ends the run.
  abbrev pub ◌>>=◌ : Result X → (X → Result Y) → Result Y
  fault why >>= next = fault why
  ok x >>= next = next x

  -- A chain that ends well has a first step that ends well.
  pub >>=-eq-ok :
      (step : Result X) (next : X → Result Y) {y : Y}
      → (step >>= next) ≡ ok y
      → (x : X) × (step ≡ ok x) × (next x ≡ ok y)
  >>=-eq-ok (fault why) next run = absurd (cc run)
  >>=-eq-ok (ok x) next run = (x, refl, run)

pub ok_injective {ℓ} : {X : Type ℓ} {x y : X} → ok x ≡ ok y → x ≡ y
ok_injective same = cc same
