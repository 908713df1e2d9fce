-- ===== src/Account/Balance.antt =====
-- The balance and the locked balance of a row through the operations of src/account.c.
use pokerunicorn_server.Prelude.{
  ℕ, ◌^◌, ◌+◌, ◌-◌, ◌≤◌, ◌<◌, ◌≡◌, ◌∙◌, refl, ap, sym, subst, true, false, some, arith, inl, inr,
  Option-cases, ltb, le→not_ltb, add64, sub64, u64_mod, add64_exact, sub64_exact,
}
use pokerunicorn_server.Prelude.Result.{ok, ok_injective}
use pokerunicorn_server.Account.Db.{Row, Database, IsDatabase, with_balance, with_locked_balance}
use pokerunicorn_server.Account.{
  Account, set_balance, update_balance, update_locked_balance, update_both, lock_balance,
  unlock_balance, fetch, copy_row, atoll,
}

-- The money of a row.
abbrev pub worth : Row → ℕ
worth r = r.balance + r.locked_balance

-- A row with other balances.
abbrev pub with_balances : Row → ℕ → ℕ → Row
with_balances r b l = record r { balance = b; locked_balance = l }

-- No statement fails.
pub record Answers {D : Type 0} (ops : Database D) : Type 0 where
  pub select : (i : ℕ) (d : D) → (ops.select_for_update i d).1 ≡ true
  pub balance : (i n : ℕ) (d : D) → (ops.update_balance i n d).1 ≡ true
  pub locked : (i n : ℕ) (d : D) → (ops.update_locked_balance i n d).1 ≡ true

-- The account's balances are those of its row `r`.
pub record IsCurrent {D : Type 0} (ops : Database D) (db : D) (account : Account) (r : Row)
    : Type 0 where
  pub here : ops.row account.id db ≡ some r
  pub same_balance : account.balance ≡ r.balance
  pub same_locked : account.locked_balance ≡ r.locked_balance

module _ {D : Type 0} (ops : Database D) (db : D) (account : Account) (r : Row) (amount : ℕ) where
  pub lock_balance_granted :
      IsCurrent ops db account r
      → amount ≤ r.balance
      → worth r < u64_mod
      → lock_balance ops db account amount
        ≡ update_both ops db account (r.balance - amount) (r.locked_balance + amount)
  unfolding lock_balance
  lock_balance_granted c h w =
      let f : ltb account.balance amount ≡ false =
        le→not_ltb account.balance amount (omega (arith, c.same_balance, h)) in
      let b : sub64 account.balance amount ≡ r.balance - amount =
        rw (c.same_balance) (sub64_exact r.balance amount h (omega (arith, w))) in
      let l : add64 account.locked_balance amount ≡ r.locked_balance + amount =
        rw (c.same_locked) (add64_exact r.locked_balance amount (omega (arith, w, h))) in
      rw f (rw (b, l) refl)

  pub unlock_balance_granted :
      IsCurrent ops db account r
      → amount ≤ r.locked_balance
      → worth r < u64_mod
      → unlock_balance ops db account amount
        ≡ update_both ops db account (r.balance + amount) (r.locked_balance - amount)
  unfolding unlock_balance
  unlock_balance_granted c h w =
      let f : ltb account.locked_balance amount ≡ false =
        le→not_ltb account.locked_balance amount (omega (arith, c.same_locked, h)) in
      let b : add64 account.balance amount ≡ r.balance + amount =
        rw (c.same_balance) (add64_exact r.balance amount (omega (arith, w, h))) in
      let l : sub64 account.locked_balance amount ≡ r.locked_balance - amount =
        rw (c.same_locked) (sub64_exact r.locked_balance amount h (omega (arith, w))) in
      rw f (rw (b, l) refl)

module _ {D : Type 0} (ops : Database D) (laws : IsDatabase ops) (up : Answers ops) where
  pub update_balance_lem :
      (db : D) (account : Account) (n : ℕ)
      → let o = update_balance ops db account n in
        (o.retval ≡ true)
        × (o.account ≡ set_balance account n)
        × (ops.row account.id o.db ≡ with_balance n (ops.row account.id db))
  unfolding update_balance
  update_balance_lem db account n =
      let s = ops.select_for_update account.id db in
      (
        rw (up.select account.id db, up.balance account.id n s.0),
        rw (up.select account.id db, up.balance account.id n s.0),
        rw (up.select account.id db, up.balance account.id n s.0)
            (laws.balance_row account.id n s.0 (up.balance account.id n s.0)
              ∙ ap (with_balance n) (laws.select_row account.id account.id db)),
      )

  pub update_both_lem :
      (db : D) (account : Account) (r : Row) (b l : ℕ)
      → ops.row account.id db ≡ some r
      → let o = update_both ops db account b l in
        (o.retval ≡ true)
        × (o.account ≡ set_balance account b)
        × (ops.row account.id o.db ≡ some (with_balances r b l))
  unfolding update_both update_locked_balance
  update_both_lem db account r b l h =
      let (t, a, e) = update_balance_lem db account b in
      let first = update_balance ops db account b in
      let same : ops.row account.id (ops.update_locked_balance first.account.id l first.db).0
          ≡ some (with_balances r b l) =
        rw a (
          laws.locked_row account.id l first.db (up.locked account.id l first.db)
          ∙ ap (with_locked_balance l) (e ∙ ap (with_balance b) h)) in
      (rw t, rw t a, rw t same)

  -- Where no statement fails, a lock of no more than the balance is granted: it moves the amount of the
  -- row from the balance to the locked balance.
  pub lock_balance_lem :
      (db : D) (account : Account) (r : Row) (amount : ℕ)
      → IsCurrent ops db account r
      → amount ≤ r.balance
      → worth r < u64_mod
      → let o = lock_balance ops db account amount in
        (o.retval ≡ true)
        × (o.account ≡ set_balance account (r.balance - amount))
        × (ops.row account.id o.db
            ≡ some (with_balances r (r.balance - amount) (r.locked_balance + amount)))
  lock_balance_lem db account r amount c h w =
      rw (lock_balance_granted ops db account r amount c h w)
        (update_both_lem db account r (r.balance - amount) (r.locked_balance + amount) c.here)

  pub unlock_balance_lem :
      (db : D) (account : Account) (r : Row) (amount : ℕ)
      → IsCurrent ops db account r
      → amount ≤ r.locked_balance
      → worth r < u64_mod
      → let o = unlock_balance ops db account amount in
        (o.retval ≡ true)
        × (o.account ≡ set_balance account (r.balance + amount))
        × (ops.row account.id o.db
            ≡ some (with_balances r (r.balance + amount) (r.locked_balance - amount)))
  unlock_balance_lem db account r amount c h w =
      rw (unlock_balance_granted ops db account r amount c h w)
        (update_both_lem db account r (r.balance + amount) (r.locked_balance - amount) c.here)

-- The two balances of a row fit a `long long`, as `atoll` reads them.
pub record IsReadable (r : Row) : Type 0 where
  pub balance : r.balance < 2 ^ 63
  pub locked_balance : r.locked_balance < 2 ^ 63

atoll_lem : (n : ℕ) → n < 2 ^ 63 → atoll n ≡ n
atoll_lem n h = ground (arith, h)

-- An account that has been fetched has the balances of its row.
pub fetch-IsCurrent :
    {D : Type 0} (ops : Database D) (db : D) (account fetched : Account) (r : Row)
    → IsReadable r
    → ops.row account.id db ≡ some r
    → fetch ops db account ≡ ok fetched
    → IsCurrent ops db fetched r
unfolding fetch
fetch-IsCurrent ops db account fetched r f h e =
    let s = ok_injective (rw (fetch, h) at e) in
    record {
      here = subst (λ (a : Account). ops.row a.id db ≡ some r) s h;
      same_balance = ap (λ (a : Account). a.balance) (sym s) ∙ atoll_lem r.balance (f.balance);
      same_locked =
          ap (λ (a : Account). a.locked_balance) (sym s)
          ∙ atoll_lem r.locked_balance (f.locked_balance);
    }

-- A fetch of an account with a row succeeds.
pub fetch_lem :
    {D : Type 0} (ops : Database D) (db : D) (account : Account) (r : Row)
    → IsReadable r
    → ops.row account.id db ≡ some r
    → (a : Account) × (fetch ops db account ≡ ok a) × (a.id ≡ account.id) × IsCurrent ops db a r
unfolding fetch
fetch_lem ops db account r f h = (
  copy_row account r,
  rw (fetch, h) refl,
  refl,
  record {
    here = h;
    same_balance = atoll_lem r.balance (f.balance);
    same_locked = atoll_lem r.locked_balance (f.locked_balance);
  },
)

pub fetch-id :
    {D : Type 0} (ops : Database D) (db : D) (account fetched : Account)
    → fetch ops db account ≡ ok fetched
    → fetched.id ≡ account.id
unfolding fetch
fetch-id ops db account fetched e = elim (Option-cases (ops.row account.id db)) [
  | inl h ↦ absurd (cc (rw (fetch, h) at e))
  | inr (r, h) ↦ sym (ap (λ (a : Account). a.id) (ok_injective (rw (fetch, h) at e)))
]

-- Of an account in memory that agrees with its row, where the balance covers the amount, the two
-- balances together are less than 2^63, the maximum of the `long long` that a fetch reads, and no
-- statement fails: after a lock of the amount, a fetch, and an unlock of the same amount, the unlock
-- has succeeded and the row is as it was.
pub lock_then_unlock :
    {D : Type 0} (ops : Database D)
    → IsDatabase ops
    → Answers ops
    → (db : D) (account fetched : Account) (r : Row) (amount : ℕ) → IsCurrent ops db account r
    → amount ≤ r.balance
    → worth r < 2 ^ 63
    → let locked = lock_balance ops db account amount in
      fetch ops locked.db locked.account ≡ ok fetched
      → let unlocked = unlock_balance ops locked.db fetched amount in
        (unlocked.retval ≡ true) × (ops.row account.id unlocked.db ≡ some r)
lock_then_unlock ops laws up db account fetched r amount c h w e =
    let locked = lock_balance ops db account amount in
    let r' = with_balances r (r.balance - amount) (r.locked_balance + amount) in
    let (_, a, row) = lock_balance_lem ops laws up db account r amount c h (omega (arith, w)) in
    let row' : ops.row locked.account.id locked.db ≡ some r' =
      subst (λ (x : Account). ops.row x.id locked.db ≡ some r') (sym a) row in
    let c' =
      fetch-IsCurrent ops locked.db locked.account fetched r'
        (record { balance = omega (arith, w, h); locked_balance = omega (arith, w, h) }) row' e in
    let same_id : fetched.id ≡ account.id =
      fetch-id ops locked.db locked.account fetched e ∙ ap (λ (x : Account). x.id) a in
    let (t, _, back) =
      unlock_balance_lem ops laws up locked.db fetched r' amount c' (omega arith)
        (omega (arith, w, h)) in
    let numbers : (r.balance - amount + amount ≡ r.balance)
        × (r.locked_balance + amount - amount ≡ r.locked_balance) =
      (omega (arith, h), omega arith) in
    (
      t,
      subst (λ (i : ℕ). ops.row i (unlock_balance ops locked.db fetched amount).db ≡ some r) same_id
          (back ∙ ap some (rw (numbers.0, numbers.1) refl)),
    )
