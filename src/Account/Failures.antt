-- ===== src/Account/Failures.antt =====
-- The lock of a balance in src/account.c where statements of the database may fail.
use pokerunicorn_server.Prelude.{
  ◌+◌, ◌-◌, ◌≤◌, ◌<◌, ◌≡◌, ◌≢◌, ◌⊎◌, ◌∙◌, ap, true, false, some, inl, inr, Bool, Bool-cases,
  u64_mod, ℕ, subst,
}
use pokerunicorn_server.Account.Db.{Row, Database, IsDatabase, with_balance, with_locked_balance}
use pokerunicorn_server.Account.{
  Account, update_locked_balance, update_balance, update_both, lock_balance,
}
use pokerunicorn_server.Account.Balance.{IsCurrent, worth, with_balances, lock_balance_granted}

false_is_not_true : {b : Bool} → b ≡ false → b ≢ true
false_is_not_true h k = absurd (cc (h, k))

module _ {D : Type 0} (ops : Database D) (laws : IsDatabase ops) where
  -- An update of the balance writes the row, or is refused and leaves it.
  update_balance_outcomes :
      (db : D) (account : Account) (n : ℕ)
      → let o = update_balance ops db account n in
        ((o.retval ≡ true)
          × (o.account.id ≡ account.id)
          × (ops.row account.id o.db ≡ with_balance n (ops.row account.id db)))
        ⊎ ((o.retval ≡ false) × (ops.row account.id o.db ≡ ops.row account.id db))
  unfolding update_balance
  update_balance_outcomes db account n =
      let s = ops.select_for_update account.id db in
      elim (Bool-cases s.1) [
        | inl a ↦ elim (Bool-cases (ops.update_balance account.id n s.0).1) [
          | inl b ↦ inl (
            rw (a, b),
            rw (a, b),
            rw (a, b)
                (laws.balance_row account.id n s.0 b
                  ∙ ap (with_balance n) (laws.select_row account.id account.id db)),
          )
          | inr b ↦ inr (
            rw (a, b),
            rw (a, b)
                (laws.balance_failed account.id n account.id s.0 (false_is_not_true b)
                  ∙ laws.select_row account.id account.id db),
          )
        ]
        | inr a ↦ inr (rw a, rw a (laws.select_row account.id account.id db))
      ]

  update_locked_balance_outcomes :
      (db : D) (account : Account) (n : ℕ)
      → let o = update_locked_balance ops db account n in
        (ops.row account.id o.db ≡ with_locked_balance n (ops.row account.id db))
        ⊎ (ops.row account.id o.db ≡ ops.row account.id db)
  unfolding update_locked_balance
  update_locked_balance_outcomes db account n =
      elim (Bool-cases (ops.update_locked_balance account.id n db).1) [
        | inl b ↦ inl (laws.locked_row account.id n db b)
        | inr b ↦ inr (laws.locked_failed account.id n account.id db (false_is_not_true b))
      ]

  update_both_outcomes :
      (db : D) (account : Account) (r : Row) (b l : ℕ)
      → ops.row account.id db ≡ some r
      → let o = update_both ops db account b l in
        (o.retval ≡ true)
        × ((ops.row account.id o.db ≡ some r)
            ⊎ (ops.row account.id o.db ≡ some (with_balances r b r.locked_balance))
            ⊎ (ops.row account.id o.db ≡ some (with_balances r b l)))
  unfolding update_both
  update_both_outcomes db account r b l h = elim (update_balance_outcomes db account b) [
    | inl (t, i, e) ↦
        let first = update_balance ops db account b in
        elim (update_locked_balance_outcomes first.db first.account l) [
          | inl k ↦ (
            rw t,
            inr (
                inr (
                  rw (t) (
                    subst
                      (λ (n : ℕ).
                        ops.row n (update_locked_balance ops first.db first.account l).db
                        ≡ with_locked_balance l (ops.row n first.db))
                      i k
                    ∙ ap (with_locked_balance l) (e ∙ ap (with_balance b) h)))),
          )
          | inr k ↦ (
            rw t,
            inr (
                inl (
                  rw (t) (
                    subst
                      (λ (n : ℕ).
                        ops.row n (update_locked_balance ops first.db first.account l).db
                        ≡ ops.row n first.db)
                      i k
                    ∙ e
                    ∙ ap (with_balance b) h))),
          )
        ]
    | inr (t, e) ↦ (rw t, inl (rw t (e ∙ h)))
  ]

  -- A lock that the balance covers, with an account in memory that agrees with its row, whose two
  -- balances together fit 64 bits, returns true whichever statements fail, and leaves the row as
  -- it was, or without the amount and with no more locked, or with the amount moved to the locked
  -- balance.
  pub lock_balance_outcomes :
      (db : D) (account : Account) (r : Row) (amount : ℕ)
      → IsCurrent ops db account r
      → amount ≤ r.balance
      → worth r < u64_mod
      → let o = lock_balance ops db account amount in
        (o.retval ≡ true)
        × ((ops.row account.id o.db ≡ some r)
            ⊎ (ops.row account.id o.db
                ≡ some (with_balances r (r.balance - amount) r.locked_balance))
            ⊎ (ops.row account.id o.db
                ≡ some (with_balances r (r.balance - amount) (r.locked_balance + amount))))
  lock_balance_outcomes db account r amount c h w =
      rw (lock_balance_granted ops db account r amount c h w)
        (update_both_outcomes db account r (r.balance - amount) (r.locked_balance + amount) c.here)
