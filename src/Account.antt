-- ===== src/Account.antt =====
-- The balances of an account in src/account.c: in memory, and in the database behind it.
pub mod Db
pub mod Balance
pub mod Failures
use pokerunicorn_server.Prelude.{
  ℕ, ◌-◌, ◌^◌, Bool, true, false, Option, none, some, List, if◌then◌else◌, ltb, add64, sub64,
}
use pokerunicorn_server.Prelude.Result.{Result, ok, fault, null_pointer}
use pokerunicorn_server.Account.Db.{Database, Row}

-- `pkrsrv_account_t`
pub record Account : Type 0 where
  pub id : ℕ
  pub name : List ℕ
  pub avatar : List ℕ
  pub xmr_deposit_address : List ℕ
  pub xmr_deposit_address_index : ℕ
  pub balance : ℕ
  pub locked_balance : ℕ
  pub total_deposited : ℕ
  pub xmr_height : ℕ

-- `pkrsrv_account_set_balance`, which always returns true.
abbrev pub set_balance : Account → ℕ → Account
set_balance account balance = record account { balance = balance }

-- `atoll` of a row's number, which is written in decimal digits: a `long long`, where a larger number
-- becomes its maximum.
abbrev pub atoll : ℕ → ℕ
atoll n = if ltb n (2 ^ 63) then n else 2 ^ 63 - 1

-- The members that a fetch copies from the account that it has read. The index, which `atoi` reads,
-- is taken to fit an `int`.
abbrev pub copy_row : Account → Row → Account
copy_row account r = record account {
  name = r.name;
  avatar = r.avatar;
  xmr_deposit_address = r.xmr_deposit_address;
  xmr_deposit_address_index = r.xmr_deposit_address_index;
  balance = atoll r.balance;
  locked_balance = atoll r.locked_balance;
  total_deposited = atoll r.total_deposited;
  xmr_height = atoll r.xmr_height;
}

-- What a function on an account leaves: the database, the account in memory, and its result.
pub record Outcome (D : Type 0) : Type 0 where
  pub db : D
  pub account : Account
  pub retval : Bool

module _ {D : Type 0} (ops : Database D) where
  -- `pkrsrv_account_update_balance`
  unfoldable pub update_balance : D → Account → ℕ → Outcome D
  update_balance db account balance =
      if selected.1
      then if updated.1
        then record { db = updated.0; account = set_balance account balance; retval = true }
        else record { db = updated.0; account = account; retval = false }
      else record { db = selected.0; account = account; retval = false }
    where
      selected : D × Bool
      selected = ops.select_for_update account.id db

      updated : D × Bool
      updated = ops.update_balance account.id balance selected.0

  -- `pkrsrv_account_add_balance`. Its result is true also where the update fails.
  unfoldable pub add_balance : D → Account → ℕ → Outcome D
  unfolding update_balance
  add_balance db account amount =
      record (update_balance db account (add64 account.balance amount)) { retval = true }

  -- `pkrsrv_account_update_locked_balance`. The account in memory stays.
  unfoldable pub update_locked_balance : D → Account → ℕ → Outcome D
  update_locked_balance db account locked_balance = record {
    db = updated.0;
    account = account;
    retval = updated.1;
  }
    where
      updated : D × Bool
      updated = ops.update_locked_balance account.id locked_balance db

  -- `pkrsrv_account_remove_locked_balance`. Its result is true also where the update fails.
  unfoldable pub remove_locked_balance : D → Account → ℕ → Outcome D
  unfolding update_locked_balance
  remove_locked_balance db account amount =
      if ltb account.locked_balance amount
      then record { db = db; account = account; retval = false }
      else record (update_locked_balance db account (sub64 account.locked_balance amount)) {
        retval = true;
      }

  -- The end of a lock and of an unlock: the balance, then the locked one where the first succeeds. The
  -- result is true whichever update fails.
  unfoldable pub update_both : D → Account → ℕ → ℕ → Outcome D
  unfolding update_balance update_locked_balance
  update_both db account balance locked_balance =
      if first.retval
      then record (update_locked_balance first.db first.account locked_balance) { retval = true }
      else record first { retval = true }
    where
      first : Outcome D
      first = update_balance db account balance

  -- `pkrsrv_account_lock_balance`
  unfoldable pub lock_balance : D → Account → ℕ → Outcome D
  unfolding update_both
  lock_balance db account amount =
      if ltb account.balance amount
      then record { db = db; account = account; retval = false }
      else update_both db account (sub64 account.balance amount)
          (add64 account.locked_balance amount)

  -- `pkrsrv_account_unlock_balance`
  unfoldable pub unlock_balance : D → Account → ℕ → Outcome D
  unfolding update_both
  unlock_balance db account amount =
      if ltb account.locked_balance amount
      then record { db = db; account = account; retval = false }
      else update_both db account (add64 account.balance amount)
          (sub64 account.locked_balance amount)

  -- `pkrsrv_account_fetch`: an account without a row is a null pointer that is followed.
  unfoldable pub fetch : D → Account → Result Account
  fetch db account = elim (ops.row account.id db) [
    | none ↦ fault null_pointer
    | some r ↦ ok (copy_row account r)
  ]
