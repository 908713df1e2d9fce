-- ===== src/Account/Db.antt =====
-- The queries of src/account.c and src/table.c that PostgreSQL answers, as an interface, and what the code relies on
-- of them.
use pokerunicorn_server.Prelude.{ℕ, Bool, true, Option, none, some, List, ◌≡◌, ◌≢◌}

-- A row of the table `accounts`, as `pkrsrv_account_getby_id` reads it. Strings are their bytes.
pub record Row : Type 0 where
  pub name : List ℕ
  pub avatar : List ℕ
  pub xmr_deposit_address : List ℕ
  pub xmr_deposit_address_index : ℕ
  pub balance : ℕ
  pub locked_balance : ℕ
  pub total_deposited : ℕ
  pub xmr_height : ℕ

-- A statement's second part tells whether its status is the expected one. Of the two updates of the
-- table `tables`, whose outcome the code only prints, the key is the table's id.
pub record Database (D : Type 0) : Type 0 where
  pub row : ℕ → D → Option Row
  pub select_for_update : ℕ → D → D × Bool
  pub update_balance : ℕ → ℕ → D → D × Bool
  pub update_locked_balance : ℕ → ℕ → D → D × Bool
  pub set_players_num : ℕ → ℕ → D → D
  pub set_watchers_num : ℕ → ℕ → D → D
  pub begin : D → D
  pub commit : D → D
  pub rollback : D → D

-- A write to a row that is not there changes nothing and is no error.
abbrev pub with_balance : ℕ → Option Row → Option Row
with_balance n none = none
with_balance n (some r) = some (record r { balance = n })

abbrev pub with_locked_balance : ℕ → Option Row → Option Row
with_locked_balance n none = none
with_locked_balance n (some r) = some (record r { locked_balance = n })

-- The documented behaviour of the statements: `SELECT` writes nothing, an `UPDATE` writes its column
-- of its row where it succeeds and nothing where it fails, an `UPDATE` of `tables` leaves the accounts,
-- and a transaction shows its own writes,
-- keeps them at `COMMIT` where no statement failed since `BEGIN`, and drops them at `ROLLBACK`.
pub record IsDatabase {D : Type 0} (db : Database D) : Type 1 where
  pub opened : D → D → Type 0
  pub select_row : (i k : ℕ) (d : D) → db.row k (db.select_for_update i d).0 ≡ db.row k d
  pub balance_row :
      (i n : ℕ) (d : D)
      → (db.update_balance i n d).1 ≡ true
      → db.row i (db.update_balance i n d).0 ≡ with_balance n (db.row i d)
  pub balance_failed :
      (i n k : ℕ) (d : D)
      → (db.update_balance i n d).1 ≢ true
      → db.row k (db.update_balance i n d).0 ≡ db.row k d
  pub balance_other :
      (i n k : ℕ) (d : D) → k ≢ i → db.row k (db.update_balance i n d).0 ≡ db.row k d
  pub locked_row :
      (i n : ℕ) (d : D)
      → (db.update_locked_balance i n d).1 ≡ true
      → db.row i (db.update_locked_balance i n d).0 ≡ with_locked_balance n (db.row i d)
  pub locked_failed :
      (i n k : ℕ) (d : D)
      → (db.update_locked_balance i n d).1 ≢ true
      → db.row k (db.update_locked_balance i n d).0 ≡ db.row k d
  pub locked_other :
      (i n k : ℕ) (d : D) → k ≢ i → db.row k (db.update_locked_balance i n d).0 ≡ db.row k d
  pub players_row : (t n k : ℕ) (d : D) → db.row k (db.set_players_num t n d) ≡ db.row k d
  pub watchers_row : (t n k : ℕ) (d : D) → db.row k (db.set_watchers_num t n d) ≡ db.row k d
  pub begin_row : (k : ℕ) (d : D) → db.row k (db.begin d) ≡ db.row k d
  pub begin_opened : (d : D) → opened d (db.begin d)
  pub select_opened :
      (c d : D) (i : ℕ)
      → opened c d
      → (db.select_for_update i d).1 ≡ true
      → opened c (db.select_for_update i d).0
  pub balance_opened :
      (c d : D) (i n : ℕ)
      → opened c d
      → (db.update_balance i n d).1 ≡ true
      → opened c (db.update_balance i n d).0
  pub locked_opened :
      (c d : D) (i n : ℕ)
      → opened c d
      → (db.update_locked_balance i n d).1 ≡ true
      → opened c (db.update_locked_balance i n d).0
  pub commit_row : (c d : D) (k : ℕ) → opened c d → db.row k (db.commit d) ≡ db.row k d
  pub rollback_row : (c d : D) (k : ℕ) → opened c d → db.row k (db.rollback d) ≡ db.row k c
