-- ===== src/Bank/Accounts.antt =====
-- Banker/bankers-map/src/tests.cc: `applyDeposit`, `deposit` and `balance`.
pub mod Totals
pub mod Deposits
pub mod Guarded
pub mod Waiting
use concurrent_computing.Prelude.{
  ℕ, zero, suc, Bool, true, false, Option, none, some, ltb, if◌then◌else◌, Run, pure, ◌>>=◌, ◌>>◌,
  get,
}
use concurrent_computing.Bank.Map.{Simplemap, hash, update_value, lookup}
use concurrent_computing.Bank.Locks.{
  Bank, acquire_write_lock, release_write_lock, acquire_write_locks, release_write_locks,
  acquire_all_reader, release_all_reader,
}

-- The arithmetic of `float` that the program uses.
pub record Amount (V : Type 0) : Type 0 where
  pub nil : V
  pub plus : V → V → V
  pub minus : V → V → V
  pub is_nil : V → Bool

module _ {V : Type 0} (amounts : Amount V) where
  unfoldable pub apply_deposit : Simplemap V → ℕ → ℕ → V → Bool × Simplemap V
  apply_deposit m source target amount =
      let (funds, exists) = lookup amounts.nil m source in
      let taken = (update_value m source (amounts.minus funds amount)).1 in
      let (credit, found) = lookup amounts.nil taken target in
      if exists
      then (if found
          then (true, (update_value taken target (amounts.plus credit amount)).1)
          else (false, (update_value taken source funds).1))
      else (false, m)

  -- `applyDeposit` on the shared map.
  unfoldable pub deposit_into : ℕ → ℕ → V → Run (Bank V) Bool
  deposit_into source target amount b =
      let (done, m) = apply_deposit b.accounts source target amount in
      some (done, record b { accounts = m })

  -- The three lines of `deposit` between a lock call and its unlock call.
  unfoldable pub deposit_under :
      Run (Bank V) Bool → Run (Bank V) Bool → ℕ → ℕ → V → Run (Bank V) Bool
  unfolding deposit_into
  deposit_under acquire release source target amount = do
    _ ← acquire
    retval ← deposit_into source target amount
    _ ← release
    pure retval

  -- `deposit`, once its two keys are drawn.
  unfoldable pub deposit : Bool → ℕ → ℕ → V → Run (Bank V) Bool
  unfolding deposit_under
  deposit lockfree source target amount b =
      let i = hash b.accounts source in
      let j = hash b.accounts target in
      if lockfree
      then deposit_into source target amount b
      else if ltb i j
      then deposit_under (acquire_write_locks i j) (release_write_locks i j) source target amount b
      else if ltb j i
      then deposit_under (acquire_write_locks j i) (release_write_locks j i) source target amount b
      else deposit_under (acquire_write_lock j) (release_write_lock j) source target amount b

  -- `total` after the keys `i, i + 1, ...`, `n` of them.
  unfoldable pub total_from : Simplemap V → ℕ → ℕ → V → V
  total_from m zero i sum = sum
  total_from m (suc n) i sum = total_from m n (suc i) (amounts.plus sum (lookup amounts.nil m i).0)

  -- `total` of the map as it stands.
  unfoldable pub total : ℕ → Run (Bank V) V
  unfolding total_from
  total range b = some (total_from b.accounts range 0 amounts.nil, b)

  unfoldable pub balance : ℕ → Bool → Run (Bank V) V
  unfolding total
  balance range true = total range
  balance range false = do
    _ ← acquire_all_reader
    sum ← total range
    _ ← release_all_reader
    pure sum
