-- ===== src/Bank/Locks.antt =====
-- Banker/bankers-map/src/locks.cc: one read-write lock for each bucket, and the state they guard.
-- One thread runs: a run faults (`none`) where that thread would wait for itself.
use concurrent_computing.Prelude.{
  ℕ, zero, suc, ◌-◌, Bool, true, false, ◌||◌, none, some, ltb, ◌==◌, if◌then◌else◌, update, Run,
  pure, ◌>>=◌, ◌>>◌, get,
}
use concurrent_computing.Bank.Map.{Simplemap}

pub record Bank (V : Type 0) : Type 0 where
  pub accounts : Simplemap V
  pub lock_size : ℕ
  pub writing : ℕ → Bool
  pub reading : ℕ → ℕ

module _ {V : Type 0} where
  -- `initializeLocks`
  unfoldable pub initialize_locks : Simplemap V → ℕ → Bank V
  initialize_locks accounts size = record {
    accounts = accounts;
    lock_size = size;
    writing = λ i. false;
    reading = λ i. 0;
  }

  -- `pthread_rwlock_wrlock`, `pthread_rwlock_rdlock` and `pthread_rwlock_unlock`
  unfoldable pub write_lock : ℕ → Run (Bank V) (Unit {0})
  write_lock i b =
      if b.writing i || ltb 0 (b.reading i)
      then none
      else some (tt, record b { writing = update b.writing i true })

  unfoldable pub read_lock : ℕ → Run (Bank V) (Unit {0})
  read_lock i b =
      if b.writing i
      then none
      else some (tt, record b { reading = update b.reading i (suc (b.reading i)) })

  unfoldable pub unlock : ℕ → Run (Bank V) (Unit {0})
  unlock i b =
      if b.writing i
      then some (tt, record b { writing = update b.writing i false })
      else if b.reading i == 0
      then none
      else some (tt, record b { reading = update b.reading i (b.reading i - 1) })

  unfoldable pub acquire_write_lock : ℕ → Run (Bank V) Bool
  acquire_write_lock idx = do write_lock idx; pure true

  unfoldable pub release_write_lock : ℕ → Run (Bank V) Bool
  release_write_lock idx = do unlock idx; pure true

  unfoldable pub acquire_write_locks : ℕ → ℕ → Run (Bank V) Bool
  acquire_write_locks i j = do write_lock i; write_lock j; pure true

  unfoldable pub release_write_locks : ℕ → ℕ → Run (Bank V) Bool
  release_write_locks i j = do unlock i; unlock j; pure true

  -- The locks `i, i + 1, ...`, `n` of them.
  unfoldable pub read_lock_from : ℕ → ℕ → Run (Bank V) (Unit {0})
  read_lock_from zero i = pure tt
  read_lock_from (suc n) i = read_lock i >> read_lock_from n (suc i)

  unfoldable pub unlock_from : ℕ → ℕ → Run (Bank V) (Unit {0})
  unlock_from zero i = pure tt
  unlock_from (suc n) i = unlock i >> unlock_from n (suc i)

  unfoldable pub acquire_all_reader : Run (Bank V) Bool
  acquire_all_reader = do b ← get; read_lock_from b.lock_size 0; pure true

  unfoldable pub release_all_reader : Run (Bank V) Bool
  release_all_reader = do b ← get; unlock_from b.lock_size 0; pure true
