-- ===== src/Cuckoo/State.antt =====
-- CuckooHash/Cuckoo.hpp, class `Cuckoo`: the object, its locks, and the monad its methods run in.
-- One thread runs here. A run faults (`none`) where that thread would wait for itself, would
-- release a lock that is free, or would write outside a bucket.
use concurrent_computing.Prelude.{
  ℕ, suc, ◌-◌, ◌/◌, ◌%◌, Bool, true, false, ◌||◌, none, some, List, [], ◌∷◌, ltb, ◌==◌,
  if◌then◌else◌, update, Run,
}
use concurrent_computing.Cuckoo.Table.{Table}
pub use concurrent_computing.Prelude.{pure, ◌>>=◌, ◌>>◌, get, modify, fault}

-- The static words of `xorshf96`.
pub record Seeds : Type 0 where
  pub x : ℕ
  pub y : ℕ
  pub z : ℕ

pub record Cuckoo : Type 0 where
  pub buckets : ℕ
  pub table1 : Table
  pub table2 : Table
  pub held : ℕ → Bool  -- the spin locks
  pub readers : ℕ  -- the global read-write lock
  pub writer : Bool
  pub seeds : Seeds

abbrev pub M : Type 0 → Type 0
M A = Run Cuckoo A

-- `val % buckets`, and `(val / buckets) % buckets`
unfoldable pub hash1 : ℕ → ℕ → ℕ
hash1 buckets val = val % buckets

unfoldable pub hash2 : ℕ → ℕ → ℕ
hash2 buckets val = val / buckets % buckets

-- `pthread_spin_lock` and `pthread_spin_unlock`
unfoldable pub spin_lock : ℕ → M (Unit {0})
spin_lock i s = if s.held i then none else some (tt, record s { held = update s.held i true })

unfoldable pub spin_unlock : ℕ → M (Unit {0})
spin_unlock i s = if s.held i then some (tt, record s { held = update s.held i false }) else none

unfoldable pub acquire : List ℕ → M (Unit {0})
unfolding spin_lock
acquire [] = pure tt
acquire (i ∷ is) = spin_lock i >> acquire is

unfoldable pub release : List ℕ → M (Unit {0})
unfolding spin_unlock
release [] = pure tt
release (i ∷ is) = spin_unlock i >> release is

-- `pthread_rwlock_rdlock`, `pthread_rwlock_wrlock` and `pthread_rwlock_unlock`
unfoldable pub read_lock : M (Unit {0})
read_lock s = if s.writer then none else some (tt, record s { readers = suc s.readers })

unfoldable pub write_lock : M (Unit {0})
write_lock s = if s.writer || ltb 0 s.readers then none else some (tt, record s { writer = true })

unfoldable pub global_unlock : M (Unit {0})
global_unlock s =
    if s.writer
    then some (tt, record s { writer = false })
    else if s.readers == 0
    then none
    else some (tt, record s { readers = s.readers - 1 })
