-- ===== src/Tests/Cuckoo.antt =====
-- The set of CuckooHash/Cuckoo.hpp on small inputs.
use concurrent_computing.Prelude.{
  ℕ, ◌≡◌, refl, Bool, true, false, Option, none, some, List, [], ◌∷◌,
}
use concurrent_computing.Cuckoo.Table.{new}
use concurrent_computing.Cuckoo.Locks.{lock_two, lock_three, unlock_one, unlock_two, unlock_three}
use concurrent_computing.Cuckoo.Resize.{
  resize, rebuild, carry_all, carry_bucket, carry_slot, carry, doubled,
}
use concurrent_computing.Cuckoo.State.{
  write_lock, global_unlock, acquire, release, Seeds, Cuckoo, M, pure, ◌>>=◌, ◌>>◌,
}
use concurrent_computing.Cuckoo.Search.{search}
use concurrent_computing.Cuckoo.Insert.{run_search}
use concurrent_computing.Cuckoo.Ops.{insert, remove, contains, size, construct}

-- What every run below computes with.
unfoldable pub program : Unit {0}
unfolding insert run_search search remove contains size construct resize rebuild carry_all
    carry_bucket carry_slot carry doubled new write_lock global_unlock acquire release lock_two
    lock_three unlock_one unlock_two unlock_three
program = tt

abbrev pub seeds0 : Seeds
seeds0 = record { x = 123456789; y = 362436069; z = 521288629 }

abbrev pub fill : List ℕ → M (Unit {0})
fill [] = pure tt
fill (v ∷ vs) = insert 3 v >>= λ _. fill vs

abbrev answer {ℓ} : {A : Type ℓ} → Option (A × Cuckoo) → Option A
answer none = none
answer (some (a, c)) = some a

-- Eight values with bucket 1 of table 1, of two buckets; then one is removed.
abbrev session : M (ℕ × Bool × Bool × Bool)
session = do
  fill (1 ∷ 3 ∷ 5 ∷ 7 ∷ 9 ∷ 11 ∷ 13 ∷ 15 ∷ [])
  before ← contains 13
  removed ← remove 13
  after ← contains 13
  λ c. some ((size c, before, removed, after), c)

session_prints : answer (session (construct 2 seeds0)) ≡ some (7, true, true, false)
unfolding program
session_prints = refl

-- Values 1 to 12 fill the two buckets of a set with one bucket in each table; 13 makes it grow.
abbrev growth : M (ℕ × Bool × Bool × Bool)
growth = do
  fill (1 ∷ 2 ∷ 3 ∷ 4 ∷ 5 ∷ 6 ∷ 7 ∷ 8 ∷ 9 ∷ 10 ∷ 11 ∷ 12 ∷ [])
  before ← contains 1
  fill (13 ∷ [])
  after ← contains 1
  added ← contains 13
  λ c. some ((size c, before, after, added), c)

-- The twelve values are lost, and 13 is stored where `contains` does not look.
growth_loses : answer (growth (construct 1 seeds0)) ≡ some (1, true, false, false)
unfolding program
growth_loses = refl

-- A displacement: 12 values in bucket 0 of both tables, with room elsewhere.
abbrev shuffle : M (ℕ × Bool × Bool)
shuffle = do
  fill (9 ∷ 18 ∷ 27 ∷ 36 ∷ 45 ∷ 54 ∷ 63 ∷ 72 ∷ 81 ∷ 90 ∷ 99 ∷ 3 ∷ [])
  fill (6 ∷ 12 ∷ 15 ∷ 21 ∷ 24 ∷ 30 ∷ [])
  a ← contains 9
  b ← contains 30
  λ c. some ((size c, a, b), c)

shuffle_keeps : answer (shuffle (construct 3 seeds0)) ≡ some (18, true, true)
unfolding program
shuffle_keeps = refl
