-- ===== src/Bank/Barrier.antt =====
-- Banker/bankers-map/src/threads.cc: `barrier_init` and `barrier_cross`.
-- The mutex makes a crossing up to its wait, or up to its end, one step. Threads cross in the order in
-- which they get the mutex.
use concurrent_computing.Prelude.{
  ℕ, suc, ◌+◌, Bool, List, [], ◌∷◌, ◌++◌, ltb, elem, ◌==◌, if◌then◌else◌,
}
pub mod Rounds

-- `barrier_t`, with the threads that wait on its condition, the last one first, and those that went
-- through, the last one first.
pub record Barrier : Type 0 where
  pub count : ℕ
  pub crossing : ℕ
  pub waiting : List ℕ
  pub passed : List ℕ

unfoldable pub barrier_init : ℕ → Barrier
barrier_init n = record { count = n; crossing = 0; waiting = []; passed = [] }

-- A thread that waits, or wakes all that wait and goes through with them.
unfoldable pub barrier_cross : ℕ → Barrier → Barrier
barrier_cross thread b =
    if ltb (b.crossing + 1) b.count
    then record b { crossing = b.crossing + 1; waiting = thread ∷ b.waiting }
    else record b { crossing = 0; waiting = []; passed = (thread ∷ b.waiting) ++ b.passed }

abbrev without : ℕ → List ℕ → List ℕ
without thread [] = []
without thread (x ∷ xs) = if x == thread then xs else x ∷ without thread xs

-- The wait of a thread ends without a broadcast, as the C library permits; it goes through, since the
-- wait stands under an `if`.
unfoldable pub barrier_wake : ℕ → Barrier → Barrier
barrier_wake thread b =
    if elem thread b.waiting
    then record b { waiting = without thread b.waiting; passed = thread ∷ b.passed }
    else b

-- The threads of a list cross in turn, and no wait ends without a broadcast.
unfoldable pub cross_all : List ℕ → Barrier → Barrier
unfolding barrier_cross
cross_all [] b = b
cross_all (thread ∷ threads) b = cross_all threads (barrier_cross thread b)
