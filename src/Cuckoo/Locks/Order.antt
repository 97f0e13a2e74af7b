-- ===== src/Cuckoo/Locks/Order.antt =====
-- The order in which the spin locks of Cuckoo.hpp are taken.
use concurrent_computing.Prelude.{ℕ, suc, ◌≤◌, ◌≡◌, arith, List, [], ◌∷◌, elem}
use concurrent_computing.Cuckoo.Locks.{lock_two, lock_three}

-- Every lock comes after the ones that the thread already has.
abbrev pub Ascends : ℕ → List ℕ → Type 0
Ascends low [] = Unit
Ascends low (i ∷ is) = (low ≤ i) × Ascends (suc i) is

-- `lock_two` takes exactly the locks of its two indices, each once, in ascending order.
pub lock_two-Ascends :
    (a b i : ℕ) → Ascends 0 (lock_two a b) × (elem i (lock_two a b) ≡ elem i (a ∷ b ∷ []))
unfolding lock_two
lock_two-Ascends a b i = (ground arith, ground arith)

-- `lock_three` takes exactly the locks of its three indices, each once, in ascending order.
pub lock_three-Ascends :
    (a b c i : ℕ)
    → Ascends 0 (lock_three a b c) × (elem i (lock_three a b c) ≡ elem i (a ∷ b ∷ c ∷ []))
unfolding lock_three
lock_three-Ascends a b c i = (ground arith, ground arith)
