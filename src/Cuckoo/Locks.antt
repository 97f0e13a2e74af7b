-- ===== src/Cuckoo/Locks.antt =====
-- CuckooHash/Cuckoo.hpp: `lock_two`, `lock_three`, `unlock_one`, `unlock_two`, `unlock_three`.
-- Each is the list of the spin locks that it takes or releases, in its order.
pub mod Order
pub mod Runs
pub mod Threads
use concurrent_computing.Prelude.{ℕ, Bool, ◌&&◌, not, List, [], ◌∷◌, ltb, ◌==◌, if◌then◌else◌}

unfoldable pub lock_two : ℕ → ℕ → List ℕ
lock_two idx1 idx2 =
    if ltb idx1 idx2
    then idx1 ∷ idx2 ∷ []
    else if ltb idx2 idx1
    then idx2 ∷ idx1 ∷ []
    else idx1 ∷ []

unfoldable pub unlock_one : ℕ → List ℕ
unlock_one idx = idx ∷ []

unfoldable pub unlock_two : ℕ → ℕ → List ℕ
unlock_two idx1 idx2 = if not (idx1 == idx2) then idx1 ∷ idx2 ∷ [] else idx1 ∷ []

unfoldable pub unlock_three : ℕ → ℕ → ℕ → List ℕ
unlock_three idx1 idx2 idx3 =
    if not (idx1 == idx2) && not (idx2 == idx3) && not (idx1 == idx3)
    then idx1 ∷ idx2 ∷ idx3 ∷ []
    else if idx1 == idx2 && idx2 == idx3
    then idx1 ∷ []
    else if idx1 == idx2
    then idx1 ∷ idx3 ∷ []
    else idx1 ∷ idx2 ∷ []

-- The part of `lock_three` for three different indices.
unfoldable pub lock_distinct : ℕ → ℕ → ℕ → List ℕ
lock_distinct idx1 idx2 idx3 =
    if ltb idx1 idx2
    then (if ltb idx1 idx3
        then idx1 ∷ (if ltb idx2 idx3 then idx2 ∷ idx3 ∷ [] else idx3 ∷ idx2 ∷ [])
        else idx3 ∷ idx1 ∷ idx2 ∷ [])
    else if ltb idx2 idx3
    then idx2 ∷ (if ltb idx1 idx3 then idx1 ∷ idx3 ∷ [] else idx3 ∷ idx1 ∷ [])
    else idx3 ∷ idx2 ∷ idx1 ∷ []

unfoldable pub lock_three : ℕ → ℕ → ℕ → List ℕ
unfolding lock_two lock_distinct
lock_three idx1 idx2 idx3 =
    if idx1 == idx2 && idx2 == idx3
    then idx1 ∷ []
    else if idx1 == idx2
    then lock_two idx1 idx3
    else if idx2 == idx3
    then lock_two idx1 idx2
    else if idx1 == idx3
    then lock_two idx1 idx2
    else lock_distinct idx1 idx2 idx3
