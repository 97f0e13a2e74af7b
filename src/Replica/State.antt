-- ===== src/Replica/State.antt =====
-- ReplicatedKeyValueStoreRDMA/Persistence/KeyValueStore/Cuckoo.hpp, class `Cuckoo`: the object, its
-- hash functions and its spin locks. One thread runs here. A run faults (`none`) where that thread
-- would wait for itself or release a lock that is free.
use Prim.Native.Nat.{bit_xor}
use concurrent_computing.Prelude.{
  ℕ, ◌+◌, ◌-◌, ◌*◌, ◌/◌, ◌%◌, ◌^◌, Bool, true, false, none, some, List, [], ◌∷◌, ltb, if◌then◌else◌,
  update, Run,
}
use concurrent_computing.Replica.Table.{Table}
pub use concurrent_computing.Prelude.{pure, ◌>>=◌, ◌>>◌, get, modify, fault}

pub record Cuckoo : Type 0 where
  pub buckets : ℕ
  pub table : Table
  pub held : ℕ → Bool  -- the spin locks
  pub seed : ℕ  -- the static `g_seed`

abbrev pub M : Type 0 → Type 0
M A = Run Cuckoo A

-- Sums and shifts of 32-bit words; `>>` of an `int` copies the sign bit.
abbrev pub add32 : ℕ → ℕ → ℕ
add32 a b = (a + b) % 2 ^ 32

abbrev pub shl32 : ℕ → ℕ → ℕ
shl32 a k = a * 2 ^ k % 2 ^ 32

abbrev pub sar32 : ℕ → ℕ → ℕ
sar32 a k = if ltb a (2 ^ 31) then a / 2 ^ k else a / 2 ^ k + (2 ^ 32 - 2 ^ (32 - k))

-- The parameter is an `int`, so both right shifts are signed.
unfoldable pub secondary_hash : ℕ → ℕ
secondary_hash a =
    let a1 = add32 (add32 a 0x7ed55d16) (shl32 a 12) in
    let a2 = bit_xor (bit_xor a1 0xc761c23c) (sar32 a1 19) in
    let a3 = add32 (add32 a2 0x165667b1) (shl32 a2 5) in
    let a4 = bit_xor (add32 a3 0xd3a2646c) (shl32 a3 9) in
    let a5 = add32 (add32 a4 0xfd7046c5) (shl32 a4 3) in
    bit_xor (bit_xor a5 0xb55a4f09) (sar32 a5 16)

-- `hash(key, 1)` and `hash(key, 2)`
unfoldable pub hash1 : ℕ → ℕ → ℕ
hash1 buckets key = key % buckets

unfoldable pub hash2 : ℕ → ℕ → ℕ
unfolding secondary_hash
hash2 buckets key = secondary_hash key % buckets

-- `fastrand`, with the new value of `g_seed`
unfoldable pub fastrand : ℕ → ℕ × ℕ
fastrand seed = let next = (214013 * seed + 2531011) % 2 ^ 32 in (next / 2 ^ 16 % 2 ^ 15, next)

-- `pthread_spin_lock` and `pthread_spin_unlock`
unfoldable pub spin_lock : ℕ → M (Unit {0})
spin_lock i s = if s.held i then none else some (tt, record s { held = update s.held i true })

unfoldable pub spin_unlock : ℕ → M (Unit {0})
spin_unlock i s = if s.held i then some (tt, record s { held = update s.held i false }) else none

unfoldable pub acquire : List ℕ → M (Unit {0})
unfolding spin_lock
acquire [] = pure tt
acquire (i ∷ is) = spin_lock i >> acquire is

unfoldable pub release : List ℕ → M (Unit {0})
unfolding spin_unlock
release [] = pure tt
release (i ∷ is) = spin_unlock i >> release is
