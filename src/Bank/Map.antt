-- ===== src/Bank/Map.antt =====
-- Banker/bankers-map/src/simplemap.h, class `simplemap_t`: buckets of chains sorted by key.
-- A key is an `int` that is not negative, as every caller's are.
use concurrent_computing.Prelude.{
  ℕ, zero, suc, ◌%◌, ◌++◌, Bool, true, false, Option, none, some, List, [], ◌∷◌, update,
}
use concurrent_computing.Bank.Chain.{Node, seek, insert_in, update_in, remove_in}
pub mod Sorted
pub mod Contents
pub mod Methods

pub record Simplemap (V : Type 0) : Type 0 where
  pub buckets : ℕ
  pub values : ℕ → List (Node V)

module _ {V : Type 0} where
  -- The constructor: each bucket has a sentinel only.
  unfoldable pub construct : ℕ → Simplemap V
  construct buckets = record { buckets = buckets; values = λ i. [] }

  abbrev pub hash : Simplemap V → ℕ → ℕ
  hash m key = key % m.buckets

  -- A chain put back into its bucket.
  abbrev pub rechain : Simplemap V → ℕ → List (Node V) → Simplemap V
  rechain m i chain = record m { values = update m.values i chain }

  unfoldable pub insert : Simplemap V → ℕ → V → Bool × Simplemap V
  insert m key val =
      let (done, chain) = insert_in key val (m.values (hash m key)) in
      (done, rechain m (hash m key) chain)

  unfoldable pub update_value : Simplemap V → ℕ → V → Bool × Simplemap V
  update_value m key val =
      let (done, chain) = update_in key val (m.values (hash m key)) in
      (done, rechain m (hash m key) chain)

  unfoldable pub remove : Simplemap V → ℕ → Bool × Simplemap V
  remove m key =
      let (done, chain) = remove_in key (m.values (hash m key)) in
      (done, rechain m (hash m key) chain)

  -- The pair that `lookup` returns; `null` is the 0 of a key that is not there.
  unfoldable pub lookup : V → Simplemap V → ℕ → V × Bool
  lookup null m key = elim (seek key (m.values (hash m key))) [
    | none ↦ (null, false)
    | some runner ↦ (runner.val, true)
  ]

  -- The calls of `f` that `apply` makes, in their order, from bucket `i` on.
  unfoldable pub apply_from : Simplemap V → ℕ → ℕ → List (Node V)
  apply_from m zero i = []
  apply_from m (suc n) i = m.values i ++ apply_from m n (suc i)

  unfoldable pub apply : Simplemap V → List (Node V)
  apply m = apply_from m m.buckets 0
