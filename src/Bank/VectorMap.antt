-- ===== src/Bank/VectorMap.antt =====
-- Banker/bankers-map/src/simplemap.h: `simplemap_t` when OPTIMIZED is set, two vectors in which the
-- key is the index.
use concurrent_computing.Prelude.{
  ℕ, zero, suc, ◌%◌, ◌++◌, Bool, true, Option, none, some, List, [], ◌∷◌,
}
use concurrent_computing.Bank.Chain.{Node}
pub mod Refines

pub record VectorMap (V : Type 0) : Type 0 where
  pub keys : List ℕ
  pub values : List V
  pub buckets : ℕ

module _ {V : Type 0} where
  -- `values[i]`; `none` outside the vector, where the source has no defined behaviour.
  unfoldable pub get_elem? : List V → ℕ → Option V
  get_elem? [] i = none
  get_elem? (v ∷ vs) zero = some v
  get_elem? (v ∷ vs) (suc i) = get_elem? vs i

  unfoldable pub set_elem : List V → ℕ → V → Option (List V)
  set_elem [] i v = none
  set_elem (w ∷ vs) zero v = some (v ∷ vs)
  set_elem (w ∷ vs) (suc i) v = elim (set_elem vs i v) [ none ↦ none | some rest ↦ some (w ∷ rest) ]

  unfoldable pub empty : ℕ → VectorMap V
  empty buckets = record { keys = []; values = []; buckets = buckets }

  -- `insert` and `update` return no value.
  unfoldable pub push : VectorMap V → ℕ → V → VectorMap V
  push m key val = record m { keys = m.keys ++ key ∷ []; values = m.values ++ val ∷ [] }

  unfoldable pub assign : VectorMap V → ℕ → V → Option (VectorMap V)
  assign m key val = elim (set_elem m.values key val) [
    | none ↦ none
    | some vs ↦ some (record m { values = vs })
  ]

  unfoldable pub remove_all : VectorMap V → VectorMap V
  remove_all m = record m { keys = []; values = [] }

  unfoldable pub lookup_at : VectorMap V → ℕ → Option (V × Bool)
  lookup_at m key = elim (get_elem? m.values key) [ none ↦ none | some v ↦ some (v, true) ]

  -- The calls that `apply` makes, by index up to `keys.size()`.
  unfoldable pub pairs_of : List ℕ → List V → List (Node V)
  pairs_of [] vs = []
  pairs_of (k ∷ ks) [] = []
  pairs_of (k ∷ ks) (v ∷ vs) = record { key = k; val = v } ∷ pairs_of ks vs

  unfoldable pub apply_pairs : VectorMap V → List (Node V)
  apply_pairs m = pairs_of m.keys m.values
