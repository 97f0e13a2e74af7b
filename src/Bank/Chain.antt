-- ===== src/Bank/Chain.antt =====
-- Banker/bankers-map/src/simplemap.h: the loops over the chain of one bucket, after its sentinel.
use concurrent_computing.Prelude.{
  ℕ, Bool, true, false, not, Option, none, some, List, [], ◌∷◌, ltb, ◌==◌, if◌then◌else◌,
}

-- `Node`, without its padding.
pub record Node (V : Type 0) : Type 0 where
  pub key : ℕ
  pub val : V

module _ {V : Type 0} where
  -- `runner` at the end of the loop of `lookup`, if it has the key.
  unfoldable pub seek : ℕ → List (Node V) → Option (Node V)
  seek key [] = none
  seek key (runner ∷ rest) =
      let later = seek key rest in
      if ltb runner.key key then later else if runner.key == key then some runner else none

  unfoldable pub insert_in : ℕ → V → List (Node V) → Bool × List (Node V)
  insert_in key val [] = (true, record { key = key; val = val } ∷ [])
  insert_in key val (curr ∷ next) =
      let later = insert_in key val next in
      if ltb curr.key key
      then (later.0, curr ∷ later.1)
      else if not (curr.key == key)
      then (true, record { key = key; val = val } ∷ curr ∷ next)
      else (false, curr ∷ next)

  unfoldable pub update_in : ℕ → V → List (Node V) → Bool × List (Node V)
  update_in key val [] = (false, [])
  update_in key val (curr ∷ next) =
      let later = update_in key val next in
      if ltb curr.key key
      then (later.0, curr ∷ later.1)
      else if curr.key == key
      then (true, record curr { val = val } ∷ next)
      else (false, curr ∷ next)

  unfoldable pub remove_in : ℕ → List (Node V) → Bool × List (Node V)
  remove_in key [] = (false, [])
  remove_in key (curr ∷ next) =
      let later = remove_in key next in
      if ltb curr.key key
      then (later.0, curr ∷ later.1)
      else if curr.key == key
      then (true, next)
      else (false, curr ∷ next)
