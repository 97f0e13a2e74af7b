-- ===== src/Bank/Map/Contents.antt =====
-- The pairs that a map of simplemap.h has, and the invariant of its buckets.
use concurrent_computing.Prelude.{
  ℕ, ◌<◌, ◌≡◌, refl, arith, Bool, true, ◌&&◌, Option, List, ◌==◌, if◌then◌else◌, is_some,
  Bool-cases, ==→eq, inl, inr,
}
use concurrent_computing.Bank.Chain.{Node}
use concurrent_computing.Bank.Map.{Simplemap, hash, rechain, construct}
use concurrent_computing.Bank.Map.Sorted.{Ascends, value_in}

module _ {V : Type 0} where
  -- The value that goes with a key.
  unfoldable pub value_at : Simplemap V → ℕ → Option V
  value_at m key = value_in key (m.values (hash m key))

  -- There is a bucket; each chain is sorted by key, has no key twice, and has only keys of its bucket.
  pub record IsValid (m : Simplemap V) : Type 0 where
    pub roomy : 0 < m.buckets
    pub sorted : (i : ℕ) → Ascends 0 (m.values i)
    pub placed : (i key : ℕ) → is_some (value_in key (m.values i)) ≡ true → hash m key ≡ i

  pub construct-IsValid : (buckets : ℕ) → 0 < buckets → IsValid (construct buckets)
  unfolding construct value_in
  construct-IsValid buckets roomy = record {
    roomy = roomy;
    sorted = λ i. tt;
    placed = λ i key h. cc;
  }

  -- The chain of a key's bucket replaced by one in which only that key may have another value.
  module _ (m : Simplemap V) (valid : IsValid m) (key : ℕ) (chain : List (Node V)) (changes : Bool)
      (now : Option V)
      (values : (j : ℕ)
        → value_in j chain
          ≡ (if j == key && changes then now else value_in j (m.values (hash m key)))) where
    placed_in : (j : ℕ) → is_some (value_in j chain) ≡ true → hash m j ≡ hash m key
    placed_in j h = elim (Bool-cases (j == key)) [
      | inl same ↦ rw (==→eq j key same) refl
      | inr other ↦ ground (arith, values j, valid.placed (hash m key) j)
    ]

    pub rechain-IsValid : Ascends 0 chain → IsValid (rechain m (hash m key) chain)
    rechain-IsValid asc = record {
      roomy = valid.roomy;
      sorted = λ i. ground (arith, valid.sorted i);
      placed = λ i j h. ground (arith, placed_in j, valid.placed i j);
    }

    pub rechain-value_at :
        (j : ℕ)
        → value_at (rechain m (hash m key) chain) j
          ≡ (if j == key && changes then now else value_at m j)
    unfolding value_at
    rechain-value_at j = elim (Bool-cases (j == key)) [
      | inl same ↦ let e : j ≡ key = ==→eq j key same in ground (arith, e, values j)
      | inr other ↦ ground (arith, values j)
    ]
