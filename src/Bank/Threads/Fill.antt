-- ===== src/Bank/Threads/Fill.antt =====
-- The accounts with which `run_custom_tests` (tests.cc) starts.
use concurrent_computing.Prelude.{
  ℕ, zero, suc, ◌+◌, ◌<◌, ◌≤◌, ◌≡◌, refl, ◌∙◌, arith, ◌&&◌, none, some, ltb, leb, ◌==◌,
  if◌then◌else◌,
}
use concurrent_computing.Bank.Map.{Simplemap, construct, insert}
use concurrent_computing.Bank.Map.Sorted.{value_in}
use concurrent_computing.Bank.Map.Contents.{value_at, IsValid, construct-IsValid}
use concurrent_computing.Bank.Map.Methods.{insert-Sets}
use concurrent_computing.Bank.Threads.{fill_from, fill}

module _ {V : Type 0} (initial : V) where
  fill_from-value_at :
      (n i : ℕ) (m : Simplemap V)
      → IsValid m
      → ((j : ℕ) → i ≤ j → value_at m j ≡ none)
      → IsValid (fill_from n i initial m)
        × ((j : ℕ)
            → value_at (fill_from n i initial m) j
              ≡ (if leb i j && ltb j (i + n) then some initial else value_at m j))
  unfolding fill_from
  fill_from-value_at zero i m valid fresh = (valid, λ j. ground arith)
  fill_from-value_at (suc n) i m valid fresh =
      let sets = (insert-Sets m valid i initial).1 in
      let pairs : (j : ℕ)
          → value_at (insert m i initial).1 j ≡ (if j == i then some initial else value_at m j) =
        λ j. sets.pairs j ∙ rw (fresh i (omega arith)) (ground arith) in
      let (valid', rest) =
        fill_from-value_at n (suc i) (insert m i initial).1 sets.valid
          (λ j le. ground (arith, pairs j, fresh j)) in
      (valid', λ j. rest j ∙ rw (pairs j) (ground arith))

  blank : (buckets j : ℕ) → value_at (construct {V = V} buckets) j ≡ none
  unfolding construct value_at value_in
  blank buckets j = refl

  -- With at least one bucket the map is well formed at the start, and has the keys below `key_max`
  -- with the initial balance, and no other.
  pub fill-value_at :
      (buckets key_max : ℕ)
      → 0 < buckets
      → (j : ℕ)
      → IsValid (fill buckets key_max initial)
        × (value_at (fill buckets key_max initial) j
            ≡ (if ltb j key_max then some initial else none))
  unfolding fill
  fill-value_at buckets key_max roomy j =
      let (valid, values) =
        fill_from-value_at key_max 0 (construct buckets) (construct-IsValid buckets roomy)
          (λ j le. blank buckets j) in
      (valid, values j ∙ rw (blank buckets j) (ground arith))
