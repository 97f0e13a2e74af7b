-- ===== src/Cuckoo/Methods/Construct.antt =====
-- The constructor of Cuckoo.hpp.
use concurrent_computing.Prelude.{ℕ, ◌<◌, ◌≡◌, ◌≢◌, refl, sym, ◌∙◌, false, Bool-cases, inl, inr}
use concurrent_computing.Cuckoo.Table.{new}
use concurrent_computing.Cuckoo.State.{Seeds}
use concurrent_computing.Cuckoo.Search.{Side, left, right}
use concurrent_computing.Cuckoo.Insert.{element}
use concurrent_computing.Cuckoo.Ops.{construct}
use concurrent_computing.Cuckoo.Contents.{member, member→At}
use concurrent_computing.Cuckoo.Placement.{IsValid}
use concurrent_computing.Cuckoo.Methods.{Idle}

module _ (buckets : ℕ) (seeds : Seeds) where
  blank_element : (s : Side) (i j : ℕ) → element (construct buckets seeds) s i j ≡ 0
  unfolding construct new
  blank_element left i j = refl
  blank_element right i j = refl

  construct-member : (v : ℕ) → v ≢ 0 → member (construct buckets seeds) v ≡ false
  construct-member v h = elim (Bool-cases (member (construct buckets seeds) v)) [
    | inr e ↦ e
    | inl e ↦
        let (s, j, lt, q) = member→At (construct buckets seeds) v e in
        absurd (h (sym q ∙ blank_element s _ j))
  ]

  pub construct-IsValid : 0 < buckets → IsValid (construct buckets seeds)
  unfolding construct
  construct-IsValid roomy = record {
    roomy = roomy;
    placed = λ s i j h. absurd (h (blank_element s i j));
    narrow = λ s i j h. absurd (h (blank_element s i j));
    distinct = λ s i j t k l h. absurd (h (blank_element s i j));
  }

  pub construct-Idle : Idle (construct buckets seeds)
  unfolding construct
  construct-Idle = record { free = λ i. refl; unlocked = refl }

  -- With at least one bucket the constructor builds a well-formed set in which no lock is held and
  -- no value but 0 is found.
  pub construct-empty :
      0 < buckets
      → (v : ℕ) → v ≢ 0
      → IsValid (construct buckets seeds)
        × Idle (construct buckets seeds)
        × (member (construct buckets seeds) v ≡ false)
  construct-empty roomy v some_value =
      (construct-IsValid roomy, construct-Idle, construct-member v some_value)
