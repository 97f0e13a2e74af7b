-- ===== src/Cuckoo/Resize/Kept.antt =====
-- What `resize` (Cuckoo.hpp) keeps of the set.
use native.Mathlib.Decide.{ℕ_discrete}
use concurrent_computing.Prelude.{
  ℕ, zero, suc, ◌+◌, ◌/◌, ◌<◌, ◌≤◌, ◌≡◌, arith, Bool, true, ◌&&◌, ◌||◌, some, ltb, Bool-cases,
  Option-cases, ◌⊎◌, inl, inr,
}
use concurrent_computing.Cuckoo.Table.{width, find}
use concurrent_computing.Cuckoo.State.{Cuckoo}
use concurrent_computing.Cuckoo.Search.{Side, left, right, home}
use concurrent_computing.Cuckoo.Insert.{element}
use concurrent_computing.Cuckoo.Resize.{Tables, carry_bucket, carry_all, doubled}
use concurrent_computing.Cuckoo.Resize.Moves.{
  Moves, Moves-none, Moves-trans, Moves-congr, tab, InBucket, carry_bucket-Moves,
}
use concurrent_computing.Cuckoo.Contents.{find-true, find-intro}

-- A value in one of `n` buckets, from bucket `i` on.
abbrev pub InTable : Cuckoo → Side → ℕ → ℕ → ℕ → Type 0
InTable c s n i v = (k : ℕ) × (i ≤ k) × (k < i + n) × (l : ℕ) × (l < width) × (v ≡ element c s k l)

pub carry_all-Moves :
    (c : Cuckoo) (b n i : ℕ) (ts us : Tables)
    → carry_all c b n i ts ≡ some us
    → (s : Side) → Moves b s (InTable c s n i) (tab ts s) (tab us s)
unfolding carry_all
carry_all-Moves c b zero i ts us run s =
    let e : ts ≡ us = ground arith in
    rw e (Moves-none b s (InTable c s 0 i) (tab us s) (λ v a. absurd (omega arith)))
carry_all-Moves c b (suc n) i ts us run s = elim (Option-cases (carry_bucket c b i width 0 ts)) [
  | inl e ↦ absurd (ground arith)
  | inr (vs, e) ↦
      Moves-congr b s (λ v. InBucket c b s i width 0 v ⊎ InTable c s n (suc i) v)
        (InTable c s (suc n) i) (tab ts s) (tab us s) (table_cons i n s) (table_split i n s)
        (Moves-trans b s (InBucket c b s i width 0) (InTable c s n (suc i)) (tab ts s) (tab vs s)
          (tab us s) (carry_bucket-Moves c b i width 0 ts vs e s)
          (carry_all-Moves c b n (suc i) vs us (ground arith) s))
]
  where
    table_cons :
        (i n : ℕ) (s : Side) (v : ℕ)
        → InBucket c b s i width 0 v ⊎ InTable c s n (suc i) v
        → InTable c s (suc n) i v
    table_cons i n s v (inl (l, lo, hi, e)) = (i, omega arith, omega arith, l, hi, e)
    table_cons i n s v (inr (k, lo, hi, l, lt, e)) = (k, omega arith, omega arith, l, lt, e)

    table_split :
        (i n : ℕ) (s : Side) (v : ℕ)
        → InTable c s (suc n) i v
        → InBucket c b s i width 0 v ⊎ InTable c s n (suc i) v
    table_split i n s v (k, lo, hi, l, lt, e) = elim (ℕ_discrete i k) [
      | yes same ↦ inl (l, omega arith, lt, rw same e)
      | no other ↦ inr (k, omega arith, omega arith, l, lt, e)
    ]

-- The loop of `resize` runs over this many buckets of each table.
abbrev pub copied : Cuckoo → ℕ
copied c = doubled c.buckets / 4

-- The value stands in a bucket that the loop reaches.
unfoldable pub kept : Cuckoo → ℕ → Bool
kept c v =
    (find c.table1 v (home c.buckets left v) && ltb (home c.buckets left v) (copied c))
    || (find c.table2 v (home c.buckets right v) && ltb (home c.buckets right v) (copied c))

abbrev pub KeptAt : Cuckoo → ℕ → Type 0
KeptAt c v =
    (s : Side) × (j : ℕ) × (j < width)
    × (element c s (home c.buckets s v) j ≡ v)
    × (home c.buckets s v < copied c)

pub kept→KeptAt : (c : Cuckoo) (v : ℕ) → kept c v ≡ true → KeptAt c v
unfolding kept
kept→KeptAt c v h =
    elim (Bool-cases
      (find c.table1 v (home c.buckets left v) && ltb (home c.buckets left v) (copied c))) [
        | inl e ↦
            let (j, lt, q) = find-true c.table1 v (home c.buckets left v) (ground arith) in
            (left, j, lt, q, ground arith)
        | inr e ↦
            let (j, lt, q) = find-true c.table2 v (home c.buckets right v) (ground arith) in
            (right, j, lt, q, ground arith)
      ]

pub KeptAt→kept : (c : Cuckoo) (v : ℕ) → KeptAt c v → kept c v ≡ true
unfolding kept
KeptAt→kept c v (left, j, lt, q, near) =
    ground (arith, find-intro c.table1 v (home c.buckets left v) j)
KeptAt→kept c v (right, j, lt, q, near) =
    ground (arith, find-intro c.table2 v (home c.buckets right v) j)
