-- ===== src/Clustering/Passes.antt =====
-- The loops of `run` of K-Means/solution.cpp: the pass over the points, and the rounds.
use concurrent_computing.Prelude.{
  ℕ, zero, suc, ◌+◌, ◌-◌, ◌<◌, ◌≤◌, ◌≡◌, ◌⊎◌, arith, Bool, true, ◌&&◌, if◌then◌else◌, Bool-cases,
  inl, inr, refl, ◌∙◌, sym, ap, transport,
}
use concurrent_computing.Clustering.{
  Reals, Point, Cluster, Sizes, State, is_in, nearest_from, nearest_center, move_point, assign,
  distance,
}
use concurrent_computing.Clustering.Members.{IsPartition, move_point-IsPartition}

first_or_after : (i j : ℕ) → i ≤ j → (i ≡ j) ⊎ (i < j)
first_or_after i j le = omega (arith, le)

module _ (r : Reals) (sizes : Sizes r) where
  -- One point of the pass.
  abbrev pub stays : State r → ℕ → Bool
  stays s i = is_in (s.points i).cluster (nearest_center r sizes s.clusters (s.points i))

  abbrev pub placed : ℕ → State r → State r
  placed i s =
      if stays s i then s else move_point r i (nearest_center r sizes s.clusters (s.points i)) s

module _ (r : Reals) (vals : ℕ → ℕ → r.R) (sizes : Sizes r) where
  nearest_from-inside :
      (clusters : ℕ → Cluster r) (p : Point r) (n i : ℕ) (min_dist : r.R) (center : ℕ)
      → center < i
      → nearest_from r sizes clusters p n i min_dist center < i + n
  unfolding nearest_from
  nearest_from-inside clusters p zero i min_dist center lt = omega (arith, lt)
  nearest_from-inside clusters p (suc n) i min_dist center lt =
      elim (Bool-cases (r.less (distance r sizes (clusters i) p) min_dist)) [
        | inl e ↦ rw e (
            omega (
              arith,
              nearest_from-inside clusters p n (suc i) (distance r sizes (clusters i) p) i
                  (omega arith),
            ))
        | inr e ↦ rw e (
            omega
              (arith, nearest_from-inside clusters p n (suc i) min_dist center (omega (arith, lt))))
      ]

  nearest_center-inside :
      (clusters : ℕ → Cluster r) (p : Point r)
      → 0 < sizes.k
      → nearest_center r sizes clusters p < sizes.k
  unfolding nearest_center
  nearest_center-inside clusters p lt = omega (
    arith,
    lt,
    nearest_from-inside clusters p (sizes.k - 1) 1 (distance r sizes (clusters 0) p) 0
        (omega arith),
  )

  placed-IsPartition :
      (n i : ℕ) (s : State r)
      → 0 < sizes.k
      → i < n
      → IsPartition r vals sizes.k n s
      → IsPartition r vals sizes.k n (placed r sizes i s)
  placed-IsPartition n i s pos lt h = elim (Bool-cases (stays r sizes s i)) [
    | inl e ↦ rw e h
    | inr e ↦ rw e (
        move_point-IsPartition r vals sizes.k n s i (nearest_center r sizes s.clusters (s.points i))
          lt (nearest_center-inside s.clusters (s.points i) pos) e h)
  ]

  pub assign-IsPartition :
      (m i n : ℕ) (s : State r) (done : Bool)
      → 0 < sizes.k
      → i + m ≤ n
      → IsPartition r vals sizes.k n s
      → IsPartition r vals sizes.k n (assign r sizes m i s done).0
  unfolding assign
  assign-IsPartition zero i n s done pos le h = h
  assign-IsPartition (suc m) i n s done pos le h =
      assign-IsPartition m (suc i) n (placed r sizes i s) (stays r sizes s i && done) pos
        (omega (arith, le)) (placed-IsPartition n i s pos (omega (arith, le)) h)

  -- A pass from the point `i` to `n` that moves no point: each is in its nearest cluster.
  pub record IsSettled (i n : ℕ) (s : State r) (out : State r × Bool) (done : Bool) : Type 0 where
    pub kept : out.0 ≡ s
    pub flag : done ≡ true
    pub nearest : (j : ℕ) → i ≤ j → j < n → stays r sizes s j ≡ true

  one_more :
      (i n : ℕ) (s : State r) (out : State r × Bool) (done : Bool)
      → IsSettled (suc i) n (placed r sizes i s) out (stays r sizes s i && done)
      → IsSettled i n s out done
  one_more i n s out done h = elim (Bool-cases (stays r sizes s i)) [
    | inl e ↦
        let same : placed r sizes i s ≡ s = rw e refl in
        record {
          kept = h.kept ∙ same;
          flag = transport (ap (λ b. (b && done) ≡ true) e) h.flag;
          nearest = λ j le lt. elim (first_or_after i j le) [
            | inl first ↦ rw (sym first) e
            | inr after ↦ transport (ap (λ t. stays r sizes t j ≡ true) same) (h.nearest j after lt)
          ];
        }
    | inr e ↦ absurd (ground (arith, transport (ap (λ b. (b && done) ≡ true) e) h.flag))
  ]

  pub assign-IsSettled :
      (m i n : ℕ) (s : State r) (done : Bool)
      → i + m ≡ n
      → (assign r sizes m i s done).1 ≡ true
      → IsSettled i n s (assign r sizes m i s done) done
  unfolding assign
  assign-IsSettled zero i n s done e h = record {
    kept = refl;
    flag = h;
    nearest = λ j le lt. absurd (omega (arith, e, le, lt));
  }
  assign-IsSettled (suc m) i n s done e h = one_more i n s (assign r sizes (suc m) i s done) done (
      assign-IsSettled m (suc i) n (placed r sizes i s) (stays r sizes s i && done)
        (omega (arith, e)) h)
