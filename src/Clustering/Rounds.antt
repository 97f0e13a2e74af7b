-- ===== src/Clustering/Rounds.antt =====
-- The rounds of `run` of K-Means/solution.cpp.
use concurrent_computing.Prelude.{
  ℕ, zero, suc, ◌+◌, ◌<◌, ◌≤◌, ◌≡◌, ◌⊎◌, arith, Bool, true, ◌||◌, Option, some, leb, Bool-cases,
  inl, inr, refl, ◌∙◌, sym, ap, transport,
}
use concurrent_computing.Clustering.{
  Reals, Sizes, State, is_in, nearest_center, assign, recentered, iterate,
}
use concurrent_computing.Clustering.Members.{IsPartition, Copies, count}
use concurrent_computing.Clustering.Centers.{
  Centered, recenter-points, recenter-Centered, recenter-same,
}
use concurrent_computing.Clustering.Visits.{assign-Visited}
use concurrent_computing.Clustering.Passes.{stays, assign-IsPartition, assign-IsSettled}

module _ (r : Reals) (vals : ℕ → ℕ → r.R) (sizes : Sizes r) where
  abbrev pub AllCentered : State r → Type 0
  AllCentered s = (c : ℕ) → c < sizes.k → Centered r (s.clusters c) sizes.total_values

  recentered-IsPartition :
      (s : State r)
      → IsPartition r vals sizes.k sizes.total_points s
      → IsPartition r vals sizes.k sizes.total_points (recentered r sizes s)
  recentered-IsPartition s h = record {
    numbered = h.numbered;
    inside = h.inside;
    once = λ j c j<n c<k.
        ap (count r j) (recenter-points r sizes sizes.k 0 s.clusters c) ∙ h.once j c j<n c<k;
    valued = h.valued;
    copies = λ c c<k.
        transport (ap (Copies r vals) (sym (recenter-points r sizes sizes.k 0 s.clusters c)))
          (h.copies c c<k);
  }

  recentered-same : (s : State r) → AllCentered s → recentered r sizes s ≡ s
  recentered-same s h =
      λ t. record { points = s.points; clusters = recenter-same r sizes s.clusters h t }

  -- What holds when the rounds stop after the round `last`, which moved no point if `done`.
  pub record IsResult (s : State r) (last : ℕ) (done : Bool) : Type 0 where
    pub partition : IsPartition r vals sizes.k sizes.total_points s
    pub home : (j : ℕ) → j < sizes.total_points → (c : ℕ) × (is_in (s.points j).cluster c ≡ true)
    pub centered : AllCentered s
    pub stopped : (done ≡ true) ⊎ (sizes.max_iterations ≤ last)
    pub bounded : (last ≤ sizes.max_iterations) ⊎ (last ≡ 1)
    pub settled :
        done ≡ true → 1 < last → (j : ℕ) → j < sizes.total_points → stays r sizes s j ≡ true

  pub Ends : Option (State r × ℕ × Bool) → Type 0
  Ends out =
      (s : State r) × (last : ℕ) × (done : Bool) × (out ≡ some (s, last, done))
      × IsResult s last done

  round-IsResult :
      (s : State r) (iter : ℕ)
      → 0 < sizes.k
      → (iter ≤ sizes.max_iterations) ⊎ (iter ≡ 1)
      → IsPartition r vals sizes.k sizes.total_points s
      → (1 < iter → AllCentered s)
      → ((assign r sizes sizes.total_points 0 s true).1 || leb sizes.max_iterations iter) ≡ true
      → IsResult
          (recentered r sizes (assign r sizes sizes.total_points 0 s true).0)
          iter
          (assign r sizes sizes.total_points 0 s true).1
  round-IsResult s iter pos bound h centers stop = record {
    partition = recentered-IsPartition (assign r sizes sizes.total_points 0 s true).0 (
        assign-IsPartition r vals sizes sizes.total_points 0 sizes.total_points s true pos
          (omega arith) h);
    home = λ j lt. (
      nearest_center r sizes s.clusters (s.points j),
      (assign-Visited r sizes sizes.total_points s true).nearest j lt,
    );
    centered = recenter-Centered r sizes (assign r sizes sizes.total_points 0 s true).0.clusters;
    stopped = elim (Bool-cases (assign r sizes sizes.total_points 0 s true).1) [
      | inl e ↦ inl e
      | inr e ↦ inr (ground (arith, stop, e))
    ];
    bounded = bound;
    settled = λ done later j lt.
        let quiet =
          assign-IsSettled r vals sizes sizes.total_points 0 sizes.total_points s true (omega arith)
            done in
        let same : recentered r sizes (assign r sizes sizes.total_points 0 s true).0 ≡ s =
          ap (recentered r sizes) quiet.kept ∙ recentered-same s (centers later) in
        transport (ap (λ t. stays r sizes t j ≡ true) (sym same))
          (quiet.nearest j (omega arith) lt);
  }

  pub iterate-Ends :
      (fuel iter : ℕ) (s : State r)
      → 0 < sizes.k
      → 0 < fuel
      → sizes.max_iterations < iter + fuel
      → (iter ≤ sizes.max_iterations) ⊎ (iter ≡ 1)
      → IsPartition r vals sizes.k sizes.total_points s
      → (1 < iter → AllCentered s)
      → Ends (iterate r sizes fuel iter s)
  unfolding iterate Ends
  iterate-Ends zero iter s pos fuelled enough bound h centers = absurd (omega (arith, fuelled))
  iterate-Ends (suc fuel) iter s pos fuelled enough bound h centers =
      let pass = assign r sizes sizes.total_points 0 s true in
      elim (Bool-cases (pass.1 || leb sizes.max_iterations iter)) [
        | inl stop ↦ rw stop (
          recentered r sizes pass.0,
          iter,
          pass.1,
          refl,
          round-IsResult s iter pos bound h centers stop,
        )
        | inr go ↦
            let early : iter < sizes.max_iterations = ground (arith, go) in
            rw go (
              iterate-Ends fuel (suc iter) (recentered r sizes pass.0) pos
                (omega (arith, early, enough)) (omega (arith, enough)) (inl early)
                (recentered-IsPartition pass.0 (
                  assign-IsPartition r vals sizes sizes.total_points 0 sizes.total_points s true pos
                    (omega arith) h))
                (λ later. recenter-Centered r sizes pass.0.clusters))
      ]
