-- ===== src/Clustering/Running.antt =====
-- The whole of `run`, and `main`, of K-Means/solution.cpp.
use concurrent_computing.Prelude.{
  ℕ, suc, ◌<◌, ◌≤◌, ◌≡◌, arith, false, List, [], ◌==◌, ltb, inl, inr, refl, ap, transport,
  Option-cases,
}
use concurrent_computing.Clustering.{Reals, Sizes, State, Cluster, new_point, choose, run, program}
use concurrent_computing.Clustering.Members.{IsPartition}
use concurrent_computing.Clustering.Rounds.{Ends, iterate-Ends}
use concurrent_computing.Clustering.Choosing.{distinct, Chosen, choose-Chosen}

module _ (r : Reals) (vals : ℕ → ℕ → r.R) (sizes : Sizes r) where
  -- The points as `main` makes them, before any is in a cluster.
  abbrev loaded : (ℕ → Cluster r) → State r
  loaded unmade = record { points = λ i. new_point r i (vals i); clusters = unmade }

  loaded-IsPartition :
      (unmade : ℕ → Cluster r) → IsPartition r vals 0 sizes.total_points (loaded unmade)
  unfolding new_point
  loaded-IsPartition unmade = record {
    numbered = λ j j<n. refl;
    inside = λ j c j<n mine. absurd (ground (arith, mine));
    once = λ j c j<n c<k. absurd (omega (arith, c<k));
    valued = λ j j<n. refl;
    copies = λ c c<k. absurd (omega (arith, c<k));
  }

  rounds-Ends :
      (draws : List ℕ) (s : State r)
      → 0 < sizes.k
      → sizes.k ≤ sizes.total_points
      → Chosen r vals sizes (choose r sizes 0 [] draws s)
      → Ends r vals sizes (run r sizes draws s)
  unfolding run Chosen
  rounds-Ends draws s pos le begun =
      let enough : ltb sizes.total_points sizes.k ≡ false = ground (arith, le) in
      let some_k : (sizes.k == 0) ≡ false = ground (arith, pos) in
      rw enough (elim (Option-cases (choose r sizes 0 [] draws s)) [
        | inl e ↦ absurd (transport (ap (Chosen r vals sizes) e) begun)
        | inr (chosen, e) ↦ rw e (
            rw some_k (
              iterate-Ends r vals sizes (suc sizes.max_iterations) 1 chosen pos (omega arith)
                (omega arith) (inr refl) (transport (ap (Chosen r vals sizes) e) begun)
                (λ later. absurd (omega (arith, later)))))
      ])

  -- With `0 < K <= total_points`, and values of rand that give `K` different points, the program
  -- ends with a state where each point has the values that were read and is in a cluster; it is in
  -- the list of that cluster once, with these values, and in no other list; and each center of a
  -- cluster with points is their mean. It stops after a round that moved no point, or after
  -- `max_iterations` rounds (one if that is 0). Where a round after the first moved no point, each
  -- point is in the cluster that getIDNearestCenter gives for it.
  pub program-Ends :
      (unmade : ℕ → Cluster r) (draws : List ℕ)
      → 0 < sizes.k
      → sizes.k ≤ sizes.total_points
      → sizes.k ≤ distinct r sizes [] draws
      → Ends r vals sizes (program r sizes vals unmade draws)
  unfolding program new_point
  program-Ends unmade draws pos le enough = rounds-Ends draws (loaded unmade) pos le (
      choose-Chosen r vals sizes 0 [] draws (loaded unmade) (omega (arith, pos, le)) (omega arith)
        (omega (arith, enough)) (λ j lt out. refl) (loaded-IsPartition unmade))
