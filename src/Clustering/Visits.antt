-- ===== src/Clustering/Visits.antt =====
-- Where a pass of `run` of K-Means/solution.cpp leaves the points.
use concurrent_computing.Prelude.{
  ℕ, zero, suc, ◌+◌, ◌-◌, ◌<◌, ◌≡◌, ◌⊎◌, arith, Bool, true, ◌&&◌, Option, none, some, ◌==◌,
  if◌then◌else◌, Bool-cases, inl, inr, refl, ◌∙◌, sym, ap, update_at, ==→eq, ==_refl,
}
use concurrent_computing.Clustering.{
  Reals, Point, Cluster, Sizes, State, is_in, set_cluster, left_cluster, remove_point, add_point,
  distance, nearest_from, nearest_center, move_point, assign,
}
use concurrent_computing.Clustering.Passes.{stays, placed}

last_or_before : (j i : ℕ) → j < suc i → (j < i) ⊎ (j ≡ i)
last_or_before j i lt = omega (arith, lt)

module _ (r : Reals) where
  -- The centers of two rows of clusters are the same.
  abbrev pub SameCenters : (ℕ → Cluster r) → (ℕ → Cluster r) → Type 0
  SameCenters ds cs = (c : ℕ) → (ds c).central_values ≡ (cs c).central_values

  left_cluster-SameCenters :
      (o : Option ℕ) (id : ℕ) (cs : ℕ → Cluster r) → SameCenters (left_cluster r o id cs) cs
  unfolding left_cluster remove_point
  left_cluster-SameCenters none id cs c = refl
  left_cluster-SameCenters (some old) id cs c =
      update_at (λ d. d.central_values ≡ (cs c).central_values) cs old
        (remove_point r id (cs old)).1 c (λ e. ap (λ x. (cs x).central_values) e) refl

  move_point-SameCenters :
      (i near : ℕ) (s : State r) → SameCenters (move_point r i near s).clusters s.clusters
  unfolding move_point add_point
  move_point-SameCenters i near s c =
      let p = s.points i in
      let left = left_cluster r p.cluster p.id s.clusters in
      let kept = left_cluster-SameCenters p.cluster p.id s.clusters in
      update_at (λ d. d.central_values ≡ (s.clusters c).central_values) left near
        (add_point r (set_cluster r near p) (left near)) c
        (λ e. kept near ∙ ap (λ x. (s.clusters x).central_values) e) (kept c)

  module _ (sizes : Sizes r) where
    distance-same :
        (d c : Cluster r) (q p : Point r)
        → d.central_values ≡ c.central_values
        → q.values ≡ p.values
        → distance r sizes d q ≡ distance r sizes c p
    unfolding distance
    distance-same d c q p e e' = rw (e, e') refl

    nearest_from-same :
        (ds cs : ℕ → Cluster r) (q p : Point r)
        → SameCenters ds cs
        → q.values ≡ p.values
        → (n i : ℕ) (min_dist : r.R) (center : ℕ)
        → nearest_from r sizes ds q n i min_dist center
          ≡ nearest_from r sizes cs p n i min_dist center
    unfolding nearest_from
    nearest_from-same ds cs q p same e zero i min_dist center = refl
    nearest_from-same ds cs q p same e (suc n) i min_dist center =
        rw (distance-same (ds i) (cs i) q p (same i) e) (
          nearest_from-same ds cs q p same e n (suc i)
            (if r.less (distance r sizes (cs i) p) min_dist
              then distance r sizes (cs i) p
              else min_dist)
            (if r.less (distance r sizes (cs i) p) min_dist then i else center))

    nearest_center-same :
        (ds cs : ℕ → Cluster r) (q p : Point r)
        → SameCenters ds cs
        → q.values ≡ p.values
        → nearest_center r sizes ds q ≡ nearest_center r sizes cs p
    unfolding nearest_center
    nearest_center-same ds cs q p same e =
        rw (distance-same (ds 0) (cs 0) q p (same 0) e)
          (nearest_from-same ds cs q p same e (sizes.k - 1) 1 (distance r sizes (cs 0) p) 0)

    -- A pass from the state `s` that has visited the first `i` points: each of them is in the
    -- cluster that was its nearest in `s`, and centers and values are those of `s`.
    pub record Visited (s : State r) (i : ℕ) (t : State r) : Type 0 where
      pub centers : SameCenters t.clusters s.clusters
      pub values : (j : ℕ) → (t.points j).values ≡ (s.points j).values
      pub nearest :
          (j : ℕ)
          → j < i
          → is_in (t.points j).cluster (nearest_center r sizes s.clusters (s.points j)) ≡ true

    -- The point `i` is in the cluster nearest to it.
    placed-Visited :
        (s t : State r) (i : ℕ) → Visited s i t → Visited s (suc i) (placed r sizes i t)
    unfolding move_point
    placed-Visited s t i v =
        let near = nearest_center r sizes s.clusters (s.points i) in
        let near' = nearest_center r sizes t.clusters (t.points i) in
        let same : near' ≡ near =
          nearest_center-same t.clusters s.clusters (t.points i) (s.points i) v.centers
            (v.values i) in
        elim (Bool-cases (stays r sizes t i)) [
          | inl e ↦ rw e (record {
            centers = v.centers;
            values = v.values;
            nearest = λ j lt. elim (last_or_before j i lt) [
              | inl before ↦ v.nearest j before
              | inr last ↦ rw (last, sym same) e
            ];
          })
          | inr e ↦ rw e (record {
            centers = λ c. move_point-SameCenters i near' t c ∙ v.centers c;
            values = λ j.
                update_at (λ p. p.values ≡ (s.points j).values) t.points i
                  (set_cluster r near' (t.points i)) j
                  (λ q. v.values i ∙ ap (λ x. (s.points x).values) q) (v.values j);
            nearest = λ j lt. elim (Bool-cases (i == j)) [
              | inl q ↦
                  let here : near' ≡ nearest_center r sizes s.clusters (s.points j) =
                    same ∙ ap (λ x. nearest_center r sizes s.clusters (s.points x)) (==→eq i j q) in
                  rw q (rw here (==_refl (nearest_center r sizes s.clusters (s.points j))))
              | inr q ↦ rw q (v.nearest j (ground (arith, lt, q)))
            ];
          })
        ]

    visits :
        (s : State r) (m i n : ℕ) (t : State r) (done : Bool)
        → i + m ≡ n
        → Visited s i t
        → Visited s n (assign r sizes m i t done).0
    unfolding assign
    visits s zero i n t done e v = let same : n ≡ i = omega (arith, e) in rw same v
    visits s (suc m) i n t done e v =
        visits s m (suc i) n (placed r sizes i t) (stays r sizes t i && done) (omega (arith, e))
          (placed-Visited s t i v)

    -- After a pass over the first `n` points each of them is in the cluster that
    -- getIDNearestCenter gave for it with the centers at the begin of the pass; the centers and the
    -- points' values are as they were.
    pub assign-Visited :
        (n : ℕ) (s : State r) (done : Bool) → Visited s n (assign r sizes n 0 s done).0
    assign-Visited n s done = visits s n 0 n s done (omega arith) (record {
      centers = λ c. refl;
      values = λ j. refl;
      nearest = λ j lt. absurd (omega (arith, lt));
    })
