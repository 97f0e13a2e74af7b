-- ===== src/Clustering.antt =====
-- K-Means/solution.cpp: points, clusters, and the class `KMeans`. The `double`s and their operations
-- are a parameter. A vector is a function of its index; its size is one of the numbers that the
-- program reads. The name of a point is for output alone and is left out.
pub mod Nearest
pub mod Members
pub mod Passes
pub mod Visits
pub mod Centers
pub mod Rounds
pub mod Choosing
pub mod Running
use concurrent_computing.Prelude.{
  ℕ, zero, suc, ◌+◌, ◌-◌, ◌%◌, ◌≡◌, Bool, true, false, ◌||◌, ◌&&◌, Option, none, some, List, [],
  ◌∷◌, ◌++◌, ltb, leb, ◌==◌, if◌then◌else◌, update, elem, length,
}

-- `double` as the program uses it: `square x` is `pow(x, 2.0)`.
pub record Reals : Type 1 where
  pub R : Type 0
  pub null : R
  pub add : R → R → R
  pub sub : R → R → R
  pub square : R → R
  pub root : R → R
  pub less : R → R → Bool
  pub divided : R → ℕ → R

abbrev pub is_in : Option ℕ → ℕ → Bool
is_in none c = false
is_in (some o) c = o == c

module _ (r : Reals) where
  open r use {R, null, add, sub, square, root, less, divided}

  -- `none` is the cluster -1.
  pub record Point : Type 0 where
    pub id : ℕ
    pub cluster : Option ℕ
    pub values : ℕ → R

  pub record Cluster : Type 0 where
    pub id : ℕ
    pub central_values : ℕ → R
    pub points : List Point

  abbrev pub set_cluster : ℕ → Point → Point
  set_cluster c p = record p { cluster = some c }

  unfoldable pub new_point : ℕ → (ℕ → R) → Point
  new_point id values = record { id = id; cluster = none; values = values }

  unfoldable pub new_cluster : ℕ → Point → Cluster
  new_cluster c p = record { id = c; central_values = p.values; points = p ∷ [] }

  unfoldable pub add_point : Point → Cluster → Cluster
  add_point p c = record c { points = c.points ++ p ∷ [] }

  -- The first point with the number is erased.
  unfoldable pub erase : ℕ → List Point → Bool × List Point
  erase id [] = (false, [])
  erase id (p ∷ ps) =
      let rest = erase id ps in if p.id == id then (true, ps) else (rest.0, p ∷ rest.1)

  unfoldable pub remove_point : ℕ → Cluster → Bool × Cluster
  unfolding erase
  remove_point id c = ((erase id c.points).0, record c { points = (erase id c.points).1 })

  -- The loop over the coordinates, from `i` on, `n` of them.
  unfoldable pub sum_from : (ℕ → R) → (ℕ → R) → ℕ → ℕ → R → R
  sum_from central values zero i sum = sum
  sum_from central values (suc n) i sum =
      sum_from central values n (suc i) (add sum (square (sub (central i) (values i))))

  -- `K`, `total_values`, `total_points`, `max_iterations`
  pub record Sizes : Type 0 where
    pub k : ℕ
    pub total_values : ℕ
    pub total_points : ℕ
    pub max_iterations : ℕ

  pub record State : Type 0 where
    pub points : ℕ → Point
    pub clusters : ℕ → Cluster

  -- A point that changes its cluster.
  unfoldable pub left_cluster : Option ℕ → ℕ → (ℕ → Cluster) → ℕ → Cluster
  unfolding remove_point
  left_cluster none id clusters = clusters
  left_cluster (some old) id clusters = update clusters old (remove_point id (clusters old)).1

  unfoldable pub move_point : ℕ → ℕ → State → State
  unfolding left_cluster add_point
  move_point i near s =
      let p = s.points i in
      let clusters = left_cluster p.cluster p.id s.clusters in
      record {
        points = update s.points i (set_cluster near p);
        clusters = update clusters near (add_point (set_cluster near p) (clusters near));
      }

  unfoldable pub sum_values : List Point → ℕ → R → R
  sum_values [] j sum = sum
  sum_values (p ∷ ps) j sum = sum_values ps j (add sum (p.values j))

  -- The loop over the coordinates of one center.
  unfoldable pub center_from : ℕ → ℕ → Cluster → Cluster
  unfolding sum_values
  center_from zero j c = c
  center_from (suc n) j c =
      let total = length c.points in
      let mean = divided (sum_values c.points j null) total in
      center_from n (suc j)
        (if ltb 0 total then record c { central_values = update c.central_values j mean } else c)

  module _ (sizes : Sizes) where
    unfoldable pub distance : Cluster → Point → R
    unfolding sum_from
    distance c p = root (sum_from c.central_values p.values sizes.total_values 0 null)

    -- The loop over the clusters from `i` on, `n` of them.
    unfoldable pub nearest_from : (ℕ → Cluster) → Point → ℕ → ℕ → R → ℕ → ℕ
    unfolding distance
    nearest_from clusters p zero i min_dist center = center
    nearest_from clusters p (suc n) i min_dist center =
        let dist = distance (clusters i) p in
        nearest_from clusters p n (suc i) (if less dist min_dist then dist else min_dist)
          (if less dist min_dist then i else center)

    unfoldable pub nearest_center : (ℕ → Cluster) → Point → ℕ
    unfolding nearest_from
    nearest_center clusters p = nearest_from clusters p (sizes.k - 1) 1 (distance (clusters 0) p) 0

    -- The first centers, with the values that `rand` gives; `none` if there are no more of them.
    unfoldable pub choose : ℕ → List ℕ → List ℕ → State → Option State
    unfolding new_cluster
    choose i prohibited [] s = if i == sizes.k then some s else none
    choose i prohibited (draw ∷ draws) s =
        let index = draw % sizes.total_points in
        let point = set_cluster i (s.points index) in
        let again = choose i prohibited draws s in
        let on = choose (suc i) (prohibited ++ index ∷ []) draws (record {
          points = update s.points index point;
          clusters = update s.clusters i (new_cluster i point);
        }) in
        if i == sizes.k then some s else if elem index prohibited then again else on

    -- The loop over the points from `i` on, `n` of them, with the flag `done`.
    unfoldable pub assign : ℕ → ℕ → State → Bool → State × Bool
    unfolding nearest_center move_point
    assign zero i s done = (s, done)
    assign (suc n) i s done =
        let near = nearest_center s.clusters (s.points i) in
        let stays = is_in (s.points i).cluster near in
        assign n (suc i) (if stays then s else move_point i near s) (stays && done)

    unfoldable pub recenter : ℕ → ℕ → (ℕ → Cluster) → ℕ → Cluster
    unfolding center_from
    recenter zero i clusters = clusters
    recenter (suc n) i clusters =
        recenter n (suc i) (update clusters i (center_from sizes.total_values 0 (clusters i)))

    abbrev pub recentered : State → State
    recentered s = record { points = s.points; clusters = recenter sizes.k 0 s.clusters }

    -- `while (true)`; the fuel is the number of rounds allowed. It returns the last number of the
    -- round, and whether that round moved no point.
    unfoldable pub iterate : ℕ → ℕ → State → Option (State × ℕ × Bool)
    unfolding assign recenter
    iterate zero iter s = none
    iterate (suc fuel) iter s =
        let pass = assign sizes.total_points 0 s true in
        let s' = recentered pass.0 in
        let rest = iterate fuel (suc iter) s' in
        if pass.1 || leb sizes.max_iterations iter then some (s', iter, pass.1) else rest

    -- `none` where the loop that chooses needs more values of `rand`, or where there is no cluster.
    unfoldable pub run : List ℕ → State → Option (State × ℕ × Bool)
    unfolding choose iterate
    run draws s =
        if ltb sizes.total_points sizes.k then some (s, 0, false) else elim (choose 0 [] draws s) [
          | none ↦ none
          | some chosen ↦
              if sizes.k == 0 && ltb 0 sizes.total_points
              then none
              else iterate (suc sizes.max_iterations) 1 chosen
        ]

    -- `main` with the rows that it reads; `unmade` stands for the clusters that are not made yet.
    unfoldable pub program : (ℕ → ℕ → R) → (ℕ → Cluster) → List ℕ → Option (State × ℕ × Bool)
    unfolding run new_point
    program rows unmade draws =
        run draws (record { points = λ i. new_point i (rows i); clusters = unmade })
