-- ===== src/Tests/Clustering.antt =====
-- K-Means/solution.cpp on a line of four points, with natural numbers for the values.
use concurrent_computing.Prelude.{
  ℕ, ◌+◌, ◌-◌, ◌*◌, ◌/◌, ◌≤◌, ◌≡◌, refl, arith, Bool, true, false, Option, none, some, List, [],
  ◌∷◌, ltb,
}
use concurrent_computing.Clustering.{
  assign, new_point, program, Reals, Cluster, Sizes, State, nearest_center,
}
use concurrent_computing.Clustering.Nearest.{IsOrder, IsNearest, nearest_center-IsNearest}
use concurrent_computing.Clustering.Rounds.{Ends}
use concurrent_computing.Clustering.Choosing.{distinct}
use concurrent_computing.Clustering.Visits.{Visited, assign-Visited}
use concurrent_computing.Clustering.Running.{program-Ends}

abbrev whole : Reals
whole = record {
  R = ℕ;
  null = 0;
  add = λ a b. a + b;
  sub = λ a b. (a - b) + (b - a);
  square = λ a. a * a;
  root = λ a. a;
  less = ltb;
  divided = λ a n. a / n;
}

abbrev line : ℕ → ℕ → ℕ
line i j = i * i

abbrev lone : Cluster whole
lone = record { id = 0; central_values = λ j. 0; points = [] }

abbrev unmade : ℕ → Cluster whole
unmade c = lone

abbrev sizes : Sizes whole
sizes = record { k = 2; total_values = 1; total_points = 4; max_iterations = 5 }

abbrev draws : List ℕ
draws = 4 ∷ 8 ∷ 1 ∷ []

whole-IsOrder : IsOrder whole
whole-IsOrder = record {
  asymm = λ a b e. ground (arith, e);
  not_trans = λ a b c e f. ground (arith, e, f);
  lt_of_lt = λ a b c e f. ground (arith, e, f);
}

abbrev centers : ℕ → Cluster whole
centers c = record { id = c; central_values = λ j. 9 * c; points = [] }

nearest_example :
    IsNearest whole whole-IsOrder sizes centers
      (new_point whole 2 (line 2))
      2
      (nearest_center whole sizes centers (new_point whole 2 (line 2)))
nearest_example =
    nearest_center-IsNearest whole whole-IsOrder sizes centers (new_point whole 2 (line 2)) 1 refl

-- Before the pass each point is in the first cluster.
abbrev together : State whole
together = record {
  points = λ i. record { id = i; cluster = some 0; values = line i };
  clusters = centers;
}

visited_example : Visited whole sizes together 4 (assign whole sizes 4 0 together true).0
visited_example = assign-Visited whole sizes 4 together true

enough_draws : 2 ≤ distinct whole sizes [] draws
unfolding distinct
enough_draws = omega arith

program_example : Ends whole line sizes (program whole sizes line unmade draws)
program_example =
    program-Ends whole line sizes unmade draws (omega arith) (omega arith) enough_draws

-- The clusters of the points, the last round, and whether it moved no point.
abbrev shown : Option (State whole × ℕ × Bool) → List (Option ℕ) × ℕ × Bool
shown none = ([], 0, false)
shown (some (s, last, done)) = (
  (s.points 0).cluster ∷ (s.points 1).cluster ∷ (s.points 2).cluster ∷ (s.points 3).cluster ∷ [],
  last,
  done,
)

clusters_found :
    shown (program whole sizes line unmade draws)
    ≡ (some 0 ∷ some 0 ∷ some 1 ∷ some 1 ∷ [], 3, true)
unfolding program
clusters_found = refl
