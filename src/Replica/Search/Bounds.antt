-- ===== src/Replica/Search/Bounds.antt =====
-- The search of ReplicatedKeyValueStoreRDMA/Persistence/KeyValueStore/Cuckoo.hpp ends.
use concurrent_computing.Prelude.{
  ℕ, zero, suc, ◌+◌, ◌-◌, ◌*◌, ◌%◌, ◌<◌, ◌≤◌, ◌≡◌, refl, arith, Option, none, some, List, [], ◌∷◌,
  ◌++◌, elem, ltb, if◌then◌else◌, Bool-cases, ◌⊎◌, inl, inr,
}
use concurrent_computing.Replica.Table.{entry_width, get_element}
use concurrent_computing.Replica.State.{Cuckoo, fastrand}
use concurrent_computing.Replica.Search.{
  Point, Scan, vacant, pushed, next_point, scan, search_loop, search, subtree, search_fuel,
  start_points, max_search_depth,
}

-- The number of points that a queue can still lead to.
weight : List Point → ℕ
weight [] = 0
weight (p ∷ q) = subtree (max_search_depth - 1 - p.depth) + weight q

weight-append : (p q : List Point) → weight (p ++ q) ≡ weight p + weight q
unfolding weight
weight-append [] q = omega arith
weight-append (x ∷ p) q = omega (arith, weight-append p q)

-- What each point pushed from this depth can lead to; nothing is pushed at the last depth.
child : ℕ → ℕ
child depth = if ltb depth 4 then subtree (4 - suc depth) else 0

subtree-child : (depth : ℕ) → subtree (4 - depth) ≡ 1 + 8 * child depth
unfolding subtree child
subtree-child depth = elim (Bool-cases (ltb depth 4)) [
  | inl below ↦
      let e : 4 - depth ≡ suc (4 - suc depth) = ground arith in rw (e, below) (omega arith)
  | inr last ↦ let e : 4 - depth ≡ 0 = ground arith in rw (e, last)
]

next_points : Cuckoo → Point → ℕ → List Point → List Point
next_points c point slot acc =
    if ltb point.depth (max_search_depth - 1) then acc ++ next_point c point slot ∷ [] else acc

weight-next_points :
    (c : Cuckoo) (point : Point) (slot : ℕ) (acc : List Point)
    → weight (next_points c point slot acc) ≡ weight acc + child point.depth
unfolding next_points next_point weight child
weight-next_points c point slot acc =
    ground (arith, weight-append acc (next_point c point slot ∷ []))

scan-weight :
    (c : Cuckoo) (point : Point) (start n i : ℕ) (acc out : List Point)
    → scan c point start n i acc ≡ pushed out
    → weight out ≤ weight acc + n * child point.depth
unfolding scan next_points
scan-weight c point start zero i acc out e = ground arith
scan-weight c point start (suc n) i acc out e =
    let slot = (start + i) % entry_width in
    ground (
      arith,
      weight-next_points c point slot acc,
      scan-weight c point start n (suc i) (next_points c point slot acc) out,
    )

pub Scan-cases : (s : Scan) → ((p : Point) × (s ≡ vacant p)) ⊎ ((ps : List Point) × (s ≡ pushed ps))
Scan-cases (vacant p) = inl (p, refl)
Scan-cases (pushed ps) = inr (ps, refl)

-- Enough fuel for all that the queue can lead to.
search_loop-total :
    (c : Cuckoo) (fuel : ℕ) (q : List Point) (paths : List ℕ) (seed : ℕ)
    → weight q < fuel
    → (r : Option Point × ℕ) × (search_loop c fuel q paths seed ≡ some r)
unfolding search_loop weight
search_loop-total c zero q paths seed h = elim h [ ]
search_loop-total c (suc fuel) [] paths seed h = ((none, seed), refl)
search_loop-total c (suc fuel) (point ∷ q) paths seed h =
    let key = (get_element c.table point.index (point.pathcode % entry_width)).key in
    let start = (fastrand seed).0 % entry_width in
    elim (Bool-cases (elem key paths)) [
      | inl seen ↦ ((none, seed), rw (seen, search_loop))
      | inr fresh ↦ elim (Scan-cases (scan c point start entry_width 0 [])) [
        | inl (p, e) ↦ ((some p, (fastrand seed).1), rw (fresh, e, search_loop))
        | inr (ps, e) ↦
            let (r, run) = search_loop-total c fuel (q ++ ps) (key ∷ paths) (fastrand seed).1 (
              omega (
                arith,
                weight-append q ps,
                scan-weight c point start entry_width 0 [] ps e,
                subtree-child point.depth,
              )) in
            (r, rw (fresh, e, search_loop) run)
      ]
    ]

-- The search of the replicated store ends from any two buckets, whatever the table contains: the
-- fuel that the model gives it suffices.
pub search_ends :
    (c : Cuckoo) (idx1 idx2 : ℕ) → (r : Option Point × ℕ) × (search c idx1 idx2 ≡ some r)
unfolding search weight
search_ends c idx1 idx2 =
    search_loop-total c search_fuel (start_points idx1 idx2) [] c.seed (omega arith)
