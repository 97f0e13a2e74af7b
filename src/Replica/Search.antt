-- ===== src/Replica/Search.antt =====
-- ReplicatedKeyValueStoreRDMA/Persistence/KeyValueStore/Cuckoo.hpp: `nextPoint` and `search`, the
-- breadth-first search for a path of displacements that ends in an empty slot.
pub mod Bounds
use concurrent_computing.Prelude.{
  ℕ, zero, suc, ◌+◌, ◌-◌, ◌*◌, ◌%◌, ◌++◌, Bool, true, false, not, Option, none, some, List, [], ◌∷◌,
  ltb, if◌then◌else◌, elem,
}
use concurrent_computing.Cuckoo.Search.{Side, left, right, other}
use concurrent_computing.Replica.Table.{entry_width, is_occupied, get_element}
use concurrent_computing.Replica.State.{Cuckoo, hash1, hash2, fastrand}

abbrev pub max_search_depth : ℕ
max_search_depth = 5

-- `hash(key, 1)` or `hash(key, 2)`: both index the one table, which the source's 1 and 2 number.
unfoldable pub home : ℕ → Side → ℕ → ℕ
unfolding hash1 hash2
home buckets left key = hash1 buckets key
home buckets right key = hash2 buckets key

pub record Point : Type 0 where
  pub table : Side
  pub index : ℕ
  pub pathcode : ℕ
  pub depth : ℕ

unfoldable pub next_point : Cuckoo → Point → ℕ → Point
unfolding home
next_point c point slot = record {
  table = other point.table;
  index = home c.buckets (other point.table) (get_element c.table point.index slot).key;
  pathcode = point.pathcode * entry_width + slot;
  depth = point.depth + 1;
}

-- What the loop over the slots of one bucket ends in: an empty slot, or points for the queue.
pub data Scan : Type 0 where
  vacant : Point → Scan
  pushed : List Point → Scan

unfoldable pub scan : Cuckoo → Point → ℕ → ℕ → ℕ → List Point → Scan
unfolding next_point
scan c point start zero i acc = pushed acc
scan c point start (suc n) i acc =
    let slot = (start + i) % entry_width in
    let more = scan c point start n (suc i) (
      if ltb point.depth (max_search_depth - 1)
      then acc ++ next_point c point slot ∷ []
      else acc) in
    if not (is_occupied (get_element c.table point.index slot))
    then vacant (record point { pathcode = point.pathcode * entry_width + slot })
    else more

-- `none` for the point with -1 in each field; the outer `none` if the fuel runs out.
unfoldable pub search_loop : Cuckoo → ℕ → List Point → List ℕ → ℕ → Option (Option Point × ℕ)
unfolding scan fastrand
search_loop c zero q paths seed = none
search_loop c (suc fuel) [] paths seed = some (none, seed)
search_loop c (suc fuel) (point ∷ q) paths seed =
    let key = (get_element c.table point.index (point.pathcode % entry_width)).key in
    let drawn = fastrand seed in
    let scanned = scan c point (drawn.0 % entry_width) entry_width 0 [] in
    elim (elem key paths) [
      | true ↦ some (none, seed)
      | false ↦ elim scanned [
        | vacant p ↦ some (some p, drawn.1)
        | pushed ps ↦ search_loop c fuel (q ++ ps) (key ∷ paths) drawn.1
      ]
    ]

-- The points that can follow one from which `levels` more moves are allowed, itself included.
unfoldable pub subtree : ℕ → ℕ
subtree zero = 1
subtree (suc levels) = 1 + entry_width * subtree levels

-- Fuel for the two points that the queue starts with.
unfoldable pub search_fuel : ℕ
unfolding subtree
search_fuel = suc (2 * subtree (max_search_depth - 1))

unfoldable pub start_points : ℕ → ℕ → List Point
start_points idx1 idx2 =
    record { table = left; index = idx1; pathcode = 0; depth = 0 }
    ∷ record { table = right; index = idx2; pathcode = 1; depth = 0 }
    ∷ []

unfoldable pub search : Cuckoo → ℕ → ℕ → Option (Option Point × ℕ)
unfolding search_loop search_fuel start_points
search c idx1 idx2 = search_loop c search_fuel (start_points idx1 idx2) [] c.seed
