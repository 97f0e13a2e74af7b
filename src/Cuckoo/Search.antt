-- ===== src/Cuckoo/Search.antt =====
-- CuckooHash/Cuckoo.hpp: `xorshf96`, `nextPoint`, `getBucket` and `search`, the breadth-first search
-- for a path of displacements that ends in an empty slot.
use Prim.Native.Nat.{bit_xor}
use concurrent_computing.Prelude.{
  ℕ, zero, suc, ◌+◌, ◌-◌, ◌*◌, ◌/◌, ◌%◌, ◌^◌, ◌++◌, Bool, true, false, ◌||◌, not, Option, none,
  some, List, [], ◌∷◌, ltb, ◌==◌, if◌then◌else◌, elem,
}
use concurrent_computing.Cuckoo.Table.{Table, width, is_occupied}
use concurrent_computing.Cuckoo.State.{Seeds, Cuckoo, hash1, hash2}
pub mod Bounds
pub mod Replay

abbrev pub max_search_depth : ℕ
max_search_depth = 7

-- `unsigned long` has 64 bits.
abbrev pub word : ℕ → ℕ
word n = n % 2 ^ 64

unfoldable pub xorshf96 : Seeds → ℕ × Seeds
xorshf96 s =
    let x1 = bit_xor s.x (word (s.x * 2 ^ 16)) in
    let x2 = bit_xor x1 (x1 / 2 ^ 5) in
    let x3 = bit_xor x2 (word (x2 * 2)) in
    let z = bit_xor (bit_xor x3 s.y) s.z in (z, record { x = s.y; y = s.z; z = z })

-- The two tables, 1 and 2 in the source.
pub data Side : Type 0 where
  left right : Side

abbrev pub table_of : Cuckoo → Side → Table
table_of c left = c.table1
table_of c right = c.table2

abbrev pub other : Side → Side
other left = right
other right = left

-- The bucket of a value in a table: `hash(val, 1)` or `hash(val, 2)`.
unfoldable pub home : ℕ → Side → ℕ → ℕ
unfolding hash1 hash2
home buckets left val = hash1 buckets val
home buckets right val = hash2 buckets val

pub record Point : Type 0 where
  pub table : Side
  pub index : ℕ
  pub pathcode : ℕ
  pub depth : ℕ

unfoldable pub next_point : Cuckoo → Point → ℕ → Point
next_point c point slot = record {
  table = other point.table;
  index = home c.buckets (other point.table) ((table_of c point.table).elements point.index slot);
  pathcode = point.pathcode * width + slot;
  depth = point.depth + 1;
}

-- What the loop over the slots of one bucket ends in: an empty slot, or points for the queue.
pub data Scan : Type 0 where
  vacant : Point → Scan
  pushed : List Point → Scan

unfoldable pub scan : Cuckoo → Point → ℕ → ℕ → ℕ → List Point → Scan
unfolding next_point
scan c point start zero i acc = pushed acc
scan c point start (suc n) i acc =
    let slot = (start + i) % width in
    let bucket = (table_of c point.table).elements point.index in
    let more = scan c point start n (suc i) (
      if ltb point.depth (max_search_depth - 1)
      then acc ++ next_point c point slot ∷ []
      else acc) in
    if not (is_occupied (bucket slot))
    then vacant (record point { pathcode = point.pathcode * width + slot })
    else more

-- `none` for the point with -1 in each field; the outer `none` if the fuel runs out.
unfoldable pub search_loop :
    Cuckoo → ℕ → List Point → List ℕ → Seeds → Option (Option Point × Seeds)
unfolding scan xorshf96
search_loop c zero q paths seeds = none
search_loop c (suc fuel) [] paths seeds = some (none, seeds)
search_loop c (suc fuel) (point ∷ q) paths seeds =
    let val = (table_of c point.table).elements point.index (point.pathcode % width) in
    let drawn = xorshf96 seeds in
    let scanned = scan c point (drawn.0 % width) width 0 [] in
    elim (elem val paths) [
      | true ↦ some (none, seeds)
      | false ↦ elim scanned [
        | vacant p ↦ some (some p, drawn.1)
        | pushed ps ↦ search_loop c fuel (q ++ ps) (val ∷ paths) drawn.1
      ]
    ]

-- The points that can follow one from which `levels` more moves are allowed, itself included.
unfoldable pub subtree : ℕ → ℕ
subtree zero = 1
subtree (suc levels) = 1 + width * subtree levels

-- Fuel for the two points that the queue starts with.
unfoldable pub search_fuel : ℕ
unfolding subtree
search_fuel = suc (2 * subtree (max_search_depth - 1))

unfoldable pub start_points : ℕ → ℕ → List Point
start_points idx1 idx2 =
    record { table = left; index = idx1; pathcode = 0; depth = 0 }
    ∷ record { table = right; index = idx2; pathcode = 1; depth = 0 }
    ∷ []

unfoldable pub search : Cuckoo → ℕ → ℕ → Option (Option Point × Seeds)
unfolding search_loop search_fuel start_points
search c idx1 idx2 = search_loop c search_fuel (start_points idx1 idx2) [] c.seeds
