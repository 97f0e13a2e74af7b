-- ===== src/Cuckoo/Insert.antt =====
-- CuckooHash/Cuckoo.hpp: the private `insert`, which finds a slot for a value and holds its locks.
use concurrent_computing.Prelude.{
  ℕ, zero, suc, ◌/◌, ◌%◌, Bool, true, false, ◌||◌, ◌&&◌, not, Option, none, some, List, [], ◌∷◌,
  ◌==◌, if◌then◌else◌,
}
use concurrent_computing.Cuckoo.Table.{
  width, empty_slot, is_occupied, is_available, find, first_available, write,
}
use concurrent_computing.Cuckoo.State.{
  Cuckoo, M, pure, fault, get, modify, ◌>>=◌, ◌>>◌, acquire, release,
}
use concurrent_computing.Cuckoo.Locks.{lock_two, lock_three, unlock_one, unlock_two, unlock_three}
use concurrent_computing.Cuckoo.Search.{Side, left, right, other, table_of, home, Point, search}

-- `Result`; the other fields of the source's struct are read with SUCCESS alone.
pub data Result : Type 0 where
  needs_resize retry duplicate : Result
  success : Side → ℕ → ℕ → Result

-- One entry of `Path`.
pub record Hop : Type 0 where
  pub table : Side
  pub index : ℕ
  pub slot : ℕ

unfoldable pub put_at : Side → ℕ → ℕ → ℕ → Cuckoo → Cuckoo
unfolding write
put_at left idx slot val c = record c { table1 = write c.table1 idx slot val }
put_at right idx slot val c = record c { table2 = write c.table2 idx slot val }

abbrev pub element : Cuckoo → Side → ℕ → ℕ → ℕ
element c side idx slot = (table_of c side).elements idx slot

-- The loop that takes the slots off a path code, the last one first.
unfoldable pub decode : ℕ → ℕ → List ℕ → ℕ × List ℕ
decode zero code acc = (code, acc)
decode (suc n) code acc = decode n (code / width) (code % width ∷ acc)

-- The path up to its first empty slot, the deepest entry first.
unfoldable pub follow : Cuckoo → Side → ℕ → List ℕ → List Hop → List Hop
unfolding home
follow c side idx [] acc = acc
follow c side idx (slot ∷ slots) acc =
    let hop : Hop = record { table = side; index = idx; slot = slot } in
    let next = home c.buckets (other side) (element c side idx slot) in
    let more = follow c (other side) next slots (hop ∷ acc) in
    if is_available (table_of c side) idx slot then hop ∷ acc else more

unfoldable pub path_of : Cuckoo → ℕ → ℕ → Point → List Hop
unfolding decode follow
path_of c idx1 idx2 point =
    let (base, slots) = decode (suc point.depth) point.pathcode [] in
    if base == 0 then follow c left idx1 slots [] else follow c right idx2 slots []

-- One displacement, from a slot to the next one on the path.
unfoldable pub move : Hop → Hop → Cuckoo → Cuckoo
unfolding put_at
move to from c =
    let val = element c from.table from.index from.slot in
    put_at from.table from.index from.slot empty_slot
      (put_at (other from.table) to.index to.slot val c)

-- The tests that the path has not changed since it was read.
unfoldable pub has_changed : Cuckoo → Hop → Hop → Bool
unfolding home
has_changed c to from =
    is_occupied (element c (other from.table) to.index to.slot)
    || not (is_occupied (element c from.table from.index from.slot))
    || not
        (home c.buckets (other from.table) (element c from.table from.index from.slot) == to.index)

abbrev pub is_last : List Hop → Bool
is_last [] = true
is_last (h ∷ hs) = false

-- The locks of one displacement; the last one also takes those of the value's two buckets.
unfoldable pub displace_locks : ℕ → ℕ → Hop → Hop → Bool → List ℕ
displace_locks idx1 idx2 to from last =
    if last then lock_three idx1 idx2 to.index else lock_two to.index from.index

unfoldable pub abort_unlocks : ℕ → ℕ → Hop → Hop → Bool → List ℕ
abort_unlocks idx1 idx2 to from last =
    if last then unlock_three idx1 idx2 to.index else unlock_two to.index from.index

unfoldable pub displace_unlocks : ℕ → ℕ → Hop → Hop → Bool → List ℕ
displace_unlocks idx1 idx2 to from last =
    if last
    then (if not (to.index == idx1) && not (to.index == idx2) then unlock_one to.index else [])
    else unlock_two to.index from.index

-- The displacements from the end of the path to its start.
unfoldable pub displace : ℕ → ℕ → List Hop → M Result
unfolding move has_changed displace_locks abort_unlocks displace_unlocks
displace idx1 idx2 [] = fault
displace idx1 idx2 (first ∷ []) = pure (success first.table first.index first.slot)
displace idx1 idx2 (to ∷ from ∷ rest) = do
  acquire (displace_locks idx1 idx2 to from (is_last rest))
  c ← get
  elim (has_changed c to from) [
    | true ↦ do release (abort_unlocks idx1 idx2 to from (is_last rest)); pure retry
    | false ↦ do
      modify (move to from)
      release (displace_unlocks idx1 idx2 to from (is_last rest))
      displace idx1 idx2 (from ∷ rest)
  ]

-- The path ends at its first entry: take that slot if it is still empty.
unfoldable pub claim : ℕ → ℕ → Hop → M Result
claim idx1 idx2 hop = do
  acquire (lock_two idx1 idx2)
  c ← get
  elim (is_available (table_of c hop.table) hop.index hop.slot) [
    | true ↦ pure (success hop.table hop.index hop.slot)
    | false ↦ do release (unlock_two idx1 idx2); pure retry
  ]

unfoldable pub take_path : ℕ → ℕ → List Hop → M Result
unfolding displace claim
take_path idx1 idx2 [] = fault
take_path idx1 idx2 (hop ∷ []) = claim idx1 idx2 hop
take_path idx1 idx2 (to ∷ from ∷ rest) = displace idx1 idx2 (to ∷ from ∷ rest)

-- `search`, which also advances the static words of the generator.
unfoldable pub run_search : ℕ → ℕ → M (Option Point)
run_search idx1 idx2 c = elim (search c idx1 idx2) [
  | none ↦ none
  | some (p, seeds) ↦ some (p, record c { seeds = seeds })
]

unfoldable pub make_room : ℕ → ℕ → M Result
unfolding path_of take_path
make_room idx1 idx2 = do
  found ← run_search idx1 idx2
  elim found [
    | none ↦ pure needs_resize
    | some point ↦ do c ← get; take_path idx1 idx2 (path_of c idx1 idx2 point)
  ]

unfoldable pub insert_at : ℕ → ℕ → ℕ → M Result
unfolding make_room find first_available
insert_at val idx1 idx2 = do
  acquire (lock_two idx1 idx2)
  c ← get
  elim (find c.table1 val idx1 || find c.table2 val idx2) [
    | true ↦ do release (unlock_two idx1 idx2); pure duplicate
    | false ↦ elim (first_available c.table1 idx1) [
      | some slot ↦ pure (success left idx1 slot)
      | none ↦ elim (first_available c.table2 idx2) [
        | some slot ↦ pure (success right idx2 slot)
        | none ↦ do release (unlock_two idx1 idx2); make_room idx1 idx2
      ]
    ]
  ]
