-- ===== src/Replica/Insert.antt =====
-- ReplicatedKeyValueStoreRDMA/Persistence/KeyValueStore/Cuckoo.hpp: the private `insert`, which finds
-- a slot for an element and holds the locks of its two buckets.
use concurrent_computing.Prelude.{
  ℕ, zero, suc, ◌/◌, ◌%◌, Bool, true, false, ◌||◌, ◌&&◌, not, Option, none, some, List, [], ◌∷◌,
  ◌==◌, if◌then◌else◌,
}
use concurrent_computing.Cuckoo.Search.{Side, left, right, other}
use concurrent_computing.Replica.Table.{
  Node, entry_width, empty_key, is_occupied, is_available, get_element, set_element, set_key,
  find_slot, first_available,
}
use concurrent_computing.Replica.State.{
  Cuckoo, M, pure, fault, get, modify, ◌>>=◌, ◌>>◌, hash2, acquire, release,
}
use concurrent_computing.Replica.Locks.{lock_two, lock_three, unlock_one, unlock_two, unlock_three}
use concurrent_computing.Replica.Search.{home, Point, search}

-- `InsertResult`; the other fields of the source's struct are read with DUPLICATE and SUCCESS alone.
pub data InsertResult : Type 0 where
  resize retry : InsertResult
  duplicate success : Side → ℕ → ℕ → InsertResult

-- One entry of `Path`.
pub record Hop : Type 0 where
  pub table : Side
  pub index : ℕ
  pub slot : ℕ

-- `this -> table -> setElement(idx, slot, element)`, and the same for the key.
unfoldable pub put_at : ℕ → ℕ → Node → Cuckoo → Cuckoo
unfolding set_element
put_at idx slot element c = record c { table = set_element c.table idx slot element }

unfoldable pub clear_at : ℕ → ℕ → Cuckoo → Cuckoo
unfolding set_key
clear_at idx slot c = record c { table = set_key c.table idx slot empty_key }

-- The loop that takes the slots off a path code, the last one first.
unfoldable pub decode : ℕ → ℕ → List ℕ → ℕ × List ℕ
decode zero code acc = (code, acc)
decode (suc n) code acc = decode n (code / entry_width) (code % entry_width ∷ acc)

-- The path up to its first empty slot, the deepest entry first.
unfoldable pub follow : Cuckoo → Side → ℕ → List ℕ → List Hop → List Hop
unfolding home
follow c side idx [] acc = acc
follow c side idx (slot ∷ slots) acc =
    let hop : Hop = record { table = side; index = idx; slot = slot } in
    let next = home c.buckets (other side) (get_element c.table idx slot).key in
    let more = follow c (other side) next slots (hop ∷ acc) in
    if is_available c.table idx slot then hop ∷ acc else more

unfoldable pub path_of : Cuckoo → ℕ → ℕ → Point → List Hop
unfolding decode follow
path_of c idx1 idx2 point =
    let (base, slots) = decode (suc point.depth) point.pathcode [] in
    if base == 0 then follow c left idx1 slots [] else follow c right idx2 slots []

-- One displacement, from a slot to the next one on the path.
unfoldable pub move : Hop → Hop → Cuckoo → Cuckoo
unfolding put_at clear_at
move to from c =
    clear_at from.index from.slot
      (put_at to.index to.slot (get_element c.table from.index from.slot) c)

-- The tests that the path has not changed. The last one takes the hash function 2, also for a
-- displacement from table 2 into table 1.
unfoldable pub has_changed : Cuckoo → Hop → Hop → Bool
unfolding hash2
has_changed c to from =
    is_occupied (get_element c.table to.index to.slot)
    || not (is_occupied (get_element c.table from.index from.slot))
    || not (hash2 c.buckets (get_element c.table from.index from.slot).key == to.index)

abbrev pub is_last : List Hop → Bool
is_last [] = true
is_last (h ∷ hs) = false

-- The locks of one displacement; the last one also takes those of the element's two buckets.
unfoldable pub displace_locks : ℕ → ℕ → Hop → Hop → Bool → List ℕ
displace_locks idx1 idx2 to from last =
    if last then lock_three idx1 idx2 to.index else lock_two to.index from.index

unfoldable pub abort_unlocks : ℕ → ℕ → Hop → Hop → Bool → List ℕ
abort_unlocks idx1 idx2 to from last =
    if last then unlock_three idx1 idx2 to.index else unlock_two to.index from.index

unfoldable pub displace_unlocks : ℕ → ℕ → Hop → Hop → Bool → List ℕ
displace_unlocks idx1 idx2 to from last =
    if last
    then (if not (to.index == idx1) && not (to.index == idx2) then unlock_one to.index else [])
    else unlock_two to.index from.index

-- The displacements from the end of the path to its start.
unfoldable pub displace : ℕ → ℕ → List Hop → M InsertResult
unfolding move has_changed displace_locks abort_unlocks displace_unlocks
displace idx1 idx2 [] = fault
displace idx1 idx2 (first ∷ []) = pure (success first.table first.index first.slot)
displace idx1 idx2 (to ∷ from ∷ rest) = do
  acquire (displace_locks idx1 idx2 to from (is_last rest))
  c ← get
  elim (has_changed c to from) [
    | true ↦ do release (abort_unlocks idx1 idx2 to from (is_last rest)); pure retry
    | false ↦ do
      modify (move to from)
      release (displace_unlocks idx1 idx2 to from (is_last rest))
      displace idx1 idx2 (from ∷ rest)
  ]

-- The path ends at its first entry: take that slot if it is still empty.
unfoldable pub claim : ℕ → ℕ → Hop → M InsertResult
claim idx1 idx2 hop = do
  acquire (lock_two idx1 idx2)
  c ← get
  elim (is_available c.table hop.index hop.slot) [
    | true ↦ pure (success hop.table hop.index hop.slot)
    | false ↦ do release (unlock_two idx1 idx2); pure retry
  ]

unfoldable pub take_path : ℕ → ℕ → List Hop → M InsertResult
unfolding displace claim
take_path idx1 idx2 [] = fault
take_path idx1 idx2 (hop ∷ []) = claim idx1 idx2 hop
take_path idx1 idx2 (to ∷ from ∷ rest) = displace idx1 idx2 (to ∷ from ∷ rest)

-- `search`, which also advances the static seed.
unfoldable pub run_search : ℕ → ℕ → M (Option Point)
run_search idx1 idx2 c = elim (search c idx1 idx2) [
  | none ↦ none
  | some (p, seed) ↦ some (p, record c { seed = seed })
]

unfoldable pub make_room : ℕ → ℕ → M InsertResult
unfolding path_of take_path
make_room idx1 idx2 = do
  found ← run_search idx1 idx2
  elim found [
    | none ↦ pure resize
    | some point ↦ do c ← get; take_path idx1 idx2 (path_of c idx1 idx2 point)
  ]

-- The first of the four slots that the source looks for, under both locks.
unfoldable pub find_room : Cuckoo → ℕ → ℕ → ℕ → Option InsertResult
unfolding find_slot first_available
find_room c key idx1 idx2 = elim (find_slot c.table key idx1) [
  | some slot ↦ some (duplicate left idx1 slot)
  | none ↦ elim (find_slot c.table key idx2) [
    | some slot ↦ some (duplicate right idx2 slot)
    | none ↦ elim (first_available c.table idx1) [
      | some slot ↦ some (success left idx1 slot)
      | none ↦ elim (first_available c.table idx2) [
        | some slot ↦ some (success right idx2 slot)
        | none ↦ none
      ]
    ]
  ]
]

unfoldable pub insert_at : ℕ → ℕ → ℕ → M InsertResult
unfolding find_room make_room
insert_at key idx1 idx2 = do
  acquire (lock_two idx1 idx2)
  c ← get
  elim (find_room c key idx1 idx2) [
    | some result ↦ pure result
    | none ↦ do release (unlock_two idx1 idx2); make_room idx1 idx2
  ]
