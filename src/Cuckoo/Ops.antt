-- ===== src/Cuckoo/Ops.antt =====
-- CuckooHash/Cuckoo.hpp: the public methods `insert`, `remove`, `contains`, `size`, the constructor.
use concurrent_computing.Prelude.{ℕ, zero, suc, ◌+◌, Bool, true, false, ◌||◌, Option, none, some}
use concurrent_computing.Cuckoo.Table.{new, width, empty_slot, is_occupied, find, find_slot}
use concurrent_computing.Cuckoo.State.{
  Seeds, Cuckoo, M, pure, get, modify, ◌>>=◌, ◌>>◌, hash1, hash2, acquire, release, read_lock,
  global_unlock,
}
use concurrent_computing.Cuckoo.Locks.{lock_two, unlock_two}
use concurrent_computing.Cuckoo.Search.{left, right}
use concurrent_computing.Cuckoo.Insert.{needs_resize, retry, duplicate, success, put_at, insert_at}
use concurrent_computing.Cuckoo.Resize.{resize}

-- One round of the loop in `insert`; `none` for `continue`.
unfoldable pub insert_round : ℕ → ℕ → ℕ → M (Option Bool)
unfolding insert_at put_at read_lock global_unlock
insert_round val idx1 idx2 = do
  read_lock
  result ← insert_at val idx1 idx2
  elim result [
    | duplicate ↦ do global_unlock; pure (some false)
    | needs_resize ↦ do global_unlock; resize; pure none
    | retry ↦ do global_unlock; pure none
    | success table index slot ↦ do
      modify (put_at table index slot val)
      release (unlock_two idx1 idx2)
      global_unlock
      pure (some true)
  ]

-- `while (true)`, with fuel; `none` if that runs out. The indices are those of the first round.
unfoldable pub insert_loop : ℕ → ℕ → ℕ → ℕ → M (Option Bool)
unfolding insert_round
insert_loop zero val idx1 idx2 = pure none
insert_loop (suc fuel) val idx1 idx2 = do
  outcome ← insert_round val idx1 idx2
  elim outcome [ some inserted ↦ pure (some inserted) | none ↦ insert_loop fuel val idx1 idx2 ]

unfoldable pub insert : ℕ → ℕ → M (Option Bool)
unfolding insert_loop resize hash1 hash2
insert fuel val = do c ← get; insert_loop fuel val (hash1 c.buckets val) (hash2 c.buckets val)

unfoldable pub remove : ℕ → M Bool
unfolding find_slot put_at hash1 hash2 read_lock global_unlock
remove val = do
  read_lock
  c ← get
  let idx1 = hash1 c.buckets val
  let idx2 = hash2 c.buckets val
  acquire (lock_two idx1 idx2)
  found ← (elim (find_slot c.table1 val idx1) [
    | some slot ↦ do modify (put_at left idx1 slot empty_slot); pure true
    | none ↦ elim (find_slot c.table2 val idx2) [
      | some slot ↦ do modify (put_at right idx2 slot empty_slot); pure true
      | none ↦ pure false
    ]
  ])
  release (unlock_two idx1 idx2)
  global_unlock
  pure found

unfoldable pub contains : ℕ → M Bool
unfolding find hash1 hash2 read_lock global_unlock
contains val = do
  read_lock
  c ← get
  let idx1 = hash1 c.buckets val
  let idx2 = hash2 c.buckets val
  acquire (lock_two idx1 idx2)
  let retval = find c.table1 val idx1 || find c.table2 val idx2
  release (unlock_two idx1 idx2)
  global_unlock
  pure retval

abbrev pub to_nat : Bool → ℕ
to_nat true = 1
to_nat false = 0

-- The occupied slots of bucket `i` from slot `j` on, `n` slots of each table.
unfoldable pub bucket_size : Cuckoo → ℕ → ℕ → ℕ → ℕ
bucket_size c i zero j = 0
bucket_size c i (suc n) j =
    to_nat (is_occupied (c.table1.elements i j))
    + to_nat (is_occupied (c.table2.elements i j))
    + bucket_size c i n (suc j)

unfoldable pub size_from : Cuckoo → ℕ → ℕ → ℕ
unfolding bucket_size
size_from c zero i = 0
size_from c (suc n) i = bucket_size c i width 0 + size_from c n (suc i)

unfoldable pub size : Cuckoo → ℕ
unfolding size_from
size c = size_from c c.buckets 0

-- The constructor, with the static words of `xorshf96` as they stand.
unfoldable pub construct : ℕ → Seeds → Cuckoo
unfolding new
construct buckets seeds = record {
  buckets = buckets;
  table1 = new;
  table2 = new;
  held = λ i. false;
  readers = 0;
  writer = false;
  seeds = seeds;
}
