-- ===== src/Replica/Ops.antt =====
-- ReplicatedKeyValueStoreRDMA/Persistence/KeyValueStore/Cuckoo.hpp: the public methods and the
-- constructor, with the `RESULT` of Common/Result.hpp.
use concurrent_computing.Prelude.{
  ℕ, zero, suc, ◌+◌, ◌*◌, true, false, ◌||◌, Option, none, some, if◌then◌else◌,
}
use concurrent_computing.Cuckoo.Ops.{to_nat}
use concurrent_computing.Replica.Table.{
  Node, new, entry_width, is_occupied, get_element, find, find_slot,
}
use concurrent_computing.Replica.State.{
  Cuckoo, M, pure, get, modify, ◌>>=◌, ◌>>◌, hash1, hash2, acquire, release,
}
use concurrent_computing.Replica.Locks.{lock_two, unlock_two}
use concurrent_computing.Replica.Insert.{
  resize, retry, duplicate, success, put_at, clear_at, insert_at,
}

pub data Result : Type 0 where
  is_false is_true dup abort_failure : Result

-- One round of the loop in `insert`; `none` for `continue`.
unfoldable pub insert_round : Node → ℕ → ℕ → M (Option Result)
unfolding insert_at put_at
insert_round element idx1 idx2 = do
  result ← insert_at element.key idx1 idx2
  elim result [
    | resize ↦ pure (some abort_failure)
    | retry ↦ pure none
    | duplicate table index slot ↦ do
      modify (put_at index slot element)
      release (unlock_two idx1 idx2)
      pure (some dup)
    | success table index slot ↦ do
      modify (put_at index slot element)
      release (unlock_two idx1 idx2)
      pure (some is_true)
  ]

-- `while (true)`, with fuel; `none` if that runs out.
unfoldable pub insert_loop : ℕ → Node → ℕ → ℕ → M (Option Result)
unfolding insert_round
insert_loop zero element idx1 idx2 = pure none
insert_loop (suc fuel) element idx1 idx2 = do
  outcome ← insert_round element idx1 idx2
  elim outcome [ some r ↦ pure (some r) | none ↦ insert_loop fuel element idx1 idx2 ]

unfoldable pub insert : ℕ → Node → M (Option Result)
unfolding insert_loop hash1 hash2
insert fuel element = do
  c ← get
  insert_loop fuel element (hash1 c.buckets element.key) (hash2 c.buckets element.key)

unfoldable pub remove : ℕ → M Result
unfolding find_slot clear_at hash1 hash2
remove key = do
  c ← get
  let idx1 = hash1 c.buckets key
  let idx2 = hash2 c.buckets key
  acquire (lock_two idx1 idx2)
  found ← (elim (find_slot c.table key idx1) [
    | some slot ↦ do modify (clear_at idx1 slot); pure true
    | none ↦ elim (find_slot c.table key idx2) [
      | some slot ↦ do modify (clear_at idx2 slot); pure true
      | none ↦ pure false
    ]
  ])
  release (unlock_two idx1 idx2)
  pure (if found then is_true else is_false)

-- It takes no lock.
unfoldable pub contains : Cuckoo → ℕ → Result
unfolding find hash1 hash2
contains c key =
    if find c.table key (hash1 c.buckets key) || find c.table key (hash2 c.buckets key)
    then is_true
    else is_false

-- The occupied slots of bucket `i` from slot `j` on, `n` of them.
unfoldable pub bucket_size : Cuckoo → ℕ → ℕ → ℕ → ℕ
bucket_size c i zero j = 0
bucket_size c i (suc n) j =
    to_nat (is_occupied (get_element c.table i j)) + bucket_size c i n (suc j)

unfoldable pub size_from : Cuckoo → ℕ → ℕ → ℕ
unfolding bucket_size
size_from c zero i = 0
size_from c (suc n) i = bucket_size c i entry_width 0 + size_from c n (suc i)

unfoldable pub size : Cuckoo → ℕ
unfolding size_from
size c = size_from c c.buckets 0

-- `sizeof(Node<int, int>)`
abbrev pub node_bytes : ℕ
node_bytes = 8

unfoldable pub get_storage_size : Cuckoo → ℕ
get_storage_size c = (c.buckets * entry_width + c.buckets) * node_bytes

-- The constructor, with the static seed as it stands.
unfoldable pub construct : ℕ → ℕ → Cuckoo
unfolding new
construct buckets seed = record { buckets = buckets; table = new; held = λ i. false; seed = seed }
