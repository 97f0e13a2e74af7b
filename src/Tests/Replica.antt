-- ===== src/Tests/Replica.antt =====
-- The store and the client of ReplicatedKeyValueStoreRDMA on small inputs.
use concurrent_computing.Prelude.{
  ℕ, ◌+◌, ◌/◌, ◌%◌, ◌<◌, ◌≡◌, ◌⊎◌, refl, arith, false, ◌&&◌, Option, none, some, List, [], ◌∷◌,
  ◌++◌, ◌==◌, if◌then◌else◌, inl,
}
use concurrent_computing.Cuckoo.Search.{left, right}
use concurrent_computing.Replica.Table.{Node}
use concurrent_computing.Replica.State.{
  Cuckoo, hash1, hash2, secondary_hash, fastrand, acquire, release,
}
use concurrent_computing.Replica.Locks.{lock_two, unlock_two}
use concurrent_computing.Replica.Search.{Point}
use concurrent_computing.Replica.Insert.{retry, path_of, take_path, find_room}
use concurrent_computing.Replica.Ops.{Result, is_false, dup, insert, insert_round, remove, contains}
use concurrent_computing.Replica.Locks.Runs.{holding}
use concurrent_computing.Replica.Contents.{IsValid}
use concurrent_computing.Replica.Methods.Rounds.{Outcome, Ends, insert_round-Outcome}
use concurrent_computing.Replica.Methods.Room.{insert-Ends}
use concurrent_computing.Replica.Methods.Queries.{Tells, TakesOut, remove-TakesOut}
use concurrent_computing.Replica.Methods.Backward.{backward_path-retries}
use concurrent_computing.Replica.Server.{handle}
use concurrent_computing.Replica.Server.Handling.{Handled, handle-Handled}
use concurrent_computing.Replica.Fabric.{Fabric, word_of, node_of}
use concurrent_computing.Replica.Remote.{Client, prepare_message, get, secondary, table_size}
use concurrent_computing.Replica.Remote as Clients
use concurrent_computing.Replica.Remote.Preparing.{Prepared, prepare_message-Prepared}
use concurrent_computing.Replica.Remote.Delivery.{Inserted, insert-Inserted}
use concurrent_computing.Replica.Remote.Multi.{Aborts, insert_all-Aborts}
use concurrent_computing.Replica.Remote.Reads.{get-contains, get_misses, drawn}

abbrev node : ℕ → ℕ → Node
node k v = record { key = k; val = v }

-- A store of three buckets with the keys 4 and 7 in bucket 1.
abbrev sample : Cuckoo
sample = record {
  buckets = 3;
  table = record {
    elements = λ n. if n == 8 then node 4 40 else if n == 9 then node 7 70 else node 0 0;
  };
  held = λ i. false;
  seed = 99;
}

sample-IsValid : IsValid sample
unfolding hash1 hash2
sample-IsValid = record {
  roomy = omega arith;
  placed = λ n lt h. ground arith;
  distinct = λ n m lt lt' h e. ground arith;
}

abbrev answer {ℓ} : {A : Type ℓ} → Option (A × Cuckoo) → Option A
answer none = none
answer (some (a, c)) = some a

insert_updates : answer (insert 1 (node 4 41) sample) ≡ some (some dup)
unfolding insert acquire release lock_two unlock_two
insert_updates = refl

outcome_example :
    Outcome sample (node 5 50) (insert_round (node 5 50) (hash1 3 5) (hash2 3 5) sample)
outcome_example = insert_round-Outcome sample (node 5 50) (omega arith) sample-IsValid (λ i. refl)

ends_example : Ends sample (node 4 41) (insert 1 (node 4 41) sample)
unfolding find_room hash1 hash2 secondary_hash
ends_example = insert-Ends sample (node 4 41) (omega arith) 0 sample-IsValid (λ i. refl) refl

erased_example :
    (r : Result) × (d : Cuckoo) × (remove 7 sample ≡ some (r, d))
    × Tells r sample 7
    × TakesOut sample 7 d
erased_example = remove-TakesOut sample 7 (omega arith) sample-IsValid (λ i. refl)

-- From slot 0 of bucket 1, in table 2, key 4 may go to table 1.
abbrev backward_point : Point
backward_point = record { table = left; index = 1; pathcode = 69; depth = 1 }

backward_example :
    take_path 2 1 (path_of sample 2 1 backward_point) (holding sample [])
    ≡ some (retry, holding sample [])
unfolding path_of hash1 hash2 secondary_hash
backward_example =
    backward_path-retries sample 2 1 backward_point (record { table = left; index = 1; slot = 5 })
      (record { table = right; index = 1; slot = 0 }) [] refl refl (omega arith)

-- Nodes with memory, and the messages that they got.
record Nodes : Type 0 where
  cells : ℕ → ℕ → Node
  inbox : ℕ → List (List Node)
  sends : List (ℕ → ℕ → Node)

abbrev swap : ℕ → ℕ → ℕ → ℕ → Nodes → Nodes
swap n offset old new s = record s {
  cells = λ m p.
      if m == n && p == offset / 8 && word_of (s.cells n (offset / 8)) == old
      then node_of new
      else s.cells m p;
}

abbrev fabric : Fabric
fabric = record {
  Net = Nodes;
  memory = λ s. s.cells;
  sent = λ s. s.inbox;
  log = λ s. s.sends;
  read = λ n offset length s i. s.cells n (offset / 8 + i);
  compare_and_swap =
      λ n offset old new s. (word_of (s.cells n (offset / 8)), swap n offset old new s);
  send = λ n message s. record s {
    inbox = λ m. if m == n then s.inbox m ++ message ∷ [] else s.inbox m;
    sends = s.sends ++ s.cells ∷ [];
  };
  read_cell = λ n offset length s i h lt. refl;
  swap_value = λ n offset old new s h. refl;
  swap_memory = λ n offset old new s m p h. refl;
  swap_sent = λ n offset old new s m. refl;
  send_memory = λ n message s m p. refl;
  send_sent = λ n message s m. refl;
  swap_log = λ n offset old new s. refl;
  send_log = λ n message s. refl;
}

-- Three nodes, every lock free.
abbrev calm : Nodes
calm = record { cells = λ m p. node 0 0; inbox = λ m. []; sends = [] }

abbrev client : Nodes → Client fabric
client s = record { num_nodes = 3; clients = 2; seed = 99; net = s }

calm_locks : (m : ℕ) → m < 3 → (node 0 0 ≡ node_of 0) ⊎ (node 0 0 ≡ node_of 1)
calm_locks m h = inl refl

prepare_example :
    Prepared fabric 5 1 calm
      (record { num_nodes = 3; clients = 2; seed = (fastrand 99).1; net = calm })
      ((fastrand 99).0 % 3)
      (prepare_message fabric 5 1 (client calm))
prepare_example =
    prepare_message-Prepared fabric 5 1 calm (client calm) refl (omega arith) (omega arith)
      calm_locks

delivery_example :
    Inserted fabric
      (client calm)
      (node 5 50)
      1
      (fastrand 99).1
      (Clients.insert fabric (node 5 50) 1 (client calm))
delivery_example =
    insert-Inserted fabric (client calm) (node 5 50) 1 (omega arith) (omega arith) calm_locks

-- Keys whose locks are the same.
clash_example : Aborts fabric 1 (client calm) (node 5 50 ∷ node 125005 60 ∷ node 7 70 ∷ [])
unfolding Clients.lock_offset
clash_example =
    insert_all-Aborts fabric 1 (client calm) (node 5 50) (node 125005 60) (node 7 70 ∷ [])
      (omega arith) (omega arith) refl calm_locks

-- A store of the client's size with the key 3 in its second bucket.
abbrev wide : Cuckoo
wide = record {
  buckets = 125000;
  table = record { elements = λ n. if n == 371808 then node 3 30 else node 0 0 };
  held = λ i. false;
  seed = 99;
}

wide-IsValid : IsValid wide
unfolding hash1 hash2 secondary_hash
wide-IsValid = record {
  roomy = omega arith;
  placed = λ n lt h. ground arith;
  distinct = λ n m lt lt' h e. ground arith;
}

abbrev serving : Nodes
serving = record { cells = λ m n. wide.table.elements n; inbox = λ m. []; sends = [] }

get_example :
    get fabric 1 0 (client serving) ≡ some (contains wide 1, drawn fabric (client serving) wide 1 0)
unfolding secondary hash2 secondary_hash
get_example =
    get-contains fabric (client serving) wide 1 0 (omega arith) (omega arith) (refl, λ n lt. refl)
      (omega arith) refl

misses_example :
    get fabric 3 0 (client serving) ≡ some (is_false, drawn fabric (client serving) wide 3 0)
unfolding secondary hash1 hash2 secondary_hash
misses_example =
    get_misses fabric (client serving) wide 3 0 (omega arith) (omega arith) (refl, λ n lt. refl)
      (omega arith) (omega arith) wide-IsValid 371808 refl refl (omega arith) (omega arith)

handle_example :
    Handled 2 sample
      (node 4 41 ∷ node 6 60 ∷ node 4 42 ∷ [])
      (handle 2 (node 4 41 ∷ node 6 60 ∷ node 4 42 ∷ []) sample)
handle_example =
    handle-Handled 2 (node 4 41 ∷ node 6 60 ∷ node 4 42 ∷ []) sample (omega arith) sample-IsValid
      (λ i. refl)
