-- ===== src/Replica/Remote.antt =====
-- ReplicatedKeyValueStoreRDMA/App/Remote.cpp: `hash`, `get`, `release`, `prepareMessage` and the two
-- methods `insert`, for one client thread.
pub mod Locking
pub mod Preparing
pub mod Delivery
pub mod Multi
pub mod Reads
pub mod Clients
use Prim.Native.Nat.{bit_xor}
use concurrent_computing.Prelude.{
  ℕ, zero, suc, ◌+◌, ◌-◌, ◌*◌, ◌/◌, ◌%◌, ◌^◌, Bool, true, false, not, ◌&&◌, none, some, List, [],
  ◌∷◌, ◌++◌, ltb, ◌==◌, if◌then◌else◌, Run, pure, ◌>>=◌, ◌>>◌, get as state, modify, fault,
}
use concurrent_computing.Cuckoo.Table.{any}
use concurrent_computing.Replica.Table.{Node, entry_width}
use concurrent_computing.Replica.State.{add32, shl32, fastrand}
use concurrent_computing.Replica.Ops.{Result, is_true, is_false, abort_failure, node_bytes}
use concurrent_computing.Replica.Fabric.{Fabric}

-- `SIZE`
abbrev pub table_size : ℕ
table_size = 1000000 / entry_width

-- The parameter is an `unsigned int`, so the right shifts are not signed.
unfoldable pub secondary_hash : ℕ → ℕ
secondary_hash a =
    let a1 = add32 (add32 a 0x7ed55d16) (shl32 a 12) in
    let a2 = bit_xor (bit_xor a1 0xc761c23c) (a1 / 2 ^ 19) in
    let a3 = add32 (add32 a2 0x165667b1) (shl32 a2 5) in
    let a4 = bit_xor (add32 a3 0xd3a2646c) (shl32 a3 9) in
    let a5 = add32 (add32 a4 0xfd7046c5) (shl32 a4 3) in
    bit_xor (bit_xor a5 0xb55a4f09) (a5 / 2 ^ 16)

-- `key % SIZE` of two `int`s takes the sign of the key; the result is a 32-bit pattern.
unfoldable pub primary : ℕ → ℕ
primary key =
    if ltb key (2 ^ 31) then key % table_size else (2 ^ 32 - (2 ^ 32 - key) % table_size) % 2 ^ 32

unfoldable pub secondary : ℕ → ℕ
unfolding secondary_hash
secondary key = secondary_hash key % table_size

-- Byte offsets are kept in an `int`.
abbrev pub bucket_offset : ℕ → ℕ
bucket_offset index = index * entry_width * node_bytes % 2 ^ 32

unfoldable pub lock_offset : ℕ → ℕ
unfolding primary
lock_offset key = (table_size * entry_width + primary key) * node_bytes % 2 ^ 32

unfoldable pub find_element : (ℕ → Node) → ℕ → Bool
unfolding any
find_element elements key = any (λ i. (elements i).key == key) entry_width 0

module _ (f : Fabric) where
  open f use {Net, read, compare_and_swap, send}

  -- The object, the static seed, and the net. The threads of the client have an index below
  -- `clients`, and `connections` has `num_nodes` rows.
  pub record Client : Type 0 where
    pub num_nodes : ℕ
    pub clients : ℕ
    pub seed : ℕ
    pub net : Net

  abbrev pub M : Type 0 → Type 0
  M A = Run Client A

  -- `connections[targetId][threadId]`
  unfoldable pub connection : ℕ → ℕ → M (Unit {0})
  connection target thread c =
      if ltb target c.num_nodes && ltb thread c.clients then some (tt, c) else none

  -- `fastrand() % this -> numNodes`
  unfoldable pub random_node : M ℕ
  unfolding fastrand
  random_node c =
      if c.num_nodes == 0
      then none
      else some ((fastrand c.seed).0 % c.num_nodes, record c { seed = (fastrand c.seed).1 })

  -- A compare and swap of a lock, which gives the value that the lock had.
  unfoldable pub swap_lock : ℕ → ℕ → ℕ → ℕ → M ℕ
  unfolding lock_offset
  swap_lock target key old new c =
      let swapped = compare_and_swap target (lock_offset key) old new c.net in
      some (swapped.0, record c { net = swapped.1 })

  unfoldable pub release : ℕ → ℕ → List ℕ → M (Unit {0})
  unfolding connection swap_lock
  release key thread [] = pure tt
  release key thread (target ∷ targets) = do
    connection target thread
    old ← swap_lock target key 1 0
    release key thread targets

  -- The loop of `prepareMessage` from round `i` on, `n` rounds.
  unfoldable pub prepare_from : ℕ → ℕ → ℕ → ℕ → ℕ → List ℕ → M (List ℕ)
  unfolding release
  prepare_from key thread start zero i owned = pure owned
  prepare_from key thread start (suc n) i owned = do
    c ← state
    let target = (start + i) % c.num_nodes
    connection target thread
    old ← swap_lock target key 0 1
    elim (old == 1) [
      | true ↦ do release key thread owned; pure []
      | false ↦ prepare_from key thread start n (suc i) (owned ++ target ∷ [])
    ]

  unfoldable pub prepare_message : ℕ → ℕ → M (List ℕ)
  unfolding random_node prepare_from
  prepare_message key thread = do
    c ← state
    start ← random_node
    prepare_from key thread start c.num_nodes 0 []

  unfoldable pub send_to : ℕ → List Node → M (Unit {0})
  send_to target message c = some (tt, record c { net = send target message c.net })

  unfoldable pub send_all : ℕ → List Node → List ℕ → M (Unit {0})
  unfolding connection send_to
  send_all thread message [] = pure tt
  send_all thread message (target ∷ targets) = do
    connection target thread
    send_to target message
    send_all thread message targets

  unfoldable pub insert : Node → ℕ → M Result
  unfolding prepare_message send_all
  insert node thread = do
    owned ← prepare_message node.key thread
    elim owned [
      | [] ↦ pure abort_failure
      | target ∷ targets ↦ do
        send_all thread (node ∷ []) (target ∷ targets)
        release node.key thread (target ∷ targets)
        pure is_true
    ]

  -- The keys and the nodes owned for them, the last one first: the order of the release when one
  -- cannot be had.
  unfoldable pub release_each : ℕ → List (ℕ × List ℕ) → M (Unit {0})
  unfolding release
  release_each thread [] = pure tt
  release_each thread ((key, owned) ∷ rest) = do release key thread owned; release_each thread rest

  -- `false` if some lock cannot be had; then all locks are released.
  unfoldable pub prepare_each : ℕ → List Node → List (ℕ × List ℕ) → M (Bool × List (ℕ × List ℕ))
  unfolding prepare_message release_each
  prepare_each thread [] held = pure (true, held)
  prepare_each thread (node ∷ nodes) held = do
    owned ← prepare_message node.key thread
    elim owned [
      | [] ↦ do release_each thread held; pure (false, [])
      | target ∷ targets ↦ prepare_each thread nodes ((node.key, target ∷ targets) ∷ held)
    ]

  -- The 24 bytes of a message are three nodes, however many there are.
  unfoldable pub three : List Node → M (List Node)
  three (a ∷ b ∷ d ∷ rest) = pure (a ∷ b ∷ d ∷ [])
  three _ = fault

  -- One message for each element, to the node of the element's number.
  unfoldable pub send_numbered : ℕ → ℕ → ℕ → List Node → M (Unit {0})
  unfolding connection send_to three
  send_numbered thread zero i elements = pure tt
  send_numbered thread (suc n) i elements = do
    connection i thread
    message ← three elements
    send_to i message
    send_numbered thread n (suc i) elements

  abbrev reverse_onto : List (ℕ × List ℕ) → List (ℕ × List ℕ) → List (ℕ × List ℕ)
  reverse_onto [] acc = acc
  reverse_onto (x ∷ xs) acc = reverse_onto xs (x ∷ acc)

  abbrev count_nodes : List Node → ℕ
  count_nodes [] = 0
  count_nodes (x ∷ xs) = suc (count_nodes xs)

  unfoldable pub insert_all : List Node → ℕ → M Result
  unfolding prepare_each send_numbered release_each
  insert_all elements thread = do
    prepared ← prepare_each thread elements []
    let (done, held) = prepared
    elim done [
      | false ↦ pure abort_failure
      | true ↦ do
        send_numbered thread (count_nodes elements) 0 elements
        release_each thread (reverse_onto held [])
        pure is_true
    ]

  -- The two one-sided reads.
  unfoldable pub get : ℕ → ℕ → M Result
  unfolding random_node connection primary secondary find_element
  get key thread = do
    target ← random_node
    connection target thread
    c ← state
    let length = entry_width * node_bytes
    let elements = read target (bucket_offset (primary key)) length c.net
    let others = read target (bucket_offset (secondary key)) length c.net
    pure (
        if find_element elements key
        then is_true
        else if find_element others key
        then is_true
        else is_false)
