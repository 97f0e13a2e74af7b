-- ===== src/Replica/Remote/Reads.antt =====
-- The method `get` of ReplicatedKeyValueStoreRDMA/App/Remote.cpp against the store whose memory it
-- reads, that of Persistence/KeyValueStore/Cuckoo.hpp.
use concurrent_computing.Prelude.{
  ℕ, zero, suc, ◌+◌, ◌*◌, ◌/◌, ◌%◌, ◌^◌, ◌<◌, ◌≡◌, ◌≢◌, refl, sym, ap, ◌∙◌, arith, Bool, false,
  some, ◌==◌, if◌then◌else◌, Bool-cases, inl, inr, ◌>>=◌, ◌||◌,
}
use concurrent_computing.Cuckoo.Table.{any}
use concurrent_computing.Replica.Table.{Node, entry_width, get_element, find}
use concurrent_computing.Replica.State.{Cuckoo, hash1, hash2, fastrand}
use concurrent_computing.Replica.Ops.{Result, is_true, is_false, contains, node_bytes}
use concurrent_computing.Replica.Fabric.{Fabric}
use concurrent_computing.Replica.Contents.{cells, IsValid, key_at, Near-lt}
use concurrent_computing.Replica.Methods.Slots.{find-true}
use concurrent_computing.Replica.Remote.{
  Client, table_size, primary, secondary, bucket_offset, find_element, get,
}
use concurrent_computing.Replica.Remote.Locking.{Runs, connection_run, random_node_run}

any_congr : (p q : ℕ → Bool) (n i : ℕ) → ((j : ℕ) → j < i + n → p j ≡ q j) → any p n i ≡ any q n i
unfolding any
any_congr p q zero i h = refl
any_congr p q (suc n) i h = ground (arith, h i, any_congr p q n (suc i) (λ j lt. h j (omega arith)))

primary-hash1 : (key : ℕ) → key < 2 ^ 31 → primary key ≡ hash1 table_size key
unfolding primary hash1
primary-hash1 key h = ground arith

primary-lt : (key : ℕ) → key < 2 ^ 31 → primary key < table_size
unfolding primary
primary-lt key h = ground arith

secondary-lt : (key : ℕ) → secondary key < table_size
unfolding secondary
secondary-lt key = omega arith

-- The memory of the node is the block of nodes of the store.
abbrev pub IsReplica : (f : Fabric) → f.Net → ℕ → Cuckoo → Type 0
IsReplica f s node store =
    (store.buckets ≡ table_size)
    × ((n : ℕ) → n < cells store → f.memory s node n ≡ store.table.elements n)

module _ (f : Fabric) (c : Client f) (store : Cuckoo) (key thread : ℕ) where
  abbrev pub target : ℕ
  target = (fastrand c.seed).0 % c.num_nodes

  abbrev pub drawn : Client f
  drawn = record c { seed = (fastrand c.seed).1 }

  module _ (some_node : 0 < c.num_nodes) (runs : Runs f c thread)
      (replica : IsReplica f c.net target store) where
    -- A one-sided read of a bucket is searched as the bucket is.
    read_bucket :
        (idx : ℕ)
        → idx < table_size
        → find_element (f.read target (bucket_offset idx) (entry_width * node_bytes) c.net) key
          ≡ find store.table key idx
    unfolding find_element find
    read_bucket idx h =
        any_congr
          (λ i. (f.read target (bucket_offset idx) (entry_width * node_bytes) c.net i).key == key)
          (λ i. (get_element store.table idx i).key == key) entry_width 0 (λ j lt. same j lt)
      where
        same :
            (j : ℕ)
            → j < 8
            → ((f.read target (bucket_offset idx) (entry_width * node_bytes) c.net j).key == key)
              ≡ ((get_element store.table idx j).key == key)
        same j lt =
            let cell : bucket_offset idx / 8 + j ≡ idx * 8 + j = omega arith in
            let inside : idx * 8 + j < cells store = omega (arith, replica.0) in
            ap (λ (node : Node). node.key == key)
              (f.read_cell target (bucket_offset idx) (entry_width * node_bytes) c.net j
                  (omega arith) lt
                ∙ ap (f.memory c.net target) cell
                ∙ replica.1 (idx * 8 + j) inside)

    get_run :
        key < 2 ^ 31
        → get f key thread c
          ≡ some (
            if find store.table key (hash1 table_size key)
                then is_true
                else if find store.table key (secondary key)
                then is_true
                else is_false,
            drawn,
          )
    unfolding get
    get_run small =
        let lt : target < c.num_nodes = grind arith in
        rw (
          random_node_run f c some_node,
          ◌>>=◌,
          connection_run f drawn target thread lt runs,
          read_bucket (primary key) (primary-lt key small),
          read_bucket (secondary key) (secondary-lt key),
          primary-hash1 key small,
        )

    -- For a key that is not negative, and whose second bucket the client and the node compute alike,
    -- `get` answers what `contains` would answer on the node that it draws, and changes the static
    -- seed alone.
    pub get-contains :
        key < 2 ^ 31
        → secondary key ≡ hash2 table_size key
        → get f key thread c ≡ some (contains store key, drawn)
    unfolding contains
    get-contains small agree = get_run small ∙ ap (λ (r : Result). some (r, drawn)) answers
      where
        answers :
            (if find store.table key (hash1 table_size key)
              then is_true
              else if find store.table key (secondary key)
              then is_true
              else is_false)
            ≡ (if find store.table key (hash1 store.buckets key)
                  || find store.table key (hash2 store.buckets key)
                then is_true
                else is_false)
        answers = rw (replica.0, agree) (ground arith)

    -- For a key that is not negative, and whose second bucket the client and the node compute
    -- differently, `get` answers FALSE though the well-formed store of the node that it draws has
    -- the key, if the key stands in its second bucket and that is not its first one.
    pub get_misses :
        key < 2 ^ 31
        → key ≢ 0
        → IsValid store
        → (n : ℕ) → n / entry_width ≡ hash2 table_size key
        → key_at store n ≡ key
        → hash1 table_size key ≢ hash2 table_size key
        → secondary key ≢ hash2 table_size key
        → get f key thread c ≡ some (is_false, drawn)
    get_misses small some_key valid n place e differ astray =
        get_run small
        ∙ rw (
          elsewhere (hash1 table_size key) (primary-hash1-lt) differ,
          elsewhere (secondary key) (secondary-lt key) astray,
        )
      where
        primary-hash1-lt : hash1 table_size key < table_size
        primary-hash1-lt = rw (primary-hash1 key small) at (primary-lt key small)

        elsewhere :
            (idx : ℕ)
            → idx < table_size
            → idx ≢ hash2 table_size key
            → find store.table key idx ≡ false
        elsewhere idx lt other = elim (Bool-cases (find store.table key idx)) [
          | inr h ↦ h
          | inl h ↦
              let (m, q, h') = find-true store.table key idx h in
              let near : n < cells store =
                omega (arith, replica.0, Near-lt table_size key n (omega arith) (inr place)) in
              let same : m ≡ n =
                valid.distinct m n (omega (arith, replica.0)) near (rw h' some_key) (h' ∙ sym e) in
              absurd (other (sym q ∙ ap (λ (x : ℕ). x / 8) same ∙ place))
        ]
