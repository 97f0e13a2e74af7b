-- ===== src/Replica/Remote/Preparing.antt =====
-- `prepareMessage` of ReplicatedKeyValueStoreRDMA/App/Remote.cpp: its loop over the nodes.
use native.Mathlib.Nat.{mod-eq_of_lt, mod-eq-sub-mod}
use concurrent_computing.Prelude.{
  ℕ, zero, suc, ◌+◌, ◌-◌, ◌%◌, ◌<◌, ◌≡◌, ◌⊎◌, refl, ap, ◌∙◌, arith, true, false, ◌&&◌, Option, some,
  List, [], ◌∷◌, ◌++◌, ltb, leb, ◌==◌, if◌then◌else◌, Bool-cases, inl, inr, ◌>>=◌,
}
use concurrent_computing.Replica.State.{fastrand}
use concurrent_computing.Replica.Fabric.{Fabric, word_of, node_of}
use concurrent_computing.Replica.Remote.{
  Client, swap_lock, release, prepare_from, prepare_message, lock_offset,
}
use concurrent_computing.Replica.Remote.Locking.{
  lock_offset_aligned, lock_cell, count, count_last, Below, Below_last, Runs, with_net,
  connection_run, random_node_run, release_run,
}

-- The round in which the loop that starts at `start` comes to node `m` of `n`.
abbrev pub turn : ℕ → ℕ → ℕ → ℕ
turn start n m = if leb start m then m - start else m + n - start

wrap :
    (start n i : ℕ)
    → start < n
    → i < n
    → (start + i) % n ≡ (if ltb (start + i) n then start + i else start + i - n)
wrap start n i h h' = elim (Bool-cases (ltb (start + i) n)) [
  | inl e ↦ rw e (mod-eq_of_lt (ground arith))
  | inr e ↦ rw e (mod-eq-sub-mod (ground arith) ∙ mod-eq_of_lt (ground arith))
]

-- The node of a round, and the round of a node.
pub node-lt : (start n i : ℕ) → start < n → i < n → (start + i) % n < n
node-lt start n i h h' = ground (arith, wrap start n i h h')

pub node-turn :
    (start n i m : ℕ) → start < n → i < n → m < n → (m == (start + i) % n) ≡ (turn start n m == i)
node-turn start n i m h h' lt = rw (wrap start n i h h') (ground arith)

module _ (f : Fabric) (key thread : ℕ) (first : f.Net) where
  -- Each lock of the key is free or taken.
  abbrev pub AreLocks : ℕ → Type 0
  AreLocks n =
      (m : ℕ)
      → m < n
      → (f.memory first m (lock_cell key) ≡ node_of 0)
        ⊎ (f.memory first m (lock_cell key) ≡ node_of 1)

  -- The locks taken since the net was `first`: those of the nodes before round `i`, each once.
  pub record Owns (c : Client f) (start i : ℕ) (owned : List ℕ) : Type 0 where
    pub counted :
        (m : ℕ)
        → count m owned ≡ (if ltb m c.num_nodes && ltb (turn start c.num_nodes m) i then 1 else 0)
    pub cells :
        (m p : ℕ)
        → f.memory c.net m p
          ≡ (if ltb 0 (count m owned) && p == lock_cell key then node_of 1 else f.memory first m p)
    pub sent : (m : ℕ) → f.sent c.net m ≡ f.sent first m
    pub log : f.log c.net ≡ f.log first
    pub below : Below c.num_nodes owned
    pub vacant : (m : ℕ) → 0 < count m owned → f.memory first m (lock_cell key) ≡ node_of 0

  -- The net is as it was.
  pub record Same (s : f.Net) : Type 0 where
    pub cells : (m p : ℕ) → f.memory s m p ≡ f.memory first m p
    pub sent : (m : ℕ) → f.sent s m ≡ f.sent first m
    pub log : f.log s ≡ f.log first

  -- What the loop comes to: every lock, or none.
  pub data Prepared (c : Client f) (start : ℕ) (run : Option (List ℕ × Client f)) : Type 0 where
    all :
        (owned : List ℕ) (s : f.Net)
        → run ≡ some (owned, with_net f c s)
        → Owns (with_net f c s) start c.num_nodes owned
        → Prepared c start run
    nothing :
        (s : f.Net) (m : ℕ)
        → run ≡ some ([], with_net f c s)
        → Same s
        → m < c.num_nodes
        → f.memory first m (lock_cell key) ≡ node_of 1
        → Prepared c start run

  module _ (c : Client f) (start i : ℕ) (owned : List ℕ) (o : Owns c start i owned)
      (in_range : start < c.num_nodes) (turns : i < c.num_nodes) where
    abbrev target : ℕ
    target = (start + i) % c.num_nodes

    target-lt : target < c.num_nodes
    target-lt = node-lt start c.num_nodes i in_range turns

    target-turn : (m : ℕ) → m < c.num_nodes → (m == target) ≡ (turn start c.num_nodes m == i)
    target-turn m h = node-turn start c.num_nodes i m in_range turns h

    not_owned : count target owned ≡ 0
    not_owned = ground (arith, o.counted target, target-turn target target-lt)

    abbrev swapped : ℕ × f.Net
    swapped = f.compare_and_swap target (lock_offset key) 0 1 c.net

    value : swapped.0 ≡ word_of (f.memory first target (lock_cell key))
    value =
        f.swap_value target (lock_offset key) 0 1 c.net (lock_offset_aligned key)
        ∙ ground (arith, o.cells target (lock_cell key), not_owned)

    -- A lock that was free is owned after the swap.
    taken-Owns :
        f.memory first target (lock_cell key) ≡ node_of 0
        → Owns (with_net f c swapped.1) start (suc i) (owned ++ target ∷ [])
    taken-Owns free = record {
      counted =
          λ m. ground (arith, count_last m owned target, o.counted m, target-turn m, target-lt);
      cells = λ m p. ground (
        arith,
        count_last m owned target,
        f.swap_memory target (lock_offset key) 0 1 c.net m p (lock_offset_aligned key),
        o.cells m p,
        o.cells target (lock_cell key),
        not_owned,
      );
      sent = λ m. f.swap_sent target (lock_offset key) 0 1 c.net m ∙ o.sent m;
      log = f.swap_log target (lock_offset key) 0 1 c.net ∙ o.log;
      below = Below_last c.num_nodes owned target o.below target-lt;
      vacant = λ m h. ground (arith, count_last m owned target, o.vacant m);
    }

    -- A lock that was taken stays as it was, and so do the nodes' other cells.
    refused_cells :
        f.memory first target (lock_cell key) ≡ node_of 1
        → (m p : ℕ) → f.memory swapped.1 m p ≡ f.memory c.net m p
    refused_cells busy m p = ground (
      arith,
      f.swap_memory target (lock_offset key) 0 1 c.net m p (lock_offset_aligned key),
      o.cells target (lock_cell key),
      not_owned,
    )

    -- When a lock is taken already, those that were taken before it are given back.
    given_back :
        Runs f c thread
        → f.memory first target (lock_cell key) ≡ node_of 1
        → (s : f.Net) × (release f key thread owned (with_net f c swapped.1)
            ≡ some (tt, with_net f c s))
          × Same s
    given_back runs busy =
        let (s, run, cells, sent, log) =
          release_run f key thread (with_net f c swapped.1) owned runs o.below in
        (
          s,
          run,
          record {
            cells = λ m p. ground (
              arith,
              cells m p,
              refused_cells busy m p,
              refused_cells busy m (lock_cell key),
              o.cells m p,
              o.cells m (lock_cell key),
              o.vacant m,
            );
            sent = λ m. sent m ∙ f.swap_sent target (lock_offset key) 0 1 c.net m ∙ o.sent m;
            log = log ∙ f.swap_log target (lock_offset key) 0 1 c.net ∙ o.log;
          },
        )

  prepare_from-Prepared :
      (c : Client f) (start n i : ℕ) (owned : List ℕ)
      → Owns c start i owned
      → start < c.num_nodes
      → i + n ≡ c.num_nodes
      → Runs f c thread
      → AreLocks c.num_nodes
      → Prepared c start (prepare_from f key thread start n i owned c)
  unfolding prepare_from swap_lock
  prepare_from-Prepared c start zero i owned o in_range rounds runs locks =
      let e : i ≡ c.num_nodes = omega arith in all owned c.net refl (rw e at o)
  prepare_from-Prepared c start (suc n) i owned o in_range rounds runs locks =
      let turns : i < c.num_nodes = omega arith in
      let t = (start + i) % c.num_nodes in
      let t-lt = target-lt c start i owned o in_range turns in
      let read = value c start i owned o in_range turns in
      let after = f.compare_and_swap t (lock_offset key) 0 1 c.net in
      elim (locks t t-lt) [
        | inl free ↦
            let old : (after.0 == 1) ≡ false = rw (read, free) refl in
            let rest =
              prepare_from-Prepared (with_net f c after.1) start n (suc i) (owned ++ t ∷ [])
                (taken-Owns c start i owned o in_range turns free) in_range (omega arith) runs
                locks in
            rw (connection_run f c t thread t-lt runs, ◌>>=◌, old) (widened c start after.1 rest)
        | inr busy ↦
            let old : (after.0 == 1) ≡ true = rw (read, busy) refl in
            let (s, run, same) = given_back c start i owned o in_range turns runs busy in
            nothing s t (rw (connection_run f c t thread t-lt runs, ◌>>=◌, old, run)) same t-lt busy
      ]
    where
      widened :
          (c : Client f) (start : ℕ) (s : f.Net) {run : Option (List ℕ × Client f)}
          → Prepared (with_net f c s) start run
          → Prepared c start run
      widened c start s (all o' s' e own) = all o' s' e own
      widened c start s (nothing s' m e same lt busy) = nothing s' m e same lt busy

  -- With at least one node and a thread of the client's, and if each of the key's locks is free or
  -- taken, `prepareMessage` takes the lock on every node and returns every node once; or, if some
  -- node's lock is taken, it returns no node and leaves the memory of every node as it was. No
  -- message is sent.
  pub prepare_message-Prepared :
      (c : Client f)
      → c.net ≡ first
      → 0 < c.num_nodes
      → Runs f c thread
      → AreLocks c.num_nodes
      → Prepared
          (record c { seed = (fastrand c.seed).1 })
          ((fastrand c.seed).0 % c.num_nodes)
          (prepare_message f key thread c)
  unfolding prepare_message count
  prepare_message-Prepared c at_first some_node runs locks =
      let d = record c { seed = (fastrand c.seed).1 } in
      let start = (fastrand c.seed).0 % c.num_nodes in
      rw (random_node_run f c some_node, ◌>>=◌)
        (prepare_from-Prepared d start c.num_nodes 0 []
          (record {
            counted = λ m. ground arith;
            cells = λ m p. ap (λ (s : f.Net). f.memory s m p) at_first;
            sent = λ m. ap (λ (s : f.Net). f.sent s m) at_first;
            log = ap (λ (s : f.Net). f.log s) at_first;
            below = tt;
            vacant = λ m h. absurd (omega arith);
          })
          (grind arith) (omega arith) runs locks)
