-- ===== src/Replica/Remote/Locking.antt =====
-- `prepareMessage` and `release` of ReplicatedKeyValueStoreRDMA/App/Remote.cpp: the lock of a key on
-- every node, or on none.
use concurrent_computing.Prelude.{
  ℕ, ◌+◌, ◌/◌, ◌%◌, ◌<◌, ◌≡◌, refl, ◌∙◌, arith, ◌&&◌, some, List, [], ◌∷◌, ◌++◌, ltb, ◌==◌,
  if◌then◌else◌, ◌>>=◌,
}
use concurrent_computing.Replica.State.{fastrand}
use concurrent_computing.Replica.Fabric.{Fabric, word_of, node_of}
use concurrent_computing.Replica.Remote.{
  Client, connection, swap_lock, release, lock_offset, random_node,
}

pub lock_offset_aligned : (key : ℕ) → lock_offset key % 8 ≡ 0
unfolding lock_offset
lock_offset_aligned key = omega arith

-- The cell of the lock.
abbrev pub lock_cell : ℕ → ℕ
lock_cell key = lock_offset key / 8

-- How often a node is in a list of nodes.
unfoldable pub count : ℕ → List ℕ → ℕ
count m [] = 0
count m (x ∷ xs) = (if m == x then 1 else 0) + count m xs

pub count_last :
    (m : ℕ) (xs : List ℕ) (x : ℕ) → count m (xs ++ x ∷ []) ≡ count m xs + (if m == x then 1 else 0)
unfolding count
count_last m [] x = omega arith
count_last m (y ∷ xs) x = omega (arith, count_last m xs x)

-- Each node of the list is one that there is.
abbrev pub Below : ℕ → List ℕ → Type 0
Below n [] = Unit
Below n (x ∷ xs) = (x < n) × Below n xs

pub Below_last : (n : ℕ) (xs : List ℕ) (x : ℕ) → Below n xs → x < n → Below n (xs ++ x ∷ [])
Below_last n [] x b h = (h, tt)
Below_last n (y ∷ xs) x b h = (b.0, Below_last n xs x b.1 h)

module _ (f : Fabric) where
  -- The thread is one of the client's.
  abbrev pub Runs : Client f → ℕ → Type 0
  Runs c thread = thread < c.clients

  abbrev pub with_net : Client f → f.Net → Client f
  with_net c s = record c { net = s }

  pub connection_run :
      (c : Client f) (target thread : ℕ)
      → target < c.num_nodes
      → Runs c thread
      → connection f target thread c ≡ some (tt, c)
  unfolding connection
  connection_run c target thread h h' = ground arith

  pub random_node_run :
      (c : Client f)
      → 0 < c.num_nodes
      → random_node f c
        ≡ some ((fastrand c.seed).0 % c.num_nodes, record c { seed = (fastrand c.seed).1 })
  unfolding random_node
  random_node_run c h = ground arith

  module _ (key thread : ℕ) where
    -- `release` gives back each lock of the list that is held, and changes nothing else.
    pub release_run :
        (c : Client f) (targets : List ℕ)
        → Runs c thread
        → Below c.num_nodes targets
        → (s : f.Net) × (release f key thread targets c ≡ some (tt, with_net c s))
          × ((m p : ℕ)
              → f.memory s m p ≡ (
                  if ltb 0 (count m targets)
                    && p == lock_cell key
                    && word_of (f.memory c.net m (lock_cell key)) == 1
                  then node_of 0
                  else f.memory c.net m p))
          × ((m : ℕ) → f.sent s m ≡ f.sent c.net m)
          × (f.log s ≡ f.log c.net)
    unfolding release count
    release_run c [] runs below = (c.net, refl, λ m p. refl, λ m. refl, refl)
    release_run c (t ∷ ts) runs below =
        let swapped = f.compare_and_swap t (lock_offset key) 1 0 c.net in
        let (s, run, cells, sent, log) = release_run (with_net c swapped.1) ts runs below.1 in
        (
          s,
          rw (connection_run c t thread below.0 runs, ◌>>=◌) (unfold swap_lock in run),
          λ m p. ground (
            arith,
            cells m p,
            f.swap_memory t (lock_offset key) 1 0 c.net m p (lock_offset_aligned key),
            f.swap_memory t (lock_offset key) 1 0 c.net m (lock_cell key) (lock_offset_aligned key),
          ),
          λ m. sent m ∙ f.swap_sent t (lock_offset key) 1 0 c.net m,
          log ∙ f.swap_log t (lock_offset key) 1 0 c.net,
        )
