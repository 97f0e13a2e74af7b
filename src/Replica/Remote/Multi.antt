-- ===== src/Replica/Remote/Multi.antt =====
-- The method `insert` of several elements in ReplicatedKeyValueStoreRDMA/App/Remote.cpp, where two of
-- them have the same lock.
use concurrent_computing.Prelude.{
  ℕ, ◌%◌, ◌<◌, ◌≡◌, refl, sym, ◌∙◌, arith, some, List, [], ◌∷◌, inr, ◌>>=◌, ap,
}
use concurrent_computing.Replica.Table.{Node}
use concurrent_computing.Replica.State.{fastrand}
use concurrent_computing.Replica.Ops.{abort_failure}
use concurrent_computing.Replica.Fabric.{Fabric, node_of}
use concurrent_computing.Replica.Remote.{
  Client, prepare_message, prepare_each, release_each, insert_all,
}
use concurrent_computing.Replica.Remote.Locking.{lock_cell, count, Runs, with_net, release_run}
use concurrent_computing.Replica.Remote.Preparing.{
  AreLocks, Owns, Prepared, all, nothing, prepare_message-Prepared,
}
use concurrent_computing.Replica.Remote.Delivery.{count-one, not_nil, restored}

node_of-differ : node_of 0 ≡ node_of 1 → ⊥
node_of-differ e = let keys : 0 ≡ 1 = ap (λ d. d.key) e in omega (arith, keys)

module _ (f : Fabric) (thread : ℕ) where
  -- ABORT_FAILURE, with the nodes' memory and messages as they were.
  pub record Aborts (c : Client f) (elements : List Node) : Type 0 where
    pub after : Client f
    pub run : insert_all f elements thread c ≡ some (abort_failure, after)
    pub cells : (m p : ℕ) → f.memory after.net m p ≡ f.memory c.net m p
    pub sent : (m : ℕ) → f.sent after.net m ≡ f.sent c.net m

  module _ (c : Client f) (a b : Node) (rest : List Node) (some_node : 0 < c.num_nodes)
      (runs : Runs f c thread) (same_lock : lock_cell a.key ≡ lock_cell b.key) where
    abbrev first_drawn : Client f
    first_drawn = record c { seed = (fastrand c.seed).1 }

    abbrev start : ℕ
    start = (fastrand c.seed).0 % c.num_nodes

    module _ (owned : List ℕ) (s : f.Net)
        (own : Owns f a.key thread c.net (with_net f first_drawn s) start c.num_nodes owned) where
      abbrev held : Client f
      held = with_net f first_drawn s

      taken : (m : ℕ) → m < c.num_nodes → f.memory s m (lock_cell b.key) ≡ node_of 1
      taken m lt = rw (sym same_lock) (
          ground (
            arith,
            own.cells m (lock_cell a.key),
            count-one f c a thread some_node runs owned s own m,
          ))

      abbrev second_drawn : Client f
      second_drawn = record held { seed = (fastrand held.seed).1 }

      not_all :
          (owned' : List ℕ) (s' : f.Net)
          → Owns f b.key thread s
              (with_net f second_drawn s')
              ((fastrand held.seed).0 % held.num_nodes)
              held.num_nodes
              owned'
          → ⊥
      not_all owned' s' own' =
          let once = count-one f held b thread some_node runs owned' s' own' 0 in
          let owns : 0 < count 0 owned' = ground (arith, once) in
          node_of-differ (sym (own'.vacant 0 owns) ∙ taken 0 some_node)

      refused :
          (t : ℕ) (ts : List ℕ)
          → owned ≡ t ∷ ts
          → prepare_message f a.key thread c ≡ some (owned, held)
          → Prepared f b.key thread s second_drawn
              ((fastrand held.seed).0 % held.num_nodes)
              (prepare_message f b.key thread held)
          → Aborts c (a ∷ b ∷ rest)
      unfolding insert_all prepare_each release_each
      refused t ts e run (all owned' s' run' own') = absurd (not_all owned' s' own')
      refused t ts e run (nothing s' m run' same lt busy) =
          let (s2, run2, cells2, sent2, log2) =
            release_run f a.key thread (with_net f second_drawn s') owned runs own.below in
          record {
            after = with_net f second_drawn s2;
            run = rw (run, ◌>>=◌, e) (rw (run', ◌>>=◌) (rw (rw e at run2, ◌>>=◌) refl));
            cells = λ m p.
                restored f c a thread some_node runs owned s own {s1 = s'} {s2 = s2} m p
                  (cells2 m p) (same.cells m p) (same.cells m (lock_cell a.key));
            sent = λ m. sent2 m ∙ same.sent m ∙ own.sent m;
          }

    begun :
        AreLocks f a.key thread c.net c.num_nodes
        → Prepared f a.key thread c.net first_drawn start (prepare_message f a.key thread c)
        → Aborts c (a ∷ b ∷ rest)
    unfolding insert_all prepare_each release_each
    begun locks (nothing s m run same lt busy) = record {
      after = with_net f first_drawn s;
      run = rw (run, ◌>>=◌) refl;
      cells = same.cells;
      sent = same.sent;
    }
    begun locks (all [] s run own) = absurd (not_nil f c a thread some_node runs [] s own refl)
    begun locks (all (t ∷ ts) s run own) = refused (t ∷ ts) s own t ts refl run (
        prepare_message-Prepared f b.key thread s (held (t ∷ ts) s own) refl some_node runs
          (λ m lt. inr (taken (t ∷ ts) s own m lt)))

    -- With at least one node, a thread of the client's, and the first key's locks each free or
    -- taken: where the keys of the first two elements have the same lock, `insert` of the elements
    -- answers ABORT_FAILURE, whatever the other clients hold. It sends nothing, and the memory of
    -- every node is as before.
    pub insert_all-Aborts : AreLocks f a.key thread c.net c.num_nodes → Aborts c (a ∷ b ∷ rest)
    insert_all-Aborts locks =
        begun locks (prepare_message-Prepared f a.key thread c.net c refl some_node runs locks)
