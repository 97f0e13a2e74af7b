-- ===== src/Replica/Remote/Delivery.antt =====
-- The method `insert` of one element in ReplicatedKeyValueStoreRDMA/App/Remote.cpp: the element to
-- every node under the key's locks, or to none.
use mathlib.Core.List.{append-nil, append_assoc}
use concurrent_computing.Prelude.{
  ℕ, zero, suc, ◌+◌, ◌%◌, ◌<◌, ◌≡◌, refl, sym, ap, ◌∙◌, arith, ◌&&◌, Option, some, List, [], ◌∷◌,
  ◌++◌, ltb, ◌==◌, if◌then◌else◌, Bool-cases, inl, inr, ◌>>=◌,
}
use concurrent_computing.Replica.Table.{Node}
use concurrent_computing.Replica.State.{fastrand}
use concurrent_computing.Replica.Ops.{Result, is_true, abort_failure}
use concurrent_computing.Replica.Fabric.{Fabric, word_of, node_of}
use concurrent_computing.Replica.Remote.{Client, send_to, send_all, insert, prepare_message}
use concurrent_computing.Replica.Remote.Locking.{
  lock_cell, count, Below, Runs, with_net, connection_run, release_run,
}
use concurrent_computing.Replica.Remote.Preparing.{
  AreLocks, Owns, Same, Prepared, all, nothing, prepare_message-Prepared,
}

-- A message that a node gets as often as it is in a list.
abbrev pub copies : ℕ → List Node → List (List Node)
copies zero message = []
copies (suc k) message = message ∷ copies k message

-- Each memory of a list.
pub Throughout : ((ℕ → ℕ → Node) → Type 0) → List (ℕ → ℕ → Node) → Type 0
Throughout P [] = Unit
Throughout P (mem ∷ l) = P mem × Throughout P l

Throughout-weaken :
    {P Q : (ℕ → ℕ → Node) → Type 0}
    → ((mem : ℕ → ℕ → Node) → P mem → Q mem)
    → (l : List (ℕ → ℕ → Node)) → Throughout P l
    → Throughout Q l
unfolding Throughout
Throughout-weaken w [] each = tt
Throughout-weaken w (mem ∷ l) each = (w mem each.0, Throughout-weaken w l each.1)

module _ (f : Fabric) where
  send_all_run :
      (c : Client f) (thread : ℕ) (message : List Node) (targets : List ℕ)
      → Runs f c thread
      → Below c.num_nodes targets
      → (s : f.Net) × (send_all f thread message targets c ≡ some (tt, with_net f c s))
        × ((m p : ℕ) → f.memory s m p ≡ f.memory c.net m p)
        × ((m : ℕ) → f.sent s m ≡ f.sent c.net m ++ copies (count m targets) message)
        × (l : List (ℕ → ℕ → Node)) × (f.log s ≡ f.log c.net ++ l)
        × Throughout (λ mem. (m p : ℕ) → mem m p ≡ f.memory c.net m p) l
  unfolding send_all count send_to Throughout
  send_all_run c thread message [] runs below = (
    c.net,
    refl,
    λ m p. refl,
    λ m. sym (append-nil (f.sent c.net m)),
    [],
    sym (append-nil (f.log c.net)),
    tt,
  )
  send_all_run c thread message (t ∷ ts) runs below =
      let next = f.send t message c.net in
      let (s, run, cells, sent, l, log, same) =
        send_all_run (with_net f c next) thread message ts runs below.1 in
      (
        s,
        rw (connection_run f c t thread below.0 runs, ◌>>=◌) run,
        λ m p. cells m p ∙ f.send_memory t message c.net m p,
        λ m. sent m ∙ one_more m,
        f.memory c.net ∷ l,
        log
            ∙ ap (λ (xs : List (ℕ → ℕ → Node)). xs ++ l) (f.send_log t message c.net)
            ∙ append_assoc (f.log c.net) (f.memory c.net ∷ []) l,
        (
          λ m p. refl,
          Throughout-weaken (λ mem e m p. e m p ∙ f.send_memory t message c.net m p) l same,
        ),
      )
    where
      one_more :
          (m : ℕ)
          → f.sent (f.send t message c.net) m ++ copies (count m ts) message
            ≡ f.sent c.net m ++ copies (count m (t ∷ ts)) message
      one_more m = elim (Bool-cases (m == t)) [
        | inl e ↦
            let next : 1 + count m ts ≡ suc (count m ts) = omega arith in
            rw (f.send_sent t message c.net m, e, next)
              (append_assoc (f.sent c.net m) (message ∷ []) (copies (count m ts) message))
        | inr e ↦
            let next : 0 + count m ts ≡ count m ts = omega arith in
            rw (f.send_sent t message c.net m, e, next) refl
      ]

  -- What an insert comes to.
  pub data Inserted (c : Client f) (node : Node) (thread seed : ℕ)
      (run : Option (Result × Client f)) : Type 0 where
    delivered :
        (s : f.Net)
        → run ≡ some (is_true, record c { seed = seed; net = s })
        → ((m : ℕ) → m < c.num_nodes → f.memory c.net m (lock_cell node.key) ≡ node_of 0)
        → ((m p : ℕ) → f.memory s m p ≡ f.memory c.net m p)
        → ((m : ℕ)
            → f.sent s m
              ≡ (if ltb m c.num_nodes then f.sent c.net m ++ (node ∷ []) ∷ [] else f.sent c.net m))
        → (l : List (ℕ → ℕ → Node)) → f.log s ≡ f.log c.net ++ l
        → Throughout (λ mem. (m : ℕ) → m < c.num_nodes → mem m (lock_cell node.key) ≡ node_of 1) l
        → Inserted c node thread seed run
    refused :
        (s : f.Net) (m : ℕ)
        → run ≡ some (abort_failure, record c { seed = seed; net = s })
        → m < c.num_nodes
        → f.memory c.net m (lock_cell node.key) ≡ node_of 1
        → Same f node.key thread c.net s
        → Inserted c node thread seed run

  module _ (c : Client f) (node : Node) (thread : ℕ) (some_node : 0 < c.num_nodes)
      (runs : Runs f c thread) where
    abbrev drawn : Client f
    drawn = record c { seed = (fastrand c.seed).1 }

    abbrev start : ℕ
    start = (fastrand c.seed).0 % c.num_nodes

    start-lt : start < c.num_nodes
    start-lt = grind arith

    module _ (owned : List ℕ) (s : f.Net)
        (own : Owns f node.key thread c.net (with_net f drawn s) start c.num_nodes owned) where
      pub count-one : (m : ℕ) → count m owned ≡ (if ltb m c.num_nodes then 1 else 0)
      count-one m = ground (arith, own.counted m, start-lt)

      pub not_nil : owned ≡ [] → ⊥
      unfolding count
      not_nil e = let none_at_all : count 0 owned ≡ 0 = rw e in ground (arith, count-one 0)

      free : (m : ℕ) → m < c.num_nodes → f.memory c.net m (lock_cell node.key) ≡ node_of 0
      free m h = own.vacant m (ground (arith, count-one m))

      taken : (m : ℕ) → m < c.num_nodes → f.memory s m (lock_cell node.key) ≡ node_of 1
      taken m lt = ground (arith, own.cells m (lock_cell node.key), count-one m, lt)

      one_copy :
          (m : ℕ)
          → f.sent s m ++ copies (count m owned) (node ∷ [])
            ≡ (if ltb m c.num_nodes then f.sent c.net m ++ (node ∷ []) ∷ [] else f.sent c.net m)
      one_copy m = elim (Bool-cases (ltb m c.num_nodes)) [
        | inl e ↦ rw (count-one m, e, own.sent m) refl
        | inr e ↦ rw (count-one m, e, own.sent m) (append-nil (f.sent c.net m))
      ]

      -- A lock given back is as it was before it was taken.
      pub restored :
          {s1 s2 : f.Net} (m p : ℕ)
          → f.memory s2 m p ≡ (
              if ltb 0 (count m owned)
                && p == lock_cell node.key
                && word_of (f.memory s1 m (lock_cell node.key)) == 1
              then node_of 0
              else f.memory s1 m p)
          → f.memory s1 m p ≡ f.memory s m p
          → f.memory s1 m (lock_cell node.key) ≡ f.memory s m (lock_cell node.key)
          → f.memory s2 m p ≡ f.memory c.net m p
      restored m p e e1 e1' =
          ground (arith, own.cells m p, own.cells m (lock_cell node.key), own.vacant m)

      delivery :
          (t : ℕ) (ts : List ℕ)
          → owned ≡ t ∷ ts
          → prepare_message f node.key thread c ≡ some (owned, with_net f drawn s)
          → Inserted c node thread (fastrand c.seed).1 (insert f node thread c)
      unfolding insert
      delivery t ts e prepared =
          let (s1, run1, cells1, sent1, l, log1, same) =
            send_all_run (with_net f drawn s) thread (node ∷ []) owned runs own.below in
          let (s2, run2, cells2, sent2, log2) =
            release_run f node.key thread (with_net f drawn s1) owned runs own.below in
          delivered s2 (rw (prepared, ◌>>=◌, e) (rw (rw e at run1, ◌>>=◌, rw e at run2) refl)) free
            (λ m p. restored m p (cells2 m p) (cells1 m p) (cells1 m (lock_cell node.key)))
            (λ m. sent2 m ∙ sent1 m ∙ one_copy m) l
            (log2 ∙ log1 ∙ ap (λ (xs : List (ℕ → ℕ → Node)). xs ++ l) own.log)
            (Throughout-weaken (λ mem e m lt. e m (lock_cell node.key) ∙ taken m lt) l same)

    conclude :
        Prepared f node.key thread c.net drawn start (prepare_message f node.key thread c)
        → Inserted c node thread (fastrand c.seed).1 (insert f node thread c)
    unfolding insert
    conclude (nothing s m run same lt busy) = refused s m (rw (run, ◌>>=◌) refl) lt busy same
    conclude (all [] s run own) = absurd (not_nil [] s own refl)
    conclude (all (t ∷ ts) s run own) = delivery (t ∷ ts) s own t ts refl run

    -- With at least one node and a thread of the client's, and if each of the key's locks is free or
    -- taken, `insert` answers TRUE or ABORT_FAILURE. It answers TRUE if the key's lock was free on
    -- every node: then each node has got one message more, the element; whenever one was sent, the
    -- key's lock was taken on every node; and the memory of every node is as before, with the locks
    -- given back. It answers ABORT_FAILURE if the lock was taken on some node: then the memory of
    -- every node is as before, and no message was sent.
    pub insert-Inserted :
        AreLocks f node.key thread c.net c.num_nodes
        → Inserted c node thread (fastrand c.seed).1 (insert f node thread c)
    insert-Inserted locks =
        conclude (prepare_message-Prepared f node.key thread c.net c refl some_node runs locks)
