-- ===== src/Replica/Remote/Clients.antt =====
-- Several client threads of ReplicatedKeyValueStoreRDMA/App/Remote.cpp that insert elements with the
-- same lock: each compare and swap of `prepareMessage` and `release` is one step.
use concurrent_computing.Prelude.{
  ℕ, suc, ◌+◌, ◌%◌, ◌<◌, ◌≤◌, ◌≡◌, refl, arith, true, false, ◌&&◌, List, [], ◌∷◌, ◌++◌, ltb, ◌==◌,
  if◌then◌else◌, ◌⊎◌, ==→eq, update, update_at, inl, inr, Bool-cases,
}
use concurrent_computing.Replica.Remote.Locking.{count, count_last}
use concurrent_computing.Replica.Remote.Preparing.{turn, node-lt, node-turn}

-- Where a thread stands: outside `insert`; before round `i` of the loop of `prepareMessage`; sending
-- the element with every lock; in the loop of `release`.
pub data Phase : Type 0 where
  idle : Phase
  preparing : ℕ → ℕ → List ℕ → Phase
  sending releasing : List ℕ → Phase

-- The lock word of each node, and the threads.
pub record System : Type 0 where
  pub lock : ℕ → ℕ
  pub phase : ℕ → Phase

-- The word after a compare and swap.
abbrev pub swap : ℕ → ℕ → ℕ → ℕ
swap old new word = if word == old then new else word

pub data Step (nodes : ℕ) : System → System → Type 0 where
  prepare :
      (s : System) (k start : ℕ)
      → s.phase k ≡ idle
      → start < nodes
      → Step nodes s (record s { phase = update s.phase k (preparing start 0 []) })
  acquire :
      (s : System) (k start i m : ℕ) (owned : List ℕ)
      → s.phase k ≡ preparing start i owned
      → i < nodes
      → m ≡ (start + i) % nodes
      → (s.lock m == 1) ≡ false
      → Step nodes s (record {
        lock = update s.lock m (swap 0 1 (s.lock m));
        phase = update s.phase k (preparing start (suc i) (owned ++ m ∷ []));
      })
  refuse :
      (s : System) (k start i m : ℕ) (owned : List ℕ)
      → s.phase k ≡ preparing start i owned
      → i < nodes
      → m ≡ (start + i) % nodes
      → (s.lock m == 1) ≡ true
      → Step nodes s (record {
        lock = update s.lock m (swap 0 1 (s.lock m));
        phase = update s.phase k (releasing owned);
      })
  prepared :
      (s : System) (k start i : ℕ) (owned : List ℕ)
      → s.phase k ≡ preparing start i owned
      → i ≡ nodes
      → Step nodes s (record s { phase = update s.phase k (sending owned) })
  sent :
      (s : System) (k : ℕ) (owned : List ℕ)
      → s.phase k ≡ sending owned
      → Step nodes s (record s { phase = update s.phase k (releasing owned) })
  release :
      (s : System) (k m : ℕ) (owned : List ℕ)
      → s.phase k ≡ releasing (m ∷ owned)
      → Step nodes s (record {
        lock = update s.lock m (swap 1 0 (s.lock m));
        phase = update s.phase k (releasing owned);
      })
  return :
      (s : System) (k : ℕ)
      → s.phase k ≡ releasing []
      → Step nodes s (record s { phase = update s.phase k idle })

pub data Reach (nodes : ℕ) (s : System) : System → Type 0 where
  here : Reach nodes s s
  next : {t u : System} → Reach nodes s t → Step nodes t u → Reach nodes s u

abbrev pub quiet : System
quiet = record { lock = λ m. 0; phase = λ k. idle }

-- The locks that a thread has.
abbrev pub locks_of : Phase → List ℕ
locks_of idle = []
locks_of (preparing start i owned) = owned
locks_of (sending owned) = owned
locks_of (releasing owned) = owned

-- A thread that prepares has the locks of the rounds done; one that sends has every lock.
abbrev IsShaped : ℕ → Phase → Type 0
IsShaped nodes (preparing start i owned) =
    (start < nodes)
    × ((m : ℕ) → count m owned ≡ (if ltb m nodes && ltb (turn start nodes m) i then 1 else 0))
IsShaped nodes (sending owned) = (m : ℕ) → count m owned ≡ (if ltb m nodes then 1 else 0)
IsShaped nodes _ = Unit

record IsExclusive (nodes : ℕ) (s : System) : Type 0 where
  taken : (k m : ℕ) → 0 < count m (locks_of (s.phase k)) → s.lock m ≡ 1
  once : (k m : ℕ) → count m (locks_of (s.phase k)) ≤ 1
  apart :
      (i j m : ℕ) → 0 < count m (locks_of (s.phase i)) → 0 < count m (locks_of (s.phase j)) → i ≡ j
  shaped : (k : ℕ) → IsShaped nodes (s.phase k)
  small : (m : ℕ) → s.lock m ≤ 1

module _ (nodes : ℕ) where
  -- The thread's locks stay, and its phase fits them.
  rephased :
      (s : System) (k : ℕ) (p : Phase)
      → locks_of p ≡ locks_of (s.phase k)
      → IsShaped nodes p
      → IsExclusive nodes s
      → IsExclusive nodes (record s { phase = update s.phase k p })
  unfolding count
  rephased s k p e shape x = record {
    taken = λ j m.
        update_at (λ q. 0 < count m (locks_of q) → s.lock m ≡ 1) s.phase k p j
          (λ same. rw e (x.taken k m)) (x.taken j m);
    once = λ j m.
        update_at (λ q. count m (locks_of q) ≤ 1) s.phase k p j (λ same. rw e (x.once k m))
          (x.once j m);
    apart = λ i j m h h'. x.apart i j m (unchanged i m h) (unchanged j m h');
    shaped = λ j. update_at (IsShaped nodes) s.phase k p j (λ same. shape) (x.shaped j);
    small = x.small;
  }
    where
      unchanged :
          (j m : ℕ)
          → 0 < count m (locks_of (update s.phase k p j))
          → 0 < count m (locks_of (s.phase j))
      unchanged j m =
          update_at (λ q. 0 < count m (locks_of q) → 0 < count m (locks_of (s.phase j))) s.phase k p
            j (λ same h. rw (← same) (rw (← e) h)) (λ h. h)

  module _ (s : System) (k start i m : ℕ) (owned : List ℕ) (e : s.phase k ≡ preparing start i owned)
      (turns : i < nodes) (node : m ≡ (start + i) % nodes) (x : IsExclusive nodes s) where
    abbrev next_phase : Phase
    next_phase = preparing start (suc i) (owned ++ m ∷ [])

    -- Nobody has a lock whose word is not 1.
    nobody : (s.lock m == 1) ≡ false → (j : ℕ) → count m (locks_of (s.phase j)) ≡ 0
    nobody free j = ground (arith, x.taken j m)

    acquired :
        (s.lock m == 1) ≡ false
        → IsExclusive nodes (record {
          lock = update s.lock m (swap 0 1 (s.lock m));
          phase = update s.phase k next_phase;
        })
    acquired free = record {
      taken = λ j l.
          update_at (λ q. 0 < count l (locks_of q) → update s.lock m (swap 0 1 (s.lock m)) l ≡ 1)
            s.phase k next_phase j
            (λ same h. ground (arith, count_last l owned m, mine l, x.taken k l, x.small m))
            (λ h. ground (arith, x.taken j l, nobody free j));
      once = λ j l.
          update_at (λ q. count l (locks_of q) ≤ 1) s.phase k next_phase j
            (λ same. ground (arith, count_last l owned m, mine l, x.once k l, nobody free k))
            (x.once j l);
      apart = λ a b l h h'. ground (
        arith,
        x.apart a b l,
        x.apart a k l,
        x.apart k b l,
        nobody free a,
        nobody free b,
        has l a h,
        has l b h',
      );
      shaped = λ j. update_at (IsShaped nodes) s.phase k next_phase j (λ same. shape) (x.shaped j);
      small = λ l. ground (arith, x.small l, x.small m);
    }
      where
        mine : (l : ℕ) → count l owned ≡ count l (locks_of (s.phase k))
        mine l = rw e refl

        has :
            (l j : ℕ)
            → 0 < count l (locks_of (update s.phase k next_phase j))
            → (0 < count l (locks_of (s.phase j))) ⊎ ((k ≡ j) × (l ≡ m))
        has l j =
            update_at
              (λ q.
                0 < count l (locks_of q)
                → (0 < count l (locks_of (s.phase j))) ⊎ ((k ≡ j) × (l ≡ m)))
              s.phase k next_phase j
              (λ same h. elim (Bool-cases (l == m)) [
                | inl eq ↦ inr (same, ==→eq l m eq)
                | inr ne ↦
                    let old : 0 < count l (locks_of (s.phase k)) =
                      ground (arith, count_last l owned m, mine l) in
                    inl (rw (← same) old)
              ])
              (λ h. inl h)

        shape : IsShaped nodes next_phase
        shape =
            let (lt, counted) = rw e at (x.shaped k) in
            (
              lt,
              λ l. ground (
                arith,
                count_last l owned m,
                counted l,
                node-turn start nodes i l lt turns,
                node-lt start nodes i lt turns,
              ),
            )

    -- A lock that is taken stays as it is, and the thread keeps those that it has.
    refused :
        (s.lock m == 1) ≡ true
        → IsExclusive nodes (record {
          lock = update s.lock m (swap 0 1 (s.lock m));
          phase = update s.phase k (releasing owned);
        })
    refused busy =
        let y = rephased s k (releasing owned) (rw e refl) tt x in
        record {
          taken = λ j l h. ground (arith, y.taken j l);
          once = y.once;
          apart = y.apart;
          shaped = y.shaped;
          small = λ l. ground (arith, x.small l);
        }

  module _ (s : System) (k m : ℕ) (owned : List ℕ) (e : s.phase k ≡ releasing (m ∷ owned))
      (x : IsExclusive nodes s) where
    mine : (l : ℕ) → count l (locks_of (s.phase k)) ≡ (if l == m then 1 else 0) + count l owned
    unfolding count
    mine l = rw e refl

    still :
        (l j : ℕ)
        → 0 < count l (locks_of (update s.phase k (releasing owned) j))
        → 0 < count l (locks_of (s.phase j))
    still l j =
        update_at (λ q. 0 < count l (locks_of q) → 0 < count l (locks_of (s.phase j))) s.phase k
          (releasing owned) j (λ same h. rw (← same) (omega (arith, mine l))) (λ h. h)

    released : IsExclusive nodes (record {
      lock = update s.lock m (swap 1 0 (s.lock m));
      phase = update s.phase k (releasing owned);
    })
    released = record {
      taken = λ j l. elim (Bool-cases (k == j)) [
        | inl same ↦ rw same (λ h. ground (arith, mine l, x.taken k l, x.once k l))
        | inr differs ↦ rw differs (λ h. other l j differs h)
      ];
      once = λ j l.
          update_at (λ q. count l (locks_of q) ≤ 1) s.phase k (releasing owned) j
            (λ same. omega (arith, mine l, x.once k l)) (x.once j l);
      apart = λ a b l h h'. x.apart a b l (still l a h) (still l b h');
      shaped =
          λ j. update_at (IsShaped nodes) s.phase k (releasing owned) j (λ same. tt) (x.shaped j);
      small = λ l. ground (arith, x.small l, x.small m);
    }
      where
        other :
            (l j : ℕ)
            → (k == j) ≡ false
            → 0 < count l (locks_of (s.phase j))
            → update s.lock m (swap 1 0 (s.lock m)) l ≡ 1
        other l j differs h = ground (arith, mine m, x.apart k j m, x.taken j l)

  no_round :
      (start m : ℕ) → count m [] ≡ (if ltb m nodes && ltb (turn start nodes m) 0 then 1 else 0)
  unfolding count
  no_round start m = ground arith

  Step-IsExclusive : {s t : System} → Step nodes s t → IsExclusive nodes s → IsExclusive nodes t
  Step-IsExclusive (prepare s k start e lt) x =
      rephased s k (preparing start 0 []) (rw e refl) (lt, λ m. no_round start m) x
  Step-IsExclusive (acquire s k start i m owned e lt at free) x =
      acquired s k start i m owned e lt at x free
  Step-IsExclusive (refuse s k start i m owned e lt at busy) x =
      refused s k start i m owned e lt at x busy
  Step-IsExclusive (prepared s k start i owned e end) x =
      let (lt, counted) = rw e at (x.shaped k) in
      rephased s k (sending owned) (rw e refl) (λ m. ground (arith, counted m)) x
  Step-IsExclusive (sent s k owned e) x = rephased s k (releasing owned) (rw e refl) tt x
  Step-IsExclusive (release s k m owned e) x = released s k m owned e x
  Step-IsExclusive (return s k e) x = rephased s k idle (rw e refl) tt x

  Reach-IsExclusive : {s : System} → Reach nodes quiet s → IsExclusive nodes s
  unfolding count
  Reach-IsExclusive here = record {
    taken = λ k m h. absurd (omega arith);
    once = λ k m. omega arith;
    apart = λ i j m h h'. absurd (omega arith);
    shaped = λ k. tt;
    small = λ m. omega arith;
  }
  Reach-IsExclusive (next r st) = Step-IsExclusive st (Reach-IsExclusive r)

  -- However the threads' steps interleave, from a start at which every lock is free, and with at
  -- least one node: two different threads never send at the same time, and while a thread sends the
  -- lock of every node is taken.
  pub Reach-alone :
      {s : System} (i j : ℕ) (owned others : List ℕ)
      → Reach nodes quiet s
      → 0 < nodes
      → s.phase i ≡ sending owned
      → s.phase j ≡ sending others
      → (i ≡ j) × ((m : ℕ) → m < nodes → s.lock m ≡ 1)
  Reach-alone i j owned others r some_node e e' =
      let x = Reach-IsExclusive r in
      let mine = rw e at (x.shaped i) in
      let theirs = rw e' at (x.shaped j) in
      (
        x.apart i j 0 (rw e (ground (arith, mine 0))) (rw e' (ground (arith, theirs 0))),
        λ m lt. x.taken i m (rw e (ground (arith, mine m))),
      )
