-- ===== src/Cuckoo/Locks/Threads.antt =====
-- Threads of CuckooHash/Cuckoo.hpp that take spin locks: each starts with none, takes those of a
-- `lock_two` or a `lock_three` one by one, waiting where one is taken, and gives locks back only when
-- it has them all.
use concurrent_computing.Prelude.{
  ℕ, zero, suc, ◌+◌, ◌<◌, ◌≤◌, ◌≡◌, ◌⊎◌, refl, arith, true, false, Option, none, some, List, [],
  ◌∷◌, elem, update, ◌==◌, if◌then◌else◌, inl, inr, Option-cases, Bool-cases, ==→eq, update_at,
}
use concurrent_computing.Cuckoo.Locks.{lock_two, lock_three}
use concurrent_computing.Cuckoo.Locks.Order.{Ascends, lock_two-Ascends, lock_three-Ascends}

-- The locks that a thread has, and those that it still has to take, in its order.
pub record Thread : Type 0 where
  pub held : List ℕ
  pub wanted : List ℕ

pub record System : Type 0 where
  pub owner : ℕ → Option ℕ
  pub threads : ℕ → Thread

abbrev pub without : ℕ → List ℕ → List ℕ
without l [] = []
without l (x ∷ xs) = if x == l then without l xs else x ∷ without l xs

abbrev pub thread : List ℕ → List ℕ → Thread
thread held wanted = record { held = held; wanted = wanted }

-- One step of one thread. The indices are below the number of buckets.
pub data Step (buckets : ℕ) : System → System → Type 0 where
  begin_two :
      (s : System) (k a b : ℕ)
      → s.threads k ≡ thread [] []
      → a < buckets
      → b < buckets
      → Step buckets s (record s { threads = update s.threads k (thread [] (lock_two a b)) })
  begin_three :
      (s : System) (k a b c : ℕ)
      → s.threads k ≡ thread [] []
      → a < buckets
      → b < buckets
      → c < buckets
      → Step buckets s (record s { threads = update s.threads k (thread [] (lock_three a b c)) })
  take :
      (s : System) (k l : ℕ) (held rest : List ℕ)
      → s.threads k ≡ thread held (l ∷ rest)
      → s.owner l ≡ none
      → Step buckets s (record {
        owner = update s.owner l (some k);
        threads = update s.threads k (thread (l ∷ held) rest);
      })
  give :
      (s : System) (k l : ℕ) (held : List ℕ)
      → s.threads k ≡ thread held []
      → elem l held ≡ true
      → Step buckets s (record {
        owner = update s.owner l none;
        threads = update s.threads k (thread (without l held) []);
      })

pub data Reach (buckets : ℕ) (s : System) : System → Type 0 where
  here : Reach buckets s s
  next : {t u : System} → Reach buckets s t → Step buckets t u → Reach buckets s u

abbrev pub idle_system : System
idle_system = record { owner = λ l. none; threads = λ k. thread [] [] }

pub record IsOrdered (buckets : ℕ) (s : System) : Type 0 where
  pub owned : (l k : ℕ) → s.owner l ≡ some k → elem l (s.threads k).held ≡ true
  pub owns : (l k : ℕ) → elem l (s.threads k).held ≡ true → s.owner l ≡ some k
  pub ascends : (k : ℕ) → Ascends 0 (s.threads k).wanted
  pub above : (l k : ℕ) → elem l (s.threads k).held ≡ true → Ascends (suc l) (s.threads k).wanted
  pub bounded : (l k : ℕ) → elem l (s.threads k).wanted ≡ true → l < buckets

Ascends-lower : (low high : ℕ) (is : List ℕ) → low ≤ high → Ascends high is → Ascends low is
Ascends-lower low high [] h a = tt
Ascends-lower low high (i ∷ is) h a = (omega arith, a.1)

elem-without :
    (l m : ℕ) (xs : List ℕ) → elem m (without l xs) ≡ (if m == l then false else elem m xs)
elem-without l m [] = ground arith
elem-without l m (x ∷ xs) = ground (arith, elem-without l m xs)

module _ (buckets : ℕ) where
  begun :
      (s : System) (k : ℕ) (locks : List ℕ)
      → s.threads k ≡ thread [] []
      → Ascends 0 locks
      → ((l : ℕ) → elem l locks ≡ true → l < buckets)
      → IsOrdered buckets s
      → IsOrdered buckets (record s { threads = update s.threads k (thread [] locks) })
  begun s k locks e asc lt o = record {
    owned = λ l j h. ground (arith, o.owned l j);
    owns = λ l j h. ground (arith, o.owns l j);
    ascends = λ j.
        update_at (λ t. Ascends 0 t.wanted) s.threads k (thread [] locks) j (λ q. asc)
          (o.ascends j);
    above = λ l j.
        update_at (λ t. elem l t.held ≡ true → Ascends (suc l) t.wanted) s.threads k
          (thread [] locks) j (λ q h. cc) (o.above l j);
    bounded = λ l j h. ground (arith, o.bounded l j, lt l);
  }

  taken :
      (s : System) (k l : ℕ) (held rest : List ℕ)
      → s.threads k ≡ thread held (l ∷ rest)
      → s.owner l ≡ none
      → IsOrdered buckets s
      → IsOrdered buckets (record {
        owner = update s.owner l (some k);
        threads = update s.threads k (thread (l ∷ held) rest);
      })
  taken s k l held rest e free o =
      let asc : Ascends 0 (l ∷ rest) = rw e at (o.ascends k) in
      record {
        owned = λ m j h. ground (arith, o.owned m j, o.owned m k);
        owns = λ m j h. ground (arith, o.owns m j, o.owns m k);
        ascends = λ j.
            update_at (λ t. Ascends 0 t.wanted) s.threads k (thread (l ∷ held) rest) j
              (λ q. Ascends-lower 0 (suc l) rest (omega arith) asc.1) (o.ascends j);
        above = λ m j.
            update_at (λ t. elem m t.held ≡ true → Ascends (suc m) t.wanted) s.threads k
              (thread (l ∷ held) rest) j (λ q. higher m asc.1) (o.above m j);
        bounded = λ m j h. ground (arith, o.bounded m j, o.bounded m k);
      }
    where
      higher : (m : ℕ) → Ascends (suc l) rest → elem m (l ∷ held) ≡ true → Ascends (suc m) rest
      higher m asc h = elim (Bool-cases (m == l)) [
        | inl same ↦ rw (==→eq m l same) asc
        | inr other ↦
            let old : Ascends (suc m) (l ∷ rest) = rw e at (o.above m k (rw e (ground arith))) in
            Ascends-lower (suc m) (suc l) rest (omega (arith, old.0)) asc
      ]

  given :
      (s : System) (k l : ℕ) (held : List ℕ)
      → s.threads k ≡ thread held []
      → elem l held ≡ true
      → IsOrdered buckets s
      → IsOrdered buckets (record {
        owner = update s.owner l none;
        threads = update s.threads k (thread (without l held) []);
      })
  given s k l held e has o = record {
    owned = λ m j h. ground (arith, o.owned m j, o.owned m k, elem-without l m held);
    owns = λ m j h. ground (arith, o.owns m j, o.owns m k, o.owns l k, elem-without l m held);
    ascends = λ j.
        update_at (λ t. Ascends 0 t.wanted) s.threads k (thread (without l held) []) j (λ q. tt)
          (o.ascends j);
    above = λ m j.
        update_at (λ t. elem m t.held ≡ true → Ascends (suc m) t.wanted) s.threads k
          (thread (without l held) []) j (λ q h. tt) (o.above m j);
    bounded = λ m j h. ground (arith, o.bounded m j);
  }

  two_below : (a b l : ℕ) → a < buckets → b < buckets → elem l (lock_two a b) ≡ true → l < buckets
  two_below a b l h h' e = ground (arith, (lock_two-Ascends a b l).1)

  three_below :
      (a b c l : ℕ)
      → a < buckets
      → b < buckets
      → c < buckets
      → elem l (lock_three a b c) ≡ true
      → l < buckets
  three_below a b c l h h' h'' e = ground (arith, (lock_three-Ascends a b c l).1)

  Step-IsOrdered : {s t : System} → Step buckets s t → IsOrdered buckets s → IsOrdered buckets t
  Step-IsOrdered (begin_two s k a b e h h') o =
      begun s k (lock_two a b) e (lock_two-Ascends a b 0).0 (λ l. two_below a b l h h') o
  Step-IsOrdered (begin_three s k a b c e h h' h'') o =
      begun s k (lock_three a b c) e (lock_three-Ascends a b c 0).0
        (λ l. three_below a b c l h h' h'') o
  Step-IsOrdered (take s k l held rest e free) o = taken s k l held rest e free o
  Step-IsOrdered (give s k l held e has) o = given s k l held e has o

  Reach-IsOrdered : {s : System} → Reach buckets idle_system s → IsOrdered buckets s
  Reach-IsOrdered here = record {
    owned = λ l k h. cc;
    owns = λ l k h. cc;
    ascends = λ k. tt;
    above = λ l k h. tt;
    bounded = λ l k h. cc;
  }
  Reach-IsOrdered (next r st) = Step-IsOrdered st (Reach-IsOrdered r)

  -- The thread can take the lock that comes next, or has all its locks and can give one back.
  abbrev pub CanMove : System → ℕ → Type 0
  CanMove s k =
      ((l : ℕ) × (rest : List ℕ) × ((s.threads k).wanted ≡ l ∷ rest) × (s.owner l ≡ none))
      ⊎ (((s.threads k).wanted ≡ []) × (l : ℕ) × (elem l (s.threads k).held ≡ true))

  List-cases : (xs : List ℕ) → (xs ≡ []) ⊎ ((x : ℕ) × (rest : List ℕ) × (xs ≡ x ∷ rest))
  List-cases [] = inl refl
  List-cases (x ∷ rest) = inr (x, rest, refl)

  -- From a thread that waits, along the owners of the locks waited for, to one that can move.
  some_mover :
      (s : System)
      → IsOrdered buckets s
      → (fuel k l : ℕ) (rest : List ℕ) → (s.threads k).wanted ≡ l ∷ rest
      → buckets ≤ l + fuel
      → (j : ℕ) × CanMove s j
  some_mover s o zero k l rest e le = absurd (omega (arith, o.bounded l k (rw e (ground arith))))
  some_mover s o (suc fuel) k l rest e le = elim (Option-cases (s.owner l)) [
    | inl free ↦ (k, inl (l, rest, e, free))
    | inr (j, taken_by) ↦ elim (List-cases (s.threads j).wanted) [
      | inl done ↦ (j, inr (done, l, o.owned l j taken_by))
      | inr (l', rest', e') ↦
          let higher : Ascends (suc l) (l' ∷ rest') =
            rw e' at (o.above l j (o.owned l j taken_by)) in
          some_mover s o fuel j l' rest' e' (omega (arith, higher.0))
    ]
  ]

  -- However the threads' steps interleave, from a start at which no lock is taken: while some thread
  -- waits for a lock, some thread can take its next lock or give one back, so that the threads never
  -- all wait for one another.
  pub Reach-CanMove :
      {s : System} (k l : ℕ) (rest : List ℕ)
      → Reach buckets idle_system s
      → (s.threads k).wanted ≡ l ∷ rest
      → (j : ℕ) × CanMove s j
  Reach-CanMove {s} k l rest r e = some_mover s (Reach-IsOrdered r) buckets k l rest e (omega arith)
