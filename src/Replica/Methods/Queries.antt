-- ===== src/Replica/Methods/Queries.antt =====
-- `contains`, `remove` and the constructor of
-- ReplicatedKeyValueStoreRDMA/Persistence/KeyValueStore/Cuckoo.hpp, run by one thread.
use concurrent_computing.Prelude.{
  ℕ, ◌<◌, ◌≡◌, ◌≢◌, ◌↔◌, refl, sym, arith, false, none, some, [], Bool-cases, Option-cases, inl,
  inr,
}
use concurrent_computing.Replica.Table.{offset, new, find, find_slot}
use concurrent_computing.Replica.State.{Cuckoo, hash1, hash2, ◌>>=◌}
use concurrent_computing.Replica.Locks.Runs.{holding, lock_two_run, unlock_two_run}
use concurrent_computing.Replica.Insert.{clear_at}
use concurrent_computing.Replica.Ops.{
  Result, is_true, is_false, dup, abort_failure, contains, remove, construct,
}
use concurrent_computing.Replica.Contents.{
  Holds, IsValid, Near, Near-lt, key_at, val_at, clear_at-with_cell,
}
use concurrent_computing.Replica.Edits.{emptied-IsValid, emptied-Holds}
use concurrent_computing.Replica.Methods.Slots.{find_slot-some, find-true, find-intro}
use concurrent_computing.Replica.Methods.Insertion.{Absent, Present, missing_from}
use concurrent_computing.Replica.Methods.Rounds.{Idle, holding-Idle}

-- The answers TRUE and FALSE to the question whether the store has the key.
abbrev pub Tells : Result → Cuckoo → ℕ → Type 0
Tells is_true c k = Present c k
Tells is_false c k = Absent c k
Tells _ c k = ⊥

seen_at : (c : Cuckoo) (k n : ℕ) → Near c.buckets k n → key_at c n ≡ k → Present c k
seen_at c k n near e = (val_at c n, (n, near, e, refl))

-- `contains` answers TRUE if the key stands in one of its two buckets, and FALSE if it does not.
pub contains-Tells : (c : Cuckoo) (k : ℕ) → Tells (contains c k) c k
unfolding contains
contains-Tells c k = elim (Bool-cases (find c.table k (hash1 c.buckets k))) [
  | inl e ↦
      let (n, q, h) = find-true c.table k (hash1 c.buckets k) e in rw e (seen_at c k n (inl q) h)
  | inr e ↦ elim (Bool-cases (find c.table k (hash2 c.buckets k))) [
    | inl e' ↦
        let (n, q, h) = find-true c.table k (hash2 c.buckets k) e' in
        rw (e, e') (seen_at c k n (inr q) h)
    | inr e' ↦ rw (e, e') (missing e e')
  ]
]
  where
    missing :
        find c.table k (hash1 c.buckets k) ≡ false
        → find c.table k (hash2 c.buckets k) ≡ false
        → Absent c k
    missing e e' v (n, inl q, h, h') = cc (find-intro c.table k n (hash1 c.buckets k) q h)
    missing e e' v (n, inr q, h, h') = cc (find-intro c.table k n (hash2 c.buckets k) q h)

-- What `remove` leaves behind.
pub record TakesOut (c : Cuckoo) (k : ℕ) (d : Cuckoo) : Type 0 where
  pub idle : Idle d
  pub valid : IsValid d
  pub gone : Absent d k
  pub others : (w x : ℕ) → w ≢ 0 → w ≢ k → Holds d w x ↔ Holds c w x

module _ (c : Cuckoo) (k : ℕ) (some_key : k ≢ 0) (valid : IsValid c) where
  cleared :
      (i j : ℕ)
      → Near c.buckets k (offset i j)
      → key_at c (offset i j) ≡ k
      → TakesOut c k (holding (clear_at i j c) [])
  cleared i j near e =
      let inside = Near-lt c.buckets k (offset i j) valid.roomy near in
      let occupied : key_at c (offset i j) ≢ 0 = rw e some_key in
      let kept = emptied-IsValid c valid (offset i j) inside in
      rw (clear_at-with_cell i j c) (record {
        idle = λ l. refl;
        valid = record { roomy = kept.roomy; placed = kept.placed; distinct = kept.distinct };
        gone = λ v h.
            ((emptied-Holds c valid (offset i j) inside occupied k v some_key).0 h).0 (sym e);
        others = λ w x h h'.
            let (f, g) = emptied-Holds c valid (offset i j) inside occupied w x h in
            (λ q. (f q).1, λ q. g (rw e h', q));
      })

  remove_first :
      (j : ℕ)
      → find_slot c.table k (hash1 c.buckets k) ≡ some j
      → remove k (holding c []) ≡ some (is_true, holding (clear_at (hash1 c.buckets k) j c) [])
  unfolding remove clear_at
  remove_first j e = rw (
    lock_two_run c (hash1 c.buckets k) (hash2 c.buckets k),
    ◌>>=◌,
    e,
    unlock_two_run (clear_at (hash1 c.buckets k) j c) (hash1 c.buckets k) (hash2 c.buckets k),
  )

  remove_second :
      (j : ℕ)
      → find_slot c.table k (hash1 c.buckets k) ≡ none
      → find_slot c.table k (hash2 c.buckets k) ≡ some j
      → remove k (holding c []) ≡ some (is_true, holding (clear_at (hash2 c.buckets k) j c) [])
  unfolding remove clear_at
  remove_second j e e' = rw (
    lock_two_run c (hash1 c.buckets k) (hash2 c.buckets k),
    ◌>>=◌,
    e,
    e',
    unlock_two_run (clear_at (hash2 c.buckets k) j c) (hash1 c.buckets k) (hash2 c.buckets k),
  )

  remove_missing :
      find_slot c.table k (hash1 c.buckets k) ≡ none
      → find_slot c.table k (hash2 c.buckets k) ≡ none
      → remove k (holding c []) ≡ some (is_false, holding c [])
  unfolding remove
  remove_missing e e' = rw (
    lock_two_run c (hash1 c.buckets k) (hash2 c.buckets k),
    ◌>>=◌,
    e,
    e',
    unlock_two_run c (hash1 c.buckets k) (hash2 c.buckets k),
  )

  remove_run :
      (r : Result) × (d : Cuckoo) × (remove k (holding c []) ≡ some (r, d))
      × Tells r c k
      × TakesOut c k d
  remove_run = elim (Option-cases (find_slot c.table k (hash1 c.buckets k))) [
    | inr (j, e) ↦
        let (lt, h) = find_slot-some c.table k (hash1 c.buckets k) j e in
        let near : Near c.buckets k (offset (hash1 c.buckets k) j) = inl (omega arith) in
        (
          is_true,
          holding (clear_at (hash1 c.buckets k) j c) [],
          remove_first j e,
          seen_at c k (offset (hash1 c.buckets k) j) near h,
          cleared (hash1 c.buckets k) j near h,
        )
    | inl e ↦ elim (Option-cases (find_slot c.table k (hash2 c.buckets k))) [
      | inr (j, e') ↦
          let (lt, h) = find_slot-some c.table k (hash2 c.buckets k) j e' in
          let near : Near c.buckets k (offset (hash2 c.buckets k) j) = inr (omega arith) in
          (
            is_true,
            holding (clear_at (hash2 c.buckets k) j c) [],
            remove_second j e e',
            seen_at c k (offset (hash2 c.buckets k) j) near h,
            cleared (hash2 c.buckets k) j near h,
          )
      | inl e' ↦
          let absent = missing_from c k valid e e' in
          (
            is_false,
            holding c [],
            remove_missing e e',
            absent,
            record {
              idle = λ i. refl;
              valid = record {
                roomy = valid.roomy;
                placed = valid.placed;
                distinct = valid.distinct;
              };
              gone = absent;
              others = λ w x h h'. (λ q. q, λ q. q);
            },
          )
    ]
  ]

  -- From a well-formed store in which no spin lock is held, and for a key other than 0, `remove`
  -- returns. Its answer is whether the store had the key. Afterwards the store does not have it,
  -- every other key has the value that it had, the store is well formed and no spin lock is held.
  pub remove-TakesOut :
      Idle c
      → (r : Result) × (d : Cuckoo) × (remove k c ≡ some (r, d)) × Tells r c k × TakesOut c k d
  remove-TakesOut idle = rw (holding-Idle c idle) at remove_run

-- With at least one bucket the constructor builds a well-formed store in which no spin lock is held
-- and no key but 0 is found.
pub construct-empty :
    (buckets seed k : ℕ)
    → 0 < buckets
    → k ≢ 0
    → IsValid (construct buckets seed)
      × Idle (construct buckets seed)
      × (contains (construct buckets seed) k ≡ is_false)
unfolding construct new
construct-empty buckets seed k roomy some_key = (
  record {
    roomy = roomy;
    placed = λ n lt h. absurd (h refl);
    distinct = λ n m lt lt' h. absurd (h refl);
  },
  λ i. refl,
  told (contains (construct buckets seed) k) (contains-Tells (construct buckets seed) k),
)
  where
    told : (r : Result) → Tells r (construct buckets seed) k → r ≡ is_false
    told is_true (v, (n, near, h, h')) = absurd (some_key (sym h))
    told is_false t = refl
    told dup t = absurd t
    told abort_failure t = absurd t
