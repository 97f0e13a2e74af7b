-- ===== src/Replica/Methods/Room.antt =====
-- The public `insert` of ReplicatedKeyValueStoreRDMA/Persistence/KeyValueStore/Cuckoo.hpp where no
-- element has to move.
use concurrent_computing.Prelude.{
  ℕ, suc, ◌≡◌, ◌≢◌, ap, arith, Bool, true, some, [], is_some, inl, inr,
}
use concurrent_computing.Replica.Table.{Node}
use concurrent_computing.Replica.State.{Cuckoo, hash1, hash2, ◌>>=◌}
use concurrent_computing.Replica.Locks.Runs.{holding}
use concurrent_computing.Replica.Insert.{
  InsertResult, resize, retry, duplicate, success, find_room, insert_at,
}
use concurrent_computing.Replica.Ops.{insert_round, insert_loop, insert}
use concurrent_computing.Replica.Contents.{IsValid}
use concurrent_computing.Replica.Methods.Displace.{Grants, both}
use concurrent_computing.Replica.Methods.Insertion.{Answer, Present, Settled-or-Absent, found_run}
use concurrent_computing.Replica.Methods.Rounds.{
  Idle, holding-Idle, Ends, ended_duplicate, ended_success,
}

-- The key is there, or one of its buckets has an empty slot.
abbrev pub has_room : Cuckoo → ℕ → Bool
has_room c k = is_some (find_room c k (hash1 c.buckets k) (hash2 c.buckets k))

module _ (c : Cuckoo) (e : Node) (some_key : e.key ≢ 0) where
  -- With the locks of both buckets the round stores the element.
  round_of :
      (r : InsertResult)
      → insert_at e.key (hash1 c.buckets e.key) (hash2 c.buckets e.key) (holding c [])
        ≡ some (r, holding c (both c.buckets e.key))
      → Grants c e.key r (holding c (both c.buckets e.key))
      → Answer c e.key r
      → Ends c e (insert_round e (hash1 c.buckets e.key) (hash2 c.buckets e.key) (holding c []))
  round_of resize run g a =
      absurd (ground (arith, ap (λ (x : Cuckoo). x.held (hash1 c.buckets e.key)) g.state))
  round_of retry run g a =
      absurd (ground (arith, ap (λ (x : Cuckoo). x.held (hash1 c.buckets e.key)) g.state))
  round_of (duplicate s i j) run g a =
      ended_duplicate c e some_key s i j (holding c (both c.buckets e.key)) run g a
  round_of (success s i j) run g a =
      ended_success c e some_key s i j (holding c (both c.buckets e.key)) run g a

  round_with_room :
      IsValid c
      → has_room c e.key ≡ true
      → Ends c e (insert_round e (hash1 c.buckets e.key) (hash2 c.buckets e.key) (holding c []))
  round_with_room valid room = elim (Settled-or-Absent c e.key valid) [
    | inl s ↦ round_of s.result (found_run c e.key valid s) s.grants s.answer
    | inr (full, absent) ↦ absurd (cc (rw full at room))
  ]

  at_once :
      (fuel : ℕ)
      → Ends c e (insert_round e (hash1 c.buckets e.key) (hash2 c.buckets e.key) (holding c []))
      → Ends c e (insert (suc fuel) e (holding c []))
  unfolding insert insert_loop
  at_once fuel (r, d, run, a, st) = (r, d, rw (run, ◌>>=◌), a, st)

  -- In a well-formed store in which no spin lock is held, and for a key other than 0 that is there
  -- or has an empty slot in one of its buckets, `insert` returns in its first round. It answers DUP
  -- if the key was there and TRUE if it was not. Then the key has the element's value, every other
  -- key the value that it had, the store is well formed, and no spin lock is held.
  pub insert-Ends :
      (fuel : ℕ) → IsValid c → Idle c → has_room c e.key ≡ true → Ends c e (insert (suc fuel) e c)
  insert-Ends fuel valid idle room =
      rw (holding-Idle c idle) at (at_once fuel (round_with_room valid room))

  round_with_key :
      IsValid c
      → Present c e.key
      → Ends c e (insert_round e (hash1 c.buckets e.key) (hash2 c.buckets e.key) (holding c []))
  round_with_key valid there = elim (Settled-or-Absent c e.key valid) [
    | inl s ↦ round_of s.result (found_run c e.key valid s) s.grants s.answer
    | inr (full, absent) ↦ absurd (absent there.0 there.1)
  ]

  -- The same for a key that is there.
  pub insert-updates :
      (fuel : ℕ) → IsValid c → Idle c → Present c e.key → Ends c e (insert (suc fuel) e c)
  insert-updates fuel valid idle there =
      rw (holding-Idle c idle) at (at_once fuel (round_with_key valid there))
