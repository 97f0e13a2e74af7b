-- ===== src/Replica/Methods/Backward.antt =====
-- Paths of ReplicatedKeyValueStoreRDMA/Persistence/KeyValueStore/Cuckoo.hpp whose last displacement
-- goes from table 2 into table 1.
use concurrent_computing.Prelude.{
  ℕ, suc, ◌≡◌, ◌≢◌, refl, ◌==◌, arith, true, some, List, [], ◌∷◌, Bool-cases, inl, inr,
}
use concurrent_computing.Cuckoo.Search.{Side, left, right, other}
use concurrent_computing.Replica.Table.{is_available, get_element}
use concurrent_computing.Replica.State.{Cuckoo, hash1, hash2}
use concurrent_computing.Replica.Locks.Runs.{holding}
use concurrent_computing.Replica.Search.{home, Point}
use concurrent_computing.Replica.Insert.{
  Hop, retry, has_changed, take_path, decode, follow, path_of,
}
use concurrent_computing.Replica.Methods.Displace.{displace_retry}

-- Each entry stands in the bucket that the key before it hashes to, in its table.
abbrev IsChain : Cuckoo → List Hop → Type 0
IsChain c [] = Unit
IsChain c (to ∷ []) = Unit
IsChain c (to ∷ from ∷ hs) =
    (to.index ≡ home c.buckets to.table (get_element c.table from.index from.slot).key)
    × IsChain c (from ∷ hs)

module _ (c : Cuckoo) where
  follow-IsChain :
      (side : Side) (idx : ℕ) (slots : List ℕ) (acc : List Hop)
      → IsChain c acc
      → ((s : ℕ) → IsChain c (record { table = side; index = idx; slot = s } ∷ acc))
      → IsChain c (follow c side idx slots acc)
  unfolding follow
  follow-IsChain side idx [] acc a next = a
  follow-IsChain side idx (s ∷ slots) acc a next =
      let more =
        follow-IsChain (other side) (home c.buckets (other side) (get_element c.table idx s).key)
          slots (record { table = side; index = idx; slot = s } ∷ acc) (next s)
          (λ t. (refl, next s)) in
      elim (Bool-cases (is_available c.table idx s)) [
        | inl free ↦ rw free (next s)
        | inr full ↦ rw full more
      ]

  path_of-IsChain : (idx1 idx2 : ℕ) (point : Point) → IsChain c (path_of c idx1 idx2 point)
  unfolding path_of
  path_of-IsChain idx1 idx2 point =
      let slots = (decode (suc point.depth) point.pathcode []).1 in
      elim (Bool-cases ((decode (suc point.depth) point.pathcode []).0 == 0)) [
        | inl e ↦ rw e (follow-IsChain left idx1 slots [] tt (λ s. tt))
        | inr e ↦ rw e (follow-IsChain right idx2 slots [] tt (λ s. tt))
      ]

  -- The test takes the hash function 2, and the bucket is that of the hash function 1.
  changed :
      (to from : Hop)
      → to.index ≡ home c.buckets left (get_element c.table from.index from.slot).key
      → hash1 c.buckets (get_element c.table from.index from.slot).key
        ≢ hash2 c.buckets (get_element c.table from.index from.slot).key
      → has_changed c to from ≡ true
  unfolding has_changed home
  changed to from q differ = ground arith

  -- A path read off a path code is given up, and nothing is moved, if its last displacement goes
  -- from table 2 into table 1 and takes a key whose two buckets differ: `insert` has to be repeated
  -- though no other thread has changed the path.
  pub backward_path-retries :
      (idx1 idx2 : ℕ) (point : Point) (to from : Hop) (hs : List Hop)
      → path_of c idx1 idx2 point ≡ to ∷ from ∷ hs
      → to.table ≡ left
      → hash1 c.buckets (get_element c.table from.index from.slot).key
        ≢ hash2 c.buckets (get_element c.table from.index from.slot).key
      → take_path idx1 idx2 (path_of c idx1 idx2 point) (holding c []) ≡ some (retry, holding c [])
  unfolding take_path
  backward_path-retries idx1 idx2 point to from hs e side differ =
      let chain = rw e at (path_of-IsChain idx1 idx2 point) in
      rw e (displace_retry c idx1 idx2 to from hs (changed to from (rw side at chain.0) differ))
