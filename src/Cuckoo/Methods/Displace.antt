-- ===== src/Cuckoo/Methods/Displace.antt =====
-- The displacements of the private `insert` of Cuckoo.hpp, run by one thread.
use concurrent_computing.Prelude.{
  ℕ, ◌<◌, ◌≡◌, ◌≢◌, refl, ◌∙◌, arith, true, false, some, List, [], ◌∷◌,
}
use concurrent_computing.Cuckoo.Table.{width}
use concurrent_computing.Cuckoo.State.{Cuckoo, ◌>>=◌, hash1, hash2}
use concurrent_computing.Cuckoo.Locks.Runs.{
  holding, lock_two_run, lock_three_run, unlock_two_run, unlock_three_run, unlock_other_run,
}
use concurrent_computing.Cuckoo.Search.{other, home}
use concurrent_computing.Cuckoo.Insert.{
  Result, retry, duplicate, success, Hop, element, put_at, move, has_changed, displace,
}
use concurrent_computing.Cuckoo.Contents.{member, element-put_at}
use concurrent_computing.Cuckoo.Placement.{IsValid, eq_side_refl, move-IsValid, member-move}

-- The set is the same, though its values may stand elsewhere.
pub record Keeps (c x : Cuckoo) : Type 0 where
  pub buckets : x.buckets ≡ c.buckets
  pub readers : x.readers ≡ c.readers
  pub writer : x.writer ≡ c.writer
  pub valid : IsValid x
  pub contents : (w : ℕ) → w ≢ 0 → member x w ≡ member c w

pub Keeps-refl : {c : Cuckoo} → IsValid c → Keeps c c
Keeps-refl valid = record {
  buckets = refl;
  readers = refl;
  writer = refl;
  valid = valid;
  contents = λ w h. refl;
}

pub Keeps-trans : {c x y : Cuckoo} → Keeps c x → Keeps x y → Keeps c y
Keeps-trans p q = record {
  buckets = q.buckets ∙ p.buckets;
  readers = q.readers ∙ p.readers;
  writer = q.writer ∙ p.writer;
  valid = q.valid;
  contents = λ w h. q.contents w h ∙ p.contents w h;
}

-- The path as `take_path` gets it: the entry that it starts from comes last, and stands in one of
-- the two buckets of `v`.
abbrev pub IsPath : ℕ → ℕ → List Hop → Type 0
IsPath b v [] = ⊥
IsPath b v (h ∷ []) = (h.slot < width) × (h.index ≡ home b h.table v)
IsPath b v (h ∷ g ∷ hs) = (h.slot < width) × IsPath b v (g ∷ hs)

abbrev pub locks_left : ℕ → ℕ → Result → List ℕ
locks_left b v (success s i j) = hash1 b v ∷ hash2 b v ∷ []
locks_left b v _ = []

-- What `success` grants: an empty slot in a bucket of `v`. `duplicate` says that `v` is there.
abbrev pub Vacancy : ℕ → Result → Cuckoo → Type 0
Vacancy v (success s i j) x = (i ≡ home x.buckets s v) × (j < width) × (element x s i j ≡ 0)
Vacancy v duplicate x = member x v ≡ true
Vacancy v _ x = Unit

pub record Grants (c : Cuckoo) (v : ℕ) (r : Result) (d : Cuckoo) : Type 0 where
  pub base : Cuckoo
  pub state : d ≡ holding base (locks_left c.buckets v r)
  pub keeps : Keeps c base
  pub vacancy : Vacancy v r base

pub first_slot-lt : (b v : ℕ) (h : Hop) (hs : List Hop) → IsPath b v (h ∷ hs) → h.slot < width
first_slot-lt b v h [] p = p.0
first_slot-lt b v h (g ∷ hs) p = p.0

-- A displacement whose test passes, between slots of a well-formed set, keeps the set: the same
-- values are found, the tables stay well formed, and the number of buckets and the global lock are
-- as before.
pub move-Keeps :
    (c : Cuckoo) (to from : Hop)
    → IsValid c
    → has_changed c to from ≡ false
    → to.slot < width
    → from.slot < width
    → Keeps c (move to from c)
unfolding move put_at
move-Keeps c to from valid kept lt lt' = record {
  buckets = ground arith;
  readers = ground arith;
  writer = ground arith;
  valid = move-IsValid c to from valid kept lt;
  contents = λ w h. member-move c to from valid kept w h lt lt';
}

move-holding :
    (c : Cuckoo) (to from : Hop) (is : List ℕ)
    → move to from (holding c is) ≡ holding (move to from c) is
unfolding move put_at
move-holding c to from is = ground arith

has_changed-holding :
    (c : Cuckoo) (to from : Hop) (is : List ℕ)
    → has_changed (holding c is) to from ≡ has_changed c to from
unfolding has_changed
has_changed-holding c to from is = ground arith

-- The slot that a displacement leaves is empty.
pub move-vacates :
    (c : Cuckoo) (to from : Hop) → element (move to from c) from.table from.index from.slot ≡ 0
unfolding move
move-vacates c to from =
    element-put_at
      (put_at (other from.table) to.index to.slot (element c from.table from.index from.slot) c)
      from.table from.index from.slot 0 from.table from.index from.slot
    ∙ ground (arith, eq_side_refl from.table)

module _ (c : Cuckoo) (idx1 idx2 : ℕ) (to from : Hop) where
  -- A path that has changed is given up, with the locks released.
  pub displace_retry :
      (hs : List Hop)
      → has_changed c to from ≡ true
      → displace idx1 idx2 (to ∷ from ∷ hs) (holding c []) ≡ some (retry, holding c [])
  unfolding displace
  displace_retry [] h = rw (
    lock_three_run c idx1 idx2 to.index,
    ◌>>=◌,
    has_changed-holding c to from (idx1 ∷ idx2 ∷ to.index ∷ []),
    h,
    unlock_three_run c idx1 idx2 to.index,
  )
  displace_retry (g ∷ hs) h = rw (
    lock_two_run c to.index from.index,
    ◌>>=◌,
    has_changed-holding c to from (to.index ∷ from.index ∷ []),
    h,
    unlock_two_run c to.index from.index,
  )

  pub displace_last :
      has_changed c to from ≡ false
      → displace idx1 idx2 (to ∷ from ∷ []) (holding c [])
        ≡ some
            (success from.table from.index from.slot, holding (move to from c) (idx1 ∷ idx2 ∷ []))
  unfolding displace
  displace_last h = rw (
    lock_three_run c idx1 idx2 to.index,
    ◌>>=◌,
    has_changed-holding c to from (idx1 ∷ idx2 ∷ to.index ∷ []),
    h,
    move-holding c to from (idx1 ∷ idx2 ∷ to.index ∷ []),
    unlock_other_run (move to from c) idx1 idx2 to.index,
  )

  pub displace_next :
      (g : Hop) (hs : List Hop)
      → has_changed c to from ≡ false
      → displace idx1 idx2 (to ∷ from ∷ g ∷ hs) (holding c [])
        ≡ displace idx1 idx2 (from ∷ g ∷ hs) (holding (move to from c) [])
  unfolding displace
  displace_next g hs h = rw (
    lock_two_run c to.index from.index,
    ◌>>=◌,
    has_changed-holding c to from (to.index ∷ from.index ∷ []),
    h,
    move-holding c to from (to.index ∷ from.index ∷ []),
    unlock_two_run (move to from c) to.index from.index,
  )
