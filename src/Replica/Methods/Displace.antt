-- ===== src/Replica/Methods/Displace.antt =====
-- The displacements of the private `insert` of
-- ReplicatedKeyValueStoreRDMA/Persistence/KeyValueStore/Cuckoo.hpp, run by one thread.
use concurrent_computing.Prelude.{
  ℕ, ◌<◌, ◌≡◌, ◌≢◌, ◌↔◌, refl, ◌∙◌, arith, true, false, some, List, [], ◌∷◌, inr,
}
use concurrent_computing.Replica.Table.{entry_width, offset, set_element, set_key}
use concurrent_computing.Replica.State.{Cuckoo, ◌>>=◌, hash1, hash2}
use concurrent_computing.Replica.Locks.Runs.{
  holding, lock_two_run, lock_three_run, unlock_two_run, unlock_three_run, unlock_other_run,
}
use concurrent_computing.Replica.Insert.{
  InsertResult, retry, duplicate, success, Hop, move, has_changed, displace, put_at, clear_at,
}
use concurrent_computing.Replica.Contents.{key_at, cells, Near, Holds, IsValid}
use concurrent_computing.Replica.Edits.{moved, moved-IsValid, moved-Holds}

-- The store has the same contents, though its elements may stand elsewhere.
pub record Keeps (c x : Cuckoo) : Type 0 where
  pub buckets : x.buckets ≡ c.buckets
  pub valid : IsValid x
  pub contents : (w v : ℕ) → w ≢ 0 → Holds x w v ↔ Holds c w v

pub Keeps-refl : {c : Cuckoo} → IsValid c → Keeps c c
Keeps-refl valid = record { buckets = refl; valid = valid; contents = λ w v h. (λ q. q, λ q. q) }

pub Keeps-trans : {c x y : Cuckoo} → Keeps c x → Keeps x y → Keeps c y
Keeps-trans p q = record {
  buckets = q.buckets ∙ p.buckets;
  valid = q.valid;
  contents = λ w v h. (
    λ a. (p.contents w v h).0 ((q.contents w v h).0 a),
    λ a. (q.contents w v h).1 ((p.contents w v h).1 a),
  );
}

-- A slot of a bucket of a table of `b` buckets.
abbrev pub InTable : ℕ → Hop → Type 0
InTable b h = (h.slot < entry_width) × (h.index < b)

-- The path as `take_path` gets it: the entry that it starts from comes last, and stands in one of
-- the two buckets of `k`.
abbrev pub IsPath : ℕ → ℕ → List Hop → Type 0
IsPath b k [] = ⊥
IsPath b k (h ∷ []) = InTable b h × Near b k (offset h.index h.slot)
IsPath b k (h ∷ g ∷ hs) = InTable b h × IsPath b k (g ∷ hs)

abbrev pub both : ℕ → ℕ → List ℕ
both b k = hash1 b k ∷ hash2 b k ∷ []

abbrev pub locks_left : ℕ → ℕ → InsertResult → List ℕ
locks_left b k (success s i j) = both b k
locks_left b k (duplicate s i j) = both b k
locks_left b k _ = []

-- What `success` grants: an empty slot in a bucket of `k`. `duplicate` gives the slot of `k`.
abbrev pub Vacancy : ℕ → InsertResult → Cuckoo → Type 0
Vacancy k (success s i j) x =
    (j < entry_width) × Near x.buckets k (offset i j) × (key_at x (offset i j) ≡ 0)
Vacancy k (duplicate s i j) x =
    (j < entry_width) × Near x.buckets k (offset i j) × (key_at x (offset i j) ≡ k)
Vacancy k _ x = Unit

pub record Grants (c : Cuckoo) (k : ℕ) (r : InsertResult) (d : Cuckoo) : Type 0 where
  pub base : Cuckoo
  pub state : d ≡ holding base (locks_left c.buckets k r)
  pub keeps : Keeps c base
  pub vacancy : Vacancy k r base

pub first_InTable : (b k : ℕ) (h : Hop) (hs : List Hop) → IsPath b k (h ∷ hs) → InTable b h
first_InTable b k h [] p = p.0
first_InTable b k h (g ∷ hs) p = p.0

move-moved :
    (c : Cuckoo) (to from : Hop)
    → move to from c ≡ moved c (offset to.index to.slot) (offset from.index from.slot)
unfolding move put_at clear_at set_element set_key
move-moved c to from = refl

-- What the tests before a displacement establish.
ready :
    (c : Cuckoo) (to from : Hop)
    → has_changed c to from ≡ false
    → (key_at c (offset to.index to.slot) ≡ 0)
      × (key_at c (offset from.index from.slot) ≢ 0)
      × (hash2 c.buckets (key_at c (offset from.index from.slot)) ≡ to.index)
unfolding has_changed
ready c to from h = (ground arith, ground arith, ground arith)

-- A displacement whose tests pass, between slots of the table, keeps the contents and the
-- well-formedness of the store, and empties the slot that it starts from.
pub displaced-Keeps :
    (c : Cuckoo) (to from : Hop)
    → IsValid c
    → has_changed c to from ≡ false
    → InTable c.buckets to
    → InTable c.buckets from
    → Keeps c (move to from c) × (key_at (move to from c) (offset from.index from.slot) ≡ 0)
displaced-Keeps c to from valid same a b =
    let (vacant, occupied, e) = ready c to from same in
    let n = offset to.index to.slot in
    let m = offset from.index from.slot in
    let inside : m < cells c = omega arith in
    let near : Near c.buckets (key_at c m) n = inr (omega (arith, e)) in
    rw (move-moved c to from) (
      record {
        buckets = refl;
        valid = moved-IsValid c valid n m inside vacant occupied near;
        contents = moved-Holds c valid n m inside vacant occupied near;
      },
      ground arith,
    )

move-holding :
    (c : Cuckoo) (to from : Hop) (is : List ℕ)
    → move to from (holding c is) ≡ holding (move to from c) is
unfolding move put_at clear_at
move-holding c to from is = refl

has_changed-holding :
    (c : Cuckoo) (to from : Hop) (is : List ℕ)
    → has_changed (holding c is) to from ≡ has_changed c to from
unfolding has_changed
has_changed-holding c to from is = refl

module _ (c : Cuckoo) (idx1 idx2 : ℕ) (to from : Hop) where
  -- A path that has changed is given up, with the locks released.
  pub displace_retry :
      (hs : List Hop)
      → has_changed c to from ≡ true
      → displace idx1 idx2 (to ∷ from ∷ hs) (holding c []) ≡ some (retry, holding c [])
  unfolding displace
  displace_retry [] h = rw (
    lock_three_run c idx1 idx2 to.index,
    ◌>>=◌,
    has_changed-holding c to from (idx1 ∷ idx2 ∷ to.index ∷ []),
    h,
    unlock_three_run c idx1 idx2 to.index,
  )
  displace_retry (g ∷ hs) h = rw (
    lock_two_run c to.index from.index,
    ◌>>=◌,
    has_changed-holding c to from (to.index ∷ from.index ∷ []),
    h,
    unlock_two_run c to.index from.index,
  )

  pub displace_last :
      has_changed c to from ≡ false
      → displace idx1 idx2 (to ∷ from ∷ []) (holding c [])
        ≡ some
            (success from.table from.index from.slot, holding (move to from c) (idx1 ∷ idx2 ∷ []))
  unfolding displace
  displace_last h = rw (
    lock_three_run c idx1 idx2 to.index,
    ◌>>=◌,
    has_changed-holding c to from (idx1 ∷ idx2 ∷ to.index ∷ []),
    h,
    move-holding c to from (idx1 ∷ idx2 ∷ to.index ∷ []),
    unlock_other_run (move to from c) idx1 idx2 to.index,
  )

  pub displace_next :
      (g : Hop) (hs : List Hop)
      → has_changed c to from ≡ false
      → displace idx1 idx2 (to ∷ from ∷ g ∷ hs) (holding c [])
        ≡ displace idx1 idx2 (from ∷ g ∷ hs) (holding (move to from c) [])
  unfolding displace
  displace_next g hs h = rw (
    lock_two_run c to.index from.index,
    ◌>>=◌,
    has_changed-holding c to from (to.index ∷ from.index ∷ []),
    h,
    move-holding c to from (to.index ∷ from.index ∷ []),
    unlock_two_run (move to from c) to.index from.index,
  )
