-- ===== src/Replica/Methods/Paths.antt =====
-- The private `insert` of ReplicatedKeyValueStoreRDMA/Persistence/KeyValueStore/Cuckoo.hpp from a path
-- on: what it grants, and that it keeps the contents.
use concurrent_computing.Prelude.{
  ℕ, zero, suc, ◌/◌, ◌%◌, ◌<◌, ◌≡◌, refl, ◌∙◌, arith, Option, some, List, [], ◌∷◌, Bool-cases, inl,
  inr, ◌==◌,
}
use concurrent_computing.Cuckoo.Search.{Side, left, right, other}
use concurrent_computing.Replica.Table.{entry_width, offset, is_available, get_element}
use concurrent_computing.Replica.State.{Cuckoo, hash1, hash2, ◌>>=◌}
use concurrent_computing.Replica.Locks.Runs.{holding, lock_two_run, unlock_two_run}
use concurrent_computing.Replica.Search.{home, Point}
use concurrent_computing.Replica.Insert.{
  InsertResult, retry, success, Hop, move, has_changed, displace, claim, take_path, decode, follow,
  path_of,
}
use concurrent_computing.Replica.Contents.{Near, hash1-lt, hash2-lt}
use concurrent_computing.Replica.Methods.Displace.{
  Keeps, Keeps-trans, InTable, IsPath, both, Grants, first_InTable, displaced-Keeps, displace_retry,
  displace_last, displace_next,
}

-- A run that returns a result, and what that result grants.
abbrev pub Returns : Cuckoo → ℕ → Option (InsertResult × Cuckoo) → Type 0
Returns c k run = (r : InsertResult) × (d : Cuckoo) × (run ≡ some (r, d)) × Grants c k r d

-- A run that gives up with `retry`.
given_up :
    (c : Cuckoo) (k : ℕ) (x : Cuckoo)
    → Keeps c x
    → {run : Option (InsertResult × Cuckoo)} → run ≡ some (retry, holding x [])
    → Returns c k run
given_up c k x keeps e =
    (retry, holding x [], e, record { base = x; state = refl; keeps = keeps; vacancy = tt })

-- The displacements return. They empty the first slot of the path, or stop where the path has
-- changed; the contents are the same either way.
displace-Grants :
    (c x : Cuckoo) (k : ℕ) (to from : Hop) (hs : List Hop)
    → Keeps c x
    → IsPath c.buckets k (to ∷ from ∷ hs)
    → Returns c k (displace (hash1 c.buckets k) (hash2 c.buckets k) (to ∷ from ∷ hs) (holding x []))
displace-Grants c x k to from [] keeps p = elim (Bool-cases (has_changed x to from)) [
  | inl changed ↦
      given_up c k x keeps
        (displace_retry x (hash1 c.buckets k) (hash2 c.buckets k) to from [] changed)
  | inr same ↦
      let (step, vacated) =
        displaced-Keeps x to from keeps.valid same (rw keeps.buckets p.0)
          (rw keeps.buckets p.1.0) in
      (
        success from.table from.index from.slot,
        holding (move to from x) (both c.buckets k),
        displace_last x (hash1 c.buckets k) (hash2 c.buckets k) to from same,
        record {
          base = move to from x;
          state = refl;
          keeps = Keeps-trans keeps step;
          vacancy = (p.1.0.0, rw (step.buckets, keeps.buckets) p.1.1, vacated);
        },
      )
]
displace-Grants c x k to from (g ∷ hs) keeps p = elim (Bool-cases (has_changed x to from)) [
  | inl changed ↦
      given_up c k x keeps
        (displace_retry x (hash1 c.buckets k) (hash2 c.buckets k) to from (g ∷ hs) changed)
  | inr same ↦
      let (step, vacated) =
        displaced-Keeps x to from keeps.valid same (rw keeps.buckets p.0)
          (rw keeps.buckets (first_InTable c.buckets k from (g ∷ hs) p.1)) in
      let (r, d, run, grants) =
        displace-Grants c (move to from x) k from g hs (Keeps-trans keeps step) p.1 in
      (
        r,
        d,
        displace_next x (hash1 c.buckets k) (hash2 c.buckets k) to from g hs same ∙ run,
        grants,
      )
]

claim-Grants :
    (c x : Cuckoo) (k : ℕ) (h : Hop)
    → Keeps c x
    → IsPath c.buckets k (h ∷ [])
    → Returns c k (claim (hash1 c.buckets k) (hash2 c.buckets k) h (holding x []))
unfolding claim
claim-Grants c x k h keeps p = elim (Bool-cases (is_available x.table h.index h.slot)) [
  | inl free ↦ (
    success h.table h.index h.slot,
    holding x (both c.buckets k),
    rw (lock_two_run x (hash1 c.buckets k) (hash2 c.buckets k), ◌>>=◌, free),
    record {
      base = x;
      state = refl;
      keeps = keeps;
      vacancy = (p.0.0, rw keeps.buckets p.1, ground arith);
    },
  )
  | inr full ↦ given_up c k x keeps (
      rw (
        lock_two_run x (hash1 c.buckets k) (hash2 c.buckets k),
        ◌>>=◌,
        full,
        unlock_two_run x (hash1 c.buckets k) (hash2 c.buckets k),
      ))
]

pub take_path-Grants :
    (c x : Cuckoo) (k : ℕ) (hs : List Hop)
    → Keeps c x
    → IsPath c.buckets k hs
    → Returns c k (take_path (hash1 c.buckets k) (hash2 c.buckets k) hs (holding x []))
unfolding take_path
take_path-Grants c x k [] keeps p = absurd p
take_path-Grants c x k (h ∷ []) keeps p = claim-Grants c x k h keeps p
take_path-Grants c x k (to ∷ from ∷ hs) keeps p = displace-Grants c x k to from hs keeps p

-- At least one slot, and each inside a bucket.
abbrev AreSlots : List ℕ → Type 0
AreSlots [] = ⊥
AreSlots (s ∷ []) = s < entry_width
AreSlots (s ∷ t ∷ ss) = (s < entry_width) × AreSlots (t ∷ ss)

AreSlots-head : (s : ℕ) (ss : List ℕ) → AreSlots (s ∷ ss) → s < entry_width
AreSlots-head s [] a = a
AreSlots-head s (t ∷ ss) a = a.0

AreSlots-cons : (s : ℕ) (ss : List ℕ) → s < entry_width → AreSlots ss → AreSlots (s ∷ ss)
AreSlots-cons s [] h a = h
AreSlots-cons s (t ∷ ss) h a = (h, a)

decode-AreSlots : (n code : ℕ) (acc : List ℕ) → AreSlots acc → AreSlots (decode n code acc).1
unfolding decode
decode-AreSlots zero code acc a = a
decode-AreSlots (suc n) code acc a =
    decode-AreSlots n (code / entry_width) (code % entry_width ∷ acc)
      (AreSlots-cons (code % entry_width) acc (omega arith) a)

decode-suc : (n code : ℕ) → AreSlots (decode (suc n) code []).1
unfolding decode
decode-suc n code = decode-AreSlots n (code / entry_width) (code % entry_width ∷ []) (omega arith)

IsPath-cons :
    (b k : ℕ) (h : Hop) (hs : List Hop) → InTable b h → IsPath b k hs → IsPath b k (h ∷ hs)
IsPath-cons b k h [] lt p = absurd p
IsPath-cons b k h (g ∷ hs) lt p = (lt, p)

home-lt : (b : ℕ) (s : Side) (k : ℕ) → 0 < b → home b s k < b
unfolding home
home-lt b left k h = hash1-lt b k h
home-lt b right k h = hash2-lt b k h

home-Near : (b : ℕ) (s : Side) (k j : ℕ) → j < entry_width → Near b k (offset (home b s k) j)
unfolding home
home-Near b left k j h = inl (omega arith)
home-Near b right k j h = inr (omega arith)

module _ (c : Cuckoo) (k : ℕ) (roomy : 0 < c.buckets) where
  -- Entries go in front of those that are there.
  follow-IsPath :
      (side : Side) (idx : ℕ) (s : ℕ) (slots : List ℕ) (acc : List Hop)
      → AreSlots (s ∷ slots)
      → IsPath c.buckets k (record { table = side; index = idx; slot = s } ∷ acc)
      → IsPath c.buckets k (follow c side idx (s ∷ slots) acc)
  unfolding follow
  follow-IsPath side idx s [] acc a p = elim (Bool-cases (is_available c.table idx s)) [
    | inl free ↦ rw free p
    | inr full ↦ rw full p
  ]
  follow-IsPath side idx s (t ∷ slots) acc a p =
      let next = home c.buckets (other side) (get_element c.table idx s).key in
      let more =
        follow-IsPath (other side) next t slots
          (record { table = side; index = idx; slot = s } ∷ acc) a.1
          (IsPath-cons c.buckets k (record { table = other side; index = next; slot = t })
            (record { table = side; index = idx; slot = s } ∷ acc)
            (
              AreSlots-head t slots a.1,
              home-lt c.buckets (other side) (get_element c.table idx s).key roomy,
            )
            p) in
      elim (Bool-cases (is_available c.table idx s)) [
        | inl free ↦ rw free p
        | inr full ↦ rw full more
      ]

  first_IsPath :
      (side : Side) (slots : List ℕ)
      → AreSlots slots
      → IsPath c.buckets k (follow c side (home c.buckets side k) slots [])
  first_IsPath side [] a = absurd a
  first_IsPath side (s ∷ slots) a = follow-IsPath side (home c.buckets side k) s slots [] a (
    (AreSlots-head s slots a, home-lt c.buckets side k roomy),
    home-Near c.buckets side k s (AreSlots-head s slots a),
  )

  -- From the two buckets of `k` every path code leads to a path.
  pub path_of-IsPath :
      (point : Point) → IsPath c.buckets k (path_of c (hash1 c.buckets k) (hash2 c.buckets k) point)
  unfolding path_of home
  path_of-IsPath point =
      let slots = decode-suc point.depth point.pathcode in
      elim (Bool-cases ((decode (suc point.depth) point.pathcode []).0 == 0)) [
        | inl e ↦ rw e (first_IsPath left _ slots)
        | inr e ↦ rw e (first_IsPath right _ slots)
      ]
