-- ===== src/Cuckoo/Methods/Paths.antt =====
-- The private `insert` of Cuckoo.hpp from a path on: what it grants, and that it keeps the set.
use concurrent_computing.Prelude.{
  ℕ, ◌<◌, ◌≡◌, refl, sym, ap, ◌∙◌, arith, false, Option, some, List, [], ◌∷◌, Bool-cases, inl, inr,
}
use concurrent_computing.Cuckoo.Table.{width, is_available}
use concurrent_computing.Cuckoo.State.{Cuckoo, hash1, hash2, ◌>>=◌}
use concurrent_computing.Cuckoo.Locks.Runs.{holding, lock_two_run, unlock_two_run}
use concurrent_computing.Cuckoo.Search.{Side, left, right, table_of, home}
use concurrent_computing.Cuckoo.Insert.{
  Result, retry, success, Hop, move, has_changed, displace, claim, take_path,
}
use concurrent_computing.Cuckoo.Methods.Displace.{
  Keeps, Keeps-trans, IsPath, Grants, first_slot-lt, move-Keeps, move-vacates, displace_retry,
  displace_last, displace_next,
}

table_of-holding : (c : Cuckoo) (is : List ℕ) (s : Side) → table_of (holding c is) s ≡ table_of c s
table_of-holding c is left = refl
table_of-holding c is right = refl

-- A run that returns a result, and what that result grants.
abbrev pub Returns : Cuckoo → ℕ → Option (Result × Cuckoo) → Type 0
Returns c v run = (r : Result) × (d : Cuckoo) × (run ≡ some (r, d)) × Grants c v r d

-- A run that gives up with `retry`.
given_up :
    (c : Cuckoo) (v : ℕ) (x : Cuckoo)
    → Keeps c x
    → {run : Option (Result × Cuckoo)} → run ≡ some (retry, holding x [])
    → Returns c v run
given_up c v x k e =
    (retry, holding x [], e, record { base = x; state = refl; keeps = k; vacancy = tt })

-- The displacements return. They empty the first slot of the path, or stop where the path has
-- changed; the set is the same either way.
displace-Grants :
    (c x : Cuckoo) (v : ℕ) (to from : Hop) (hs : List Hop)
    → Keeps c x
    → IsPath c.buckets v (to ∷ from ∷ hs)
    → Returns c v (displace (hash1 c.buckets v) (hash2 c.buckets v) (to ∷ from ∷ hs) (holding x []))
displace-Grants c x v to from [] k p = elim (Bool-cases (has_changed x to from)) [
  | inl changed ↦
      given_up c v x k (displace_retry x (hash1 c.buckets v) (hash2 c.buckets v) to from [] changed)
  | inr same ↦ (
    success from.table from.index from.slot,
    holding (move to from x) (hash1 c.buckets v ∷ hash2 c.buckets v ∷ []),
    displace_last x (hash1 c.buckets v) (hash2 c.buckets v) to from same,
    record {
      base = move to from x;
      state = refl;
      keeps = Keeps-trans k (move-Keeps x to from k.valid same p.0 p.1.0);
      vacancy = (
        p.1.1 ∙ ap (λ b. home b from.table v) (sym (moved_buckets same p.0 p.1.0)),
        p.1.0,
        move-vacates x to from,
      );
    },
  )
]
  where
    moved_buckets :
        has_changed x to from ≡ false
        → to.slot < width
        → from.slot < width
        → (move to from x).buckets ≡ c.buckets
    moved_buckets same lt lt' = (move-Keeps x to from k.valid same lt lt').buckets ∙ k.buckets
displace-Grants c x v to from (g ∷ hs) k p = elim (Bool-cases (has_changed x to from)) [
  | inl changed ↦
      given_up c v x k
        (displace_retry x (hash1 c.buckets v) (hash2 c.buckets v) to from (g ∷ hs) changed)
  | inr same ↦
      let step =
        move-Keeps x to from k.valid same p.0 (first_slot-lt c.buckets v from (g ∷ hs) p.1) in
      let (r, d, run, grants) =
        displace-Grants c (move to from x) v from g hs (Keeps-trans k step) p.1 in
      (
        r,
        d,
        displace_next x (hash1 c.buckets v) (hash2 c.buckets v) to from g hs same ∙ run,
        grants,
      )
]

claim-Grants :
    (c x : Cuckoo) (v : ℕ) (h : Hop)
    → Keeps c x
    → IsPath c.buckets v (h ∷ [])
    → Returns c v (claim (hash1 c.buckets v) (hash2 c.buckets v) h (holding x []))
unfolding claim
claim-Grants c x v h k p = elim (Bool-cases (is_available (table_of x h.table) h.index h.slot)) [
  | inl free ↦ (
    success h.table h.index h.slot,
    holding x (hash1 c.buckets v ∷ hash2 c.buckets v ∷ []),
    rw (
      lock_two_run x (hash1 c.buckets v) (hash2 c.buckets v),
      ◌>>=◌,
      table_of-holding x (hash1 c.buckets v ∷ hash2 c.buckets v ∷ []) h.table,
      free,
    ),
    record {
      base = x;
      state = refl;
      keeps = k;
      vacancy = (p.1 ∙ ap (λ b. home b h.table v) (sym k.buckets), p.0, ground arith);
    },
  )
  | inr full ↦ given_up c v x k (
      rw (
        lock_two_run x (hash1 c.buckets v) (hash2 c.buckets v),
        ◌>>=◌,
        table_of-holding x (hash1 c.buckets v ∷ hash2 c.buckets v ∷ []) h.table,
        full,
        unlock_two_run x (hash1 c.buckets v) (hash2 c.buckets v),
      ))
]

pub take_path-Grants :
    (c x : Cuckoo) (v : ℕ) (hs : List Hop)
    → Keeps c x
    → IsPath c.buckets v hs
    → Returns c v (take_path (hash1 c.buckets v) (hash2 c.buckets v) hs (holding x []))
unfolding take_path
take_path-Grants c x v [] k p = absurd p
take_path-Grants c x v (h ∷ []) k p = claim-Grants c x v h k p
take_path-Grants c x v (to ∷ from ∷ hs) k p = displace-Grants c x v to from hs k p
