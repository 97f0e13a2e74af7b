-- ===== src/Cuckoo/Methods/Room.antt =====
-- The public `insert` of Cuckoo.hpp where no value has to move.
use concurrent_computing.Prelude.{
  ℕ, suc, ◌≡◌, ◌≢◌, sym, ap, ◌∙◌, arith, Bool, true, false, ◌||◌, not, none, some, [], Bool-cases,
  Option-cases, is_some, inl, inr,
}
use concurrent_computing.Cuckoo.Table.{first_available}
use concurrent_computing.Cuckoo.State.{Cuckoo, hash1, hash2, ◌>>=◌}
use concurrent_computing.Cuckoo.Locks.Runs.{holding}
use concurrent_computing.Cuckoo.Search.{left, right}
use concurrent_computing.Cuckoo.Ops.{insert_round, insert_loop, insert}
use concurrent_computing.Cuckoo.Contents.{member}
use concurrent_computing.Cuckoo.Placement.{IsValid}
use concurrent_computing.Cuckoo.Methods.{Idle, holding-Idle, reading}
use concurrent_computing.Cuckoo.Methods.Insertion.{
  insert_at_present, insert_at_left, insert_at_right,
}
use concurrent_computing.Cuckoo.Methods.Rounds.{
  Added, Done, member-reading, reading-IsValid, ended_duplicate, ended_success,
}

-- The value is there, or one of its buckets has an empty slot.
abbrev pub has_room : Cuckoo → ℕ → Bool
has_room c v =
    member c v
    || is_some (first_available c.table1 (hash1 c.buckets v))
    || is_some (first_available c.table2 (hash2 c.buckets v))

module _ (c : Cuckoo) (v : ℕ) (idle : Idle c) (some_value : v ≢ 0) (valid : IsValid c) where
  no_room :
      member c v ≡ false
      → first_available c.table1 (hash1 c.buckets v) ≡ none
      → first_available c.table2 (hash2 c.buckets v) ≡ none
      → ¬ (has_room c v ≡ true)
  no_room absent e e' room = ground arith

  round_with_room :
      has_room c v ≡ true
      → Done c v idle some_value
          (insert_round v (hash1 c.buckets v) (hash2 c.buckets v) (holding c []))
  round_with_room room =
      let valid' = reading-IsValid c v idle some_value valid in
      elim (Bool-cases (member c v)) [
        | inl e ↦
            ended_duplicate c v idle some_value
              (insert_at_present (reading c) v valid' (member-reading c v ∙ e))
        | inr absent ↦ elim (Option-cases (first_available c.table1 (hash1 c.buckets v))) [
          | inr (j, e) ↦
              ended_success c v idle some_value left (hash1 c.buckets v) j
                (insert_at_left (reading c) v valid' (member-reading c v ∙ absent) j e)
          | inl e ↦ elim (Option-cases (first_available c.table2 (hash2 c.buckets v))) [
            | inr (j, e') ↦
                ended_success c v idle some_value right (hash2 c.buckets v) j
                  (insert_at_right (reading c) v valid' (member-reading c v ∙ absent) e j e')
            | inl e' ↦ absurd (no_room absent e e' room)
          ]
        ]
      ]

  insert_ends :
      (fuel : ℕ)
      → Done c v idle some_value
          (insert_round v (hash1 c.buckets v) (hash2 c.buckets v) (holding c []))
      → (d : Cuckoo) × (insert (suc fuel) v (holding c []) ≡ some (some (not (member c v)), d))
        × Added c v d
  unfolding insert insert_loop
  insert_ends fuel d = (d.final, rw (d.ends, ◌>>=◌), d.added)

  -- In a well-formed set in which no lock is held, and for a value other than 0 that is there or
  -- has an empty slot in one of its buckets, `insert` returns in its first round. Its answer is
  -- whether the value was new; then the set has the value and what it had before, it is well
  -- formed, and no lock is held.
  pub insert_with_room :
      (fuel : ℕ)
      → has_room c v ≡ true
      → (d : Cuckoo) × (insert (suc fuel) v c ≡ some (some (not (member c v)), d)) × Added c v d
  insert_with_room fuel room =
      let (d, run, added) = insert_ends fuel (round_with_room room) in
      (d, ap (insert (suc fuel) v) (sym (holding-Idle c idle)) ∙ run, added)
