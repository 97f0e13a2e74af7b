-- ===== src/Cuckoo/Methods/Insertion.antt =====
-- The private and the public `insert` of Cuckoo.hpp, run by one thread.
use concurrent_computing.Prelude.{
  ℕ, ◌≡◌, ◌≢◌, refl, sym, ◌∙◌, Bool, true, false, Option, none, some, [], ◌∷◌, Bool-cases,
  Option-cases, inl, inr,
}
use concurrent_computing.Cuckoo.Table.{first_available}
use concurrent_computing.Cuckoo.State.{Cuckoo, Seeds, hash1, hash2, ◌>>=◌}
use concurrent_computing.Cuckoo.Locks.Runs.{holding, lock_two_run, unlock_two_run}
use concurrent_computing.Cuckoo.Search.{Side, left, right, table_of, home, Point}
use concurrent_computing.Cuckoo.Search.Bounds.{search-total}
use concurrent_computing.Cuckoo.Insert.{
  Result, needs_resize, retry, duplicate, success, run_search, path_of, make_room, insert_at,
}
use concurrent_computing.Cuckoo.Contents.{member, first_available-some}
use concurrent_computing.Cuckoo.Placement.{IsValid, IsValid-congr}
use concurrent_computing.Cuckoo.Methods.Displace.{Keeps, Keeps-refl, Grants}
use concurrent_computing.Cuckoo.Methods.Paths.{Returns, take_path-Grants}
use concurrent_computing.Cuckoo.Methods.Decode.{path_of-IsPath}

abbrev seeded : Cuckoo → Seeds → Cuckoo
seeded c seeds = record c { seeds = seeds }

tables-seeded : (c : Cuckoo) (seeds : Seeds) (s : Side) → table_of (seeded c seeds) s ≡ table_of c s
tables-seeded c seeds left = refl
tables-seeded c seeds right = refl

seeded-Keeps : (c : Cuckoo) (seeds : Seeds) → IsValid c → Keeps c (seeded c seeds)
unfolding member
seeded-Keeps c seeds valid = record {
  buckets = refl;
  readers = refl;
  writer = refl;
  valid = IsValid-congr c (seeded c seeds) refl (tables-seeded c seeds) valid;
  contents = λ w h. refl;
}

-- What the answer says of the set before.
abbrev pub Answer : Result → Bool → Type 0
Answer duplicate present = present ≡ true
Answer _ present = present ≡ false

run_search_run :
    (c : Cuckoo) (idx1 idx2 : ℕ)
    → (found : Option Point) × (seeds : Seeds) × (run_search idx1 idx2 (holding c [])
        ≡ some (found, holding (seeded c seeds) []))
unfolding run_search
run_search_run c idx1 idx2 =
    let (r, run) = search-total (holding c []) idx1 idx2 in (r.0, r.1, rw (run, run_search))

make_room-Grants :
    (c : Cuckoo) (v : ℕ)
    → IsValid c
    → Returns c v (make_room (hash1 c.buckets v) (hash2 c.buckets v) (holding c []))
unfolding make_room home
make_room-Grants c v valid =
    let (found, seeds, run) = run_search_run c (hash1 c.buckets v) (hash2 c.buckets v) in
    elim (Option-cases found) [
      | inl e ↦ (
        needs_resize,
        holding (seeded c seeds) [],
        rw (run, ◌>>=◌, e),
        record {
          base = seeded c seeds;
          state = refl;
          keeps = seeded-Keeps c seeds valid;
          vacancy = tt;
        },
      )
      | inr (point, e) ↦
          let path =
            path_of (holding (seeded c seeds) []) (hash1 c.buckets v) (hash2 c.buckets v) point in
          let (r, d, taken, grants) =
            take_path-Grants c (seeded c seeds) v path (seeded-Keeps c seeds valid)
              (path_of-IsPath (holding (seeded c seeds) []) c.buckets v point) in
          (r, d, rw (run, ◌>>=◌, e) taken, grants)
    ]

answer_of :
    (c d : Cuckoo) (v : ℕ)
    → v ≢ 0
    → (r : Result) → Grants c v r d
    → member c v ≡ false
    → Answer r (member c v)
answer_of c d v h duplicate g absent = sym (g.keeps.contents v h) ∙ g.vacancy
answer_of c d v h retry g absent = absent
answer_of c d v h needs_resize g absent = absent
answer_of c d v h (success s i j) g absent = absent

-- A return of the private `insert`.
pub record Granted (c : Cuckoo) (v : ℕ) (r : Result) : Type 0 where
  pub after : Cuckoo
  pub run : insert_at v (hash1 c.buckets v) (hash2 c.buckets v) (holding c []) ≡ some (r, after)
  pub grants : Grants c v r after
  pub answer : Answer r (member c v)

module _ (c : Cuckoo) (v : ℕ) (valid : IsValid c) where
  pub insert_at_present : member c v ≡ true → Granted c v duplicate
  unfolding insert_at member
  insert_at_present present = record {
    after = holding c [];
    run = rw (
      lock_two_run c (hash1 c.buckets v) (hash2 c.buckets v),
      ◌>>=◌,
      present,
      unlock_two_run c (hash1 c.buckets v) (hash2 c.buckets v),
    );
    grants = record { base = c; state = refl; keeps = Keeps-refl valid; vacancy = present };
    answer = present;
  }

  pub insert_at_left :
      member c v ≡ false
      → (j : ℕ) → first_available c.table1 (hash1 c.buckets v) ≡ some j
      → Granted c v (success left (hash1 c.buckets v) j)
  unfolding insert_at member home
  insert_at_left absent j e =
      let (lt, vacant) = first_available-some c.table1 (hash1 c.buckets v) j e in
      record {
        after = holding c (hash1 c.buckets v ∷ hash2 c.buckets v ∷ []);
        run = rw (lock_two_run c (hash1 c.buckets v) (hash2 c.buckets v), ◌>>=◌, absent, e);
        grants = record {
          base = c;
          state = refl;
          keeps = Keeps-refl valid;
          vacancy = (refl, lt, vacant);
        };
        answer = absent;
      }

  pub insert_at_right :
      member c v ≡ false
      → first_available c.table1 (hash1 c.buckets v) ≡ none
      → (j : ℕ) → first_available c.table2 (hash2 c.buckets v) ≡ some j
      → Granted c v (success right (hash2 c.buckets v) j)
  unfolding insert_at member home
  insert_at_right absent e j e' =
      let (lt, vacant) = first_available-some c.table2 (hash2 c.buckets v) j e' in
      record {
        after = holding c (hash1 c.buckets v ∷ hash2 c.buckets v ∷ []);
        run = rw (lock_two_run c (hash1 c.buckets v) (hash2 c.buckets v), ◌>>=◌, absent, e, e');
        grants = record {
          base = c;
          state = refl;
          keeps = Keeps-refl valid;
          vacancy = (refl, lt, vacant);
        };
        answer = absent;
      }

  insert_at_full :
      v ≢ 0
      → member c v ≡ false
      → first_available c.table1 (hash1 c.buckets v) ≡ none
      → first_available c.table2 (hash2 c.buckets v) ≡ none
      → (r : Result) × Granted c v r
  unfolding insert_at member
  insert_at_full some_value absent e e' =
      let (r, d, run, grants) = make_room-Grants c v valid in
      (
        r,
        record {
          after = d;
          run =
              rw
                (
                  lock_two_run c (hash1 c.buckets v) (hash2 c.buckets v),
                  ◌>>=◌,
                  absent,
                  e,
                  e',
                  unlock_two_run c (hash1 c.buckets v) (hash2 c.buckets v),
                )
                run;
          grants = grants;
          answer = answer_of c d v some_value r grants absent;
        },
      )

-- The private `insert` returns from every well-formed set in which no spin lock is held, for every
-- value but 0, whatever path the search finds. It keeps the set, says whether the value was there,
-- and on success grants an empty slot of one of the value's buckets together with the locks of
-- both; otherwise it holds no lock.
pub insert_at-Grants : (c : Cuckoo) (v : ℕ) → v ≢ 0 → IsValid c → (r : Result) × Granted c v r
insert_at-Grants c v some_value valid = elim (Bool-cases (member c v)) [
  | inl present ↦ (duplicate, insert_at_present c v valid present)
  | inr absent ↦ elim (Option-cases (first_available c.table1 (hash1 c.buckets v))) [
    | inr (j, e) ↦ (success left (hash1 c.buckets v) j, insert_at_left c v valid absent j e)
    | inl e ↦ elim (Option-cases (first_available c.table2 (hash2 c.buckets v))) [
      | inr (j, e') ↦ (success right (hash2 c.buckets v) j, insert_at_right c v valid absent e j e')
      | inl e' ↦ insert_at_full c v valid some_value absent e e'
    ]
  ]
]
