-- ===== src/Replica/Methods/Insertion.antt =====
-- The private `insert` of ReplicatedKeyValueStoreRDMA/Persistence/KeyValueStore/Cuckoo.hpp, run by one
-- thread.
use concurrent_computing.Prelude.{
  ℕ, ◌≡◌, ◌≢◌, ◌⊎◌, refl, arith, Option, none, some, List, [], Option-cases, inl, inr,
}
use concurrent_computing.Cuckoo.Search.{left, right}
use concurrent_computing.Replica.Table.{offset, find_slot, first_available}
use concurrent_computing.Replica.State.{Cuckoo, hash1, hash2, ◌>>=◌}
use concurrent_computing.Replica.Locks.Runs.{holding, lock_two_run, unlock_two_run}
use concurrent_computing.Replica.Search.{Point}
use concurrent_computing.Replica.Search.Bounds.{search_ends}
use concurrent_computing.Replica.Insert.{
  InsertResult, resize, retry, duplicate, success, run_search, path_of, make_room, find_room,
  insert_at,
}
use concurrent_computing.Replica.Contents.{Holds, IsValid, Near, val_at}
use concurrent_computing.Replica.Methods.Slots.{
  find_slot-some, find_slot-none, first_available-some,
}
use concurrent_computing.Replica.Methods.Displace.{Keeps, Keeps-refl, Grants, both}
use concurrent_computing.Replica.Methods.Paths.{take_path-Grants, path_of-IsPath}

abbrev pub Absent : Cuckoo → ℕ → Type 0
Absent c k = (v : ℕ) → Holds c k v → ⊥

abbrev pub Present : Cuckoo → ℕ → Type 0
Present c k = (v : ℕ) × Holds c k v

-- What the answer says of the store before.
abbrev pub Answer : Cuckoo → ℕ → InsertResult → Type 0
Answer c k (duplicate s i j) = Present c k
Answer c k _ = Absent c k

abbrev seeded : Cuckoo → ℕ → Cuckoo
seeded c seed = record c { seed = seed }

seeded-Keeps : (c : Cuckoo) (seed : ℕ) → IsValid c → Keeps c (seeded c seed)
seeded-Keeps c seed valid = record {
  buckets = refl;
  valid = record { roomy = valid.roomy; placed = valid.placed; distinct = valid.distinct };
  contents = λ w v h. (λ q. q, λ q. q);
}

run_search_run :
    (c : Cuckoo) (idx1 idx2 : ℕ)
    → (found : Option Point) × (seed : ℕ) × (run_search idx1 idx2 (holding c [])
        ≡ some (found, holding (seeded c seed) []))
unfolding run_search
run_search_run c idx1 idx2 =
    let (r, run) = search_ends (holding c []) idx1 idx2 in (r.0, r.1, rw (run, run_search))

make_room-Grants :
    (c : Cuckoo) (k : ℕ)
    → IsValid c
    → Absent c k
    → (r : InsertResult) × (d : Cuckoo) × (make_room
          (hash1 c.buckets k)
          (hash2 c.buckets k)
          (holding c [])
        ≡ some (r, d))
      × Grants c k r d
unfolding make_room
make_room-Grants c k valid absent =
    let (found, seed, run) = run_search_run c (hash1 c.buckets k) (hash2 c.buckets k) in
    elim (Option-cases found) [
      | inl e ↦ (
        resize,
        holding (seeded c seed) [],
        rw (run, ◌>>=◌, e),
        record {
          base = seeded c seed;
          state = refl;
          keeps = seeded-Keeps c seed valid;
          vacancy = tt;
        },
      )
      | inr (point, e) ↦
          let path =
            path_of (holding (seeded c seed) []) (hash1 c.buckets k) (hash2 c.buckets k) point in
          let (r, d, taken, grants) =
            take_path-Grants c (seeded c seed) k path (seeded-Keeps c seed valid)
              (path_of-IsPath (holding (seeded c seed) []) k valid.roomy point) in
          (r, d, rw (run, ◌>>=◌, e) taken, grants)
    ]

-- A result that needs no displacement.
pub record Settled (c : Cuckoo) (k : ℕ) : Type 0 where
  pub result : InsertResult
  pub found : find_room c k (hash1 c.buckets k) (hash2 c.buckets k) ≡ some result
  pub grants : Grants c k result (holding c (both c.buckets k))
  pub answer : Answer c k result

module _ (c : Cuckoo) (k : ℕ) (valid : IsValid c) where
  pub missing_from :
      find_slot c.table k (hash1 c.buckets k) ≡ none
      → find_slot c.table k (hash2 c.buckets k) ≡ none
      → Absent c k
  missing_from e e' v (n, inl q, h, h') = find_slot-none c.table k (hash1 c.buckets k) e n q h
  missing_from e e' v (n, inr q, h, h') = find_slot-none c.table k (hash2 c.buckets k) e' n q h

  find_room-none :
      find_slot c.table k (hash1 c.buckets k) ≡ none
      → find_slot c.table k (hash2 c.buckets k) ≡ none
      → first_available c.table (hash1 c.buckets k) ≡ none
      → first_available c.table (hash2 c.buckets k) ≡ none
      → find_room c k (hash1 c.buckets k) (hash2 c.buckets k) ≡ none
  unfolding find_room
  find_room-none e e' a a' = rw (e, e', a, a', find_room)

  pub Settled-or-Absent :
      Settled c k ⊎ ((find_room c k (hash1 c.buckets k) (hash2 c.buckets k) ≡ none) × Absent c k)
  unfolding find_room
  Settled-or-Absent = elim (Option-cases (find_slot c.table k (hash1 c.buckets k))) [
    | inr (j, e) ↦
        let (lt, h) = find_slot-some c.table k (hash1 c.buckets k) j e in
        let near : Near c.buckets k (offset (hash1 c.buckets k) j) = inl (omega arith) in
        inl (record {
          result = duplicate left (hash1 c.buckets k) j;
          found = rw (e, find_room);
          grants = record {
            base = c;
            state = refl;
            keeps = Keeps-refl valid;
            vacancy = (lt, near, h);
          };
          answer = (
            val_at c (offset (hash1 c.buckets k) j),
            (offset (hash1 c.buckets k) j, near, h, refl),
          );
        })
    | inl e ↦ elim (Option-cases (find_slot c.table k (hash2 c.buckets k))) [
      | inr (j, e') ↦
          let (lt, h) = find_slot-some c.table k (hash2 c.buckets k) j e' in
          let near : Near c.buckets k (offset (hash2 c.buckets k) j) = inr (omega arith) in
          inl (record {
            result = duplicate right (hash2 c.buckets k) j;
            found = rw (e, e', find_room);
            grants = record {
              base = c;
              state = refl;
              keeps = Keeps-refl valid;
              vacancy = (lt, near, h);
            };
            answer = (
              val_at c (offset (hash2 c.buckets k) j),
              (offset (hash2 c.buckets k) j, near, h, refl),
            );
          })
      | inl e' ↦ free_slot e e'
    ]
  ]
    where
      free_slot :
          find_slot c.table k (hash1 c.buckets k) ≡ none
          → find_slot c.table k (hash2 c.buckets k) ≡ none
          → Settled c k
            ⊎ ((find_room c k (hash1 c.buckets k) (hash2 c.buckets k) ≡ none) × Absent c k)
      free_slot e e' = elim (Option-cases (first_available c.table (hash1 c.buckets k))) [
        | inr (j, a) ↦
            let (lt, h) = first_available-some c.table (hash1 c.buckets k) j a in
            inl (record {
              result = success left (hash1 c.buckets k) j;
              found = rw (e, e', a, find_room);
              grants = record {
                base = c;
                state = refl;
                keeps = Keeps-refl valid;
                vacancy = (lt, inl (omega arith), h);
              };
              answer = missing_from e e';
            })
        | inl a ↦ elim (Option-cases (first_available c.table (hash2 c.buckets k))) [
          | inr (j, a') ↦
              let (lt, h) = first_available-some c.table (hash2 c.buckets k) j a' in
              inl (record {
                result = success right (hash2 c.buckets k) j;
                found = rw (e, e', a, a', find_room);
                grants = record {
                  base = c;
                  state = refl;
                  keeps = Keeps-refl valid;
                  vacancy = (lt, inr (omega arith), h);
                };
                answer = missing_from e e';
              })
          | inl a' ↦ inr (find_room-none e e' a a', missing_from e e')
        ]
      ]

  find_room-holding :
      (is : List ℕ)
      → find_room (holding c is) k (hash1 c.buckets k) (hash2 c.buckets k)
        ≡ find_room c k (hash1 c.buckets k) (hash2 c.buckets k)
  unfolding find_room
  find_room-holding is = refl

  pub found_run :
      (s : Settled c k)
      → insert_at k (hash1 c.buckets k) (hash2 c.buckets k) (holding c [])
        ≡ some (s.result, holding c (both c.buckets k))
  unfolding insert_at
  found_run s = rw (
    lock_two_run c (hash1 c.buckets k) (hash2 c.buckets k),
    ◌>>=◌,
    find_room-holding (both c.buckets k),
    s.found,
  )

  module _ (some_key : k ≢ 0) where
    absent_answer : (r : InsertResult) {d : Cuckoo} → Grants c k r d → Absent c k → Answer c k r
    absent_answer resize g absent = absent
    absent_answer retry g absent = absent
    absent_answer (success s i j) g absent = absent
    absent_answer (duplicate s i j) g absent = (
      val_at g.base (offset i j),
      (g.keeps.contents k (val_at g.base (offset i j)) some_key).0
          (offset i j, g.vacancy.1, g.vacancy.2, refl),
    )

    -- The private `insert` returns from every well-formed store in which no spin lock is held, for
    -- every key but 0, whatever path the search finds. It keeps the contents, and says whether the key was there. With
    -- DUPLICATE it gives the key's slot, and with SUCCESS an empty slot of one of the key's buckets,
    -- each with the locks of both buckets held; otherwise it holds no lock.
    pub insert_at-Grants :
        (r : InsertResult) × (d : Cuckoo) × (insert_at k
            (hash1 c.buckets k)
            (hash2 c.buckets k)
            (holding c [])
          ≡ some (r, d))
        × Grants c k r d
        × Answer c k r
    unfolding insert_at
    insert_at-Grants = elim Settled-or-Absent [
      | inl s ↦ (s.result, holding c (both c.buckets k), found_run s, s.grants, s.answer)
      | inr (full, absent) ↦
          let (r, d, run, grants) = make_room-Grants c k valid absent in
          (
            r,
            d,
            rw
                (
                  lock_two_run c (hash1 c.buckets k) (hash2 c.buckets k),
                  ◌>>=◌,
                  find_room-holding (both c.buckets k),
                  full,
                  unlock_two_run c (hash1 c.buckets k) (hash2 c.buckets k),
                )
                run,
            grants,
            absent_answer r grants absent,
          )
    ]
