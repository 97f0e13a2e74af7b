-- ===== src/Bank/Map/Methods.antt =====
-- Banker/bankers-map/src/simplemap.h: what the methods of `simplemap_t` do to the pairs of the map.
use concurrent_computing.Prelude.{
  ℕ, zero, suc, ◌+◌, ◌<◌, ◌≡◌, refl, sym, ◌∙◌, arith, Bool, true, false, not, ◌&&◌, Option, none,
  some, [], ◌++◌, ltb, leb, ◌==◌, if◌then◌else◌, is_some, Bool-cases, Option-cases, ==→eq, inl, inr,
}
use concurrent_computing.Bank.Chain.{insert_in, update_in, remove_in}
use concurrent_computing.Bank.Map.{
  Simplemap, hash, insert, update_value, remove, lookup, apply, apply_from,
}
use concurrent_computing.Bank.Map.Sorted.{
  value_in, seek-value_in, insert_in-answer, insert_in-Ascends, insert_in-value, update_in-answer,
  update_in-Ascends, update_in-value, remove_in-answer, remove_in-Ascends, remove_in-value, visits,
  list_of, visits-append, visits-list_of,
}
use concurrent_computing.Bank.Map.Contents.{value_at, IsValid, rechain-IsValid, rechain-value_at}

-- The map with one pair changed, and all other pairs as they were.
pub record Sets {V : Type 0} (m : Simplemap V) (key : ℕ) (changes : Bool) (now : Option V)
    (m' : Simplemap V) : Type 0 where
  pub buckets : m'.buckets ≡ m.buckets
  pub valid : IsValid m'
  pub pairs : (j : ℕ) → value_at m' j ≡ (if j == key && changes then now else value_at m j)

module _ {V : Type 0} (m : Simplemap V) (valid : IsValid m) (key : ℕ) where
  -- `lookup` returns the value of the key and true, or `null` and false if the map does not have it.
  pub lookup-value_at :
      (null : V)
      → lookup null m key
        ≡ (elim (value_at m key) [ none ↦ (null, false) | some val ↦ (val, true) ])
  unfolding lookup value_at
  lookup-value_at null =
      ground (arith, seek-value_in 0 key (m.values (hash m key)) (valid.sorted (hash m key)))

  -- `insert` adds the pair if the map does not have the key and says whether it did; all other pairs
  -- stay, and so does the order of the buckets.
  pub insert-Sets :
      (val : V)
      → ((insert m key val).0 ≡ not (is_some (value_at m key)))
        × Sets m key (not (is_some (value_at m key))) (some val) (insert m key val).1
  unfolding insert value_at
  insert-Sets val =
      let ns = m.values (hash m key) in
      let values = λ (j : ℕ). insert_in-value 0 key j val ns (valid.sorted (hash m key)) in
      (
        insert_in-answer 0 key val ns (valid.sorted (hash m key)),
        record {
          buckets = refl;
          valid =
              rechain-IsValid m valid key (insert_in key val ns).1 (not (is_some (value_at m key)))
                (some val) values
                (insert_in-Ascends 0 key val ns (valid.sorted (hash m key)) (omega arith));
          pairs =
              rechain-value_at m valid key (insert_in key val ns).1 (not (is_some (value_at m key)))
                (some val) values;
        },
      )

  -- `update` replaces the value of a key that the map has and says whether it has it; all other
  -- pairs stay, and so does the order of the buckets.
  pub update_value-Sets :
      (val : V)
      → ((update_value m key val).0 ≡ is_some (value_at m key))
        × Sets m key (is_some (value_at m key)) (some val) (update_value m key val).1
  unfolding update_value value_at
  update_value-Sets val =
      let ns = m.values (hash m key) in
      let values = λ (j : ℕ). update_in-value 0 key j val ns (valid.sorted (hash m key)) in
      (
        update_in-answer 0 key val ns (valid.sorted (hash m key)),
        record {
          buckets = refl;
          valid =
              rechain-IsValid m valid key (update_in key val ns).1 (is_some (value_at m key))
                (some val) values (update_in-Ascends 0 key val ns (valid.sorted (hash m key)));
          pairs =
              rechain-value_at m valid key (update_in key val ns).1 (is_some (value_at m key))
                (some val) values;
        },
      )

  -- `remove` takes the key out and says whether it was there; all other pairs stay, and so does the
  -- order of the buckets.
  pub remove-Sets :
      ((remove m key).0 ≡ is_some (value_at m key)) × Sets m key true none (remove m key).1
  unfolding remove value_at
  remove-Sets =
      let ns = m.values (hash m key) in
      let values : (j : ℕ)
          → value_in j (remove_in key ns).1 ≡ (if j == key && true then none else value_in j ns) =
        λ j. ground (arith, remove_in-value 0 key j ns (valid.sorted (hash m key))) in
      (
        remove_in-answer 0 key ns (valid.sorted (hash m key)),
        record {
          buckets = refl;
          valid =
              rechain-IsValid m valid key (remove_in key ns).1 true none values
                (remove_in-Ascends 0 key ns (valid.sorted (hash m key)));
          pairs = rechain-value_at m valid key (remove_in key ns).1 true none values;
        },
      )

  chain-visits :
      (i : ℕ) → visits key (m.values i) ≡ (if hash m key == i then list_of (value_at m key) else [])
  unfolding value_at
  chain-visits i =
      let sorted = visits-list_of 0 key (m.values i) (valid.sorted i) in
      elim (Bool-cases (hash m key == i)) [
        | inl here ↦
            let e : i ≡ hash m key = sym (==→eq (hash m key) i here) in rw here (sorted ∙ rw e refl)
        | inr there ↦ elim (Option-cases (value_in key (m.values i))) [
          | inl absent ↦ rw there (sorted ∙ rw absent refl)
          | inr (v, e) ↦ absurd (ground (arith, valid.placed i key))
        ]
      ]

  list_of-append : (o : Option V) → list_of o ++ [] ≡ list_of o
  list_of-append none = refl
  list_of-append (some v) = refl

  apply_from-visits :
      (n i : ℕ)
      → visits key (apply_from m n i)
        ≡ (if leb i (hash m key) && ltb (hash m key) (i + n) then list_of (value_at m key) else [])
  unfolding apply_from visits
  apply_from-visits zero i = ground arith
  apply_from-visits (suc n) i =
      rw
        (
          visits-append key (m.values i) (apply_from m n (suc i)),
          chain-visits i,
          apply_from-visits n (suc i),
        )
        (ground (arith, list_of-append (value_at m key)))

  -- `apply` calls its function once with a key that the map has, with its value, and never with
  -- another key.
  pub apply-visits : visits key (apply m) ≡ list_of (value_at m key)
  unfolding apply
  apply-visits =
      let in_range : hash m key < m.buckets = ground (arith, valid.roomy) in
      ground (arith, apply_from-visits m.buckets 0)
