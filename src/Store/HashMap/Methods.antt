-- ===== src/Store/HashMap/Methods.antt =====
-- What `ConcurrentHashMap` (ConcurrentHashMap.cpp) promises of its keys.
use concurrent_computing.Prelude.{
  ℕ, ◌<◌, ◌≤◌, ◌≡◌, refl, ap, ◌∙◌, arith, Bool, false, not, ◌&&◌, Option, none, some, List, ◌==◌,
  ==→eq, if◌then◌else◌, is_some, Bool-cases, inl, inr, update,
}
use concurrent_computing.Store.LazyList.{
  Result, abort_failure, Node, int_max, add_node, remove_node,
}
use concurrent_computing.Store.LazyList.Sorted.{
  IsValid, value_in, answer, is_abort, is_busy, aborted, worked,
}
use concurrent_computing.Store.LazyList.Methods.{
  Operates, add_node-Operates, remove_node-Operates, contains-value_in,
}
use concurrent_computing.Store.HashMap.{
  HashMap, translate, with_list, map_contains, map_add, map_remove,
}

-- The value that goes with a key.
unfoldable pub value_at : HashMap → ℕ → Option ℕ
value_at m key = value_in key (m.lists (translate m key))

-- An operation on the map: it gave up, or did its work on one key.
pub data MapEffect (m : HashMap) (key : ℕ) (changes : Bool) (now : Option ℕ) (r : Result)
    (m' : HashMap) : Type 0 where
  map_aborted :
      r ≡ abort_failure
      → ((j : ℕ) → value_at m' j ≡ value_at m j)
      → MapEffect m key changes now r m'
  map_worked :
      r ≡ answer changes
      → ((j : ℕ) → value_at m' j ≡ (if j == key && changes then now else value_at m j))
      → MapEffect m key changes now r m'

pub record Changes (m : HashMap) (key : ℕ) (changes : Bool) (now : Option ℕ)
    (run : Option (Result × HashMap)) : Type 0 where
  pub result : Result
  pub after : HashMap
  pub returns : run ≡ some (result, after)
  pub valid : (i : ℕ) → IsValid (after.lists i)
  pub effect : MapEffect m key changes now result after
  pub gives_up : is_abort result ≡ is_busy key (m.lists (translate m key))

module _ (m : HashMap) (valid : (i : ℕ) → IsValid (m.lists i)) (key : ℕ) where
  abbrev put_back : List Node → HashMap
  put_back nodes = record m { lists = update m.lists (translate m key) nodes }

  put_back-value :
      (nodes : List Node) (changes : Bool) (now : Option ℕ)
      → ((j : ℕ)
          → value_in j nodes
            ≡ (if j == key && changes then now else value_in j (m.lists (translate m key))))
      → (j : ℕ) → value_at (put_back nodes) j ≡ (if j == key && changes then now else value_at m j)
  unfolding value_at translate
  put_back-value nodes changes now values j = elim (Bool-cases (j == key)) [
    | inl same ↦ let e : j ≡ key = ==→eq j key same in ground (arith, e, values j)
    | inr other ↦ ground (arith, values j)
  ]

  kept :
      (nodes : List Node)
      → nodes ≡ m.lists (translate m key)
      → Option ℕ
      → (j : ℕ) → value_at (put_back nodes) j ≡ value_at m j
  kept nodes same now j =
      put_back-value nodes false now (λ k. ap (value_in k) same ∙ ground arith) j ∙ ground arith

  on_map :
      (changes : Bool) (now : Option ℕ) (run : Option (Result × List Node))
      → Operates (m.lists (translate m key)) key changes now run
      → Changes m key changes now (with_list m (translate m key) run)
  on_map changes now run o = record {
    result = o.result;
    after = put_back o.after;
    returns = rw o.returns refl;
    valid = λ i. ground (arith, valid i, o.valid);
    effect = elim o.effect [
      | aborted e same ↦ map_aborted e (kept o.after same now)
      | worked e values ↦ map_worked e (put_back-value o.after changes now values)
    ];
    gives_up = o.gives_up;
  }

  -- In a map of well-formed lists, with a key above INT_MIN: `add` returns. If another thread has the
  -- lock of the last node before the key in its list, or of the first node from the key on, it
  -- answers ABORT and changes nothing. If not, it answers whether the key was new and has added it in
  -- that case, and all other keys are as before. The lists stay well formed.
  pub map_add-Changes :
      (val : ℕ)
      → 0 < key
      → key ≤ int_max
      → Changes m key (not (is_some (value_at m key))) (some val) (map_add m key val)
  unfolding map_add value_at
  map_add-Changes val pos le =
      on_map (not (is_some (value_at m key))) (some val)
        (add_node key val (m.lists (translate m key)))
        (add_node-Operates key val (m.lists (translate m key)) (valid (translate m key)) pos le)

  -- In a map of well-formed lists, with a key between INT_MIN and INT_MAX: `remove` returns. If
  -- another thread has the lock of the last node before the key in its list, or of the first node
  -- from the key on, it answers ABORT and changes nothing. If not, it answers whether the key was
  -- there and has taken it out, and all other keys are as before. The lists stay well formed.
  pub map_remove-Changes :
      0 < key → key < int_max → Changes m key (is_some (value_at m key)) none (map_remove m key)
  unfolding map_remove value_at
  map_remove-Changes pos lt =
      on_map (is_some (value_at m key)) none (remove_node key (m.lists (translate m key)))
        (remove_node-Operates key (m.lists (translate m key)) (valid (translate m key)) pos lt)

  -- In a map of well-formed lists, with a key above INT_MIN, `contains` returns whether the map has
  -- the key.
  pub map_contains-value_at :
      0 < key → key ≤ int_max → map_contains m key ≡ some (answer (is_some (value_at m key)))
  unfolding map_contains value_at
  map_contains-value_at pos le =
      contains-value_in key (m.lists (translate m key)) (valid (translate m key)) pos le
