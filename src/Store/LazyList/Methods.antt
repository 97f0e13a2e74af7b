-- ===== src/Store/LazyList/Methods.antt =====
-- The operations of `LazyList` (ConcurrentList.cpp) on a whole list.
use concurrent_computing.Prelude.{
  ℕ, ◌<◌, ◌≤◌, ◌≡◌, refl, ap, arith, Bool, false, not, Option, none, some, List, [], ◌∷◌, ◌==◌,
  is_some,
}
use concurrent_computing.Store.LazyList.{
  Result, Node, int_min, int_max, contains, add_node, remove_node,
}
use concurrent_computing.Store.LazyList.Sorted.{
  IsValid, value_in, answer, is_abort, is_busy, Effect, aborted, worked, Runs, add_node-Runs,
  remove_node-Runs, contains-answer,
}

-- An operation on a whole list.
pub record Operates (ns : List Node) (key : ℕ) (changes : Bool) (now : Option ℕ)
    (run : Option (Result × List Node)) : Type 0 where
  pub result : Result
  pub after : List Node
  pub returns : run ≡ some (result, after)
  pub valid : IsValid after
  pub effect : Effect ns key changes now result after
  pub gives_up : is_abort result ≡ is_busy key ns

module _ (key : ℕ) where
  skip_head :
      (n : Node) (ns : List Node)
      → n.key ≡ int_min
      → 0 < key
      → value_in key (n ∷ ns) ≡ value_in key ns
  unfolding value_in
  skip_head n ns e pos = let skip : (n.key == key) ≡ false = ground arith in rw skip refl

  whole :
      (n : Node) (ns : List Node) (changes : Bool) (now : Option ℕ)
      (run : Option (Result × List Node))
      → IsValid (n ∷ ns)
      → 0 < key
      → Runs n ns key changes now run
      → Operates (n ∷ ns) key changes now run
  unfolding value_in
  whole n ns changes now run valid pos r =
      let skip : (n.key == key) ≡ false = let e = valid.0 in ground arith in
      record {
        result = r.result;
        after = n ∷ r.tail;
        returns = r.returns;
        valid = (valid.0, valid.1, r.ascends);
        effect = elim r.effect [
          | aborted e same ↦ aborted e (ap (λ (ms : List Node). n ∷ ms) same)
          | worked e values ↦ worked e (λ j. let z = valid.0 in ground (arith, values j))
        ];
        gives_up = r.gives_up;
      }

  -- With a list whose nodes ascend from INT_MIN to INT_MAX, none of them marked, and a key above
  -- INT_MIN: `add` returns and leaves such a list. It answers ABORT and
  -- changes nothing if another thread has the lock of one of the nodes around the key; else it answers whether the key was new and has added it in that case; all other
  -- keys are as before.
  pub add_node-Operates :
      (val : ℕ) (nodes : List Node)
      → IsValid nodes
      → 0 < key
      → key ≤ int_max
      → Operates nodes key (not (is_some (value_in key nodes))) (some val) (add_node key val nodes)
  add_node-Operates val [] valid pos le = absurd valid
  add_node-Operates val (n ∷ ns) valid pos le =
      let z = valid.0 in
      rw (skip_head n ns z pos) (
        whole n ns (not (is_some (value_in key ns))) (some val) (add_node key val (n ∷ ns)) valid
          pos (add_node-Runs key le val n ns valid.2 valid.1 (omega arith)))

  -- The same for `remove` and a key between INT_MIN and INT_MAX: the answer is whether the key was
  -- there, and then it is gone.
  pub remove_node-Operates :
      (nodes : List Node)
      → IsValid nodes
      → 0 < key
      → key < int_max
      → Operates nodes key (is_some (value_in key nodes)) none (remove_node key nodes)
  remove_node-Operates [] valid pos lt = absurd valid
  remove_node-Operates (n ∷ ns) valid pos lt =
      let z = valid.0 in
      rw (skip_head n ns z pos) (
        whole n ns (is_some (value_in key ns)) none (remove_node key (n ∷ ns)) valid pos
          (remove_node-Runs key (omega arith) lt n ns valid.2 valid.1 (omega arith)))

  -- The same list and key: `contains` returns whether the key is there.
  pub contains-value_in :
      (nodes : List Node)
      → IsValid nodes
      → 0 < key
      → key ≤ int_max
      → contains key nodes ≡ some (answer (is_some (value_in key nodes)))
  unfolding contains value_in
  contains-value_in [] valid pos le = absurd valid
  contains-value_in (n ∷ ns) valid pos le =
      let z = valid.0 in ground (arith, contains-answer n.key key ns valid.2)
