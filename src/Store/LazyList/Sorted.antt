-- ===== src/Store/LazyList/Sorted.antt =====
-- What the operations of `LazyList` (ConcurrentList.cpp) do to a list with its two sentinels.
use concurrent_computing.Prelude.{
  ℕ, ◌<◌, ◌≤◌, ◌≡◌, refl, sym, ap, ◌∙◌, arith, Bool, true, false, not, ◌&&◌, ◌||◌, Option, none,
  some, List, [], ◌∷◌, ltb, ◌==◌, if◌then◌else◌, is_some, Bool-cases, inl, inr, ==→eq,
}
use concurrent_computing.Store.LazyList.{
  Result, is_false, is_true, abort_failure, Node, int_min, int_max, new_node, contains, can_lock,
  validate_link, behind, add_node, remove_node,
}

-- Ascending keys after `low`, no node marked, and INT_MAX last.
abbrev pub Ascends : ℕ → List Node → Type 0
Ascends low [] = low ≡ int_max
Ascends low (n ∷ ns) = (low < n.key) × (n.marked ≡ false) × Ascends n.key ns

-- The first node is INT_MIN.
abbrev pub IsValid : List Node → Type 0
IsValid [] = ⊥
IsValid (n ∷ ns) = (n.key ≡ int_min) × (n.marked ≡ false) × Ascends n.key ns

-- The value of a key, wherever its node stands.
unfoldable pub value_in : ℕ → List Node → Option ℕ
value_in key [] = none
value_in key (n ∷ ns) = if n.key == key then some n.val else value_in key ns

abbrev pub answer : Bool → Result
answer true = is_true
answer false = is_false

value_in-below :
    (low key : ℕ) (ns : List Node) → Ascends low ns → key ≤ low → value_in key ns ≡ none
unfolding value_in
value_in-below low key [] a le = refl
value_in-below low key (n ∷ ns) a le = ground (arith, value_in-below n.key key ns a.2)

pub contains-answer :
    (low key : ℕ) (ns : List Node)
    → Ascends low ns
    → low < key
    → key ≤ int_max
    → contains key ns ≡ some (answer (is_some (value_in key ns)))
unfolding contains value_in
contains-answer low key [] a lt le = absurd (omega arith)
contains-answer low key (n ∷ ns) a lt le =
    ground (arith, contains-answer n.key key ns a.2, value_in-below n.key key ns a.2)

abbrev pub is_abort : Result → Bool
is_abort abort_failure = true
is_abort _ = false

-- Another thread has the lock of the last node before the key, or of the first from the key on.
unfoldable pub is_busy : ℕ → List Node → Bool
is_busy key [] = false
is_busy key (pred ∷ []) = false
is_busy key (pred ∷ runner ∷ rest) =
    let later = is_busy key (runner ∷ rest) in
    if ltb runner.key key then later else pred.locked || runner.locked

-- An operation that gave up, and one that did its work: only `key` may have another value.
pub data Effect (before : List Node) (key : ℕ) (changes : Bool) (now : Option ℕ) (r : Result)
    (after : List Node) : Type 0 where
  aborted : r ≡ abort_failure → after ≡ before → Effect before key changes now r after
  worked :
      r ≡ answer changes
      → ((j : ℕ) → value_in j after ≡ (if j == key && changes then now else value_in j before))
      → Effect before key changes now r after

-- A run that returns a list that ascends from the same node.
pub record Runs (pred : Node) (ns : List Node) (key : ℕ) (changes : Bool) (now : Option ℕ)
    (run : Option (Result × List Node)) : Type 0 where
  pub result : Result
  pub tail : List Node
  pub returns : run ≡ some (result, pred ∷ tail)
  pub ascends : Ascends pred.key tail
  pub effect : Effect ns key changes now result tail
  pub gives_up : is_abort result ≡ is_busy key (pred ∷ ns)

module _ (target : ℕ) (le : target ≤ int_max) where
  further :
      (pred runner : Node) (rest : List Node)
      → runner.key < target
      → is_busy target (pred ∷ runner ∷ rest) ≡ is_busy target (runner ∷ rest)
  unfolding is_busy
  further pred runner rest lt = ground arith

  settled :
      (pred runner : Node) (rest : List Node) (r : Result)
      → ltb runner.key target ≡ false
      → is_abort r ≡ not (can_lock pred runner)
      → is_abort r ≡ is_busy target (pred ∷ runner ∷ rest)
  unfolding is_busy can_lock
  settled pred runner rest r at e = ground (arith, e)

  deeper :
      (pred runner : Node) (rest : List Node)
      → runner.key < target
      → pred.key < runner.key
      → runner.marked ≡ false
      → (changes : Bool) (now : Option ℕ) (run : Option (Result × List Node))
      → Runs runner rest target changes now run
      → Runs pred (runner ∷ rest) target changes now (behind pred run)
  unfolding value_in
  deeper pred runner rest lt below fresh changes now run r = record {
    result = r.result;
    tail = runner ∷ r.tail;
    returns = rw r.returns refl;
    ascends = (below, fresh, r.ascends);
    effect = elim r.effect [
      | aborted e same ↦ aborted e (ap (λ (ns : List Node). runner ∷ ns) same)
      | worked e values ↦ worked e (λ j. ground (arith, values j))
    ];
    gives_up = r.gives_up ∙ sym (further pred runner rest lt);
  }

  pub add_node-Runs :
      (val : ℕ) (pred : Node) (ns : List Node)
      → Ascends pred.key ns
      → pred.marked ≡ false
      → pred.key < target
      → Runs pred ns target
          (not (is_some (value_in target ns)))
          (some val)
          (add_node target val (pred ∷ ns))
  unfolding add_node value_in
  add_node-Runs val pred [] a fresh lt = absurd (omega arith)
  add_node-Runs val pred (runner ∷ rest) (below, live, a) fresh lt =
      let valid : validate_link pred runner ≡ true =
        unfold validate_link in rw (fresh, live) refl in
      elim (Bool-cases (ltb runner.key target)) [
        | inl before ↦
            let skip : (runner.key == target) ≡ false = ground arith in
            rw (before, skip)
              (deeper pred runner rest (ground arith) below live
                (not (is_some (value_in target rest))) (some val)
                (add_node target val (runner ∷ rest))
                (add_node-Runs val runner rest a live (ground arith)))
        | inr at ↦ elim (Bool-cases (can_lock pred runner)) [
          | inr taken ↦
              rw (at, taken)
                (record {
                  result = abort_failure;
                  tail = runner ∷ rest;
                  returns = refl;
                  ascends = (below, live, a);
                  effect = aborted refl refl;
                  gives_up = settled pred runner rest abort_failure at (rw taken refl);
                })
          | inl free ↦ elim (Bool-cases (runner.key == target)) [
            | inl same ↦
                rw (at, free, valid, same)
                  (record {
                    result = is_false;
                    tail = runner ∷ rest;
                    returns = refl;
                    ascends = (below, live, a);
                    effect = worked refl (λ j. ground arith);
                    gives_up = settled pred runner rest is_false at (rw free refl);
                  })
            | inr other ↦
                let beyond : target < runner.key = ground arith in
                let absent = value_in-below runner.key target rest a (omega arith) in
                rw (at, free, valid, other, absent)
                  (record {
                    result = is_true;
                    tail = new_node target val ∷ runner ∷ rest;
                    returns = refl;
                    ascends = (lt, refl, (beyond, live, a));
                    effect = worked refl (λ j. ground arith);
                    gives_up = settled pred runner rest is_true at (rw free refl);
                  })
          ]
        ]
      ]

  lower :
      (low' low : ℕ) (ns : List Node)
      → low' < low
      → low < int_max
      → Ascends low ns
      → Ascends low' ns
  lower low' low [] below small a = absurd (omega arith)
  lower low' low (n ∷ ns) below small a = (omega arith, a.1, a.2)

  pub remove_node-Runs :
      target < int_max
      → (pred : Node) (ns : List Node) → Ascends pred.key ns
      → pred.marked ≡ false
      → pred.key < target
      → Runs pred ns target (is_some (value_in target ns)) none (remove_node target (pred ∷ ns))
  unfolding remove_node value_in
  remove_node-Runs small pred [] a fresh lt = absurd (omega arith)
  remove_node-Runs small pred (runner ∷ rest) (below, live, a) fresh lt =
      let valid : validate_link pred runner ≡ true =
        unfold validate_link in rw (fresh, live) refl in
      elim (Bool-cases (ltb runner.key target)) [
        | inl before ↦
            let skip : (runner.key == target) ≡ false = ground arith in
            rw (before, skip)
              (deeper pred runner rest (ground arith) below live (is_some (value_in target rest))
                none (remove_node target (runner ∷ rest))
                (remove_node-Runs small runner rest a live (ground arith)))
        | inr at ↦ elim (Bool-cases (can_lock pred runner)) [
          | inr taken ↦
              rw (at, taken)
                (record {
                  result = abort_failure;
                  tail = runner ∷ rest;
                  returns = refl;
                  ascends = (below, live, a);
                  effect = aborted refl refl;
                  gives_up = settled pred runner rest abort_failure at (rw taken refl);
                })
          | inl free ↦ elim (Bool-cases (runner.key == target)) [
            | inl same ↦
                let here : runner.key ≡ target = ==→eq runner.key target same in
                let gone = value_in-below runner.key target rest a (omega arith) in
                rw (at, free, valid, same)
                  (record {
                    result = is_true;
                    tail = rest;
                    returns = refl;
                    ascends = lower pred.key runner.key rest below (omega arith) a;
                    effect = worked refl (λ j. elim (Bool-cases (j == target)) [
                      | inl e ↦ ground (arith, ==→eq j target e, gone)
                      | inr e ↦ ground arith
                    ]);
                    gives_up = settled pred runner rest is_true at (rw free refl);
                  })
            | inr other ↦
                let absent = value_in-below runner.key target rest a (ground arith) in
                rw (at, free, valid, other, absent)
                  (record {
                    result = is_false;
                    tail = runner ∷ rest;
                    returns = refl;
                    ascends = (below, live, a);
                    effect = worked refl (λ j. ground arith);
                    gives_up = settled pred runner rest is_false at (rw free refl);
                  })
          ]
        ]
      ]
