-- ===== src/Store/LazyList.antt =====
-- DistributedKeyValueStore/Persistence/KeyValueStore/ConcurrentList.cpp, class `LazyList`, and its
-- Node.hpp and Result.hpp. The list is what can be reached from `head`. An operation runs without a
-- step of another thread in between, but other threads may hold locks of nodes.
-- A key is the `int` plus 2 ^ 31, so that INT_MIN is 0.
use concurrent_computing.Prelude.{
  ℕ, zero, suc, ◌+◌, ◌-◌, Bool, true, false, not, ◌&&◌, ◌||◌, Option, none, some, List, [], ◌∷◌,
  length, ltb, ◌==◌, if◌then◌else◌,
}
pub mod Sorted
pub mod Methods

pub data Result : Type 0 where
  is_false is_true abort_failure : Result

pub record Node : Type 0 where
  pub key : ℕ
  pub val : ℕ
  pub marked : Bool
  pub locked : Bool

abbrev pub int_min : ℕ
int_min = 0

abbrev pub int_max : ℕ
int_max = 4294967295

abbrev pub new_node : ℕ → ℕ → Node
new_node key val = record { key = key; val = val; marked = false; locked = false }

-- The constructor.
unfoldable pub new_list : List Node
new_list = new_node int_min int_min ∷ new_node int_max int_max ∷ []

-- `none` for a step past the last node.
unfoldable pub contains : ℕ → List Node → Option Result
contains key [] = none
contains key (runner ∷ rest) =
    let later = contains key rest in
    if ltb runner.key key
    then later
    else some (if runner.key == key && not runner.marked then is_true else is_false)

-- The two `TRY_LOCK`, and `validateLink` for a link that is there.
unfoldable pub can_lock : Node → Node → Bool
can_lock pred runner = not pred.locked && not runner.locked

unfoldable pub validate_link : Node → Node → Bool
validate_link prev next = not prev.marked && not next.marked

-- What is behind `pred` after an operation, in front of it.
abbrev pub behind : Node → Option (Result × List Node) → Option (Result × List Node)
behind pred none = none
behind pred (some (r, nodes)) = some (r, pred ∷ nodes)

-- `none` for a step past the last node, and for a link that stays invalid, on which the loop goes on.
unfoldable pub add_node : ℕ → ℕ → List Node → Option (Result × List Node)
unfolding can_lock validate_link
add_node target val [] = none
add_node target val (pred ∷ []) = none
add_node target val (pred ∷ runner ∷ rest) =
    let later = behind pred (add_node target val (runner ∷ rest)) in
    if ltb runner.key target
    then later
    else if not (can_lock pred runner)
    then some (abort_failure, pred ∷ runner ∷ rest)
    else if not (validate_link pred runner)
    then none
    else if not (runner.key == target)
    then some (is_true, pred ∷ new_node target val ∷ runner ∷ rest)
    else some (is_false, pred ∷ runner ∷ rest)

unfoldable pub remove_node : ℕ → List Node → Option (Result × List Node)
unfolding can_lock validate_link
remove_node key [] = none
remove_node key (pred ∷ []) = none
remove_node key (pred ∷ runner ∷ rest) =
    let later = behind pred (remove_node key (runner ∷ rest)) in
    if ltb runner.key key
    then later
    else if not (can_lock pred runner)
    then some (abort_failure, pred ∷ runner ∷ rest)
    else if not (validate_link pred runner)
    then none
    else if runner.key == key
    then some (is_true, pred ∷ rest)
    else some (is_false, pred ∷ runner ∷ rest)

-- The nodes without the two at the ends.
unfoldable pub list_size : List Node → ℕ
list_size nodes = length nodes - 2
