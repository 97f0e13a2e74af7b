-- ===== src/Store/HashMap.antt =====
-- DistributedKeyValueStore/Persistence/KeyValueStore/ConcurrentHashMap.cpp.
-- A key is the `int` plus 2 ^ 31, as in the lists.
use concurrent_computing.Prelude.{ℕ, zero, suc, ◌+◌, ◌%◌, ◌^◌, Option, none, some, List, update}
use concurrent_computing.Store.LazyList.{
  Result, Node, new_list, contains, add_node, remove_node, list_size,
}
pub mod Methods

pub record HashMap : Type 0 where
  pub buckets : ℕ
  pub lists : ℕ → List Node

unfoldable pub new_map : ℕ → HashMap
new_map buckets = record { buckets = buckets; lists = λ i. new_list }

-- The `int` as an `unsigned int`, by the number of buckets.
unfoldable pub translate : HashMap → ℕ → ℕ
translate m key = (key + 2 ^ 31) % 2 ^ 32 % m.buckets

-- A list put back into its bucket.
abbrev pub with_list : HashMap → ℕ → Option (Result × List Node) → Option (Result × HashMap)
with_list m i none = none
with_list m i (some (r, nodes)) = some (r, record m { lists = update m.lists i nodes })

unfoldable pub map_contains : HashMap → ℕ → Option Result
map_contains m key = contains key (m.lists (translate m key))

unfoldable pub map_add : HashMap → ℕ → ℕ → Option (Result × HashMap)
map_add m key val = with_list m (translate m key) (add_node key val (m.lists (translate m key)))

unfoldable pub map_remove : HashMap → ℕ → Option (Result × HashMap)
map_remove m key = with_list m (translate m key) (remove_node key (m.lists (translate m key)))

-- The lists `i, i + 1, ...`, `n` of them.
unfoldable pub size_of_lists : HashMap → ℕ → ℕ → ℕ
size_of_lists m zero i = 0
size_of_lists m (suc n) i = list_size (m.lists i) + size_of_lists m n (suc i)

unfoldable pub map_size : HashMap → ℕ
map_size m = size_of_lists m m.buckets 0
