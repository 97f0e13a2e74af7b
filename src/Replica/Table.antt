-- ===== src/Replica/Table.antt =====
-- ReplicatedKeyValueStoreRDMA/Persistence/KeyValueStore/Cuckoo.hpp, class `Table`, with Node.hpp: one
-- block of nodes, eight to a bucket, and one more for each bucket where remote nodes keep a lock.
-- A key and a value are the 32-bit patterns of an `int`; the key 0 marks an empty slot.
use concurrent_computing.Prelude.{ℕ, ◌+◌, ◌*◌, Bool, not, Option, ◌==◌, update}
use concurrent_computing.Cuckoo.Table.{any, first}

abbrev pub entry_width : ℕ
entry_width = 8

abbrev pub empty_key : ℕ
empty_key = 0

pub record Node : Type 0 where
  pub key : ℕ
  pub val : ℕ

pub record Table : Type 0 where
  pub elements : ℕ → Node

-- `memset` to 0
unfoldable pub new : Table
new = record { elements = λ n. record { key = 0; val = 0 } }

abbrev pub is_occupied : Node → Bool
is_occupied element = not (element.key == empty_key)

-- Where the slot of a bucket stands in the block.
abbrev pub offset : ℕ → ℕ → ℕ
offset idx slot = idx * entry_width + slot

abbrev pub get_element : Table → ℕ → ℕ → Node
get_element t idx slot = t.elements (offset idx slot)

unfoldable pub set_element : Table → ℕ → ℕ → Node → Table
set_element t idx slot element = record { elements = update t.elements (offset idx slot) element }

unfoldable pub set_key : Table → ℕ → ℕ → ℕ → Table
set_key t idx slot key = record {
  elements =
      update t.elements (offset idx slot)
        (record { key = key; val = (get_element t idx slot).val });
}

unfoldable pub find : Table → ℕ → ℕ → Bool
unfolding any
find t key idx = any (λ i. (get_element t idx i).key == key) entry_width 0

-- `none` is the -1 of the source.
unfoldable pub find_slot : Table → ℕ → ℕ → Option ℕ
unfolding first
find_slot t key idx = first (λ i. (get_element t idx i).key == key) entry_width 0

unfoldable pub first_available : Table → ℕ → Option ℕ
unfolding first
first_available t idx = first (λ i. not (is_occupied (get_element t idx i))) entry_width 0

abbrev pub is_available : Table → ℕ → ℕ → Bool
is_available t idx slot = not (is_occupied (get_element t idx slot))
