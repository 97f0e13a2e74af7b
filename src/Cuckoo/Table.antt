-- ===== src/Cuckoo/Table.antt =====
-- CuckooHash/Cuckoo.hpp, class `Table`: buckets of WIDTH slots, with 0 in an empty slot.
-- A value is the 32-bit pattern of an `int`, which is what the hash functions read.
use concurrent_computing.Prelude.{
  ℕ, zero, suc, Bool, true, false, not, Option, none, some, ◌==◌, update,
}

abbrev pub width : ℕ
width = 6

abbrev pub empty_slot : ℕ
empty_slot = 0

pub record Table : Type 0 where
  pub elements : ℕ → ℕ → ℕ

-- The value-initialised arrays of the constructor.
unfoldable pub new : Table
new = record { elements = λ idx slot. empty_slot }

abbrev pub is_occupied : ℕ → Bool
is_occupied val = not (val == empty_slot)

-- The slots `i, i + 1, ...` of a bucket, `n` of them: the loops of `find` and `findSlot`.
unfoldable pub any : (ℕ → Bool) → ℕ → ℕ → Bool
any p zero i = false
any p (suc n) i = elim (p i) [ true ↦ true | false ↦ any p n (suc i) ]

unfoldable pub first : (ℕ → Bool) → ℕ → ℕ → Option ℕ
first p zero i = none
first p (suc n) i = elim (p i) [ true ↦ some i | false ↦ first p n (suc i) ]

unfoldable pub find : Table → ℕ → ℕ → Bool
unfolding any
find t val idx = any (λ i. t.elements idx i == val) width 0

-- `none` is the -1 of the source.
unfoldable pub find_slot : Table → ℕ → ℕ → Option ℕ
unfolding first
find_slot t val idx = first (λ i. t.elements idx i == val) width 0

unfoldable pub first_available : Table → ℕ → Option ℕ
unfolding first
first_available t idx = first (λ i. not (is_occupied (t.elements idx i))) width 0

abbrev pub is_available : Table → ℕ → ℕ → Bool
is_available t idx slot = not (is_occupied (t.elements idx slot))

-- `elements[idx][slot] = val`
unfoldable pub write : Table → ℕ → ℕ → ℕ → Table
write t idx slot val = record {
  elements = update t.elements idx (update (t.elements idx) slot val);
}
