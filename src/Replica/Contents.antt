-- ===== src/Replica/Contents.antt =====
-- What the store of ReplicatedKeyValueStoreRDMA/Persistence/KeyValueStore/Cuckoo.hpp holds: a value
-- for each key, in a cell of one of the key's two buckets. A cell is a place of the block of nodes.
use concurrent_computing.Prelude.{ℕ, ◌*◌, ◌/◌, ◌<◌, ◌≡◌, ◌≢◌, ◌⊎◌, refl, arith, update}
use concurrent_computing.Replica.Table.{Node, entry_width, set_element, set_key, offset}
use concurrent_computing.Replica.State.{Cuckoo, hash1, hash2}
use concurrent_computing.Replica.Insert.{put_at, clear_at}

abbrev pub key_at : Cuckoo → ℕ → ℕ
key_at c n = (c.table.elements n).key

abbrev pub val_at : Cuckoo → ℕ → ℕ
val_at c n = (c.table.elements n).val

-- The cells of the buckets; the ones after them are for locks.
abbrev pub cells : Cuckoo → ℕ
cells c = c.buckets * entry_width

abbrev pub Near : ℕ → ℕ → ℕ → Type 0
Near buckets k n = (n / entry_width ≡ hash1 buckets k) ⊎ (n / entry_width ≡ hash2 buckets k)

-- The key stands in one of its buckets, with this value.
abbrev pub Holds : Cuckoo → ℕ → ℕ → Type 0
Holds c k v = (n : ℕ) × Near c.buckets k n × (key_at c n ≡ k) × (val_at c n ≡ v)

pub record IsValid (c : Cuckoo) : Type 0 where
  pub roomy : 0 < c.buckets
  pub placed : (n : ℕ) → n < cells c → key_at c n ≢ 0 → Near c.buckets (key_at c n) n
  pub distinct :
      (n m : ℕ) → n < cells c → m < cells c → key_at c n ≢ 0 → key_at c n ≡ key_at c m → n ≡ m

pub hash1-lt : (buckets k : ℕ) → 0 < buckets → hash1 buckets k < buckets
unfolding hash1
hash1-lt buckets k h = grind arith

pub hash2-lt : (buckets k : ℕ) → 0 < buckets → hash2 buckets k < buckets
unfolding hash2
hash2-lt buckets k h = grind arith

-- A cell of one of a key's buckets is one of the buckets' cells.
pub Near-lt : (b k n : ℕ) → 0 < b → Near b k n → n < b * entry_width
Near-lt b k n h near = ground (arith, hash1-lt b k, hash2-lt b k)

-- One cell of the block changed.
abbrev pub with_cell : ℕ → Node → Cuckoo → Cuckoo
with_cell n e c = record c { table = record { elements = update c.table.elements n e } }

abbrev pub emptied : Cuckoo → ℕ → Node
emptied c n = record { key = 0; val = val_at c n }

pub put_at-with_cell :
    (idx slot : ℕ) (e : Node) (c : Cuckoo) → put_at idx slot e c ≡ with_cell (offset idx slot) e c
unfolding put_at set_element
put_at-with_cell idx slot e c = refl

pub clear_at-with_cell :
    (idx slot : ℕ) (c : Cuckoo)
    → clear_at idx slot c ≡ with_cell (offset idx slot) (emptied c (offset idx slot)) c
unfolding clear_at set_key
clear_at-with_cell idx slot c = refl
