-- ===== src/Cuckoo/Resize.antt =====
-- CuckooHash/Cuckoo.hpp: `resize`.
pub mod Moves
pub mod Kept
pub mod Loss
use concurrent_computing.Prelude.{
  ℕ, zero, suc, ◌*◌, ◌/◌, ◌%◌, ◌^◌, true, false, not, Option, none, some, ◌==◌, if◌then◌else◌,
}
use concurrent_computing.Cuckoo.Table.{Table, new, width, is_occupied, first_available, write}
use concurrent_computing.Cuckoo.State.{Cuckoo, M, get, ◌>>=◌, ◌>>◌, write_lock, global_unlock}
use concurrent_computing.Cuckoo.Search.{Side, left, right, home}

-- One value put into its bucket of a new table. If the bucket is full, `isAvailable` returns -1, and
-- the write outside the bucket is a fault.
unfoldable pub carry : ℕ → Side → ℕ → Table → Option Table
unfolding home first_available write
carry buckets side val t =
    if is_occupied val
    then (elim (first_available t (home buckets side val)) [
      | none ↦ none
      | some slot ↦ some (write t (home buckets side val) slot val)
    ])
    else some t

pub record Tables : Type 0 where
  pub t1 : Table
  pub t2 : Table

-- The body of the two loops.
unfoldable pub carry_slot : Cuckoo → ℕ → ℕ → ℕ → Tables → Option Tables
carry_slot c buckets i j ts = elim (carry buckets left (c.table1.elements i j) ts.t1) [
  | none ↦ none
  | some t1 ↦ elim (carry buckets right (c.table2.elements i j) ts.t2) [
    | none ↦ none
    | some t2 ↦ some (record { t1 = t1; t2 = t2 })
  ]
]

-- The slots `j, j + 1, ...` of bucket `i`, `n` of them.
unfoldable pub carry_bucket : Cuckoo → ℕ → ℕ → ℕ → ℕ → Tables → Option Tables
carry_bucket c buckets i zero j ts = some ts
carry_bucket c buckets i (suc n) j ts = elim (carry_slot c buckets i j ts) [
  | none ↦ none
  | some ts' ↦ carry_bucket c buckets i n (suc j) ts'
]

unfoldable pub carry_all : Cuckoo → ℕ → ℕ → ℕ → Tables → Option Tables
carry_all c buckets zero i ts = some ts
carry_all c buckets (suc n) i ts = elim (carry_bucket c buckets i width 0 ts) [
  | none ↦ none
  | some ts' ↦ carry_all c buckets n (suc i) ts'
]

-- `buckets * 2` in `unsigned int`
unfoldable pub doubled : ℕ → ℕ
doubled buckets = buckets * 2 % 2 ^ 32

-- With the global lock held: the new tables, and locks that are all free.
unfoldable pub rebuild : M (Unit {0})
rebuild c =
    elim (carry_all c (doubled c.buckets) (doubled c.buckets / 4) 0
      (record { t1 = new; t2 = new })) [
        | none ↦ none
        | some ts ↦ some (
          tt,
          record c {
            buckets = doubled c.buckets;
            table1 = ts.t1;
            table2 = ts.t2;
            held = λ i. false;
          },
        )
      ]

unfoldable pub resize : M (Unit {0})
resize = do
  c ← get
  let old_capacity = c.buckets
  write_lock
  c' ← get
  elim (not (old_capacity == c'.buckets)) [
    | true ↦ global_unlock
    | false ↦ do rebuild; global_unlock
  ]
