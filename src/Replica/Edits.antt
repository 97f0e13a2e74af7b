-- ===== src/Replica/Edits.antt =====
-- What one cell written by `setElement` or emptied by `setKey` does to the contents of the store of
-- ReplicatedKeyValueStoreRDMA/Persistence/KeyValueStore/Cuckoo.hpp.
use concurrent_computing.Prelude.{
  ℕ, ◌<◌, ◌≡◌, ◌≢◌, ◌↔◌, ◌⊎◌, arith, ◌==◌, Bool-cases, inl, inr, sym, ◌∙◌,
}
use concurrent_computing.Replica.Table.{Node}
use concurrent_computing.Replica.State.{Cuckoo}
use concurrent_computing.Replica.Contents.{
  key_at, cells, Near, Holds, IsValid, Near-lt, with_cell, emptied,
}

module _ (c : Cuckoo) (valid : IsValid c) (n : ℕ) (inside : n < cells c) where
  -- A cell emptied keeps the invariant.
  pub emptied-IsValid : IsValid (with_cell n (emptied c n) c)
  emptied-IsValid = record {
    roomy = valid.roomy;
    placed = λ m lt some_key. ground (arith, valid.placed m lt);
    distinct = λ m l lt lt' some_key e. ground (arith, valid.distinct m l lt lt');
  }

  module _ (occupied : key_at c n ≢ 0) where
    -- The key that stood there is gone, and every other key has its value.
    pub emptied-Holds :
        (w x : ℕ)
        → w ≢ 0
        → Holds (with_cell n (emptied c n) c) w x ↔ ((w ≢ key_at c n) × Holds c w x)
    emptied-Holds w x some_key = (
      λ h. (
        λ e.
            ground (
              arith,
              valid.distinct n h.0 inside (Near-lt c.buckets w h.0 valid.roomy h.1) occupied,
            ),
        (h.0, h.1, ground arith, ground arith),
      ),
      λ h. (h.1.0, h.1.1, ground arith, ground arith),
    )

  module _ (e : Node) (some_key : e.key ≢ 0) (near : Near c.buckets e.key n)
      (only : (m : ℕ) → m < cells c → key_at c m ≡ e.key → m ≡ n) where
    -- An element written into a cell of one of its key's buckets, which has the key if any cell
    -- has it.
    pub written-IsValid : IsValid (with_cell n e c)
    written-IsValid = record {
      roomy = valid.roomy;
      placed = λ m lt h. ground (arith, valid.placed m lt);
      distinct = λ m l lt lt' h q. ground (arith, valid.distinct m l lt lt', only m lt, only l lt');
    }

    pub written_self : Holds (with_cell n e c) e.key e.val
    written_self = (n, near, ground arith, ground arith)

    pub written_only : (x : ℕ) → Holds (with_cell n e c) e.key x → x ≡ e.val
    written_only x h = ground (arith, only h.0 (Near-lt c.buckets e.key h.0 valid.roomy h.1))

    pub written_others :
        (key_at c n ≡ 0) ⊎ (key_at c n ≡ e.key)
        → (w x : ℕ) → w ≢ 0
        → w ≢ e.key
        → Holds (with_cell n e c) w x ↔ Holds c w x
    written_others free w x h h' =
        (λ q. (q.0, q.1, ground arith, ground arith), λ q. (q.0, q.1, ground arith, ground arith))

-- A cell emptied after its element was written into another cell.
abbrev pub moved : Cuckoo → ℕ → ℕ → Cuckoo
moved c to from =
    let d = with_cell to (c.table.elements from) c in with_cell from (emptied d from) d

-- The same, into an empty cell of a bucket of the key.
module _ (c : Cuckoo) (valid : IsValid c) (to from : ℕ) (inside : from < cells c)
    (vacant : key_at c to ≡ 0) (occupied : key_at c from ≢ 0)
    (near : Near c.buckets (key_at c from) to) where
  pub moved-IsValid : IsValid (moved c to from)
  moved-IsValid = record {
    roomy = valid.roomy;
    placed = λ m lt h. ground (arith, valid.placed m lt);
    distinct = λ m l lt lt' h q. ground (
      arith,
      valid.distinct m l lt lt',
      valid.distinct from l inside lt',
      valid.distinct from m inside lt,
    );
  }

  pub moved-Holds : (w x : ℕ) → w ≢ 0 → Holds (moved c to from) w x ↔ Holds c w x
  moved-Holds w x h = (came, goes)
    where
      came : Holds (moved c to from) w x → Holds c w x
      came (n, p, k, v) = elim (Bool-cases (n == to)) [
        | inl e ↦ (from, valid_near (ground arith), ground arith, ground arith)
        | inr e ↦ (n, p, ground arith, ground arith)
      ]
        where
          valid_near : w ≡ key_at c from → Near c.buckets w from
          valid_near e = rw e (valid.placed from inside occupied)

      goes : Holds c w x → Holds (moved c to from) w x
      goes (n, p, k, v) = elim (Bool-cases (n == from)) [
        | inl e ↦ (to, rw (same (ground arith)) near, ground arith, ground arith)
        | inr e ↦ (n, p, ground arith, ground arith)
      ]
        where
          same : n ≡ from → w ≡ key_at c from
          same e = sym k ∙ rw e
