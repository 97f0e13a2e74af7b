-- ===== src/Cuckoo/Placement.antt =====
-- The invariant of the tables of Cuckoo.hpp, and what a displacement does to the contents.
use concurrent_computing.Prelude.{
  ℕ, ◌<◌, ◌≡◌, ◌≢◌, refl, arith, true, false, ◌&&◌, not, ◌==◌, if◌then◌else◌, Bool-cases, inl, inr,
}
use concurrent_computing.Cuckoo.Table.{width}
use concurrent_computing.Cuckoo.State.{Cuckoo}
use concurrent_computing.Cuckoo.Search.{table_of, Side, left, right, other, home}
use concurrent_computing.Cuckoo.Insert.{Hop, element, put_at, move, has_changed}
use concurrent_computing.Cuckoo.Contents.{At, eq_side, element-put_at, member, member_eq}

-- Every value stands in its own bucket, in one of its slots, and in one place only.
pub record IsValid (c : Cuckoo) : Type 0 where
  pub roomy : 0 < c.buckets
  pub placed : (s : Side) (i j : ℕ) → element c s i j ≢ 0 → home c.buckets s (element c s i j) ≡ i
  pub narrow : (s : Side) (i j : ℕ) → element c s i j ≢ 0 → j < width
  pub distinct :
      (s : Side) (i j : ℕ) (t : Side) (k l : ℕ)
      → element c s i j ≢ 0
      → element c s i j ≡ element c t k l
      → (eq_side s t ≡ true) × (j ≡ l)

pub IsValid-congr :
    (c d : Cuckoo)
    → d.buckets ≡ c.buckets
    → ((s : Side) → table_of d s ≡ table_of c s)
    → IsValid c
    → IsValid d
IsValid-congr c d same tables valid = record {
  roomy = rw same valid.roomy;
  placed = λ s i j. ground (arith, same, tables s, valid.placed s i j);
  narrow = λ s i j. ground (arith, tables s, valid.narrow s i j);
  distinct = λ s i j t k l. ground (arith, tables s, tables t, valid.distinct s i j t k l);
}

pub buckets-put_at : (c : Cuckoo) (s : Side) (i j v : ℕ) → (put_at s i j v c).buckets ≡ c.buckets
unfolding put_at
buckets-put_at c left i j v = refl
buckets-put_at c right i j v = refl

eq_side_trans : (s t u : Side) → eq_side s t ≡ true → eq_side s u ≡ eq_side t u
eq_side_trans left left u h = refl
eq_side_trans right right u h = refl
eq_side_trans left right u h = cc
eq_side_trans right left u h = cc

eq_side_symm : (s t : Side) → eq_side s t ≡ eq_side t s
eq_side_symm left left = refl
eq_side_symm left right = refl
eq_side_symm right left = refl
eq_side_symm right right = refl

pub eq_side_refl : (s : Side) → eq_side s s ≡ true
eq_side_refl left = refl
eq_side_refl right = refl

eq_side-other : (s t : Side) → eq_side (other s) t ≡ not (eq_side s t)
eq_side-other left left = refl
eq_side-other left right = refl
eq_side-other right left = refl
eq_side-other right right = refl

pub eq_side→eq : (s t : Side) → eq_side s t ≡ true → s ≡ t
eq_side→eq left left h = refl
eq_side→eq right right h = refl
eq_side→eq left right h = cc
eq_side→eq right left h = cc

eq_side-home : (b : ℕ) (s t : Side) (v : ℕ) → eq_side s t ≡ true → home b s v ≡ home b t v
eq_side-home b left left v h = refl
eq_side-home b right right v h = refl
eq_side-home b left right v h = cc
eq_side-home b right left v h = cc

-- One slot written, at a value's own bucket.
pub put_at-IsValid :
    (c : Cuckoo) (s : Side) (j v : ℕ)
    → IsValid c
    → j < width
    → ((t : Side) (k l : ℕ) → element c t k l ≢ v)
    → IsValid (put_at s (home c.buckets s v) j v c)
put_at-IsValid c s j v valid lt fresh = record {
  roomy = rw (buckets-put_at c s (home c.buckets s v) j v) valid.roomy;
  placed = λ t k l.
      rw
        (
          buckets-put_at c s (home c.buckets s v) j v,
          element-put_at c s (home c.buckets s v) j v t k l,
        )
        (written t k l);
  narrow = λ t k l.
      ground (arith, element-put_at c s (home c.buckets s v) j v t k l, valid.narrow t k l);
  distinct = λ t k l t' k' l'. ground (
    arith,
    element-put_at c s (home c.buckets s v) j v t k l,
    element-put_at c s (home c.buckets s v) j v t' k' l',
    valid.distinct t k l t' k' l',
    fresh t k l,
    fresh t' k' l',
    eq_side_trans s t t',
  );
}
  where
    written :
        (t : Side) (k l : ℕ)
        → (if eq_side s t && (home c.buckets s v == k) && (j == l) then v else element c t k l) ≢ 0
        → home c.buckets t
            (if eq_side s t && (home c.buckets s v == k) && (j == l) then v else element c t k l)
          ≡ k
    written t k l = ground (arith, valid.placed t k l, eq_side-home c.buckets s t v)

module _ (c : Cuckoo) (to from : Hop) (valid : IsValid c)
    (kept : has_changed c to from ≡ false) where
  abbrev moved : ℕ
  moved = element c from.table from.index from.slot

  -- What the tests before a displacement establish.
  ready :
      (element c (other from.table) to.index to.slot ≡ 0)
      × (moved ≢ 0)
      × (home c.buckets (other from.table) moved ≡ to.index)
  unfolding has_changed
  ready = (ground arith, ground arith, ground arith)

  element-move :
      (t : Side) (k l : ℕ)
      → element (move to from c) t k l ≡ (
          if eq_side from.table t && (from.index == k) && (from.slot == l)
          then 0
          else if eq_side (other from.table) t && (to.index == k) && (to.slot == l)
          then moved
          else element c t k l)
  unfolding move
  element-move t k l = ground (
    arith,
    element-put_at (put_at (other from.table) to.index to.slot moved c) from.table from.index
        from.slot 0 t k l,
    element-put_at c (other from.table) to.index to.slot moved t k l,
  )

  buckets-move : (move to from c).buckets ≡ c.buckets
  unfolding move
  buckets-move =
      rw
        (buckets-put_at (put_at (other from.table) to.index to.slot moved c) from.table from.index
          from.slot 0)
        (buckets-put_at c (other from.table) to.index to.slot moved)

  -- A displacement keeps the invariant.
  pub move-IsValid : to.slot < width → IsValid (move to from c)
  move-IsValid lt = record {
    roomy = rw buckets-move valid.roomy;
    placed = λ t k l.
        rw (buckets-move, element-move t k l)
          (ground
            (arith, valid.placed t k l, eq_side-home c.buckets (other from.table) t moved, ready));
    narrow = λ t k l. ground (arith, element-move t k l, valid.narrow t k l);
    distinct = λ t k l t' k' l'. ground (
      arith,
      element-move t k l,
      element-move t' k' l',
      valid.distinct t k l t' k' l',
      valid.distinct from.table from.index from.slot t' k' l',
      valid.distinct t k l from.table from.index from.slot,
      eq_side_trans (other from.table) t t',
      valid.placed t k l,
      valid.placed t' k' l',
      valid.placed from.table from.index from.slot,
      eq_side-home c.buckets from.table t moved,
      eq_side-home c.buckets from.table t' moved,
      eq_side_symm from.table t,
      eq_side_symm from.table t',
      ready,
    );
  }

  module _ (w : ℕ) (some_value : w ≢ 0) (in_width : to.slot < width)
      (from_width : from.slot < width) where
    here :
        (s : Side) (j : ℕ)
        → (eq_side from.table s && (from.index == home c.buckets s w) && (from.slot == j)) ≡ true
        → element c s (home c.buckets s w) j ≡ w
        → moved ≡ w
    here s j hit q = ground (arith, eq_side→eq from.table s)

    arrives :
        moved ≡ w
        → (if eq_side from.table (other from.table)
              && (from.index == home c.buckets (other from.table) w)
              && (from.slot == to.slot)
            then 0
            else if eq_side (other from.table) (other from.table)
                && (to.index == home c.buckets (other from.table) w)
                && (to.slot == to.slot)
            then moved
            else element c (other from.table) (home c.buckets (other from.table) w) to.slot)
          ≡ w
    arrives e =
        ground (
          arith,
          ready,
          eq_side-other from.table (other from.table),
          eq_side_refl (other from.table),
        )

    stays :
        (s : Side) (j : ℕ)
        → (eq_side from.table s && (from.index == home c.buckets s w) && (from.slot == j)) ≡ false
        → element c s (home c.buckets s w) j ≡ w
        → (if eq_side from.table s && (from.index == home c.buckets s w) && (from.slot == j)
            then 0
            else if eq_side (other from.table) s
                && (to.index == home c.buckets s w)
                && (to.slot == j)
            then moved
            else element c s (home c.buckets s w) j)
          ≡ w
    stays s j miss q = ground (arith, ready, eq_side→eq (other from.table) s)

    At-move : At c w → At (move to from c) w
    At-move (s, j, lt, q) =
        elim (Bool-cases
          (eq_side from.table s && (from.index == home c.buckets s w) && (from.slot == j))) [
            | inl hit ↦ (
              other from.table,
              to.slot,
              in_width,
              rw (buckets-move, element-move (other from.table)) (arrives (here s j hit q)),
            )
            | inr miss ↦ (s, j, lt, rw (buckets-move, element-move s) (stays s j miss q))
          ]

    move-At : At (move to from c) w → At c w
    move-At (s, j, lt, q) =
        let k = home c.buckets s w in
        let q' : element (move to from c) s k j ≡ w = rw buckets-move at q in
        elim (Bool-cases (eq_side (other from.table) s && (to.index == k) && (to.slot == j))) [
          | inl hit ↦ (
            from.table,
            from.slot,
            from_width,
            ground (
              arith,
              ready,
              element-move s k j,
              valid.placed from.table from.index from.slot,
              eq_side-other from.table s,
            ),
          )
          | inr miss ↦ (s, j, lt, ground (arith, element-move s k j))
        ]

    -- A displacement changes nothing that `contains` can see.
    pub member-move : member (move to from c) w ≡ member c w
    member-move = member_eq (move to from c) c w move-At At-move
