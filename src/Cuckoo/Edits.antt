-- ===== src/Cuckoo/Edits.antt =====
-- What one slot written by `insert` or cleared by `remove` (Cuckoo.hpp) does to the contents.
use concurrent_computing.Prelude.{
  ℕ, ◌<◌, ◌≡◌, ◌≢◌, arith, false, ◌||◌, ◌&&◌, not, ◌==◌, ==→eq, Bool-cases, inl, inr,
}
use concurrent_computing.Cuckoo.Table.{width}
use concurrent_computing.Cuckoo.State.{Cuckoo}
use concurrent_computing.Cuckoo.Search.{Side, home}
use concurrent_computing.Cuckoo.Insert.{element, put_at}
use concurrent_computing.Cuckoo.Contents.{
  At, element-put_at, member, member_eq, At→member, member→At, not-At,
}
use concurrent_computing.Cuckoo.Placement.{
  IsValid, put_at-IsValid, buckets-put_at, eq_side_refl, eq_side→eq,
}

module _ (c : Cuckoo) (s : Side) (i j : ℕ) (valid : IsValid c) where
  -- A slot cleared keeps the invariant.
  pub erase-IsValid : IsValid (put_at s i j 0 c)
  erase-IsValid = record {
    roomy = rw (buckets-put_at c s i j 0) valid.roomy;
    placed = λ t k l.
        rw (buckets-put_at c s i j 0, element-put_at c s i j 0 t k l)
          (ground (arith, valid.placed t k l));
    narrow = λ t k l. ground (arith, element-put_at c s i j 0 t k l, valid.narrow t k l);
    distinct = λ t k l t' k' l'. ground (
      arith,
      element-put_at c s i j 0 t k l,
      element-put_at c s i j 0 t' k' l',
      valid.distinct t k l t' k' l',
    );
  }

module _ (c : Cuckoo) (s : Side) (j v : ℕ) (valid : IsValid c) (in_width : j < width) where
  abbrev k : ℕ
  k = home c.buckets s v

  module _ (stands : element c s k j ≡ v) (w : ℕ) (some_value : w ≢ 0) where
    erased-At : w ≢ v → At c w → At (put_at s k j 0 c) w
    erased-At other (t, l, lt, q) = (
      t,
      l,
      lt,
      rw (buckets-put_at c s k j 0)
          (ground (arith, element-put_at c s k j 0 t (home c.buckets t w) l, eq_side→eq s t)),
    )

    At-erased : At (put_at s k j 0 c) w → At c w
    At-erased (t, l, lt, q) =
        let q' : element (put_at s k j 0 c) t (home c.buckets t w) l ≡ w =
          rw (buckets-put_at c s k j 0) at q in
        (t, l, lt, ground (arith, element-put_at c s k j 0 t (home c.buckets t w) l))

    erased-not-At : w ≡ v → At (put_at s k j 0 c) w → ⊥
    erased-not-At e (t, l, lt, q) =
        let q' : element (put_at s k j 0 c) t (home c.buckets t w) l ≡ w =
          rw (buckets-put_at c s k j 0) at q in
        ground (
          arith,
          element-put_at c s k j 0 t (home c.buckets t w) l,
          valid.distinct s k j t (home c.buckets t w) l,
          eq_side→eq s t,
        )

    -- The value is gone, and every other value is where it was.
    pub member-erase : member (put_at s k j 0 c) w ≡ (member c w && not (w == v))
    member-erase = elim (Bool-cases (w == v)) [
      | inl same ↦ elim (Bool-cases (member (put_at s k j 0 c) w)) [
        | inl seen ↦ absurd (erased-not-At (==→eq w v same) (member→At (put_at s k j 0 c) w seen))
        | inr gone ↦ ground arith
      ]
      | inr differs ↦
          ground (arith, member_eq (put_at s k j 0 c) c w At-erased (erased-At (ground arith)))
    ]

  module _ (vacant : element c s k j ≡ 0) (fresh : member c v ≡ false) where
    -- A value that `contains` does not find stands nowhere.
    absent : v ≢ 0 → (t : Side) (i l : ℕ) → element c t i l ≢ v
    absent some_value t i l e =
        not-At c v fresh
          (t, l, valid.narrow t i l (ground arith), ground (arith, valid.placed t i l))

    pub put-IsValid : v ≢ 0 → IsValid (put_at s k j v c)
    put-IsValid some_value = put_at-IsValid c s j v valid in_width (absent some_value)

    module _ (w : ℕ) (some_value : w ≢ 0) where
      put-At : At c w → At (put_at s k j v c) w
      put-At (t, l, lt, q) = (
        t,
        l,
        lt,
        rw (buckets-put_at c s k j v)
            (ground (arith, element-put_at c s k j v t (home c.buckets t w) l, eq_side→eq s t)),
      )

      put_self : w ≡ v → At (put_at s k j v c) w
      put_self e = (
        s,
        j,
        in_width,
        rw (buckets-put_at c s k j v)
            (ground (arith, element-put_at c s k j v s (home c.buckets s w) j, eq_side_refl s)),
      )

      At-put : w ≢ v → At (put_at s k j v c) w → At c w
      At-put other (t, l, lt, q) =
          let q' : element (put_at s k j v c) t (home c.buckets t w) l ≡ w =
            rw (buckets-put_at c s k j v) at q in
          (t, l, lt, ground (arith, element-put_at c s k j v t (home c.buckets t w) l))

      -- The value is added, and every other value is where it was.
      pub member-put : member (put_at s k j v c) w ≡ (member c w || (w == v))
      member-put = elim (Bool-cases (w == v)) [
        | inl same ↦ ground (arith, At→member (put_at s k j v c) w (put_self (==→eq w v same)))
        | inr differs ↦
            ground (arith, member_eq (put_at s k j v c) c w (At-put (ground arith)) put-At)
      ]
