-- ===== src/Cuckoo/Resize/Moves.antt =====
-- What the loops of `resize` (Cuckoo.hpp) put into the new tables.
use concurrent_computing.Prelude.{
  ℕ, zero, suc, ◌+◌, ◌<◌, ◌≤◌, ◌≡◌, ◌≢◌, refl, sym, ◌∙◌, arith, ◌&&◌, some, ◌==◌, Bool-cases,
  Option-cases, ◌⊎◌, inl, inr,
}
use native.Mathlib.Decide.{ℕ_discrete}
use concurrent_computing.Cuckoo.Table.{Table, width, is_occupied, first_available, write}
use concurrent_computing.Cuckoo.State.{Cuckoo}
use concurrent_computing.Cuckoo.Search.{Side, left, right, home}
use concurrent_computing.Cuckoo.Insert.{element}
use concurrent_computing.Cuckoo.Resize.{carry, Tables, carry_slot, carry_bucket}
use concurrent_computing.Cuckoo.Contents.{first_available-some}

-- From `t` to `t'` the values of `src` went to their buckets, and the rest stayed.
pub record Moves (b : ℕ) (s : Side) (src : ℕ → Type 0) (t t' : Table) : Type 0 where
  pub stays : (k l : ℕ) → t.elements k l ≢ 0 → t'.elements k l ≡ t.elements k l
  pub origin :
      (k l : ℕ)
      → t'.elements k l ≢ 0
      → (t'.elements k l ≡ t.elements k l)
        ⊎ (src (t'.elements k l) × (k ≡ home b s (t'.elements k l)) × (l < width))
  pub arrives : (v : ℕ) → src v → v ≢ 0 → (m : ℕ) × (m < width) × (t'.elements (home b s v) m ≡ v)

module _ (b : ℕ) (s : Side) where
  pub Moves-none : (src : ℕ → Type 0) (t : Table) → ((v : ℕ) → src v → v ≡ 0) → Moves b s src t t
  Moves-none src t empty = record {
    stays = λ k l h. refl;
    origin = λ k l h. inl refl;
    arrives = λ v a h. absurd (h (empty v a));
  }

  pub Moves-trans :
      (P Q : ℕ → Type 0) (t u w : Table)
      → Moves b s P t u
      → Moves b s Q u w
      → Moves b s (λ v. P v ⊎ Q v) t w
  Moves-trans P Q t u w p q = record {
    stays = λ k l h. ground (arith, p.stays k l, q.stays k l);
    origin = λ k l h. elim (q.origin k l h) [
      | inr (from, at, lt) ↦ inr (inr from, at, lt)
      | inl same ↦ elim (p.origin k l (λ e. h (same ∙ e))) [
        | inl before ↦ inl (same ∙ before)
        | inr (from, at, lt) ↦ inr (rw same (inl from, at, lt))
      ]
    ];
    arrives = λ v a h. elim a [
      | inl x ↦
          let (m, lt, e) = p.arrives v x h in
          (m, lt, q.stays (home b s v) m (λ z. h (sym e ∙ z)) ∙ e)
      | inr y ↦ q.arrives v y h
    ];
  }

  pub Moves-congr :
      (P Q : ℕ → Type 0) (t u : Table)
      → ((v : ℕ) → P v → Q v)
      → ((v : ℕ) → Q v → P v)
      → Moves b s P t u
      → Moves b s Q t u
  Moves-congr P Q t u f g p = record {
    stays = p.stays;
    origin = λ k l h. elim (p.origin k l h) [
      | inl same ↦ inl same
      | inr (from, at, lt) ↦ inr (f _ from, at, lt)
    ];
    arrives = λ v a h. p.arrives v (g v a) h;
  }

  -- One value is put into an empty slot of its bucket, or there is none to put.
  carry_cases :
      (v : ℕ) (t u : Table)
      → carry b s v t ≡ some u
      → ((v ≡ 0) × (u ≡ t))
        ⊎ ((j : ℕ) × (v ≢ 0)
            × (j < width)
            × (t.elements (home b s v) j ≡ 0)
            × (u ≡ write t (home b s v) j v))
  unfolding carry
  carry_cases v t u run = elim (Bool-cases (is_occupied v)) [
    | inr empty ↦ inl (ground arith, ground arith)
    | inl full ↦ elim (Option-cases (first_available t (home b s v))) [
      | inl e ↦ absurd (ground arith)
      | inr (j, e) ↦
          let (lt, vacant) = first_available-some t (home b s v) j e in
          inr (j, ground arith, lt, vacant, ground arith)
    ]
  ]

  written-Moves :
      (v : ℕ) (t : Table) (j : ℕ)
      → v ≢ 0
      → j < width
      → t.elements (home b s v) j ≡ 0
      → Moves b s (λ w. w ≡ v) t (write t (home b s v) j v)
  unfolding write
  written-Moves v t j some_value lt vacant = record {
    stays = λ k l h. ground arith;
    origin = λ k l h. elim (Bool-cases ((home b s v == k) && (j == l))) [
      | inl hit ↦
          let e : (write t (home b s v) j v).elements k l ≡ v = ground arith in
          inr (e, rw e (ground arith), ground arith)
      | inr miss ↦ inl (ground arith)
    ];
    arrives = λ w e h. (j, lt, rw e (ground arith));
  }

  carry-Moves : (v : ℕ) (t u : Table) → carry b s v t ≡ some u → Moves b s (λ w. w ≡ v) t u
  carry-Moves v t u run = elim (carry_cases v t u run) [
    | inl (z, e) ↦ rw e (Moves-none (λ w. w ≡ v) t (λ w e'. e' ∙ z))
    | inr (j, some_value, lt, vacant, e) ↦ rw e (written-Moves v t j some_value lt vacant)
  ]

abbrev pub tab : Tables → Side → Table
tab ts left = ts.t1
tab ts right = ts.t2

module _ (c : Cuckoo) (b : ℕ) where
  -- The body of the loops puts one value into each new table.
  carry_slot_parts :
      (i j : ℕ) (ts us : Tables)
      → carry_slot c b i j ts ≡ some us
      → (carry b left (c.table1.elements i j) ts.t1 ≡ some us.t1)
        × (carry b right (c.table2.elements i j) ts.t2 ≡ some us.t2)
  unfolding carry_slot
  carry_slot_parts i j ts us run = ground arith

  carry_slot-Moves :
      (i j : ℕ) (ts us : Tables)
      → carry_slot c b i j ts ≡ some us
      → (s : Side) → Moves b s (λ w. w ≡ element c s i j) (tab ts s) (tab us s)
  carry_slot-Moves i j ts us run left =
      carry-Moves b left (c.table1.elements i j) ts.t1 us.t1 (carry_slot_parts i j ts us run).0
  carry_slot-Moves i j ts us run right =
      carry-Moves b right (c.table2.elements i j) ts.t2 us.t2 (carry_slot_parts i j ts us run).1

  -- A value in one of `n` slots of bucket `i`, from slot `j` on.
  abbrev pub InBucket : Side → ℕ → ℕ → ℕ → ℕ → Type 0
  InBucket s i n j v = (l : ℕ) × (j ≤ l) × (l < j + n) × (v ≡ element c s i l)

  pub carry_bucket-Moves :
      (i n j : ℕ) (ts us : Tables)
      → carry_bucket c b i n j ts ≡ some us
      → (s : Side) → Moves b s (InBucket s i n j) (tab ts s) (tab us s)
  unfolding carry_bucket
  carry_bucket-Moves i zero j ts us run s =
      let e : ts ≡ us = ground arith in
      rw e (Moves-none b s (InBucket s i 0 j) (tab us s) (λ v a. absurd (omega arith)))
  carry_bucket-Moves i (suc n) j ts us run s = elim (Option-cases (carry_slot c b i j ts)) [
    | inl e ↦ absurd (ground arith)
    | inr (vs, e) ↦
        Moves-congr b s (λ v. (v ≡ element c s i j) ⊎ InBucket s i n (suc j) v)
          (InBucket s i (suc n) j) (tab ts s) (tab us s) (bucket_cons i n j s)
          (bucket_split i n j s)
          (Moves-trans b s (λ v. v ≡ element c s i j) (InBucket s i n (suc j)) (tab ts s) (tab vs s)
            (tab us s) (carry_slot-Moves i j ts vs e s)
            (carry_bucket-Moves i n (suc j) vs us (ground arith) s))
  ]
    where
      bucket_cons :
          (i n j : ℕ) (s : Side) (v : ℕ)
          → (v ≡ element c s i j) ⊎ InBucket s i n (suc j) v
          → InBucket s i (suc n) j v
      bucket_cons i n j s v (inl e) = (j, omega arith, omega arith, e)
      bucket_cons i n j s v (inr (l, lo, hi, e)) = (l, omega arith, omega arith, e)

      bucket_split :
          (i n j : ℕ) (s : Side) (v : ℕ)
          → InBucket s i (suc n) j v
          → (v ≡ element c s i j) ⊎ InBucket s i n (suc j) v
      bucket_split i n j s v (l, lo, hi, e) = elim (ℕ_discrete j l) [
        | yes same ↦ inl (rw same e)
        | no other ↦ inr (l, omega arith, omega arith, e)
      ]
