-- ===== src/Cuckoo/Resize/Loss.antt =====
-- `resize` (Cuckoo.hpp) as a whole, and the values that it loses.
use concurrent_computing.Prelude.{
  ℕ, ◌<◌, ◌≤◌, ◌≡◌, ◌≢◌, refl, sym, ap, ==_refl, ◌∙◌, arith, Bool, true, false, none, some,
  Bool-cases, Option-cases, inl, inr,
}
use concurrent_computing.Cuckoo.Table.{new}
use concurrent_computing.Cuckoo.State.{Cuckoo, write_lock, global_unlock, ◌>>=◌}
use concurrent_computing.Cuckoo.Search.{Side, left, right, home, table_of}
use concurrent_computing.Cuckoo.Insert.{element}
use concurrent_computing.Cuckoo.Resize.{Tables, carry_all, doubled, rebuild, resize}
use concurrent_computing.Cuckoo.Resize.Moves.{Moves}
use concurrent_computing.Cuckoo.Resize.Kept.{
  InTable, carry_all-Moves, copied, kept, KeptAt, kept→KeptAt, KeptAt→kept,
}
use concurrent_computing.Cuckoo.Contents.{At, member, member→At, At→member}
use concurrent_computing.Cuckoo.Placement.{IsValid}
use concurrent_computing.Cuckoo.Methods.{Idle}

abbrev blank : Tables
blank = record { t1 = new; t2 = new }

abbrev locked : Cuckoo → Cuckoo
locked c = record c { writer = true }

-- A `resize` that returns, piece by piece.
record Resized (c d : Cuckoo) : Type 0 where
  ts : Tables
  run : carry_all (locked c) (doubled c.buckets) (copied c) 0 blank ≡ some ts
  buckets : d.buckets ≡ doubled c.buckets
  left_table : d.table1 ≡ ts.t1
  right_table : d.table2 ≡ ts.t2
  held : d.held ≡ (λ i. false)
  unlocked : d.writer ≡ false

abbrev grown : Cuckoo → Tables → Cuckoo
grown c ts = record c {
  buckets = doubled c.buckets;
  table1 = ts.t1;
  table2 = ts.t2;
  held = λ i. false;
  writer = false;
}

write_lock_run :
    (c : Cuckoo) → c.writer ≡ false → c.readers ≡ 0 → write_lock c ≡ some (tt, locked c)
unfolding write_lock
write_lock_run c unlocked quiet = ground arith

rebuild_run :
    (c : Cuckoo) (ts : Tables)
    → carry_all (locked c) (doubled c.buckets) (copied c) 0 blank ≡ some ts
    → rebuild (locked c) ≡ some (tt, locked (grown c ts))
unfolding rebuild
rebuild_run c ts e = rw (e, rebuild)

rebuild_fails :
    (c : Cuckoo)
    → carry_all (locked c) (doubled c.buckets) (copied c) 0 blank ≡ none
    → rebuild (locked c) ≡ none
unfolding rebuild
rebuild_fails c e = rw (e, rebuild)

resize_run :
    (c : Cuckoo) (ts : Tables)
    → c.writer ≡ false
    → c.readers ≡ 0
    → carry_all (locked c) (doubled c.buckets) (copied c) 0 blank ≡ some ts
    → resize c ≡ some (tt, grown c ts)
unfolding resize global_unlock
resize_run c ts unlocked quiet e =
    rw (write_lock_run c unlocked quiet, ◌>>=◌, ==_refl c.buckets, rebuild_run c ts e)

resize_fails :
    (c : Cuckoo)
    → c.writer ≡ false
    → c.readers ≡ 0
    → carry_all (locked c) (doubled c.buckets) (copied c) 0 blank ≡ none
    → resize c ≡ none
unfolding resize
resize_fails c unlocked quiet e =
    rw (write_lock_run c unlocked quiet, ◌>>=◌, ==_refl c.buckets, rebuild_fails c e)

resize_parts :
    (c d : Cuckoo) → c.writer ≡ false → c.readers ≡ 0 → resize c ≡ some (tt, d) → Resized c d
resize_parts c d unlocked quiet run =
    elim (Option-cases (carry_all (locked c) (doubled c.buckets) (copied c) 0 blank)) [
      | inl e ↦ cc (resize_fails c unlocked quiet e)
      | inr (ts, e) ↦
          let same : grown c ts ≡ d = ground (arith, resize_run c ts unlocked quiet e) in
          record {
            ts = ts;
            run = e;
            buckets = sym (ap (λ (x : Cuckoo). x.buckets) same);
            left_table = sym (ap (λ (x : Cuckoo). x.table1) same);
            right_table = sym (ap (λ (x : Cuckoo). x.table2) same);
            held = sym (ap (λ (x : Cuckoo). x.held) same);
            unlocked = sym (ap (λ (x : Cuckoo). x.writer) same);
          }
    ]

element-locked : (c : Cuckoo) (s : Side) (i j : ℕ) → element (locked c) s i j ≡ element c s i j
element-locked c left i j = refl
element-locked c right i j = refl

module _ (c d : Cuckoo) (idle : Idle c) (quiet : c.readers ≡ 0) (valid : IsValid c)
    (run : resize c ≡ some (tt, d)) where
  parts : Resized c d
  parts = resize_parts c d idle.unlocked quiet run

  moves :
      (s : Side)
      → Moves (doubled c.buckets) s (InTable (locked c) s (copied c) 0) new (table_of d s)
  moves left =
      rw parts.left_table
        (carry_all-Moves (locked c) (doubled c.buckets) (copied c) 0 blank parts.ts parts.run left)
  moves right =
      rw parts.right_table
        (carry_all-Moves (locked c) (doubled c.buckets) (copied c) 0 blank parts.ts parts.run right)

  -- Each value that is in the new tables was in a bucket that was copied.
  At→KeptAt : (w : ℕ) → w ≢ 0 → At d w → KeptAt c w
  unfolding new
  At→KeptAt w h (s, m, lt, e) =
      elim ((moves s).origin (home d.buckets s w) m (λ z. h (sym e ∙ z))) [
        | inl old ↦ absurd (h (sym e ∙ old))
        | inr ((k, lo, hi, l, lt', from), at, in_width) ↦
            let f : w ≡ element c s k l = sym e ∙ from ∙ element-locked c s k l in
            let g : home c.buckets s w ≡ k = ground (arith, valid.placed s k l) in
            let near : k < copied c = omega arith in (s, l, lt', rw g (sym f), rw g near)
      ]

  KeptAt→At : (w : ℕ) → w ≢ 0 → KeptAt c w → At d w
  KeptAt→At w h (s, j, lt, e, near) =
      let (m, lt', e') =
        (moves s).arrives w
          (
            home c.buckets s w,
            omega arith,
            omega arith,
            j,
            lt,
            sym e ∙ sym (element-locked c s (home c.buckets s w) j),
          )
          h in
      (s, m, lt', rw parts.buckets e')

  -- When nobody holds a lock and `resize` of a well-formed set returns, the values other than 0 that
  -- the new set has are those that stood in one of the first `2 * buckets / 4` buckets of a table;
  -- no lock is held. The values in the other buckets are lost.
  pub resize-kept : (w : ℕ) → w ≢ 0 → Idle d × (member d w ≡ kept c w)
  resize-kept w h = (
    record { free = λ i. ap (λ (h : ℕ → Bool). h i) parts.held; unlocked = parts.unlocked },
    elim (Bool-cases (kept c w)) [
      | inl e ↦ rw e (At→member d w (KeptAt→At w h (kept→KeptAt c w e)))
      | inr e ↦ elim (Bool-cases (member d w)) [
        | inl e' ↦ cc (KeptAt→kept c w (At→KeptAt w h (member→At d w e')))
        | inr e' ↦ rw (e, e')
      ]
    ],
  )

  -- A value whose two buckets both lie past the first `2 * buckets / 4` is not in the set after
  -- `resize`, whether it was there before or not.
  pub resize-loses :
      (w : ℕ)
      → w ≢ 0
      → copied c ≤ home c.buckets left w
      → copied c ≤ home c.buckets right w
      → member d w ≡ false
  unfolding kept
  resize-loses w h far far' = ground (arith, (resize-kept w h).1)
