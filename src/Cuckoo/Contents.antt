-- ===== src/Cuckoo/Contents.antt =====
-- What the set of Cuckoo.hpp holds, independently of where: the values that `contains` finds.
use concurrent_computing.Prelude.{
  not, ℕ, zero, suc, ◌+◌, ◌<◌, ◌≤◌, ◌≡◌, refl, arith, Bool, true, false, ◌||◌, ◌&&◌, none, some,
  ◌==◌, if◌then◌else◌, ==→eq, ==_refl, Bool-cases, inl, inr,
}
use concurrent_computing.Cuckoo.Table.{
  Table, find_slot, first_available, is_occupied, width, any, first, find, write,
}
use concurrent_computing.Cuckoo.State.{Cuckoo, hash1, hash2}
use concurrent_computing.Cuckoo.Search.{Side, left, right, home}
use concurrent_computing.Cuckoo.Insert.{element, put_at}

-- The slot loops.
pub any-true :
    (p : ℕ → Bool) (n i : ℕ) → any p n i ≡ true → (j : ℕ) × (i ≤ j) × (j < i + n) × (p j ≡ true)
unfolding any
any-true p zero i h = cc
any-true p (suc n) i h = elim (Bool-cases (p i)) [
  | inl e ↦ (i, omega arith, omega arith, e)
  | inr e ↦
      let (j, lo, hi, q) = any-true p n (suc i) (ground arith) in (j, omega arith, omega arith, q)
]

pub any_intro : (p : ℕ → Bool) (n i j : ℕ) → i ≤ j → j < i + n → p j ≡ true → any p n i ≡ true
unfolding any
any_intro p zero i j lo hi h = absurd (omega arith)
any_intro p (suc n) i j lo hi h = ground (arith, any_intro p n (suc i) j)

pub first-some :
    (p : ℕ → Bool) (n i j : ℕ) → first p n i ≡ some j → (i ≤ j) × (j < i + n) × (p j ≡ true)
unfolding first
first-some p zero i j h = cc
first-some p (suc n) i j h = ground (arith, first-some p n (suc i) j)

pub first-none : (p : ℕ → Bool) (n i : ℕ) → first p n i ≡ none → any p n i ≡ false
unfolding first any
first-none p zero i h = refl
first-none p (suc n) i h = ground (arith, first-none p n (suc i))

abbrev pub eq_side : Side → Side → Bool
eq_side left left = true
eq_side right right = true
eq_side _ _ = false

-- A write, read back at any place.
pub element-put_at :
    (c : Cuckoo) (s : Side) (i j v : ℕ) (t : Side) (k l : ℕ)
    → element (put_at s i j v c) t k l
      ≡ (if eq_side s t && (i == k) && (j == l) then v else element c t k l)
unfolding put_at write
element-put_at c left i j v left k l = ground arith
element-put_at c left i j v right k l = ground arith
element-put_at c right i j v left k l = ground arith
element-put_at c right i j v right k l = ground arith

-- The answer that `contains` gives.
unfoldable pub member : Cuckoo → ℕ → Bool
unfolding find hash1 hash2
member c v = find c.table1 v (hash1 c.buckets v) || find c.table2 v (hash2 c.buckets v)

-- A value stands in a slot of one of its two buckets.
abbrev pub At : Cuckoo → ℕ → Type 0
At c v = (s : Side) × (j : ℕ) × (j < width) × (element c s (home c.buckets s v) j ≡ v)

pub member→At : (c : Cuckoo) (v : ℕ) → member c v ≡ true → At c v
unfolding member home
member→At c v h = elim (Bool-cases (find c.table1 v (hash1 c.buckets v))) [
  | inl e ↦
      let (j, lo, hi, q) = any-true (λ i. c.table1.elements (hash1 c.buckets v) i == v) width 0 e in
      (left, j, hi, ==→eq _ _ q)
  | inr e ↦
      let (j, lo, hi, q) =
        any-true (λ i. c.table2.elements (hash2 c.buckets v) i == v) width 0 (ground arith) in
      (right, j, hi, ==→eq _ _ q)
]

pub At→member : (c : Cuckoo) (v : ℕ) → At c v → member c v ≡ true
unfolding member home
At→member c v (left, j, hi, q) =
    let e : find c.table1 v (hash1 c.buckets v) ≡ true =
      any_intro (λ i. c.table1.elements (hash1 c.buckets v) i == v) width 0 j (omega arith) hi
        (rw q (==_refl v)) in
    rw e
At→member c v (right, j, hi, q) =
    let e : find c.table2 v (hash2 c.buckets v) ≡ true =
      any_intro (λ i. c.table2.elements (hash2 c.buckets v) i == v) width 0 j (omega arith) hi
        (rw q (==_refl v)) in
    rw e (ground arith)

-- Two states hold a value alike if each place in one gives a place in the other.
pub member_eq :
    (c d : Cuckoo) (v : ℕ) → (At c v → At d v) → (At d v → At c v) → member c v ≡ member d v
member_eq c d v f g = elim (Bool-cases (member c v)) [
  | inl e ↦ rw (e, At→member d v (f (member→At c v e)))
  | inr e ↦ elim (Bool-cases (member d v)) [
    | inl e' ↦ cc (At→member c v (g (member→At d v e')))
    | inr e' ↦ rw (e, e')
  ]
]

pub not-At : (c : Cuckoo) (v : ℕ) → member c v ≡ false → At c v → ⊥
not-At c v h a = cc (At→member c v a)

-- `findSlot` against `find`.
pub find_slot-some :
    (t : Table) (v idx j : ℕ)
    → find_slot t v idx ≡ some j
    → (j < width) × (t.elements idx j ≡ v) × (find t v idx ≡ true)
unfolding find_slot find
find_slot-some t v idx j h =
    let (lo, hi, q) = first-some (λ i. t.elements idx i == v) width 0 j h in
    (hi, ==→eq _ _ q, any_intro (λ i. t.elements idx i == v) width 0 j lo hi q)

pub find_slot-none : (t : Table) (v idx : ℕ) → find_slot t v idx ≡ none → find t v idx ≡ false
unfolding find_slot find
find_slot-none t v idx h = first-none (λ i. t.elements idx i == v) width 0 h

-- `isAvailable` finds a slot of the bucket that is empty.
pub first_available-some :
    (t : Table) (idx j : ℕ) → first_available t idx ≡ some j → (j < width) × (t.elements idx j ≡ 0)
unfolding first_available
first_available-some t idx j h =
    let (lo, hi, q) = first-some (λ i. not (is_occupied (t.elements idx i))) width 0 j h in
    (hi, ground arith)

pub find-true :
    (t : Table) (v idx : ℕ) → find t v idx ≡ true → (j : ℕ) × (j < width) × (t.elements idx j ≡ v)
unfolding find
find-true t v idx h =
    let (j, lo, hi, q) = any-true (λ i. t.elements idx i == v) width 0 h in (j, hi, ==→eq _ _ q)

pub find-intro : (t : Table) (v idx j : ℕ) → j < width → t.elements idx j ≡ v → find t v idx ≡ true
unfolding find
find-intro t v idx j lt e =
    any_intro (λ i. t.elements idx i == v) width 0 j (omega arith) lt (rw e (==_refl v))
