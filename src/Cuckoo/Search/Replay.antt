-- ===== src/Cuckoo/Search/Replay.antt =====
-- A point that the search of Cuckoo.hpp finds: its path code, replayed from the start, leads to it.
use native.Mathlib.Nat.{pow-suc}
use concurrent_computing.Prelude.{
  ℕ, zero, suc, ◌+◌, ◌-◌, ◌*◌, ◌/◌, ◌%◌, ◌^◌, ◌<◌, ◌≡◌, refl, sym, ◌∙◌, arith, true, false, Option,
  none, some, List, [], ◌∷◌, ◌++◌, elem, ltb, if◌then◌else◌, Bool-cases, inl, inr, ◌==◌, transport,
}
use concurrent_computing.Cuckoo.Table.{width, is_occupied}
use concurrent_computing.Cuckoo.State.{Seeds, Cuckoo}
use concurrent_computing.Cuckoo.Search.Bounds.{Scan-cases}
use concurrent_computing.Cuckoo.Search.{
  Side, left, right, other, home, Point, Scan, vacant, pushed, next_point, scan, search_loop,
  search, search_fuel, start_points, max_search_depth, table_of, xorshf96,
}

-- A bucket of a table.
pub record Place : Type 0 where
  pub table : Side
  pub index : ℕ

-- Where the value in one slot of a bucket may go.
unfoldable pub advance : Cuckoo → Place → ℕ → Place
advance c p slot = record {
  table = other p.table;
  index = home c.buckets (other p.table) ((table_of c p.table).elements p.index slot);
}

-- The bucket that a path code of `depth` slots leads to: the last slot is its last digit.
unfoldable pub replay : Cuckoo → ℕ → ℕ → ℕ → ℕ → Place
replay c idx1 idx2 zero code =
    if code == 0
    then record { table = left; index = idx1 }
    else record { table = right; index = idx2 }
replay c idx1 idx2 (suc depth) code =
    advance c (replay c idx1 idx2 depth (code / width)) (code % width)

-- The path code of a queued point leads to its bucket, within the depth and the size allowed.
record IsReached (c : Cuckoo) (idx1 idx2 : ℕ) (p : Point) : Type 0 where
  leads : replay c idx1 idx2 p.depth p.pathcode ≡ record { table = p.table; index = p.index }
  shallow : p.depth < max_search_depth
  small : p.pathcode < 2 * width ^ p.depth

abbrev AllReached : Cuckoo → ℕ → ℕ → List Point → Type 0
AllReached c idx1 idx2 [] = Unit
AllReached c idx1 idx2 (p ∷ ps) = IsReached c idx1 idx2 p × AllReached c idx1 idx2 ps

module _ (c : Cuckoo) (idx1 idx2 : ℕ) where
  AllReached-append :
      (ps qs : List Point)
      → AllReached c idx1 idx2 ps
      → AllReached c idx1 idx2 qs
      → AllReached c idx1 idx2 (ps ++ qs)
  AllReached-append [] qs a b = b
  AllReached-append (p ∷ ps) qs a b = (a.0, AllReached-append ps qs a.1 b)

  advance-replay :
      (p : Point) (slot : ℕ)
      → IsReached c idx1 idx2 p
      → slot < width
      → replay c idx1 idx2 (suc p.depth) (p.pathcode * width + slot)
        ≡ advance c (record { table = p.table; index = p.index }) slot
  unfolding replay
  advance-replay p slot r lt =
      let quotient : (p.pathcode * width + slot) / width ≡ p.pathcode = omega arith in
      let digit : (p.pathcode * width + slot) % width ≡ slot = omega arith in
      rw (quotient, digit, r.leads)

  bigger :
      (code depth slot : ℕ)
      → code < 2 * width ^ depth
      → slot < width
      → code * width + slot < 2 * width ^ suc depth
  bigger code depth slot h lt = rw pow-suc (omega arith)

  next_point-IsReached :
      (p : Point) (slot : ℕ)
      → IsReached c idx1 idx2 p
      → slot < width
      → p.depth < max_search_depth - 1
      → IsReached c idx1 idx2 (next_point c p slot)
  unfolding next_point advance
  next_point-IsReached p slot r lt deep =
      let next : p.depth + 1 ≡ suc p.depth = omega arith in
      record {
        leads = rw next (advance-replay p slot r lt);
        shallow = omega arith;
        small = rw next (bigger p.pathcode p.depth slot r.small lt);
      }

  -- What the search promises of the point that it returns.
  abbrev pub IsFound : Point → Type 0
  IsFound p =
      (p.depth < max_search_depth)
      × (p.pathcode < 2 * width ^ suc p.depth)
      × (replay c idx1 idx2 p.depth (p.pathcode / width)
          ≡ record { table = p.table; index = p.index })
      × ((table_of c p.table).elements p.index (p.pathcode % width) ≡ 0)

  abbrev Promised : Scan → Type 0
  Promised (vacant p) = IsFound p
  Promised (pushed ps) = AllReached c idx1 idx2 ps

  vacancy :
      (p : Point) (slot : ℕ)
      → IsReached c idx1 idx2 p
      → slot < width
      → is_occupied ((table_of c p.table).elements p.index slot) ≡ false
      → IsFound (record p { pathcode = p.pathcode * width + slot })
  vacancy p slot r lt empty =
      let quotient : (p.pathcode * width + slot) / width ≡ p.pathcode = omega arith in
      let digit : (p.pathcode * width + slot) % width ≡ slot = omega arith in
      (
        r.shallow,
        bigger p.pathcode p.depth slot r.small lt,
        rw quotient r.leads,
        rw digit (ground arith),
      )

  longer :
      (p : Point) (slot : ℕ) (acc : List Point)
      → IsReached c idx1 idx2 p
      → AllReached c idx1 idx2 acc
      → slot < width
      → AllReached c idx1 idx2
          (if ltb p.depth (max_search_depth - 1) then acc ++ next_point c p slot ∷ [] else acc)
  longer p slot acc r a lt = elim (Bool-cases (ltb p.depth (max_search_depth - 1))) [
    | inl below ↦ rw below (
        AllReached-append acc (next_point c p slot ∷ []) a
          (next_point-IsReached p slot r lt (ground arith), tt))
    | inr last ↦ rw last a
  ]

  scan-Promised :
      (p : Point) (start n i : ℕ) (acc : List Point)
      → IsReached c idx1 idx2 p
      → AllReached c idx1 idx2 acc
      → Promised (scan c p start n i acc)
  unfolding scan
  scan-Promised p start zero i acc r a = a
  scan-Promised p start (suc n) i acc r a =
      let slot = (start + i) % width in
      elim (Bool-cases (is_occupied ((table_of c p.table).elements p.index slot))) [
        | inl full ↦ rw full (
            scan-Promised p start n (suc i)
              (if ltb p.depth (max_search_depth - 1) then acc ++ next_point c p slot ∷ [] else acc)
              r (longer p slot acc r a (omega arith)))
        | inr empty ↦ rw empty (vacancy p slot r (omega arith) empty)
      ]

  module _ (fuel : ℕ) (point : Point) (q : List Point) (paths : List ℕ) (seeds : Seeds) where
    abbrev value_of : ℕ
    value_of = (table_of c point.table).elements point.index (point.pathcode % width)

    abbrev scanned : Scan
    scanned = scan c point ((xorshf96 seeds).0 % width) width 0 []

    abbrev steps : Option (Option Point × Seeds)
    steps = search_loop c (suc fuel) (point ∷ q) paths seeds

    step_seen : elem value_of paths ≡ true → steps ≡ some (none, seeds)
    unfolding search_loop
    step_seen seen = rw (seen, search_loop)

    step_found :
        (p : Point)
        → elem value_of paths ≡ false
        → scanned ≡ vacant p
        → steps ≡ some (some p, (xorshf96 seeds).1)
    unfolding search_loop
    step_found p fresh e = rw (fresh, e, search_loop)

    step_pushed :
        (ps : List Point)
        → elem value_of paths ≡ false
        → scanned ≡ pushed ps
        → steps ≡ search_loop c fuel (q ++ ps) (value_of ∷ paths) (xorshf96 seeds).1
    unfolding search_loop
    step_pushed ps fresh e = rw (fresh, e, search_loop)

  search_loop_zero :
      (q : List Point) (paths : List ℕ) (seeds : Seeds) → search_loop c 0 q paths seeds ≡ none
  unfolding search_loop
  search_loop_zero q paths seeds = refl

  search_loop_nil :
      (fuel : ℕ) (paths : List ℕ) (seeds : Seeds)
      → search_loop c (suc fuel) [] paths seeds ≡ some (none, seeds)
  unfolding search_loop
  search_loop_nil fuel paths seeds = refl

  search_loop-IsFound :
      (fuel : ℕ) (q : List Point) (paths : List ℕ) (seeds : Seeds) (p : Point) (after : Seeds)
      → AllReached c idx1 idx2 q
      → search_loop c fuel q paths seeds ≡ some (some p, after)
      → IsFound p
  search_loop-IsFound zero q paths seeds p after a run =
      let e = search_loop_zero q paths seeds in cc
  search_loop-IsFound (suc fuel) [] paths seeds p after a run =
      let e = search_loop_nil fuel paths seeds in cc
  search_loop-IsFound (suc fuel) (point ∷ q) paths seeds p after a run =
      let promised = scan-Promised point ((xorshf96 seeds).0 % width) width 0 [] a.0 tt in
      elim (Bool-cases (elem (value_of fuel point q paths seeds) paths)) [
        | inl seen ↦ let stop = step_seen fuel point q paths seeds seen in cc
        | inr fresh ↦ elim (Scan-cases (scanned fuel point q paths seeds)) [
          | inl (p', e) ↦
              let stop = step_found fuel point q paths seeds p' fresh e in
              let same : p' ≡ p = cc in transport (λ i. IsFound (same i)) (rw e at promised)
          | inr (ps, e) ↦
              search_loop-IsFound fuel (q ++ ps) (value_of fuel point q paths seeds ∷ paths)
                (xorshf96 seeds).1 p after (AllReached-append q ps a.1 (rw e at promised))
                (sym (step_pushed fuel point q paths seeds ps fresh e) ∙ run)
        ]
      ]

  first_points : AllReached c idx1 idx2 (start_points idx1 idx2)
  unfolding start_points replay
  first_points = (
    record { leads = refl; shallow = omega arith; small = omega arith },
    (record { leads = refl; shallow = omega arith; small = omega arith }, tt),
  )

  -- A point that the search returns stands less than seven displacements from the two buckets, its
  -- path code is below 2 * 6 ^ (depth + 1), the code without its last digit leads from one of the
  -- two buckets to the point's bucket, and the slot named by the last digit is empty there.
  pub search-IsFound :
      (p : Point) (after : Seeds) → search c idx1 idx2 ≡ some (some p, after) → IsFound p
  unfolding search
  search-IsFound p after run =
      search_loop-IsFound search_fuel (start_points idx1 idx2) [] c.seeds p after first_points run
