-- ===== src/Cuckoo/Methods/Found.antt =====
-- The path that the private `insert` of Cuckoo.hpp reads off the path code of a search that succeeds.
use concurrent_computing.Prelude.{
  ℕ, zero, suc, ◌/◌, ◌%◌, ◌≡◌, refl, ◌∙◌, arith, true, some, List, [], ◌∷◌, ◌==◌, if◌then◌else◌,
  Bool-cases, ◌⊎◌, inl, inr,
}
use concurrent_computing.Cuckoo.Table.{width, is_occupied, is_available}
use concurrent_computing.Cuckoo.State.{Seeds, Cuckoo}
use concurrent_computing.Cuckoo.Search.{left, right, other, table_of, home, Point, search}
use concurrent_computing.Cuckoo.Search.Replay.{Place, advance, replay, IsFound, search-IsFound}
use concurrent_computing.Cuckoo.Insert.{Hop, element, decode, follow, path_of}

module _ (c : Cuckoo) (idx1 idx2 : ℕ) where
  -- The first entry of a path stands in one of the two buckets, every other one where the value
  -- of the entry before it may go, and all entries but the last are occupied. The last one, which
  -- is the head of the list, is `h`.
  abbrev IsLinked : Hop → List Hop → Type 0
  IsLinked h [] = ((h.table ≡ left) × (h.index ≡ idx1)) ⊎ ((h.table ≡ right) × (h.index ≡ idx2))
  IsLinked h (g ∷ gs) =
      (h.table ≡ other g.table)
      × (h.index ≡ home c.buckets (other g.table) (element c g.table g.index g.slot))
      × (is_occupied (element c g.table g.index g.slot) ≡ true)
      × IsLinked g gs

  -- Such a path that ends in an empty slot.
  abbrev pub IsOpen : List Hop → Type 0
  IsOpen [] = ⊥
  IsOpen (h ∷ hs) = (element c h.table h.index h.slot ≡ 0) × IsLinked h hs

  -- Where the last of some slots is.
  reach : Place → List ℕ → Place × ℕ
  reach p [] = (p, 0)
  reach p (s ∷ []) = (p, s)
  reach p (s ∷ t ∷ ss) = reach (advance c p s) (t ∷ ss)

  reach-cons :
      (p : Place) (s t : ℕ) (ss : List ℕ) → reach p (s ∷ t ∷ ss) ≡ reach (advance c p s) (t ∷ ss)
  unfolding reach
  reach-cons p s t ss = refl

  base : ℕ → Place
  base code =
      if code == 0
      then record { table = left; index = idx1 }
      else record { table = right; index = idx2 }

  decode-reach :
      (n code s : ℕ) (ss : List ℕ)
      → reach (base (decode n code (s ∷ ss)).0) (decode n code (s ∷ ss)).1
        ≡ reach (replay c idx1 idx2 n code) (s ∷ ss)
  unfolding decode replay base
  decode-reach zero code s ss = refl
  decode-reach (suc n) code s ss =
      decode-reach n (code / width) (code % width) (s ∷ ss)
      ∙ reach-cons (replay c idx1 idx2 n (code / width)) (code % width) s ss

  abbrev EndsEmpty : Place × ℕ → Type 0
  EndsEmpty (p, s) = element c p.table p.index s ≡ 0

  reach_last : (p : Place) (s : ℕ) → element c p.table p.index s ≡ 0 → EndsEmpty (reach p (s ∷ []))
  unfolding reach
  reach_last p s empty = empty

  follow-IsOpen :
      (p : Place) (s : ℕ) (slots : List ℕ) (acc : List Hop)
      → IsLinked (record { table = p.table; index = p.index; slot = s }) acc
      → EndsEmpty (reach p (s ∷ slots))
      → IsOpen (follow c p.table p.index (s ∷ slots) acc)
  unfolding follow reach advance
  follow-IsOpen p s [] acc linked empty =
      elim (Bool-cases (is_available (table_of c p.table) p.index s)) [
        | inl free ↦ rw free (empty, linked)
        | inr full ↦ rw full (empty, linked)
      ]
  follow-IsOpen p s (t ∷ slots) acc linked empty =
      elim (Bool-cases (is_available (table_of c p.table) p.index s)) [
        | inl free ↦ rw free (ground arith, linked)
        | inr full ↦ rw full (
            follow-IsOpen (advance c p s) t slots
              (record { table = p.table; index = p.index; slot = s } ∷ acc)
              (refl, refl, ground arith, linked) empty)
      ]

  start_IsOpen :
      (code : ℕ) (slots : List ℕ) (s : ℕ) (ss : List ℕ)
      → slots ≡ s ∷ ss
      → EndsEmpty (reach (base code) slots)
      → IsOpen (if code == 0 then follow c left idx1 slots [] else follow c right idx2 slots [])
  unfolding base
  start_IsOpen code slots s ss e empty = elim (Bool-cases (code == 0)) [
    | inl zeroth ↦
        rw (zeroth, e)
          (follow-IsOpen (record { table = left; index = idx1 }) s ss [] (inl (refl, refl))
            (rw (zeroth, e) at empty))
    | inr first ↦
        rw (first, e)
          (follow-IsOpen (record { table = right; index = idx2 }) s ss [] (inr (refl, refl))
            (rw (first, e) at empty))
  ]

  decode_nonempty :
      (n code s : ℕ) (ss : List ℕ) → (t : ℕ) × (ts : List ℕ) × ((decode n code (s ∷ ss)).1 ≡ t ∷ ts)
  unfolding decode
  decode_nonempty zero code s ss = (s, ss, refl)
  decode_nonempty (suc n) code s ss = decode_nonempty n (code / width) (code % width) (s ∷ ss)

  path_of-IsOpen : (p : Point) → IsFound c idx1 idx2 p → IsOpen (path_of c idx1 idx2 p)
  unfolding path_of decode
  path_of-IsOpen p (shallow, small, leads, empty) =
      let (t, ts, e) = decode_nonempty p.depth (p.pathcode / width) (p.pathcode % width) [] in
      let place = decode-reach p.depth (p.pathcode / width) (p.pathcode % width) [] in
      start_IsOpen (decode p.depth (p.pathcode / width) (p.pathcode % width ∷ [])).0
        (decode p.depth (p.pathcode / width) (p.pathcode % width ∷ [])).1 t ts e
        (rw (place, leads)
          (reach_last (record { table = p.table; index = p.index }) (p.pathcode % width) empty))

  -- The path that is read off a search that succeeds, in the tables that were searched, begins in
  -- one of the two buckets; every other entry stands where the value of the one before it may go;
  -- all entries but the last are occupied; and the last one is empty.
  pub search-IsOpen :
      (p : Point) (after : Seeds)
      → search c idx1 idx2 ≡ some (some p, after)
      → IsOpen (path_of c idx1 idx2 p)
  search-IsOpen p after run = path_of-IsOpen p (search-IsFound c idx1 idx2 p after run)
