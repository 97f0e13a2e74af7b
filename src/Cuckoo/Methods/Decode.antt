-- ===== src/Cuckoo/Methods/Decode.antt =====
-- The path that the private `insert` of Cuckoo.hpp reads off a path code.
use Prim.Native.Nat.{ℕ}
use concurrent_computing.Prelude.{
  zero, suc, ◌/◌, ◌%◌, ◌<◌, refl, arith, List, [], ◌∷◌, ◌==◌, Bool-cases, inl, inr,
}
use concurrent_computing.Cuckoo.Table.{width, is_available}
use concurrent_computing.Cuckoo.State.{Cuckoo}
use concurrent_computing.Cuckoo.Search.{Side, left, right, other, table_of, home, Point}
use concurrent_computing.Cuckoo.Insert.{Hop, element, decode, follow, path_of}
use concurrent_computing.Cuckoo.Methods.Displace.{IsPath}

-- At least one slot, and each inside a bucket.
abbrev AreSlots : List ℕ → Type 0
AreSlots [] = ⊥
AreSlots (s ∷ []) = s < width
AreSlots (s ∷ t ∷ ss) = (s < width) × AreSlots (t ∷ ss)

AreSlots-head : (s : ℕ) (ss : List ℕ) → AreSlots (s ∷ ss) → s < width
AreSlots-head s [] a = a
AreSlots-head s (t ∷ ss) a = a.0

AreSlots-cons : (s : ℕ) (ss : List ℕ) → s < width → AreSlots ss → AreSlots (s ∷ ss)
AreSlots-cons s [] h a = h
AreSlots-cons s (t ∷ ss) h a = (h, a)

decode-AreSlots : (n code : ℕ) (acc : List ℕ) → AreSlots acc → AreSlots (decode n code acc).1
unfolding decode
decode-AreSlots zero code acc a = a
decode-AreSlots (suc n) code acc a =
    decode-AreSlots n (code / width) (code % width ∷ acc)
      (AreSlots-cons (code % width) acc (omega arith) a)

decode-suc : (n code : ℕ) → AreSlots (decode (suc n) code []).1
unfolding decode
decode-suc n code = decode-AreSlots n (code / width) (code % width ∷ []) (omega arith)

IsPath-cons :
    (b v : ℕ) (h : Hop) (hs : List Hop) → h.slot < width → IsPath b v hs → IsPath b v (h ∷ hs)
IsPath-cons b v h [] lt p = absurd p
IsPath-cons b v h (g ∷ hs) lt p = (lt, p)

module _ (c : Cuckoo) (b v : ℕ) where
  -- Entries go in front of those that are there.
  follow-IsPath :
      (side : Side) (idx : ℕ) (s : ℕ) (slots : List ℕ) (acc : List Hop)
      → AreSlots (s ∷ slots)
      → IsPath b v (record { table = side; index = idx; slot = s } ∷ acc)
      → IsPath b v (follow c side idx (s ∷ slots) acc)
  unfolding follow
  follow-IsPath side idx s [] acc a p = elim (Bool-cases (is_available (table_of c side) idx s)) [
    | inl free ↦ rw free p
    | inr full ↦ rw full p
  ]
  follow-IsPath side idx s (t ∷ slots) acc a p =
      let next = home c.buckets (other side) (element c side idx s) in
      let more =
        follow-IsPath (other side) next t slots
          (record { table = side; index = idx; slot = s } ∷ acc) a.1
          (IsPath-cons b v (record { table = other side; index = next; slot = t })
            (record { table = side; index = idx; slot = s } ∷ acc) (AreSlots-head t slots a.1) p) in
      elim (Bool-cases (is_available (table_of c side) idx s)) [
        | inl free ↦ rw free p
        | inr full ↦ rw full more
      ]

  first_IsPath :
      (side : Side) (slots : List ℕ)
      → AreSlots slots
      → IsPath b v (follow c side (home b side v) slots [])
  first_IsPath side [] a = absurd a
  first_IsPath side (s ∷ slots) a =
      follow-IsPath side (home b side v) s slots [] a (AreSlots-head s slots a, refl)

  -- From the two buckets of `v` every path code leads to a path.
  pub path_of-IsPath :
      (point : Point) → IsPath b v (path_of c (home b left v) (home b right v) point)
  unfolding path_of
  path_of-IsPath point =
      let slots = decode-suc point.depth point.pathcode in
      elim (Bool-cases ((decode (suc point.depth) point.pathcode []).0 == 0)) [
        | inl e ↦ rw e (first_IsPath left _ slots)
        | inr e ↦ rw e (first_IsPath right _ slots)
      ]
