-- ===== src/Tests/Examples.antt =====
-- The theorems on the set of CuckooHash/Cuckoo.hpp at concrete inputs.
use concurrent_computing.Prelude.{◌≡◌, refl, arith, not, Option, none, some, [], ◌∷◌}
use concurrent_computing.Tests.Cuckoo.{program, seeds0, fill}
use concurrent_computing.Cuckoo.State.{Seeds, Cuckoo, hash1, hash2}
use concurrent_computing.Cuckoo.Search.{left, right, Point, search}
use concurrent_computing.Cuckoo.Search.Bounds.{search-total}
use concurrent_computing.Cuckoo.Search.Replay.{IsFound, search-IsFound}
use concurrent_computing.Cuckoo.Insert.{Result, put_at, path_of, move}
use concurrent_computing.Cuckoo.Resize.{resize}
use concurrent_computing.Cuckoo.Resize.Kept.{kept}
use concurrent_computing.Cuckoo.Resize.Loss.{resize-kept}
use concurrent_computing.Cuckoo.Ops.{insert, insert_round, remove, construct}
use concurrent_computing.Cuckoo.Contents.{member}
use concurrent_computing.Cuckoo.Placement.{IsValid}
use concurrent_computing.Cuckoo.Edits.{put-IsValid}
use concurrent_computing.Cuckoo.Methods.{Idle, Removed, remove-Removed}
use concurrent_computing.Cuckoo.Methods.Displace.{Keeps, move-Keeps}
use concurrent_computing.Cuckoo.Methods.Insertion.{Granted, insert_at-Grants}
use concurrent_computing.Cuckoo.Methods.Rounds.{Added, Round, insert_round-Round}
use concurrent_computing.Cuckoo.Methods.Room.{insert_with_room}
use concurrent_computing.Cuckoo.Methods.Found.{IsOpen, search-IsOpen}
use concurrent_computing.Cuckoo.Methods.Construct.{construct-IsValid}

-- A set of four buckets that has the value 5, in slot 0 of its bucket of the first table.
abbrev sample : Cuckoo
sample = put_at left 1 0 5 (construct 4 seeds0)

sample-IsValid : IsValid sample
unfolding program member
sample-IsValid =
    put-IsValid (construct 4 seeds0) left 0 5 (construct-IsValid 4 seeds0 (omega arith))
      (omega arith) refl refl (omega arith)

sample-Idle : Idle sample
unfolding program
sample-Idle = record { free = λ i. refl; unlocked = refl }

insert_round_example :
    Round sample 9 (insert_round 9 (hash1 sample.buckets 9) (hash2 sample.buckets 9) sample)
insert_round_example = insert_round-Round sample 9 sample-Idle (omega arith) sample-IsValid

remove_example : (d : Cuckoo) × (remove 5 sample ≡ some (member sample 5, d)) × Removed sample 5 d
remove_example = remove-Removed sample 5 sample-Idle sample-IsValid

insert_at_example : (r : Result) × Granted sample 9 r
insert_at_example = insert_at-Grants sample 9 (omega arith) sample-IsValid

insert_with_room_example :
    (d : Cuckoo) × (insert 1 9 sample ≡ some (some (not (member sample 9)), d)) × Added sample 9 d
unfolding program member
insert_with_room_example = insert_with_room sample 9 sample-Idle (omega arith) sample-IsValid 0 refl

move_example : Keeps sample (
    move
      (record { table = right; index = 1; slot = 3 })
      (record { table = left; index = 1; slot = 0 })
      sample)
unfolding program
move_example =
    move-Keeps sample (record { table = right; index = 1; slot = 3 })
      (record { table = left; index = 1; slot = 0 }) sample-IsValid refl (omega arith) (omega arith)

-- The state that a run leaves.
abbrev left_by {ℓ} : {A : Type ℓ} → Option (A × Cuckoo) → Cuckoo
left_by none = sample
left_by (some (a, c)) = c

resize_run : resize sample ≡ some (tt, left_by (resize sample))
unfolding program
resize_run = refl

resize_example :
    Idle (left_by (resize sample)) × (member (left_by (resize sample)) 5 ≡ kept sample 5)
unfolding program
resize_example =
    resize-kept sample (left_by (resize sample)) sample-Idle refl sample-IsValid resize_run 5
      (omega arith)

-- The first bucket of both tables is full.
abbrev crowded : Cuckoo
crowded =
    left_by
      (fill (3 ∷ 12 ∷ 21 ∷ 30 ∷ 39 ∷ 48 ∷ 9 ∷ 18 ∷ 27 ∷ 36 ∷ 45 ∷ 54 ∷ []) (construct 3 seeds0))

search_example : (r : Option Point × Seeds) × (search crowded 0 0 ≡ some r)
search_example = search-total crowded 0 0

abbrev nowhere : Point
nowhere = record { table = left; index = 0; pathcode = 0; depth = 0 }

-- What the search finds there.
abbrev spot : Point
spot = elim (search crowded 0 0) [
  | none ↦ nowhere
  | some (found, s) ↦ elim found [ none ↦ nowhere | some p ↦ p ]
]

abbrev drawn : Seeds
drawn = elim (search crowded 0 0) [ none ↦ seeds0 | some (found, s) ↦ s ]

search_succeeds : search crowded 0 0 ≡ some (some spot, drawn)
unfolding program
search_succeeds = refl

search-IsFound_example : IsFound crowded 0 0 spot
search-IsFound_example = search-IsFound crowded 0 0 spot drawn search_succeeds

search-IsOpen_example : IsOpen crowded 0 0 (path_of crowded 0 0 spot)
search-IsOpen_example = search-IsOpen crowded 0 0 spot drawn search_succeeds
