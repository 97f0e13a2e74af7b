-- ===== src/Store/Connection.antt =====
-- DistributedKeyValueStore/Common/Connection.cpp: `socket_get_line` and `stream_data`.
-- The calls of `read` and `write` are a list of their outcomes.
use concurrent_computing.Prelude.{
  ℕ, zero, suc, ◌-◌, Bool, true, false, Option, none, some, List, [], ◌∷◌, ◌++◌, length, ◌==◌, ltb,
  leb, if◌then◌else◌,
}
use concurrent_computing.Store.Buffer.{Buffer, empty_buffer, buffer_size, add, current_size}
pub mod Lines
pub mod Streams

-- One call of `read` for one character.
pub data Read : Type 0 where
  got : ℕ → Read
  closed interrupted failed : Read

abbrev pub newline : ℕ
newline = 10

-- A buffer with something in it.
unfoldable pub filled : Buffer → Option Buffer
filled b = if current_size b == 0 then none else some b

-- The loop of `socket_get_line`, and the calls that are left; the outer `none` if the calls run out
-- while it waits, or where `add` fails. The inner `none` is NULL.
unfoldable pub get_line_from : Buffer → List Read → Option (Option Buffer × List Read)
unfolding filled add
get_line_from b [] = none
get_line_from b (got ch ∷ calls) = elim (add ch b) [
  | none ↦ none
  | some longer ↦
      let more = get_line_from longer calls in
      if ch == newline then some (filled longer, calls) else more
]
get_line_from b (closed ∷ calls) = some (filled b, calls)
get_line_from b (interrupted ∷ calls) = get_line_from b calls
get_line_from b (failed ∷ calls) = some (none, calls)

unfoldable pub socket_get_line : List Read → Option (Option Buffer × List Read)
unfolding get_line_from
socket_get_line calls = get_line_from (empty_buffer buffer_size) calls

-- One call of `write`: it takes `n + 1` bytes, or its answer is not positive, with `errno` EINTR or
-- another.
pub data Write : Type 0 where
  took : ℕ → Write
  write_interrupted write_failed : Write

-- The bytes that a call takes, and those that it leaves.
unfoldable pub take : ℕ → List ℕ → List ℕ
take zero xs = []
take (suc n) [] = []
take (suc n) (x ∷ xs) = x ∷ take n xs

unfoldable pub drop : ℕ → List ℕ → List ℕ
drop zero xs = xs
drop (suc n) [] = []
drop (suc n) (x ∷ xs) = drop n xs

-- `stream_data`: 0 is true and -1 is false, with the bytes that were sent; `none` if the calls run out.
unfoldable pub stream_data : List ℕ → List Write → Option (Bool × List ℕ)
unfolding take drop
stream_data [] calls = some (true, [])
stream_data (x ∷ xs) [] = none
stream_data (x ∷ xs) (write_failed ∷ calls) = some (false, [])
stream_data (x ∷ xs) (write_interrupted ∷ calls) = stream_data (x ∷ xs) calls
stream_data (x ∷ xs) (took n ∷ calls) = elim (stream_data (drop (suc n) (x ∷ xs)) calls) [
  | none ↦ none
  | some (ok, sent) ↦ some (ok, take (suc n) (x ∷ xs) ++ sent)
]
