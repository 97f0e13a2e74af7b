-- ===== src/Store/Connection/Lines.antt =====
-- The line that `socket_get_line` (Connection.cpp) reads.
use concurrent_computing.Prelude.{
  ℕ, ◌≡◌, refl, ◌∙◌, arith, Bool, true, false, some, List, [], ◌∷◌, ◌++◌, ◌==◌, not, ◌&&◌,
  length-append, length, ap, ◌+◌, ◌<◌, ◌≤◌, ◌^◌,
}
use concurrent_computing.Store.Connection.Streams.{append_assoc}
use concurrent_computing.Store.Buffer.{
  Buffer, empty_buffer, buffer_size, current_size, add, add-Fits,
}
use concurrent_computing.Store.Connection.{
  Read, got, closed, interrupted, failed, newline, filled, get_line_from, socket_get_line,
}

-- What the calls bring.
abbrev pub brought : List Read → List ℕ
brought [] = []
brought (got ch ∷ calls) = ch ∷ brought calls
brought (closed ∷ calls) = brought calls
brought (interrupted ∷ calls) = brought calls
brought (failed ∷ calls) = brought calls

-- They bring characters of one line, or are interrupted.
abbrev pub in_line : List Read → Bool
in_line [] = true
in_line (got ch ∷ calls) = not (ch == newline) && in_line calls
in_line (closed ∷ calls) = false
in_line (interrupted ∷ calls) = in_line calls
in_line (failed ∷ calls) = false

filled_end : (b : Buffer) (xs : List ℕ) (ch : ℕ) → b.content ≡ xs ++ ch ∷ [] → filled b ≡ some b
unfolding filled
filled_end b xs ch e =
    let longer = length-append xs (ch ∷ []) in
    let size : (length b.content == 0) ≡ false = rw e (ground (arith, longer)) in rw size refl

step_more :
    (ch : ℕ) (b longer : Buffer) (calls : List Read)
    → add ch b ≡ some longer
    → (ch == newline) ≡ false
    → get_line_from b (got ch ∷ calls) ≡ get_line_from longer calls
unfolding get_line_from
step_more ch b longer calls e other = rw (e, get_line_from, other) refl

step_end :
    (b longer : Buffer) (calls : List Read)
    → add newline b ≡ some longer
    → longer.content ≡ b.content ++ newline ∷ []
    → get_line_from b (got newline ∷ calls) ≡ some (some longer, calls)
unfolding get_line_from
step_end b longer calls e content =
    rw (e, get_line_from, filled_end longer b.content newline content) refl

get_line_from-brought :
    (calls rest : List Read) (b : Buffer)
    → in_line calls ≡ true
    → current_size b ≤ b.max_size
    → length b.content + length (brought calls) < 2 ^ 31
    → (out : Buffer) × (get_line_from b (calls ++ got newline ∷ rest) ≡ some (some out, rest))
      × (out.content ≡ b.content ++ (brought calls ++ newline ∷ []))
unfolding get_line_from
get_line_from-brought [] rest b fine inside small =
    let a = add-Fits newline b (record { inside = inside; small = omega (arith, small) }) in
    (a.after, step_end b a.after rest a.returns a.content, a.content)
get_line_from-brought (interrupted ∷ calls) rest b fine inside small =
    get_line_from-brought calls rest b fine inside small
get_line_from-brought (closed ∷ calls) rest b fine inside small = cc
get_line_from-brought (failed ∷ calls) rest b fine inside small = cc
get_line_from-brought (got ch ∷ calls) rest b fine inside small =
    let a = add-Fits ch b (record { inside = inside; small = omega (arith, small) }) in
    let other : (ch == newline) ≡ false = ground arith in
    let longer = length-append b.content (ch ∷ []) in
    let size : length a.after.content ≡ length b.content + 1 =
      ap (λ (xs : List ℕ). length xs) a.content ∙ longer in
    let (out, run, content) =
      get_line_from-brought calls rest a.after (ground arith) a.inside
        (omega (arith, size, small)) in
    (
      out,
      step_more ch b a.after (calls ++ got newline ∷ rest) a.returns other ∙ run,
      content
          ∙ ap (λ (xs : List ℕ). xs ++ (brought calls ++ newline ∷ [])) a.content
          ∙ append_assoc b.content (ch ∷ []) (brought calls ++ newline ∷ []),
    )

-- When the calls of `read` bring fewer than 2 ^ 31 characters of a line and then its end,
-- interrupted any number of times, `socket_get_line` returns exactly the line with its end and makes
-- no call after that.
pub socket_get_line-brought :
    (calls rest : List Read)
    → in_line calls ≡ true
    → length (brought calls) < 2 ^ 31
    → (out : Buffer) × (socket_get_line (calls ++ got newline ∷ rest) ≡ some (some out, rest))
      × (out.content ≡ brought calls ++ newline ∷ [])
unfolding socket_get_line
socket_get_line-brought calls rest fine small =
    get_line_from-brought calls rest (empty_buffer buffer_size) fine (omega arith)
      (omega (arith, small))
