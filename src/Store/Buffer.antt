-- ===== src/Store/Buffer.antt =====
-- DistributedKeyValueStore/Common/Connection.cpp, class `Buffer`.
use concurrent_computing.Prelude.{
  ℕ, ◌+◌, ◌*◌, ◌%◌, ◌^◌, ◌++◌, ◌≤◌, ◌<◌, ◌≡◌, refl, arith, Option, none, some, List, [], ◌∷◌, ltb,
  true, false, Bool-cases, inl, inr, length, length-append, ◌==◌, if◌then◌else◌,
}

-- `data` up to `currentSize`, which is its length.
pub record Buffer : Type 0 where
  pub content : List ℕ
  pub max_size : ℕ

abbrev pub buffer_size : ℕ
buffer_size = 8196

abbrev pub empty_buffer : ℕ → Buffer
empty_buffer size = record { content = []; max_size = size }

abbrev pub current_size : Buffer → ℕ
current_size b = length b.content

-- The new size is an `unsigned int`; `none` where that leaves no room for the next character, which
-- the source then writes behind its memory.
unfoldable pub grow : Buffer → Option Buffer
grow b =
    let size = (b.max_size * 2 + 1) % 2 ^ 32 in
    if current_size b == b.max_size
    then (if ltb (current_size b) size then some (record b { max_size = size }) else none)
    else some b

-- `add`
unfoldable pub add : ℕ → Buffer → Option Buffer
unfolding grow
add ch b = elim (grow b) [
  | none ↦ none
  | some grown ↦ some (record grown { content = b.content ++ ch ∷ [] })
]

-- The content fits the memory, and has less than 2 ^ 31 characters.
pub record Fits (b : Buffer) : Type 0 where
  pub inside : current_size b ≤ b.max_size
  pub small : current_size b < 2 ^ 31

-- What `add` leaves when the content fits.
pub record Added (ch : ℕ) (b : Buffer) : Type 0 where
  pub after : Buffer
  pub returns : add ch b ≡ some after
  pub content : after.content ≡ b.content ++ ch ∷ []
  pub inside : current_size after ≤ after.max_size

add-grown :
    (ch : ℕ) (b grown : Buffer)
    → grow b ≡ some grown
    → add ch b ≡ some (record grown { content = b.content ++ ch ∷ [] })
unfolding add
add-grown ch b grown e = rw (e, add) refl

grow-full :
    (b : Buffer)
    → (current_size b == b.max_size) ≡ true
    → ltb (current_size b) ((b.max_size * 2 + 1) % 2 ^ 32) ≡ true
    → grow b ≡ some (record b { max_size = (b.max_size * 2 + 1) % 2 ^ 32 })
unfolding grow
grow-full b full room = rw (full, room) refl

grow-free : (b : Buffer) → (current_size b == b.max_size) ≡ false → grow b ≡ some b
unfolding grow
grow-free b free = rw free refl

pub add-Fits : (ch : ℕ) (b : Buffer) → Fits b → Added ch b
add-Fits ch b fits =
    let size = (b.max_size * 2 + 1) % 2 ^ 32 in
    let longer = length-append b.content (ch ∷ []) in
    elim (Bool-cases (current_size b == b.max_size)) [
      | inl full ↦
          let room : ltb (current_size b) size ≡ true =
            ground (arith, full, fits.small, fits.inside) in
          record {
            after = record { content = b.content ++ ch ∷ []; max_size = size };
            returns = add-grown ch b (record b { max_size = size }) (grow-full b full room);
            content = refl;
            inside = ground (arith, room, longer);
          }
      | inr free ↦ record {
        after = record b { content = b.content ++ ch ∷ [] };
        returns = add-grown ch b b (grow-free b free);
        content = refl;
        inside = ground (arith, free, fits.inside, longer);
      }
    ]
