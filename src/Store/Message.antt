-- ===== src/Store/Message.antt =====
-- DistributedKeyValueStore/Common/Message.cpp: the two messages and their text.
-- An `int` is its 32-bit pattern.
use concurrent_computing.Prelude.{
  ℕ, zero, suc, ◌+◌, ◌-◌, ◌*◌, ◌/◌, ◌%◌, ◌^◌, Bool, true, false, not, ◌&&◌, Option, none, some,
  List, [], ◌∷◌, ◌++◌, length, ltb, leb, ◌==◌, if◌then◌else◌,
}
use concurrent_computing.Store.Buffer.{Buffer, current_size}
use concurrent_computing.Store.Connection.{drop}
pub mod Digits
pub mod Roundtrip

pub data MessageType : Type 0 where
  get_type put_type invalid_type : MessageType

pub record Message : Type 0 where
  pub protocol : MessageType
  pub data_first : ℕ
  pub data_second : ℕ

abbrev pub is_digit : ℕ → Bool
is_digit ch = leb 48 ch && leb ch 57

-- `val * 10 + ch - '0'`
unfoldable pub shift_in : ℕ → ℕ → ℕ
shift_in val ch = (val * 10 + ch + (2 ^ 32 - 48)) % 2 ^ 32

-- The loop over the first number, with the text behind it.
unfoldable pub first_number : ℕ → List ℕ → ℕ × List ℕ
unfolding shift_in
first_number val [] = (val, [])
first_number val (ch ∷ text) =
    let more = first_number (shift_in val ch) text in if is_digit ch then more else (val, ch ∷ text)

-- The loop over the second number, up to the end of the text.
unfoldable pub second_number : ℕ → List ℕ → ℕ
unfolding shift_in
second_number val [] = val
second_number val (ch ∷ text) =
    let more = second_number (shift_in val ch) text in if ch == 0 then val else more

-- Behind the buffer's content its memory is zero.
unfoldable pub get_two_numbers : List ℕ → ℕ × ℕ
unfolding first_number second_number drop
get_two_numbers text =
    let (val_1, rest) = first_number 0 text in (val_1, second_number 0 (drop 1 rest))

-- `data[i] = '\0'`
unfoldable pub terminate : ℕ → List ℕ → List ℕ
terminate i [] = []
terminate zero (ch ∷ text) = 0 ∷ text
terminate (suc i) (ch ∷ text) = ch ∷ terminate i text

-- `strcmp(text, word) == 0` for a word without its zero.
unfoldable pub is_word : List ℕ → List ℕ → Bool
is_word [] [] = true
is_word [] (ch ∷ text) = ch == 0
is_word (w ∷ word) [] = false
is_word (w ∷ word) (ch ∷ text) = ch == w && is_word word text

-- "GET" and "PUT "
abbrev pub get_word : List ℕ
get_word = 71 ∷ 69 ∷ 84 ∷ []

unfoldable pub deserialize : Buffer → Message
unfolding get_two_numbers terminate is_word drop
deserialize protocol =
    let content = terminate 3 (terminate (current_size protocol - 1) protocol.content) in
    let numbers = get_two_numbers (drop 4 content) in
    record {
      protocol = if is_word get_word content then get_type else put_type;
      data_first = numbers.0;
      data_second = numbers.1;
    }

-- `data[i]`
unfoldable pub char_at : ℕ → List ℕ → ℕ
char_at i [] = 0
char_at zero (ch ∷ text) = ch
char_at (suc i) (ch ∷ text) = char_at i text

-- `none` is NULL.
unfoldable pub verify : Option Buffer → Bool
unfolding char_at
verify none = false
verify (some protocol) =
    if ltb (current_size protocol) 8
    then false
    else if not (char_at 3 protocol.content == 32)
    then false
    else true

-- The decimal digits of `%d` for a number that is not negative, before those in `acc`; each round
-- takes away one digit.
unfoldable pub digits : ℕ → ℕ → List ℕ → List ℕ
digits zero n acc = acc
digits (suc fuel) n acc =
    let more = digits fuel (n / 10) ((n % 10 + 48) ∷ acc) in
    if n / 10 == 0 then (n % 10 + 48) ∷ acc else more

unfoldable pub print_int : ℕ → List ℕ
unfolding digits
print_int n = digits (suc n) n []
