-- ===== src/Store/Message/Digits.antt =====
-- Printed numbers are read back (Message.cpp).
use concurrent_computing.Prelude.{
  ℕ, zero, suc, ◌+◌, ◌-◌, ◌*◌, ◌/◌, ◌%◌, ◌^◌, ◌<◌, ◌≤◌, ◌≡◌, refl, ap, ◌∙◌, arith, Bool, true,
  false, ◌&&◌, List, [], ◌∷◌, ◌++◌, length, ◌==◌, Bool-cases, inl, inr,
}
use concurrent_computing.Store.Message.{
  is_digit, shift_in, first_number, second_number, digits, print_int,
}

-- Digits only.
abbrev pub all_digits : List ℕ → Bool
all_digits [] = true
all_digits (ch ∷ text) = is_digit ch && all_digits text

-- The number that digits stand for after `val`.
unfoldable pub value_of : ℕ → List ℕ → ℕ
value_of val [] = val
value_of val (ch ∷ text) = value_of (val * 10 + (ch - 48)) text

pub shift_in_digit :
    (val ch : ℕ)
    → is_digit ch ≡ true
    → val * 10 + (ch - 48) < 2 ^ 32
    → shift_in val ch ≡ val * 10 + (ch - 48)
unfolding shift_in
shift_in_digit val ch d small = ground arith

pub value_of-le : (val : ℕ) (text : List ℕ) → val ≤ value_of val text
unfolding value_of
value_of-le val [] = omega arith
value_of-le val (ch ∷ text) = omega (arith, value_of-le (val * 10 + (ch - 48)) text)

-- A first number that is followed by another character.
pub first_number-value_of :
    (val : ℕ) (text : List ℕ) (stop : ℕ) (rest : List ℕ)
    → all_digits text ≡ true
    → is_digit stop ≡ false
    → value_of val text < 2 ^ 32
    → first_number val (text ++ stop ∷ rest) ≡ (value_of val text, stop ∷ rest)
unfolding first_number value_of
first_number-value_of val [] stop rest d other small = rw other refl
first_number-value_of val (ch ∷ text) stop rest d other small =
    let d' : is_digit ch ≡ true = ground arith in
    let le = value_of-le (val * 10 + (ch - 48)) text in
    rw (d', shift_in_digit val ch d' (omega arith))
      (first_number-value_of (val * 10 + (ch - 48)) text stop rest (ground arith) other small)

pub second_number-value_of :
    (val : ℕ) (text : List ℕ)
    → all_digits text ≡ true
    → value_of val text < 2 ^ 32
    → second_number val (text ++ 0 ∷ []) ≡ value_of val text
unfolding second_number value_of
second_number-value_of val [] d small = refl
second_number-value_of val (ch ∷ text) d small =
    let d' : is_digit ch ≡ true = ground arith in
    let other : (ch == 0) ≡ false = ground arith in
    let le = value_of-le (val * 10 + (ch - 48)) text in
    rw (other, shift_in_digit val ch d' (omega arith))
      (second_number-value_of (val * 10 + (ch - 48)) text (ground arith) small)

-- Digits in front of others.
digits-all_digits :
    (fuel n : ℕ) (acc : List ℕ) → all_digits acc ≡ true → all_digits (digits fuel n acc) ≡ true
unfolding digits
digits-all_digits zero n acc d = d
digits-all_digits (suc fuel) n acc d =
    let d' : is_digit (n % 10 + 48) ≡ true = ground arith in
    let more = digits-all_digits fuel (n / 10) ((n % 10 + 48) ∷ acc) (ground arith) in ground arith

digits-value_of :
    (fuel n : ℕ) (acc : List ℕ) → n < fuel → value_of 0 (digits fuel n acc) ≡ value_of n acc
unfolding digits value_of
digits-value_of zero n acc lt = absurd (omega arith)
digits-value_of (suc fuel) n acc lt = elim (Bool-cases (n / 10 == 0)) [
  | inl last ↦
      let e : 0 * 10 + (n % 10 + 48 - 48) ≡ n = ground arith in
      rw last (ap (λ (k : ℕ). value_of k acc) e)
  | inr more ↦
      let e : n / 10 * 10 + (n % 10 + 48 - 48) ≡ n = omega arith in
      let smaller : n / 10 < fuel = ground arith in
      rw more (digits-value_of fuel (n / 10) ((n % 10 + 48) ∷ acc) smaller ∙ rw e refl)
]

digits-length : (fuel n : ℕ) (acc : List ℕ) → 0 < fuel → length acc < length (digits fuel n acc)
unfolding digits
digits-length zero n acc pos = absurd (omega arith)
digits-length (suc zero) n acc pos = ground arith
digits-length (suc (suc fuel)) n acc pos =
    let more = digits-length (suc fuel) (n / 10) ((n % 10 + 48) ∷ acc) (omega arith) in ground arith

pub print_int-all_digits : (n : ℕ) → all_digits (print_int n) ≡ true
unfolding print_int
print_int-all_digits n = digits-all_digits (suc n) n [] refl

pub print_int-value_of : (n : ℕ) → value_of 0 (print_int n) ≡ n
unfolding print_int value_of
print_int-value_of n = digits-value_of (suc n) n [] (omega arith)

pub length-print_int : (n : ℕ) → 0 < length (print_int n)
unfolding print_int
length-print_int n = digits-length (suc n) n [] (omega arith)
