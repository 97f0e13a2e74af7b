-- ===== src/Store/Message/Roundtrip.antt =====
-- A line that is read as a message (Message.cpp).
use concurrent_computing.Prelude.{
  ℕ, suc, ◌-◌, ◌^◌, ◌<◌, ◌≡◌, refl, sym, ap, ◌∙◌, arith, true, false, some, List, [], ◌∷◌, ◌++◌,
  length, length-append, ltb, if◌then◌else◌,
}
use concurrent_computing.Store.Buffer.{Buffer, buffer_size}
use concurrent_computing.Store.Connection.{drop}
use concurrent_computing.Store.Message.{
  get_type, put_type, get_word, get_two_numbers, terminate, is_word, deserialize, char_at, verify,
  print_int,
}
use concurrent_computing.Store.Message.Digits.{
  first_number-value_of, second_number-value_of, print_int-all_digits, print_int-value_of,
  length-print_int,
}

-- A word of three letters, a blank, two numbers, and the end of the line.
abbrev pub line : ℕ → ℕ → ℕ → ℕ → ℕ → List ℕ
line x y z a b = x ∷ y ∷ z ∷ 32 ∷ (print_int a ++ 44 ∷ (print_int b ++ 10 ∷ []))

abbrev pub received : List ℕ → Buffer
received text = record { content = text; max_size = buffer_size }

terminate-last :
    (text : List ℕ) (ch : ℕ) → terminate (length text) (text ++ ch ∷ []) ≡ text ++ 0 ∷ []
unfolding terminate
terminate-last [] ch = refl
terminate-last (x ∷ text) ch = ap (λ (t : List ℕ). x ∷ t) (terminate-last text ch)

append_cons : (xs ys : List ℕ) (c d : ℕ) → (xs ++ c ∷ ys) ++ d ∷ [] ≡ xs ++ c ∷ (ys ++ d ∷ [])
append_cons [] ys c d = refl
append_cons (x ∷ xs) ys c d = ap (λ (t : List ℕ). x ∷ t) (append_cons xs ys c d)

numbers_read :
    (a b : ℕ)
    → a < 2 ^ 31
    → b < 2 ^ 31
    → get_two_numbers (print_int a ++ 44 ∷ (print_int b ++ 0 ∷ [])) ≡ (a, b)
unfolding get_two_numbers drop
numbers_read a b small small' =
    let va = print_int-value_of a in
    let vb = print_int-value_of b in
    let first =
      first_number-value_of 0 (print_int a) 44 (print_int b ++ 0 ∷ []) (print_int-all_digits a) refl
        (omega arith) in
    let second = second_number-value_of 0 (print_int b) (print_int-all_digits b) (omega arith) in
    rw (first, second, va, vb) refl

module _ (x y z a b : ℕ) where
  abbrev body : List ℕ
  body = print_int a ++ 44 ∷ print_int b

  whole : line x y z a b ≡ (x ∷ y ∷ z ∷ 32 ∷ body) ++ 10 ∷ []
  whole =
      ap (λ (t : List ℕ). x ∷ y ∷ z ∷ 32 ∷ t) (sym (append_cons (print_int a) (print_int b) 44 10))

  size : length (line x y z a b) ≡ suc (length (x ∷ y ∷ z ∷ 32 ∷ body))
  size =
      ap (λ (t : List ℕ). length t) whole
      ∙ length-append (x ∷ y ∷ z ∷ 32 ∷ body) (10 ∷ [])
      ∙ omega arith

  ended :
      terminate (length (line x y z a b) - 1) (line x y z a b)
      ≡ x ∷ y ∷ z ∷ 32 ∷ (print_int a ++ 44 ∷ (print_int b ++ 0 ∷ []))
  ended =
      let e : length (line x y z a b) - 1 ≡ length (x ∷ y ∷ z ∷ 32 ∷ body) = omega (arith, size) in
      rw e (
        ap (terminate (length (x ∷ y ∷ z ∷ 32 ∷ body))) whole
        ∙ terminate-last (x ∷ y ∷ z ∷ 32 ∷ body) 10
        ∙ ap (λ (t : List ℕ). x ∷ y ∷ z ∷ 32 ∷ t) (append_cons (print_int a) (print_int b) 44 0))

  -- A line of three characters, a blank, and two numbers below 2 ^ 31 with a comma between them passes
  -- `verify`, and `deserialize` reads the two numbers back; the message is GET if the characters are
  -- GET, and PUT otherwise.
  pub deserialize-line :
      a < 2 ^ 31
      → b < 2 ^ 31
      → (verify (some (received (line x y z a b))) ≡ true)
        × (deserialize (received (line x y z a b)) ≡ record {
          protocol = if is_word get_word (x ∷ y ∷ z ∷ []) then get_type else put_type;
          data_first = a;
          data_second = b;
        })
  unfolding verify deserialize is_word char_at terminate drop
  deserialize-line small small' =
      let la = length-print_int a in
      let lb = length-print_int b in
      let long : ltb (length (line x y z a b)) 8 ≡ false =
        ground (arith, size, length-append (print_int a) (44 ∷ print_int b)) in
      (
        rw long refl,
        rw (ended, deserialize)
            (ap
              (λ (n : ℕ × ℕ). record {
                protocol = if is_word get_word (x ∷ y ∷ z ∷ []) then get_type else put_type;
                data_first = n.0;
                data_second = n.1;
              })
              (numbers_read a b small small')),
      )

-- The size of the memory does not matter.
pub same_content :
    (out : Buffer) (text : List ℕ)
    → out.content ≡ text
    → (verify (some out) ≡ verify (some (received text)))
      × (deserialize out ≡ deserialize (received text))
unfolding verify deserialize
same_content out text e = (rw e refl, rw e refl)
