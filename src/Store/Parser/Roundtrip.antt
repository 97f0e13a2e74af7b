-- ===== src/Store/Parser/Roundtrip.antt =====
-- A list of servers is read back (Parser.hpp).
use concurrent_computing.Prelude.{
  ℕ, ◌+◌, ◌-◌, ◌*◌, ◌^◌, ◌<◌, ◌≡◌, ◌≢◌, ltb, refl, sym, ap, ◌∙◌, arith, Bool, true, false, not,
  ◌&&◌, some, List, [], ◌∷◌, ◌++◌, ◌==◌,
}
use concurrent_computing.Store.Connection.Streams.{append_assoc}
use concurrent_computing.Store.Message.{is_digit, print_int}
use concurrent_computing.Store.Message.Digits.{
  all_digits, value_of, value_of-le, print_int-all_digits, print_int-value_of,
}
use concurrent_computing.Store.Parser.{ServerNode, in_name, in_port, colon, parse_from, parse_nodes}

-- No character is a colon or 0.
abbrev pub plain : List ℕ → Bool
plain [] = true
plain (ch ∷ text) = not (ch == colon) && not (ch == 0) && plain text

-- `name:port` and one character behind it, for each server.
abbrev pub print_nodes : List (ServerNode × ℕ) → List ℕ
print_nodes [] = []
print_nodes ((n, stop) ∷ nodes) = n.server ++ colon ∷ (print_int n.port ++ stop ∷ print_nodes nodes)

abbrev pub servers : List (ServerNode × ℕ) → List ServerNode
servers [] = []
servers ((n, stop) ∷ nodes) = n ∷ servers nodes

-- Names without a colon or 0, ports that an `int` counts up to, and characters behind them that are
-- no digits and not 0.
abbrev pub ArePlain : List (ServerNode × ℕ) → Type 0
ArePlain [] = Unit
ArePlain ((n, stop) ∷ nodes) =
    (plain n.server ≡ true)
    × (n.port + 48 < 2 ^ 31)
    × (is_digit stop ≡ false)
    × (stop ≢ 0)
    × ArePlain nodes

append_nil : (xs : List ℕ) → xs ++ [] ≡ xs
append_nil [] = refl
append_nil (x ∷ xs) = ap (λ (ys : List ℕ). x ∷ ys) (append_nil xs)

name_read :
    (window name rest : List ℕ)
    → plain name ≡ true
    → parse_from (in_name window) (name ++ colon ∷ rest)
      ≡ parse_from (in_port (window ++ name) 0) rest
unfolding parse_from
name_read window [] rest fine =
    ap (λ (w : List ℕ). parse_from (in_port w 0) rest) (sym (append_nil window))
name_read window (ch ∷ name) rest fine =
    let other : (ch == colon) ≡ false = ground arith in
    let inside : (ch == 0) ≡ false = ground arith in
    rw (inside, other, parse_from)
      (name_read (window ++ ch ∷ []) name rest (ground arith)
        ∙ ap (λ (w : List ℕ). parse_from (in_port w 0) rest) (append_assoc window (ch ∷ []) name))

port_read :
    (window text rest : List ℕ) (port : ℕ)
    → all_digits text ≡ true
    → value_of port text + 48 < 2 ^ 31
    → parse_from (in_port window port) (text ++ rest)
      ≡ parse_from (in_port window (value_of port text)) rest
unfolding parse_from value_of
port_read window [] rest port fine small = refl
port_read window (ch ∷ text) rest port fine small =
    let d : is_digit ch ≡ true = ground arith in
    let le = value_of-le (port * 10 + (ch - 48)) text in
    let next : port * 10 + ch - 48 ≡ port * 10 + (ch - 48) = ground (arith, d) in
    let room : ltb (port * 10 + ch) (2 ^ 31) ≡ true = ground (arith, d, le, small) in
    rw (d, room, next, parse_from)
      (port_read window text rest (port * 10 + (ch - 48)) (ground arith) small)

pushed :
    (window rest : List ℕ) (port stop : ℕ) (nodes : List ServerNode)
    → is_digit stop ≡ false
    → stop ≢ 0
    → parse_from (in_name []) rest ≡ some nodes
    → parse_from (in_port window port) (stop ∷ rest)
      ≡ some (record { server = window; port = port } ∷ nodes)
unfolding parse_from
pushed window rest port stop nodes other more e =
    let inside : (stop == 0) ≡ false = ground (arith, more) in
    rw (other, inside, e, parse_from) refl

-- A line of servers, each a name without a colon, a colon, a port below 2 ^ 31 - 48, and one
-- character behind it that is not a digit, is parsed to these servers in their order. No character
-- of it is 0.
pub parse_nodes-print_nodes :
    (nodes : List (ServerNode × ℕ))
    → ArePlain nodes
    → parse_nodes (print_nodes nodes) ≡ some (servers nodes)
unfolding parse_nodes
parse_nodes-print_nodes [] fine = unfold parse_from in refl
parse_nodes-print_nodes ((n, stop) ∷ nodes) (plain_name, small, other, more, fine) =
    let value = print_int-value_of n.port in
    name_read [] n.server (print_int n.port ++ stop ∷ print_nodes nodes) plain_name
    ∙ port_read n.server (print_int n.port) (stop ∷ print_nodes nodes) 0
        (print_int-all_digits n.port) (omega (arith, value, small))
    ∙ rw value (
        pushed n.server (print_nodes nodes) n.port stop (servers nodes) other more
          (parse_nodes-print_nodes nodes fine))
