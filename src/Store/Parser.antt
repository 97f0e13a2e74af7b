-- ===== src/Store/Parser.antt =====
-- DistributedKeyValueStore/Common/Parser.hpp: `parseNodes`; ServerNode.hpp.
use concurrent_computing.Prelude.{
  ℕ, zero, suc, ◌+◌, ◌-◌, ◌*◌, ◌^◌, ltb, Bool, true, false, Option, none, some, List, [], ◌∷◌, ◌++◌,
  ◌==◌, if◌then◌else◌,
}
use concurrent_computing.Store.Message.{is_digit}
pub mod Roundtrip

pub record ServerNode : Type 0 where
  pub server : List ℕ
  pub port : ℕ

-- Where the loops stand: in a name, from `window` on, or in the port of a name.
pub data Place : Type 0 where
  in_name : List ℕ → Place
  in_port : List ℕ → ℕ → Place

abbrev pub colon : ℕ
colon = 58

-- `nodes.push_back`, for a list that is made from its end.
abbrev pub push_back : ServerNode → Option (List ServerNode) → Option (List ServerNode)
push_back node none = none
push_back node (some nodes) = some (node ∷ nodes)

-- The rest of the line, which ends before a 0. After a port one character is passed over, unseen;
-- `none` if that is the end, since the source then reads past it, and for a port that an `int` cannot
-- count up to.
unfoldable pub parse_from : Place → List ℕ → Option (List ServerNode)
parse_from (in_name window) [] = some []
parse_from (in_port window port) [] = none
parse_from (in_name window) (ch ∷ input) =
    let named = parse_from (in_port window 0) input in
    let more = parse_from (in_name (window ++ ch ∷ [])) input in
    if ch == 0 then some [] else if ch == colon then named else more
parse_from (in_port window port) (ch ∷ input) =
    let more = parse_from (in_port window (port * 10 + ch - 48)) input in
    let rest = parse_from (in_name []) input in
    if is_digit ch
    then (if ltb (port * 10 + ch) (2 ^ 31) then more else none)
    else if ch == 0
    then none
    else push_back (record { server = window; port = port }) rest

unfoldable pub parse_nodes : List ℕ → Option (List ServerNode)
unfolding parse_from
parse_nodes input = parse_from (in_name []) input
