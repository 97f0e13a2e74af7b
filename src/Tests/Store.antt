-- ===== src/Tests/Store.antt =====
-- The messages, the connection and the parser of DistributedKeyValueStore/Common at concrete inputs.
use concurrent_computing.Prelude.{
  ℕ, ◌≡◌, refl, arith, true, none, some, List, [], ◌∷◌, ◌++◌, is_some,
}
use concurrent_computing.Store.Buffer.{Buffer}
use concurrent_computing.Store.Connection.{
  Read, got, interrupted, newline, socket_get_line, took, write_interrupted, stream_data, drop,
}
use concurrent_computing.Store.Connection.Lines.{brought, socket_get_line-brought}
use concurrent_computing.Store.Connection.Streams.{IsSent, stream_data-IsSent, stream_data-returns}
use concurrent_computing.Store.Message.{
  put_type, Message, is_word, deserialize, verify, char_at, terminate, get_two_numbers,
  first_number, second_number, shift_in, print_int, digits,
}
use concurrent_computing.Store.Message.Roundtrip.{received}
use concurrent_computing.Store.LazyList.{add_node, contains, can_lock, validate_link, new_list}
use concurrent_computing.Store.LazyList.Sorted.{IsValid}
use concurrent_computing.Store.HashMap.{
  HashMap, new_map, translate, map_contains, map_add, map_remove,
}
use concurrent_computing.Store.HashMap.Methods.{value_at, Changes, map_remove-Changes}
use concurrent_computing.Store.Service.{
  response_text, apply_message, handle_message, send_text, get_request, insert_request,
}
use concurrent_computing.Store.Service.Messages.{deserialize-send_text}
use concurrent_computing.Store.Parser.{ServerNode, parse_nodes}
use concurrent_computing.Store.Parser.Roundtrip.{print_nodes, servers, parse_nodes-print_nodes}

abbrev order : Message
order = record { protocol = put_type; data_first = 5; data_second = 42 }

-- "PUT 5,42", with an interruption.
abbrev reads : List Read
reads = got 80 ∷ got 85 ∷ interrupted ∷ got 84 ∷ got 32 ∷ got 53 ∷ got 44 ∷ got 52 ∷ got 50 ∷ []

order_written : brought reads ++ newline ∷ [] ≡ send_text order
unfolding send_text print_int
order_written = refl

order_example :
    (out : Buffer) × (socket_get_line (reads ++ got newline ∷ []) ≡ some (some out, []))
    × (verify (some out) ≡ true)
    × (deserialize out ≡ order)
order_example =
    deserialize-send_text order reads [] (λ e. cc) (omega arith) (omega arith) refl (omega arith)
      order_written

get_line_example :
    (out : Buffer) × (socket_get_line (reads ++ got newline ∷ got 1 ∷ [])
      ≡ some (some out, got 1 ∷ []))
    × (out.content ≡ brought reads ++ newline ∷ [])
get_line_example = socket_get_line-brought reads (got 1 ∷ []) refl (omega arith)

stream_example : IsSent (1 ∷ 2 ∷ 3 ∷ []) (true, 1 ∷ 2 ∷ 3 ∷ [])
unfolding stream_data
stream_example =
    stream_data-IsSent (1 ∷ 2 ∷ 3 ∷ []) (took 0 ∷ write_interrupted ∷ took 1 ∷ [])
      (true, 1 ∷ 2 ∷ 3 ∷ []) refl

stream_ends_example :
    stream_data (1 ∷ 2 ∷ []) (took 0 ∷ write_interrupted ∷ took 4 ∷ []) ≡ some (true, 1 ∷ 2 ∷ [])
stream_ends_example =
    stream_data-returns (1 ∷ 2 ∷ []) (took 0 ∷ write_interrupted ∷ took 4 ∷ []) refl (omega arith)

-- "1.2:9000,a:80" and the end of the line.
abbrev listed : List (ServerNode × ℕ)
listed =
    (record { server = 49 ∷ 46 ∷ 50 ∷ []; port = 9000 }, 44)
    ∷ (record { server = 97 ∷ []; port = 80 }, 10)
    ∷ []

parse_example : parse_nodes (print_nodes listed) ≡ some (servers listed)
parse_example =
    parse_nodes-print_nodes listed
      (refl, omega arith, refl, (λ e. cc), (refl, omega arith, refl, (λ e. cc), tt))

-- A line that ends with a port is read past its end.
parse_overrun : parse_nodes (97 ∷ 58 ∷ 56 ∷ []) ≡ none
unfolding parse_nodes
parse_overrun = refl

-- A store of four lists.
abbrev fresh_store : HashMap
fresh_store = new_map 4

fresh-IsValid : (i : ℕ) → IsValid (fresh_store.lists i)
unfolding new_map new_list
fresh-IsValid i = (refl, refl, (omega arith, refl, refl))

map_remove_example :
    Changes fresh_store 7 (is_some (value_at fresh_store 7)) none (map_remove fresh_store 7)
map_remove_example = map_remove-Changes fresh_store fresh-IsValid 7 (omega arith) (omega arith)

-- The replies to some lines, one after the other.
abbrev replies : HashMap → List (List ℕ) → List (List ℕ)
replies store [] = []
replies store (text ∷ texts) = elim (handle_message store (some (received text))) [
  | none ↦ []
  | some (reply, store') ↦ reply ∷ replies store' texts
]

-- A key is added once, and found; another is not; a line without a blank is refused.
service_replies :
    replies fresh_store (
      send_text (insert_request 5 42)
      ∷ send_text (insert_request 5 1)
      ∷ send_text (get_request 5)
      ∷ send_text (get_request 6)
      ∷ (71 ∷ 69 ∷ 84 ∷ 53 ∷ 44 ∷ 48 ∷ 48 ∷ 10 ∷ [])
      ∷ [])
    ≡ (49 ∷ 10 ∷ []) ∷ (48 ∷ 10 ∷ []) ∷ (49 ∷ 10 ∷ []) ∷ (48 ∷ 10 ∷ []) ∷ (45 ∷ 49 ∷ 10 ∷ []) ∷ []
unfolding handle_message apply_message map_contains map_add add_node contains can_lock validate_link
    translate new_map new_list verify char_at deserialize is_word terminate get_two_numbers
    first_number second_number shift_in drop send_text insert_request get_request print_int digits
    response_text
service_replies = refl

-- A minus sign is not read: the line of the pair (-5, 7).
minus_unread :
    deserialize (received (80 ∷ 85 ∷ 84 ∷ 32 ∷ 45 ∷ 53 ∷ 44 ∷ 55 ∷ 10 ∷ []))
    ≡ record { protocol = put_type; data_first = 0; data_second = 467 }
unfolding deserialize is_word terminate get_two_numbers first_number second_number shift_in drop
minus_unread = refl
