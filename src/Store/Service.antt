-- ===== src/Store/Service.antt =====
-- DistributedKeyValueStore: `handleMessage` of Persistence/Server.cpp, and the messages of App/Remote.cpp.
use concurrent_computing.Prelude.{
  ℕ, zero, suc, ◌+◌, ◌-◌, ◌%◌, ◌^◌, ◌++◌, Bool, true, false, Option, none, some, List, [], ◌∷◌,
  length, ◌==◌, if◌then◌else◌,
}
use concurrent_computing.Store.Buffer.{Buffer, current_size}
use concurrent_computing.Store.Connection.{newline}
use concurrent_computing.Store.Message.{
  MessageType, get_type, put_type, invalid_type, Message, get_word, print_int, terminate,
  first_number, verify, deserialize,
}
use concurrent_computing.Store.LazyList.{Result, is_false, is_true, abort_failure}
use concurrent_computing.Store.HashMap.{HashMap, map_contains, map_add}
pub mod Requests
pub mod Messages

-- The number of a result, as an `int`.
unfoldable pub code_of : Result → ℕ
code_of is_false = 0
code_of is_true = 1
code_of abort_failure = 2 ^ 32 - 1

-- `send_response`
unfoldable pub response_text : Result → List ℕ
response_text is_false = 48 ∷ newline ∷ []
response_text is_true = 49 ∷ newline ∷ []
response_text abort_failure = 45 ∷ 49 ∷ newline ∷ []

-- A key of a message as a key of the lists.
abbrev pub key_of : ℕ → ℕ
key_of pattern = (pattern + 2 ^ 31) % 2 ^ 32

-- What the store does with a message, and its result; `none` as for the operations of the lists.
unfoldable pub apply_message : HashMap → Message → Option (Result × HashMap)
apply_message store message = elim message.protocol [
  | get_type ↦ elim (map_contains store (key_of message.data_first)) [
    | none ↦ none
    | some r ↦ some (r, store)
  ]
  | put_type ↦ map_add store (key_of message.data_first) message.data_second
  | invalid_type ↦ some (abort_failure, store)
]

-- The answer to a line, and the store afterwards.
abbrev pub respond : Option (Result × HashMap) → Option (List ℕ × HashMap)
respond none = none
respond (some (r, store)) = some (response_text r, store)

abbrev pub message_of : Option Buffer → Message
message_of none = record { protocol = invalid_type; data_first = 0; data_second = 0 }
message_of (some protocol) = deserialize protocol

unfoldable pub handle_message : HashMap → Option Buffer → Option (List ℕ × HashMap)
handle_message store protocol =
    if verify protocol
    then respond (apply_message store (message_of protocol))
    else some (response_text abort_failure, store)

-- `Remote::sendMessage`
unfoldable pub send_text : Message → List ℕ
send_text message =
    (elim message.protocol [
      | get_type ↦ get_word
      | put_type ↦ 80 ∷ 85 ∷ 84 ∷ []
      | invalid_type ↦ 80 ∷ 85 ∷ 84 ∷ []
    ])
    ++ 32 ∷ (print_int message.data_first ++ 44 ∷ (print_int message.data_second ++ 10 ∷ []))

-- `atoi`, for digits with or without a minus in front of them.
unfoldable pub atoi : List ℕ → ℕ
atoi [] = 0
atoi (ch ∷ text) =
    if ch == 45 then (2 ^ 32 - (first_number 0 text).0) % 2 ^ 32 else (first_number 0 (ch ∷ text)).0

-- `Remote::awaitResponse`, once the line is read.
unfoldable pub await_response : Option Buffer → ℕ
await_response none = code_of abort_failure
await_response (some response) = atoi (terminate (current_size response - 1) response.content)

-- `Remote::get` and `Remote::insert`, up to the answer.
unfoldable pub get_request : ℕ → Message
get_request key = record { protocol = get_type; data_first = key; data_second = 0 }

unfoldable pub insert_request : ℕ → ℕ → Message
insert_request key val = record { protocol = put_type; data_first = key; data_second = val }

-- `Remote::getNode`: the index of the connection for a key.
unfoldable pub node_of : ℕ → ℕ → ℕ
node_of nodes key = key % nodes
