-- ===== src/Store/Service/Messages.antt =====
-- A message that `sendMessage` of App/Remote.cpp writes, and Message.cpp reads.
use concurrent_computing.Prelude.{
  ℕ, ◌^◌, ◌<◌, ◌≡◌, ◌≢◌, refl, ◌∙◌, true, some, List, [], ◌∷◌, ◌++◌, length,
}
use concurrent_computing.Store.Buffer.{Buffer}
use concurrent_computing.Store.Connection.{Read, got, newline, socket_get_line}
use concurrent_computing.Store.Connection.Lines.{brought, in_line, socket_get_line-brought}
use concurrent_computing.Store.Message.{
  MessageType, get_type, put_type, invalid_type, Message, is_word, verify, deserialize,
}
use concurrent_computing.Store.Message.Roundtrip.{line, same_content, deserialize-line}
use concurrent_computing.Store.Service.{send_text}

module _ (a b : ℕ) (small : a < 2 ^ 31) (small' : b < 2 ^ 31) where
  abbrev of_type : MessageType → Message
  of_type t = record { protocol = t; data_first = a; data_second = b }

  reads_back :
      (t : MessageType) (out : Buffer)
      → t ≢ invalid_type
      → out.content ≡ send_text (of_type t)
      → (verify (some out) ≡ true) × (deserialize out ≡ of_type t)
  unfolding send_text is_word
  reads_back get_type out sent e =
      let back = deserialize-line 71 69 84 a b small small' in
      let same = same_content out (line 71 69 84 a b) e in (same.0 ∙ back.0, same.1 ∙ back.1)
  reads_back put_type out sent e =
      let back = deserialize-line 80 85 84 a b small small' in
      let same = same_content out (line 80 85 84 a b) e in (same.0 ∙ back.0, same.1 ∙ back.1)
  reads_back invalid_type out sent e = absurd (sent refl)

-- A GET or PUT message with two numbers below 2 ^ 31, as `sendMessage` writes it, read by any calls
-- of `read` that bring its characters, fewer than 2 ^ 31, however often they are interrupted: `socket_get_line` returns
-- a line that passes `verify`, and `deserialize` gives the message back.
pub deserialize-send_text :
    (m : Message) (calls rest : List Read)
    → m.protocol ≢ invalid_type
    → m.data_first < 2 ^ 31
    → m.data_second < 2 ^ 31
    → in_line calls ≡ true
    → length (brought calls) < 2 ^ 31
    → brought calls ++ newline ∷ [] ≡ send_text m
    → (out : Buffer) × (socket_get_line (calls ++ got newline ∷ rest) ≡ some (some out, rest))
      × (verify (some out) ≡ true)
      × (deserialize out ≡ m)
deserialize-send_text m calls rest sent small small' fine short e =
    let (out, run, content) = socket_get_line-brought calls rest fine short in
    let (passes, back) =
      reads_back m.data_first m.data_second small small' m.protocol out sent (content ∙ e) in
    (out, run, passes, back)
