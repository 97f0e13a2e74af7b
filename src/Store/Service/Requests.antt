-- ===== src/Store/Service/Requests.antt =====
-- Requests from Remote.cpp to Server.cpp and back.
use concurrent_computing.Prelude.{ℕ, ◌<◌, ◌^◌, ◌≡◌, some, List, not, is_some}
use concurrent_computing.Store.Message.{Message}
use concurrent_computing.Store.Message.Roundtrip.{received}
use concurrent_computing.Store.LazyList.{Result}
use concurrent_computing.Store.HashMap.{HashMap, translate}
use concurrent_computing.Store.HashMap.Methods.{value_at, MapEffect}
use concurrent_computing.Store.LazyList.Sorted.{IsValid, is_abort, is_busy}
use concurrent_computing.Store.Service.{
  code_of, key_of, handle_message, send_text, await_response, insert_request,
}

module _ (store : HashMap) (key val : ℕ) (small : key < 2 ^ 31) (small' : val < 2 ^ 31) where
  -- The answer to a request to insert, as the client reads it.
  pub record Inserted : Type 0 where
    pub reply : List ℕ
    pub result : Result
    pub after : HashMap
    pub answers :
        handle_message store (some (received (send_text (insert_request key val))))
        ≡ some (reply, after)
    pub reads : await_response (some (received reply)) ≡ code_of result
    pub valid : (i : ℕ) → IsValid (after.lists i)
    pub effect :
        MapEffect store
          (key_of key)
          (not (is_some (value_at store (key_of key))))
          (some val)
          result
          after
    pub gives_up :
        is_abort result ≡ is_busy (key_of key) (store.lists (translate store (key_of key)))
