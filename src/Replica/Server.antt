-- ===== src/Replica/Server.antt =====
-- ReplicatedKeyValueStoreRDMA/Persistence/Server.cpp: what `connection_handler` does with a message,
-- and the first fill of the store.
pub mod Handling
use concurrent_computing.Prelude.{ℕ, zero, suc, Option, none, some, List, [], ◌∷◌}
use concurrent_computing.Replica.Table.{Node}
use concurrent_computing.Replica.State.{Cuckoo, M, pure, ◌>>=◌}
use concurrent_computing.Replica.Ops.{Result, insert}

abbrev pub put_first : Result → Option (List Result) → Option (List Result)
put_first result none = none
put_first result (some results) = some (result ∷ results)

-- The elements of the message, one after the other. The handler ignores the answers, which the model
-- returns; `none` if the fuel does not suffice for an insert, which then is still in its loop.
unfoldable pub handle : ℕ → List Node → M (Option (List Result))
unfolding insert
handle fuel [] = pure (some [])
handle fuel (element ∷ elements) = do
  answer ← insert fuel element
  elim answer [
    | none ↦ pure none
    | some result ↦ do answers ← handle fuel elements; pure (put_first result answers)
  ]

-- `n` elements of random keys and values; the generator is a parameter, with its new seed.
-- `none` if the fuel does not suffice for an insert.
unfoldable pub populate_store : (ℕ → ℕ × ℕ) → ℕ → ℕ → ℕ → M (Option ℕ)
unfolding insert
populate_store random fuel zero seed = pure (some seed)
populate_store random fuel (suc n) seed = do
  let key = random seed
  let val = random key.1
  answer ← insert fuel (record { key = key.0; val = val.0 })
  elim answer [ none ↦ pure none | some result ↦ populate_store random fuel n val.1 ]
