-- ===== src/Replica/Fabric.antt =====
-- What ReplicatedKeyValueStoreRDMA/App/Remote.cpp asks of the RDMA library: one-sided reads, compare
-- and swap of one word, and messages, each waited for.
use Prim.Native.Nat.{ℕ}
use concurrent_computing.Prelude.{
  ◌+◌, ◌*◌, ◌/◌, ◌%◌, ◌^◌, ◌<◌, ◌≡◌, ◌&&◌, List, [], ◌∷◌, ◌++◌, ◌==◌, if◌then◌else◌,
}
use concurrent_computing.Replica.Table.{Node}

-- The 64-bit word that a node's eight bytes are, the key first.
abbrev pub word_of : Node → ℕ
word_of node = node.key + 2 ^ 32 * node.val

abbrev pub node_of : ℕ → Node
node_of w = record { key = w % 2 ^ 32; val = w / 2 ^ 32 }

-- The registered memory of each remote node, in cells of eight bytes, and the messages sent to it.
-- Offsets are in bytes.
pub record Fabric : Type 1 where
  pub Net : Type 0
  pub memory : Net → ℕ → ℕ → Node
  pub sent : Net → ℕ → List (List Node)
  -- The memory of the nodes at each message sent, the first one first.
  pub log : Net → List (ℕ → ℕ → Node)
  pub read : ℕ → ℕ → ℕ → Net → ℕ → Node
  pub compare_and_swap : ℕ → ℕ → ℕ → ℕ → Net → ℕ × Net
  pub send : ℕ → List Node → Net → Net
  pub read_cell :
      (node offset length : ℕ) (s : Net) (i : ℕ)
      → offset % 8 ≡ 0
      → i < length / 8
      → read node offset length s i ≡ memory s node (offset / 8 + i)
  -- The word read is the one before the swap.
  pub swap_value :
      (node offset old new : ℕ) (s : Net)
      → offset % 8 ≡ 0
      → (compare_and_swap node offset old new s).0 ≡ word_of (memory s node (offset / 8))
  pub swap_memory :
      (node offset old new : ℕ) (s : Net) (m n : ℕ)
      → offset % 8 ≡ 0
      → memory (compare_and_swap node offset old new s).1 m n ≡ (
          if m == node && n == offset / 8 && word_of (memory s node (offset / 8)) == old
          then node_of new
          else memory s m n)
  pub swap_sent :
      (node offset old new : ℕ) (s : Net) (m : ℕ)
      → sent (compare_and_swap node offset old new s).1 m ≡ sent s m
  pub send_memory :
      (node : ℕ) (message : List Node) (s : Net) (m n : ℕ)
      → memory (send node message s) m n ≡ memory s m n
  pub send_sent :
      (node : ℕ) (message : List Node) (s : Net) (m : ℕ)
      → sent (send node message s) m ≡ (if m == node then sent s m ++ message ∷ [] else sent s m)
  pub swap_log :
      (node offset old new : ℕ) (s : Net) → log (compare_and_swap node offset old new s).1 ≡ log s
  pub send_log :
      (node : ℕ) (message : List Node) (s : Net)
      → log (send node message s) ≡ log s ++ memory s ∷ []
