-- ===== src/Bank/Threads/Work.antt =====
-- `do_work` of tests.cc keeps the sum of the accounts.
use concurrent_computing.Prelude.{
  ℕ, ◌+◌, ◌%◌, List, [], ◌∷◌, length, ◌-◌, ◌<◌, ◌≤◌, ◌^◌, ◌≡◌, Option, some, is_some,
}
use concurrent_computing.Bank.Map.Contents.{value_at, IsValid}
use concurrent_computing.Bank.Locks.{Bank}
use concurrent_computing.Bank.Accounts.{Amount, total_from}
use concurrent_computing.Bank.Accounts.Totals.{IsExact}
use concurrent_computing.Bank.Accounts.Guarded.{Idle}
use concurrent_computing.Bank.Threads.{Draw, Thread, Shared}
use concurrent_computing.Bank.Accounts.Deposits.{deposited}
use concurrent_computing.Bank.Threads.Draws.{IsDraw}

module _ {V : Type 0} (amounts : Amount V) (rand_r : Draw) (documented : IsDraw rand_r)
    (exact : IsExact amounts) where
  -- A thread that may work: two accounts or more, well-formed buckets, and no lock that is held.
  pub record Ready (s : Shared amounts rand_r) : Type 0 where
    pub several : 2 ≤ s.thread.key_range
    pub small : s.thread.key_range < 2 ^ 32
    pub valid : IsValid s.bank.accounts
    pub idle : Idle s.bank

  -- The accounts of two states are the same, with the same sum.
  pub record Steady (s t : Shared amounts rand_r) : Type 0 where
    pub ready : Ready t
    pub range : t.thread.key_range ≡ s.thread.key_range
    pub keys : (j : ℕ) → is_some (value_at t.bank.accounts j) ≡ is_some (value_at s.bank.accounts j)
    pub balanced :
        total_from amounts t.bank.accounts s.thread.key_range 0 amounts.nil
        ≡ total_from amounts s.bank.accounts s.thread.key_range 0 amounts.nil

  abbrev seeded : Shared amounts rand_r → ℕ → Shared amounts rand_r
  seeded s next = record s { thread = record s.thread { seed = next } }

  -- The amounts after the deposits of a list, in turn; each has a source and a target.
  pub replay : List (ℕ × ℕ) → V → (ℕ → Option V) → ℕ → Option V
  replay [] amount values = values
  replay ((source, target) ∷ moves) amount values =
      replay moves amount (deposited amounts values source target amount)

  -- `n` rounds: the deposits that were made, in turn, give the amounts; the thread counts them and
  -- the other rounds, with the wrap-around of its counters.
  pub record Rounds (n : ℕ) (s t : Shared amounts rand_r) : Type 0 where
    pub moves : List (ℕ × ℕ)
    pub within : length moves ≤ n
    pub values :
        (j : ℕ)
        → value_at t.bank.accounts j ≡ replay moves s.thread.amount (value_at s.bank.accounts) j
    pub amount : t.thread.amount ≡ s.thread.amount
    pub deposits : t.thread.deposits % 2 ^ 64 ≡ (s.thread.deposits + length moves) % 2 ^ 64
    pub balances : t.thread.balances % 2 ^ 64 ≡ (s.thread.balances + (n - length moves)) % 2 ^ 64

  -- A step of the loop that returns in a state with the same accounts.
  record Works (n : ℕ) (s : Shared amounts rand_r) (run : Option (Unit {0} × Shared amounts rand_r))
      : Type 0 where
    after : Shared amounts rand_r
    returns : run ≡ some (tt, after)
    steady : Steady s after
    rounds : Rounds n s after

  -- One deposit of the thread, which leaves its counters alone.
  record Paid (s t : Shared amounts rand_r) : Type 0 where
    source : ℕ
    target : ℕ
    values :
        (j : ℕ)
        → value_at t.bank.accounts j
          ≡ deposited amounts (value_at s.bank.accounts) source target s.thread.amount j
    amount : t.thread.amount ≡ s.thread.amount
    deposits : t.thread.deposits ≡ s.thread.deposits
    balances : t.thread.balances ≡ s.thread.balances

  -- Another seed and other counts.
  abbrev recount : Shared amounts rand_r → Thread V → Shared amounts rand_r
  recount s t = record { thread = t; bank = s.bank }
