-- ===== src/Bank/Threads.antt =====
-- Banker/bankers-map/src/tests.cc: `rand_integer`, `do_work` and the first fill of `run_custom_tests`;
-- `thread_data_t` of threads.h. `rand_r` of the C library is a parameter.
use concurrent_computing.Prelude.{
  ℕ, zero, suc, ◌+◌, ◌-◌, ◌*◌, ◌/◌, ◌%◌, ◌^◌, Bool, true, false, not, Option, none, some, ltb, leb,
  ◌==◌, if◌then◌else◌, Run, pure, ◌>>=◌, ◌>>◌, get, modify,
}
use concurrent_computing.Bank.Map.{Simplemap, construct, insert}
use concurrent_computing.Bank.Locks.{Bank}
use concurrent_computing.Bank.Accounts.{Amount, deposit, balance}
pub mod Draws
pub mod Work
pub mod Fill

-- `RAND_MAX` of the C library
abbrev pub rand_max : ℕ
rand_max = 2147483647

-- A draw: the seed to the number and the next seed.
abbrev pub Draw : Type 0
Draw = ℕ → ℕ × ℕ

-- What is between two neighbouring doubles at a number, which is below 2 ^ 62.
unfoldable pub spacing : ℕ → ℕ → ℕ
spacing zero p = 1
spacing (suc n) p = let more = 2 * spacing n (p / 2) in if ltb p (2 ^ 53) then 1 else more

-- The nearest multiple of a number, and of two that are as near the even one.
unfoldable pub rounded : ℕ → ℕ → ℕ
rounded unit p =
    let low = p / unit * unit in
    let rest = p % unit in
    if ltb (2 * rest) unit
    then low
    else if ltb unit (2 * rest)
    then low + unit
    else if p / unit % 2 == 0
    then low
    else low + unit

-- The double for a number.
unfoldable pub to_double : ℕ → ℕ
unfolding spacing rounded
to_double p = rounded (spacing 9 p) p

-- The loop of `rand_integer`, with fuel: `r` is what is left of the range. The quotient by 2 ^ 31 is
-- a double, and its product with `d` is the rounded product of the numbers, over 2 ^ 31.
unfoldable pub rand_loop : Draw → ℕ → ℕ → ℕ → ℕ → Option (ℕ × ℕ)
unfolding to_double
rand_loop rand_r zero seed r v = none
rand_loop rand_r (suc fuel) seed r v =
    let d = if ltb r rand_max then r else rand_max in
    let (drawn, next) = rand_r seed in
    let v' = (v + 1 + to_double (d * drawn) / (rand_max + 1)) % 2 ^ 32 in
    let more = rand_loop rand_r fuel next (r - rand_max) v' in
    if ltb rand_max r then more else some (v', next)

-- One round takes `rand_max` off the range.
unfoldable pub rand_integer : Draw → ℕ → ℕ → Option (ℕ × ℕ)
unfolding rand_loop
rand_integer rand_r seed r = rand_loop rand_r (suc r) seed r 0

-- `thread_data_t`, without the times and the map, which the threads share.
pub record Thread (V : Type 0) : Type 0 where
  pub seed : ℕ
  pub key_range : ℕ
  pub iters : ℕ
  pub amount : V
  pub nb_deposits : ℕ
  pub deposits : ℕ
  pub nb_balances : ℕ
  pub balances : ℕ
  pub lockfree : Bool

module _ {V : Type 0} (amounts : Amount V) (rand_r : Draw) where
  -- A thread and the bank that it works on.
  pub record Shared : Type 0 where
    pub thread : Thread V
    pub bank : Bank V

  -- `rand_integer(&thread -> seed, r)`
  unfoldable pub draw : ℕ → Run Shared ℕ
  draw r s = elim (rand_integer rand_r s.thread.seed r) [
    | none ↦ none
    | some (v, next) ↦ some (v, record s { thread = record s.thread { seed = next } })
  ]

  -- A call that works on the bank alone.
  unfoldable pub on_bank : {A : Type 0} → Run (Bank V) A → Run Shared A
  on_bank call s = elim (call s.bank) [
    | none ↦ none
    | some (a, b) ↦ some (a, record s { bank = b })
  ]

  -- `deposit`
  unfoldable pub draw_deposit : Run Shared Bool
  unfolding draw on_bank
  draw_deposit = do
    s ← get
    source ← draw (s.thread.key_range - 1)
    target ← draw (s.thread.key_range - 1)
    on_bank (deposit amounts s.thread.lockfree source target s.thread.amount)

  unfoldable pub count_deposit : Bool → Thread V → Thread V
  count_deposit result t = record t {
    nb_deposits = (if result then t.nb_deposits + 1 else t.nb_deposits) % 2 ^ 64;
    deposits = (t.deposits + 1) % 2 ^ 64;
  }

  unfoldable pub count_balance : Bool → Thread V → Thread V
  count_balance result t = record t {
    nb_balances = (if result then t.nb_balances + 1 else t.nb_balances) % 2 ^ 64;
    balances = (t.balances + 1) % 2 ^ 64;
  }

  -- The body of the loop of `do_work`.
  unfoldable pub work_once : Run Shared (Unit {0})
  unfolding draw_deposit count_deposit count_balance
  work_once = do
    chance ← draw 100
    elim (leb 20 chance) [
      | true ↦ do
        result ← draw_deposit
        modify (λ s. record s { thread = count_deposit result s.thread })
      | false ↦ do
        s ← get
        result ← on_bank (balance amounts s.thread.key_range s.thread.lockfree)
        modify (λ s. record s { thread = count_balance (not (amounts.is_nil result)) s.thread })
    ]

  unfoldable pub work_times : ℕ → Run Shared (Unit {0})
  unfolding work_once
  work_times zero = pure tt
  work_times (suc n) = work_once >> work_times n

  -- `do_work`, after the barrier.
  unfoldable pub do_work : Run Shared (Unit {0})
  unfolding work_times
  do_work = do s ← get; work_times s.thread.iters

module _ {V : Type 0} where
  -- The accounts of `run_custom_tests`: the keys `i, i + 1, ...`, `n` of them.
  unfoldable pub fill_from : ℕ → ℕ → V → Simplemap V → Simplemap V
  fill_from zero i initial m = m
  fill_from (suc n) i initial m = fill_from n (suc i) initial (insert m i initial).1

  unfoldable pub fill : ℕ → ℕ → V → Simplemap V
  unfolding fill_from
  fill buckets key_max initial = fill_from key_max 0 initial (construct buckets)
