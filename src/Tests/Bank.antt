-- ===== src/Tests/Bank.antt =====
-- The bank of Banker/bankers-map on small inputs, and its theorems at concrete inputs.
use concurrent_computing.Prelude.{
  zero, suc, ◌+◌, ◌%◌, ◌≡◌, refl, arith, Bool, true, false, not, Option, none, some, List, [], ◌∷◌,
  is_some, ◌==◌, if◌then◌else◌, ℤ, pos, negsuc, ◌+ℤ◌, ◌-ℤ◌, +ℤ_comm, +ℤ_assoc, -ℤ-+ℤ,
}
use concurrent_computing.Bank.Chain.{seek, insert_in, update_in}
use concurrent_computing.Bank.Map.{Simplemap, construct, insert, update_value, remove, lookup}
use concurrent_computing.Bank.Map.Contents.{value_at, IsValid}
use concurrent_computing.Bank.Map.Methods.{Sets, insert-Sets, remove-Sets}
use concurrent_computing.Bank.Locks.{
  Bank, initialize_locks, acquire_write_lock, release_write_lock, acquire_write_locks,
  release_write_locks, acquire_all_reader, release_all_reader, write_lock, read_lock, unlock,
  read_lock_from, unlock_from,
}
use concurrent_computing.Bank.Accounts.{Amount, apply_deposit, deposit, balance, total_from}
use concurrent_computing.Bank.Accounts.Totals.{IsExact}
use concurrent_computing.Bank.Accounts.Deposits.{Moved, apply_deposit-Moved}
use concurrent_computing.Bank.Accounts.Guarded.{Idle, deposit-Moved}
use concurrent_computing.Bank.Accounts.Waiting.{deposit-waits}
use concurrent_computing.Bank.Barrier.{barrier_init, barrier_wake, cross_all}
use concurrent_computing.Bank.Barrier.Rounds.{came_after, barrier_wake-early}
use concurrent_computing.Bank.Threads.{Draw, Shared, rand_integer, do_work, fill, fill_from}
use concurrent_computing.Bank.VectorMap.{VectorMap, empty, push}
use concurrent_computing.Bank.VectorMap.Refines.{Agrees, empty-Agrees, push-Agrees}
use concurrent_computing.Bank.Threads.Work.{Rounds}
use concurrent_computing.Bank.Threads.Fill.{fill-value_at}

abbrev is_zero : ℤ → Bool
is_zero (pos zero) = true
is_zero (pos (suc n)) = false
is_zero (negsuc n) = false

-- Whole amounts.
abbrev whole : Amount ℤ
whole = record { nil = pos 0; plus = ◌+ℤ◌; minus = ◌-ℤ◌; is_nil = is_zero }

whole-IsExact : IsExact whole
whole-IsExact = record { assoc = +ℤ_assoc; comm = +ℤ_comm; returns = -ℤ-+ℤ }

-- A generator that counts.
abbrev counter : Draw
counter seed = (seed % 2000000000, seed + 1100000000)

-- Three accounts in two buckets.
abbrev accounts : Simplemap ℤ
accounts = fill 2 3 (pos 100)

accounts-IsValid : IsValid accounts
accounts-IsValid = (fill-value_at (pos 100) 2 3 (omega arith) 0).0

abbrev bank : Bank ℤ
bank = initialize_locks accounts 2

bank-Idle : Idle bank
unfolding initialize_locks
bank-Idle = record { unwritten = λ i. refl; unread = λ i. refl }

abbrev session : Shared whole counter
session = record {
  thread = record {
    seed = 1000000000;
    key_range = 3;
    iters = 1;
    amount = pos 30;
    nb_deposits = 0;
    deposits = 0;
    nb_balances = 0;
    balances = 0;
    lockfree = false;
  };
  bank = bank;
}

insert_example :
    ((insert accounts 7 (pos 1)).0 ≡ not (is_some (value_at accounts 7)))
    × Sets accounts 7
        (not (is_some (value_at accounts 7)))
        (some (pos 1))
        (insert accounts 7 (pos 1)).1
insert_example = insert-Sets accounts accounts-IsValid 7 (pos 1)

erase_example :
    ((remove accounts 1).0 ≡ is_some (value_at accounts 1))
    × Sets accounts 1 true none (remove accounts 1).1
erase_example = remove-Sets accounts accounts-IsValid 1

apply_deposit_example :
    Moved whole whole-IsExact 3 accounts 1 2
      (pos 30)
      accounts-IsValid
      (apply_deposit whole accounts 1 2 (pos 30))
apply_deposit_example =
    apply_deposit-Moved whole whole-IsExact 3 accounts 1 2 (pos 30) accounts-IsValid (omega arith)
      (omega arith)

deposit_example :
    (done : Bool) × (d : Bank ℤ) × (deposit whole false 1 2 (pos 30) bank ≡ some (done, d))
    × Moved whole whole-IsExact 3 accounts 1 2 (pos 30) accounts-IsValid (done, d.accounts)
    × Idle d
unfolding initialize_locks
deposit_example =
    deposit-Moved whole 1 2 (pos 30) whole-IsExact 3 false bank accounts-IsValid bank-Idle
      (omega arith) (omega arith)

-- A reader has the lock of the second account's bucket.
abbrev read_bank : Bank ℤ
read_bank = record bank { reading = λ i. if i == 0 then 1 else 0 }

waits_example : deposit whole false 1 2 (pos 30) read_bank ≡ none
unfolding initialize_locks fill insert construct
waits_example = deposit-waits whole 1 2 (pos 30) read_bank refl

-- What every run below computes with.
bank_program : Unit {0}
unfolding do_work deposit apply_deposit acquire_write_lock release_write_lock acquire_write_locks
    release_write_locks acquire_all_reader release_all_reader write_lock read_lock unlock balance
    total_from lookup update_value insert construct fill initialize_locks seek insert_in update_in
    read_lock_from unlock_from rand_integer ◌+ℤ◌ ◌-ℤ◌
bank_program = tt

abbrev amounts_of : Option (Unit {0} × Shared whole counter) → List (ℤ × Bool)
amounts_of none = []
amounts_of (some (u, s)) =
    lookup (pos 0) s.bank.accounts 0
    ∷ lookup (pos 0) s.bank.accounts 1
    ∷ lookup (pos 0) s.bank.accounts 2
    ∷ []

-- One round of work between three accounts.
work_moves :
    amounts_of (do_work whole counter session)
    ≡ (pos 100, true) ∷ (pos 70, true) ∷ (pos 130, true) ∷ []
unfolding bank_program
work_moves = refl

-- The largest number that `rand_r` may return makes `rand_integer` return the range itself.
range_included : rand_integer (λ seed. (2147483647, seed)) 0 100 ≡ some (100, 0)
unfolding bank_program
range_included = refl

-- Three accounts in the vectors.
abbrev vectors : VectorMap ℤ
vectors = push (push (push (empty 2) 0 (pos 100)) 1 (pos 100)) 2 (pos 100)

vectors-Agrees : Agrees 3 accounts vectors
unfolding fill fill_from
vectors-Agrees =
    let start : Agrees 0 (construct 2) (empty 2) = empty-Agrees 2 (omega arith) in
    let one = push-Agrees 0 (construct 2) (empty 2) start (pos 100) in
    let two = push-Agrees 1 _ _ one (pos 100) in push-Agrees 2 _ _ two (pos 100)

-- Two of three threads have come, and the wait of the first ends.
wake_example : (barrier_wake 1 (cross_all (1 ∷ 2 ∷ []) (barrier_init 3))).passed ≡ 1 ∷ []
unfolding came_after
wake_example = barrier_wake-early 3 (omega arith) (1 ∷ 2 ∷ []) 1 (omega arith) refl
