-- ===== src/Bank/Accounts/Waiting.antt =====
-- `deposit` of tests.cc while another thread holds a lock.
use concurrent_computing.Prelude.{
  ℕ, ◌≡◌, refl, arith, Bool, true, false, ◌||◌, none, Option, some, ltb, Bool-cases, inl, inr,
  update, ◌>>=◌,
}
use concurrent_computing.Bank.Map.{hash}
use concurrent_computing.Bank.Locks.{
  Bank, write_lock, acquire_write_lock, release_write_lock, acquire_write_locks,
  release_write_locks,
}
use concurrent_computing.Bank.Accounts.{Amount, deposit_under, deposit}

module _ {V : Type 0} (amounts : Amount V) (source target : ℕ) (amount : V) where
  -- Another thread holds the lock of a bucket, to write or to read.
  abbrev is_taken : Bank V → ℕ → Bool
  is_taken b i = b.writing i || ltb 0 (b.reading i)

  under_waits :
      (b : Bank V) (acquire release : Bank V → Option (Bool × Bank V))
      → acquire b ≡ none
      → deposit_under amounts acquire release source target amount b ≡ none
  unfolding deposit_under
  under_waits b acquire release e = rw (e, ◌>>=◌) refl

  write_lock-waits : (b : Bank V) (i : ℕ) → is_taken b i ≡ true → write_lock i b ≡ none
  unfolding write_lock
  write_lock-waits b i e = rw e refl

  write_lock-got :
      (b : Bank V) (i : ℕ)
      → is_taken b i ≡ false
      → write_lock i b ≡ some (tt, record b { writing = update b.writing i true })
  unfolding write_lock
  write_lock-got b i e = rw e refl

  one_waits : (b : Bank V) (i : ℕ) → is_taken b i ≡ true → acquire_write_lock i b ≡ none
  unfolding acquire_write_lock
  one_waits b i e = rw (write_lock-waits b i e, ◌>>=◌) refl

  two_wait :
      (b : Bank V) (i j : ℕ)
      → (is_taken b i || is_taken b j) ≡ true
      → acquire_write_locks i j b ≡ none
  unfolding acquire_write_locks
  two_wait b i j e = elim (Bool-cases (is_taken b i)) [
    | inl first ↦ rw (write_lock-waits b i first, ◌>>=◌) refl
    | inr free ↦
        let second : is_taken b j ≡ true = ground (arith, e, free) in
        let after : Bank V = record b { writing = update b.writing i true } in
        let got : write_lock i b ≡ some (tt, after) = write_lock-got b i free in
        let still : is_taken after j ≡ true = ground (arith, second) in
        rw (got, ◌>>=◌, write_lock-waits after j still) refl
  ]

  -- While another thread holds the lock of one of the two keys' buckets, to write or to read,
  -- `deposit` with its locks does not come to its end, but waits.
  pub deposit-waits :
      (b : Bank V)
      → (is_taken b (hash b.accounts source) || is_taken b (hash b.accounts target)) ≡ true
      → deposit amounts false source target amount b ≡ none
  unfolding deposit
  deposit-waits b e =
      let i = hash b.accounts source in
      let j = hash b.accounts target in
      elim (Bool-cases (ltb i j)) [
        | inl below ↦
            rw below
              (under_waits b (acquire_write_locks i j) (release_write_locks i j) (two_wait b i j e))
        | inr above ↦ elim (Bool-cases (ltb j i)) [
          | inl below ↦
              let swapped : (is_taken b j || is_taken b i) ≡ true = ground (arith, e) in
              rw (above, below)
                (under_waits b (acquire_write_locks j i) (release_write_locks j i)
                  (two_wait b j i swapped))
          | inr same ↦
              let equal : i ≡ j = ground (arith, above, same) in
              let twice : (is_taken b j || is_taken b j) ≡ true = rw equal at e in
              let busy : is_taken b j ≡ true = ground (arith, twice) in
              rw (above, same)
                (under_waits b (acquire_write_lock j) (release_write_lock j) (one_waits b j busy))
        ]
      ]
