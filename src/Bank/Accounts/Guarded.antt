-- ===== src/Bank/Accounts/Guarded.antt =====
-- `deposit` and `balance` of tests.cc with their locks, run by one thread.
use concurrent_computing.Prelude.{
  ℕ, zero, suc, ◌+◌, ◌<◌, ◌≡◌, refl, sym, ap, ◌∙◌, fun_ext, arith, Bool, true, false, ◌&&◌, Option,
  some, List, [], ◌∷◌, ltb, leb, if◌then◌else◌, Bool-cases, inl, inr, elem, update, ◌>>=◌,
}
use concurrent_computing.Bank.Map.{Simplemap, hash}
use concurrent_computing.Bank.Map.Contents.{value_at, IsValid}
use concurrent_computing.Bank.Locks.{
  Bank, write_lock, read_lock, unlock, acquire_write_lock, release_write_lock, acquire_write_locks,
  release_write_locks, read_lock_from, unlock_from, acquire_all_reader, release_all_reader,
}
use concurrent_computing.Bank.Accounts.{
  Amount, apply_deposit, deposit_into, deposit_under, deposit, total_from, balance,
}
use concurrent_computing.Bank.Accounts.Totals.{IsExact, sum_below, total-sum_below}
use concurrent_computing.Bank.Accounts.Deposits.{Moved, apply_deposit-Moved}

-- Nobody holds a lock.
pub record Idle {V : Type 0} (b : Bank V) : Type 0 where
  pub unwritten : (i : ℕ) → b.writing i ≡ false
  pub unread : (i : ℕ) → b.reading i ≡ 0

module _ {V : Type 0} where
  -- The locks of a list are held to write.
  abbrev locked : Bank V → List ℕ → Bank V
  locked b is = record b { writing = λ i. elem i is; reading = λ i. 0 }

  locked-Idle : (b : Bank V) → Idle b → locked b [] ≡ b
  locked-Idle b idle =
      ap (λ (h : ℕ → Bool). record b { writing = h; reading = λ i. 0 })
        (fun_ext (λ i. sym (idle.unwritten i)))
      ∙ ap (λ (h : ℕ → ℕ). record b { reading = h }) (fun_ext (λ i. sym (idle.unread i)))

  Idle-locked : (b : Bank V) → Idle (locked b [])
  Idle-locked b = record { unwritten = λ i. refl; unread = λ i. refl }

  lock_run :
      (b : Bank V) (i : ℕ) (is : List ℕ)
      → elem i is ≡ false
      → write_lock i (locked b is) ≡ some (tt, locked b (i ∷ is))
  unfolding write_lock
  lock_run b i is free =
      let same : (j : ℕ) → update (λ k. elem k is) i true j ≡ elem j (i ∷ is) = λ j. ground arith in
      rw free (
        ap (λ (h : ℕ → Bool). some (tt, record b { writing = h; reading = λ k. 0 })) (fun_ext same))

  unlock_run :
      (b : Bank V) (i : ℕ) (is js : List ℕ)
      → elem i is ≡ true
      → ((j : ℕ) → update (λ k. elem k is) i false j ≡ elem j js)
      → unlock i (locked b is) ≡ some (tt, locked b js)
  unfolding unlock
  unlock_run b i is js held same =
      rw held (
        ap (λ (h : ℕ → Bool). some (tt, record b { writing = h; reading = λ k. 0 })) (fun_ext same))

  one_run :
      (b : Bank V) (i : ℕ)
      → (acquire_write_lock i (locked b []) ≡ some (true, locked b (i ∷ [])))
        × (release_write_lock i (locked b (i ∷ [])) ≡ some (true, locked b []))
  unfolding acquire_write_lock release_write_lock
  one_run b i = (
    rw (lock_run b i [] refl, ◌>>=◌),
    rw (unlock_run b i (i ∷ []) [] (ground arith) (λ j. ground arith), ◌>>=◌),
  )

  two_run :
      (b : Bank V) (i j : ℕ)
      → i < j
      → (acquire_write_locks i j (locked b []) ≡ some (true, locked b (j ∷ i ∷ [])))
        × (release_write_locks i j (locked b (j ∷ i ∷ [])) ≡ some (true, locked b []))
  unfolding acquire_write_locks release_write_locks
  two_run b i j lt = (
    rw (lock_run b i [] refl, ◌>>=◌, lock_run b j (i ∷ []) (ground arith)),
    rw (
      unlock_run b i (j ∷ i ∷ []) (j ∷ []) (ground arith) (λ k. ground arith),
      ◌>>=◌,
      unlock_run b j (j ∷ []) [] (ground arith) (λ k. ground arith),
    ),
  )

  -- The map after `applyDeposit`.
  abbrev paid : Bank V → Simplemap V → Bank V
  paid b m = record b { accounts = m }

  module _ (amounts : Amount V) (source target : ℕ) (amount : V) where
    abbrev outcome : Bank V → Bool × Simplemap V
    outcome b = apply_deposit amounts b.accounts source target amount

    under_run :
        (b : Bank V) (acquire release : Bank V → Option (Bool × Bank V)) (is : List ℕ)
        → acquire (locked b []) ≡ some (true, locked b is)
        → release (locked (paid b (outcome b).1) is) ≡ some (true, locked (paid b (outcome b).1) [])
        → deposit_under amounts acquire release source target amount (locked b [])
          ≡ some ((outcome b).0, locked (paid b (outcome b).1) [])
    unfolding deposit_under deposit_into
    under_run b acquire release is e e' = rw (e, ◌>>=◌, e')

    deposit_run :
        (b : Bank V) (lockfree : Bool)
        → deposit amounts lockfree source target amount (locked b [])
          ≡ some ((outcome b).0, locked (paid b (outcome b).1) [])
    unfolding deposit deposit_into
    deposit_run b true = refl
    deposit_run b false =
        let i = hash b.accounts source in
        let j = hash b.accounts target in
        let after = paid b (outcome b).1 in
        elim (Bool-cases (ltb i j)) [
          | inl below ↦ rw below (
              under_run b (acquire_write_locks i j) (release_write_locks i j) (j ∷ i ∷ [])
                (two_run b i j (ground arith)).0 (two_run after i j (ground arith)).1)
          | inr above ↦ elim (Bool-cases (ltb j i)) [
            | inl below ↦
                rw (above, below)
                  (under_run b (acquire_write_locks j i) (release_write_locks j i) (i ∷ j ∷ [])
                    (two_run b j i (ground arith)).0 (two_run after j i (ground arith)).1)
            | inr same ↦
                rw (above, same)
                  (under_run b (acquire_write_lock j) (release_write_lock j) (j ∷ [])
                    (one_run b j).0 (one_run after j).1)
          ]
        ]

    -- From a well-formed bank in which nobody holds a lock, with exact amounts and two keys in the
    -- range, `deposit` returns, with its locks or without, and nobody holds a lock then. The answer
    -- is whether both accounts are there. If they are, the source has the amount less and then the
    -- target the amount more; if not, every account has what it had. The accounts and the sum over
    -- the range stay.
    pub deposit-Moved :
        (exact : IsExact amounts) (range : ℕ) (lockfree : Bool) (b : Bank V)
        (valid : IsValid b.accounts)
        → Idle b
        → source < range
        → target < range
        → (done : Bool) × (d : Bank V) × (deposit amounts lockfree source target amount b
            ≡ some (done, d))
          × Moved amounts exact range b.accounts source target amount valid (done, d.accounts)
          × Idle d
    deposit-Moved exact range lockfree b valid idle lt lt' = (
      (outcome b).0,
      locked (paid b (outcome b).1) [],
      ap (deposit amounts lockfree source target amount) (sym (locked-Idle b idle))
          ∙ deposit_run b lockfree,
      apply_deposit-Moved amounts exact range b.accounts source target amount valid lt lt',
      Idle-locked (paid b (outcome b).1),
    )

  -- Every lock from `i` to `j`, without `j`, has one reader.
  abbrev read_by : Bank V → ℕ → ℕ → Bank V
  read_by b i j = record b {
    writing = λ k. false;
    reading = λ k. if leb i k && ltb k j then 1 else 0;
  }

  read_step : (b : Bank V) (i : ℕ) → read_lock i (read_by b 0 i) ≡ some (tt, read_by b 0 (suc i))
  unfolding read_lock
  read_step b i =
      let same : (k : ℕ)
          → update (read_by b 0 i).reading i (suc ((read_by b 0 i).reading i)) k
            ≡ (read_by b 0 (suc i)).reading k =
        λ k. ground arith in
      ap (λ (h : ℕ → ℕ). some (tt, record b { writing = λ k. false; reading = h })) (fun_ext same)

  unread_step :
      (b : Bank V) (i j : ℕ) → i < j → unlock i (read_by b i j) ≡ some (tt, read_by b (suc i) j)
  unfolding unlock
  unread_step b i j lt =
      let held : (read_by b i j).reading i ≡ 1 = ground arith in
      let same : (k : ℕ) → update (read_by b i j).reading i 0 k ≡ (read_by b (suc i) j).reading k =
        λ k. ground arith in
      rw held (
        ap (λ (h : ℕ → ℕ). some (tt, record b { writing = λ k. false; reading = h }))
          (fun_ext same))

  read_lock_from_run :
      (b : Bank V) (n i j : ℕ)
      → i + n ≡ j
      → read_lock_from n i (read_by b 0 i) ≡ some (tt, read_by b 0 j)
  unfolding read_lock_from
  read_lock_from_run b zero i j e = let e' : i ≡ j = omega arith in rw e' refl
  read_lock_from_run b (suc n) i j e =
      rw (read_step b i, ◌>>=◌) (read_lock_from_run b n (suc i) j (omega arith))

  unlock_from_run :
      (b : Bank V) (n i j : ℕ)
      → i + n ≡ j
      → unlock_from n i (read_by b i j) ≡ some (tt, read_by b j j)
  unfolding unlock_from
  unlock_from_run b zero i j e = let e' : i ≡ j = omega arith in rw e' refl
  unlock_from_run b (suc n) i j e =
      rw (unread_step b i j (omega arith), ◌>>=◌) (unlock_from_run b n (suc i) j (omega arith))

  read_none : (b : Bank V) (i : ℕ) → read_by b i i ≡ locked b []
  read_none b i =
      ap (λ (h : ℕ → ℕ). record b { writing = λ k. false; reading = h })
        (fun_ext (λ k. ground arith))

  balance_run :
      (amounts : Amount V) (range : ℕ) (lockfree : Bool) (b : Bank V)
      → balance amounts range lockfree (locked b [])
        ≡ some (total_from amounts b.accounts range 0 amounts.nil, locked b [])
  unfolding balance acquire_all_reader release_all_reader
  balance_run amounts range true b = refl
  balance_run amounts range false b =
      let taken : read_lock_from b.lock_size 0 (locked b []) ≡ some (tt, read_by b 0 b.lock_size) =
        ap (read_lock_from b.lock_size 0) (sym (read_none b 0))
        ∙ read_lock_from_run b b.lock_size 0 b.lock_size (omega arith) in
      rw (taken, ◌>>=◌, unlock_from_run b b.lock_size 0 b.lock_size (omega arith))
        (ap (λ (d : Bank V). some (total_from amounts b.accounts range 0 amounts.nil, d))
          (read_none b b.lock_size))

  pub balance-runs :
      (amounts : Amount V) (range : ℕ) (lockfree : Bool) (b : Bank V)
      → Idle b
      → balance amounts range lockfree b
        ≡ some (total_from amounts b.accounts range 0 amounts.nil, b)
  balance-runs amounts range lockfree b idle =
      ap (balance amounts range lockfree) (sym (locked-Idle b idle))
      ∙ balance_run amounts range lockfree b
      ∙ ap (λ (d : Bank V). some (total_from amounts b.accounts range 0 amounts.nil, d))
          (locked-Idle b idle)

  -- In a well-formed bank in which nobody holds a lock `balance` returns, with its locks or without:
  -- the answer is the sum of the amounts of the accounts whose keys are in the range, each once, and
  -- the bank is as it was, its locks included.
  balance-total :
      (amounts : Amount V) (range : ℕ) (lockfree : Bool) (b : Bank V)
      → IsValid b.accounts
      → Idle b
      → balance amounts range lockfree b ≡ some (sum_below amounts (value_at b.accounts) range, b)
  balance-total amounts range lockfree b valid idle =
      balance-runs amounts range lockfree b idle
      ∙ ap (λ (v : V). some (v, b)) (total-sum_below amounts b.accounts range valid)
