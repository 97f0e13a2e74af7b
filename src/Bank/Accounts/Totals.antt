-- ===== src/Bank/Accounts/Totals.antt =====
-- The sum that `balance` (tests.cc) takes over a range of keys.
use concurrent_computing.Prelude.{
  ℕ, zero, suc, ◌+◌, ◌<◌, ◌≤◌, ◌≡◌, refl, sym, ap, ◌∙◌, arith, Bool, false, Option, none, some,
  Option-cases, ◌==◌, ==→eq, if◌then◌else◌, Bool-cases, inl, inr,
}
use concurrent_computing.Bank.Map.{Simplemap, lookup}
use concurrent_computing.Bank.Map.Contents.{value_at, IsValid}
use concurrent_computing.Bank.Map.Methods.{lookup-value_at}
use concurrent_computing.Bank.Accounts.{Amount, total_from}

-- Amounts that are not rounded.
pub record IsExact {V : Type 0} (amounts : Amount V) : Type 0 where
  pub assoc : (a b c : V) → amounts.plus (amounts.plus a b) c ≡ amounts.plus a (amounts.plus b c)
  pub comm : (a b : V) → amounts.plus a b ≡ amounts.plus b a
  pub returns : (a b : V) → amounts.plus (amounts.minus a b) b ≡ a

module _ {V : Type 0} (amounts : Amount V) where
  -- The amount of an account, nothing for one that is not there.
  abbrev pub amount_of : Option V → V
  amount_of none = amounts.nil
  amount_of (some a) = a

  -- The sum of the amounts under the keys below `n`, from the first one on.
  pub sum_below : (ℕ → Option V) → ℕ → V
  sum_below values zero = amounts.nil
  sum_below values (suc n) = amounts.plus (sum_below values n) (amount_of (values n))

  -- The amount that `balance` adds for a key.
  abbrev pub worth : Simplemap V → ℕ → V
  worth m key = (lookup amounts.nil m key).0

  pub worth-some :
      (m : Simplemap V) (key : ℕ) (a : V) → IsValid m → value_at m key ≡ some a → worth m key ≡ a
  worth-some m key a valid e =
      ap (λ (p : V × Bool). p.0) (lookup-value_at m valid key amounts.nil) ∙ rw e refl

  pub worth-same :
      (m m' : Simplemap V) (key : ℕ)
      → IsValid m
      → IsValid m'
      → value_at m key ≡ value_at m' key
      → worth m key ≡ worth m' key
  worth-same m m' key valid valid' e =
      ap (λ (p : V × Bool). p.0)
        (lookup-value_at m valid key amounts.nil
          ∙ rw e refl
          ∙ sym (lookup-value_at m' valid' key amounts.nil))

  pub total_from-same :
      (m m' : Simplemap V) (n i : ℕ) (sum : V)
      → ((j : ℕ) → i ≤ j → worth m j ≡ worth m' j)
      → total_from amounts m n i sum ≡ total_from amounts m' n i sum
  unfolding total_from
  total_from-same m m' zero i sum same = refl
  total_from-same m m' (suc n) i sum same = rw (same i (omega arith)) (
      total_from-same m m' n (suc i) (amounts.plus sum (worth m' i)) (λ j le. same j (omega arith)))

  worth-amount_of :
      (m : Simplemap V) (key : ℕ) → IsValid m → worth m key ≡ amount_of (value_at m key)
  worth-amount_of m key valid = elim (Option-cases (value_at m key)) [
    | inl e ↦ ap (λ (p : V × Bool). p.0) (lookup-value_at m valid key amounts.nil) ∙ rw e refl
    | inr (a, e) ↦ worth-some m key a valid e ∙ rw e refl
  ]

  -- The loop of `balance` sums the amounts of the accounts.
  total_from-sum_below :
      (m : Simplemap V) (n i k : ℕ)
      → IsValid m
      → i + n ≡ k
      → total_from amounts m n i (sum_below (value_at m) i) ≡ sum_below (value_at m) k
  unfolding total_from sum_below
  total_from-sum_below m zero i k valid e = let same : k ≡ i = omega (arith, e) in rw same refl
  total_from-sum_below m (suc n) i k valid e =
      ap (λ (x : V). total_from amounts m n (suc i) (amounts.plus (sum_below (value_at m) i) x))
        (worth-amount_of m i valid)
      ∙ total_from-sum_below m n (suc i) k valid (omega (arith, e))

  pub total-sum_below :
      (m : Simplemap V) (n : ℕ)
      → IsValid m
      → total_from amounts m n 0 amounts.nil ≡ sum_below (value_at m) n
  unfolding sum_below
  total-sum_below m n valid = total_from-sum_below m n 0 n valid (omega arith)

  module _ (exact : IsExact amounts) where
    swap_last : (a b c : V) → amounts.plus (amounts.plus a b) c ≡ amounts.plus (amounts.plus a c) b
    swap_last a b c =
        exact.assoc a b c ∙ ap (amounts.plus a) (exact.comm b c) ∙ sym (exact.assoc a c b)

    total_from-plus :
        (m : Simplemap V) (n i : ℕ) (sum x : V)
        → total_from amounts m n i (amounts.plus sum x)
          ≡ amounts.plus (total_from amounts m n i sum) x
    unfolding total_from
    total_from-plus m zero i sum x = refl
    total_from-plus m (suc n) i sum x =
        rw (swap_last sum x (worth m i))
          (total_from-plus m n (suc i) (amounts.plus sum (worth m i)) x)

    -- One key in the range is worth `x` more.
    pub total_from-raise :
        (m m' : Simplemap V) (n i key : ℕ) (sum x : V)
        → i ≤ key
        → key < i + n
        → ((j : ℕ) → worth m' j ≡ (if j == key then amounts.plus (worth m key) x else worth m j))
        → total_from amounts m' n i sum ≡ amounts.plus (total_from amounts m n i sum) x
    unfolding total_from
    total_from-raise m m' zero i key sum x lo hi raised = absurd (omega arith)
    total_from-raise m m' (suc n) i key sum x lo hi raised = elim (Bool-cases (i == key)) [
      | inl here ↦
          let e : i ≡ key = ==→eq i key here in
          let above : (j : ℕ) → suc i ≤ j → worth m' j ≡ worth m j =
            λ j le. raised j ∙ (let off : j == key ≡ false = ground arith in rw off refl) in
          let at : worth m' i ≡ amounts.plus (worth m i) x = raised i ∙ rw (here, e) refl in
          rw (at, ← exact.assoc sum (worth m i) x)
            (total_from-same m' m n (suc i) (amounts.plus (amounts.plus sum (worth m i)) x) above
              ∙ total_from-plus m n (suc i) (amounts.plus sum (worth m i)) x)
      | inr later ↦
          let at : worth m' i ≡ worth m i = raised i ∙ rw later refl in
          rw at (
            total_from-raise m m' n (suc i) key (amounts.plus sum (worth m i)) x (ground arith)
              (omega arith) raised)
    ]
