-- ===== src/Bank/Accounts/Deposits.antt =====
-- `applyDeposit` of tests.cc moves an amount and keeps the total.
use concurrent_computing.Prelude.{
  ℕ, ◌<◌, ◌≡◌, refl, sym, ap, ◌∙◌, arith, Bool, true, false, ◌&&◌, Option, none, some, ◌==◌, ==→eq,
  ==_refl, if◌then◌else◌, is_some, Bool-cases, Option-cases, inl, inr,
}
use concurrent_computing.Bank.Map.{Simplemap, update_value, lookup}
use concurrent_computing.Bank.Map.Contents.{value_at, IsValid}
use concurrent_computing.Bank.Map.Methods.{lookup-value_at, update_value-Sets}
use concurrent_computing.Bank.Accounts.{Amount, apply_deposit, total_from}
use concurrent_computing.Bank.Accounts.Totals.{
  IsExact, worth-some, worth-same, total_from-same, total_from-raise,
}

-- The same accounts, with other amounts in them.
pub record Deposited {V : Type 0} (m m' : Simplemap V) : Type 0 where
  pub buckets : m'.buckets ≡ m.buckets
  pub valid : IsValid m'
  pub keys : (j : ℕ) → is_some (value_at m' j) ≡ is_some (value_at m j)

module _ {V : Type 0} (amounts : Amount V) where
  -- The amounts with another one under a key.
  abbrev pub with_value : (ℕ → Option V) → ℕ → V → ℕ → Option V
  with_value values key v j = if j == key then some v else values j

  abbrev credited : (ℕ → Option V) → (ℕ → Option V) → ℕ → V → Option V → ℕ → Option V
  credited values taken target amount none = values
  credited values taken target amount (some credit) =
      with_value taken target (amounts.plus credit amount)

  abbrev debited : (ℕ → Option V) → ℕ → ℕ → V → Option V → ℕ → Option V
  debited values source target amount none = values
  debited values source target amount (some funds) =
      let taken = with_value values source (amounts.minus funds amount) in
      credited values taken target amount (taken target)

  -- The amounts after a deposit: the source has `amount` less, and then the target, if both are
  -- there, `amount` more.
  abbrev pub deposited : (ℕ → Option V) → ℕ → ℕ → V → ℕ → Option V
  deposited values source target amount = debited values source target amount (values source)

  pub Deposited-refl : (m : Simplemap V) → IsValid m → Deposited m m
  Deposited-refl m valid = record { buckets = refl; valid = valid; keys = λ j. refl }

  -- One key that is there gets another value.
  set_present :
      (m : Simplemap V) (key : ℕ) (old now : V)
      → IsValid m
      → value_at m key ≡ some old
      → let m' = (update_value m key now).1 in
        Deposited m m' × ((j : ℕ) → value_at m' j ≡ (if j == key then some now else value_at m j))
  set_present m key old now valid e =
      let sets = (update_value-Sets m valid key now).1 in
      let pairs : (j : ℕ)
          → value_at (update_value m key now).1 j ≡ (if j == key then some now else value_at m j) =
        λ j. sets.pairs j ∙ rw e (ground arith) in
      (
        record {
          buckets = sets.buckets;
          valid = sets.valid;
          keys = λ j. elim (Bool-cases (j == key)) [
            | inl same ↦
                rw (pairs j, same)
                  (sym (rw (==→eq j key same) (ap (λ (o : Option V). is_some o) e)))
            | inr other ↦ rw (pairs j, other) refl
          ];
        },
        pairs,
      )

  module _ (exact : IsExact amounts) (range : ℕ) where
    abbrev sum_of : Simplemap V → V
    sum_of m = total_from amounts m range 0 amounts.nil

    -- A key in the range gets `x` more.
    sum_of-raise :
        (m m' : Simplemap V) (key : ℕ) (old x : V)
        → IsValid m
        → IsValid m'
        → key < range
        → value_at m key ≡ some old
        → ((j : ℕ) → value_at m' j ≡ (if j == key then some (amounts.plus old x) else value_at m j))
        → sum_of m' ≡ amounts.plus (sum_of m) x
    sum_of-raise m m' key old x valid valid' lt e pairs =
        total_from-raise amounts exact m m' range 0 key amounts.nil x (omega arith) (omega arith)
          (λ j. elim (Bool-cases (j == key)) [
            | inl same ↦
                let now : value_at m' j ≡ some (amounts.plus old x) = pairs j ∙ rw same refl in
                worth-some amounts m' j (amounts.plus old x) valid' now
                ∙ ap (λ (v : V). amounts.plus v x) (sym (worth-some amounts m key old valid e))
                ∙ rw same refl
            | inr other ↦
                worth-same amounts m' m j valid' valid (pairs j ∙ rw other refl) ∙ rw other refl
          ])

    module _ (m : Simplemap V) (source target : ℕ) (amount : V) (valid : IsValid m) where
      abbrev answer : Bool
      answer = is_some (value_at m source) && is_some (value_at m target)

      -- What `applyDeposit` returns and leaves.
      pub record Moved (result : Bool × Simplemap V) : Type 0 where
        pub says : result.0 ≡ answer
        pub keeps : Deposited m result.1
        pub balanced : sum_of result.1 ≡ sum_of m
        pub pairs : (j : ℕ) → value_at result.1 j ≡ deposited (value_at m) source target amount j

      abbrev taken : V → Simplemap V
      taken funds = (update_value m source (amounts.minus funds amount)).1

      module _ (funds : V) (e : value_at m source ≡ some funds) where
        withdrawn :
            Deposited m (taken funds)
            × ((j : ℕ)
                → value_at (taken funds) j
                  ≡ (if j == source then some (amounts.minus funds amount) else value_at m j))
        withdrawn = set_present m source funds (amounts.minus funds amount) valid e

        less : source < range → sum_of m ≡ amounts.plus (sum_of (taken funds)) amount
        less lt =
            sum_of-raise (taken funds) m source (amounts.minus funds amount) amount
              withdrawn.0.valid valid lt (withdrawn.1 source ∙ rw (==_refl source) refl)
              (λ j. elim (Bool-cases (j == source)) [
                | inl same ↦ rw same (
                    ap (λ (i : ℕ). value_at m i) (==→eq j source same)
                    ∙ e
                    ∙ ap (λ (v : V). some v) (sym (exact.returns funds amount)))
                | inr other ↦ rw other (sym (withdrawn.1 j ∙ rw other refl))
              ])

        -- The source has funds, and so has the target.
        both :
            (credit : V)
            → value_at (taken funds) target ≡ some credit
            → source < range
            → target < range
            → Moved (true, (update_value (taken funds) target (amounts.plus credit amount)).1)
        both credit e' lt lt' =
            let paid =
              set_present (taken funds) target credit (amounts.plus credit amount) withdrawn.0.valid
                e' in
            record {
              says = rw (e, ← withdrawn.0.keys target, e') refl;
              keeps = record {
                buckets = paid.0.buckets ∙ withdrawn.0.buckets;
                valid = paid.0.valid;
                keys = λ j. paid.0.keys j ∙ withdrawn.0.keys j;
              };
              balanced =
                  sum_of-raise (taken funds)
                    (update_value (taken funds) target (amounts.plus credit amount)).1 target credit
                    amount withdrawn.0.valid paid.0.valid lt' e' paid.1
                  ∙ sym (less lt);
              pairs = λ j.
                  let spec : with_value (value_at m) source (amounts.minus funds amount) target
                      ≡ some credit =
                    sym (withdrawn.1 target) ∙ e' in
                  rw (e, spec) (paid.1 j ∙ rw (withdrawn.1 j) refl);
            }

        -- Without a target the source gets its funds back.
        fallback :
            value_at (taken funds) target ≡ none
            → Moved (false, (update_value (taken funds) source funds).1)
        fallback e' =
            let there : value_at (taken funds) source ≡ some (amounts.minus funds amount) =
              withdrawn.1 source ∙ rw (==_refl source) refl in
            let paid =
              set_present (taken funds) source (amounts.minus funds amount) funds withdrawn.0.valid
                there in
            let restored : (j : ℕ)
                → value_at (update_value (taken funds) source funds).1 j ≡ value_at m j =
              λ j. elim (Bool-cases (j == source)) [
                | inl same ↦
                    paid.1 j
                    ∙ rw same (sym (ap (λ (i : ℕ). value_at m i) (==→eq j source same) ∙ e))
                | inr other ↦ paid.1 j ∙ rw other (withdrawn.1 j ∙ rw other refl)
              ] in
            record {
              says = rw (e, ← withdrawn.0.keys target, e') refl;
              keeps = record {
                buckets = paid.0.buckets ∙ withdrawn.0.buckets;
                valid = paid.0.valid;
                keys = λ j. paid.0.keys j ∙ withdrawn.0.keys j;
              };
              balanced =
                  total_from-same amounts (update_value (taken funds) source funds).1 m range 0
                    amounts.nil (λ j le. worth-same amounts _ m j paid.0.valid valid (restored j));
              pairs = λ j.
                  let spec : with_value (value_at m) source (amounts.minus funds amount) target
                      ≡ none =
                    sym (withdrawn.1 target) ∙ e' in
                  rw (e, spec) (restored j);
            }

      look :
          (n : Simplemap V) (key : ℕ) (o : Option V)
          → IsValid n
          → value_at n key ≡ o
          → lookup amounts.nil n key ≡ (elim o [ none ↦ (amounts.nil, false) | some v ↦ (v, true) ])
      look n key o valid' e = lookup-value_at n valid' key amounts.nil ∙ rw e refl

      -- With exact amounts, and for two keys in the range: `applyDeposit` says whether both accounts
      -- are there. If they are, the source has the amount less and then the target the amount more;
      -- if not, every account has what it had. The accounts and the order of the buckets stay, and so
      -- does the sum over the range. This includes a deposit from an account to itself.
      pub apply_deposit-Moved :
          source < range → target < range → Moved (apply_deposit amounts m source target amount)
      unfolding apply_deposit
      apply_deposit-Moved lt lt' = elim (Option-cases (value_at m source)) [
        | inl e ↦ rw (look m source none valid e) (record {
          says = rw e refl;
          keeps = Deposited-refl m valid;
          balanced = refl;
          pairs = λ j. rw e refl;
        })
        | inr (funds, e) ↦
            let valid' = (withdrawn funds e).0.valid in
            elim (Option-cases (value_at (taken funds) target)) [
              | inl e' ↦
                  rw (look m source (some funds) valid e, look (taken funds) target none valid' e')
                    (fallback funds e e')
              | inr (credit, e') ↦
                  rw
                    (
                      look m source (some funds) valid e,
                      look (taken funds) target (some credit) valid' e',
                    )
                    (both funds e credit e' lt lt')
            ]
      ]
