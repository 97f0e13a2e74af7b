-- ===== src/Bank/Threads/Draws.antt =====
-- The numbers that `rand_integer` (tests.cc) draws.
use native.Mathlib.Nat.{suc-mul, div-add-mod', pow-succ', one-le-pow}
use concurrent_computing.Prelude.{
  ℕ, zero, suc, ◌+◌, ◌-◌, ◌*◌, ◌/◌, ◌%◌, ◌^◌, ◌<◌, ◌≤◌, ◌≡◌, refl, ◌∙◌, arith, true, false, some,
  ltb, if◌then◌else◌, Bool-cases, inl, inr,
}
use concurrent_computing.Bank.Threads.{
  Draw, rand_max, spacing, rounded, to_double, rand_loop, rand_integer,
}

-- What the C library documents of `rand_r`.
abbrev pub IsDraw : Draw → Type 0
IsDraw rand_r = (seed : ℕ) → (rand_r seed).0 ≤ rand_max

-- A share of `d` less than the whole is less than `d`.
mul-below : (d x m : ℕ) → x < m → d * x + d ≤ d * m
mul-below zero x m lt = omega arith
mul-below (suc d) x m lt = omega (arith, suc-mul d x, suc-mul d m, mul-below d x m lt)

spacing-bounds : (n p : ℕ) → (0 < spacing n p) × (spacing n p ≤ 2 ^ n)
unfolding spacing
spacing-bounds zero p = (omega arith, omega arith)
spacing-bounds (suc n) p =
    let (pos, le) = spacing-bounds n (p / 2) in
    let twice : 2 ^ suc n ≡ 2 * 2 ^ n = pow-succ' 2 n in
    elim (Bool-cases (ltb p (2 ^ 53))) [
      | inl small ↦ rw small (omega arith, omega (arith, twice, one-le-pow n 2 (omega arith)))
      | inr large ↦ rw large (omega (arith, pos), omega (arith, le, twice))
    ]

rounded-one : (p : ℕ) → rounded 1 p ≡ p
unfolding rounded
rounded-one p =
    let rest : p % 1 ≡ 0 = omega arith in
    let low : p / 1 * 1 ≡ p = omega arith in rw (rest, low) refl

rounded-le : (unit p : ℕ) → rounded unit p ≤ p + unit
unfolding rounded
rounded-le unit p =
    let parts : p / unit * unit + p % unit ≡ p = div-add-mod' p unit in ground (arith, parts)

spacing-small : (n p : ℕ) → p < 2 ^ 53 → spacing (suc n) p ≡ 1
unfolding spacing
spacing-small n p lt = let below : ltb p (2 ^ 53) ≡ true = ground (arith, lt) in rw below refl

-- A number below 2 ^ 53 is a double.
to_double-small : (p : ℕ) → p < 2 ^ 53 → to_double p ≡ p
unfolding to_double
to_double-small p lt = rw (spacing-small 8 p lt) (rounded-one p)

to_double-le : (p : ℕ) → to_double p ≤ p + 512
unfolding to_double
to_double-le p =
    let near = rounded-le (spacing 9 p) p in
    let unit : spacing 9 p ≤ 512 = (spacing-bounds 9 p).1 in omega (arith, near, unit)

share-lt : (d x : ℕ) → 0 < d → x ≤ rand_max → to_double (d * x) / (rand_max + 1) < d
share-lt d x pos le =
    let below = mul-below d x 2147483648 (omega (arith, le)) in
    elim (Bool-cases (ltb (d * x) (2 ^ 53))) [
      | inl small ↦
          let same = to_double-small (d * x) (ground (arith, small)) in omega (arith, below, same)
      | inr large ↦
          let large' : 2 ^ 53 ≤ d * x = ground (arith, large) in
          omega (arith, below, large', to_double-le (d * x))
    ]

module _ (rand_r : Draw) (documented : IsDraw rand_r) where
  step_more :
      (fuel seed r v w : ℕ)
      → ltb rand_max r ≡ true
      → (v + 1 + to_double (rand_max * (rand_r seed).0) / (rand_max + 1)) % 2 ^ 32 ≡ w
      → rand_loop rand_r (suc fuel) seed r v
        ≡ rand_loop rand_r fuel (rand_r seed).1 (r - rand_max) w
  unfolding rand_loop
  step_more fuel seed r v w more wrap =
      let d : (if ltb r rand_max then r else rand_max) ≡ rand_max = ground arith in
      rw (d, more, wrap, rand_loop) refl

  step_last :
      (fuel seed r v w : ℕ)
      → ltb rand_max r ≡ false
      → (v + 1 + to_double (r * (rand_r seed).0) / (rand_max + 1)) % 2 ^ 32 ≡ w
      → rand_loop rand_r (suc fuel) seed r v ≡ some (w, (rand_r seed).1)
  unfolding rand_loop
  step_last fuel seed r v w last wrap =
      let d : (if ltb r rand_max then r else rand_max) ≡ r = ground arith in
      rw (d, last, wrap, rand_loop) refl

  rand_loop-bounds :
      (fuel seed r v : ℕ)
      → 0 < r
      → r < fuel
      → v + r < 2 ^ 32
      → (out : ℕ) × (next : ℕ) × (rand_loop rand_r fuel seed r v ≡ some (out, next))
        × (v < out)
        × (out ≤ v + r)
  rand_loop-bounds zero seed r v pos lt small = absurd (omega arith)
  rand_loop-bounds (suc fuel) seed r v pos lt small =
      let x = (rand_r seed).0 in
      elim (Bool-cases (ltb rand_max r)) [
        | inl more ↦
            let q = to_double (rand_max * x) / (rand_max + 1) in
            let share : q < rand_max = share-lt rand_max x (omega arith) (documented seed) in
            let above : rand_max < r = ground arith in
            let wrap : (v + 1 + q) % 2 ^ 32 ≡ v + 1 + q = omega arith in
            let (out, next, run, lo, hi) =
              rand_loop-bounds fuel (rand_r seed).1 (r - rand_max) (v + 1 + q) (omega arith)
                (omega arith) (omega arith) in
            (
              out,
              next,
              step_more fuel seed r v (v + 1 + q) more wrap ∙ run,
              omega arith,
              omega arith,
            )
        | inr last ↦
            let q = to_double (r * x) / (rand_max + 1) in
            let share : q < r = share-lt r x pos (documented seed) in
            let wrap : (v + 1 + q) % 2 ^ 32 ≡ v + 1 + q = omega arith in
            (
              v + 1 + q,
              (rand_r seed).1,
              step_last fuel seed r v (v + 1 + q) last wrap,
              omega arith,
              omega arith,
            )
      ]

  -- For a range from 1 to 2 ^ 32 - 1, and a `rand_r` that stays within `RAND_MAX`, `rand_integer`
  -- returns, and the number is at least 1 and at most the range.
  pub rand_integer-bounds :
      (seed r : ℕ)
      → 0 < r
      → r < 2 ^ 32
      → (out : ℕ) × (next : ℕ) × (rand_integer rand_r seed r ≡ some (out, next))
        × (0 < out)
        × (out ≤ r)
  unfolding rand_integer
  rand_integer-bounds seed r pos small =
      let (out, next, run, lo, hi) =
        rand_loop-bounds (suc r) seed r 0 pos (omega arith) (omega arith) in
      (out, next, run, lo, omega arith)
