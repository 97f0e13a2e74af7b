-- ===== src/Bank/Barrier/Rounds.antt =====
-- Who is through a barrier of threads.cc.
use native.Mathlib.Nat.{suc-mod, zero-mod, mod-lt, mod-eq_of_lt, mod_self}
use mathlib.Core.List.{append-nil}
use concurrent_computing.Prelude.{
  ℕ, suc, ◌+◌, ◌%◌, ◌<◌, ◌≤◌, ◌≡◌, refl, sym, ap, ◌∙◌, arith, List, [], ◌∷◌, ◌++◌, length,
  length-append, elem, true, ltb, Bool-cases, inl, inr,
}
use concurrent_computing.Bank.Barrier.{
  Barrier, barrier_init, barrier_cross, barrier_wake, cross_all,
}

-- Of the threads that came, the last one first, those that wait came after the last full round.
pub record Counts (n : ℕ) (came : List ℕ) (b : Barrier) : Type 0 where
  pub count : b.count ≡ n
  pub crossing : b.crossing ≡ length came % n
  pub waits : length b.waiting ≡ b.crossing
  pub order : b.waiting ++ b.passed ≡ came

next_mod-below : (k n : ℕ) → k % n + 1 < n → suc k % n ≡ k % n + 1
next_mod-below k n lt =
    let e : suc (k % n) ≡ k % n + 1 = omega arith in suc-mod k n ∙ rw e (mod-eq_of_lt lt)

next_mod-full : (k n : ℕ) → 0 < n → n ≤ k % n + 1 → suc k % n ≡ 0
next_mod-full k n pos le =
    let e : suc (k % n) ≡ n = omega (arith, mod-lt k pos) in suc-mod k n ∙ rw e (mod_self n)

-- The threads in the order in which they came, put on those that came before.
unfoldable pub came_after : List ℕ → List ℕ → List ℕ
came_after came [] = came
came_after came (thread ∷ threads) = came_after (thread ∷ came) threads

module _ (n : ℕ) (pos : 0 < n) where
  barrier_cross-Counts :
      (thread : ℕ) (came : List ℕ) (b : Barrier)
      → Counts n came b
      → Counts n (thread ∷ came) (barrier_cross thread b)
  unfolding barrier_cross
  barrier_cross-Counts thread came b c = elim (Bool-cases (ltb (b.crossing + 1) b.count)) [
    | inl more ↦
        let lt : length came % n + 1 < n = rw (← c.crossing, ← c.count) (ground arith) in
        rw more (record {
          count = c.count;
          crossing = ap (λ (k : ℕ). k + 1) c.crossing ∙ sym (next_mod-below (length came) n lt);
          waits = omega (arith, c.waits);
          order = ap (λ (xs : List ℕ). thread ∷ xs) c.order;
        })
    | inr full ↦
        let le : n ≤ length came % n + 1 = rw (← c.crossing, ← c.count) (ground arith) in
        rw full (record {
          count = c.count;
          crossing = sym (next_mod-full (length came) n pos le);
          waits = refl;
          order = ap (λ (xs : List ℕ). thread ∷ xs) c.order;
        })
  ]

  cross_all-Counts :
      (threads came : List ℕ) (b : Barrier)
      → Counts n came b
      → Counts n (came_after came threads) (cross_all threads b)
  unfolding cross_all came_after
  cross_all-Counts [] came b c = c
  cross_all-Counts (thread ∷ threads) came b c =
      cross_all-Counts threads (thread ∷ came) (barrier_cross thread b)
        (barrier_cross-Counts thread came b c)

  -- After any number of threads have come to a new barrier for `n` of them, and where no wait ends
  -- without a broadcast: as many wait as are left
  -- over from full rounds of `n`, `crossing` counts them, they are the last ones that came, and all
  -- that came before them went through.
  cross_all-rounds :
      (threads : List ℕ) → Counts n (came_after [] threads) (cross_all threads (barrier_init n))
  unfolding barrier_init
  cross_all-rounds threads =
      cross_all-Counts threads [] (barrier_init n)
        (record { count = refl; crossing = sym (zero-mod n); waits = refl; order = refl })

  nothing_passed : (xs ys : List ℕ) → length (xs ++ ys) ≡ length xs → ys ≡ []
  nothing_passed xs [] e = refl
  nothing_passed xs (y ∷ ys) e = absurd (omega (arith, e, length-append xs (y ∷ ys)))

  -- While fewer than `n` threads have come to a new barrier, a thread that came goes through alone
  -- if its wait ends without a broadcast.
  pub barrier_wake-early :
      (threads : List ℕ) (thread : ℕ)
      → length (came_after [] threads) < n
      → elem thread (came_after [] threads) ≡ true
      → (barrier_wake thread (cross_all threads (barrier_init n))).passed ≡ thread ∷ []
  unfolding barrier_wake
  barrier_wake-early threads thread few came =
      let b = cross_all threads (barrier_init n) in
      let c = cross_all-rounds threads in
      let all : length (b.waiting ++ b.passed) ≡ length b.waiting =
        ap (λ (xs : List ℕ). length xs) c.order ∙ sym (c.waits ∙ c.crossing ∙ mod-eq_of_lt few) in
      let none_passed = nothing_passed b.waiting b.passed all in
      let waits : b.waiting ≡ came_after [] threads =
        sym (append-nil b.waiting)
        ∙ ap (λ (xs : List ℕ). b.waiting ++ xs) (sym none_passed)
        ∙ c.order in
      let in_wait : elem thread b.waiting ≡ true =
        ap (λ (xs : List ℕ). elem thread xs) waits ∙ came in
      rw in_wait (ap (λ (xs : List ℕ). thread ∷ xs) none_passed)
