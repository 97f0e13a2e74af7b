-- ===== src/Cuckoo/Locks/Runs.antt =====
-- What a thread of Cuckoo.hpp holds after it took and released spin locks.
use concurrent_computing.Prelude.{
  ℕ, suc, ◌≤◌, ◌≡◌, refl, ap, ◌∙◌, fun_ext, arith, Bool, true, false, not, ◌||◌, ◌&&◌, some, List,
  [], ◌∷◌, elem, update, ◌==◌, if◌then◌else◌,
}
use concurrent_computing.Cuckoo.State.{Cuckoo, acquire, release, ◌>>=◌}
use concurrent_computing.Cuckoo.Locks.{lock_two, lock_three, unlock_one, unlock_two, unlock_three}
use concurrent_computing.Cuckoo.Locks.Order.{Ascends, lock_two-Ascends, lock_three-Ascends}

-- The spin locks of the list are held, and no other.
abbrev pub only : List ℕ → ℕ → Bool
only is i = elem i is

abbrev pub holding : Cuckoo → List ℕ → Cuckoo
holding s is = record s { held = only is }

module _ (s : Cuckoo) where
  acquire_ascending :
      (is : List ℕ) (low : ℕ) (h : ℕ → Bool)
      → Ascends low is
      → ((i : ℕ) → low ≤ i → h i ≡ false)
      → acquire is (record s { held = h }) ≡ some (tt, record s { held = λ i. elem i is || h i })
  unfolding acquire
  acquire_ascending [] low h asc free = refl
  acquire_ascending (k ∷ is) low h asc free =
      let rest : acquire is (record s { held = update h k true })
          ≡ some (tt, record s { held = λ i. elem i is || update h k true i }) =
        acquire_ascending is (suc k) (update h k true) asc.1 (λ i le. ground (arith, free i)) in
      rw (free k asc.0, ◌>>=◌)
        (rest ∙ ap (λ (g : ℕ → Bool). some (tt, record s { held = g })) (fun_ext shift))
    where
      shift : (i : ℕ) → (elem i is || update h k true i) ≡ (elem i (k ∷ is) || h i)
      shift i = ground arith

  pub acquire_run :
      (is js : List ℕ)
      → Ascends 0 is
      → ((i : ℕ) → elem i is ≡ elem i js)
      → acquire is (holding s []) ≡ some (tt, holding s js)
  acquire_run is js asc same =
      acquire_ascending is 0 (only []) asc (λ i le. refl)
      ∙ ap (λ (h : ℕ → Bool). some (tt, record s { held = h }))
          (fun_ext (λ i. ground (arith, same i)))

  pub lock_two_run :
      (a b : ℕ) → acquire (lock_two a b) (holding s []) ≡ some (tt, holding s (a ∷ b ∷ []))
  lock_two_run a b =
      acquire_run (lock_two a b) (a ∷ b ∷ []) (lock_two-Ascends a b 0).0
        (λ i. (lock_two-Ascends a b i).1)

  pub lock_three_run :
      (a b c : ℕ)
      → acquire (lock_three a b c) (holding s []) ≡ some (tt, holding s (a ∷ b ∷ c ∷ []))
  lock_three_run a b c =
      acquire_run (lock_three a b c) (a ∷ b ∷ c ∷ []) (lock_three-Ascends a b c 0).0
        (λ i. (lock_three-Ascends a b c i).1)

  -- Each lock of the list is held when its turn comes.
  abbrev Held : (ℕ → Bool) → List ℕ → Type 0
  Held h [] = Unit
  Held h (i ∷ is) = (h i ≡ true) × Held (update h i false) is

  release_held :
      (is : List ℕ) (h : ℕ → Bool)
      → Held h is
      → release is (record s { held = h })
        ≡ some (tt, record s { held = λ i. not (elem i is) && h i })
  unfolding release
  release_held [] h held = refl
  release_held (k ∷ is) h held =
      rw (held.0, ◌>>=◌)
        (release_held is (update h k false) held.1
          ∙ ap (λ (g : ℕ → Bool). some (tt, record s { held = g })) (fun_ext shift))
    where
      shift : (i : ℕ) → (not (elem i is) && update h k false i) ≡ (not (elem i (k ∷ is)) && h i)
      shift i = ground arith

  release_run :
      (is js ks : List ℕ)
      → Held (only js) is
      → ((i : ℕ) → (not (elem i is) && elem i js) ≡ elem i ks)
      → release is (holding s js) ≡ some (tt, holding s ks)
  release_run is js ks held same =
      release_held is (only js) held
      ∙ ap (λ (h : ℕ → Bool). some (tt, record s { held = h })) (fun_ext same)

  pub unlock_two_run :
      (a b : ℕ) → release (unlock_two a b) (holding s (a ∷ b ∷ [])) ≡ some (tt, holding s [])
  unfolding unlock_two
  unlock_two_run a b =
      release_run (unlock_two a b) (a ∷ b ∷ []) [] (ground arith) (λ i. ground arith)

  pub unlock_three_run :
      (a b c : ℕ)
      → release (unlock_three a b c) (holding s (a ∷ b ∷ c ∷ [])) ≡ some (tt, holding s [])
  unfolding unlock_three
  unlock_three_run a b c =
      release_run (unlock_three a b c) (a ∷ b ∷ c ∷ []) [] (ground arith) (λ i. ground arith)

  -- After the last displacement the locks of the value's two buckets stay.
  pub unlock_other_run :
      (a b k : ℕ)
      → release
          (if not (k == a) && not (k == b) then unlock_one k else [])
          (holding s (a ∷ b ∷ k ∷ []))
        ≡ some (tt, holding s (a ∷ b ∷ []))
  unfolding unlock_one
  unlock_other_run a b k =
      release_run (if not (k == a) && not (k == b) then unlock_one k else []) (a ∷ b ∷ k ∷ [])
        (a ∷ b ∷ []) (ground arith) (λ i. ground arith)

  -- Whatever the three indices are, a thread with no lock can take `lock_three`, then holds the locks
  -- of the three indices and no other, and `unlock_three` gives all of them back.
  pub lock_three-unlock_three :
      (a b c : ℕ)
      → (acquire (lock_three a b c) (holding s []) ≡ some (tt, holding s (a ∷ b ∷ c ∷ [])))
        × (release (unlock_three a b c) (holding s (a ∷ b ∷ c ∷ [])) ≡ some (tt, holding s []))
  lock_three-unlock_three a b c = (lock_three_run a b c, unlock_three_run a b c)
