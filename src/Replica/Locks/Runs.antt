-- ===== src/Replica/Locks/Runs.antt =====
-- What a thread of ReplicatedKeyValueStoreRDMA/Persistence/KeyValueStore/Cuckoo.hpp holds after it
-- took and released spin locks: as with the locks of CuckooHash/Cuckoo.hpp, on which these runs stand.
use concurrent_computing.Prelude.{
  ℕ, ◌≡◌, ap, Bool, true, false, not, ◌&&◌, some, List, [], ◌∷◌, elem, update, ◌==◌, if◌then◌else◌,
  Bool-cases, inl, inr,
}
use concurrent_computing.Cuckoo.Table.{new}
use concurrent_computing.Cuckoo.State.{acquire as take_all, release as drop_all, ◌>>=◌}
use concurrent_computing.Cuckoo.State as Sets
use concurrent_computing.Cuckoo.Locks.Runs
use concurrent_computing.Cuckoo.Locks as Orders
use concurrent_computing.Replica.State.{Cuckoo, acquire, release}
use concurrent_computing.Replica.Locks.{
  lock_two, lock_three, unlock_one, unlock_two, unlock_three, lock_two-lock_two,
  lock_three-lock_three,
}

abbrev pub holding : Cuckoo → List ℕ → Cuckoo
holding s is = record s { held = λ i. elem i is }

-- A set of which only the locks matter here.
abbrev locked : (ℕ → Bool) → Sets.Cuckoo
locked h = record {
  buckets = 0;
  table1 = new;
  table2 = new;
  held = h;
  readers = 0;
  writer = false;
  seeds = record { x = 0; y = 0; z = 0 };
}

module _ (s : Cuckoo) where
  abbrev with_held : (ℕ → Bool) → Cuckoo
  with_held h = record s { held = h }

  acquire_alike :
      (is : List ℕ) (h h' : ℕ → Bool)
      → take_all is (locked h) ≡ some (tt, locked h')
      → acquire is (with_held h) ≡ some (tt, with_held h')
  unfolding acquire take_all
  acquire_alike [] h h' e = ap (λ g. some (tt, with_held g)) (cc)
  acquire_alike (i ∷ is) h h' e = elim (Bool-cases (h i)) [
    | inl taken ↦ cc (rw (taken, ◌>>=◌) at e)
    | inr free ↦ rw (free, ◌>>=◌) (acquire_alike is (update h i true) h' (rw (free, ◌>>=◌) at e))
  ]

  release_alike :
      (is : List ℕ) (h h' : ℕ → Bool)
      → drop_all is (locked h) ≡ some (tt, locked h')
      → release is (with_held h) ≡ some (tt, with_held h')
  unfolding release drop_all
  release_alike [] h h' e = ap (λ g. some (tt, with_held g)) (cc)
  release_alike (i ∷ is) h h' e = elim (Bool-cases (h i)) [
    | inl taken ↦
        rw (taken, ◌>>=◌) (release_alike is (update h i false) h' (rw (taken, ◌>>=◌) at e))
    | inr free ↦ cc (rw (free, ◌>>=◌) at e)
  ]

  abbrev none_held : Sets.Cuckoo
  none_held = locked (λ i. false)

  pub lock_two_run :
      (a b : ℕ) → acquire (lock_two a b) (holding s []) ≡ some (tt, holding s (a ∷ b ∷ []))
  lock_two_run a b =
      acquire_alike (lock_two a b) _ _ (rw lock_two-lock_two (Runs.lock_two_run none_held a b))

  pub lock_three_run :
      (a b c : ℕ)
      → acquire (lock_three a b c) (holding s []) ≡ some (tt, holding s (a ∷ b ∷ c ∷ []))
  lock_three_run a b c =
      acquire_alike (lock_three a b c) _ _
        (rw lock_three-lock_three (Runs.lock_three_run none_held a b c))

  pub unlock_two_run :
      (a b : ℕ) → release (unlock_two a b) (holding s (a ∷ b ∷ [])) ≡ some (tt, holding s [])
  unfolding unlock_two Orders.unlock_two
  unlock_two_run a b = release_alike (unlock_two a b) _ _ (Runs.unlock_two_run none_held a b)

  pub unlock_three_run :
      (a b c : ℕ)
      → release (unlock_three a b c) (holding s (a ∷ b ∷ c ∷ [])) ≡ some (tt, holding s [])
  unfolding unlock_three Orders.unlock_three
  unlock_three_run a b c =
      release_alike (unlock_three a b c) _ _ (Runs.unlock_three_run none_held a b c)

  -- After the last displacement the locks of the element's two buckets stay.
  pub unlock_other_run :
      (a b k : ℕ)
      → release
          (if not (k == a) && not (k == b) then unlock_one k else [])
          (holding s (a ∷ b ∷ k ∷ []))
        ≡ some (tt, holding s (a ∷ b ∷ []))
  unfolding unlock_one Orders.unlock_one
  unlock_other_run a b k =
      release_alike (if not (k == a) && not (k == b) then unlock_one k else []) _ _
        (Runs.unlock_other_run none_held a b k)
