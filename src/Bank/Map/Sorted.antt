-- ===== src/Bank/Map/Sorted.antt =====
-- What the loops of simplemap.h do to one sorted chain.
use concurrent_computing.Prelude.{
  ℕ, suc, ◌<◌, ◌≤◌, ◌≡◌, refl, arith, not, ◌&&◌, Option, none, some, List, [], ◌∷◌, ◌++◌, ◌==◌,
  if◌then◌else◌, is_some,
}
use concurrent_computing.Bank.Chain.{Node, seek, insert_in, update_in, remove_in}

module _ {V : Type 0} where
  -- Keys from `low` on, in ascending order.
  abbrev pub Ascends : ℕ → List (Node V) → Type 0
  Ascends low [] = Unit
  Ascends low (n ∷ ns) = (low ≤ n.key) × Ascends (suc n.key) ns

  -- The value of a key, wherever its node stands.
  unfoldable pub value_in : ℕ → List (Node V) → Option V
  value_in key [] = none
  value_in key (n ∷ ns) = if n.key == key then some n.val else value_in key ns

  Ascends-le : (low low' : ℕ) (ns : List (Node V)) → low' ≤ low → Ascends low ns → Ascends low' ns
  Ascends-le low low' [] h a = a
  Ascends-le low low' (n ∷ ns) h a = (omega arith, a.1)

  pub value_in-below :
      (low key : ℕ) (ns : List (Node V)) → Ascends low ns → key < low → value_in key ns ≡ none
  unfolding value_in
  value_in-below low key [] a h = refl
  value_in-below low key (n ∷ ns) a h = ground (arith, value_in-below (suc n.key) key ns a.1)

  abbrev pub value_of : Option (Node V) → Option V
  value_of none = none
  value_of (some n) = some n.val

  pub seek-value_in :
      (low key : ℕ) (ns : List (Node V)) → Ascends low ns → value_of (seek key ns) ≡ value_in key ns
  unfolding seek value_in
  seek-value_in low key [] a = refl
  seek-value_in low key (n ∷ ns) a =
      ground (arith, seek-value_in (suc n.key) key ns a.1, value_in-below (suc n.key) key ns a.1)

  pub insert_in-answer :
      (low key : ℕ) (val : V) (ns : List (Node V))
      → Ascends low ns
      → (insert_in key val ns).0 ≡ not (is_some (value_in key ns))
  unfolding insert_in value_in
  insert_in-answer low key val [] a = refl
  insert_in-answer low key val (n ∷ ns) a =
      ground
        (arith, insert_in-answer (suc n.key) key val ns a.1, value_in-below (suc n.key) key ns a.1)

  pub insert_in-Ascends :
      (low key : ℕ) (val : V) (ns : List (Node V))
      → Ascends low ns
      → low ≤ key
      → Ascends low (insert_in key val ns).1
  unfolding insert_in
  insert_in-Ascends low key val [] a le = (le, tt)
  insert_in-Ascends low key val (n ∷ ns) a le =
      ground (arith, insert_in-Ascends (suc n.key) key val ns a.1)

  pub insert_in-value :
      (low key j : ℕ) (val : V) (ns : List (Node V))
      → Ascends low ns
      → value_in j (insert_in key val ns).1
        ≡ (if j == key && not (is_some (value_in key ns)) then some val else value_in j ns)
  unfolding insert_in value_in
  insert_in-value low key j val [] a = ground arith
  insert_in-value low key j val (n ∷ ns) a =
      ground
        (arith, insert_in-value (suc n.key) key j val ns a.1, value_in-below (suc n.key) key ns a.1)

  pub update_in-answer :
      (low key : ℕ) (val : V) (ns : List (Node V))
      → Ascends low ns
      → (update_in key val ns).0 ≡ is_some (value_in key ns)
  unfolding update_in value_in
  update_in-answer low key val [] a = refl
  update_in-answer low key val (n ∷ ns) a =
      ground
        (arith, update_in-answer (suc n.key) key val ns a.1, value_in-below (suc n.key) key ns a.1)

  pub update_in-Ascends :
      (low key : ℕ) (val : V) (ns : List (Node V))
      → Ascends low ns
      → Ascends low (update_in key val ns).1
  unfolding update_in
  update_in-Ascends low key val [] a = tt
  update_in-Ascends low key val (n ∷ ns) a =
      ground (arith, update_in-Ascends (suc n.key) key val ns a.1)

  pub update_in-value :
      (low key j : ℕ) (val : V) (ns : List (Node V))
      → Ascends low ns
      → value_in j (update_in key val ns).1
        ≡ (if j == key && is_some (value_in key ns) then some val else value_in j ns)
  unfolding update_in value_in
  update_in-value low key j val [] a = ground arith
  update_in-value low key j val (n ∷ ns) a =
      ground
        (arith, update_in-value (suc n.key) key j val ns a.1, value_in-below (suc n.key) key ns a.1)

  pub remove_in-answer :
      (low key : ℕ) (ns : List (Node V))
      → Ascends low ns
      → (remove_in key ns).0 ≡ is_some (value_in key ns)
  unfolding remove_in value_in
  remove_in-answer low key [] a = refl
  remove_in-answer low key (n ∷ ns) a =
      ground (arith, remove_in-answer (suc n.key) key ns a.1, value_in-below (suc n.key) key ns a.1)

  pub remove_in-Ascends :
      (low key : ℕ) (ns : List (Node V)) → Ascends low ns → Ascends low (remove_in key ns).1
  unfolding remove_in
  remove_in-Ascends low key [] a = tt
  remove_in-Ascends low key (n ∷ ns) a =
      let shorter = Ascends-le (suc n.key) low ns in
      ground (arith, remove_in-Ascends (suc n.key) key ns a.1)

  pub remove_in-value :
      (low key j : ℕ) (ns : List (Node V))
      → Ascends low ns
      → value_in j (remove_in key ns).1 ≡ (if j == key then none else value_in j ns)
  unfolding remove_in value_in
  remove_in-value low key j [] a = ground arith
  remove_in-value low key j (n ∷ ns) a = ground (
    arith,
    remove_in-value (suc n.key) key j ns a.1,
    value_in-below (suc n.key) key ns a.1,
    value_in-below (suc n.key) j ns a.1,
  )

  -- The values that come with a key, in their order.
  unfoldable pub visits : ℕ → List (Node V) → List V
  visits key [] = []
  visits key (n ∷ ns) = if n.key == key then n.val ∷ visits key ns else visits key ns

  abbrev pub list_of : Option V → List V
  list_of none = []
  list_of (some v) = v ∷ []

  pub visits-append :
      (key : ℕ) (ms ns : List (Node V)) → visits key (ms ++ ns) ≡ visits key ms ++ visits key ns
  unfolding visits
  visits-append key [] ns = refl
  visits-append key (m ∷ ms) ns = ground (arith, visits-append key ms ns)

  pub visits-list_of :
      (low key : ℕ) (ns : List (Node V))
      → Ascends low ns
      → visits key ns ≡ list_of (value_in key ns)
  unfolding visits value_in
  visits-list_of low key [] a = refl
  visits-list_of low key (n ∷ ns) a =
      ground (arith, visits-list_of (suc n.key) key ns a.1, value_in-below (suc n.key) key ns a.1)
