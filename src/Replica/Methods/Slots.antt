-- ===== src/Replica/Methods/Slots.antt =====
-- `find`, `findSlot` and `isAvailable` of the class `Table` in
-- ReplicatedKeyValueStoreRDMA/Persistence/KeyValueStore/Cuckoo.hpp.
use concurrent_computing.Prelude.{
  ℕ, ◌/◌, ◌%◌, ◌<◌, ◌≡◌, ◌≢◌, arith, true, not, none, some, ◌==◌, ==→eq, ==_refl, ◌∙◌, ap,
}
use concurrent_computing.Cuckoo.Table.{any}
use concurrent_computing.Cuckoo.Contents.{any-true, any_intro, first-some, first-none}
use concurrent_computing.Replica.Table.{
  Table, entry_width, offset, get_element, is_occupied, find, find_slot, first_available,
}

module _ (t : Table) where
  pub find_slot-some :
      (k idx j : ℕ)
      → find_slot t k idx ≡ some j
      → (j < entry_width) × ((t.elements (offset idx j)).key ≡ k)
  unfolding find_slot
  find_slot-some k idx j h =
      let (lo, hi, q) = first-some (λ i. (get_element t idx i).key == k) entry_width 0 j h in
      (hi, ==→eq _ _ q)

  pub first_available-some :
      (idx j : ℕ)
      → first_available t idx ≡ some j
      → (j < entry_width) × ((t.elements (offset idx j)).key ≡ 0)
  unfolding first_available
  first_available-some idx j h =
      let (lo, hi, q) =
        first-some (λ i. not (is_occupied (get_element t idx i))) entry_width 0 j h in
      (hi, ground arith)

  -- The loop over a bucket sees each of its cells.
  any_cell :
      (k n idx : ℕ)
      → n / entry_width ≡ idx
      → (t.elements n).key ≡ k
      → any (λ i. (get_element t idx i).key == k) entry_width 0 ≡ true
  any_cell k n idx e h =
      let here : (get_element t idx (n % entry_width)).key ≡ k =
        ap (λ m. (t.elements m).key) (omega arith) ∙ h in
      any_intro (λ i. (get_element t idx i).key == k) entry_width 0 (n % entry_width) (omega arith)
        (omega arith) (rw here (==_refl k))

  pub find_slot-none :
      (k idx : ℕ)
      → find_slot t k idx ≡ none
      → (n : ℕ) → n / entry_width ≡ idx
      → (t.elements n).key ≢ k
  unfolding find_slot
  find_slot-none k idx h n e q =
      cc (any_cell k n idx e q, first-none (λ i. (get_element t idx i).key == k) entry_width 0 h)

  pub find-true :
      (k idx : ℕ)
      → find t k idx ≡ true
      → (n : ℕ) × (n / entry_width ≡ idx) × ((t.elements n).key ≡ k)
  unfolding find
  find-true k idx h =
      let (j, lo, hi, q) = any-true (λ i. (get_element t idx i).key == k) entry_width 0 h in
      (offset idx j, omega arith, ==→eq _ _ q)

  pub find-intro :
      (k n idx : ℕ) → n / entry_width ≡ idx → (t.elements n).key ≡ k → find t k idx ≡ true
  unfolding find
  find-intro k n idx e h = any_cell k n idx e h
