-- ===== src/Bank/VectorMap/Refines.antt =====
-- The two versions of `simplemap_t` (simplemap.h) agree when the keys come in order.
use concurrent_computing.Prelude.{
  ℕ, zero, suc, ◌<◌, ◌≤◌, ◌≡◌, refl, sym, ap, ◌∙◌, arith, Bool, ◌++◌, none, some, List, [], ◌∷◌,
  length, length-append, ◌==◌, if◌then◌else◌,
}
use concurrent_computing.Bank.Map.{Simplemap, construct, insert, update_value, lookup}
use concurrent_computing.Bank.Map.Contents.{value_at, IsValid, construct-IsValid}
use concurrent_computing.Bank.Map.Sorted.{value_in}
use concurrent_computing.Bank.Map.Methods.{insert-Sets, update_value-Sets, lookup-value_at}
use concurrent_computing.Bank.VectorMap.{
  VectorMap, empty, get_elem?, set_elem, push, assign, lookup_at,
}

module _ {V : Type 0} where
  get_elem?-end :
      (vs : List V) (v : V) (i : ℕ)
      → get_elem? (vs ++ v ∷ []) i ≡ (if i == length vs then some v else get_elem? vs i)
  unfolding get_elem?
  get_elem?-end [] v zero = refl
  get_elem?-end [] v (suc i) = ground arith
  get_elem?-end (w ∷ vs) v zero = ground arith
  get_elem?-end (w ∷ vs) v (suc i) = get_elem?-end vs v i ∙ ground arith

  head_set :
      (w v : V) (vs : List V) (j : ℕ)
      → get_elem? (v ∷ vs) j ≡ (if j == 0 then some v else get_elem? (w ∷ vs) j)
  unfolding get_elem?
  head_set w v vs zero = ground arith
  head_set w v vs (suc j) = ground arith

  tail_set :
      (w v : V) (vs ws : List V) (i j : ℕ)
      → ((k : ℕ) → get_elem? ws k ≡ (if k == i then some v else get_elem? vs k))
      → get_elem? (w ∷ ws) j ≡ (if j == suc i then some v else get_elem? (w ∷ vs) j)
  unfolding get_elem?
  tail_set w v vs ws i zero same = ground arith
  tail_set w v vs ws i (suc j) same = same j ∙ ground arith

  set_elem_run :
      (vs : List V) (i : ℕ) (v : V)
      → i < length vs
      → (ws : List V) × (set_elem vs i v ≡ some ws)
        × (length ws ≡ length vs)
        × ((j : ℕ) → get_elem? ws j ≡ (if j == i then some v else get_elem? vs j))
  unfolding set_elem
  set_elem_run [] i v lt = absurd (omega arith)
  set_elem_run (w ∷ vs) zero v lt = (v ∷ vs, refl, refl, head_set w v vs)
  set_elem_run (w ∷ vs) (suc i) v lt =
      let (ws, run, size, same) = set_elem_run vs i v (omega arith) in
      (w ∷ ws, rw run refl, omega arith, λ j. tail_set w v vs ws i j same)

  -- The chains have the keys below `n`, which are the indices of the vector, with the same values.
  pub record Agrees (n : ℕ) (m : Simplemap V) (vm : VectorMap V) : Type 0 where
    pub valid : IsValid m
    pub size : length vm.values ≡ n
    pub same : (key : ℕ) → value_at m key ≡ get_elem? vm.values key

  pub empty-Agrees : (buckets : ℕ) → 0 < buckets → Agrees 0 (construct buckets) (empty buckets)
  unfolding construct empty value_at value_in get_elem?
  empty-Agrees buckets roomy = record {
    valid = construct-IsValid buckets roomy;
    size = refl;
    same = λ key. refl;
  }

  outside : (vs : List V) (i : ℕ) → length vs ≤ i → get_elem? vs i ≡ none
  unfolding get_elem?
  outside [] i le = refl
  outside (v ∷ vs) zero le = absurd (omega arith)
  outside (v ∷ vs) (suc i) le = outside vs i (omega arith)

  inside : (vs : List V) (i : ℕ) → i < length vs → (v : V) × (get_elem? vs i ≡ some v)
  unfolding get_elem?
  inside [] i lt = absurd (omega arith)
  inside (v ∷ vs) zero lt = (v, refl)
  inside (v ∷ vs) (suc i) lt = inside vs i (omega arith)

  module _ (n : ℕ) (m : Simplemap V) (vm : VectorMap V) (agrees : Agrees n m vm) where
    -- The next key inserted into both maps leaves them in agreement.
    pub push-Agrees : (val : V) → Agrees (suc n) (insert m n val).1 (push vm n val)
    unfolding push
    push-Agrees val =
        let sets = (insert-Sets m agrees.valid n val).1 in
        let fresh : value_at m n ≡ none =
          agrees.same n ∙ outside vm.values n (let size = agrees.size in omega arith) in
        record {
          valid = sets.valid;
          size = length-append vm.values (val ∷ []) ∙ (let size = agrees.size in omega arith);
          same = λ key.
              sets.pairs key
              ∙ rw (fresh, agrees.same key)
                  (sym (get_elem?-end vm.values val key ∙ rw agrees.size (ground arith)));
        }

    -- An update of a key below `n` is defined in both maps and leaves them in agreement.
    pub assign-Agrees :
        (key : ℕ) (val : V)
        → key < n
        → (vm' : VectorMap V) × (assign vm key val ≡ some vm')
          × Agrees n (update_value m key val).1 vm'
    unfolding assign
    assign-Agrees key val lt =
        let sets = (update_value-Sets m agrees.valid key val).1 in
        let (ws, run, size, same) =
          set_elem_run vm.values key val (let e = agrees.size in omega arith) in
        let (old, there) = inside vm.values key (let e = agrees.size in omega arith) in
        let present : value_at m key ≡ some old = agrees.same key ∙ there in
        (
          record vm { values = ws },
          rw (run, assign) refl,
          record {
            valid = sets.valid;
            size = size ∙ agrees.size;
            same = λ j. sets.pairs j ∙ rw (present, agrees.same j) (sym (same j ∙ ground arith));
          },
        )

    -- In agreement, a `lookup` of a key below `n` is defined in both maps and gives the same pair.
    pub lookup_at-lookup :
        (null : V) (key : ℕ) → key < n → lookup_at vm key ≡ some (lookup null m key)
    unfolding lookup_at
    lookup_at-lookup null key lt =
        let (val, there) = inside vm.values key (let e = agrees.size in omega arith) in
        let present : value_at m key ≡ some val = agrees.same key ∙ there in
        rw (there, lookup_at)
          (ap (λ (p : V × Bool). some p)
            (sym (lookup-value_at m agrees.valid key null ∙ rw present refl)))
