-- ===== src/Clustering/Choosing.antt =====
-- The choice of the first centers in `run` of K-Means/solution.cpp.
use concurrent_computing.Prelude.{
  ℕ, suc, ◌+◌, ◌%◌, ◌<◌, ◌≤◌, ◌≡◌, arith, Bool, true, false, ◌||◌, Option, none, some, List, [],
  ◌∷◌, ◌++◌, ◌==◌, elem, if◌then◌else◌, Bool-cases, inl, inr, refl, ◌∙◌, sym, ap, transport, update,
  update_at, ==→eq, ==_refl,
}
use concurrent_computing.Clustering.{Reals, Sizes, State, is_in, set_cluster, new_cluster, choose}
use concurrent_computing.Clustering.Members.{IsPartition, Copies, Copies-one, count, one}

or_false : (a b : Bool) → (a || b) ≡ false → (a ≡ false) × (b ≡ false)
or_false true b e = absurd (ground (arith, e))
or_false false b e = (refl, e)

module _ (r : Reals) (sizes : Sizes r) where
  -- How many more different points the draws choose.
  unfoldable pub distinct : List ℕ → List ℕ → ℕ
  distinct prohibited [] = 0
  distinct prohibited (draw ∷ draws) =
      let index = draw % sizes.total_points in
      let again = distinct prohibited draws in
      let on = distinct (prohibited ++ index ∷ []) draws in
      if elem index prohibited then again else suc on

module _ (r : Reals) (vals : ℕ → ℕ → r.R) where
  -- `s` with the point `index` as the center `i`.
  abbrev with_center : ℕ → ℕ → State r → State r
  with_center i index s = record {
    points = update s.points index (set_cluster r i (s.points index));
    clusters = update s.clusters i (new_cluster r i (set_cluster r i (s.points index)));
  }

  with_center-new :
      (n : ℕ) (s : State r) (i index j : ℕ)
      → index < n
      → j < n
      → IsPartition r vals i n s
      → count r j (new_cluster r i (set_cluster r i (s.points index))).points
        ≡ one (is_in ((with_center i index s).points j).cluster i)
  unfolding new_cluster
  with_center-new n s i index j lt j<n h =
      rw (h.numbered index lt) (elim (Bool-cases (index == j)) [
        | inl e ↦ rw e (rw (==_refl i) refl)
        | inr e ↦ rw e (elim (Bool-cases (is_in (s.points j).cluster i)) [
          | inl mine ↦ absurd (omega (arith, h.inside j i j<n mine))
          | inr others ↦ rw others refl
        ])
      ])

  with_center-old :
      (n : ℕ) (s : State r) (i index j c : ℕ)
      → j < n
      → c < i
      → (s.points index).cluster ≡ none
      → IsPartition r vals i n s
      → count r j (s.clusters c).points ≡ one (is_in ((with_center i index s).points j).cluster c)
  with_center-old n s i index j c j<n c<i free h = elim (Bool-cases (index == j)) [
    | inl e ↦
        let same = ==→eq index j e in
        let none_yet = transport (ap (λ x. (s.points x).cluster ≡ none) same) free in
        let away : 0 ≡ one (i == c) = ground (arith, c<i) in
        rw e (h.once j c j<n c<i ∙ ap (λ o. one (is_in o c)) none_yet ∙ away)
    | inr e ↦ rw e (h.once j c j<n c<i)
  ]

  with_center-Copies :
      (n : ℕ) (s : State r) (i index : ℕ)
      → index < n
      → IsPartition r vals i n s
      → Copies r vals (new_cluster r i (set_cluster r i (s.points index))).points
  unfolding new_cluster
  with_center-Copies n s i index lt h =
      Copies-one r vals (set_cluster r i (s.points index))
        (h.valued index lt ∙ ap vals (sym (h.numbered index lt)))

  with_center-IsPartition :
      (n : ℕ) (s : State r) (i index : ℕ)
      → index < n
      → (s.points index).cluster ≡ none
      → IsPartition r vals i n s
      → IsPartition r vals (suc i) n (with_center i index s)
  with_center-IsPartition n s i index lt free h = record {
    numbered = λ j j<n.
        update_at (λ p. p.id ≡ j) s.points index (set_cluster r i (s.points index)) j
          (λ e. h.numbered index lt ∙ e) (h.numbered j j<n);
    inside = λ j c j<n.
        update_at (λ p. is_in p.cluster c ≡ true → c < suc i) s.points index
          (set_cluster r i (s.points index)) j (λ e mine. ground (arith, mine))
          (λ mine. omega (arith, h.inside j c j<n mine));
    once = λ j c j<n c<k. elim (Bool-cases (i == c)) [
      | inl e ↦
          let same = ==→eq i c e in rw e (rw (sym same) (with_center-new n s i index j lt j<n h))
      | inr e ↦ rw e (with_center-old n s i index j c j<n (ground (arith, c<k, e)) free h)
    ];
    valued = λ j j<n.
        update_at (λ p. p.values ≡ vals j) s.points index (set_cluster r i (s.points index)) j
          (λ e. h.valued index lt ∙ ap vals e) (h.valued j j<n);
    copies = λ c c<k. elim (Bool-cases (i == c)) [
      | inl e ↦ rw e (with_center-Copies n s i index lt h)
      | inr e ↦ rw e (h.copies c (ground (arith, c<k, e)))
    ];
  }

  -- The points that are not among the prohibited ones have no cluster yet.
  abbrev pub Free : ℕ → List ℕ → State r → Type 0
  Free n prohibited s = (j : ℕ) → j < n → elem j prohibited ≡ false → (s.points j).cluster ≡ none

  elem-append :
      (j index : ℕ) (xs : List ℕ)
      → elem j (xs ++ index ∷ []) ≡ false
      → (elem j xs ≡ false) × ((index == j) ≡ false)
  elem-append j index [] out = (refl, ground (arith, out))
  elem-append j index (x ∷ xs) out =
      let split = or_false (j == x) (elem j (xs ++ index ∷ [])) out in
      let rest = elem-append j index xs split.1 in (rw split.0 (rw rest.0 refl), rest.1)

  with_center-Free :
      (n : ℕ) (s : State r) (i index : ℕ) (prohibited : List ℕ)
      → Free n prohibited s
      → Free n (prohibited ++ index ∷ []) (with_center i index s)
  with_center-Free n s i index prohibited free j lt out =
      let apart = elem-append j index prohibited out in
      update_at (λ p. p.cluster ≡ none) s.points index (set_cluster r i (s.points index)) j
        (λ e. absurd (ground (arith, e, apart.1))) (free j lt apart.0)

  module _ (sizes : Sizes r) where
    -- The loop that chooses ends, and its state is a partition.
    unfoldable pub Chosen : Option (State r) → Type 0
    Chosen none = ⊥
    Chosen (some s) = IsPartition r vals sizes.k sizes.total_points s

    last-Chosen :
        (i : ℕ) (s : State r)
        → IsPartition r vals i sizes.total_points s
        → (i == sizes.k) ≡ true
        → Chosen (some s)
    unfolding Chosen
    last-Chosen i s h e =
        transport (ap (λ k. IsPartition r vals k sizes.total_points s) (==→eq i sizes.k e)) h

    pub choose-Chosen :
        (i : ℕ) (prohibited draws : List ℕ) (s : State r)
        → 0 < sizes.total_points
        → i ≤ sizes.k
        → sizes.k ≤ i + distinct r sizes prohibited draws
        → Free sizes.total_points prohibited s
        → IsPartition r vals i sizes.total_points s
        → Chosen (choose r sizes i prohibited draws s)
    unfolding choose distinct
    choose-Chosen i prohibited [] s pos le enough free h = elim (Bool-cases (i == sizes.k)) [
      | inl last ↦ rw last (last-Chosen i s h last)
      | inr more ↦ absurd (ground (arith, le, enough, more))
    ]
    choose-Chosen i prohibited (draw ∷ draws) s pos le enough free h =
        let n = sizes.total_points in
        let index = draw % n in
        let inside : index < n = omega (arith, pos) in
        elim (Bool-cases (i == sizes.k)) [
          | inl last ↦ rw last (last-Chosen i s h last)
          | inr more ↦ rw more (elim (Bool-cases (elem index prohibited)) [
            | inl taken ↦
                rw taken
                  (choose-Chosen i prohibited draws s pos le (ground (arith, enough, taken)) free h)
            | inr fresh ↦ rw fresh (
                choose-Chosen (suc i) (prohibited ++ index ∷ []) draws (with_center i index s) pos
                  (ground (arith, le, more)) (ground (arith, enough, fresh))
                  (with_center-Free n s i index prohibited free)
                  (with_center-IsPartition n s i index inside (free index inside fresh) h))
          ])
        ]
