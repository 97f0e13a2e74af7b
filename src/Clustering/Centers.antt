-- ===== src/Clustering/Centers.antt =====
-- The loop that recalculates the centers, in `run` of K-Means/solution.cpp.
use concurrent_computing.Prelude.{
  ℕ, zero, suc, ◌+◌, ◌<◌, ◌≡◌, arith, Bool, true, false, ◌==◌, if◌then◌else◌, Bool-cases, ltb, leb,
  ◌&&◌, length, inl, inr, refl, update, fun_ext, ==→eq, ==_refl, ◌∙◌, sym, ap, transport,
}
use concurrent_computing.Clustering.{Reals, Cluster, Sizes, sum_values, center_from, recenter}

module _ (r : Reals) where
  open r use {R, null, divided}

  -- The mean of the points of a cluster, one coordinate.
  abbrev pub mean : Cluster r → ℕ → R
  mean c j = divided (sum_values r c.points j null) (length c.points)

  -- The first `n` coordinates of a center are the means of its points, where it has any.
  abbrev pub Centered : Cluster r → ℕ → Type 0
  Centered c n = (j : ℕ) → j < n → 0 < length c.points → c.central_values j ≡ mean c j

  abbrev between : ℕ → ℕ → ℕ → Bool
  between j n i = leb j i && ltb i (j + n)

  between-nothing : (j i : ℕ) → between j 0 i ≡ false
  between-nothing j i = ground arith

  between-first : (j n : ℕ) → between j (suc n) j ≡ true
  between-first j n = ground arith

  not_between-first : (j n : ℕ) → between (suc j) n j ≡ false
  not_between-first j n = ground arith

  between-next : (j n i : ℕ) → (j == i) ≡ false → between (suc j) n i ≡ between j (suc n) i
  between-next j n i e = ground arith

  abbrev filled : ℕ → ℕ → Cluster r → ℕ → R
  filled j n c i = if ltb 0 (length c.points) && between j n i then mean c i else c.central_values i

  abbrev with_mean : ℕ → Cluster r → Cluster r
  with_mean j c = record c { central_values = update c.central_values j (mean c j) }

  filled-next :
      (j n : ℕ) (c : Cluster r) (i : ℕ)
      → ltb 0 (length c.points) ≡ true
      → filled (suc j) n (with_mean j c) i ≡ filled j (suc n) c i
  filled-next j n c i e = rw e (elim (Bool-cases (j == i)) [
    | inl same ↦
        let first = ==→eq j i same in
        rw (sym first) (rw (between-first j n) (rw (not_between-first j n) (rw (==_refl j) refl)))
    | inr other ↦ rw (between-next j n i other) (rw other refl)
  ])

  center_from-next :
      (n j : ℕ) (c : Cluster r)
      → ltb 0 (length c.points) ≡ true
      → center_from r (suc n) j c ≡ center_from r n (suc j) (with_mean j c)
  unfolding center_from
  center_from-next n j c e = rw e refl

  center_from-empty :
      (n j : ℕ) (c : Cluster r)
      → ltb 0 (length c.points) ≡ false
      → center_from r (suc n) j c ≡ center_from r n (suc j) c
  unfolding center_from
  center_from-empty n j c e = rw e refl

  pub center_from-points : (n j : ℕ) (c : Cluster r) → (center_from r n j c).points ≡ c.points
  unfolding center_from
  center_from-points zero j c = refl
  center_from-points (suc n) j c = elim (Bool-cases (ltb 0 (length c.points))) [
    | inl e ↦
        ap (λ d. d.points) (center_from-next n j c e) ∙ center_from-points n (suc j) (with_mean j c)
    | inr e ↦ ap (λ d. d.points) (center_from-empty n j c e) ∙ center_from-points n (suc j) c
  ]

  filled-empty :
      (j n : ℕ) (c : Cluster r) (i : ℕ)
      → ltb 0 (length c.points) ≡ false
      → filled j n c i ≡ c.central_values i
  filled-empty j n c i e = rw e refl

  filled-nothing : (j : ℕ) (c : Cluster r) (i : ℕ) → filled j 0 c i ≡ c.central_values i
  filled-nothing j c i = elim (Bool-cases (ltb 0 (length c.points))) [
    | inl e ↦ rw e (rw (between-nothing j i) refl)
    | inr e ↦ rw e refl
  ]

  -- The values of a center after the loop over the coordinates from `j` on, `n` of them.
  center_from-values :
      (n j : ℕ) (c : Cluster r) (i : ℕ) → (center_from r n j c).central_values i ≡ filled j n c i
  unfolding center_from
  center_from-values zero j c i = sym (filled-nothing j c i)
  center_from-values (suc n) j c i = elim (Bool-cases (ltb 0 (length c.points))) [
    | inl e ↦
        ap (λ d. d.central_values i) (center_from-next n j c e)
        ∙ center_from-values n (suc j) (with_mean j c) i
        ∙ filled-next j n c i e
    | inr e ↦
        ap (λ d. d.central_values i) (center_from-empty n j c e)
        ∙ center_from-values n (suc j) c i
        ∙ filled-empty (suc j) n c i e
        ∙ sym (filled-empty j (suc n) c i e)
  ]

  pub center_from-id : (n j : ℕ) (c : Cluster r) → (center_from r n j c).id ≡ c.id
  unfolding center_from
  center_from-id zero j c = refl
  center_from-id (suc n) j c = elim (Bool-cases (ltb 0 (length c.points))) [
    | inl e ↦ ap (λ d. d.id) (center_from-next n j c e) ∙ center_from-id n (suc j) (with_mean j c)
    | inr e ↦ ap (λ d. d.id) (center_from-empty n j c e) ∙ center_from-id n (suc j) c
  ]

  filled-Centered :
      (n : ℕ) (c : Cluster r) (i : ℕ) → i < n → 0 < length c.points → filled 0 n c i ≡ mean c i
  filled-Centered n c i lt some =
      let full : ltb 0 (length c.points) ≡ true = ground (arith, some) in
      let here : between 0 n i ≡ true = ground (arith, lt) in rw full (rw here refl)

  -- The new center is the mean of the points of its cluster.
  pub center_from-Centered : (n : ℕ) (c : Cluster r) → Centered (center_from r n 0 c) n
  center_from-Centered n c i lt some =
      let same = center_from-points n 0 c in
      center_from-values n 0 c i
      ∙ filled-Centered n c i lt (transport (ap (λ ps. 0 < length ps) same) some)
      ∙ ap (λ ps. divided (sum_values r ps i null) (length ps)) (sym same)

  filled-same : (n : ℕ) (c : Cluster r) (i : ℕ) → Centered c n → filled 0 n c i ≡ c.central_values i
  filled-same n c i h = elim (Bool-cases (ltb 0 (length c.points))) [
    | inl full ↦ elim (Bool-cases (between 0 n i)) [
      | inl here ↦ rw full (rw here (sym (h i (ground (arith, here)) (ground (arith, full)))))
      | inr out ↦ rw full (rw out refl)
    ]
    | inr e ↦ rw e refl
  ]

  -- A center that is the mean already is kept.
  pub center_from-same : (n : ℕ) (c : Cluster r) → Centered c n → center_from r n 0 c ≡ c
  center_from-same n c h =
      let values : (center_from r n 0 c).central_values ≡ c.central_values =
        fun_ext (λ i. center_from-values n 0 c i ∙ filled-same n c i h) in
      λ t. record {
        id = center_from-id n 0 c t;
        central_values = values t;
        points = center_from-points n 0 c t;
      }

  module _ (sizes : Sizes r) where
    abbrev new_center : Cluster r → Cluster r
    new_center c = center_from r sizes.total_values 0 c

    abbrev moved : ℕ → ℕ → (ℕ → Cluster r) → ℕ → Cluster r
    moved i m clusters c = if between i m c then new_center (clusters c) else clusters c

    moved-next :
        (i m : ℕ) (clusters : ℕ → Cluster r) (c : ℕ)
        → moved (suc i) m (update clusters i (new_center (clusters i))) c
          ≡ moved i (suc m) clusters c
    moved-next i m clusters c = elim (Bool-cases (i == c)) [
      | inl e ↦
          let first = ==→eq i c e in
          rw (sym first) (rw (between-first i m) (rw (not_between-first i m) (rw (==_refl i) refl)))
      | inr e ↦ rw (between-next i m c e) (rw e refl)
    ]

    pub recenter_at :
        (m i : ℕ) (clusters : ℕ → Cluster r) (c : ℕ)
        → recenter r sizes m i clusters c ≡ moved i m clusters c
    unfolding recenter
    recenter_at zero i clusters c = rw (between-nothing i c) refl
    recenter_at (suc m) i clusters c =
        recenter_at m (suc i) (update clusters i (new_center (clusters i))) c
        ∙ moved-next i m clusters c

    pub recenter-points :
        (m i : ℕ) (clusters : ℕ → Cluster r) (c : ℕ)
        → (recenter r sizes m i clusters c).points ≡ (clusters c).points
    recenter-points m i clusters c =
        ap (λ d. d.points) (recenter_at m i clusters c) ∙ (elim (Bool-cases (between i m c)) [
          | inl e ↦ rw e (center_from-points sizes.total_values 0 (clusters c))
          | inr e ↦ rw e refl
        ])

    pub recenter-Centered :
        (clusters : ℕ → Cluster r) (c : ℕ)
        → c < sizes.k
        → Centered (recenter r sizes sizes.k 0 clusters c) sizes.total_values
    recenter-Centered clusters c lt =
        let here : between 0 sizes.k c ≡ true = ground (arith, lt) in
        let new : recenter r sizes sizes.k 0 clusters c ≡ new_center (clusters c) =
          recenter_at sizes.k 0 clusters c ∙ rw here refl in
        rw new (center_from-Centered sizes.total_values (clusters c))

    pub recenter-same :
        (clusters : ℕ → Cluster r)
        → ((c : ℕ) → c < sizes.k → Centered (clusters c) sizes.total_values)
        → recenter r sizes sizes.k 0 clusters ≡ clusters
    recenter-same clusters h = fun_ext (λ c.
        recenter_at sizes.k 0 clusters c ∙ (elim (Bool-cases (between 0 sizes.k c)) [
          | inl e ↦
              rw e (center_from-same sizes.total_values (clusters c) (h c (ground (arith, e))))
          | inr e ↦ rw e refl
        ]))
