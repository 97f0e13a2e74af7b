-- ===== src/Clustering/Nearest.antt =====
-- `getIDNearestCenter` of K-Means/solution.cpp.
use concurrent_computing.Prelude.{
  ℕ, zero, suc, ◌+◌, ◌-◌, ◌<◌, ◌≡◌, arith, true, false, if◌then◌else◌, Bool-cases, inl, inr, ◌⊎◌,
  transport, ap,
}
use concurrent_computing.Clustering.{
  Reals, Point, Cluster, Sizes, distance, nearest_from, nearest_center,
}

-- `<` on the distances: no distance is NaN.
pub record IsOrder (r : Reals) : Type 0 where
  pub asymm : (a b : r.R) → r.less a b ≡ true → r.less b a ≡ false
  pub not_trans : (a b c : r.R) → r.less a b ≡ false → r.less b c ≡ false → r.less a c ≡ false
  pub lt_of_lt : (a b c : r.R) → r.less a b ≡ true → r.less c b ≡ false → r.less a c ≡ true

last_or_before : (j i : ℕ) → j < suc i → (j < i) ⊎ (j ≡ i)
last_or_before j i lt = omega (arith, lt)

module _ (r : Reals) (order : IsOrder r) (sizes : Sizes r) (clusters : ℕ → Cluster r)
    (p : Point r) where
  abbrev dist : ℕ → r.R
  dist i = distance r sizes (clusters i) p

  -- The first of the nearest among the first `n` clusters.
  pub record IsNearest (n c : ℕ) : Type 0 where
    pub inside : c < n
    pub nearest : (j : ℕ) → j < n → r.less (dist j) (dist c) ≡ false
    pub first : (j : ℕ) → j < c → r.less (dist c) (dist j) ≡ true

  irrefl : (x : r.R) → r.less x x ≡ false
  irrefl x = elim (Bool-cases (r.less x x)) [ inl e ↦ order.asymm x x e | inr e ↦ e ]

  one_more :
      (i c : ℕ) → IsNearest i c → IsNearest (suc i) (if r.less (dist i) (dist c) then i else c)
  one_more i c h = elim (Bool-cases (r.less (dist i) (dist c))) [
    | inl e ↦ rw e (record {
      inside = omega arith;
      nearest = λ j lt. closer e j lt;
      first = λ j lt. order.lt_of_lt (dist i) (dist c) (dist j) e (h.nearest j lt);
    })
    | inr e ↦ rw e (record {
      inside = omega (arith, h.inside);
      nearest = λ j lt. farther e j lt;
      first = h.first;
    })
  ]
    where
      closer :
          r.less (dist i) (dist c) ≡ true → (j : ℕ) → j < suc i → r.less (dist j) (dist i) ≡ false
      closer e j lt = elim (last_or_before j i lt) [
        | inl b ↦
            order.not_trans (dist j) (dist c) (dist i) (h.nearest j b)
              (order.asymm (dist i) (dist c) e)
        | inr same ↦ rw same (irrefl (dist i))
      ]

      farther :
          r.less (dist i) (dist c) ≡ false → (j : ℕ) → j < suc i → r.less (dist j) (dist c) ≡ false
      farther e j lt = elim (last_or_before j i lt) [ inl b ↦ h.nearest j b | inr same ↦ rw same e ]

  nearest_from-IsNearest :
      (n i c m : ℕ)
      → i + n ≡ m
      → IsNearest i c
      → IsNearest m (nearest_from r sizes clusters p n i (dist c) c)
  unfolding nearest_from
  nearest_from-IsNearest zero i c m e h = let same : m ≡ i = omega (arith, e) in rw same h
  nearest_from-IsNearest (suc n) i c m e h =
      let longer = one_more i c h in
      elim (Bool-cases (r.less (dist i) (dist c))) [
        | inl le ↦ rw le (
            nearest_from-IsNearest n (suc i) i m (omega (arith, e))
              (transport (ap (λ b. IsNearest (suc i) (if b then i else c)) le) longer))
        | inr le ↦ rw le (
            nearest_from-IsNearest n (suc i) c m (omega (arith, e))
              (transport (ap (λ b. IsNearest (suc i) (if b then i else c)) le) longer))
      ]

  -- With a cluster at least, and distances that `<` orders, getIDNearestCenter gives the first of
  -- the clusters whose distance is least.
  pub nearest_center-IsNearest :
      (k : ℕ) → sizes.k ≡ suc k → IsNearest sizes.k (nearest_center r sizes clusters p)
  unfolding nearest_center
  nearest_center-IsNearest k e =
      nearest_from-IsNearest (sizes.k - 1) 1 0 sizes.k (omega (arith, e)) (record {
        inside = omega arith;
        nearest = λ j lt. let same : j ≡ 0 = omega (arith, lt) in rw same (irrefl (dist 0));
        first = λ j lt. absurd (omega (arith, lt));
      })
