-- ===== src/Clustering/Members.antt =====
-- The lists of points of the clusters of K-Means/solution.cpp: `addPoint` and `removePoint`.
use concurrent_computing.Prelude.{
  ℕ, ◌+◌, ◌-◌, ◌<◌, ◌≡◌, arith, Bool, true, false, Option, none, some, List, [], ◌∷◌, ◌++◌, ◌==◌,
  if◌then◌else◌, Bool-cases, inl, inr, update_at, ◌∙◌, sym, ap, transport, ==→eq, ==_refl,
}
use concurrent_computing.Clustering.{
  Reals, Point, Cluster, State, erase, is_in, set_cluster, left_cluster, remove_point, add_point,
  move_point,
}

abbrev pub one : Bool → ℕ
one b = if b then 1 else 0

module _ (r : Reals) where
  -- How often a list has the point with a number.
  abbrev pub count : ℕ → List (Point r) → ℕ
  count id [] = 0
  count id (p ∷ ps) = one (p.id == id) + count id ps

  pub count-append :
      (id : ℕ) (ps qs : List (Point r)) → count id (ps ++ qs) ≡ count id ps + count id qs
  count-append id [] qs = omega arith
  count-append id (p ∷ ps) qs = omega (arith, count-append id ps qs)

  pub count-erase :
      (id j : ℕ) (ps : List (Point r)) → count j (erase r id ps).1 ≡ count j ps - one (id == j)
  unfolding erase
  count-erase id j [] = omega arith
  count-erase id j (p ∷ ps) = ground (arith, count-erase id j ps)

  -- A point leaves the list of its cluster.
  left_cluster-count :
      (o : Option ℕ) (id j c : ℕ) (clusters : ℕ → Cluster r)
      → count j (left_cluster r o id clusters c).points
        ≡ count j (clusters c).points - (if is_in o c then one (id == j) else 0)
  unfolding left_cluster remove_point
  left_cluster-count none id j c clusters = omega arith
  left_cluster-count (some o) id j c clusters = elim (Bool-cases (o == c)) [
    | inl e ↦ rw e (let same = ==→eq o c e in rw same (count-erase id j (clusters c).points))
    | inr e ↦ rw e (omega arith)
  ]

  -- The list of a cluster after the move.
  move_point-count :
      (s : State r) (i near j c : ℕ)
      → count j ((move_point r i near s).clusters c).points
        ≡ count j (left_cluster r (s.points i).cluster (s.points i).id s.clusters c).points
          + (if near == c then one ((s.points i).id == j) else 0)
  unfolding move_point add_point
  move_point-count s i near j c =
      let left = left_cluster r (s.points i).cluster (s.points i).id s.clusters in
      elim (Bool-cases (near == c)) [
        | inl e ↦
            let same = ==→eq near c e in
            rw e (
              rw same
                (omega (arith, count-append j (left c).points (set_cluster r c (s.points i) ∷ []))))
        | inr e ↦ rw e (omega arith)
      ]

module _ (r : Reals) (vals : ℕ → ℕ → r.R) where
  -- The points of a list have the values of their numbers.
  pub Copies : List (Point r) → Type 0
  Copies [] = Unit
  Copies (p ∷ ps) = (p.values ≡ vals p.id) × Copies ps

  pub Copies-one : (p : Point r) → p.values ≡ vals p.id → Copies (p ∷ [])
  unfolding Copies
  Copies-one p e = (e, tt)

  Copies-append :
      (ps : List (Point r)) (p : Point r) → Copies ps → p.values ≡ vals p.id → Copies (ps ++ p ∷ [])
  unfolding Copies
  Copies-append [] p h e = (e, tt)
  Copies-append (q ∷ ps) p (first, h) e = (first, Copies-append ps p h e)

  Copies-erase : (id : ℕ) (ps : List (Point r)) → Copies ps → Copies (erase r id ps).1
  unfolding Copies erase
  Copies-erase id [] h = h
  Copies-erase id (p ∷ ps) (first, h) = elim (Bool-cases (p.id == id)) [
    | inl e ↦ rw e h
    | inr e ↦ rw e (first, Copies-erase id ps h)
  ]

  Copies-left_cluster :
      (o : Option ℕ) (id c : ℕ) (clusters : ℕ → Cluster r)
      → Copies (clusters c).points
      → Copies (left_cluster r o id clusters c).points
  unfolding left_cluster remove_point
  Copies-left_cluster none id c clusters h = h
  Copies-left_cluster (some o) id c clusters h = elim (Bool-cases (o == c)) [
    | inl e ↦ let same = ==→eq o c e in rw e (rw same (Copies-erase id (clusters c).points h))
    | inr e ↦ rw e h
  ]

  -- The numbers of the points are their indices. A point is in the list of its own cluster once,
  -- and in none of the others. The values are `vals`, in the points and in the clusters' copies.
  pub record IsPartition (k n : ℕ) (s : State r) : Type 0 where
    pub numbered : (j : ℕ) → j < n → (s.points j).id ≡ j
    pub inside : (j c : ℕ) → j < n → is_in (s.points j).cluster c ≡ true → c < k
    pub once :
        (j c : ℕ)
        → j < n
        → c < k
        → count r j (s.clusters c).points ≡ one (is_in (s.points j).cluster c)
    pub valued : (j : ℕ) → j < n → (s.points j).values ≡ vals j
    pub copies : (c : ℕ) → c < k → Copies (s.clusters c).points

  -- The clusters' lists and the point that moves.
  move_point-own :
      (k n : ℕ) (s : State r) (i near c : ℕ)
      → i < n
      → c < k
      → is_in (s.points i).cluster near ≡ false
      → IsPartition k n s
      → count r i ((move_point r i near s).clusters c).points ≡ one (near == c)
  move_point-own k n s i near c i<n c<k other h =
      let moved = move_point-count r s i near i c in
      let left = left_cluster-count r (s.points i).cluster (s.points i).id i c s.clusters in
      let mine = h.once i c i<n c<k in
      let named = h.numbered i i<n in
      let own : ((s.points i).id == i) ≡ true = rw named (==_refl i) in
      elim (Bool-cases (near == c)) [
        | inl e ↦
            let same = ==→eq near c e in
            let away = transport (ap (λ x. is_in (s.points i).cluster x ≡ false) same) other in
            ground (arith, moved, left, mine, own, e, away)
        | inr e ↦ ground (arith, moved, left, mine, own, e)
      ]

  move_point-once :
      (k n : ℕ) (s : State r) (i near j c : ℕ)
      → i < n
      → j < n
      → c < k
      → is_in (s.points i).cluster near ≡ false
      → IsPartition k n s
      → count r j ((move_point r i near s).clusters c).points
        ≡ one (is_in ((move_point r i near s).points j).cluster c)
  unfolding move_point
  move_point-once k n s i near j c i<n j<n c<k other h =
      let moved = move_point-count r s i near j c in
      let left = left_cluster-count r (s.points i).cluster (s.points i).id j c s.clusters in
      let mine = h.once j c j<n c<k in
      let named = h.numbered i i<n in
      elim (Bool-cases (i == j)) [
        | inl e ↦
            let same : j ≡ i = sym (==→eq i j e) in
            rw same (rw (==_refl i) (move_point-own k n s i near c i<n c<k other h))
        | inr e ↦ rw e (ground (arith, moved, left, mine, named, e))
      ]

  Copies-move_point :
      (k n : ℕ) (s : State r) (i near c : ℕ)
      → i < n
      → near < k
      → c < k
      → IsPartition k n s
      → Copies ((move_point r i near s).clusters c).points
  unfolding move_point add_point
  Copies-move_point k n s i near c i<n near<k c<k h =
      let p = s.points i in
      let named : p.values ≡ vals p.id = h.valued i i<n ∙ ap vals (sym (h.numbered i i<n)) in
      let left = left_cluster r p.cluster p.id s.clusters in
      let kept : (x : ℕ) → x < k → Copies (left x).points =
        λ x x<k. Copies-left_cluster p.cluster p.id x s.clusters (h.copies x x<k) in
      update_at (λ d. Copies d.points) left near (add_point r (set_cluster r near p) (left near)) c
        (λ e. Copies-append (left near).points (set_cluster r near p) (kept near near<k) named)
        (kept c c<k)

  pub move_point-IsPartition :
      (k n : ℕ) (s : State r) (i near : ℕ)
      → i < n
      → near < k
      → is_in (s.points i).cluster near ≡ false
      → IsPartition k n s
      → IsPartition k n (move_point r i near s)
  unfolding move_point
  move_point-IsPartition k n s i near i<n near<k other h = record {
    numbered = λ j j<n.
        update_at (λ p. p.id ≡ j) s.points i (set_cluster r near (s.points i)) j
          (λ e. h.numbered i i<n ∙ e) (h.numbered j j<n);
    inside = λ j c j<n.
        update_at (λ p. is_in p.cluster c ≡ true → c < k) s.points i
          (set_cluster r near (s.points i)) j (λ e mine. omega (arith, ==→eq near c mine))
          (h.inside j c j<n);
    once = λ j c j<n c<k. move_point-once k n s i near j c i<n j<n c<k other h;
    valued = λ j j<n.
        update_at (λ p. p.values ≡ vals j) s.points i (set_cluster r near (s.points i)) j
          (λ e. h.valued i i<n ∙ ap vals e) (h.valued j j<n);
    copies = λ c c<k. Copies-move_point k n s i near c i<n near<k c<k h;
  }
