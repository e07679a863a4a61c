-- ===== src/Avl/Balance.antt =====
-- The balance of the tree (src/avl.cpp): `avl_fix` and the rotations restore it.
use apex_db.Prelude.{
  ℕ, ◌+◌, ◌≤◌, ltb→lt, ==_iff, ◌≡◌, refl, subst, List, [], ◌∷◌, arith, ltb, ◌==◌, Bool-cases, inl,
  inr,
}
use apex_db.Avl.{
  Tree, leaf, node, Crumb, left_of, right_of, max, avl_height, avl_cnt, avl_update, rot_left,
  rot_right, avl_fix_left, avl_fix_right, fix_node, plug, avl_fix, root_of, splice, size,
}
use apex_db.Avl.Heights.{
  IsEven, double, not_negative, single, single_right, max_high, max_low, double_right, step_even,
  step_up, step_up_right, steady,
}

module _ {A : Type 0} where
  -- Every node is balanced, and its fields are those that `avl_update` computes.
  abbrev pub IsAvl : Tree A → Type 0
  IsAvl leaf = Unit
  IsAvl (node l x h c r) =
      IsAvl l
      × IsAvl r
      × IsEven (avl_height l) (avl_height r)
      × (h ≡ 1 + max (avl_height l) (avl_height r))
      × (c ≡ 1 + avl_cnt l + avl_cnt r)

  -- The tree may lean at its root by one level more.
  abbrev pub IsLoose : Tree A → Type 0
  IsLoose leaf = Unit
  IsLoose (node l x h c r) =
      IsAvl l × IsAvl r × (avl_height l ≤ avl_height r + 2) × (avl_height r ≤ avl_height l + 2)

  -- The way up is balanced around a subtree of the given height.
  abbrev pub IsAvlPath : List (Crumb A) → ℕ → Type 0
  IsAvlPath [] k = Unit
  IsAvlPath (left_of x h c r ∷ path) k =
      IsAvl r × IsEven k (avl_height r) × IsAvlPath path (1 + max k (avl_height r))
  IsAvlPath (right_of l x h c ∷ path) k =
      IsAvl l × IsEven (avl_height l) k × IsAvlPath path (1 + max (avl_height l) k)

  pub avl_update-IsAvl :
      (l : Tree A) (x : A) (r : Tree A)
      → IsAvl l
      → IsAvl r
      → IsEven (avl_height l) (avl_height r)
      → IsAvl (avl_update l x r)
  unfolding avl_update
  avl_update-IsAvl l x r a b e = (a, b, e, refl, refl)

  -- What a rotation makes of a child of height `k` that is two levels higher than its sibling.
  record Rotated (k : ℕ) (t : Tree A) : Type 0 where
    pub even : IsAvl t
    pub least : k ≤ avl_height t
    pub most : avl_height t ≤ k + 1

  fix_left-Rotated :
      (l : Tree A) (x : A) (h c : ℕ) (r : Tree A)
      → IsAvl l
      → IsAvl r
      → avl_height l ≡ avl_height r + 2
      → Rotated (avl_height l) (avl_fix_left (node l x h c r))
  unfolding avl_fix_left avl_update rot_right rot_left max
  fix_left-Rotated leaf x h c r a b e = absurd (omega arith)
  fix_left-Rotated (node ll y hl cl leaf) x h c r a b e =
      let high = not_negative (avl_height ll) in
      let (p, t, u, v) = single (avl_height ll) 0 (avl_height r) hl high a.2 a.3 e in
      rw high (record { even = (a.0, (tt, b, p, refl, refl), t, refl, refl); least = u; most = v })
  fix_left-Rotated (node ll y hl cl (node m z hm cm n)) x h c r a b e =
      elim (Bool-cases (ltb (avl_height ll) hm)) [
        | inr high ↦
            let (p, t, u, v) = single (avl_height ll) hm (avl_height r) hl high a.2 a.3 e in
            rw high
              (record { even = (a.0, (a.1, b, p, refl, refl), t, refl, refl); least = u; most = v })
        | inl low ↦
            let (p, q, t, u, v) =
              double (avl_height ll) (avl_height m) (avl_height n) (avl_height r) hm hl
                (ltb→lt _ _ low) a.2 a.1.2 a.1.3 a.3 e in
            rw low (record {
              even = ((a.0, a.1.0, p, refl, refl), (a.1.1, b, q, refl, refl), t, refl, refl);
              least = u;
              most = v;
            })
      ]

  fix_right-Rotated :
      (l : Tree A) (x : A) (h c : ℕ) (r : Tree A)
      → IsAvl l
      → IsAvl r
      → avl_height l + 2 ≡ avl_height r
      → Rotated (avl_height r) (avl_fix_right (node l x h c r))
  unfolding avl_fix_right avl_update rot_right rot_left max
  fix_right-Rotated l x h c leaf a b e = absurd (omega arith)
  fix_right-Rotated l x h c (node leaf y hr cr rr) a b e =
      let high = not_negative (avl_height rr) in
      let (p, t, u, v) = single_right (avl_height rr) 0 (avl_height l) hr high b.2 b.3 e in
      rw high (record { even = ((a, tt, p, refl, refl), b.1, t, refl, refl); least = u; most = v })
  fix_right-Rotated l x h c (node (node m z hm cm n) y hr cr rr) a b e =
      elim (Bool-cases (ltb (avl_height rr) hm)) [
        | inr high ↦
            let (p, t, u, v) = single_right (avl_height rr) hm (avl_height l) hr high b.2 b.3 e in
            rw high
              (record { even = ((a, b.0, p, refl, refl), b.1, t, refl, refl); least = u; most = v })
        | inl low ↦
            let (p, q, t, u, v) =
              double_right (avl_height rr) (avl_height m) (avl_height n) (avl_height l) hm hr
                (ltb→lt _ _ low) b.2 b.0.2 b.0.3 b.3 e in
            rw low (record {
              even = ((a, b.0.0, p, refl, refl), (b.0.1, b.1, q, refl, refl), t, refl, refl);
              least = u;
              most = v;
            })
      ]

  -- One round on a tree that leans by at most two levels.
  pub fix_node-Rotated :
      (l : Tree A) (x : A) (h c : ℕ) (r : Tree A)
      → IsLoose (node l x h c r)
      → IsAvl (fix_node (node l x h c r))
        × (avl_height (fix_node (node l x h c r)) ≤ 1 + max (avl_height l) (avl_height r))
        × (max (avl_height l) (avl_height r) ≤ avl_height (fix_node (node l x h c r)))
        × (IsEven (avl_height l) (avl_height r)
            → avl_height (fix_node (node l x h c r)) ≡ 1 + max (avl_height l) (avl_height r))
  unfolding fix_node avl_update
  fix_node-Rotated l x h c r v = elim (Bool-cases (avl_height l == avl_height r + 2)) [
    | inl left ↦
        let gap : avl_height l ≡ avl_height r + 2 =
          (==_iff (avl_height l) (avl_height r + 2)).0 left in
        let f =
          fix_left-Rotated l x (1 + max (avl_height l) (avl_height r)) (1 + avl_cnt l + avl_cnt r) r
            v.0 v.1 gap in
        let m = max_high (avl_height l) (avl_height r) (omega (arith, gap)) in
        rw left (
          f.even,
          omega (arith, f.most, m),
          omega (arith, f.least, m),
          λ e. absurd (omega (arith, gap, e.0)),
        )
    | inr no_left ↦ elim (Bool-cases (avl_height l + 2 == avl_height r)) [
      | inl right ↦
          let gap : avl_height l + 2 ≡ avl_height r =
            (==_iff (avl_height l + 2) (avl_height r)).0 right in
          let f =
            fix_right-Rotated l x (1 + max (avl_height l) (avl_height r))
              (1 + avl_cnt l + avl_cnt r) r v.0 v.1 gap in
          let m = max_low (avl_height l) (avl_height r) (omega (arith, gap)) in
          rw (no_left, right)
            (
              f.even,
              omega (arith, f.most, m),
              omega (arith, f.least, m),
              λ e. absurd (omega (arith, gap, e.1)),
            )
      | inr no_right ↦
          rw (no_left, no_right)
            (
              (v.0, v.1, steady (avl_height l) (avl_height r) no_left no_right v.2 v.3, refl, refl),
              omega arith,
              omega arith,
              λ e. refl,
            )
    ]
  ]

  -- A subtree that is about as high as the one in whose place it stands, one round further up.
  record Raised (path : List (Crumb A)) (t : Tree A) : Type 0 where
    pub even : IsAvl (fix_node t)
    pub old : ℕ
    pub close : IsEven old (avl_height (fix_node t))
    pub above : IsAvlPath path old

  raise :
      (crumb : Crumb A) (path : List (Crumb A)) (t : Tree A) (k : ℕ)
      → IsAvl t
      → IsEven k (avl_height t)
      → IsAvlPath (crumb ∷ path) k
      → Raised path (plug crumb t)
  unfolding plug
  raise (left_of x h c r) path t k v e p =
      let (lo, hi) = step_even k (avl_height t) (avl_height r) p.1 e in
      let (even, most, least, same) = fix_node-Rotated t x h c r (v, p.0, lo, hi) in
      record {
        even = even;
        old = 1 + max k (avl_height r);
        close =
            step_up k (avl_height t) (avl_height r) (avl_height (fix_node (node t x h c r))) e p.1
              most least same;
        above = p.2;
      }
  raise (right_of l x h c) path t k v e p =
      let (lo, hi) = step_even k (avl_height t) (avl_height l) (p.1.1, p.1.0) e in
      let (even, most, least, same) = fix_node-Rotated l x h c t (p.0, v, hi, lo) in
      record {
        even = even;
        old = 1 + max (avl_height l) k;
        close =
            step_up_right k (avl_height t) (avl_height l) (avl_height (fix_node (node l x h c t))) e
              p.1 most least same;
        above = p.2;
      }

  -- `avl_fix` from a node that one round makes about as high as the one that stood there.
  pub avl_fix-IsAvl :
      (t : Tree A) (path : List (Crumb A)) (k : ℕ)
      → IsAvl (fix_node t)
      → IsEven k (avl_height (fix_node t))
      → IsAvlPath path k
      → IsAvl (avl_fix t path)
  unfolding avl_fix
  avl_fix-IsAvl t [] k v e p = v
  avl_fix-IsAvl t (crumb ∷ path) k v e p =
      let r = raise crumb path (fix_node t) k v e p in
      avl_fix-IsAvl (plug crumb (fix_node t)) path r.old r.even r.close r.above

  pub splice-IsAvl :
      (t : Tree A) (path : List (Crumb A)) (k : ℕ)
      → IsAvl t
      → IsEven k (avl_height t)
      → IsAvlPath path k
      → IsAvl (splice t path)
  unfolding splice
  splice-IsAvl t [] k v e p = v
  splice-IsAvl t (crumb ∷ path) k v e p =
      let r = raise crumb path t k v e p in
      avl_fix-IsAvl (plug crumb t) path r.old r.even r.close r.above

  -- A balanced tree seen from one of its places.
  pub root_of-IsAvl :
      (t : Tree A) (path : List (Crumb A))
      → IsAvl (root_of t path)
      → IsAvl t × IsAvlPath path (avl_height t)
  unfolding root_of plug
  root_of-IsAvl t [] v = (v, tt)
  root_of-IsAvl t (left_of x h c r ∷ path) v =
      let (w, p) = root_of-IsAvl (node t x h c r) path v in
      (w.0, (w.1, w.2, subst (IsAvlPath path) w.3 p))
  root_of-IsAvl t (right_of l x h c ∷ path) v =
      let (w, p) = root_of-IsAvl (node l x h c t) path v in
      (w.1, (w.0, w.2, subst (IsAvlPath path) w.3 p))

  -- The fields `cnt` count the nodes.
  pub avl_cnt-size : (t : Tree A) → IsAvl t → avl_cnt t ≡ size t
  unfolding size
  avl_cnt-size leaf v = refl
  avl_cnt-size (node l x h c r) v = omega (arith, v.4, avl_cnt-size l v.0, avl_cnt-size r v.1)
