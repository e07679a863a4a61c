-- ===== src/Avl/Delete.antt =====
-- The deletion of a node (src/avl.cpp: `avl_del_easy`, `avl_del`).
use apex_db.Prelude.{
  ℕ, ◌+◌, ◌≡◌, refl, sym, ◌∙◌, ap, subst, Bool, true, false, List, [], ◌∷◌, ◌++◌, arith,
  if◌then◌else◌, map, All, All-append, append-nil,
}
use apex_db.Avl.{
  Tree, leaf, node, Crumb, left_of, right_of, Cursor, max, avl_height, avl_cnt, plug, root_of,
  avl_del_easy, leftmost, take_place, replace_by, avl_del,
}
use apex_db.Avl.Order.{joins, to_list, lefts, rights, around, to_list-splice}
use apex_db.Avl.Heights.{IsEven}
use apex_db.Avl.Balance.{IsAvl, IsAvlPath, splice-IsAvl, root_of-IsAvl}

lower_right : (r : ℕ) → IsEven 0 r → IsEven (1 + max 0 r) r
unfolding max
lower_right r e = ground arith

lower_left : (l : ℕ) → IsEven l 0 → IsEven (1 + max l 0) l
unfolding max
lower_left r e = ground arith

module _ {A : Type 0} where
  -- The child of a node without a left one, or without a right one, takes its place.
  no_left_lem :
      (x : A) (h c : ℕ) (r : Tree A) (path : List (Crumb A))
      → IsAvl (node leaf x h c r)
      → IsAvlPath path h
      → IsAvl (avl_del_easy (node leaf x h c r) path)
        × (to_list (avl_del_easy (node leaf x h c r) path) ≡ around path (to_list r))
  unfolding avl_del_easy
  no_left_lem x h c r path v p =
      (splice-IsAvl r path h v.1 (rw v.3 (lower_right (avl_height r) v.2)) p, to_list-splice r path)

  no_right_lem :
      (l : Tree A) (x : A) (h c : ℕ) (path : List (Crumb A))
      → IsAvl (node l x h c leaf)
      → IsAvlPath path h
      → IsAvl (avl_del_easy (node l x h c leaf) path)
        × (to_list (avl_del_easy (node l x h c leaf) path) ≡ around path (to_list l))
  unfolding avl_del_easy
  no_right_lem leaf x h c path v p = no_left_lem x h c leaf path v p
  no_right_lem (node ll y hl cl lr) x h c path v p = (
    splice-IsAvl (node ll y hl cl lr) path h v.0 (rw v.3 (lower_left hl v.2)) p,
    to_list-splice (node ll y hl cl lr) path,
  )

  -- What the loop for the victim finds: a node without a left child, in the same tree.
  record Victim (t : Tree A) (path : List (Crumb A)) (found : Cursor A) : Type 0 where
    pub victim : A
    pub height : ℕ
    pub cnt : ℕ
    pub child : Tree A
    pub up : List (Crumb A)
    pub here : found ≡ (node leaf victim height cnt child, up)
    pub same : root_of (node leaf victim height cnt child) up ≡ root_of t path
    pub before : lefts up ≡ lefts path
    pub after : victim ∷ to_list child ++ rights up ≡ to_list t ++ rights path

  leftmost-Victim :
      (l : Tree A) (x : A) (h c : ℕ) (r : Tree A) (path : List (Crumb A))
      → Victim (node l x h c r) path (leftmost (node l x h c r) path)
  unfolding leftmost root_of plug
  leftmost-Victim leaf x h c r path = record {
    victim = x;
    height = h;
    cnt = c;
    child = r;
    up = path;
    here = refl;
    same = refl;
    before = refl;
    after = refl;
  }
  leftmost-Victim (node ll y hl cl lr) x h c r path =
      let v = leftmost-Victim ll y hl cl lr (left_of x h c r ∷ path) in
      record {
        victim = v.victim;
        height = v.height;
        cnt = v.cnt;
        child = v.child;
        up = v.up;
        here = v.here;
        same = v.same;
        before = v.before;
        after = v.after ∙ simp joins;
      }

  take_place-IsAvl :
      (p : A → Bool) (victim : A) (t : Tree A)
      → IsAvl t
      → IsAvl (take_place p victim t)
        × (avl_height (take_place p victim t) ≡ avl_height t)
        × (avl_cnt (take_place p victim t) ≡ avl_cnt t)
  unfolding take_place
  take_place-IsAvl p victim leaf v = (tt, refl, refl)
  take_place-IsAvl p victim (node l x h c r) v =
      let (a, ha, ca) = take_place-IsAvl p victim l v.0 in
      let (b, hb, cb) = take_place-IsAvl p victim r v.1 in
      ((a, b, rw (ha, hb) v.2, rw (ha, hb) v.3, rw (ca, cb) v.4), refl, refl)

  abbrev swapped : (A → Bool) → A → List A → List A
  swapped p victim = map (λ x. if p x then victim else x)

  map-append : (f : A → A) (xs ys : List A) → map f (xs ++ ys) ≡ map f xs ++ map f ys
  map-append f [] ys = refl
  map-append f (x ∷ xs) ys = ap (◌∷◌ (f x)) (map-append f xs ys)

  to_list-take_place :
      (p : A → Bool) (victim : A) (t : Tree A)
      → to_list (take_place p victim t) ≡ swapped p victim (to_list t)
  unfolding take_place
  to_list-take_place p victim leaf = refl
  to_list-take_place p victim (node l x h c r) =
      simp (map-append, to_list-take_place p victim l, to_list-take_place p victim r)

  swapped_still :
      (p : A → Bool) (victim : A) (xs : List A)
      → All (λ a. p a ≡ false) xs
      → swapped p victim xs ≡ xs
  swapped_still p victim [] h = refl
  swapped_still p victim (x ∷ xs) h = rw h.0 (ap (◌∷◌ x) (swapped_still p victim xs h.1))

  swapped_one :
      (p : A → Bool) (victim x : A) (xs ys : List A)
      → p x ≡ true
      → All (λ a. p a ≡ false) xs
      → All (λ a. p a ≡ false) ys
      → swapped p victim (xs ++ x ∷ ys) ≡ xs ++ victim ∷ ys
  swapped_one p victim x xs ys h a b =
      map-append (λ y. if p y then victim else y) xs (x ∷ ys)
      ∙ rw (swapped_still p victim xs a, swapped_still p victim ys b, h) refl

  pub regroup :
      (l r : Tree A) (path : List (Crumb A))
      → around path (to_list l ++ to_list r)
        ≡ (lefts path ++ to_list l) ++ (to_list r ++ rights path)
  regroup l r path = simp joins

  -- A node with two children leaves the tree: the next one, its victim, takes its place.
  del_two_lem :
      (p : A → Bool) (l : Tree A) (x : A) (h c : ℕ) (r : Tree A) (path : List (Crumb A))
      (found : Cursor A)
      → Victim r (right_of l x h c ∷ path) found
      → IsAvl (root_of (node l x h c r) path)
      → p x ≡ true
      → All (λ a. p a ≡ false) (around path (to_list l ++ to_list r))
      → let (victim, up) = found in
        IsAvl (replace_by p victim (avl_del_easy victim up))
        × (to_list (replace_by p victim (avl_del_easy victim up))
            ≡ around path (to_list l ++ to_list r))
  unfolding root_of plug
  del_two_lem p l x h c r path found v balanced hit others =
      let t : Tree A = node leaf v.victim v.height v.cnt v.child in
      let (even, above) = root_of-IsAvl t v.up (subst IsAvl (sym v.same) balanced) in
      let (fixed, order) = no_left_lem v.victim v.height v.cnt v.child v.up even above in
      let (a, b) =
        All-append (λ a. p a ≡ false) (lefts path ++ to_list l) (to_list r ++ rights path)
          (subst (All (λ a. p a ≡ false)) (regroup l r path) others) in
      let rest = subst (All (λ a. p a ≡ false)) (sym v.after) b in
      let listed : around v.up (to_list v.child)
          ≡ (lefts path ++ to_list l) ++ x ∷ (to_list v.child ++ rights v.up) =
        rw v.before (simp joins) in
      rw v.here (
        (take_place-IsAvl p v.victim (avl_del_easy t v.up) fixed).0,
        to_list-take_place p v.victim (avl_del_easy t v.up)
            ∙ ap (swapped p v.victim) (order ∙ listed)
            ∙ swapped_one p v.victim x (lefts path ++ to_list l) (to_list v.child ++ rights v.up)
                hit a rest.1
            ∙ ap (λ ys. (lefts path ++ to_list l) ++ ys) v.after
            ∙ sym (regroup l r path),
      )

  -- The deletion of a node of a balanced tree, whose address is told from all others, leaves a balanced
  -- tree with the other nodes in their order.
  pub avl_del_lem :
      (p : A → Bool) (l : Tree A) (x : A) (h c : ℕ) (r : Tree A) (path : List (Crumb A))
      → IsAvl (root_of (node l x h c r) path)
      → p x ≡ true
      → All (λ a. p a ≡ false) (around path (to_list l ++ to_list r))
      → IsAvl (avl_del p (node l x h c r) path)
        × (to_list (avl_del p (node l x h c r) path) ≡ around path (to_list l ++ to_list r))
  unfolding avl_del
  avl_del_lem p leaf x h c r path v hit others =
      let (even, above) = root_of-IsAvl (node leaf x h c r) path v in
      no_left_lem x h c r path even above
  avl_del_lem p (node ll y hl cl lr) x h c leaf path v hit others =
      let (even, above) = root_of-IsAvl (node (node ll y hl cl lr) x h c leaf) path v in
      let (fixed, order) = no_right_lem (node ll y hl cl lr) x h c path even above in
      (fixed, order ∙ ap (around path) (sym (append-nil (to_list (node ll y hl cl lr)))))
  avl_del_lem p (node ll y hl cl lr) x h c (node rl z hr cr rr) path v hit others =
      del_two_lem p (node ll y hl cl lr) x h c (node rl z hr cr rr) path _
        (leftmost-Victim rl z hr cr rr (right_of (node ll y hl cl lr) x h c ∷ path)) v hit others
