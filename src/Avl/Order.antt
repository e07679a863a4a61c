-- ===== src/Avl/Order.antt =====
-- The labels of a tree in their order (src/avl.cpp), and what the links do to them.
use apex_db.Prelude.{
  ℕ, zero, suc, ◌+◌, ◌≡◌, refl, sym, ◌∙◌, ap, Bool, true, false, List, [], ◌∷◌, ◌++◌, arith, ltb,
  ◌==◌, if◌then◌else◌, Bool-cases, inl, inr, append_assoc, append-nil, length,
}
use apex_db.Avl.{
  Tree, leaf, node, Crumb, left_of, right_of, avl_height, avl_update, rot_left, rot_right,
  avl_fix_left, avl_fix_right, fix_node, plug, avl_fix, root_of, splice,
}

pub ruleset joins = (append_assoc, append-nil)

module _ {A : Type 0} where
  abbrev pub to_list : Tree A → List A
  to_list leaf = []
  to_list (node l x _ _ r) = to_list l ++ x ∷ to_list r

  -- The labels before and after a place, from the way up.
  abbrev pub lefts : List (Crumb A) → List A
  lefts [] = []
  lefts (left_of _ _ _ _ ∷ path) = lefts path
  lefts (right_of l x _ _ ∷ path) = lefts path ++ to_list l ++ x ∷ []

  abbrev pub rights : List (Crumb A) → List A
  rights [] = []
  rights (left_of x _ _ r ∷ path) = x ∷ to_list r ++ rights path
  rights (right_of _ _ _ _ ∷ path) = rights path

  -- The labels of the whole tree, by those at a place.
  abbrev pub around : List (Crumb A) → List A → List A
  around path xs = lefts path ++ xs ++ rights path

  pub to_list-plug :
      (c : Crumb A) (path : List (Crumb A)) (t : Tree A)
      → around path (to_list (plug c t)) ≡ around (c ∷ path) (to_list t)
  unfolding plug
  to_list-plug (left_of x h n r) path t = simp joins
  to_list-plug (right_of l x h n) path t = simp joins

  pub to_list-root_of :
      (t : Tree A) (path : List (Crumb A)) → to_list (root_of t path) ≡ around path (to_list t)
  unfolding root_of
  to_list-root_of t [] = simp joins
  to_list-root_of t (c ∷ path) = to_list-root_of (plug c t) path ∙ to_list-plug c path t

  to_list-rot_left : (t : Tree A) → to_list (rot_left t) ≡ to_list t
  unfolding rot_left avl_update
  to_list-rot_left leaf = refl
  to_list-rot_left (node l x h c leaf) = refl
  to_list-rot_left (node l x h c (node inner y _ _ r)) = simp joins

  to_list-rot_right : (t : Tree A) → to_list (rot_right t) ≡ to_list t
  unfolding rot_right avl_update
  to_list-rot_right leaf = refl
  to_list-rot_right (node leaf x h c r) = refl
  to_list-rot_right (node (node l y _ _ inner) x h c r) = simp joins

  to_list-avl_fix_left : (t : Tree A) → to_list (avl_fix_left t) ≡ to_list t
  unfolding avl_fix_left
  to_list-avl_fix_left leaf = refl
  to_list-avl_fix_left (node leaf x h c r) = refl
  to_list-avl_fix_left (node (node ll y hl cl lr) x h c r) =
      elim (Bool-cases (ltb (avl_height ll) (avl_height lr))) [
        | inl low ↦ rw low (
            to_list-rot_right _
            ∙ ap (λ xs. xs ++ x ∷ to_list r) (to_list-rot_left (node ll y hl cl lr)))
        | inr high ↦ rw high (to_list-rot_right _)
      ]

  to_list-avl_fix_right : (t : Tree A) → to_list (avl_fix_right t) ≡ to_list t
  unfolding avl_fix_right
  to_list-avl_fix_right leaf = refl
  to_list-avl_fix_right (node l x h c leaf) = refl
  to_list-avl_fix_right (node l x h c (node rl y hr cr rr)) =
      elim (Bool-cases (ltb (avl_height rr) (avl_height rl))) [
        | inl low ↦ rw low (
            to_list-rot_left _
            ∙ ap (λ xs. to_list l ++ x ∷ xs) (to_list-rot_right (node rl y hr cr rr)))
        | inr high ↦ rw high (to_list-rot_left _)
      ]

  to_list-fix_node : (t : Tree A) → to_list (fix_node t) ≡ to_list t
  unfolding fix_node avl_update
  to_list-fix_node leaf = refl
  to_list-fix_node (node l x h c r) =
      ground
        (arith, to_list-avl_fix_left (avl_update l x r), to_list-avl_fix_right (avl_update l x r))

  pub to_list-avl_fix :
      (t : Tree A) (path : List (Crumb A)) → to_list (avl_fix t path) ≡ around path (to_list t)
  unfolding avl_fix
  to_list-avl_fix t [] = simp (joins, to_list-fix_node t)
  to_list-avl_fix t (c ∷ path) =
      to_list-avl_fix (plug c (fix_node t)) path
      ∙ to_list-plug c path (fix_node t)
      ∙ ap (around (c ∷ path)) (to_list-fix_node t)

  pub to_list-splice :
      (t : Tree A) (path : List (Crumb A)) → to_list (splice t path) ≡ around path (to_list t)
  unfolding splice
  to_list-splice t [] = simp joins
  to_list-splice t (c ∷ path) = to_list-avl_fix (plug c t) path ∙ to_list-plug c path t
