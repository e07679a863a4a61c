-- ===== src/Avl/Locate.antt =====
-- The node of an address, its deletion from a tree of addresses, and the insertion of a new node
-- (src/avl.cpp, as src/zset.cpp calls it).
use apex_db.Prelude.{
  ℕ, ◌+◌, ◌≤◌, ◌≡◌, refl, sym, ◌∙◌, ap, subst, Bool, true, false, List, [], ◌∷◌, ◌++◌, Option, none,
  some, arith, if◌then◌else◌, Bool-cases, inl, inr, All, All-joined,
}
use apex_db.HashTable.Chains.{count, count-append}
use apex_db.Avl.{
  max, avl_update, Tree, leaf, node, Crumb, left_of, right_of, Cursor, avl_init, avl_fix, fix_node,
  plug, root_of, avl_del, locate, first_of_two,
}
use apex_db.Avl.Order.{joins, to_list, lefts, rights, around, to_list-root_of, to_list-avl_fix}
use apex_db.Avl.Balance.{IsAvl, avl_fix-IsAvl, root_of-IsAvl}
use apex_db.Avl.Delete.{avl_del_lem, regroup}

module _ {A : Type 0} where
  -- What a search says: the label stands nowhere, or at this cursor.
  abbrev pub Located : (A → Bool) → Tree A → Option (Cursor A) → Type 0
  Located p root none = All (λ a. p a ≡ false) (to_list root)
  Located p root (some (leaf, path)) = ⊥
  Located p root (some (node l x h c r, path)) =
      (root_of (node l x h c r) path ≡ root) × (p x ≡ true)

  -- A search of a subtree, in the whole tree.
  abbrev LocatedIn : (A → Bool) → Tree A → List (Crumb A) → Option (Cursor A) → Type 0
  LocatedIn p t path none = All (λ a. p a ≡ false) (to_list t)
  LocatedIn p t path (some found) = Located p (root_of t path) (some found)

  first_lem :
      (p : A → Bool) (l : Tree A) (x : A) (h c : ℕ) (r : Tree A) (path : List (Crumb A))
      (a b : Option (Cursor A))
      → p x ≡ false
      → LocatedIn p l (left_of x h c r ∷ path) a
      → LocatedIn p r (right_of l x h c ∷ path) b
      → LocatedIn p (node l x h c r) path (first_of_two a b)
  unfolding root_of plug
  first_lem p l x h c r path (some found) b miss v w = v
  first_lem p l x h c r path none (some found) miss v w = w
  first_lem p l x h c r path none none miss v w =
      All-joined (λ a. p a ≡ false) (to_list l) (x ∷ to_list r) v (miss, w)

  locate-LocatedIn :
      (p : A → Bool) (t : Tree A) (path : List (Crumb A)) → LocatedIn p t path (locate p t path)
  unfolding locate
  locate-LocatedIn p leaf path = tt
  locate-LocatedIn p (node l x h c r) path = elim (Bool-cases (p x)) [
    | inl hit ↦ rw hit (refl, hit)
    | inr miss ↦ rw miss (
        first_lem p l x h c r path (locate p l (left_of x h c r ∷ path))
          (locate p r (right_of l x h c ∷ path)) miss
          (locate-LocatedIn p l (left_of x h c r ∷ path))
          (locate-LocatedIn p r (right_of l x h c ∷ path)))
  ]

  -- The labels that the test does not tell.
  abbrev pub without : (A → Bool) → List A → List A
  without p [] = []
  without p (x ∷ xs) = if p x then without p xs else x ∷ without p xs

  without_all : (p : A → Bool) (xs : List A) → All (λ a. p a ≡ false) xs → without p xs ≡ xs
  without_all p [] h = refl
  without_all p (x ∷ xs) h = rw h.0 (ap (◌∷◌ x) (without_all p xs h.1))

  without-append :
      (p : A → Bool) (xs ys : List A) → without p (xs ++ ys) ≡ without p xs ++ without p ys
  without-append p [] ys = refl
  without-append p (x ∷ xs) ys = elim (Bool-cases (p x)) [
    | inl hit ↦ rw hit (without-append p xs ys)
    | inr miss ↦ rw miss (ap (◌∷◌ x) (without-append p xs ys))
  ]

  pub count_none : (p : A → Bool) (xs : List A) → count p xs ≡ 0 → All (λ a. p a ≡ false) xs
  unfolding count
  count_none p [] h = tt
  count_none p (x ∷ xs) h = (ground arith, count_none p xs (ground arith))

  count_hit : (p : A → Bool) (x : A) (xs : List A) → p x ≡ true → count p (x ∷ xs) ≡ 1 + count p xs
  unfolding count
  count_hit p x xs h = rw h refl

  -- The one label that is told, between those that are not.
  single_hit :
      (p : A → Bool) (x : A) (xs ys : List A)
      → p x ≡ true
      → count p (xs ++ x ∷ ys) ≤ 1
      → All (λ a. p a ≡ false) xs × All (λ a. p a ≡ false) ys
  single_hit p x xs ys hit once =
      let joined = count-append p xs (x ∷ ys) in
      let told = count_hit p x ys hit in
      (
        count_none p xs (omega (arith, once, joined, told)),
        count_none p ys (omega (arith, once, joined, told)),
      )

  abbrev pub delete_found : (A → Bool) → Tree A → Option (Cursor A) → Tree A
  delete_found p root none = root
  delete_found p root (some (t, path)) = avl_del p t path

  delete_found_lem :
      (p : A → Bool) (root : Tree A) (o : Option (Cursor A))
      → LocatedIn p root [] o
      → IsAvl root
      → count p (to_list root) ≤ 1
      → IsAvl (delete_found p root o) × (to_list (delete_found p root o) ≡ without p (to_list root))
  unfolding root_of
  delete_found_lem p root none h v once = (v, sym (without_all p (to_list root) h))
  delete_found_lem p root (some (leaf, path)) h v once = absurd h
  delete_found_lem p root (some (node l x h c r, path)) (same, hit) v once =
      let order : to_list root ≡ (lefts path ++ to_list l) ++ x ∷ (to_list r ++ rights path) =
        ap to_list (sym same) ∙ to_list-root_of (node l x h c r) path ∙ simp joins in
      let (a, b) =
        single_hit p x (lefts path ++ to_list l) (to_list r ++ rights path) hit
          (subst (λ xs. count p xs ≤ 1) order once) in
      let others : All (λ a. p a ≡ false) (around path (to_list l ++ to_list r)) =
        subst (All (λ a. p a ≡ false)) (sym (regroup l r path))
          (All-joined (λ a. p a ≡ false) _ _ a b) in
      let (even, listed) = avl_del_lem p l x h c r path (subst IsAvl (sym same) v) hit others in
      (
        even,
        listed
            ∙ regroup l r path
            ∙ sym (
                ap (without p) order
                ∙ without-append p (lefts path ++ to_list l) (x ∷ (to_list r ++ rights path))
                ∙ rw
                    (
                      without_all p (lefts path ++ to_list l) a,
                      hit,
                      without_all p (to_list r ++ rights path) b,
                    )
                    refl),
      )

  -- The deletion of what a search finds in a balanced tree, where the test tells at most one label.
  pub delete_located_lem :
      (p : A → Bool) (root : Tree A)
      → IsAvl root
      → count p (to_list root) ≤ 1
      → IsAvl (delete_found p root (locate p root []))
        × (to_list (delete_found p root (locate p root [])) ≡ without p (to_list root))
  delete_located_lem p root v once =
      delete_found_lem p root (locate p root []) (locate-LocatedIn p root []) v once

  -- A new node at an empty place of a balanced tree: the tree stays balanced, and the node stands there.
  pub avl_fix-avl_init :
      (x : A) (path : List (Crumb A))
      → IsAvl (root_of leaf path)
      → IsAvl (avl_fix (avl_init x) path)
        × (to_list (avl_fix (avl_init x) path) ≡ lefts path ++ x ∷ rights path)
  unfolding fix_node avl_update max
  avl_fix-avl_init x path v =
      let (_, above) = root_of-IsAvl leaf path v in
      (
        avl_fix-IsAvl (avl_init x) path 0 ((tt, tt, (omega arith, omega arith), refl, refl))
            (omega arith, omega arith) above,
        to_list-avl_fix (avl_init x) path ∙ simp joins,
      )
