-- ===== src/ZSet/Order.antt =====
-- The order of the members in the tree, and the search by it (src/zset.cpp: `zset_seekge`).
use apex_db.Prelude.{
  ℕ, ◌+◌, ◌≡◌, refl, subst, Bool, true, false, Bool-cases, inl, inr, List, [], ◌∷◌, ◌++◌, Option,
  none, some, arith, length, All, All-append,
}
use apex_db.Bytes.{Bytes}
use apex_db.Floats.{Floats}
use apex_db.HashTable.Chains.{count, count-append}
use apex_db.Avl.{Tree, leaf, node, Crumb, left_of, right_of, Cursor, plug, root_of, size}
use apex_db.Avl.Order.{to_list, lefts}
use apex_db.Avl.Places.{length-to_list, Reached, lefts_right}
use apex_db.ZSet.{ZNode, zless, seek, zset_seekge, ZSet}
use apex_db.ZSet.Names.{is_below, zless_trans}

module _ {A : Type 0} where
  -- Everything for which the test holds stands before everything else.
  abbrev IsSplit : (A → Bool) → List A → Type 0
  IsSplit q [] = Unit
  IsSplit q (x ∷ xs) = (q x ≡ false → All (λ y. q y ≡ false) xs) × IsSplit q xs

  IsSplit-append :
      (q : A → Bool) (xs ys : List A) → IsSplit q (xs ++ ys) → IsSplit q xs × IsSplit q ys
  IsSplit-append q [] ys h = (tt, h)
  IsSplit-append q (x ∷ xs) ys h =
      let (a, b) = IsSplit-append q xs ys h.1 in ((λ e. (All-append _ xs ys (h.0 e)).0, a), b)

  -- Before a member for which the test holds, it holds for all.
  count_before :
      (q : A → Bool) (xs : List A) (y : A) (ys : List A)
      → IsSplit q (xs ++ y ∷ ys)
      → q y ≡ true
      → count q xs ≡ length xs
  unfolding count
  count_before q [] y ys h e = refl
  count_before q (x ∷ xs) y ys h e = elim (Bool-cases (q x)) [
    | inl hit ↦ rw hit (omega (arith, count_before q xs y ys h.1 e))
    | inr miss ↦ absurd (ground (arith, (All-append _ xs (y ∷ ys) (h.0 miss)).1.0))
  ]

  count_after : (q : A → Bool) (xs : List A) → All (λ y. q y ≡ false) xs → count q xs ≡ 0
  unfolding count
  count_after q [] h = refl
  count_after q (x ∷ xs) h = ground (arith, count_after q xs h.1)

  count_low :
      (q : A → Bool) (xs : List A) (y : A) (ys : List A)
      → IsSplit q (xs ++ y ∷ ys)
      → q y ≡ true
      → count q (xs ++ y ∷ ys) ≡ length xs + 1 + count q ys
  unfolding count
  count_low q xs y ys h e = ground (arith, count-append q xs (y ∷ ys), count_before q xs y ys h e)

  count_high :
      (q : A → Bool) (xs : List A) (y : A) (ys : List A)
      → IsSplit q (xs ++ y ∷ ys)
      → q y ≡ false
      → count q (xs ++ y ∷ ys) ≡ count q xs
  unfolding count
  count_high q xs y ys h e =
      ground (
        arith,
        count-append q xs (y ∷ ys),
        count_after q ys ((IsSplit-append q xs (y ∷ ys) h).1.0 e),
      )

module _ {D : Type 0} ⦃f : Floats D⦄ where
  -- Each member is before all that follow.
  abbrev pub IsSorted : (ℕ → ZNode D) → List ℕ → Type 0
  IsSorted nodes [] = Unit
  IsSorted nodes (x ∷ xs) = All (λ y. is_below (nodes x) (nodes y) ≡ true) xs × IsSorted nodes xs

  all_above :
      (nodes : ℕ → ZNode D) (score : D) (name : Bytes) (x : ℕ) (xs : List ℕ)
      → zless (nodes x) score name ≡ false
      → All (λ y. is_below (nodes x) (nodes y) ≡ true) xs
      → All (λ y. zless (nodes y) score name ≡ false) xs
  all_above nodes score name x [] h a = tt
  all_above nodes score name x (y ∷ xs) h a = (
    ground (
      arith,
      Bool-cases (zless (nodes y) score name),
      zless_trans (nodes x) (nodes y) score name a.0,
      h,
    ),
    all_above nodes score name x xs h a.1,
  )

  IsSorted-IsSplit :
      (nodes : ℕ → ZNode D) (score : D) (name : Bytes) (xs : List ℕ)
      → IsSorted nodes xs
      → IsSplit (λ a. zless (nodes a) score name) xs
  IsSorted-IsSplit nodes score name [] v = tt
  IsSorted-IsSplit nodes score name (x ∷ xs) v =
      (λ h. all_above nodes score name x xs h v.0, IsSorted-IsSplit nodes score name xs v.1)

  seek-Reached :
      (nodes : ℕ → ZNode D) (score : D) (name : Bytes) (t : Tree ℕ) (path : List (Crumb ℕ))
      (root : Tree ℕ) (found : Option (Cursor ℕ))
      → root_of t path ≡ root
      → IsSplit (λ a. zless (nodes a) score name) (to_list t)
      → Reached (length (lefts path) + size t) 0 root found
      → Reached
          (length (lefts path) + count (λ a. zless (nodes a) score name) (to_list t))
          0
          root
          (seek nodes score name t path found)
  unfolding seek size count root_of plug
  seek-Reached nodes score name leaf path root found e v h = h
  seek-Reached nodes score name (node l x hx c r) path root found e v h =
      elim (Bool-cases (zless (nodes x) score name)) [
        | inl low ↦ rw low (
            subst (λ n. Reached n 0 root (seek nodes score name r (right_of l x hx c ∷ path) found))
              (omega (
                arith,
                lefts_right l x hx c path,
                length-to_list l,
                count_low (λ a. zless (nodes a) score name) (to_list l) x (to_list r) v low,
              ))
              (seek-Reached nodes score name r (right_of l x hx c ∷ path) root found e
                (IsSplit-append _ (to_list l) (x ∷ to_list r) v).1.1
                (subst (λ n. Reached n 0 root found) (omega (arith, lefts_right l x hx c path)) h)))
        | inr high ↦ rw high (
            subst
              (λ n.
                Reached n 0 root (
                  seek nodes score name l (left_of x hx c r ∷ path) (some (node l x hx c r, path))))
              (omega (
                arith,
                count_high (λ a. zless (nodes a) score name) (to_list l) x (to_list r) v high,
              ))
              (seek-Reached nodes score name l (left_of x hx c r ∷ path) root
                (some (node l x hx c r, path)) e (IsSplit-append _ (to_list l) (x ∷ to_list r) v).0
                (e, omega arith, omega arith)))
      ]

  -- In a sorted set the search returns the member with as many before it as are less than the key, and
  -- none exactly if all are.
  pub zset_seekge-Reached :
      (z : ZSet D) (score : D) (name : Bytes)
      → IsSorted z.nodes (to_list z.root)
      → Reached
          (count (λ a. zless (z.nodes a) score name) (to_list z.root))
          0
          z.root
          (zset_seekge z score name)
  unfolding zset_seekge root_of
  zset_seekge-Reached z score name v =
      subst (λ n. Reached n 0 z.root (seek z.nodes score name z.root [] none)) (omega arith)
        (seek-Reached z.nodes score name z.root [] z.root none refl
          (IsSorted-IsSplit z.nodes score name (to_list z.root) v) (inr (omega arith)))
