-- ===== src/Avl/Places.antt =====
-- The places of the nodes of a tree, in its order, and the steps between them (src/avl.cpp: `avl_offset`).
use apex_db.Prelude.{
  ℕ, ◌+◌, ◌≤◌, ◌<◌, ◌≡◌, refl, Bool, true, false, ◌&&◌, List, [], ◌∷◌, ◌++◌, Option, none, some,
  arith, ltb, leb, ◌==◌, if◌then◌else◌, ◌⊎◌, length, length-append, ℤ, pos, pos_part, neg_part,
  ◌+ℤ◌, ◌-ℤ◌, +ℤ_parts, -ℤ_parts, ltb_ℤ, leb_ℤ,
}
use apex_db.Avl.{
  Tree, leaf, node, Crumb, left_of, right_of, Cursor, avl_cnt, plug, root_of, step_up, down_right,
  down_left, eq_ℤ, offset_loop, size,
}
use apex_db.Avl.Order.{to_list, lefts}
use apex_db.Avl.Balance.{IsAvl, avl_cnt-size}

-- `p` is the distance from the place `start` to the place `here`.
abbrev pub IsAt : ℕ → ℤ → ℕ → Type 0
IsAt start p here = pos_part p + start ≡ neg_part p + here

IsAt-add : (start here n : ℕ) (p : ℤ) → IsAt start p here → IsAt start (p +ℤ pos n) (here + n)
IsAt-add start here n p h = omega (arith, +ℤ_parts p (pos n))

IsAt-sub :
    (start here there n : ℕ) (p : ℤ)
    → IsAt start p here
    → there + n ≡ here
    → IsAt start (p -ℤ pos n) there
IsAt-sub start here there n p h e = omega (arith, -ℤ_parts p (pos n))

-- The tests of the loop, by places: `target` less `back` is the place that is looked for.
module _ (start here n target back : ℕ) (p offset : ℤ) (h : IsAt start p here)
    (e : pos_part offset + start ≡ target) (f : neg_part offset ≡ back) where
  pub eq_test : eq_ℤ offset p ≡ (here + back == target)
  eq_test = ground arith

  pub right_test :
      (ltb_ℤ p offset && leb_ℤ offset (p +ℤ pos n))
      ≡ (ltb (here + back) target && leb target (here + n + back))
  right_test = ground (arith, IsAt-add start here n p h)

  pub left_test :
      n ≤ here
      → (ltb_ℤ offset p && leb_ℤ (p -ℤ pos n) offset)
        ≡ (ltb target (here + back) && leb (here + back) (target + n))
  left_test m = ground (arith, -ℤ_parts p (pos n))

pub inside_size :
    (target back before n : ℕ) → before + back ≤ target → target < before + n + back → 0 < n
inside_size target back before n h k = omega arith

pub outside :
    (target back n : ℕ)
    → (back ≤ target → target < n + back → ⊥)
    → (target < back) ⊎ (n + back ≤ target)
outside target back n h = ground arith

module _ {A : Type 0} where
  abbrev pub left_size : Tree A → ℕ
  left_size leaf = 0
  left_size (node l _ _ _ _) = size l

  -- How many nodes stand before a place of the tree.
  abbrev pub place_of : Tree A → List (Crumb A) → ℕ
  place_of t path = length (lefts path) + left_size t

  pub length-to_list : (t : Tree A) → length (to_list t) ≡ size t
  unfolding size
  length-to_list leaf = refl
  length-to_list (node l x h c r) =
      omega (arith, length-append (to_list l) (x ∷ to_list r), length-to_list l, length-to_list r)

  pub size-root_of : (t : Tree A) (path : List (Crumb A)) → size t ≤ size (root_of t path)
  unfolding root_of plug size
  size-root_of t [] = omega arith
  size-root_of t (left_of x h c r ∷ path) = omega (arith, size-root_of (node t x h c r) path)
  size-root_of t (right_of l x h c ∷ path) = omega (arith, size-root_of (node l x h c t) path)

  -- The place that is `back` before `target` is in the subtree.
  abbrev pub Inside : ℕ → ℕ → Tree A → List (Crumb A) → Type 0
  Inside target back t path =
      (length (lefts path) + back ≤ target) × (target < length (lefts path) + size t + back)

  -- The result of a walk: the node at the place, or no node and there is no such place in the tree.
  abbrev pub Reached : ℕ → ℕ → Tree A → Option (Cursor A) → Type 0
  Reached target back root none = (target < back) ⊎ (size root + back ≤ target)
  Reached target back root (some (t, path)) =
      (root_of t path ≡ root) × (place_of t path + back ≡ target) × (0 < size t)

  pub lefts_right :
      (l : Tree A) (x : A) (h c : ℕ) (path : List (Crumb A))
      → length (lefts (right_of l x h c ∷ path)) ≡ length (lefts path) + size l + 1
  lefts_right l x h c path = omega (
    arith,
    length-append (lefts path ++ to_list l) (x ∷ []),
    length-append (lefts path) (to_list l),
    length-to_list l,
  )

  -- One round of the loop, with its three tests and the three calls.
  pub round-Reached :
      (l : Tree A) (x : A) (h c : ℕ) (r : Tree A) (path : List (Crumb A)) (target back : ℕ)
      (root : Tree A) (found on_the_right on_the_left : Bool) (right left up : Option (Cursor A))
      → root_of (node l x h c r) path ≡ root
      → avl_cnt l ≡ size l
      → avl_cnt r ≡ size r
      → found ≡ (length (lefts path) + size l + back == target)
      → on_the_right ≡ (
          ltb (length (lefts path) + size l + back) target
          && leb target (length (lefts path) + size l + avl_cnt r + back))
      → on_the_left ≡ (
          ltb target (length (lefts path) + size l + back)
          && leb (length (lefts path) + size l + back) (target + avl_cnt l))
      → (Inside target back r (right_of l x h c ∷ path) → Reached target back root right)
      → (Inside target back l (left_of x h c r ∷ path) → Reached target back root left)
      → (¬ Inside target back (node l x h c r) path → Reached target back root up)
      → Reached target back root (
          if found
          then some (node l x h c r, path)
          else if on_the_right
          then right
          else if on_the_left
          then left
          else up)
  unfolding size
  round-Reached l x h c r path target back root true q s right left up at_root cl cr e f g on_right
        on_left on_up =
      (at_root, ground arith, omega arith)
  round-Reached l x h c r path target back root false true s right left up at_root cl cr e f g
        on_right on_left on_up =
      on_right (ground (arith, lefts_right l x h c path), ground (arith, lefts_right l x h c path))
  round-Reached l x h c r path target back root false false true right left up at_root cl cr e f g
        on_right on_left on_up =
      on_left (ground arith, ground arith)
  round-Reached l x h c r path target back root false false false right left up at_root cl cr e f g
        on_right on_left on_up =
      on_up (λ inside. ground (arith, inside.0, inside.1))

  -- Above the node: the place of the parent, and the step to it.
  pub step_up-IsAt :
      (start : ℕ) (p : ℤ) (t : Tree A) (crumb : Crumb A) (path : List (Crumb A))
      → 0 < size t
      → IsAvl t
      → IsAt start p (place_of t (crumb ∷ path))
      → IsAt start (step_up p t crumb) (place_of (plug crumb t) path)
  unfolding size plug
  step_up-IsAt start p leaf crumb path some_size v at = absurd (omega arith)
  step_up-IsAt start p (node l x h c r) (left_of y hy cy ry) path some_size v at =
      omega (arith, at, +ℤ_parts p (pos (avl_cnt r + 1)), avl_cnt-size r v.1)
  step_up-IsAt start p (node l x h c r) (right_of ly y hy cy) path some_size v at =
      omega (
        arith,
        at,
        lefts_right ly y hy cy path,
        -ℤ_parts p (pos (avl_cnt l + 1)),
        avl_cnt-size l v.0,
      )

  pub size-plug : (crumb : Crumb A) (t : Tree A) → 0 < size (plug crumb t)
  unfolding plug size
  size-plug (left_of x h c r) t = omega arith
  size-plug (right_of l x h c) t = omega arith

  abbrev pub from_parent : ℕ → Tree A → List (Crumb A) → ℤ → ℤ → Option (Cursor A)
  from_parent fuel t path offset p = elim path [
    | [] ↦ none
    | crumb ∷ above ↦ offset_loop fuel (plug crumb t) above offset (step_up p t crumb)
  ]

  module _ (start : ℕ) where
    pub down_right-IsAt :
        (l : Tree A) (x : A) (h c : ℕ) (r : Tree A) (path : List (Crumb A)) (p : ℤ)
        → IsAvl r
        → 0 < size r
        → IsAt start p (place_of (node l x h c r) path)
        → IsAt start (p +ℤ down_right r) (place_of r (right_of l x h c ∷ path))
    unfolding size
    down_right-IsAt l x h c leaf path p v some_size at = absurd (omega arith)
    down_right-IsAt l x h c (node rl y hr cr rr) path p v some_size at = omega (
      arith,
      at,
      lefts_right l x h c path,
      +ℤ_parts p (pos (avl_cnt rl + 1)),
      avl_cnt-size rl v.0,
    )

    pub down_left-IsAt :
        (l : Tree A) (x : A) (h c : ℕ) (r : Tree A) (path : List (Crumb A)) (p : ℤ)
        → IsAvl l
        → 0 < size l
        → IsAt start p (place_of (node l x h c r) path)
        → IsAt start (p -ℤ down_left l) (place_of l (left_of x h c r ∷ path))
    unfolding size
    down_left-IsAt leaf x h c r path p v some_size at = absurd (omega arith)
    down_left-IsAt (node ll y hl cl lr) x h c r path p v some_size at =
        omega (arith, at, -ℤ_parts p (pos (avl_cnt lr + 1)), avl_cnt-size lr v.1)
