-- ===== src/Avl.antt =====
-- The balanced tree (src/avl.cpp, include/avl.hpp). A node with its parent pointers is a subtree with
-- the path that leads up from it to the root; `height` and `cnt` are the stored fields, which may be
-- out of date while a change is repaired. A tree holds less than 2 ^ 32 nodes.
pub mod Order
pub mod Heights
pub mod Balance
pub mod Delete
pub mod Locate
pub mod Places
pub mod Offset
use apex_db.Prelude.{
  ℕ, zero, suc, ◌+◌, Bool, ◌&&◌, Option, none, some, List, [], ◌∷◌, ltb, ◌==◌, if◌then◌else◌,
  length, ℤ, pos, ◌+ℤ◌, ◌-ℤ◌, ltb_ℤ, leb_ℤ,
}

pub data Tree (A : Type 0) : Type 0 where
  leaf : Tree A
  node : (left : Tree A) (label : A) (height : ℕ) (cnt : ℕ) (right : Tree A) → Tree A

-- A step up: the parent and the other child, for a left or a right child.
pub data Crumb (A : Type 0) : Type 0 where
  left_of : (label : A) (height : ℕ) (cnt : ℕ) (right : Tree A) → Crumb A
  right_of : (left : Tree A) (label : A) (height : ℕ) (cnt : ℕ) → Crumb A

unfoldable pub max : ℕ → ℕ → ℕ
max lhs rhs = if ltb lhs rhs then rhs else lhs

-- A pointer to a node, or to an empty place: the subtree there and the way up, nearest step first.
abbrev pub Cursor : Type 0 → Type 0
Cursor A = Tree A × List (Crumb A)

module _ {A : Type 0} where
  abbrev pub avl_height : Tree A → ℕ
  avl_height leaf = 0
  avl_height (node _ _ h _ _) = h

  abbrev pub avl_cnt : Tree A → ℕ
  avl_cnt leaf = 0
  avl_cnt (node _ _ _ c _) = c

  -- `avl_init`
  abbrev pub avl_init : A → Tree A
  avl_init x = node leaf x 1 1 leaf

  -- A node whose fields `avl_update` has computed.
  unfoldable pub avl_update : Tree A → A → Tree A → Tree A
  unfolding max
  avl_update l x r = node l x (1 + max (avl_height l) (avl_height r)) (1 + avl_cnt l + avl_cnt r) r

  -- `rot_left` and `rot_right` at a node with the child that is lifted; the code calls them at no other.
  unfoldable pub rot_left : Tree A → Tree A
  rot_left (node l x _ _ (node inner y _ _ r)) = avl_update (avl_update l x inner) y r
  rot_left t = t

  unfoldable pub rot_right : Tree A → Tree A
  rot_right (node (node l y _ _ inner) x _ _ r) = avl_update l y (avl_update inner x r)
  rot_right t = t

  unfoldable pub avl_fix_left : Tree A → Tree A
  avl_fix_left (node (node ll y hl cl lr) x h c r) = rot_right (
      node
        (if ltb (avl_height ll) (avl_height lr)
          then rot_left (node ll y hl cl lr)
          else node ll y hl cl lr)
        x h c r)
  avl_fix_left t = t

  unfoldable pub avl_fix_right : Tree A → Tree A
  avl_fix_right (node l x h c (node rl y hr cr rr)) = rot_left (
      node l x h c (
        if ltb (avl_height rr) (avl_height rl)
        then rot_right (node rl y hr cr rr)
        else node rl y hr cr rr))
  avl_fix_right t = t

  -- One round of `avl_fix`: the node's fields are computed anew, and it is rotated if it leans.
  unfoldable pub fix_node : Tree A → Tree A
  fix_node leaf = leaf
  fix_node (node l x h c r) =
      let updated = avl_update l x r in
      if avl_height l == avl_height r + 2
      then avl_fix_left updated
      else if avl_height l + 2 == avl_height r
      then avl_fix_right updated
      else updated

  -- `*from = t` in the parent.
  unfoldable pub plug : Crumb A → Tree A → Tree A
  plug (left_of x h c r) t = node t x h c r
  plug (right_of l x h c) t = node l x h c t

  -- The loop of `avl_fix`, up to the root, which it returns.
  unfoldable pub avl_fix : Tree A → List (Crumb A) → Tree A
  avl_fix t [] = fix_node t
  avl_fix t (crumb ∷ path) = avl_fix (plug crumb (fix_node t)) path

  -- The root, reached by the parent pointers.
  unfoldable pub root_of : Tree A → List (Crumb A) → Tree A
  root_of t [] = t
  root_of t (crumb ∷ path) = root_of (plug crumb t) path

  -- `avl_del_easy`, for a node that had at most the child `child`.
  unfoldable pub splice : Tree A → List (Crumb A) → Tree A
  splice child [] = child
  splice child (crumb ∷ path) = avl_fix (plug crumb child) path

  unfoldable pub avl_del_easy : Tree A → List (Crumb A) → Tree A
  avl_del_easy leaf path = root_of leaf path
  avl_del_easy (node leaf _ _ _ r) path = splice r path
  avl_del_easy (node (node ll y hl cl lr) _ _ _ _) path = splice (node ll y hl cl lr) path

  -- The loop that finds the victim: the last node on the way to the left.
  unfoldable pub leftmost : Tree A → List (Crumb A) → Cursor A
  leftmost leaf path = (leaf, path)
  leftmost (node leaf x h c r) path = (node leaf x h c r, path)
  leftmost (node (node ll y hl cl lr) x h c r) path =
      leftmost (node ll y hl cl lr) (left_of x h c r ∷ path)

  -- `*victim = *node` and the links to it: the victim takes the place, and the fields, that the node
  -- has in the repaired tree.
  unfoldable pub take_place : (A → Bool) → A → Tree A → Tree A
  take_place is_node victim leaf = leaf
  take_place is_node victim (node l x h c r) =
      node (take_place is_node victim l) (if is_node x then victim else x) h c
        (take_place is_node victim r)

  abbrev pub replace_by : (A → Bool) → Tree A → Tree A → Tree A
  replace_by is_node leaf root = root
  replace_by is_node (node _ victim _ _ _) root = take_place is_node victim root

  -- `is_node` tells the node's address from all others.
  unfoldable pub avl_del : (A → Bool) → Tree A → List (Crumb A) → Tree A
  avl_del is_node leaf path = root_of leaf path
  avl_del is_node (node leaf x h c r) path = avl_del_easy (node leaf x h c r) path
  avl_del is_node (node (node ll y hl cl lr) x h c leaf) path =
      avl_del_easy (node (node ll y hl cl lr) x h c leaf) path
  avl_del is_node (node (node ll y hl cl lr) x h c (node rl z hr cr rr)) path =
      let (victim, up) =
        leftmost (node rl z hr cr rr) (right_of (node ll y hl cl lr) x h c ∷ path) in
      replace_by is_node victim (avl_del_easy victim up)

  -- The cursor of the node with a given address.
  abbrev pub first_of_two : Option (Cursor A) → Option (Cursor A) → Option (Cursor A)
  first_of_two (some found) other = some found
  first_of_two none other = other

  unfoldable pub locate : (A → Bool) → Tree A → List (Crumb A) → Option (Cursor A)
  locate is_node leaf path = none
  locate is_node (node l x h c r) path =
      if is_node x
      then some (node l x h c r, path)
      else first_of_two (locate is_node l (left_of x h c r ∷ path))
          (locate is_node r (right_of l x h c ∷ path))

  -- How far a node stands from the one that its parent is, in the order of the tree.
  abbrev step_up : ℤ → Tree A → Crumb A → ℤ
  step_up p (node l _ _ _ r) (right_of _ _ _ _) = p -ℤ pos (avl_cnt l + 1)
  step_up p (node l _ _ _ r) (left_of _ _ _ _) = p +ℤ pos (avl_cnt r + 1)
  step_up p leaf _ = p

abbrev pub eq_ℤ : ℤ → ℤ → Bool
eq_ℤ a b = leb_ℤ a b && leb_ℤ b a

module _ {A : Type 0} where
  -- `avl_cnt(node->left) + 1` and `avl_cnt(node->right) + 1` at the node that is reached.
  abbrev pub down_right : Tree A → ℤ
  down_right leaf = pos 0
  down_right (node l _ _ _ _) = pos (avl_cnt l + 1)

  abbrev pub down_left : Tree A → ℤ
  down_left leaf = pos 0
  down_left (node _ _ _ _ r) = pos (avl_cnt r + 1)

  -- The loop of `avl_offset`: `p` is how far the current node stands from the first one.
  unfoldable pub offset_loop : ℕ → Tree A → List (Crumb A) → ℤ → ℤ → Option (Cursor A)
  offset_loop zero t path offset p = none
  offset_loop (suc fuel) leaf path offset p = none
  offset_loop (suc fuel) (node l x h c r) path offset p =
      let right = offset_loop fuel r (right_of l x h c ∷ path) offset (p +ℤ down_right r) in
      let left = offset_loop fuel l (left_of x h c r ∷ path) offset (p -ℤ down_left l) in
      let up : Option (Cursor A) = elim path [
        | [] ↦ none
        | crumb ∷ above ↦
            offset_loop fuel (plug crumb (node l x h c r)) above offset
              (step_up p (node l x h c r) crumb)
      ] in
      if eq_ℤ offset p
      then some (node l x h c r, path)
      else if ltb_ℤ p offset && leb_ℤ offset (p +ℤ pos (avl_cnt r))
      then right
      else if ltb_ℤ offset p && leb_ℤ (p -ℤ pos (avl_cnt l)) offset
      then left
      else up

  -- The number of nodes, counted.
  unfoldable pub size : Tree A → ℕ
  size leaf = 0
  size (node l _ _ _ r) = size l + size r + 1

  -- The walk goes up at most to the root, and down from there.
  unfoldable pub avl_offset : Tree A → List (Crumb A) → ℤ → Option (Cursor A)
  avl_offset t path offset =
      offset_loop (length path + size (root_of t path) + 1) t path offset (pos 0)
