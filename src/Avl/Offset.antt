-- ===== src/Avl/Offset.antt =====
-- The walk from a node to the one that stands a number of places after or before it (src/avl.cpp:
-- `avl_offset`).
use apex_db.Prelude.{
  ℕ, zero, suc, ◌+◌, ◌≤◌, ◌<◌, ◌≡◌, refl, List, [], ◌∷◌, arith, length, ℤ, pos, pos_part, neg_part,
  ◌+ℤ◌, ◌-ℤ◌,
}
use apex_db.Avl.{
  Tree, leaf, node, Crumb, left_of, right_of, avl_cnt, plug, root_of, step_up, down_right,
  down_left, offset_loop, size, avl_offset,
}
use apex_db.Avl.Balance.{IsAvl, avl_cnt-size, root_of-IsAvl}
use apex_db.Avl.Places.{
  IsAt, eq_test, right_test, left_test, inside_size, outside, place_of, size-root_of, Inside,
  Reached, round-Reached, step_up-IsAt, size-plug, from_parent, down_right-IsAt, down_left-IsAt,
}

module _ {A : Type 0} where
  module _ (start target back : ℕ) (offset : ℤ) (e : pos_part offset + start ≡ target)
      (f : neg_part offset ≡ back) where
    -- Within the subtree that has the place, the walk only goes down.
    descend :
        (fuel : ℕ) (t : Tree A) (path : List (Crumb A)) (p : ℤ)
        → IsAvl t
        → IsAt start p (place_of t path)
        → Inside target back t path
        → size t ≤ fuel
        → Reached target back (root_of t path) (offset_loop fuel t path offset p)
    unfolding offset_loop size root_of plug
    descend fuel leaf path p v at inside enough = absurd (omega (arith, inside.0, inside.1))
    descend zero (node l x h c r) path p v at inside enough = absurd (omega arith)
    descend (suc fuel) (node l x h c r) path p v at inside enough =
        round-Reached l x h c r path target back _ _ _ _ _ _ _ refl (avl_cnt-size l v.0)
          (avl_cnt-size r v.1) (eq_test start _ 0 target back p offset at e f)
          (right_test start _ (avl_cnt r) target back p offset at e f)
          (left_test start _ (avl_cnt l) target back p offset at e f
            (omega (arith, avl_cnt-size l v.0)))
          (λ i.
            descend fuel r (right_of l x h c ∷ path) (p +ℤ down_right r) v.1
              (down_right-IsAt start l x h c r path p v.1 (inside_size _ _ _ _ i.0 i.1) at) i
              (omega arith))
          (λ i.
            descend fuel l (left_of x h c r ∷ path) (p -ℤ down_left l) v.0
              (down_left-IsAt start l x h c r path p v.0 (inside_size _ _ _ _ i.0 i.1) at) i
              (omega arith))
          (λ o. absurd (o inside))

    -- The walk from a node, when the walk from its parent is known.
    climb_round :
        (fuel : ℕ) (l : Tree A) (x : A) (h c : ℕ) (r : Tree A) (path : List (Crumb A)) (p : ℤ)
        → IsAvl (node l x h c r)
        → IsAt start p (place_of (node l x h c r) path)
        → size (root_of (node l x h c r) path) ≤ fuel
        → (¬ Inside target back (node l x h c r) path
            → Reached target back
                (root_of (node l x h c r) path)
                (from_parent fuel (node l x h c r) path offset p))
        → Reached target back
            (root_of (node l x h c r) path)
            (offset_loop (suc fuel) (node l x h c r) path offset p)
    unfolding offset_loop size root_of plug
    climb_round fuel l x h c r path p v at enough on_up =
        let within = size-root_of (node l x h c r) path in
        round-Reached l x h c r path target back _ _ _ _ _ _ _ refl (avl_cnt-size l v.0)
          (avl_cnt-size r v.1) (eq_test start _ 0 target back p offset at e f)
          (right_test start _ (avl_cnt r) target back p offset at e f)
          (left_test start _ (avl_cnt l) target back p offset at e f
            (omega (arith, avl_cnt-size l v.0)))
          (λ i.
            descend fuel r (right_of l x h c ∷ path) (p +ℤ down_right r) v.1
              (down_right-IsAt start l x h c r path p v.1 (inside_size _ _ _ _ i.0 i.1) at) i
              (omega arith))
          (λ i.
            descend fuel l (left_of x h c r ∷ path) (p -ℤ down_left l) v.0
              (down_left-IsAt start l x h c r path p v.0 (inside_size _ _ _ _ i.0 i.1) at) i
              (omega arith))
          on_up

    climb :
        (fuel : ℕ) (t : Tree A) (path : List (Crumb A)) (p : ℤ)
        → IsAvl (root_of t path)
        → IsAt start p (place_of t path)
        → 0 < size t
        → length path + size (root_of t path) < fuel
        → Reached target back (root_of t path) (offset_loop fuel t path offset p)
    unfolding size root_of
    climb zero t path p w at some_size enough = absurd (omega arith)
    climb (suc fuel) leaf path p w at some_size enough = absurd (omega arith)
    climb (suc fuel) (node l x h c r) [] p w at some_size enough =
        climb_round fuel l x h c r [] p w at (omega arith)
          (λ o. outside target back _ (λ a b. o (omega arith, omega arith)))
    climb (suc fuel) (node l x h c r) (crumb ∷ path) p w at some_size enough =
        let v = (root_of-IsAvl (node l x h c r) (crumb ∷ path) w).0 in
        climb_round fuel l x h c r (crumb ∷ path) p v at (omega arith) (λ _.
          climb fuel (plug crumb (node l x h c r)) path (step_up p (node l x h c r) crumb) w
            (step_up-IsAt start p (node l x h c r) crumb path (omega arith) v at)
            (size-plug crumb (node l x h c r)) (omega arith))

  -- The walk of `avl_offset` from a node of a balanced tree, with the fuel that it is given, ends
  -- at the node whose place is the start's moved by the offset, with the way up from there to the
  -- same root, and gives no node only where there is no such place.
  pub avl_offset-Reached :
      (t : Tree A) (path : List (Crumb A)) (offset : ℤ)
      → IsAvl (root_of t path)
      → 0 < size t
      → Reached
          (pos_part offset + place_of t path)
          (neg_part offset)
          (root_of t path)
          (avl_offset t path offset)
  unfolding avl_offset
  avl_offset-Reached t path offset w some_size =
      climb (place_of t path) _ _ offset refl refl _ t path (pos 0) w (omega arith) some_size
        (omega arith)
