-- ===== src/Tests/Trees.antt =====
-- Trees and sorted sets at concrete inputs: the set `one` has the member `a`, the set `two` also has `b`.
use apex_db.Prelude.{ℕ, ◌+◌, ◌≡◌, refl, Bool, [], ◌∷◌, arith, pos}
use apex_db.Sharding.{codes}
use apex_db.HashTable.Chains.{count, to_nat}
use apex_db.Avl.{
  Tree, leaf, node, left_of, root_of, plug, max, avl_offset, size, avl_fix, fix_node, avl_update,
}
use apex_db.Avl.Balance.{IsAvl}
use apex_db.Avl.Order.{to_list}
use apex_db.Avl.Places.{Reached}
use apex_db.Avl.Offset.{avl_offset-Reached}
use apex_db.ZSet.{
  ZNode, ZSet, empty_zset, zset_insert, zset_lookup, zset_delete, add_node, tree_insert,
  insert_path,
}
use apex_db.ZSet.Members.{IsZSet, LookedUp, members, occurs, zset_lookup-LookedUp}
use apex_db.ZSet.Updates.{Stored, zset_insert-IsZSet, empty_zset-IsZSet}
use apex_db.ZSet.Deletion.{zset_delete-IsZSet}
use apex_db.KvStore.Sorted.{query_set}
use apex_db.KvStore.Queries.{write_page, query_page, rank_of, query_set_lem}
use apex_db.Tests.Commands.{text_lengths}

-- Three labels, balanced.
abbrev three : Tree ℕ
three = node (node leaf 1 1 1 leaf) 2 2 3 (node leaf 3 1 1 leaf)

three-IsAvl : IsAvl three
unfolding max
three-IsAvl = (
  (tt, tt, (omega arith, omega arith), refl, refl),
  (tt, tt, (omega arith, omega arith), refl, refl),
  (omega arith, omega arith),
  refl,
  refl,
)

avl_offset-Reached_example :
    Reached
      (2 + 0)
      0
      three
      (avl_offset (node leaf 1 1 1 leaf) (left_of 2 2 3 (node leaf 3 1 1 leaf) ∷ []) (pos 2))
unfolding root_of plug size
avl_offset-Reached_example =
    avl_offset-Reached (node leaf 1 1 1 leaf) (left_of 2 2 3 (node leaf 3 1 1 leaf) ∷ []) (pos 2)
      three-IsAvl (omega arith)

abbrev one : ZSet ℕ
one = (zset_insert empty_zset (codes "a") 5).0

one-IsZSet : IsZSet one
one-IsZSet = (zset_insert-IsZSet empty_zset (codes "a") 5 empty_zset-IsZSet refl).0

abbrev two : ZSet ℕ
two = (zset_insert one (codes "b") 3).0

zset_insert-IsZSet_example :
    IsZSet two × Stored one (codes "b") 3 two (zset_insert one (codes "b") 3).1
zset_insert-IsZSet_example = zset_insert-IsZSet one (codes "b") 3 one-IsZSet refl

zset_lookup-LookedUp_example :
    let (z, found) = zset_lookup one (codes "a") in
    IsZSet z
    × (z.root ≡ one.root)
    × (z.nodes ≡ one.nodes)
    × (z.next ≡ one.next)
    × LookedUp one (codes "a") found
zset_lookup-LookedUp_example = zset_lookup-LookedUp one (codes "a") one-IsZSet

one-occurs : occurs 0 one ≡ 1
unfolding zset_insert zset_lookup add_node tree_insert insert_path avl_fix fix_node avl_update max
    count
one-occurs = refl

zset_delete-IsZSet_example :
    IsZSet (zset_delete one 0)
    × ((p : ZNode ℕ → Bool)
        → members p (zset_delete one 0) + to_nat (p (one.nodes 0)) ≡ members p one)
zset_delete-IsZSet_example = zset_delete-IsZSet one 0 one-IsZSet one-occurs

query_set_lem_example :
    query_set one 2 (codes "") (pos 0) (pos 10) []
    ≡ write_page one (query_page (to_list one.root) (rank_of one 2 (codes "")) (pos 0) 10) []
query_set_lem_example =
    query_set_lem one 2 (codes "") (pos 0) (pos 10) [] one-IsZSet.even one-IsZSet.sorted
