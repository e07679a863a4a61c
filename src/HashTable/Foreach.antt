-- ===== src/HashTable/Foreach.antt =====
-- Iteration: a callback that never stops gets every node of a valid map, once each.
use mathlib.Core.List.{foldl, foldl-append}
use apex_db.Prelude.{
  ◌+◌, ◌≡◌, refl, sym, ap, Bool-cases, inl, inr, Bool, true, List, [], ◌∷◌, ◌++◌, arith, ◌==◌,
  length,
}
use apex_db.HashTable.{HNode, HTab, HMap, foreach_chain, foreach_bucket, h_foreach, hm_foreach}
use apex_db.HashTable.Chains.{count, count_all}
use apex_db.HashTable.Tables.{IsTable}
use apex_db.HashTable.Rehash.{held, IsMap}

module _ {A : Type 0} where
  unfoldable pub joined : List (List (HNode A)) → List (HNode A)
  joined [] = []
  joined (c ∷ cs) = c ++ joined cs

  -- The nodes in the order of the iteration.
  unfoldable pub all_nodes : HMap A → List (HNode A)
  all_nodes m = joined m.newer.tab ++ joined m.older.tab

  pub count-append :
      (q : HNode A → Bool) (a b : List (HNode A)) → count q (a ++ b) ≡ count q a + count q b
  unfolding count
  count-append q [] b = omega arith
  count-append q (x ∷ a) b = omega (arith, count-append q a b)

  count-joined :
      (q : HNode A → Bool) (cs : List (List (HNode A))) → count q (joined cs) ≡ count_all q cs
  unfolding joined count count_all
  count-joined q [] = refl
  count-joined q (c ∷ cs) = omega (arith, count-append q c (joined cs), count-joined q cs)

  pub count-all_nodes : (q : HNode A → Bool) (m : HMap A) → count q (all_nodes m) ≡ held q m
  unfolding all_nodes
  count-all_nodes q m = omega (
    arith,
    count-append q (joined m.newer.tab) (joined m.older.tab),
    count-joined q m.newer.tab,
    count-joined q m.older.tab,
  )

  no_buckets : (cs : List (List (HNode A))) → length cs ≡ 0 → cs ≡ []
  no_buckets [] e = refl
  no_buckets (c ∷ cs) e = absurd (omega arith)

module _ {A S : Type 0} (g : S → HNode A → S) where
  -- A callback that does `g` and always goes on.
  abbrev pub each : HNode A → S → Bool × S
  each node s = (true, g s node)

  foreach_chain-each : (c : List (HNode A)) (s : S) → foreach_chain each c s ≡ (true, foldl g s c)
  unfolding foreach_chain
  foreach_chain-each [] s = refl
  foreach_chain-each (x ∷ c) s = foreach_chain-each c (g s x)

  foreach_bucket-each :
      (cs : List (List (HNode A))) (s : S)
      → foreach_bucket each cs s ≡ (true, foldl g s (joined cs))
  unfolding foreach_bucket joined
  foreach_bucket-each [] s = refl
  foreach_bucket-each (c ∷ cs) s =
      rw (foreach_chain-each c s, foreach_bucket-each cs (foldl g s c), foldl-append)

  h_foreach-each :
      (t : HTab A) (s : S) → IsTable t → h_foreach t each s ≡ (true, foldl g s (joined t.tab))
  unfolding h_foreach joined
  h_foreach-each t s v = elim (Bool-cases (t.mask == 0)) [
    | inl zero_mask ↦ rw zero_mask (
        ap (λ (cs : List (List (HNode A))). (true, foldl g s (joined cs)))
          (sym (no_buckets t.tab (ground (arith, v.wide)))))
    | inr other ↦ rw other (foreach_bucket-each t.tab s)
  ]

  -- The iteration of a valid map folds over a list of its nodes: the list has as many nodes that
  -- satisfy a predicate as the map holds, for every predicate.
  pub hm_foreach-foldl :
      (m : HMap A) (s : S)
      → IsMap m
      → (hm_foreach m each s ≡ foldl g s (all_nodes m))
        × ((q : HNode A → Bool) → count q (all_nodes m) ≡ held q m)
  unfolding hm_foreach all_nodes
  hm_foreach-foldl m s v = (
    rw (
      h_foreach-each m.newer s v.newer,
      h_foreach-each m.older (foldl g s (joined m.newer.tab)) v.older,
      foldl-append,
    ),
    λ q. count-all_nodes q m,
  )
