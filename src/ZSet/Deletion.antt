-- ===== src/ZSet/Deletion.antt =====
-- The deletion of a member (src/zset.cpp: `zset_delete`).
use apex_db.Prelude.{
  All_always, ℕ, ◌+◌, ◌≤◌, ◌≡◌, refl, sym, ◌∙◌, ap, ap₂, Bool, true, Option, none, some, arith,
  ◌==◌, ==_iff, ==_refl,
}
use apex_db.Bytes.{bytes_eq_sound, bytes_eq_refl}
use apex_db.Floats.{Floats}
use apex_db.HashTable.{HNode, HMap, matches, hm_delete}
use apex_db.HashTable.Chains.{to_nat}
use apex_db.HashTable.Rehash.{held}
use apex_db.HashTable.Maps.{Removed, hm_delete-Removed}
use apex_db.Avl.Order.{to_list}
use apex_db.ZSet.{ZNode, ZSet, hcmp, zset_delete}
use apex_db.ZSet.Remove.{count_implied, tree_delete-Taken}
use apex_db.ZSet.Members.{hnode_of, members, occurs, IsZSet, same_member, and_left, and_right}
use apex_db.ZSet.Updates.{Taken-IsOrdered}

module _ {D : Type 0} ⦃f : Floats D⦄ where
  own_match :
      (z : ZSet D) (addr a : ℕ)
      → (a == addr) ≡ true
      → matches (z.nodes addr).hcode (hcmp z (z.nodes addr).name) (hnode_of z.nodes a) ≡ true
  own_match z addr a h =
      ap (λ b. matches (z.nodes addr).hcode (hcmp z (z.nodes addr).name) (hnode_of z.nodes b))
        ((==_iff a addr).0 h)
      ∙ rw (==_refl (z.nodes addr).hcode, bytes_eq_refl (z.nodes addr).name) refl

  Removed-hnode_of :
      (z : ZSet D) (addr : ℕ) (m : HMap ℕ) (o : Option (HNode ℕ))
      → IsZSet z
      → occurs addr z ≡ 1
      → Removed (matches (z.nodes addr).hcode (hcmp z (z.nodes addr).name)) z.hmap m o
      → (q : HNode ℕ → Bool) → held q m + to_nat (q (hnode_of z.nodes addr)) ≡ held q z.hmap
  Removed-hnode_of z addr m none v once d q =
      let r = matches (z.nodes addr).hcode (hcmp z (z.nodes addr).name) in
      absurd (
        omega (
          arith,
          d.0,
          v.agree r,
          once,
          count_implied (λ a. a == addr) (λ a. r (hnode_of z.nodes a)) (to_list z.root)
              (All_always _ (to_list z.root) (own_match z addr)),
        ))
  Removed-hnode_of z addr m (some n) v once d q =
      let there : 1 ≤ occurs n.item z = omega (
        arith,
        d.1 (λ k. k.item == n.item),
        ap to_nat (==_refl n.item),
        v.agree (λ k. k.item == n.item),
      ) in
      let name =
        bytes_eq_sound (z.nodes n.item).name (z.nodes addr).name
          (and_right (n.hcode == (z.nodes addr).hcode) _ d.0) in
      let item = same_member z n.item addr v there (omega (arith, once)) name in
      let hcode =
        (==_iff n.hcode (z.nodes addr).hcode).0
          (and_left (n.hcode == (z.nodes addr).hcode) _ d.0) in
      let whole : n ≡ hnode_of z.nodes addr =
        ap₂ (λ h i. record { hcode = h; item = i }) hcode item in
      ap (λ k. held q m + to_nat (q k)) (sym whole) ∙ d.1 q

  -- The deletion of a member keeps a set valid, and the member's node is the only one to go.
  pub zset_delete-IsZSet :
      (z : ZSet D) (addr : ℕ)
      → IsZSet z
      → occurs addr z ≡ 1
      → IsZSet (zset_delete z addr)
        × ((p : ZNode D → Bool)
            → members p (zset_delete z addr) + to_nat (p (z.nodes addr)) ≡ members p z)
  unfolding zset_delete
  zset_delete-IsZSet z addr v once =
      let t = tree_delete-Taken z.nodes z.root addr v.even v.sorted once in
      let o = Taken-IsOrdered z addr v t in
      let (table, d) =
        hm_delete-Removed z.hmap (z.nodes addr).hcode (hcmp z (z.nodes addr).name) v.table in
      let gone =
        Removed-hnode_of z addr
          (hm_delete z.hmap (z.nodes addr).hcode (hcmp z (z.nodes addr).name)).0 _ v once d in
      (
        record {
          even = o.even;
          sorted = o.sorted;
          each = o.each;
          distinct = o.distinct;
          table = table;
          agree = λ q. omega (arith, gone q, v.agree q, t.counts (λ a. q (hnode_of z.nodes a)));
        },
        λ p. t.counts (λ a. p (z.nodes a)),
      )
