-- ===== src/ZSet/Updates.antt =====
-- The operations that add a member or change a score (src/zset.cpp: `zset_update`, `zset_insert`).
use apex_db.Prelude.{
  All_mapped, ℕ, suc, ◌+◌, ◌<◌, ◌≡◌, refl, sym, ◌∙◌, ap, ap₂, subst, Bool, true, false, Bool-cases,
  inl, inr, Option, none, some, arith, ◌==◌, if◌then◌else◌,
}
use apex_db.Bytes.{Bytes, bytes_eq_refl}
use apex_db.Sharding.{str_hash}
use apex_db.Floats.{Floats}
use apex_db.HashTable.{HNode, hm_insert}
use apex_db.HashTable.Chains.{All_at, count, to_nat}
use apex_db.HashTable.Maps.{empty_map-IsMap, held-empty_map, hm_insert-IsMap}
use apex_db.Avl.Order.{to_list}
use apex_db.ZSet.{
  empty_zset, ZNode, ZSet, tree_insert, tree_delete, write_node, zset_update, add_node,
  insert_found, zset_lookup, zset_insert,
}
use apex_db.ZSet.Remove.{Taken, tree_delete-Taken}
use apex_db.ZSet.Members.{
  hnode_of, is_named, members, named, occurs, IsMember, IsZSet, LookedUp, zset_lookup-LookedUp,
}
use apex_db.ZSet.Put.{IsOrdered, write_node-Agrees, write_node_at, tree_insert-Put}

not_same : (next a : ℕ) → a < next → (next == a) ≡ false
not_same next a h = ground arith

turned : (a addr : ℕ) → (a == addr) ≡ false → (addr == a) ≡ false
turned a addr h = ground arith

module _ {D : Type 0} ⦃f : Floats D⦄ where
  abbrev pub new_node : Bytes → D → ZNode D
  new_node name score = record { hcode = str_hash name; score = score; name = name }

  ordered : (z : ZSet D) → IsZSet z → IsOrdered z.nodes z.root z.next
  ordered z v = record { even = v.even; sorted = v.sorted; each = v.each; distinct = v.distinct }

  -- A new member: the set stays valid, and holds its node besides the others.
  pub add_node-IsZSet :
      (z : ZSet D) (name : Bytes) (score : D)
      → IsZSet z
      → named name z ≡ 0
      → f.is_nan score ≡ false
      → IsZSet (add_node z name score)
        × ((p : ZNode D → Bool)
            → members p (add_node z name score) ≡ members p z + to_nat (p (new_node name score)))
  unfolding add_node tree_insert
  add_node-IsZSet z name score v fresh n =
      let zn = new_node name score in
      let key : HNode ℕ = record { hcode = str_hash name; item = z.next } in
      let memory = write_node z.nodes z.next zn in
      let at : memory z.next ≡ zn = write_node_at z.nodes z.next zn in
      let z1 : ZSet D = record z {
        hmap = hm_insert z.hmap key;
        nodes = memory;
        next = suc z.next;
      } in
      let apart =
        All_mapped (IsMember z.nodes z.next) (λ a. (z.next == a) ≡ false) (to_list z.root)
          (λ a w. not_same z.next a w.0) v.each in
      let put =
        tree_insert-Put z.nodes z.next z1 z.next (ordered z v) (omega arith)
          (write_node-Agrees z.nodes z.next zn (to_list z.root) apart)
          (
            omega arith,
            subst (λ m. m.hcode ≡ str_hash m.name) (sym at) refl,
            subst (λ m. f.is_nan m.score ≡ false) (sym at) n,
          )
          (subst (λ m. count (is_named z.nodes m.name) (to_list z.root) ≡ 0) (sym at) fresh) in
      let (table, held_more) = hm_insert-IsMap z.hmap key v.table in
      (
        record {
          even = put.ordered.even;
          sorted = put.ordered.sorted;
          each = put.ordered.each;
          distinct = put.ordered.distinct;
          table = table;
          agree = λ q. omega (
            arith,
            held_more q,
            v.agree q,
            put.counts (λ m a. q (record { hcode = m.hcode; item = a })),
            ap (λ m. to_nat (q (record { hcode = m.hcode; item = z.next }))) at,
          );
        },
        λ p. put.counts (λ m _. p m) ∙ ap (λ m. members p z + to_nat (p m)) at,
      )

  abbrev with_score : ZNode D → D → ZNode D
  with_score zn score = record zn { score = score }

  -- The node after `zset_update`, which leaves a score that is equal to the new one.
  abbrev pub rescored : ZNode D → D → ZNode D
  rescored zn score = if f.equal zn.score score then zn else with_score zn score

  pub Taken-IsOrdered :
      (z : ZSet D) (addr : ℕ)
      → IsZSet z
      → Taken z.nodes z.root addr (tree_delete z.root addr)
      → IsOrdered z.nodes (tree_delete z.root addr) z.next
  Taken-IsOrdered z addr v t = record {
    even = t.even;
    sorted = t.sorted;
    each = t.all (IsMember z.nodes z.next) v.each;
    distinct = λ name. omega (arith, v.distinct name, t.counts (is_named z.nodes name));
  }

  -- After the removal no member has the name.
  Taken-fresh :
      (z : ZSet D) (addr : ℕ)
      → IsZSet z
      → Taken z.nodes z.root addr (tree_delete z.root addr)
      → count (is_named z.nodes (z.nodes addr).name) (to_list (tree_delete z.root addr)) ≡ 0
  Taken-fresh z addr v t =
      let name = (z.nodes addr).name in
      omega
        (arith, v.distinct name, t.counts (is_named z.nodes name), ap to_nat (bytes_eq_refl name))

  moved-IsZSet :
      (z : ZSet D) (addr : ℕ) (score : D)
      → IsZSet z
      → occurs addr z ≡ 1
      → f.is_nan score ≡ false
      → let z' =
          tree_insert
            (record z {
              root = tree_delete z.root addr;
              nodes = write_node z.nodes addr (with_score (z.nodes addr) score);
            })
            addr in
        IsZSet z'
        × ((p : ZNode D → Bool)
            → members p z' + to_nat (p (z.nodes addr))
              ≡ members p z + to_nat (p (with_score (z.nodes addr) score)))
  unfolding tree_insert
  moved-IsZSet z addr score v once n =
      let zn = with_score (z.nodes addr) score in
      let memory = write_node z.nodes addr zn in
      let at : memory addr ≡ zn = write_node_at z.nodes addr zn in
      let t = tree_delete-Taken z.nodes z.root addr v.even v.sorted once in
      let rest = to_list (tree_delete z.root addr) in
      let z1 : ZSet D = record z { root = tree_delete z.root addr; nodes = memory } in
      let member =
        All_at (IsMember z.nodes z.next) addr (to_list z.root) (omega (arith, once)) v.each in
      let put =
        tree_insert-Put z.nodes z.next z1 addr (Taken-IsOrdered z addr v t) (omega arith)
          (write_node-Agrees z.nodes addr zn rest (
            All_mapped (λ a. (a == addr) ≡ false) (λ a. (addr == a) ≡ false) rest
              (λ a e. turned a addr e) t.others))
          (
            member.0,
            subst (λ m. m.hcode ≡ str_hash m.name) (sym at) member.1,
            subst (λ m. f.is_nan m.score ≡ false) (sym at) n,
          )
          (subst (λ m. count (is_named z.nodes m.name) rest ≡ 0) (sym at)
            (Taken-fresh z addr v t)) in
      (
        record {
          even = put.ordered.even;
          sorted = put.ordered.sorted;
          each = put.ordered.each;
          distinct = put.ordered.distinct;
          table = v.table;
          agree = λ q. omega (
            arith,
            v.agree q,
            t.counts (λ a. q (hnode_of z.nodes a)),
            put.counts (λ m a. q (record { hcode = m.hcode; item = a })),
            ap (λ m. to_nat (q (record { hcode = m.hcode; item = addr }))) at,
          );
        },
        λ p. omega (
          arith,
          t.counts (λ a. p (z.nodes a)),
          put.counts (λ m _. p m),
          ap (λ m. to_nat (p m)) at,
        ),
      )

  -- A change of a member's score: the set stays valid, and in place of the member's node it holds the
  -- one with the new score.
  pub zset_update-IsZSet :
      (z : ZSet D) (addr : ℕ) (score : D)
      → IsZSet z
      → occurs addr z ≡ 1
      → f.is_nan score ≡ false
      → IsZSet (zset_update z addr score)
        × ((p : ZNode D → Bool)
            → members p (zset_update z addr score) + to_nat (p (z.nodes addr))
              ≡ members p z + to_nat (p (rescored (z.nodes addr) score)))
  unfolding zset_update
  zset_update-IsZSet z addr score v once n =
      elim (Bool-cases (f.equal (z.nodes addr).score score)) [
        | inl same ↦ rw same (v, λ p. refl)
        | inr other ↦ rw other (moved-IsZSet z addr score v once n)
      ]

  members_same :
      (p : ZNode D → Bool) (z z1 : ZSet D)
      → z1.root ≡ z.root
      → z1.nodes ≡ z.nodes
      → members p z1 ≡ members p z
  members_same p z z1 e g = ap₂ (λ root nodes. count (λ a. p (nodes a)) (to_list root)) e g

  -- The outcome of an insertion: a new node, or a new score for the member of the name.
  abbrev pub Stored : ZSet D → Bytes → D → ZSet D → Bool → Type 0
  Stored z name score z' true =
      (named name z ≡ 0)
      × ((p : ZNode D → Bool) → members p z' ≡ members p z + to_nat (p (new_node name score)))
  Stored z name score z' false =
      (addr : ℕ) × (occurs addr z ≡ 1)
      × ((z.nodes addr).name ≡ name)
      × ((p : ZNode D → Bool)
          → members p z' + to_nat (p (z.nodes addr))
            ≡ members p z + to_nat (p (rescored (z.nodes addr) score)))

  insert_found-IsZSet :
      (z z1 : ZSet D) (name : Bytes) (score : D) (o : Option ℕ)
      → IsZSet z1
      → z1.root ≡ z.root
      → z1.nodes ≡ z.nodes
      → LookedUp z name o
      → f.is_nan score ≡ false
      → let (z', added) = insert_found z1 name score o in IsZSet z' × Stored z name score z' added
  insert_found-IsZSet z z1 name score none v e g h n =
      let (valid, more) =
        add_node-IsZSet z1 name score v
          (ap₂ (λ root nodes. count (is_named nodes name) (to_list root)) e g ∙ h) n in
      (
        valid,
        (h, λ p. more p ∙ ap (λ k. k + to_nat (p (new_node name score))) (members_same p z z1 e g)),
      )
  insert_found-IsZSet z z1 name score (some addr) v e g h n =
      let (valid, more) =
        zset_update-IsZSet z1 addr score v
          (ap (λ root. count (λ a. a == addr) (to_list root)) e ∙ h.0) n in
      (
        valid,
        (
          addr,
          h.0,
          h.1,
          λ p.
              ap (λ nodes. members p (zset_update z1 addr score) + to_nat (p (nodes addr))) (sym g)
              ∙ more p
              ∙ ap₂ (λ k nodes. k + to_nat (p (rescored (nodes addr) score)))
                  (members_same p z z1 e g) g,
        ),
      )

  -- An insertion of a score that is not NaN keeps a set valid. It reports true and adds a node if
  -- no member had the name; otherwise it reports false and the member of the name gets the score,
  -- unless its own is equal to it.
  pub zset_insert-IsZSet :
      (z : ZSet D) (name : Bytes) (score : D)
      → IsZSet z
      → f.is_nan score ≡ false
      → let (z', added) = zset_insert z name score in IsZSet z' × Stored z name score z' added
  unfolding zset_insert
  zset_insert-IsZSet z name score v n =
      let (valid, e, g, _, found) = zset_lookup-LookedUp z name v in
      insert_found-IsZSet z (zset_lookup z name).0 name score (zset_lookup z name).1 valid e g found
        n

  pub empty_zset-IsZSet : IsZSet (empty_zset {D = D})
  unfolding count
  empty_zset-IsZSet = record {
    even = tt;
    sorted = tt;
    each = tt;
    distinct = λ name. omega arith;
    table = empty_map-IsMap;
    agree = λ q. held-empty_map q;
  }
