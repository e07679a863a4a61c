-- ===== src/ZSet/Members.antt =====
-- What a sorted set is, and the lookup of a member (src/zset.cpp: `zset_lookup`).
use apex_db.Prelude.{
  All_mapped, All_always, ℕ, ◌≤◌, ◌<◌, ◌≡◌, refl, ◌∙◌, ap, Bool, true, false, ◌&&◌, Bool-cases, inl,
  inr, Option, none, some, arith, All, ◌==◌, ==_iff, ==_refl,
}
use apex_db.Bytes.{Bytes, bytes_eq, bytes_eq_sound, bytes_eq_refl}
use apex_db.Sharding.{str_hash}
use apex_db.Floats.{Floats}
use apex_db.HashTable.{HNode, matches, hm_lookup}
use apex_db.HashTable.Chains.{count}
use apex_db.HashTable.Rehash.{held, IsMap}
use apex_db.HashTable.Maps.{Found, hm_lookup-Found}
use apex_db.Avl.{Tree, leaf, node}
use apex_db.Avl.Balance.{IsAvl}
use apex_db.Avl.Order.{to_list}
use apex_db.ZSet.{ZNode, ZSet, hcmp, zset_lookup, node_item}
use apex_db.ZSet.Order.{IsSorted}
use apex_db.ZSet.Remove.{count_implied, count_two}

pub and_left : (a b : Bool) → (a && b) ≡ true → a ≡ true
and_left true b h = refl
and_left false b h = cc

pub and_right : (a b : Bool) → (a && b) ≡ true → b ≡ true
and_right true b h = h
and_right false b h = cc

module _ {D : Type 0} where
  -- The node of the hash table in a node of the set.
  abbrev pub hnode_of : (ℕ → ZNode D) → ℕ → HNode ℕ
  hnode_of nodes a = record { hcode = (nodes a).hcode; item = a }

  abbrev pub is_named : (ℕ → ZNode D) → Bytes → ℕ → Bool
  is_named nodes name a = bytes_eq (nodes a).name name

  -- How many members a test of nodes holds for.
  abbrev pub members : (ZNode D → Bool) → ZSet D → ℕ
  members p z = count (λ a. p (z.nodes a)) (to_list z.root)

  abbrev pub named : Bytes → ZSet D → ℕ
  named name z = count (is_named z.nodes name) (to_list z.root)

  abbrev pub occurs : ℕ → ZSet D → ℕ
  occurs addr z = count (λ a. a == addr) (to_list z.root)

module _ {D : Type 0} ⦃f : Floats D⦄ where
  abbrev pub IsMember : (ℕ → ZNode D) → ℕ → ℕ → Type 0
  IsMember nodes next a =
      (a < next) × ((nodes a).hcode ≡ str_hash (nodes a).name) × (f.is_nan (nodes a).score ≡ false)

  -- The tree is balanced and sorted, names do not repeat, and the hash table has the same nodes.
  pub record IsZSet (z : ZSet D) : Type 0 where
    pub even : IsAvl z.root
    pub sorted : IsSorted z.nodes (to_list z.root)
    pub each : All (IsMember z.nodes z.next) (to_list z.root)
    pub distinct : (name : Bytes) → named name z ≤ 1
    pub table : IsMap z.hmap
    pub agree :
        (q : HNode ℕ → Bool) → held q z.hmap ≡ count (λ a. q (hnode_of z.nodes a)) (to_list z.root)

  name_at :
      (nodes : ℕ → ZNode D) (addr a : ℕ)
      → (a == addr) ≡ true
      → is_named nodes (nodes addr).name a ≡ true
  name_at nodes addr a e =
      ap (λ b. bytes_eq (nodes b).name (nodes addr).name) ((==_iff a addr).0 e)
      ∙ bytes_eq_refl (nodes addr).name

  pub occurs_once : (z : ZSet D) (addr : ℕ) → IsZSet z → 1 ≤ occurs addr z → occurs addr z ≡ 1
  occurs_once z addr v h = omega (
    arith,
    v.distinct (z.nodes addr).name,
    count_implied (λ a. a == addr) (is_named z.nodes (z.nodes addr).name) (to_list z.root)
        (All_always _ (to_list z.root) (name_at z.nodes addr)),
  )

  -- Two members of one name are one.
  pub same_member :
      (z : ZSet D) (a b : ℕ)
      → IsZSet z
      → 1 ≤ occurs a z
      → 1 ≤ occurs b z
      → (z.nodes a).name ≡ (z.nodes b).name
      → a ≡ b
  same_member z a b v h k e = elim (Bool-cases (a == b)) [
    | inl same ↦ (==_iff a b).0 same
    | inr other ↦ absurd (
        omega (
          arith,
          v.distinct (z.nodes b).name,
          count_two (is_named z.nodes (z.nodes b).name) a b (to_list z.root)
              (ap (λ n. bytes_eq n (z.nodes b).name) e ∙ bytes_eq_refl (z.nodes b).name)
              (bytes_eq_refl (z.nodes b).name) other,
        ))
  ]

  -- A member of the name is what the table's search matches.
  matches_name :
      (z : ZSet D) (name : Bytes) (a : ℕ)
      → IsMember z.nodes z.next a
      → is_named z.nodes name a ≡ true
      → matches (str_hash name) (hcmp z name) (hnode_of z.nodes a) ≡ true
  matches_name z name a v h =
      let e : (z.nodes a).hcode ≡ str_hash name =
        v.1 ∙ ap str_hash (bytes_eq_sound (z.nodes a).name name h) in
      rw (e, ==_refl (str_hash name), h) refl

  -- The result of a lookup: no member has the name, or this one has it.
  abbrev pub LookedUp : ZSet D → Bytes → Option ℕ → Type 0
  LookedUp z name none = named name z ≡ 0
  LookedUp z name (some addr) = (occurs addr z ≡ 1) × ((z.nodes addr).name ≡ name)

  Found-LookedUp :
      (z : ZSet D) (name : Bytes) (o : Option (HNode ℕ))
      → IsZSet z
      → Found (matches (str_hash name) (hcmp z name)) z.hmap o
      → LookedUp z name (node_item o)
  Found-LookedUp z name none v h = omega (
    arith,
    h,
    v.agree (matches (str_hash name) (hcmp z name)),
    count_implied (is_named z.nodes name)
        (λ a. matches (str_hash name) (hcmp z name) (hnode_of z.nodes a)) (to_list z.root)
        (All_mapped (IsMember z.nodes z.next)
          (λ a.
            is_named z.nodes name a ≡ true
            → matches (str_hash name) (hcmp z name) (hnode_of z.nodes a) ≡ true)
          (to_list z.root) (λ a w e. matches_name z name a w e) v.each),
  )
  Found-LookedUp z name (some n) v h = (
    occurs_once z n.item v (
        omega
          (arith, h.1 (λ m. m.item == n.item) (==_refl n.item), v.agree (λ m. m.item == n.item))),
    bytes_eq_sound (z.nodes n.item).name name (and_right (n.hcode == str_hash name) _ h.0),
  )

  lookup_at :
      (z : ZSet D) (name : Bytes) (t : Tree ℕ)
      → z.root ≡ t
      → IsZSet z
      → let (hmap, found) = hm_lookup z.hmap (str_hash name) (hcmp z name) in
        let r : ZSet D × Option ℕ = elim t [
          | leaf ↦ (z, none)
          | node _ _ _ _ _ ↦ (record z { hmap = hmap }, node_item found)
        ] in
        IsZSet r.0
        × (r.0.root ≡ z.root)
        × (r.0.nodes ≡ z.nodes)
        × (r.0.next ≡ z.next)
        × LookedUp z name r.1
  unfolding count
  lookup_at z name leaf e v =
      (v, refl, refl, refl, ap (λ t. count (is_named z.nodes name) (to_list t)) e)
  lookup_at z name (node _ _ _ _ _) e v =
      let (table, kept, found) = hm_lookup-Found z.hmap (str_hash name) (hcmp z name) v.table in
      (
        record {
          even = v.even;
          sorted = v.sorted;
          each = v.each;
          distinct = v.distinct;
          table = table;
          agree = λ q. kept q ∙ v.agree q;
        },
        refl,
        refl,
        refl,
        Found-LookedUp z name _ v found,
      )

  -- A lookup in a valid set changes only the state of the table, keeps the set valid and finds
  -- the member of the name if there is one.
  pub zset_lookup-LookedUp :
      (z : ZSet D) (name : Bytes)
      → IsZSet z
      → let (z', found) = zset_lookup z name in
        IsZSet z'
        × (z'.root ≡ z.root)
        × (z'.nodes ≡ z.nodes)
        × (z'.next ≡ z.next)
        × LookedUp z name found
  unfolding zset_lookup
  zset_lookup-LookedUp z name v = lookup_at z name z.root refl v
