-- ===== src/ZSet.antt =====
-- Sorted sets (src/zset.cpp, include/zset.hpp). A `ZNode` stands in the tree and in the hash table at
-- once; both refer to it by its address, and `nodes` is the memory behind the addresses.
pub mod Names
pub mod Order
pub mod Insert
pub mod Remove
pub mod Members
pub mod Put
pub mod Updates
pub mod Deletion
use apex_db.Prelude.{
  ℕ, suc, Bool, true, false, not, Option, none, some, List, [], ◌∷◌, ltb, ◌==◌, if◌then◌else◌,
  length, ℤ,
}
use apex_db.Bytes.{Bytes, bytes_eq}
use apex_db.Sharding.{str_hash}
use apex_db.Floats.{Floats}
use apex_db.HashTable.{HNode, HMap, empty_map, hm_lookup, hm_insert, hm_delete, hm_clear}
use apex_db.Avl.{
  Tree, leaf, node, Crumb, left_of, right_of, Cursor, avl_init, avl_fix, avl_del, avl_offset,
  locate,
}

pub record ZNode (D : Type 0) : Type 0 where
  pub hcode : ℕ
  pub score : D
  pub name : Bytes

-- `next` is the address that the next `malloc` gives.
pub record ZSet (D : Type 0) : Type 0 where
  pub root : Tree ℕ
  pub hmap : HMap ℕ
  pub nodes : ℕ → ZNode D
  pub next : ℕ

-- The sign of `memcmp`.
pub data Sign : Type 0 where
  before same after : Sign

-- The first `n` bytes, of texts that have as many.
unfoldable pub memcmp : Bytes → Bytes → ℕ → Sign
memcmp (x ∷ xs) (y ∷ ys) (suc n) =
    let rest = memcmp xs ys n in if ltb x y then before else if ltb y x then after else rest
memcmp _ _ _ = same

unfoldable pub min : ℕ → ℕ → ℕ
min lhs rhs = if ltb lhs rhs then lhs else rhs

abbrev delete_located : ℕ → Tree ℕ → Option (Cursor ℕ) → Tree ℕ
delete_located addr root none = root
delete_located addr root (some (t, path)) = avl_del (λ a. a == addr) t path

-- `avl_del(&node->tree)`
unfoldable pub tree_delete : Tree ℕ → ℕ → Tree ℕ
tree_delete root addr = delete_located addr root (locate (λ a. a == addr) root [])

abbrev pub node_item : Option (HNode ℕ) → Option ℕ
node_item none = none
node_item (some n) = some n.item

module _ {D : Type 0} ⦃f : Floats D⦄ where
  -- `ZSet{}`
  abbrev pub empty_zset : ZSet D
  empty_zset = record {
    root = leaf;
    hmap = empty_map;
    nodes = λ _. record { hcode = 0; score = f.zero; name = [] };
    next = 0;
  }

  -- `zless` of a node and a score with a name.
  unfoldable pub zless : ZNode D → D → Bytes → Bool
  unfolding min
  zless zl score name =
      if not (f.equal zl.score score)
      then f.less zl.score score
      else elim (memcmp zl.name name (min (length zl.name) (length name))) [
        | before ↦ true
        | after ↦ false
        | same ↦ ltb (length zl.name) (length name)
      ]

  -- The descent of `tree_insert`: the way up from the empty place where the node goes.
  unfoldable pub insert_path : (ℕ → ZNode D) → ZNode D → Tree ℕ → List (Crumb ℕ) → List (Crumb ℕ)
  insert_path nodes zn leaf path = path
  insert_path nodes zn (node l x h c r) path =
      let go_left = insert_path nodes zn l (left_of x h c r ∷ path) in
      let go_right = insert_path nodes zn r (right_of l x h c ∷ path) in
      if zless zn (nodes x).score (nodes x).name then go_left else go_right

  unfoldable pub tree_insert : ZSet D → ℕ → ZSet D
  tree_insert z addr = record z {
    root = avl_fix (avl_init addr) (insert_path z.nodes (z.nodes addr) z.root []);
  }

  abbrev pub write_node : (ℕ → ZNode D) → ℕ → ZNode D → ℕ → ZNode D
  write_node nodes addr zn = λ a. if addr == a then zn else nodes a

  unfoldable pub zset_update : ZSet D → ℕ → D → ZSet D
  zset_update z addr score =
      if f.equal (z.nodes addr).score score
      then z
      else tree_insert
          (record z {
            root = tree_delete z.root addr;
            nodes = write_node z.nodes addr (record (z.nodes addr) { score = score });
          })
          addr

  -- `hcmp` for a key with the given name.
  abbrev pub hcmp : ZSet D → Bytes → ℕ → Bool
  hcmp z name addr = bytes_eq (z.nodes addr).name name

  -- The lookup may rehash, and so returns the set too.
  unfoldable pub zset_lookup : ZSet D → Bytes → ZSet D × Option ℕ
  zset_lookup z name =
      let (hmap, found) = hm_lookup z.hmap (str_hash name) (hcmp z name) in
      elim z.root [
        | leaf ↦ (z, none)
        | node _ _ _ _ _ ↦ (record z { hmap = hmap }, node_item found)
      ]

  -- `znode_new`, and its insertion into the table and the tree.
  unfoldable pub add_node : ZSet D → Bytes → D → ZSet D
  add_node z name score =
      let zn : ZNode D = record { hcode = str_hash name; score = score; name = name } in
      tree_insert
        (record z {
          hmap = hm_insert z.hmap (record { hcode = str_hash name; item = z.next });
          nodes = write_node z.nodes z.next zn;
          next = suc z.next;
        })
        z.next

  abbrev insert_found : ZSet D → Bytes → D → Option ℕ → ZSet D × Bool
  insert_found z name score none = (add_node z name score, true)
  insert_found z name score (some addr) = (zset_update z addr score, false)

  unfoldable pub zset_insert : ZSet D → Bytes → D → ZSet D × Bool
  zset_insert z name score =
      let (z', found) = zset_lookup z name in insert_found z' name score found

  unfoldable pub zset_delete : ZSet D → ℕ → ZSet D
  zset_delete z addr = record z {
    hmap = (hm_delete z.hmap (z.nodes addr).hcode (hcmp z (z.nodes addr).name)).0;
    root = tree_delete z.root addr;
  }

  -- `zset_clear`; the nodes are freed.
  unfoldable pub zset_clear : ZSet D → ZSet D
  zset_clear z = record z { hmap = hm_clear z.hmap; root = leaf }

  -- The loop of `zset_seekge`; `found` is the last node that was not below the key.
  unfoldable pub seek :
      (ℕ → ZNode D) → D → Bytes → Tree ℕ → List (Crumb ℕ) → Option (Cursor ℕ) → Option (Cursor ℕ)
  seek nodes score name leaf path found = found
  seek nodes score name (node l x h c r) path found =
      let go_right = seek nodes score name r (right_of l x h c ∷ path) found in
      let go_left =
        seek nodes score name l (left_of x h c r ∷ path) (some (node l x h c r, path)) in
      if zless (nodes x) score name then go_right else go_left

  unfoldable pub zset_seekge : ZSet D → D → Bytes → Option (Cursor ℕ)
  zset_seekge z score name = seek z.nodes score name z.root [] none

-- `znode_offset`
unfoldable pub znode_offset : Option (Cursor ℕ) → ℤ → Option (Cursor ℕ)
znode_offset none offset = none
znode_offset (some (t, path)) offset = avl_offset t path offset
