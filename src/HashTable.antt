-- ===== src/HashTable.antt =====
-- The hash table with progressive rehashing (src/hashtable.cpp, include/hashtable.hpp). The table is
-- intrusive: a node is the `HNode` of some item, and chains are lists of nodes.
-- `HNode **from` is a place: the number of a bucket and a position in its chain.
pub mod Chains
pub mod Tables
pub mod Rehash
pub mod Maps
pub mod Foreach
pub mod Counts
use Prim.Native.Nat.{bit_and}
use apex_db.Prelude.{
  ℕ, zero, suc, ◌+◌, ◌-◌, ◌*◌, Bool, true, false, ◌&&◌, not, Option, none, some, List, [], ◌∷◌, ltb,
  leb, ◌==◌, if◌then◌else◌, length, get_or, get_elem?, set, replicate,
}

pub record HNode (A : Type 0) : Type 0 where
  pub hcode : ℕ
  pub item : A

-- `tab` is empty where the code has a null pointer; an allocated array has at least one bucket.
pub record HTab (A : Type 0) : Type 0 where
  pub tab : List (List (HNode A))
  pub mask : ℕ
  pub size : ℕ

pub record HMap (A : Type 0) : Type 0 where
  pub newer : HTab A
  pub older : HTab A
  pub migrate_pos : ℕ

abbrev pub k_max_load_factor : ℕ
k_max_load_factor = 8

abbrev pub k_rehashing_work : ℕ
k_rehashing_work = 128

abbrev in_bucket : ℕ → Option ℕ → Option (ℕ × ℕ)
in_bucket p none = none
in_bucket p (some i) = some (p, i)

module _ {A : Type 0} where
  -- `HTab{}`
  abbrev pub no_table : HTab A
  no_table = record { tab = []; mask = 0; size = 0 }

  abbrev pub empty_map : HMap A
  empty_map = record { newer = no_table; older = no_table; migrate_pos = 0 }

  abbrev pub is_null : HTab A → Bool
  is_null t = elim t.tab [ [] ↦ true | _ ∷ _ ↦ false ]

  unfoldable pub h_init : ℕ → HTab A
  h_init n = record { tab = replicate n []; mask = n - 1; size = 0 }

  unfoldable pub h_insert : HTab A → HNode A → HTab A
  h_insert t node =
      let p = bit_and node.hcode t.mask in
      record t { tab = set t.tab p (node ∷ get_or t.tab p []); size = t.size + 1 }

  -- `cur->hcode == key->hcode && eq(cur, key)`
  abbrev pub matches : ℕ → (A → Bool) → HNode A → Bool
  matches hcode eq node = (node.hcode == hcode) && eq node.item

  -- The loop of `h_lookup` along one chain, from position `i` on.
  unfoldable pub chain_find : (HNode A → Bool) → List (HNode A) → ℕ → Option ℕ
  chain_find q [] i = none
  chain_find q (node ∷ c) i = if q node then some i else chain_find q c (suc i)

  unfoldable pub h_lookup : HTab A → ℕ → (A → Bool) → Option (ℕ × ℕ)
  h_lookup t hcode eq =
      let p = bit_and hcode t.mask in
      if is_null t then none else in_bucket p (chain_find (matches hcode eq) (get_or t.tab p []) 0)

  -- `*from`
  unfoldable pub node_at : HTab A → ℕ × ℕ → Option (HNode A)
  node_at t (p, i) = get_elem? (get_or t.tab p []) i

  unfoldable pub remove_at : List (HNode A) → ℕ → List (HNode A)
  remove_at [] i = []
  remove_at (_ ∷ c) zero = c
  remove_at (node ∷ c) (suc i) = node ∷ remove_at c i

  -- The table without the node at the place; the node itself is `node_at`.
  unfoldable pub h_detach : HTab A → ℕ × ℕ → HTab A
  h_detach t (p, i) = record t {
    tab = set t.tab p (remove_at (get_or t.tab p []) i);
    size = t.size - 1;
  }

  -- The loop of `hm_help_rehashing`. Each round does one unit of work or passes one bucket.
  unfoldable pub rehash_loop : ℕ → ℕ → HMap A → HMap A
  rehash_loop zero nwork m = m
  rehash_loop (suc fuel) nwork m =
      let pass = rehash_loop fuel nwork (record m { migrate_pos = m.migrate_pos + 1 }) in
      let move = λ (node : HNode A).
        rehash_loop fuel (nwork + 1) (record m {
          newer = h_insert m.newer node;
          older = h_detach m.older (m.migrate_pos, 0);
        }) in
      let round : HMap A = elim (node_at m.older (m.migrate_pos, 0)) [
        | none ↦ pass
        | some node ↦ move node
      ] in
      if ltb nwork k_rehashing_work && ltb 0 m.older.size then round else m

  -- The end of `hm_help_rehashing`: an emptied table is freed.
  unfoldable pub free_older : HMap A → HMap A
  free_older m =
      if (m.older.size == 0) && not (is_null m.older) then record m { older = no_table } else m

  unfoldable pub hm_help_rehashing : HMap A → HMap A
  hm_help_rehashing m = free_older (rehash_loop (k_rehashing_work + length m.older.tab + 1) 0 m)

  unfoldable pub hm_trigger_rehashing : HMap A → HMap A
  hm_trigger_rehashing m = record {
    newer = h_init ((m.newer.mask + 1) * 2);
    older = m.newer;
    migrate_pos = 0;
  }

  abbrev pub or_else : Option (HNode A) → Option (HNode A) → Option (HNode A)
  or_else none o = o
  or_else (some n) o = some n

  abbrev pub deref : HTab A → Option (ℕ × ℕ) → Option (HNode A)
  deref t none = none
  deref t (some from) = node_at t from

  unfoldable pub hm_lookup : HMap A → ℕ → (A → Bool) → HMap A × Option (HNode A)
  hm_lookup m hcode eq =
      let helped = hm_help_rehashing m in
      (
        helped,
        or_else (deref helped.newer (h_lookup helped.newer hcode eq))
            (deref helped.older (h_lookup helped.older hcode eq)),
      )

  -- `hm_insert` up to the call of `hm_help_rehashing`.
  unfoldable pub insert_newer : HMap A → HNode A → HMap A
  insert_newer m node =
      let allocated = if is_null m.newer then record m { newer = h_init 4 } else m in
      record allocated { newer = h_insert allocated.newer node }

  unfoldable pub grow : HMap A → HMap A
  grow m =
      if is_null m.older && leb ((m.newer.mask + 1) * k_max_load_factor) m.newer.size
      then hm_trigger_rehashing m
      else m

  unfoldable pub hm_insert : HMap A → HNode A → HMap A
  hm_insert m node = hm_help_rehashing (grow (insert_newer m node))

  abbrev delete_older : HMap A → Option (ℕ × ℕ) → HMap A × Option (HNode A)
  delete_older m none = (m, none)
  delete_older m (some from) = (record m { older = h_detach m.older from }, node_at m.older from)

  abbrev delete_newer : HMap A → Option (ℕ × ℕ) → Option (ℕ × ℕ) → HMap A × Option (HNode A)
  delete_newer m none in_older = delete_older m in_older
  delete_newer m (some from) in_older =
      (record m { newer = h_detach m.newer from }, node_at m.newer from)

  unfoldable pub hm_delete : HMap A → ℕ → (A → Bool) → HMap A × Option (HNode A)
  hm_delete m hcode eq =
      let helped = hm_help_rehashing m in
      delete_newer helped (h_lookup helped.newer hcode eq) (h_lookup helped.older hcode eq)

  unfoldable pub hm_clear : HMap A → HMap A
  hm_clear m = empty_map

  unfoldable pub hm_size : HMap A → ℕ
  hm_size m = m.newer.size + m.older.size

module _ {A S : Type 0} where
  -- A callback gets a node and the state behind `arg`; `false` ends the iteration.
  unfoldable pub foreach_chain : (HNode A → S → Bool × S) → List (HNode A) → S → Bool × S
  foreach_chain f [] s = (true, s)
  foreach_chain f (node ∷ c) s =
      let (go_on, s') = f node s in
      let rest = foreach_chain f c s' in if go_on then rest else (false, s')

  unfoldable pub foreach_bucket : (HNode A → S → Bool × S) → List (List (HNode A)) → S → Bool × S
  foreach_bucket f [] s = (true, s)
  foreach_bucket f (c ∷ cs) s =
      let (go_on, s') = foreach_chain f c s in
      let rest = foreach_bucket f cs s' in if go_on then rest else (false, s')

  unfoldable pub h_foreach : HTab A → (HNode A → S → Bool × S) → S → Bool × S
  h_foreach t f s = if t.mask == 0 then (true, s) else foreach_bucket f t.tab s

  unfoldable pub hm_foreach : HMap A → (HNode A → S → Bool × S) → S → S
  hm_foreach m f s =
      let (go_on, s') = h_foreach m.newer f s in if go_on then (h_foreach m.older f s').1 else s'
