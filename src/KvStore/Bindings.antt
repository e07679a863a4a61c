-- ===== src/KvStore/Bindings.antt =====
-- Lookups, deletions and deadlines, as changes of the bindings of keys (src/kv_store.cpp).
use apex_db.Prelude.{
  ℕ, ◌+◌, ◌≡◌, refl, sym, ◌∙◌, ap, subst, Bool, true, false, not, ◌&&◌, Option, none, some, List,
  [], ◌∷◌, ◌++◌, arith, ltb, ◌==◌, ==_refl, if◌then◌else◌, Bool-cases, Option-cases, inl, inr,
  negsuc,
}
use apex_db.Bytes.{Bytes, bytes_eq, bytes_eq_iff}
use apex_db.Sharding.{str_hash}
use apex_db.Floats.{Floats}
use apex_db.ZSet.{node_item}
use apex_db.HashTable.{HNode, HMap, matches, hm_delete, hm_size}
use apex_db.HashTable.Chains.{to_nat}
use apex_db.HashTable.Rehash.{held, IsMap}
use apex_db.HashTable.Maps.{Removed, hm_delete-Removed}
use apex_db.HashTable.Counts.{held_cover}
use apex_db.Heap.Places.{stored}
use apex_db.Ttl.{entry_set_ttl}
use apex_db.Ttl.Entries.{entry_clear_ttl}
use apex_db.KvStore.{
  Store, Entry, is_str, is_zset, k_large_container_size, entry_eq, find_entry, set_ttl, take_entry,
  entry_del,
}
use apex_db.KvStore.Invariant.{
  is_at, view-none, Value, text, members, IsValid, has_key, Bound, view, bound_to, value_of,
  Updated, Unchanged,
}
use apex_db.KvStore.Updates.{same_db, Located, find_entry_lem, set_ttl_lem}
use apex_db.KvStore.Removal.{remove_lem, to_nat_both}

module _ {D : Type 0} ⦃f : Floats D⦄ where
  -- What a lookup by key says: either the key is unbound, or it is bound to an entry.
  pub data Lookup (s : Store D) (k : Bytes) : Type 0 where
    missed :
        Unchanged s (find_entry s k).0
        → (find_entry s k).1 ≡ none
        → held (has_key (find_entry s k).0 k) (find_entry s k).0.db ≡ 0
        → view s k ≡ none
        → Lookup s k
    hit :
        (a : ℕ)
        → Unchanged s (find_entry s k).0
        → (find_entry s k).1 ≡ some a
        → Bound (find_entry s k).0 k a
        → view s k
          ≡ some (value_of ((find_entry s k).0.entries a), stored (find_entry s k).0.heap a)
        → Lookup s k

  pub Lookup-cases : (s : Store D) (k : Bytes) → IsValid s → Lookup s k
  Lookup-cases s k v =
      let (u, located, reads) = find_entry_lem s k v in
      elim (Option-cases (find_entry s k).1) [
        | inl e ↦
            missed u e (subst (Located (find_entry s k).0 k) e located)
              (reads ∙ ap (bound_to (find_entry s k).0) e)
        | inr (a, e) ↦
            hit a u e (subst (Located (find_entry s k).0 k) e located)
              (reads ∙ ap (bound_to (find_entry s k).0) e)
      ]

  pub then-Updated :
      (s s' s'' : Store D) (k : Bytes) (v : Option (Value D × Option ℕ))
      → Unchanged s s'
      → Updated s' k v s''
      → Updated s k v s''
  then-Updated s s' s'' k v u w = record {
    valid = w.valid;
    reads = λ k'. rw (sym (u.reads k')) (w.reads k');
  }

  pub Updated-twice :
      (s s' s'' : Store D) (k : Bytes) (v v' : Option (Value D × Option ℕ))
      → Updated s k v s'
      → Updated s' k v' s''
      → Updated s k v' s''
  Updated-twice s s' s'' k v v' u w = record {
    valid = w.valid;
    reads = λ k'. elim (Bool-cases (bytes_eq k k')) [
      | inl e ↦ rw e (w.reads k' ∙ rw e refl)
      | inr e ↦ rw e (w.reads k' ∙ rw e (u.reads k' ∙ rw e refl))
    ];
  }

  pub still-Updated :
      (s s' : Store D) (k : Bytes) (v : Option (Value D × Option ℕ))
      → view s k ≡ v
      → Unchanged s s'
      → Updated s k v s'
  still-Updated s s' k v e u = record {
    valid = u.valid;
    reads = λ k'. elim (Bool-cases (bytes_eq k k')) [
      | inl same ↦ rw same (u.reads k' ∙ ap (view s) (sym ((bytes_eq_iff k k').0 same)) ∙ e)
      | inr other ↦ rw other (u.reads k')
    ];
  }

  -- Clearing the deadline of an entry.
  pub clear_lem :
      (s : Store D) (k : Bytes) (a : ℕ) (v : Value D)
      → IsValid s
      → Bound s k a
      → value_of (s.entries a) ≡ v
      → Updated s k (some (v, none)) (set_ttl s a (negsuc 0) 0)
  clear_lem s k a w v b e =
      let (tracked, reads) = entry_clear_ttl s.heap a 0 0 v.tracked in
      rw (sym e) (set_ttl_lem s k a (negsuc 0) 0 v b tracked reads)

  pub text_value : (e : Entry D) → is_str e.type ≡ true → value_of e ≡ text e.str
  text_value e h = rw h refl

  pub members_value : (e : Entry D) → is_str e.type ≡ false → value_of e ≡ members e.zset
  members_value e h = rw h refl

  -- An entry that leaves the table is given to the thread pool or deleted, and its deadline goes.
  pub entry_del_lem :
      (s : Store D) (k : Bytes) (node : HNode ℕ) (db : HMap ℕ)
      → IsValid s
      → has_key s k node ≡ true
      → IsMap db
      → ((r : HNode ℕ → Bool) → held r db + to_nat (r node) ≡ held r s.db)
      → Updated s k none (entry_del (record s { db = db }) node.item)
  unfolding entry_del set_ttl
  entry_del_lem s k node db v own m taken =
      let (tracked, reads) = entry_clear_ttl s.heap node.item 0 0 v.tracked in
      let gone = λ (queued disposed : List ℕ).
        remove_lem s k node db (entry_set_ttl s.heap node.item (negsuc 0) 0) queued disposed v own m
          taken tracked reads in
      let e = s.entries node.item in
      elim (Bool-cases
        (ltb k_large_container_size (if is_zset e.type then hm_size e.zset.hmap else 0))) [
          | inl large ↦ rw large (gone (s.queued ++ node.item ∷ []) s.disposed)
          | inr small ↦ rw small (gone s.queued (s.disposed ++ node.item ∷ []))
        ]

  take_unbound :
      (s : Store D) (k : Bytes) (db : HMap ℕ)
      → IsValid s
      → held (matches (str_hash k) (entry_eq s k)) s.db ≡ 0
      → held (has_key s k) s.db ≡ 0
  take_unbound s k db v empty = omega (
    arith,
    empty,
    v.coded,
    held_cover s.db (matches (str_hash k) (entry_eq s k))
        (λ n. not (n.hcode == str_hash (s.entries n.item).key)) (has_key s k)
        (λ n. ground (arith, bytes_eq_iff (s.entries n.item).key k)),
  )

  Bound-taken :
      (s : Store D) (k : Bytes) (node : HNode ℕ) (db : HMap ℕ)
      → has_key s k node ≡ true
      → ((r : HNode ℕ → Bool) → held r db + to_nat (r node) ≡ held r s.db)
      → Bound s k node.item
  Bound-taken s k node db own taken = omega (
    arith,
    taken (λ n. is_at node.item n && has_key s k n),
    to_nat_both (node.item == node.item) (has_key s k node) (==_refl node.item) own,
  )

  -- `hm_delete` by key: the key is not bound, or the entry that it is bound to leaves the table.
  pub data Taken (s : Store D) (k : Bytes) : Type 0 where
    kept : Unchanged s (take_entry s k).0 → (take_entry s k).1 ≡ none → view s k ≡ none → Taken s k
    taken :
        (a : ℕ)
        → Updated s k none (entry_del (take_entry s k).0 a)
        → (take_entry s k).1 ≡ some a
        → Bound s k a
        → Taken s k

  pub take_entry_lem : (s : Store D) (k : Bytes) → IsValid s → Taken s k
  unfolding take_entry
  take_entry_lem s k v =
      let q = matches (str_hash k) (entry_eq s k) in
      let db = (hm_delete s.db (str_hash k) (entry_eq s k)).0 in
      let (m, removed) = hm_delete-Removed s.db (str_hash k) (entry_eq s k) v.map in
      elim (Option-cases (hm_delete s.db (str_hash k) (entry_eq s k)).1) [
        | inl e ↦
            let (none_left, same) = subst (Removed q s.db db) e removed in
            kept (same_db s db v m same) (ap node_item e)
              (view-none s k v (take_unbound s k db v none_left))
        | inr (node, e) ↦
            let (found, gone) = subst (Removed q s.db db) e removed in
            let own : has_key s k node ≡ true = ground arith in
            taken node.item (entry_del_lem s k node db v own m gone) (ap node_item e)
              (Bound-taken s k node db own gone)
      ]
