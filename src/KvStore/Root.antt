-- ===== src/KvStore/Root.antt =====
-- One round of `process_timers` (src/kv_store.cpp): the entry at the root of the heap is removed.
use apex_db.Prelude.{
  ℕ, ◌+◌, ◌-◌, ◌≤◌, ◌<◌, ◌≡◌, refl, sym, ◌∙◌, ap, subst, true, not, ◌&&◌, ◌||◌, Option, none, some,
  arith, ltb, leb, ◌==◌, ==_refl, if◌then◌else◌, length, Bool-cases, Option-cases, inl, inr, negsuc,
}
use apex_db.Bytes.{Bytes, bytes_eq, bytes_eq_iff, bytes_eq_refl}
use apex_db.Sharding.{str_hash}
use apex_db.Floats.{Floats}
use apex_db.HashTable.{HNode, matches, hm_delete, hm_size}
use apex_db.HashTable.Chains.{to_nat}
use apex_db.HashTable.Rehash.{held}
use apex_db.HashTable.Maps.{Removed, hm_delete-Removed}
use apex_db.HashTable.Counts.{held_cover, held_mono}
use apex_db.Heap.{Heap, at}
use apex_db.Heap.Places.{stored}
use apex_db.Ttl.{entry_set_ttl}
use apex_db.Ttl.Delete.{heap_delete-Deleted}
use apex_db.Ttl.Entries.{IsTracked}
use apex_db.KvStore.{k_large_container_size, is_zset, Store, Entry, entry_del, set_ttl}
use apex_db.KvStore.Execute.{is_due, expire_first}
use apex_db.KvStore.Invariant.{
  Value, IsValid, has_key, is_at, Bound, view, view-Bound, value_of, Updated,
}
use apex_db.KvStore.Bindings.{entry_del_lem}

clear-length :
    (h : Heap) (ent : ℕ)
    → IsTracked h
    → 0 < length h.items
    → (at h.items 0).ref ≡ ent
    → length (entry_set_ttl h ent (negsuc 0) 0).items ≡ length h.items - 1
unfolding entry_set_ttl
clear-length h ent k p e =
    let place : h.refs ent ≡ 0 = ap h.refs (sym e) ∙ k.valid.indexed 0 p in
    rw (place) (heap_delete-Deleted h 0 k.valid p).size

codes_agree : (a b c : ℕ) → 1 ≤ to_nat (((a == b) && true) || not (a == c)) + to_nat (not (b == c))
codes_agree a b c = ground arith

module _ {D : Type 0} ⦃f : Floats D⦄ where
  -- What is left of a binding at a time: nothing, once its deadline has come.
  abbrev pub alive : ℕ → Option (Value D × Option ℕ) → Option (Value D × Option ℕ)
  alive now none = none
  alive now (some (x, none)) = some (x, none)
  alive now (some (x, some t)) = if leb t now then none else some (x, some t)

  root : Store D → ℕ
  root s = (at s.heap.items 0).ref

  root-stored :
      (s : Store D)
      → IsValid s
      → 0 < length s.heap.items
      → stored s.heap (root s) ≡ some (at s.heap.items 0).val
  unfolding stored root
  root-stored s v p = ground (arith, v.tracked.valid.indexed 0 p)

  root-held : (s : Store D) → IsValid s → 0 < length s.heap.items → 1 ≤ held (is_at (root s)) s.db
  root-held s v p = v.live (root s) (λ e. let r = root-stored s v p in cc)

  same_code :
      (entries : ℕ → Entry D) (r : ℕ) (n : HNode ℕ)
      → to_nat (is_at r n)
        ≤ to_nat (
            ((n.hcode == (entries r).hcode) && (n.item == r))
            || not (n.hcode == str_hash (entries n.item).key))
          + to_nat (not ((entries n.item).hcode == str_hash (entries n.item).key))
  same_code entries r n = elim (Bool-cases (n.item == r)) [
    | inr e ↦ rw e (omega arith)
    | inl e ↦
        let same : n.item ≡ r = ground arith in
        rw (same, ==_refl r) (codes_agree n.hcode (entries r).hcode (str_hash (entries r).key))
  ]

  own_key :
      (s : Store D) (r : ℕ) (n : HNode ℕ)
      → to_nat (is_at r n) ≤ to_nat (is_at r n && has_key s (s.entries r).key n)
  own_key s r n = elim (Bool-cases (n.item == r)) [
    | inr e ↦ rw e (omega arith)
    | inl e ↦
        let same : n.item ≡ r = ground arith in
        rw (same, ==_refl r, bytes_eq_refl (s.entries r).key) (omega arith)
  ]

  -- The entry at the root is in the table under its code.
  root-found :
      (s : Store D)
      → IsValid s
      → 0 < length s.heap.items
      → 1 ≤ held (matches (s.entries (root s)).hcode (λ a. a == root s)) s.db
  root-found s v p =
      let r = root s in
      let q = matches (s.entries r).hcode (λ a. a == r) in
      let stray = λ (n : HNode ℕ). not (n.hcode == str_hash (s.entries n.item).key) in
      let astray =
        λ (n : HNode ℕ). not ((s.entries n.item).hcode == str_hash (s.entries n.item).key) in
      omega (
        arith,
        v.coded,
        v.entry_coded,
        root-held s v p,
        held_cover s.db (λ n. q n || stray n) astray (is_at r) (λ n. same_code s.entries r n),
        held_cover s.db q stray (λ n. q n || stray n) (λ n. ground arith),
      )

  expire_first-Updated :
      (s : Store D)
      → IsValid s
      → 0 < length s.heap.items
      → Updated s (s.entries (root s)).key none (expire_first s)
  unfolding expire_first root
  expire_first-Updated s v p =
      let ent = root s in
      let q = matches (s.entries ent).hcode (λ a. a == ent) in
      let db = (hm_delete s.db (s.entries ent).hcode (λ a. a == ent)).0 in
      let (m, removed) = hm_delete-Removed s.db (s.entries ent).hcode (λ a. a == ent) v.map in
      elim (Option-cases (hm_delete s.db (s.entries ent).hcode (λ a. a == ent)).1) [
        | inl e ↦
            let (none_left, _) = subst (Removed q s.db db) e removed in
            absurd (omega (arith, none_left, root-found s v p))
        | inr (node, e) ↦
            let (found, gone) = subst (Removed q s.db db) e removed in
            let here : node.item ≡ ent = ground arith in
            let own : has_key s (s.entries ent).key node ≡ true =
              rw here (bytes_eq_refl (s.entries ent).key) in
            subst (λ a. Updated s (s.entries ent).key none (entry_del (record s { db = db }) a))
              here (entry_del_lem s (s.entries ent).key node db v own m gone)
      ]

  entry_del-heap :
      (s : Store D) (a : ℕ) → (entry_del s a).heap ≡ entry_set_ttl s.heap a (negsuc 0) 0
  unfolding entry_del set_ttl
  entry_del-heap s a =
      let e = s.entries a in
      elim (Bool-cases
        (ltb k_large_container_size (if is_zset e.type then hm_size e.zset.hmap else 0))) [
          | inl large ↦ rw large refl
          | inr small ↦ rw small refl
        ]

  expire_first-length :
      (s : Store D)
      → IsValid s
      → 0 < length s.heap.items
      → length (expire_first s).heap.items ≡ length s.heap.items - 1
  unfolding expire_first root
  expire_first-length s v p =
      rw
        (entry_del-heap
          (record s { db = (hm_delete s.db (s.entries (root s)).hcode (λ a. a == root s)).0 })
          (root s))
        (clear-length s.heap (root s) v.tracked p refl)

  -- What an expiry at a time leaves: a valid store, in which what is alive is bound as before.
  pub record Swept (now : ℕ) (s s' : Store D) : Type 0 where
    pub valid : IsValid s'
    pub reads : (k : Bytes) → alive now (view s' k) ≡ alive now (view s k)
    pub shorter : length s'.heap.items ≤ length s.heap.items

  pub Swept-same : (now : ℕ) (s : Store D) → IsValid s → Swept now s s
  Swept-same now s v = record { valid = v; reads = λ k. refl; shorter = omega arith }

  pub Swept-twice :
      (now : ℕ) (s s' s'' : Store D) → Swept now s s' → Swept now s' s'' → Swept now s s''
  Swept-twice now s s' s'' a b = record {
    valid = b.valid;
    reads = λ k. b.reads k ∙ a.reads k;
    shorter = omega (arith, a.shorter, b.shorter);
  }

  root-Bound :
      (s : Store D)
      → IsValid s
      → 0 < length s.heap.items
      → Bound s (s.entries (root s)).key (root s)
  root-Bound s v p =
      let key = (s.entries (root s)).key in
      omega (
        arith,
        root-held s v p,
        held_mono s.db (is_at (root s)) (λ n. is_at (root s) n && has_key s key n)
            (λ n. own_key s (root s) n),
      )

  expire_first-reads :
      (now : ℕ) (s : Store D) (k : Bytes)
      → IsValid s
      → 0 < length s.heap.items
      → is_due s now ≡ true
      → alive now (view (expire_first s) k) ≡ alive now (view s k)
  expire_first-reads now s k v p due =
      let u = expire_first-Updated s v p in
      let key = (s.entries (root s)).key in
      elim (Bool-cases (bytes_eq key k)) [
        | inr other ↦ ap (alive now) (u.reads k ∙ rw other refl)
        | inl e ↦
            let same : key ≡ k = (bytes_eq_iff key k).0 e in
            let late : leb (at s.heap.items 0).val now ≡ true = ground arith in
            let before : view s k
                ≡ some (value_of (s.entries (root s)), some (at s.heap.items 0).val) =
              ap (view s) (sym same)
              ∙ view-Bound s key (root s) v (root-Bound s v p)
              ∙ rw (root-stored s v p) refl in
            let after : view (expire_first s) k ≡ none = u.reads k ∙ rw e refl in
            rw (before, late, after) refl
      ]

  -- A round takes the key at the root, whose deadline has come.
  pub expire_first-Swept :
      (now : ℕ) (s : Store D)
      → IsValid s
      → is_due s now ≡ true
      → Swept now s (expire_first s) × (length (expire_first s).heap.items < length s.heap.items)
  expire_first-Swept now s v due =
      let p : 0 < length s.heap.items = ground arith in
      let u = expire_first-Updated s v p in
      let size = expire_first-length s v p in
      (
        record {
          valid = u.valid;
          reads = λ k. expire_first-reads now s k v p due;
          shorter = omega (arith, size);
        },
        omega (arith, size),
      )
