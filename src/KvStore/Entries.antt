-- ===== src/KvStore/Entries.antt =====
-- What `entry_new` with `hm_insert` does to the bindings of keys.
use apex_db.Prelude.{
  ℕ, suc, ◌+◌, ◌≤◌, ◌≡◌, refl, sym, ◌∙◌, Bool, false, not, ◌&&◌, Option, none, some, arith, leb,
  ◌==◌, ==_refl, if◌then◌else◌, Bool-cases, Option-cases, inl, inr,
}
use apex_db.Bytes.{Bytes, bytes_eq, bytes_eq_iff, bytes_eq_refl}
use apex_db.Sharding.{str_hash}
use apex_db.Floats.{Floats}
use apex_db.ZSet.{empty_zset}
use apex_db.HashTable.{HNode, hm_insert}
use apex_db.HashTable.Chains.{to_nat}
use apex_db.HashTable.Rehash.{held}
use apex_db.HashTable.Maps.{hm_insert-IsMap, empty_map-IsMap, held-empty_map}
use apex_db.HashTable.Counts.{held_cover, held_mono}
use apex_db.Heap.{write}
use apex_db.Heap.Places.{stored}
use apex_db.Ttl.{no_place}
use apex_db.Ttl.Entries.{IsTracked, clear-IsTracked}
use apex_db.KvStore.{empty_store, Store, EntryType, add_entry}
use apex_db.KvStore.Invariant.{
  IsValid, has_key, is_at, Bound, view-Bound, value_of, Updated, update-view,
}
use apex_db.KvStore.Removal.{to_nat-false, to_nat_both}

to_nat_most : (b : Bool) → to_nat b ≤ 1
to_nat_most b = ground arith

set_none : (a r : ℕ) (f : ℕ → Option ℕ) → f a ≡ none → f r ≡ (if a == r then none else f r)
set_none a r f e = ground (arith, e)

module _ {D : Type 0} ⦃f : Floats D⦄ where
  -- Counts after an insertion of a node with a new address, for predicates that agree on the others.
  held_new :
      (s : Store D) (node : HNode ℕ) (p r : HNode ℕ → Bool)
      → IsValid s
      → ((n : HNode ℕ) → to_nat (p n) ≤ to_nat (r n) + to_nat (leb s.next n.item))
      → held p (hm_insert s.db node) ≤ held r s.db + to_nat (p node)
  held_new s node p r v h = omega (
    arith,
    (hm_insert-IsMap s.db node v.map).1 p,
    held_cover s.db r (λ n. leb s.next n.item) p h,
    v.old,
  )

  held_still :
      (s : Store D) (node : HNode ℕ) (p r : HNode ℕ → Bool)
      → IsValid s
      → ((n : HNode ℕ) → to_nat (r n) ≤ to_nat (p n) + to_nat (leb s.next n.item))
      → held r s.db + to_nat (p node) ≤ held p (hm_insert s.db node)
  held_still s node p r v h = omega (
    arith,
    (hm_insert-IsMap s.db node v.map).1 p,
    held_cover s.db p (λ n. leb s.next n.item) r h,
    v.old,
  )

  -- A new address is not in the table, and has no deadline.
  next-free :
      (s : Store D) (r : HNode ℕ → Bool) → IsValid s → held (λ n. is_at s.next n && r n) s.db ≡ 0
  next-free s r v = omega (
    arith,
    v.old,
    held_mono s.db (λ n. is_at s.next n && r n) (λ n. leb s.next n.item) (λ n. ground arith),
  )

  next-unset : (s : Store D) → IsValid s → stored s.heap s.next ≡ none
  next-unset s v = elim (Option-cases (stored s.heap s.next)) [
    | inl e ↦ e
    | inr (t, e) ↦ absurd (
        omega (
          arith,
          v.live s.next (λ o. ground (arith, o, e)),
          held_mono s.db (is_at s.next) (λ n. leb s.next n.item) (λ n. ground arith),
          v.old,
        ))
  ]

  Bound-new : (s : Store D) (k : Bytes) (x : ℕ) → IsValid s → Bound s k x → (s.next == x) ≡ false
  Bound-new s k x v p = elim (Bool-cases (s.next == x)) [
    | inr e ↦ e
    | inl e ↦
        let same : s.next ≡ x = ground arith in
        let p' : Bound s k s.next = rw same p in
        absurd (omega (arith, p', next-free s (has_key s k) v))
  ]

  add_entry-IsTracked :
      (s : Store D)
      → IsValid s
      → IsTracked (record s.heap { refs = write s.heap.refs s.next no_place })
        × ((r : ℕ)
            → stored (record s.heap { refs = write s.heap.refs s.next no_place }) r
              ≡ stored s.heap r)
  add_entry-IsTracked s v =
      let same = λ (r : ℕ). set_none s.next r (stored s.heap) (next-unset s v) in
      let (tracked, reads) =
        clear-IsTracked s.heap s.heap s.next v.tracked v.tracked.valid (omega arith) same
          (λ r e. refl) in
      (tracked, λ r. reads r ∙ sym (same r))

  add_entry-IsValid :
      (s : Store D) (k : Bytes) (type : EntryType) (str : Bytes)
      → IsValid s
      → held (has_key s k) s.db ≡ 0
      → IsValid (add_entry s type k str)
  unfolding add_entry
  add_entry-IsValid s k type str v h =
      let s' : Store D = add_entry s type k str in
      let node : HNode ℕ = record { hcode = str_hash k; item = s.next } in
      let (m, added) = hm_insert-IsMap s.db node v.map in
      let (tracked, reads) = add_entry-IsTracked s v in
      let agrees : to_nat (not (node.hcode == str_hash (s'.entries s.next).key)) ≡ 0 =
        rw (==_refl s.next, ==_refl (str_hash k)) refl in
      let entry_agrees : to_nat
            (not ((s'.entries s.next).hcode == str_hash (s'.entries s.next).key))
          ≡ 0 =
        rw (==_refl s.next, ==_refl (str_hash k)) refl in
      record {
        map = m;
        coded = omega (
          arith,
          v.coded,
          held_new s node (λ n. not (n.hcode == str_hash (s'.entries n.item).key))
              (λ n. not (n.hcode == str_hash (s.entries n.item).key)) v (λ n. ground arith),
          agrees,
        );
        entry_coded = omega (
          arith,
          v.entry_coded,
          held_new s node (λ n. not ((s'.entries n.item).hcode == str_hash (s'.entries n.item).key))
              (λ n. not ((s.entries n.item).hcode == str_hash (s.entries n.item).key)) v
              (λ n. ground arith),
          entry_agrees,
        );
        distinct = λ k'.
            let count = held_new s node (has_key s' k') (has_key s k') v (λ n. ground arith) in
            elim (Bool-cases (bytes_eq k k')) [
              | inr other ↦ omega (
                arith,
                v.distinct k',
                count,
                to_nat-false (has_key s' k' node) (rw (==_refl s.next) other),
              )
              | inl e ↦
                  let same : k ≡ k' = (bytes_eq_iff k k').0 e in
                  let none_left : held (has_key s k') s.db ≡ 0 = rw (sym same) h in
                  omega (arith, none_left, count, to_nat_most (has_key s' k' node))
            ];
        old = omega (
          arith,
          v.old,
          held_new s node (λ n. leb (suc s.next) n.item) (λ n. leb s.next n.item) v
              (λ n. ground arith),
          to_nat-false (leb (suc s.next) s.next) (ground arith),
        );
        tracked = tracked;
        live = λ x n. omega (arith, added (is_at x), v.live x (λ e. n (reads x ∙ e)));
      }

  -- A new entry for a key that is not there.
  pub add_entry_lem :
      (s : Store D) (k : Bytes) (type : EntryType) (str : Bytes)
      → IsValid s
      → held (has_key s k) s.db ≡ 0
      → Updated s k
          (some (
            value_of
                (record { hcode = str_hash k; key = k; type = type; str = str; zset = empty_zset }),
            none,
          ))
          (add_entry s type k str)
        × Bound (add_entry s type k str) k s.next
  unfolding add_entry
  add_entry_lem s k type str v h =
      let s' : Store D = add_entry s type k str in
      let node : HNode ℕ = record { hcode = str_hash k; item = s.next } in
      let (m, added) = hm_insert-IsMap s.db node v.map in
      let (tracked, reads) = add_entry-IsTracked s v in
      let v' = add_entry-IsValid s k type str v h in
      let here : Bound s' k s.next = omega (
        arith,
        added (λ n. is_at s.next n && has_key s' k n),
        to_nat_both (s.next == s.next) (has_key s' k node) (==_refl s.next)
            (rw (==_refl s.next) (bytes_eq_refl k)),
      ) in
      (
        update-view s s' k _ v v'
            (view-Bound s' k s.next v' here
              ∙ rw (reads s.next, next-unset s v, ==_refl s.next) refl)
            (λ k' other. record {
              bound = λ x p. omega (
                arith,
                p,
                held_still s node (λ n. is_at x n && has_key s' k' n)
                    (λ n. is_at x n && has_key s k' n) v (λ n. ground arith),
              );
              contents = λ x p. rw (reads x, Bound-new s k' x v p) refl;
              free = λ e. omega (
                arith,
                e,
                held_new s node (has_key s' k') (has_key s k') v (λ n. ground arith),
                to_nat-false (has_key s' k' node) (rw (==_refl s.next) other),
              );
            }),
        here,
      )

  -- A new store is valid, and no key is bound in it.
  pub empty_store-IsValid : IsValid (empty_store {D = D})
  unfolding empty_store stored
  empty_store-IsValid = record {
    map = empty_map-IsMap;
    coded = held-empty_map _;
    entry_coded = held-empty_map _;
    distinct = λ k. omega (arith, held-empty_map (has_key (empty_store {D = D}) k));
    old = held-empty_map _;
    tracked = record {
      valid = record {
        order = λ i p q. absurd (omega arith);
        indexed = λ i p. absurd (omega arith);
      };
      small = omega arith;
      idle = λ r e. refl;
    };
    live = λ a n. absurd (n refl);
  }
