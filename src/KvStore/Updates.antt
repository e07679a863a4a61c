-- ===== src/KvStore/Updates.antt =====
-- What the steps of the commands do to the bindings of keys.
use apex_db.Prelude.{
  ℕ, ◌≡◌, refl, sym, ◌∙◌, ap, Bool, false, ◌&&◌, Option, none, some, arith, ◌==◌, if◌then◌else◌,
  Bool-cases, Option-cases, ==_refl, inl, inr, ℤ,
}
use apex_db.Bytes.{Bytes, bytes_eq, bytes_eq_iff}
use apex_db.Sharding.{str_hash}
use apex_db.Floats.{Floats}
use apex_db.HashTable.{HNode, HMap, hm_lookup}
use apex_db.HashTable.Rehash.{held, IsMap}
use apex_db.HashTable.Maps.{hm_lookup-Found}
use apex_db.HashTable.Counts.{held_mono}
use apex_db.Heap.Places.{stored}
use apex_db.Ttl.{entry_set_ttl}
use apex_db.Ttl.Entries.{IsTracked, deadline}
use apex_db.KvStore.{Store, Entry, entry_eq, find_entry, set_ttl, write_entry}
use apex_db.KvStore.Invariant.{
  IsValid, has_key, is_at, Bound, Bound-key, view, view-Bound, bound_to, value_of, find_entry-none,
  find_entry-some, Updated, Unchanged, Carried-view, update-view,
}

held_same : (m : HMap ℕ) (p r : HNode ℕ → Bool) → ((n : HNode ℕ) → p n ≡ r n) → held p m ≡ held r m
held_same m p r h =
    omega (
      arith,
      held_mono m p r (λ n. ground (arith, h n)),
      held_mono m r p (λ n. ground (arith, h n)),
    )

module _ {D : Type 0} ⦃f : Floats D⦄ where
  -- A table with the same nodes in other places.
  pub same_db :
      (s : Store D) (db : HMap ℕ)
      → IsValid s
      → IsMap db
      → ((r : HNode ℕ → Bool) → held r db ≡ held r s.db)
      → Unchanged s (record s { db = db })
  same_db s db v m same =
      let s' : Store D = record s { db = db } in
      let v' : IsValid s' = record {
        map = m;
        coded = same _ ∙ v.coded;
        entry_coded = same _ ∙ v.entry_coded;
        distinct = λ k. omega (arith, same (has_key s k), v.distinct k);
        old = same _ ∙ v.old;
        tracked = v.tracked;
        live = λ a n. omega (arith, same (is_at a), v.live a n);
      } in
      record {
        valid = v';
        reads = λ k. Carried-view s s' k v v' (record {
          bound = λ a p. omega (arith, same (λ n. is_at a n && has_key s k n));
          contents = λ a p. refl;
          free = λ e. same (has_key s k) ∙ e;
        });
      }

  -- What a lookup says of the store that it returns.
  abbrev pub Located : Store D → Bytes → Option ℕ → Type 0
  Located s k none = held (has_key s k) s.db ≡ 0
  Located s k (some a) = Bound s k a

  Located-same :
      (s : Store D) (db : HMap ℕ) (k : Bytes) (o : Option ℕ)
      → ((r : HNode ℕ → Bool) → held r db ≡ held r s.db)
      → Located s k o
      → Located (record s { db = db }) k o
  Located-same s db k none same h = same (has_key s k) ∙ h
  Located-same s db k (some a) same h = omega (arith, same (λ n. is_at a n && has_key s k n))

  find_entry-Located : (s : Store D) (k : Bytes) → IsValid s → Located s k (find_entry s k).1
  find_entry-Located s k v = elim (Option-cases (find_entry s k).1) [
    | inl e ↦ rw e (find_entry-none s k v e)
    | inr (a, e) ↦ rw e (find_entry-some s k a v e)
  ]

  bound_to_same :
      (s : Store D) (db : HMap ℕ) (o : Option ℕ) → bound_to s o ≡ bound_to (record s { db = db }) o
  bound_to_same s db none = refl
  bound_to_same s db (some a) = refl

  -- A lookup leaves all bindings as they are, and returns the entry of the key.
  pub find_entry_lem :
      (s : Store D) (k : Bytes)
      → IsValid s
      → Unchanged s (find_entry s k).0
        × Located (find_entry s k).0 k (find_entry s k).1
        × (view s k ≡ bound_to (find_entry s k).0 (find_entry s k).1)
  unfolding find_entry view
  find_entry_lem s k v =
      let (m, same, _) = hm_lookup-Found s.db (str_hash k) (entry_eq s k) v.map in
      let db = (hm_lookup s.db (str_hash k) (entry_eq s k)).0 in
      let o = (find_entry s k).1 in
      (
        same_db s db v m same,
        Located-same s db k o same (find_entry-Located s k v),
        bound_to_same s db o,
      )

  -- New contents of entries whose keys and codes stay.
  write-IsValid :
      (s : Store D) (entries : ℕ → Entry D)
      → ((a : ℕ) → (entries a).key ≡ (s.entries a).key)
      → ((a : ℕ) → (entries a).hcode ≡ (s.entries a).hcode)
      → IsValid s
      → IsValid (record s { entries = entries })
  write-IsValid s entries keys hcodes v = record {
    map = v.map;
    coded = held_same s.db _ _ (λ n. rw (keys n.item)) ∙ v.coded;
    entry_coded = held_same s.db _ _ (λ n. rw (keys n.item, hcodes n.item)) ∙ v.entry_coded;
    distinct = λ k. omega (
      arith,
      v.distinct k,
      held_same s.db (has_key (record s { entries = entries }) k) (has_key s k)
          (λ n. rw (keys n.item)),
    );
    old = v.old;
    tracked = v.tracked;
    live = v.live;
  }

  pub Bound-other :
      (s : Store D) (k k' : Bytes) (a b : ℕ)
      → Bound s k a
      → Bound s k' b
      → bytes_eq k k' ≡ false
      → (a == b) ≡ false
  Bound-other s k k' a b p q other = elim (Bool-cases (a == b)) [
    | inr e ↦ e
    | inl e ↦
        let same : a ≡ b = ground arith in
        let keys : k ≡ k' =
          sym (Bound-key s k a p) ∙ ap (λ x. (s.entries x).key) same ∙ Bound-key s k' b q in
        absurd (ground (arith, (bytes_eq_iff k k').1 keys))
  ]

  pub write_entry-Bound :
      (s : Store D) (k : Bytes) (a x : ℕ) (e : Entry D)
      → e.key ≡ (s.entries a).key
      → Bound s k x
      → Bound (record s { entries = write_entry s.entries a e }) k x
  write_entry-Bound s k a x e same_key b =
      let s' : Store D = record s { entries = write_entry s.entries a e } in
      omega (
        arith,
        b,
        held_same s.db (λ n. is_at x n && has_key s' k n) (λ n. is_at x n && has_key s k n)
            (λ n. ground (arith, same_key)),
      )

  -- A change of one entry's value that leaves its key and its code.
  pub write_entry_lem :
      (s : Store D) (k : Bytes) (a : ℕ) (e : Entry D)
      → IsValid s
      → Bound s k a
      → e.key ≡ (s.entries a).key
      → e.hcode ≡ (s.entries a).hcode
      → Updated s k
          (some (value_of e, stored s.heap a))
          (record s { entries = write_entry s.entries a e })
  write_entry_lem s k a e v b same_key same_code =
      let entries = write_entry s.entries a e in
      let s' : Store D = record s { entries = entries } in
      let keys : (x : ℕ) → (entries x).key ≡ (s.entries x).key = λ x. ground (arith, same_key) in
      let hcodes : (x : ℕ) → (entries x).hcode ≡ (s.entries x).hcode =
        λ x. ground (arith, same_code) in
      let v' = write-IsValid s entries keys hcodes v in
      let at_key : (x : ℕ) (k' : Bytes) → Bound s k' x → Bound s' k' x = λ x k' p. omega (
        arith,
        held_same s.db (λ n. is_at x n && has_key s' k' n) (λ n. is_at x n && has_key s k' n)
            (λ n. rw (keys n.item)),
      ) in
      update-view s s' k _ v v' (view-Bound s' k a v' (at_key a k b) ∙ rw (==_refl a) refl)
        (λ k' other. record {
          bound = λ x p. at_key x k' p;
          contents = λ x p. rw (Bound-other s k k' a x b p other);
          free = λ h. held_same s.db (has_key s' k') (has_key s k') (λ n. rw (keys n.item)) ∙ h;
        })

  -- A new deadline, or none, for an entry.
  pub set_ttl_lem :
      (s : Store D) (k : Bytes) (a : ℕ) (ttl_ms : ℤ) (now : ℕ)
      → IsValid s
      → Bound s k a
      → IsTracked (entry_set_ttl s.heap a ttl_ms now)
      → ((r : ℕ)
          → stored (entry_set_ttl s.heap a ttl_ms now) r
            ≡ (if a == r then deadline ttl_ms now else stored s.heap r))
      → Updated s k (some (value_of (s.entries a), deadline ttl_ms now)) (set_ttl s a ttl_ms now)
  unfolding set_ttl
  set_ttl_lem s k a ttl_ms now v b tracked reads =
      let s' : Store D = set_ttl s a ttl_ms now in
      let v' : IsValid s' = record {
        map = v.map;
        coded = v.coded;
        entry_coded = v.entry_coded;
        distinct = v.distinct;
        old = v.old;
        tracked = tracked;
        live = λ x n. elim (Bool-cases (a == x)) [
          | inl e ↦ ground (
            arith,
            held_mono s.db (λ n. is_at a n && has_key s k n) (is_at x) (λ n. ground arith),
          )
          | inr e ↦ v.live x (λ h. n (reads x ∙ rw e h))
        ];
      } in
      update-view s s' k _ v v' (view-Bound s' k a v' b ∙ rw (reads a, ==_refl a) refl) (λ k' other.
        record {
          bound = λ x p. p;
          contents = λ x p. rw (reads x, Bound-other s k k' a x b p other);
          free = λ h. h;
        })
