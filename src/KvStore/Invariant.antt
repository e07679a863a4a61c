-- ===== src/KvStore/Invariant.antt =====
-- The invariant of the store, and its abstract view: what each key is bound to.
use apex_db.Prelude.{
  ℕ, ◌≤◌, ◌≡◌, ◌≢◌, sym, ◌∙◌, ap, Bool, true, false, not, ◌&&◌, Option, none, some, arith, leb,
  ◌==◌, if◌then◌else◌, Bool-cases, Option-cases, inl, inr,
}
use apex_db.Bytes.{Bytes, bytes_eq, bytes_eq_iff}
use apex_db.Sharding.{str_hash}
use apex_db.Floats.{Floats}
use apex_db.ZSet.{ZSet, node_item}
use apex_db.HashTable.{HNode, HMap, matches, hm_lookup}
use apex_db.HashTable.Rehash.{held, IsMap}
use apex_db.HashTable.Maps.{Found, hm_lookup-Found}
use apex_db.HashTable.Counts.{held_add, held_cover, held_mono}
use apex_db.Heap.Places.{stored}
use apex_db.Ttl.Entries.{IsTracked}
use apex_db.KvStore.{Store, Entry, entry_eq, find_entry, is_str}

-- What a key is bound to.
pub data Value (D : Type 0) : Type 0 where
  text : Bytes → Value D
  members : ZSet D → Value D

abbrev pub is_at : ℕ → HNode ℕ → Bool
is_at a n = n.item == a

Found-none :
    (q : HNode ℕ → Bool) (m : HMap ℕ) (o : Option (HNode ℕ))
    → Found q m o
    → node_item o ≡ none
    → held q m ≡ 0
Found-none q m none h e = h
Found-none q m (some n) h e = cc

Found-some :
    (q : HNode ℕ → Bool) (m : HMap ℕ) (o : Option (HNode ℕ)) (a : ℕ)
    → Found q m o
    → node_item o ≡ some a
    → (n : HNode ℕ) × (n.item ≡ a)
      × (q n ≡ true)
      × ((r : HNode ℕ → Bool) → r n ≡ true → 1 ≤ held r m)
Found-some q m none a h e = cc
Found-some q m (some n) a h e = (n, ground arith, h.0, h.1)

module _ {D : Type 0} ⦃f : Floats D⦄ where
  abbrev pub has_key : Store D → Bytes → HNode ℕ → Bool
  has_key s k n = bytes_eq (s.entries n.item).key k

  -- The table is valid; nodes and entries carry the hash of the key; no key stands twice; addresses are
  -- older than `next`; the deadlines are tracked, and only entries of the table have one.
  pub record IsValid (s : Store D) : Type 0 where
    pub map : IsMap s.db
    pub coded : held (λ n. not (n.hcode == str_hash (s.entries n.item).key)) s.db ≡ 0
    pub entry_coded :
        held (λ n. not ((s.entries n.item).hcode == str_hash (s.entries n.item).key)) s.db ≡ 0
    pub distinct : (k : Bytes) → held (has_key s k) s.db ≤ 1
    pub old : held (λ n. leb s.next n.item) s.db ≡ 0
    pub tracked : IsTracked s.heap
    pub live : (a : ℕ) → stored s.heap a ≢ none → 1 ≤ held (is_at a) s.db

  -- The table has the entry at `a`, and its key is `k`.
  abbrev pub Bound : Store D → Bytes → ℕ → Type 0
  Bound s k a = 1 ≤ held (λ n. is_at a n && has_key s k n) s.db

  pub find_entry-none :
      (s : Store D) (k : Bytes)
      → IsValid s
      → (find_entry s k).1 ≡ none
      → held (has_key s k) s.db ≡ 0
  unfolding find_entry
  find_entry-none s k v e =
      let hit = matches (str_hash k) (entry_eq s k) in
      let (_, _, found) = hm_lookup-Found s.db (str_hash k) (entry_eq s k) v.map in
      let missed = Found-none hit s.db (hm_lookup s.db (str_hash k) (entry_eq s k)).1 found e in
      omega (
        arith,
        missed,
        v.coded,
        held_cover s.db hit (λ n. not (n.hcode == str_hash (s.entries n.item).key)) (has_key s k)
            (λ n. ground (arith, bytes_eq_iff (s.entries n.item).key k)),
      )

  pub find_entry-some :
      (s : Store D) (k : Bytes) (a : ℕ) → IsValid s → (find_entry s k).1 ≡ some a → Bound s k a
  unfolding find_entry
  find_entry-some s k a v e =
      let hit = matches (str_hash k) (entry_eq s k) in
      let (_, _, found) = hm_lookup-Found s.db (str_hash k) (entry_eq s k) v.map in
      let (n, here, q, member) =
        Found-some hit s.db (hm_lookup s.db (str_hash k) (entry_eq s k)).1 a found e in
      member (λ x. is_at a x && has_key s k x) (ground arith)

  -- Two entries with one key are the same.
  pub Bound-unique :
      (s : Store D) (k : Bytes) (a b : ℕ) → IsValid s → Bound s k a → Bound s k b → a ≡ b
  Bound-unique s k a b v p q = elim (Bool-cases (a == b)) [
    | inl same ↦ ground arith
    | inr other ↦ absurd (
        omega (
          arith,
          v.distinct k,
          held_add s.db (λ n. is_at a n && has_key s k n) (λ n. is_at b n && has_key s k n)
              (has_key s k) (λ n. ground arith),
        ))
  ]

  Bound-held : (s : Store D) (k : Bytes) (a : ℕ) → Bound s k a → 1 ≤ held (has_key s k) s.db
  Bound-held s k a p =
      omega
        (arith, held_mono s.db (λ n. is_at a n && has_key s k n) (has_key s k) (λ n. ground arith))

  -- A lookup finds the entry that the table has for a key.
  pub find_entry-Bound :
      (s : Store D) (k : Bytes) (a : ℕ) → IsValid s → Bound s k a → (find_entry s k).1 ≡ some a
  find_entry-Bound s k a v p = elim (Option-cases (find_entry s k).1) [
    | inl e ↦ absurd (omega (arith, find_entry-none s k v e, Bound-held s k a p))
    | inr (b, e) ↦ e ∙ ap some (Bound-unique s k b a v (find_entry-some s k b v e) p)
  ]

  abbrev pub value_of : Entry D → Value D
  value_of e = if is_str e.type then text e.str else members e.zset

  abbrev pub bound_to : Store D → Option ℕ → Option (Value D × Option ℕ)
  bound_to s none = none
  bound_to s (some a) = some (value_of (s.entries a), stored s.heap a)

  -- The value of a key and its deadline, if the key is there.
  unfoldable pub view : Store D → Bytes → Option (Value D × Option ℕ)
  view s k = bound_to s (find_entry s k).1

  pub view-none :
      (s : Store D) (k : Bytes) → IsValid s → held (has_key s k) s.db ≡ 0 → view s k ≡ none
  unfolding view
  view-none s k v h = elim (Option-cases (find_entry s k).1) [
    | inl e ↦ rw e
    | inr (a, e) ↦ absurd (omega (arith, Bound-held s k a (find_entry-some s k a v e)))
  ]

  pub view-Bound :
      (s : Store D) (k : Bytes) (a : ℕ) → IsValid s → Bound s k a → view s k ≡ bound_to s (some a)
  unfolding view
  view-Bound s k a v p = rw (find_entry-Bound s k a v p)

  -- A key's entry carries that key.
  pub Bound-key : (s : Store D) (k : Bytes) (a : ℕ) → Bound s k a → (s.entries a).key ≡ k
  Bound-key s k a p = elim (Bool-cases (bytes_eq (s.entries a).key k)) [
    | inl same ↦ (bytes_eq_iff (s.entries a).key k).0 same
    | inr other ↦ absurd (
        omega (
          arith,
          held_mono s.db (λ n. is_at a n && has_key s k n) (λ _. false) (λ n. ground arith),
          held_add s.db (λ _. false) (λ _. false) (λ _. false) (λ n. omega arith),
        ))
  ]

  -- `s'` is a valid store in which `k` is bound to `v`, and every other key to what it was in `s`.
  pub record Updated (s : Store D) (k : Bytes) (v : Option (Value D × Option ℕ)) (s' : Store D)
      : Type 0 where
    pub valid : IsValid s'
    pub reads : (k' : Bytes) → view s' k' ≡ (if bytes_eq k k' then v else view s k')

  -- `s'` is a valid store in which every key is bound as in `s`.
  pub record Unchanged (s s' : Store D) : Type 0 where
    pub valid : IsValid s'
    pub reads : (k' : Bytes) → view s' k' ≡ view s k'

  -- The entries of `k` are carried over from one store to another.
  pub record Carried (s s' : Store D) (k : Bytes) : Type 0 where
    pub bound : (a : ℕ) → Bound s k a → Bound s' k a
    pub contents : (a : ℕ) → Bound s k a → bound_to s' (some a) ≡ bound_to s (some a)
    pub free : held (has_key s k) s.db ≡ 0 → held (has_key s' k) s'.db ≡ 0

  pub Carried-view :
      (s s' : Store D) (k : Bytes) → IsValid s → IsValid s' → Carried s s' k → view s' k ≡ view s k
  unfolding view
  Carried-view s s' k v v' c = elim (Option-cases (find_entry s k).1) [
    | inl e ↦ view-none s' k v' (c.free (find_entry-none s k v e)) ∙ rw e
    | inr (a, e) ↦
        let b = find_entry-some s k a v e in
        view-Bound s' k a v' (c.bound a b) ∙ c.contents a b ∙ rw e
  ]

  pub update-view :
      (s s' : Store D) (k : Bytes) (v : Option (Value D × Option ℕ))
      → IsValid s
      → IsValid s'
      → view s' k ≡ v
      → ((k' : Bytes) → bytes_eq k k' ≡ false → Carried s s' k')
      → Updated s k v s'
  update-view s s' k v valid valid' here others = record {
    valid = valid';
    reads = λ k'. elim (Bool-cases (bytes_eq k k')) [
      | inl same ↦
          let e : k ≡ k' = (bytes_eq_iff k k').0 same in rw same (ap (view s') (sym e) ∙ here)
      | inr other ↦ rw other (Carried-view s s' k' valid valid' (others k' other))
    ];
  }
