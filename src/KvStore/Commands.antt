-- ===== src/KvStore/Commands.antt =====
-- The commands on keys with a string (src/kv_store.cpp: `do_get`, `do_set`, `do_del`).
use apex_db.Prelude.{
  ℕ, ◌≡◌, refl, ◌∙◌, ap, true, not, Option, none, some, ==_refl, if◌then◌else◌, Bool-cases, inl,
  inr, pos, negsuc, i64_word,
}
use apex_db.Bytes.{Bytes}
use apex_db.Protocol.{err_bad_typ, out_nil, out_str, out_int, out_err}
use apex_db.Sharding.{codes}
use apex_db.Floats.{Floats}
use apex_db.HashTable.Rehash.{held}
use apex_db.Heap.Places.{stored}
use apex_db.KvStore.{
  Store, Entry, t_str, is_str, find_entry, add_entry, set_ttl, write_str, take_entry, do_get,
  do_set, do_del,
}
use apex_db.KvStore.Invariant.{
  view-Bound, Value, text, members, IsValid, has_key, Bound, view, value_of, Updated, Unchanged,
}
use apex_db.KvStore.Updates.{write_entry_lem, write_entry-Bound}
use apex_db.KvStore.Entries.{add_entry_lem}
use apex_db.KvStore.Bindings.{
  missed, hit, Lookup-cases, then-Updated, Updated-twice, still-Updated, clear_lem, text_value,
  members_value, kept, taken, take_entry_lem,
}

module _ {D : Type 0} ⦃f : Floats D⦄ where
  -- What `get` answers for a binding.
  abbrev pub get_reply : Option (Value D × Option ℕ) → Bytes → Bytes
  get_reply none out = out_nil out
  get_reply (some (text str, _)) out = out_str out str
  get_reply (some (members _, _)) out = out_err out err_bad_typ (codes "not a string value")

  get_value :
      (e : Entry D) (t : Option ℕ) (out : Bytes)
      → (if not (is_str e.type)
          then out_err out err_bad_typ (codes "not a string value")
          else out_str out e.str)
        ≡ get_reply (some (value_of e, t)) out
  get_value e t out = elim (Bool-cases (is_str e.type)) [
    | inl e' ↦ rw e' refl
    | inr e' ↦ rw e' refl
  ]

  -- `get` on a valid store answers the key's string, nil for a key that is not bound and an error for a
  -- sorted set, and leaves all bindings as they are.
  pub do_get_lem :
      (s : Store D) (key out : Bytes)
      → IsValid s
      → Unchanged s (do_get s key out).0 × ((do_get s key out).1 ≡ get_reply (view s key) out)
  unfolding do_get
  do_get_lem s key out v = elim (Lookup-cases s key v) [
    | missed u e h reads ↦ rw (reads, do_get, e) (u, refl)
    | hit a u e b reads ↦
        rw (reads, do_get, e) (u, get_value ((find_entry s key).0.entries a) _ out)
  ]

  -- What `set` leaves a key bound to, and what it answers.
  abbrev pub set_binding : Option (Value D × Option ℕ) → Bytes → Option (Value D × Option ℕ)
  set_binding (some (members z, t)) str = some (members z, t)
  set_binding _ str = some (text str, none)

  abbrev pub set_reply : Option (Value D × Option ℕ) → Bytes → Bytes
  set_reply (some (members _, _)) out = out_err out err_bad_typ (codes "a non-string value exists")
  set_reply _ out = out_str out (codes "OK")

  set_new :
      (s : Store D) (k str : Bytes)
      → IsValid s
      → held (has_key s k) s.db ≡ 0
      → Updated s k (some (text str, none)) (set_ttl (add_entry s t_str k str) s.next (negsuc 0) 0)
  unfolding add_entry
  set_new s k str v h =
      let (added, b) = add_entry_lem s k t_str str v h in
      let e : value_of ((add_entry s t_str k str).entries s.next) ≡ text str =
        rw (==_refl s.next) refl in
      Updated-twice s (add_entry s t_str k str) _ k _ _ added
        (clear_lem (add_entry s t_str k str) k s.next (text str) added.valid b e)

  set_old :
      (s : Store D) (k str : Bytes) (a : ℕ)
      → IsValid s
      → Bound s k a
      → is_str (s.entries a).type ≡ true
      → Updated s k (some (text str, none)) (set_ttl (write_str s a str) a (negsuc 0) 0)
  set_old s k str a v b e =
      let entry : Entry D = record (s.entries a) { str = str } in
      let written = write_entry_lem s k a entry v b refl refl in
      let b' = write_entry-Bound s k a a entry refl b in
      let e' : value_of ((write_str s a str).entries a) ≡ text str = rw (==_refl a, e) refl in
      Updated-twice s (write_str s a str) _ k _ _ written
        (clear_lem (write_str s a str) k a (text str) written.valid b' e')

  -- `set` on a valid store binds the key to the string, without a deadline, unless the key has a sorted
  -- set, which stays and is answered by an error. All other keys stay bound as they are.
  pub do_set_lem :
      (s : Store D) (key str out : Bytes)
      → IsValid s
      → Updated s key (set_binding (view s key) str) (do_set s key str out).0
        × ((do_set s key str out).1 ≡ set_reply (view s key) out)
  unfolding do_set
  do_set_lem s key str out v = elim (Lookup-cases s key v) [
    | missed u e h reads ↦
        rw (reads, do_set, e)
          (
            then-Updated s (find_entry s key).0 _ key _ u
                (set_new (find_entry s key).0 key str u.valid h),
            refl,
          )
    | hit a u e b reads ↦ elim (Bool-cases (is_str ((find_entry s key).0.entries a).type)) [
      | inl t ↦
          rw
            (
              reads
                  ∙ ap (λ x. some (x, stored (find_entry s key).0.heap a))
                      (text_value ((find_entry s key).0.entries a) t),
              do_set,
              e,
              t,
            )
            (
              then-Updated s (find_entry s key).0 _ key _ u
                  (set_old (find_entry s key).0 key str a u.valid b t),
              refl,
            )
      | inr z ↦
          let same =
            reads
            ∙ ap (λ x. some (x, stored (find_entry s key).0.heap a))
                (members_value ((find_entry s key).0.entries a) z) in
          rw (same, do_set, e, z) (still-Updated s (find_entry s key).0 key _ same u, refl)
    ]
  ]

  abbrev pub del_reply : Option (Value D × Option ℕ) → Bytes → Bytes
  del_reply none out = out_int out (i64_word (pos 0))
  del_reply (some _) out = out_int out (i64_word (pos 1))

  -- `del` on a valid store unbinds the key and answers how many entries it deleted. All other keys stay
  -- bound as they are.
  pub do_del_lem :
      (s : Store D) (key out : Bytes)
      → IsValid s
      → Updated s key none (do_del s key out).0
        × ((do_del s key out).1 ≡ del_reply (view s key) out)
  unfolding do_del
  do_del_lem s key out v = elim (take_entry_lem s key v) [
    | kept u e reads ↦
        rw (reads, do_del, e) (still-Updated s (take_entry s key).0 key none reads u, refl)
    | taken a u e b ↦ rw (view-Bound s key a v b, do_del, e) (u, refl)
  ]
