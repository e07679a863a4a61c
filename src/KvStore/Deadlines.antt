-- ===== src/KvStore/Deadlines.antt =====
-- The commands on the deadlines of keys (src/kv_store.cpp: `do_expire`, `do_ttl`, `persist`).
use apex_db.Prelude.{
  ℕ, ◌-◌, ◌<◌, ◌≡◌, refl, sym, ◌∙◌, ap, subst, false, Option, none, some, arith, ltb, ◌==◌,
  if◌then◌else◌, length, Bool-cases, Option-cases, inl, inr, ℤ, pos, negsuc, leb_ℤ, i64_word,
}
use apex_db.Bytes.{Bytes}
use apex_db.Protocol.{err_bad_arg, out_int, out_err}
use apex_db.Numbers.{str2int}
use apex_db.Sharding.{codes}
use apex_db.Floats.{Floats}
use apex_db.Heap.{at}
use apex_db.Heap.Places.{stored}
use apex_db.Ttl.{no_place}
use apex_db.Ttl.Entries.{IsTracked, deadline, entry_set_ttl_lem, stored_inside}
use apex_db.KvStore.{Store, find_entry, take_entry, entry_del, do_expire, do_ttl, do_persist}
use apex_db.KvStore.Invariant.{
  Value, IsValid, Bound, Bound-unique, view, view-Bound, value_of, Updated, Unchanged,
}
use apex_db.KvStore.Updates.{set_ttl_lem}
use apex_db.KvStore.Bindings.{
  missed, hit, Lookup-cases, then-Updated, still-Updated, clear_lem, kept, taken, take_entry_lem,
}

module _ {D : Type 0} ⦃f : Floats D⦄ where
  -- What `expire` leaves a key bound to, and what it answers.
  abbrev pub expire_binding :
      Option ℤ → ℕ → Option (Value D × Option ℕ) → Option (Value D × Option ℕ)
  expire_binding none now binding = binding
  expire_binding (some ttl_ms) now none = none
  expire_binding (some ttl_ms) now (some (x, _)) =
      if leb_ℤ ttl_ms (pos 0) then none else some (x, deadline ttl_ms now)

  abbrev pub expire_reply : Option ℤ → Option (Value D × Option ℕ) → Bytes → Bytes
  expire_reply none binding out = out_err out err_bad_arg (codes "expect int64")
  expire_reply (some ttl_ms) none out = out_int out (i64_word (pos 0))
  expire_reply (some ttl_ms) (some _) out = out_int out (i64_word (pos 1))

  expire_past :
      (s : Store D) (k : Bytes) (a : ℕ)
      → IsValid s
      → Bound s k a
      → Updated s k none (entry_del (take_entry s k).0 a)
  expire_past s k a v b = elim (take_entry_lem s k v) [
    | kept u e reads ↦ absurd (let clash = sym reads ∙ view-Bound s k a v b in cc)
    | taken a' u e b' ↦
        subst (λ x. Updated s k none (entry_del (take_entry s k).0 x))
          (Bound-unique s k a' a v b' b) u
  ]

  pub find_entry-heap : (s : Store D) (k : Bytes) → (find_entry s k).0.heap ≡ s.heap
  unfolding find_entry
  find_entry-heap s k = refl

  -- `expire` on a valid store, with a heap of fewer than `2 ^ 64 - 1` items, answers an error, and changes nothing, for a duration that is not an
  -- integer of 64 bits. For others it unbinds the key if the duration is not positive, and otherwise sets
  -- its deadline to the sum of the clock and the duration; it answers 0 for a key that is not bound and
  -- 1 for others. All other keys stay bound as they are.
  pub do_expire_lem :
      (s : Store D) (key ttl : Bytes) (now : ℕ) (out : Bytes)
      → IsValid s
      → length s.heap.items < no_place
      → Updated s key
          (expire_binding (str2int ttl) now (view s key))
          (do_expire s key ttl now out).0
        × ((do_expire s key ttl now out).1 ≡ expire_reply (str2int ttl) (view s key) out)
  unfolding do_expire
  do_expire_lem s key ttl now out v room = elim (Option-cases (str2int ttl)) [
    | inl e ↦
        rw (do_expire, e)
          (still-Updated s s key (view s key) refl (record { valid = v; reads = λ k'. refl }), refl)
    | inr (ttl_ms, e) ↦ elim (Lookup-cases s key v) [
      | missed u e' h reads ↦
          rw (reads, do_expire, e, e') (still-Updated s (find_entry s key).0 key none reads u, refl)
      | hit a u e' b reads ↦ elim (Bool-cases (leb_ℤ ttl_ms (pos 0))) [
        | inl past ↦
            rw (reads, do_expire, e, e', past)
              (
                then-Updated s (find_entry s key).0 _ key none u
                    (expire_past (find_entry s key).0 key a u.valid b),
                refl,
              )
        | inr future ↦
            let room' : length (find_entry s key).0.heap.items < no_place =
              rw (find_entry-heap s key) room in
            let (tracked, sets) =
              entry_set_ttl_lem (find_entry s key).0.heap a ttl_ms now u.valid.tracked room' in
            rw (reads, do_expire, e, e', future)
              (
                then-Updated s (find_entry s key).0 _ key _ u
                    (set_ttl_lem (find_entry s key).0 key a ttl_ms now u.valid b tracked sets),
                refl,
              )
      ]
    ]
  ]

  -- The time that `ttl` answers: -2 for a key that is not bound, -1 for one without a deadline.
  abbrev pub time_left : Option (Value D × Option ℕ) → ℕ → ℕ
  time_left none now = i64_word (negsuc 1)
  time_left (some (_, none)) now = i64_word (negsuc 0)
  time_left (some (_, some expire_at)) now = expire_at - now

  place-stored :
      (s : Store D) (a d : ℕ)
      → IsTracked s.heap
      → stored s.heap a ≡ some d
      → ((s.heap.refs a == no_place) ≡ false) × ((at s.heap.items (s.heap.refs a)).val ≡ d)
  unfolding stored
  place-stored s a d k e =
      let inside = stored_inside s.heap a (λ h. cc) in
      (ground (arith, k.small), ground (arith, e, inside))

  ttl_value :
      (s : Store D) (a now : ℕ) (v : Value D) (out : Bytes)
      → IsTracked s.heap
      → (if s.heap.refs a == no_place
          then out_int out (i64_word (negsuc 0))
          else out_int out (
              if ltb now (at s.heap.items (s.heap.refs a)).val
              then (at s.heap.items (s.heap.refs a)).val - now
              else 0))
        ≡ out_int out (time_left (some (v, stored s.heap a)) now)
  ttl_value s a now v out k = elim (Option-cases (stored s.heap a)) [
    | inl e ↦ rw (e, k.idle a e) refl
    | inr (d, e) ↦
        let (there, value) = place-stored s a d k e in
        rw (e, there, value) (ap (out_int out) (ground arith))
  ]

  -- `ttl` on a valid store answers -2 for a key that is not bound, -1 for one without a deadline, and
  -- otherwise the time from the clock's reading to the deadline, 0 when it has passed. It leaves all
  -- bindings as they are.
  pub do_ttl_lem :
      (s : Store D) (key : Bytes) (now : ℕ) (out : Bytes)
      → IsValid s
      → Unchanged s (do_ttl s key now out).0
        × ((do_ttl s key now out).1 ≡ out_int out (time_left (view s key) now))
  unfolding do_ttl
  do_ttl_lem s key now out v = elim (Lookup-cases s key v) [
    | missed u e h reads ↦ rw (reads, do_ttl, e) (u, refl)
    | hit a u e b reads ↦
        rw (reads, do_ttl, e)
          (
            u,
            ttl_value (find_entry s key).0 a now (value_of ((find_entry s key).0.entries a)) out
                u.valid.tracked,
          )
  ]

  -- What `persist` leaves a key bound to, and what it answers.
  abbrev pub persist_binding : Option (Value D × Option ℕ) → Option (Value D × Option ℕ)
  persist_binding none = none
  persist_binding (some (x, _)) = some (x, none)

  abbrev pub persist_reply : Option (Value D × Option ℕ) → ℕ
  persist_reply (some (_, some _)) = i64_word (pos 1)
  persist_reply _ = i64_word (pos 0)

  -- `persist` on a valid store removes the key's deadline, and answers whether there was one. All other
  -- keys stay bound as they are.
  pub do_persist_lem :
      (s : Store D) (key out : Bytes)
      → IsValid s
      → Updated s key (persist_binding (view s key)) (do_persist s key out).0
        × ((do_persist s key out).1 ≡ out_int out (persist_reply (view s key)))
  unfolding do_persist
  do_persist_lem s key out v = elim (Lookup-cases s key v) [
    | missed u e h reads ↦
        rw (reads, do_persist, e) (still-Updated s (find_entry s key).0 key none reads u, refl)
    | hit a u e b reads ↦ elim (Option-cases (stored (find_entry s key).0.heap a)) [
      | inl e' ↦
          let same = reads ∙ ap (λ x. some (value_of ((find_entry s key).0.entries a), x)) e' in
          let idle = u.valid.tracked.idle a e' in
          rw (same, do_persist, e, idle) (still-Updated s (find_entry s key).0 key _ same u, refl)
      | inr (d, e') ↦
          let same = reads ∙ ap (λ x. some (value_of ((find_entry s key).0.entries a), x)) e' in
          let (there, value) = place-stored (find_entry s key).0 a d u.valid.tracked e' in
          rw (same, do_persist, e, there)
            (
              then-Updated s (find_entry s key).0 _ key _ u
                  (clear_lem (find_entry s key).0 key a _ u.valid b refl),
              refl,
            )
    ]
  ]
