-- ===== src/KvStore/Expiry.antt =====
-- The expiry of keys (src/kv_store.cpp: `process_timers`, the loop at the start of `execute`, and
-- `next_timer_ms`).
use apex_db.Prelude.{
  ℕ, zero, suc, ◌+◌, ◌-◌, ◌≤◌, ◌<◌, ◌≡◌, refl, sym, ◌∙◌, ap, true, false, Option, none, some, arith,
  leb, length, Bool-cases, Option-cases, inl, inr,
}
use apex_db.Bytes.{Bytes}
use apex_db.Floats.{Floats}
use apex_db.Heap.{at}
use apex_db.Heap.Order.{root_least}
use apex_db.Heap.Places.{stored}
use apex_db.Ttl.Entries.{stored_inside}
use apex_db.KvStore.{Store, find_entry}
use apex_db.KvStore.Execute.{
  is_due, expire_first, timer_rounds, process_timers, expire_loop, expire_due, next_timer_ms,
}
use apex_db.KvStore.Invariant.{Value, IsValid, view}
use apex_db.KvStore.Bindings.{missed, hit, Lookup-cases}
use apex_db.KvStore.Deadlines.{find_entry-heap}
use apex_db.KvStore.Root.{alive, Swept, Swept-same, Swept-twice, expire_first-Swept}

module _ {D : Type 0} ⦃f : Floats D⦄ where
  timer_rounds-Swept :
      (k now : ℕ) (s : Store D)
      → IsValid s
      → Swept now s (timer_rounds k now s)
        × (0 < k
            → is_due s now ≡ true
            → length (timer_rounds k now s).heap.items < length s.heap.items)
  unfolding timer_rounds
  timer_rounds-Swept zero now s v = (Swept-same now s v, λ p. absurd (omega arith))
  timer_rounds-Swept (suc k) now s v = elim (Bool-cases (is_due s now)) [
    | inr idle ↦ rw idle (Swept-same now s v, λ p e. absurd cc)
    | inl due ↦
        let (first, less) = expire_first-Swept now s v due in
        let (rest, _) = timer_rounds-Swept k now (expire_first s) first.valid in
        rw due (
          Swept-twice now s (expire_first s) (timer_rounds k now (expire_first s)) first rest,
          λ p e. omega (arith, less, rest.shorter),
        )
  ]

  expire_loop-Swept :
      (fuel now : ℕ) (s : Store D)
      → IsValid s
      → length s.heap.items ≤ fuel
      → Swept now s (expire_loop fuel now s) × (is_due (expire_loop fuel now s) now ≡ false)
  unfolding expire_loop process_timers
  expire_loop-Swept zero now s v enough = (Swept-same now s v, ground arith)
  expire_loop-Swept (suc fuel) now s v enough = elim (Bool-cases (is_due s now)) [
    | inr idle ↦ rw idle (Swept-same now s v, idle)
    | inl due ↦
        let (first, less) = timer_rounds-Swept 2001 now s v in
        let shorter = less (omega arith) due in
        let (rest, done) =
          expire_loop-Swept fuel now (process_timers s now) first.valid (omega (arith, shorter)) in
        rw due (
          Swept-twice now s (process_timers s now) (expire_loop fuel now (process_timers s now))
              first rest,
          done,
        )
  ]

  later :
      (s : Store D) (a t : ℕ)
      → IsValid s
      → stored s.heap a ≡ some t
      → (0 < length s.heap.items) × ((at s.heap.items 0).val ≤ t)
  unfolding stored
  later s a t v e =
      let inside = stored_inside s.heap a (λ h. cc) in
      ground (arith, root_least s.heap.items (s.heap.refs a) v.tracked.valid.order, inside, e)

  abbrev deadline_in : Option (Value D × Option ℕ) → Option ℕ
  deadline_in none = none
  deadline_in (some (_, t)) = t

  view-later :
      (s : Store D) (k : Bytes) (x : Value D) (t : ℕ)
      → IsValid s
      → view s k ≡ some (x, some t)
      → (0 < length s.heap.items) × ((at s.heap.items 0).val ≤ t)
  view-later s k x t v e = elim (Lookup-cases s k v) [
    | missed u e' h reads ↦ absurd (let clash = sym reads ∙ e in cc)
    | hit a u e' b reads ↦
        let set = ap deadline_in (sym reads ∙ e) in
        later s a t v (rw (sym (find_entry-heap s k)) set)
  ]

  none_due :
      (s : Store D) (now : ℕ) (k : Bytes)
      → IsValid s
      → is_due s now ≡ false
      → alive now (view s k) ≡ view s k
  none_due s now k v idle = elim (Lookup-cases s k v) [
    | missed u e h reads ↦ rw reads refl
    | hit a u e b reads ↦ elim (Option-cases (stored (find_entry s k).0.heap a)) [
      | inl e' ↦ rw (reads, e') refl
      | inr (t, e') ↦
          let least = later s a t v (rw (sym (find_entry-heap s k)) e') in
          let early : leb t now ≡ false = ground (arith, least) in rw (reads, e', early) refl
    ]
  ]

  -- The expiry at the start of a command, on a valid store, ends, with a valid store in which exactly
  -- the keys whose deadline has come are unbound, and all others are bound as before.
  pub expire_due_lem :
      (s : Store D) (now : ℕ)
      → IsValid s
      → IsValid (expire_due s now)
        × ((k : Bytes) → view (expire_due s now) k ≡ alive now (view s k))
  unfolding expire_due
  expire_due_lem s now v =
      let (swept, idle) = expire_loop-Swept (length s.heap.items) now s v (omega arith) in
      (swept.valid, λ k. sym (none_due (expire_due s now) now k swept.valid idle) ∙ swept.reads k)

  -- The wait that a valid store asks for ends no later than any key's deadline below `2 ^ 64 - 1`.
  pub next_timer_ms-soon :
      (s : Store D) (now : ℕ) (k : Bytes) (x : Value D) (t : ℕ)
      → IsValid s
      → view s k ≡ some (x, some t)
      → t < 18446744073709551615
      → next_timer_ms s now ≤ t - now
  unfolding next_timer_ms
  next_timer_ms-soon s now k x t v e small =
      let (some_left, least) = view-later s k x t v e in ground (arith, some_left, least)

  -- The wait that a store asks for, if it is below the longest, ends when a deadline has come.
  pub next_timer_ms-due :
      (s : Store D) (now : ℕ)
      → next_timer_ms s now < 2147483647
      → is_due s (now + next_timer_ms s now) ≡ true
  unfolding next_timer_ms
  next_timer_ms-due s now h = ground arith
