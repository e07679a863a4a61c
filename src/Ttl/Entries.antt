-- ===== src/Ttl/Entries.antt =====
-- The deadlines of entries before and after `entry_set_ttl`.
use apex_db.Prelude.{
  ℕ, ◌+◌, ◌%◌, ◌^◌, ◌≤◌, ◌<◌, ◌≡◌, ◌≢◌, ◌∙◌, ap, arith, ◌==◌, if◌then◌else◌, length, Bool-cases,
  inl, inr, Option, none, some, ℤ, pos, negsuc,
}
use apex_db.Heap.{Heap, HeapItem, at, write}
use apex_db.Heap.Places.{IsIndexed, stored}
use apex_db.Ttl.{no_place, heap_delete, entry_set_ttl}
use apex_db.Ttl.Delete.{IsValid, heap_delete-Deleted}
use apex_db.Ttl.Upsert.{IsPlaceOf, heap_upsert-Upserted}

-- A valid heap, small enough that no place is `no_place`, in which an entry without a deadline has
-- `no_place` for its index.
pub record IsTracked (h : Heap) : Type 0 where
  pub valid : IsValid h
  pub small : length h.items ≤ no_place
  pub idle : (r : ℕ) → stored h r ≡ none → h.refs r ≡ no_place

-- The deadline that a duration stands for, if it is not negative.
abbrev pub deadline : ℤ → ℕ → Option ℕ
deadline (negsuc _) now = none
deadline (pos ttl_ms) now = some ((now + ttl_ms) % 2 ^ 64)

stored-place_of :
    (h : Heap) (r : ℕ)
    → h.refs r < length h.items
    → stored h r ≢ none
    → (at h.items (h.refs r)).ref ≡ r
unfolding stored
stored-place_of h r p n = ground arith

stored-at :
    (h : Heap) (i r : ℕ)
    → IsIndexed h
    → i < length h.items
    → (at h.items i).ref ≡ r
    → stored h r ≡ some (at h.items i).val
unfolding stored
stored-at h i r ix p e = ground (arith, ix i p)

pub stored_inside : (h : Heap) (r : ℕ) → stored h r ≢ none → h.refs r < length h.items
unfolding stored
stored_inside h r n = ground arith

refs-IsPlaceOf : (h : Heap) (ent : ℕ) → IsTracked h → IsPlaceOf h ent (h.refs ent)
refs-IsPlaceOf h ent k = record {
  own = λ p. stored-place_of h ent p (λ e. omega (arith, k.idle ent e, k.small));
  absent = λ p i q e. ground (arith, k.valid.indexed i q);
}

no_place-stored :
    (h : Heap) (ent : ℕ) → length h.items ≤ no_place → h.refs ent ≡ no_place → stored h ent ≡ none
unfolding stored
no_place-stored h ent small e = ground arith

clear-stored :
    (d : Heap) (ent r : ℕ) {n : ℕ}
    → n ≤ no_place
    → length d.items ≤ n
    → stored d ent ≡ none
    → stored (record d { refs = write d.refs ent no_place }) r ≡ stored d r
unfolding stored
clear-stored d ent r small shorter e = ground arith

-- The reference of an entry whose item is gone is cleared.
pub clear-IsTracked :
    (h d : Heap) (ent : ℕ)
    → IsTracked h
    → IsValid d
    → length d.items ≤ length h.items
    → ((r : ℕ) → stored d r ≡ (if ent == r then none else stored h r))
    → ((r : ℕ) → stored d r ≡ none → d.refs r ≡ h.refs r)
    → IsTracked (record d { refs = write d.refs ent no_place })
      × ((r : ℕ)
          → stored (record d { refs = write d.refs ent no_place }) r
            ≡ (if ent == r then none else stored h r))
clear-IsTracked h d ent k v shorter kept idle =
    let none_left : stored d ent ≡ none = ground (arith, kept ent) in
    let same = λ (r : ℕ). clear-stored d ent r k.small shorter none_left in
    (
      record {
        valid = record {
          order = v.order;
          indexed = λ i p. ground (arith, v.indexed i p, stored-at d i ent v.indexed p);
        };
        small = omega (arith, k.small);
        idle = λ r e. ground (arith, same r, idle r, k.idle r, kept r);
      },
      λ r. same r ∙ kept r,
    )

-- The negative duration needs no room in the heap.
pub entry_clear_ttl :
    (h : Heap) (ent n now : ℕ)
    → IsTracked h
    → IsTracked (entry_set_ttl h ent (negsuc n) now)
      × ((r : ℕ)
          → stored (entry_set_ttl h ent (negsuc n) now) r ≡ (if ent == r then none else stored h r))
unfolding entry_set_ttl
entry_clear_ttl h ent n now k = elim (Bool-cases (h.refs ent == no_place)) [
  | inl absent ↦ rw absent (k, λ r. ground (arith, no_place-stored h ent k.small))
  | inr there ↦
      let p = h.refs ent in
      let has : stored h ent ≢ none = λ e. ground (arith, k.idle ent e) in
      let inside = stored_inside h ent has in
      let owned = stored-place_of h ent inside has in
      let d = heap_delete-Deleted h p k.valid inside in
      rw there (
        clear-IsTracked h (heap_delete h p) ent k d.valid (omega (arith, d.size))
          (λ r. d.kept r ∙ ap (λ (x : ℕ). if x == r then none else stored h r) owned) d.idle)
]

-- In a heap of fewer than `2 ^ 64 - 1` items, setting a duration of at least zero stores the deadline `now + ttl_ms` for the entry, a negative
-- one clears it; all other deadlines stay, and the heap and its back references stay
-- consistent.
pub entry_set_ttl_lem :
    (h : Heap) (ent : ℕ) (ttl_ms : ℤ) (now : ℕ)
    → IsTracked h
    → length h.items < no_place
    → IsTracked (entry_set_ttl h ent ttl_ms now)
      × ((r : ℕ)
          → stored (entry_set_ttl h ent ttl_ms now) r
            ≡ (if ent == r then deadline ttl_ms now else stored h r))
unfolding entry_set_ttl
entry_set_ttl_lem h ent (pos ttl_ms) now k room =
    let t : HeapItem = record { val = (now + ttl_ms) % 2 ^ 64; ref = ent } in
    let u = heap_upsert-Upserted h (h.refs ent) t k.valid (refs-IsPlaceOf h ent k) in
    (
      record {
        valid = u.valid;
        small = ground (arith, u.size);
        idle = λ r e. u.idle r e ∙ k.idle r (ground (arith, u.kept r));
      },
      u.kept,
    )
entry_set_ttl_lem h ent (negsuc n) now k room = entry_clear_ttl h ent n now k
