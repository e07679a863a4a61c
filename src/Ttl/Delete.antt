-- ===== src/Ttl/Delete.antt =====
-- `heap_delete` takes one item out of the heap and leaves the others as they were.
use apex_db.Prelude.{
  ℕ, ◌-◌, ◌<◌, ◌≡◌, refl, ◌∙◌, List, arith, ltb, ◌==◌, if◌then◌else◌, length, set, take, length-set,
  length-take, get_or-take, Bool-cases, ltb→lt, ltb→le, inl, inr, none, some,
}
use apex_db.Heap.{Heap, HeapItem, no_item, at, heap_parent}
use apex_db.Heap.Order.{IsHeap}
use apex_db.Heap.Places.{IsIndexed, stored, stored_but, at-set}
use apex_db.Heap.Update.{Written, heap_update_lem}
use apex_db.Ttl.{heap_delete}

-- The heap order, with every reference in step.
pub record IsValid (h : Heap) : Type 0 where
  pub order : IsHeap h.items
  pub indexed : IsIndexed h

-- The array when the last item has been copied to `p` and popped.
shortened : List HeapItem → ℕ → List HeapItem
shortened a p = take (length a - 1) (set a p (at a (length a - 1)))

length-shortened : (a : List HeapItem) (p : ℕ) → length (shortened a p) ≡ length a - 1
unfolding shortened
length-shortened a p = omega (
  arith,
  length-take (length a - 1) (set a p (at a (length a - 1))),
  length-set a p (at a (length a - 1)),
)

at-shortened :
    (a : List HeapItem) (p i : ℕ)
    → p < length a
    → i < length a - 1
    → at (shortened a p) i ≡ (if p == i then at a (length a - 1) else at a i)
unfolding shortened
at-shortened a p i hp hi =
    get_or-take (length a - 1) (set a p (at a (length a - 1))) i no_item hi
    ∙ at-set a p (at a (length a - 1)) i hp

module _ (h : Heap) (p : ℕ) (v : IsValid h) where
  shortened-Written : p < length h.items - 1 → Written (record h { items = shortened h.items p }) p
  unfolding heap_parent
  shortened-Written inside =
      let a = h.items in
      let size = length-shortened a p in
      let hp : p < length a = omega arith in
      record {
        order = record {
          inside = omega (arith, size);
          edges = λ c q r s t.
              ground (
                arith,
                size,
                at-shortened a p c hp,
                at-shortened a p (heap_parent c) hp,
                v.order c,
              );
          bridged = λ c q r s t. ground (
            arith,
            size,
            at-shortened a p c hp,
            at-shortened a p (heap_parent p) hp,
            v.order c,
            v.order p,
          );
        };
        places = record {
          inside = omega (arith, size);
          others = λ i q n. ground (arith, size, at-shortened a p i hp, v.indexed i);
          apart = λ i q n. ground (
            arith,
            size,
            at-shortened a p i hp,
            at-shortened a p p hp,
            v.indexed i,
            v.indexed (length a - 1),
          );
        };
      }

  -- What `heap_delete` leaves: a valid heap, one item shorter, that has lost the item at `p` alone.
  pub record Deleted (h' : Heap) : Type 0 where
    pub valid : IsValid h'
    pub size : length h'.items ≡ length h.items - 1
    pub kept : (r : ℕ) → stored h' r ≡ (if (at h.items p).ref == r then none else stored h r)
    pub idle : (r : ℕ) → stored h' r ≡ none → h'.refs r ≡ h.refs r

  stored_but-shortened :
      (r : ℕ)
      → p < length h.items - 1
      → (if (at (shortened h.items p) p).ref == r
          then some (at (shortened h.items p) p).val
          else stored_but (record h { items = shortened h.items p }) p r)
        ≡ (if (at h.items p).ref == r then none else stored h r)
  unfolding stored stored_but
  stored_but-shortened r inside =
      let a = h.items in
      let hp : p < length a = omega arith in
      ground (
        arith,
        length-shortened a p,
        at-shortened a p p hp,
        at-shortened a p (h.refs r) hp,
        v.indexed p hp,
        v.indexed (length a - 1),
      )

  popped-Deleted :
      p ≡ length h.items - 1
      → p < length h.items
      → Deleted (record h { items = shortened h.items p })
  unfolding heap_parent stored
  popped-Deleted last hp =
      let a = h.items in
      let size = length-shortened a p in
      record {
        valid = record {
          order = λ c q r.
              ground (
                arith,
                size,
                at-shortened a p c hp,
                at-shortened a p (heap_parent c) hp,
                v.order c,
              );
          indexed = λ i q. ground (arith, size, at-shortened a p i hp, v.indexed i);
        };
        size = size;
        kept = λ r. ground (arith, size, at-shortened a p (h.refs r) hp, v.indexed p hp);
        idle = λ r e. refl;
      }

  -- Deleting at a place of a valid heap leaves a valid heap without the item at that place, and with
  -- every other item.
  pub heap_delete-Deleted : p < length h.items → Deleted (heap_delete h p)
  unfolding heap_delete shortened
  heap_delete-Deleted hp =
      let shorter : Heap = record h { items = shortened h.items p } in
      elim (Bool-cases (ltb p (length shorter.items))) [
        | inl inside ↦
            let lt : p < length h.items - 1 =
              omega (arith, length-shortened h.items p, ltb→lt _ _ inside) in
            let (order, s) = heap_update_lem shorter p (shortened-Written lt) in
            rw inside (record {
              valid = record { order = order; indexed = s.indexed };
              size = s.size ∙ length-shortened h.items p;
              kept = λ r. s.kept r ∙ stored_but-shortened r lt;
              idle = s.idle;
            })
        | inr outside ↦
            rw outside
              (popped-Deleted (omega (arith, length-shortened h.items p, ltb→le _ _ outside)) hp)
      ]
