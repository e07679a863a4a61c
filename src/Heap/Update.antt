-- ===== src/Heap/Update.antt =====
-- `heap_update` after an item was written at one place.
use apex_db.Prelude.{ℕ, ◌+◌, refl, ◌&&◌, arith, ltb, length, Bool-cases, inl, inr}
use apex_db.Heap.{Heap, at, heap_parent, heap_up, heap_down, heap_update}
use apex_db.Heap.Order.{IsHeap, IsHeapBut, up_loop-IsHeap, down_loop-IsHeap}
use apex_db.Heap.Places.{IsIndexedBut, Settled, up_loop-Settled, down_loop-Settled}

-- An item was written at `pos` of a heap, and nothing else is out of place.
pub record Written (h : Heap) (pos : ℕ) : Type 0 where
  pub order : IsHeapBut h.items pos
  pub places : IsIndexedBut h pos (at h.items pos)

-- After a write at one place `heap_update` restores the heap order, leaves every reference naming the
-- place of its item, and stores exactly the written item and the items that stood elsewhere.
pub heap_update_lem :
    (h : Heap) (pos : ℕ)
    → Written h pos
    → IsHeap (heap_update h pos (length h.items)).items
      × Settled h pos (at h.items pos) (heap_update h pos (length h.items))
unfolding heap_update heap_up heap_down
heap_update_lem h pos w =
    elim (Bool-cases (ltb 0 pos && ltb (at h.items pos).val (at h.items (heap_parent pos)).val)) [
      | inl up ↦ rw up (
        up_loop-IsHeap (pos + 1) h pos (at h.items pos) (omega arith) w.order
            (λ c p q r. ground (arith, w.order.bridged c)),
        up_loop-Settled (pos + 1) h pos (at h.items pos) w.places,
      )
      | inr down ↦ rw down (
        down_loop-IsHeap (length h.items + 1) h (length h.items) pos (at h.items pos) refl
            (omega arith) w.order (ground arith),
        down_loop-Settled (length h.items + 1) h (length h.items) pos (at h.items pos) refl
            w.places,
      )
    ]
