-- ===== src/Ttl/Upsert.antt =====
-- `heap_upsert` adds one item to the heap, or gives one item a new value.
use apex_db.Prelude.{
  ℕ, ◌+◌, ◌≤◌, ◌<◌, ◌≡◌, ◌≢◌, ◌∙◌, [], ◌∷◌, ◌++◌, arith, ltb, ◌==◌, if◌then◌else◌, length, set,
  length-set, length-append, get_or-append, get_or-append_last, Bool-cases, ltb→lt, ltb→le, inl,
  inr, none, some,
}
use apex_db.Heap.{Heap, HeapItem, no_item, at, heap_parent}
use apex_db.Heap.Order.{key-set}
use apex_db.Heap.Places.{stored, stored_but, at-set}
use apex_db.Heap.Update.{Written, heap_update_lem}
use apex_db.Ttl.{heap_upsert}
use apex_db.Ttl.Delete.{IsValid}

-- `p` is the place of the item that refers to `r`, or past the end if there is none.
pub record IsPlaceOf (h : Heap) (r p : ℕ) : Type 0 where
  pub own : p < length h.items → (at h.items p).ref ≡ r
  pub absent : length h.items ≤ p → (i : ℕ) → i < length h.items → (at h.items i).ref ≢ r

module _ (h : Heap) (p : ℕ) (t : HeapItem) (v : IsValid h) (w : IsPlaceOf h t.ref p) where
  -- What `heap_upsert` leaves: a valid heap that stores `t` and otherwise what it stored before.
  pub record Upserted (h' : Heap) : Type 0 where
    pub valid : IsValid h'
    pub size :
        length h'.items ≡ (if ltb p (length h.items) then length h.items else length h.items + 1)
    pub kept : (r : ℕ) → stored h' r ≡ (if t.ref == r then some t.val else stored h r)
    pub idle : (r : ℕ) → stored h' r ≡ none → h'.refs r ≡ h.refs r

  changed-Written : p < length h.items → Written (record h { items = set h.items p t }) p
  unfolding heap_parent
  changed-Written hp =
      let a = h.items in
      let size = length-set a p t in
      record {
        order = record {
          inside = omega (arith, size);
          edges = λ c q r s u.
              ground (arith, size, key-set a p t c hp, key-set a p t (heap_parent c) hp, v.order c);
          bridged = λ c q r s u. ground (
            arith,
            size,
            key-set a p t c hp,
            key-set a p t (heap_parent p) hp,
            v.order c,
            v.order p,
          );
        };
        places = record {
          inside = omega (arith, size);
          others = λ i q n. ground (arith, size, at-set a p t i hp, v.indexed i);
          apart = λ i q n.
              ground (
                arith,
                size,
                at-set a p t i hp,
                at-set a p t p hp,
                v.indexed i,
                v.indexed p,
                w.own,
              );
        };
      }

  changed-kept :
      (r : ℕ)
      → p < length h.items
      → (if (at (set h.items p t) p).ref == r
          then some (at (set h.items p t) p).val
          else stored_but (record h { items = set h.items p t }) p r)
        ≡ (if t.ref == r then some t.val else stored h r)
  unfolding stored stored_but
  changed-kept r hp =
      let a = h.items in
      ground (
        arith,
        length-set a p t,
        at-set a p t p hp,
        at-set a p t (h.refs r) hp,
        v.indexed p hp,
        w.own hp,
      )

  at-longer : (i : ℕ) → i < length h.items → at (h.items ++ t ∷ []) i ≡ at h.items i
  at-longer i hi = get_or-append h.items (t ∷ []) i no_item hi

  at-longer_last : at (h.items ++ t ∷ []) (length h.items) ≡ t
  at-longer_last = get_or-append_last h.items t no_item

  longer-Written :
      length h.items ≤ p → Written (record h { items = h.items ++ t ∷ [] }) (length h.items)
  unfolding heap_parent
  longer-Written hp =
      let a = h.items in
      let size = length-append a (t ∷ []) in
      record {
        order = record {
          inside = omega (arith, size);
          edges =
              λ c q r s u. ground (arith, size, at-longer c, at-longer (heap_parent c), v.order c);
          bridged = λ c q r s u. absurd (omega (arith, size));
        };
        places = record {
          inside = omega (arith, size);
          others = λ i q n. ground (arith, size, at-longer i, v.indexed i);
          apart = λ i q n. ground (arith, size, at-longer i, at-longer_last, w.absent hp i);
        };
      }

  longer-kept :
      (r : ℕ)
      → length h.items ≤ p
      → (if (at (h.items ++ t ∷ []) (length h.items)).ref == r
          then some (at (h.items ++ t ∷ []) (length h.items)).val
          else stored_but (record h { items = h.items ++ t ∷ [] }) (length h.items) r)
        ≡ (if t.ref == r then some t.val else stored h r)
  unfolding stored stored_but
  longer-kept r hp =
      ground (arith, length-append h.items (t ∷ []), at-longer_last, at-longer (h.refs r))

  -- Writing an item to its owner's place of a valid heap, or appending it when it has none, leaves a
  -- valid heap that stores this item and every item of another owner.
  pub heap_upsert-Upserted : Upserted (heap_upsert h p t)
  unfolding heap_upsert
  heap_upsert-Upserted = elim (Bool-cases (ltb p (length h.items))) [
    | inl inside ↦
        let hp = ltb→lt _ _ inside in
        let (order, s) =
          heap_update_lem (record h { items = set h.items p t }) p (changed-Written hp) in
        rw inside (record {
          valid = record { order = order; indexed = s.indexed };
          size = rw inside (s.size ∙ length-set h.items p t);
          kept = λ r. s.kept r ∙ changed-kept r hp;
          idle = s.idle;
        })
    | inr outside ↦
        let hp = ltb→le _ _ outside in
        let (order, s) =
          heap_update_lem (record h { items = h.items ++ t ∷ [] }) (length h.items)
            (longer-Written hp) in
        rw outside (record {
          valid = record { order = order; indexed = s.indexed };
          size = rw outside (s.size ∙ length-append h.items (t ∷ []));
          kept = λ r. s.kept r ∙ longer-kept r hp;
          idle = s.idle;
        })
  ]
