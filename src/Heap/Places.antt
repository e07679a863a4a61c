-- ===== src/Heap/Places.antt =====
-- The numbers behind the references: each says where its item stands, before and after a sift, and
-- a sift changes no item's value.
use apex_db.Prelude.{
  ℕ, zero, suc, ◌<◌, ◌≡◌, ◌≢◌, ◌∙◌, ap, not, ◌&&◌, List, arith, ltb, ◌==◌, if◌then◌else◌, length,
  set, length-set, get_or-set, Bool-cases, inl, inr, Option, none, some, ==_iff,
}
use apex_db.Heap.{Heap, HeapItem, no_item, at, heap_parent, place, up_loop, min_place, down_loop}
use apex_db.Heap.Order.{length-place}

-- Each reference holds the place of its item, so no two items share one.
abbrev pub IsIndexed : Heap → Type 0
IsIndexed h = (i : ℕ) → i < length h.items → h.refs (at h.items i).ref ≡ i

-- The value of the item that refers to `r`, if there is one.
unfoldable pub stored : Heap → ℕ → Option ℕ
stored h r =
    if ltb (h.refs r) (length h.items) && ((at h.items (h.refs r)).ref == r)
    then some (at h.items (h.refs r)).val
    else none

-- The same while `t` is held in a local variable and `pos` is free.
pub record IsIndexedBut (h : Heap) (pos : ℕ) (t : HeapItem) : Type 0 where
  pub inside : pos < length h.items
  pub others : (i : ℕ) → i < length h.items → i ≢ pos → h.refs (at h.items i).ref ≡ i
  pub apart : (i : ℕ) → i < length h.items → i ≢ pos → (at h.items i).ref ≢ t.ref

pub at-set :
    (a : List HeapItem) (pos : ℕ) (t : HeapItem) (i : ℕ)
    → pos < length a
    → at (set a pos t) i ≡ (if pos == i then t else at a i)
at-set a pos t i h = get_or-set a pos i t no_item h

place-IsIndexed :
    (h : Heap) (pos : ℕ) (t : HeapItem) → IsIndexedBut h pos t → IsIndexed (place h pos t)
unfolding place
place-IsIndexed h pos t v = λ i p.
    ground (arith, length-set h.items pos t, at-set h.items pos t i v.inside, v.others i, v.apart i)

-- Moving the item at `m` to the free place frees `m`.
move-IsIndexedBut :
    (h : Heap) (pos m : ℕ) (t : HeapItem)
    → m < length h.items
    → m ≢ pos
    → IsIndexedBut h pos t
    → IsIndexedBut (place h pos (at h.items m)) m t
unfolding place
move-IsIndexedBut h pos m t p n v =
    let x = at h.items m in
    let size = length-set h.items pos x in
    record {
      inside = omega (arith, size);
      others = λ i q u.
          ground (arith, size, at-set h.items pos x i v.inside, v.others i, v.others m p n);
      apart =
          λ i q u. ground (arith, size, at-set h.items pos x i v.inside, v.apart i, v.apart m p n);
    }

-- What is stored outside of the free place.
unfoldable pub stored_but : Heap → ℕ → ℕ → Option ℕ
stored_but h pos r =
    if ltb (h.refs r) (length h.items)
      && (not (h.refs r == pos) && ((at h.items (h.refs r)).ref == r))
    then some (at h.items (h.refs r)).val
    else none

pub stored-place :
    (h : Heap) (pos : ℕ) (t : HeapItem) (r : ℕ)
    → pos < length h.items
    → stored (place h pos t) r ≡ (if t.ref == r then some t.val else stored_but h pos r)
unfolding stored stored_but place
stored-place h pos t r p =
    let k = h.refs r in
    ground (arith, length-set h.items pos t, at-set h.items pos t pos p, at-set h.items pos t k p)

stored_but-move :
    (h : Heap) (pos m : ℕ) (t : HeapItem) (r : ℕ)
    → m < length h.items
    → m ≢ pos
    → IsIndexedBut h pos t
    → stored_but (place h pos (at h.items m)) m r ≡ stored_but h pos r
unfolding stored_but place
stored_but-move h pos m t r p n v =
    let k = h.refs r in
    let x = at h.items m in
    ground (
      arith,
      length-set h.items pos x,
      at-set h.items pos x pos v.inside,
      at-set h.items pos x k v.inside,
      v.others m p n,
    )

-- The result of a sift that put `t` in place: indexed, as long as before, with `t` and the others stored.
pub record Settled (h : Heap) (pos : ℕ) (t : HeapItem) (h' : Heap) : Type 0 where
  pub indexed : IsIndexed h'
  pub size : length h'.items ≡ length h.items
  pub kept : (r : ℕ) → stored h' r ≡ (if t.ref == r then some t.val else stored_but h pos r)
  pub idle : (r : ℕ) → stored h' r ≡ none → h'.refs r ≡ h.refs r

place-Settled :
    (h : Heap) (pos : ℕ) (t : HeapItem) → IsIndexedBut h pos t → Settled h pos t (place h pos t)
unfolding place
place-Settled h pos t v = record {
  indexed = place-IsIndexed h pos t v;
  size = length-place h pos t;
  kept = λ r. stored-place h pos t r v.inside;
  idle = λ r e. ground (arith, stored-place h pos t r v.inside);
}

-- An item that is moved is stored still.
stored_but-at :
    (h : Heap) (pos m : ℕ) (t : HeapItem)
    → m < length h.items
    → m ≢ pos
    → IsIndexedBut h pos t
    → stored_but h pos (at h.items m).ref ≡ some (at h.items m).val
unfolding stored_but
stored_but-at h pos m t p n v = ground (arith, v.others m p n)

move-Settled :
    (h : Heap) (pos m : ℕ) (t : HeapItem) (h' : Heap)
    → m < length h.items
    → m ≢ pos
    → IsIndexedBut h pos t
    → Settled (place h pos (at h.items m)) m t h'
    → Settled h pos t h'
unfolding place
move-Settled h pos m t h' p n v s = record {
  indexed = s.indexed;
  size = s.size ∙ length-place h pos (at h.items m);
  kept = λ r.
      s.kept r ∙ ap (λ o. if t.ref == r then some t.val else o) (stored_but-move h pos m t r p n v);
  idle = λ r e. ground (
    arith,
    s.idle r e,
    s.kept r,
    stored_but-move h pos m t r p n v,
    stored_but-at h pos m t p n v,
    ==_iff (at h.items m).ref r,
  );
}

pub up_loop-Settled :
    (fuel : ℕ) (h : Heap) (pos : ℕ) (t : HeapItem)
    → IsIndexedBut h pos t
    → Settled h pos t (up_loop fuel h pos t)
unfolding up_loop heap_parent
up_loop-Settled zero h pos t v = place-Settled h pos t v
up_loop-Settled (suc fuel) h pos t v =
    elim (Bool-cases (ltb 0 pos && ltb t.val (at h.items (heap_parent pos)).val)) [
      | inl more ↦
          let m = heap_parent pos in
          let p : m < length h.items = ground (arith, v.inside) in
          let n : m ≢ pos = ground arith in
          rw more (
            move-Settled h pos m t _ p n v (
              up_loop-Settled fuel (place h pos (at h.items m)) m t
                (move-IsIndexedBut h pos m t p n v)))
      | inr done ↦ rw done (place-Settled h pos t v)
    ]

min_place-lt :
    (a : List HeapItem) (len pos : ℕ) (t : HeapItem) → pos < len → min_place a len pos t < len
unfolding min_place
min_place-lt a len pos t h = ground arith

pub down_loop-Settled :
    (fuel : ℕ) (h : Heap) (len pos : ℕ) (t : HeapItem)
    → length h.items ≡ len
    → IsIndexedBut h pos t
    → Settled h pos t (down_loop fuel h len pos t)
unfolding down_loop
down_loop-Settled zero h len pos t size v = place-Settled h pos t v
down_loop-Settled (suc fuel) h len pos t size v =
    elim (Bool-cases (min_place h.items len pos t == pos)) [
      | inl done ↦ rw done (place-Settled h pos t v)
      | inr more ↦
          let m = min_place h.items len pos t in
          let p : m < length h.items = omega (arith, min_place-lt h.items len pos t, v.inside) in
          let n : m ≢ pos = ground arith in
          rw more (
            move-Settled h pos m t _ p n v (
              down_loop-Settled fuel (place h pos (at h.items m)) len m t
                (length-place h pos _ ∙ size) (move-IsIndexedBut h pos m t p n v)))
    ]
