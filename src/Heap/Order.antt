-- ===== src/Heap/Order.antt =====
-- The heap order, and how the two sifts restore it.
use apex_db.Prelude.{
  ℕ, zero, suc, ◌+◌, ◌*◌, ◌≤◌, ◌<◌, ◌≡◌, ◌≢◌, ◌⊎◌, ◌∙◌, ◌&&◌, List, arith, ltb, ◌==◌, if◌then◌else◌,
  length, set, length-set, get_or-set, Bool-cases, inl, inr,
}
use apex_db.Heap.{
  Heap, HeapItem, no_item, at, heap_parent, heap_left, heap_right, place, up_loop, min_place,
  down_loop,
}

abbrev pub key : List HeapItem → ℕ → ℕ
key a i = (at a i).val

-- No item is below its parent.
abbrev pub IsHeap : List HeapItem → Type 0
IsHeap a = (c : ℕ) → 0 < c → c < length a → key a (heap_parent c) ≤ key a c

-- The order apart from the edges that end at `pos`, with the edges past `pos` from its parent to its children.
pub record IsHeapBut (a : List HeapItem) (pos : ℕ) : Type 0 where
  pub inside : pos < length a
  pub edges :
      (c : ℕ)
      → 0 < c
      → c < length a
      → c ≢ pos
      → heap_parent c ≢ pos
      → key a (heap_parent c) ≤ key a c
  pub bridged :
      (c : ℕ)
      → 0 < c
      → c < length a
      → heap_parent c ≡ pos
      → 0 < pos
      → key a (heap_parent pos) ≤ key a c

-- `val` may stand at `pos` as far as the children of `pos` are concerned.
abbrev pub AboveChildren : List HeapItem → ℕ → ℕ → Type 0
AboveChildren a pos val = (c : ℕ) → 0 < c → c < length a → heap_parent c ≡ pos → val ≤ key a c

-- `val` may stand at `pos` as far as the parent of `pos` is concerned.
abbrev pub BelowParent : List HeapItem → ℕ → ℕ → Type 0
BelowParent a pos val = 0 < pos → key a (heap_parent pos) ≤ val

pub key-set :
    (a : List HeapItem) (pos : ℕ) (t : HeapItem) (i : ℕ)
    → pos < length a
    → key (set a pos t) i ≡ (if pos == i then t.val else key a i)
key-set a pos t i h = ground (arith, get_or-set a pos i t no_item)

pub length-place :
    (h : Heap) (pos : ℕ) (t : HeapItem) → length (place h pos t).items ≡ length h.items
unfolding place
length-place h pos t = length-set h.items pos t

place-IsHeap :
    (h : Heap) (pos : ℕ) (t : HeapItem)
    → IsHeapBut h.items pos
    → AboveChildren h.items pos t.val
    → BelowParent h.items pos t.val
    → IsHeap (place h pos t).items
unfolding place heap_parent
place-IsHeap h pos t v above below = λ c p q. ground (
  arith,
  length-set h.items pos t,
  key-set h.items pos t c,
  key-set h.items pos t (heap_parent c),
  v.edges c,
  above c,
)

rise-IsHeapBut :
    (h : Heap) (pos : ℕ) (t : HeapItem)
    → IsHeapBut h.items pos
    → 0 < pos
    → IsHeapBut (place h pos (at h.items (heap_parent pos))).items (heap_parent pos)
unfolding place heap_parent
rise-IsHeapBut h pos t v p =
    let up = heap_parent pos in
    let x = at h.items up in
    record {
      inside = omega (arith, length-set h.items pos x, v.inside);
      edges = λ c p' q r s. ground (
        arith,
        length-set h.items pos x,
        key-set h.items pos x c,
        key-set h.items pos x (heap_parent c),
        v.edges c,
        v.bridged c,
      );
      bridged = λ c p' q r s. ground (
        arith,
        length-set h.items pos x,
        key-set h.items pos x c,
        key-set h.items pos x (heap_parent up),
        v.edges c,
        v.edges up,
      );
    }

rise-AboveChildren :
    (h : Heap) (pos : ℕ) (t : HeapItem)
    → IsHeapBut h.items pos
    → 0 < pos
    → t.val < key h.items (heap_parent pos)
    → AboveChildren (place h pos (at h.items (heap_parent pos))).items (heap_parent pos) t.val
unfolding place heap_parent
rise-AboveChildren h pos t v p less = λ c p' q r.
    let x = at h.items (heap_parent pos) in
    ground (arith, length-set h.items pos x, key-set h.items pos x c, v.edges c)

pub up_loop-IsHeap :
    (fuel : ℕ) (h : Heap) (pos : ℕ) (t : HeapItem)
    → pos < fuel
    → IsHeapBut h.items pos
    → AboveChildren h.items pos t.val
    → IsHeap (up_loop fuel h pos t).items
unfolding up_loop heap_parent
up_loop-IsHeap zero h pos t f v above = absurd (omega arith)
up_loop-IsHeap (suc fuel) h pos t f v above =
    elim (Bool-cases (ltb 0 pos && ltb t.val (key h.items (heap_parent pos)))) [
      | inl more ↦ rw more (
          up_loop-IsHeap fuel (place h pos (at h.items (heap_parent pos))) (heap_parent pos) t
            (ground arith) (rise-IsHeapBut h pos t v (ground arith))
            (rise-AboveChildren h pos t v (ground arith) (ground arith)))
      | inr done ↦ rw done (place-IsHeap h pos t v above (ground arith))
    ]

min_place_self :
    (a : List HeapItem) (len pos : ℕ) (t : HeapItem)
    → length a ≡ len
    → min_place a len pos t ≡ pos
    → AboveChildren a pos t.val
unfolding min_place heap_parent heap_left heap_right
min_place_self a len pos t size e = λ c p q r.
    let which : (c ≡ pos * 2 + 1) ⊎ (c ≡ pos * 2 + 2) = omega arith in
    elim which [ inl l ↦ ground arith | inr l ↦ ground arith ]

-- What `min_place` gives when it is not `pos` itself.
record IsLeastChild (a : List HeapItem) (pos : ℕ) (t : HeapItem) (m : ℕ) : Type 0 where
  inside : m < length a
  later : pos < m
  child : heap_parent m ≡ pos
  less : key a m < t.val
  least : AboveChildren a pos (key a m)

min_place-IsLeastChild :
    (a : List HeapItem) (len pos : ℕ) (t : HeapItem)
    → length a ≡ len
    → min_place a len pos t ≢ pos
    → IsLeastChild a pos t (min_place a len pos t)
unfolding min_place heap_parent heap_left heap_right
min_place-IsLeastChild a len pos t size e = record {
  inside = ground arith;
  later = ground arith;
  child = ground arith;
  less = ground arith;
  least = λ c p q r.
      let which : (c ≡ pos * 2 + 1) ⊎ (c ≡ pos * 2 + 2) = omega arith in
      elim which [ inl l ↦ ground arith | inr l ↦ ground arith ];
}

sink-IsHeapBut :
    (h : Heap) (pos m : ℕ) (t : HeapItem)
    → IsHeapBut h.items pos
    → IsLeastChild h.items pos t m
    → IsHeapBut (place h pos (at h.items m)).items m
      × BelowParent (place h pos (at h.items m)).items m t.val
unfolding place heap_parent
sink-IsHeapBut h pos m t v s =
    let x = at h.items m in
    let size = length-set h.items pos x in
    (
      record {
        inside = omega (arith, size, s.inside);
        edges = λ c p q r u. ground (
          arith,
          size,
          key-set h.items pos x c,
          key-set h.items pos x (heap_parent c),
          v.edges c,
          v.bridged m,
          s.least c,
        );
        bridged = λ c p q r u. ground (
          arith,
          size,
          key-set h.items pos x c,
          key-set h.items pos x (heap_parent m),
          v.edges c,
        );
      },
      λ p. ground (arith, key-set h.items pos x (heap_parent m)),
    )

pub down_loop-IsHeap :
    (fuel : ℕ) (h : Heap) (len pos : ℕ) (t : HeapItem)
    → length h.items ≡ len
    → len < pos + fuel
    → IsHeapBut h.items pos
    → BelowParent h.items pos t.val
    → IsHeap (down_loop fuel h len pos t).items
unfolding down_loop
down_loop-IsHeap zero h len pos t size f v below = absurd (omega (arith, v.inside))
down_loop-IsHeap (suc fuel) h len pos t size f v below =
    elim (Bool-cases (min_place h.items len pos t == pos)) [
      | inl done ↦
          rw done
            (place-IsHeap h pos t v (min_place_self h.items len pos t size (ground arith)) below)
      | inr more ↦
          let m = min_place h.items len pos t in
          let s = min_place-IsLeastChild h.items len pos t size (ground arith) in
          let (v', below') = sink-IsHeapBut h pos m t v s in
          rw more (
            down_loop-IsHeap fuel (place h pos (at h.items m)) len m t (length-place h pos _ ∙ size)
              (omega (arith, s.later)) v' below')
    ]

pub root_least_below :
    (k : ℕ) (a : List HeapItem) (i : ℕ) → IsHeap a → i < k → i < length a → key a 0 ≤ key a i
unfolding heap_parent
root_least_below zero a i h f p = absurd (omega arith)
root_least_below (suc k) a i h f p = ground (arith, h i, root_least_below k a (heap_parent i) h)

-- The root of a heap has the least value.
pub root_least : (a : List HeapItem) (i : ℕ) → IsHeap a → i < length a → key a 0 ≤ key a i
root_least a i h p = root_least_below (suc i) a i h (omega arith) p
