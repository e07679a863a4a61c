-- ===== src/Heap.antt =====
-- The binary min-heap of deadlines (src/heap.cpp, include/heap.hpp). An item refers to the `size_t`
-- in which its owner keeps the item's place; `refs` is the memory that holds these numbers.
-- An index stays below twice the length plus two, so `size_t` does not overflow.
pub mod Order
pub mod Places
pub mod Update
use apex_db.Prelude.{
  ℕ, zero, suc, ◌+◌, ◌-◌, ◌*◌, ◌/◌, Bool, true, false, ◌&&◌, List, [], ◌∷◌, ltb, ◌==◌,
  if◌then◌else◌, length, get_or, set, Option, some, none,
}

pub record HeapItem : Type 0 where
  pub val : ℕ
  pub ref : ℕ

-- The array and the memory behind the references.
pub record Heap : Type 0 where
  pub items : List HeapItem
  pub refs : ℕ → ℕ

abbrev pub no_item : HeapItem
no_item = record { val = 0; ref = 0 }

-- `a[i]`; the proofs show that no read is out of bounds.
abbrev pub at : List HeapItem → ℕ → HeapItem
at a i = get_or a i no_item

unfoldable pub heap_parent : ℕ → ℕ
heap_parent i = (i + 1) / 2 - 1

unfoldable pub heap_left : ℕ → ℕ
heap_left i = i * 2 + 1

unfoldable pub heap_right : ℕ → ℕ
heap_right i = i * 2 + 2

-- `*addr = v`
abbrev pub write : (ℕ → ℕ) → ℕ → ℕ → ℕ → ℕ
write refs addr v = λ x. if addr == x then v else refs x

-- `a[pos] = t; *a[pos].ref = pos;`
unfoldable pub place : Heap → ℕ → HeapItem → Heap
place h pos t = record { items = set h.items pos t; refs = write h.refs t.ref pos }

-- The loop of `heap_up`. A round halves `pos`, so `pos + 1` rounds are enough.
unfoldable pub up_loop : ℕ → Heap → ℕ → HeapItem → Heap
up_loop zero h pos t = place h pos t
up_loop (suc fuel) h pos t =
    let rise = up_loop fuel (place h pos (at h.items (heap_parent pos))) (heap_parent pos) t in
    if ltb 0 pos && ltb t.val (at h.items (heap_parent pos)).val then rise else place h pos t

unfoldable pub heap_up : Heap → ℕ → Heap
heap_up h pos = up_loop (pos + 1) h pos (at h.items pos)

-- The place of the smallest among `t`, at `pos`, and the children of `pos`.
unfoldable pub min_place : List HeapItem → ℕ → ℕ → HeapItem → ℕ
min_place a len pos t =
    let l = heap_left pos in
    let r = heap_right pos in
    let left_less = ltb l len && ltb (at a l).val t.val in
    let min_pos = if left_less then l else pos in
    let min_val = if left_less then (at a l).val else t.val in
    if ltb r len && ltb (at a r).val min_val then r else min_pos

-- The loop of `heap_down`. A round raises `pos`, which stays below `len`.
unfoldable pub down_loop : ℕ → Heap → ℕ → ℕ → HeapItem → Heap
down_loop zero h len pos t = place h pos t
down_loop (suc fuel) h len pos t =
    let min_pos = min_place h.items len pos t in
    let sink = down_loop fuel (place h pos (at h.items min_pos)) len min_pos t in
    if min_pos == pos then place h pos t else sink

unfoldable pub heap_down : Heap → ℕ → ℕ → Heap
heap_down h pos len = down_loop (len + 1) h len pos (at h.items pos)

unfoldable pub heap_update : Heap → ℕ → ℕ → Heap
heap_update h pos len =
    if ltb 0 pos && ltb (at h.items pos).val (at h.items (heap_parent pos)).val
    then heap_up h pos
    else heap_down h pos len
