-- ===== src/Ttl.antt =====
-- The deadlines of entries (src/kv_store.cpp: `heap_delete`, `heap_upsert`, `entry_set_ttl`). An entry
-- is named by the address of its `heap_idx`, which is `refs` at that address.
pub mod Delete
pub mod Upsert
pub mod Entries
use apex_db.Prelude.{
  ℕ, ◌+◌, ◌-◌, ◌%◌, ◌^◌, Bool, not, ◌&&◌, List, [], ◌∷◌, ◌++◌, ltb, ◌==◌, if◌then◌else◌, length,
  set, take, ℤ, pos, negsuc,
}
use apex_db.Heap.{Heap, HeapItem, at, write, heap_update}

-- `static_cast<size_t>(-1)`: the entry has no deadline.
abbrev pub no_place : ℕ
no_place = 18446744073709551615

unfoldable pub heap_delete : Heap → ℕ → Heap
heap_delete h p =
    let last = length h.items - 1 in
    let shorter = record h { items = take last (set h.items p (at h.items last)) } in
    if ltb p (length shorter.items) then heap_update shorter p (length shorter.items) else shorter

unfoldable pub heap_upsert : Heap → ℕ → HeapItem → Heap
heap_upsert h p t =
    let changed = record h { items = set h.items p t } in
    let longer = record h { items = h.items ++ t ∷ [] } in
    if ltb p (length h.items)
    then heap_update changed p (length changed.items)
    else heap_update longer (length h.items) (length longer.items)

-- `now` is the value of `get_monotonic_msec()`; the sum is a `uint64_t`.
unfoldable pub entry_set_ttl : Heap → ℕ → ℤ → ℕ → Heap
entry_set_ttl h ent (negsuc _) now =
    let deleted = heap_delete h (h.refs ent) in
    if not (h.refs ent == no_place)
    then record deleted { refs = write deleted.refs ent no_place }
    else h
entry_set_ttl h ent (pos ttl_ms) now =
    heap_upsert h (h.refs ent) (record { val = (now + ttl_ms) % 2 ^ 64; ref = ent })
