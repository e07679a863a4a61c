-- ===== src/Tests/Tables.antt =====
-- The hash table and the heap at concrete inputs.
use mathlib.Core.List.{foldl}
use apex_db.Prelude.{
  ℕ, zero, suc, Bool-cases, inl, inr, ap, sym, ◌∙◌, ◌≡◌, ◌+◌, refl, Bool, true, none, [], ◌∷◌,
  arith, ◌==◌, length, if◌then◌else◌, pos,
}
use apex_db.HashTable.{
  HNode, HTab, h_init, h_insert, HMap, empty_map, hm_help_rehashing, hm_lookup, hm_insert,
  hm_delete, hm_size, hm_foreach, matches, k_rehashing_work,
}
use apex_db.HashTable.Chains.{to_nat, count}
use apex_db.HashTable.Tables.{IsTable, h_init-IsTable, h_insert-IsTable, length-h_insert}
use apex_db.HashTable.Rehash.{held, IsMap, Rehashed, hm_help_rehashing-Rehashed}
use apex_db.HashTable.Maps.{
  empty_map-IsMap, Found, hm_lookup-Found, hm_insert-IsMap, Removed, hm_delete-Removed, hm_size_lem,
}
use apex_db.HashTable.Foreach.{each, all_nodes, hm_foreach-foldl}
use apex_db.Heap.{Heap, heap_parent}
use apex_db.Heap.Order.{IsHeap}
use apex_db.Heap.Places.{stored, IsIndexed}
use apex_db.Ttl.{no_place, heap_delete, heap_upsert, entry_set_ttl}
use apex_db.Ttl.Delete.{Deleted, heap_delete-Deleted}
use apex_db.Ttl.Upsert.{IsPlaceOf, Upserted, heap_upsert-Upserted}
use apex_db.Ttl.Entries.{IsTracked, deadline, entry_set_ttl_lem}

-- Two nodes of one bucket.
abbrev first : HNode ℕ
first = record { hcode = 1; item = 10 }

abbrev second : HNode ℕ
second = record { hcode = 5; item = 20 }

abbrev two : HMap ℕ
two = hm_insert (hm_insert empty_map first) second

two-IsMap : IsMap two
two-IsMap =
    (hm_insert-IsMap (hm_insert empty_map first) second
      (hm_insert-IsMap empty_map first empty_map-IsMap).0).0

-- A map whose old table still has both nodes.
abbrev full : HTab ℕ
full = h_insert (h_insert (h_init 4) first) second

abbrev growing : HMap ℕ
growing = record { newer = h_init 8; older = full; migrate_pos = 0 }

four-IsTable : IsTable (h_init {A = ℕ} 4) × (length (h_init {A = ℕ} 4).tab ≡ 4)
four-IsTable = let (t, size, _) = h_init-IsTable {A = ℕ} 4 (omega arith) in (t, size)

growing-IsMap : IsMap growing
growing-IsMap =
    let (eight, size, _) = h_init-IsTable {A = ℕ} 8 (omega arith) in
    let (four, size') = four-IsTable in
    let one = h_insert-IsTable (h_init {A = ℕ} 4) four first (omega (arith, size')) in
    record {
      newer = eight;
      older =
          h_insert-IsTable (h_insert (h_init 4) first) one second
            (omega (arith, size', length-h_insert (h_init {A = ℕ} 4) first));
      allocated = λ _. omega (arith, size);
      emptied = λ i h. absurd (omega (arith, h));
    }

hm_help_rehashing-Rehashed_example : Rehashed k_rehashing_work growing (hm_help_rehashing growing)
hm_help_rehashing-Rehashed_example = hm_help_rehashing-Rehashed growing growing-IsMap

hm_lookup-Found_example :
    IsMap (hm_lookup two 5 (λ a. a == 20)).0
    × ((r : HNode ℕ → Bool) → held r (hm_lookup two 5 (λ a. a == 20)).0 ≡ held r two)
    × Found (matches 5 (λ a. a == 20)) two (hm_lookup two 5 (λ a. a == 20)).1
hm_lookup-Found_example = hm_lookup-Found two 5 (λ a. a == 20) two-IsMap

hm_insert-IsMap_example :
    IsMap (hm_insert two first)
    × ((q : HNode ℕ → Bool) → held q (hm_insert two first) ≡ held q two + to_nat (q first))
hm_insert-IsMap_example = hm_insert-IsMap two first two-IsMap

hm_delete-Removed_example :
    IsMap (hm_delete two 1 (λ a. a == 10)).0
    × Removed
        (matches 1 (λ a. a == 10))
        two
        (hm_delete two 1 (λ a. a == 10)).0
        (hm_delete two 1 (λ a. a == 10)).1
hm_delete-Removed_example = hm_delete-Removed two 1 (λ a. a == 10) two-IsMap

hm_size_lem_test : hm_size two ≡ held (λ _. true) two
hm_size_lem_test = hm_size_lem two two-IsMap

-- The sum of the items.
abbrev total : ℕ → HNode ℕ → ℕ
total s node = s + node.item

hm_foreach-foldl_example :
    (hm_foreach two (each total) 0 ≡ foldl total 0 (all_nodes two))
    × ((q : HNode ℕ → Bool) → count q (all_nodes two) ≡ held q two)
hm_foreach-foldl_example = hm_foreach-foldl total two 0 two-IsMap

-- A heap of two deadlines, of the entries 7 and 8.
abbrev pair : Heap
pair = record {
  items = record { val = 30; ref = 8 } ∷ record { val = 50; ref = 7 } ∷ [];
  refs = λ r. if r == 8 then 0 else if r == 7 then 1 else no_place;
}

pair-IsHeap : IsHeap pair.items
unfolding heap_parent
pair-IsHeap zero p q = absurd (omega arith)
pair-IsHeap (suc zero) p q = omega arith
pair-IsHeap (suc (suc i)) p q = absurd (omega arith)

pair-IsIndexed : IsIndexed pair
pair-IsIndexed zero p = refl
pair-IsIndexed (suc zero) p = refl
pair-IsIndexed (suc (suc i)) p = absurd (omega arith)

pair-idle : (r : ℕ) → stored pair r ≡ none → pair.refs r ≡ no_place
unfolding stored
pair-idle r e = elim (Bool-cases (r == 8)) [
  | inl h ↦
      let same : r ≡ 8 = ground arith in
      absurd (let clash : stored pair 8 ≡ none = ap (stored pair) (sym same) ∙ e in cc)
  | inr h ↦ elim (Bool-cases (r == 7)) [
    | inl h' ↦
        let same : r ≡ 7 = ground arith in
        absurd (let clash : stored pair 7 ≡ none = ap (stored pair) (sym same) ∙ e in cc)
    | inr h' ↦ rw (h, h') refl
  ]
]

pair-IsTracked : IsTracked pair
pair-IsTracked = record {
  valid = record { order = pair-IsHeap; indexed = pair-IsIndexed };
  small = omega arith;
  idle = pair-idle;
}

heap_delete-Deleted_example : Deleted pair 0 pair-IsTracked.valid (heap_delete pair 0)
heap_delete-Deleted_example = heap_delete-Deleted pair 0 pair-IsTracked.valid (omega arith)

seven-IsPlaceOf : IsPlaceOf pair 7 1
seven-IsPlaceOf = record { own = λ p. refl; absent = λ p. absurd (omega arith) }

heap_upsert-Upserted_test :
    Upserted pair 1
      (record { val = 20; ref = 7 })
      pair-IsTracked.valid
      seven-IsPlaceOf
      (heap_upsert pair 1 (record { val = 20; ref = 7 }))
heap_upsert-Upserted_test =
    heap_upsert-Upserted pair 1 (record { val = 20; ref = 7 }) pair-IsTracked.valid seven-IsPlaceOf

entry_set_ttl_lem_example :
    IsTracked (entry_set_ttl pair 7 (pos 5) 10)
    × ((r : ℕ)
        → stored (entry_set_ttl pair 7 (pos 5) 10) r
          ≡ (if 7 == r then deadline (pos 5) 10 else stored pair r))
entry_set_ttl_lem_example = entry_set_ttl_lem pair 7 (pos 5) 10 pair-IsTracked (omega arith)
