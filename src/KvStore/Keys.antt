-- ===== src/KvStore/Keys.antt =====
-- The commands that tell which keys are bound (src/kv_store.cpp: `do_keys`, `exists` and `type`).
use mathlib.Core.List.{foldl}
use apex_db.Prelude.{
  ℕ, ◌≡◌, refl, sym, ◌∙◌, ap, Bool, true, false, ◌&&◌, Option, none, some, List, [], ◌∷◌, arith,
  if◌then◌else◌, length, Bool-cases, Option-cases, inl, inr,
}
use apex_db.Bytes.{Bytes}
use apex_db.Protocol.{out_str, out_int, out_arr}
use apex_db.Sharding.{codes}
use apex_db.Floats.{Floats}
use apex_db.HashTable.{HNode, hm_size}
use apex_db.HashTable.Chains.{count}
use apex_db.HashTable.Rehash.{held}
use apex_db.HashTable.Maps.{hm_size_lem}
use apex_db.HashTable.Counts.{held_mono}
use apex_db.HashTable.Foreach.{all_nodes, hm_foreach-foldl}
use apex_db.KvStore.{Store, Entry, is_str, find_entry, do_keys, do_exists, do_type}
use apex_db.KvStore.Invariant.{
  Value, text, members, IsValid, has_key, is_at, view, view-none, view-Bound, value_of,
  find_entry-none, find_entry-some, Unchanged,
}
use apex_db.KvStore.Bindings.{Lookup-cases, missed, hit}

count-true : (c : List (HNode ℕ)) → count (λ _. true) c ≡ length c
unfolding count
count-true [] = refl
count-true (n ∷ c) = omega (arith, count-true c)

module _ {D : Type 0} ⦃f : Floats D⦄ where
  abbrev pub is_bound : Option (Value D × Option ℕ) → Bool
  is_bound none = false
  is_bound (some _) = true

  abbrev pub type_name : Option (Value D × Option ℕ) → Bytes
  type_name none = codes "none"
  type_name (some (text _, _)) = codes "string"
  type_name (some (members _, _)) = codes "zset"

  -- `exists` on a valid store answers whether the key is bound, and leaves all bindings as they are.
  pub do_exists_lem :
      (s : Store D) (key out : Bytes)
      → IsValid s
      → Unchanged s (do_exists s key out).0
        × ((do_exists s key out).1 ≡ out_int out (if is_bound (view s key) then 1 else 0))
  unfolding do_exists
  do_exists_lem s key out v = elim (Lookup-cases s key v) [
    | missed u e h reads ↦ rw (reads, do_exists, e) (u, refl)
    | hit a u e b reads ↦ rw (reads, do_exists, e) (u, refl)
  ]

  entry_type :
      (e : Entry D) (t : Option ℕ)
      → (if is_str e.type then codes "string" else codes "zset") ≡ type_name (some (value_of e, t))
  entry_type e t = elim (Bool-cases (is_str e.type)) [ inl h ↦ rw h refl | inr h ↦ rw h refl ]

  -- `type` on a valid store answers the name of what the key is bound to, or `none`, and leaves all
  -- bindings as they are.
  pub do_type_lem :
      (s : Store D) (key out : Bytes)
      → IsValid s
      → Unchanged s (do_type s key out).0
        × ((do_type s key out).1 ≡ out_str out (type_name (view s key)))
  unfolding do_type
  do_type_lem s key out v = elim (Lookup-cases s key v) [
    | missed u e h reads ↦ rw (reads, do_type, e) (u, refl)
    | hit a u e b reads ↦
        rw (reads, do_type, e) (u, ap (out_str out) (entry_type ((find_entry s key).0.entries a) _))
  ]

  held-view :
      (s : Store D) (k : Bytes)
      → IsValid s
      → held (has_key s k) s.db ≡ (if is_bound (view s k) then 1 else 0)
  held-view s k v = elim (Option-cases (find_entry s k).1) [
    | inl e ↦ let empty = find_entry-none s k v e in rw (view-none s k v empty) empty
    | inr (a, e) ↦
        let b = find_entry-some s k a v e in
        rw (view-Bound s k a v b) (
          omega (
            arith,
            b,
            v.distinct k,
            held_mono s.db (λ n. is_at a n && has_key s k n) (has_key s k) (λ n. ground arith),
          ))
  ]

  -- `keys` on a valid store answers an array of the length that it announces, of the keys of a list of
  -- nodes in which every bound key stands once and no other key stands.
  pub do_keys_lem :
      (s : Store D) (out : Bytes)
      → IsValid s
      → (do_keys s out ≡ (
        s,
        foldl
            (λ (o : Bytes) (n : HNode ℕ). out_str o (s.entries n.item).key)
            (out_arr out (length (all_nodes s.db)))
            (all_nodes s.db),
      ))
        × ((k : Bytes)
            → count (has_key s k) (all_nodes s.db) ≡ (if is_bound (view s k) then 1 else 0))
  unfolding do_keys
  do_keys_lem s out v =
      let put = λ (o : Bytes) (n : HNode ℕ). out_str o (s.entries n.item).key in
      let (folds, counts) = hm_foreach-foldl put s.db (out_arr out (hm_size s.db)) v.map in
      let size : hm_size s.db ≡ length (all_nodes s.db) =
        hm_size_lem s.db v.map ∙ sym (counts (λ _. true)) ∙ count-true (all_nodes s.db) in
      (
        ap (λ x. (s, x)) (folds ∙ ap (λ n. foldl put (out_arr out n) (all_nodes s.db)) size),
        λ k. counts (has_key s k) ∙ held-view s k v,
      )
