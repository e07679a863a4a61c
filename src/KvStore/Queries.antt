-- ===== src/KvStore/Queries.antt =====
-- The range query on a sorted set (src/kv_store.cpp: `do_zquery`).
use apex_db.Prelude.{
  ℕ, zero, suc, ◌+◌, ◌-◌, ◌/◌, ◌*◌, ◌≤◌, ◌<◌, ◌≡◌, refl, sym, ◌∙◌, ap, subst, true, false,
  Bool-cases, inl, inr, List, [], ◌∷◌, ◌++◌, Option, none, some, arith, length, take, drop,
  length-append, ltb, leb, if◌then◌else◌, ltb_ℤ, leb_ℤ, ℤ, pos, negsuc, pos_part, neg_part,
}
use apex_db.Bytes.{Bytes}
use apex_db.Protocol.{out_str, out_dbl, out_arr, out_begin_arr, out_end_arr}
use apex_db.Floats.{Floats}
use apex_db.HashTable.Chains.{count}
use apex_db.Avl.{Tree, leaf, node, Crumb, Cursor, size, avl_offset}
use apex_db.Avl.Balance.{IsAvl}
use apex_db.Avl.Order.{joins, to_list, lefts, rights, to_list-root_of}
use apex_db.Avl.Places.{place_of, length-to_list, Reached}
use apex_db.Avl.Offset.{avl_offset-Reached}
use apex_db.ZSet.{ZNode, zless, zset_seekge, ZSet, znode_offset}
use apex_db.ZSet.Order.{IsSorted, zset_seekge-Reached}
use apex_db.KvStore.Sorted.{query_loop, query_set}

moved : (k i n : ℕ) → n ≡ i → k + i ≡ n + k
moved k i n h = omega arith

module _ {A : Type 0} where
  drop-append_at : (xs ys : List A) (n : ℕ) → drop (length xs + n) (xs ++ ys) ≡ drop n ys
  drop-append_at [] ys n = let e : length {A = A} [] + n ≡ n = omega arith in rw e refl
  drop-append_at (x ∷ xs) ys n =
      let e : length (x ∷ xs) + n ≡ suc (length xs + n) = omega arith in
      ap (λ k. drop k (x ∷ xs ++ ys)) e ∙ drop-append_at xs ys n

  drop_all : (n : ℕ) (xs : List A) → length xs ≤ n → drop n xs ≡ []
  drop_all zero [] h = refl
  drop_all (suc n) [] h = refl
  drop_all zero (x ∷ xs) h = absurd (omega arith)
  drop_all (suc n) (x ∷ xs) h = drop_all n xs (omega arith)

  take_none : (n : ℕ) → take {A = A} n [] ≡ []
  take_none zero = refl
  take_none (suc n) = refl

  -- What stands from a place on.
  drop-Reached :
      (i : ℕ) (root l : Tree A) (x : A) (h c : ℕ) (r : Tree A) (path : List (Crumb A))
      → Reached i 0 root (some (node l x h c r, path))
      → drop i (to_list root) ≡ x ∷ drop (1 + i) (to_list root)
  drop-Reached i root l x h c r path v =
      let ahead = lefts path ++ to_list l in
      let rest = to_list r ++ rights path in
      let order : to_list root ≡ ahead ++ x ∷ rest =
        ap to_list (sym v.0) ∙ to_list-root_of (node l x h c r) path ∙ simp joins in
      let place : length ahead ≡ i =
        omega (arith, v.1, length-append (lefts path) (to_list l), length-to_list l) in
      let start : i ≡ 0 + i = omega arith in
      let from : (k : ℕ) → drop (k + i) (to_list root) ≡ drop k (x ∷ rest) = λ k.
        ap (drop (k + i)) order
        ∙ ap (λ n. drop n (ahead ++ x ∷ rest)) (moved k i (length ahead) place)
        ∙ drop-append_at ahead (x ∷ rest) k in
      ap (λ k. drop k (to_list root)) start ∙ from 0 ∙ ap (◌∷◌ x) (sym (from 1))

place_within :
    (root t : Tree ℕ) (path : List (Crumb ℕ)) (i : ℕ)
    → Reached i 0 root (some (t, path))
    → i < size root
unfolding size
place_within root leaf path i h = absurd (omega (arith, h.2))
place_within root (node l x hx c r) path i h =
    let order =
      ap (λ t. length (to_list t)) (sym h.0) ∙ ap length (to_list-root_of (node l x hx c r) path) in
    omega (
      arith,
      order,
      h.1,
      length-to_list root,
      length-append (lefts path) (to_list l ++ x ∷ to_list r),
      length-append (to_list l) (x ∷ to_list r),
      length-append (lefts path ++ (to_list l ++ x ∷ to_list r)) (rights path),
      length-to_list l,
    )

next-Reached :
    (i : ℕ) (root l : Tree ℕ) (x h c : ℕ) (r : Tree ℕ) (path : List (Crumb ℕ))
    → IsAvl root
    → Reached i 0 root (some (node l x h c r, path))
    → Reached (1 + i) 0 root (znode_offset (some (node l x h c r, path)) (pos 1))
unfolding znode_offset
next-Reached i root l x h c r path v at =
    let t = node l x h c r in
    let place : 1 + place_of t path ≡ 1 + i = omega (arith, at.1) in
    subst (λ n. Reached n 0 root (avl_offset t path (pos 1))) place
      (subst (λ z. Reached (1 + place_of t path) 0 z (avl_offset t path (pos 1))) at.0
        (avl_offset-Reached t path (pos 1) (subst IsAvl (sym at.0) v) at.2))

shifted :
    (target back : ℕ) (root : Tree ℕ) (cursor : Option (Cursor ℕ))
    → ltb target back ≡ false
    → Reached target back root cursor
    → Reached (target - back) 0 root cursor
shifted target back root none e h = ground arith
shifted target back root (some (t, path)) e h = (h.0, ground arith, h.2)

nowhere :
    (target back : ℕ) (root : Tree ℕ) (cursor : Option (Cursor ℕ))
    → ltb target back ≡ true
    → Reached target back root cursor
    → cursor ≡ none
nowhere target back root none e h = refl
nowhere target back root (some (t, path)) e h = absurd (ground (arith, h.1))

-- How many members a limit on the elements of the array lets through.
abbrev pub members_of : ℕ → ℕ
members_of limit = (limit + 1) / 2

-- The members that a query returns: of the sorted members `xs`, the first `rank` are below the key.
abbrev pub query_page : List ℕ → ℕ → ℤ → ℕ → List ℕ
query_page xs rank offset limit =
    if leb (length xs) rank
    then []
    else if ltb (pos_part offset + rank) (neg_part offset)
    then []
    else take (members_of limit) (drop (pos_part offset + rank - neg_part offset) xs)

no_members : (limit n : ℕ) → ltb_ℤ (pos n) (pos limit) ≡ false → members_of (limit - n) ≡ 0
no_members limit n h = ground arith

more_members :
    (limit n : ℕ)
    → ltb_ℤ (pos n) (pos limit) ≡ true
    → members_of (limit - n) ≡ suc (members_of (limit - (n + 2)))
more_members limit n h = ground arith

module _ {D : Type 0} ⦃f : Floats D⦄ where
  -- The names and the scores of members, written one after the other.
  abbrev pub write_members : (ℕ → ZNode D) → List ℕ → Bytes → Bytes
  write_members nodes [] out = out
  write_members nodes (x ∷ xs) out =
      write_members nodes xs
        (out_dbl (out_str out (nodes x).name) (f.pattern_bytes (nodes x).score))

  abbrev Written : (ℕ → ZNode D) → List ℕ → ℕ → Bytes → Bytes × ℕ
  Written nodes page n out = (write_members nodes page out, n + 2 * length page)

  write_none :
      (nodes : ℕ → ZNode D) (page : List ℕ) (n : ℕ) (out : Bytes)
      → page ≡ []
      → (out, n) ≡ Written nodes page n out
  write_none nodes page n out e = rw e (ap (λ k. (out, k)) (omega arith))

  write_one :
      (nodes : ℕ → ZNode D) (x : ℕ) (page : List ℕ) (n : ℕ) (out : Bytes)
      → Written nodes page
          (n + 2)
          (out_dbl (out_str out (nodes x).name) (f.pattern_bytes (nodes x).score))
        ≡ Written nodes (x ∷ page) n out
  write_one nodes x page n out =
      let e : n + 2 + 2 * length page ≡ n + 2 * length (x ∷ page) = omega arith in
      ap (λ k. (write_members nodes (x ∷ page) out, k)) e

  query_loop_lem :
      (fuel : ℕ) (nodes : ℕ → ZNode D) (root : Tree ℕ) (cursor : Option (Cursor ℕ)) (i limit n : ℕ)
      (out : Bytes)
      → IsAvl root
      → Reached i 0 root cursor
      → size root ≤ i + fuel
      → query_loop fuel nodes cursor (pos limit) n out
        ≡ Written nodes (take (members_of (limit - n)) (drop i (to_list root))) n out
  unfolding query_loop size
  query_loop_lem zero nodes root cursor i limit n out v h enough = write_none nodes _ n out (
      ap (take (members_of (limit - n)))
        (drop_all i (to_list root) (omega (arith, length-to_list root)))
      ∙ take_none (members_of (limit - n)))
  query_loop_lem (suc fuel) nodes root none i limit n out v h enough = write_none nodes _ n out (
      ap (take (members_of (limit - n)))
        (drop_all i (to_list root) (ground (arith, length-to_list root)))
      ∙ take_none (members_of (limit - n)))
  query_loop_lem (suc fuel) nodes root (some (leaf, path)) i limit n out v h enough =
      absurd (omega (arith, h.2))
  query_loop_lem (suc fuel) nodes root (some (node l x hx c r, path)) i limit n out v h enough =
      elim (Bool-cases (ltb_ℤ (pos n) (pos limit))) [
        | inr full ↦ rw full (
            write_none nodes _ n out
              (ap (λ k. take k (drop i (to_list root))) (no_members limit n full)))
        | inl more ↦ rw more (
            query_loop_lem fuel nodes root (znode_offset (some (node l x hx c r, path)) (pos 1))
              (1 + i) limit (n + 2) _ v (next-Reached i root l x hx c r path v h) (omega arith)
            ∙ rw (more_members limit n more, drop-Reached i root l x hx c r path h)
                (write_one nodes x _ n out))
      ]

  query_loop-none :
      (fuel : ℕ) (nodes : ℕ → ZNode D) (limit : ℤ) (n : ℕ) (out : Bytes)
      → query_loop fuel nodes none limit n out ≡ (out, n)
  unfolding query_loop
  query_loop-none zero nodes limit n out = refl
  query_loop-none (suc fuel) nodes limit n out = refl

  -- The loop from a place that is `back` before `target`, which need not exist.
  query_from :
      (nodes : ℕ → ZNode D) (root : Tree ℕ) (cursor : Option (Cursor ℕ)) (target back limit : ℕ)
      (out : Bytes)
      → IsAvl root
      → Reached target back root cursor
      → query_loop (size root + 1) nodes cursor (pos limit) 0 out
        ≡ Written nodes
            (if ltb target back
              then []
              else take (members_of limit) (drop (target - back) (to_list root)))
            0
            out
  query_from nodes root cursor target back limit out v h = elim (Bool-cases (ltb target back)) [
    | inl low ↦ rw low (
        ap (λ k. query_loop (size root + 1) nodes k (pos limit) 0 out)
          (nowhere target back root cursor low h)
        ∙ query_loop-none (size root + 1) nodes (pos limit) 0 out)
    | inr high ↦ rw high (
        query_loop_lem (size root + 1) nodes root cursor (target - back) limit 0 out v
          (shifted target back root cursor high h) (omega arith)
        ∙ (let e : limit - 0 ≡ limit = omega arith in
            ap
              (λ k. Written nodes (take (members_of k) (drop (target - back) (to_list root))) 0 out)
              e))
  ]

  abbrev pub rank_of : ZSet D → D → Bytes → ℕ
  rank_of z score name = count (λ a. zless (z.nodes a) score name) (to_list z.root)

  abbrev pub write_page : ZSet D → List ℕ → Bytes → Bytes
  write_page z page out =
      let (opened, ctx) = out_begin_arr out in
      out_end_arr (write_members z.nodes page opened) ctx (2 * length page)

  query_start :
      (nodes : ℕ → ZNode D) (root : Tree ℕ) (cursor : Option (Cursor ℕ)) (rank limit : ℕ)
      (offset : ℤ) (out : Bytes)
      → IsAvl root
      → Reached rank 0 root cursor
      → query_loop (size root + 1) nodes (znode_offset cursor offset) (pos limit) 0 out
        ≡ Written nodes (query_page (to_list root) rank offset limit) 0 out
  unfolding znode_offset
  query_start nodes root none rank limit offset out v h =
      let beyond : leb (length (to_list root)) rank ≡ true = ground (arith, length-to_list root) in
      rw beyond (query_loop-none (size root + 1) nodes (pos limit) 0 out)
  query_start nodes root (some (t, path)) rank limit offset out v h =
      let within : leb (length (to_list root)) rank ≡ false =
        (let e = place_within root t path rank h in ground (arith, length-to_list root)) in
      let place : pos_part offset + place_of t path ≡ pos_part offset + rank = omega (arith, h.1) in
      rw within (
        query_from nodes root (avl_offset t path offset) (pos_part offset + rank) (neg_part offset)
          limit out v
          (subst (λ n. Reached n (neg_part offset) root (avl_offset t path offset)) place
            (subst
              (λ z.
                Reached (pos_part offset + place_of t path) (neg_part offset) z
                  (avl_offset t path offset))
              h.0 (avl_offset-Reached t path offset (subst IsAvl (sym h.0) v) h.2))))

  -- A range query on a balanced and sorted tree replies with an array of the names and scores of
  -- the members from the one whose place is that of the first member not below the key moved by
  -- the offset, one member for every two of the limit's elements, rounded up, in order. There are
  -- none if the limit is not positive, if all members are below the key or if the place lies
  -- before the first one.
  pub query_set_lem :
      (z : ZSet D) (score : D) (name : Bytes) (offset limit : ℤ) (out : Bytes)
      → IsAvl z.root
      → IsSorted z.nodes (to_list z.root)
      → query_set z score name offset limit out ≡ (
          if leb_ℤ limit (pos 0)
          then out_arr out 0
          else write_page z
              (query_page (to_list z.root) (rank_of z score name) offset (pos_part limit))
              out)
  unfolding query_set
  query_set_lem z score name offset (negsuc limit) out v w =
      let e : leb_ℤ (negsuc limit) (pos 0) ≡ true = ground arith in rw (query_set, e) refl
  query_set_lem z score name offset (pos limit) out v w =
      let page = query_page (to_list z.root) (rank_of z score name) offset limit in
      let ctx = (out_begin_arr out).1 in
      let reply : Bytes × ℕ → Bytes =
        λ r. if leb_ℤ (pos limit) (pos 0) then out_arr out 0 else out_end_arr r.0 ctx r.1 in
      let e : 0 + 2 * length page ≡ 2 * length page = omega arith in
      ap reply (
        query_start z.nodes z.root (zset_seekge z score name) (rank_of z score name) limit offset
          (out_begin_arr out).0 v (zset_seekge-Reached z score name w))
      ∙ ap (λ k. reply (write_members z.nodes page (out_begin_arr out).0, k)) e
