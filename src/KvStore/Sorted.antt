-- ===== src/KvStore/Sorted.antt =====
-- The commands on sorted sets (src/kv_store.cpp: `do_zadd` to `do_zquery`).
use apex_db.Prelude.{
  ℕ, zero, suc, ◌+◌, not, Option, none, some, [], if◌then◌else◌, ℤ, pos, leb_ℤ, ltb_ℤ, i64_word,
}
use apex_db.Bytes.{Bytes}
use apex_db.Protocol.{
  err_bad_typ, err_bad_arg, out_nil, out_str, out_int, out_dbl, out_err, out_arr, out_begin_arr,
  out_end_arr,
}
use apex_db.Numbers.{str2int}
use apex_db.Sharding.{codes}
use apex_db.Floats.{Floats, str2dbl}
use apex_db.Avl.{leaf, node, Cursor, size}
use apex_db.ZSet.{
  ZSet, ZNode, empty_zset, zset_insert, zset_lookup, zset_delete, zset_seekge, znode_offset,
}
use apex_db.KvStore.{Store, t_zset, is_zset, flag, write_entry, find_entry, add_entry}

-- What `expect_zset` returns: a null pointer, the address of `k_empty_zset`, or an entry's set.
pub data ZRef : Type 0 where
  wrong_type empty_set : ZRef
  set_of : ℕ → ZRef

module _ {D : Type 0} ⦃f : Floats D⦄ where
  abbrev pub write_zset : Store D → ℕ → ZSet D → Store D
  write_zset s addr z = record s {
    entries = write_entry s.entries addr (record (s.entries addr) { zset = z });
  }

  -- The end of `do_zadd`, at the entry that was found or made.
  unfoldable pub add_member : Store D → ℕ → D → Bytes → Bytes → Store D × Bytes
  add_member s addr score name out =
      let (z, added) = zset_insert (s.entries addr).zset name score in
      (write_zset s addr z, out_int out (i64_word (flag added)))

  unfoldable pub do_zadd : Store D → Bytes → Bytes → Bytes → Bytes → Store D × Bytes
  do_zadd s key score_text name out = elim (str2dbl {D = D} score_text) [
    | none ↦ (s, out_err out err_bad_arg (codes "expect float"))
    | some score ↦
        let (s', found) = find_entry s key in
        elim found [
          | none ↦ add_member (add_entry s' t_zset key []) s'.next score name out
          | some addr ↦
              if not (is_zset (s'.entries addr).type)
              then (s', out_err out err_bad_typ (codes "expect zset"))
              else add_member s' addr score name out
        ]
  ]

  unfoldable pub expect_zset : Store D → Bytes → Store D × ZRef
  expect_zset s key =
      let (s', found) = find_entry s key in
      elim found [
        | none ↦ (s', empty_set)
        | some addr ↦ (s', if is_zset (s'.entries addr).type then set_of addr else wrong_type)
      ]

  unfoldable pub do_zrem : Store D → Bytes → Bytes → Bytes → Store D × Bytes
  do_zrem s key name out =
      let (s', ref) = expect_zset s key in
      elim ref [
        | wrong_type ↦ (s', out_err out err_bad_typ (codes "expect zset"))
        | empty_set ↦ (s', out_int out (i64_word (pos 0)))
        | set_of addr ↦
            let (z, found) = zset_lookup (s'.entries addr).zset name in
            elim found [
              | none ↦ (write_zset s' addr z, out_int out (i64_word (pos 0)))
              | some member ↦
                  (write_zset s' addr (zset_delete z member), out_int out (i64_word (pos 1)))
            ]
      ]

  unfoldable pub do_zscore : Store D → Bytes → Bytes → Bytes → Store D × Bytes
  do_zscore s key name out =
      let (s', ref) = expect_zset s key in
      elim ref [
        | wrong_type ↦ (s', out_err out err_bad_typ (codes "expect zset"))
        | empty_set ↦ (s', out_nil out)
        | set_of addr ↦
            let (z, found) = zset_lookup (s'.entries addr).zset name in
            elim found [
              | none ↦ (write_zset s' addr z, out_nil out)
              | some member ↦
                  (write_zset s' addr z, out_dbl out (f.pattern_bytes (z.nodes member).score))
            ]
      ]

  -- The loop of `do_zquery`, and the count at its end. A round goes on by one node of the tree, so
  -- the number of nodes bounds the rounds.
  unfoldable pub query_loop : ℕ → (ℕ → ZNode D) → Option (Cursor ℕ) → ℤ → ℕ → Bytes → Bytes × ℕ
  query_loop zero nodes cursor limit n out = (out, n)
  query_loop (suc fuel) nodes none limit n out = (out, n)
  query_loop (suc fuel) nodes (some (leaf, path)) limit n out = (out, n)
  query_loop (suc fuel) nodes (some (node l x h c r, path)) limit n out =
      let written = out_dbl (out_str out (nodes x).name) (f.pattern_bytes (nodes x).score) in
      let rest =
        query_loop fuel nodes (znode_offset (some (node l x h c r, path)) (pos 1)) limit (n + 2)
          written in
      if ltb_ℤ (pos n) limit then rest else (out, n)

  -- The set that `do_zquery` walks over.
  abbrev pub set_at : Store D → ZRef → ZSet D
  set_at s (set_of addr) = (s.entries addr).zset
  set_at s _ = empty_zset

  unfoldable pub query_set : ZSet D → D → Bytes → ℤ → ℤ → Bytes → Bytes
  query_set z score name offset limit out =
      let start = znode_offset (zset_seekge z score name) offset in
      let (opened, ctx) = out_begin_arr out in
      let (filled, n) = query_loop (size z.root + 1) z.nodes start limit 0 opened in
      if leb_ℤ limit (pos 0) then out_arr out 0 else out_end_arr filled ctx n

  abbrev query_ref : Store D → ZRef → D → Bytes → ℤ → ℤ → Bytes → Store D × Bytes
  query_ref s wrong_type score name offset limit out =
      (s, out_err out err_bad_typ (codes "expect zset"))
  query_ref s ref score name offset limit out =
      (s, query_set (set_at s ref) score name offset limit out)

  unfoldable pub do_zquery :
      Store D → Bytes → Bytes → Bytes → Bytes → Bytes → Bytes → Store D × Bytes
  do_zquery s key score_text name offset_text limit_text out = elim (str2dbl {D = D} score_text) [
    | none ↦ (s, out_err out err_bad_arg (codes "expect fp number"))
    | some score ↦ elim (str2int offset_text) [
      | none ↦ (s, out_err out err_bad_arg (codes "expect int"))
      | some offset ↦ elim (str2int limit_text) [
        | none ↦ (s, out_err out err_bad_arg (codes "expect int"))
        | some limit ↦
            let (s', ref) = expect_zset s key in query_ref s' ref score name offset limit out
      ]
    ]
  ]
