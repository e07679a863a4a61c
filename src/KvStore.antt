-- ===== src/KvStore.antt =====
-- The storage engine (src/kv_store.cpp). An `Entry` is named by its address: `entries` is the memory
-- behind the addresses, and `heap.refs` holds the entries' field `heap_idx`. The hash table's node of
-- an entry is its `hcode` with its address. The clock's readings are arguments.
pub mod Sorted
pub mod Queries
pub mod Execute
pub mod Invariant
pub mod Updates
pub mod Removal
pub mod Entries
pub mod Bindings
pub mod Commands
pub mod Deadlines
pub mod Counters
pub mod Keys
pub mod Root
pub mod Expiry
use apex_db.Prelude.{
  ℕ, zero, suc, ◌+◌, ◌-◌, ◌*◌, ◌%◌, Bool, true, false, not, ◌&&◌, ◌||◌, Option, none, some, List,
  [], ◌∷◌, ◌++◌, ltb, leb, ◌==◌, if◌then◌else◌, length, ℤ, pos, negsuc, leb_ℤ, i64_word, ◌+ℤ◌,
}
use apex_db.Bytes.{Bytes, bytes_eq}
use apex_db.Protocol.{
  ErrorCode, err_unknown, err_bad_typ, err_bad_arg, out_nil, out_str, out_int, out_dbl, out_err,
  out_arr, out_begin_arr, out_end_arr,
}
use apex_db.Numbers.{str2int, to_string}
use apex_db.Sharding.{str_hash, codes}
use apex_db.Floats.{Floats, str2dbl}
use apex_db.HashTable.{HNode, HMap, empty_map, hm_lookup, hm_insert, hm_delete, hm_size, hm_foreach}
use apex_db.Heap.{Heap, at, write}
use apex_db.Ttl.{no_place, entry_set_ttl}
use apex_db.Avl.{Tree, leaf, Cursor, size}
use apex_db.Avl
use apex_db.ZSet.{
  ZSet, ZNode, node_item, empty_zset, zset_insert, zset_lookup, zset_delete, zset_seekge,
  znode_offset,
}

pub data EntryType : Type 0 where
  t_init t_str t_zset : EntryType

pub record Entry (D : Type 0) : Type 0 where
  pub hcode : ℕ
  pub key : Bytes
  pub type : EntryType
  pub str : Bytes
  pub zset : ZSet D

-- `queued` and `disposed` are the entries that were handed to the thread pool and those that were
-- deleted at once, and `next` is the next address of `new`.
pub record Store (D : Type 0) : Type 0 where
  pub db : HMap ℕ
  pub heap : Heap
  pub entries : ℕ → Entry D
  pub next : ℕ
  pub queued : List ℕ
  pub disposed : List ℕ

abbrev pub k_large_container_size : ℕ
k_large_container_size = 1000

abbrev pub k_max_works : ℕ
k_max_works = 2000

abbrev pub is_str : EntryType → Bool
is_str t_str = true
is_str _ = false

abbrev pub is_zset : EntryType → Bool
is_zset t_zset = true
is_zset _ = false

-- 1 or 0
abbrev pub flag : Bool → ℤ
flag true = pos 1
flag false = pos 0

-- The value that `incr` puts in place of an integer, unless that is the largest.
abbrev pub incremented : Option ℤ → Option ℤ
incremented none = none
incremented (some (pos n)) = if n == 9223372036854775807 then none else some (pos (n + 1))
incremented (some (negsuc n)) = some (negsuc n +ℤ pos 1)

module _ {D : Type 0} ⦃f : Floats D⦄ where
  -- A new `KVStore::Impl`, with the memory not yet in use.
  unfoldable pub empty_store : Store D
  empty_store = record {
    db = empty_map;
    heap = record { items = []; refs = λ _. no_place };
    entries = λ _. record { hcode = 0; key = []; type = t_init; str = []; zset = empty_zset };
    next = 0;
    queued = [];
    disposed = [];
  }

  abbrev pub write_entry : (ℕ → Entry D) → ℕ → Entry D → ℕ → Entry D
  write_entry entries addr e = λ a. if addr == a then e else entries a

  -- `entry_eq` for a `LookupKey` with the given key.
  abbrev pub entry_eq : Store D → Bytes → ℕ → Bool
  entry_eq s key addr = bytes_eq (s.entries addr).key key

  -- The lookup with which most commands begin.
  unfoldable pub find_entry : Store D → Bytes → Store D × Option ℕ
  find_entry s key =
      let (db, found) = hm_lookup s.db (str_hash key) (entry_eq s key) in
      (record s { db = db }, node_item found)

  -- `entry_new`, with the key, its code and the value that the caller puts in, and `hm_insert`.
  unfoldable pub add_entry : Store D → EntryType → Bytes → Bytes → Store D
  add_entry s type key str =
      let e : Entry D = record {
        hcode = str_hash key;
        key = key;
        type = type;
        str = str;
        zset = empty_zset;
      } in
      record s {
        db = hm_insert s.db (record { hcode = str_hash key; item = s.next });
        heap = record s.heap { refs = write s.heap.refs s.next no_place };
        entries = write_entry s.entries s.next e;
        next = suc s.next;
      }

  unfoldable pub set_ttl : Store D → ℕ → ℤ → ℕ → Store D
  set_ttl s addr ttl_ms now = record s { heap = entry_set_ttl s.heap addr ttl_ms now }

  unfoldable pub entry_del : Store D → ℕ → Store D
  entry_del s addr =
      let cleared = set_ttl s addr (negsuc 0) 0 in
      let e = s.entries addr in
      let set_size = if is_zset e.type then hm_size e.zset.hmap else 0 in
      if ltb k_large_container_size set_size
      then record cleared { queued = s.queued ++ addr ∷ [] }
      else record cleared { disposed = s.disposed ++ addr ∷ [] }

  unfoldable pub do_get : Store D → Bytes → Bytes → Store D × Bytes
  do_get s key out =
      let (s', found) = find_entry s key in
      elim found [
        | none ↦ (s', out_nil out)
        | some addr ↦
            let e = s'.entries addr in
            (
              s',
              if not (is_str e.type)
                  then out_err out err_bad_typ (codes "not a string value")
                  else out_str out e.str,
            )
      ]

  -- The part of `do_set` and of `incr` that writes the string of an entry.
  abbrev pub write_str : Store D → ℕ → Bytes → Store D
  write_str s addr str = record s {
    entries = write_entry s.entries addr (record (s.entries addr) { str = str });
  }

  unfoldable pub do_set : Store D → Bytes → Bytes → Bytes → Store D × Bytes
  do_set s key str out =
      let (s', found) = find_entry s key in
      elim found [
        | none ↦
            (set_ttl (add_entry s' t_str key str) s'.next (negsuc 0) 0, out_str out (codes "OK"))
        | some addr ↦
            if not (is_str (s'.entries addr).type)
            then (s', out_err out err_bad_typ (codes "a non-string value exists"))
            else (set_ttl (write_str s' addr str) addr (negsuc 0) 0, out_str out (codes "OK"))
      ]

  -- `hm_delete` by key.
  unfoldable pub take_entry : Store D → Bytes → Store D × Option ℕ
  take_entry s key =
      let (db, found) = hm_delete s.db (str_hash key) (entry_eq s key) in
      (record s { db = db }, node_item found)

  unfoldable pub do_del : Store D → Bytes → Bytes → Store D × Bytes
  do_del s key out =
      let (s', found) = take_entry s key in
      elim found [
        | none ↦ (s', out_int out (i64_word (pos 0)))
        | some addr ↦ (entry_del s' addr, out_int out (i64_word (pos 1)))
      ]

  unfoldable pub do_expire : Store D → Bytes → Bytes → ℕ → Bytes → Store D × Bytes
  do_expire s key ttl now out = elim (str2int ttl) [
    | none ↦ (s, out_err out err_bad_arg (codes "expect int64"))
    | some ttl_ms ↦
        let (s', found) = find_entry s key in
        elim found [
          | none ↦ (s', out_int out (i64_word (pos 0)))
          | some addr ↦ (
            if leb_ℤ ttl_ms (pos 0)
                then entry_del (take_entry s' key).0 addr
                else set_ttl s' addr ttl_ms now,
            out_int out (i64_word (pos 1)),
          )
        ]
  ]

  unfoldable pub do_ttl : Store D → Bytes → ℕ → Bytes → Store D × Bytes
  do_ttl s key now out =
      let (s', found) = find_entry s key in
      elim found [
        | none ↦ (s', out_int out (i64_word (negsuc 1)))
        | some addr ↦
            let expire_at = (at s'.heap.items (s'.heap.refs addr)).val in
            (
              s',
              if s'.heap.refs addr == no_place
                  then out_int out (i64_word (negsuc 0))
                  else out_int out (if ltb now expire_at then expire_at - now else 0),
            )
      ]

  -- `cb_keys`
  abbrev pub cb_keys : Store D → HNode ℕ → Bytes → Bool × Bytes
  cb_keys s n out = (true, out_str out (s.entries n.item).key)

  unfoldable pub do_keys : Store D → Bytes → Store D × Bytes
  do_keys s out = (s, hm_foreach s.db (cb_keys s) (out_arr out (hm_size s.db)))

  unfoldable pub do_exists : Store D → Bytes → Bytes → Store D × Bytes
  do_exists s key out =
      let (s', found) = find_entry s key in
      elim found [
        | none ↦ (s', out_int out (i64_word (pos 0)))
        | some addr ↦ (s', out_int out (i64_word (pos 1)))
      ]

  unfoldable pub do_type : Store D → Bytes → Bytes → Store D × Bytes
  do_type s key out =
      let (s', found) = find_entry s key in
      elim found [
        | none ↦ (s', out_str out (codes "none"))
        | some addr ↦ (
          s',
          out_str out (if is_str (s'.entries addr).type then codes "string" else codes "zset"),
        )
      ]

  unfoldable pub do_persist : Store D → Bytes → Bytes → Store D × Bytes
  do_persist s key out =
      let (s', found) = find_entry s key in
      elim found [
        | none ↦ (s', out_int out (i64_word (pos 0)))
        | some addr ↦
            if not (s'.heap.refs addr == no_place)
            then (set_ttl s' addr (negsuc 0) 0, out_int out (i64_word (pos 1)))
            else (s', out_int out (i64_word (pos 0)))
      ]

  unfoldable pub do_incr : Store D → Bytes → Bytes → Store D × Bytes
  do_incr s key out =
      let (s', found) = find_entry s key in
      elim found [
        | none ↦ (add_entry s' t_str key (to_string (pos 1)), out_int out (i64_word (pos 1)))
        | some addr ↦
            let e = s'.entries addr in
            let write_value : Store D × Bytes = elim (incremented (str2int e.str)) [
              | none ↦ (
                s',
                out_err out err_bad_arg
                    (codes "value is not an integer or increment would overflow"),
              )
              | some value ↦ (write_str s' addr (to_string value), out_int out (i64_word value))
            ] in
            if not (is_str e.type)
            then (s', out_err out err_bad_typ (codes "not a string value"))
            else write_value
      ]
