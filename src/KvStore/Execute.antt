-- ===== src/KvStore/Execute.antt =====
-- The dispatch of commands and the timers (src/kv_store.cpp: `execute`, `next_timer_ms`,
-- `process_timers`).
use apex_db.Prelude.{
  ℕ, zero, suc, ◌+◌, ◌-◌, Bool, ◌&&◌, List, [], ◌∷◌, ltb, leb, ◌==◌, if◌then◌else◌, length,
}
use apex_db.Bytes.{Bytes, bytes_eq}
use apex_db.Protocol.{err_unknown, out_str, out_err}
use apex_db.Sharding.{codes}
use apex_db.Floats.{Floats}
use apex_db.Heap.{at}
use apex_db.HashTable.{hm_delete}
use apex_db.KvStore.{
  Store, k_max_works, entry_del, do_get, do_set, do_del, do_expire, do_ttl, do_keys, do_exists,
  do_type, do_persist, do_incr,
}
use apex_db.KvStore.Sorted.{do_zadd, do_zrem, do_zscore, do_zquery}

module _ {D : Type 0} ⦃f : Floats D⦄ where
  -- `!heap.empty() && heap[0].val <= now_ms`
  abbrev pub is_due : Store D → ℕ → Bool
  is_due s now = ltb 0 (length s.heap.items) && leb (at s.heap.items 0).val now

  -- One round of `process_timers`: the entry at the root of the heap goes.
  unfoldable pub expire_first : Store D → Store D
  expire_first s =
      let ent = (at s.heap.items 0).ref in
      entry_del (record s { db = (hm_delete s.db (s.entries ent).hcode (λ a. a == ent)).0 }) ent

  -- The loop of `process_timers`, for at most the given number of rounds.
  unfoldable pub timer_rounds : ℕ → ℕ → Store D → Store D
  timer_rounds zero now s = s
  timer_rounds (suc k) now s =
      let rest = timer_rounds k now (expire_first s) in if is_due s now then rest else s

  -- `nworks++ >= k_max_works` ends the loop after its round `k_max_works + 1`.
  unfoldable pub process_timers : Store D → ℕ → Store D
  process_timers s now = timer_rounds (k_max_works + 1) now s

  -- The loop at the start of `execute`. A round removes an item of the heap.
  unfoldable pub expire_loop : ℕ → ℕ → Store D → Store D
  expire_loop zero now s = s
  expire_loop (suc fuel) now s =
      let rest = expire_loop fuel now (process_timers s now) in if is_due s now then rest else s

  unfoldable pub expire_due : Store D → ℕ → Store D
  expire_due s now = expire_loop (length s.heap.items) now s

  abbrev unknown_command : Store D → Bytes → Store D × Bytes
  unknown_command s out = (s, out_err out err_unknown (codes "unknown command."))

  -- The branches of `execute` that ask for one argument, by the command's name.
  unfoldable pub execute_key : Store D → ℕ → Bytes → Bytes → Bytes → Store D × Bytes
  execute_key s now op key out =
      if bytes_eq op (codes "ping")
      then (s, out_str out key)
      else if bytes_eq op (codes "exists")
      then do_exists s key out
      else if bytes_eq op (codes "type")
      then do_type s key out
      else if bytes_eq op (codes "persist")
      then do_persist s key out
      else if bytes_eq op (codes "incr")
      then do_incr s key out
      else if bytes_eq op (codes "get")
      then do_get s key out
      else if bytes_eq op (codes "del")
      then do_del s key out
      else if bytes_eq op (codes "pttl")
      then do_ttl s key now out
      else unknown_command s out

  -- The dispatch, by the number of words. `now` is the clock when the command reads it.
  unfoldable pub dispatch : Store D → ℕ → List Bytes → Bytes → Store D × Bytes
  dispatch s now (op ∷ []) out =
      if bytes_eq op (codes "ping")
      then (s, out_str out (codes "PONG"))
      else if bytes_eq op (codes "keys")
      then do_keys s out
      else unknown_command s out
  dispatch s now (op ∷ key ∷ []) out = execute_key s now op key out
  dispatch s now (op ∷ key ∷ a ∷ []) out =
      if bytes_eq op (codes "set")
      then do_set s key a out
      else if bytes_eq op (codes "pexpire")
      then do_expire s key a now out
      else if bytes_eq op (codes "zrem")
      then do_zrem s key a out
      else if bytes_eq op (codes "zscore")
      then do_zscore s key a out
      else unknown_command s out
  dispatch s now (op ∷ key ∷ a ∷ b ∷ []) out =
      if bytes_eq op (codes "zadd") then do_zadd s key a b out else unknown_command s out
  dispatch s now (op ∷ key ∷ a ∷ b ∷ c ∷ d ∷ []) out =
      if bytes_eq op (codes "zquery") then do_zquery s key a b c d out else unknown_command s out
  dispatch s now _ out = unknown_command s out

  -- `start` is the clock at the entry of `execute`, and `now` its next reading.
  unfoldable pub execute : Store D → ℕ → ℕ → List Bytes → Bytes → Store D × Bytes
  execute s start now cmd out = dispatch (expire_due s start) now cmd out

  -- The milliseconds until the next deadline, with `static_cast<uint32_t>(-1)` for none.
  unfoldable pub next_timer_ms : Store D → ℕ → ℕ
  next_timer_ms s now_ms =
      let first = (at s.heap.items 0).val in
      let next_ms =
        if ltb 0 (length s.heap.items) && ltb first 18446744073709551615
        then first
        else 18446744073709551615 in
      if next_ms == 18446744073709551615
      then 4294967295
      else if leb next_ms now_ms
      then 0
      else if ltb 2147483647 (next_ms - now_ms)
      then 2147483647
      else next_ms - now_ms
