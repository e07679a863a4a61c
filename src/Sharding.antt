-- ===== src/Sharding.antt =====
-- Key hashing and routing (include/common.h: `str_hash`; src/sharding.cpp).
pub mod Routing
use Prim.Native.Nat.{bit_xor}
use Prim.Native.Char.{code}
use Prim.Native.String.{String}
use apex_db.Prelude.{
  ℕ, zero, suc, ◌+◌, ◌*◌, ◌%◌, ◌^◌, Bool, true, false, ◌&&◌, ◌||◌, Option, none, some, List, [],
  ◌∷◌, ltb, leb, ◌==◌, if◌then◌else◌, length,
}
use apex_db.Bytes.{Bytes, bytes_eq}

-- The bytes of an ASCII literal.
abbrev pub codes : String → Bytes
codes String.[] = []
codes (String.◌∷◌ c s) = code c ∷ codes s

-- The loop of `str_hash` (FNV-1a), in `uint32_t`.
unfoldable pub hash_loop : ℕ → Bytes → ℕ
hash_loop h [] = h
hash_loop h (b ∷ bs) = hash_loop ((bit_xor h b * 0x01000193) % 2 ^ 32) bs

unfoldable pub str_hash : Bytes → ℕ
str_hash s = hash_loop 0x811C9DC5 s

unfoldable pub shard_for_key : Bytes → ℕ → ℕ
shard_for_key key num_shards = if num_shards == 0 then 0 else str_hash key % num_shards

-- The commands with a key, tested in the order of the source.
unfoldable pub is_string_op : Bytes → Bool
is_string_op op =
    bytes_eq op (codes "get")
    || bytes_eq op (codes "set")
    || bytes_eq op (codes "del")
    || bytes_eq op (codes "pexpire")
    || bytes_eq op (codes "pttl")
    || bytes_eq op (codes "exists")
    || bytes_eq op (codes "type")
    || bytes_eq op (codes "persist")
    || bytes_eq op (codes "incr")

unfoldable pub is_zset_op : Bytes → Bool
is_zset_op op =
    bytes_eq op (codes "zadd")
    || bytes_eq op (codes "zrem")
    || bytes_eq op (codes "zscore")
    || bytes_eq op (codes "zquery")

unfoldable pub routing_key_for_command : List Bytes → Option Bytes
routing_key_for_command [] = none
routing_key_for_command (op ∷ []) = none
routing_key_for_command (op ∷ key ∷ args) =
    if is_string_op op then some key else if is_zset_op op then some key else none

unfoldable pub is_scatter_gather_command : List Bytes → Bool
is_scatter_gather_command (op ∷ []) = bytes_eq op (codes "keys")
is_scatter_gather_command _ = false
