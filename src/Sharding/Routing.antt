-- ===== src/Sharding/Routing.antt =====
-- Hashes and shard numbers are in range.
use Prim.Native.Nat.{bit_xor}
use apex_db.Prelude.{ℕ, ◌*◌, ◌%◌, ◌^◌, ◌<◌, ◌≡◌, refl, [], ◌∷◌, arith}
use apex_db.Bytes.{Bytes}
use apex_db.Sharding.{hash_loop, str_hash, shard_for_key, codes}

hash_loop-lt : (h : ℕ) (s : Bytes) → h < 2 ^ 32 → hash_loop h s < 2 ^ 32
unfolding hash_loop
hash_loop-lt h [] p = p
hash_loop-lt h (b ∷ bs) p = hash_loop-lt ((bit_xor h b * 0x01000193) % 2 ^ 32) bs (omega arith)

-- The hash is a 32-bit number, though `str_hash` returns a `uint64_t`.
pub str_hash-lt : (s : Bytes) → str_hash s < 2 ^ 32
unfolding str_hash
str_hash-lt s = hash_loop-lt 0x811C9DC5 s (omega arith)

-- Every key has a shard.
pub shard_for_key-lt : (key : Bytes) (n : ℕ) → 0 < n → shard_for_key key n < n
unfolding shard_for_key
shard_for_key-lt key n h = ground arith

-- The vectors of tests/test_sharding.cpp.
hash_vector : str_hash (codes "hello") ≡ 0x4f9f2cab
unfolding str_hash hash_loop
hash_vector = refl

shard_vectors : (shard_for_key (codes "a") 3 ≡ 1) × (shard_for_key (codes "b") 3 ≡ 1)
unfolding shard_for_key str_hash hash_loop
shard_vectors = (refl, refl)
