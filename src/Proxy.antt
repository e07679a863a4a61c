-- ===== src/Proxy.antt =====
-- The proxy's answer to a request (src/proxy.cpp: `extract_response_body`, `merge_key_arrays` and the
-- handler in `main`) and the handler of a shard (src/shard_main.cpp). `tcp_rpc` is a parameter: the
-- framed reply, if the endpoint was reached. `execute` of the shard's store is one as well.
pub mod Merging
pub mod Owners
use apex_db.Prelude.{
  ℕ, zero, suc, ◌+◌, Bool, true, false, not, ◌&&◌, ◌||◌, ◌>>=◌, Option, none, some, List, [], ◌∷◌,
  ◌++◌, ltb, leb, ◌==◌, if◌then◌else◌, length, take, drop, get_or, ◌-◌, inl, inr, ◌⊎◌,
}
use apex_db.Bytes.{Bytes, bytes_eq, read_u32}
use apex_db.Protocol.{read_str, err_unknown, err_bad_arg, out_str, out_err, out_arr}
use apex_db.Sharding.{codes, shard_for_key, routing_key_for_command, is_scatter_gather_command}

pub record ShardEndpoint : Type 0 where
  pub host : Bytes
  pub port : ℕ

abbrev pub no_endpoint : ShardEndpoint
no_endpoint = record { host = []; port = 0 }

unfoldable pub extract_response_body : Bytes → Option Bytes
extract_response_body framed = elim (read_u32 framed) [
  | none ↦ none
  | some (len, body) ↦ if not (len == length framed - 4) then none else some (take len body)
]

-- One string of an array: the tag, the length and the bytes.
abbrev pub read_key : Bytes → Option (Bytes × Bytes)
read_key [] = none
read_key (tag ∷ rest) =
    if tag == 2 then (read_u32 rest >>= λ (slen, bytes). read_str slen bytes) else none

-- The inner loop of `merge_key_arrays`, with the keys read so far.
unfoldable pub read_keys : ℕ → Bytes → List Bytes → Option (List Bytes × Bytes)
read_keys zero body keys = some (keys, body)
read_keys (suc n) body keys = read_key body >>= λ (key, rest). read_keys n rest (keys ++ key ∷ [])

-- A reply's body is one array of strings.
abbrev pub whole_body : List Bytes × Bytes → Option (List Bytes)
whole_body (keys, []) = some keys
whole_body (keys, _ ∷ _) = none

unfoldable pub read_body : Bytes → List Bytes → Option (List Bytes)
read_body [] keys = none
read_body (tag ∷ rest) keys =
    if tag == 5
    then (read_u32 rest >>= λ (n, strings). read_keys n strings keys >>= whole_body)
    else none

unfoldable pub read_bodies : List Bytes → List Bytes → Option (List Bytes)
read_bodies [] keys = some keys
read_bodies (body ∷ bodies) keys = read_body body keys >>= read_bodies bodies

unfoldable pub out_strs : List Bytes → Bytes → Bytes
out_strs [] out = out
out_strs (k ∷ keys) out = out_strs keys (out_str out k)

abbrev pub merged : Bytes → Option (List Bytes) → Option Bytes
merged out none = none
merged out (some keys) = some (out_strs keys (out_arr out (length keys)))

unfoldable pub merge_key_arrays : List Bytes → Bytes → Option Bytes
merge_key_arrays bodies out = merged out (read_bodies bodies [])

unfoldable pub is_ping : List Bytes → Bool
is_ping (op ∷ []) = bytes_eq op (codes "ping")
is_ping (op ∷ _ ∷ []) = bytes_eq op (codes "ping")
is_ping _ = false

-- The answer to a ping.
abbrev pub pong : List Bytes → Bytes
pong (_ ∷ text ∷ []) = text
pong _ = codes "PONG"

module _ (tcp_rpc : ShardEndpoint → List Bytes → Option Bytes) where
  -- The loop over the shards: the bodies of the replies, or the message of the first error.
  unfoldable pub gather : List ShardEndpoint → List Bytes → List Bytes → Bytes ⊎ List Bytes
  gather [] cmd bodies = inr bodies
  gather (ep ∷ shards) cmd bodies = elim (tcp_rpc ep cmd) [
    | none ↦ inl (codes "shard unreachable")
    | some framed ↦ elim (extract_response_body framed) [
      | none ↦ inl (codes "bad shard response")
      | some body ↦ gather shards cmd (bodies ++ body ∷ [])
    ]
  ]

  unfoldable pub merge_replies : Bytes ⊎ List Bytes → Bytes → Bytes
  merge_replies (inl message) out = out_err out err_unknown message
  merge_replies (inr bodies) out = elim (merge_key_arrays bodies out) [
    | none ↦ out_err out err_unknown (codes "failed to merge keys")
    | some merged ↦ merged
  ]

  -- The reply of one shard.
  unfoldable pub forward : ShardEndpoint → List Bytes → Bytes → Bytes
  forward ep cmd out = elim (tcp_rpc ep cmd) [
    | none ↦ out_err out err_unknown (codes "shard unreachable")
    | some framed ↦ elim (extract_response_body framed) [
      | none ↦ out_err out err_unknown (codes "bad shard response")
      | some body ↦ out ++ body
    ]
  ]

  unfoldable pub route : List ShardEndpoint → List Bytes → Bytes → Bytes
  route shards cmd out = elim (routing_key_for_command cmd) [
    | none ↦ out_err out err_unknown (codes "cannot route command")
    | some key ↦ forward (get_or shards (shard_for_key key (length shards)) no_endpoint) cmd out
  ]

  unfoldable pub on_request : List ShardEndpoint → List Bytes → Bytes → Bytes
  on_request shards cmd out =
      if is_ping cmd
      then out_str out (pong cmd)
      else if is_scatter_gather_command cmd
      then merge_replies (gather shards cmd []) out
      else route shards cmd out

-- A shard takes a request unless its key belongs to another one.
unfoldable pub accepts : ℕ → ℕ → List Bytes → Bool
accepts num_shards shard_id cmd =
    let mine : Bool = elim (routing_key_for_command cmd) [
      | none ↦ true
      | some key ↦ shard_for_key key num_shards == shard_id
    ] in
    if ltb 1 num_shards then mine else true

module _ {S : Type 0} (execute : S → List Bytes → Bytes → S × Bytes) where
  unfoldable pub shard_on_request : ℕ → ℕ → S → List Bytes → Bytes → S × Bytes
  shard_on_request num_shards shard_id s cmd out =
      if accepts num_shards shard_id cmd
      then execute s cmd out
      else (s, out_err out err_bad_arg (codes "key does not belong to this shard"))
