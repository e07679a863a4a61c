-- ===== src/Tests/Routed.antt =====
-- The proxy at concrete inputs, with two shards.
use apex_db.Prelude.{
  ℕ, zero, suc, ◌+◌, ◌-◌, ◌<◌, ◌≡◌, refl, true, Option, none, some, List, [], ◌∷◌, ◌++◌, arith,
  ◌==◌, if◌then◌else◌, length, get_or, All,
}
use apex_db.Bytes.{Bytes}
use apex_db.Protocol.{err_unknown, err_bad_arg, out_err, out_arr}
use apex_db.Protocol.Responses.{sent_body}
use apex_db.Sharding.{codes, shard_for_key, routing_key_for_command}
use apex_db.Proxy.{
  ShardEndpoint, no_endpoint, out_strs, merge_key_arrays, on_request, shard_on_request,
}
use apex_db.Proxy.Merging.{key_arrays, all_keys, AreShort, merge_key_arrays_lem}
use apex_db.Proxy.Owners.{shard_frame, on_request-shard_on_request}

abbrev shards : List ShardEndpoint
shards = record { host = codes "a"; port = 7000 } ∷ record { host = codes "b"; port = 7001 } ∷ []

abbrev get_command : List Bytes
get_command = codes "get" ∷ codes "key" ∷ []

routed : routing_key_for_command get_command ≡ some (codes "key")
unfolding routing_key_for_command apex_db.Sharding.is_string_op apex_db.Bytes.bytes_eq
routed = refl

-- A store is a number, which counts the commands that it has run and with which it replies.
abbrev step : ℕ → List Bytes → ℕ
step s cmd = suc s

abbrev reply : ℕ → List Bytes → Bytes
reply s cmd = s ∷ []

abbrev execute : ℕ → List Bytes → Bytes → ℕ × Bytes
execute s cmd out = (step s cmd, out ++ reply s cmd)

abbrev stores : ℕ → ℕ
stores i = 10 + i

-- The calls of the two shards, of which both are up.
abbrev called : ShardEndpoint → List Bytes → Option Bytes
called ep cmd =
    let id = ep.port - 7000 in
    some (shard_frame execute step reply (λ s cmd out. refl) 2 id (stores id) cmd)

both_called :
    (i : ℕ)
    → i < 2
    → called (get_or shards i no_endpoint) get_command ≡ (
        if true
        then some (shard_frame execute step reply (λ s cmd out. refl) 2 i (stores i) get_command)
        else none)
both_called zero h = refl
both_called (suc zero) h = refl
both_called (suc (suc i)) h = absurd (omega (arith, h))

on_request-shard_on_request_example :
    let owner = shard_for_key (codes "key") 2 in
    (on_request called shards get_command [] ≡ (
      if true
      then [] ++ sent_body (reply (stores owner) get_command)
      else out_err [] err_unknown (codes "shard unreachable")))
    × (shard_on_request execute 2 1 (stores 1) get_command [] ≡ (
        if owner == 1
        then (step (stores 1) get_command, [] ++ reply (stores 1) get_command)
        else (stores 1, out_err [] err_bad_arg (codes "key does not belong to this shard"))))
on_request-shard_on_request_example =
    on_request-shard_on_request execute step reply (λ s cmd out. refl) called shards stores
      (λ i. true) get_command [] (codes "key") 1 routed (omega arith) both_called

abbrev lists : List (List Bytes)
lists = (codes "x" ∷ []) ∷ [] ∷ (codes "y" ∷ codes "z" ∷ []) ∷ []

lists-AreShort : All AreShort lists
lists-AreShort = (
  (omega arith, (omega arith, tt)),
  ((omega arith, tt), ((omega arith, (omega arith, (omega arith, tt))), tt)),
)

merge_key_arrays_lem_example :
    merge_key_arrays (key_arrays lists) []
    ≡ some (out_strs (all_keys lists) (out_arr [] (length (all_keys lists))))
merge_key_arrays_lem_example = merge_key_arrays_lem lists [] lists-AreShort
