-- ===== src/Proxy/Owners.antt =====
-- A command with a key, from the proxy to the shard that owns the key and back (src/proxy.cpp and
-- src/shard_main.cpp).
use apex_db.Prelude.{
  ℕ, ◌-◌, ◌^◌, ◌<◌, ◌≡◌, refl, sym, ◌∙◌, ap, Bool, true, false, Option, none, some, List, [], ◌∷◌,
  ◌++◌, arith, ltb, ◌==◌, ==_iff, if◌then◌else◌, length, take, get_or, take-append, append-nil,
  Bool-cases, inl, inr,
}
use apex_db.Bytes.{Bytes, bytes_eq, bytes_eq_iff, le32, read_u32-le32}
use apex_db.Protocol.{err_unknown, err_bad_arg, out_err, response_begin, response_end}
use apex_db.Protocol.Responses.{sent_body, response_end-response_begin}
use apex_db.Sharding.{
  codes, shard_for_key, routing_key_for_command, is_string_op, is_zset_op,
  is_scatter_gather_command,
}
use apex_db.Sharding.Routing.{shard_for_key-lt}
use apex_db.Proxy.{
  ShardEndpoint, no_endpoint, extract_response_body, forward, route, on_request, is_ping, accepts,
  shard_on_request,
}

-- A framed reply of fewer than `2 ^ 32` bytes is unpacked to its body.
pub extract_response_body_lem :
    (body : Bytes)
    → length body < 2 ^ 32
    → extract_response_body (le32 (length body) ++ body) ≡ some body
unfolding extract_response_body
extract_response_body_lem body h =
    let same : (length body == length (le32 (length body) ++ body) - 4) ≡ true = ground arith in
    rw (extract_response_body, read_u32-le32 (length body) body h, same)
      (ap some (ap (take (length body)) (sym (append-nil body)) ∙ take-append body []))

ping_unrouted :
    (key : Bytes) (args : List Bytes) → routing_key_for_command (codes "ping" ∷ key ∷ args) ≡ none
unfolding routing_key_for_command is_string_op is_zset_op bytes_eq
ping_unrouted key args = refl

-- A command with a key is no ping and no request for all keys.
routed_ping :
    (cmd : List Bytes) (key : Bytes) → routing_key_for_command cmd ≡ some key → is_ping cmd ≡ false
unfolding routing_key_for_command is_ping
routed_ping [] key e = refl
routed_ping (op ∷ []) key e = cc
routed_ping (op ∷ k ∷ []) key e = elim (Bool-cases (bytes_eq op (codes "ping"))) [
  | inr h ↦ h
  | inl h ↦
      let same : op ≡ codes "ping" = (bytes_eq_iff op (codes "ping")).0 h in
      let clash : routing_key_for_command (codes "ping" ∷ k ∷ []) ≡ some key =
        ap (λ x. routing_key_for_command (x ∷ k ∷ [])) (sym same) ∙ e in
      absurd (let clash' = sym (ping_unrouted k []) ∙ clash in cc)
]
routed_ping (op ∷ k ∷ a ∷ args) key e = refl

routed_keys :
    (cmd : List Bytes) (key : Bytes)
    → routing_key_for_command cmd ≡ some key
    → is_scatter_gather_command cmd ≡ false
unfolding routing_key_for_command is_scatter_gather_command
routed_keys [] key e = refl
routed_keys (op ∷ []) key e = cc
routed_keys (op ∷ k ∷ args) key e = refl

sent_body-lt : (body : Bytes) → length (sent_body body) < 2 ^ 32
sent_body-lt body = omega (arith, (response_end-response_begin [] body).1)

-- A shard takes a command with a key exactly if the key is its own.
accepts-owned :
    (num_shards id : ℕ) (cmd : List Bytes) (key : Bytes)
    → routing_key_for_command cmd ≡ some key
    → id < num_shards
    → accepts num_shards id cmd ≡ (shard_for_key key num_shards == id)
unfolding accepts
accepts-owned num_shards id cmd key e h = elim (Bool-cases (ltb 1 num_shards)) [
  | inl several ↦ rw (accepts, several, e) refl
  | inr one ↦
      rw (accepts, one)
        (sym (ground (arith, shard_for_key-lt key num_shards (omega (arith, h)), one)))
]

on_request-forward :
    (tcp_rpc : ShardEndpoint → List Bytes → Option Bytes) (shards : List ShardEndpoint)
    (cmd : List Bytes) (out key : Bytes)
    → routing_key_for_command cmd ≡ some key
    → on_request tcp_rpc shards cmd out
      ≡ forward tcp_rpc (get_or shards (shard_for_key key (length shards)) no_endpoint) cmd out
unfolding on_request route
on_request-forward tcp_rpc shards cmd out key e =
    rw (on_request, routed_ping cmd key e, routed_keys cmd key e, route, e) refl

forward-frame :
    (tcp_rpc : ShardEndpoint → List Bytes → Option Bytes) (ep : ShardEndpoint) (cmd : List Bytes)
    (out body frame : Bytes) (reached : Bool)
    → tcp_rpc ep cmd ≡ (if reached then some frame else none)
    → frame ≡ le32 (length body) ++ body
    → length body < 2 ^ 32
    → forward tcp_rpc ep cmd out
      ≡ (if reached then out ++ body else out_err out err_unknown (codes "shard unreachable"))
unfolding forward
forward-frame tcp_rpc ep cmd out body frame true e f h =
    rw (forward, e, f, extract_response_body_lem body h) refl
forward-frame tcp_rpc ep cmd out body frame false e f h = rw (forward, e) refl

module _ {S : Type 0} (execute : S → List Bytes → Bytes → S × Bytes) (step : S → List Bytes → S)
    (reply : S → List Bytes → Bytes)
    (execute-reply : (s : S) (cmd : List Bytes) (out : Bytes)
      → execute s cmd out ≡ (step s cmd, out ++ reply s cmd)) where
  -- The frame in which a shard's server puts the answer of its handler.
  abbrev pub shard_frame : ℕ → ℕ → S → List Bytes → Bytes
  shard_frame num_shards id s cmd =
      let (opened, header) = response_begin [] in
      response_end (shard_on_request execute num_shards id s cmd opened).1 header

  shard_on_request-owned :
      (num_shards id : ℕ) (s : S) (cmd : List Bytes) (out key : Bytes)
      → routing_key_for_command cmd ≡ some key
      → id < num_shards
      → shard_on_request execute num_shards id s cmd out ≡ (
          if shard_for_key key num_shards == id
          then (step s cmd, out ++ reply s cmd)
          else (s, out_err out err_bad_arg (codes "key does not belong to this shard")))
  unfolding shard_on_request
  shard_on_request-owned num_shards id s cmd out key e h =
      rw (shard_on_request, accepts-owned num_shards id cmd key e h, execute-reply s cmd out) refl

  shard_frame-owner :
      (num_shards : ℕ) (s : S) (cmd : List Bytes) (key : Bytes)
      → routing_key_for_command cmd ≡ some key
      → 0 < num_shards
      → shard_frame num_shards (shard_for_key key num_shards) s cmd
        ≡ le32 (length (sent_body (reply s cmd))) ++ sent_body (reply s cmd)
  shard_frame-owner num_shards s cmd key e h =
      let owner = shard_for_key key num_shards in
      let own : (owner == owner) ≡ true = (==_iff owner owner).1 refl in
      let (opened, header) = response_begin [] in
      let answer : shard_on_request execute num_shards owner s cmd opened
          ≡ (step s cmd, opened ++ reply s cmd) =
        shard_on_request-owned num_shards owner s cmd opened key e
          (shard_for_key-lt key num_shards h)
        ∙ rw own refl in
      ap (λ (r : S × Bytes). response_end r.1 header) answer
      ∙ (response_end-response_begin [] (reply s cmd)).0

  -- Through the proxy, a command with a key is answered with what the store of the one shard that
  -- owns the key replies, as it fits a message, or with an error if that shard cannot be reached,
  -- whatever the other shards are. A shard runs the command if it owns the key; else it refuses
  -- the command and keeps its store. It is assumed that the execution of a command appends its
  -- reply to the output, and that a call of a shard gives the frame of its handler's answer if
  -- the shard is up, and fails if not.
  pub on_request-shard_on_request :
      (tcp_rpc : ShardEndpoint → List Bytes → Option Bytes) (shards : List ShardEndpoint)
      (stores : ℕ → S) (up : ℕ → Bool) (cmd : List Bytes) (out key : Bytes) (id : ℕ)
      → routing_key_for_command cmd ≡ some key
      → id < length shards
      → ((i : ℕ)
          → i < length shards
          → tcp_rpc (get_or shards i no_endpoint) cmd
            ≡ (if up i then some (shard_frame (length shards) i (stores i) cmd) else none))
      → let owner = shard_for_key key (length shards) in
        (on_request tcp_rpc shards cmd out ≡ (
          if up owner
          then out ++ sent_body (reply (stores owner) cmd)
          else out_err out err_unknown (codes "shard unreachable")))
        × (shard_on_request execute (length shards) id (stores id) cmd out ≡ (
            if owner == id
            then (step (stores id) cmd, out ++ reply (stores id) cmd)
            else (stores id, out_err out err_bad_arg (codes "key does not belong to this shard"))))
  on_request-shard_on_request tcp_rpc shards stores up cmd out key id e h calls =
      let owner = shard_for_key key (length shards) in
      let some_shard : 0 < length shards = omega (arith, h) in
      let body = sent_body (reply (stores owner) cmd) in
      (
        on_request-forward tcp_rpc shards cmd out key e
            ∙ forward-frame tcp_rpc (get_or shards owner no_endpoint) cmd out body
                (shard_frame (length shards) owner (stores owner) cmd) (up owner)
                (calls owner (shard_for_key-lt key (length shards) some_shard))
                (shard_frame-owner (length shards) (stores owner) cmd key e some_shard)
                (sent_body-lt (reply (stores owner) cmd)),
        shard_on_request-owned (length shards) id (stores id) cmd out key e h,
      )
