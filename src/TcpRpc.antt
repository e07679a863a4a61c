-- ===== src/TcpRpc.antt =====
-- A remote call (src/tcp_rpc.cpp). What the calls of the operating system give are arguments: for each
-- `read` and `send`, in order, how many bytes it moves at most; and the bytes that the peer sends. Where
-- the list of results is at its end, the next call times out.
pub mod Frames
use apex_db.Prelude.{
  ℕ, zero, suc, ◌+◌, ◌-◌, Bool, true, false, ◌||◌, List, [], ◌∷◌, ◌++◌, Option, none, some, ltb,
  if◌then◌else◌, length, take, drop,
}
use apex_db.Bytes.{Bytes, read_u32}
use apex_db.Protocol.{k_max_msg, encode_request}

-- A call is interrupted (`EINTR`), it fails or finds the end, or it moves some bytes.
pub data Moved : Type 0 where
  interrupted ended : Moved
  moved : ℕ → Moved

unfoldable pub smaller : ℕ → ℕ → ℕ
smaller a b = if ltb a b then a else b

-- What is read of a stream, the results that are left and what is left of the stream.
abbrev pub Input : Type 0
Input = Bytes × List Moved × Bytes

abbrev pub after_bytes : Bytes → Option Input → Option Input
after_bytes some_bytes none = none
after_bytes some_bytes (some (more, results, stream)) = some (some_bytes ++ more, results, stream)

-- `read_full`. No call gives more than was asked for, or more than the peer sends; none gives no bytes
-- but at the end.
unfoldable pub read_full : List Moved → Bytes → ℕ → Option Input
read_full results stream zero = some ([], results, stream)
read_full [] stream (suc n) = none
read_full (interrupted ∷ results) stream (suc n) = read_full results stream (suc n)
read_full (ended ∷ results) stream (suc n) = none
read_full (moved k ∷ results) stream (suc n) =
    let rv = smaller (smaller k (suc n)) (length stream) in
    let rest = read_full results (drop rv stream) (suc n - rv) in
    if ltb 0 rv then after_bytes (take rv stream) rest else none

-- `write_full`: what has been sent, and the results that are left if all was.
unfoldable pub write_full : List Moved → Bytes → Bytes × Option (List Moved)
write_full results [] = ([], some results)
write_full [] (b ∷ buf) = ([], none)
write_full (interrupted ∷ results) (b ∷ buf) = write_full results (b ∷ buf)
write_full (ended ∷ results) (b ∷ buf) = ([], none)
write_full (moved k ∷ results) (b ∷ buf) =
    let rv = smaller k (length (b ∷ buf)) in
    let (sent, left) = write_full results (drop rv (b ∷ buf)) in
    if ltb 0 rv then (take rv (b ∷ buf) ++ sent, left) else ([], none)

-- The end of `tcp_rpc_raw`: the length, and the reply of that length.
unfoldable pub read_reply : List Moved → Bytes → Option Bytes
read_reply results stream = elim (read_full results stream 4) [
  | none ↦ none
  | some (hdr, results', stream') ↦ elim (read_u32 hdr) [
    | none ↦ none
    | some (len, _) ↦
        let body : Option Bytes = elim (read_full results' stream' len) [
          | none ↦ none
          | some (bytes, _, _) ↦ some (hdr ++ bytes)
        ] in
        if ltb k_max_msg len then none else body
  ]
]

-- `tcp_rpc_raw`, by whether an address of the host was connected to, and the results of the `send`s and
-- the `read`s: what is sent, and the response.
unfoldable pub tcp_rpc_raw : Bool → List Moved → List Moved → Bytes → Bytes → Bytes × Option Bytes
tcp_rpc_raw connected sends reads stream request =
    let (sent, left) = write_full sends request in
    let reply : Option Bytes = elim left [ none ↦ none | some _ ↦ read_reply reads stream ] in
    if ltb (length request) 4 || ltb k_max_msg (length request - 4)
    then ([], none)
    else if connected
    then (sent, reply)
    else ([], none)

unfoldable pub tcp_rpc : Bool → List Moved → List Moved → Bytes → List Bytes → Bytes × Option Bytes
tcp_rpc connected sends reads stream cmd =
    tcp_rpc_raw connected sends reads stream (encode_request cmd)
