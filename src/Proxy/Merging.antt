-- ===== src/Proxy/Merging.antt =====
-- The merge of the shards' keys (src/proxy.cpp: `merge_key_arrays`).
use apex_db.Prelude.{
  ◌^◌, ◌<◌, ◌≡◌, refl, sym, ◌∙◌, ap, some, List, [], ◌∷◌, ◌++◌, length, append_assoc, append-nil,
  All,
}
use apex_db.Bytes.{Bytes, le32, read_u32-le32}
use apex_db.Protocol.{out_str, out_arr}
use apex_db.Protocol.Requests.{read_str-append}
use apex_db.Proxy.{read_key, read_keys, read_body, read_bodies, out_strs, merge_key_arrays, merged}

-- The body of a reply to `keys`.
abbrev pub key_array : List Bytes → Bytes
key_array keys = out_strs keys (out_arr [] (length keys))

abbrev pub IsShort : Bytes → Type 0
IsShort s = length s < 2 ^ 32

-- Keys whose number and lengths fit the fields of the protocol.
abbrev pub AreShort : List Bytes → Type 0
AreShort keys = (length keys < 2 ^ 32) × All IsShort keys

abbrev pub all_keys : List (List Bytes) → List Bytes
all_keys [] = []
all_keys (keys ∷ lists) = keys ++ all_keys lists

abbrev pub key_arrays : List (List Bytes) → List Bytes
key_arrays [] = []
key_arrays (keys ∷ lists) = key_array keys ∷ key_arrays lists

out_str-append : (out k : Bytes) → out_str out k ≡ out ++ out_str [] k
unfolding out_str
out_str-append out k = append_assoc out (2 ∷ le32 (length k)) k

out_strs-append : (keys : List Bytes) (out : Bytes) → out_strs keys out ≡ out ++ out_strs keys []
unfolding out_strs out_str
out_strs-append [] out = rw append-nil refl
out_strs-append (k ∷ keys) out =
    let one : Bytes = out_str [] k in
    let left = out_strs-append keys (out_str out k) in
    let right = out_strs-append keys one in
    left
    ∙ ap (λ x. x ++ out_strs keys []) (out_str-append out k)
    ∙ append_assoc out one (out_strs keys [])
    ∙ ap (λ x. out ++ x) (sym right)

read_key_lem :
    (k rest : Bytes) → IsShort k → read_key (2 ∷ le32 (length k) ++ k ++ rest) ≡ some (k, rest)
read_key_lem k rest h = rw (read_u32-le32 (length k) (k ++ rest) h) (read_str-append k rest)

read_keys_lem :
    (keys : List Bytes) (read : List Bytes)
    → All IsShort keys
    → read_keys (length keys) (out_strs keys []) read ≡ some (read ++ keys, [])
unfolding read_keys out_strs out_str
read_keys_lem [] read h = rw append-nil refl
read_keys_lem (k ∷ keys) read h =
    rw (out_strs-append keys (out_str [] k), read_key_lem k (out_strs keys []) h.0)
      (read_keys_lem keys (read ++ k ∷ []) h.1
        ∙ ap (λ (x : List Bytes). some (x, [])) (append_assoc read (k ∷ []) keys))

read_body_lem :
    (keys read : List Bytes) → AreShort keys → read_body (key_array keys) read ≡ some (read ++ keys)
unfolding read_body out_arr
read_body_lem keys read h =
    rw
      (
        out_strs-append keys (out_arr [] (length keys)),
        read_u32-le32 (length keys) (out_strs keys []) h.0,
        read_keys_lem keys read h.1,
      )
      refl

read_bodies_lem :
    (lists : List (List Bytes)) (read : List Bytes)
    → All AreShort lists
    → read_bodies (key_arrays lists) read ≡ some (read ++ all_keys lists)
unfolding read_bodies
read_bodies_lem [] read h = rw append-nil refl
read_bodies_lem (keys ∷ lists) read h =
    rw (read_bodies, read_body_lem keys read h.0)
      (read_bodies_lem lists (read ++ keys) h.1 ∙ ap some (append_assoc read keys (all_keys lists)))

-- From the shards' arrays of keys, with numbers and lengths that fit the protocol, the proxy makes one
-- array of all their keys, in the order of the shards.
pub merge_key_arrays_lem :
    (lists : List (List Bytes)) (out : Bytes)
    → All AreShort lists
    → merge_key_arrays (key_arrays lists) out
      ≡ some (out_strs (all_keys lists) (out_arr out (length (all_keys lists))))
unfolding merge_key_arrays
merge_key_arrays_lem lists out h = ap (merged out) (read_bodies_lem lists [] h)
