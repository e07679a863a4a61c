-- ===== src/Tests/Calls.antt =====
-- A remote call whose bytes come in pieces, and a reply that the client prints.
use apex_db.Prelude.{◌≡◌, true, [], ◌∷◌, ◌++◌, some, arith}
use apex_db.Bytes.{Bytes, le32}
use apex_db.Protocol.{err_bad_typ}
use apex_db.TcpRpc.{interrupted, moved, tcp_rpc_raw}
use apex_db.TcpRpc.Frames.{tcp_rpc_raw_complete}
use apex_db.Client.{print_response}
use apex_db.Client.Limits.{IsRead, print_response-encode}
use apex_db.Client.Replies.{Value, v_nil, v_err, v_str, v_int, v_arr, no_values, and_value, encode}
use apex_db.Sharding.{codes}

abbrev request : Bytes
request = 1 ∷ 0 ∷ 0 ∷ 0 ∷ 9 ∷ []

tcp_rpc_raw_complete_example :
    tcp_rpc_raw true
      (moved 2 ∷ interrupted ∷ moved 1 ∷ moved 1 ∷ moved 9 ∷ moved 1 ∷ [])
      (moved 3 ∷ moved 3 ∷ interrupted ∷ moved 1 ∷ moved 1 ∷ moved 1 ∷ [])
      (le32 1 ++ ((7 ∷ []) ++ (8 ∷ [])))
      request
    ≡ (request, some (le32 1 ++ 7 ∷ []))
tcp_rpc_raw_complete_example =
    tcp_rpc_raw_complete (moved 2 ∷ interrupted ∷ moved 1 ∷ moved 1 ∷ moved 9 ∷ moved 1 ∷ [])
      (moved 3 ∷ moved 3 ∷ interrupted ∷ moved 1 ∷ moved 1 ∷ moved 1 ∷ []) request (7 ∷ []) (8 ∷ [])
      (omega arith) (omega arith) (omega arith) (omega arith) (omega arith)

-- An array of a string and an array of an error.
abbrev reply : Value
reply = v_arr (
    and_value (v_str (codes "hi"))
      (and_value (v_arr (and_value (v_err err_bad_typ (codes "no")) no_values)) no_values))

print_response-encode_example : IsRead reply (print_response 65 (encode reply ++ []))
unfolding apex_db.Client.Replies.IsShallow apex_db.Client.Replies.encode
print_response-encode_example = print_response-encode reply [] (tt, ((tt, tt), tt)) (omega arith)
