-- ===== src/Tests/Wire.antt =====
-- The protocol and the numbers at concrete inputs.
use apex_db.Prelude.{
  ◌<◌, ◌≤◌, ◌^◌, ◌↔◌, InI64, ◌≡◌, refl, some, List, [], ◌∷◌, ◌++◌, arith, length, drop, negsuc,
}
use apex_db.Bytes.{Bytes, le32, read_u32}
use apex_db.Protocol.{
  k_max_msg, parse_req, encode_request, read_args, read_str, response_begin, response_end,
  out_begin_arr, out_end_arr, out_arr,
}
use apex_db.Protocol.Requests.{
  parse_req-encode_request, encode_request-parse_req, encode_request_empty_iff, Fits,
}
use apex_db.Protocol.Responses.{response_end-response_begin, out_end_arr-out_begin_arr, sent_body}
use apex_db.Numbers.{str2int, to_string, parse_port}
use apex_db.Numbers.RoundTrip.{str2int-to_string, str2int-InI64, parse_port_range}
use apex_db.Sharding.{codes, str_hash, shard_for_key}
use apex_db.Sharding.Routing.{str_hash-lt, shard_for_key-lt}

abbrev set_command : List Bytes
set_command = codes "set" ∷ codes "key" ∷ (120 ∷ 0 ∷ 121 ∷ []) ∷ []

parse_req-encode_request_example :
    (read_u32 (encode_request set_command)
      ≡ some (length (drop 4 (encode_request set_command)), drop 4 (encode_request set_command)))
    × (parse_req (drop 4 (encode_request set_command)) ≡ some set_command)
parse_req-encode_request_example = parse_req-encode_request set_command (omega arith)

abbrev ping_body : Bytes
ping_body = 1 ∷ 0 ∷ 0 ∷ 0 ∷ 4 ∷ 0 ∷ 0 ∷ 0 ∷ codes "ping"

ping_parsed : parse_req ping_body ≡ some (codes "ping" ∷ [])
unfolding parse_req read_args read_str read_u32
ping_parsed = refl

minus_seven : str2int (codes "-7") ≡ some (negsuc 6)
unfolding str2int apex_db.Numbers.from_chars_i64 apex_db.Numbers.from_digits apex_db.Numbers.scan
minus_seven = refl

port : parse_port (codes "6379") ≡ some 6379
unfolding parse_port apex_db.Numbers.parse_unsigned apex_db.Numbers.from_chars_u64
    apex_db.Numbers.from_digits apex_db.Numbers.scan
port = refl

encode_request-parse_req_example : encode_request (codes "ping" ∷ []) ≡ le32 12 ++ ping_body
encode_request-parse_req_example = encode_request-parse_req ping_body (omega arith) ping_parsed

encode_request_empty_iff_example : (encode_request set_command ≡ []) ↔ (¬ Fits set_command)
encode_request_empty_iff_example = encode_request_empty_iff set_command

response_end-response_begin_example :
    (response_end ((response_begin (1 ∷ [])).0 ++ 2 ∷ 3 ∷ []) (response_begin (1 ∷ [])).1
      ≡ (1 ∷ []) ++ le32 (length (sent_body (2 ∷ 3 ∷ []))) ++ sent_body (2 ∷ 3 ∷ []))
    × (length (sent_body (2 ∷ 3 ∷ [])) ≤ k_max_msg)
response_end-response_begin_example = response_end-response_begin (1 ∷ []) (2 ∷ 3 ∷ [])

out_end_arr-out_begin_arr_test :
    out_end_arr ((out_begin_arr (9 ∷ [])).0 ++ 0 ∷ 0 ∷ []) (out_begin_arr (9 ∷ [])).1 2
    ≡ out_arr (9 ∷ []) 2 ++ 0 ∷ 0 ∷ []
out_end_arr-out_begin_arr_test = out_end_arr-out_begin_arr (9 ∷ []) (0 ∷ 0 ∷ []) 2

str2int-to_string_example : str2int (to_string (negsuc 41)) ≡ some (negsuc 41)
str2int-to_string_example = str2int-to_string (negsuc 41) (omega arith)

str2int-InI64_test : InI64 (negsuc 6)
str2int-InI64_test = str2int-InI64 (codes "-7") (negsuc 6) minus_seven

parse_port_range_test : (0 < 6379) × (6379 < 65536)
parse_port_range_test = parse_port_range (codes "6379") 6379 port

str_hash-lt_test : str_hash (codes "hello") < 2 ^ 32
str_hash-lt_test = str_hash-lt (codes "hello")

shard_for_key-lt_test : shard_for_key (codes "hello") 3 < 3
shard_for_key-lt_test = shard_for_key-lt (codes "hello") 3 (omega arith)
