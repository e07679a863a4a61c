-- ===== src/Protocol.antt =====
-- The wire protocol (src/protocol.cpp, include/protocol.hpp, include/list.h): request frames, the
-- tagged values of a response, and the framing of a response.
pub mod Requests
pub mod Responses
use apex_db.Prelude.{
  ℕ, zero, suc, ◌+◌, ◌-◌, ◌*◌, ◌%◌, ◌^◌, Bool, true, false, ◌||◌, Option, none, some, List, [], ◌∷◌,
  ◌++◌, ltb, leb, ◌==◌, if◌then◌else◌, ◌>>=◌, length, take, drop,
}
use apex_db.Bytes.{Bytes, le32, le64, read_u32}

-- `32 << 20` bytes, and `200 * 1000` arguments.
abbrev pub k_max_msg : ℕ
k_max_msg = 33554432

abbrev pub k_max_args : ℕ
k_max_args = 200000

-- The codes of an error reply.
pub data ErrorCode : Type 0 where
  err_unknown err_too_big err_bad_typ err_bad_arg : ErrorCode

abbrev pub error_number : ErrorCode → ℕ
error_number err_unknown = 1
error_number err_too_big = 2
error_number err_bad_typ = 3
error_number err_bad_arg = 4

-- The tags of serialised values.
pub data Tag : Type 0 where
  tag_nil tag_err tag_str tag_int tag_dbl tag_arr : Tag

abbrev pub tag_number : Tag → ℕ
tag_number tag_nil = 0
tag_number tag_err = 1
tag_number tag_str = 2
tag_number tag_int = 3
tag_number tag_dbl = 4
tag_number tag_arr = 5

-- `read_str`: the next `n` bytes and what follows them.
unfoldable pub read_str : ℕ → Bytes → Option (Bytes × Bytes)
read_str n cur = if ltb (length cur) n then none else some (take n cur, drop n cur)

-- The loop of `parse_req`: `n` strings are still to be read, `out` holds those read so far.
unfoldable pub read_args : ℕ → Bytes → List Bytes → Option (List Bytes × Bytes)
read_args zero cur out = some (out, cur)
read_args (suc n) cur out = read_u32 cur >>= λ (len, cur₁).
    read_str len cur₁ >>= λ (s, cur₂). read_args n cur₂ (out ++ s ∷ [])

-- `data == end`
abbrev pub at_end : List Bytes × Bytes → Option (List Bytes)
at_end (out, []) = some out
at_end (out, _ ∷ _) = none

-- `none` for `false`; no caller reads the strings of a request that was refused.
unfoldable pub parse_req : Bytes → Option (List Bytes)
parse_req bytes =
    if ltb (length bytes) 4 || ltb k_max_msg (length bytes)
    then none
    else (read_u32 bytes >>= λ (nstr, cur).
        if ltb k_max_args nstr then none else (read_args nstr cur [] >>= at_end))

-- The first loop of `encode_request`: the body's length, in a `uint32_t`.
unfoldable pub request_length : List Bytes → ℕ → Option ℕ
request_length [] len = some len
request_length (s ∷ cmd) len =
    let rest = request_length cmd ((len + (4 + length s % 2 ^ 32)) % 2 ^ 32) in
    if ltb (k_max_msg - 4) len || ltb (k_max_msg - len - 4) (length s) then none else rest

-- The second loop of `encode_request`.
unfoldable pub encode_args : List Bytes → Bytes
encode_args [] = []
encode_args (s ∷ cmd) = le32 (length s) ++ s ++ encode_args cmd

abbrev framed_request : List Bytes → Option ℕ → Bytes
framed_request cmd none = []
framed_request cmd (some len) = le32 len ++ le32 (length cmd) ++ encode_args cmd

-- The empty buffer stands for a request that does not fit.
unfoldable pub encode_request : List Bytes → Bytes
unfolding request_length encode_args
encode_request cmd =
    if ltb k_max_args (length cmd) then [] else framed_request cmd (request_length cmd 4)

unfoldable pub out_nil : Bytes → Bytes
out_nil out = out ++ tag_number tag_nil ∷ []

unfoldable pub out_str : Bytes → Bytes → Bytes
out_str out s = out ++ tag_number tag_str ∷ le32 (length s) ++ s

-- The argument is the 64-bit pattern of the `int64_t`.
unfoldable pub out_int : Bytes → ℕ → Bytes
out_int out word = out ++ tag_number tag_int ∷ le64 word

-- The argument holds the eight bytes of the `double`.
unfoldable pub out_dbl : Bytes → Bytes → Bytes
out_dbl out pattern_bytes = out ++ tag_number tag_dbl ∷ pattern_bytes

unfoldable pub out_err : Bytes → ErrorCode → Bytes → Bytes
out_err out code msg =
    out ++ tag_number tag_err ∷ (le32 (error_number code) ++ le32 (length msg) ++ msg)

unfoldable pub out_arr : Bytes → ℕ → Bytes
out_arr out n = out ++ tag_number tag_arr ∷ le32 n

-- `memcpy(&buf[pos], bytes, n)`
unfoldable pub overwrite : Bytes → ℕ → Bytes → Bytes
overwrite buf pos bytes = take pos buf ++ bytes ++ drop (pos + length bytes) buf

-- The buffer with an open array, and the place of its count.
unfoldable pub out_begin_arr : Bytes → Bytes × ℕ
out_begin_arr out = let opened = out ++ tag_number tag_arr ∷ le32 0 in (opened, length opened - 4)

unfoldable pub out_end_arr : Bytes → ℕ → ℕ → Bytes
unfolding overwrite
out_end_arr out ctx n = overwrite out ctx (le32 n)

-- The buffer with room for the length, and the place of the length.
unfoldable pub response_begin : Bytes → Bytes × ℕ
response_begin out = (out ++ le32 0, length out)

unfoldable pub response_size : Bytes → ℕ → ℕ
response_size out header = length out - header - 4

-- "response is too big."
abbrev pub too_big_message : Bytes
too_big_message =
    114 ∷ 101 ∷ 115 ∷ 112 ∷ 111 ∷ 110 ∷ 115 ∷ 101 ∷ 32 ∷ 105 ∷ 115 ∷ 32 ∷ 116 ∷ 111 ∷ 111 ∷ 32 ∷ 98
    ∷ 105 ∷ 103 ∷ 46 ∷ []

unfoldable pub response_end : Bytes → ℕ → Bytes
unfolding overwrite response_size out_err
response_end out header =
    let replaced = out_err (take (header + 4) out) err_too_big too_big_message in
    let sent = if ltb k_max_msg (response_size out header) then replaced else out in
    overwrite sent header (le32 (response_size sent header))
