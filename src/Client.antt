-- ===== src/Client.antt =====
-- The command line client (src/client.cpp). What `printf` makes of a line is not modelled: a line is its
-- kind with the bytes of the text or the number that it is given.
pub mod Replies
pub mod Limits
use apex_db.Prelude.{
  ℕ, zero, suc, ◌+◌, ◌-◌, ◌%◌, ◌^◌, ℤ, pos, negsuc, Bool, true, false, ◌&&◌, ◌||◌, not, List, [],
  ◌∷◌, ◌++◌, Option, none, some, ltb, ◌==◌, if◌then◌else◌, length, take, drop,
}
use apex_db.Bytes.{Bytes, bytes_eq, read_u32}
use apex_db.Numbers.{parse_port}
use apex_db.Sharding.{codes}

-- `(nil)`, `(err)`, `(str)`, `(int)`, `(dbl)`, `(arr) len=` and `(arr) end`.
pub data Line : Type 0 where
  nil_line arr_end : Line
  err_line : ℕ → Bytes → Line
  str_line int_line dbl_line : Bytes → Line
  arr_line : ℕ → Line

-- What is printed, and the `int32_t` that is returned.
abbrev pub Printed : Type 0
Printed = List Line × ℤ

-- `return -1`
abbrev pub invalid : Printed
invalid = ([], negsuc 0)

-- `static_cast<int32_t>`
unfoldable pub to_int32 : ℕ → ℤ
to_int32 n =
    let word = n % 2 ^ 32 in if ltb word (2 ^ 31) then pos word else negsuc (2 ^ 32 - 1 - word)

-- The cases of the switch, on what the bytes after the tag begin with.
abbrev pub print_str : Option (ℕ × Bytes) → Printed
print_str none = invalid
print_str (some (len, text)) =
    if ltb (length text) len then invalid else (str_line (take len text) ∷ [], to_int32 (5 + len))

abbrev pub print_text : ℕ → Option (ℕ × Bytes) → Printed
print_text code none = invalid
print_text code (some (len, text)) =
    if ltb (length text) len
    then invalid
    else (err_line code (take len text) ∷ [], to_int32 (9 + len))

abbrev pub print_err : Option (ℕ × Bytes) → Printed
print_err none = invalid
print_err (some (code, text)) = print_text code (read_u32 text)

-- An integer or a double.
abbrev pub print_word : (Bytes → Line) → Bytes → Printed
print_word line rest = if ltb (length rest) 8 then invalid else (line (take 8 rest) ∷ [], pos 9)

abbrev pub ahead_of : List Line → Printed → Printed
ahead_of lines (more, taken) = (lines ++ more, taken)

-- The loop over the elements of an array; `print` is the recursive call.
unfoldable pub print_elements : (Bytes → Printed) → ℕ → Bytes → ℕ → Printed
print_elements print zero rest arr_bytes = (arr_end ∷ [], to_int32 arr_bytes)
print_elements print (suc n) rest arr_bytes =
    let (lines, taken) = print rest in
    elim taken [
      | negsuc n ↦ (lines, negsuc n)
      | pos rv ↦ ahead_of lines (print_elements print n (drop rv rest) (arr_bytes + rv))
    ]

abbrev pub print_arr : (Bytes → Printed) → Option (ℕ × Bytes) → Printed
print_arr print none = invalid
print_arr print (some (len, elements)) =
    ahead_of (arr_line len ∷ []) (print_elements print len elements 5)

-- `print_response`; `levels` is `65 - depth`.
unfoldable pub print_response : ℕ → Bytes → Printed
print_response zero bytes = invalid
print_response (suc levels) [] = invalid
print_response (suc levels) (tag ∷ rest) =
    let array = print_arr (print_response levels) (read_u32 rest) in
    if tag == 0
    then (nil_line ∷ [], pos 1)
    else if tag == 1
    then print_err (read_u32 rest)
    else if tag == 2
    then print_str (read_u32 rest)
    else if tag == 3
    then print_word int_line rest
    else if tag == 4
    then print_word dbl_line rest
    else if tag == 5
    then array
    else invalid

-- What the command line asks for.
pub data Arguments : Type 0 where
  usage_error usage_help : Arguments
  call : Bytes → ℕ → List Bytes → Arguments

-- The loop over the arguments, before the command has started.
unfoldable pub parse_args : Bytes → ℕ → List Bytes → Arguments
parse_args host port [] = usage_error
parse_args host port (arg ∷ []) =
    if bytes_eq arg (codes "--help") then usage_help else call host port (arg ∷ [])
parse_args host port (arg ∷ next ∷ rest) =
    let with_host = parse_args next port rest in
    let with_port : Arguments = elim (parse_port next) [
      | none ↦ usage_error
      | some p ↦ parse_args host p rest
    ] in
    if bytes_eq arg (codes "-h")
    then with_host
    else if bytes_eq arg (codes "-p")
    then with_port
    else if bytes_eq arg (codes "--help")
    then usage_help
    else call host port (arg ∷ next ∷ rest)

-- The end of `main`: what is printed, and the exit code. `framed` is the response, if the call succeeded.
unfoldable pub client_end : Option Bytes → List Line × ℕ
client_end none = ([], 1)
client_end (some framed) =
    let (lines, consumed) = print_response 65 (drop 4 framed) in
    let code : ℕ = elim (drop 4 framed) [ [] ↦ 1 | tag ∷ _ ↦ if tag == 1 then 1 else 0 ] in
    let status : ℕ = elim consumed [
      | negsuc _ ↦ 1
      | pos n ↦ if n == length framed - 4 then code else 1
    ] in
    if ltb 4 (length framed) then (lines, status) else ([], 1)
