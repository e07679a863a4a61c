-- ===== src/Client/Replies.antt =====
-- A reply that the server has built is read back by the client (src/client.cpp: `print_response`, with the
-- `out_` functions of src/protocol.cpp).
use apex_db.Prelude.{
  ℕ, zero, suc, ◌+◌, ◌%◌, ◌^◌, ◌<◌, ◌≡◌, refl, sym, ◌∙◌, ap, pos, true, false, List, [], ◌∷◌, ◌++◌,
  append_assoc, ◌≤◌, arith, ltb, length, length-append, take, drop, take-append, drop-append,
  lt→ltb, le→ltb,
}
use apex_db.Bytes.{Bytes, le32, le64, read_u32, read_u32-le32}
use apex_db.Protocol.{
  ErrorCode, err_unknown, err_too_big, err_bad_typ, err_bad_arg, error_number, out_nil, out_err,
  out_str, out_int, out_dbl, out_arr,
}
use apex_db.Client.{
  Line, nil_line, arr_end, err_line, str_line, int_line, dbl_line, arr_line, Printed, to_int32,
  ahead_of, print_str, print_text, print_err, print_word, print_arr, print_elements, print_response,
}

mutual
  -- A value of a reply.
  pub data Value : Type 0 where
    v_nil : Value
    v_err : ErrorCode → Bytes → Value
    v_str : Bytes → Value
    v_int : ℕ → Value
    v_dbl : Bytes → Value
    v_arr : Values → Value

  pub data Values : Type 0 where
    no_values : Values
    and_value : Value → Values → Values

abbrev pub count_values : Values → ℕ
count_values no_values = 0
count_values (and_value v vs) = suc (count_values vs)

unfoldable mutual
  unfolding out_nil out_err out_str out_int out_dbl out_arr

  -- The bytes that the `out_` functions write for a value.
  pub encode : Value → Bytes
  encode v_nil = out_nil []
  encode (v_err code msg) = out_err [] code msg
  encode (v_str s) = out_str [] s
  encode (v_int word) = out_int [] word
  encode (v_dbl pattern_bytes) = out_dbl [] pattern_bytes
  encode (v_arr vs) = out_arr [] (count_values vs) ++ encode_values vs

  pub encode_values : Values → Bytes
  encode_values no_values = []
  encode_values (and_value v vs) = encode v ++ encode_values vs

unfoldable mutual
  -- What is printed for a value.
  pub lines : Value → List Line
  lines v_nil = nil_line ∷ []
  lines (v_err code msg) = err_line (error_number code) msg ∷ []
  lines (v_str s) = str_line s ∷ []
  lines (v_int word) = int_line (le64 word) ∷ []
  lines (v_dbl pattern_bytes) = dbl_line pattern_bytes ∷ []
  lines (v_arr vs) = arr_line (count_values vs) ∷ lines_of vs

  pub lines_of : Values → List Line
  lines_of no_values = arr_end ∷ []
  lines_of (and_value v vs) = lines v ++ lines_of vs

unfoldable mutual
  -- A value with doubles of eight bytes and arrays nested less deep than a number of levels.
  pub IsShallow : ℕ → Value → Type 0
  IsShallow zero v = ⊥
  IsShallow (suc n) v_nil = Unit
  IsShallow (suc n) (v_err code msg) = Unit
  IsShallow (suc n) (v_str s) = Unit
  IsShallow (suc n) (v_int word) = Unit
  IsShallow (suc n) (v_dbl pattern_bytes) = length pattern_bytes ≡ 8
  IsShallow (suc n) (v_arr vs) = AreShallow n vs

  pub AreShallow : ℕ → Values → Type 0
  AreShallow n no_values = Unit
  AreShallow n (and_value v vs) = IsShallow n v × AreShallow n vs

-- The conversion changes no number below 2 ^ 31.
to_int32_small : (n : ℕ) → n < 2 ^ 31 → to_int32 n ≡ pos n
unfolding to_int32
to_int32_small n h =
    let same : n % 2 ^ 32 ≡ n = omega (arith, h) in
    let low : ltb n (2 ^ 31) ≡ true = lt→ltb n (2 ^ 31) h in rw (to_int32, same, low) refl

-- Each value has a tag, so a number of values is at most the number of their bytes.
encode-tag : (v : Value) → 0 < length (encode v)
unfolding encode out_nil out_err out_str out_int out_dbl out_arr
encode-tag v_nil = omega arith
encode-tag (v_err code msg) = omega arith
encode-tag (v_str s) = omega arith
encode-tag (v_int word) = omega arith
encode-tag (v_dbl pattern_bytes) = omega arith
encode-tag (v_arr vs) = omega arith

pub count-encode : (vs : Values) → count_values vs ≤ length (encode_values vs)
unfolding encode_values
count-encode no_values = omega arith
count-encode (and_value v vs) =
    omega (arith, encode-tag v, count-encode vs, length-append (encode v) (encode_values vs))

long_enough : (text rest : Bytes) → ltb (length (text ++ rest)) (length text) ≡ false
long_enough text rest =
    le→ltb (length (text ++ rest)) (length text) (omega (arith, length-append text rest))

small_code : (code : ErrorCode) → error_number code < 2 ^ 32
small_code err_unknown = omega arith
small_code err_too_big = omega arith
small_code err_bad_typ = omega arith
small_code err_bad_arg = omega arith

pub print_str_lem :
    (s rest : Bytes)
    → length s < 2 ^ 32
    → print_str (read_u32 (le32 (length s) ++ (s ++ rest)))
      ≡ (str_line s ∷ [], to_int32 (5 + length s))
print_str_lem s rest h =
    ap print_str (read_u32-le32 (length s) (s ++ rest) h)
    ∙ rw (print_str, long_enough s rest, take-append s rest) refl

pub print_text_lem :
    (code : ErrorCode) (s rest : Bytes)
    → length s < 2 ^ 32
    → print_err (read_u32 (le32 (error_number code) ++ (le32 (length s) ++ (s ++ rest))))
      ≡ (err_line (error_number code) s ∷ [], to_int32 (9 + length s))
print_text_lem code s rest h =
    ap print_err
      (read_u32-le32 (error_number code) (le32 (length s) ++ (s ++ rest)) (small_code code))
    ∙ ap (print_text (error_number code)) (read_u32-le32 (length s) (s ++ rest) h)
    ∙ rw (print_text, long_enough s rest, take-append s rest) refl

print_word_lem :
    (line : Bytes → Line) (word rest : Bytes)
    → length word ≡ 8
    → print_word line (word ++ rest) ≡ (line word ∷ [], pos 9)
print_word_lem line word rest h =
    let fits : ltb (length (word ++ rest)) 8 ≡ false =
      le→ltb (length (word ++ rest)) 8 (omega (arith, length-append word rest)) in
    let first : take 8 (word ++ rest) ≡ word =
      ap (λ n. take n (word ++ rest)) (sym h) ∙ take-append word rest in
    rw (print_word, fits, first) refl

sized : (ls : List Line) (n m : ℕ) → n ≡ m → ◌≡◌ {A = Printed} (ls, pos n) (ls, pos m)
sized ls n m h = ap (λ k. (ls, pos k)) h

pub one_more :
    (print : Bytes → Printed) (n : ℕ) (bytes rest : Bytes) (start : ℕ) (ls : List Line) (k : ℕ)
    (o : Printed)
    → print bytes ≡ (ls, pos k)
    → drop k bytes ≡ rest
    → print_elements print n rest (start + k) ≡ o
    → print_elements print (suc n) bytes start ≡ ahead_of ls o
unfolding print_elements
one_more print n bytes rest start ls k o first after others =
    rw (print_elements, first, after, others) (ap {A = Printed} (λ p. ahead_of p.0 o) first)

mutual
  unfolding print_response print_elements encode encode_values lines IsShallow

  pub print_value :
      (n : ℕ) (v : Value) (rest : Bytes)
      → IsShallow n v
      → length (encode v) < 2 ^ 31
      → print_response n (encode v ++ rest) ≡ (lines v, pos (length (encode v)))
  print_value zero v rest h fits = absurd h
  print_value (suc n) v_nil rest h fits = sized _ _ _ (omega arith)
  print_value (suc n) (v_err code msg) rest h fits =
      let size : 9 + length msg < 2 ^ 31 = omega (arith, fits) in
      print_text_lem code msg rest (omega (arith, size))
      ∙ ap (λ k. (err_line (error_number code) msg ∷ [], k)) (to_int32_small (9 + length msg) size)
      ∙ sized _ _ _ (omega arith)
  print_value (suc n) (v_str s) rest h fits =
      let size : 5 + length s < 2 ^ 31 = omega (arith, fits) in
      print_str_lem s rest (omega (arith, size))
      ∙ ap (λ k. (str_line s ∷ [], k)) (to_int32_small (5 + length s) size)
      ∙ sized _ _ _ (omega arith)
  print_value (suc n) (v_int word) rest h fits =
      print_word_lem int_line (le64 word) rest refl ∙ sized _ _ _ (omega arith)
  print_value (suc n) (v_dbl pattern_bytes) rest h fits =
      print_word_lem dbl_line pattern_bytes rest h ∙ sized _ _ _ (omega (arith, h))
  print_value (suc n) (v_arr vs) rest h fits =
      let size : 5 + length (encode_values vs) < 2 ^ 31 = omega (arith, fits) in
      ap (print_arr (print_response n)) (
        read_u32-le32 (count_values vs) (encode_values vs ++ rest)
          (omega (arith, size, count-encode vs)))
      ∙ ap (ahead_of (arr_line (count_values vs) ∷ [])) (print_elements-encode n vs rest 5 h size)
      ∙ sized _ _ _ (omega arith)

  print_elements-encode :
      (n : ℕ) (vs : Values) (rest : Bytes) (start : ℕ)
      → AreShallow n vs
      → start + length (encode_values vs) < 2 ^ 31
      → print_elements (print_response n) (count_values vs) (encode_values vs ++ rest) start
        ≡ (lines_of vs, pos (start + length (encode_values vs)))
  print_elements-encode n no_values rest start h fits =
      ap (λ k. (arr_end ∷ [], k)) (to_int32_small start (omega (arith, fits)))
      ∙ sized _ _ _ (omega arith)
  print_elements-encode n (and_value v vs) rest start h fits =
      let size : length (encode v ++ encode_values vs)
          ≡ length (encode v) + length (encode_values vs) =
        length-append (encode v) (encode_values vs) in
      let first : print_response n ((encode v ++ encode_values vs) ++ rest)
          ≡ (lines v, pos (length (encode v))) =
        ap (print_response n) (append_assoc (encode v) (encode_values vs) rest)
        ∙ print_value n v (encode_values vs ++ rest) h.0 (omega (arith, fits, size)) in
      let rest_of : drop (length (encode v)) ((encode v ++ encode_values vs) ++ rest)
          ≡ encode_values vs ++ rest =
        ap (drop (length (encode v))) (append_assoc (encode v) (encode_values vs) rest)
        ∙ drop-append (encode v) (encode_values vs ++ rest) in
      one_more (print_response n) (count_values vs) ((encode v ++ encode_values vs) ++ rest)
        (encode_values vs ++ rest) start (lines v) (length (encode v)) _ first rest_of
        (print_elements-encode n vs rest (start + length (encode v)) h.1
          (omega (arith, fits, size)))
      ∙ sized _ _ _ (omega (arith, size))
