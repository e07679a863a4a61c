-- ===== src/Client/Limits.antt =====
-- The limit of a reply that the client reads: the `int32_t` that `print_response` returns for it
-- (src/client.cpp).
use apex_db.Prelude.{
  ℕ, zero, suc, ◌+◌, ◌%◌, ◌^◌, ◌<◌, ◌≤◌, ◌≡◌, refl, ◌∙◌, ap, ℤ, pos, negsuc, Bool, true, false, inl,
  inr, ◌⊎◌, ◌++◌, append_assoc, arith, ltb, le→ltb, length, length-append, drop, drop-append,
  Bool-cases,
}
use apex_db.Bytes.{Bytes, read_u32-le32}
use apex_db.Client.{Printed, to_int32, ahead_of, print_arr, print_elements, print_response}
use apex_db.Client.Replies.{
  Value, Values, v_nil, v_err, v_str, v_int, v_dbl, v_arr, no_values, and_value, count_values,
  encode, encode_values, lines, IsShallow, AreShallow, count-encode, print_str_lem, print_text_lem,
  one_more, print_value,
}

abbrev pub is_negative : ℤ → Bool
is_negative (pos n) = false
is_negative (negsuc n) = true

to_int32_large : (n : ℕ) → 2 ^ 31 ≤ n → n < 2 ^ 32 → is_negative (to_int32 n) ≡ true
unfolding to_int32
to_int32_large n low high =
    let same : n % 2 ^ 32 ≡ n = omega (arith, high) in
    let large : ltb n (2 ^ 31) ≡ false = le→ltb n (2 ^ 31) low in rw (to_int32, same, large) refl

-- The loop returns what an element returns, if that is negative.
print_elements_negative :
    (print : Bytes → Printed) (n : ℕ) (bytes : Bytes) (start : ℕ)
    → is_negative (print bytes).1 ≡ true
    → is_negative (print_elements print (suc n) bytes start).1 ≡ true
unfolding print_elements
print_elements_negative print n bytes start h =
    elim (print bytes).1
        as (λ t.
          let result : Printed = elim t [
            | negsuc k ↦ ((print bytes).0, negsuc k)
            | pos rv ↦
                ahead_of (print bytes).0 (print_elements print n (drop rv bytes) (start + rv))
          ] in
          is_negative t ≡ true → is_negative result.1 ≡ true) [
            | negsuc k ↦ λ _. refl
            | pos rv ↦ λ e. absurd (let e' = e in cc)
          ]
      h

mutual
  unfolding print_response print_elements encode encode_values IsShallow

  too_long :
      (n : ℕ) (v : Value) (rest : Bytes)
      → IsShallow n v
      → 2 ^ 31 ≤ length (encode v)
      → length (encode v) < 2 ^ 32
      → is_negative (print_response n (encode v ++ rest)).1 ≡ true
  too_long zero v rest h low high = absurd h
  too_long (suc n) v_nil rest h low high = absurd (omega (arith, low))
  too_long (suc n) (v_err code msg) rest h low high =
      ap (λ (p : Printed). is_negative p.1) (print_text_lem code msg rest (omega (arith, high)))
      ∙ to_int32_large (9 + length msg) (omega (arith, low)) (omega (arith, high))
  too_long (suc n) (v_str s) rest h low high =
      ap (λ (p : Printed). is_negative p.1) (print_str_lem s rest (omega (arith, high)))
      ∙ to_int32_large (5 + length s) (omega (arith, low)) (omega (arith, high))
  too_long (suc n) (v_int word) rest h low high = absurd (omega (arith, low))
  too_long (suc n) (v_dbl pattern_bytes) rest h low high = absurd (omega (arith, low, h))
  too_long (suc n) (v_arr vs) rest h low high =
      let size : 5 + length (encode_values vs) < 2 ^ 32 = omega (arith, high) in
      ap (λ o. is_negative (print_arr (print_response n) o).1)
        (read_u32-le32 (count_values vs) (encode_values vs ++ rest)
          (omega (arith, size, count-encode vs)))
      ∙ too_long_elements n vs rest 5 h (omega (arith, low)) size

  too_long_elements :
      (n : ℕ) (vs : Values) (rest : Bytes) (start : ℕ)
      → AreShallow n vs
      → 2 ^ 31 ≤ start + length (encode_values vs)
      → start + length (encode_values vs) < 2 ^ 32
      → is_negative
          (print_elements (print_response n) (count_values vs) (encode_values vs ++ rest) start).1
        ≡ true
  too_long_elements n no_values rest start h low high =
      to_int32_large start (omega (arith, low)) (omega (arith, high))
  too_long_elements n (and_value v vs) rest start h low high =
      let size : length (encode v ++ encode_values vs)
          ≡ length (encode v) + length (encode_values vs) =
        length-append (encode v) (encode_values vs) in
      let apart : (encode v ++ encode_values vs) ++ rest ≡ encode v ++ (encode_values vs ++ rest) =
        append_assoc (encode v) (encode_values vs) rest in
      elim (Bool-cases (ltb (length (encode v)) (2 ^ 31))) [
        | inl fits ↦
            let first =
              ap (print_response n) apart
              ∙ print_value n v (encode_values vs ++ rest) h.0 (ground (arith, fits)) in
            let rest_of =
              ap (drop (length (encode v))) apart
              ∙ drop-append (encode v) (encode_values vs ++ rest) in
            ap (λ (p : Printed). is_negative p.1)
              (one_more (print_response n) (count_values vs)
                ((encode v ++ encode_values vs) ++ rest) (encode_values vs ++ rest) start (lines v)
                (length (encode v)) _ first rest_of refl)
            ∙ too_long_elements n vs rest (start + length (encode v)) h.1 (omega (arith, low, size))
                (omega (arith, high, size))
        | inr long ↦
            print_elements_negative (print_response n) (count_values vs)
              ((encode v ++ encode_values vs) ++ rest) start
              (ap (λ b. is_negative (print_response n b).1) apart
                ∙ too_long n v (encode_values vs ++ rest) h.0 (ground (arith, long))
                    (omega (arith, high, size)))
      ]

-- What is printed and returned for the bytes of a value: its lines and the number of the bytes, or, if
-- they are too many for an `int32_t`, a negative number, which the client takes for an error.
abbrev pub IsRead : Value → Printed → Type 0
IsRead v printed =
    ((length (encode v) < 2 ^ 31) × (printed ≡ (lines v, pos (length (encode v)))))
    ⊎ ((2 ^ 31 ≤ length (encode v)) × (is_negative printed.1 ≡ true))

-- From the bytes that the server's functions write for a value, whatever follows them, the client
-- prints the value's lines and returns the number of the bytes, if they are fewer than `2 ^ 31`,
-- and else returns a negative number. The value's doubles have eight bytes, its arrays are nested
-- less deep than 65 levels, and its bytes are fewer than `2 ^ 32`.
pub print_response-encode :
    (v : Value) (rest : Bytes)
    → IsShallow 65 v
    → length (encode v) < 2 ^ 32
    → IsRead v (print_response 65 (encode v ++ rest))
print_response-encode v rest h high = elim (Bool-cases (ltb (length (encode v)) (2 ^ 31))) [
  | inl fits ↦
      let low : length (encode v) < 2 ^ 31 = ground (arith, fits) in
      inl (low, print_value 65 v rest h low)
  | inr long ↦
      let low : 2 ^ 31 ≤ length (encode v) = ground (arith, long) in
      inr (low, too_long 65 v rest h low high)
]
