-- ===== src/Numbers/RoundTrip.antt =====
-- `str2int` reads back what `to_string` prints, and the parsed numbers are in range.
use native.Mathlib.Nat.{pow-suc, zero-add}
use apex_db.Prelude.{
  ℕ, zero, suc, ◌+◌, ◌-◌, ◌*◌, ◌/◌, ◌%◌, ◌^◌, ◌≤◌, ◌<◌, ◌≡◌, sym, ap, ◌∙◌, some, [], ◌∷◌, ◌++◌,
  arith, ltb, ℤ, pos, negsuc, InI64, append_assoc, append-nil, Bool-cases, ltb→lt, ltb→le,
  Option-cases, inl, inr,
}
use apex_db.Bytes.{Bytes}
use apex_db.Numbers.{
  scan, from_digits, from_chars_u64, from_chars_i64, str2int, parse_unsigned, parse_port, decimal,
  to_string,
}

scan_digit :
    (acc d : ℕ) (rest : Bytes) → d < 10 → scan acc ((48 + d) ∷ rest) ≡ scan (acc * 10 + d) rest
unfolding scan
scan_digit acc d rest h =
    let e : acc * 10 + (48 + d - 48) ≡ acc * 10 + d = omega arith in rw e (ground arith)

decimal_small : (fuel n : ℕ) → n < 10 → decimal (suc fuel) n ≡ (48 + n) ∷ []
unfolding decimal
decimal_small fuel n h = ground arith

decimal_large :
    (fuel n : ℕ) → 10 ≤ n → decimal (suc fuel) n ≡ decimal fuel (n / 10) ++ (48 + n % 10) ∷ []
unfolding decimal
decimal_large fuel n h = ground arith

-- Scanning the digits of a number gives that number.
scan-decimal :
    (fuel n : ℕ) (rest : Bytes)
    → n < 10 ^ suc fuel
    → scan 0 (decimal (suc fuel) n ++ rest) ≡ scan n rest
scan-decimal zero n rest h =
    rw (decimal_small 0 n h) (scan_digit 0 n rest h ∙ ap (λ k. scan k rest) (zero-add n))
scan-decimal (suc fuel) n rest h = elim (Bool-cases (ltb n 10)) [
  | inl small ↦
      rw (decimal_small (suc fuel) n (ltb→lt _ _ small))
        (scan_digit 0 n rest (ltb→lt _ _ small) ∙ ap (λ k. scan k rest) (zero-add n))
  | inr large ↦
      let shorter : n / 10 < 10 ^ suc fuel = omega (arith, pow-suc 10 (suc fuel)) in
      let value : n / 10 * 10 + n % 10 ≡ n = omega arith in
      rw (decimal_large (suc fuel) n (ltb→le _ _ large), append_assoc)
        (scan-decimal fuel (n / 10) ((48 + n % 10) ∷ rest) shorter
          ∙ scan_digit (n / 10) (n % 10) rest (omega arith)
          ∙ ap (λ k. scan k rest) value)
]

decimal_one : (n : ℕ) → 10 ≤ n → decimal 1 n ≡ (48 + n % 10) ∷ []
unfolding decimal
decimal_one n h = ground arith

-- The first character of a printed number is a digit.
decimal-head :
    (fuel n : ℕ) → (c : ℕ) × (cs : Bytes) × (decimal (suc fuel) n ≡ c ∷ cs) × (48 ≤ c) × (c ≤ 57)
decimal-head zero n = elim (Bool-cases (ltb n 10)) [
  | inl small ↦ (48 + n, [], decimal_small 0 n (ltb→lt _ _ small), ground arith, ground arith)
  | inr large ↦ (48 + n % 10, [], decimal_one n (ltb→le _ _ large), omega arith, omega arith)
]
decimal-head (suc fuel) n = elim (Bool-cases (ltb n 10)) [
  | inl small ↦
      (48 + n, [], decimal_small (suc fuel) n (ltb→lt _ _ small), ground arith, ground arith)
  | inr large ↦
      let (c, cs, e, lo, hi) = decimal-head fuel (n / 10) in
      (
        c,
        cs ++ (48 + n % 10) ∷ [],
        decimal_large (suc fuel) n (ltb→le _ _ large) ∙ ap (λ r. r ++ (48 + n % 10) ∷ []) e,
        lo,
        hi,
      )
]

from_digits-scan :
    (most n c : ℕ) (cs text rest : Bytes)
    → text ≡ c ∷ cs
    → 48 ≤ c
    → c ≤ 57
    → scan 0 text ≡ (n, rest)
    → n ≤ most
    → from_digits most text ≡ some (n, rest)
unfolding from_digits
from_digits-scan most n c cs [] rest e lo hi run le = cc
from_digits-scan most n c cs (x ∷ xs) rest e lo hi run le = ground arith

from_digits-decimal :
    (most fuel n : ℕ)
    → n < 10 ^ suc fuel
    → n ≤ most
    → from_digits most (decimal (suc fuel) n) ≡ some (n, [])
unfolding scan
from_digits-decimal most fuel n h le =
    let (c, cs, e, lo, hi) = decimal-head fuel n in
    let value : scan 0 (decimal (suc fuel) n) ≡ (n, []) =
      ap (scan 0) (sym (append-nil (decimal (suc fuel) n))) ∙ scan-decimal fuel n [] h in
    from_digits-scan most n c cs (decimal (suc fuel) n) [] e lo hi value le

str2int-pos :
    (c : ℕ) (cs text : Bytes) (n : ℕ)
    → text ≡ c ∷ cs
    → 48 ≤ c
    → from_digits 9223372036854775807 text ≡ some (n, [])
    → str2int text ≡ some (pos n)
unfolding str2int from_chars_i64
str2int-pos c cs [] n e lo h = cc
str2int-pos c cs (x ∷ xs) n e lo h = ground arith

-- The text of any value of `int64_t` is read back as that value.
pub str2int-to_string : (v : ℤ) → InI64 v → str2int (to_string v) ≡ some v
unfolding str2int from_chars_i64 to_string
str2int-to_string (pos n) h =
    let (c, cs, e, lo, hi) = decimal-head 18 n in
    str2int-pos c cs (decimal 19 n) n e lo
      (from_digits-decimal 9223372036854775807 18 n (omega arith) (omega arith))
str2int-to_string (negsuc n) h =
    rw (from_digits-decimal 9223372036854775808 18 (suc n) (omega arith) (omega arith))
      (ground arith)

scan-IsBounded :
    (most : ℕ) (text : Bytes) (n : ℕ) (rest : Bytes)
    → from_digits most text ≡ some (n, rest)
    → n ≤ most
unfolding from_digits
scan-IsBounded most [] n rest e = cc
scan-IsBounded most (c ∷ cs) n rest e = ground arith

-- A parsed integer is a value of `int64_t`.
pub str2int-InI64 : (text : Bytes) (v : ℤ) → str2int text ≡ some v → InI64 v
unfolding str2int from_chars_i64
str2int-InI64 [] v e = cc
str2int-InI64 (c ∷ cs) v e = elim (Option-cases (from_digits 9223372036854775808 cs)) [
  | inl p ↦ elim (Option-cases (from_digits 9223372036854775807 (c ∷ cs))) [
    | inl q ↦ ground arith
    | inr ((n, r), q) ↦ ground (arith, scan-IsBounded 9223372036854775807 (c ∷ cs) n r q)
  ]
  | inr ((m, s), p) ↦ elim (Option-cases (from_digits 9223372036854775807 (c ∷ cs))) [
    | inl q ↦ ground (arith, scan-IsBounded 9223372036854775808 cs m s p)
    | inr ((n, r), q) ↦ ground (
      arith,
      scan-IsBounded 9223372036854775808 cs m s p,
      scan-IsBounded 9223372036854775807 (c ∷ cs) n r q,
    )
  ]
]

-- A parsed port is a nonzero value of `uint16_t`.
pub parse_port_range :
    (text : Bytes) (port : ℕ) → parse_port text ≡ some port → (0 < port) × (port < 65536)
unfolding parse_port parse_unsigned from_chars_u64
parse_port_range [] port e = cc
parse_port_range (c ∷ cs) port e = ground arith
