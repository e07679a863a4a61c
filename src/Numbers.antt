-- ===== src/Numbers.antt =====
-- Numbers as text: `std::from_chars`, `std::to_string`, and the wrappers of the program around them,
-- `str2int` (src/kv_store.cpp), `parse_unsigned` and `parse_port` (include/cli.hpp).
pub mod RoundTrip
use apex_db.Prelude.{
  ℕ, zero, suc, ◌+◌, ◌-◌, ◌*◌, ◌/◌, ◌%◌, ◌≤◌, ◌<◌, Bool, true, false, ◌&&◌, ◌||◌, Option, none,
  some, List, [], ◌∷◌, ◌++◌, ltb, leb, ◌==◌, if◌then◌else◌, ◌>>=◌, ℤ, pos, negsuc, neg_ℕ,
}
use apex_db.Bytes.{Bytes}

abbrev pub is_digit : ℕ → Bool
is_digit c = leb 48 c && leb c 57

-- The value of the digits that a text begins with, after `acc`, and what follows them.
unfoldable pub scan : ℕ → Bytes → ℕ × Bytes
scan acc [] = (acc, [])
scan acc (c ∷ cs) =
    let rest = scan (acc * 10 + (c - 48)) cs in if is_digit c then rest else (acc, c ∷ cs)

-- `none` is an error code: there is no digit, or the value passes `most`.
unfoldable pub from_digits : ℕ → Bytes → Option (ℕ × Bytes)
from_digits most [] = none
from_digits most (c ∷ cs) =
    if is_digit c
    then (let (n, rest) = scan 0 (c ∷ cs) in if leb n most then some (n, rest) else none)
    else none

-- `std::from_chars` into a `uint64_t`: no sign is read.
unfoldable pub from_chars_u64 : Bytes → Option (ℕ × Bytes)
from_chars_u64 = from_digits 18446744073709551615

abbrev pub signed_chars : (ℕ → ℤ) → Option (ℕ × Bytes) → Option (ℤ × Bytes)
signed_chars f none = none
signed_chars f (some (n, rest)) = some (f n, rest)

-- `std::from_chars` into an `int64_t`: a minus sign is read, and no plus sign.
unfoldable pub from_chars_i64 : Bytes → Option (ℤ × Bytes)
from_chars_i64 [] = none
from_chars_i64 (c ∷ cs) =
    if c == 45
    then signed_chars neg_ℕ (from_digits 9223372036854775808 cs)
    else signed_chars pos (from_digits 9223372036854775807 (c ∷ cs))

-- `result.ptr == text.data() + text.size()`
abbrev pub whole {ℓ} : {A : Type ℓ} → A × Bytes → Option A
whole (a, []) = some a
whole (a, _ ∷ _) = none

unfoldable pub str2int : Bytes → Option ℤ
str2int [] = none
str2int (c ∷ cs) = from_chars_i64 (c ∷ cs) >>= whole

unfoldable pub parse_unsigned : Bytes → ℕ → Option ℕ
parse_unsigned [] maximum = none
parse_unsigned (c ∷ cs) maximum =
    from_chars_u64 (c ∷ cs) >>= whole >>= λ value. if leb value maximum then some value else none

unfoldable pub parse_port : Bytes → Option ℕ
parse_port text = parse_unsigned text 65535 >>= λ value. if value == 0 then none else some value

-- The decimal digits of a number below `10 ^ fuel`.
unfoldable pub decimal : ℕ → ℕ → Bytes
decimal zero n = []
decimal (suc fuel) n =
    let more = decimal fuel (n / 10) ++ (48 + n % 10) ∷ [] in
    if ltb n 10 then (48 + n) ∷ [] else more

-- `std::to_string` of an `int64_t`, which has at most nineteen digits.
unfoldable pub to_string : ℤ → Bytes
to_string (pos n) = decimal 19 n
to_string (negsuc n) = 45 ∷ decimal 19 (suc n)
