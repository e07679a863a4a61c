-- ===== src/Bytes.antt =====
-- Byte sequences: `Buffer` (include/protocol.hpp) and `std::string`, and the little-endian form of
-- the words that the code copies into them by `memcpy`.
use apex_db.Prelude.{
  ℕ, ◌+◌, ◌*◌, ◌/◌, ◌%◌, ◌^◌, ◌<◌, ◌≡◌, refl, ◌↔◌, Bool, true, false, ◌&&◌, Option, none, some,
  List, [], ◌∷◌, ◌++◌, arith, ◌==◌, All,
}

-- One number for each byte.
abbrev pub Bytes : Type 0
Bytes = List ℕ

abbrev pub IsBytes : Bytes → Type 0
IsBytes = All (λ b. b < 256)

-- The bytes of a `uint32_t`; a wider value is truncated, as by `static_cast<uint32_t>`.
abbrev pub le32 : ℕ → Bytes
le32 n = (n % 256) ∷ (n / 256 % 256) ∷ (n / 65536 % 256) ∷ (n / 16777216 % 256) ∷ []

abbrev pub word32 : ℕ → ℕ → ℕ → ℕ → ℕ
word32 a b c d = a + 256 * b + 65536 * c + 16777216 * d

-- The bytes of a 64-bit word.
abbrev pub le64 : ℕ → Bytes
le64 n = le32 n ++ le32 (n / 4294967296)

-- `read_u32`: the value and what follows it.
unfoldable pub read_u32 : Bytes → Option (ℕ × Bytes)
read_u32 (a ∷ b ∷ c ∷ d ∷ rest) = some (word32 a b c d, rest)
read_u32 _ = none

-- `std::string` equality.
unfoldable pub bytes_eq : Bytes → Bytes → Bool
bytes_eq [] [] = true
bytes_eq (x ∷ xs) (y ∷ ys) = x == y && bytes_eq xs ys
bytes_eq _ _ = false

pub bytes_eq_sound : (a b : Bytes) → bytes_eq a b ≡ true → a ≡ b
unfolding bytes_eq
bytes_eq_sound [] [] h = refl
bytes_eq_sound (x ∷ xs) (y ∷ ys) h = ground (arith, bytes_eq_sound xs ys)
bytes_eq_sound _ _ h = cc

pub bytes_eq_refl : (a : Bytes) → bytes_eq a a ≡ true
unfolding bytes_eq
bytes_eq_refl [] = refl
bytes_eq_refl (x ∷ xs) = ground (arith, bytes_eq_refl xs)

pub bytes_eq_iff : (a b : Bytes) → (bytes_eq a b ≡ true) ↔ (a ≡ b)
bytes_eq_iff a b = (bytes_eq_sound a b, λ e. ground (arith, bytes_eq_refl a))

pub read_u32-le32 : (n : ℕ) (rest : Bytes) → n < 2 ^ 32 → read_u32 (le32 n ++ rest) ≡ some (n, rest)
unfolding read_u32
read_u32-le32 n rest h =
    let e : word32 (n % 256) (n / 256 % 256) (n / 65536 % 256) (n / 16777216 % 256) ≡ n =
      omega arith in
    rw e

-- A word that was read is the one that its bytes encode.
pub le32-read_u32 :
    (bytes : Bytes) (n : ℕ) (rest : Bytes)
    → IsBytes bytes
    → read_u32 bytes ≡ some (n, rest)
    → (bytes ≡ le32 n ++ rest) × (n < 2 ^ 32) × IsBytes rest
unfolding read_u32
le32-read_u32 (a ∷ b ∷ c ∷ d ∷ r) n rest h e = ground arith
le32-read_u32 _ n rest h e = cc
