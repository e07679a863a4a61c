-- ===== src/Floats.antt =====
-- What the program uses of `double` and of the C library's `strtod`, as a parameter: there is no
-- arithmetic on scores, only comparison, parsing and the copying of the eight bytes.
use apex_db.Prelude.{
  ℕ, ◌≡◌, Bool, true, false, not, ◌&&◌, Option, none, some, [], ◌∷◌, ◌==◌, if◌then◌else◌, length,
  ltb,
}
use apex_db.Bytes.{Bytes}

pub record Strtod (D : Type 0) : Type 0 where
  pub value : D
  -- `endp - s.c_str()`
  pub consumed : ℕ
  -- `errno == ERANGE`
  pub out_of_range : Bool

-- `zero` is the literal, and `equal` and `less` are the operators `==` and `<`. The laws hold of all doubles but NaN.
pub record Floats (D : Type 0) : Type 0 where
  pub zero : D
  pub equal : D → D → Bool
  pub less : D → D → Bool
  pub is_nan : D → Bool
  pub pattern_bytes : D → Bytes
  pub strtod : Bytes → Strtod D
  pub equal_refl : (a : D) → is_nan a ≡ false → equal a a ≡ true
  pub equal_sym : (a b : D) → equal a b ≡ true → equal b a ≡ true
  pub equal_trans : (a b c : D) → equal a b ≡ true → equal b c ≡ true → equal a c ≡ true
  pub less_irrefl : (a b : D) → equal a b ≡ true → less a b ≡ false
  pub less_trans : (a b c : D) → less a b ≡ true → less b c ≡ true → less a c ≡ true
  pub less_equal : (a b c : D) → less a b ≡ true → equal b c ≡ true → less a c ≡ true
  pub equal_less : (a b c : D) → equal a b ≡ true → less b c ≡ true → less a c ≡ true
  pub less_total :
      (a b : D)
      → is_nan a ≡ false
      → is_nan b ≡ false
      → equal a b ≡ false
      → less a b ≡ false
      → less b a ≡ true

-- `str2dbl` (src/kv_store.cpp).
unfoldable pub str2dbl : {D : Type 0} ⦃f : Floats D⦄ → Bytes → Option D
str2dbl ⦃f⦄ [] = none
str2dbl ⦃f⦄ (c ∷ cs) =
    let r = f.strtod (c ∷ cs) in
    if ltb 0 r.consumed
      && ((r.consumed == length (c ∷ cs)) && (not r.out_of_range && not (f.is_nan r.value)))
    then some r.value
    else none
