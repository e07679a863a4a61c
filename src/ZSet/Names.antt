-- ===== src/ZSet/Names.antt =====
-- The order of names and of nodes (src/zset.cpp: `zless`).
use apex_db.Prelude.{
  ℕ, suc, ◌≡◌, ◌≢◌, refl, ◌∙◌, ap, Bool, true, false, not, [], ◌∷◌, arith, ltb, if◌then◌else◌,
  length,
}
use apex_db.Bytes.{Bytes}
use apex_db.Floats.{Floats}
use apex_db.ZSet.{ZNode, Sign, before, same, after, memcmp, min, zless}

-- The order of names that `zless` computes from `memcmp` on the common length and the lengths.
abbrev name_less : Bytes → Bytes → Bool
name_less a b = elim (memcmp a b (min (length a) (length b))) [
  | before ↦ true
  | after ↦ false
  | same ↦ ltb (length a) (length b)
]

-- The alphabetical order.
unfoldable pub is_before : Bytes → Bytes → Bool
is_before xs [] = false
is_before [] (y ∷ ys) = true
is_before (x ∷ xs) (y ∷ ys) =
    let rest = is_before xs ys in if ltb x y then true else if ltb y x then false else rest

min-suc : (a b : ℕ) → min (suc a) (suc b) ≡ suc (min a b)
unfolding min
min-suc a b = ground arith

ltb-suc : (a b : ℕ) → ltb (suc a) (suc b) ≡ ltb a b
ltb-suc a b = ground arith

step_lem :
    (lower higher : Bool) (rest : Sign) (short : Bool) (b : Bool)
    → (elim rest [ before ↦ true | after ↦ false | same ↦ short ]) ≡ b
    → (elim (if lower then before else if higher then after else rest) [
      | before ↦ true
      | after ↦ false
      | same ↦ short
    ])
      ≡ (if lower then true else if higher then false else b)
step_lem true higher rest short b h = refl
step_lem false true rest short b h = refl
step_lem false false rest short b h = h

name_less-is_before : (a b : Bytes) → name_less a b ≡ is_before a b
unfolding is_before memcmp
name_less-is_before [] [] = refl
name_less-is_before [] (y ∷ ys) = ground arith
name_less-is_before (x ∷ xs) [] = ground arith
name_less-is_before (x ∷ xs) (y ∷ ys) =
    rw (name_less, is_before, length, min-suc, memcmp)
      (step_lem (ltb x y) (ltb y x) (memcmp xs ys (min (length xs) (length ys))) _ _ (
        ap
          (λ b. elim (memcmp xs ys (min (length xs) (length ys))) [
            | before ↦ true
            | after ↦ false
            | same ↦ b
          ])
          (ltb-suc (length xs) (length ys))
        ∙ name_less-is_before xs ys))

pub is_before_trans :
    (a b c : Bytes) → is_before a b ≡ true → is_before b c ≡ true → is_before a c ≡ true
unfolding is_before
is_before_trans a [] c h k = cc
is_before_trans a (y ∷ ys) [] h k = cc
is_before_trans [] (y ∷ ys) (z ∷ zs) h k = refl
is_before_trans (x ∷ xs) (y ∷ ys) (z ∷ zs) h k = ground (arith, is_before_trans xs ys zs)

pub is_before_total : (a b : Bytes) → is_before a b ≡ false → is_before b a ≡ false → a ≡ b
unfolding is_before
is_before_total [] [] h k = refl
is_before_total [] (y ∷ ys) h k = cc
is_before_total (x ∷ xs) [] h k = cc
is_before_total (x ∷ xs) (y ∷ ys) h k = ground (arith, is_before_total xs ys)

is_before_irrefl : (a : Bytes) → is_before a a ≡ false
unfolding is_before
is_before_irrefl [] = refl
is_before_irrefl (x ∷ xs) = ground (arith, is_before_irrefl xs)

module _ {D : Type 0} ⦃f : Floats D⦄ where
  -- A node before another: `zless` of the two.
  abbrev pub is_below : ZNode D → ZNode D → Bool
  is_below a b = zless a b.score b.name

  zless-is_before :
      (a : ZNode D) (score : D) (name : Bytes)
      → zless a score name
        ≡ (if not (f.equal a.score score) then f.less a.score score else is_before a.name name)
  unfolding zless
  zless-is_before a score name =
      ap (λ b. if not (f.equal a.score score) then f.less a.score score else b)
        (name_less-is_before a.name name)

  pub zless_trans :
      (a b : ZNode D) (score : D) (name : Bytes)
      → is_below a b ≡ true
      → zless b score name ≡ true
      → zless a score name ≡ true
  zless_trans a b score name h k = rw zless-is_before (
      ground (
        arith,
        zless-is_before a b.score b.name,
        zless-is_before b score name,
        f.less_trans a.score b.score score,
        f.less_equal a.score b.score score,
        f.equal_less a.score b.score score,
        f.equal_trans a.score b.score score,
        f.less_irrefl a.score score,
        f.equal_sym a.score b.score,
        f.equal_sym b.score score,
        f.equal_trans a.score score b.score,
        f.equal_trans b.score a.score score,
        f.less_irrefl a.score b.score,
        f.less_irrefl b.score score,
        is_before_trans a.name b.name name,
      ))

  pub is_below_total :
      (a b : ZNode D)
      → f.is_nan a.score ≡ false
      → f.is_nan b.score ≡ false
      → a.name ≢ b.name
      → is_below a b ≡ false
      → is_below b a ≡ true
  is_below_total a b v w d h = rw zless-is_before (
      ground (
        arith,
        zless-is_before a b.score b.name,
        f.equal_sym a.score b.score,
        f.equal_sym b.score a.score,
        f.less_total a.score b.score v w,
        is_before_total a.name b.name,
      ))
