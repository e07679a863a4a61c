-- ===== src/Avl/Heights.antt =====
-- The heights that rotations make, as numbers (src/avl.cpp).
use apex_db.Prelude.{ℕ, ◌+◌, ◌≤◌, ◌<◌, ◌≡◌, false, arith, ltb, ◌==◌}
use apex_db.Avl.{max}

-- The heights of two siblings differ by at most one.
abbrev pub IsEven : ℕ → ℕ → Type 0
IsEven a b = (a ≤ b + 1) × (b ≤ a + 1)

-- The heights after a double rotation; `m` and `n` are those of the lifted node's children.
pub double :
    (p m n r hm hl : ℕ)
    → p < hm
    → IsEven p hm
    → IsEven m n
    → hm ≡ 1 + max m n
    → hl ≡ 1 + max p hm
    → hl ≡ r + 2
    → IsEven p m
      × IsEven n r
      × IsEven (1 + max p m) (1 + max n r)
      × (hl ≤ 1 + max (1 + max p m) (1 + max n r))
      × (1 + max (1 + max p m) (1 + max n r) ≤ hl + 1)
unfolding max
double p m n r hm hl low e f g h k = ground arith

pub not_negative : (a : ℕ) → ltb a 0 ≡ false
not_negative a = ground arith

-- The heights after a single rotation; `q` is that of the inner subtree.
pub single :
    (p q r hl : ℕ)
    → ltb p q ≡ false
    → IsEven p q
    → hl ≡ 1 + max p q
    → hl ≡ r + 2
    → IsEven q r
      × IsEven p (1 + max q r)
      × (hl ≤ 1 + max p (1 + max q r))
      × (1 + max p (1 + max q r) ≤ hl + 1)
unfolding max
single p q r hl high e f g = ground arith

pub single_right :
    (p q r hl : ℕ)
    → ltb p q ≡ false
    → IsEven q p
    → hl ≡ 1 + max q p
    → r + 2 ≡ hl
    → IsEven r q
      × IsEven (1 + max r q) p
      × (hl ≤ 1 + max (1 + max r q) p)
      × (1 + max (1 + max r q) p ≤ hl + 1)
unfolding max
single_right p q r hl high e f g = ground arith

max_least : (a b : ℕ) → (a ≤ max a b) × (b ≤ max a b)
unfolding max
max_least a b = ground arith

pub max_high : (a b : ℕ) → b ≤ a → max a b ≡ a
unfolding max
max_high a b h = ground arith

pub max_low : (a b : ℕ) → a ≤ b → max a b ≡ b
unfolding max
max_low a b h = ground arith

pub double_right :
    (p m n r hm hl : ℕ)
    → p < hm
    → IsEven hm p
    → IsEven m n
    → hm ≡ 1 + max m n
    → hl ≡ 1 + max hm p
    → r + 2 ≡ hl
    → IsEven r m
      × IsEven n p
      × IsEven (1 + max r m) (1 + max n p)
      × (hl ≤ 1 + max (1 + max r m) (1 + max n p))
      × (1 + max (1 + max r m) (1 + max n p) ≤ hl + 1)
unfolding max
double_right p m n r hm hl low e f g h k = ground arith

pub step_even : (k n r : ℕ) → IsEven k r → IsEven k n → (n ≤ r + 2) × (r ≤ n + 2)
step_even k n r e f = omega arith

-- The change of a subtree's height by at most one, one level up.
pub step_up :
    (k n r f : ℕ)
    → IsEven k n
    → IsEven k r
    → f ≤ 1 + max n r
    → max n r ≤ f
    → (IsEven n r → f ≡ 1 + max n r)
    → IsEven (1 + max k r) f
unfolding max
step_up k n r f e g h i j = ground arith

pub step_up_right :
    (k n l f : ℕ)
    → IsEven k n
    → IsEven l k
    → f ≤ 1 + max l n
    → max l n ≤ f
    → (IsEven l n → f ≡ 1 + max l n)
    → IsEven (1 + max l k) f
unfolding max
step_up_right k n l f e g h i j = ground arith

pub steady :
    (a b : ℕ) → (a == b + 2) ≡ false → (a + 2 == b) ≡ false → a ≤ b + 2 → b ≤ a + 2 → IsEven a b
steady a b e f g h = ground arith
