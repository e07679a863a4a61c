-- ===== src/ZSet/Remove.antt =====
-- The removal of a node from the tree (src/zset.cpp: `avl_del(&node->tree)`).
use apex_db.Prelude.{
  ℕ, ◌+◌, ◌≤◌, ◌≡◌, refl, sym, ◌∙◌, ap, subst, Bool, true, false, Bool-cases, inl, inr, List, [],
  ◌∷◌, Option, none, some, arith, All, ◌==◌, ==_iff,
}
use apex_db.Floats.{Floats}
use apex_db.HashTable.Chains.{count, to_nat}
use apex_db.Avl.{Tree, Cursor, locate}
use apex_db.Avl.Balance.{IsAvl}
use apex_db.Avl.Order.{to_list}
use apex_db.Avl.Locate.{without, delete_found, delete_located_lem}
use apex_db.ZSet.{ZNode, delete_located, tree_delete}
use apex_db.ZSet.Names.{is_below}
use apex_db.ZSet.Order.{IsSorted}

module _ {A : Type 0} where
  pub count_same :
      (p q : A → Bool) (xs : List A) → All (λ x. p x ≡ q x) xs → count p xs ≡ count q xs
  unfolding count
  count_same p q [] h = refl
  count_same p q (x ∷ xs) h = rw (h.0, count_same p q xs h.1) refl

  pub count_implied :
      (p q : A → Bool) (xs : List A)
      → All (λ x. p x ≡ true → q x ≡ true) xs
      → count p xs ≤ count q xs
  unfolding count
  count_implied p q [] h = omega arith
  count_implied p q (x ∷ xs) h = ground (arith, Bool-cases (p x), h.0, count_implied p q xs h.1)

  All-without : (P : A → Type 0) (p : A → Bool) (xs : List A) → All P xs → All P (without p xs)
  All-without P p [] h = tt
  All-without P p (x ∷ xs) h = elim (Bool-cases (p x)) [
    | inl hit ↦ rw hit (All-without P p xs h.1)
    | inr miss ↦ rw miss (h.0, All-without P p xs h.1)
  ]

  without_missed : (p : A → Bool) (xs : List A) → All (λ x. p x ≡ false) (without p xs)
  without_missed p [] = tt
  without_missed p (x ∷ xs) = elim (Bool-cases (p x)) [
    | inl hit ↦ rw hit (without_missed p xs)
    | inr miss ↦ rw miss (miss, without_missed p xs)
  ]

count_absent :
    (q : ℕ → Bool) (addr : ℕ) (xs : List ℕ)
    → count (λ a. a == addr) xs ≡ 0
    → count q (without (λ a. a == addr) xs) ≡ count q xs
unfolding count
count_absent q addr [] h = refl
count_absent q addr (x ∷ xs) h = elim (Bool-cases (x == addr)) [
  | inl hit ↦ absurd (ground (arith, hit))
  | inr miss ↦ rw miss (ap (◌+◌ (to_nat (q x))) (count_absent q addr xs (ground (arith, h))))
]

-- The labels other than one that occurs once are all but it.
count-without :
    (q : ℕ → Bool) (addr : ℕ) (xs : List ℕ)
    → count (λ a. a == addr) xs ≡ 1
    → count q (without (λ a. a == addr) xs) + to_nat (q addr) ≡ count q xs
unfolding count
count-without q addr [] h = absurd (omega arith)
count-without q addr (x ∷ xs) h = elim (Bool-cases (x == addr)) [
  | inl hit ↦
      let same : q x ≡ q addr = ap q ((==_iff x addr).0 hit) in
      rw (hit, same) (omega (arith, count_absent q addr xs (ground (arith, h, hit))))
  | inr miss ↦ rw miss (omega (arith, count-without q addr xs (ground (arith, h, miss))))
]

holds_at : (p : ℕ → Bool) (x a : ℕ) → p a ≡ true → (x == a) ≡ true → p x ≡ true
holds_at p x a h e = ap p ((==_iff x a).0 e) ∙ h

-- Two members for which a test holds that holds of at most one.
pub count_two :
    (p : ℕ → Bool) (a b : ℕ) (xs : List ℕ)
    → p a ≡ true
    → p b ≡ true
    → (a == b) ≡ false
    → count (λ x. x == a) xs + count (λ x. x == b) xs ≤ count p xs
unfolding count
count_two p a b [] h k d = omega arith
count_two p a b (x ∷ xs) h k d =
    ground (arith, Bool-cases (p x), holds_at p x a h, holds_at p x b k, count_two p a b xs h k d)

same_delete :
    (addr : ℕ) (root : Tree ℕ) (o : Option (Cursor ℕ))
    → delete_located addr root o ≡ delete_found (λ a. a == addr) root o
same_delete addr root none = refl
same_delete addr root (some (t, path)) = refl

-- A node taken out of the members.
pub record Taken {D : Type 0} ⦃f : Floats D⦄ (nodes : ℕ → ZNode D) (root : Tree ℕ) (addr : ℕ)
    (root' : Tree ℕ) : Type 1 where
  pub even : IsAvl root'
  pub sorted : IsSorted nodes (to_list root')
  pub counts : (q : ℕ → Bool) → count q (to_list root') + to_nat (q addr) ≡ count q (to_list root)
  pub all : (P : ℕ → Type 0) → All P (to_list root) → All P (to_list root')
  pub others : All (λ a. (a == addr) ≡ false) (to_list root')

module _ {D : Type 0} ⦃f : Floats D⦄ where
  IsSorted-without :
      (nodes : ℕ → ZNode D) (p : ℕ → Bool) (xs : List ℕ)
      → IsSorted nodes xs
      → IsSorted nodes (without p xs)
  IsSorted-without nodes p [] v = tt
  IsSorted-without nodes p (x ∷ xs) v = elim (Bool-cases (p x)) [
    | inl hit ↦ rw hit (IsSorted-without nodes p xs v.1)
    | inr miss ↦ rw miss (
      All-without (λ y. is_below (nodes x) (nodes y) ≡ true) p xs v.0,
      IsSorted-without nodes p xs v.1,
    )
  ]

  -- The removal of a member keeps the tree balanced and sorted, and only the member goes.
  pub tree_delete-Taken :
      (nodes : ℕ → ZNode D) (root : Tree ℕ) (addr : ℕ)
      → IsAvl root
      → IsSorted nodes (to_list root)
      → count (λ a. a == addr) (to_list root) ≡ 1
      → Taken nodes root addr (tree_delete root addr)
  unfolding tree_delete
  tree_delete-Taken nodes root addr v s once =
      let p : ℕ → Bool = λ a. a == addr in
      let same = same_delete addr root (locate p root []) in
      let (even, listed) = delete_located_lem p root v (omega (arith, once)) in
      let list = ap to_list same ∙ listed in
      record {
        even = subst IsAvl (sym same) even;
        sorted = subst (IsSorted nodes) (sym list) (IsSorted-without nodes p (to_list root) s);
        counts = λ q.
            ap (λ xs. count q xs + to_nat (q addr)) list ∙ count-without q addr (to_list root) once;
        all = λ P h. subst (All P) (sym list) (All-without P p (to_list root) h);
        others =
            subst (All (λ a. (a == addr) ≡ false)) (sym list) (without_missed p (to_list root));
      }
