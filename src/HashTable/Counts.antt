-- ===== src/HashTable/Counts.antt =====
-- Comparing the counts of nodes for different predicates.
use apex_db.Prelude.{◌+◌, ◌≤◌, Bool, false, List, [], ◌∷◌, arith}
use apex_db.HashTable.{HNode, HMap}
use apex_db.HashTable.Chains.{to_nat, count, count_all}
use apex_db.HashTable.Rehash.{held}

module _ {A : Type 0} where
  count_add :
      (p q r : A → Bool)
      → ((x : A) → to_nat (p x) + to_nat (q x) ≤ to_nat (r x))
      → (c : List A) → count p c + count q c ≤ count r c
  unfolding count
  count_add p q r h [] = omega arith
  count_add p q r h (x ∷ c) = omega (arith, h x, count_add p q r h c)

  count_all_add :
      (p q r : A → Bool)
      → ((x : A) → to_nat (p x) + to_nat (q x) ≤ to_nat (r x))
      → (cs : List (List A)) → count_all p cs + count_all q cs ≤ count_all r cs
  unfolding count_all
  count_all_add p q r h [] = omega arith
  count_all_add p q r h (c ∷ cs) = omega (arith, count_add p q r h c, count_all_add p q r h cs)

  count_cover :
      (p q r : A → Bool)
      → ((x : A) → to_nat (r x) ≤ to_nat (p x) + to_nat (q x))
      → (c : List A) → count r c ≤ count p c + count q c
  unfolding count
  count_cover p q r h [] = omega arith
  count_cover p q r h (x ∷ c) = omega (arith, h x, count_cover p q r h c)

  count_all_cover :
      (p q r : A → Bool)
      → ((x : A) → to_nat (r x) ≤ to_nat (p x) + to_nat (q x))
      → (cs : List (List A)) → count_all r cs ≤ count_all p cs + count_all q cs
  unfolding count_all
  count_all_cover p q r h [] = omega arith
  count_all_cover p q r h (c ∷ cs) =
      omega (arith, count_cover p q r h c, count_all_cover p q r h cs)

module _ {A : Type 0} (m : HMap A) (p q r : HNode A → Bool) where
  -- Predicates that exclude each other and imply a third.
  pub held_add :
      ((x : HNode A) → to_nat (p x) + to_nat (q x) ≤ to_nat (r x)) → held p m + held q m ≤ held r m
  held_add h = omega (arith, count_all_add p q r h m.newer.tab, count_all_add p q r h m.older.tab)

  -- A predicate that implies one of two others.
  pub held_cover :
      ((x : HNode A) → to_nat (r x) ≤ to_nat (p x) + to_nat (q x)) → held r m ≤ held p m + held q m
  held_cover h =
      omega (arith, count_all_cover p q r h m.newer.tab, count_all_cover p q r h m.older.tab)

module _ {A : Type 0} (m : HMap A) where
  pub held_mono :
      (p r : HNode A → Bool) → ((x : HNode A) → to_nat (p x) ≤ to_nat (r x)) → held p m ≤ held r m
  held_mono p r h = omega (arith, held_add m p (λ _. false) r (λ x. omega (arith, h x)))
