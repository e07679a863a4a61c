-- ===== src/HashTable/Chains.antt =====
-- Chains and arrays of chains, by how many nodes satisfy a predicate: two collections that agree on
-- every such count hold the same nodes.
use Prim.Native.Nat.{bit_and, bit_and-bitwise, digits, min}
use apex_db.Prelude.{
  ◌==◌, ==_iff, subst, ℕ, zero, suc, ◌+◌, ◌/◌, ◌≤◌, ◌<◌, ◌≡◌, ◌≢◌, refl, Bool-cases, inl, inr, Bool,
  true, false, none, some, List, [], ◌∷◌, ◌++◌, arith, length, get_or, get_elem?, set, replicate,
  All,
}
use apex_db.HashTable.{HNode, chain_find, remove_at}

-- A masked index is at most the mask.
digits-le : (n a b : ℕ) → digits (λ b. zero) min n a b ≤ b
digits-le zero a b = omega arith
digits-le (suc n) zero b = omega arith
digits-le (suc n) (suc a) b = omega (arith, digits-le n (suc a / 2) (b / 2))

pub bit_and-le : (a b : ℕ) → bit_and a b ≤ b
bit_and-le a b = omega (arith, bit_and-bitwise a b, digits-le a a b)

abbrev pub to_nat : Bool → ℕ
to_nat true = 1
to_nat false = 0

module _ {A : Type 0} where
  unfoldable pub count : (A → Bool) → List A → ℕ
  count q [] = 0
  count q (x ∷ c) = to_nat (q x) + count q c

  pub count-append : (q : A → Bool) (xs ys : List A) → count q (xs ++ ys) ≡ count q xs + count q ys
  unfolding count
  count-append q [] ys = omega arith
  count-append q (x ∷ xs) ys = omega (arith, count-append q xs ys)

  -- The same over an array of chains.
  unfoldable pub count_all : (A → Bool) → List (List A) → ℕ
  count_all q [] = 0
  count_all q (c ∷ cs) = count q c + count_all q cs

  pub length-count : (c : List A) → count (λ _. true) c ≡ length c
  unfolding count
  length-count [] = refl
  length-count (x ∷ c) = omega (arith, length-count c)

  pub count-le_all :
      (q : A → Bool) (cs : List (List A)) (i : ℕ) → count q (get_or cs i []) ≤ count_all q cs
  unfolding count count_all
  count-le_all q [] i = omega arith
  count-le_all q (c ∷ cs) zero = omega arith
  count-le_all q (c ∷ cs) (suc i) = omega (arith, count-le_all q cs i)

  count-le : (q : A → Bool) (c : List A) → count q c ≤ count (λ _. true) c
  unfolding count
  count-le q [] = omega arith
  count-le q (x ∷ c) = ground (arith, count-le q c)

  pub count_all-le : (q : A → Bool) (cs : List (List A)) → count_all q cs ≤ count_all (λ _. true) cs
  unfolding count_all
  count_all-le q [] = omega arith
  count_all-le q (c ∷ cs) = omega (arith, count-le q c, count_all-le q cs)

  -- A write to one bucket trades its nodes.
  pub count_all-set :
      (q : A → Bool) (cs : List (List A)) (i : ℕ) (c : List A)
      → i < length cs
      → count_all q (set cs i c) + count q (get_or cs i []) ≡ count_all q cs + count q c
  unfolding count_all
  count_all-set q [] i c h = absurd (omega arith)
  count_all-set q (x ∷ cs) zero c h = omega arith
  count_all-set q (x ∷ cs) (suc i) c h = omega (arith, count_all-set q cs i c)

  pub count_all-replicate : (q : A → Bool) (n : ℕ) → count_all q (replicate n []) ≡ 0
  unfolding count_all count
  count_all-replicate q zero = refl
  count_all-replicate q (suc n) = omega (arith, count_all-replicate q n)

  pub count-eq-zero : (q : A → Bool) (c : List A) → All (λ x. q x ≡ false) c → count q c ≡ 0
  unfolding count
  count-eq-zero q [] h = refl
  count-eq-zero q (x ∷ c) h = ground (arith, count-eq-zero q c h.1)

  -- If the nodes that satisfy `q` stand in bucket `p` only, that bucket has all of them.
  pub count_all-bucket :
      (q : A → Bool) (cs : List (List A)) (p : ℕ)
      → ((i : ℕ) → i ≢ p → count q (get_or cs i []) ≡ 0)
      → count_all q cs ≡ count q (get_or cs p [])
  unfolding count_all count
  count_all-bucket q [] p h = refl
  count_all-bucket q (c ∷ cs) zero h =
      omega (arith, none_elsewhere q cs (λ i. h (suc i) (omega arith)))
    where
      none_elsewhere :
          (q : A → Bool) (cs : List (List A))
          → ((i : ℕ) → count q (get_or cs i []) ≡ 0)
          → count_all q cs ≡ 0
      none_elsewhere q [] h = refl
      none_elsewhere q (c ∷ cs) h = omega (arith, h 0, none_elsewhere q cs (λ i. h (suc i)))
  count_all-bucket q (c ∷ cs) (suc p) h =
      omega (arith, h 0 (omega arith), count_all-bucket q cs p (λ i n. h (suc i) (omega arith)))

  -- Some bucket with a node, when there is one.
  pub nonempty_bucket :
      (cs : List (List A))
      → 0 < count_all (λ _. true) cs
      → (i : ℕ) × (i < length cs) × (get_or cs i [] ≢ [])
  unfolding count_all count
  nonempty_bucket [] h = absurd (omega arith)
  nonempty_bucket ([] ∷ cs) h =
      let (i, p, n) = nonempty_bucket cs (omega arith) in (suc i, omega arith, n)
  nonempty_bucket ((x ∷ c) ∷ cs) h = (0, omega arith, λ e. cc)

module _ {A : Type 0} where
  -- What the loop of a lookup tells: a place of a node that satisfies `q`, or that there is none.
  pub chain_find-none :
      (q : HNode A → Bool) (c : List (HNode A)) (i : ℕ) → chain_find q c i ≡ none → count q c ≡ 0
  unfolding chain_find count
  chain_find-none q [] i h = refl
  chain_find-none q (x ∷ c) i h = ground (arith, chain_find-none q c (suc i))

  pub chain_find-some :
      (q : HNode A → Bool) (c : List (HNode A)) (i j : ℕ)
      → chain_find q c i ≡ some j
      → (k : ℕ) × (node : HNode A) × (j ≡ i + k) × (get_elem? c k ≡ some node) × (q node ≡ true)
  unfolding chain_find
  chain_find-some q [] i j h = cc
  chain_find-some q (x ∷ c) i j h = elim (Bool-cases (q x)) [
    | inl hit ↦ (0, x, ground arith, refl, hit)
    | inr miss ↦
        let (k, node, e, found, hit) = chain_find-some q c (suc i) j (rw miss at h) in
        (suc k, node, omega arith, found, hit)
  ]

  pub count-remove_at :
      (r : HNode A → Bool) (c : List (HNode A)) (i : ℕ) {node : HNode A}
      → get_elem? c i ≡ some node
      → count r (remove_at c i) + to_nat (r node) ≡ count r c
  unfolding remove_at count
  count-remove_at r [] i h = cc
  count-remove_at r (x ∷ c) zero h = ground arith
  count-remove_at r (x ∷ c) (suc i) h = omega (arith, count-remove_at r c i h)

  pub All-remove_at :
      (P : HNode A → Type 0) (c : List (HNode A)) (i : ℕ) → All P c → All P (remove_at c i)
  unfolding remove_at
  All-remove_at P [] i h = tt
  All-remove_at P (x ∷ c) zero h = h.1
  All-remove_at P (x ∷ c) (suc i) h = (h.0, All-remove_at P c i h.1)

-- What holds of a list's members holds of a number that occurs.
pub All_at :
    (P : ℕ → Type 0) (addr : ℕ) (xs : List ℕ) → 1 ≤ count (λ a. a == addr) xs → All P xs → P addr
unfolding count
All_at P addr [] h v = absurd (omega arith)
All_at P addr (x ∷ xs) h v = elim (Bool-cases (x == addr)) [
  | inl hit ↦ subst P ((==_iff x addr).0 hit) v.0
  | inr miss ↦ All_at P addr xs (ground (arith, h, miss)) v.1
]
