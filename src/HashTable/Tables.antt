-- ===== src/HashTable/Tables.antt =====
-- One table: its invariant, and its operations by the counts of nodes.
use Prim.Native.Nat.{bit_and}
use apex_db.Prelude.{
  ℕ, ◌+◌, ◌≤◌, ◌<◌, ◌≡◌, ◌≢◌, refl, ◌∙◌, subst, Bool-cases, Option-cases, inl, inr, Bool, true,
  false, none, some, List, [], ◌∷◌, arith, ltb, ◌==◌, length, get_or, set, All, get_or-replicate,
  length-replicate, length-set, get_or-set, get_or_far,
}
use apex_db.HashTable.{
  HNode, HTab, no_table, h_init, h_insert, matches, chain_find, h_lookup, node_at, remove_at,
  h_detach,
}
use apex_db.HashTable.Chains.{
  to_nat, count, count_all, bit_and-le, count_all-set, count_all-replicate, count-eq-zero,
  count_all-bucket, chain_find-none, chain_find-some, count-remove_at, All-remove_at,
}

module _ {A : Type 0} where
  -- How many nodes of a table satisfy a predicate.
  abbrev pub nodes : (HNode A → Bool) → HTab A → ℕ
  nodes q t = count_all q t.tab

  abbrev pub InBucket : HTab A → ℕ → HNode A → Type 0
  InBucket t i node = bit_and node.hcode t.mask ≡ i

  -- An allocated table has `mask + 1` buckets, at least two, `size` nodes, and each node in the bucket of its code.
  pub record IsTable (t : HTab A) : Type 0 where
    pub width : 0 < length t.tab → length t.tab ≡ t.mask + 1
    pub wide : 0 < length t.tab → 1 ≤ t.mask
    pub null : length t.tab ≡ 0 → t.mask ≡ 0
    pub counted : nodes (λ _. true) t ≡ t.size
    pub placed : (i : ℕ) → All (InBucket t i) (get_or t.tab i [])

  pub bucket-lt :
      (t : HTab A)
      → IsTable t
      → 0 < length t.tab
      → (hcode : ℕ) → bit_and hcode t.mask < length t.tab
  bucket-lt t v p hcode = omega (arith, bit_and-le hcode t.mask, v.width p)

  pub no_table-IsTable : IsTable no_table
  unfolding count_all
  no_table-IsTable = record {
    width = omega arith;
    wide = omega arith;
    null = λ _. refl;
    counted = refl;
    placed = λ i. tt;
  }

  pub h_init-IsTable :
      (n : ℕ)
      → 2 ≤ n
      → IsTable (h_init {A = A} n)
        × (length (h_init {A = A} n).tab ≡ n)
        × ((q : HNode A → Bool) → nodes q (h_init n) ≡ 0)
  unfolding h_init
  h_init-IsTable n h = (
    record {
      width = λ _. omega (arith, length-replicate {A = List (HNode A)} n []);
      wide = omega arith;
      null = λ e. omega (arith, length-replicate {A = List (HNode A)} n []);
      counted = count_all-replicate _ n;
      placed = λ i. rw (get_or-replicate {A = List (HNode A)} n i []) tt;
    },
    length-replicate n [],
    λ q. count_all-replicate q n,
  )

  All-cons-set :
      (P : ℕ → HNode A → Type 0) (cs : List (List (HNode A))) (p : ℕ) (c : List (HNode A))
      → p < length cs
      → ((i : ℕ) → All (P i) (get_or cs i []))
      → All (P p) c
      → (i : ℕ) → All (P i) (get_or (set cs p c) i [])
  All-cons-set P cs p c h old new i = elim (Bool-cases (p == i)) [
    | inl same ↦
        let e : p ≡ i = ground arith in
        rw (get_or-set cs p i c [] h, same) (subst (λ k. All (P k) c) e new)
    | inr other ↦ rw (get_or-set cs p i c [] h, other) (old i)
  ]

  module _ (t : HTab A) (v : IsTable t) where
    pub h_insert-IsTable : (node : HNode A) → 0 < length t.tab → IsTable (h_insert t node)
    unfolding h_insert count
    h_insert-IsTable node h =
        let p = bit_and node.hcode t.mask in
        let c = node ∷ get_or t.tab p [] in
        let size = length-set t.tab p c in
        record {
          width = λ _. omega (arith, size, v.width h);
          wide = λ _. v.wide h;
          null = λ e. absurd (omega (arith, size));
          counted =
              omega (
                arith,
                count_all-set (λ _. true) t.tab p c (bucket-lt t v h node.hcode),
                v.counted,
              );
          placed =
              All-cons-set (λ i. InBucket t i) t.tab p c (bucket-lt t v h node.hcode) v.placed
                (refl, v.placed p);
        }

    pub nodes-h_insert :
        (q : HNode A → Bool) (node : HNode A)
        → 0 < length t.tab
        → nodes q (h_insert t node) ≡ nodes q t + to_nat (q node)
    unfolding h_insert count
    nodes-h_insert q node h =
        let p = bit_and node.hcode t.mask in
        omega
          (arith, count_all-set q t.tab p (node ∷ get_or t.tab p []) (bucket-lt t v h node.hcode))

    miss_elsewhere :
        (hcode : ℕ) (eq : A → Bool) (i : ℕ) (c : List (HNode A))
        → i ≢ bit_and hcode t.mask
        → All (InBucket t i) c
        → All (λ x. matches hcode eq x ≡ false) c
    miss_elsewhere hcode eq i [] n h = tt
    miss_elsewhere hcode eq i (x ∷ c) n h = (ground arith, miss_elsewhere hcode eq i c n h.1)

    -- All nodes that a key can hit stand in the key's bucket.
    nodes-bucket :
        (hcode : ℕ) (eq : A → Bool)
        → nodes (matches hcode eq) t
          ≡ count (matches hcode eq) (get_or t.tab (bit_and hcode t.mask) [])
    nodes-bucket hcode eq =
        count_all-bucket (matches hcode eq) t.tab (bit_and hcode t.mask)
          (λ i n. count-eq-zero _ _ (miss_elsewhere hcode eq i (get_or t.tab i []) n (v.placed i)))

    pub h_lookup-none :
        (hcode : ℕ) (eq : A → Bool) → h_lookup t hcode eq ≡ none → nodes (matches hcode eq) t ≡ 0
    unfolding h_lookup count_all
    h_lookup-none hcode eq h =
        elim (Option-cases
          (chain_find (matches hcode eq) (get_or t.tab (bit_and hcode t.mask) []) 0)) [
            | inl missed ↦ nodes-bucket hcode eq ∙ chain_find-none _ _ 0 missed
            | inr (j, found) ↦ ground arith
          ]

    -- What a lookup finds is a place of a node of the table that the key hits.
    pub h_lookup-some :
        (hcode : ℕ) (eq : A → Bool) (p i : ℕ)
        → h_lookup t hcode eq ≡ some (p, i)
        → (node : HNode A) × (node_at t (p, i) ≡ some node) × (matches hcode eq node ≡ true)
    unfolding h_lookup node_at
    h_lookup-some hcode eq p i h =
        elim (Option-cases
          (chain_find (matches hcode eq) (get_or t.tab (bit_and hcode t.mask) []) 0)) [
            | inl missed ↦ absurd (ground arith)
            | inr (j, found) ↦
                let (k, node, e, at, hit) = chain_find-some _ _ 0 j found in
                let here : (p ≡ bit_and hcode t.mask) × (i ≡ k) = ground (arith, e) in
                (node, rw (here.0, here.1) at, hit)
          ]

  node_at-lt :
      (t : HTab A) (p i : ℕ) {node : HNode A} → node_at t (p, i) ≡ some node → p < length t.tab
  unfolding node_at
  node_at-lt t p i e = elim (Bool-cases (ltb p (length t.tab))) [
    | inl inside ↦ ground arith
    | inr outside ↦ absurd (ground (arith, get_or_far t.tab p []))
  ]

  pub nodes-h_detach :
      (r : HNode A → Bool) (t : HTab A) (from : ℕ × ℕ) {node : HNode A}
      → node_at t from ≡ some node
      → nodes r (h_detach t from) + to_nat (r node) ≡ nodes r t
  unfolding h_detach node_at
  nodes-h_detach r t (p, i) {node} e =
      let c = get_or t.tab p [] in
      omega (
        arith,
        count_all-set r t.tab p (remove_at c i) (node_at-lt t p i (e)),
        count-remove_at r c i e,
      )

  pub h_detach-IsTable :
      (t : HTab A) (from : ℕ × ℕ) {node : HNode A}
      → IsTable t
      → node_at t from ≡ some node
      → IsTable (h_detach t from)
  unfolding h_detach node_at
  h_detach-IsTable t (p, i) {node} v e =
      let c = remove_at (get_or t.tab p []) i in
      let size = length-set t.tab p c in
      record {
        width = λ h. omega (arith, size, v.width);
        wide = λ h. omega (arith, size, v.wide);
        null = λ h. omega (arith, size, v.null);
        counted = omega (arith, nodes-h_detach (λ _. true) t (p, i) e, v.counted);
        placed =
            All-cons-set (λ k. InBucket t k) t.tab p c (node_at-lt t p i e) v.placed
              (All-remove_at (InBucket t p) _ i (v.placed p));
      }

  pub length-h_insert : (t : HTab A) (node : HNode A) → length (h_insert t node).tab ≡ length t.tab
  unfolding h_insert
  length-h_insert t node =
      length-set t.tab (bit_and node.hcode t.mask)
        (node ∷ get_or t.tab (bit_and node.hcode t.mask) [])

  pub length-h_detach : (t : HTab A) (from : ℕ × ℕ) → length (h_detach t from).tab ≡ length t.tab
  unfolding h_detach
  length-h_detach t (p, i) = length-set t.tab p (remove_at (get_or t.tab p []) i)

  -- A bucket that was empty stays so.
  pub h_detach_empty :
      (t : HTab A) (p i k : ℕ) {node : HNode A}
      → node_at t (p, i) ≡ some node
      → get_or t.tab k [] ≡ []
      → get_or (h_detach t (p, i)).tab k [] ≡ []
  unfolding h_detach remove_at
  h_detach_empty t p i k e h = elim (Bool-cases (p == k)) [
    | inl same ↦
        let pk : p ≡ k = ground arith in
        rw (get_or-set t.tab p k (remove_at (get_or t.tab p []) i) [] (node_at-lt t p i e), same)
          (ground arith)
    | inr other ↦
        rw (get_or-set t.tab p k (remove_at (get_or t.tab p []) i) [] (node_at-lt t p i e), other) h
  ]
