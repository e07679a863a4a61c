-- ===== src/ZSet/Put.antt =====
-- A node put into the tree of a set, by whatever the memory was before (src/zset.cpp: `tree_insert`,
-- after `znode_new` or a change of the score).
use apex_db.Prelude.{
  All_mapped, All_both, ℕ, ◌+◌, ◌≤◌, ◌≡◌, ◌≢◌, refl, sym, ◌∙◌, ap, subst, Bool, true, false,
  Bool-cases, inl, inr, List, [], ◌∷◌, arith, All, ◌==◌, ==_refl,
}
use apex_db.Bytes.{Bytes, bytes_eq, bytes_eq_sound, bytes_eq_refl}
use apex_db.Sharding.{str_hash}
use apex_db.Floats.{Floats}
use apex_db.HashTable.Chains.{count, to_nat}
use apex_db.Avl.{Tree}
use apex_db.Avl.Balance.{IsAvl}
use apex_db.Avl.Order.{to_list}
use apex_db.Avl.Locate.{count_none}
use apex_db.ZSet.{ZNode, ZSet, tree_insert, write_node}
use apex_db.ZSet.Names.{is_below}
use apex_db.ZSet.Order.{IsSorted}
use apex_db.ZSet.Insert.{tree_insert-Inserted}
use apex_db.ZSet.Remove.{count_same}
use apex_db.ZSet.Members.{IsMember, is_named}

module _ {D : Type 0} ⦃f : Floats D⦄ where
  -- The part of a set's validity that does not concern the hash table.
  pub record IsOrdered (nodes : ℕ → ZNode D) (root : Tree ℕ) (next : ℕ) : Type 0 where
    pub even : IsAvl root
    pub sorted : IsSorted nodes (to_list root)
    pub each : All (IsMember nodes next) (to_list root)
    pub distinct : (name : Bytes) → count (is_named nodes name) (to_list root) ≤ 1

  abbrev pub Agrees : (ℕ → ZNode D) → (ℕ → ZNode D) → List ℕ → Type 0
  Agrees nodes old xs = All (λ a. nodes a ≡ old a) xs

  pub write_node-Agrees :
      (old : ℕ → ZNode D) (addr : ℕ) (zn : ZNode D) (xs : List ℕ)
      → All (λ a. (addr == a) ≡ false) xs
      → Agrees (write_node old addr zn) old xs
  write_node-Agrees old addr zn [] h = tt
  write_node-Agrees old addr zn (x ∷ xs) h = (rw h.0 refl, write_node-Agrees old addr zn xs h.1)

  pub write_node_at :
      (old : ℕ → ZNode D) (addr : ℕ) (zn : ZNode D) → write_node old addr zn addr ≡ zn
  write_node_at old addr zn = rw (==_refl addr) refl

  pub count-Agrees :
      (nodes old : ℕ → ZNode D) (xs : List ℕ) (q : ZNode D → ℕ → Bool)
      → Agrees nodes old xs
      → count (λ a. q (nodes a) a) xs ≡ count (λ a. q (old a) a) xs
  count-Agrees nodes old xs q h =
      count_same (λ a. q (nodes a) a) (λ a. q (old a) a) xs
        (All_mapped (λ a. nodes a ≡ old a) (λ a. q (nodes a) a ≡ q (old a) a) xs
          (λ a e. ap (λ n. q n a) e) h)

  below_changed :
      (nodes old : ℕ → ZNode D) (x : ℕ) (xs : List ℕ)
      → nodes x ≡ old x
      → Agrees nodes old xs
      → All (λ y. is_below (old x) (old y) ≡ true) xs
      → All (λ y. is_below (nodes x) (nodes y) ≡ true) xs
  below_changed nodes old x [] e h a = tt
  below_changed nodes old x (y ∷ ys) e h a = (
    ap (λ n. is_below n (nodes y)) e ∙ ap (is_below (old x)) h.0 ∙ a.0,
    below_changed nodes old x ys e h.1 a.1,
  )

  IsSorted-changed :
      (nodes old : ℕ → ZNode D) (xs : List ℕ)
      → Agrees nodes old xs
      → IsSorted old xs
      → IsSorted nodes xs
  IsSorted-changed nodes old [] h v = tt
  IsSorted-changed nodes old (x ∷ xs) h v =
      (below_changed nodes old x xs h.0 h.1 v.0, IsSorted-changed nodes old xs h.1 v.1)

  IsMember-changed :
      (nodes old : ℕ → ZNode D) (n next : ℕ)
      → n ≤ next
      → (a : ℕ) → (nodes a ≡ old a) × IsMember old n a
      → IsMember nodes next a
  IsMember-changed nodes old n next h a (e, v) = (
    omega (arith, v.0),
    ap (λ m. m.hcode) e ∙ v.1 ∙ ap (λ m. str_hash m.name) (sym e),
    ap (λ m. f.is_nan m.score) e ∙ v.2,
  )

  comparable_one :
      (nodes old : ℕ → ZNode D) (n : ℕ) (zn : ZNode D) (a : ℕ)
      → ((nodes a ≡ old a) × IsMember old n a) × (is_named old zn.name a ≡ false)
      → (f.is_nan (nodes a).score ≡ false) × ((nodes a).name ≢ zn.name)
  comparable_one nodes old n zn a ((e, v), other) = (
    ap (λ m. f.is_nan m.score) e ∙ v.2,
    λ same. absurd (
        ground (
          arith,
          other,
          ap (λ m. bytes_eq m.name zn.name) (sym e),
          ap (λ m. bytes_eq m zn.name) same,
          bytes_eq_refl zn.name,
        )),
  )

  at_most_one :
      (old : ℕ → ZNode D) (xs : List ℕ) (new name : Bytes)
      → count (is_named old name) xs ≤ 1
      → count (is_named old new) xs ≡ 0
      → count (is_named old name) xs + to_nat (bytes_eq new name) ≤ 1
  at_most_one old xs new name most fresh = elim (Bool-cases (bytes_eq new name)) [
    | inl same ↦
        let e = bytes_eq_sound new name same in
        let none_yet : count (is_named old name) xs ≡ 0 =
          subst (λ n. count (is_named old n) xs ≡ 0) e fresh in
        rw same (omega (arith, none_yet))
    | inr other ↦ rw other (omega (arith, most))
  ]

  -- The set after the node is put in its place.
  pub record Put (old : ℕ → ZNode D) (z : ZSet D) (addr : ℕ) : Type 0 where
    pub ordered : IsOrdered z.nodes (tree_insert z addr).root z.next
    pub counts :
        (q : ZNode D → ℕ → Bool)
        → count (λ a. q (z.nodes a) a) (to_list (tree_insert z addr).root)
          ≡ count (λ a. q (old a) a) (to_list z.root) + to_nat (q (z.nodes addr) addr)

  pub tree_insert-Put :
      (old : ℕ → ZNode D) (n : ℕ) (z : ZSet D) (addr : ℕ)
      → IsOrdered old z.root n
      → n ≤ z.next
      → Agrees z.nodes old (to_list z.root)
      → IsMember z.nodes z.next addr
      → count (is_named old (z.nodes addr).name) (to_list z.root) ≡ 0
      → Put old z addr
  tree_insert-Put old n z addr v grown same new fresh =
      let zn = z.nodes addr in
      let xs = to_list z.root in
      let both = All_both (λ a. z.nodes a ≡ old a) (IsMember old n) xs same v.each in
      let comparable =
        All_mapped _ (λ a. (f.is_nan (z.nodes a).score ≡ false) × ((z.nodes a).name ≢ zn.name)) xs
          (comparable_one z.nodes old n zn)
          (All_both _ (λ a. is_named old zn.name a ≡ false) xs both
            (count_none (is_named old zn.name) xs fresh)) in
      let i =
        tree_insert-Inserted z addr v.even (IsSorted-changed z.nodes old xs same v.sorted) new.2
          comparable in
      let counts : (q : ZNode D → ℕ → Bool)
          → count (λ a. q (z.nodes a) a) (to_list (tree_insert z addr).root)
            ≡ count (λ a. q (old a) a) xs + to_nat (q zn addr) =
        λ q.
          i.counts (λ a. q (z.nodes a) a)
          ∙ ap (λ k. k + to_nat (q zn addr)) (count-Agrees z.nodes old xs q same) in
      record {
        ordered = record {
          even = i.even;
          sorted = i.sorted;
          each =
              i.all (IsMember z.nodes z.next)
                (All_mapped _ (IsMember z.nodes z.next) xs
                  (IsMember-changed z.nodes old n z.next grown) both)
                new;
          distinct = λ name. omega (
            arith,
            counts (λ m _. bytes_eq m.name name),
            at_most_one old xs zn.name name (v.distinct name) fresh,
          );
        };
        counts = counts;
      }
