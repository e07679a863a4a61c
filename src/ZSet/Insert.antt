-- ===== src/ZSet/Insert.antt =====
-- The insertion of a node in the tree (src/zset.cpp: `tree_insert`).
use apex_db.Prelude.{
  ℕ, ◌+◌, ◌≡◌, ◌≢◌, refl, sym, ◌∙◌, ap, subst, Bool, true, false, Bool-cases, inl, inr, List, [],
  ◌∷◌, ◌++◌, arith, All, All-append, All-joined,
}
use apex_db.Floats.{Floats}
use apex_db.HashTable.Chains.{count, count-append, to_nat}
use apex_db.Avl.{Tree, leaf, node, Crumb, left_of, right_of, plug, root_of}
use apex_db.Avl.Balance.{IsAvl}
use apex_db.Avl.Order.{joins, to_list, lefts, rights, to_list-root_of}
use apex_db.Avl.Locate.{avl_fix-avl_init}
use apex_db.ZSet.{ZNode, ZSet, zless, insert_path, tree_insert}
use apex_db.ZSet.Names.{is_below, zless_trans, is_below_total}
use apex_db.ZSet.Order.{IsSorted}

module _ {D : Type 0} ⦃f : Floats D⦄ (nodes : ℕ → ZNode D) where
  -- All of these are before the node, or after it.
  abbrev pub AllBelow : List ℕ → ZNode D → Type 0
  AllBelow xs zn = All (λ a. is_below (nodes a) zn ≡ true) xs

  abbrev pub AllAbove : ZNode D → List ℕ → Type 0
  AllAbove zn xs = All (λ a. is_below zn (nodes a) ≡ true) xs

  -- The members that another node can be told from.
  abbrev pub Comparable : ZNode D → List ℕ → Type 0
  Comparable zn xs = All (λ a. (f.is_nan (nodes a).score ≡ false) × ((nodes a).name ≢ zn.name)) xs

  -- A sorted list around one of its members.
  pub IsSorted-around :
      (xs : List ℕ) (x : ℕ) (ys : List ℕ)
      → IsSorted nodes (xs ++ x ∷ ys)
      → IsSorted nodes xs × AllBelow xs (nodes x) × AllAbove (nodes x) ys × IsSorted nodes ys
  IsSorted-around [] x ys v = (tt, tt, v.0, v.1)
  IsSorted-around (w ∷ xs) x ys v =
      let (a, b, c, d) = IsSorted-around xs x ys v.1 in
      let (e, g) = All-append (λ y. is_below (nodes w) (nodes y) ≡ true) xs (x ∷ ys) v.0 in
      ((e, a), (g.0, b), c, d)

  pub IsSorted-inserted :
      (xs : List ℕ) (x : ℕ) (ys : List ℕ)
      → IsSorted nodes (xs ++ ys)
      → AllBelow xs (nodes x)
      → AllAbove (nodes x) ys
      → IsSorted nodes (xs ++ x ∷ ys)
  IsSorted-inserted [] x ys v b c = (c, v)
  IsSorted-inserted (w ∷ xs) x ys v b c =
      let (d, e) = All-append (λ y. is_below (nodes w) (nodes y) ≡ true) xs ys v.0 in
      (
        All-joined (λ y. is_below (nodes w) (nodes y) ≡ true) xs (x ∷ ys) d (b.0, e),
        IsSorted-inserted xs x ys v.1 b.1 c,
      )

  below_lower :
      (x : ℕ) (zn : ZNode D) (xs : List ℕ)
      → AllBelow xs (nodes x)
      → is_below (nodes x) zn ≡ true
      → AllBelow xs zn
  below_lower x zn [] a h = tt
  below_lower x zn (w ∷ xs) a h =
      (zless_trans (nodes w) (nodes x) zn.score zn.name a.0 h, below_lower x zn xs a.1 h)

  above_higher :
      (x : ℕ) (zn : ZNode D) (xs : List ℕ)
      → is_below zn (nodes x) ≡ true
      → AllAbove (nodes x) xs
      → AllAbove zn xs
  above_higher x zn [] h a = tt
  above_higher x zn (w ∷ xs) h a =
      (zless_trans zn (nodes x) (nodes w).score (nodes w).name h a.0, above_higher x zn xs h a.1)

  -- Where the descent ends: at an empty place with all smaller members before it and the others after.
  record Between (zn : ZNode D) (root : Tree ℕ) (path : List (Crumb ℕ)) : Type 0 where
    pub empty : root_of leaf path ≡ root
    pub below : AllBelow (lefts path) zn
    pub above : AllAbove zn (rights path)

  insert_path-Between :
      (zn : ZNode D) (t : Tree ℕ) (path : List (Crumb ℕ)) (root : Tree ℕ)
      → f.is_nan zn.score ≡ false
      → root_of t path ≡ root
      → IsSorted nodes (to_list t)
      → Comparable zn (to_list t)
      → AllBelow (lefts path) zn
      → AllAbove zn (rights path)
      → Between zn root (insert_path nodes zn t path)
  unfolding insert_path root_of plug
  insert_path-Between zn leaf path root n e v c b a = record { empty = e; below = b; above = a }
  insert_path-Between zn (node l x hx cx r) path root n e v c b a =
      let (sl, bl, ar, sr) = IsSorted-around (to_list l) x (to_list r) v in
      let (cl, cxr) =
        All-append (λ a. (f.is_nan (nodes a).score ≡ false) × ((nodes a).name ≢ zn.name))
          (to_list l) (x ∷ to_list r) c in
      elim (Bool-cases (zless zn (nodes x).score (nodes x).name)) [
        | inl lower ↦ rw lower (
            insert_path-Between zn l (left_of x hx cx r ∷ path) root n e sl cl b (
              lower,
              All-joined (λ a. is_below zn (nodes a) ≡ true) (to_list r) (rights path)
                  (above_higher x zn (to_list r) lower ar) a,
            ))
        | inr not_lower ↦
            let lower : is_below (nodes x) zn ≡ true =
              is_below_total zn (nodes x) n cxr.0.0 (λ e. cxr.0.1 (sym e)) not_lower in
            rw not_lower (
              insert_path-Between zn r (right_of l x hx cx ∷ path) root n e sr cxr.1
                (All-joined (λ a. is_below (nodes a) zn ≡ true) (lefts path ++ to_list l) (x ∷ [])
                  (All-joined (λ a. is_below (nodes a) zn ≡ true) (lefts path) (to_list l) b
                    (below_lower x zn (to_list l) bl lower))
                  (lower, tt))
                a)
      ]

count_middle :
    (q : ℕ → Bool) (xs : List ℕ) (y : ℕ) (ys : List ℕ)
    → count q (xs ++ y ∷ ys) ≡ count q (xs ++ ys) + to_nat (q y)
unfolding count
count_middle q xs y ys = omega (arith, count-append q xs (y ∷ ys), count-append q xs ys)

All_middle :
    (P : ℕ → Type 0) (xs : List ℕ) (y : ℕ) (ys : List ℕ)
    → All P (xs ++ ys)
    → P y
    → All P (xs ++ y ∷ ys)
All_middle P xs y ys h k = let (a, b) = All-append P xs ys h in All-joined P xs (y ∷ ys) a (k, b)

-- A node put in its place among the members.
pub record Inserted {D : Type 0} ⦃f : Floats D⦄ (nodes : ℕ → ZNode D) (root : Tree ℕ) (addr : ℕ)
    (root' : Tree ℕ) : Type 1 where
  pub even : IsAvl root'
  pub sorted : IsSorted nodes (to_list root')
  pub counts : (q : ℕ → Bool) → count q (to_list root') ≡ count q (to_list root) + to_nat (q addr)
  pub all : (P : ℕ → Type 0) → All P (to_list root) → P addr → All P (to_list root')

module _ {D : Type 0} ⦃f : Floats D⦄ where
  -- The insertion of a node that can be told from all members keeps the tree balanced and sorted, and
  -- the members are the old ones and the node.
  pub tree_insert-Inserted :
      (z : ZSet D) (addr : ℕ)
      → IsAvl z.root
      → IsSorted z.nodes (to_list z.root)
      → f.is_nan (z.nodes addr).score ≡ false
      → Comparable z.nodes (z.nodes addr) (to_list z.root)
      → Inserted z.nodes z.root addr (tree_insert z addr).root
  unfolding tree_insert root_of
  tree_insert-Inserted z addr v s n c =
      let path = insert_path z.nodes (z.nodes addr) z.root [] in
      let place = insert_path-Between z.nodes (z.nodes addr) z.root [] z.root n refl s c tt tt in
      let (even, listed) = avl_fix-avl_init addr path (subst IsAvl (sym place.empty) v) in
      let old : to_list z.root ≡ lefts path ++ rights path =
        ap to_list (sym place.empty) ∙ to_list-root_of leaf path ∙ simp joins in
      record {
        even = even;
        sorted = subst (IsSorted z.nodes) (sym listed) (
            IsSorted-inserted z.nodes (lefts path) addr (rights path)
              (subst (IsSorted z.nodes) old s) place.below place.above);
        counts = λ q.
            ap (count q) listed
            ∙ count_middle q (lefts path) addr (rights path)
            ∙ ap (λ xs. count q xs + to_nat (q addr)) (sym old);
        all = λ P h k.
            subst (All P) (sym listed)
              (All_middle P (lefts path) addr (rights path) (subst (All P) old h) k);
      }
