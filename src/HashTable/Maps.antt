-- ===== src/HashTable/Maps.antt =====
-- The operations of the map: which nodes it holds after each, and which node a lookup finds.
use apex_db.Prelude.{
  ℕ, ◌+◌, ◌*◌, ◌≤◌, ◌<◌, ◌≡◌, refl, sym, ◌∙◌, Bool-cases, Option-cases, inl, inr, Bool, true, false,
  ◌&&◌, Option, none, some, arith, leb, length,
}
use apex_db.HashTable.{
  HNode, HTab, HMap, empty_map, h_init, h_insert, h_lookup, node_at, matches, is_null, or_else,
  deref, insert_newer, grow, hm_help_rehashing, hm_trigger_rehashing, hm_insert, hm_lookup,
  hm_delete, delete_newer, hm_size, k_max_load_factor,
}
use apex_db.HashTable.Chains.{to_nat, count_all}
use apex_db.HashTable.Tables.{
  nodes, no_table-IsTable, h_init-IsTable, h_insert-IsTable, nodes-h_insert, h_lookup-none,
  h_lookup-some, h_detach-IsTable, nodes-h_detach, length-h_insert, length-h_detach, h_detach_empty,
}
use apex_db.HashTable.Rehash.{held, IsMap, hm_help_rehashing-Rehashed}

module _ {A : Type 0} where
  -- A lookup's result: no node of the map is hit, or this one, which is a node of the map, is.
  abbrev pub Found : (HNode A → Bool) → HMap A → Option (HNode A) → Type 0
  Found q m none = held q m ≡ 0
  Found q m (some node) = (q node ≡ true) × ((r : HNode A → Bool) → r node ≡ true → 1 ≤ held r m)

  pub empty_map-IsMap : IsMap (empty_map {A = A})
  empty_map-IsMap = record {
    newer = no_table-IsTable;
    older = no_table-IsTable;
    allocated = λ h. h;
    emptied = λ i h. refl;
  }

  pub held-empty_map : (q : HNode A → Bool) → held q empty_map ≡ 0
  unfolding count_all
  held-empty_map q = refl

  node_at-held :
      (t : HTab A) (from : ℕ × ℕ) (node : HNode A) (r : HNode A → Bool)
      → node_at t from ≡ some node
      → r node ≡ true
      → 1 ≤ nodes r t
  node_at-held t from node r e h = ground (arith, nodes-h_detach r t from e)

  Found-lookup :
      (m : HMap A) (hcode : ℕ) (eq : A → Bool)
      → IsMap m
      → Found (matches hcode eq) m (
          or_else
            (deref m.newer (h_lookup m.newer hcode eq))
            (deref m.older (h_lookup m.older hcode eq)))
  Found-lookup m hcode eq v = elim (Option-cases (h_lookup m.newer hcode eq)) [
    | inr ((p, i), e) ↦
        let (node, there, hit) = h_lookup-some m.newer v.newer hcode eq p i e in
        rw (e, there) (hit, λ r h. omega (arith, node_at-held m.newer (p, i) node r there h))
    | inl e ↦ elim (Option-cases (h_lookup m.older hcode eq)) [
      | inr ((p, i), e') ↦
          let (node, there, hit) = h_lookup-some m.older v.older hcode eq p i e' in
          rw (e, e', there) (hit, λ r h. omega (arith, node_at-held m.older (p, i) node r there h))
      | inl e' ↦
          rw (e, e')
            (omega (
              arith,
              h_lookup-none m.newer v.newer hcode eq e,
              h_lookup-none m.older v.older hcode eq e',
            ))
    ]
  ]

  Found-kept :
      (q : HNode A → Bool) (m m' : HMap A) (o : Option (HNode A))
      → ((r : HNode A → Bool) → held r m' ≡ held r m)
      → Found q m' o
      → Found q m o
  Found-kept q m m' none same h = sym (same q) ∙ h
  Found-kept q m m' (some node) same h = (h.0, λ r e. omega (arith, same r, h.1 r e))

  -- A lookup leaves a valid map with the same nodes, and it finds a node with the code and the key
  -- looked for exactly if the map holds one.
  pub hm_lookup-Found :
      (m : HMap A) (hcode : ℕ) (eq : A → Bool)
      → IsMap m
      → IsMap (hm_lookup m hcode eq).0
        × ((r : HNode A → Bool) → held r (hm_lookup m hcode eq).0 ≡ held r m)
        × Found (matches hcode eq) m (hm_lookup m hcode eq).1
  unfolding hm_lookup
  hm_lookup-Found m hcode eq v =
      let s = hm_help_rehashing-Rehashed m v in
      (
        s.valid,
        s.kept,
        Found-kept _ m (hm_help_rehashing m) _ s.kept
            (Found-lookup (hm_help_rehashing m) hcode eq s.valid),
      )

  insert_allocated :
      (m : HMap A) (node : HNode A)
      → IsMap m
      → 0 < length m.newer.tab
      → IsMap (record m { newer = h_insert m.newer node })
        × ((q : HNode A → Bool)
            → held q (record m { newer = h_insert m.newer node }) ≡ held q m + to_nat (q node))
        × (0 < length (h_insert m.newer node).tab)
  insert_allocated m node v h =
      let size = length-h_insert m.newer node in
      (
        record {
          newer = h_insert-IsTable m.newer v.newer node h;
          older = v.older;
          allocated = λ p. omega (arith, size);
          emptied = v.emptied;
        },
        λ q. omega (arith, nodes-h_insert m.newer v.newer q node h),
        omega (arith, size),
      )

  null_held : (t : HTab A) (q : HNode A → Bool) → is_null t ≡ true → nodes q t ≡ 0
  unfolding count_all
  null_held t q e = ground arith

  not_null : (t : HTab A) → is_null t ≡ false → 0 < length t.tab
  not_null t e = ground arith

  insert_newer-IsMap :
      (m : HMap A) (node : HNode A)
      → IsMap m
      → IsMap (insert_newer m node)
        × ((q : HNode A → Bool) → held q (insert_newer m node) ≡ held q m + to_nat (q node))
        × (0 < length (insert_newer m node).newer.tab)
  unfolding insert_newer
  insert_newer-IsMap m node v = elim (Bool-cases (is_null m.newer)) [
    | inr there ↦ rw there (insert_allocated m node v (not_null m.newer there))
    | inl null ↦
        let (fresh, four, hollow) = h_init-IsTable {A = A} 4 (omega arith) in
        let start : IsMap (record m { newer = h_init 4 }) = record {
          newer = fresh;
          older = v.older;
          allocated = λ p. omega arith;
          emptied = v.emptied;
        } in
        let (valid, added, full) =
          insert_allocated (record m { newer = h_init 4 }) node start (omega arith) in
        rw null (valid, λ q. omega (arith, added q, hollow q, null_held m.newer q null), full)
  ]

  grow-IsMap :
      (m : HMap A)
      → IsMap m
      → 0 < length m.newer.tab
      → IsMap (grow m) × ((q : HNode A → Bool) → held q (grow m) ≡ held q m)
  unfolding grow hm_trigger_rehashing
  grow-IsMap m v h =
      elim (Bool-cases
        (is_null m.older && leb ((m.newer.mask + 1) * k_max_load_factor) m.newer.size)) [
          | inr stay ↦ rw stay (v, λ q. refl)
          | inl full ↦
              let (fresh, width, hollow) =
                h_init-IsTable {A = A} ((m.newer.mask + 1) * 2) (omega arith) in
              let null : is_null m.older ≡ true = ground arith in
              rw full (
                record {
                  newer = fresh;
                  older = v.newer;
                  allocated = λ p. omega arith;
                  emptied = λ i p. absurd (omega arith);
                },
                λ q. omega (arith, hollow q, null_held m.older q null),
              )
        ]

  -- An insertion into a valid map, with the growth and the rehashing that it sets off, leaves a valid
  -- map that holds one node more, the given one.
  pub hm_insert-IsMap :
      (m : HMap A) (node : HNode A)
      → IsMap m
      → IsMap (hm_insert m node)
        × ((q : HNode A → Bool) → held q (hm_insert m node) ≡ held q m + to_nat (q node))
  unfolding hm_insert
  hm_insert-IsMap m node v =
      let (valid, added, full) = insert_newer-IsMap m node v in
      let (grown, same) = grow-IsMap (insert_newer m node) valid full in
      let s = hm_help_rehashing-Rehashed (grow (insert_newer m node)) grown in
      (s.valid, λ q. s.kept q ∙ same q ∙ added q)

  -- A deletion's result: no node is hit and all stay, or this one is hit, and it alone has gone.
  abbrev pub Removed : (HNode A → Bool) → HMap A → HMap A → Option (HNode A) → Type 0
  Removed q m m' none = (held q m ≡ 0) × ((r : HNode A → Bool) → held r m' ≡ held r m)
  Removed q m m' (some node) =
      (q node ≡ true) × ((r : HNode A → Bool) → held r m' + to_nat (r node) ≡ held r m)

  detach-Removed :
      (m : HMap A) (hcode : ℕ) (eq : A → Bool)
      → IsMap m
      → let (m', o) = delete_newer m (h_lookup m.newer hcode eq) (h_lookup m.older hcode eq) in
        IsMap m' × Removed (matches hcode eq) m m' o
  detach-Removed m hcode eq v = elim (Option-cases (h_lookup m.newer hcode eq)) [
    | inr ((p, i), e) ↦
        let (node, there, hit) = h_lookup-some m.newer v.newer hcode eq p i e in
        rw (e, there)
          (
            record {
              newer = h_detach-IsTable m.newer (p, i) v.newer there;
              older = v.older;
              allocated = λ h. omega (arith, length-h_detach m.newer (p, i), v.allocated h);
              emptied = v.emptied;
            },
            (hit, λ r. omega (arith, nodes-h_detach r m.newer (p, i) there)),
          )
    | inl e ↦ elim (Option-cases (h_lookup m.older hcode eq)) [
      | inr ((p, i), e') ↦
          let (node, there, hit) = h_lookup-some m.older v.older hcode eq p i e' in
          rw (e, e', there)
            (
              record {
                newer = v.newer;
                older = h_detach-IsTable m.older (p, i) v.older there;
                allocated = λ h. v.allocated (omega (arith, length-h_detach m.older (p, i)));
                emptied = λ k h. h_detach_empty m.older p i k there (v.emptied k h);
              },
              (hit, λ r. omega (arith, nodes-h_detach r m.older (p, i) there)),
            )
      | inl e' ↦
          rw (e, e')
            (
              v,
              (
                omega (
                  arith,
                  h_lookup-none m.newer v.newer hcode eq e,
                  h_lookup-none m.older v.older hcode eq e',
                ),
                λ r. refl,
              ),
            )
    ]
  ]

  Removed-kept :
      (q : HNode A → Bool) (m h m' : HMap A) (o : Option (HNode A))
      → ((r : HNode A → Bool) → held r h ≡ held r m)
      → Removed q h m' o
      → Removed q m m' o
  Removed-kept q m h m' none same d = (sym (same q) ∙ d.0, λ r. d.1 r ∙ same r)
  Removed-kept q m h m' (some node) same d = (d.0, λ r. d.1 r ∙ same r)

  -- A deletion from a valid map leaves a valid map. If the map holds a node with the code and the key,
  -- one such node is returned and is the only one to go; otherwise all nodes stay.
  pub hm_delete-Removed :
      (m : HMap A) (hcode : ℕ) (eq : A → Bool)
      → IsMap m
      → IsMap (hm_delete m hcode eq).0
        × Removed (matches hcode eq) m (hm_delete m hcode eq).0 (hm_delete m hcode eq).1
  unfolding hm_delete
  hm_delete-Removed m hcode eq v =
      let s = hm_help_rehashing-Rehashed m v in
      let (valid, d) = detach-Removed (hm_help_rehashing m) hcode eq s.valid in
      (
        valid,
        Removed-kept (matches hcode eq) m (hm_help_rehashing m) (hm_delete m hcode eq).0
            (hm_delete m hcode eq).1 s.kept d,
      )

  -- The size of a valid map is the number of its nodes.
  pub hm_size_lem : (m : HMap A) → IsMap m → hm_size m ≡ held (λ _. true) m
  unfolding hm_size
  hm_size_lem m v = omega (arith, v.newer.counted, v.older.counted)
