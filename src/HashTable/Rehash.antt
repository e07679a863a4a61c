-- ===== src/HashTable/Rehash.antt =====
-- Progressive rehashing: the map's invariant, and that a call of `hm_help_rehashing` ends, moves the
-- nodes that it should, and loses none.
use apex_db.Prelude.{
  ℕ, zero, suc, ◌+◌, ◌-◌, ◌≤◌, ◌<◌, ◌≡◌, refl, ◌∙◌, Bool-cases, Option-cases, ltb→lt, ltb→le, inl,
  inr, Bool, ◌&&◌, not, none, some, [], ◌∷◌, arith, ltb, ◌==◌, length, get_or, length-set,
  get_or-set,
}
use apex_db.HashTable.{
  HNode, HTab, HMap, no_table, h_insert, h_detach, node_at, remove_at, rehash_loop, free_older,
  hm_help_rehashing, is_null, k_rehashing_work,
}
use apex_db.HashTable.Chains.{count_all, count_all-le, nonempty_bucket}
use apex_db.HashTable.Tables.{
  nodes, IsTable, no_table-IsTable, h_insert-IsTable, nodes-h_insert, h_detach-IsTable,
  nodes-h_detach,
}

module _ {A : Type 0} where
  -- How many nodes of a map satisfy a predicate.
  abbrev pub held : (HNode A → Bool) → HMap A → ℕ
  held q m = nodes q m.newer + nodes q m.older

  -- Both tables are in order, there is no old table without a new one, and the buckets of the old
  -- table before `migrate_pos` are empty.
  pub record IsMap (m : HMap A) : Type 0 where
    pub newer : IsTable m.newer
    pub older : IsTable m.older
    pub allocated : 0 < length m.older.tab → 0 < length m.newer.tab
    pub emptied : (i : ℕ) → i < m.migrate_pos → get_or m.older.tab i [] ≡ []

  -- `m'` is `m` after at most `work` nodes were moved: as many as there are, if they are fewer.
  pub record Rehashed (work : ℕ) (m m' : HMap A) : Type 0 where
    pub valid : IsMap m'
    pub kept : (q : HNode A → Bool) → held q m' ≡ held q m
    pub moved : m'.older.size ≡ m.older.size - work
    pub allocated : 0 < length m.newer.tab → 0 < length m'.newer.tab

  -- While the old table has nodes, `migrate_pos` is a bucket of it.
  pub migrate_pos-lt :
      (m : HMap A) → IsMap m → 0 < m.older.size → m.migrate_pos < length m.older.tab
  migrate_pos-lt m v h =
      let (i, inside, filled) = nonempty_bucket m.older.tab (omega (arith, v.older.counted)) in
      elim (Bool-cases (ltb i m.migrate_pos)) [
        | inl before ↦ absurd (filled (v.emptied i (ltb→lt _ _ before)))
        | inr after ↦ omega (arith, ltb→le _ _ after)
      ]

  node_at-none : (t : HTab A) (p : ℕ) → node_at t (p, 0) ≡ none → get_or t.tab p [] ≡ []
  unfolding node_at
  node_at-none t p e = ground arith

  pass-IsMap :
      (m : HMap A)
      → IsMap m
      → node_at m.older (m.migrate_pos, 0) ≡ none
      → IsMap (record m { migrate_pos = m.migrate_pos + 1 })
  pass-IsMap m v e = record {
    newer = v.newer;
    older = v.older;
    allocated = v.allocated;
    emptied = λ i h. ground (arith, v.emptied i, node_at-none m.older m.migrate_pos e);
  }

  pass-lt :
      (m : HMap A)
      → IsMap m
      → 0 < m.older.size
      → node_at m.older (m.migrate_pos, 0) ≡ none
      → m.migrate_pos + 1 < length m.older.tab
  pass-lt m v h e =
      omega
        (arith, migrate_pos-lt (record m { migrate_pos = m.migrate_pos + 1 }) (pass-IsMap m v e) h)

  -- One node goes from the old table to the new one.
  abbrev moved_node : HMap A → HNode A → HMap A
  moved_node m node = record m {
    newer = h_insert m.newer node;
    older = h_detach m.older (m.migrate_pos, 0);
  }

  move-IsMap :
      (m : HMap A) (node : HNode A)
      → IsMap m
      → 0 < m.older.size
      → node_at m.older (m.migrate_pos, 0) ≡ some node
      → IsMap (moved_node m node)
  unfolding h_detach h_insert
  move-IsMap m node v h e =
      let p = m.migrate_pos in
      let full : 0 < length m.newer.tab = v.allocated (omega (arith, migrate_pos-lt m v h)) in
      record {
        newer = h_insert-IsTable m.newer v.newer node full;
        older = h_detach-IsTable m.older (p, 0) v.older e;
        allocated = λ _. omega (arith, length-set m.newer.tab _ (node ∷ get_or m.newer.tab _ []));
        emptied = λ i q. ground (
          arith,
          get_or-set m.older.tab p i (remove_at (get_or m.older.tab p []) 0) [],
          migrate_pos-lt m v h,
          v.emptied i,
        );
      }

  move-held :
      (q : HNode A → Bool) (m : HMap A) (node : HNode A)
      → IsMap m
      → 0 < m.older.size
      → node_at m.older (m.migrate_pos, 0) ≡ some node
      → held q (moved_node m node) ≡ held q m
  move-held q m node v h e = omega (
    arith,
    nodes-h_insert m.newer v.newer q node,
    v.allocated,
    migrate_pos-lt m v h,
    nodes-h_detach q m.older (m.migrate_pos, 0) e,
  )

  after_pass :
      (m : HMap A) {work : ℕ} {m' : HMap A}
      → Rehashed work (record m { migrate_pos = m.migrate_pos + 1 }) m'
      → Rehashed work m m'
  after_pass m s = record {
    valid = s.valid;
    kept = s.kept;
    moved = s.moved;
    allocated = s.allocated;
  }

  after_move :
      (m : HMap A) (node : HNode A) (nwork : ℕ) {m' : HMap A}
      → IsMap m
      → 0 < m.older.size
      → node_at m.older (m.migrate_pos, 0) ≡ some node
      → nwork < k_rehashing_work
      → Rehashed (k_rehashing_work - (nwork + 1)) (moved_node m node) m'
      → Rehashed (k_rehashing_work - nwork) m m'
  unfolding h_detach h_insert
  after_move m node nwork v h e w s = record {
    valid = s.valid;
    kept = λ q. s.kept q ∙ move-held q m node v h e;
    moved = omega (arith, s.moved);
    allocated =
        λ p. s.allocated (omega (arith, length-set m.newer.tab _ (node ∷ get_or m.newer.tab _ [])));
  }

  none_held : (q : HNode A → Bool) (t : HTab A) → IsTable t → t.size ≡ 0 → nodes q t ≡ 0
  none_held q t v e = omega (arith, count_all-le q t.tab, v.counted)

  -- The rounds that a loop still has at most.
  abbrev rounds : ℕ → HMap A → ℕ
  rounds nwork m = (k_rehashing_work - nwork) + (length m.older.tab - m.migrate_pos)

  move-rounds :
      (m : HMap A) (node : HNode A) (nwork fuel : ℕ)
      → nwork < k_rehashing_work
      → rounds nwork m < suc fuel
      → rounds (nwork + 1) (moved_node m node) < fuel
  unfolding h_detach
  move-rounds m node nwork fuel w f = omega (
    arith,
    length-set m.older.tab m.migrate_pos (remove_at (get_or m.older.tab m.migrate_pos []) 0),
  )

  rehash_loop-Rehashed :
      (fuel nwork : ℕ) (m : HMap A)
      → rounds nwork m < fuel
      → nwork ≤ k_rehashing_work
      → IsMap m
      → Rehashed (k_rehashing_work - nwork) m (rehash_loop fuel nwork m)
  unfolding rehash_loop
  rehash_loop-Rehashed zero nwork m f w v = absurd (omega arith)
  rehash_loop-Rehashed (suc fuel) nwork m f w v =
      elim (Bool-cases (ltb nwork k_rehashing_work && ltb 0 m.older.size)) [
        | inr stop ↦
            rw stop
              (record { valid = v; kept = λ q. refl; moved = ground arith; allocated = λ h. h })
        | inl more ↦ elim (Option-cases (node_at m.older (m.migrate_pos, 0))) [
          | inl hollow ↦
              rw (more, hollow)
                (after_pass m (
                  rehash_loop-Rehashed fuel nwork (record m { migrate_pos = m.migrate_pos + 1 })
                    (ground (arith, pass-lt m v (ground arith) hollow)) w (pass-IsMap m v hollow)))
          | inr (node, there) ↦
              let filled : 0 < m.older.size = ground arith in
              let work : nwork < k_rehashing_work = ground arith in
              rw (more, there)
                (after_move m node nwork v filled there work (
                  rehash_loop-Rehashed fuel (nwork + 1) (moved_node m node)
                    (move-rounds m node nwork fuel work f) (omega arith)
                    (move-IsMap m node v filled there)))
        ]
      ]

  hm_help_rehashing_loop :
      (m : HMap A)
      → IsMap m
      → Rehashed k_rehashing_work m (rehash_loop (k_rehashing_work + length m.older.tab + 1) 0 m)
  hm_help_rehashing_loop m v =
      rehash_loop-Rehashed (k_rehashing_work + length m.older.tab + 1) 0 m (omega arith)
        (omega arith) v

  freed-Rehashed :
      (work : ℕ) (m m' : HMap A)
      → Rehashed work m m'
      → m'.older.size ≡ 0
      → Rehashed work m (record m' { older = no_table })
  unfolding count_all
  freed-Rehashed work m m' s e = record {
    valid = record {
      newer = s.valid.newer;
      older = no_table-IsTable;
      allocated = λ h. absurd (omega arith);
      emptied = λ i h. refl;
    };
    kept = λ q. omega (arith, s.kept q, none_held q m'.older s.valid.older e);
    moved = omega (arith, s.moved);
    allocated = s.allocated;
  }

  free_older-Rehashed :
      (work : ℕ) (m m' : HMap A) → Rehashed work m m' → Rehashed work m (free_older m')
  unfolding free_older
  free_older-Rehashed work m m' s =
      elim (Bool-cases ((m'.older.size == 0) && not (is_null m'.older))) [
        | inr keep ↦ rw keep s
        | inl drop ↦ rw drop (freed-Rehashed work m m' s (ground arith))
      ]

  -- Helping ends for every valid map. It moves 128 nodes to the new table, or all that the old one has if
  -- they are fewer, keeps the map valid, and neither loses nor adds a node.
  pub hm_help_rehashing-Rehashed :
      (m : HMap A) → IsMap m → Rehashed k_rehashing_work m (hm_help_rehashing m)
  unfolding hm_help_rehashing
  hm_help_rehashing-Rehashed m v =
      free_older-Rehashed k_rehashing_work m _ (hm_help_rehashing_loop m v)
