-- ===== src/KvStore/Removal.antt =====
-- What `hm_delete` with the clearing of the deadline does to the bindings of keys.
use apex_db.Prelude.{
  ℕ, ◌+◌, ◌≡◌, refl, ◌∙◌, Bool, true, false, not, ◌&&◌, none, List, arith, leb, ◌==◌, ==_refl,
  if◌then◌else◌, Bool-cases, inl, inr,
}
use apex_db.Bytes.{Bytes}
use apex_db.Sharding.{str_hash}
use apex_db.Floats.{Floats}
use apex_db.HashTable.{HNode, HMap}
use apex_db.HashTable.Chains.{to_nat}
use apex_db.HashTable.Rehash.{held, IsMap}
use apex_db.Heap.{Heap}
use apex_db.Heap.Places.{stored}
use apex_db.Ttl.Entries.{IsTracked}
use apex_db.KvStore.{Store}
use apex_db.KvStore.Invariant.{IsValid, has_key, is_at, Bound, view-none, Updated, update-view}
use apex_db.KvStore.Updates.{Bound-other}

pub to_nat-true : (b : Bool) → b ≡ true → to_nat b ≡ 1
to_nat-true b e = ground arith

pub to_nat-false : (b : Bool) → b ≡ false → to_nat b ≡ 0
to_nat-false b e = ground arith

pub to_nat_both : (b c : Bool) → b ≡ true → c ≡ true → to_nat (b && c) ≡ 1
to_nat_both b c e e' = ground arith

module _ {D : Type 0} ⦃f : Floats D⦄ where
  -- A node and the deadline of its entry are gone.
  pub remove_lem :
      (s : Store D) (k : Bytes) (node : HNode ℕ) (db : HMap ℕ) (heap : Heap)
      (queued disposed : List ℕ)
      → IsValid s
      → has_key s k node ≡ true
      → IsMap db
      → ((r : HNode ℕ → Bool) → held r db + to_nat (r node) ≡ held r s.db)
      → IsTracked heap
      → ((r : ℕ) → stored heap r ≡ (if node.item == r then none else stored s.heap r))
      → Updated s k none (record s { db = db; heap = heap; queued = queued; disposed = disposed })
  remove_lem s k node db heap queued disposed v hit m taken tracked reads =
      let s' : Store D = record s { db = db; heap = heap; queued = queued; disposed = disposed } in
      let bound : Bound s k node.item = omega (
        arith,
        taken (λ n. is_at node.item n && has_key s k n),
        to_nat_both (node.item == node.item) (has_key s k node) (==_refl node.item) hit,
      ) in
      let v' : IsValid s' = record {
        map = m;
        coded =
            omega (arith, taken (λ n. not (n.hcode == str_hash (s.entries n.item).key)), v.coded);
        entry_coded = omega (
          arith,
          taken (λ n. not ((s.entries n.item).hcode == str_hash (s.entries n.item).key)),
          v.entry_coded,
        );
        distinct = λ k'. omega (arith, taken (has_key s k'), v.distinct k');
        old = omega (arith, taken (λ n. leb s.next n.item), v.old);
        tracked = tracked;
        live = λ x n. elim (Bool-cases (node.item == x)) [
          | inl e ↦ absurd (n (reads x ∙ rw e refl))
          | inr e ↦ omega (
            arith,
            v.live x (λ h. n (reads x ∙ rw e h)),
            taken (is_at x),
            to_nat-false (node.item == x) e,
          )
        ];
      } in
      update-view s s' k none v v'
        (view-none s' k v'
          (omega (arith, taken (has_key s k), v.distinct k, to_nat-true (has_key s k node) hit)))
        (λ k' other. record {
          bound = λ x p. elim (Bool-cases (is_at x node && has_key s k' node)) [
            | inl e ↦ absurd (ground (arith, Bound-other s k k' node.item x bound p other))
            | inr e ↦ omega (
              arith,
              p,
              taken (λ n. is_at x n && has_key s k' n),
              to_nat-false (is_at x node && has_key s k' node) e,
            )
          ];
          contents = λ x p. rw (reads x, Bound-other s k k' node.item x bound p other);
          free = λ h. omega (arith, taken (has_key s k'));
        })
