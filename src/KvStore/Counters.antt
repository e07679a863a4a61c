-- ===== src/KvStore/Counters.antt =====
-- `incr`, and runs of two commands (src/kv_store.cpp: `execute`, `do_set`, `do_get`).
use apex_db.Prelude.{
  ℕ, arith, ◌≡◌, refl, sym, ◌∙◌, ap, subst, Bool, true, false, Option, none, some, if◌then◌else◌,
  Bool-cases, Option-cases, inl, inr, ℤ, pos, i64_word, InI64, leb_ℤ, negsuc, ◌+ℤ◌, pos_next,
}
use apex_db.Bytes.{Bytes, bytes_eq}
use apex_db.Protocol.{err_bad_arg, err_bad_typ, out_nil, out_str, out_int, out_err}
use apex_db.Numbers.{str2int, to_string}
use apex_db.Numbers.RoundTrip.{str2int-to_string, str2int-InI64}
use apex_db.Sharding.{codes}
use apex_db.Floats.{Floats}
use apex_db.Heap.Places.{stored}
use apex_db.KvStore.{
  Store, Entry, t_str, is_str, incremented, find_entry, write_str, do_incr, do_get, do_set, do_del,
}
use apex_db.KvStore.Invariant.{Value, text, members, IsValid, Bound, view, Updated}
use apex_db.KvStore.Updates.{write_entry_lem}
use apex_db.KvStore.Entries.{add_entry_lem}
use apex_db.KvStore.Bindings.{
  missed, hit, Lookup-cases, then-Updated, still-Updated, text_value, members_value,
}
use apex_db.KvStore.Commands.{set_binding, get_reply, do_get_lem, do_set_lem, do_del_lem}

-- The integer after the one that a text writes, in 64 bits.
abbrev pub successor : Option ℤ → Option ℤ
successor none = none
successor (some value) =
    if leb_ℤ (pos 9223372036854775807) value then none else some (value +ℤ pos 1)

incremented-successor : (v : ℤ) → InI64 v → incremented (some v) ≡ successor (some v)
incremented-successor (pos n) h = ground (arith, pos_next n)
incremented-successor (negsuc n) h = ground arith

incremented_lem : (str : Bytes) → incremented (str2int str) ≡ successor (str2int str)
incremented_lem str = elim (Option-cases (str2int str)) [
  | inl e ↦ rw e refl
  | inr (v, e) ↦ rw e (incremented-successor v (str2int-InI64 str v e))
]

abbrev pub written_reply : Option ℤ → Bytes → Bytes
written_reply none out =
    out_err out err_bad_arg (codes "value is not an integer or increment would overflow")
written_reply (some value) out = out_int out (i64_word value)

module _ {D : Type 0} ⦃f : Floats D⦄ where
  -- What `incr` leaves a key bound to, and what it answers, for the value that it writes.
  abbrev pub written_binding : Option ℤ → Value D → Option ℕ → Option (Value D × Option ℕ)
  written_binding none x t = some (x, t)
  written_binding (some value) x t = some (text (to_string value), t)

  abbrev pub incr_binding : Option (Value D × Option ℕ) → Option (Value D × Option ℕ)
  incr_binding none = some (text (to_string (pos 1)), none)
  incr_binding (some (text str, t)) = written_binding (successor (str2int str)) (text str) t
  incr_binding (some (members z, t)) = some (members z, t)

  abbrev pub incr_reply : Option (Value D × Option ℕ) → Bytes → Bytes
  incr_reply none out = out_int out (i64_word (pos 1))
  incr_reply (some (text str, t)) out = written_reply (successor (str2int str)) out
  incr_reply (some (members z, t)) out = out_err out err_bad_typ (codes "not a string value")

  incr_old :
      (s : Store D) (k str : Bytes) (a : ℕ) (t : Option ℕ)
      → IsValid s
      → Bound s k a
      → is_str (s.entries a).type ≡ true
      → stored s.heap a ≡ t
      → Updated s k (some (text str, t)) (write_str s a str)
  incr_old s k str a t v b e e' =
      let entry : Entry D = record (s.entries a) { str = str } in
      subst (λ x. Updated s k x (write_str s a str)) (rw (e, e') refl)
        (write_entry_lem s k a entry v b refl refl)

  -- `incr` on a valid store binds a key that is not bound to `1`, and adds 1 to the integer that a
  -- key's string writes, its deadline kept. A string that writes no integer of 64 bits, or the largest,
  -- and a sorted set stay and are answered by an error. All other keys stay bound as they are.
  pub do_incr_lem :
      (s : Store D) (key out : Bytes)
      → IsValid s
      → Updated s key (incr_binding (view s key)) (do_incr s key out).0
        × ((do_incr s key out).1 ≡ incr_reply (view s key) out)
  unfolding do_incr
  do_incr_lem s key out v = elim (Lookup-cases s key v) [
    | missed u e h reads ↦
        rw (reads, do_incr, e)
          (
            then-Updated s (find_entry s key).0 _ key _ u
                (add_entry_lem (find_entry s key).0 key t_str (to_string (pos 1)) u.valid h).0,
            refl,
          )
    | hit a u e b reads ↦ elim (Bool-cases (is_str ((find_entry s key).0.entries a).type)) [
      | inl t ↦
          let same =
            reads
            ∙ ap (λ x. some (x, stored (find_entry s key).0.heap a))
                (text_value ((find_entry s key).0.entries a) t) in
          let spec = sym (incremented_lem ((find_entry s key).0.entries a).str) in
          elim (Option-cases (incremented (str2int ((find_entry s key).0.entries a).str))) [
            | inl none_left ↦
                rw (same, do_incr, e, t, none_left, spec ∙ none_left)
                  (still-Updated s (find_entry s key).0 key _ same u, refl)
            | inr (value, next) ↦
                rw (same, do_incr, e, t, next, spec ∙ next)
                  (
                    then-Updated s (find_entry s key).0 _ key _ u
                        (incr_old (find_entry s key).0 key (to_string value) a _ u.valid b t refl),
                    refl,
                  )
          ]
      | inr z ↦
          let same =
            reads
            ∙ ap (λ x. some (x, stored (find_entry s key).0.heap a))
                (members_value ((find_entry s key).0.entries a) z) in
          rw (same, do_incr, e, z) (still-Updated s (find_entry s key).0 key _ same u, refl)
    ]
  ]

  -- In a valid store in which a key's string writes an integer of 64 bits below the largest, `incr`
  -- puts the digits of the integer plus 1 in its place and answers that sum; the deadline stays.
  pub do_incr_integer :
      (s : Store D) (key out : Bytes) (value : ℤ) (t : Option ℕ)
      → IsValid s
      → InI64 value
      → leb_ℤ (pos 9223372036854775807) value ≡ false
      → view s key ≡ some (text (to_string value), t)
      → Updated s key (some (text (to_string (value +ℤ pos 1)), t)) (do_incr s key out).0
        × ((do_incr s key out).1 ≡ out_int out (i64_word (value +ℤ pos 1)))
  do_incr_integer s key out value t v small e e' =
      let (u, reply) = do_incr_lem s key out v in
      let parsed : successor (str2int (to_string value)) ≡ some (value +ℤ pos 1) =
        rw (str2int-to_string value small, e) refl in
      let binding : incr_binding (view s key) ≡ some (text (to_string (value +ℤ pos 1)), t) =
        rw (e', parsed) refl in
      let answer : incr_reply (view s key) out ≡ out_int out (i64_word (value +ℤ pos 1)) =
        rw (e', parsed) refl in
      (subst (λ x. Updated s key x (do_incr s key out).0) binding u, reply ∙ answer)

  abbrev pub has_members : Option (Value D × Option ℕ) → Bool
  has_members (some (members z, t)) = true
  has_members _ = false

  set_text :
      (b : Option (Value D × Option ℕ)) (str : Bytes)
      → has_members b ≡ false
      → set_binding b str ≡ some (text str, none)
  set_text none str h = refl
  set_text (some (text x, t)) str h = refl
  set_text (some (members z, t)) str h = cc

  -- After `set` on a valid store, for a key without a sorted set, `get` answers the string for that key,
  -- and for every other key what it answered before.
  pub do_get-do_set :
      (s : Store D) (key str out key' out' : Bytes)
      → IsValid s
      → has_members (view s key) ≡ false
      → (do_get (do_set s key str out).0 key' out').1
        ≡ (if bytes_eq key key' then out_str out' str else (do_get s key' out').1)
  do_get-do_set s key str out key' out' v h =
      let (u, _) = do_set_lem s key str out v in
      let (_, now) = do_get_lem (do_set s key str out).0 key' out' u.valid in
      let (_, before) = do_get_lem s key' out' v in
      elim (Bool-cases (bytes_eq key key')) [
        | inl e ↦
            now
            ∙ ap (λ x. get_reply x out') (u.reads key')
            ∙ rw (e, set_text (view s key) str h) refl
        | inr e ↦ now ∙ ap (λ x. get_reply x out') (u.reads key') ∙ rw e (sym before)
      ]

  -- After `del` on a valid store, `get` answers nil for the deleted key, and for every other key what it
  -- answered before.
  pub do_get-do_del :
      (s : Store D) (key out key' out' : Bytes)
      → IsValid s
      → (do_get (do_del s key out).0 key' out').1
        ≡ (if bytes_eq key key' then out_nil out' else (do_get s key' out').1)
  do_get-do_del s key out key' out' v =
      let (u, _) = do_del_lem s key out v in
      let (_, now) = do_get_lem (do_del s key out).0 key' out' u.valid in
      let (_, before) = do_get_lem s key' out' v in
      elim (Bool-cases (bytes_eq key key')) [
        | inl e ↦ now ∙ ap (λ x. get_reply x out') (u.reads key') ∙ rw e refl
        | inr e ↦ now ∙ ap (λ x. get_reply x out') (u.reads key') ∙ rw e (sym before)
      ]
