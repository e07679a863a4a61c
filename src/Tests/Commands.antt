-- ===== src/Tests/Commands.antt =====
-- The commands of the store at concrete inputs: `a` is set to `41`, and gets a deadline.
use apex_db.Prelude.{
  ℕ, ◌≡◌, ◌<◌, ◌+◌, subst, ap, ◌∙◌, sym, ◌≤◌, ◌-◌, refl, true, false, none, some, [], ◌∷◌, arith,
  ltb, ◌==◌, if◌then◌else◌, length, pos, i64_word, ◌+ℤ◌,
}
use apex_db.Bytes.{Bytes, bytes_eq}
use apex_db.Protocol.{out_str, out_int, out_nil}
use apex_db.Numbers.{str2int, to_string}
use apex_db.Sharding.{codes}
use apex_db.Floats.{Floats}
use apex_db.Ttl.{no_place}
use apex_db.KvStore.{
  Store, empty_store, do_get, do_set, do_del, do_expire, do_ttl, do_persist, do_incr, incremented,
}
use mathlib.Core.List.{foldl}
use apex_db.Protocol.{out_arr}
use apex_db.HashTable.{HNode}
use apex_db.HashTable.Chains.{count}
use apex_db.HashTable.Foreach.{all_nodes}
use apex_db.KvStore.{do_exists, do_type, do_keys}
use apex_db.KvStore.Invariant.{has_key}
use apex_db.KvStore.Keys.{is_bound, type_name, do_exists_lem, do_type_lem, do_keys_lem}
use apex_db.KvStore.Execute.{expire_due, next_timer_ms, is_due}
use apex_db.KvStore.Invariant.{text, IsValid, view, Updated, Unchanged}
use apex_db.KvStore.Entries.{empty_store-IsValid}
use apex_db.KvStore.Commands.{
  get_reply, set_reply, set_binding, del_reply, do_get_lem, do_set_lem, do_del_lem,
}
use apex_db.KvStore.Deadlines.{
  expire_binding, expire_reply, time_left, persist_binding, persist_reply, do_expire_lem,
  do_ttl_lem, do_persist_lem,
}
use apex_db.KvStore.Counters.{
  incr_binding, incr_reply, has_members, do_incr_lem, do_incr_integer, do_get-do_set, do_get-do_del,
}
use apex_db.KvStore.Root.{alive}
use apex_db.KvStore.Expiry.{expire_due_lem, next_timer_ms-soon, next_timer_ms-due}

-- Numbers for scores: all texts are read as their length.
instance abbrev pub text_lengths : Floats ℕ
text_lengths = record {
  zero = 0;
  equal = λ a b. a == b;
  less = λ a b. ltb a b;
  is_nan = λ a. false;
  pattern_bytes = λ a. a ∷ 0 ∷ 0 ∷ 0 ∷ 0 ∷ 0 ∷ 0 ∷ 0 ∷ [];
  strtod = λ s. record { value = length s; consumed = length s; out_of_range = false };
  equal_refl = λ a h. ground arith;
  equal_sym = λ a b h. ground arith;
  equal_trans = λ a b c h h'. ground arith;
  less_irrefl = λ a b h. ground arith;
  less_trans = λ a b c h h'. ground arith;
  less_equal = λ a b c h h'. ground arith;
  equal_less = λ a b c h h'. ground arith;
  less_total = λ a b h h' h'' h'''. ground arith;
}

abbrev start : Store ℕ
start = empty_store

abbrev key_a : Bytes
key_a = codes "a"

abbrev number : Bytes
number = codes "41"

start-view : view start key_a ≡ none
unfolding view empty_store apex_db.KvStore.find_entry apex_db.HashTable.hm_lookup
    apex_db.HashTable.h_lookup apex_db.HashTable.hm_help_rehashing apex_db.HashTable.free_older
    apex_db.HashTable.rehash_loop
start-view = refl

-- `a` is set.
abbrev full : Store ℕ
full = (do_set start key_a number []).0

do_set_lem_example :
    Updated start key_a (set_binding (view start key_a) number) full
    × ((do_set start key_a number []).1 ≡ set_reply (view start key_a) [])
do_set_lem_example = do_set_lem start key_a number [] empty_store-IsValid

full-Updated : Updated start key_a (some (text number, none)) full
full-Updated =
    subst (λ b. Updated start key_a (set_binding b number) full) start-view
      (do_set_lem start key_a number [] empty_store-IsValid).0

full-view : view full key_a ≡ some (text number, none)
unfolding bytes_eq
full-view = full-Updated.reads key_a

full-room : length full.heap.items < no_place
unfolding do_set empty_store apex_db.KvStore.find_entry apex_db.KvStore.add_entry
    apex_db.KvStore.set_ttl apex_db.Ttl.entry_set_ttl apex_db.HashTable.hm_lookup
    apex_db.HashTable.h_lookup apex_db.HashTable.hm_help_rehashing apex_db.HashTable.free_older
    apex_db.HashTable.rehash_loop
full-room = omega arith

do_get_lem_example :
    Unchanged full (do_get full key_a []).0
    × ((do_get full key_a []).1 ≡ get_reply (view full key_a) [])
do_get_lem_example = do_get_lem full key_a [] full-Updated.valid

do_del_lem_example :
    Updated full key_a none (do_del full key_a []).0
    × ((do_del full key_a []).1 ≡ del_reply (view full key_a) [])
do_del_lem_example = do_del_lem full key_a [] full-Updated.valid

do_incr_lem_example :
    Updated full key_a (incr_binding (view full key_a)) (do_incr full key_a []).0
    × ((do_incr full key_a []).1 ≡ incr_reply (view full key_a) [])
do_incr_lem_example = do_incr_lem full key_a [] full-Updated.valid

forty_one : to_string (pos 41) ≡ number
unfolding to_string apex_db.Numbers.decimal
forty_one = refl

do_incr_integer_test :
    Updated full key_a (some (text (to_string (pos 41 +ℤ pos 1)), none)) (do_incr full key_a []).0
    × ((do_incr full key_a []).1 ≡ out_int [] (i64_word (pos 41 +ℤ pos 1)))
do_incr_integer_test =
    do_incr_integer full key_a [] (pos 41) none full-Updated.valid (omega arith) refl
      (full-view ∙ ap (λ x. some (text x, none)) (sym forty_one))

do_get-do_set_test : (do_get (do_set full key_a (codes "new") []).0 (codes "a") []).1 ≡ (
    if bytes_eq key_a (codes "a") then out_str [] (codes "new") else (do_get full (codes "a") []).1)
do_get-do_set_test =
    do_get-do_set full key_a (codes "new") [] (codes "a") [] full-Updated.valid
      (ap has_members full-view)

do_get-do_del_test :
    (do_get (do_del full key_a []).0 (codes "a") []).1
    ≡ (if bytes_eq key_a (codes "a") then out_nil [] else (do_get full (codes "a") []).1)
do_get-do_del_test = do_get-do_del full key_a [] (codes "a") [] full-Updated.valid

-- `a` is to expire after 50 milliseconds, by a clock that reads 1000.
abbrev timed : Store ℕ
timed = (do_expire full key_a (codes "50") 1000 []).0

do_expire_lem_example :
    Updated full key_a (expire_binding (str2int (codes "50")) 1000 (view full key_a)) timed
    × ((do_expire full key_a (codes "50") 1000 []).1
        ≡ expire_reply (str2int (codes "50")) (view full key_a) [])
do_expire_lem_example = do_expire_lem full key_a (codes "50") 1000 [] full-Updated.valid full-room

fifty : str2int (codes "50") ≡ some (pos 50)
unfolding str2int apex_db.Numbers.from_chars_i64 apex_db.Numbers.from_digits apex_db.Numbers.scan
fifty = refl

timed_binding :
    expire_binding (str2int (codes "50")) 1000 (view full key_a) ≡ some (text number, some 1050)
timed_binding = rw (fifty, full-view) refl

timed-Updated : Updated full key_a (some (text number, some 1050)) timed
timed-Updated =
    subst (λ b. Updated full key_a b timed) timed_binding
      (do_expire_lem full key_a (codes "50") 1000 [] full-Updated.valid full-room).0

timed-view : view timed key_a ≡ some (text number, some 1050)
unfolding bytes_eq
timed-view = timed-Updated.reads key_a

do_ttl_lem_example :
    Unchanged timed (do_ttl timed key_a 1010 []).0
    × ((do_ttl timed key_a 1010 []).1 ≡ out_int [] (time_left (view timed key_a) 1010))
do_ttl_lem_example = do_ttl_lem timed key_a 1010 [] timed-Updated.valid

do_persist_lem_example :
    Updated timed key_a (persist_binding (view timed key_a)) (do_persist timed key_a []).0
    × ((do_persist timed key_a []).1 ≡ out_int [] (persist_reply (view timed key_a)))
do_persist_lem_example = do_persist_lem timed key_a [] timed-Updated.valid

expire_due_lem_example :
    IsValid (expire_due timed 2000)
    × ((k : Bytes) → view (expire_due timed 2000) k ≡ alive 2000 (view timed k))
expire_due_lem_example = expire_due_lem timed 2000 timed-Updated.valid

next_timer_ms-soon_example : next_timer_ms timed 1010 ≤ 1050 - 1010
next_timer_ms-soon_example =
    next_timer_ms-soon timed 1010 key_a (text number) 1050 timed-Updated.valid timed-view
      (omega arith)

next_timer_ms-due_example : is_due timed (1010 + next_timer_ms timed 1010) ≡ true
next_timer_ms-due_example = next_timer_ms-due timed 1010 (
    omega (
      arith,
      next_timer_ms-soon timed 1010 key_a (text number) 1050 timed-Updated.valid timed-view
          (omega arith),
    ))

do_exists_lem_test :
    Unchanged full (do_exists full key_a []).0
    × ((do_exists full key_a []).1 ≡ out_int [] (if is_bound (view full key_a) then 1 else 0))
do_exists_lem_test = do_exists_lem full key_a [] full-Updated.valid

do_type_lem_test :
    Unchanged full (do_type full key_a []).0
    × ((do_type full key_a []).1 ≡ out_str [] (type_name (view full key_a)))
do_type_lem_test = do_type_lem full key_a [] full-Updated.valid

do_keys_lem_example :
    (do_keys full [] ≡ (
      full,
      foldl
          (λ (o : Bytes) (n : HNode ℕ). out_str o (full.entries n.item).key)
          (out_arr [] (length (all_nodes full.db)))
          (all_nodes full.db),
    ))
    × ((k : Bytes)
        → count (has_key full k) (all_nodes full.db) ≡ (if is_bound (view full k) then 1 else 0))
do_keys_lem_example = do_keys_lem full [] full-Updated.valid
