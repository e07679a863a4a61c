-- ===== src/ServerLoop/Flush.antt =====
-- What the write at the end of `handle_read` leaves of the output (src/server_loop.cpp: `handle_write`).
use apex_db.Prelude.{
  ℕ, zero, suc, ◌≡◌, refl, sym, ◌∙◌, ap, true, false, [], ◌∷◌, drop, Bool-cases, inl, inr,
}
use apex_db.Bytes.{Bytes}
use apex_db.ServerLoop.{
  Conn, WriteResult, write_again, write_failed, wrote, is_empty, after_write, handle_write, flush,
}

-- The bytes that `write` has taken are gone from the front; a call that failed takes none.
unfoldable pub unsent : WriteResult → Bytes → Bytes
unsent (wrote n) out = drop n out
unsent write_again out = out
unsent write_failed out = out

nil_of : (out : Bytes) → is_empty out ≡ true → out ≡ []
nil_of [] h = refl
nil_of (x ∷ out) h = cc

drop_none : (n : ℕ) → drop {A = ℕ} n [] ≡ []
drop_none zero = refl
drop_none (suc n) = refl

unsent_none : (w : WriteResult) → unsent w [] ≡ []
unfolding unsent
unsent_none (wrote n) = drop_none n
unsent_none write_again = refl
unsent_none write_failed = refl

after_write_lem :
    (c : Conn) → ((after_write c).incoming ≡ c.incoming) × ((after_write c).outgoing ≡ c.outgoing)
after_write_lem c = elim (Bool-cases (is_empty c.outgoing)) [
  | inl e ↦ rw e (refl, refl)
  | inr e ↦ rw e (refl, refl)
]

handle_write_lem :
    (c : Conn) (w : WriteResult)
    → ((handle_write c w).incoming ≡ c.incoming)
      × ((handle_write c w).outgoing ≡ unsent w c.outgoing)
unfolding handle_write unsent
handle_write_lem c (wrote n) = after_write_lem (record c { outgoing = drop n c.outgoing })
handle_write_lem c write_again = (refl, refl)
handle_write_lem c write_failed = (refl, refl)

pub flush_lem :
    (c : Conn) (w : WriteResult)
    → ((flush c w).incoming ≡ c.incoming) × ((flush c w).outgoing ≡ unsent w c.outgoing)
flush_lem c w = elim (Bool-cases (is_empty c.outgoing)) [
  | inl e ↦
      let none_left = nil_of c.outgoing e in
      rw e (refl, none_left ∙ sym (unsent_none w) ∙ ap (unsent w) (sym none_left))
  | inr e ↦ rw e (handle_write_lem (record c { want_read = false; want_write = true }) w)
]
