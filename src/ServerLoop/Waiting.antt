-- ===== src/ServerLoop/Waiting.antt =====
-- The end of the loop over requests, and what a connection waits for.
use apex_db.Prelude.{
  ℕ, zero, suc, ◌+◌, ◌≤◌, ◌<◌, ◌≡◌, refl, sym, ◌∙◌, ap, Bool, true, false, not, List, ◌++◌, arith,
  ltb, length, take, drop, length-drop, Bool-cases, Option-cases, inl, inr,
}
use apex_db.Bytes.{Bytes, read_u32}
use apex_db.Protocol.{k_max_msg, parse_req}
use apex_db.ServerLoop.{
  Conn, try_one_request, request_loop, handle_write, handle_read, WriteResult, write_again,
  write_failed, wrote, ReadResult, read_again, read_failed, read_closed, read_some, flush,
  after_write, is_empty,
}

-- A connection waits to write exactly if it has output, and otherwise waits to read.
pub record IsWaiting (c : Conn) : Type 0 where
  pub writes : c.want_write ≡ not (is_empty c.outgoing)
  pub reads : c.want_read ≡ is_empty c.outgoing

after_write-IsWaiting :
    (c : Conn) → c.want_write ≡ true → c.want_read ≡ false → IsWaiting (after_write c)
after_write-IsWaiting c w r = elim (Bool-cases (is_empty c.outgoing)) [
  | inl e ↦ rw e (record { writes = rw e refl; reads = rw e refl })
  | inr e ↦ rw e (record { writes = w ∙ rw e refl; reads = r ∙ rw e refl })
]

-- A call of `write`, whatever it returns, keeps a connection with output waiting for the right thing.
pub handle_write-IsWaiting :
    (c : Conn) (w : WriteResult)
    → IsWaiting c
    → is_empty c.outgoing ≡ false
    → IsWaiting (handle_write c w)
unfolding handle_write
handle_write-IsWaiting c write_again v e = v
handle_write-IsWaiting c write_failed v e = record { writes = v.writes; reads = v.reads }
handle_write-IsWaiting c (wrote n) v e =
    after_write-IsWaiting (record c { outgoing = drop n c.outgoing }) (v.writes ∙ ap not e)
      (v.reads ∙ e)

flush-IsWaiting :
    (c : Conn) (w : WriteResult)
    → (is_empty c.outgoing ≡ true → IsWaiting c)
    → IsWaiting (flush c w)
flush-IsWaiting c w v = elim (Bool-cases (is_empty c.outgoing)) [
  | inl e ↦ rw e (v e)
  | inr e ↦ rw e (
      handle_write-IsWaiting (record c { want_read = false; want_write = true }) w
        (record { writes = rw e refl; reads = rw e refl }) e)
]

module _ {S : Type 0} (on_request : S → List Bytes → Bytes → S × Bytes) where
  -- What `try_one_request` leaves alone.
  record Tried (s : S) (c : Conn) (r : S × Conn × Bool) : Type 0 where
    pub reads : r.1.want_read ≡ c.want_read
    pub writes : r.1.want_write ≡ c.want_write
    pub less : r.2 ≡ true → length r.1.incoming < length c.incoming
    pub again : r.2 ≡ false → (try_one_request on_request r.0 r.1).2 ≡ false
    pub stays : r.2 ≡ false → (r.1.incoming ≡ c.incoming) × (r.1.outgoing ≡ c.outgoing)

  try_one_request-Tried : (s : S) (c : Conn) → Tried s c (try_one_request on_request s c)
  unfolding try_one_request
  try_one_request-Tried s c = elim (Option-cases (read_u32 c.incoming)) [
    | inl e ↦
        rw (try_one_request, e)
          (record {
            reads = refl;
            writes = refl;
            less = λ h. absurd cc;
            again = λ h. rw (try_one_request, e) refl;
            stays = λ h. (refl, refl);
          })
    | inr ((len, request), e) ↦ elim (Bool-cases (ltb k_max_msg len)) [
      | inl long ↦
          rw (try_one_request, e, long)
            (record {
              reads = refl;
              writes = refl;
              less = λ h. absurd cc;
              again = λ h. rw (try_one_request, e, long) refl;
              stays = λ h. (refl, refl);
            })
      | inr fits ↦ elim (Bool-cases (ltb (length c.incoming) (4 + len))) [
        | inl short ↦
            rw (try_one_request, e, fits, short)
              (record {
                reads = refl;
                writes = refl;
                less = λ h. absurd cc;
                again = λ h. rw (try_one_request, e, fits, short) refl;
                stays = λ h. (refl, refl);
              })
        | inr whole ↦ elim (Option-cases (parse_req (take len request))) [
          | inl bad ↦
              rw (try_one_request, e, fits, whole, bad)
                (record {
                  reads = refl;
                  writes = refl;
                  less = λ h. absurd cc;
                  again = λ h. rw (try_one_request, e, fits, whole, bad) refl;
                  stays = λ h. (refl, refl);
                })
          | inr (cmd, good) ↦
              rw (try_one_request, e, fits, whole, good)
                (record {
                  reads = refl;
                  writes = refl;
                  less = λ h. ground (arith, length-drop (4 + len) c.incoming, whole);
                  again = λ h. absurd cc;
                  stays = λ h. absurd cc;
                })
        ]
      ]
    ]
  ]

  -- The loop over requests ends: with as much fuel as there are bytes, the test for a further request
  -- fails in the state that it leaves.
  pub request_loop-ends :
      (fuel : ℕ) (s : S) (c : Conn)
      → length c.incoming ≤ fuel
      → let (s', c') = request_loop on_request fuel s c in
        (try_one_request on_request s' c').2 ≡ false
  unfolding request_loop
  request_loop-ends zero s c enough = elim (Bool-cases (try_one_request on_request s c).2) [
    | inl more ↦ absurd (omega (arith, enough, (try_one_request-Tried s c).less more))
    | inr stop ↦ stop
  ]
  request_loop-ends (suc fuel) s c enough = elim (Bool-cases (try_one_request on_request s c).2) [
    | inl more ↦
        let r = try_one_request on_request s c in
        rw (request_loop, more)
          (request_loop-ends fuel r.0 r.1
            (omega (arith, enough, (try_one_request-Tried s c).less more)))
    | inr stop ↦ rw (request_loop, stop) ((try_one_request-Tried s c).again stop)
  ]

  request_loop-keeps :
      (fuel : ℕ) (s : S) (c : Conn)
      → ((request_loop on_request fuel s c).1.want_read ≡ c.want_read)
        × ((request_loop on_request fuel s c).1.want_write ≡ c.want_write)
  unfolding request_loop
  request_loop-keeps zero s c = (refl, refl)
  request_loop-keeps (suc fuel) s c =
      let r = try_one_request on_request s c in
      let t = try_one_request-Tried s c in
      let (read, write) = request_loop-keeps fuel r.0 r.1 in
      elim (Bool-cases r.2) [
        | inl more ↦ rw (request_loop, more) (read ∙ t.reads, write ∙ t.writes)
        | inr stop ↦ rw (request_loop, stop) (t.reads, t.writes)
      ]

  -- A connection that waits to read and has no output, once `read` has returned, its requests are
  -- answered and a `write` was tried, waits to write exactly if output is left, and otherwise to read.
  pub handle_read-IsWaiting :
      (s : S) (c : Conn) (r : ReadResult) (w : WriteResult)
      → IsWaiting c
      → is_empty c.outgoing ≡ true
      → IsWaiting (handle_read on_request s c r w).1
  unfolding handle_read
  handle_read-IsWaiting s c read_again w v e = v
  handle_read-IsWaiting s c read_failed w v e = record { writes = v.writes; reads = v.reads }
  handle_read-IsWaiting s c read_closed w v e = record { writes = v.writes; reads = v.reads }
  handle_read-IsWaiting s c (read_some buf) w v e =
      let fed : Conn = record c { incoming = c.incoming ++ buf } in
      let (reads, writes) = request_loop-keeps (length fed.incoming) s fed in
      let out = (request_loop on_request (length fed.incoming) s fed).1 in
      flush-IsWaiting out w (λ none_left. record {
        writes = writes ∙ v.writes ∙ ap not (e ∙ sym none_left);
        reads = reads ∙ v.reads ∙ e ∙ sym none_left;
      })
