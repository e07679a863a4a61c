-- ===== src/ServerLoop/Requests.antt =====
-- Which requests a connection answers, and when it waits to read or to write.
use apex_db.Prelude.{
  ℕ, zero, suc, ◌+◌, ◌%◌, ◌/◌, ◌≤◌, ◌<◌, ◌≡◌, refl, sym, ◌∙◌, ap, Bool, true, false, ◌&&◌, Option,
  none, some, List, [], ◌∷◌, ◌++◌, arith, ltb, leb, length, drop, take-append, drop-append,
  length-append, Option-cases, inl, inr, All,
}
use apex_db.Bytes.{Bytes, read_u32, le32, read_u32-le32}
use apex_db.Protocol.{k_max_msg, parse_req, encode_request, response_begin}
use apex_db.Protocol.Requests.{
  Fits, body_size, encode_request-Fits, length-encode_args, parse_req-encode_request,
}
use apex_db.Protocol.Responses.{sent_body, response_end-response_begin}
use apex_db.ServerLoop.Flush.{unsent, flush_lem}
use apex_db.ServerLoop.{
  Conn, try_one_request, request_loop, handle_read, WriteResult, read_some, flush, answer,
}

drop_four : (n a b c d : ℕ) (rest : Bytes) → drop (4 + n) (a ∷ b ∷ c ∷ d ∷ rest) ≡ drop n rest
drop_four n a b c d rest = let four : 4 + n ≡ suc (suc (suc (suc n))) = omega arith in rw four refl

drop_frame :
    (n : ℕ) (body rest : Bytes) → length body ≡ n → drop (4 + n) (le32 n ++ body ++ rest) ≡ rest
drop_frame n body rest e =
    drop_four n (n % 256) (n / 256 % 256) (n / 65536 % 256) (n / 16777216 % 256) (body ++ rest)
    ∙ rw (sym e) (drop-append body rest)

-- A request's frame: its body is accepted, and the length stands before it.
framed_body :
    (cmd : List Bytes)
    → Fits cmd
    → (encode_request cmd ≡ le32 (body_size cmd) ++ drop 4 (encode_request cmd))
      × (length (drop 4 (encode_request cmd)) ≡ body_size cmd)
framed_body cmd h = rw (encode_request-Fits cmd h) (refl, omega (arith, length-encode_args cmd))

split_frame :
    (frame body rest incoming : Bytes) (n : ℕ)
    → frame ≡ le32 n ++ body
    → length body ≡ n
    → incoming ≡ frame ++ rest
    → incoming ≡ le32 (length body) ++ body ++ rest
split_frame frame body rest incoming n f size e = rw size (e ∙ ap (λ x. x ++ rest) f)

abbrev pub waiting : Option (ℕ × Bytes) → ℕ → Bool
waiting none size = true
waiting (some (len, _)) size = leb len k_max_msg && ltb size (4 + len)

-- A beginning of a frame that is not too long.
abbrev pub waits : Bytes → Bool
waits rest = waiting (read_u32 rest) (length rest)

-- Frames one after the other, and the beginning of one more.
abbrev pub frames : List (List Bytes) → Bytes → Bytes
frames [] rest = rest
frames (cmd ∷ cmds) rest = encode_request cmd ++ frames cmds rest

module _ {S : Type 0} (step : S → List Bytes → S) (reply : S → List Bytes → Bytes) where
  -- The output with the frame of a reply.
  abbrev pub with_reply : Bytes → S → List Bytes → Bytes
  with_reply out s cmd = out ++ le32 (length (sent_body (reply s cmd))) ++ sent_body (reply s cmd)

  -- The state and the output after a list of requests.
  abbrev pub after_requests : S → List (List Bytes) → S
  after_requests s [] = s
  after_requests s (cmd ∷ cmds) = after_requests (step s cmd) cmds

  abbrev pub replies : Bytes → S → List (List Bytes) → Bytes
  replies out s [] = out
  replies out s (cmd ∷ cmds) = replies (with_reply out s cmd) (step s cmd) cmds

module _ {S : Type 0} (on_request : S → List Bytes → Bytes → S × Bytes) (step : S → List Bytes → S)
    (reply : S → List Bytes → Bytes)
    (appends : (s : S) (cmd : List Bytes) (out : Bytes)
      → on_request s cmd out ≡ (step s cmd, out ++ reply s cmd)) where
  answer_lem :
      (s : S) (c : Conn) (len : ℕ) (cmd : List Bytes)
      → answer on_request s c len cmd ≡ (
        step s cmd,
        record c {
          incoming = drop (4 + len) c.incoming;
          outgoing = with_reply step reply c.outgoing s cmd;
        },
        true,
      )
  answer_lem s c len cmd =
      rw
        (
          appends s cmd (response_begin c.outgoing).0,
          (response_end-response_begin c.outgoing (reply s cmd)).0,
        )
        refl

  -- A body that is accepted, after its length.
  try_framed :
      (s : S) (c : Conn) (cmd : List Bytes) (body rest : Bytes)
      → length body ≤ k_max_msg
      → parse_req body ≡ some cmd
      → c.incoming ≡ le32 (length body) ++ body ++ rest
      → try_one_request on_request s c ≡ answer on_request s c (length body) cmd
  unfolding try_one_request
  try_framed s c cmd body rest small parsed e =
      let long : length c.incoming ≡ 4 + (length body + length rest) =
        rw e (omega (arith, length-append body rest)) in
      let fits : ltb k_max_msg (length body) ≡ false = ground arith in
      let whole : ltb (length c.incoming) (4 + length body) ≡ false = ground (arith, long) in
      let header : read_u32 c.incoming ≡ some (length body, body ++ rest) =
        rw e (read_u32-le32 (length body) (body ++ rest) (omega arith)) in
      rw (try_one_request, header, fits, whole, take-append body rest, parsed) refl

  pub try_one_request_lem :
      (s : S) (c : Conn) (cmd : List Bytes) (rest : Bytes)
      → Fits cmd
      → c.incoming ≡ encode_request cmd ++ rest
      → try_one_request on_request s c ≡ (
        step s cmd,
        record c { incoming = rest; outgoing = with_reply step reply c.outgoing s cmd },
        true,
      )
  try_one_request_lem s c cmd rest h e =
      let (frame, size) = framed_body cmd h in
      let body = drop 4 (encode_request cmd) in
      let whole : c.incoming ≡ le32 (length body) ++ body ++ rest =
        split_frame (encode_request cmd) body rest c.incoming (body_size cmd) frame size e in
      try_framed s c cmd body rest (omega (arith, size)) (parse_req-encode_request cmd h).1 whole
      ∙ answer_lem s c (length body) cmd
      ∙ ap
          (λ (x : Bytes). (
            step s cmd,
            record c { incoming = x; outgoing = with_reply step reply c.outgoing s cmd },
            true,
          ))
          (ap (drop (4 + length body)) whole ∙ drop_frame (length body) body rest refl)

  wait_lem :
      (s : S) (c : Conn) → waits c.incoming ≡ true → try_one_request on_request s c ≡ (s, c, false)
  unfolding try_one_request
  wait_lem s c w = elim (Option-cases (read_u32 c.incoming)) [
    | inl e ↦ rw (try_one_request, e) refl
    | inr ((len, request), e) ↦
        let test : (leb len k_max_msg && ltb (length c.incoming) (4 + len)) ≡ true =
          sym (ap (λ o. waiting o (length c.incoming)) e) ∙ w in
        let fits : ltb k_max_msg len ≡ false = ground arith in
        let short : ltb (length c.incoming) (4 + len) ≡ true = ground arith in
        rw (try_one_request, e, fits, short) refl
  ]

  longer :
      (cmd : List Bytes) (rest : Bytes)
      → Fits cmd
      → length rest < length (encode_request cmd ++ rest)
  longer cmd rest h =
      let (frame, size) = framed_body cmd h in
      let long : length (encode_request cmd) ≡ 4 + length (drop 4 (encode_request cmd)) =
        ap length frame ∙ omega arith in
      omega (arith, long, length-append (encode_request cmd) rest)

  -- The requests that have come whole are answered in their order, one frame each, and what is left is
  -- the input for which the test of a further request fails.
  pub request_loop_lem :
      (fuel : ℕ) (s : S) (c : Conn) (cmds : List (List Bytes)) (rest : Bytes)
      → All Fits cmds
      → length c.incoming ≤ fuel
      → c.incoming ≡ frames cmds rest
      → waits rest ≡ true
      → request_loop on_request fuel s c ≡ (
        after_requests step reply s cmds,
        record c { incoming = rest; outgoing = replies step reply c.outgoing s cmds },
      )
  unfolding request_loop
  request_loop_lem zero s c [] rest fit enough e w =
      ap (λ (x : Bytes). (s, record c { incoming = x })) e
  request_loop_lem zero s c (cmd ∷ cmds) rest fit enough e w =
      absurd (omega (arith, enough, ap length e, longer cmd (frames cmds rest) fit.0))
  request_loop_lem (suc fuel) s c [] rest fit enough e w =
      rw (request_loop, wait_lem s c (ap waits e ∙ w))
        (ap (λ (x : Bytes). (s, record c { incoming = x })) e)
  request_loop_lem (suc fuel) s c (cmd ∷ cmds) rest fit enough e w =
      let c' : Conn = record c {
        incoming = frames cmds rest;
        outgoing = with_reply step reply c.outgoing s cmd;
      } in
      let less : length (frames cmds rest) ≤ fuel =
        omega (arith, enough, ap length e, longer cmd (frames cmds rest) fit.0) in
      rw (request_loop, try_one_request_lem s c cmd (frames cmds rest) fit.0 e)
        (request_loop_lem fuel (step s cmd) c' cmds rest fit.1 less refl w)

  handle_read-flush :
      (s : S) (c : Conn) (buf : Bytes) (w : WriteResult) (cmds : List (List Bytes)) (rest : Bytes)
      → All Fits cmds
      → c.incoming ++ buf ≡ frames cmds rest
      → waits rest ≡ true
      → handle_read on_request s c (read_some buf) w ≡ (
        after_requests step reply s cmds,
        flush (record c { incoming = rest; outgoing = replies step reply c.outgoing s cmds }) w,
      )
  unfolding handle_read
  handle_read-flush s c buf w cmds rest fit e more =
      let fed : Conn = record c { incoming = c.incoming ++ buf } in
      rw
        (
          handle_read,
          request_loop_lem (length fed.incoming) s fed cmds rest fit (omega arith) e more,
        )
        refl

  -- When bytes come that complete the frames of some requests and begin at most one more, which
  -- is not too long, exactly these requests are answered, in their order and each by one frame,
  -- and the rest of the bytes stays. Then the output is written: as many bytes as `write` takes
  -- go from its front, and the others stay. The handler of requests is assumed to append its
  -- reply to the output.
  pub handle_read_lem :
      (s : S) (c : Conn) (buf : Bytes) (w : WriteResult) (cmds : List (List Bytes)) (rest : Bytes)
      → All Fits cmds
      → c.incoming ++ buf ≡ frames cmds rest
      → waits rest ≡ true
      → (handle_read on_request s c (read_some buf) w ≡ (
        after_requests step reply s cmds,
        flush (record c { incoming = rest; outgoing = replies step reply c.outgoing s cmds }) w,
      ))
        × ((handle_read on_request s c (read_some buf) w).1.incoming ≡ rest)
        × ((handle_read on_request s c (read_some buf) w).1.outgoing
            ≡ unsent w (replies step reply c.outgoing s cmds))
  handle_read_lem s c buf w cmds rest fit e more =
      let answered : Conn = record c {
        incoming = rest;
        outgoing = replies step reply c.outgoing s cmds;
      } in
      let whole = handle_read-flush s c buf w cmds rest fit e more in
      (
        whole,
        ap (λ (r : S × Conn). r.1.incoming) whole ∙ (flush_lem answered w).0,
        ap (λ (r : S × Conn). r.1.outgoing) whole ∙ (flush_lem answered w).1,
      )
