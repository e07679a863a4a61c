-- ===== src/Protocol/Responses.antt =====
-- Response frames: what `response_begin` and `response_end` put around the value that a handler
-- appends, and what `out_begin_arr` and `out_end_arr` put around the elements of an array.
use apex_db.Prelude.{
  ℕ, ◌+◌, ◌-◌, ◌≤◌, ◌≡◌, refl, [], ◌∷◌, inl, inr, Bool-cases, ltb→le, ◌++◌, arith, ltb,
  if◌then◌else◌, length, take, drop, append_assoc, length-append, take-append, drop-append,
}
use apex_db.Bytes.{Bytes, le32}
use apex_db.Protocol.{
  k_max_msg, err_too_big, out_err, out_arr, out_begin_arr, out_end_arr, overwrite, response_begin,
  response_size, response_end, too_big_message,
}

drop-append_past : (a b c : Bytes) → drop (length a + length b) (a ++ b ++ c) ≡ c
drop-append_past a b c =
    let h : length (a ++ b) ≡ length a + length b = length-append a b in
    rw (← h) (drop-append (a ++ b) c)

-- The write replaces as many bytes as it puts in.
overwrite-append :
    (a b b' c : Bytes) → length b ≡ length b' → overwrite (a ++ b ++ c) (length a) b' ≡ a ++ b' ++ c
unfolding overwrite
overwrite-append a b b' c h =
    rw (← h, drop-append_past a b c, append_assoc a b c, take-append a (b ++ c))

-- The body that is sent: a body of more than `k_max_msg` bytes gives way to an error.
abbrev pub sent_body : Bytes → Bytes
sent_body body =
    if ltb k_max_msg (length body) then out_err [] err_too_big too_big_message else body

response_size_framed :
    (out body : Bytes) → response_size (out ++ le32 0 ++ body) (length out) ≡ length body
unfolding response_size
response_size_framed out body =
    omega (arith, length-append out (le32 0), length-append (out ++ le32 0) body)

take_framed : (out body : Bytes) → take (length out + 4) (out ++ le32 0 ++ body) ≡ out ++ le32 0
take_framed out body =
    let h : length (out ++ le32 0) ≡ length out + 4 = length-append out (le32 0) in
    rw (← h) (take-append (out ++ le32 0) body)

-- The length is written over the room that was left for it.
close_frame :
    (out body : Bytes)
    → overwrite
        (out ++ le32 0 ++ body)
        (length out)
        (le32 (response_size (out ++ le32 0 ++ body) (length out)))
      ≡ out ++ le32 (length body) ++ body
close_frame out body =
    rw (response_size_framed out body)
      (overwrite-append out (le32 0) (le32 (length body)) body refl)

-- Whatever a handler appends between `response_begin` and `response_end`, the buffer ends as it was
-- before, followed by one frame: the length of the sent body and that body, which fits a message.
pub response_end-response_begin :
    (out body : Bytes)
    → let (opened, header) = response_begin out in
      (response_end (opened ++ body) header
        ≡ out ++ le32 (length (sent_body body)) ++ sent_body body)
      × (length (sent_body body) ≤ k_max_msg)
unfolding response_end response_begin
response_end-response_begin out body = elim (Bool-cases (ltb k_max_msg (length body))) [
  | inl big ↦
      rw (response_size_framed out body, big, take_framed out body)
        (close_frame out (out_err [] err_too_big too_big_message), omega arith)
  | inr fits ↦ rw (response_size_framed out body, fits) (close_frame out body, ltb→le _ _ fits)
]

-- Closing an array gives the bytes of an array of the given count, with the elements that were
-- appended in between.
pub out_end_arr-out_begin_arr :
    (out elements : Bytes) (n : ℕ)
    → let (opened, ctx) = out_begin_arr out in
      out_end_arr (opened ++ elements) ctx n ≡ out_arr out n ++ elements
unfolding out_end_arr out_begin_arr out_arr
out_end_arr-out_begin_arr out elements n =
    let place : length (out ++ 5 ∷ le32 0) - 4 ≡ length (out ++ 5 ∷ []) =
      omega (arith, length-append out (5 ∷ le32 0), length-append out (5 ∷ [])) in
    rw (place, ← append_assoc out (5 ∷ []) (le32 0), ← append_assoc out (5 ∷ []) (le32 n))
      (overwrite-append (out ++ 5 ∷ []) (le32 0) (le32 n) elements refl)
