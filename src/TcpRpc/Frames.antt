-- ===== src/TcpRpc/Frames.antt =====
-- A remote call sends the whole request and receives one whole frame, however the calls cut them
-- (src/tcp_rpc.cpp).
use apex_db.Prelude.{
  ℕ, zero, suc, ◌+◌, ◌-◌, ◌≤◌, ◌<◌, ◌≡◌, refl, sym, ◌∙◌, ap, ap₂, subst, append-nil, true, false,
  Bool-cases, inl, inr, List, [], ◌∷◌, ◌++◌, Option, none, some, arith, ltb, ltb→lt, lt→ltb, length,
  length-append, length-take, length-drop, take, drop, take-append-drop, take-append, drop-append,
  append_assoc, ◌||◌,
}
use apex_db.Bytes.{Bytes, read_u32, le32, read_u32-le32}
use apex_db.Protocol.{k_max_msg}
use apex_db.TcpRpc.{
  Moved, interrupted, ended, moved, smaller, Input, after_bytes, read_full, write_full, read_reply,
  tcp_rpc_raw,
}

-- Some bytes were read: as many as were asked for, from the start of the stream.
abbrev pub IsRead : Bytes → ℕ → Option Input → Type 0
IsRead stream n none = Unit
IsRead stream n (some (bytes, _, rest)) = (stream ≡ bytes ++ rest) × (length bytes ≡ n)

part :
    (k n size : ℕ)
    → (0 < smaller (smaller k (suc n)) size)
    → (smaller (smaller k (suc n)) size ≤ suc n) × (smaller (smaller k (suc n)) size ≤ size)
unfolding smaller
part k n size h = ground arith

after-IsRead :
    (stream : Bytes) (rv n : ℕ) (o : Option Input)
    → rv ≤ suc n
    → rv ≤ length stream
    → IsRead (drop rv stream) (suc n - rv) o
    → IsRead stream (suc n) (after_bytes (take rv stream) o)
after-IsRead stream rv n none h k r = tt
after-IsRead stream rv n (some (more, results, rest)) h k r = (
  sym (take-append-drop rv stream)
      ∙ ap (◌++◌ (take rv stream)) r.0
      ∙ sym (append_assoc (take rv stream) more rest),
  omega (arith, length-append (take rv stream) more, length-take rv stream, r.1),
)

read_full-IsRead :
    (results : List Moved) (stream : Bytes) (n : ℕ) → IsRead stream n (read_full results stream n)
unfolding read_full
read_full-IsRead results stream zero = (refl, refl)
read_full-IsRead [] stream (suc n) = tt
read_full-IsRead (interrupted ∷ results) stream (suc n) = read_full-IsRead results stream (suc n)
read_full-IsRead (ended ∷ results) stream (suc n) = tt
read_full-IsRead (moved k ∷ results) stream (suc n) =
    let rv = smaller (smaller k (suc n)) (length stream) in
    elim (Bool-cases (ltb 0 rv)) [
      | inr stop ↦ rw stop tt
      | inl go ↦
          let (a, b) = part k n (length stream) (ltb→lt 0 rv go) in
          rw go (
            after-IsRead stream rv n (read_full results (drop rv stream) (suc n - rv)) a b
              (read_full-IsRead results (drop rv stream) (suc n - rv)))
    ]

-- How many calls move something before one fails or finds the end.
abbrev pub useful : List Moved → ℕ
useful [] = 0
useful (interrupted ∷ results) = useful results
useful (ended ∷ results) = 0
useful (moved zero ∷ results) = 0
useful (moved (suc k) ∷ results) = 1 + useful results

-- With as many calls as bytes, and as many bytes, the reading comes to its end.
Completed : ℕ → List Moved → Option Input → Type 0
Completed n results o = (r : Input) × (o ≡ some r) × (useful results ≤ useful r.1 + n)

some_part : (k n size : ℕ) → suc n ≤ size → 0 < smaller (smaller (suc k) (suc n)) size
unfolding smaller
some_part k n size h = ground arith

read_full-Completed :
    (results : List Moved) (stream : Bytes) (n : ℕ)
    → n ≤ useful results
    → n ≤ length stream
    → Completed n results (read_full results stream n)
unfolding read_full Completed
read_full-Completed results stream zero h k = (([], results, stream), refl, omega arith)
read_full-Completed [] stream (suc n) h k = absurd (omega arith)
read_full-Completed (interrupted ∷ results) stream (suc n) h k =
    read_full-Completed results stream (suc n) h k
read_full-Completed (ended ∷ results) stream (suc n) h k = absurd (omega arith)
read_full-Completed (moved zero ∷ results) stream (suc n) h k = absurd (omega arith)
read_full-Completed (moved (suc m) ∷ results) stream (suc n) h k =
    let rv = smaller (smaller (suc m) (suc n)) (length stream) in
    let pos = some_part m n (length stream) k in
    let (a, b) = part (suc m) n (length stream) pos in
    let go : ltb 0 rv ≡ true = lt→ltb 0 rv pos in
    let (r, e, u) =
      read_full-Completed results (drop rv stream) (suc n - rv) (omega (arith, h, pos))
        (omega (arith, k, b, length-drop rv stream)) in
    rw (go, e) ((take rv stream ++ r.0, r.1, r.2), refl, omega (arith, u, a, pos))

write_full-useful :
    (results : List Moved) (buf : Bytes)
    → length buf ≤ useful results
    → (left : List Moved) × (write_full results buf ≡ (buf, some left))
unfolding write_full smaller
write_full-useful results [] h = (results, refl)
write_full-useful [] (b ∷ buf) h = absurd (omega arith)
write_full-useful (interrupted ∷ results) (b ∷ buf) h = write_full-useful results (b ∷ buf) h
write_full-useful (ended ∷ results) (b ∷ buf) h = absurd (omega arith)
write_full-useful (moved zero ∷ results) (b ∷ buf) h = absurd (omega arith)
write_full-useful (moved (suc k) ∷ results) (b ∷ buf) h =
    let rv = smaller (suc k) (length (b ∷ buf)) in
    let go : ltb 0 rv ≡ true = ground arith in
    let (left, e) =
      write_full-useful results (drop rv (b ∷ buf))
        (omega (arith, h, length-drop rv (b ∷ buf), ltb→lt 0 rv go)) in
    (left, rw (go, e) (ap (λ s. (s, some left)) (take-append-drop rv (b ∷ buf))))

-- The part of a stream that is read is the frame at its start.
same_start :
    {A : Type 0} (xs ys : List A) (ws zs : List A)
    → xs ++ ws ≡ ys ++ zs
    → length xs ≡ length ys
    → (xs ≡ ys) × (ws ≡ zs)
same_start xs ys ws zs e h = (
  sym (take-append xs ws)
      ∙ ap (take (length xs)) e
      ∙ ap (λ n. take n (ys ++ zs)) h
      ∙ take-append ys zs,
  sym (drop-append xs ws)
      ∙ ap (drop (length xs)) e
      ∙ ap (λ n. drop n (ys ++ zs)) h
      ∙ drop-append ys zs,
)

read_full_exact :
    (results : List Moved) (bytes rest : Bytes)
    → length bytes ≤ useful results
    → (left : List Moved) × (read_full results (bytes ++ rest) (length bytes)
        ≡ some (bytes, left, rest))
      × (useful results ≤ useful left + length bytes)
unfolding Completed
read_full_exact results bytes rest h =
    let ((read, left, after), e, u) =
      read_full-Completed results (bytes ++ rest) (length bytes) h
        (omega (arith, length-append bytes rest)) in
    let (order, size) =
      subst (IsRead (bytes ++ rest) (length bytes)) e
        (read_full-IsRead results (bytes ++ rest) (length bytes)) in
    let (a, b) = same_start bytes read rest after order (sym size) in
    (left, e ∙ ap₂ (λ x y. some (x, left, y)) (sym a) (sym b), u)

-- If the calls move something often enough, an endpoint that was reached gets the whole of a
-- request of a length that the protocol allows, and its whole frame, of at most `k_max_msg` bytes,
-- comes back, wherever the calls cut the two.
pub tcp_rpc_raw_complete :
    (sends reads : List Moved) (request body rest : Bytes)
    → 4 ≤ length request
    → length request ≤ 4 + k_max_msg
    → length request ≤ useful sends
    → length body ≤ k_max_msg
    → 4 + length body ≤ useful reads
    → tcp_rpc_raw true sends reads (le32 (length body) ++ (body ++ rest)) request
      ≡ (request, some (le32 (length body) ++ body))
unfolding tcp_rpc_raw read_reply
tcp_rpc_raw_complete sends reads request body rest a b c d e =
    let (left, w) = write_full-useful sends request c in
    let (after, r, u) = read_full_exact reads (le32 (length body)) (body ++ rest) (omega arith) in
    let (last, r', _) = read_full_exact after body rest (omega (arith, u)) in
    let fits : (ltb (length request) 4 || ltb k_max_msg (length request - 4)) ≡ false =
      ground arith in
    let small : ltb k_max_msg (length body) ≡ false = ground arith in
    let header : read_full reads (le32 (length body) ++ (body ++ rest)) 4
        ≡ some (le32 (length body), after, body ++ rest) =
      r in
    let len : read_u32 (le32 (length body)) ≡ some (length body, []) =
      ap read_u32 (sym (append-nil (le32 (length body))))
      ∙ read_u32-le32 (length body) [] (omega (arith, d)) in
    rw (tcp_rpc_raw, fits, w, read_reply, header, len, r', small) refl
