-- ===== src/Protocol/Requests.antt =====
-- Request frames: `encode_request` and `parse_req` are inverse to each other.
use apex_db.Prelude.{
  ℕ, zero, suc, ◌+◌, ◌%◌, ◌^◌, ◌≤◌, ◌<◌, ◌≡◌, refl, sym, ap, ◌∙◌, ◌↔◌, none, some, List, [], ◌∷◌,
  ◌++◌, arith, ltb, if◌then◌else◌, >>=-eq-some, Option-cases, inl, inr, ap₂, subst, length-take,
  length, drop, append_assoc, append-nil, length-append, take-append, drop-append, le→ltb,
  take-append-drop, All-append,
}
use apex_db.Bytes.{Bytes, IsBytes, le32, read_u32, read_u32-le32, le32-read_u32}
use apex_db.Protocol.{
  k_max_msg, k_max_args, read_str, read_args, at_end, parse_req, request_length, encode_args,
  encode_request,
}

-- The length of a request's arguments as they are sent.
abbrev pub args_size : List Bytes → ℕ
args_size [] = 0
args_size (s ∷ cmd) = 4 + length s + args_size cmd

pub length-encode_args : (cmd : List Bytes) → length (encode_args cmd) ≡ args_size cmd
unfolding encode_args
length-encode_args [] = refl
length-encode_args (s ∷ cmd) =
    omega (arith, length-append s (encode_args cmd), length-encode_args cmd)

pub read_str-append : (s rest : Bytes) → read_str (length s) (s ++ rest) ≡ some (s, rest)
unfolding read_str
read_str-append s rest = rw (
  le→ltb (length (s ++ rest)) (length s) (omega (arith, length-append s rest)),
  take-append,
  drop-append,
)

read_args-encode_args :
    (cmd : List Bytes) (out : List Bytes)
    → args_size cmd < 2 ^ 32
    → read_args (length cmd) (encode_args cmd) out ≡ some (out ++ cmd, [])
unfolding read_args encode_args
read_args-encode_args [] out h = rw append-nil
read_args-encode_args (s ∷ cmd) out h = rw (
  read_u32-le32 (length s) (s ++ encode_args cmd) (omega arith),
  read_str-append s (encode_args cmd),
  read_args-encode_args cmd (out ++ s ∷ []) (omega arith),
  append_assoc,
)

-- Without wrapping, the loop adds up the size, and it stops exactly when the size is too large.
request_length_lem :
    (cmd : List Bytes) (len : ℕ)
    → 4 ≤ len
    → len ≤ k_max_msg
    → request_length cmd len
      ≡ (if ltb k_max_msg (len + args_size cmd) then none else some (len + args_size cmd))
unfolding request_length
request_length_lem [] len lo h = ground arith
request_length_lem (s ∷ cmd) len lo h = ground (
  arith,
  request_length_lem cmd (len + (4 + length s)),
  request_length_lem cmd ((len + (4 + length s % 2 ^ 32)) % 2 ^ 32),
)

-- The size of a request's body.
abbrev pub body_size : List Bytes → ℕ
body_size cmd = 4 + args_size cmd

abbrev pub Fits : List Bytes → Type 0
Fits cmd = (length cmd ≤ k_max_args) × (body_size cmd ≤ k_max_msg)

pub encode_request-Fits :
    (cmd : List Bytes)
    → Fits cmd
    → encode_request cmd ≡ le32 (body_size cmd) ++ le32 (length cmd) ++ encode_args cmd
unfolding encode_request
encode_request-Fits cmd h = ground (arith, request_length_lem cmd 4)

-- A request of more than `k_max_args` arguments, or with a body of more than `k_max_msg` bytes, and
-- no other, is encoded as the empty buffer.
pub encode_request_empty_iff : (cmd : List Bytes) → (encode_request cmd ≡ []) ↔ (¬ Fits cmd)
unfolding encode_request
encode_request_empty_iff cmd =
    (λ e f. cc (encode_request-Fits cmd f), λ f. ground (arith, request_length_lem cmd 4))

-- The frame of a request that fits begins with the length of what follows, and `parse_req` reads
-- the request back from what follows.
pub parse_req-encode_request :
    (cmd : List Bytes)
    → Fits cmd
    → (read_u32 (encode_request cmd)
        ≡ some (length (drop 4 (encode_request cmd)), drop 4 (encode_request cmd)))
      × (parse_req (drop 4 (encode_request cmd)) ≡ some cmd)
unfolding parse_req
parse_req-encode_request cmd h = rw (encode_request-Fits cmd h) (
  ground (
    arith,
    read_u32-le32 (body_size cmd) (le32 (length cmd) ++ encode_args cmd),
    length-encode_args cmd,
  ),
  ground (
    arith,
    read_u32-le32 (length cmd) (encode_args cmd),
    read_args-encode_args cmd [],
    length-encode_args cmd,
  ),
)

read_str_sound :
    (n : ℕ) (cur s rest : Bytes)
    → read_str n cur ≡ some (s, rest)
    → (cur ≡ s ++ rest) × (length s ≡ n)
unfolding read_str
read_str_sound n cur s rest e = ground (arith, take-append-drop n cur, length-take n cur)

encode_args-cons :
    (cur cur₁ cur₂ s rest : Bytes) (cmd : List Bytes) (len : ℕ)
    → cur ≡ le32 len ++ cur₁
    → cur₁ ≡ s ++ cur₂
    → length s ≡ len
    → cur₂ ≡ encode_args cmd ++ rest
    → cur ≡ encode_args (s ∷ cmd) ++ rest
unfolding encode_args
encode_args-cons cur cur₁ cur₂ s rest cmd len p q l e = rw (p, q, ← l, e, append_assoc)

read_args_sound :
    (n : ℕ) (cur : Bytes) (out : List Bytes) {r : List Bytes} {rest : Bytes}
    → IsBytes cur
    → read_args n cur out ≡ some (r, rest)
    → (cmd : List Bytes) × (r ≡ out ++ cmd) × (length cmd ≡ n) × (cur ≡ encode_args cmd ++ rest)
unfolding read_args encode_args
read_args_sound zero cur out b e = ([], rw append-nil (cc), refl, cc)
read_args_sound (suc n) cur out {r} {rest} b e =
    let ((len, cur₁), word, e₁) = >>=-eq-some (read_u32 cur) _ e in
    let ((s, cur₂), str, e₂) = >>=-eq-some (read_str len cur₁) _ e₁ in
    let (split, size) = read_str_sound len cur₁ s cur₂ str in
    let (head, small, b₁) = le32-read_u32 cur len cur₁ b word in
    let (_, b₂) = All-append _ s cur₂ (subst IsBytes split b₁) in
    let (cmd, r-eq, n-eq, cur-eq) = read_args_sound n cur₂ (out ++ s ∷ []) b₂ e₂ in
    (
      s ∷ cmd,
      rw append_assoc at r-eq,
      ap suc n-eq,
      encode_args-cons cur cur₁ cur₂ s rest cmd len head split size cur-eq,
    )

at_end-eq-some : (r : List Bytes × Bytes) {cmd : List Bytes} → at_end r ≡ some cmd → r ≡ (cmd, [])
at_end-eq-some (out, []) e = ground arith
at_end-eq-some (out, x ∷ xs) e = cc

parse_req-inv :
    (bytes : Bytes) {cmd : List Bytes}
    → parse_req bytes ≡ some cmd
    → (n : ℕ) × (cur : Bytes) × (read_u32 bytes ≡ some (n, cur))
      × (read_args n cur [] ≡ some (cmd, []))
      × (n ≤ k_max_args)
      × (length bytes ≤ k_max_msg)
unfolding parse_req
parse_req-inv bytes {cmd} e = elim (Option-cases (read_u32 bytes)) [
  | inl refused ↦ absurd (ground arith)
  | inr ((n, cur), word) ↦ elim (Option-cases (read_args n cur [])) [
    | inl refused ↦ absurd (ground arith)
    | inr (r, args) ↦
        let done : at_end r ≡ some cmd = ground arith in
        (n, cur, word, args ∙ ap some (at_end-eq-some r done), ground arith, ground arith)
  ]
]

-- A body that `parse_req` accepts is the body of exactly one request: encoding what was parsed gives
-- the length of the body, then the body itself.
pub encode_request-parse_req :
    (bytes : Bytes) {cmd : List Bytes}
    → IsBytes bytes
    → parse_req bytes ≡ some cmd
    → encode_request cmd ≡ le32 (length bytes) ++ bytes
encode_request-parse_req bytes {cmd} b e =
    let (n, cur, word, args, few, short) = parse_req-inv bytes e in
    let (head, small, b₁) = le32-read_u32 bytes n cur b word in
    let (got, same, count, split) = read_args_sound n cur [] b₁ args in
    let whole : bytes ≡ le32 (length cmd) ++ encode_args cmd =
      head
      ∙ ap₂ (λ k r. le32 k ++ r) (sym count ∙ ap length (sym same))
          (split ∙ append-nil (encode_args got) ∙ ap encode_args (sym same)) in
    let size : length bytes ≡ body_size cmd =
      omega (arith, ap length whole, length-encode_args cmd) in
    let lengths : length cmd ≡ n = ap length same ∙ count in
    encode_request-Fits cmd (omega arith, omega arith)
    ∙ ap₂ (λ k r. le32 k ++ r) (sym size) (sym whole)
