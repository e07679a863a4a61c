-- ===== src/ServerLoop.antt =====
-- One connection of the server (src/server_loop.cpp: `Conn`, `try_one_request`, `handle_read`,
-- `handle_write`). What `read` and `write` return is an argument, and `on_request` is a parameter.
pub mod Flush
pub mod Requests
pub mod Waiting
pub mod Idle
pub mod Timers
pub mod Deadlines
pub mod Poll
pub mod Connections
pub mod Serve
use apex_db.Prelude.{
  ℕ, zero, suc, ◌+◌, Bool, true, false, not, ◌&&◌, Option, none, some, List, [], ◌∷◌, ◌++◌, ltb,
  leb, if◌then◌else◌, length, take, drop,
}
use apex_db.Bytes.{Bytes, read_u32}
use apex_db.Protocol.{k_max_msg, parse_req, response_begin, response_end}

pub record Conn : Type 0 where
  pub incoming : Bytes
  pub outgoing : Bytes
  pub want_read : Bool
  pub want_write : Bool
  pub want_close : Bool

-- What `read` does: it would block or is interrupted, it fails, the peer has closed, or bytes come.
pub data ReadResult : Type 0 where
  read_again read_failed read_closed : ReadResult
  read_some : Bytes → ReadResult

pub data WriteResult : Type 0 where
  write_again write_failed : WriteResult
  wrote : ℕ → WriteResult

abbrev pub is_empty : Bytes → Bool
is_empty [] = true
is_empty (_ ∷ _) = false

abbrev pub close : Conn → Conn
close c = record c { want_close = true }

-- The end of `handle_write`, once bytes are gone.
abbrev pub after_write : Conn → Conn
after_write c = if is_empty c.outgoing then record c { want_read = true; want_write = false } else c

unfoldable pub handle_write : Conn → WriteResult → Conn
handle_write c write_again = c
handle_write c write_failed = close c
handle_write c (wrote n) = after_write (record c { outgoing = drop n c.outgoing })

-- The end of `handle_read`, with the result of the `write` that it tries.
abbrev pub flush : Conn → WriteResult → Conn
flush c w =
    if is_empty c.outgoing
    then c
    else handle_write (record c { want_read = false; want_write = true }) w

module _ {S : Type 0} (on_request : S → List Bytes → Bytes → S × Bytes) where
  -- The end of `try_one_request`, for a request whose body has `len` bytes.
  abbrev pub answer : S → Conn → ℕ → List Bytes → S × Conn × Bool
  answer s c len cmd =
      let (opened, header_pos) = response_begin c.outgoing in
      let (s', out) = on_request s cmd opened in
      (
        s',
        record c { incoming = drop (4 + len) c.incoming; outgoing = response_end out header_pos },
        true,
      )

  -- The result says whether a request was answered.
  unfoldable pub try_one_request : S → Conn → S × Conn × Bool
  try_one_request s c = elim (read_u32 c.incoming) [
    | none ↦ (s, c, false)
    | some (len, request) ↦
        let parsed : S × Conn × Bool = elim (parse_req (take len request)) [
          | none ↦ (s, close c, false)
          | some cmd ↦ answer s c len cmd
        ] in
        if ltb k_max_msg len
        then (s, close c, false)
        else if ltb (length c.incoming) (4 + len)
        then (s, c, false)
        else parsed
  ]

  -- `while (try_one_request(conn)) {}`. A round that goes on takes at least 4 bytes off `incoming`.
  unfoldable pub request_loop : ℕ → S → Conn → S × Conn
  request_loop zero s c = (s, c)
  request_loop (suc fuel) s c =
      let (s', c', more) = try_one_request s c in
      let rest = request_loop fuel s' c' in if more then rest else (s', c')

  unfoldable pub handle_read : S → Conn → ReadResult → WriteResult → S × Conn
  handle_read s c read_again w = (s, c)
  handle_read s c read_failed w = (s, close c)
  handle_read s c read_closed w = (s, close c)
  handle_read s c (read_some buf) w =
      let fed = record c { incoming = c.incoming ++ buf } in
      let (s', c') = request_loop (length fed.incoming) s fed in (s', flush c' w)
