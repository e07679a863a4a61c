-- ===== src/ServerLoop/Idle.antt =====
-- The connections of the server and their timers (src/server_loop.cpp: `handle_accept`, `conn_destroy`,
-- `next_timer_ms_combined`, `process_timers`; include/list.h). A connection and its node of the list of
-- idle connections are known by the file descriptor. The clock's readings are arguments.
use apex_db.Prelude.{
  ℕ, zero, suc, ◌+◌, ◌-◌, ◌*◌, ◌%◌, ◌^◌, true, false, List, [], ◌∷◌, ◌++◌, Option, none, some,
  length, get_or, set, replicate, ltb, leb, ◌==◌, if◌then◌else◌,
}
use apex_db.ServerLoop.{Conn}

abbrev pub k_idle_timeout_ms : ℕ
k_idle_timeout_ms = 5 * 1000

-- The fields of `Conn` that the timers use, and those of the exchange.
pub record Peer : Type 0 where
  pub conn : Conn
  pub last_active_ms : ℕ

-- `fd2conn`, and the descriptors on `idle_list`, the longest idle first.
pub record Server : Type 0 where
  pub fd2conn : List (Option Peer)
  pub idle_list : List ℕ

-- `Conn()` in `handle_accept`
abbrev pub new_conn : Conn
new_conn = record {
  incoming = [];
  outgoing = [];
  want_read = true;
  want_write = false;
  want_close = false;
}

-- `dlist_insert_before` of the list's head
abbrev pub dlist_insert_last : List ℕ → ℕ → List ℕ
dlist_insert_last idle fd = idle ++ fd ∷ []

-- `dlist_detach`
unfoldable pub dlist_detach : List ℕ → ℕ → List ℕ
dlist_detach [] fd = []
dlist_detach (x ∷ xs) fd = if x == fd then xs else x ∷ dlist_detach xs fd

-- `fd2conn.resize(fd + 1)` where it is shorter
abbrev pub resized : List (Option Peer) → ℕ → List (Option Peer)
resized fd2conn fd =
    if leb (length fd2conn) fd then fd2conn ++ replicate (fd + 1 - length fd2conn) none else fd2conn

-- `accept` gives a descriptor, one that no open connection has, or fails.
unfoldable pub handle_accept : Server → Option ℕ → ℕ → Server
handle_accept s none now_ms = s
handle_accept s (some fd) now_ms = record {
  fd2conn =
      set (resized s.fd2conn fd) fd (some (record { conn = new_conn; last_active_ms = now_ms }));
  idle_list = dlist_insert_last s.idle_list fd;
}

unfoldable pub conn_destroy : Server → ℕ → Server
conn_destroy s fd = record {
  fd2conn = set s.fd2conn fd none;
  idle_list = dlist_detach s.idle_list fd;
}

abbrev pub peer_at : Server → ℕ → Option Peer
peer_at s fd = get_or s.fd2conn fd none

abbrev pub last_active_of : Option Peer → ℕ
last_active_of none = 0
last_active_of (some peer) = peer.last_active_ms

-- `conn->last_active_ms + k_idle_timeout_ms`
abbrev pub deadline_of : Server → ℕ → ℕ
deadline_of s fd = (last_active_of (peer_at s fd) + k_idle_timeout_ms) % 2 ^ 64

-- The loop of `process_timers`: a round takes a connection off the list.
unfoldable pub close_expired : ℕ → Server → ℕ → Server
close_expired zero s now_ms = s
close_expired (suc fuel) s now_ms = elim s.idle_list [
  | [] ↦ s
  | fd ∷ _ ↦
      let rest = close_expired fuel (conn_destroy s fd) now_ms in
      if leb now_ms (deadline_of s fd) then s else rest
]

-- `process_timers`, less the call of `on_timer`.
unfoldable pub process_timers : Server → ℕ → Server
process_timers s now_ms = close_expired (length s.idle_list) s now_ms

-- The head's deadline, or `(uint64_t)-1`.
abbrev pub idle_deadline : Server → ℕ
idle_deadline s = elim s.idle_list [ [] ↦ 2 ^ 64 - 1 | fd ∷ _ ↦ deadline_of s fd ]

-- The smaller of a time and the store's deadline, for what `next_timer_ms` returns, if it is set.
abbrev pub with_store : ℕ → Option ℕ → ℕ → ℕ
with_store now_ms none next_ms = next_ms
with_store now_ms (some store_ms) next_ms =
    if store_ms == 2 ^ 32 - 1
    then next_ms
    else if ltb ((now_ms + store_ms) % 2 ^ 64) next_ms
    then (now_ms + store_ms) % 2 ^ 64
    else next_ms

-- `INT_MAX`
abbrev pub int_max : ℕ
int_max = 2147483647

unfoldable pub next_timer_ms_combined : Server → ℕ → Option ℕ → ℕ
next_timer_ms_combined s now_ms store =
    let next_ms = with_store now_ms store (idle_deadline s) in
    if next_ms == 2 ^ 64 - 1
    then 2 ^ 32 - 1
    else if leb next_ms now_ms
    then 0
    else if ltb int_max (next_ms - now_ms)
    then int_max
    else next_ms - now_ms
