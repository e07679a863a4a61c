-- ===== src/ServerLoop/Poll.antt =====
-- The rounds of the server (src/server_loop.cpp: `run_tcp_server`). What `poll`, `accept`, `read` and
-- `write` give and the clock's readings are arguments; `on_request` and `on_timer` are parameters.
use apex_db.Prelude.{
  ℕ, suc, Bool, not, ◌&&◌, ◌||◌, List, [], ◌∷◌, Option, none, some, set, if◌then◌else◌,
}
use apex_db.Bytes.{Bytes}
use apex_db.ServerLoop.{Conn, ReadResult, WriteResult, is_empty, handle_write, handle_read}
use apex_db.ServerLoop.Idle.{
  Peer, Server, dlist_detach, dlist_insert_last, handle_accept, conn_destroy, peer_at,
  process_timers,
}

-- One of `poll_args`: the descriptor, and whether it waits to read and to write.
pub record PollArg : Type 0 where
  pub fd : ℕ
  pub pollin : Bool
  pub pollout : Bool

-- `revents` of a descriptor, with the clock and the results of the calls that it leads to: `pollerr` is
-- any of `POLLERR`, `POLLHUP` and `POLLNVAL`.
pub record Ready : Type 0 where
  pub pollin : Bool
  pub pollout : Bool
  pub pollerr : Bool
  pub now_ms : ℕ
  pub read : ReadResult
  pub flushed : WriteResult
  pub written : WriteResult

-- The loop that fills `poll_args`.
unfoldable pub poll_args_from : ℕ → List (Option Peer) → List PollArg
poll_args_from fd [] = []
poll_args_from fd (none ∷ rest) = poll_args_from (suc fd) rest
poll_args_from fd (some peer ∷ rest) =
    record { fd = fd; pollin = peer.conn.want_read; pollout = peer.conn.want_write }
    ∷ poll_args_from (suc fd) rest

abbrev pub poll_args : Server → List PollArg
poll_args srv = poll_args_from 0 srv.fd2conn

-- `conn->last_active_ms = ...`, and the connection goes to the end of the list.
unfoldable pub touch : Server → ℕ → Conn → ℕ → Server
touch srv fd conn now_ms = record {
  fd2conn = set srv.fd2conn fd (some (record { conn = conn; last_active_ms = now_ms }));
  idle_list = dlist_insert_last (dlist_detach srv.idle_list fd) fd;
}

module _ {S : Type 0} (on_request : S → List Bytes → Bytes → S × Bytes) where
  -- The reading and the writing of a connection.
  unfoldable pub exchange : S → Conn → Ready → S × Conn
  exchange s c r =
      let (s', c') = if r.pollin then handle_read on_request s c r.read r.flushed else (s, c) in
      (
        s',
        if r.pollout && (not c'.want_close && not (is_empty c'.outgoing))
            then handle_write c' r.written
            else c',
      )

  -- The body of the loop over the connections, where `revents` is not zero. A descriptor without a
  -- connection has none of `poll_args`.
  unfoldable pub serve : S → Server → ℕ → Ready → S × Server
  serve s srv fd r = elim (peer_at srv fd) [
    | none ↦ (s, srv)
    | some peer ↦
        let (s', c) = exchange s peer.conn r in
        let touched = touch srv fd c r.now_ms in
        (s', if r.pollerr || c.want_close then conn_destroy touched fd else touched)
  ]

  -- The loop over `poll_args`; `ready` gives what `poll` reported of a descriptor, if anything.
  unfoldable pub serve_all : S → Server → List PollArg → (ℕ → Option Ready) → S × Server
  serve_all s srv [] ready = (s, srv)
  serve_all s srv (arg ∷ rest) ready =
      let (s', srv') : S × Server = elim (ready arg.fd) [
        | none ↦ (s, srv)
        | some r ↦ serve s srv arg.fd r
      ] in
      serve_all s' srv' rest ready

  -- One round: `accepted` is what `accept` gave, if the listening socket was ready.
  unfoldable pub poll_round :
      (S → ℕ → S) → S → Server → Option (Option ℕ × ℕ) → (ℕ → Option Ready) → ℕ → S × Server
  poll_round on_timer s srv accepted ready now_ms =
      let args = poll_args srv in
      let srv' : Server = elim accepted [
        | none ↦ srv
        | some (fd, at_ms) ↦ handle_accept srv fd at_ms
      ] in
      let (s', served) = serve_all s srv' args ready in
      (on_timer s' now_ms, process_timers served now_ms)

-- The loop after the last round, over the descriptors from `fd` on.
unfoldable pub close_all : ℕ → Server → List (Option Peer) → Server
close_all fd srv [] = srv
close_all fd srv (none ∷ rest) = close_all (suc fd) srv rest
close_all fd srv (some _ ∷ rest) = close_all (suc fd) (conn_destroy srv fd) rest
