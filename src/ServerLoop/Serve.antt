-- ===== src/ServerLoop/Serve.antt =====
-- The service and the closing of a connection (src/server_loop.cpp: `run_tcp_server`, `conn_destroy`).
use apex_db.Prelude.{
  ℕ, ◌≡◌, sym, ◌∙◌, ap, true, false, Bool-cases, Option-cases, inl, inr, ◌||◌, List, Option, none,
  arith, get_or, set, ◌==◌, All_mapped, All_both,
}
use apex_db.Bytes.{Bytes}
use apex_db.ServerLoop.Idle.{Peer, Server, dlist_detach, conn_destroy, peer_at, last_active_of}
use apex_db.ServerLoop.Timers.{
  IsIdle, IsOrdered-changed, is_open, emptied_same, emptied_other, none-some,
}
use apex_db.ServerLoop.Poll.{touch, Ready, exchange, serve}
use apex_db.ServerLoop.Connections.{detach-IsRest, IsNow, touch-IsIdle}

emptied_still :
    (fds : List (Option Peer)) (fd y : ℕ)
    → (y == fd) ≡ false
    → get_or (set fds fd none) y none ≡ get_or fds y none
emptied_still fds fd y h = emptied_other fds fd y (ground (arith, h))

pub conn_destroy-IsIdle : (srv : Server) (fd : ℕ) → IsIdle srv → IsIdle (conn_destroy srv fd)
unfolding conn_destroy
conn_destroy-IsIdle srv fd v =
    let fds = srv.fd2conn in
    let idle = dlist_detach srv.idle_list fd in
    let (o, p, q, r) = detach-IsRest fds srv.idle_list fd v.ordered v.alive in
    record {
      listed = λ y peer e. elim (Bool-cases (y == fd)) [
        | inl this ↦ absurd (none-some (sym (emptied_same fds fd y (ground (arith, this))) ∙ e))
        | inr other ↦
            omega (arith, r y other, v.listed y peer (sym (emptied_still fds fd y other) ∙ e))
      ];
      ordered =
          IsOrdered-changed fds (set fds fd none) idle
            (All_mapped (λ y. (y == fd) ≡ false)
              (λ y. get_or (set fds fd none) y none ≡ get_or fds y none) idle (emptied_still fds fd)
              p)
            o;
      alive =
          All_mapped _ (λ y. is_open (get_or (set fds fd none) y none) ≡ true) idle
            (λ y (e, a). ap is_open (emptied_still fds fd y e) ∙ a)
            (All_both (λ y. (y == fd) ≡ false) (λ y. is_open (get_or fds y none) ≡ true) idle p q);
      in_range = λ y. elim (Bool-cases (y == fd)) [
        | inl this ↦ omega (arith, ap last_active_of (emptied_same fds fd y (ground (arith, this))))
        | inr other ↦ omega (arith, ap last_active_of (emptied_still fds fd y other), v.in_range y)
      ];
    }

module _ {S : Type 0} (on_request : S → List Bytes → Bytes → S × Bytes) where
  -- The service of a descriptor that is ready, whatever it reads and writes and whether its
  -- connection is closed, keeps the list of idle connections complete, without repetitions and in
  -- the order of activity. The clock is assumed not to have gone back and to be far from its end.
  pub serve-IsIdle :
      (s : S) (srv : Server) (fd : ℕ) (r : Ready)
      → IsIdle srv
      → IsNow srv r.now_ms
      → IsIdle (serve on_request s srv fd r).1
  unfolding serve
  serve-IsIdle s srv fd r v now = elim (Option-cases (peer_at srv fd)) [
    | inl gone ↦ rw (serve, gone) v
    | inr (peer, there) ↦
        let c = (exchange on_request s peer.conn r).1 in
        let touched = touch-IsIdle srv fd peer c r.now_ms v there now in
        rw (serve, there)
          (elim (Bool-cases (r.pollerr || c.want_close)) [
            | inl closes ↦ rw closes (conn_destroy-IsIdle (touch srv fd c r.now_ms) fd touched)
            | inr stays ↦ rw stays touched
          ])
  ]
