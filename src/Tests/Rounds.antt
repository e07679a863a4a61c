-- ===== src/Tests/Rounds.antt =====
-- A server with one connection, on the descriptor 0, that was active at the time 100.
use apex_db.Prelude.{
  ℕ, zero, suc, ◌+◌, ◌-◌, ◌^◌, ◌≤◌, ◌<◌, ◌≡◌, ◌⊎◌, refl, true, false, List, [], ◌∷◌, some, arith,
  ◌==◌,
}
use apex_db.Bytes.{Bytes}
use apex_db.HashTable.Chains.{count}
use apex_db.ServerLoop.{read_again, write_again}
use apex_db.ServerLoop.Idle.{
  k_idle_timeout_ms, Peer, Server, new_conn, peer_at, process_timers, next_timer_ms_combined,
  int_max,
}
use apex_db.ServerLoop.Timers.{IsIdle, Expired, time, process_timers-Expired}
use apex_db.ServerLoop.Deadlines.{next_timer_ms_combined-le}
use apex_db.ServerLoop.Poll.{Ready, serve}
use apex_db.ServerLoop.Serve.{serve-IsIdle}

abbrev peer : Peer
peer = record { conn = new_conn; last_active_ms = 100 }

abbrev server : Server
server = record { fd2conn = some peer ∷ []; idle_list = 0 ∷ [] }

listed : (fd : ℕ) (p : Peer) → peer_at server fd ≡ some p → 1 ≤ count (λ x. x == fd) (0 ∷ [])
unfolding count
listed zero p h = omega arith
listed (suc fd) p h = cc

active : (fd : ℕ) → time server.fd2conn fd ≤ 100
active zero = omega arith
active (suc fd) = omega arith

server-IsIdle : IsIdle server
server-IsIdle = record {
  listed = listed;
  ordered = (tt, tt);
  alive = (refl, tt);
  in_range = λ fd. omega (arith, active fd);
}

process_timers-Expired_example : Expired 9000 server (process_timers server 9000)
process_timers-Expired_example = process_timers-Expired server 9000 server-IsIdle

next_timer_ms_combined-le_example :
    let wait = next_timer_ms_combined server 1000 (some 50) in
    ((fd : ℕ) (p : Peer)
      → peer_at server fd ≡ some p
      → wait ≤ p.last_active_ms + k_idle_timeout_ms - 1000)
    × ((store_ms : ℕ) → some 50 ≡ some store_ms → store_ms < 2 ^ 32 - 1 → wait ≤ store_ms)
    × ((wait ≤ int_max) ⊎ (wait ≡ 2 ^ 32 - 1))
next_timer_ms_combined-le_example =
    next_timer_ms_combined-le server 1000 (some 50) server-IsIdle (omega arith)

abbrev silent : ℕ → List Bytes → Bytes → ℕ × Bytes
silent s cmd out = (s, out)

abbrev hang_up : Ready
hang_up = record {
  pollin = true;
  pollout = false;
  pollerr = true;
  now_ms = 200;
  read = read_again;
  flushed = write_again;
  written = write_again;
}

serve-IsIdle_example : IsIdle (serve silent 0 server 0 hang_up).1
serve-IsIdle_example =
    serve-IsIdle silent 0 server 0 hang_up server-IsIdle
      (λ fd. omega (arith, active fd), omega arith)
