-- ===== src/ServerLoop/Deadlines.antt =====
-- How long the server may wait (src/server_loop.cpp: `next_timer_ms_combined`).
use apex_db.Prelude.{
  ℕ, ◌+◌, ◌-◌, ◌^◌, ◌≤◌, ◌<◌, ◌≡◌, ◌⊎◌, ap, List, [], ◌∷◌, Option, none, some, arith, get_or, ltb,
  leb, ◌==◌, if◌then◌else◌, All_mapped,
}
use apex_db.HashTable.Chains.{All_at, count}
use apex_db.ServerLoop.Idle.{
  k_idle_timeout_ms, Peer, Server, peer_at, last_active_of, next_timer_ms_combined, with_store,
  idle_deadline, int_max,
}
use apex_db.ServerLoop.Timers.{IsIdle, time}

-- The result, from the earliest of the deadlines.
abbrev wait_until : ℕ → ℕ → ℕ
wait_until next_ms now_ms =
    if next_ms == 2 ^ 64 - 1
    then 2 ^ 32 - 1
    else if leb next_ms now_ms
    then 0
    else if ltb int_max (next_ms - now_ms)
    then int_max
    else next_ms - now_ms

wait_until-le :
    (next_ms now_ms deadline : ℕ)
    → next_ms ≤ deadline
    → deadline < 2 ^ 64 - 1
    → wait_until next_ms now_ms ≤ deadline - now_ms
wait_until-le next_ms now_ms deadline h k = ground arith

wait_until_bound :
    (next_ms now_ms : ℕ)
    → (wait_until next_ms now_ms ≤ int_max) ⊎ (wait_until next_ms now_ms ≡ 2 ^ 32 - 1)
wait_until_bound next_ms now_ms = ground arith

with_store-le :
    (now_ms : ℕ) (store : Option ℕ) (next_ms : ℕ) → with_store now_ms store next_ms ≤ next_ms
with_store-le now_ms none next_ms = omega arith
with_store-le now_ms (some store_ms) next_ms = ground arith

with_store-store :
    (now_ms store_ms next_ms : ℕ)
    → store_ms < 2 ^ 32 - 1
    → now_ms + 2 ^ 32 < 2 ^ 64
    → with_store now_ms (some store_ms) next_ms ≤ now_ms + store_ms
with_store-store now_ms store_ms next_ms h k = ground arith

idle_deadline-le :
    (fds : List (Option Peer)) (idle : List ℕ) (fd : ℕ) (peer : Peer)
    → IsIdle (record { fd2conn = fds; idle_list = idle })
    → get_or fds fd none ≡ some peer
    → idle_deadline (record { fd2conn = fds; idle_list = idle })
      ≤ peer.last_active_ms + k_idle_timeout_ms
unfolding count
idle_deadline-le fds [] fd peer v h = absurd (omega (arith, v.listed fd peer h))
idle_deadline-le fds (first ∷ rest) fd peer v h =
    let later =
      All_at (λ y. time fds first ≤ time fds y) fd (first ∷ rest) (v.listed fd peer h)
        (
          omega arith,
          All_mapped _ (λ y. time fds first ≤ time fds y) rest (λ y a. a.1) v.ordered.0,
        ) in
    omega (arith, later, ap last_active_of h, v.in_range first)

-- The wait that the server computes ends no later than any open connection's five seconds and the
-- store's next deadline, for a clock far from its end; and it is one that `poll` takes, or that of
-- no deadline.
pub next_timer_ms_combined-le :
    (s : Server) (now_ms : ℕ) (store : Option ℕ)
    → IsIdle s
    → now_ms + 2 ^ 32 < 2 ^ 64
    → let wait = next_timer_ms_combined s now_ms store in
      ((fd : ℕ) (peer : Peer)
        → peer_at s fd ≡ some peer
        → wait ≤ peer.last_active_ms + k_idle_timeout_ms - now_ms)
      × ((store_ms : ℕ) → store ≡ some store_ms → store_ms < 2 ^ 32 - 1 → wait ≤ store_ms)
      × ((wait ≤ int_max) ⊎ (wait ≡ 2 ^ 32 - 1))
unfolding next_timer_ms_combined
next_timer_ms_combined-le s now_ms store v clock = (
  λ fd peer h.
      wait_until-le (with_store now_ms store (idle_deadline s)) now_ms
        (peer.last_active_ms + k_idle_timeout_ms)
        (omega (
          arith,
          with_store-le now_ms store (idle_deadline s),
          idle_deadline-le s.fd2conn s.idle_list fd peer v h,
        ))
        (omega (arith, v.in_range fd, ap last_active_of h)),
  λ store_ms e h. rw e (
      omega (
        arith,
        wait_until-le (with_store now_ms (some store_ms) (idle_deadline s)) now_ms
            (now_ms + store_ms) (with_store-store now_ms store_ms (idle_deadline s) h clock)
            (omega (arith, h, clock)),
      )),
  wait_until_bound (with_store now_ms store (idle_deadline s)) now_ms,
)
