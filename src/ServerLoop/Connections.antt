-- ===== src/ServerLoop/Connections.antt =====
-- Connections that are accepted or move to the end of the idle list (src/server_loop.cpp: `handle_accept`,
-- `run_tcp_server`).
use apex_db.Prelude.{
  ℕ, zero, suc, ◌+◌, ◌-◌, ◌^◌, ◌≤◌, ◌<◌, ◌≡◌, refl, sym, ◌∙◌, ap, subst, true, false, Bool-cases,
  inl, inr, List, [], ◌∷◌, ◌++◌, Option, none, some, arith, length, length-append, length-replicate,
  get_or, get_or-set, get_or-replicate, set, replicate, leb, ◌==◌, ==_iff, ==_refl, All, All_mapped,
  All_both, All-joined,
}
use apex_db.HashTable.Chains.{count, count-append}
use apex_db.ServerLoop.{Conn}
use apex_db.ServerLoop.Idle.{
  k_idle_timeout_ms, Peer, Server, new_conn, dlist_detach, resized, handle_accept, peer_at,
  last_active_of,
}
use apex_db.ServerLoop.Timers.{IsIdle, IsOrdered, IsOrdered-changed, is_open, time}
use apex_db.ServerLoop.Poll.{touch}

-- A list of connections other than one, in order.
record IsRest (fds : List (Option Peer)) (fd : ℕ) (idle : List ℕ) : Type 0 where
  pub ordered : IsOrdered fds idle
  pub other : All (λ y. (y == fd) ≡ false) idle
  pub alive : All (λ y. is_open (get_or fds y none) ≡ true) idle
  pub listed :
      (y : ℕ) (peer : Peer)
      → get_or fds y none ≡ some peer
      → (y == fd) ≡ false
      → 1 ≤ count (λ x. x == y) idle

IsOrdered-last :
    (fds : List (Option Peer)) (idle : List ℕ) (fd : ℕ)
    → IsOrdered fds idle
    → All (λ y. ((y == fd) ≡ false) × (time fds y ≤ time fds fd)) idle
    → IsOrdered fds (idle ++ fd ∷ [])
IsOrdered-last fds [] fd v h = (tt, tt)
IsOrdered-last fds (x ∷ xs) fd v h = (
  All-joined (λ y. ((x == y) ≡ false) × (time fds x ≤ time fds y)) xs (fd ∷ []) v.0 (h.0, tt),
  IsOrdered-last fds xs fd v.1 h.1,
)

-- A connection that is active now takes its place at the end.
put-IsIdle :
    (fds fds' : List (Option Peer)) (idle : List ℕ) (fd : ℕ) (peer : Peer)
    → IsRest fds fd idle
    → ((y : ℕ) → (y == fd) ≡ false → get_or fds' y none ≡ get_or fds y none)
    → get_or fds' fd none ≡ some peer
    → ((y : ℕ) → time fds y ≤ peer.last_active_ms)
    → peer.last_active_ms + k_idle_timeout_ms < 2 ^ 64 - 1
    → IsIdle (record { fd2conn = fds'; idle_list = idle ++ fd ∷ [] })
unfolding count
put-IsIdle fds fds' idle fd peer v same new latest clock =
    let kept =
      All_mapped (λ y. (y == fd) ≡ false) (λ y. get_or fds' y none ≡ get_or fds y none) idle same
        v.other in
    let here : time fds' fd ≡ peer.last_active_ms = ap last_active_of new in
    record {
      listed = λ y p h. elim (Bool-cases (y == fd)) [
        | inl this ↦ ground (arith, this, count-append (λ x. x == y) idle (fd ∷ []))
        | inr other ↦ ground (
          arith,
          count-append (λ x. x == y) idle (fd ∷ []),
          v.listed y p (sym (same y other) ∙ h) other,
        )
      ];
      ordered = IsOrdered-last fds' idle fd (IsOrdered-changed fds fds' idle kept v.ordered) (
          All_mapped _ (λ y. ((y == fd) ≡ false) × (time fds' y ≤ time fds' fd)) idle
            (λ y (e, o). (o, omega (arith, here, latest y, ap last_active_of e)))
            (All_both _ (λ y. (y == fd) ≡ false) idle kept v.other));
      alive =
          All-joined (λ y. is_open (get_or fds' y none) ≡ true) idle (fd ∷ [])
            (All_mapped _ (λ y. is_open (get_or fds' y none) ≡ true) idle
              (λ y (e, o). ap is_open e ∙ o)
              (All_both _ (λ y. is_open (get_or fds y none) ≡ true) idle kept v.alive))
            (ap is_open new, tt);
      in_range = λ y. elim (Bool-cases (y == fd)) [
        | inl this ↦
            subst (λ x. time fds' x + k_idle_timeout_ms < 2 ^ 64 - 1) (sym ((==_iff y fd).0 this))
              (omega (arith, here, clock))
        | inr other ↦ omega (arith, latest y, clock, ap last_active_of (same y other))
      ];
    }

other_than : (x y fd : ℕ) → (x == fd) ≡ true → (x == y) ≡ false → (y == fd) ≡ false
other_than x y fd h k = ground arith

All-dlist_detach : (P : ℕ → Type 0) (xs : List ℕ) (fd : ℕ) → All P xs → All P (dlist_detach xs fd)
unfolding dlist_detach
All-dlist_detach P [] fd h = tt
All-dlist_detach P (x ∷ xs) fd h = elim (Bool-cases (x == fd)) [
  | inl hit ↦ rw hit h.1
  | inr miss ↦ rw miss (h.0, All-dlist_detach P xs fd h.1)
]

-- `dlist_detach` takes one connection off.
pub detach-IsRest :
    (fds : List (Option Peer)) (idle : List ℕ) (fd : ℕ)
    → IsOrdered fds idle
    → All (λ y. is_open (get_or fds y none) ≡ true) idle
    → IsOrdered fds (dlist_detach idle fd)
      × All (λ y. (y == fd) ≡ false) (dlist_detach idle fd)
      × All (λ y. is_open (get_or fds y none) ≡ true) (dlist_detach idle fd)
      × ((y : ℕ)
          → (y == fd) ≡ false
          → count (λ x. x == y) (dlist_detach idle fd) ≡ count (λ x. x == y) idle)
unfolding dlist_detach count
detach-IsRest fds [] fd v a = (tt, tt, tt, λ y h. refl)
detach-IsRest fds (x ∷ xs) fd v a = elim (Bool-cases (x == fd)) [
  | inl hit ↦ rw hit (
    v.1,
    All_mapped (λ y. ((x == y) ≡ false) × (time fds x ≤ time fds y)) (λ y. (y == fd) ≡ false) xs
        (λ y h. other_than x y fd hit h.0) v.0,
    a.1,
    λ y h. ground (arith, hit, h),
  )
  | inr miss ↦
      let (o, p, q, r) = detach-IsRest fds xs fd v.1 a.1 in
      rw miss (
        (All-dlist_detach (λ y. ((x == y) ≡ false) × (time fds x ≤ time fds y)) xs fd v.0, o),
        (miss, p),
        (a.0, q),
        λ y h. omega (arith, r y h),
      )
]

get_or-same :
    (fds : List (Option Peer)) (fd y : ℕ) (v : Option Peer)
    → fd < length fds
    → (y == fd) ≡ false
    → get_or (set fds fd v) y none ≡ get_or fds y none
get_or-same fds fd y v h e =
    let d : (fd == y) ≡ false = ground (arith, e) in get_or-set fds fd y v none h ∙ rw d refl

get_or-new :
    (fds : List (Option Peer)) (fd : ℕ) (v : Option Peer)
    → fd < length fds
    → get_or (set fds fd v) fd none ≡ v
get_or-new fds fd v h = get_or-set fds fd fd v none h ∙ rw (==_refl fd) refl

open_within :
    (fds : List (Option Peer)) (fd : ℕ) (peer : Peer)
    → get_or fds fd none ≡ some peer
    → fd < length fds
open_within [] fd peer h = cc
open_within (x ∷ xs) zero peer h = omega arith
open_within (x ∷ xs) (suc fd) peer h = omega (arith, open_within xs fd peer h)

-- The clock has not gone back since the connections were last active, and is far from its end.
abbrev pub IsNow : Server → ℕ → Type 0
IsNow srv now_ms =
    ((fd : ℕ) → time srv.fd2conn fd ≤ now_ms) × (now_ms + k_idle_timeout_ms < 2 ^ 64 - 1)

-- A connection that was active moves to the end of the list, and all others stay.
pub touch-IsIdle :
    (srv : Server) (fd : ℕ) (peer : Peer) (conn : Conn) (now_ms : ℕ)
    → IsIdle srv
    → peer_at srv fd ≡ some peer
    → IsNow srv now_ms
    → IsIdle (touch srv fd conn now_ms)
unfolding touch
touch-IsIdle srv fd peer conn now_ms v h now =
    let new : Peer = record { conn = conn; last_active_ms = now_ms } in
    let within = open_within srv.fd2conn fd peer h in
    let (o, p, q, r) = detach-IsRest srv.fd2conn srv.idle_list fd v.ordered v.alive in
    put-IsIdle srv.fd2conn (set srv.fd2conn fd (some new)) (dlist_detach srv.idle_list fd) fd new
      (record {
        ordered = o;
        other = p;
        alive = q;
        listed = λ y peer e d. omega (arith, r y d, v.listed y peer e);
      })
      (λ y e. get_or-same srv.fd2conn fd y (some new) within e)
      (get_or-new srv.fd2conn fd (some new) within) now.0 now.1

get_or-padded :
    (fds : List (Option Peer)) (n y : ℕ)
    → get_or (fds ++ replicate n none) y none ≡ get_or fds y none
get_or-padded [] n y = get_or-replicate n y none
get_or-padded (x ∷ xs) n zero = refl
get_or-padded (x ∷ xs) n (suc y) = get_or-padded xs n y

none_open : false ≡ true → ⊥
none_open h = cc

get_or-resized :
    (fds : List (Option Peer)) (fd y : ℕ) → get_or (resized fds fd) y none ≡ get_or fds y none
get_or-resized fds fd y = elim (Bool-cases (leb (length fds) fd)) [
  | inr long ↦ rw long refl
  | inl short ↦ rw short (get_or-padded fds (fd + 1 - length fds) y)
]

length-resized : (fds : List (Option Peer)) (fd : ℕ) → fd < length (resized fds fd)
length-resized fds fd = elim (Bool-cases (leb (length fds) fd)) [
  | inr long ↦ rw long (ground (arith, long))
  | inl short ↦ rw short (
      ground (
        arith,
        short,
        length-append fds (replicate (fd + 1 - length fds) none),
        length-replicate {A = Option Peer} (fd + 1 - length fds) none,
      ))
]

closed_other :
    (fds : List (Option Peer)) (fd : ℕ)
    → get_or fds fd none ≡ none
    → (y : ℕ) → is_open (get_or fds y none) ≡ true
    → (y == fd) ≡ false
closed_other fds fd h y e = elim (Bool-cases (y == fd)) [
  | inl same ↦ absurd (
      none_open (
        ap is_open (sym h)
        ∙ subst (λ x. is_open (get_or fds x none) ≡ true) ((==_iff y fd).0 same) e))
  | inr other ↦ other
]

-- A connection that is accepted, on a descriptor that no open connection has, comes last.
pub handle_accept-IsIdle :
    (srv : Server) (accepted : Option ℕ) (now_ms : ℕ)
    → IsIdle srv
    → ((fd : ℕ) → accepted ≡ some fd → peer_at srv fd ≡ none)
    → IsNow srv now_ms
    → IsIdle (handle_accept srv accepted now_ms)
unfolding handle_accept
handle_accept-IsIdle srv none now_ms v free now = v
handle_accept-IsIdle srv (some fd) now_ms v free now =
    let fds = resized srv.fd2conn fd in
    let new : Peer = record { conn = new_conn; last_active_ms = now_ms } in
    let long = length-resized srv.fd2conn fd in
    put-IsIdle srv.fd2conn (set fds fd (some new)) srv.idle_list fd new
      (record {
        ordered = v.ordered;
        other =
            All_mapped (λ y. is_open (peer_at srv y) ≡ true) (λ y. (y == fd) ≡ false) srv.idle_list
              (closed_other srv.fd2conn fd (free fd refl)) v.alive;
        alive = v.alive;
        listed = λ y peer e d. v.listed y peer e;
      })
      (λ y e. get_or-same fds fd y (some new) long e ∙ get_or-resized srv.fd2conn fd y)
      (get_or-new fds fd (some new) long) now.0 now.1
