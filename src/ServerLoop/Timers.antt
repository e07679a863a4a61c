-- ===== src/ServerLoop/Timers.antt =====
-- What the timers of the server do to its connections (src/server_loop.cpp: `process_timers`,
-- `next_timer_ms_combined`).
use apex_db.Prelude.{
  All_both, Option-cases, All_mapped, ℕ, zero, suc, ◌+◌, ◌-◌, ◌%◌, ◌^◌, ◌≤◌, ◌<◌, ◌≡◌, refl, sym,
  ◌∙◌, ap, subst, Bool, true, false, Bool-cases, inl, inr, List, [], ◌∷◌, Option, none, some, arith,
  length, get_or, set, ltb, leb, ◌==◌, ==_iff, ==_refl, if◌then◌else◌, All,
}
use apex_db.HashTable.Chains.{All_at, count}
use apex_db.ServerLoop.Idle.{
  k_idle_timeout_ms, Peer, Server, dlist_detach, conn_destroy, peer_at, last_active_of,
  close_expired, process_timers,
}

get_or-emptied :
    (xs : List (Option Peer)) (i j : ℕ)
    → get_or (set xs i none) j none ≡ (if i == j then none else get_or xs j none)
get_or-emptied [] i j = ground arith
get_or-emptied (x ∷ xs) zero zero = refl
get_or-emptied (x ∷ xs) (suc i) zero = ground arith
get_or-emptied (x ∷ xs) zero (suc j) = ground arith
get_or-emptied (x ∷ xs) (suc i) (suc j) = ground (arith, get_or-emptied xs i j)

-- When a descriptor's connection was last active.
abbrev pub time : List (Option Peer) → ℕ → ℕ
time fds fd = last_active_of (get_or fds fd none)

-- No descriptor is on the list twice, and none stands before one that was idle for longer.
abbrev pub IsOrdered : List (Option Peer) → List ℕ → Type 0
IsOrdered fds [] = Unit
IsOrdered fds (x ∷ xs) =
    All (λ y. ((x == y) ≡ false) × (time fds x ≤ time fds y)) xs × IsOrdered fds xs

abbrev pub is_open : Option Peer → Bool
is_open none = false
is_open (some _) = true

-- The list of idle connections has every open connection once, in the order of their last activity,
-- and the clock is far from its end.
pub record IsIdle (s : Server) : Type 0 where
  pub listed :
      (fd : ℕ) (peer : Peer) → peer_at s fd ≡ some peer → 1 ≤ count (λ x. x == fd) s.idle_list
  pub ordered : IsOrdered s.fd2conn s.idle_list
  pub alive : All (λ fd. is_open (peer_at s fd) ≡ true) s.idle_list
  pub in_range : (fd : ℕ) → time s.fd2conn fd + k_idle_timeout_ms < 2 ^ 64 - 1

-- What is left of a connection when the expired ones are closed.
abbrev pub kept_at : ℕ → Option Peer → Option Peer
kept_at now_ms none = none
kept_at now_ms (some peer) =
    if ltb (peer.last_active_ms + k_idle_timeout_ms) now_ms then none else some peer

pub emptied_other :
    (fds : List (Option Peer)) (x y : ℕ)
    → (x == y) ≡ false
    → get_or (set fds x none) y none ≡ get_or fds y none
emptied_other fds x y h = get_or-emptied fds x y ∙ rw h refl

pub emptied_same :
    (fds : List (Option Peer)) (x y : ℕ) → (x == y) ≡ true → get_or (set fds x none) y none ≡ none
emptied_same fds x y h = get_or-emptied fds x y ∙ rw h refl

pub IsOrdered-changed :
    (fds fds' : List (Option Peer)) (xs : List ℕ)
    → All (λ y. get_or fds' y none ≡ get_or fds y none) xs
    → IsOrdered fds xs
    → IsOrdered fds' xs
IsOrdered-changed fds fds' [] h v = tt
IsOrdered-changed fds fds' (x ∷ xs) h v = (
  All_mapped _ (λ y. ((x == y) ≡ false) × (time fds' x ≤ time fds' y)) xs
      (λ y (e, a). (a.0, omega (arith, a.1, ap last_active_of e, ap last_active_of h.0)))
      (All_both (λ y. get_or fds' y none ≡ get_or fds y none)
        (λ y. ((x == y) ≡ false) × (time fds x ≤ time fds y)) xs h.1 v.0),
  IsOrdered-changed fds fds' xs h.1 v.1,
)

pub none-some : {A : Type 0} {a : A} → none ≡ some a → ⊥
none-some h = cc

-- The connection that has been idle for the longest is closed.
head-IsIdle :
    (fds : List (Option Peer)) (fd : ℕ) (rest : List ℕ)
    → IsIdle (record { fd2conn = fds; idle_list = fd ∷ rest })
    → IsIdle (record { fd2conn = set fds fd none; idle_list = rest })
unfolding count
head-IsIdle fds fd rest v = record {
  listed = λ x peer e. elim (Bool-cases (fd == x)) [
    | inl same ↦ absurd (none-some (sym (emptied_same fds fd x same) ∙ e))
    | inr other ↦ ground (arith, v.listed x peer (sym (emptied_other fds fd x other) ∙ e))
  ];
  ordered =
      IsOrdered-changed fds (set fds fd none) rest
        (All_mapped (λ y. ((fd == y) ≡ false) × (time fds fd ≤ time fds y))
          (λ y. get_or (set fds fd none) y none ≡ get_or fds y none) rest
          (λ y h. emptied_other fds fd y h.0) v.ordered.0)
        v.ordered.1;
  alive =
      All_mapped _ (λ y. is_open (get_or (set fds fd none) y none) ≡ true) rest
        (λ y (a, b). ap is_open (emptied_other fds fd y a.0) ∙ b)
        (All_both (λ y. ((fd == y) ≡ false) × (time fds fd ≤ time fds y))
          (λ y. is_open (get_or fds y none) ≡ true) rest v.ordered.0 v.alive.1);
  in_range = λ x. elim (Bool-cases (fd == x)) [
    | inl same ↦ omega (arith, ap last_active_of (emptied_same fds fd x same))
    | inr other ↦ omega (arith, ap last_active_of (emptied_other fds fd x other), v.in_range x)
  ];
}

-- If the head is not expired, no connection is.
young :
    (fds : List (Option Peer)) (fd : ℕ) (rest : List ℕ) (now_ms : ℕ)
    → IsIdle (record { fd2conn = fds; idle_list = fd ∷ rest })
    → now_ms ≤ time fds fd + k_idle_timeout_ms
    → (x : ℕ) → get_or fds x none ≡ kept_at now_ms (get_or fds x none)
young fds fd rest now_ms v h x = elim (Option-cases (get_or fds x none)) [
  | inl gone ↦ rw gone refl
  | inr (peer, there) ↦
      let later =
        All_at (λ y. time fds fd ≤ time fds y) x (fd ∷ rest) (v.listed x peer there)
          (
            omega arith,
            All_mapped _ (λ y. time fds fd ≤ time fds y) rest (λ y a. a.1) v.ordered.0,
          ) in
      let fresh : ltb (peer.last_active_ms + k_idle_timeout_ms) now_ms ≡ false =
        ground (arith, later, ap last_active_of there) in
      rw (there, fresh) refl
]

expired_head :
    (fds : List (Option Peer)) (fd now_ms : ℕ)
    → time fds fd + k_idle_timeout_ms < now_ms
    → kept_at now_ms (get_or fds fd none) ≡ none
expired_head fds fd now_ms h = elim (Option-cases (get_or fds fd none)) [
  | inl gone ↦ rw gone refl
  | inr (peer, there) ↦
      let old : ltb (peer.last_active_ms + k_idle_timeout_ms) now_ms ≡ true =
        ground (arith, ap last_active_of there) in
      rw (there, old) refl
]

-- Closing the head first makes no difference to what is left of the connections.
kept-emptied :
    (fds : List (Option Peer)) (fd now_ms x : ℕ)
    → time fds fd + k_idle_timeout_ms < now_ms
    → kept_at now_ms (get_or (set fds fd none) x none) ≡ kept_at now_ms (get_or fds x none)
kept-emptied fds fd now_ms x h = elim (Bool-cases (fd == x)) [
  | inl same ↦
      ap (kept_at now_ms) (emptied_same fds fd x same)
      ∙ sym (
          subst (λ y. kept_at now_ms (get_or fds y none) ≡ none) ((==_iff fd x).0 same)
            (expired_head fds fd now_ms h))
  | inr other ↦ ap (kept_at now_ms) (emptied_other fds fd x other)
]

no_wrap : (n : ℕ) → n < 2 ^ 64 → n % 2 ^ 64 ≡ n
no_wrap n h = omega arith

all_closed :
    (now_ms : ℕ) (fds : List (Option Peer))
    → IsIdle (record { fd2conn = fds; idle_list = [] })
    → (fd : ℕ) → get_or fds fd none ≡ kept_at now_ms (get_or fds fd none)
unfolding count
all_closed now_ms fds v fd = elim (Option-cases (get_or fds fd none)) [
  | inl gone ↦ rw gone refl
  | inr (peer, there) ↦ absurd (omega (arith, v.listed fd peer there))
]

-- The connections after the timers.
abbrev pub Expired : ℕ → Server → Server → Type 0
Expired now_ms s s' = IsIdle s' × ((fd : ℕ) → peer_at s' fd ≡ kept_at now_ms (peer_at s fd))

close_expired-Expired :
    (fuel now_ms : ℕ) (fds : List (Option Peer)) (idle : List ℕ)
    → length idle ≤ fuel
    → IsIdle (record { fd2conn = fds; idle_list = idle })
    → Expired now_ms
        (record { fd2conn = fds; idle_list = idle })
        (close_expired fuel (record { fd2conn = fds; idle_list = idle }) now_ms)
unfolding close_expired conn_destroy dlist_detach count
close_expired-Expired zero now_ms fds [] enough v = (v, all_closed now_ms fds v)
close_expired-Expired (suc fuel) now_ms fds [] enough v = (v, all_closed now_ms fds v)
close_expired-Expired zero now_ms fds (fd ∷ rest) enough v = absurd (omega arith)
close_expired-Expired (suc fuel) now_ms fds (fd ∷ rest) enough v =
    let wrap = no_wrap (time fds fd + k_idle_timeout_ms) (omega (arith, v.in_range fd)) in
    elim (Bool-cases (leb now_ms ((time fds fd + k_idle_timeout_ms) % 2 ^ 64))) [
      | inl on_time ↦ rw on_time (v, young fds fd rest now_ms v (ground (arith, wrap)))
      | inr late ↦
          let (valid, left) =
            close_expired-Expired fuel now_ms (set fds fd none) rest (omega arith)
              (head-IsIdle fds fd rest v) in
          rw (late, ==_refl fd)
            (valid, λ x. left x ∙ kept-emptied fds fd now_ms x (ground (arith, wrap)))
    ]

-- In a server whose idle list has every open connection once, in the order of activity, the timers
-- close exactly the connections that have been idle for longer than five seconds, and the list
-- stays so. The clock is assumed to be far from its end.
pub process_timers-Expired :
    (s : Server) (now_ms : ℕ) → IsIdle s → Expired now_ms s (process_timers s now_ms)
unfolding process_timers
process_timers-Expired s now_ms v =
    close_expired-Expired (length s.idle_list) now_ms s.fd2conn s.idle_list (omega arith) v
