-- ===== src/ThreadPool/Running.antt =====
-- The steps of a running pool (src/thread_pool.cpp: `worker`, `thread_pool_queue`, `thread_pool_destroy`).
use apex_db.Prelude.{
  ℕ, zero, suc, ◌+◌, ◌≤◌, ◌<◌, ◌≡◌, refl, sym, ◌∙◌, ap, Bool, true, false, List, [], ◌∷◌, ◌++◌,
  some, arith, length, length-set, length-replicate, replicate, set, get_elem?, append-nil,
  append_assoc,
}
use apex_db.HashTable.Chains.{count, count-append}
use apex_db.ThreadPool.{
  TheadPool, Worker, ready, calling, returned, is_empty, worker_turn, stop_workers,
  thread_pool_queue, System, takes, has_turned, has_queued, new_system, Step, queue_step, turn_step,
  call_step, stop_step, Steps, start, then,
}

open_closed : {b : Bool} → b ≡ false → b ≡ true → ⊥
open_closed h k = cc

some-same : {A : Type 0} {a b : A} → some a ≡ some b → a ≡ b
some-same h = cc

not_empty : {W : Type 0} {w : W} {ws : List W} → w ∷ ws ≡ [] → ⊥
not_empty h = cc

module _ {W : Type 0} where
  -- How many workers are at a call of such a work, and how many have returned.
  abbrev pub calls : (W → Bool) → List (Worker W) → ℕ
  calls q [] = 0
  calls q (worker ∷ ws) = count q (takes worker) + calls q ws

  abbrev pub one_return : Worker W → ℕ
  one_return returned = 1
  one_return _ = 0

  abbrev pub returns : List (Worker W) → ℕ
  returns [] = 0
  returns (worker ∷ ws) = one_return worker + returns ws

  calls-set :
      (q : W → Bool) (ws : List (Worker W)) (i : ℕ) (old new : Worker W)
      → get_elem? ws i ≡ some old
      → calls q (set ws i new) + count q (takes old) ≡ calls q ws + count q (takes new)
  calls-set q [] i old new h = cc
  calls-set q (worker ∷ ws) zero old new h =
      let e : worker ≡ old = some-same h in omega (arith, ap (λ w. count q (takes w)) e)
  calls-set q (worker ∷ ws) (suc i) old new h = omega (arith, calls-set q ws i old new h)

  returns-set :
      (ws : List (Worker W)) (i : ℕ) (old new : Worker W)
      → get_elem? ws i ≡ some old
      → returns (set ws i new) + one_return old ≡ returns ws + one_return new
  returns-set [] i old new h = cc
  returns-set (worker ∷ ws) zero old new h =
      let e : worker ≡ old = some-same h in omega (arith, ap one_return e)
  returns-set (worker ∷ ws) (suc i) old new h = omega (arith, returns-set ws i old new h)

  -- Works are taken in the order in which they were queued; each that was taken has been called to its
  -- end or is at a call; and a worker returns only when no work is left and none can come.
  pub record IsRunning (s : System W) : Type 0 where
    pub order : s.queued ≡ s.taken ++ s.pool.queue
    pub balance : (q : W → Bool) → count q s.taken ≡ count q s.finished + calls q s.workers
    pub closed : 0 < returns s.workers → (s.pool.stopping ≡ true) × (s.pool.queue ≡ [])
    pub staffed : length s.workers ≡ length s.pool.threads

  turn-IsRunning :
      (threads : List ℕ) (queue : List W) (stopping : Bool) (workers : List (Worker W))
      (queued taken finished : List W) (i : ℕ)
      → let s : System W = record {
        pool = record { threads = threads; queue = queue; stopping = stopping };
        workers = workers;
        queued = queued;
        taken = taken;
        finished = finished;
      } in
        get_elem? workers i ≡ some ready → IsRunning s → IsRunning (has_turned s i)
  unfolding worker_turn count
  turn-IsRunning threads [] false workers queued taken finished i at v = record {
    order = v.order ∙ simp (append-nil);
    balance = λ q.
        omega (arith, v.balance q, calls-set q workers i ready ready at, count-append q taken []);
    closed = λ h. v.closed (omega (arith, returns-set workers i ready ready at));
    staffed = length-set workers i ready ∙ v.staffed;
  }
  turn-IsRunning threads [] true workers queued taken finished i at v = record {
    order = v.order ∙ simp (append-nil);
    balance = λ q.
        omega
          (arith, v.balance q, calls-set q workers i ready returned at, count-append q taken []);
    closed = λ h. (refl, refl);
    staffed = length-set workers i returned ∙ v.staffed;
  }
  turn-IsRunning threads (w ∷ queue) stopping workers queued taken finished i at v = record {
    order = v.order ∙ simp (append_assoc);
    balance = λ q. omega (
      arith,
      v.balance q,
      calls-set q workers i ready (calling w) at,
      count-append q taken (w ∷ []),
    );
    closed = λ h.
        absurd (not_empty (v.closed (omega (arith, returns-set workers i ready (calling w) at))).1);
    staffed = length-set workers i (calling w) ∙ v.staffed;
  }

  queue-IsRunning :
      (s : System W) (w : W)
      → is_empty s.pool.threads ≡ false
      → s.pool.stopping ≡ false
      → IsRunning s
      → IsRunning (has_queued s w)
  unfolding thread_pool_queue
  queue-IsRunning s w busy on v = rw busy (record {
    order = ap (λ xs. xs ++ w ∷ []) v.order ∙ simp (append_assoc);
    balance = λ q. omega (arith, v.balance q, ap (count q) (append-nil s.finished));
    closed = λ h. absurd (open_closed on (v.closed h).0);
    staffed = v.staffed;
  })

  Step-IsRunning : {s t : System W} → Step s t → IsRunning s → IsRunning t
  unfolding stop_workers count
  Step-IsRunning (queue_step s w busy on) v = queue-IsRunning s w busy on v
  Step-IsRunning (turn_step s i at) v =
      turn-IsRunning s.pool.threads s.pool.queue s.pool.stopping s.workers s.queued s.taken
        s.finished i at v
  Step-IsRunning (call_step s i w at) v = record {
    order = v.order;
    balance = λ q. omega (
      arith,
      v.balance q,
      calls-set q s.workers i (calling w) ready at,
      count-append q s.finished (w ∷ []),
    );
    closed = λ h. v.closed (omega (arith, returns-set s.workers i (calling w) ready at));
    staffed = length-set s.workers i ready ∙ v.staffed;
  }
  Step-IsRunning (stop_step s) v = record {
    order = v.order;
    balance = v.balance;
    closed = λ h. (refl, (v.closed h).1);
    staffed = v.staffed;
  }

returns_none : (W : Type 0) (n : ℕ) → returns (replicate {A = Worker W} n ready) ≡ 0
returns_none W zero = refl
returns_none W (suc n) = omega (arith, returns_none W n)

some_length : (xs : List ℕ) → is_empty xs ≡ false → 0 < length xs
some_length [] h = cc
some_length (x ∷ xs) h = omega arith

module _ {W : Type 0} where
  calls_none : (q : W → Bool) (n : ℕ) → 0 + calls q (replicate n ready) ≡ 0
  unfolding count
  calls_none q zero = omega arith
  calls_none q (suc n) = omega (arith, calls_none q n)

  returns_bound : (ws : List (Worker W)) → returns ws ≤ length ws
  returns_bound [] = omega arith
  returns_bound (ready ∷ ws) = omega (arith, returns_bound ws)
  returns_bound (calling w ∷ ws) = omega (arith, returns_bound ws)
  returns_bound (returned ∷ ws) = omega (arith, returns_bound ws)

  calls_home : (q : W → Bool) (ws : List (Worker W)) → returns ws ≡ length ws → calls q ws ≡ 0
  unfolding count
  calls_home q [] h = refl
  calls_home q (ready ∷ ws) h = absurd (omega (arith, returns_bound ws))
  calls_home q (calling w ∷ ws) h = absurd (omega (arith, returns_bound ws))
  calls_home q (returned ∷ ws) h = omega (arith, calls_home q ws (omega arith))

  run_lem : {s t : System W} → Steps s t → IsRunning s → IsRunning t
  run_lem (start s) v = v
  run_lem (then steps step) v = Step-IsRunning step (run_lem steps v)

  turn-threads :
      (threads : List ℕ) (queue : List W) (stopping : Bool)
      → (worker_turn (record { threads = threads; queue = queue; stopping = stopping })).0.threads
        ≡ threads
  unfolding worker_turn
  turn-threads threads [] false = refl
  turn-threads threads [] true = refl
  turn-threads threads (w ∷ queue) stopping = refl

  -- No step changes the threads.
  Step-threads : {s t : System W} → Step s t → t.pool.threads ≡ s.pool.threads
  unfolding thread_pool_queue stop_workers
  Step-threads (queue_step s w busy on) = rw busy refl
  Step-threads (turn_step s i at) = turn-threads s.pool.threads s.pool.queue s.pool.stopping
  Step-threads (call_step s i w at) = refl
  Step-threads (stop_step s) = refl

  Steps-threads : {s t : System W} → Steps s t → t.pool.threads ≡ s.pool.threads
  Steps-threads (start s) = refl
  Steps-threads (then steps step) = Step-threads step ∙ Steps-threads steps

  new_system-IsRunning : (p : TheadPool W) → p.queue ≡ [] → IsRunning (new_system p)
  unfolding count
  new_system-IsRunning p e = record {
    order = sym e;
    balance = λ q. sym (calls_none q (length p.threads));
    closed = λ h. absurd (omega (arith, returns_none W (length p.threads)));
    staffed = length-replicate (length p.threads) ready;
  }

  pub Steps-IsRunning :
      (p : TheadPool W) (s : System W) → p.queue ≡ [] → Steps (new_system p) s → IsRunning s
  Steps-IsRunning p s e run = run_lem run (new_system-IsRunning p e)

  -- However the workers and the clients take turns, no work is called more often than it was queued,
  -- and works are taken in the order in which they were queued.
  pub called_once :
      (p : TheadPool W) (s : System W)
      → p.queue ≡ []
      → Steps (new_system p) s
      → ((q : W → Bool) → count q s.finished + calls q s.workers ≤ count q s.queued)
        × (s.queued ≡ s.taken ++ s.pool.queue)
  called_once p s e run =
      let v = Steps-IsRunning p s e run in
      (
        λ q. omega (arith, v.balance q, ap (count q) v.order, count-append q s.taken s.pool.queue),
        v.order,
      )

  -- When the threads of a pool that began with an empty queue have all returned, as
  -- `thread_pool_destroy` awaits, nothing is left in the queue and every work that was queued has
  -- been called to its end exactly once, in whatever order the workers and the clients took their
  -- steps. No client queues a work once the pool is stopped.
  pub all_called :
      (p : TheadPool W) (s : System W)
      → p.queue ≡ []
      → is_empty p.threads ≡ false
      → Steps (new_system p) s
      → returns s.workers ≡ length s.workers
      → (s.pool.queue ≡ []) × ((q : W → Bool) → count q s.finished ≡ count q s.queued)
  unfolding count
  all_called p s e some_thread run home =
      let v = Steps-IsRunning p s e run in
      let many : 0 < returns s.workers = omega (
        arith,
        home,
        v.staffed,
        ap length (Steps-threads run),
        some_length p.threads some_thread,
      ) in
      let empty : s.pool.queue ≡ [] = (v.closed many).1 in
      (
        empty,
        λ q. omega (
          arith,
          v.balance q,
          ap (count q) v.order,
          count-append q s.taken s.pool.queue,
          ap (count q) empty,
          calls_home q s.workers home,
        ),
      )
