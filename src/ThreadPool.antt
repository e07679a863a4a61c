-- ===== src/ThreadPool.antt =====
-- The thread pool (src/thread_pool.cpp, include/thread_pool.hpp). What a worker does between locking
-- and unlocking the mutex is one turn; the work itself, a function and its argument, is a label.
-- The results of the pthread calls are arguments.
pub mod Running
pub mod Starting
use apex_db.Prelude.{
  ℕ, zero, suc, ◌+◌, Bool, true, false, not, ◌&&◌, ◌||◌, List, [], ◌∷◌, ◌++◌, Option, none, some,
  ◌==◌, if◌then◌else◌, length, replicate, set, get_elem?, ◌≡◌, All,
}

-- `threads` are the identifiers that `pthread_create` gave.
pub record TheadPool (W : Type 0) : Type 0 where
  pub threads : List ℕ
  pub queue : List W
  pub stopping : Bool

-- Where a worker stands: before the lock, at the call of a work, or returned.
pub data Worker (W : Type 0) : Type 0 where
  ready : Worker W
  calling : W → Worker W
  returned : Worker W

-- What `thread_pool_init` does: it returns, or throws one of two exceptions.
pub data InitResult (W : Type 0) : Type 0 where
  started : TheadPool W → InitResult W
  invalid_argument : TheadPool W → InitResult W
  system_error : ℕ → TheadPool W → InitResult W

pub data Created : Type 0 where
  thread : ℕ → Created
  failed : ℕ → Created

module _ {A : Type 0} where
  abbrev pub is_empty : List A → Bool
  is_empty [] = true
  is_empty (_ ∷ _) = false

module _ {W : Type 0} where
  -- `TheadPool{}`
  abbrev pub empty_pool : TheadPool W
  empty_pool = record { threads = []; queue = []; stopping = false }

  -- One turn of `worker`, from the lock to the unlock, or to the wait in which the lock is given up.
  unfoldable pub worker_turn : TheadPool W → TheadPool W × Worker W
  worker_turn p = elim p.queue [
    | [] ↦ if p.stopping then (p, returned) else (p, ready)
    | w ∷ rest ↦ (record p { queue = rest }, calling w)
  ]

  -- The first part of `thread_pool_destroy`, up to the unlock.
  unfoldable pub stop_workers : TheadPool W → TheadPool W
  stop_workers p = record p { stopping = true }

  -- `thread_pool_destroy`; `left` is the queue when all workers have returned.
  unfoldable pub thread_pool_destroy : TheadPool W → List W → TheadPool W
  unfolding stop_workers
  thread_pool_destroy p left =
      if is_empty p.threads then p else record (stop_workers p) { threads = []; queue = left }

  -- The loop of `thread_pool_init` over the results of `pthread_create`, for `remaining` more threads.
  unfoldable pub create_threads : ℕ → (ℕ → Created) → ℕ → TheadPool W → List W → InitResult W
  create_threads zero create i p left = started p
  create_threads (suc remaining) create i p left = elim (create i) [
    | thread t ↦
        create_threads remaining create (suc i) (record p { threads = p.threads ++ t ∷ [] }) left
    | failed error ↦
        system_error error (if is_empty p.threads then p else thread_pool_destroy p left)
  ]

  -- `mutex` and `cond` are the errors of the two `init` calls, 0 for none.
  unfoldable pub thread_pool_init : TheadPool W → ℕ → ℕ → ℕ → (ℕ → Created) → List W → InitResult W
  thread_pool_init p num_threads mutex cond create left =
      if not (is_empty p.threads) || (num_threads == 0)
      then invalid_argument p
      else if not (mutex == 0)
      then system_error mutex p
      else if not (cond == 0)
      then system_error cond p
      else create_threads num_threads create 0 (record p { stopping = false }) left

  -- The pool, and the works that the caller runs itself.
  unfoldable pub thread_pool_queue : TheadPool W → W → TheadPool W × List W
  thread_pool_queue p w =
      if is_empty p.threads then (p, w ∷ []) else (record p { queue = p.queue ++ w ∷ [] }, [])

-- A running pool: its workers, the works in the order in which they were queued and taken, and those
-- whose call has ended.
pub record System (W : Type 0) : Type 0 where
  pub pool : TheadPool W
  pub workers : List (Worker W)
  pub queued : List W
  pub taken : List W
  pub finished : List W

module _ {W : Type 0} where
  abbrev pub takes : Worker W → List W
  takes (calling w) = w ∷ []
  takes _ = []

  -- The pool that `thread_pool_init` has made.
  abbrev pub new_system : TheadPool W → System W
  new_system p = record {
    pool = p;
    workers = replicate (length p.threads) ready;
    queued = [];
    taken = [];
    finished = [];
  }

  abbrev pub has_queued : System W → W → System W
  has_queued s w = record s {
    pool = (thread_pool_queue s.pool w).0;
    queued = s.queued ++ w ∷ [];
    finished = s.finished ++ (thread_pool_queue s.pool w).1;
  }

  abbrev pub has_turned : System W → ℕ → System W
  has_turned s i = record s {
    pool = (worker_turn s.pool).0;
    workers = set s.workers i (worker_turn s.pool).1;
    taken = s.taken ++ takes (worker_turn s.pool).1;
  }

  abbrev pub has_called : System W → ℕ → W → System W
  has_called s i w = record s { workers = set s.workers i ready; finished = s.finished ++ w ∷ [] }

  -- A step of the pool: a client queues a work while the pool is not being destroyed, a worker has its
  -- turn or ends a call, or a client starts to destroy the pool.
  pub data Step : System W → System W → Type 0 where
    queue_step :
        (s : System W) (w : W)
        → is_empty s.pool.threads ≡ false
        → s.pool.stopping ≡ false
        → Step s (has_queued s w)
    turn_step :
        (s : System W) (i : ℕ) → get_elem? s.workers i ≡ some ready → Step s (has_turned s i)
    call_step :
        (s : System W) (i : ℕ) (w : W)
        → get_elem? s.workers i ≡ some (calling w)
        → Step s (has_called s i w)
    stop_step : (s : System W) → Step s (record s { pool = stop_workers s.pool })

  pub data Steps : System W → System W → Type 0 where
    start : (s : System W) → Steps s s
    then : {a b c : System W} → Steps a b → Step b c → Steps a c
