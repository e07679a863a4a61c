-- ===== src/Tests/Threads.antt =====
-- A pool of one thread that is given one work, `5`, and is destroyed.
use apex_db.Prelude.{ℕ, zero, suc, ◌≡◌, refl, Bool, false, [], ◌∷◌, length}
use apex_db.HashTable.Chains.{count}
use apex_db.ThreadPool.{
  TheadPool, empty_pool, worker_turn, stop_workers, thread_pool_queue, thread_pool_init, Created,
  thread, failed, System, new_system, has_queued, has_turned, has_called, Steps, start, then,
  queue_step, turn_step, call_step, stop_step,
}
use apex_db.ThreadPool.Running.{returns, all_called}
use apex_db.ThreadPool.Starting.{Outcome, thread_pool_init-Outcome}

abbrev pool : TheadPool ℕ
pool = record { threads = 7 ∷ []; queue = []; stopping = false }

abbrev queued : System ℕ
queued = has_queued (new_system pool) 5

abbrev taken : System ℕ
taken = has_turned queued 0

abbrev called : System ℕ
called = has_called taken 0 5

abbrev stopped : System ℕ
stopped = record called { pool = stop_workers called.pool }

abbrev home : System ℕ
home = has_turned stopped 0

run : Steps (new_system pool) home
unfolding worker_turn stop_workers thread_pool_queue
run =
    then
      (then
        (then
          (then (then (start (new_system pool)) (queue_step (new_system pool) 5 refl refl))
            (turn_step queued 0 refl))
          (call_step taken 0 5 refl))
        (stop_step called))
      (turn_step stopped 0 refl)

all_home : returns home.workers ≡ length home.workers
unfolding worker_turn stop_workers thread_pool_queue
all_home = refl

all_called_example :
    (home.pool.queue ≡ []) × ((q : ℕ → Bool) → count q home.finished ≡ count q home.queued)
all_called_example = all_called pool home refl refl run all_home

-- The third of three calls fails, with the error 11.
abbrev third_fails : ℕ → Created
third_fails zero = thread 100
third_fails (suc zero) = thread 101
third_fails (suc (suc i)) = failed 11

thread_pool_init-Outcome_example :
    Outcome empty_pool 3 0 0 third_fails
      (8 ∷ [])
      (thread_pool_init (empty_pool {W = ℕ}) 3 0 0 third_fails (8 ∷ []))
thread_pool_init-Outcome_example =
    thread_pool_init-Outcome (empty_pool {W = ℕ}) 3 0 0 third_fails (8 ∷ [])
