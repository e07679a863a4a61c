-- ===== src/ThreadPool/Starting.antt =====
-- The start of a pool (src/thread_pool.cpp: `thread_pool_init`).
use apex_db.Prelude.{
  ℕ, zero, suc, ◌+◌, ◌<◌, ◌≡◌, refl, sym, ◌∙◌, ap, subst, Bool, true, false, not, ◌||◌, Bool-cases,
  inl, inr, ◌⊎◌, List, [], ◌∷◌, ◌++◌, arith, length, length-append, ◌==◌, ==_iff, if◌then◌else◌,
}
use apex_db.ThreadPool.{
  TheadPool, InitResult, started, invalid_argument, system_error, Created, thread, failed, is_empty,
  thread_pool_destroy, create_threads, thread_pool_init,
}

nil_of : (xs : List ℕ) → is_empty xs ≡ true → xs ≡ []
nil_of [] h = refl
nil_of (x ∷ xs) h = cc

not-not : (b : Bool) → b ≡ not (not b)
not-not true = refl
not-not false = refl

-- The threads are those that the calls of `pthread_create` from the one numbered `i` gave, in order.
unfoldable pub AreMade : (ℕ → Created) → ℕ → List ℕ → Type 0
AreMade create i [] = Unit
AreMade create i (t ∷ ts) = (create i ≡ thread t) × AreMade create (suc i) ts

AreMade-append :
    (create : ℕ → Created) (i n : ℕ) (ts : List ℕ) (t : ℕ)
    → AreMade create i ts
    → i + length ts ≡ n
    → create n ≡ thread t
    → AreMade create i (ts ++ t ∷ [])
unfolding AreMade
AreMade-append create i n [] t h e g = (ap create (omega (arith, e)) ∙ g, tt)
AreMade-append create i n (t' ∷ ts) t h e g =
    (h.0, AreMade-append create (suc i) n ts t h.1 (omega (arith, e)) g)

module _ {W : Type 0} where
  -- The pool after a failure that comes when some threads have been made: it was destroyed if there were
  -- any, and `left` is what the workers left in the queue.
  abbrev pub after_failure : TheadPool W → List ℕ → List W → TheadPool W
  after_failure p [] left = record p { stopping = false }
  after_failure p (_ ∷ _) left = record { threads = []; queue = left; stopping = true }

  -- Why a start throws a system error: the mutex could not be made, or the condition variable could not,
  -- or the call of `pthread_create` after those that made the threads `ts` failed.
  abbrev pub Cause : TheadPool W → ℕ → ℕ → ℕ → (ℕ → Created) → List W → ℕ → TheadPool W → Type 0
  Cause p num mutex cond create left error p' =
      ((0 < mutex) × (error ≡ mutex) × (p' ≡ p))
      ⊎ (((mutex ≡ 0) × (0 < cond) × (error ≡ cond) × (p' ≡ p))
          ⊎ ((mutex ≡ 0)
              × (cond ≡ 0)
              × ((ts : List ℕ) × AreMade create 0 ts
                  × (length ts < num)
                  × (create (length ts) ≡ failed error)
                  × (p' ≡ after_failure p ts left))))

  -- The result of a start: a pool of as many threads that takes works, when no call has failed; the pool
  -- unchanged where it was started before or where no thread was asked for; or an error with its cause.
  abbrev pub Outcome : TheadPool W → ℕ → ℕ → ℕ → (ℕ → Created) → List W → InitResult W → Type 0
  Outcome p num mutex cond create left (started p') =
      (p.threads ≡ [])
      × (0 < num)
      × (mutex ≡ 0)
      × (cond ≡ 0)
      × AreMade create 0 p'.threads
      × (length p'.threads ≡ num)
      × (p'.stopping ≡ false)
      × (p'.queue ≡ p.queue)
  Outcome p num mutex cond create left (invalid_argument p') =
      (p' ≡ p) × ((is_empty p.threads ≡ false) ⊎ (num ≡ 0))
  Outcome p num mutex cond create left (system_error error p') =
      (p.threads ≡ []) × (p'.threads ≡ []) × (0 < num) × Cause p num mutex cond create left error p'

  with_threads : TheadPool W → List ℕ → TheadPool W
  with_threads p ts = record { threads = ts; queue = p.queue; stopping = false }

  failure :
      (p : TheadPool W) (ts : List ℕ) (left : List W)
      → p.threads ≡ []
      → (if is_empty ts then with_threads p ts else thread_pool_destroy (with_threads p ts) left)
        ≡ after_failure p ts left
  unfolding thread_pool_destroy with_threads
  failure p [] left h =
      ap (λ ts. record { threads = ts; queue = p.queue; stopping = false }) (sym h)
  failure p (t ∷ ts) left h = refl

  failure-threads :
      (p : TheadPool W) (ts : List ℕ) (left : List W)
      → p.threads ≡ []
      → (after_failure p ts left).threads ≡ []
  failure-threads p [] left h = h
  failure-threads p (t ∷ ts) left h = refl

  create_threads-Outcome :
      (remaining : ℕ) (create : ℕ → Created) (i : ℕ) (ts : List ℕ) (p : TheadPool W) (left : List W)
      (num mutex cond : ℕ)
      → p.threads ≡ []
      → mutex ≡ 0
      → cond ≡ 0
      → AreMade create 0 ts
      → length ts ≡ i
      → remaining + i ≡ num
      → 0 < num
      → Outcome p num mutex cond create left
          (create_threads remaining create i (with_threads p ts) left)
  unfolding create_threads with_threads
  create_threads-Outcome zero create i ts p left num mutex cond none_yet m c made e f n =
      (none_yet, n, m, c, made, omega (arith, e, f), refl, refl)
  create_threads-Outcome (suc remaining) create i ts p left num mutex cond none_yet m c made e f n =
      elim (create i)
          as (λ r.
            create i ≡ r
            → Outcome p num mutex cond create left (elim r [
              | thread t ↦
                  create_threads remaining create (suc i) (with_threads p (ts ++ t ∷ [])) left
              | failed error ↦ system_error error (
                  if is_empty ts
                  then with_threads p ts
                  else thread_pool_destroy (with_threads p ts) left)
            ])) [
              | thread t ↦ λ g.
                  create_threads-Outcome remaining create (suc i) (ts ++ t ∷ []) p left num mutex
                    cond none_yet m c (AreMade-append create 0 i ts t made (omega (arith, e)) g)
                    (omega (arith, e, length-append ts (t ∷ []))) (omega (arith, f)) n
              | failed error ↦ λ g.
                  let ended = failure p ts left none_yet in
                  (
                    none_yet,
                    ap (λ (q : TheadPool W). q.threads) ended ∙ failure-threads p ts left none_yet,
                    n,
                    inr (inr (m, c, (ts, made, omega (arith, e, f), ap create e ∙ g, ended))),
                  )
            ]
        refl

  init-Outcome :
      (p : TheadPool W) (num mutex cond : ℕ) (create : ℕ → Created) (left : List W)
      (busy none_asked : Bool)
      → is_empty p.threads ≡ not busy
      → (num == 0) ≡ none_asked
      → Outcome p num mutex cond create left (
          if busy || none_asked
          then invalid_argument p
          else if not (mutex == 0)
          then system_error mutex p
          else if not (cond == 0)
          then system_error cond p
          else create_threads num create 0 (record p { stopping = false }) left)
  unfolding with_threads AreMade
  init-Outcome p num mutex cond create left true none_asked e g = (refl, inl e)
  init-Outcome p num mutex cond create left false true e g = (refl, inr ((==_iff num 0).0 g))
  init-Outcome p num mutex cond create left false false e g =
      let none_yet : p.threads ≡ [] = nil_of p.threads e in
      let n : 0 < num = ground (arith, g) in
      elim (Bool-cases (mutex == 0)) [
        | inr mutex_fails ↦
            rw mutex_fails (none_yet, none_yet, n, inl (ground (arith, mutex_fails), refl, refl))
        | inl mutex_good ↦
            let m : mutex ≡ 0 = (==_iff mutex 0).0 mutex_good in
            elim (Bool-cases (cond == 0)) [
              | inr cond_fails ↦
                  rw (mutex_good, cond_fails)
                    (none_yet, none_yet, n, inr (inl (m, ground (arith, cond_fails), refl, refl)))
              | inl cond_good ↦
                  rw (mutex_good, cond_good)
                    (subst
                      (λ q.
                        Outcome p num mutex cond create left (create_threads num create 0 q left))
                      (ap (λ ts. record { threads = ts; queue = p.queue; stopping = false })
                        (sym none_yet))
                      (create_threads-Outcome num create 0 [] p left num mutex cond none_yet m
                        ((==_iff cond 0).0 cond_good) tt refl (omega arith) n))
            ]
      ]

  -- A start gives a pool that is open, with the threads that the calls of `pthread_create` gave
  -- in order, as many as were asked for, and the queue as it was, and then no call has failed; or
  -- it refuses a pool that has threads or a size of zero, and changes nothing; or it throws the
  -- error of the first call that failed and leaves the pool without threads: as it was if the
  -- mutex or the condition variable could not be made, open if the first thread could not, and
  -- destroyed if a later one could not.
  pub thread_pool_init-Outcome :
      (p : TheadPool W) (num_threads mutex cond : ℕ) (create : ℕ → Created) (left : List W)
      → Outcome p num_threads mutex cond create left
          (thread_pool_init p num_threads mutex cond create left)
  unfolding thread_pool_init
  thread_pool_init-Outcome p num_threads mutex cond create left =
      init-Outcome p num_threads mutex cond create left (not (is_empty p.threads))
        (num_threads == 0) (not-not (is_empty p.threads)) refl
