-- ===== src/Runtime/Monitor.antt =====
-- runtime/queue.c under its mutex: producers and consumers of one queue, interleaved in any order.
-- A step is what one thread does while it holds the mutex: from `pthread_mutex_lock`, or from the
-- return of `pthread_cond_wait`, to the next wait or unlock. `pthread_cond_signal` wakes one thread
-- that waits on its variable, if any does; a thread may also wake without a signal.
pub mod Safety
pub mod Refine
use dswp_plus.Base.{ℕ, zero, suc, ◌≡◌, ◌≢◌, ◌+◌, List, [], ◌∷◌, ◌++◌}
use dswp_plus.Runtime.Queue.{queue_max_len, Queue, put, get}

-- How many threads wait on a condition variable, and how many have been woken from it but have not
-- got the mutex back yet.
pub record Waiters : Type 0 where
  pub waiting : ℕ
  pub woken : ℕ

abbrev pub nobody : Waiters
nobody = record { waiting = 0; woken = 0 }

-- `pushed` and `popped` record the elements in the order of the calls' critical sections.
pub record Monitor : Type 0 where
  pub queue : Queue
  pub full_cvar : Waiters
  pub empty_cvar : Waiters
  pub pushed : List ℕ
  pub popped : List ℕ

unfoldable pub wake : ℕ → Waiters → Waiters
wake zero w = w
wake (suc n) w = record { waiting = n; woken = w.woken + 1 }

-- `pthread_cond_signal`
unfoldable pub signal : Waiters → Waiters
unfolding wake
signal w = wake w.waiting w

-- The end of `queue_push`, once its `while` is passed.
unfoldable pub push_elem : ℕ → Monitor → Monitor
push_elem elem m = record m {
  queue = put m.queue elem;
  empty_cvar = signal m.empty_cvar;
  pushed = m.pushed ++ (elem ∷ []);
}

-- The end of `queue_pop`, once its `while` is passed.
unfoldable pub pop_elem : Monitor → Monitor
pop_elem m = record m {
  queue = (get m.queue).1;
  full_cvar = signal m.full_cvar;
  popped = m.popped ++ ((get m.queue).0 ∷ []);
}

-- Begin to wait; be woken without a signal; get the mutex back.
abbrev pub wait : Waiters → Waiters
wait w = record w { waiting = w.waiting + 1 }

abbrev pub return_from : ℕ → Waiters → Waiters
return_from n w = record w { woken = n }

pub data Step (m : Monitor) : Monitor → Type 0 where
  push : (elem : ℕ) → m.queue.size ≢ queue_max_len → Step m (push_elem elem m)
  push_waits : m.queue.size ≡ queue_max_len → Step m (record m { full_cvar = wait m.full_cvar })
  push_returns :
      (elem n : ℕ)
      → m.full_cvar.woken ≡ suc n
      → m.queue.size ≢ queue_max_len
      → Step m (push_elem elem (record m { full_cvar = return_from n m.full_cvar }))
  push_waits_again :
      (n : ℕ)
      → m.full_cvar.woken ≡ suc n
      → m.queue.size ≡ queue_max_len
      → Step m (record m { full_cvar = wait (return_from n m.full_cvar) })
  pop : m.queue.size ≢ 0 → Step m (pop_elem m)
  pop_waits : m.queue.size ≡ 0 → Step m (record m { empty_cvar = wait m.empty_cvar })
  pop_returns :
      (n : ℕ)
      → m.empty_cvar.woken ≡ suc n
      → m.queue.size ≢ 0
      → Step m (pop_elem (record m { empty_cvar = return_from n m.empty_cvar }))
  pop_waits_again :
      (n : ℕ)
      → m.empty_cvar.woken ≡ suc n
      → m.queue.size ≡ 0
      → Step m (record m { empty_cvar = wait (return_from n m.empty_cvar) })
  push_wakes : Step m (record m { full_cvar = signal m.full_cvar })
  pop_wakes : Step m (record m { empty_cvar = signal m.empty_cvar })

-- After `queue_init`, before any call.
abbrev pub idle : Queue → Monitor
idle q = record { queue = q; full_cvar = nobody; empty_cvar = nobody; pushed = []; popped = [] }

pub data Reach (q : Queue) : Monitor → Type 0 where
  start : Reach q (idle q)
  later : {m m' : Monitor} → Reach q m → Step m m' → Reach q m'
