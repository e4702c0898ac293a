-- ===== src/Runtime/Queue.antt =====
-- runtime/queue.c: the circular buffer. The mutex and the condition variables are in `Monitor`; here
-- are the statements that run while the mutex is held.
pub mod Fifo
use dswp_plus.Base.{ℕ, ◌+◌, ◌-◌, ◌%◌, List, get_or, set, length}

abbrev pub queue_max_len : ℕ
queue_max_len = 32

-- `queue_t` without its pthread objects. An element is any number.
pub record Queue : Type 0 where
  pub arr : List ℕ
  pub head : ℕ
  pub tail : ℕ
  pub size : ℕ

unfoldable pub queue_init : Queue → Queue
queue_init q = record q { head = 0; tail = 0; size = 0 }

-- `queue_push` behind its `while`, up to the signal.
unfoldable pub put : Queue → ℕ → Queue
put q elem = record q {
  arr = set q.arr q.tail elem;
  tail = (q.tail + 1) % queue_max_len;
  size = q.size + 1;
}

-- `queue_pop` behind its `while`, up to the signal: the value returned, and the queue.
unfoldable pub get : Queue → ℕ × Queue
get q = (get_or q.arr q.head 0, record q { head = (q.head + 1) % queue_max_len; size = q.size - 1 })
