-- ===== src/Runtime/Monitor/Safety.antt =====
-- Invariants of runtime/queue.c over every interleaving of its threads.
use mathlib.Core.List.{append_assoc}
use dswp_plus.Base.{
  ℕ, zero, suc, ◌≡◌, refl, sym, ap, ◌≢◌, ◌∙◌, ◌⊎◌, inl, inr, ◌+◌, ◌-◌, ◌≤◌, [], ◌∷◌, ◌++◌, arith,
  length,
}
use dswp_plus.Runtime.Queue.{queue_max_len, Queue, queue_init, get}
use dswp_plus.Runtime.Queue.Fifo.{
  IsValid, contents, queue_init-IsValid, put-contents, get-contents, size-put, size-get,
}
use dswp_plus.Runtime.Monitor.{
  Waiters, Monitor, wake, signal, push_elem, pop_elem, return_from, Step, push, push_waits,
  push_returns, push_waits_again, pop, pop_waits, pop_returns, pop_waits_again, push_wakes,
  pop_wakes, Reach, start, later,
}

-- What has been pushed is what has been popped, then what the queue holds.
abbrev pub InOrder : Monitor → Type 0
InOrder m = m.pushed ≡ m.popped ++ contents m.queue

-- While a consumer waits, each element has a consumer that is on its way; and while a producer
-- waits, each free slot has a producer that is.
pub record NoneLost (m : Monitor) : Type 0 where
  pub for_pop : m.empty_cvar.waiting ≢ 0 → m.queue.size ≤ m.empty_cvar.woken
  pub for_push : m.full_cvar.waiting ≢ 0 → queue_max_len - m.queue.size ≤ m.full_cvar.woken

pub record Inv (m : Monitor) : Type 0 where
  pub valid : IsValid m.queue
  pub in_order : InOrder m
  pub none_lost : NoneLost m

-- A signal moves one waiting thread, if there is one.
signal_parts :
    (w : Waiters)
    → (w.waiting ≡ 0) × ((signal w).waiting ≡ 0) × ((signal w).woken ≡ w.woken)
      ⊎ (w.waiting ≡ (signal w).waiting + 1) × ((signal w).woken ≡ w.woken + 1)
unfolding signal
signal_parts w = signal_cases w.waiting refl
  where
    signal_cases :
        (n : ℕ)
        → w.waiting ≡ n
        → (w.waiting ≡ 0) × ((wake w.waiting w).waiting ≡ 0) × ((wake w.waiting w).woken ≡ w.woken)
          ⊎ (w.waiting ≡ (wake w.waiting w).waiting + 1) × ((wake w.waiting w).woken ≡ w.woken + 1)
    signal_cases zero e = inl (ground arith)
    signal_cases (suc n) e = inr (ground arith)

push_elem-InOrder :
    (elem : ℕ) (m : Monitor)
    → IsValid m.queue
    → InOrder m
    → m.queue.size ≢ queue_max_len
    → IsValid (push_elem elem m).queue × InOrder (push_elem elem m)
unfolding push_elem
push_elem-InOrder elem m v o ne =
    let (v', e) = put-contents elem v ne in
    (
      v',
      ap (λ l. l ++ (elem ∷ [])) o
          ∙ append_assoc m.popped (contents m.queue) (elem ∷ [])
          ∙ ap (λ l. m.popped ++ l) (sym e),
    )

pop_elem-InOrder :
    (m : Monitor)
    → IsValid m.queue
    → InOrder m
    → m.queue.size ≢ 0
    → IsValid (pop_elem m).queue × InOrder (pop_elem m)
unfolding pop_elem
pop_elem-InOrder m v o ne =
    let (v', e) = get-contents v ne in
    (
      v',
      o
          ∙ ap (λ l. m.popped ++ l) e
          ∙ sym (append_assoc m.popped ((get m.queue).0 ∷ []) (contents (get m.queue).1)),
    )

-- A producer that passes its `while` signals one consumer; `n` of the woken producers are left.
push_elem-NoneLost :
    (elem : ℕ) (m : Monitor) (n : ℕ)
    → NoneLost m
    → m.queue.size ≤ queue_max_len
    → m.full_cvar.woken ≤ suc n
    → m.queue.size ≢ queue_max_len
    → NoneLost (push_elem elem (record m { full_cvar = return_from n m.full_cvar }))
unfolding push_elem
push_elem-NoneLost elem m n l v w ne = record {
  for_pop = λ h. ground (arith, signal_parts m.empty_cvar, l.for_pop, size-put m.queue elem);
  for_push = λ h. ground (arith, l.for_push, size-put m.queue elem);
}

pop_elem-NoneLost :
    (m : Monitor) (n : ℕ)
    → NoneLost m
    → m.queue.size ≤ queue_max_len
    → m.empty_cvar.woken ≤ suc n
    → m.queue.size ≢ 0
    → NoneLost (pop_elem (record m { empty_cvar = return_from n m.empty_cvar }))
unfolding pop_elem
pop_elem-NoneLost m n l v w ne = record {
  for_pop = λ h. ground (arith, l.for_pop, size-get m.queue);
  for_push = λ h. ground (arith, signal_parts m.full_cvar, l.for_push, size-get m.queue);
}

-- Every step keeps the invariant.
pub Step-Inv : {m m' : Monitor} → Step m m' → Inv m → Inv m'
Step-Inv {m} (push elem ne) i =
    let (v, o) = push_elem-InOrder elem m i.valid i.in_order ne in
    record {
      valid = v;
      in_order = o;
      none_lost =
          push_elem-NoneLost elem m m.full_cvar.woken i.none_lost i.valid.size_le (omega arith) ne;
    }
Step-Inv {m} (push_waits e) i = record {
  valid = i.valid;
  in_order = i.in_order;
  none_lost = record { for_pop = i.none_lost.for_pop; for_push = λ h. omega arith };
}
Step-Inv {m} (push_returns elem n e ne) i =
    let m' = record m { full_cvar = return_from n m.full_cvar } in
    let (v, o) = push_elem-InOrder elem m' i.valid i.in_order ne in
    record {
      valid = v;
      in_order = o;
      none_lost = push_elem-NoneLost elem m n i.none_lost i.valid.size_le (omega arith) ne;
    }
Step-Inv {m} (push_waits_again n e f) i = record {
  valid = i.valid;
  in_order = i.in_order;
  none_lost = record { for_pop = i.none_lost.for_pop; for_push = λ h. omega arith };
}
Step-Inv {m} (pop ne) i =
    let (v, o) = pop_elem-InOrder m i.valid i.in_order ne in
    record {
      valid = v;
      in_order = o;
      none_lost =
          pop_elem-NoneLost m m.empty_cvar.woken i.none_lost i.valid.size_le (omega arith) ne;
    }
Step-Inv {m} (pop_waits e) i = record {
  valid = i.valid;
  in_order = i.in_order;
  none_lost = record { for_pop = λ h. omega arith; for_push = i.none_lost.for_push };
}
Step-Inv {m} (pop_returns n e ne) i =
    let m' = record m { empty_cvar = return_from n m.empty_cvar } in
    let (v, o) = pop_elem-InOrder m' i.valid i.in_order ne in
    record {
      valid = v;
      in_order = o;
      none_lost = pop_elem-NoneLost m n i.none_lost i.valid.size_le (omega arith) ne;
    }
Step-Inv {m} (pop_waits_again n e f) i = record {
  valid = i.valid;
  in_order = i.in_order;
  none_lost = record { for_pop = λ h. omega arith; for_push = i.none_lost.for_push };
}
Step-Inv {m} push_wakes i = record {
  valid = i.valid;
  in_order = i.in_order;
  none_lost = record {
    for_pop = i.none_lost.for_pop;
    for_push = λ h. ground (arith, signal_parts m.full_cvar, i.none_lost.for_push);
  };
}
Step-Inv {m} pop_wakes i = record {
  valid = i.valid;
  in_order = i.in_order;
  none_lost = record {
    for_pop = λ h. ground (arith, signal_parts m.empty_cvar, i.none_lost.for_pop);
    for_push = i.none_lost.for_push;
  };
}

pub Reach-Inv :
    (q : Queue) {m : Monitor} → length q.arr ≡ queue_max_len → Reach (queue_init q) m → Inv m
unfolding queue_init
Reach-Inv q h start = record {
  valid = queue_init-IsValid q h;
  in_order = refl;
  none_lost = record { for_pop = λ n. absurd (n refl); for_push = λ n. absurd (n refl) };
}
Reach-Inv q h (later r st) = Step-Inv st (Reach-Inv q h r)

-- Whatever the order in which the threads get the mutex: the elements that were pushed are those
-- that were popped, in the same order, followed by those that the buffer holds, and the buffer holds
-- `QUEUE_MAXLEN` at most.
pub first_in_first_out :
    (q : Queue) {m : Monitor}
    → length q.arr ≡ queue_max_len
    → Reach (queue_init q) m
    → (m.pushed ≡ m.popped ++ contents m.queue) × (m.queue.size ≤ queue_max_len)
first_in_first_out q h r = let i = Reach-Inv q h r in (i.in_order, i.valid.size_le)

-- No thread sleeps through its chance: where consumers wait and none of them has been woken, the
-- queue is empty, and where producers wait and none of them has been woken, it is full.
pub no_lost_wakeup :
    (q : Queue) {m : Monitor}
    → length q.arr ≡ queue_max_len
    → Reach (queue_init q) m
    → (m.empty_cvar.waiting ≢ 0 → m.empty_cvar.woken ≡ 0 → m.queue.size ≡ 0)
      × (m.full_cvar.waiting ≢ 0 → m.full_cvar.woken ≡ 0 → m.queue.size ≡ queue_max_len)
no_lost_wakeup q h r =
    let i = Reach-Inv q h r in
    (
      λ w n. omega (arith, i.none_lost.for_pop w),
      λ w n. omega (arith, i.none_lost.for_push w, i.valid.size_le),
    )
