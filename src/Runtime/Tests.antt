-- ===== src/Runtime/Tests.antt =====
-- A queue that wraps round its array, and a small array of channels.
use dswp_plus.Base.{
  ℕ, zero, suc, ◌≡◌, refl, ◌≢◌, ◌≤◌, ◌<◌, List, [], ◌∷◌, ◌++◌, length, get_or, arith, ◌⊎◌,
  if◌then◌else◌, ◌==◌,
}
use dswp_plus.Runtime.Queue.{queue_max_len, Queue, queue_init}
use dswp_plus.Runtime.Queue.Fifo.{contents}
use dswp_plus.Runtime.Monitor.{Monitor, push_elem, Reach, start, later, pop_waits, push, idle, Step}
use dswp_plus.Runtime.Monitor.Safety.{first_in_first_out, no_lost_wakeup}
use dswp_plus.Runtime.Monitor.Refine.{Action, silent, Does, action, IsDone, Step-refines}
use dswp_plus.Runtime.Channels.{
  num_queues, blank_queue, sync_init, sync_produce, sync_consume, returns, blocks, IsRuntime,
  channel, sync_init-IsRuntime, sync_produce-channel, sync_consume-channel,
}

abbrev repeat {ℓ} : {A : Type ℓ} → ℕ → A → List A
repeat zero a = []
repeat (suc n) a = a ∷ repeat n a

abbrev fresh : Queue
fresh = record { arr = repeat 32 0; head = 5; tail = 9; size = 4 }

-- A consumer waits, a producer pushes 7 and wakes it, and it takes 7.
abbrev woken : Monitor
woken =
    push_elem 7
      (record (idle (queue_init fresh)) { empty_cvar = record { waiting = 1; woken = 0 } })

handover : Reach (queue_init fresh) woken
unfolding queue_init
handover = later (later start (pop_waits refl)) (push 7 (omega arith))

first_in_first_out_example :
    (woken.pushed ≡ woken.popped ++ contents woken.queue) × (woken.queue.size ≤ queue_max_len)
first_in_first_out_example = first_in_first_out fresh refl handover

no_lost_wakeup_example :
    (woken.empty_cvar.waiting ≢ 0 → woken.empty_cvar.woken ≡ 0 → woken.queue.size ≡ 0)
    × (woken.full_cvar.waiting ≢ 0 → woken.full_cvar.woken ≡ 0 → woken.queue.size ≡ queue_max_len)
no_lost_wakeup_example = no_lost_wakeup fresh refl handover

Step-refines_example :
    ((m' : Monitor) (s : Step woken m') → Does (7 ∷ []) (action s) (contents m'.queue))
    × ((a : Action) (l : List ℕ) → Does (7 ∷ []) a l → a ≢ silent → IsDone woken a l)
unfolding queue_init push_elem dswp_plus.Runtime.Queue.put
Step-refines_example = Step-refines fresh woken refl handover

abbrev stale : List Queue
stale = repeat 256 fresh

stale-arrays : (c n : ℕ) → c < n → (get_or (repeat n fresh) c blank_queue).arr ≡ repeat 32 0
stale-arrays c zero h = elim h [ ]
stale-arrays zero (suc n) h = refl
stale-arrays (suc c) (suc n) h = stale-arrays c n (omega arith)

stale-lengths : (c : ℕ) → c < num_queues → length (get_or stale c blank_queue).arr ≡ queue_max_len
stale-lengths c h = rw (stale-arrays c 256 h) refl

sync_init-IsRuntime_example :
    IsRuntime (sync_init stale) × ((c : ℕ) → c < num_queues → channel (sync_init stale) c ≡ [])
sync_init-IsRuntime_example = sync_init-IsRuntime stale refl stale-lengths

sync_produce-channel_example :
    (sync_produce 7 255 (sync_init stale) ≡ blocks)
      × ((get_or (sync_init stale) 255 blank_queue).size ≡ queue_max_len)
    ⊎ ((queues' : List Queue) × (sync_produce 7 255 (sync_init stale) ≡ returns queues')
        × IsRuntime queues'
        × ((d : ℕ)
            → channel queues' d ≡ (
                if 255 == d
                then channel (sync_init stale) 255 ++ (7 ∷ [])
                else channel (sync_init stale) d)))
sync_produce-channel_example =
    sync_produce-channel 7 255 (sync_init stale) sync_init-IsRuntime_example.0 (omega arith)

sync_consume-channel_example :
    (sync_consume 3 (sync_init stale) ≡ blocks)
      × ((get_or (sync_init stale) 3 blank_queue).size ≡ 0)
    ⊎ ((elem : ℕ) × (queues' : List Queue) × (sync_consume 3 (sync_init stale)
          ≡ returns (elem, queues'))
        × IsRuntime queues'
        × (channel (sync_init stale) 3 ≡ elem ∷ channel queues' 3)
        × ((d : ℕ) → 3 ≢ d → channel queues' d ≡ channel (sync_init stale) d))
sync_consume-channel_example =
    sync_consume-channel 3 (sync_init stale) sync_init-IsRuntime_example.0 (omega arith)
