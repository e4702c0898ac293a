-- ===== src/Runtime/Monitor/Refine.antt =====
-- runtime/queue.c against a bounded queue: a list of elements without pointers, waiting or signals.
use dswp_plus.Base.{
  ℕ, zero, suc, ◌≡◌, refl, sym, ap, ◌≢◌, ◌∙◌, ◌<◌, ◌+◌, ◌%◌, List, [], ◌∷◌, ◌++◌, arith, length,
}
use dswp_plus.Runtime.Queue.{queue_max_len, Queue, queue_init, get}
use dswp_plus.Runtime.Queue.Fifo.{IsValid, elements, contents, put-contents, get-contents}
use dswp_plus.Runtime.Monitor.{
  Monitor, push_elem, pop_elem, return_from, Step, push, push_waits, push_returns, push_waits_again,
  pop, pop_waits, pop_returns, pop_waits_again, push_wakes, pop_wakes, Reach,
}
use dswp_plus.Runtime.Monitor.Safety.{Reach-Inv}

-- What others see of a step: an element that `queue_push` adds, one that `queue_pop` returns, or
-- nothing.
pub data Action : Type 0 where
  adds takes : ℕ → Action
  silent : Action

-- The bounded queue: its steps on the list of its elements.
pub data Does : List ℕ → Action → List ℕ → Type 0 where
  add : {l : List ℕ} (e : ℕ) → length l < queue_max_len → Does l (adds e) (l ++ (e ∷ []))
  take_first : {l : List ℕ} (e : ℕ) → Does (e ∷ l) (takes e) l
  nothing : {l : List ℕ} → Does l silent l

abbrev pub action : {m m' : Monitor} → Step m m' → Action
action (push elem ne) = adds elem
action (push_waits e) = silent
action (push_returns elem n e ne) = adds elem
action (push_waits_again n e f) = silent
action {m} (pop ne) = takes (get m.queue).0
action (pop_waits e) = silent
action {m} (pop_returns n e ne) = takes (get m.queue).0
action (pop_waits_again n e f) = silent
action push_wakes = silent
action pop_wakes = silent

length-elements : (arr : List ℕ) (h n : ℕ) → length (elements arr h n) ≡ n
length-elements arr h zero = refl
length-elements arr h (suc n) = omega (arith, length-elements arr ((h + 1) % queue_max_len) n)

Does-put :
    (elem : ℕ) (m : Monitor)
    → IsValid m.queue
    → m.queue.size ≢ queue_max_len
    → Does (contents m.queue) (adds elem) (contents (push_elem elem m).queue)
unfolding push_elem
Does-put elem m v ne =
    let room : length (contents m.queue) < queue_max_len =
      omega (arith, length-elements m.queue.arr m.queue.head m.queue.size, v.size_le) in
    rw ((put-contents elem v ne).1) (add elem room)

Does-get :
    (m : Monitor)
    → IsValid m.queue
    → m.queue.size ≢ 0
    → Does (contents m.queue) (takes (get m.queue).0) (contents (pop_elem m).queue)
unfolding pop_elem
Does-get m v ne = rw ((get-contents v ne).1) (take_first (get m.queue).0)

Step-Does :
    {m m' : Monitor}
    → IsValid m.queue
    → (s : Step m m') → Does (contents m.queue) (action s) (contents m'.queue)
Step-Does {m} v (push elem ne) = Does-put elem m v ne
Step-Does v (push_waits e) = nothing
Step-Does {m} v (push_returns elem n e ne) =
    Does-put elem (record m { full_cvar = return_from n m.full_cvar }) v ne
Step-Does v (push_waits_again n e f) = nothing
Step-Does {m} v (pop ne) = Does-get m v ne
Step-Does v (pop_waits e) = nothing
Step-Does {m} v (pop_returns n e ne) =
    Does-get (record m { empty_cvar = return_from n m.empty_cvar }) v ne
Step-Does v (pop_waits_again n e f) = nothing
Step-Does v push_wakes = nothing
Step-Does v pop_wakes = nothing

-- A step that has the action and leaves the list.
abbrev pub IsDone : Monitor → Action → List ℕ → Type 0
IsDone m a l = (m' : Monitor) × (s : Step m m') × (action s ≡ a) × (contents m'.queue ≡ l)

Does-IsDone :
    (m : Monitor) (l : List ℕ) (a : Action) (l' : List ℕ)
    → IsValid m.queue
    → contents m.queue ≡ l
    → Does l a l'
    → a ≢ silent
    → IsDone m a l'
unfolding push_elem pop_elem
Does-IsDone m l a l' v e (add elem room) loud =
    let n = length-elements m.queue.arr m.queue.head m.queue.size in
    let ne : m.queue.size ≢ queue_max_len = λ s. omega (arith, n, ap length e, room, s) in
    (
      push_elem elem m,
      push elem ne,
      refl,
      (put-contents elem v ne).1 ∙ ap (λ k. k ++ (elem ∷ [])) e,
    )
Does-IsDone m l a l' v e (take_first elem) loud =
    let n = length-elements m.queue.arr m.queue.head m.queue.size in
    let ne : m.queue.size ≢ 0 = λ s. omega (arith, n, ap length e, s) in
    let same : (get m.queue).0 ∷ contents (get m.queue).1 ≡ elem ∷ l' =
      sym (get-contents v ne).1 ∙ e in
    let first : (get m.queue).0 ≡ elem = cc in
    let rest : contents (get m.queue).1 ≡ l' = cc in (pop_elem m, pop ne, ap takes first, rest)
Does-IsDone m l a l' v e nothing loud = absurd (loud refl)

-- Seen through the contents of its buffer, a queue that its threads have brought anywhere from
-- `queue_init` is the bounded queue. Each step of a thread, whichever it is, is a step of the bounded
-- queue with the same action; and each element that the bounded queue can add or give out, a thread
-- can push or pop in one step, which leaves the same list.
pub Step-refines :
    (q : Queue) (m : Monitor)
    → length q.arr ≡ queue_max_len
    → Reach (queue_init q) m
    → ((m' : Monitor) (s : Step m m') → Does (contents m.queue) (action s) (contents m'.queue))
      × ((a : Action) (l : List ℕ) → Does (contents m.queue) a l → a ≢ silent → IsDone m a l)
Step-refines q m h r =
    let v = (Reach-Inv q h r).valid in
    (λ m' s. Step-Does v s, λ a l d loud. Does-IsDone m (contents m.queue) a l v refl d loud)
