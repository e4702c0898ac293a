-- ===== src/Runtime/Queue/Fifo.antt =====
-- The contents of the buffer of runtime/queue.c as a list.
use dswp_plus.Base.{
  ℕ, zero, suc, ◌≡◌, refl, ◌≢◌, ap, ◌∙◌, ◌+◌, ◌-◌, ◌%◌, ◌≤◌, ◌<◌, List, [], ◌∷◌, ◌++◌, get_or, set,
  length, length-set, get_or-set, arith,
}
use dswp_plus.Runtime.Queue.{queue_max_len, Queue, queue_init, put, get}

-- The indices stay inside the array, and `tail` is `size` slots behind `head`.
pub record IsValid (q : Queue) : Type 0 where
  pub room : length q.arr ≡ queue_max_len
  pub head_lt : q.head < queue_max_len
  pub size_le : q.size ≤ queue_max_len
  pub tail_at : q.tail ≡ (q.head + q.size) % queue_max_len

-- The `n` elements from index `h` on, round the end of the array.
abbrev pub elements : List ℕ → ℕ → ℕ → List ℕ
elements arr h zero = []
elements arr h (suc n) = get_or arr h 0 ∷ elements arr ((h + 1) % queue_max_len) n

abbrev pub contents : Queue → List ℕ
contents q = elements q.arr q.head q.size

-- A write in the slot behind the last element adds it at the end.
elements-set :
    (arr : List ℕ) (e n h t : ℕ)
    → length arr ≡ queue_max_len
    → h < queue_max_len
    → n < queue_max_len
    → t ≡ (h + n) % queue_max_len
    → elements (set arr t e) h (suc n) ≡ elements arr h n ++ (e ∷ [])
elements-set arr e zero h t l hh hn q = ground (arith, get_or-set arr t h e 0)
elements-set arr e (suc n) h t l hh hn q =
    let rest =
      elements-set arr e n ((h + 1) % queue_max_len) t l (omega arith) (omega arith)
        (omega arith) in
    ground (arith, get_or-set arr t h e 0, rest)

pub queue_init-IsValid : (q : Queue) → length q.arr ≡ queue_max_len → IsValid (queue_init q)
unfolding queue_init
queue_init-IsValid q h = omega arith

-- Where `queue_push` does not wait, it keeps the invariant and appends its element.
pub put-contents :
    {q : Queue} (elem : ℕ)
    → IsValid q
    → q.size ≢ queue_max_len
    → IsValid (put q elem) × (contents (put q elem) ≡ contents q ++ (elem ∷ []))
unfolding put
put-contents {q} elem v ne = (
  record {
    room = length-set q.arr q.tail elem ∙ v.room;
    head_lt = v.head_lt;
    size_le = omega arith;
    tail_at = omega arith;
  },
  ap (elements (set q.arr q.tail elem) q.head) {y = suc q.size} (omega arith)
      ∙ elements-set q.arr elem q.size q.head q.tail v.room v.head_lt (omega arith) v.tail_at,
)

elements-pos :
    (arr : List ℕ) (h n : ℕ)
    → n ≢ 0
    → elements arr h n ≡ get_or arr h 0 ∷ elements arr ((h + 1) % queue_max_len) (n - 1)
elements-pos arr h zero ne = absurd (ne refl)
elements-pos arr h (suc n) ne =
    ap (λ k. get_or arr h 0 ∷ elements arr ((h + 1) % queue_max_len) k) (omega arith)

-- Where `queue_pop` does not wait, it keeps the invariant and takes the oldest element.
pub get-contents :
    {q : Queue}
    → IsValid q
    → q.size ≢ 0
    → IsValid (get q).1 × (contents q ≡ (get q).0 ∷ contents (get q).1)
unfolding get
get-contents {q} v ne = (omega arith, elements-pos q.arr q.head q.size ne)

pub size-put : (q : Queue) (elem : ℕ) → (put q elem).size ≡ q.size + 1
unfolding put
size-put q elem = refl

pub size-get : (q : Queue) → (get q).1.size ≡ q.size - 1
unfolding get
size-get q = refl
