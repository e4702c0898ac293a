-- ===== src/Runtime/Channels.antt =====
-- runtime/simple_sync.c: the array of queues, one for each channel. The handles of the threads are in
-- `Threads`; the text that the functions print is not modelled.
use dswp_plus.Base.{
  ℕ, zero, suc, ◌≡◌, refl, ap, ◌≢◌, ◌∙◌, ◌<◌, List, [], ◌∷◌, ◌++◌, get_or, set, length, length-set,
  get_or-set, arith, ◌==◌, ltb, if◌then◌else◌, Bool-cases, inl, inr, ◌⊎◌, ==_self, eq-of-==,
}
use dswp_plus.Runtime.Queue.{queue_max_len, Queue, queue_init, put, get}
use dswp_plus.Runtime.Queue.Fifo.{IsValid, contents, queue_init-IsValid, put-contents, get-contents}

abbrev pub num_queues : ℕ
num_queues = 256

abbrev zeros : ℕ → List ℕ
zeros zero = []
zeros (suc n) = 0 ∷ zeros n

-- An element of `static queue_t data_queues[NUM_QUEUES] = {}`.
abbrev pub blank_queue : Queue
blank_queue = record { arr = zeros queue_max_len; head = 0; tail = 0; size = 0 }

-- The result of a call by one thread: it returns, it waits for another thread, or it names a queue
-- outside the array, which C leaves undefined.
pub data Call {ℓ} (A : Type ℓ) : Type ℓ where
  returns : A → Call A
  blocks : Call A
  out_of_bounds : Call A

unfoldable pub sync_produce : ℕ → ℕ → List Queue → Call (List Queue)
unfolding put
sync_produce elem val_id queues =
    let q = get_or queues val_id blank_queue in
    if ltb val_id (length queues)
    then (if q.size == queue_max_len then blocks else returns (set queues val_id (put q elem)))
    else out_of_bounds

unfoldable pub sync_consume : ℕ → List Queue → Call (ℕ × List Queue)
unfolding get
sync_consume val_id queues =
    let q = get_or queues val_id blank_queue in
    if ltb val_id (length queues)
    then (if q.size == 0 then blocks else returns ((get q).0, set queues val_id (get q).1))
    else out_of_bounds

-- The loop of `sync_init`.
unfoldable pub sync_init : List Queue → List Queue
unfolding queue_init
sync_init [] = []
sync_init (q ∷ qs) = queue_init q ∷ sync_init qs

-- What a channel holds.
abbrev pub channel : List Queue → ℕ → List ℕ
channel queues c = contents (get_or queues c blank_queue)

-- The array has its size, and every queue of it is valid.
pub record IsRuntime (queues : List Queue) : Type 0 where
  pub size : length queues ≡ num_queues
  pub valid : (c : ℕ) → c < num_queues → IsValid (get_or queues c blank_queue)

-- `sync_produce` on a channel of the array keeps the array valid. It waits exactly if that channel
-- holds `QUEUE_MAXLEN` elements, and otherwise appends its element there and leaves the others.
pub sync_produce-channel :
    (elem c : ℕ) (queues : List Queue)
    → IsRuntime queues
    → c < num_queues
    → (sync_produce elem c queues ≡ blocks) × ((get_or queues c blank_queue).size ≡ queue_max_len)
      ⊎ ((queues' : List Queue) × (sync_produce elem c queues ≡ returns queues')
          × IsRuntime queues'
          × ((d : ℕ)
              → channel queues' d
                ≡ (if c == d then channel queues c ++ (elem ∷ []) else channel queues d)))
unfolding sync_produce
sync_produce-channel elem c queues ok h =
    let q = get_or queues c blank_queue in
    elim (Bool-cases (q.size == queue_max_len)) [
      | inl full ↦ inl (ground (arith, ok.size), ground arith)
      | inr room ↦
          let (v, e) = put-contents elem (ok.valid c h) (ground arith) in
          let at =
            λ (d : ℕ). get_or-set queues c d (put q elem) blank_queue (omega (arith, ok.size)) in
          inr (
            set queues c (put q elem),
            ground (arith, ok.size),
            record {
              size = length-set queues c (put q elem) ∙ ok.size;
              valid = λ d k. elim (Bool-cases (c == d)) [
                | inl s ↦ rw (at d, s) v
                | inr s ↦ rw (at d, s) (ok.valid d k)
              ];
            },
            λ d. elim (Bool-cases (c == d)) [ inl s ↦ rw (at d, s) e | inr s ↦ rw (at d, s) refl ],
          )
    ]

-- `sync_consume` on a channel of the array waits exactly if the channel is empty; otherwise it
-- returns the oldest element, takes that one out, leaves the other channels, and keeps the array
-- valid.
pub sync_consume-channel :
    (c : ℕ) (queues : List Queue)
    → IsRuntime queues
    → c < num_queues
    → (sync_consume c queues ≡ blocks) × ((get_or queues c blank_queue).size ≡ 0)
      ⊎ ((elem : ℕ) × (queues' : List Queue) × (sync_consume c queues ≡ returns (elem, queues'))
          × IsRuntime queues'
          × (channel queues c ≡ elem ∷ channel queues' c)
          × ((d : ℕ) → c ≢ d → channel queues' d ≡ channel queues d))
unfolding sync_consume
sync_consume-channel c queues ok h =
    let q = get_or queues c blank_queue in
    elim (Bool-cases (q.size == 0)) [
      | inl empty ↦ inl (ground (arith, ok.size), ground arith)
      | inr more ↦
          let (v, e) = get-contents (ok.valid c h) (ground arith) in
          let at =
            λ (d : ℕ). get_or-set queues c d (get q).1 blank_queue (omega (arith, ok.size)) in
          inr (
            (get q).0,
            set queues c (get q).1,
            ground (arith, ok.size),
            record {
              size = length-set queues c (get q).1 ∙ ok.size;
              valid = λ d k. elim (Bool-cases (c == d)) [
                | inl s ↦ rw (at d, s) v
                | inr s ↦ rw (at d, s) (ok.valid d k)
              ];
            },
            rw (at c, ==_self c) e,
            λ d ne. elim (Bool-cases (c == d)) [
              | inl s ↦ absurd (ne (eq-of-== c d s))
              | inr s ↦ rw (at d, s) refl
            ],
          )
    ]

get_or-sync_init :
    (queues : List Queue) (c : ℕ)
    → c < length queues
    → get_or (sync_init queues) c blank_queue ≡ queue_init (get_or queues c blank_queue)
unfolding sync_init
get_or-sync_init [] c h = absurd (omega arith)
get_or-sync_init (q ∷ qs) zero h = refl
get_or-sync_init (q ∷ qs) (suc c) h = get_or-sync_init qs c (omega arith)

length-sync_init : (queues : List Queue) → length (sync_init queues) ≡ length queues
unfolding sync_init
length-sync_init [] = refl
length-sync_init (q ∷ qs) = ap suc (length-sync_init qs)

-- `sync_init` makes an array of queues valid, whatever they held, and every channel empty.
pub sync_init-IsRuntime :
    (queues : List Queue)
    → length queues ≡ num_queues
    → ((c : ℕ) → c < num_queues → length (get_or queues c blank_queue).arr ≡ queue_max_len)
    → IsRuntime (sync_init queues) × ((c : ℕ) → c < num_queues → channel (sync_init queues) c ≡ [])
unfolding queue_init
sync_init-IsRuntime queues n h = (
  record {
    size = length-sync_init queues ∙ n;
    valid = λ c k.
        rw (get_or-sync_init queues c (omega arith))
          (queue_init-IsValid (get_or queues c blank_queue) (h c k));
  },
  λ c k. rw (get_or-sync_init queues c (omega arith)) refl,
)
