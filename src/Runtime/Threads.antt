-- ===== src/Runtime/Threads.antt =====
-- runtime/simple_sync.c: the array of thread handles, `sync_delegate` and `sync_join`. What the
-- functions print is left out.
use dswp_plus.Base.{ℕ, List, [], ◌∷◌, ◌++◌, ◌==◌, ltb, if◌then◌else◌, set, length}
use dswp_plus.Runtime.Channels.{Call, returns, out_of_bounds}

abbrev pub num_threads : ℕ
num_threads = 2

-- A thread that `pthread_create` has made: its index, its function and its argument.
pub record Start : Type 0 where
  pub tid : ℕ
  pub fp : ℕ
  pub args : ℕ

-- `started` and `joined` record the threads that pthread has started and joined, with their handles in
-- `created`. A handle 0 in the array is that of no thread.
pub record Threads : Type 0 where
  pub handles : List ℕ
  pub started : List Start
  pub created : List ℕ
  pub joined : List ℕ

-- `create` gives the handle of the thread that is started after `n` others.
module _ (create : ℕ → ℕ) where
  unfoldable pub sync_delegate : ℕ → ℕ → ℕ → Threads → Call Threads
  sync_delegate tid fp args t =
      let handle = create (length t.created) in
      if ltb tid (length t.handles)
      then returns (record {
        handles = set t.handles tid handle;
        started = t.started ++ (record { tid = tid; fp = fp; args = args } ∷ []);
        created = t.created ++ (handle ∷ []);
        joined = t.joined;
      })
      else out_of_bounds

-- The loop of `sync_join`.
unfoldable pub join_all : List ℕ → List ℕ → List ℕ
join_all [] joined = joined
join_all (h ∷ hs) joined = if h == 0 then join_all hs joined else join_all hs (joined ++ (h ∷ []))

unfoldable pub sync_join : Threads → Threads
unfolding join_all
sync_join t = record t { joined = join_all t.handles t.joined }
