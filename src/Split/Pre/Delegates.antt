-- ===== src/Split/Pre/Delegates.antt =====
-- The threads that the new block of `preLoopSplit` (DSWP_4.cpp) starts and waits for
-- (runtime/simple_sync.c).
use mathlib.Core.List.{append_assoc}
use dswp_plus.Base.{
  ℕ, zero, suc, ◌≡◌, ◌≢◌, refl, ◌∙◌, ◌+◌, false, List, [], ◌∷◌, ◌++◌, ◌==◌, arith, length,
}
use dswp_plus.Partition.{max_thread}
use dswp_plus.Runtime.Channels.{Call, returns, blocks, out_of_bounds}
use dswp_plus.Runtime.Threads.{num_threads, Start, Threads, sync_delegate, join_all, sync_join}
use dswp_plus.Split.Pre.{
  Op, alloca, store_arg, call_init, delegate, call_join, load_out, jump_exit, store_args, delegates,
  load_outs, replace_block,
}

module _ (create worker : ℕ → ℕ) (struct : ℕ) where
  -- The calls of the block for threads; `worker` are the functions of `allFunc`, and `struct` is the
  -- argument struct.
  unfoldable pub run_calls : List Op → Threads → Call Threads
  unfolding sync_delegate sync_join
  run_calls [] t = returns t
  run_calls (alloca ∷ ops) t = run_calls ops t
  run_calls (store_arg j x ∷ ops) t = run_calls ops t
  run_calls (call_init ∷ ops) t = run_calls ops t
  run_calls (delegate i ∷ ops) t = elim (sync_delegate create i (worker i) struct t) [
    | returns t' ↦ run_calls ops t'
    | blocks ↦ blocks
    | out_of_bounds ↦ out_of_bounds
  ]
  run_calls (call_join ∷ ops) t = run_calls ops (sync_join t)
  run_calls (load_out j ∷ ops) t = run_calls ops t
  run_calls (jump_exit ∷ ops) t = run_calls ops t

  run_calls-store_args :
      (j : ℕ) (xs : List ℕ) (ops : List Op) (t : Threads)
      → run_calls (store_args j xs ++ ops) t ≡ run_calls ops t
  unfolding run_calls store_args
  run_calls-store_args j [] ops t = refl
  run_calls-store_args j (x ∷ xs) ops t = run_calls-store_args (j + 1) xs ops t

  run_calls-load_outs :
      (j : ℕ) (xs : List ℕ) (ops : List Op) (t : Threads)
      → run_calls (load_outs j xs ++ ops) t ≡ run_calls ops t
  unfolding run_calls load_outs
  run_calls-load_outs j [] ops t = refl
  run_calls-load_outs j (x ∷ xs) ops t = run_calls-load_outs (j + 1) xs ops t

  -- One thread for each function, in their order.
  abbrev pub starts : ℕ → ℕ → List Start
  starts zero i = []
  starts (suc n) i = record { tid = i; fp = worker i; args = struct } ∷ starts n (i + 1)

  -- The threads that are started from `t` to `t'` are those of the functions, with the argument struct,
  -- and their handles are those that are joined.
  pub record IsJoined (t t' : Threads) : Type 0 where
    pub started : t'.started ≡ t.started ++ starts max_thread 0
    pub handles : List ℕ
    pub created : t'.created ≡ t.created ++ handles
    pub joined : t'.joined ≡ t.joined ++ handles

  join_all_lem :
      (h k : ℕ) (joined : List ℕ)
      → h ≢ 0
      → k ≢ 0
      → join_all (h ∷ k ∷ []) joined ≡ joined ++ (h ∷ k ∷ [])
  unfolding join_all
  join_all_lem h k joined a b =
      let a' : (h == 0) ≡ false = ground arith in
      let b' : (k == 0) ≡ false = ground arith in
      rw (a', b') (append_assoc joined (h ∷ []) (k ∷ []))

  -- The calls behind the stores of the arguments.
  threads_lem :
      (hs : List ℕ) (started : List Start) (created joined : List ℕ) (ops : List Op)
      → let t : Threads = record {
        handles = hs;
        started = started;
        created = created;
        joined = joined;
      } in
        length hs ≡ num_threads
        → ((n : ℕ) → create n ≢ 0)
        → (t' : Threads) × (run_calls (delegates max_thread 0 ++ (call_join ∷ ops)) t
            ≡ run_calls ops t')
          × IsJoined t t'
  unfolding run_calls delegates
  threads_lem [] st cr jo ops size alive = absurd (omega (arith, size))
  threads_lem (a ∷ []) st cr jo ops size alive = absurd (omega (arith, size))
  threads_lem (a ∷ b ∷ c ∷ l) st cr jo ops size alive = absurd (omega (arith, size))
  threads_lem (a ∷ b ∷ []) st cr jo ops size alive =
      let h = create (length cr) in
      let k = create (length (cr ++ (h ∷ []))) in
      (
        sync_join (record {
          handles = h ∷ k ∷ [];
          started =
              (st ++ (record { tid = 0; fp = worker 0; args = struct } ∷ []))
              ++ (record { tid = 1; fp = worker 1; args = struct } ∷ []);
          created = (cr ++ (h ∷ [])) ++ (k ∷ []);
          joined = jo;
        }),
        refl,
        record {
          started = append_assoc st _ _;
          handles = h ∷ k ∷ [];
          created = append_assoc cr (h ∷ []) (k ∷ []);
          joined = join_all_lem h k jo (alive _) (alive _);
        },
      )

  -- Let the array have its size, whatever handles earlier loops have left in it, and let the handle of
  -- a started thread never be 0. Then the calls of the new block stay in the array: they start
  -- `MAX_THREAD` threads, one for each function and each with the argument struct, and then join
  -- exactly those, each once.
  pub replace_block-IsJoined :
      (livein liveout : List ℕ) (t : Threads)
      → length t.handles ≡ num_threads
      → ((n : ℕ) → create n ≢ 0)
      → (t' : Threads) × (run_calls (replace_block livein liveout) t ≡ returns t') × IsJoined t t'
  unfolding replace_block run_calls
  replace_block-IsJoined livein liveout t size alive =
      let ops = load_outs 0 liveout ++ (jump_exit ∷ []) in
      let (t', e, j) = threads_lem t.handles t.started t.created t.joined ops size alive in
      (
        t',
        run_calls-store_args 0 livein _ t ∙ e ∙ run_calls-load_outs 0 liveout (jump_exit ∷ []) t',
        j,
      )
