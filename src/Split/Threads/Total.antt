-- ===== src/Split/Threads/Total.antt =====
-- `DSWP::loopSplit` (DSWP_4.cpp) as a whole: when it returns, and what it does where a thread has no
-- block or lacks the header.
use dswp_plus.Base.{
  ℕ, zero, suc, ◌≡◌, ◌≢◌, refl, ap, ◌∙◌, ◌+◌, ◌≤◌, ◌<◌, false, Option, none, some, List, [], ◌∷◌,
  count, get_or, ltb, ◌==◌, if◌then◌else◌, arith, Bool-cases, inl, inr, ◌⊎◌, update, List-cases,
  eq-of-==,
}
use dswp_plus.Base.Result.{ok, exits, ◌>>=◌}
use dswp_plus.Partition.{max_thread}
use dswp_plus.Split.Pre.{field_types, map_outs}
use dswp_plus.Split.Pre.Struct.{load_args-map_outs}
use dswp_plus.Split.Threads.{
  Names, Loop, Worker, map_blocks, new_operands, store_outs, thread_blocks, block_map, jumps,
  make_worker, split_threads, loop_split,
}
use dswp_plus.Split.Threads.Crossing.{IsSplit, IsReady, HasPlaces, copy_blocks-HasPlaces}

-- The blocks of the list have their copies, the others what they had.
map_blocks_lem :
    (copied : ℕ → ℕ) (rel : List ℕ) (m : ℕ → Option ℕ) (b : ℕ)
    → map_blocks copied rel m b ≡ (if ltb 0 (count b rel) then some (copied b) else m b)
unfolding map_blocks
map_blocks_lem copied [] m b = refl
map_blocks_lem copied (d ∷ rel) m b =
    let rest = map_blocks_lem copied rel (update m d (some (copied d))) b in
    elim (Bool-cases (d == b)) [
      | inl e ↦ let e' = eq-of-== d b e in ground (arith, rest, e', ap copied e')
      | inr e ↦ ground (arith, rest, e)
    ]

module _ (l : Loop) (insts : List ℕ) (ok_split : IsSplit l insts) (fuel depth : ℕ)
    (enough : depth ≤ fuel) where
  -- What the loop is to LLVM, and the struct as `preLoopSplit` makes it.
  pub record IsLoop : Type 0 where
    pub enters : l.header ≢ l.predecessor
    pub leaves : l.header ≢ l.cfg.exit
    pub out_type : ℕ
    pub types :
        (k : ℕ) → get_or l.arg_types k 0 ≡ get_or (field_types l.type_of out_type l.livein) k 0

  block_map_lem :
      (n : Names) (rel : List ℕ)
      → IsLoop
      → block_map l fuel n rel l.header
        ≡ (if ltb 0 (count l.header rel) then some (n.copied l.header) else none)
  unfolding block_map
  block_map_lem n rel p =
      let a : (l.predecessor == l.header) ≡ false = ground (arith, p.enters) in
      let b : (l.cfg.exit == l.header) ≡ false = ground (arith, p.leaves) in
      rw (a, b) (map_blocks_lem n.copied rel (λ _. none) l.header)

  -- The function of the thread `i`, for its blocks, with the tables that `insertSynchronization` needs
  -- and a load for each value that the loop takes in.
  pub record IsWorker (i : ℕ) (n : Names) (w : Worker) : Type 0 where
    pub blocks : w.blocks ≡ thread_blocks l fuel i
    pub header : 0 < count l.header w.blocks
    pub places : HasPlaces l insts ok_split fuel i n depth enough w.tables
    pub loads : w.inst_map ≡ map_outs n.loaded 0 l.livein w.tables.inst_map
    pub uses :
        w.operands ≡ new_operands l.operands (jumps l fuel n (thread_blocks l fuel i)) w.inst_map

  pub make_worker_lem :
      (i : ℕ) (n : Names)
      → IsLoop
      → IsReady l insts ok_split fuel i n depth enough
      → ((count l.header (thread_blocks l fuel i) ≡ 0)
          × (make_worker l fuel i n (thread_blocks l fuel i) ≡ exits))
        ⊎ ((w : Worker) × (make_worker l fuel i n (thread_blocks l fuel i) ≡ ok w) × IsWorker i n w)
  unfolding make_worker
  make_worker_lem i n p r =
      let rel = thread_blocks l fuel i in
      let h = block_map_lem n rel p in
      elim (Bool-cases (ltb 0 (count l.header rel))) [
        | inr e ↦
            let out : block_map l fuel n rel l.header ≡ none = h ∙ rw e refl in
            inl (ground (arith, e), rw (make_worker, out) refl)
        | inl e ↦
            let (t, eq, places) = copy_blocks-HasPlaces l insts ok_split fuel i n depth enough r in
            let into : block_map l fuel n rel l.header ≡ some (n.copied l.header) = h ∙ rw e refl in
            let loaded =
              load_args-map_outs l.type_of n.loaded p.out_type l.arg_types 0 l.livein t.inst_map
                (λ k. ap (λ z. get_or l.arg_types z 0) (omega arith) ∙ p.types k) in
            inr (
              record {
                blocks = rel;
                tables = t;
                inst_map = map_outs n.loaded 0 l.livein t.inst_map;
                operands =
                    new_operands l.operands (jumps l fuel n rel)
                      (map_outs n.loaded 0 l.livein t.inst_map);
                stores =
                    store_outs l.thread i (map_outs n.loaded 0 l.livein t.inst_map) 0 l.liveout;
              },
              rw (make_worker, into, eq, loaded) refl,
              record {
                blocks = refl;
                header = ground (arith, e);
                places = places;
                loads = refl;
                uses = refl;
              },
            )
      ]

  -- The functions of the `n` threads from `i` on, up to the first that has no block: that one's
  -- function and the later ones' stay without the copies.
  abbrev pub AreWorkers : (ℕ → Names) → ℕ → ℕ → List Worker → Type 0
  AreWorkers names zero i ws = ws ≡ []
  AreWorkers names (suc n) i ws =
      ((thread_blocks l fuel i ≡ []) × (ws ≡ []))
      ⊎ ((w : Worker) × (rest : List Worker) × (ws ≡ w ∷ rest)
          × IsWorker i (names i) w
          × AreWorkers names n (i + 1) rest)

  -- A thread that has blocks, but not the header.
  abbrev pub LacksHeader : ℕ → Type 0
  LacksHeader i = (thread_blocks l fuel i ≢ []) × (count l.header (thread_blocks l fuel i) ≡ 0)

  split_threads_lem :
      (names : ℕ → Names)
      → IsLoop
      → (n i : ℕ)
      → ((j : ℕ) → i ≤ j → j < i + n → IsReady l insts ok_split fuel j (names j) depth enough)
      → ((j : ℕ) × (j < i + n) × LacksHeader j × (split_threads l fuel names n i ≡ exits))
        ⊎ ((ws : List Worker) × (split_threads l fuel names n i ≡ ok ws) × AreWorkers names n i ws)
  unfolding split_threads
  split_threads_lem names p zero i ready = inr ([], refl, refl)
  split_threads_lem names p (suc n) i ready = elim (List-cases (thread_blocks l fuel i)) [
    | inl e ↦ inr ([], rw (split_threads, e) refl, inl (e, refl))
    | inr (b, bs, e) ↦
        let some_blocks : thread_blocks l fuel i ≢ [] = λ h. absurd (cc) in
        let opened : split_threads l fuel names (suc n) i ≡ (
            make_worker l fuel i (names i) (thread_blocks l fuel i) >>= λ w.
            split_threads l fuel names n (i + 1) >>= λ ws. ok (w ∷ ws)) =
          rw (split_threads, e) refl in
        elim (make_worker_lem i (names i) p (ready i (omega arith) (omega arith))) [
          | inl (c, out) ↦ inl (i, omega arith, (some_blocks, c), opened ∙ rw out refl)
          | inr (w, made, k) ↦
              elim (split_threads_lem names p n (i + 1)
                (λ j a b'. ready j (omega (arith, a)) (omega (arith, b')))) [
                  | inl (j, less, lacks, out) ↦
                      inl (j, omega (arith, less), lacks, opened ∙ rw (made, out) refl)
                  | inr (ws, eq, are) ↦
                      inr (w ∷ ws, opened ∙ rw (made, eq) refl, inr (w, ws, refl, k, are))
                ]
        ]
  ]

  -- Let the struct be as `preLoopSplit` makes it, the header neither before the loop nor behind it, and
  -- the code ready for each thread: its blocks end in terminators, and above each block to which a copy
  -- points there is a copied one, in trees no deeper than the fuel. Then `loopSplit` ends. Either it
  -- ends in `error`, and some thread has blocks but not the header. Or it makes the functions of the
  -- threads in their order, up to the first thread without blocks: each has the blocks of its thread
  -- and among them the header, tables with a copy or a place for all that the thread computes or
  -- depends on, and loads for the values that the loop takes in.
  pub loop_split-AreWorkers :
      (names : ℕ → Names)
      → IsLoop
      → ((i : ℕ) → i < max_thread → IsReady l insts ok_split fuel i (names i) depth enough)
      → ((i : ℕ) × (i < max_thread) × LacksHeader i × (loop_split l fuel names ≡ exits))
        ⊎ ((ws : List Worker) × (loop_split l fuel names ≡ ok ws)
            × AreWorkers names max_thread 0 ws)
  unfolding loop_split
  loop_split-AreWorkers names p ready =
      split_threads_lem names p max_thread 0 (λ j a b. ready j (omega (arith, b)))
