-- ===== src/Split/Threads.antt =====
-- `DSWP::loopSplit` (DSWP_4.cpp) around the copying: the new blocks of a thread, the loads of what the
-- loop takes in, the stores of what it gives out, and the loop over the threads.
pub mod Crossing
pub mod NewToOld
pub mod Total
pub mod Operands
pub mod Tests
use dswp_plus.Base.{
  ℕ, zero, suc, ◌+◌, Bool, true, false, not, Option, none, some, List, [], ◌∷◌, ◌++◌, ◌==◌,
  if◌then◌else◌, update, get_or, ℤ, pos, ◌==ℤ◌,
}
use dswp_plus.Base.Result.{Result, ok, exits, no_fuel, ◌>>=◌}
use dswp_plus.Pdg.{Pdg}
use dswp_plus.Partition.{max_thread}
use dswp_plus.Split.Uses.{replace_uses}
use dswp_plus.Split.Code.Relevant.{relevant_blocks}
use dswp_plus.Split.Code.Target.{Cfg, NewInst, new_inst}
use dswp_plus.Split.Code.Copy.{Copies, copy_blocks}
use dswp_plus.Split.Code.Copy.Thread.{no_copies}

-- `BBMap`, for the blocks of `relbb` in their order.
unfoldable pub map_blocks : (ℕ → ℕ) → List ℕ → (ℕ → Option ℕ) → ℕ → Option ℕ
map_blocks copied [] m = m
map_blocks copied (b ∷ bs) m = map_blocks copied bs (update m b (some (copied b)))

-- An access to the field `field` of the argument struct, or of the struct of results in it.
pub record Access : Type 0 where
  pub field : ℕ
  pub value : Option ℕ

-- The addresses that LLVM gives to what is made for a thread: the copies of the instructions and of
-- the blocks, the first and the last block, and the loads by their field.
pub record Names : Type 0 where
  pub copy : ℕ → ℕ
  pub copied : ℕ → ℕ
  pub entry : ℕ
  pub last : ℕ
  pub loaded : ℕ → ℕ

-- What `loopSplit` finds: the members that the steps before have left, and LLVM's functions of a value:
-- `parent`, `type_of` and `operands`.
pub record Loop : Type 0 where
  pub cfg : Cfg
  pub parent : ℕ → ℕ
  pub type_of : ℕ → ℕ
  pub operands : ℕ → List ℕ
  pub header : ℕ
  pub predecessor : ℕ
  pub graph : Pdg
  pub inst_in_scc : List (List ℕ)
  pub part : ℕ → List ℕ
  pub thread : ℕ → ℤ
  pub livein : List ℕ
  pub liveout : List ℕ
  pub arg_types : List ℕ

-- The loop over `livein`: a load for each, which takes its place in `instMap`. The check of the types
-- is the exit by `error`.
unfoldable pub load_args :
    (ℕ → ℕ) → (ℕ → ℕ) → List ℕ → ℕ → List ℕ → (ℕ → Option ℕ) → Result (ℕ → Option ℕ)
load_args type_of loaded types j [] m = ok m
load_args type_of loaded types j (x ∷ xs) m =
    let rest = load_args type_of loaded types (j + 1) xs (update m x (some (loaded j))) in
    if get_or types j 0 == type_of x then rest else exits

-- The new instruction is the branch that `loopSplit` makes in place of one that always goes to the same
-- block.
abbrev pub is_jump : Result NewInst → Bool
is_jump (ok (NewInst.jump target)) = true
is_jump (ok (NewInst.cloned blocks)) = false
is_jump exits = false
is_jump no_fuel = false

-- The operands of the new instructions, after `replaceUses` with `instMap[i]`. Those of a clone are
-- those of the old instruction; an unconditional branch has none but its target.
unfoldable pub new_operands : (ℕ → List ℕ) → (ℕ → Bool) → (ℕ → Option ℕ) → ℕ → List ℕ
unfolding replace_uses
new_operands operands jumps m x = if jumps x then [] else replace_uses m (operands x)

-- The loop over `liveout`: a store for each that the thread `i` computes.
unfoldable pub store_outs : (ℕ → ℤ) → ℕ → (ℕ → Option ℕ) → ℕ → List ℕ → List Access
store_outs thread i m j [] = []
store_outs thread i m j (x ∷ xs) =
    if thread x ==ℤ pos i
    then record { field = j; value = m x } ∷ store_outs thread i m (j + 1) xs
    else store_outs thread i m (j + 1) xs

-- The function of a thread: nothing to do, or its blocks, tables, operands and stores.
pub record Worker : Type 0 where
  pub blocks : List ℕ
  pub tables : Copies
  pub inst_map : ℕ → Option ℕ
  pub operands : ℕ → List ℕ
  pub stores : List Access

module _ (l : Loop) (fuel : ℕ) where
  unfoldable pub thread_blocks : ℕ → List ℕ
  unfolding relevant_blocks
  thread_blocks i = relevant_blocks l.parent l.graph l.inst_in_scc (l.part i) []

  -- `BBMap`, with the entries for the predecessor and the exit.
  unfoldable pub block_map : Names → List ℕ → ℕ → Option ℕ
  unfolding map_blocks
  block_map n rel =
      update (update (map_blocks n.copied rel (λ _. none)) l.predecessor (some n.entry)) l.cfg.exit
        (some n.last)

  -- The instructions whose copy is such a branch.
  unfoldable pub jumps : Names → List ℕ → ℕ → Bool
  unfolding block_map new_inst
  jumps n rel x = is_jump (new_inst l.cfg fuel (block_map n rel) x)

  -- The body of the loop behind the test for `relbb.empty()`.
  unfoldable pub make_worker : ℕ → Names → List ℕ → Result Worker
  unfolding block_map jumps copy_blocks load_args new_operands store_outs
  make_worker i n rel = elim (block_map n rel l.header) [
    | none ↦ exits
    | some h ↦
        copy_blocks l.cfg fuel (block_map n rel) l.thread i n.copy n.copied rel no_copies >>= λ t.
        load_args l.type_of n.loaded l.arg_types 0 l.livein t.inst_map >>= λ m. ok (record {
          blocks = rel;
          tables = t;
          inst_map = m;
          operands = new_operands l.operands (jumps n rel) m;
          stores = store_outs l.thread i m 0 l.liveout;
        })
  ]

  -- The loop over the threads, with `n` of them left from `i` on. A thread without blocks gets a
  -- function that does nothing, and ends the loop.
  unfoldable pub split_threads : (ℕ → Names) → ℕ → ℕ → Result (List Worker)
  unfolding make_worker thread_blocks
  split_threads names zero i = ok []
  split_threads names (suc n) i =
      let rest = split_threads names n (i + 1) in
      elim (thread_blocks i) [
        | [] ↦ ok []
        | b ∷ bs ↦ make_worker i (names i) (b ∷ bs) >>= λ w. rest >>= λ ws. ok (w ∷ ws)
      ]

  unfoldable pub loop_split : (ℕ → Names) → Result (List Worker)
  unfolding split_threads
  loop_split names = split_threads names max_thread 0
