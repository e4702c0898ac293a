-- ===== src/Split/Pre.antt =====
-- `DSWP::preLoopSplit` (DSWP_4.cpp): the block that takes the place of the loop, and the struct by
-- which it and the threads pass values, and the sanity checks. Functions has the functions of the
-- threads. The names of blocks and values are left out.
pub mod Struct
pub mod Passed
pub mod Delegates
pub mod Outside
pub mod Functions
mod Tests
use dswp_plus.Base.{
  ℕ, zero, suc, ◌+◌, Bool, true, false, Option, none, some, List, [], ◌∷◌, ◌++◌, ◌==◌,
  if◌then◌else◌, update,
}
use dswp_plus.Partition.{max_thread}
use dswp_plus.Split.Uses.{replace_uses}

-- The instructions of the new block. A field is one of the argument struct, or with `load_out` one of
-- the struct of results in it.
pub data Op : Type 0 where
  alloca : Op
  store_arg : ℕ → ℕ → Op
  call_init : Op
  delegate : ℕ → Op
  call_join : Op
  load_out : ℕ → Op
  jump_exit : Op

-- The loop over `livein` from the field `j` on.
unfoldable pub store_args : ℕ → List ℕ → List Op
store_args j [] = []
store_args j (x ∷ xs) = store_arg j x ∷ store_args (j + 1) xs

-- The loop over the threads, with `n` left from `i` on.
unfoldable pub delegates : ℕ → ℕ → List Op
delegates zero i = []
delegates (suc n) i = delegate i ∷ delegates n (i + 1)

-- The loop over `liveout`.
unfoldable pub load_outs : ℕ → List ℕ → List Op
load_outs j [] = []
load_outs j (x ∷ xs) = load_out j ∷ load_outs (j + 1) xs

-- All that stands in the block.
unfoldable pub replace_block : List ℕ → List ℕ → List Op
unfolding store_args delegates load_outs
replace_block livein liveout =
    (alloca ∷ store_args 0 livein)
    ++ ((call_init ∷ delegates max_thread 0)
        ++ ((call_join ∷ load_outs 0 liveout) ++ (jump_exit ∷ [])))

-- `replacement_map`; `load` gives the address of the load of a field.
unfoldable pub map_outs : (ℕ → ℕ) → ℕ → List ℕ → (ℕ → Option ℕ) → ℕ → Option ℕ
map_outs load j [] m = m
map_outs load j (x ∷ xs) m = map_outs load (j + 1) xs (update m x (some (load j)))

-- The operands of the instructions of the function behind it; `inside` tells whether the block of the
-- instruction is in the loop. Without `liveout` there is no such loop.
unfoldable pub outside_operands : (ℕ → ℕ) → List ℕ → (ℕ → Bool) → (ℕ → List ℕ) → ℕ → List ℕ
unfolding map_outs replace_uses
outside_operands load liveout inside operands x =
    if inside x then operands x else replace_uses (map_outs load 0 liveout (λ _. none)) (operands x)

-- The types of the argument struct: those of `livein`, and that of the struct of results.
unfoldable pub field_types : (ℕ → ℕ) → ℕ → List ℕ → List ℕ
field_types type_of out [] = out ∷ []
field_types type_of out (x ∷ xs) = type_of x ∷ field_types type_of out xs

-- The loop over the operands of the terminator of a block before the loop.
unfoldable pub redirect : ℕ → ℕ → List ℕ → List ℕ
redirect header new [] = []
redirect header new (b ∷ bs) = (if b == header then new else b) ∷ redirect header new bs

-- The loop over the predecessors of the header. By `getLoopPredecessor` one block at most of them is
-- outside the loop.
unfoldable pub redirect_all : (ℕ → Bool) → ℕ → ℕ → List ℕ → (ℕ → List ℕ) → ℕ → List ℕ
unfolding redirect
redirect_all contains header new [] targets = targets
redirect_all contains header new (p ∷ ps) targets =
    redirect_all contains header new ps
      (if contains p then targets else update targets p (redirect header new (targets p)))

-- The loop over the blocks that looks for the new one.
unfoldable pub has_block : ℕ → List ℕ → Bool
has_block new [] = false
has_block new (b ∷ bs) = if b == new then true else has_block new bs

-- Whether both sanity checks are passed; `error` is the other case.
unfoldable pub sanity_checks : (ℕ → Bool) → ℕ → ℕ → List ℕ → Bool
unfolding has_block
sanity_checks contains exit new blocks =
    if contains exit then false else if has_block new blocks then false else true
