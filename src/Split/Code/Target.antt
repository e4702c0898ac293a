-- ===== src/Split/Code/Target.antt =====
-- Where the branches and phi nodes of a thread's copies point: lines 301 to 373 of DSWP_4.cpp.
pub mod Nearest
use dswp_plus.Base.{
  ℕ, zero, suc, Bool, true, false, not, ◌&&◌, Option, none, some, List, [], ◌∷◌, ◌==◌,
  if◌then◌else◌,
}
use dswp_plus.Base.Result.{Result, ok, exits, no_fuel, ◌>>=◌}

-- The loop `while (newBB == NULL)`, for `postidom` and for `idom`; a null pointer is `none`.
unfoldable pub climb : ℕ → (ℕ → Option ℕ) → (ℕ → Option ℕ) → ℕ → Result ℕ
climb zero bb_map up b = elim (bb_map b) [ some n ↦ ok n | none ↦ no_fuel ]
climb (suc f) bb_map up b = elim (bb_map b) [
  | some n ↦ ok n
  | none ↦ elim (up b) [ none ↦ exits | some p ↦ climb f bb_map up p ]
]

-- Whether all the targets are `target`.
unfoldable pub all_to : ℕ → List ℕ → Bool
all_to target [] = true
all_to target (t ∷ ts) = if t == target then all_to target ts else false

-- What LLVM tells of the function: successors are those of a terminator, `incoming` the blocks of a
-- phi node; a block that is not reached has no immediate dominator, `none`.
pub record Cfg : Type 0 where
  pub is_term : ℕ → Bool
  pub is_phi : ℕ → Bool
  pub is_invoke : ℕ → Bool
  pub successors : ℕ → List ℕ
  pub incoming : ℕ → List ℕ
  pub insts_of : ℕ → List ℕ
  pub contains : ℕ → Bool
  pub exit : ℕ
  pub idom : ℕ → Option ℕ
  pub postidom : ℕ → Option ℕ

-- A copied instruction, with its new blocks; or the branch that takes the place of one.
pub data NewInst : Type 0 where
  cloned : List ℕ → NewInst
  jump : ℕ → NewInst

-- A branch that always goes to the same block is made unconditional.
unfoldable pub make_branch : Bool → List ℕ → NewInst
unfolding all_to
make_branch invoke [] = cloned []
make_branch invoke (t ∷ ts) = if not invoke && all_to t ts then jump t else cloned (t ∷ ts)

module _ (c : Cfg) (fuel : ℕ) (bb_map : ℕ → Option ℕ) where
  -- The loop over the successors. A branch to the outside that is not the exit is an `error`.
  unfoldable pub point_successors : List ℕ → Result (List ℕ)
  unfolding climb
  point_successors [] = ok []
  point_successors (b ∷ bs) =
      let rest = point_successors bs in
      if not (b == c.exit) && not (c.contains b)
      then exits
      else (climb fuel bb_map c.postidom b >>= λ n. rest >>= λ ns. ok (n ∷ ns))

  -- The loop over the incoming values of a phi node.
  unfoldable pub point_incoming : List ℕ → Result (List ℕ)
  unfolding climb
  point_incoming [] = ok []
  point_incoming (b ∷ bs) =
      let rest = point_incoming bs in climb fuel bb_map c.idom b >>= λ n. rest >>= λ ns. ok (n ∷ ns)

  unfoldable pub new_inst : ℕ → Result NewInst
  unfolding point_successors point_incoming make_branch
  new_inst x =
      if c.is_term x
      then (point_successors (c.successors x) >>= λ ts. ok (make_branch (c.is_invoke x) ts))
      else if c.is_phi x
      then (point_incoming (c.incoming x) >>= λ bs. ok (cloned bs))
      else ok (cloned [])
