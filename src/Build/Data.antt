-- ===== src/Build/Data.antt =====
-- The register and memory dependences, lines 57 to 227 of DSWP_1.cpp. What LLVM knows of the
-- instructions and what its analyses answer is a parameter.
pub mod Edges
pub mod Exact
use dswp_plus.Base.{
  ℕ, ◌≡◌, Bool, true, false, Option, none, some, List, [], ◌∷◌, ◌==◌, if◌then◌else◌, ◌>>=◌,
}
use dswp_plus.Pdg.{DType, reg, dtrue, danti, dout, Pdg, add_edge, has_edge}

-- The classes of instructions that the code tells apart.
pub data Kind : Type 0 where
  load store alloca call va_arg other : Kind

-- `MemDepResult`: the answer of `getDependency`. `unknown` stands for all the rest.
pub data MemDep : Type 0 where
  def : ℕ → MemDep
  clobber : ℕ → MemDep
  non_local : MemDep
  unknown : MemDep

-- What the code asks of LLVM. `users` lists the uses of a value that are instructions; an entry of
-- the two lists of non-local results is `none` where `getInst` returns NULL.
pub record Analysis : Type 0 where
  pub kind : ℕ → Kind
  pub users : ℕ → List ℕ
  pub contains : ℕ → Bool
  pub may_read_or_write : ℕ → Bool
  pub dependency : ℕ → MemDep
  pub non_local_call : ℕ → List (Option ℕ)
  pub non_local_pointer : ℕ → List (Option ℕ)

-- The edge for a definition: read after write or allocate, write after read, write or allocate.
abbrev pub def_dtype : Kind → Kind → Option DType
def_dtype Kind.load Kind.store = some dtrue
def_dtype Kind.load Kind.alloca = some dtrue
def_dtype Kind.store Kind.load = some danti
def_dtype Kind.store Kind.store = some dout
def_dtype Kind.store Kind.alloca = some dout
def_dtype _ _ = none

-- `addEdge`, where the code comes to it.
abbrev pub add_edge_if : ℕ → ℕ → Option DType → Pdg → Pdg
add_edge_if u v none g = g
add_edge_if u v (some t) g = add_edge u v t g

module _ (a : Analysis) where
  -- `addEdge`, if the end that may lie outside the loop does not.
  unfoldable pub add_edge_inside : ℕ → ℕ → ℕ → DType → Pdg → Pdg
  add_edge_inside x u v t g = if a.contains x then add_edge u v t g else g

  -- The loop over the uses of `inst`.
  unfoldable pub add_uses : ℕ → List ℕ → Pdg → Pdg
  unfolding add_edge_inside
  add_uses inst [] g = g
  add_uses inst (user ∷ us) g = add_uses inst us (add_edge_inside user inst user reg g)

  -- The loops over the non-local results, which skip what is NULL or outside the loop.
  unfoldable pub add_non_local : ℕ → List (Option ℕ) → Pdg → Pdg
  unfolding add_edge_inside
  add_non_local inst [] g = g
  add_non_local inst (none ∷ rs) g = add_non_local inst rs g
  add_non_local inst (some dep ∷ rs) g =
      add_non_local inst rs (add_edge_inside dep dep inst danti g)

  -- The results that are asked for at a non-local dependence; at any other instruction the code
  -- ends in `error`, which exits.
  abbrev pub non_local_results : ℕ → Kind → Option (List (Option ℕ))
  non_local_results inst Kind.call = some (a.non_local_call inst)
  non_local_results inst Kind.load = some (a.non_local_pointer inst)
  non_local_results inst Kind.store = some (a.non_local_pointer inst)
  non_local_results inst Kind.va_arg = some (a.non_local_pointer inst)
  non_local_results inst Kind.alloca = none
  non_local_results inst Kind.other = none

  unfoldable pub add_memory : ℕ → MemDep → Pdg → Option Pdg
  unfolding add_non_local
  add_memory inst (def dep) g = some (add_edge_if dep inst (def_dtype (a.kind inst) (a.kind dep)) g)
  add_memory inst (clobber dep) g = some (add_edge dep inst danti g)
  add_memory inst non_local g =
      non_local_results inst (a.kind inst) >>= λ rs. some (add_non_local inst rs g)
  add_memory inst unknown g = some g

  -- The body of the loop over the instructions.
  unfoldable pub add_inst : ℕ → Pdg → Option Pdg
  unfolding add_uses add_memory
  add_inst inst g =
      let g' = add_uses inst (a.users inst) g in
      if a.may_read_or_write inst then add_memory inst (a.dependency inst) g' else some g'

  -- The loop over the instructions of the loop's blocks; `none` is the exit.
  unfoldable pub data_dependences : List ℕ → Pdg → Option Pdg
  unfolding add_inst
  data_dependences [] g = some g
  data_dependences (inst ∷ is) g = add_inst inst g >>= λ g'. data_dependences is g'
