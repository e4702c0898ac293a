-- ===== src/Driver/Declarations/Tests.antt =====
-- A module without any function.
use dswp_plus.Base.{ℕ, ◌≡◌, refl, true, false, none, List}
use dswp_plus.Pdg.{DType}
use dswp_plus.Split.Pre.{replace_block}
use dswp_plus.Sync.Casts.{Ty, produce_nodes, consume_nodes}
use dswp_plus.Driver.Declarations.{Module, do_initialization}
use dswp_plus.Driver.Declarations.Typed.{
  All, AllIf, OpTyped, NodeTyped, IsDeclared, do_initialization-typed,
}

abbrev no_functions : Module
no_functions _ = none

do_initialization-typed_example :
    (m' : Module) × (do_initialization no_functions ≡ (m', true))
    × (do_initialization m' ≡ (m', false))
    × IsDeclared m'
    × ((livein liveout : List ℕ) → All (OpTyped m') (replace_block livein liveout))
    × ((dtype : DType) (ty : Ty) (u k : ℕ)
        → AllIf (NodeTyped m') (produce_nodes dtype ty u k)
          × AllIf (NodeTyped m') (consume_nodes dtype ty k))
do_initialization-typed_example = do_initialization-typed no_functions (λ n. refl)
