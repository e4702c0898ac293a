-- ===== src/Build/Tests.antt =====
-- A loop in which instruction 0 loads, 1 computes with what was loaded, and 2 stores.
use dswp_plus.Base.{
  ℕ, zero, suc, ◌≡◌, ◌↔◌, ◌⊎◌, refl, ◌<◌, some, none, List, [], ◌∷◌, count, arith, ltb, ◌==◌, ◌||◌,
  if◌then◌else◌,
}
use dswp_plus.Pdg.{Edge, Pdg, no_edges}
use dswp_plus.Pdg.Tables.{no_edges-IsConsistent}
use dswp_plus.Build.Control.{Peeled, control_dependences}
use dswp_plus.Build.Control.Covered.{IsPeeled}
use dswp_plus.Build.Control.PostDominators.{IsTree, nearest-steps}
use dswp_plus.Build.Control.Exact.{IsControl, control_dependences-IsControl}
use dswp_plus.Build.Control.Star.{IsStar-IsTree}
use dswp_plus.Build.Data.{Kind, MemDep, def, non_local, unknown, Analysis, data_dependences}
use dswp_plus.Build.Extends.{Extends}
use dswp_plus.Build.Only.{Has}
use dswp_plus.Build.Data.Edges.{IsAnalysis, Supported}
use dswp_plus.Build.Data.Exact.{IsData, data_dependences-IsData}

abbrev pub insts : List ℕ
insts = 0 ∷ 1 ∷ 2 ∷ []

abbrev kinds : ℕ → Kind
kinds zero = Kind.load
kinds (suc zero) = Kind.other
kinds _ = Kind.store

abbrev uses_of : ℕ → List ℕ
uses_of zero = 1 ∷ []
uses_of (suc zero) = 2 ∷ 9 ∷ []
uses_of _ = []

abbrev answers : ℕ → MemDep
answers zero = non_local
answers (suc zero) = unknown
answers (suc (suc zero)) = def 0
answers _ = unknown

abbrev pub sample : Analysis
sample = record {
  kind = kinds;
  users = uses_of;
  contains = λ x. ltb x 3;
  may_read_or_write = λ x. x == 0 || x == 2;
  dependency = answers;
  non_local_call = λ _. [];
  non_local_pointer = λ _. some 2 ∷ none ∷ some 7 ∷ [];
}

pub sample-IsAnalysis : IsAnalysis sample insts
sample-IsAnalysis = record {
  inside = λ x h. ground arith;
  def_inside = def_in;
  clobber_inside = λ x d c e. no_clobber x e;
}
  where
    def_in : (x d : ℕ) → 0 < count x insts → answers x ≡ def d → 0 < count d insts
    def_in zero d c e = absurd (cc)
    def_in (suc zero) d c e = absurd (cc)
    def_in (suc (suc zero)) d c e = ground arith
    def_in (suc (suc (suc x))) d c e = absurd (cc)

    no_clobber : (x : ℕ) {d : ℕ} → answers x ≡ MemDep.clobber d → 0 < count d insts
    no_clobber zero e = absurd (cc)
    no_clobber (suc zero) e = absurd (cc)
    no_clobber (suc (suc zero)) e = absurd (cc)
    no_clobber (suc (suc (suc x))) e = absurd (cc)

pub sample-Supported : (x : ℕ) → 0 < count x insts → Supported sample x (sample.dependency x)
sample-Supported zero c = (some 2 ∷ none ∷ some 7 ∷ [], refl)
sample-Supported (suc zero) c = tt
sample-Supported (suc (suc zero)) c = tt
sample-Supported (suc (suc (suc x))) c = tt

data_dependences-IsData_example :
    (g' : Pdg) × (data_dependences sample insts no_edges ≡ some g')
    × Extends insts no_edges g'
    × ((e : Edge) → Has e g' ↔ (Has e no_edges ⊎ IsData sample insts e))
data_dependences-IsData_example =
    data_dependences-IsData sample insts sample-IsAnalysis no_edges sample-Supported
      no_edges-IsConsistent

-- The dummy block 0 branches to 1 and to the exit 9. Block 1 has the instructions 1 and 2.
abbrev peeled : Peeled
peeled = record {
  successors = λ b. if b == 0 then 1 ∷ 9 ∷ [] else 9 ∷ [];
  real = λ b. b;
  insts_of = λ b. if b == 0 then 0 ∷ [] else if b == 1 then 1 ∷ 2 ∷ [] else [];
  terminator = λ b. if b == 0 then 0 else 2;
  exit_block = 9;
  idom = λ b. 9;
  nearest = λ b s. if b == s then b else 9;
}

peeled-IsTree : IsTree peeled (9 ∷ 0 ∷ 1 ∷ []) 1
peeled-IsTree = IsStar-IsTree peeled (9 ∷ 0 ∷ 1 ∷ []) (record {
  below = λ s. refl;
  meet = λ b s. refl;
  root = omega arith;
  leaves = λ s c ne. ground (arith, c, ne);
})

peeled-IsPeeled : IsPeeled peeled insts (0 ∷ 1 ∷ []) 1
peeled-IsPeeled = record {
  inside = λ n x d c. ground arith;
  terminators = λ n d. ground arith;
  closed = λ n d. ground arith;
  targets = λ b s d c. ground arith;
  dominates = λ b s d c. nearest-steps peeled (9 ∷ 0 ∷ 1 ∷ []) 1 peeled-IsTree b s (ground arith) c;
}

control_dependences-IsControl_example :
    (g' : Pdg) × (control_dependences peeled 2 (0 ∷ 1 ∷ []) no_edges ≡ some g')
    × Extends insts no_edges g'
    × ((e : Edge) → Has e g' ↔ (Has e no_edges ⊎ IsControl peeled (0 ∷ 1 ∷ []) e))
control_dependences-IsControl_example =
    control_dependences-IsControl peeled insts (0 ∷ 1 ∷ []) 1 peeled-IsPeeled peeled-IsTree 2
      no_edges no_edges-IsConsistent (omega arith)
