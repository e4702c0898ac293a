-- ===== src/Scc/Reach.antt =====
-- Paths of the dependence graph that `findSCC` (DSWP_2.cpp) walks.
use dswp_plus.Base.{ℕ, List, count, ◌<◌}
use dswp_plus.Pdg.{Pdg}
use dswp_plus.Scc.Graph.{Depends}

-- The paths of the dependence graph.
pub data Reach (g : Pdg) (x : ℕ) : ℕ → Type 0 where
  here : Reach g x x
  step : {y z : ℕ} → Reach g x y → Depends g y z → Reach g x z

pub Reach-trans : {g : Pdg} {x y z : ℕ} → Reach g x y → Reach g y z → Reach g x z
Reach-trans p here = p
Reach-trans p (step q d) = step (Reach-trans p q) d

-- A path to `r` whose other instructions stand in `l`.
pub data Way (g : Pdg) (l : List ℕ) (r : ℕ) : ℕ → Type 0 where
  end : Way g l r r
  by : {x y : ℕ} → 0 < count x l → Depends g x y → Way g l r y → Way g l r x

pub Way-Reach : {g : Pdg} {l : List ℕ} {r x : ℕ} → Way g l r x → Reach g x r
Way-Reach end = here
Way-Reach (by m d w) = Reach-trans (step here d) (Way-Reach w)

-- A path to `n`, which depends on through to `r`.
pub Way-snoc :
    {g : Pdg} {l : List ℕ} {n r x : ℕ} → Way g l n x → 0 < count n l → Depends g n r → Way g l r x
Way-snoc end m d = by m d end
Way-snoc (by m' d' w) m d = by m' d' (Way-snoc w m d)
