-- ===== src/Scc/Defs.antt =====
-- DSWP_2.cpp: `findSCC` with `dfs_forward` and `dfs_reverse`, and the members that they write.
use mathlib.Core.List.{reverse}
use dswp_plus.Base.{
  ℕ, suc, Bool, true, false, Option, some, List, [], ◌∷◌, ◌++◌, ◌==◌, if◌then◌else◌, update, get_or,
  set, ◌>>=◌,
}
use dswp_plus.Pdg.{Pdg, targets}
use dswp_plus.Search.{Walk, depth_first}

-- The members of `DSWP` that the passes write. `order` is the member `list`.
pub record Scc : Type 0 where
  pub used : ℕ → Bool
  pub order : List ℕ
  pub scc_id : ℕ → ℕ
  pub scc_num : ℕ
  pub dependents : ℕ → List ℕ
  pub parents : ℕ → List ℕ
  pub dag_added : ℕ → ℕ → Bool
  pub inst_in_scc : List (List ℕ)

-- The members as `clear` leaves them.
abbrev pub no_scc : Scc
no_scc = record {
  used = λ _. false;
  order = [];
  scc_id = λ _. 0;
  scc_num = 0;
  dependents = λ _. [];
  parents = λ _. [];
  dag_added = λ _ _. false;
  inst_in_scc = [];
}

-- The branch of `dfs_reverse` for a neighbour that is already used. At a neighbour whose own call
-- has not returned yet, `scc_id` reads the map's default 0.
unfoldable pub link : ℕ → Scc → Scc
link n s =
    let u = s.scc_id n in
    let k = s.scc_num in
    if u == k then s else if s.dag_added u k then s else record s {
      dependents = update s.dependents u (s.dependents u ++ (k ∷ []));
      parents = update s.parents k (s.parents k ++ (u ∷ []));
      dag_added = update s.dag_added u (update (s.dag_added u) k true);
    }

-- `InstInSCC[k].push_back(x)`
unfoldable pub push_at : List (List ℕ) → ℕ → ℕ → List (List ℕ)
push_at l k x = set l k (get_or l k [] ++ (x ∷ []))

-- The body of the second loop, at an unused instruction: a new component, its members, `sccNum++`.
abbrev pub new_scc : Scc → Scc
new_scc s = record s { inst_in_scc = s.inst_in_scc ++ ([] ∷ []) }

abbrev pub end_scc : Scc → Scc
end_scc s = record s { scc_num = suc s.scc_num }

module _ (g : Pdg) where
  abbrev pub forward : Walk Scc
  forward = record {
    next = λ x. targets (g.pdg x);
    seen = λ s. s.used;
    enter = λ x s. record s { used = update s.used x true };
    again = λ x n s. s;
    leave = λ x s. record s { order = s.order ++ (x ∷ []) };
  }

  abbrev pub backward : Walk Scc
  backward = record {
    next = λ x. targets (g.rev x);
    seen = λ s. s.used;
    enter = λ x s. record s { used = update s.used x true };
    again = λ x n s. link n s;
    leave = λ x s. record s {
      scc_id = update s.scc_id x s.scc_num;
      inst_in_scc = push_at s.inst_in_scc s.scc_num x;
    };
  }

  -- The fuel bounds how deep the calls nest.
  unfoldable pub dfs_forward : ℕ → ℕ → Scc → Option Scc
  unfolding depth_first
  dfs_forward fuel x s = depth_first forward fuel x s

  unfoldable pub dfs_reverse : ℕ → ℕ → Scc → Option Scc
  unfolding depth_first link push_at
  dfs_reverse fuel x s = depth_first backward fuel x s

  -- The first loop of `findSCC`, over the loop's instructions.
  unfoldable pub forward_all : ℕ → List ℕ → Scc → Option Scc
  unfolding dfs_forward
  forward_all fuel [] s = some s
  forward_all fuel (x ∷ xs) s =
      (if s.used x then some s else dfs_forward fuel x s) >>= λ t. forward_all fuel xs t

  unfoldable pub backward_all : ℕ → List ℕ → Scc → Option Scc
  unfolding dfs_reverse
  backward_all fuel [] s = some s
  backward_all fuel (x ∷ xs) s =
      (if s.used x then some s else (dfs_reverse fuel x (new_scc s) >>= λ t. some (end_scc t)))
      >>= λ t. backward_all fuel xs t

  -- `findSCC`, for the instructions of the loop's blocks in order.
  unfoldable pub find_scc : ℕ → List ℕ → Scc → Option Scc
  unfolding forward_all backward_all
  find_scc fuel insts s = forward_all fuel insts (record s { used = λ _. false }) >>= λ t.
      backward_all fuel (reverse t.order)
        (record t { used = λ _. false; dag_added = λ _ _. false; scc_num = 0; inst_in_scc = [] })
