-- ===== src/Search/Defs.antt =====
-- The walk as a function of what it does at each point (`dfs_forward` and `dfs_reverse` of DSWP_2.cpp,
-- `dfsVisit` of DSWP_1.cpp), and as a relation.
use dswp_plus.Base.{
  ℕ, zero, suc, ◌≡◌, Bool, true, false, Option, none, some, List, [], ◌∷◌, ◌==◌, if◌then◌else◌,
  ◌>>=◌, ◌+◌,
}

-- The program's state `S` is arbitrary; `seen` is its table of visited nodes.
pub record Walk (S : Type 0) : Type 0 where
  pub next : ℕ → List ℕ
  pub seen : S → ℕ → Bool
  pub enter : ℕ → S → S
  pub again : ℕ → ℕ → S → S
  pub leave : ℕ → S → S

-- The nodes of a list that `p` does not hold of.
abbrev pub unseen : (ℕ → Bool) → List ℕ → ℕ
unseen p [] = 0
unseen p (x ∷ xs) = (if p x then 0 else 1) + unseen p xs

module _ {S : Type 0} (w : Walk S) where
  -- The loop over the neighbours of `v`, with the recursive call as a parameter.
  unfoldable pub neighbours : (ℕ → S → Option S) → ℕ → List ℕ → S → Option S
  neighbours visit v [] s = some s
  neighbours visit v (n ∷ ns) s =
      (if w.seen s n then some (w.again v n s) else visit n s) >>= λ t. neighbours visit v ns t

  -- `none` means that the calls nest deeper than the fuel.
  unfoldable pub depth_first : ℕ → ℕ → S → Option S
  unfolding neighbours
  depth_first zero v s = none
  depth_first (suc f) v s =
      neighbours (depth_first f) v (w.next v) (w.enter v s) >>= λ t. some (w.leave v t)

  -- `enter` marks its node, and nothing else changes a mark.
  pub record IsWalk : Type 0 where
    pub seen_enter :
        (v x : ℕ) (s : S) → w.seen (w.enter v s) x ≡ (if v == x then true else w.seen s x)
    pub seen_again : (v n x : ℕ) (s : S) → w.seen (w.again v n s) x ≡ w.seen s x
    pub seen_leave : (v x : ℕ) (s : S) → w.seen (w.leave v s) x ≡ w.seen s x

  -- `Run v ns s t`: from `s`, inside the call for `v`, the loop over the remaining neighbours `ns`
  -- ends in `t`.
  pub data Run : ℕ → List ℕ → S → S → Type 0 where
    done : {v : ℕ} {s : S} → Run v [] s s
    old :
        {v n : ℕ} {ns : List ℕ} {s t : S}
        → w.seen s n ≡ true
        → Run v ns (w.again v n s) t
        → Run v (n ∷ ns) s t
    new :
        {v n : ℕ} {ns : List ℕ} {s t u : S}
        → w.seen s n ≡ false
        → Run n (w.next n) (w.enter n s) t
        → Run v ns (w.leave n t) u
        → Run v (n ∷ ns) s u
