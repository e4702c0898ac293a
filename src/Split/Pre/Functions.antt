-- ===== src/Split/Pre/Functions.antt =====
-- The functions that `DSWP::preLoopSplit` (DSWP_4.cpp) creates for the threads of a loop.
pub mod Names
pub mod Created
pub mod New
mod Tests
use dswp_plus.Base.{
  ℕ, zero, suc, ◌≡◌, ◌≢◌, ◌+◌, Option, none, some, List, [], ◌∷◌, ◌++◌, if◌then◌else◌, ltb, count,
}
use dswp_plus.Partition.{max_thread}

-- A name by its characters.
abbrev pub subloop : List ℕ
subloop = 95 ∷ 115 ∷ 117 ∷ 98 ∷ 108 ∷ 111 ∷ 111 ∷ 112 ∷ 95 ∷ []

-- LLVM's module: the function of a name, and `getOrInsertFunction`, which never gives NULL, so that the
-- test for it is left out.
pub record ModuleApi (M : Type 0) : Type 0 where
  pub get_function : List ℕ → M → Option ℕ
  pub get_or_insert : List ℕ → M → ℕ × M

-- The module, `allFunc` and `generated`.
pub record Workers (M : Type 0) : Type 0 where
  pub module_of : M
  pub all_func : List ℕ
  pub generated : List ℕ

abbrev pub worker_name : (ℕ → List ℕ) → ℕ → ℕ → List ℕ
worker_name itoa counter i = itoa counter ++ (subloop ++ itoa i)

module _ {M : Type 0} (api : ModuleApi M) (itoa : ℕ → List ℕ) where
  -- The body of the loop; `generated` is a set.
  unfoldable pub create_worker : ℕ → ℕ → Workers M → Workers M
  create_worker counter i w =
      let (f, m) = api.get_or_insert (worker_name itoa counter i) w.module_of in
      record {
        module_of = m;
        all_func = w.all_func ++ (f ∷ []);
        generated = if ltb 0 (count f w.generated) then w.generated else w.generated ++ (f ∷ []);
      }

  -- The loop from `i` on, with `n` threads left.
  unfoldable pub create_from : ℕ → ℕ → ℕ → Workers M → Workers M
  unfolding create_worker
  create_from counter zero i w = w
  create_from counter (suc n) i w = create_from counter n (i + 1) (create_worker counter i w)

  unfoldable pub create_workers : ℕ → Workers M → Workers M
  unfolding create_from
  create_workers counter w = create_from counter max_thread 0 w
