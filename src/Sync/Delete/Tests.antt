-- ===== src/Sync/Delete/Tests.antt =====
-- The loop of Split.Tests as the block 4, which the block 3 enters and the block 6 follows.
use dswp_plus.Base.{ℕ, ◌≡◌, refl, true, some, List, [], ◌∷◌, ◌==◌, if◌then◌else◌, ◌+◌, arith}
use dswp_plus.Split.Liveness.{LiveInfo, get_liveinfo}
use dswp_plus.Split.Pre.{sanity_checks}
use dswp_plus.Split.Tests.{values, insts, values-AreUses}
use dswp_plus.Sync.Delete.{delete_loop}
use dswp_plus.Sync.Delete.Outside.{before, IsDeleted, delete_loop-IsDeleted}

abbrev insts_of : ℕ → List ℕ
insts_of b = if b == 4 then insts else []

abbrev targets : ℕ → List ℕ
targets p = if p == 3 then 4 ∷ [] else if p == 4 then 4 ∷ 6 ∷ [] else []

checks_passed : sanity_checks (λ b. b == 4) 6 50 (4 ∷ []) ≡ true
unfolding sanity_checks
checks_passed = refl

delete_loop-IsDeleted_example :
    (l : LiveInfo) × (get_liveinfo values insts ≡ some l)
    × IsDeleted values insts_of
        (4 ∷ [])
        (3 ∷ 4 ∷ [])
        4
        6
        50
        (λ b. b == 4)
        targets
        (λ j. j + 60)
        (λ x. 99)
        l
        (delete_loop
          (λ x. 99)
          insts_of
          (4 ∷ [])
          (before values insts_of
            (4 ∷ [])
            (3 ∷ 4 ∷ [])
            4
            6
            50
            (λ b. b == 4)
            targets
            (λ j. j + 60)
            (λ x. 99)
            l))
delete_loop-IsDeleted_example =
    delete_loop-IsDeleted values insts_of (4 ∷ []) (3 ∷ 4 ∷ []) 4 6 50 (λ b. b == 4) targets
      (λ j. j + 60) (λ x. 99) values-AreUses (λ k. ground arith)
      (record {
        outside = λ y out. ground (arith, out);
        enters = λ p b out c t. (ground (arith, c), ground (arith, out, c, t));
        checked = checks_passed;
      })
