-- ===== src/Sync/Delete/Redirected.antt =====
-- Where the blocks in front of the loop branch to behind `preLoopSplit` (DSWP_4.cpp).
use dswp_plus.Base.{
  ℕ, ◌≡◌, ◌≢◌, refl, sym, ap, ◌<◌, ◌≤◌, Bool, false, List, [], ◌∷◌, ◌==◌, if◌then◌else◌, update,
  count, arith, Bool-cases, inl, inr, eq-of-==, ne-of-==,
}
use dswp_plus.Split.Pre.{redirect, redirect_all}

redirect_lem :
    (header new b : ℕ) (bs : List ℕ)
    → b ≢ new
    → count b (redirect header new bs) ≡ (if b == header then 0 else count b bs)
unfolding redirect
redirect_lem header new b [] ne = ground arith
redirect_lem header new b (x ∷ bs) ne = elim (Bool-cases (x == header)) [
  | inl e ↦ rw e (ground (arith, e, ne, redirect_lem header new b bs ne))
  | inr e ↦ rw e (ground (arith, e, ne, redirect_lem header new b bs ne))
]

module _ (contains : ℕ → Bool) (header new : ℕ) where
  update-redirect :
      (x p b : ℕ) (targets : ℕ → List ℕ)
      → b ≢ new
      → let t =
          if contains x then targets else update targets x (redirect header new (targets x)) in
        (count b (t p) ≤ count b (targets p))
        × (x ≡ p → contains p ≡ false → b ≡ header → count b (t p) ≡ 0)
  update-redirect x p b targets ne = elim (Bool-cases (contains x)) [
    | inl e ↦ rw e (omega arith, λ same out at. absurd (ground (arith, e, out, ap contains same)))
    | inr e ↦ elim (Bool-cases (x == p)) [
      | inl q ↦
          let same = eq-of-== x p q in
          let k = redirect_lem header new b (targets x) ne in
          let k' = ap (λ z. count b (targets z)) same in
          rw (e, q) (ground (arith, k, k'), λ _ out at. ground (arith, k, at))
      | inr q ↦ rw (e, q) (omega arith, λ same out at. absurd (ne-of-== x p q same))
    ]
  ]

  pub redirect_all-le :
      (ps : List ℕ) (targets : ℕ → List ℕ) (p b : ℕ)
      → b ≢ new
      → count b (redirect_all contains header new ps targets p) ≤ count b (targets p)
  unfolding redirect_all
  redirect_all-le [] targets p b ne = omega arith
  redirect_all-le (x ∷ ps) targets p b ne = omega (
    arith,
    redirect_all-le ps
        (if contains x then targets else update targets x (redirect header new (targets x))) p b ne,
    (update-redirect x p b targets ne).0,
  )

  pub redirect_all-gone :
      (ps : List ℕ) (targets : ℕ → List ℕ) (p : ℕ)
      → header ≢ new
      → contains p ≡ false
      → 0 < count p ps
      → count header (redirect_all contains header new ps targets p) ≡ 0
  unfolding redirect_all
  redirect_all-gone [] targets p ne out c = absurd (omega (arith, c))
  redirect_all-gone (x ∷ ps) targets p ne out c =
      let t : ℕ → List ℕ =
        if contains x then targets else update targets x (redirect header new (targets x)) in
      elim (Bool-cases (p == x)) [
        | inl e ↦
            let now = (update-redirect x p header targets ne).1 (sym (eq-of-== p x e)) out refl in
            omega (arith, redirect_all-le ps t p header ne, now)
        | inr e ↦ redirect_all-gone ps t p ne out (ground (arith, c, e))
      ]
