-- ===== src/Sync/Uses/Replaced.antt =====
-- That `insertConsume` (DSWP_5.cpp) leaves no use of the old instruction in the consumer's function.
use mathlib.Core.List.{Memᴰ}
use mathlib.Core.List.Memᴰ
use dswp_plus.Base.{
  ℕ, ◌≡◌, ◌≢◌, refl, subst, ◌∙◌, ◌+◌, ◌<◌, ◌≤◌, true, false, Option, none, some, List, [], ◌∷◌,
  ◌==◌, if◌then◌else◌, update, ltb, count, arith, Bool-cases, inl, inr, eq-of-==, ne-of-==, ==_self,
}
use dswp_plus.Pdg.{DType}
use dswp_plus.Split.Uses.{replace_uses}
use dswp_plus.Sync.Casts.{is_reg}
use dswp_plus.Sync.Uses.{entry, replace_in, replace_received, receive_all}
use dswp_plus.Sync.Uses.Renamed.{
  Renamed, Renamed-refl, Renamed-trans, Renamed-mono, replace_uses-Renamed, replace_uses-gone,
}
use dswp_plus.Sync.Uses.Remaining.{
  remaining, remaining_mono, remaining-less, remaining-some, remaining-none,
}

module _ (func_of : ℕ → ℕ) (f old : ℕ) where
  -- What one run of the loop does, for the users that the iterator comes to.
  record Receives (new : ℕ) (us : List (Option ℕ)) (ops ops' : ℕ → List ℕ) : Type 0 where
    pub others : (y : ℕ) → (func_of y == f) ≡ false → ops' y ≡ ops y
    pub renamed : (y : ℕ) → Renamed old (new ∷ []) (ops y) (ops' y)
    pub stays : (y : ℕ) → count old (ops y) ≡ 0 → count old (ops' y) ≡ 0
    pub gone : (y : ℕ) → Memᴰ (some y) us → func_of y ≡ f → count old (ops' y) ≡ 0

  -- The operands of one user of the function.
  replace_one :
      (new user y : ℕ) (ops : ℕ → List ℕ)
      → new ≢ old
      → let ops' = update ops user (replace_uses (entry old new) (ops user)) in
        ((user == y) ≡ false → ops' y ≡ ops y)
        × Renamed old (new ∷ []) (ops y) (ops' y)
        × (count old (ops y) ≡ 0 → count old (ops' y) ≡ 0)
        × ((user == y) ≡ true → count old (ops' y) ≡ 0)
  replace_one new user y ops ne = elim (Bool-cases (user == y)) [
    | inl e ↦
        let same = eq-of-== user y e in
        (
          λ h. absurd (ground (arith, e, h)),
          rw e (
              subst (λ z. Renamed old (new ∷ []) (ops z) (replace_uses (entry old new) (ops user)))
                same (replace_uses-Renamed old new (ops user))),
          λ h. rw e (replace_uses-gone old new (ops user) ne),
          λ h. rw e (replace_uses-gone old new (ops user) ne),
        )
    | inr e ↦ (
      λ h. rw e refl,
      rw e (Renamed-refl old (new ∷ []) (ops y)),
      λ h. rw e h,
      λ h. absurd (ground (arith, e, h)),
    )
  ]

  replace_in_lem :
      (new : ℕ) (us : List (Option ℕ)) (ops : ℕ → List ℕ)
      → new ≢ old
      → (¬ Memᴰ none us)
      → (ops' : ℕ → List ℕ) × (replace_in func_of f old new us ops ≡ some ops')
        × Receives new us ops ops'
  unfolding replace_in
  replace_in_lem new [] ops ne is = (
    ops,
    refl,
    record {
      others = λ y h. refl;
      renamed = λ y. Renamed-refl old (new ∷ []) (ops y);
      stays = λ y h. h;
      gone = λ y m h. absurd (Memᴰ.not-nil m);
    },
  )
  replace_in_lem new (none ∷ us) ops ne is = absurd (is (Memᴰ.head refl))
  replace_in_lem new (some user ∷ us) ops ne is = elim (Bool-cases (func_of user == f)) [
    | inl e ↦
        let ops1 : ℕ → List ℕ = update ops user (replace_uses (entry old new) (ops user)) in
        let (ops', eq, r) = replace_in_lem new us ops1 ne (λ m. is (Memᴰ.tail m)) in
        let one : (y : ℕ)
            → ((user == y) ≡ false → ops1 y ≡ ops y)
              × Renamed old (new ∷ []) (ops y) (ops1 y)
              × (count old (ops y) ≡ 0 → count old (ops1 y) ≡ 0)
              × ((user == y) ≡ true → count old (ops1 y) ≡ 0) =
          λ y. replace_one new user y ops ne in
        (
          ops',
          rw e eq,
          record {
            others = λ y h. r.others y h ∙ (one y).0 (other_user user y e h);
            renamed = λ y. Renamed-trans (λ n c. c) ((one y).1) (r.renamed y);
            stays = λ y h. r.stays y ((one y).2 h);
            gone = λ y m h. elim (Memᴰ.cases_cons m) [
              | inl same ↦ r.stays y ((one y).3 (same_user user y same))
              | inr n ↦ r.gone y n h
            ];
          },
        )
    | inr e ↦
        let (ops', eq, r) = replace_in_lem new us ops ne (λ m. is (Memᴰ.tail m)) in
        (
          ops',
          rw e eq,
          record {
            others = r.others;
            renamed = r.renamed;
            stays = r.stays;
            gone = λ y m h. elim (Memᴰ.cases_cons m) [
              | inl same ↦
                  let at : y ≡ user = cc in
                  let in_f : func_of user ≡ f = subst (λ z. func_of z ≡ f) at h in
                  absurd (ne-of-== (func_of user) f e in_f)
              | inr n ↦ r.gone y n h
            ];
          },
        )
  ]
    where
      other_user :
          (user y : ℕ) → (func_of user == f) ≡ true → (func_of y == f) ≡ false → (user == y) ≡ false
      other_user user y e h = elim (Bool-cases (user == y)) [
        | inl s ↦
            let at : (func_of y == f) ≡ true =
              subst (λ z. (func_of z == f) ≡ true) (eq-of-== user y s) e in
            absurd (ground (arith, at, h))
        | inr s ↦ s
      ]

      same_user : (user y : ℕ) → Path (Option ℕ) (some y) (some user) → (user == y) ≡ true
      same_user user y same = let at : user ≡ y = cc in rw at (==_self y)

abbrev pub casts : List (DType × ℕ) → List ℕ
casts [] = []
casts (c ∷ cs) = c.1 ∷ casts cs

-- How many of the channels carry a value.
abbrev pub values : List (DType × ℕ) → ℕ
values [] = 0
values (c ∷ cs) = (if is_reg c.0 then 1 else 0) + values cs

-- What LLVM's list of the uses gives, if the loop that walks in it changes it: only instructions use the
-- value, and the iterator comes to a user in the function, if there is one, since it stays in the list
-- up to the first change.
pub record IsVisit (func_of : ℕ → ℕ) (visit : ℕ → (ℕ → List ℕ) → List (Option ℕ)) (f : ℕ)
    : Type 0 where
  pub are_insts : (old : ℕ) (ops : ℕ → List ℕ) → ¬ Memᴰ none (visit old ops)
  pub comes :
      (old : ℕ) (ops : ℕ → List ℕ) (y : ℕ)
      → func_of y ≡ f
      → 0 < count old (ops y)
      → (z : ℕ) × Memᴰ (some z) (visit old ops) × (func_of z ≡ f) × (0 < count old (ops z))

module _ (func_of : ℕ → ℕ) (visit : ℕ → (ℕ → List ℕ) → List (Option ℕ)) (f old : ℕ)
    (law : IsVisit func_of visit f) (insts : List ℕ)
    (all : (y : ℕ) → func_of y ≡ f → 0 < count y insts)
    (only : (y : ℕ) → 0 < count y insts → func_of y ≡ f) where
  fewer :
      (new k : ℕ) (ops ops' : ℕ → List ℕ)
      → Receives func_of f old new (visit old ops) ops ops'
      → remaining old insts ops ≤ k + 1
      → remaining old insts ops' ≤ k
  fewer new k ops ops' r h = elim (Bool-cases (ltb 0 (remaining old insts ops))) [
    | inl e ↦
        let (y, c, u) = remaining-some old insts ops (ground (arith, e)) in
        let (z, m, in_f, u') = law.comes old ops y (only y c) u in
        let less = remaining-less old insts ops ops' z r.stays (all z in_f) u' (r.gone z m in_f) in
        omega (arith, less, h)
    | inr e ↦ let le = remaining_mono old insts ops ops' r.stays in ground (arith, e, le)
  ]

  -- Let the value be used by instructions only, and let the iterator come at least to one user of it
  -- in the consumer's function, as long as there is one. If the channels from the value into the
  -- function that carry a value are at least as many as its users there, then the calls of
  -- `insertConsume` for all the channels return, and no instruction of the function uses the old
  -- value any more. In the place of each use stands one of the received values; the other operands,
  -- and the other functions, are as before.
  pub receive_all-Renamed :
      (cs : List (DType × ℕ)) (ops : ℕ → List ℕ)
      → count old (casts cs) ≡ 0
      → remaining old insts ops ≤ values cs
      → (ops' : ℕ → List ℕ) × (receive_all func_of visit f old cs ops ≡ some ops')
        × ((y : ℕ) → func_of y ≡ f → count old (ops' y) ≡ 0)
        × ((y : ℕ) → func_of y ≢ f → ops' y ≡ ops y)
        × ((y : ℕ) → Renamed old (casts cs) (ops y) (ops' y))
  unfolding receive_all replace_received
  receive_all-Renamed [] ops ne h = (
    ops,
    refl,
    λ y e. remaining-none old insts ops y (omega (arith, h)) (all y e),
    λ y e. refl,
    λ y. Renamed-refl old [] (ops y),
  )
  receive_all-Renamed (c ∷ cs) ops ne h = elim (Bool-cases (is_reg c.0)) [
    | inl e ↦
        let (ops1, eq, r) =
          replace_in_lem func_of f old c.1 (visit old ops) ops (λ s. ground (arith, ne, s))
            (law.are_insts old ops) in
        let (ops', eq', gone, others, same) =
          receive_all-Renamed cs ops1 (ground (arith, ne))
            (fewer c.1 (values cs) ops ops1 r (ground (arith, h, e))) in
        (
          ops',
          rw (e, eq) eq',
          gone,
          λ y n. others y n ∙ r.others y (ground (arith, n)),
          λ y.
              Renamed-trans (λ n k. ground (arith, k)) (r.renamed y)
                (Renamed-mono (λ n k. ground (arith, k)) (same y)),
        )
    | inr e ↦
        let (ops', eq', gone, others, same) =
          receive_all-Renamed cs ops (ground (arith, ne)) (ground (arith, h, e)) in
        (ops', rw e eq', gone, others, λ y. Renamed-mono (λ n k. ground (arith, k)) (same y))
  ]
