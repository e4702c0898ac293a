-- ===== src/Sync/Uses/Renamed.antt =====
-- Operands of which some were replaced by `replaceUses` (Utils.h), as `insertConsume` calls it.
use dswp_plus.Base.{
  ℕ, ◌≡◌, ◌≢◌, refl, sym, subst, ◌<◌, true, false, List, [], ◌∷◌, ◌==◌, count, arith, Bool-cases,
  inl, inr, eq-of-==,
}
use dswp_plus.Split.Uses.{replaced, replace_uses}
use dswp_plus.Sync.Uses.{entry}

-- The operands `ys` are those of `xs`, but that one of `news` may stand in a place of `old`.
pub data Renamed (old : ℕ) (news : List ℕ) : List ℕ → List ℕ → Type 0 where
  none_left : Renamed old news [] []
  kept : {x : ℕ} {xs ys : List ℕ} → Renamed old news xs ys → Renamed old news (x ∷ xs) (x ∷ ys)
  renamed :
      {x y : ℕ} {xs ys : List ℕ}
      → x ≡ old
      → 0 < count y news
      → Renamed old news xs ys
      → Renamed old news (x ∷ xs) (y ∷ ys)

pub Renamed-refl : (old : ℕ) (news xs : List ℕ) → Renamed old news xs xs
Renamed-refl old news [] = Renamed.none_left
Renamed-refl old news (x ∷ xs) = Renamed.kept (Renamed-refl old news xs)

pub Renamed-trans :
    {old : ℕ} {news ns : List ℕ} {xs ys zs : List ℕ}
    → ((n : ℕ) → 0 < count n news → 0 < count n ns)
    → Renamed old news xs ys
    → Renamed old ns ys zs
    → Renamed old ns xs zs
Renamed-trans h Renamed.none_left q = q
Renamed-trans h (Renamed.kept p) (Renamed.kept q) = Renamed.kept (Renamed-trans h p q)
Renamed-trans h (Renamed.kept p) (Renamed.renamed e c q) = Renamed.renamed e c (Renamed-trans h p q)
Renamed-trans h (Renamed.renamed e c p) (Renamed.kept q) =
    Renamed.renamed e (h _ c) (Renamed-trans h p q)
Renamed-trans h (Renamed.renamed e c p) (Renamed.renamed e' c' q) =
    Renamed.renamed e c' (Renamed-trans h p q)

pub Renamed-mono :
    {old : ℕ} {news ns : List ℕ} {xs ys : List ℕ}
    → ((n : ℕ) → 0 < count n news → 0 < count n ns)
    → Renamed old news xs ys
    → Renamed old ns xs ys
Renamed-mono h Renamed.none_left = Renamed.none_left
Renamed-mono h (Renamed.kept p) = Renamed.kept (Renamed-mono h p)
Renamed-mono h (Renamed.renamed e c p) = Renamed.renamed e (h _ c) (Renamed-mono h p)

replaced_old : (old new x : ℕ) → (x == old) ≡ true → replaced (entry old new) x ≡ new
replaced_old old new x e = rw (replaced, entry, e) refl

pub replaced_other : (old new x : ℕ) → (x == old) ≡ false → replaced (entry old new) x ≡ x
replaced_other old new x e = rw (replaced, entry, e) refl

pub replace_uses-Renamed :
    (old new : ℕ) (xs : List ℕ) → Renamed old (new ∷ []) xs (replace_uses (entry old new) xs)
unfolding replace_uses
replace_uses-Renamed old new [] = Renamed.none_left
replace_uses-Renamed old new (x ∷ xs) = elim (Bool-cases (x == old)) [
  | inl e ↦
      subst (λ z. Renamed old (new ∷ []) (x ∷ xs) (z ∷ replace_uses (entry old new) xs))
        (sym (replaced_old old new x e))
        (Renamed.renamed (eq-of-== x old e) (ground arith) (replace_uses-Renamed old new xs))
  | inr e ↦
      subst (λ z. Renamed old (new ∷ []) (x ∷ xs) (z ∷ replace_uses (entry old new) xs))
        (sym (replaced_other old new x e)) (Renamed.kept (replace_uses-Renamed old new xs))
]

pub replace_uses-gone :
    (old new : ℕ) (xs : List ℕ) → new ≢ old → count old (replace_uses (entry old new) xs) ≡ 0
unfolding replace_uses
replace_uses-gone old new [] ne = refl
replace_uses-gone old new (x ∷ xs) ne = elim (Bool-cases (x == old)) [
  | inl e ↦ rw (replaced_old old new x e) (ground (arith, ne, replace_uses-gone old new xs ne))
  | inr e ↦ rw (replaced_other old new x e) (ground (arith, e, replace_uses-gone old new xs ne))
]
