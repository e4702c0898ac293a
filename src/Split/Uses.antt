-- ===== src/Split/Uses.antt =====
-- `replaceUses` of Utils.h: each operand that the map has is replaced. The map is a function into
-- `Option`, `none` where it has no entry or a null one; the copy that the call gets may grow null
-- entries, which nobody sees.
use dswp_plus.Base.{
  ℕ, ◌≡◌, refl, ap₂, Option, Option-cases, inl, inr, none, some, List, [], ◌∷◌, arith,
}

-- The value that stands for `op` after the replacement.
abbrev pub replaced : (ℕ → Option ℕ) → ℕ → ℕ
replaced rep op = elim (rep op) [ none ↦ op | some v ↦ v ]

-- The loop over the operands of an instruction.
unfoldable pub replace_uses : (ℕ → Option ℕ) → List ℕ → List ℕ
replace_uses rep [] = []
replace_uses rep (op ∷ ops) = replaced rep op ∷ replace_uses rep ops

replaced-again :
    (rep : ℕ → Option ℕ) (op : ℕ)
    → ((op new : ℕ) → rep op ≡ some new → rep new ≡ none)
    → replaced rep (replaced rep op) ≡ replaced rep op
replaced-again rep op h = elim (Option-cases (rep op)) [
  | inl e ↦ ground (arith, e)
  | inr (new, e) ↦ let e2 = h op new e in ground (arith, e, e2)
]

-- A second replacement by the same map changes nothing, if no replacement is itself replaced.
pub replace_uses-again :
    (rep : ℕ → Option ℕ) (ops : List ℕ)
    → ((op new : ℕ) → rep op ≡ some new → rep new ≡ none)
    → replace_uses rep (replace_uses rep ops) ≡ replace_uses rep ops
unfolding replace_uses
replace_uses-again rep [] h = refl
replace_uses-again rep (op ∷ ops) h =
    ap₂ (λ x xs. x ∷ xs) (replaced-again rep op h) (replace_uses-again rep ops h)
