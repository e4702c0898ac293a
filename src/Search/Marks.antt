-- ===== src/Search/Marks.antt =====
-- What a run does to the marks.
use dswp_plus.Base.{
  ℕ, ◌≡◌, Bool, true, false, List, [], ◌∷◌, ◌==◌, count, arith, ◌<◌, ◌≤◌, Bool-cases, length, inl,
  inr, eq-of-==,
}
use dswp_plus.Search.Defs.{Walk, unseen, IsWalk, Run, done, old, new}

pub unseen_mono :
    (p q : ℕ → Bool) (xs : List ℕ) → ((x : ℕ) → p x ≡ true → q x ≡ true) → unseen q xs ≤ unseen p xs
unseen_mono p q [] h = omega arith
unseen_mono p q (x ∷ xs) h = ground (arith, h x, unseen_mono p q xs h)

pub unseen-le : (p : ℕ → Bool) (xs : List ℕ) → unseen p xs ≤ length xs
unseen-le p [] = omega arith
unseen-le p (x ∷ xs) = ground (arith, unseen-le p xs)

pub unseen-lt :
    (p q : ℕ → Bool) (xs : List ℕ) (v : ℕ)
    → ((x : ℕ) → p x ≡ true → q x ≡ true)
    → 0 < count v xs
    → p v ≡ false
    → q v ≡ true
    → unseen q xs < unseen p xs
unseen-lt p q [] v h c a b = absurd (omega arith)
unseen-lt p q (x ∷ xs) v h c a b = elim (Bool-cases (v == x)) [
  | inl e ↦ let e' = eq-of-== v x e in ground (arith, e', unseen_mono p q xs h)
  | inr e ↦ ground (arith, h x, unseen-lt p q xs v h (ground arith) a b)
]

module _ {S : Type 0} {w : Walk S} (law : IsWalk w) where
  -- A mark stays.
  pub Run-seen :
      {v : ℕ} {ns : List ℕ} {s t : S}
      → Run w v ns s t
      → (x : ℕ) → w.seen s x ≡ true
      → w.seen t x ≡ true
  Run-seen done x h = h
  Run-seen (old {v} {n} {ns} {s} e r) x h = Run-seen r x (rw law.seen_again h)
  Run-seen (new {v} {n} {ns} {s} {t} e r r') x h =
      Run-seen r' x (rw law.seen_leave (Run-seen r x (ground (arith, law.seen_enter n x s))))

  -- Every neighbour that the loop went through is marked.
  pub Run-targets :
      {v : ℕ} {ns : List ℕ} {s t : S}
      → Run w v ns s t
      → (x : ℕ) → 0 < count x ns
      → w.seen t x ≡ true
  Run-targets done x h = absurd (omega arith)
  Run-targets (old {v} {n} {ns} {s} e r) x h = elim (Bool-cases (x == n)) [
    | inl q ↦ Run-seen r x (rw (law.seen_again, eq-of-== x n q) e)
    | inr q ↦ Run-targets r x (ground arith)
  ]
  Run-targets (new {v} {n} {ns} {s} {t} e r r') x h = elim (Bool-cases (x == n)) [
    | inl q ↦ Run-seen r' x (
        rw law.seen_leave
          (Run-seen r x (let q' = eq-of-== x n q in ground (arith, law.seen_enter n x s))))
    | inr q ↦ Run-targets r' x (ground arith)
  ]

  -- The neighbours of a node that the run marked are marked.
  pub Run-closed :
      {v : ℕ} {ns : List ℕ} {s t : S}
      → Run w v ns s t
      → (x : ℕ) → w.seen s x ≡ false
      → w.seen t x ≡ true
      → (y : ℕ) → 0 < count y (w.next x)
      → w.seen t y ≡ true
  Run-closed done x a b y c = absurd (cc)
  Run-closed (old {v} {n} {ns} {s} e r) x a b y c = Run-closed r x (rw law.seen_again a) b y c
  Run-closed (new {v} {n} {ns} {s} {t} e r r') x a b y c = elim (Bool-cases (w.seen t x)) [
    | inr q ↦ Run-closed r' x (rw law.seen_leave q) b y c
    | inl q ↦ elim (Bool-cases (n == x)) [
      | inl here ↦ Run-seen r' y (rw law.seen_leave (Run-targets r y (rw (eq-of-== n x here) c)))
      | inr there ↦
          Run-seen r' y
            (rw law.seen_leave (Run-closed r x (ground (arith, law.seen_enter n x s)) q y c))
    ]
  ]

  -- A run that starts from nodes of `nodes` marks nothing else, if no edge leads out.
  pub Run-inside :
      (nodes : List ℕ) {v : ℕ} {ns : List ℕ} {s t : S}
      → Run w v ns s t
      → ((a b : ℕ) → 0 < count a nodes → 0 < count b (w.next a) → 0 < count b nodes)
      → ((n : ℕ) → 0 < count n ns → 0 < count n nodes)
      → (x : ℕ) → w.seen s x ≡ false
      → w.seen t x ≡ true
      → 0 < count x nodes
  Run-inside nodes done closed i x a b = absurd (cc)
  Run-inside nodes (old {v} {n} {ns} {s} e r) closed i x a b =
      Run-inside nodes r closed (λ m c. i m (omega arith)) x (rw law.seen_again a) b
  Run-inside nodes (new {v} {n} {ns} {s} {t} e r r') closed i x a b =
      elim (Bool-cases (w.seen t x)) [
        | inr q ↦ Run-inside nodes r' closed (λ m c. i m (omega arith)) x (rw law.seen_leave q) b
        | inl q ↦ elim (Bool-cases (n == x)) [
          | inl here ↦ i x (let e' = eq-of-== n x here in ground arith)
          | inr there ↦
              Run-inside nodes r closed (λ m c. closed n m (i n (ground arith)) c) x
                (ground (arith, law.seen_enter n x s)) q
        ]
      ]
