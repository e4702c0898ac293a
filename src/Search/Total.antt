-- ===== src/Search/Total.antt =====
-- With fuel for the unmarked nodes the walk returns, and its result is that of a run.
use dswp_plus.Base.{
  ℕ, zero, suc, ◌≡◌, refl, true, false, some, List, [], ◌∷◌, count, arith, ◌<◌, ◌≤◌, Bool-cases,
  inl, inr,
}
use dswp_plus.Search.Defs.{Walk, unseen, IsWalk, Run, done, old, new, neighbours, depth_first}
use dswp_plus.Search.Marks.{unseen_mono, unseen-lt, Run-seen}

module _ {S : Type 0} {w : Walk S} (law : IsWalk w) (nodes : List ℕ) where
  -- The nodes still unmarked bound the depth of the calls.
  abbrev left : S → ℕ
  left s = unseen (w.seen s) nodes

  -- No edge leads out of `nodes`.
  abbrev pub IsClosed : Type 0
  IsClosed = (v n : ℕ) → 0 < count v nodes → 0 < count n (w.next v) → 0 < count n nodes

  -- What the walk from `n` at `s` returns, given the fuel `f`.
  abbrev pub Returns : ℕ → ℕ → S → Type 0
  Returns f n s =
      (t : S) × (depth_first w f n s ≡ some (w.leave n t)) × Run w n (w.next n) (w.enter n s) t

  neighbours_total :
      (f : ℕ)
      → ((n : ℕ) (s : S) → 0 < count n nodes → w.seen s n ≡ false → left s ≤ f → Returns f n s)
      → (v : ℕ) (ns : List ℕ) (s : S) → ((n : ℕ) → 0 < count n ns → 0 < count n nodes)
      → left s ≤ f
      → (t : S) × (neighbours w (depth_first w f) v ns s ≡ some t) × Run w v ns s t
  unfolding neighbours
  neighbours_total f visit v [] s i h = (s, refl, done)
  neighbours_total f visit v (n ∷ ns) s i h = elim (Bool-cases (w.seen s n)) [
    | inl e ↦
        let (t, eq, r) =
          neighbours_total f visit v ns (w.again v n s) (λ m c. i m (omega arith))
            (omega (
              arith,
              unseen_mono (w.seen s) (w.seen (w.again v n s)) nodes (λ x p. rw law.seen_again p),
            )) in
        (t, rw e eq, old e r)
    | inr e ↦
        let (t, eq, r) = visit n s (i n (ground arith)) e h in
        let (u, eq', r') =
          neighbours_total f visit v ns (w.leave n t) (λ m c. i m (omega arith))
            (omega (
              arith,
              unseen_mono (w.seen s) (w.seen (w.leave n t)) nodes (λ x p.
                  rw law.seen_leave (Run-seen law r x (ground (arith, law.seen_enter n x s)))),
            )) in
        (u, rw (e, eq) eq', new e r r')
  ]

  -- Fuel for the unmarked nodes is enough.
  pub depth_first_total :
      IsClosed
      → (f n : ℕ) (s : S) → 0 < count n nodes
      → w.seen s n ≡ false
      → left s ≤ f
      → Returns f n s
  unfolding depth_first
  depth_first_total closed zero n s c e h =
      absurd (omega (arith, unseen-lt (w.seen s) (λ _. true) nodes n (λ _ _. refl) c e refl))
  depth_first_total closed (suc f) n s c e h =
      let (t, eq, r) =
        neighbours_total f (depth_first_total closed f) n (w.next n) (w.enter n s)
          (λ m k. closed n m c k)
          (omega (
            arith,
            unseen-lt (w.seen s) (w.seen (w.enter n s)) nodes n
                (λ x p. ground (arith, law.seen_enter n x s)) c e
                (ground (arith, law.seen_enter n n s)),
          )) in
      (t, rw eq, r)
