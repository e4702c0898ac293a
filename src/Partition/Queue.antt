-- ===== src/Partition/Queue.antt =====
-- Which components stand in the queue, and how often.
use mathlib.Core.List.{foldl, Perm, Permᴰ}
use mathlib.Core.Logic.{∥∥₁_elim}
use native.Mathlib.Nat.{ℕ_set}
use dswp_plus.Base.{
  ℕ, zero, suc, ◌≡◌, refl, ◌∙◌, ap, ◌+◌, ◌<◌, Bool, true, false, ◌&&◌, List, [], ◌∷◌, ◌==◌, ltb,
  leb, if◌then◌else◌, count, arith, ℤ, is_neg, ◌==ℤ◌, Bool-cases, inl, inr, eq-of-==, update,
}
use dswp_plus.Scc.{Scc}
use dswp_plus.Partition.Defs.{QNode, unassigned, Partition, can_sched, seed, ready_nodes, offer}

-- How often the component `v` stands in a queue.
abbrev pub queued : ℕ → List QNode → ℕ
queued v [] = 0
queued v (q ∷ qs) = (if v == q.u then 1 else 0) + queued v qs

queued-permᴰ : (v : ℕ) {xs ys : List QNode} → Permᴰ xs ys → queued v xs ≡ queued v ys
queued-permᴰ v Permᴰ.nil = refl
queued-permᴰ v (Permᴰ.cons {a} {b} e p) = ground (arith, e, queued-permᴰ v p)
queued-permᴰ v (Permᴰ.swap {a} {b} {a'} {b'} e e') = ground (arith, e, e')
queued-permᴰ v (Permᴰ.trans p q) = queued-permᴰ v p ∙ queued-permᴰ v q

pub queued-perm : (v : ℕ) {xs ys : List QNode} → Perm xs ys → queued v xs ≡ queued v ys
queued-perm v p = ∥∥₁_elim p (ℕ_set _ _) (λ d. queued-permᴰ v d)

-- A child can be scheduled exactly when none of its parents is negative.
pub can_sched-all :
    (a : ℕ → ℤ) (ps : List ℕ) (p : ℕ)
    → can_sched a ps ≡ true
    → 0 < count p ps
    → is_neg (a p) ≡ false
unfolding can_sched
can_sched-all a [] p h c = absurd (omega arith)
can_sched-all a (x ∷ ps) p h c = elim (Bool-cases (p == x)) [
  | inl e ↦ rw (eq-of-== p x e) (ground arith)
  | inr e ↦ ground (arith, can_sched-all a ps p)
]

pub can_sched-of :
    (a : ℕ → ℤ) (ps : List ℕ)
    → ((p : ℕ) → 0 < count p ps → is_neg (a p) ≡ false)
    → can_sched a ps ≡ true
unfolding can_sched
can_sched-of a [] h = refl
can_sched-of a (x ∷ ps) h = ground (arith, h x, can_sched-of a ps (λ p c. h p (omega arith)))

-- An assignment of a component that is no parent changes nothing.
pub can_sched-update :
    (a : ℕ → ℤ) (ps : List ℕ) (u : ℕ) (z : ℤ)
    → count u ps ≡ 0
    → can_sched (update a u z) ps ≡ can_sched a ps
unfolding can_sched
can_sched-update a [] u z h = refl
can_sched-update a (x ∷ ps) u z h = ground (arith, can_sched-update a ps u z)

-- The loop over the children leaves the assignment, and pushes those that are ready.
module _ (s : Scc) (lat : ℕ → ℕ) where
  pub assigned-offers :
      (vs : List ℕ) (p : Partition) → (foldl (offer s lat) p vs).assigned ≡ p.assigned
  unfolding offer
  assigned-offers [] p = refl
  assigned-offers (v ∷ vs) p = ground (arith, assigned-offers vs (offer s lat p v))

  pub est-offers :
      (vs : List ℕ) (p : Partition) → (foldl (offer s lat) p vs).est_latency ≡ p.est_latency
  unfolding offer
  est-offers [] p = refl
  est-offers (v ∷ vs) p = ground (arith, est-offers vs (offer s lat p v))

  -- A component that is not assigned, and whose parents all are.
  abbrev pub is_ready : (ℕ → ℤ) → ℕ → Bool
  is_ready a v = a v ==ℤ unassigned && can_sched a (s.parents v)

  queued-offer :
      (v w : ℕ) (p : Partition)
      → queued v (offer s lat p w).queue
        ≡ queued v p.queue + (if is_ready p.assigned v then (if v == w then 1 else 0) else 0)
  unfolding offer
  queued-offer v w p = ground arith

  pub queued-offers :
      (v : ℕ) (vs : List ℕ) (p : Partition)
      → queued v (foldl (offer s lat) p vs).queue
        ≡ queued v p.queue + (if is_ready p.assigned v then count v vs else 0)
  queued-offers v [] p = ground arith
  queued-offers v (w ∷ vs) p =
      let same : (offer s lat p w).assigned ≡ p.assigned = assigned-offers (w ∷ []) p in
      queued-offers v vs (offer s lat p w) ∙ rw same (ground (arith, queued-offer v w p))

  queued-seed :
      (v scc : ℕ) (q : List QNode)
      → queued v (seed s lat scc q)
        ≡ queued v q
          + (if can_sched (λ _. unassigned) (s.parents scc) then (if v == scc then 1 else 0) else 0)
  unfolding seed can_sched
  queued-seed v scc q = ground arith

  -- The queue starts with the components that have no parents.
  pub queued-ready_nodes :
      (n scc : ℕ) (v : ℕ) (q : List QNode)
      → queued v (ready_nodes s lat n scc q)
        ≡ queued v q
          + (if leb scc v && ltb v (scc + n) && can_sched (λ _. unassigned) (s.parents v)
              then 1
              else 0)
  unfolding ready_nodes
  queued-ready_nodes zero scc v q = ground arith
  queued-ready_nodes (suc n) scc v q =
      let rest = queued-ready_nodes n (scc + 1) v (seed s lat scc q) in
      elim (Bool-cases (v == scc)) [
        | inl e ↦
            let e' = eq-of-== v scc e in
            ground (
              arith,
              rest,
              queued-seed v scc q,
              ap (λ x. can_sched (λ _. unassigned) (s.parents x)) e',
            )
        | inr e ↦ ground (arith, rest, queued-seed v scc q)
      ]
