-- ===== src/Partition/Schedule.antt =====
-- The invariant of the loop that gives components to threads.
use dswp_plus.Base.{
  ℕ, ◌≡◌, ap, ◌+◌, ◌≤◌, ◌<◌, true, false, ◌&&◌, List, ◌==◌, ltb, if◌then◌else◌, count, arith, ℤ,
  pos, is_neg, to_ℕ, ◌==ℤ◌, Bool-cases, inl, inr, eq-of-==, update,
}
use dswp_plus.Scc.{Scc}
use dswp_plus.Partition.Defs.{QNode, unassigned, Partition, can_sched, schedule}
use dswp_plus.Partition.Queue.{
  queued, can_sched-all, can_sched-update, assigned-offers, is_ready, queued-offers,
}

-- The facts about the table of components that the loop relies on.
pub record IsTable (s : Scc) : Type 0 where
  pub upward : (a b : ℕ) → s.dag_added a b ≡ true → (a < b) × (b < s.scc_num)
  pub deps : (a b : ℕ) → count b (s.dependents a) ≡ (if s.dag_added a b then 1 else 0)
  pub pars : (a b : ℕ) → count a (s.parents b) ≡ (if s.dag_added a b then 1 else 0)

module _ (s : Scc) where
  -- With the threads up to `i` in use: the queue holds each ready component once and nothing else,
  -- an assigned component has its parents in the same or an earlier thread, and the rest is -2.
  pub record IsSound (i : ℕ) (p : Partition) : Type 0 where
    pub ready :
        (v : ℕ)
        → queued v p.queue ≡ (
            if ltb v s.scc_num
              && (p.assigned v ==ℤ unassigned && can_sched p.assigned (s.parents v))
            then 1
            else 0)
    pub minus_two : (v : ℕ) → is_neg (p.assigned v) ≡ true → p.assigned v ≡ unassigned
    pub thread_le : (v : ℕ) → to_ℕ (p.assigned v) ≤ i
    pub inside : (v : ℕ) → is_neg (p.assigned v) ≡ false → v < s.scc_num
    pub forward :
        (u v : ℕ)
        → s.dag_added u v ≡ true
        → is_neg (p.assigned v) ≡ false
        → (is_neg (p.assigned u) ≡ false) × (to_ℕ (p.assigned u) ≤ to_ℕ (p.assigned v))

  -- A later thread may start where an earlier one stopped.
  pub IsSound-later : {i : ℕ} {p : Partition} → IsSound i p → IsSound (i + 1) p
  IsSound-later ok = record {
    ready = ok.ready;
    minus_two = ok.minus_two;
    thread_le = λ v. omega (arith, ok.thread_le v);
    inside = ok.inside;
    forward = ok.forward;
  }

  module _ (lat : ℕ → ℕ) (table : IsTable s) (i : ℕ) (p : Partition) (ok : IsSound i p)
      (top : QNode) (rest : List QNode)
      (taken : (v : ℕ) → queued v p.queue ≡ (if v == top.u then 1 else 0) + queued v rest) where
    abbrev next : Partition
    next = schedule s lat i top rest p

    -- What came out of the queue is ready.
    top_ready :
        (top.u < s.scc_num)
        × (p.assigned top.u ≡ unassigned)
        × (can_sched p.assigned (s.parents top.u) ≡ true)
    top_ready = ground (arith, ok.ready top.u, taken top.u, ok.minus_two top.u)

    pub assigned-schedule : next.assigned ≡ update p.assigned top.u (pos i)
    unfolding schedule
    assigned-schedule = assigned-offers s lat (s.dependents top.u) _

    next-queued :
        (v : ℕ)
        → queued v next.queue
          ≡ queued v rest
            + (if is_ready s lat (update p.assigned top.u (pos i)) v
                then count v (s.dependents top.u)
                else 0)
    unfolding schedule
    next-queued v = queued-offers s lat v (s.dependents top.u) _

    -- A component that is no child of `top` is as ready as before; a child was not ready.
    next-ready :
        (v : ℕ)
        → queued v next.queue ≡ (
            if ltb v s.scc_num
              && (update p.assigned top.u (pos i) v ==ℤ unassigned
                  && can_sched (update p.assigned top.u (pos i)) (s.parents v))
            then 1
            else 0)
    next-ready v = ground (
      arith,
      next-queued v,
      ok.ready v,
      taken v,
      top_ready,
      table.deps top.u v,
      table.pars top.u v,
      table.upward top.u v,
      can_sched-update p.assigned (s.parents v) top.u (pos i),
      can_sched-all p.assigned (s.parents v) top.u,
    )

    abbrev given : ℕ → ℤ
    given = update p.assigned top.u (pos i)

    -- The parents of `top` are assigned, so they are no obstacle to its thread.
    next-forward :
        (u v : ℕ)
        → s.dag_added u v ≡ true
        → is_neg (given v) ≡ false
        → (is_neg (given u) ≡ false) × (to_ℕ (given u) ≤ to_ℕ (given v))
    next-forward u v d h = elim (Bool-cases (top.u == v)) [
      | inl e ↦
          let e' = eq-of-== top.u v e in
          ground (
            arith,
            e',
            top_ready,
            ok.thread_le u,
            table.pars u v,
            ap (λ x. can_sched p.assigned (s.parents x)) e',
            can_sched-all p.assigned (s.parents v) u,
          )
      | inr e ↦ ground (arith, ok.forward u v, top_ready)
    ]

    pub schedule-IsSound : IsSound i next
    schedule-IsSound = record {
      ready = λ v. rw assigned-schedule (next-ready v);
      minus_two = λ v. rw assigned-schedule (λ h. ground (arith, ok.minus_two v));
      thread_le = λ v. rw assigned-schedule (ground (arith, ok.thread_le v));
      inside = λ v. rw assigned-schedule (λ h. ground (arith, ok.inside v, top_ready));
      forward = λ u v. rw assigned-schedule (next-forward u v);
    }

    -- One more component is assigned.
    pub top_was_free : (top.u < s.scc_num) × (p.assigned top.u ≡ unassigned)
    top_was_free = (top_ready.0, top_ready.1)
