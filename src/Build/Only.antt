-- ===== src/Build/Only.antt =====
-- Graphs that grow by edges of one sort only, as `buildPDG` (DSWP_1.cpp) adds them.
use dswp_plus.Base.{
  ℕ, ◌≡◌, refl, sym, ap, subst, ◌∙◌, ◌<◌, ◌==◌, if◌then◌else◌, Option, some, arith, Bool-cases, inl,
  inr, ◌⊎◌,
}
use dswp_plus.Pdg.{
  DType, reg, dtrue, danti, dout, dsyn, control, control_lc, Edge, same_edge, dtype_value, Pdg,
  add_edge,
}
use dswp_plus.Pdg.Tables.{edge_count, IsConsistent, edge_count-add_edge, add_edge-IsConsistent}
use dswp_plus.Build.Extends.{HasEdge}

-- The edge is one of the graph's.
abbrev pub Has : Edge → Pdg → Type 0
Has e g = 0 < edge_count e g.all_edges

-- The edge leads from `u` to `v` and is of the type `t`.
abbrev pub IsEdge : ℕ → ℕ → DType → Edge → Type 0
IsEdge u v t e = (e.u ≡ u) × (e.v ≡ v) × (e.dtype ≡ t)

abbrev dtype_of : ℕ → Option DType
dtype_of n =
    if n == 0
    then some reg
    else if n == 1
    then some dtrue
    else if n == 2
    then some danti
    else if n == 3
    then some dout
    else if n == 4
    then some dsyn
    else if n == 5
    then some control
    else some control_lc

dtype_of-dtype_value : (d : DType) → dtype_of (dtype_value d) ≡ some d
dtype_of-dtype_value reg = refl
dtype_of-dtype_value dtrue = refl
dtype_of-dtype_value danti = refl
dtype_of-dtype_value dout = refl
dtype_of-dtype_value dsyn = refl
dtype_of-dtype_value control = refl
dtype_of-dtype_value control_lc = refl

dtype_value_inj : (d e : DType) → dtype_value d ≡ dtype_value e → d ≡ e
dtype_value_inj d e h =
    let same : some d ≡ some e =
      sym (dtype_of-dtype_value d) ∙ ap dtype_of h ∙ dtype_of-dtype_value e in
    cc

pub HasEdge-Has :
    (u v : ℕ) (t : DType) (e : Edge) (g : Pdg) → IsEdge u v t e → HasEdge u v t g → Has e g
HasEdge-Has u v t e g (a, b, c) h =
    subst (λ z. HasEdge z e.v e.dtype g) (sym a)
      (subst (λ z. HasEdge u z e.dtype g) (sym b) (subst (λ z. HasEdge u v z g) (sym c) h))

-- The tables stay in step, and a new edge satisfies `C`.
pub record Only (C : Edge → Type 0) (g g' : Pdg) : Type 0 where
  pub ok : IsConsistent g'
  pub only : (e : Edge) → Has e g' → Has e g ⊎ C e

pub Only-refl : {C : Edge → Type 0} {g : Pdg} → IsConsistent g → Only C g g
Only-refl ok = record { ok = ok; only = λ e h. inl h }

pub Only-trans :
    {C D E : Edge → Type 0} {g g' g'' : Pdg}
    → Only C g g'
    → Only D g' g''
    → ((e : Edge) → C e → E e)
    → ((e : Edge) → D e → E e)
    → Only E g g''
Only-trans p q c d = record {
  ok = q.ok;
  only = λ e h. elim (q.only e h) [
    | inr y ↦ inr (d e y)
    | inl h' ↦ elim (p.only e h') [ inr x ↦ inr (c e x) | inl old ↦ inl old ]
  ];
}

pub Only-map :
    {C D : Edge → Type 0} {g g' : Pdg} → Only C g g' → ((e : Edge) → C e → D e) → Only D g g'
Only-map p c = record {
  ok = p.ok;
  only = λ e h. elim (p.only e h) [ inl old ↦ inl old | inr x ↦ inr (c e x) ];
}

pub add_edge-Only :
    (u v : ℕ) (t : DType) (g : Pdg) → IsConsistent g → Only (IsEdge u v t) g (add_edge u v t g)
add_edge-Only u v t g ok = record {
  ok = add_edge-IsConsistent u v t ok;
  only = λ e h. elim (Bool-cases (same_edge (record { u = u; v = v; dtype = t }) e)) [
    | inl s ↦
        inr (
          ground (arith, s),
          ground (arith, s),
          sym (dtype_value_inj t e.dtype (ground (arith, s))),
        )
    | inr s ↦ inl (ground (arith, edge_count-add_edge u v t e ok, h, s))
  ];
}
