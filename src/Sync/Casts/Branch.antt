-- ===== src/Sync/Casts/Branch.antt =====
-- The calls that `insertProduce` puts behind a branch, and where `cleanup` moves them.
use mathlib.Core.List.{reverse, reverse_aux, map, reverse-reverse, append-nil}
use dswp_plus.Base.{
  ℕ, ◌≡◌, refl, ap, ◌∙◌, Bool, true, false, Option, some, none, List, [], ◌∷◌, ◌++◌, ==_self, ◌>>=◌,
}
use dswp_plus.Pdg.{DType}
use dswp_plus.Sync.Casts.{
  Ty, Node, inst, produce_call, is_inst, is_reg, insert_behind, insert_produce, produce_nodes,
}
use dswp_plus.Sync.Clean.{Cut, move_produces}
use dswp_plus.Sync.Clean.Tidy.{Free, IsBlock, move_produces_lem}

-- No instruction of the list is `u`.
abbrev pub Lacks : ℕ → List Node → Type 0
Lacks u ns = Free (is_inst u) ns

insert_behind_lem :
    (u : ℕ) (new before after : List Node)
    → Lacks u before
    → insert_behind true u new (before ++ (inst u ∷ after))
      ≡ some (before ++ (inst u ∷ (new ++ after)))
unfolding insert_behind
insert_behind_lem u new [] [] f = rw (==_self u, append-nil new) refl
insert_behind_lem u new [] (n ∷ after) f = rw (==_self u) refl
insert_behind_lem u new (n ∷ []) after (e, f) = rw (e, insert_behind_lem u new [] after tt) refl
insert_behind_lem u new (n ∷ m ∷ before) after (e, f) =
    rw (e, insert_behind_lem u new (m ∷ before) after f) refl

-- `insertProduce` for dependences of one instruction, in the order of their channels.
abbrev pub produce_all : DType → Ty → ℕ → List ℕ → List Node → Option (List Node)
produce_all dtype ty u [] block = some block
produce_all dtype ty u (k ∷ ks) block =
    insert_produce true dtype ty u k block >>= λ next. produce_all dtype ty u ks next

produce_all_lem :
    (dtype : DType) (ty : Ty) (u : ℕ) (ks : List ℕ) (before after : List Node)
    → is_reg dtype ≡ false
    → Lacks u before
    → produce_all dtype ty u ks (before ++ (inst u ∷ after))
      ≡ some (before ++ (inst u ∷ reverse_aux (map (produce_call none) ks) after))
unfolding insert_produce produce_nodes
produce_all_lem dtype ty u [] before after h f = refl
produce_all_lem dtype ty u (k ∷ ks) before after h f =
    rw (h, insert_behind_lem u (produce_call none k ∷ []) before after f)
      (produce_all_lem dtype ty u ks before (produce_call none k ∷ after) h f)

calls-Free :
    (p : Node → Bool) (ks : List ℕ) (after : List Node)
    → ((k : ℕ) → p (produce_call none k) ≡ false)
    → Free p after
    → Free p (reverse_aux (map (produce_call none) ks) after)
calls-Free p [] after h f = f
calls-Free p (k ∷ ks) after h f = calls-Free p ks (produce_call none k ∷ after) h (h k, f)

-- Let the terminator of a block be the source of dependences that are not register dependences, and
-- let LLVM put what is inserted behind it at the end of the block. After `insertProduce` for each of
-- these dependences and the first loop of `cleanup`, the calls stand in front of the terminator, in
-- the order in which they were made.
pub move_produces-produce_all :
    (is_term is_phi : Node → Bool) (dtype : DType) (ty : Ty) (u : ℕ) (ks : List ℕ)
    (before : List Node)
    → is_reg dtype ≡ false
    → is_term (inst u) ≡ true
    → is_phi (inst u) ≡ false
    → ((k : ℕ) → is_term (produce_call none k) ≡ false)
    → Free is_term before
    → Lacks u before
    → (produce_all dtype ty u ks (before ++ (inst u ∷ [])) >>= move_produces is_term is_phi)
      ≡ some ((before ++ map (produce_call none) ks) ++ (inst u ∷ []))
move_produces-produce_all is_term is_phi dtype ty u ks before r t p c f l =
    let calls = map (produce_call none) ks in
    let cut : Cut Node = record { before = before; at = inst u; after = reverse calls } in
    let ok : IsBlock is_term is_phi cut = record {
      term = t;
      nonphi = p;
      before = f;
      after = calls-Free is_term ks [] c tt;
    } in
    rw (produce_all_lem dtype ty u ks before [] r l) (
      move_produces_lem is_term is_phi cut ok
      ∙ ap (λ q. some ((before ++ q) ++ (inst u ∷ []))) (reverse-reverse calls))
