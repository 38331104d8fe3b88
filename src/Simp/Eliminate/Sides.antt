-- ===== src/Simp/Eliminate/Sides.antt =====
-- The blocks that the choice of the smaller side pushes, for either choice.
use mathlib.Core.Path.{subst}
use glucose.Prelude.{◌≡◌, ◌∙◌, inl, inr, false, List, ◌++◌, arith, ltb, Bool-cases}
use glucose.Prelude.Lists.{length, In, All, In-All, All-In}
use glucose.Lit.{Lit, Var, mk_lit, neg, var}
use glucose.Lit.Laws.{var-neg, var-mk_lit, neg-neg}
use glucose.Lit.Truth.{Assignment, satisfies}
use glucose.Simp.Merge.Size.{Avoids, IsProper}
use glucose.Simp.Stack.{push_unit}
use glucose.Simp.Stack.Extend.{Block, words, repair_all}
use glucose.Simp.Eliminate.Repair.{push_unit-repairs, satisfies-update}
use glucose.Simp.Eliminate.Correct.{Models, Resolved, stored-hold, others-hold}
use glucose.Simp.Eliminate.{Clause, store, push_clauses}

-- The blocks make both sides hold, and change nothing but `v`.
pub record Repairs (v : Var) (new : List Block) (cs ds : List Clause) : Type 0 where
  pub sides :
      (a : Assignment)
      → Resolved a v cs ds
      → Models (repair_all a new) cs × Models (repair_all a new) ds
  pub elsewhere :
      (a : Assignment) (c : Clause) → Avoids v c → satisfies (repair_all a new) c ≡ satisfies a c

abbrev Stored : Var → List Block → Lit → List Clause → List Clause → Type 0
Stored v bs l cs ds =
    (new : List Block) × (push_unit (push_clauses (words bs) v cs) (neg l) ≡ words (new ++ bs))
    × Repairs v new cs ds

store_side :
    (v : Var) (bs : List Block) (l : Lit) (cs ds : List Clause)
    → var l ≡ v
    → All (λ c. IsProper c × In l c) cs
    → All (In (neg l)) ds
    → Stored v bs l cs ds
store_side v bs l cs ds e h k =
    subst (λ v. Stored v bs l cs ds) e
      (let (new, pushed, r) = push_unit-repairs bs l cs h in
        (
          new,
          pushed,
          record {
            sides = λ a p. rw (r a) (stored-hold a l cs ds h, others-hold a l cs ds p k);
            elsewhere = λ a c away. rw (r a) (satisfies-update a (var l) _ c away);
          },
        ))

-- The pairs, taken the other way round.
Resolved-swap :
    (a : Assignment) (v : Var) (cs ds : List Clause) → Resolved a v cs ds → Resolved a v ds cs
Resolved-swap a v cs ds h c d m n = ground (arith, h d c n m)

Repairs-swap :
    (v : Var) (new : List Block) (cs ds : List Clause) → Repairs v new cs ds → Repairs v new ds cs
Repairs-swap v new cs ds r = record {
  sides = λ a p. let (x, y) = r.sides a (Resolved-swap a v ds cs p) in (y, x);
  elsewhere = r.elsewhere;
}

pub store-Repairs :
    (v : Var) (bs : List Block) (ps ns : List Clause)
    → All (λ c. IsProper c × In (mk_lit v false) c) ps
    → All (λ c. IsProper c × In (neg (mk_lit v false)) c) ns
    → (new : List Block) × (store (words bs) v ps ns ≡ words (new ++ bs)) × Repairs v new ps ns
unfolding store
store-Repairs v bs ps ns h k = elim (Bool-cases (ltb (length ns) (length ps))) [
  | inl fewer ↦
      let back = neg-neg (mk_lit v false) in
      let (new, pushed, r) =
        store_side v bs (neg (mk_lit v false)) ns ps (var-neg (mk_lit v false) ∙ var-mk_lit v false)
          k
          (rw back
            (In-All ps λ c m. (All-In (λ c. IsProper c × In (mk_lit v false) c) ps h m).1)) in
      (new, rw fewer (rw back at pushed), Repairs-swap v new ns ps r)
  | inr more ↦
      let (new, pushed, r) =
        store_side v bs (mk_lit v false) ps ns (var-mk_lit v false) h
          (In-All ns λ c m. (All-In (λ c. IsProper c × In (neg (mk_lit v false)) c) ns k m).1) in
      (new, rw more pushed, r)
]
