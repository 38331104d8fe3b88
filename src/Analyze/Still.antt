-- ===== src/Analyze/Still.antt =====
-- What marking leaves as it is.
use glucose.Prelude.{
  ◌≤◌, ◌≡◌, refl, ◌∙◌, inl, inr, not, ◌&&◌, List, [], ◌∷◌, arith, ltb, leb, Bool-cases,
}
use glucose.Lit.{Lit, Var, neg, var}
use glucose.Solver.{Solver, decision_level}
use glucose.Analyze.{Analysis, mark, mark_clause, mark_reason}

pub record Still {X : Type 0} (t u : Analysis X) : Type 0 where
  pub same_ca : u.ca ≡ t.ca
  pub same_undos : u.undo_lists ≡ t.undo_lists
  pub same_constraints : u.constraints ≡ t.constraints
  pub more : t.path_c ≤ u.path_c

Still-trans : {X : Type 0} (t u v : Analysis X) → Still t u → Still u v → Still t v
Still-trans t u v h k = record {
  same_ca = k.same_ca ∙ h.same_ca;
  same_undos = k.same_undos ∙ h.same_undos;
  same_constraints = k.same_constraints ∙ h.same_constraints;
  more = omega (arith, h.more, k.more);
}

mark-Still : {X : Type 0} (s : Solver) (v : Var) (q : Lit) (t : Analysis X) → Still t (mark s v q t)
unfolding mark
mark-Still s v q t = elim (Bool-cases (not (t.seen v) && ltb 0 (s.level v))) [
  | inr old ↦
      rw (mark, old)
        (record { same_ca = refl; same_undos = refl; same_constraints = refl; more = omega arith })
  | inl new ↦ elim (Bool-cases (leb (decision_level s) (s.level v))) [
    | inl now ↦
        rw (mark, new, now)
          (record {
            same_ca = refl;
            same_undos = refl;
            same_constraints = refl;
            more = omega arith;
          })
    | inr low ↦
        rw (mark, new, low)
          (record {
            same_ca = refl;
            same_undos = refl;
            same_constraints = refl;
            more = omega arith;
          })
  ]
]

module _ {X : Type 0} (s : Solver) where
  pub mark_clause-Still : (qs : List Lit) (t : Analysis X) → Still t (mark_clause s qs t)
  unfolding mark_clause
  mark_clause-Still [] t = record {
    same_ca = refl;
    same_undos = refl;
    same_constraints = refl;
    more = omega arith;
  }
  mark_clause-Still (q ∷ qs) t =
      let u = mark s (var q) q t in
      Still-trans t u (mark_clause s qs u) (mark-Still s (var q) q t) (mark_clause-Still qs u)

  pub mark_reason-Still : (qs : List Lit) (t : Analysis X) → Still t (mark_reason s qs t)
  unfolding mark_reason
  mark_reason-Still [] t = record {
    same_ca = refl;
    same_undos = refl;
    same_constraints = refl;
    more = omega arith;
  }
  mark_reason-Still (q ∷ qs) t =
      let u = mark s (var q) (neg q) t in
      Still-trans t u (mark_reason s qs u) (mark-Still s (var q) (neg q) t) (mark_reason-Still qs u)
