-- ===== src/Analyze/Final/Marks.antt =====
-- What `analyzeFinal` marks of a clause.
use glucose.Prelude.{
  ◌<◌, ◌≡◌, refl, sym, ap, subst, ◌∙◌, inl, inr, Bool, true, List, [], ◌∷◌, arith, ltb, ◌==◌,
  if◌then◌else◌, ==_refl, Bool-cases, update,
}
use glucose.Prelude.Lists.{In}
use glucose.Lit.{Lit, Var, var}
use glucose.Lbool.{l_false, eq}
use glucose.Solver.{Solver, value}
use glucose.Analyze.{true_first, others}
use glucose.Analyze.Final.{looked_at, mark_above}

pub mark_above-stays :
    (s : Solver) (qs : List Lit) (seen : Var → Bool) (v : Var)
    → seen v ≡ true
    → mark_above s qs seen v ≡ true
unfolding mark_above
mark_above-stays s [] seen v h = h
mark_above-stays s (q ∷ qs) seen v h =
    mark_above-stays s qs (if ltb 0 (s.level (var q)) then update seen (var q) true else seen) v
      (ground arith)

pub mark_above-In :
    (s : Solver) (qs : List Lit) (seen : Var → Bool) (q : Lit)
    → In q qs
    → 0 < s.level (var q)
    → mark_above s qs seen (var q) ≡ true
unfolding mark_above
mark_above-In s [] seen q i up = absurd i
mark_above-In s (r ∷ qs) seen q (inr i) up =
    mark_above-In s qs (if ltb 0 (s.level (var r)) then update seen (var r) true else seen) q i up
mark_above-In s (r ∷ qs) seen q (inl e) up =
    let up' : ltb 0 (s.level (var r)) ≡ true = rw e (ground arith) in
    let here : (var r == var q) ≡ true = rw e (==_refl (var q)) in
    mark_above-stays s qs (if ltb 0 (s.level (var r)) then update seen (var r) true else seen)
      (var q) (rw (up', here) refl)

tail_of : (c : List Lit) (l : Lit) (d : List Lit) → c ≡ l ∷ d → others c ≡ d
tail_of c l d e = ap others e

-- The false literals of a reason are looked at.
pub looked_at-In :
    (s : Solver) (c : List Lit) (l : Lit) (d : List Lit) (q : Lit)
    → true_first s c ≡ l ∷ d
    → In q d
    → In q (looked_at c)
unfolding looked_at true_first
looked_at-In s [] l d q e i = cc
looked_at-In s (x ∷ []) l d q e i = absurd (subst (In q) (sym (tail_of (x ∷ []) l d e)) i)
looked_at-In s (x ∷ y ∷ []) l d q e i = elim (Bool-cases (eq (value s x) l_false)) [
  | inl swap ↦
      let e' : y ∷ x ∷ [] ≡ l ∷ d = sym (rw swap refl) ∙ e in
      elim (subst (In q) (sym (tail_of (y ∷ x ∷ []) l d e')) i) [ inl f ↦ inl f | inr m ↦ absurd m ]
  | inr stay ↦
      let e' : x ∷ y ∷ [] ≡ l ∷ d = sym (rw stay refl) ∙ e in
      inr (subst (In q) (sym (tail_of (x ∷ y ∷ []) l d e')) i)
]
looked_at-In s (x ∷ y ∷ z ∷ zs) l d q e i = subst (In q) (sym (tail_of (x ∷ y ∷ z ∷ zs) l d e)) i
