-- ===== src/Constraint/Graph/Implies.antt =====
-- calcReason for a literal and for each cause of a conflict.
use mathlib.Core.Path.{fun_ext}
use mathlib.Core.Option.{some-injective, none-ne-some}
use glucose.Prelude.{
  ℕ, ◌<◌, ◌≡◌, refl, sym, ap, ◌∙◌, inl, inr, true, Option, none, some, List, ◌==◌, eq_of_==,
  Bool-cases,
}
use glucose.Prelude.Lists.{All, length}
use glucose.Lit.{Lit}
use glucose.Lit.Truth.{Assignment, holds}
use glucose.Constraint.Graph.{
  undecided, Cause, unset, disconnected, at_vertex, ActiveVerticesConnected,
}
use glucose.Constraint.Graph.Reason.{reason_of, assume, release, with_reason, calc_reason}
use glucose.Constraint.Graph.Cuts.{Connects}
use glucose.Constraint.Graph.Sound.{on}
use glucose.Constraint.Graph.Accepts.{IsGraph, IsGraph-moves}
use glucose.Constraint.Graph.Explained.{IsRecorded, reason_of-absurd}

with_reason-eq :
    (c c' : ActiveVerticesConnected) (o : Option (List Lit)) (reason : List Lit)
    → with_reason c o ≡ some (c', reason)
    → (o ≡ some reason) × (c' ≡ c)
with_reason-eq c c' none reason e = absurd (none-ne-some _ e)
with_reason-eq c c' (some r) reason e =
    let pair = some-injective _ _ e in (ap some (ap (λ x. x.1) pair), sym (ap (λ x. x.0) pair))

pub assume-IsGraph :
    (c : ActiveVerticesConnected) (v : ℕ) (l : Lit) → IsGraph c → IsGraph (assume c v l)
unfolding assume
assume-IsGraph c v l h = IsGraph-moves c (assume c v l) refl refl refl h

assume-IsRecorded :
    (c : ActiveVerticesConnected) (v : ℕ) (l : Lit)
    → v < length c.lits
    → IsRecorded c
    → IsRecorded (assume c v l)
unfolding assume
assume-IsRecorded c v l lt h = record {
  decided = λ x. elim (Bool-cases (v == x)) [
    | inl same ↦ rw same (λ _. inl (eq_of_== v x same))
    | inr other ↦ rw other (λ known. inr (h.decided x known))
  ];
  vertices = (lt, h.vertices);
}

assume-Connects :
    (a : Assignment) (c : ActiveVerticesConnected) (v : ℕ) (l : Lit)
    → Connects c.adj (on a c.lits)
    → Connects (assume c v l).adj (on a (assume c v l).lits)
unfolding assume
assume-Connects a c v l h = h

release-assume :
    (c : ActiveVerticesConnected) (v : ℕ) (l : Lit)
    → c.state v ≡ undecided
    → release (assume c v l) v ≡ c
unfolding release assume
release-assume c v l e =
    let state_is : (release (assume c v l) v).state ≡ c.state = fun_ext λ w.
      elim (Bool-cases (v == w)) [
        | inl same ↦ rw same (sym e ∙ ap c.state (eq_of_== v w same))
        | inr other ↦ rw other refl
      ] in
    ap (λ f. record c { state = f }) state_is

-- The vertex at which `propagate` has found a conflict is undecided.
abbrev pub IsOpen : ActiveVerticesConnected → Cause → Type 0
IsOpen c unset = Unit
IsOpen c disconnected = Unit
IsOpen c (at_vertex v l) = (v < length c.lits) × (c.state v ≡ undecided)

keeps_by :
    (c c' : ActiveVerticesConnected) (reason : List Lit) (cause : Cause)
    → IsOpen c cause
    → c.conflict_cause ≡ cause
    → calc_reason c none ≡ some (c', reason)
    → c' ≡ c
unfolding calc_reason
keeps_by c c' reason unset o is e = absurd (none-ne-some _ (rw (is, calc_reason) at e))
keeps_by c c' reason disconnected o is e =
    (with_reason-eq c c' (reason_of c none) reason (rw (is, calc_reason) at e)).1
keeps_by c c' reason (at_vertex v l) (lt, undec) is e =
    let d = assume c v l in
    (with_reason-eq (release d v) c' (reason_of d none) reason (rw (is, calc_reason) at e)).1
    ∙ release-assume c v l undec

-- The constraint is as it was before the call, if a vertex that is the cause of a conflict is
-- undecided.
pub calc_reason-keeps :
    (c c' : ActiveVerticesConnected) (p : Option Lit) (reason : List Lit)
    → IsOpen c c.conflict_cause
    → calc_reason c p ≡ some (c', reason)
    → c' ≡ c
unfolding calc_reason
calc_reason-keeps c c' none reason o e = keeps_by c c' reason c.conflict_cause o refl e
calc_reason-keeps c c' (some q) reason o e = (with_reason-eq c c' (reason_of c (some q)) reason e).1

-- What a reason implies: the literal that it explains, or nothing that can be.
abbrev pub Implied : Assignment → Option Lit → Type 0
Implied a none = ⊥
Implied a (some q) = holds a q ≡ true

implies_by :
    (a : Assignment) (c c' : ActiveVerticesConnected) (reason : List Lit) (cause : Cause)
    → IsGraph c
    → IsRecorded c
    → IsOpen c cause
    → Connects c.adj (on a c.lits)
    → c.conflict_cause ≡ cause
    → calc_reason c none ≡ some (c', reason)
    → All (λ l. holds a l ≡ true) reason
    → ⊥
unfolding calc_reason
implies_by a c c' reason unset graph recorded o connects is e hs =
    absurd (none-ne-some _ (rw (is, calc_reason) at e))
implies_by a c c' reason disconnected graph recorded o connects is e hs =
    let (found, same) = with_reason-eq c c' (reason_of c none) reason (rw (is, calc_reason) at e) in
    reason_of-absurd a c none graph connects recorded tt reason found hs
implies_by a c c' reason (at_vertex v l) graph recorded (lt, undec) connects is e hs =
    let d = assume c v l in
    let (found, same) =
      with_reason-eq (release d v) c' (reason_of d none) reason (rw (is, calc_reason) at e) in
    reason_of-absurd a d none (assume-IsGraph c v l graph) (assume-Connects a c v l connects)
      (assume-IsRecorded c v l lt recorded) tt reason found hs

pub reason-Implied :
    (a : Assignment) (c c' : ActiveVerticesConnected) (p : Option Lit) (reason : List Lit)
    → IsGraph c
    → IsRecorded c
    → IsOpen c c.conflict_cause
    → Connects c.adj (on a c.lits)
    → calc_reason c p ≡ some (c', reason)
    → All (λ l. holds a l ≡ true) reason
    → Implied a p
unfolding calc_reason
reason-Implied a c c' none reason graph recorded o connects e hs =
    implies_by a c c' reason c.conflict_cause graph recorded o connects refl e hs
reason-Implied a c c' (some q) reason graph recorded o connects e hs =
    let (found, same) = with_reason-eq c c' (reason_of c (some q)) reason e in
    elim (Bool-cases (holds a q)) [
      | inl t ↦ t
      | inr f ↦ absurd (reason_of-absurd a c (some q) graph connects recorded f reason found hs)
    ]
