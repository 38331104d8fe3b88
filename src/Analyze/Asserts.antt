-- ===== src/Analyze/Asserts.antt =====
-- `analyze` from the conflict on.
use glucose.Prelude.{
  ◌<◌, ◌≡◌, refl, sym, subst, inl, inr, true, false, not, ◌&&◌, Option, none, some, List, [], ◌∷◌,
  map, arith, ltb, leb, ==_refl, Bool-cases,
}
use glucose.Prelude.Lists.{All, All-In, In}
use glucose.Lit.{Lit, Var, neg, var}
use glucose.Lit.Laws.{var-neg, neg-neg}
use glucose.Lit.Truth.{Assignment, holds, satisfies}
use glucose.Lbool.{l_false}
use glucose.Solver.{
  Solver, CRef, ConstraintRef, Reason, no_reason, by_clause, by_constraint, value, decision_level,
}
use glucose.Analyze.{Analysis, mark, mark_clause, mark_reason, resolve, walk, analyze}
use glucose.Analyze.Pending.{waits, pending, pending-In}
use glucose.Analyze.Marks.{
  IsLower, Marked, IsRoot, AreFalse, mark_clause-Marked, mark_reason-Marked,
}
use glucose.Analyze.Still.{Still, mark_clause-Still, mark_reason-Still}
use glucose.Analyze.Learnt.{Walks, walk-Resolved}
use glucose.Analyze.Trail.{
  ReasonLaws, IsTrail, IsTrail-AreApart, Resolved, all_hold, negations_false,
}

-- The state at the start.
abbrev pub fresh : {X : Type 0} → Solver → (CRef → List Lit) → X → Analysis X
fresh s ca x = record {
  ca = ca;
  undo_lists = s.undo_lists;
  constraints = x;
  seen = λ v. false;
  path_c = 0;
  out = [];
}

mark-seen :
    {X : Type 0} (s : Solver) (v : Var) (q : Lit) (t : Analysis X)
    → 0 < s.level v
    → (mark s v q t).seen v ≡ true
unfolding mark
mark-seen s v q t h = elim (Bool-cases (t.seen v)) [
  | inl e ↦ ground arith
  | inr e ↦
      let go : not (t.seen v) && ltb 0 (s.level v) ≡ true = ground arith in
      elim (Bool-cases (leb (decision_level s) (s.level v))) [
        | inl now ↦ rw (mark, go, now, ==_refl v) refl
        | inr low ↦ rw (mark, go, low, ==_refl v) refl
      ]
]

mark-stays_seen :
    {X : Type 0} (s : Solver) (v w : Var) (q : Lit) (t : Analysis X)
    → t.seen w ≡ true
    → (mark s v q t).seen w ≡ true
unfolding mark
mark-stays_seen s v w q t h = elim (Bool-cases (not (t.seen v) && ltb 0 (s.level v))) [
  | inr old ↦ rw (mark, old) h
  | inl new ↦ elim (Bool-cases (leb (decision_level s) (s.level v))) [
    | inl now ↦ rw (mark, new, now) (ground arith)
    | inr low ↦ rw (mark, new, low) (ground arith)
  ]
]

module _ {X : Type 0} (s : Solver) (w : Var) where
  mark_clause-stays_seen :
      (qs : List Lit) (t : Analysis X) → t.seen w ≡ true → (mark_clause s qs t).seen w ≡ true
  unfolding mark_clause
  mark_clause-stays_seen [] t h = h
  mark_clause-stays_seen (q ∷ qs) t h =
      mark_clause-stays_seen qs (mark s (var q) q t) (mark-stays_seen s (var q) w q t h)

  mark_reason-stays_seen :
      (qs : List Lit) (t : Analysis X) → t.seen w ≡ true → (mark_reason s qs t).seen w ≡ true
  unfolding mark_reason
  mark_reason-stays_seen [] t h = h
  mark_reason-stays_seen (q ∷ qs) t h =
      mark_reason-stays_seen qs (mark s (var q) (neg q) t) (mark-stays_seen s (var q) w (neg q) t h)

module _ {X : Type 0} (s : Solver) (p : Lit) (up : 0 < s.level (var p)) where
  mark_clause-seen :
      (qs : List Lit) (t : Analysis X) → In p qs → (mark_clause s qs t).seen (var p) ≡ true
  unfolding mark_clause
  mark_clause-seen [] t i = absurd i
  mark_clause-seen (q ∷ qs) t (inl e) = mark_clause-stays_seen s (var p) qs (mark s (var q) q t) (
      subst (λ p. (mark s (var q) q t).seen (var p) ≡ true) e
        (mark-seen s (var q) q t (subst (λ p. 0 < s.level (var p)) (sym e) up)))
  mark_clause-seen (q ∷ qs) t (inr i) = mark_clause-seen qs (mark s (var q) q t) i

  mark_reason-seen :
      (qs : List Lit) (t : Analysis X) → In p qs → (mark_reason s qs t).seen (var p) ≡ true
  unfolding mark_reason
  mark_reason-seen [] t i = absurd i
  mark_reason-seen (q ∷ qs) t (inl e) =
      mark_reason-stays_seen s (var p) qs (mark s (var q) (neg q) t) (
        subst (λ p. (mark s (var q) (neg q) t).seen (var p) ≡ true) e
          (mark-seen s (var q) (neg q) t (subst (λ p. 0 < s.level (var p)) (sym e) up)))
  mark_reason-seen (q ∷ qs) t (inr i) = mark_reason-seen qs (mark s (var q) (neg q) t) i

-- A literal of the current level.
abbrev HasCurrent : Solver → List Lit → Type 0
HasCurrent s qs = (p : Lit) × In p qs × (s.level (var p) ≡ decision_level s)

-- The conflict: a clause whose literals are all false, or a constraint whose reason is of true
-- literals that are not all true in the assignment. One of the literals is of the current level.
abbrev pub IsConflict :
    {X : Type 0}
    → (ConstraintRef → Solver → X → Option Lit → Option Lit → List Lit)
    → Assignment
    → Solver
    → (CRef → List Lit)
    → X
    → Reason
    → Type 0
IsConflict calc_reason a s ca x no_reason = ⊥
IsConflict calc_reason a s ca x (by_clause cr) =
    AreFalse s s.trail (ca cr) × (satisfies a (ca cr) ≡ true) × HasCurrent s (ca cr)
IsConflict calc_reason a s ca x (by_constraint c) =
    let r = calc_reason c s x none s.enqueue_failure in
    All (λ q. In q s.trail) r × (¬ All (λ q. holds a q ≡ true) r) × HasCurrent s r

-- The clause that is learnt: it is true in the assignment, its first literal is the only one of the
-- current level, and all its literals are false on the trail.
abbrev pub Asserts : {X : Type 0} → Assignment → Solver → Option (List Lit × Analysis X) → Type 0
Asserts a s none = ⊥
Asserts a s (some ([], t)) = ⊥
Asserts a s (some (q ∷ qs, t)) =
    (satisfies a (q ∷ qs) ≡ true)
    × (value s q ≡ l_false)
    × (s.level (var q) ≡ decision_level s)
    × All (IsLower s) qs

Resolved-Asserts :
    {X : Type 0} (a : Assignment) (s : Solver) (r : Option (Lit × Analysis X))
    → Resolved a s r
    → Asserts a s (elim r [ none ↦ none | some (p, v) ↦ some (neg p ∷ v.out, v) ])
Resolved-Asserts a s none h = absurd h
Resolved-Asserts a s (some (p, v)) h = h

module _ {X : Type 0} (a : Assignment) (s : Solver) (ca : CRef → List Lit) (x : X)
    (root : IsRoot a s)
    (calc_reason : ConstraintRef → Solver → X → Option Lit → Option Lit → List Lit)
    (undo : ConstraintRef → Lit → X → X) (laws : ReasonLaws a s calc_reason undo) where
  fresh-Marked :
      (todo : List Lit) → satisfies a todo ≡ true → Marked a s s.trail todo (fresh s ca x)
  fresh-Marked todo h = record {
    counts = sym (nothing s.trail);
    true_one = inr (inr h);
    lower = tt;
    in_out = λ q e. cc;
  }
    where
      nothing : (ls : List Lit) → pending s (λ v. false) ls ≡ 0
      nothing [] = refl
      nothing (l ∷ ls) = nothing ls

  -- After the conflict has been marked.
  started :
      (v : Analysis X) (p : Lit)
      → Marked a s s.trail [] v
      → Still (fresh s ca x) v
      → v.seen (var p) ≡ true
      → In (neg p) s.trail
      → s.level (var p) ≡ decision_level s
      → laws.Holds s.undo_lists x s.trail
      → Walks a s ca root calc_reason undo laws s.trail v
  started v p m k seen i now held = record {
    marked = m;
    more =
        let here : waits s v.seen (neg p) ≡ true = rw (var-neg p) (ground (arith, now)) in
        let some_left = pending-In s v.seen (neg p) s.trail i here in
        omega (arith, m.counts, some_left);
    same_ca = λ cr. rw k.same_ca refl;
    held = rw (k.same_undos, k.same_constraints) held;
  }

  from_start :
      (v : Analysis X)
      → IsTrail a s ca s.trail
      → Walks a s ca root calc_reason undo laws s.trail v
      → Asserts a s (elim (walk s calc_reason undo s.trail v) [
        | none ↦ none
        | some (p, u) ↦ some (neg p ∷ u.out, u)
      ])
  from_start v is w =
      Resolved-Asserts a s (walk s calc_reason undo s.trail v)
        (walk-Resolved a s ca root calc_reason undo laws s.trail v is w)

  -- Let the trail be one whose literals have clauses or constraints as reasons, which are right in
  -- the assignment, as are the values of level 0; let the current level not be 0, and let a clause
  -- or a constraint be in conflict, one of its literals being of the current level. Then `analyze`
  -- does not run off the trail and meets no literal without a reason, the clause that it learns is
  -- true in the assignment and false on the trail, its first literal is of the current level, and
  -- the others are of lower levels, but not of level 0.
  pub analyze-Asserts :
      (conflict : Reason)
      → 0 < decision_level s
      → IsTrail a s ca s.trail
      → laws.Holds s.undo_lists x s.trail
      → IsConflict calc_reason a s ca x conflict
      → Asserts a s (analyze s calc_reason undo conflict (fresh s ca x))
  unfolding analyze resolve
  analyze-Asserts no_reason up is held c = absurd c
  analyze-Asserts (by_clause cr) up is held c =
      let (p, i, now) = c.2 in
      let v = mark_clause s (ca cr) (fresh s ca x) in
      let apart = IsTrail-AreApart a s ca s.trail is in
      from_start v is (
        started v p
          (mark_clause-Marked a s root s.trail apart (ca cr) (fresh s ca x) c.0
            (fresh-Marked (ca cr) c.1))
          (mark_clause-Still s (ca cr) (fresh s ca x))
          (mark_clause-seen s p (omega (arith, up, now)) (ca cr) (fresh s ca x) i)
          (All-In (λ q. (value s q ≡ l_false) × In (neg q) s.trail) (ca cr) c.0 i).1 now held)
  analyze-Asserts (by_constraint k) up is held c =
      let r = calc_reason k s x none s.enqueue_failure in
      let (p, i, now) = c.2 in
      let v = mark_reason s r (fresh s ca x) in
      let apart = IsTrail-AreApart a s ca s.trail is in
      let wrong : satisfies a (map neg r) ≡ true = elim (Bool-cases (satisfies a (map neg r))) [
        | inl h ↦ h
        | inr h ↦ absurd (c.1 (all_hold a r h))
      ] in
      from_start v is (
        started v (neg p)
          (mark_reason-Marked a s root s.trail apart r (fresh s ca x)
            (negations_false a s ca s.trail r is c.0) (fresh-Marked (map neg r) wrong))
          (mark_reason-Still s r (fresh s ca x))
          (rw (var-neg p) (mark_reason-seen s p (omega (arith, up, now)) r (fresh s ca x) i))
          (rw (neg-neg p) (All-In (λ q. In q s.trail) r c.0 i)) (rw (var-neg p) now) held)
