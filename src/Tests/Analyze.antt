-- ===== src/Tests/Analyze.antt =====
-- `analyze`, on a conflict that goes back to a clause, a constraint and two decisions.
use glucose.Prelude.{
  ℕ, ◌≤◌, ◌+◌, ◌≡◌, refl, inl, inr, true, false, Option, none, some, List, [], ◌∷◌, arith, ltb,
  ◌==◌, if◌then◌else◌, update,
}
use glucose.Prelude.Lists.{All, In, length}
use glucose.Lit.{Lit, Var, neg, var, sign}
use glucose.Lit.Truth.{Assignment, holds}
use glucose.Lbool.{l_true, l_undef}
use glucose.Solver.{Solver, CRef, ConstraintRef, no_reason, by_clause, by_constraint}
use glucose.Analyze.{Analysis, analyze, true_first, resolve, walk, mark, mark_clause, mark_reason}
use glucose.Analyze.Marks.{IsRoot}
use glucose.Analyze.Trail.{ReasonLaws, IsTrail}
use glucose.Analyze.Asserts.{fresh, IsConflict, Asserts, analyze-Asserts}
use glucose.Analyze.Final.{looked_at, mark_above, final_loop, analyze_final}
use glucose.Analyze.Final.Sound.{IsBased, Final, analyze_final-Final}
use glucose.Analyze.Level.{max_place, backtrack_level, Rearranged, backtrack_level-Rearranged}
use glucose.Analyze.Lbd.{lbd_loop, compute_lbd, once, levels, compute_lbd-levels}
use glucose.Solver.Cancel.{undo_each}
use glucose.Tests.Constraints.{one_set}

-- Variables 0 and 1 are decisions, 2 follows from clause 0, and 3 from constraint 7.
abbrev deep : Solver
deep = record one_set {
  assigns = λ v. if ltb v 4 then l_true else l_undef;
  reason = λ v. if v == 2 then by_clause 0 else if v == 3 then by_constraint 7 else no_reason;
  level = λ v. if v == 0 then 1 else 2;
  trail = 6 ∷ 4 ∷ 2 ∷ 0 ∷ [];
  trail_lim = 1 ∷ 0 ∷ [];
}

abbrev clauses : CRef → List Lit
clauses cr = if cr == 0 then 4 ∷ 3 ∷ 1 ∷ [] else 5 ∷ 7 ∷ []

-- Variable 1 makes variable 3 true; the constraint counts the undo calls.
abbrev reasons : ConstraintRef → Solver → ℕ → Option Lit → Option Lit → List Lit
reasons c s x p extra = 2 ∷ []

abbrev count_undo : ConstraintRef → Lit → ℕ → ℕ
count_undo c p x = x + 1

abbrev first_only : Assignment
first_only v = v == 0

abbrev learnt : Option (List Lit × Analysis ℕ) → List Lit
learnt none = []
learnt (some (c, t)) = c

learns : learnt (analyze deep reasons count_undo (by_clause 1) (fresh deep clauses 0)) ≡ 3 ∷ 1 ∷ []
unfolding analyze resolve walk mark mark_clause mark_reason true_first undo_each var neg sign
learns = refl

deep-IsRoot : IsRoot first_only deep
deep-IsRoot q h e = absurd (ground (arith))

abbrev Explained : (Var → List ConstraintRef) → ℕ → List Lit → Type 0
Explained u x [] = Unit
Explained u x (l ∷ ls) =
    ((c : ConstraintRef)
      → deep.reason (var l) ≡ by_constraint c
      → All (λ q. In q ls) (2 ∷ []) × (holds first_only 2 ≡ true → holds first_only l ≡ true))
    × Explained u x ls

Explained-same :
    (u v : Var → List ConstraintRef) (x y : ℕ) (ls : List Lit) → Explained u x ls → Explained v y ls
Explained-same u v x y [] h = tt
Explained-same u v x y (l ∷ ls) h = (h.0, Explained-same u v x y ls h.1)

deep_laws : ReasonLaws first_only deep reasons count_undo
deep_laws = record {
  Holds = λ u x ls. Explained u x ls;
  undo_holds = λ u x l ls h.
      Explained-same u (update u (var l) []) x (undo_each count_undo l (u (var l)) x) ls h.1;
  before = λ u x l ls c e h. (h.0 c e).0;
  explains = λ u x l ls c e h k. (h.0 c e).1 k.0;
}

deep-IsTrail : IsTrail first_only deep clauses deep.trail
unfolding var sign neg holds true_first
deep-IsTrail = (
  tt,
  refl,
  omega arith,
  (omega arith, (omega arith, (omega arith, tt))),
  (refl, (refl, (refl, tt))),
  (
    (3 ∷ 1 ∷ [], refl, ((refl, inl refl), ((refl, inr (inl refl)), tt)), refl),
    refl,
    omega arith,
    (omega arith, (omega arith, tt)),
    (refl, (refl, tt)),
    (
      (omega arith, tt),
      refl,
      omega arith,
      (omega arith, tt),
      (refl, tt),
      (tt, refl, omega arith, tt, tt, tt),
    ),
  ),
)

deep-Explained : deep_laws.Holds deep.undo_lists 0 deep.trail
unfolding deep_laws holds var sign
deep-Explained = (λ c e. ((inr (inl refl), tt), λ h. cc), (λ c e. cc, (λ c e. cc, (λ c e. cc, tt))))

deep-IsConflict : IsConflict reasons first_only deep clauses 0 (by_clause 1)
unfolding holds var sign neg
deep-IsConflict = (((refl, inr (inl refl)), ((refl, inl refl), tt)), refl, (5, inl refl, refl))

analyze-Asserts_example :
    Asserts first_only deep (analyze deep reasons count_undo (by_clause 1) (fresh deep clauses 0))
analyze-Asserts_example =
    analyze-Asserts first_only deep clauses 0 deep-IsRoot reasons count_undo deep_laws (by_clause 1)
      (omega arith) deep-IsTrail deep-Explained deep-IsConflict

-- The literal 4 goes back to the two decisions, through clause 0.
assumptions : (analyze_final deep clauses (λ v. false) 4).0 ≡ 4 ∷ 3 ∷ 1 ∷ []
unfolding analyze_final final_loop mark_above looked_at var neg
assumptions = refl

-- The literal 6, which a constraint has set, is taken for a decision, and its reason is not asked.
constraint_dropped : (analyze_final deep clauses (λ v. false) 6).0 ≡ 6 ∷ 7 ∷ []
unfolding analyze_final final_loop mark_above looked_at var neg
constraint_dropped = refl

deep-IsBased : IsBased deep 0 deep.trail
unfolding var
deep-IsBased = (
  λ h. absurd (omega arith),
  λ h. omega arith,
  (
    λ h. absurd (omega arith),
    λ h. omega arith,
    (
      λ h. absurd (omega arith),
      λ h. omega arith,
      (λ h. absurd (omega arith), λ h. omega arith, tt),
    ),
  ),
)

analyze_final-Final_example : Final first_only deep 4 (analyze_final deep clauses (λ v. false) 4).0
analyze_final-Final_example =
    analyze_final-Final first_only deep clauses (λ v. false) 4 deep-IsRoot deep-IsTrail deep-IsBased
      (inr (inl refl))

-- The last literal is of level 2, and is put second.
goes_back : backtrack_level deep (5 ∷ 1 ∷ 3 ∷ []) ≡ (5 ∷ 3 ∷ 1 ∷ [], 2)
unfolding backtrack_level max_place var
goes_back = refl

backtrack_level-Rearranged_example :
    Rearranged deep (5 ∷ 1 ∷ 3 ∷ []) (backtrack_level deep (5 ∷ 1 ∷ 3 ∷ []))
backtrack_level-Rearranged_example = backtrack_level-Rearranged deep (5 ∷ 1 ∷ 3 ∷ [])

two_levels : (compute_lbd deep (5 ∷ 3 ∷ 1 ∷ []) (λ l. 0) 6).0 ≡ 2
unfolding compute_lbd lbd_loop var
two_levels = refl

-- The flag has gone round, and the marks of an earlier call, of the flag 7, hide both levels.
no_levels : (compute_lbd deep (5 ∷ 3 ∷ 1 ∷ []) (λ l. 7) 6).0 ≡ 0
unfolding compute_lbd lbd_loop var
no_levels = refl

goes_round : (compute_lbd deep [] (λ l. 0) 4294967295).2 ≡ 0
unfolding compute_lbd lbd_loop
goes_round = refl

compute_lbd-levels_example :
    let (n, p, f) = compute_lbd deep (5 ∷ 3 ∷ 1 ∷ []) (λ l. 0) 6 in
    (n ≡ length (once (levels deep (5 ∷ 3 ∷ 1 ∷ [])))) × (n ≤ 3) × ((l : ℕ) → p l ≤ f) × (f ≡ 7)
compute_lbd-levels_example =
    compute_lbd-levels deep (5 ∷ 3 ∷ 1 ∷ []) (λ l. 0) 6 (omega arith) (λ l. omega arith)
