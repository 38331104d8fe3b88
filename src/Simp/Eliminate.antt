-- ===== src/Simp/Eliminate.antt =====
-- `eliminateVar` of simp/SimpSolver.cc, on the set of clauses: the choice of the clauses of `v`, the
-- limits, the stack of stored clauses, the resolvents, and the removal of the old clauses. The call
-- of `addClause_` is the addition of the clause; the occurrence lists, the watchers and the backward
-- subsumption that follows, which keep the meaning of the clause set, are left out here.
pub mod Repair
pub mod Correct
pub mod Sides
pub mod Extended
use glucose.Prelude.{
  ℕ, zero, suc, ◌+◌, ◌-◌, ◌*◌, ◌/◌, ◌%◌, ◌^◌, ◌≤◌, ◌<◌, ◌≡◌, refl, sym, ap, ◌∙◌, ◌≢◌, ◌↔◌, ◌⊎◌, inl,
  inr, Bool, true, false, not, ◌&&◌, ◌||◌, Option, none, some, List, [], ◌∷◌, ◌++◌, map, arith, ltb,
  leb, ◌==◌, if◌then◌else◌, ==_iff, ==_refl, ==_ne, eq_of_==, Bool-cases, Option-cases, update, xor,
}
use glucose.Prelude.Lists.{length}
use glucose.Lit.{Lit, Var, mk_lit, neg, var}
use glucose.Simp.Merge.{merge, merge_size}
use glucose.Simp.Stack.{Words, push_unit, push_clause}

abbrev pub Clause : Type 0
Clause = List Lit

pub record Simp : Type 0 where
  pub clauses : List Clause
  pub elimclauses : Words
  pub eliminated : Var → Bool
  pub grow : ℕ
  -- -1 is `none`.
  pub clause_lim : Option ℕ

-- `find` of mtl/Alg.h on a clause.
unfoldable pub find : Clause → Lit → Bool
find [] p = false
find (q ∷ c) p = q == p || find c p

unfoldable pub mentions : Var → Clause → Bool
mentions v [] = false
mentions v (p ∷ c) = var p == v || mentions v c

unfoldable pub keep : (Clause → Bool) → List Clause → List Clause
keep f [] = []
keep f (c ∷ cs) = if f c then c ∷ keep f cs else keep f cs

abbrev occurrences : Var → List Clause → List Clause
occurrences v = keep (mentions v)

abbrev positive : Var → List Clause → List Clause
positive v = keep (λ c. find c (mk_lit v false))

abbrev negative : Var → List Clause → List Clause
negative v = keep (λ c. not (find c (mk_lit v false)))

abbrev exceeds : Option ℕ → ℕ → Bool
exceeds none size = false
exceeds (some lim) size = ltb lim size

-- The loop over `neg` that counts the resolvents; `none` is the early `return true`.
unfoldable pub count_with : ℕ → Option ℕ → Var → Clause → List Clause → ℕ → Option ℕ
count_with limit lim v p [] cnt = some cnt
count_with limit lim v p (n ∷ ns) cnt = elim (merge_size p n v) [
  | none ↦ count_with limit lim v p ns cnt
  | some size ↦
      (let rest = count_with limit lim v p ns (cnt + 1) in
        if ltb limit (cnt + 1) || exceeds lim size then none else rest)
]

unfoldable pub count_all : ℕ → Option ℕ → Var → List Clause → List Clause → ℕ → Option ℕ
unfolding count_with merge_size
count_all limit lim v [] ns cnt = some cnt
count_all limit lim v (p ∷ ps) ns cnt = elim (count_with limit lim v p ns cnt) [
  | none ↦ none
  | some cnt' ↦ count_all limit lim v ps ns cnt'
]

unfoldable pub push_clauses : Words → Var → List Clause → Words
push_clauses e v [] = e
push_clauses e v (c ∷ cs) = push_clauses (push_clause e v c) v cs

-- The smaller side is stored, with the literal that satisfies the other one as the default.
unfoldable pub store : Words → Var → List Clause → List Clause → Words
unfolding push_clauses push_clause push_unit
store e v ps ns =
    if ltb (length ns) (length ps)
    then push_unit (push_clauses e v ns) (mk_lit v false)
    else push_unit (push_clauses e v ps) (neg (mk_lit v false))

unfoldable pub resolvents_with : Var → Clause → List Clause → List Clause
resolvents_with v p [] = []
resolvents_with v p (n ∷ ns) = elim (merge p n v) [
  | none ↦ resolvents_with v p ns
  | some out ↦ out ∷ resolvents_with v p ns
]

unfoldable pub resolvents : Var → List Clause → List Clause → List Clause
unfolding resolvents_with merge
resolvents v [] ns = []
resolvents v (p ∷ ps) ns = resolvents_with v p ns ++ resolvents v ps ns

-- The state once the limits have been met.
unfoldable pub eliminated_state : Simp → Var → List Clause → Simp
unfolding keep mentions find resolvents store
eliminated_state s v cls = record s {
  clauses =
      keep (λ c. not (mentions v c)) s.clauses ++ resolvents v (positive v cls) (negative v cls);
  elimclauses = store s.elimclauses v (positive v cls) (negative v cls);
  eliminated = update s.eliminated v true;
}

-- eliminateVar
unfoldable pub eliminate_var : Simp → Var → Simp
unfolding count_all eliminated_state
eliminate_var s v =
    let cls = occurrences v s.clauses in
    elim (count_all (length cls + s.grow) s.clause_lim v (positive v cls) (negative v cls) 0) [
      | none ↦ s
      | some cnt ↦ eliminated_state s v cls
    ]

unfoldable pub eliminate_vars : Simp → List Var → Simp
unfolding eliminate_var
eliminate_vars s [] = s
eliminate_vars s (v ∷ vs) = eliminate_vars (eliminate_var s v) vs
