-- ===== src/Simp/Eliminate/Extended.antt =====
-- `eliminateVar` and then `extendModel`: the model found for the clauses that are left becomes one
-- of the clauses that were there.
use mathlib.Core.List.{append_assoc, append-nil}
use glucose.Prelude.{
  ◌+◌, ◌≡◌, refl, sym, ap, ◌∙◌, inl, inr, Bool, true, false, not, List, [], ◌∷◌, ◌++◌, arith,
  Bool-cases, Option-cases,
}
use glucose.Prelude.Lists.{length, In, All, In-All, All-In, All-split, All-append}
use glucose.Lit.{Var, mk_lit, neg}
use glucose.Lit.Truth.{Assignment, satisfies}
use glucose.Simp.Merge.{merge}
use glucose.Simp.Merge.Size.{IsProper}
use glucose.Simp.Merge.Proper.{merge-IsProper}
use glucose.Simp.Stack.{extend_model}
use glucose.Simp.Stack.Extend.{Block, words, repair, repair_all, full, extend_model-repairs}
use glucose.Simp.Eliminate.Correct.{
  Models, Resolved, find-In, mentions-In, mentions-Avoids, keep-All, resolvents-Resolved,
}
use glucose.Simp.Eliminate.{
  Clause, Simp, find, mentions, keep, positive, negative, occurrences, store, resolvents_with,
  resolvents, eliminated_state, eliminate_var, eliminate_vars, count_all,
}
use glucose.Simp.Eliminate.Sides.{Repairs, store-Repairs}

keep-In :
    (f : Clause → Bool) (cs : List Clause) (c : Clause) → In c cs → f c ≡ true → In c (keep f cs)
unfolding keep
keep-In f [] c m h = absurd m
keep-In f (d ∷ cs) c (inl e) h = rw (ap f e ∙ h) (inl e)
keep-In f (d ∷ cs) c (inr m) h = elim (Bool-cases (f d)) [
  | inl t ↦ rw t (inr (keep-In f cs c m h))
  | inr n ↦ rw n (keep-In f cs c m h)
]

-- The clauses of `v`, by the sign of `v`.
sides_of :
    (v : Var) (cs : List Clause)
    → All IsProper cs
    → let cls = occurrences v cs in
      All (λ c. IsProper c × In (mk_lit v false) c) (positive v cls)
      × All (λ c. IsProper c × In (neg (mk_lit v false)) c) (negative v cls)
sides_of v cs h =
    let cls = occurrences v cs in
    let proper =
      keep-All {P = IsProper} {Q = λ c. IsProper c × (mentions v c ≡ true)} (mentions v) cs
        (λ c m p. (p, m)) h in
    (
      keep-All (λ c. find c (mk_lit v false)) cls (λ c f p. (p.0, find-In c _ f)) proper,
      keep-All (λ c. not (find c (mk_lit v false))) cls
          (λ c f p. (p.0, mentions-In v c p.1 (ground arith))) proper,
    )

resolvents_with-IsProper :
    (v : Var) (p : Clause) (ns : List Clause)
    → IsProper p
    → All IsProper ns
    → All IsProper (resolvents_with v p ns)
unfolding resolvents_with
resolvents_with-IsProper v p [] h k = tt
resolvents_with-IsProper v p (n ∷ ns) h k = elim (Option-cases (merge p n v)) [
  | inl clash ↦ rw (clash, resolvents_with) (resolvents_with-IsProper v p ns h k.1)
  | inr (out, e) ↦
      rw (e, resolvents_with)
        ((merge-IsProper p n v out h k.0 e).0, resolvents_with-IsProper v p ns h k.1)
]

resolvents-IsProper :
    (v : Var) (ps ns : List Clause)
    → All IsProper ps
    → All IsProper ns
    → All IsProper (resolvents v ps ns)
unfolding resolvents
resolvents-IsProper v [] ns h k = tt
resolvents-IsProper v (p ∷ ps) ns h k =
    All-append IsProper (resolvents_with v p ns) _ (resolvents_with-IsProper v p ns h.0 k)
      (resolvents-IsProper v ps ns h.1 k)

firsts : (Q : Clause → Type 0) (cs : List Clause) → All (λ c. IsProper c × Q c) cs → All IsProper cs
firsts Q [] h = tt
firsts Q (c ∷ cs) h = (h.0.0, firsts Q cs h.1)

-- What one call does: the clauses stay proper, and the blocks that it pushes turn a model of the
-- clauses after it into one of the clauses before it.
record Extends (s s' : Simp) (bs : List Block) : Type 0 where
  new : List Block
  pushed : s'.elimclauses ≡ words (new ++ bs)
  proper : All IsProper s'.clauses
  models : (a : Assignment) → Models a s'.clauses → Models (repair_all a new) s.clauses

unchanged_Extends :
    (s : Simp) (bs : List Block)
    → s.elimclauses ≡ words bs
    → All IsProper s.clauses
    → Extends s s bs
unchanged_Extends s bs e h = record { new = []; pushed = e; proper = h; models = λ a m. m }

-- The repaired model on one clause: a clause of `v` is on one of the sides, and another is kept.
repaired_clause :
    (a : Assignment) (v : Var) (new : List Block) (cs : List Clause) (c : Clause)
    → let cls = occurrences v cs in
      Repairs v new (positive v cls) (negative v cls)
      → Models a (keep (λ c. not (mentions v c)) cs)
      → Resolved a v (positive v cls) (negative v cls)
      → In c cs
      → satisfies (repair_all a new) c ≡ true
repaired_clause a v new cs c r kept p m =
    let cls = occurrences v cs in
    let (ps, ns) = r.sides a p in
    elim (Bool-cases (mentions v c)) [
      | inl y ↦
          let occurs = keep-In (mentions v) cs c m y in
          elim (Bool-cases (find c (mk_lit v false))) [
            | inl f ↦
                All-In (λ c. satisfies (repair_all a new) c ≡ true) (positive v cls) ps
                  (keep-In _ cls c occurs f)
            | inr n ↦
                All-In (λ c. satisfies (repair_all a new) c ≡ true) (negative v cls) ns
                  (keep-In (λ c. not (find c (mk_lit v false))) cls c occurs (ap not n))
          ]
      | inr n ↦
          r.elsewhere a c (mentions-Avoids v c n)
          ∙ All-In (λ c. satisfies a c ≡ true) (keep (λ c. not (mentions v c)) cs) kept
              (keep-In (λ c. not (mentions v c)) cs c m (ap not n))
    ]

eliminated_state-Extends :
    (s : Simp) (v : Var) (bs : List Block)
    → s.elimclauses ≡ words bs
    → All IsProper s.clauses
    → Extends s (eliminated_state s v (occurrences v s.clauses)) bs
unfolding eliminated_state
eliminated_state-Extends s v bs e h =
    let cls = occurrences v s.clauses in
    let (hp, hn) = sides_of v s.clauses h in
    let (new, pushed, r) = store-Repairs v bs (positive v cls) (negative v cls) hp hn in
    record {
      new = new;
      pushed = ap (λ e. store e v (positive v cls) (negative v cls)) e ∙ pushed;
      proper =
          All-append IsProper (keep (λ c. not (mentions v c)) s.clauses) _
            (keep-All _ s.clauses (λ c _ p. p) h)
            (resolvents-IsProper v _ _ (firsts (In (mk_lit v false)) _ hp)
              (firsts (In (neg (mk_lit v false))) _ hn));
      models = λ a m.
          let (kept, rest) =
            All-split (λ c. satisfies a c ≡ true) (keep (λ c. not (mentions v c)) s.clauses) _ m in
          In-All s.clauses
            λ c k. repaired_clause a v new s.clauses c r kept (resolvents-Resolved a v _ _ rest) k;
    }

eliminate_var-Extends :
    (s : Simp) (v : Var) (bs : List Block)
    → s.elimclauses ≡ words bs
    → All IsProper s.clauses
    → Extends s (eliminate_var s v) bs
unfolding eliminate_var
eliminate_var-Extends s v bs e h =
    let cls = occurrences v s.clauses in
    elim (Option-cases
      (count_all (length cls + s.grow) s.clause_lim v (positive v cls) (negative v cls) 0)) [
        | inl over ↦ rw (over, eliminate_var) (unchanged_Extends s bs e h)
        | inr (cnt, under) ↦ rw (under, eliminate_var) (eliminated_state-Extends s v bs e h)
      ]

repair_all-append_all :
    (a : Assignment) (bs cs : List Block)
    → repair_all a (bs ++ cs) ≡ repair_all (repair_all a bs) cs
repair_all-append_all a [] cs = refl
repair_all-append_all a (b ∷ bs) cs = repair_all-append_all (repair a b) bs cs

eliminate_vars-Extends :
    (s : Simp) (vs : List Var) (bs : List Block)
    → s.elimclauses ≡ words bs
    → All IsProper s.clauses
    → Extends s (eliminate_vars s vs) bs
unfolding eliminate_vars
eliminate_vars-Extends s [] bs e h = unchanged_Extends s bs e h
eliminate_vars-Extends s (v ∷ vs) bs e h =
    let x = eliminate_var-Extends s v bs e h in
    let y = eliminate_vars-Extends (eliminate_var s v) vs (x.new ++ bs) x.pushed x.proper in
    record {
      new = y.new ++ x.new;
      pushed = y.pushed ∙ ap words (sym (append_assoc y.new x.new bs));
      proper = y.proper;
      models = λ a m. rw (repair_all-append_all a y.new x.new) (x.models _ (y.models a m));
    }

-- Variables are eliminated one after another from clauses that mention no variable twice. Then
-- `extendModel` turns every model of the clauses that are left, which are those without the
-- variables and the resolvents, into a model of all the clauses that there were.
pub extend_model-eliminate_vars :
    (s : Simp) (vs : List Var) (a : Assignment)
    → s.elimclauses ≡ []
    → All IsProper s.clauses
    → Models a (eliminate_vars s vs).clauses
    → (a' : Assignment) × (extend_model (full a) (eliminate_vars s vs).elimclauses ≡ full a')
      × Models a' s.clauses
extend_model-eliminate_vars s vs a e h m =
    let x = eliminate_vars-Extends s vs [] e h in
    (
      repair_all a x.new,
      ap (extend_model (full a)) (x.pushed ∙ ap words (append-nil x.new))
          ∙ extend_model-repairs a x.new,
      x.models a m,
    )
