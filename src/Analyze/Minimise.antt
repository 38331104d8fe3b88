-- ===== src/Analyze/Minimise.antt =====
-- core/Solver.cc: the removal of literals from the learnt clause by `analyze` where `ccmin_mode` is 1,
-- and that the clause stays true.
use glucose.Prelude.{
  ◌≡◌, refl, sym, subst, ◌∙◌, ◌⊎◌, inl, inr, Bool, true, false, not, ◌&&◌, List, [], ◌∷◌, arith,
  ltb, if◌then◌else◌, Bool-cases,
}
use glucose.Prelude.Lists.{All, All-In, In}
use glucose.Lit.{Lit, Var, neg, var}
use glucose.Lit.Laws.{var-neg}
use glucose.Lit.Truth.{Assignment, holds, holds-neg, satisfies, satisfies_inv}
use glucose.Lbool.{l_false}
use glucose.Solver.{Solver, CRef, Reason, no_reason, by_clause, by_constraint, value}
use glucose.Analyze.Final.{looked_at}
use glucose.Analyze.Final.Marks.{looked_at-In}
use glucose.Analyze.Marks.{IsRoot, IsLower}
use glucose.Analyze.Trail.{IsTrail, Founded}

-- Whether a literal of the reason is neither of the learnt clause nor of level 0.
unfoldable pub any_open : Solver → (Var → Bool) → List Lit → Bool
any_open s seen [] = false
any_open s seen (q ∷ qs) =
    if not (seen (var q)) && ltb 0 (s.level (var q)) then true else any_open s seen qs

-- Whether a literal stays.
unfoldable pub is_kept : Solver → (CRef → List Lit) → (Var → Bool) → Lit → Bool
unfolding any_open looked_at
is_kept s ca seen q = elim (s.reason (var q)) [
  | no_reason ↦ true
  | by_constraint c ↦ true
  | by_clause cr ↦ any_open s seen (looked_at (ca cr))
]

-- The loop, and the clause with its first literal.
unfoldable pub keep_needed : Solver → (CRef → List Lit) → (Var → Bool) → List Lit → List Lit
unfolding is_kept
keep_needed s ca seen [] = []
keep_needed s ca seen (q ∷ qs) =
    let rest = keep_needed s ca seen qs in if is_kept s ca seen q then q ∷ rest else rest

unfoldable pub minimise : Solver → (CRef → List Lit) → (Var → Bool) → List Lit → List Lit
unfolding keep_needed
minimise s ca seen [] = []
minimise s ca seen (q ∷ qs) = q ∷ keep_needed s ca seen qs

keep_needed-In :
    (s : Solver) (ca : CRef → List Lit) (seen : Var → Bool) (qs : List Lit) (q : Lit)
    → In q qs
    → is_kept s ca seen q ≡ true
    → In q (keep_needed s ca seen qs)
unfolding keep_needed
keep_needed-In s ca seen [] q i h = absurd i
keep_needed-In s ca seen (r ∷ qs) q (inl e) h =
    let h' : is_kept s ca seen r ≡ true = rw e h in rw (keep_needed, h') (inl e)
keep_needed-In s ca seen (r ∷ qs) q (inr i) h = elim (Bool-cases (is_kept s ca seen r)) [
  | inl k ↦ rw (keep_needed, k) (inr (keep_needed-In s ca seen qs q i h))
  | inr k ↦ rw (keep_needed, k) (keep_needed-In s ca seen qs q i h)
]

keep_needed-All :
    (P : Lit → Type 0) (s : Solver) (ca : CRef → List Lit) (seen : Var → Bool) (qs : List Lit)
    → All P qs
    → All P (keep_needed s ca seen qs)
unfolding keep_needed
keep_needed-All P s ca seen [] h = tt
keep_needed-All P s ca seen (q ∷ qs) h = elim (Bool-cases (is_kept s ca seen q)) [
  | inl k ↦ rw (keep_needed, k) (h.0, keep_needed-All P s ca seen qs h.1)
  | inr k ↦ rw (keep_needed, k) (keep_needed-All P s ca seen qs h.1)
]

any_open-In :
    (s : Solver) (seen : Var → Bool) (qs : List Lit) (q : Lit)
    → any_open s seen qs ≡ false
    → In q qs
    → (seen (var q) ≡ true) ⊎ (s.level (var q) ≡ 0)
unfolding any_open
any_open-In s seen [] q h i = absurd i
any_open-In s seen (r ∷ qs) q h i =
    elim (Bool-cases (not (seen (var r)) && ltb 0 (s.level (var r)))) [
      | inl open_ ↦
          let wrong : any_open s seen (r ∷ qs) ≡ true = rw (any_open, open_) refl in
          absurd (ground arith)
      | inr fine ↦ elim i [
        | inr j ↦
            let rest : any_open s seen qs ≡ false = sym (rw (any_open, fine) refl) ∙ h in
            any_open-In s seen qs q rest j
        | inl e ↦
            subst (λ q. (seen (var q) ≡ true) ⊎ (s.level (var q) ≡ 0)) e
              (elim (Bool-cases (seen (var r))) [ inl t ↦ inl t | inr f ↦ inr (ground arith) ])
      ]
    ]

-- The marks are those of the learnt clause, which is false on the trail.
abbrev pub AreMarks : Solver → (Var → Bool) → List Lit → Type 0
AreMarks s seen qs =
    All (λ q. (seen (var q) ≡ true) × In (neg q) s.trail) qs
    × ((l : Lit) → In l s.trail → seen (var l) ≡ true → In (neg l) qs)

module _ (a : Assignment) (s : Solver) (ca : CRef → List Lit) (seen : Var → Bool)
    (root : IsRoot a s) (qs : List Lit) (marks : AreMarks s seen qs)
    (all_false : All (λ q. holds a q ≡ false) (keep_needed s ca seen qs)) where
  -- A literal that is removed follows from the literals before it.
  follows :
      (r : Reason) (l : Lit) (ls : List Lit)
      → s.reason (var l) ≡ r
      → Founded a s ca l ls r
      → is_kept s ca seen (neg l) ≡ false
      → ((m : Lit) → In m ls → seen (var m) ≡ true → holds a m ≡ true)
      → holds a l ≡ true
  unfolding is_kept
  follows no_reason l ls e found out rec =
      let stays : is_kept s ca seen (neg l) ≡ true = rw (is_kept, var-neg l, e) refl in
      absurd (ground arith)
  follows (by_constraint c) l ls e found out rec =
      let stays : is_kept s ca seen (neg l) ≡ true = rw (is_kept, var-neg l, e) refl in
      absurd (ground arith)
  follows (by_clause cr) l ls e found out rec =
      let (d, first, false_, sat) = found in
      let closed : any_open s seen (looked_at (ca cr)) ≡ false =
        sym (rw (is_kept, var-neg l, e) refl) ∙ out in
      elim (Bool-cases (holds a l)) [
        | inl t ↦ t
        | inr f ↦
            let (q, i, t) = satisfies_inv a d (ground arith) in
            let fq = All-In (λ q. (value s q ≡ l_false) × In (neg q) ls) d false_ i in
            elim (any_open-In s seen (looked_at (ca cr)) q closed
              (looked_at-In s (ca cr) l d q first i)) [
                | inr low ↦ absurd (ground (arith, root q fq.0 low))
                | inl marked ↦
                    absurd (ground (arith, rec (neg q) fq.1 (rw (var-neg q) marked), holds-neg a q))
              ]
      ]

  -- So each marked literal of the trail is true.
  marked_hold :
      (ls : List Lit)
      → IsTrail a s ca ls
      → ((m : Lit) → In m ls → In m s.trail)
      → (m : Lit) → In m ls
      → seen (var m) ≡ true
      → holds a m ≡ true
  marked_hold [] is sub m i h = absurd i
  marked_hold (l ∷ ls) is sub m (inr i) h = marked_hold ls is.5 (λ m i. sub m (inr i)) m i h
  marked_hold (l ∷ ls) is sub m (inl e) h =
      let h' : seen (var l) ≡ true = rw e h in
      let mine = marks.1 l (sub l (inl refl)) h' in
      subst (λ m. holds a m ≡ true) e
        (elim (Bool-cases (is_kept s ca seen (neg l))) [
          | inl k ↦
              let wrong =
                All-In (λ q. holds a q ≡ false) (keep_needed s ca seen qs) all_false
                  (keep_needed-In s ca seen qs (neg l) mine k) in
              ground (arith, holds-neg a l)
          | inr out ↦
              follows (s.reason (var l)) l ls refl is.0 out
                (marked_hold ls is.5 (λ m i. sub m (inr i)))
        ])

pub none_holds :
    (a : Assignment) (qs : List Lit) → satisfies a qs ≡ false → All (λ q. holds a q ≡ false) qs
none_holds a [] h = tt
none_holds a (q ∷ qs) h = (ground arith, none_holds a qs (ground arith))

-- Let the trail be one whose literals have clauses or constraints as reasons, which are right in the
-- assignment, as are the values of level 0, and let the marks be those of the literals of the learnt
-- clause but for its first one. Then removing the literals whose reasons are of marked literals and
-- of literals of level 0 leaves a clause that is true in the assignment, if the learnt clause is; its
-- first literal stays, and so do the levels of the others.
pub minimise-IsLower :
    (a : Assignment) (s : Solver) (ca : CRef → List Lit) (seen : Var → Bool) (q : Lit)
    (qs : List Lit)
    → IsRoot a s
    → IsTrail a s ca s.trail
    → AreMarks s seen qs
    → All (IsLower s) qs
    → satisfies a (q ∷ qs) ≡ true
    → (satisfies a (minimise s ca seen (q ∷ qs)) ≡ true)
      × ((rest : List Lit) × (minimise s ca seen (q ∷ qs) ≡ q ∷ rest) × All (IsLower s) rest)
unfolding minimise
minimise-IsLower a s ca seen q qs root is marks lower h = (
  elim (Bool-cases (satisfies a (q ∷ keep_needed s ca seen qs))) [
    | inl t ↦ t
    | inr f ↦
        let all_false = none_holds a (keep_needed s ca seen qs) (ground arith) in
        let (p, i, t) = satisfies_inv a qs (ground arith) in
        let mine = All-In (λ q. (seen (var q) ≡ true) × In (neg q) s.trail) qs marks.0 i in
        let opposite =
          marked_hold a s ca seen root qs marks all_false s.trail is (λ m i. i) (neg p) mine.1
            (rw (var-neg p) mine.0) in
        absurd (ground (arith, opposite, holds-neg a p))
  ],
  (keep_needed s ca seen qs, refl, keep_needed-All (IsLower s) s ca seen qs lower),
)
