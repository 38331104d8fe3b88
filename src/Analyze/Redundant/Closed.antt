-- ===== src/Analyze/Redundant/Closed.antt =====
-- `litRedundant` returns, and marks literals that follow from marked ones, or nothing.
use glucose.Prelude.{
  ℕ, zero, suc, ◌+◌, ◌<◌, ◌≡◌, refl, sym, ap, subst, ◌∙◌, ◌⊎◌, inl, inr, Bool, true, false, Option,
  none, some, List, [], ◌∷◌, arith, ◌==◌, eq_of_==, Bool-cases, update,
}
use glucose.Prelude.Lists.{All, All-In, In, In-All, length}
use glucose.Lit.{Lit, Var, neg, var}
use glucose.Lit.Laws.{var-neg}
use glucose.Lit.Truth.{Assignment}
use glucose.Lbool.{l_true, l_false}
use glucose.Solver.{Solver, CRef, Reason, no_reason, by_clause, by_constraint, value}
use glucose.Analyze.{true_first, others}
use glucose.Analyze.Trail.{IsTrail, IsTrail-true, true_first-stays}
use glucose.Analyze.Redundant.{Marks, has_clause, visit, clear_each, empty_stack}
use glucose.Analyze.Redundant.Visit.{unseen, IsFalse, OnStack, Grown, visit-Grown}

-- The literal's reason is a clause, of which the other literals are marked or of level 0.
abbrev pub Explained : Solver → (CRef → List Lit) → (Var → Bool) → Lit → Type 0
Explained s ca seen l =
    (cr : CRef) × (s.reason (var l) ≡ by_clause cr)
    × ((q : Lit)
        → In q (others (true_first s (ca cr)))
        → (seen (var q) ≡ true) ⊎ (s.level (var q) ≡ 0))

pub Explained-mono :
    (s : Solver) (ca : CRef → List Lit) (f g : Var → Bool) (l : Lit)
    → ((v : Var) → f v ≡ true → g v ≡ true)
    → Explained s ca f l
    → Explained s ca g l
Explained-mono s ca f g l h (cr, e, k) =
    (cr, e, λ q i. elim (k q i) [ inl a ↦ inl (h (var q) a) | inr b ↦ inr b ])

-- The clause memory is the same but for the order of binary clauses.
abbrev pub SameClauses : Solver → (CRef → List Lit) → (CRef → List Lit) → Type 0
SameClauses s ca cb = (cr : CRef) → true_first s (cb cr) ≡ true_first s (ca cr)

module _ (a : Assignment) (s : Solver) (ca : CRef → List Lit) (n levels : ℕ)
    (trail : IsTrail a s ca s.trail) (in_range : All (λ l. var l < n) s.trail) where
  founded_at :
      (ls : List Lit)
      → IsTrail a s ca ls
      → ((m : Lit) → In m ls → In m s.trail)
      → (l : Lit) (cr : CRef) → In l ls
      → s.reason (var l) ≡ by_clause cr
      → (d : List Lit) × (true_first s (ca cr) ≡ l ∷ d) × All (IsFalse s n) d
  founded_at [] is sub l cr i e = absurd i
  founded_at (k ∷ ls) is sub l cr (inr i) e = founded_at ls is.5 (λ m j. sub m (inr j)) l cr i e
  founded_at (k ∷ ls) is sub l cr (inl f) e =
      let e' : s.reason (var k) ≡ by_clause cr = ap (λ l. s.reason (var l)) f ∙ e in
      let (d, first, false_, sat) = rw e' at is.0 in
      (
        d,
        first ∙ ap (λ l. l ∷ d) f,
        In-All d (λ q i.
            let h = All-In (λ q. (value s q ≡ l_false) × In (neg q) ls) d false_ i in
            let there = sub (neg q) (inr h.1) in
            let small = All-In (λ l. var l < n) s.trail in_range there in
            (h.0, there, omega (arith, var-neg q, small))),
      )

  module _ (P : Lit → Type 0) (seen0 : Var → Bool) where
    -- Within the loop.
    pub record Covers (m : Marks) : Type 0 where
      pub same_clauses : SameClauses s ca m.ca
      pub on_stack : All (OnStack s n) m.stack
      pub mono : (v : Var) → seen0 v ≡ true → m.seen v ≡ true
      pub covered :
          (l : Lit)
          → In l s.trail
          → m.seen (var l) ≡ true
          → P l ⊎ (In (neg l) m.stack ⊎ Explained s ca m.seen l)
      pub restores : (v : Var) → clear_each m.added m.seen v ≡ seen0 v

    -- What the loop leaves: with true, marks that cover; with false, the marks from before it.
    abbrev pub Settled : Option (Marks × Bool) → Type 0
    Settled none = ⊥
    Settled (some (m, true)) =
        SameClauses s ca m.ca
        × ((v : Var) → seen0 v ≡ true → m.seen v ≡ true)
        × ((l : Lit) → In l s.trail → m.seen (var l) ≡ true → P l ⊎ Explained s ca m.seen l)
    Settled (some (m, false)) = SameClauses s ca m.ca × ((v : Var) → m.seen v ≡ seen0 v)

    same_there :
        (m t : Marks) (q : Lit) (qs d : List Lit) (cr : CRef)
        → true_first s (ca cr) ≡ neg q ∷ d
        → Covers m
        → Grown s n (record m { ca = update m.ca cr (neg q ∷ d); stack = qs }) t
        → value s (neg q) ≡ l_true
        → SameClauses s ca t.ca
    same_there m t q qs d cr first c g tr x = rw g.same_ca (elim (Bool-cases (cr == x)) [
      | inr other ↦ rw other (c.same_clauses x)
      | inl same ↦ rw same (
          true_first-stays s (neg q) d tr
          ∙ sym (subst (λ x. true_first s (ca x) ≡ neg q ∷ d) (eq_of_== cr x same) first))
    ])

    -- The literal that has been taken off the stack is explained.
    popped-Covers :
        (m t : Marks) (q : Lit) (qs d : List Lit) (cr : CRef)
        → m.stack ≡ q ∷ qs
        → s.reason (var q) ≡ by_clause cr
        → true_first s (ca cr) ≡ neg q ∷ d
        → Covers m
        → Grown s n (record m { ca = update m.ca cr (neg q ∷ d); stack = qs }) t
        → ((r : Lit) → In r d → (t.seen (var r) ≡ true) ⊎ (s.level (var r) ≡ 0))
        → value s (neg q) ≡ l_true
        → Covers t
    popped-Covers m t q qs d cr st e first c g closed tr = record {
      same_clauses = same_there m t q qs d cr first c g tr;
      on_stack =
          let on : All (OnStack s n) (q ∷ qs) = subst (All (OnStack s n)) st c.on_stack in
          g.on_stack on.1;
      mono = λ v h. g.mono v (c.mono v h);
      covered = λ l i h.
          let up : Explained s ca m.seen l → Explained s ca t.seen l =
            Explained-mono s ca m.seen t.seen l g.mono in
          elim (g.fresh l (IsTrail-true a s ca s.trail l trail i) h) [
            | inr j ↦ inr (inl j)
            | inl old ↦ elim (c.covered l i old) [
              | inl p ↦ inl p
              | inr (inr k) ↦ inr (inr (up k))
              | inr (inl j) ↦ elim (subst (In (neg l)) st j) [
                | inr j' ↦ inr (inl (g.stays (neg l) j'))
                | inl f ↦
                    let v : var q ≡ var l = ap var f ∙ var-neg l in
                    inr (
                      inr (
                        cr,
                        subst (λ v. s.reason v ≡ by_clause cr) v e,
                        λ r k. closed r (subst (In r) (ap others first) k),
                      ))
              ]
            ]
          ];
      restores = λ v. g.restores v ∙ c.restores v;
    }

    popped :
        (fuel : ℕ) (m : Marks) (q : Lit) (qs : List Lit) (r : Reason)
        → m.stack ≡ q ∷ qs
        → s.reason (var q) ≡ r
        → Covers m
        → ((t : Marks)
            → length t.stack + unseen n t.seen ≡ length qs + unseen n m.seen
            → Covers t
            → Settled (empty_stack s levels fuel t))
        → let next : Option (Marks × Bool) = elim r [
          | no_reason ↦ none
          | by_constraint c ↦ none
          | by_clause cr ↦
              let c = true_first s (m.ca cr) in
              let (t, done) =
                visit s levels (others c) (record m { ca = update m.ca cr c; stack = qs }) in
              elim done [
                | true ↦ empty_stack s levels fuel t
                | false ↦ some (record t { seen = clear_each t.added t.seen; added = [] }, false)
              ]
        ] in
          Settled next
    popped fuel m q qs no_reason st e c rec =
        let on : All (OnStack s n) (q ∷ qs) = subst (All (OnStack s n)) st c.on_stack in
        absurd (ground (arith, on.0.0, ap has_clause e))
    popped fuel m q qs (by_constraint k) st e c rec =
        let on : All (OnStack s n) (q ∷ qs) = subst (All (OnStack s n)) st c.on_stack in
        absurd (ground (arith, on.0.0, ap has_clause e))
    popped fuel m q qs (by_clause cr) st e c rec =
        let on : All (OnStack s n) (q ∷ qs) = subst (All (OnStack s n)) st c.on_stack in
        let here : s.reason (var (neg q)) ≡ by_clause cr = rw (var-neg q) e in
        let (d, first, false_) = founded_at s.trail trail (λ m i. i) (neg q) cr on.0.1.1 here in
        let u : Marks = record m { ca = update m.ca cr (neg q ∷ d); stack = qs } in
        let r = visit s levels d u in
        let g = visit-Grown s n levels d u false_ in
        let tr = IsTrail-true a s ca s.trail (neg q) trail on.0.1.1 in
        let result : Settled (elim r.1 [
          | true ↦ empty_stack s levels fuel r.0
          | false ↦ some (record r.0 { seen = clear_each r.0.added r.0.seen; added = [] }, false)
        ]) =
          elim (Bool-cases r.1) [
            | inl done ↦
                rw done
                  (rec r.0 g.0.size (popped-Covers m r.0 q qs d cr st e first c g.0 (g.1 done) tr))
            | inr failed ↦
                rw failed
                  (same_there m r.0 q qs d cr first c g.0 tr, λ v. g.0.restores v ∙ c.restores v)
          ] in
        let c' : neg q ∷ d ≡ true_first s (m.ca cr) = sym (c.same_clauses cr ∙ first) in
        subst
          (λ c. Settled (
            let r' = visit s levels (others c) (record m { ca = update m.ca cr c; stack = qs }) in
            elim r'.1 [
              | true ↦ empty_stack s levels fuel r'.0
              | false ↦
                  some (record r'.0 { seen = clear_each r'.0.added r'.0.seen; added = [] }, false)
            ]))
          c' result

    at_stack :
        (fuel : ℕ) (m : Marks) (st : List Lit)
        → m.stack ≡ st
        → Covers m
        → ((t : Marks)
            → suc (length t.stack + unseen n t.seen) ≡ length st + unseen n m.seen
            → Covers t
            → Settled (empty_stack s levels fuel t))
        → let next : Option (Marks × Bool) = elim st [
          | [] ↦ some (m, true)
          | q ∷ qs ↦ elim (s.reason (var q)) [
            | no_reason ↦ none
            | by_constraint c ↦ none
            | by_clause cr ↦
                let c = true_first s (m.ca cr) in
                let (t, done) =
                  visit s levels (others c) (record m { ca = update m.ca cr c; stack = qs }) in
                elim done [
                  | true ↦ empty_stack s levels fuel t
                  | false ↦ some (record t { seen = clear_each t.added t.seen; added = [] }, false)
                ]
          ]
        ] in
          Settled next
    at_stack fuel m [] st c rec = (
      c.same_clauses,
      c.mono,
      λ l i h. elim (c.covered l i h) [
        | inl p ↦ inl p
        | inr (inr e) ↦ inr e
        | inr (inl j) ↦ absurd (subst (In (neg l)) st j)
      ],
    )
    at_stack fuel m (q ∷ qs) st c rec =
        popped fuel m q qs (s.reason (var q)) st refl c (λ t e k. rec t (omega (arith, e)) k)

    -- With fuel for each literal of the stack and each variable that is not marked.
    pub empty_stack-Settled :
        (fuel : ℕ) (m : Marks)
        → length m.stack + unseen n m.seen < fuel
        → Covers m
        → Settled (empty_stack s levels fuel m)
    unfolding empty_stack
    empty_stack-Settled zero m h c = absurd (omega arith)
    empty_stack-Settled (suc fuel) m h c =
        at_stack fuel m m.stack refl c (λ t e k. empty_stack-Settled fuel t (omega (arith, e, h)) k)
