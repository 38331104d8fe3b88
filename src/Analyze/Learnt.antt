-- ===== src/Analyze/Learnt.antt =====
-- The clause that `analyze` learns.
use glucose.Prelude.{
  suc, ◌≤◌, ◌<◌, ◌≡◌, refl, sym, ap, subst, ◌∙◌, inl, inr, true, false, Option, none, some, List,
  [], ◌∷◌, map, arith, leb, ◌==◌, eq_of_==, Bool-cases, update,
}
use glucose.Prelude.Lists.{All-In, In-All}
use glucose.Lit.{Lit, neg, var}
use glucose.Lit.Laws.{var-neg, sign-neg}
use glucose.Lit.Truth.{Assignment, holds, holds-neg, satisfies}
use glucose.Lbool.{l_true}
use glucose.Solver.{
  Solver, CRef, ConstraintRef, Reason, no_reason, by_clause, by_constraint, value, decision_level,
}
use glucose.Analyze.{
  Analysis, true_first, others, mark_clause, mark_reason, seen_by_constraint, resolve, undone,
  unmarked, walk,
}
use glucose.Analyze.Pending.{pending, pending-Apart, pending-In, pending-none}
use glucose.Analyze.Marks.{Marked, IsRoot, mark_clause-Marked, mark_reason-Marked}
use glucose.Analyze.Still.{Still, mark_clause-Still, mark_reason-Still}
use glucose.Analyze.Trail.{
  ReasonLaws, Founded, IsTrail, IsTrail-AreApart, Resolved, true_first-stays, all_hold,
  negations_false,
}

module _ {X : Type 0} (a : Assignment) (s : Solver) (ca : CRef → List Lit) (root : IsRoot a s)
    (calc_reason : ConstraintRef → Solver → X → Option Lit → Option Lit → List Lit)
    (undo : ConstraintRef → Lit → X → X) (laws : ReasonLaws a s calc_reason undo) where
  -- Between two rounds, `ls` being the trail that is left.
  pub record Walks (ls : List Lit) (t : Analysis X) : Type 0 where
    pub marked : Marked a s ls [] t
    pub more : 0 < t.path_c
    pub same_ca : (cr : CRef) → true_first s (t.ca cr) ≡ true_first s (ca cr)
    pub held : laws.Holds t.undo_lists t.constraints ls

  -- A literal that is not marked.
  passed :
      (l : Lit) (ls : List Lit) (t : Analysis X)
      → t.seen (var l) ≡ false
      → Walks (l ∷ ls) t
      → Walks ls (undone undo l t)
  passed l ls t new w = record {
    marked = record {
      counts = ground (arith, w.marked.counts);
      true_one = elim w.marked.true_one [
        | inl e ↦ inl e
        | inr (inr e) ↦ inr (inr e)
        | inr (inl (m, i, h, f)) ↦ elim i [
          | inr j ↦ inr (inl (m, j, h, f))
          | inl e ↦ absurd (ground (arith, ap (λ l. t.seen (var l)) e))
        ]
      ];
      lower = w.marked.lower;
      in_out = w.marked.in_out;
    };
    more = w.more;
    same_ca = w.same_ca;
    held = laws.undo_holds t.undo_lists t.constraints l ls w.held;
  }

  -- A marked literal is of the current level.
  is_current :
      (l : Lit) (ls : List Lit) (t : Analysis X)
      → IsTrail a s ca (l ∷ ls)
      → Walks (l ∷ ls) t
      → s.level (var l) ≡ decision_level s
  is_current l ls t is w = elim (Bool-cases (leb (decision_level s) (s.level (var l)))) [
    | inl now ↦
        let le : decision_level s ≤ s.level (var l) = ground arith in omega (arith, is.2, le)
    | inr low ↦
        let lt : s.level (var l) < decision_level s = ground arith in
        let gone = pending-none s t.seen (l ∷ ls) (
          lt,
          In-All ls (λ m i.
              let le = All-In (λ m. s.level (var m) ≤ s.level (var l)) ls is.3 i in
              omega (arith, lt, le)),
        ) in
        absurd (omega (arith, w.more, w.marked.counts, gone))
  ]

  -- The clause once a literal has been chosen, where `todo` is true if the literal is false.
  chosen :
      (l : Lit) (ls todo : List Lit) (t : Analysis X)
      → t.seen (var l) ≡ true
      → IsTrail a s ca (l ∷ ls)
      → Walks (l ∷ ls) t
      → (holds a l ≡ false → satisfies a todo ≡ true)
      → Marked a s ls todo (unmarked l (undone undo l t))
  chosen l ls todo t old is w h =
      let now = is_current l ls t is w in
      let rest = pending-Apart s t.seen (var l) false ls is.4 in
      let is_here : leb (decision_level s) (s.level (var l)) ≡ true = ground (arith, now) in
      let count : t.path_c ≡ suc (pending s t.seen ls) = ground (arith, w.marked.counts) in
      record {
        counts = omega (arith, rest, count);
        true_one = elim w.marked.true_one [
          | inl e ↦ inl e
          | inr (inr e) ↦ absurd (ground arith)
          | inr (inl (m, i, k, f)) ↦ elim i [
            | inl e ↦ inr (inr (h (ap (holds a) e ∙ f)))
            | inr j ↦
                let apart = All-In (λ n. (var l == var n) ≡ false) ls is.4 j in
                inr (inl (m, j, rw apart k, f))
          ]
        ];
        lower = w.marked.lower;
        in_out = λ q e f lt. elim (Bool-cases (var l == var q)) [
          | inl same ↦ absurd (ground arith)
          | inr other ↦ w.marked.in_out q (ground arith) f lt
        ];
      }

  -- The loop ends.
  finished :
      (l : Lit) (ls : List Lit) (t : Analysis X)
      → t.seen (var l) ≡ true
      → IsTrail a s ca (l ∷ ls)
      → Walks (l ∷ ls) t
      → let u = unmarked l (undone undo l t) in (u.path_c == 0) ≡ true → Resolved a s (some (l, u))
  finished l ls t old is w e =
      let now = is_current l ls t is w in
      let m = chosen l ls (neg l ∷ []) t old is w (λ f. rw (holds-neg a l, f) refl) in
      let none_left : pending s (update t.seen (var l) false) ls ≡ 0 = ground (arith, m.counts) in
      (
        elim m.true_one [
          | inl h ↦ rw h (ground arith)
          | inr (inr h) ↦ ground arith
          | inr (inl (k, i, wt, f)) ↦
              let some_left = pending-In s (update t.seen (var l) false) k ls i wt in
              absurd (omega (arith, none_left, some_left))
        ],
        rw (var-neg l, sign-neg l) (ground (arith, is.1)),
        rw (var-neg l) now,
        m.lower,
      )

  -- The state after marking.
  marked-Walks :
      (l : Lit) (ls : List Lit) (t u v : Analysis X)
      → Walks (l ∷ ls) t
      → Still u v
      → 0 < u.path_c
      → ((cr : CRef) → true_first s (u.ca cr) ≡ true_first s (ca cr))
      → laws.Holds u.undo_lists u.constraints ls
      → Marked a s ls [] v
      → Walks ls v
  marked-Walks l ls t u v w k more same held m = record {
    marked = m;
    more = omega (arith, more, k.more);
    same_ca = λ cr. rw k.same_ca (same cr);
    held = rw (k.same_undos, k.same_constraints) held;
  }

  -- The clause memory after the binary clause has been put in order.
  swapped :
      (l : Lit) (d : List Lit) (t : Analysis X) (cr x : CRef)
      → value s l ≡ l_true
      → true_first s (ca cr) ≡ l ∷ d
      → ((y : CRef) → true_first s (t.ca y) ≡ true_first s (ca y))
      → true_first s (update t.ca cr (l ∷ d) x) ≡ true_first s (ca x)
  swapped l d t cr x h first same = elim (Bool-cases (cr == x)) [
    | inr other ↦ rw other (same x)
    | inl here ↦
        let e = eq_of_== cr x here in
        rw here (true_first-stays s l d h ∙ sym (subst (λ x. true_first s (ca x) ≡ l ∷ d) e first))
  ]

  -- The loop goes on with the literal's reason.
  goes_on :
      (l : Lit) (ls : List Lit) (t : Analysis X) (r : Reason)
      → s.reason (var l) ≡ r
      → Founded a s ca l ls r
      → t.seen (var l) ≡ true
      → IsTrail a s ca (l ∷ ls)
      → Walks (l ∷ ls) t
      → ((v : Analysis X) → Walks ls v → Resolved a s (walk s calc_reason undo ls v))
      → let u = unmarked l (undone undo l t) in
        (u.path_c == 0) ≡ false
        → Resolved a s (elim (resolve s calc_reason undo (some l) none r u) [
          | none ↦ none
          | some v ↦ walk s calc_reason undo ls v
        ])
  unfolding resolve
  goes_on l ls t no_reason e found old is w rec more =
      let now = is_current l ls t is w in
      let m = chosen l ls (neg l ∷ []) t old is w (λ f. rw (holds-neg a l, f) refl) in
      let gone = pending-none s (update t.seen (var l) false) ls (
        In-All ls (λ k i.
          let lt = All-In (λ k. s.level (var k) < s.level (var l)) ls found i in
          omega (arith, now, lt))) in
      absurd (ground (arith, m.counts, gone))
  goes_on l ls t (by_constraint c) e found old is w rec more =
      let u = unmarked l (undone undo l t) in
      let qs = calc_reason c (seen_by_constraint s u) u.constraints (some l) none in
      let before = laws.before t.undo_lists t.constraints l ls c e w.held in
      let todo : holds a l ≡ false → satisfies a (map neg qs) ≡ true = λ f.
        elim (Bool-cases (satisfies a (map neg qs))) [
          | inl h ↦ h
          | inr h ↦
              let t' = laws.explains t.undo_lists t.constraints l ls c e w.held (all_hold a qs h) in
              absurd (ground arith)
        ] in
      let v = mark_reason s qs u in
      rec v (
        marked-Walks l ls t u v w (mark_reason-Still s qs u) (ground arith) w.same_ca
          (laws.undo_holds t.undo_lists t.constraints l ls w.held)
          (mark_reason-Marked a s root ls (IsTrail-AreApart a s ca ls is.5) qs u
            (negations_false a s ca ls qs is.5 before) (chosen l ls (map neg qs) t old is w todo)))
  goes_on l ls t (by_clause cr) e found old is w rec more =
      let u = unmarked l (undone undo l t) in
      let (d, first, false_, sat) = found in
      let u' : Analysis X = record u { ca = update u.ca cr (l ∷ d) } in
      let todo : holds a l ≡ false → satisfies a d ≡ true = λ f. ground arith in
      let m = chosen l ls d t old is w todo in
      let m' : Marked a s ls d u' = record {
        counts = m.counts;
        true_one = m.true_one;
        lower = m.lower;
        in_out = m.in_out;
      } in
      let v = mark_clause s d u' in
      let result = rec v (
        marked-Walks l ls t u' v w (mark_clause-Still s d u') (ground arith)
          (λ x. swapped l d t cr x is.1 first w.same_ca)
          (laws.undo_holds t.undo_lists t.constraints l ls w.held)
          (mark_clause-Marked a s root ls (IsTrail-AreApart a s ca ls is.5) d u' false_ m')) in
      subst
        (λ c. Resolved a s (
          walk s calc_reason undo ls
            (mark_clause s (others c) (record u { ca = update u.ca cr c }))))
        (sym (w.same_ca cr ∙ first)) result

  pub walk-Resolved :
      (ls : List Lit) (t : Analysis X)
      → IsTrail a s ca ls
      → Walks ls t
      → Resolved a s (walk s calc_reason undo ls t)
  unfolding walk
  walk-Resolved [] t is w = absurd (omega (arith, w.more, w.marked.counts))
  walk-Resolved (l ∷ ls) t is w = elim (Bool-cases (t.seen (var l))) [
    | inr new ↦ rw (walk, new) (walk-Resolved ls (undone undo l t) is.5 (passed l ls t new w))
    | inl old ↦
        let u = unmarked l (undone undo l t) in
        elim (Bool-cases (u.path_c == 0)) [
          | inl last ↦ rw (walk, old, last) (finished l ls t old is w last)
          | inr more ↦
              rw (walk, old, more)
                (goes_on l ls t (s.reason (var l)) refl is.0 old is w
                  (λ v k. walk-Resolved ls v is.5 k) more)
        ]
  ]
