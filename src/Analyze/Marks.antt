-- ===== src/Analyze/Marks.antt =====
-- Marking the literals of a clause or of a reason.
use glucose.Prelude.{
  suc, ◌+◌, ◌<◌, ◌≡◌, refl, sym, ap, subst, ◌∙◌, ◌⊎◌, inl, inr, Bool, true, false, not, ◌&&◌, List,
  [], ◌∷◌, ◌++◌, map, arith, ltb, leb, ◌==◌, ==_refl, eq_of_==, Bool-cases, update,
}
use glucose.Prelude.Lists.{All, All-append, In, In-append_left, In-append_right}
use glucose.Lit.{Lit, Var, neg, var}
use glucose.Lit.Laws.{var-neg, sign-neg, same_var}
use glucose.Lit.Truth.{Assignment, holds, holds-neg, satisfies, satisfies-In, satisfies-append}
use glucose.Lbool.{l_true, l_false}
use glucose.Solver.{Solver, value, decision_level}
use glucose.Analyze.{Analysis, mark, mark_clause, mark_reason}
use glucose.Analyze.Pending.{waits, pending, AreApart, pending-marked, pending-lower}

-- A literal that is false since a level between the first and the current one.
abbrev pub IsLower : Solver → Lit → Type 0
IsLower s q = (0 < s.level (var q)) × (s.level (var q) < decision_level s) × (value s q ≡ l_false)

-- A literal of the trail that waits to be resolved, and is false in the assignment.
abbrev pub Waiting : Assignment → Solver → List Lit → (Var → Bool) → Type 0
Waiting a s ls seen = (m : Lit) × In m ls × (waits s seen m ≡ true) × (holds a m ≡ false)

-- In the middle of the loop, `ls` being the trail that is left: the clause of the literals that are
-- pushed, the negations of those that wait, and those to be marked is true in the assignment.
pub record Marked {X : Type 0} (a : Assignment) (s : Solver) (ls todo : List Lit) (t : Analysis X)
    : Type 0 where
  pub counts : t.path_c ≡ pending s t.seen ls
  pub true_one : (satisfies a t.out ≡ true) ⊎ (Waiting a s ls t.seen ⊎ (satisfies a todo ≡ true))
  pub lower : All (IsLower s) t.out
  pub in_out :
      (q : Lit)
      → t.seen (var q) ≡ true
      → value s q ≡ l_false
      → s.level (var q) < decision_level s
      → In q t.out

-- Values of level 0 are those of the assignment.
abbrev pub IsRoot : Assignment → Solver → Type 0
IsRoot a s = (q : Lit) → value s q ≡ l_false → s.level (var q) ≡ 0 → holds a q ≡ false

value-neg_false : (s : Solver) (q : Lit) → value s q ≡ l_false → value s (neg q) ≡ l_true
value-neg_false s q h = rw (var-neg q, sign-neg q) (ground arith)

pub same_false :
    (s : Solver) (q r : Lit) → var q ≡ var r → value s q ≡ l_false → value s r ≡ l_false → q ≡ r
same_false s q r e h k = elim (same_var q r e) [
  | inl same ↦ same
  | inr opposite ↦ absurd (ground (arith, value-neg_false s r k, ap (value s) opposite))
]

Waiting-update :
    (a : Assignment) (s : Solver) (ls : List Lit) (seen : Var → Bool) (v : Var)
    → Waiting a s ls seen
    → Waiting a s ls (update seen v true)
Waiting-update a s ls seen v (m, i, w, f) = (m, i, ground arith, f)

neg_waits :
    (a : Assignment) (s : Solver) (ls : List Lit) (seen : Var → Bool) (q : Lit)
    → In (neg q) ls
    → holds a q ≡ true
    → seen (var q) ≡ true
    → leb (decision_level s) (s.level (var q)) ≡ true
    → Waiting a s ls seen
neg_waits a s ls seen q i h e l =
    (neg q, i, rw (var-neg q) (ground arith), holds-neg a q ∙ ap not h)

first_literal :
    (a : Assignment) (q : Lit) (todo : List Lit)
    → satisfies a (q ∷ todo) ≡ true
    → (holds a q ≡ true) ⊎ (satisfies a todo ≡ true)
first_literal a q todo h = elim (Bool-cases (holds a q)) [
  | inl t ↦ inl t
  | inr f ↦ inr (ground arith)
]

module _ {X : Type 0} (a : Assignment) (s : Solver) (root : IsRoot a s) (ls : List Lit)
    (apart : AreApart ls) (q : Lit) (todo : List Lit) (is_false : value s q ≡ l_false)
    (on_trail : In (neg q) ls) where
  -- A literal of the current level.
  marked_now :
      (t : Analysis X)
      → t.seen (var q) ≡ false
      → leb (decision_level s) (s.level (var q)) ≡ true
      → Marked a s ls (q ∷ todo) t
      → Marked a s ls todo (record t { seen = update t.seen (var q) true; path_c = t.path_c + 1 })
  marked_now t new now m =
      let count =
        pending-marked s t.seen (neg q) ls apart on_trail (rw (var-neg q) new)
          (rw (var-neg q) now) in
      let count' : pending s (update t.seen (var q) true) ls ≡ suc (pending s t.seen ls) =
        subst (λ v. pending s (update t.seen v true) ls ≡ suc (pending s t.seen ls)) (var-neg q)
          count in
      record {
        counts = omega (arith, m.counts, count');
        true_one = elim m.true_one [
          | inl e ↦ inl e
          | inr (inl w) ↦ inr (inl (Waiting-update a s ls t.seen (var q) w))
          | inr (inr e) ↦ elim (first_literal a q todo e) [
            | inl h ↦ inr (
                inl (
                  neg_waits a s ls (update t.seen (var q) true) q on_trail h
                    (rw (==_refl (var q)) refl) now))
            | inr e' ↦ inr (inr e')
          ]
        ];
        lower = m.lower;
        in_out = λ r e f lt. elim (Bool-cases (var q == var r)) [
          | inl same ↦
              let e' = eq_of_== (var q) (var r) same in absurd (ground (arith, ap s.level e'))
          | inr other ↦ m.in_out r (ground arith) f lt
        ];
      }

  -- A literal of a lower level.
  marked_lower :
      (t : Analysis X)
      → 0 < s.level (var q)
      → leb (decision_level s) (s.level (var q)) ≡ false
      → Marked a s ls (q ∷ todo) t
      → Marked a s ls todo (record t { seen = update t.seen (var q) true; out = t.out ++ q ∷ [] })
  marked_lower t up low m =
      let lt : s.level (var q) < decision_level s = ground arith in
      record {
        counts = m.counts ∙ sym (pending-lower s t.seen (var q) true ls lt);
        true_one = elim m.true_one [
          | inl e ↦ inl (rw (satisfies-append a t.out (q ∷ [])) (ground arith))
          | inr (inl w) ↦ inr (inl (Waiting-update a s ls t.seen (var q) w))
          | inr (inr e) ↦ elim (first_literal a q todo e) [
            | inl h ↦ inl (rw (satisfies-append a t.out (q ∷ [])) (ground arith))
            | inr e' ↦ inr (inr e')
          ]
        ];
        lower = All-append (IsLower s) t.out (q ∷ []) m.lower ((up, lt, is_false), tt);
        in_out = λ r e f l. elim (Bool-cases (var q == var r)) [
          | inl same ↦
              let e' = same_false s q r (eq_of_== (var q) (var r) same) is_false f in
              In-append_right r t.out (q ∷ []) (inl e')
          | inr other ↦ In-append_left r t.out (q ∷ []) (m.in_out r (ground arith) f l)
        ];
      }

  -- A literal that is marked already, or of level 0.
  marked_before :
      (t : Analysis X)
      → not (t.seen (var q)) && ltb 0 (s.level (var q)) ≡ false
      → Marked a s ls (q ∷ todo) t
      → Marked a s ls todo t
  marked_before t old m = record {
    counts = m.counts;
    true_one = elim m.true_one [
      | inl e ↦ inl e
      | inr (inl w) ↦ inr (inl w)
      | inr (inr e) ↦ elim (first_literal a q todo e) [
        | inr e' ↦ inr (inr e')
        | inl h ↦ elim (Bool-cases (t.seen (var q))) [
          | inr new ↦ absurd (ground (arith, root q is_false (ground arith)))
          | inl seen ↦ elim (Bool-cases (leb (decision_level s) (s.level (var q)))) [
            | inl now ↦ inr (inl (neg_waits a s ls t.seen q on_trail h seen now))
            | inr low ↦ inl (satisfies-In a t.out q (m.in_out q seen is_false (ground arith)) h)
          ]
        ]
      ]
    ];
    lower = m.lower;
    in_out = m.in_out;
  }

  mark-Marked :
      (t : Analysis X) → Marked a s ls (q ∷ todo) t → Marked a s ls todo (mark s (var q) q t)
  unfolding mark
  mark-Marked t m = elim (Bool-cases (not (t.seen (var q)) && ltb 0 (s.level (var q)))) [
    | inr old ↦ rw (mark, old) (marked_before t old m)
    | inl new ↦ elim (Bool-cases (leb (decision_level s) (s.level (var q)))) [
      | inl now ↦ rw (mark, new, now) (marked_now t (ground arith) now m)
      | inr low ↦ rw (mark, new, low) (marked_lower t (ground arith) low m)
    ]
  ]

-- The literals to mark are false, and their negations on the trail.
abbrev pub AreFalse : Solver → List Lit → List Lit → Type 0
AreFalse s ls qs = All (λ q. (value s q ≡ l_false) × In (neg q) ls) qs

module _ {X : Type 0} (a : Assignment) (s : Solver) (root : IsRoot a s) (ls : List Lit)
    (apart : AreApart ls) where
  pub mark_clause-Marked :
      (qs : List Lit) (t : Analysis X)
      → AreFalse s ls qs
      → Marked a s ls qs t
      → Marked a s ls [] (mark_clause s qs t)
  unfolding mark_clause
  mark_clause-Marked [] t h m = m
  mark_clause-Marked (q ∷ qs) t h m =
      mark_clause-Marked qs (mark s (var q) q t) h.1
        (mark-Marked a s root ls apart q qs h.0.0 h.0.1 t m)

  pub mark_reason-Marked :
      (qs : List Lit) (t : Analysis X)
      → AreFalse s ls (map neg qs)
      → Marked a s ls (map neg qs) t
      → Marked a s ls [] (mark_reason s qs t)
  unfolding mark_reason
  mark_reason-Marked [] t h m = m
  mark_reason-Marked (q ∷ qs) t h m = mark_reason-Marked qs (mark s (var q) (neg q) t) h.1 (
      subst (λ v. Marked a s ls (map neg qs) (mark s v (neg q) t)) (var-neg q)
        (mark-Marked a s root ls apart (neg q) (map neg qs) h.0.0 h.0.1 t m))
