-- ===== src/Search/Left.antt =====
-- What `inspect` leaves, with no assignment in view.
use glucose.Prelude.{
  ℕ, ◌<◌, ◌≡◌, refl, sym, ap, subst, ◌∙◌, ◌≢◌, inl, inr, false, not, ◌&&◌, Option, none, some, List,
  [], ◌∷◌, arith, ◌==◌, if◌then◌else◌, eq_of_==, Bool-cases,
}
use glucose.Prelude.Lists.{All}
use glucose.Lit.{Lit, neg, var}
use glucose.Lbool.{l_true, l_false, l_undef, eq, Lbool-cases}
use glucose.Solver.{Solver, CRef, value}
use glucose.Search.{Search}
use glucose.Search.Inspect.{
  Visit, skip, kept, moved, unit, clash, inspect, inspect_ordered, replace_watch,
}
use glucose.Search.Fine.{Room}

-- The literals are of the first `n` variables.
abbrev pub Small : ℕ → List Lit → Type 0
Small n c = All (λ l. var l < n) c

-- The trail has room for the variables that have no value, and the literals on it are of the first
-- `n` variables.
abbrev pub FitsIn : ℕ → Solver → Type 0
FitsIn n s = Room n s × Small n s.trail

-- So are those of the clauses, and the constraints' states are as `Inside` says.
pub record Bounded {X : Type 0} (n : ℕ) (Inside : X → Type 0) (S : Search X) : Type 0 where
  pub fits : FitsIn n S.solver
  pub inside : Inside S.constraints
  pub clauses : (cr : CRef) → Small n (S.ca cr)
  pub bins : (q : Lit) → All (λ w. var w.blocker < n) (S.watches_bin q)

Replaced : ℕ → Option (Lit × List Lit) → Type 0
Replaced n none = Unit
Replaced n (some (l, ms)) = (var l < n) × Small n ms

Replaced-cons :
    (n l : ℕ) (r : Option (Lit × List Lit))
    → var l < n
    → Replaced n r
    → Replaced n (elim r [ none ↦ none | some (m, ms) ↦ some (m, l ∷ ms) ])
unfolding Replaced
Replaced-cons n l none lt h = tt
Replaced-cons n l (some (m, ms)) lt h = (h.0, (lt, h.1))

replace_watch-Replaced :
    (n : ℕ) (s : Solver) (f : Lit) (ls : List Lit)
    → var f < n
    → Small n ls
    → Replaced n (replace_watch s f ls)
unfolding replace_watch Replaced
replace_watch-Replaced n s f [] lt h = tt
replace_watch-Replaced n s f (l ∷ ls) lt h = elim (Bool-cases (not (eq (value s l) l_false))) [
  | inl other ↦
      let step : replace_watch s f (l ∷ ls) ≡ some (l, f ∷ ls) = rw (replace_watch, other) refl in
      subst (Replaced n) (sym step) (h.0, (lt, h.1))
  | inr is_false ↦
      let r = replace_watch s f ls in
      let step : replace_watch s f (l ∷ ls)
          ≡ (elim r [ none ↦ none | some (m, ms) ↦ some (m, l ∷ ms) ]) =
        rw (replace_watch, is_false) refl in
      subst (Replaced n) (sym step)
        (Replaced-cons n l r h.0 (replace_watch-Replaced n s f ls lt h.1))
]

-- The clause that is left is of the same variables, and a literal to assign has no value.
abbrev pub Left : ℕ → Solver → Visit → Type 0
Left n s skip = Unit
Left n s (kept d first) = Small n d
Left n s (moved d first l) = Small n d
Left n s (unit d first) = Small n d × (var first < n) × (value s first ≡ l_undef)
Left n s (clash d first) = Small n d

Replaced-Left :
    (n : ℕ) (s : Solver) (first second : Lit) (rest : List Lit) (r : Option (Lit × List Lit))
    → Small n (first ∷ second ∷ rest)
    → value s first ≢ l_true
    → Replaced n r
    → Left n s (elim r [
      | some (l, rest') ↦ moved (first ∷ l ∷ rest') first l
      | none ↦
          if eq (value s first) l_false
          then clash (first ∷ second ∷ rest) first
          else unit (first ∷ second ∷ rest) first
    ])
unfolding Replaced
Replaced-Left n s first second rest none h nt r = elim (Lbool-cases (value s first)) [
  | inl t ↦ absurd (nt t)
  | inr (inl f) ↦ rw f h
  | inr (inr u) ↦ rw u (h, h.0, u)
]
Replaced-Left n s first second rest (some (l, ms)) h nt r = (h.0, (r.0, r.1))

not_true :
    (s : Solver) (blocker first : Lit)
    → eq (value s blocker) l_true ≡ false
    → not (first == blocker) && eq (value s first) l_true ≡ false
    → value s first ≢ l_true
not_true s blocker first nt go e = elim (Bool-cases (first == blocker)) [
  | inl same ↦ let t = sym (ap (value s) (eq_of_== first blocker same)) ∙ e in absurd (ground arith)
  | inr apart ↦ absurd (ground arith)
]

inspect_ordered-Left :
    (n : ℕ) (s : Solver) (p blocker first second : Lit) (rest : List Lit)
    → Small n (first ∷ second ∷ rest)
    → var (neg p) < n
    → eq (value s blocker) l_true ≡ false
    → Left n s (inspect_ordered s p blocker first second rest)
unfolding inspect_ordered
inspect_ordered-Left n s p blocker first second rest h lt nt =
    elim (Bool-cases (not (first == blocker) && eq (value s first) l_true)) [
      | inl done ↦
          let step : inspect_ordered s p blocker first second rest
              ≡ kept (first ∷ second ∷ rest) first =
            rw (inspect_ordered, done) refl in
          subst (Left n s) (sym step) h
      | inr go ↦
          let r = replace_watch s (neg p) rest in
          let left =
            Replaced-Left n s first second rest r h (not_true s blocker first nt go)
              (replace_watch-Replaced n s (neg p) rest lt h.1.1) in
          let step : inspect_ordered s p blocker first second rest ≡ (elim r [
            | some (l, rest') ↦ moved (first ∷ l ∷ rest') first l
            | none ↦
                if eq (value s first) l_false
                then clash (first ∷ second ∷ rest) first
                else unit (first ∷ second ∷ rest) first
          ]) =
            rw (inspect_ordered, go) refl in
          subst (Left n s) (sym step) left
    ]

pub inspect-Left :
    (n : ℕ) (s : Solver) (p blocker : Lit) (c : List Lit)
    → Small n c
    → var (neg p) < n
    → Left n s (inspect s p blocker c)
unfolding inspect
inspect-Left n s p blocker [] h lt = tt
inspect-Left n s p blocker (x ∷ []) h lt = tt
inspect-Left n s p blocker (x ∷ y ∷ rest) h lt = elim (Bool-cases (eq (value s blocker) l_true)) [
  | inl satisfied ↦ rw (inspect, satisfied) tt
  | inr nt ↦ elim (Bool-cases (x == neg p)) [
    | inl swap ↦
        let step : inspect s p blocker (x ∷ y ∷ rest) ≡ inspect_ordered s p blocker y (neg p) rest =
          rw (inspect, nt, swap) refl in
        subst (Left n s) (sym step)
          (inspect_ordered-Left n s p blocker y (neg p) rest (h.1.0, (lt, h.1.1)) lt nt)
    | inr stay ↦
        let step : inspect s p blocker (x ∷ y ∷ rest) ≡ inspect_ordered s p blocker x y rest =
          rw (inspect, nt, stay) refl in
        subst (Left n s) (sym step) (inspect_ordered-Left n s p blocker x y rest h lt nt)
  ]
]
