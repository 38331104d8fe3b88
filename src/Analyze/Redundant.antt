-- ===== src/Analyze/Redundant.antt =====
-- core/Solver.cc: `litRedundant`, and the removal of literals by `analyze` where `ccmin_mode` is 2.
-- A literal whose reason is a constraint has no clause as its reason, and stays before the function
-- is called.
pub mod Visit
pub mod Closed
pub mod Kept
pub mod Sound
use glucose.Prelude.{
  ℕ, zero, suc, ◌+◌, ◌-◌, ◌*◌, ◌/◌, ◌%◌, ◌^◌, ◌≤◌, ◌<◌, ◌≡◌, refl, sym, ap, subst, ◌∙◌, ◌≢◌, ◌↔◌,
  ◌⊎◌, inl, inr, Bool, true, false, not, ◌&&◌, ◌||◌, Option, none, some, List, [], ◌∷◌, ◌++◌, map,
  arith, ltb, leb, ◌==◌, if◌then◌else◌, ==_iff, ==_refl, ==_ne, eq_of_==, Bool-cases, Option-cases,
  update, xor,
}
use Prim.Native.Nat.{bit_and, bit_or}
use glucose.Lit.{Lit, Var, var}
use glucose.Solver.{Solver, CRef, Reason, no_reason, by_clause, by_constraint}
use glucose.Analyze.{true_first, others}

-- `added` is `analyze_toclear` from `top` on; the head is the back, as it is of the stack.
pub record Marks : Type 0 where
  pub ca : CRef → List Lit
  pub seen : Var → Bool
  pub stack : List Lit
  pub added : List Lit

abbrev pub has_clause : Reason → Bool
has_clause no_reason = false
has_clause (by_clause cr) = true
has_clause (by_constraint c) = false

abbrev pub abstract_level : Solver → Var → ℕ
abstract_level s v = 2 ^ (s.level v % 32)

abbrev pub may_go : Solver → ℕ → Lit → Bool
may_go s levels p =
    has_clause (s.reason (var p)) && not (bit_and (abstract_level s (var p)) levels == 0)

-- The loop over the reason of a literal, and whether it comes to its end.
unfoldable pub visit : Solver → ℕ → List Lit → Marks → Marks × Bool
visit s levels [] m = (m, true)
visit s levels (p ∷ ps) m = elim (not (m.seen (var p)) && ltb 0 (s.level (var p))) [
  | false ↦ visit s levels ps m
  | true ↦ elim (may_go s levels p) [
    | false ↦ (m, false)
    | true ↦
        visit s levels ps
          (record m { seen = update m.seen (var p) true; stack = p ∷ m.stack; added = p ∷ m.added })
  ]
]

abbrev pub clear_each : List Lit → (Var → Bool) → Var → Bool
clear_each [] seen = seen
clear_each (p ∷ ps) seen = clear_each ps (update seen (var p) false)

-- The loop over the stack; `none` means that the fuel has run out, or that a literal has no clause
-- as its reason.
unfoldable pub empty_stack : Solver → ℕ → ℕ → Marks → Option (Marks × Bool)
unfolding visit true_first
empty_stack s levels zero m = none
empty_stack s levels (suc fuel) m = elim m.stack [
  | [] ↦ some (m, true)
  | q ∷ qs ↦ elim (s.reason (var q)) [
    | no_reason ↦ none
    | by_constraint c ↦ none
    | by_clause cr ↦
        let c = true_first s (m.ca cr) in
        let (n, done) =
          visit s levels (others c) (record m { ca = update m.ca cr c; stack = qs }) in
        elim done [
          | true ↦ empty_stack s levels fuel n
          | false ↦ some (record n { seen = clear_each n.added n.seen; added = [] }, false)
        ]
  ]
]

unfoldable pub lit_redundant :
    Solver → ℕ → ℕ → (CRef → List Lit) → (Var → Bool) → Lit → Option (Marks × Bool)
unfolding empty_stack
lit_redundant s levels fuel ca seen p =
    empty_stack s levels fuel (record { ca = ca; seen = seen; stack = p ∷ []; added = [] })

-- The loop over the learnt clause but for its first literal: what stays, and the marks.
unfoldable pub keep_irredundant :
    Solver → ℕ → ℕ → List Lit → (CRef → List Lit) → (Var → Bool) → Option (List Lit × (Var → Bool))
unfolding lit_redundant
keep_irredundant s levels fuel [] ca seen = some ([], seen)
keep_irredundant s levels fuel (q ∷ qs) ca seen = elim (has_clause (s.reason (var q))) [
  | false ↦ elim (keep_irredundant s levels fuel qs ca seen) [
    | none ↦ none
    | some (rest, t) ↦ some (q ∷ rest, t)
  ]
  | true ↦ elim (lit_redundant s levels fuel ca seen q) [
    | none ↦ none
    | some (m, redundant) ↦ elim redundant [
      | true ↦ keep_irredundant s levels fuel qs m.ca m.seen
      | false ↦ elim (keep_irredundant s levels fuel qs m.ca m.seen) [
        | none ↦ none
        | some (rest, t) ↦ some (q ∷ rest, t)
      ]
    ]
  ]
]

-- The abstraction of the levels of the clause.
unfoldable pub abstract_levels : Solver → List Lit → ℕ
abstract_levels s [] = 0
abstract_levels s (q ∷ qs) = bit_or (abstract_level s (var q)) (abstract_levels s qs)
