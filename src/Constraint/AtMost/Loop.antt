-- ===== src/Constraint/AtMost/Loop.antt =====
-- The loop that makes the undefined literals false.
use mathlib.Core.Path.{subst}
use glucose.Prelude.{
  sym, ◌≡◌, refl, sym, ap, ◌∙◌, ◌≢◌, inl, inr, Bool, true, false, not, List, [], ◌∷◌, arith,
  if◌then◌else◌, Bool-cases,
}
use glucose.Prelude.Lists.{All}
use glucose.Lit.{Lit, neg}
use glucose.Lit.Laws.{var-neg, sign-neg}
use glucose.Lit.Truth.{Assignment, holds, holds-neg}
use glucose.Lbool.{l_true, l_undef, eq}
use glucose.Solver.{Solver, ConstraintRef, value, enqueue}
use glucose.Solver.Agree.{
  Agrees, Keeps, Keeps-trans, enqueue-Agrees, enqueue-Keeps, value-enqueue, assigned-Keeps,
}
use glucose.Constraint.AtMost.{enqueue_undef}

-- One round of the loop.
abbrev round : Solver → ConstraintRef → Lit → Solver × Bool
round s self l = if eq (value s l) l_undef then enqueue s (neg l) self else (s, true)

round-Keeps : (s : Solver) (self : ConstraintRef) (l : Lit) → Keeps s (round s self l).0
round-Keeps s self l = elim (Bool-cases (eq (value s l) l_undef)) [
  | inl u ↦ rw u (enqueue-Keeps s (neg l) self)
  | inr d ↦ rw d (λ v b e. e)
]

-- After a round that succeeds the literal has a value.
round-decides :
    (s : Solver) (self : ConstraintRef) (l : Lit)
    → (round s self l).1 ≡ true
    → value (round s self l).0 l ≢ l_undef
round-decides s self l = elim (Bool-cases (eq (value s l) l_undef)) [
  | inl u ↦
      rw u (λ done e. undef_neg (enqueue s (neg l) self).0 l e (value-enqueue s (neg l) self done))
  | inr d ↦ rw d (λ done e. absurd (ground arith))
]
  where
    undef_neg : (t : Solver) (l : Lit) → value t l ≡ l_undef → value t (neg l) ≡ l_true → ⊥
    undef_neg t l e k = ground (arith, var-neg l, sign-neg l)

round-Agrees :
    (a : Assignment) (s : Solver) (self : ConstraintRef) (l : Lit)
    → Agrees a s
    → (value s l ≡ l_undef → holds a l ≡ false)
    → Agrees a (round s self l).0 × ((round s self l).1 ≡ true)
round-Agrees a s self l h k = elim (Bool-cases (eq (value s l) l_undef)) [
  | inl u ↦ rw u (enqueue-Agrees a s (neg l) self (holds-neg a l ∙ ap not (k (ground arith))) h)
  | inr d ↦ rw d (h, refl)
]

-- All undefined literals of the list are false in the assignment.
abbrev pub OpenFalse : Assignment → Solver → List Lit → Type 0
OpenFalse a s ls = All (λ l. value s l ≡ l_undef → holds a l ≡ false) ls

OpenFalse-Keeps :
    (a : Assignment) (s t : Solver) (ls : List Lit)
    → Keeps s t
    → OpenFalse a s ls
    → OpenFalse a t ls
OpenFalse-Keeps a s t [] h k = tt
OpenFalse-Keeps a s t (l ∷ ls) h k =
    (λ e. ground (arith, k.0, assigned-Keeps s t l h), OpenFalse-Keeps a s t ls h k.1)

pub enqueue_undef-Agrees :
    (a : Assignment) (s : Solver) (self : ConstraintRef) (ls : List Lit)
    → Agrees a s
    → OpenFalse a s ls
    → Agrees a (enqueue_undef s self ls).0 × ((enqueue_undef s self ls).1 ≡ true)
unfolding enqueue_undef
enqueue_undef-Agrees a s self [] h k = (h, refl)
enqueue_undef-Agrees a s self (l ∷ ls) h k =
    let (agrees, done) = round-Agrees a s self l h k.0 in
    let t = (round s self l).0 in
    rw done (
      enqueue_undef-Agrees a t self ls agrees (OpenFalse-Keeps a s t ls (round-Keeps s self l) k.1))

pub enqueue_undef-Keeps :
    (s : Solver) (self : ConstraintRef) (ls : List Lit) → Keeps s (enqueue_undef s self ls).0
unfolding enqueue_undef
enqueue_undef-Keeps s self [] = λ v b e. e
enqueue_undef-Keeps s self (l ∷ ls) =
    let t = (round s self l).0 in
    elim (Bool-cases (round s self l).1) [
      | inl done ↦ rw done (
          Keeps-trans s t (enqueue_undef t self ls).0 (round-Keeps s self l)
            (enqueue_undef-Keeps t self ls))
      | inr failed ↦ rw failed (round-Keeps s self l)
    ]

-- If the loop succeeds every literal has a value.
pub enqueue_undef-decides :
    (s : Solver) (self : ConstraintRef) (ls : List Lit)
    → (enqueue_undef s self ls).1 ≡ true
    → All (λ l. value (enqueue_undef s self ls).0 l ≢ l_undef) ls
unfolding enqueue_undef
enqueue_undef-decides s self [] = λ h. tt
enqueue_undef-decides s self (l ∷ ls) =
    let t = (round s self l).0 in
    elim (Bool-cases (round s self l).1) [
      | inl done ↦
          let step : enqueue_undef s self (l ∷ ls) ≡ enqueue_undef t self ls = rw done refl in
          subst (λ r. r.1 ≡ true → All (λ k. value r.0 k ≢ l_undef) (l ∷ ls)) (sym step)
            (λ h. (
              assigned-Keeps t (enqueue_undef t self ls).0 l (enqueue_undef-Keeps t self ls)
                  (round-decides s self l done),
              enqueue_undef-decides t self ls h,
            ))
      | inr failed ↦ rw failed (λ h. cc)
    ]
