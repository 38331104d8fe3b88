-- ===== src/Constraint/Linear/Undo.antt =====
-- `undo` takes back what `propagate` did to the constraint.
use glucose.Prelude.{
  ℕ, zero, suc, ◌<◌, ◌≡◌, refl, sym, ap, subst, ◌∙◌, inl, inr, List, [], ◌∷◌, arith, ltb, ◌==◌,
  Bool-cases,
}
use glucose.Prelude.Lists.{length, get_or, set, length-set, All}
use glucose.Prelude.Int.{ℤ, pos, ◌+ℤ◌, ◌-ℤ◌, ltb_ℤ, int_laws}
use glucose.Lit.{Lit, neg}
use glucose.Solver.{Solver, ConstraintRef}
use glucose.Constraint.Linear.{
  Linear, Entry, domain_at, tighten, narrow, from_lit, start, propagate, unwind, undo, pop,
}

set_back : (xs : List ℕ) (i j : ℕ) → set (set xs i j) i (get_or xs i 0) ≡ xs
set_back [] i j = refl
set_back (x ∷ xs) zero j = refl
set_back (x ∷ xs) (suc i) j = ap (◌∷◌ x) (set_back xs i j)

-- Where the place is out of range, nothing has been written.
get_or-set : (xs : List ℕ) (i j : ℕ) → i < length xs → get_or (set xs i j) i 0 ≡ j
get_or-set [] i j h = absurd (omega arith)
get_or-set (x ∷ xs) zero j h = refl
get_or-set (x ∷ xs) (suc i) j h = get_or-set xs i j (omega arith)

add_back : (t d : ℤ) → t -ℤ d +ℤ d ≡ t
add_back t d = grind int_laws

abbrev pub InRange : ℕ → Entry → Type 0
InRange n e = e.1 < n

restored :
    (c : Linear) (t : ℤ) (ub : List ℕ)
    → t ≡ c.total_ub
    → ub ≡ c.ub_index
    → record c { total_ub = t; ub_index = ub } ≡ c
restored c t ub e f = rw (e, f) refl

unwind-tighten :
    (c : Linear) (i j : ℕ)
    → i < length c.ub_index
    → unwind (tighten c i j).undo_list (tighten c i j) ≡ unwind c.undo_list c
unfolding tighten unwind
unwind-tighten c i j h =
    let ub = get_or c.ub_index i 0 in
    let bound : get_or (set c.ub_index i j) i 0 ≡ j = get_or-set c.ub_index i j h in
    ap (unwind c.undo_list) (
      restored c _ _
        (rw bound (add_back c.total_ub (domain_at c.terms i ub -ℤ domain_at c.terms i j)))
        (set_back c.ub_index i j))

length-tighten : (c : Linear) (i j : ℕ) → length (tighten c i j).ub_index ≡ length c.ub_index
unfolding tighten
length-tighten c i j = length-set c.ub_index i j

unwind-narrow :
    (q : Lit) (es : List Entry) (c : Linear)
    → All (InRange (length c.ub_index)) es
    → unwind (narrow q es c).0.undo_list (narrow q es c).0 ≡ unwind c.undo_list c
unfolding narrow
unwind-narrow q [] c h = refl
unwind-narrow q ((l, i, j) ∷ es) c h = elim (Bool-cases (l == q)) [
  | inr other ↦ rw (narrow, other) refl
  | inl same ↦ elim (Bool-cases (ltb j (get_or c.ub_index i 0))) [
    | inr high ↦ rw (narrow, same, high) (unwind-narrow q es c h.1)
    | inl lower ↦
        let step = unwind-tighten c i j h.0 in
        elim (Bool-cases (ltb_ℤ (tighten c i j).total_ub (pos 0))) [
          | inl fails ↦ rw (narrow, same, lower, fails) step
          | inr goes_on ↦
              rw (narrow, same, lower, goes_on)
                (unwind-narrow q es (tighten c i j)
                    (subst (λ n. All (InRange n) es) (sym (length-tighten c i j)) h.1)
                  ∙ step)
        ]
  ]
]

pub from_lit-All :
    (P : Entry → Type 0) (q : Lit) (es : List Entry) → All P es → All P (from_lit q es)
unfolding from_lit
from_lit-All P q [] h = tt
from_lit-All P q ((l, i, j) ∷ es) h = elim (Bool-cases (ltb l q)) [
  | inl below ↦ rw below (from_lit-All P q es h.1)
  | inr here ↦ rw here h
]

-- The state that `propagate` leaves is that of its first loop.
unfoldable pub narrowed : Linear → Lit → Linear
narrowed c p = (narrow (neg p) (from_lit (neg p) c.lits) (start c p)).0

pub propagate_state :
    (s : Solver) (self : ConstraintRef) (c : Linear) (p : Lit)
    → (propagate s self c p).1 ≡ narrowed c p
unfolding propagate narrowed
propagate_state s self c p =
    elim (Bool-cases (narrow (neg p) (from_lit (neg p) c.lits) (start c p)).1) [
      | inl ok ↦ rw ok refl
      | inr stopped ↦ rw stopped refl
    ]

undo-narrowed :
    (c : Linear) (p : Lit) → All (InRange (length c.ub_index)) c.lits → undo (narrowed c p) ≡ c
unfolding undo narrowed start
undo-narrowed c p h =
    ap {A = Linear} (λ e. record e { active_lits = pop e.active_lits })
      (unwind-narrow (neg p) (from_lit (neg p) c.lits) (start c p)
        (from_lit-All _ (neg p) c.lits h))

-- The literals of the constraint naming terms that there are, `undo` after `propagate`, whether this
-- returned true or false, brings back the state of the constraint.
pub linear_undo-propagate :
    (s : Solver) (self : ConstraintRef) (c : Linear) (p : Lit)
    → All (InRange (length c.ub_index)) c.lits
    → undo (propagate s self c p).1 ≡ c
linear_undo-propagate s self c p h = ap undo (propagate_state s self c p) ∙ undo-narrowed c p h
