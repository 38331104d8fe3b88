-- ===== src/Solver/Agree.antt =====
-- When the solver's values agree with an assignment of all variables, and that enqueueing a literal
-- that is true in the assignment keeps them so.
use glucose.Prelude.{◌≡◌, refl, ◌≢◌, ◌⊎◌, inl, inr, Bool, true, false, not, some, arith, update}
use glucose.Lit.{Lit, Var, neg, var, sign}
use glucose.Lit.Truth.{Assignment, holds}
use glucose.Lbool.{l_true, l_false, l_undef, of_bool, Lbool-cases}
use glucose.Solver.{
  Solver, ConstraintRef, Reason, by_constraint, value, assign, enqueue, add_num_pending_propagation,
}

-- Each value that is set is that of the assignment.
abbrev pub Agrees : Assignment → Solver → Type 0
Agrees a s = (v : Var) → (s.assigns v ≡ l_undef) ⊎ (s.assigns v ≡ of_bool (a v))

-- The literals that are true stay true.
abbrev pub Keeps : Solver → Solver → Type 0
Keeps s t = (v : Var) (b : Bool) → s.assigns v ≡ of_bool b → t.assigns v ≡ of_bool b

pub value-Agrees :
    (a : Assignment) (s : Solver) (p : Lit)
    → Agrees a s
    → (value s p ≡ l_undef) ⊎ (value s p ≡ of_bool (holds a p))
unfolding holds
value-Agrees a s p h = ground (arith, h (var p))

pub assigns-assign :
    (s : Solver) (p : Lit) (r : Reason)
    → (assign s p r).assigns ≡ update s.assigns (var p) (of_bool (not (sign p)))
unfolding assign add_num_pending_propagation
assigns-assign s p r = refl

pub assign-Agrees :
    (a : Assignment) (s : Solver) (p : Lit) (r : Reason)
    → holds a p ≡ true
    → Agrees a s
    → Agrees a (assign s p r)
unfolding holds
assign-Agrees a s p r t h v = rw (assigns-assign s p r) (ground (arith, h v))

pub assign-Keeps :
    (s : Solver) (p : Lit) (r : Reason) → value s p ≡ l_undef → Keeps s (assign s p r)
assign-Keeps s p r e v b h = rw (assigns-assign s p r) (ground arith)

pub value-assign : (s : Solver) (p : Lit) (r : Reason) → value (assign s p r) p ≡ l_true
value-assign s p r = rw (assigns-assign s p r) (ground arith)

-- What `enqueue` does, by the value of the literal.
pub data Enqueued (s : Solver) (p : Lit) (c : ConstraintRef) (r : Solver × Bool) : Type 0 where
  already : value s p ≡ l_true → r ≡ (s, true) → Enqueued s p c r
  failed :
      value s p ≡ l_false
      → r ≡ (record s { enqueue_failure = some (neg p) }, false)
      → Enqueued s p c r
  assigned : value s p ≡ l_undef → r ≡ (assign s p (by_constraint c), true) → Enqueued s p c r

pub enqueue-Enqueued : (s : Solver) (p : Lit) (c : ConstraintRef) → Enqueued s p c (enqueue s p c)
unfolding enqueue
enqueue-Enqueued s p c = elim (Lbool-cases (value s p)) [
  | inl t ↦ already t (rw (t, enqueue))
  | inr (inl f) ↦ failed f (rw (f, enqueue))
  | inr (inr u) ↦ assigned u (rw (u, enqueue))
]

-- A literal that is true in the assignment is enqueued without failure.
enqueue-Agrees_by :
    (a : Assignment) (s : Solver) (p : Lit) (c : ConstraintRef) (r : Solver × Bool)
    → holds a p ≡ true
    → Agrees a s
    → Enqueued s p c r
    → Agrees a r.0 × (r.1 ≡ true)
enqueue-Agrees_by a s p c r t h (already v e) = rw e (h, refl)
enqueue-Agrees_by a s p c r t h (failed v e) = absurd (ground (arith, value-Agrees a s p h))
enqueue-Agrees_by a s p c r t h (assigned v e) =
    rw e (assign-Agrees a s p (by_constraint c) t h, refl)

pub enqueue-Agrees :
    (a : Assignment) (s : Solver) (p : Lit) (c : ConstraintRef)
    → holds a p ≡ true
    → Agrees a s
    → Agrees a (enqueue s p c).0 × ((enqueue s p c).1 ≡ true)
enqueue-Agrees a s p c t h = enqueue-Agrees_by a s p c _ t h (enqueue-Enqueued s p c)

enqueue-Keeps_by :
    (s : Solver) (p : Lit) (c : ConstraintRef) (r : Solver × Bool) → Enqueued s p c r → Keeps s r.0
enqueue-Keeps_by s p c r (already v e) = rw e (λ w b k. k)
enqueue-Keeps_by s p c r (failed v e) = rw e (λ w b k. k)
enqueue-Keeps_by s p c r (assigned v e) = rw e (assign-Keeps s p (by_constraint c) v)

pub enqueue-Keeps : (s : Solver) (p : Lit) (c : ConstraintRef) → Keeps s (enqueue s p c).0
enqueue-Keeps s p c = enqueue-Keeps_by s p c _ (enqueue-Enqueued s p c)

pub Keeps-trans : (s t u : Solver) → Keeps s t → Keeps t u → Keeps s u
Keeps-trans s t u h k v b e = k v b (h v b e)

pub value-Keeps : (s t : Solver) (p : Lit) → Keeps s t → value s p ≡ l_true → value t p ≡ l_true
value-Keeps s t p h e = ground (arith, h (var p) (not (sign p)))

pub assigned-Keeps :
    (s t : Solver) (p : Lit) → Keeps s t → value s p ≢ l_undef → value t p ≢ l_undef
assigned-Keeps s t p h e = ground (arith, h (var p) true, h (var p) false)

-- An enqueue that succeeds leaves the literal true.
value-enqueue_by :
    (s : Solver) (p : Lit) (c : ConstraintRef) (r : Solver × Bool)
    → Enqueued s p c r
    → r.1 ≡ true
    → value r.0 p ≡ l_true
value-enqueue_by s p c r (already v e) h = rw e v
value-enqueue_by s p c r (failed v e) h = absurd (ground arith)
value-enqueue_by s p c r (assigned v e) h = rw e (value-assign s p (by_constraint c))

pub value-enqueue :
    (s : Solver) (p : Lit) (c : ConstraintRef)
    → (enqueue s p c).1 ≡ true
    → value (enqueue s p c).0 p ≡ l_true
value-enqueue s p c h = value-enqueue_by s p c _ (enqueue-Enqueued s p c) h
