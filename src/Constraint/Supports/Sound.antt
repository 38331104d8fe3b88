-- ===== src/Constraint/Supports/Sound.antt =====
-- Propagation keeps every model of the constraint.
use glucose.Prelude.{
  ℕ, zero, suc, ◌<◌, ◌≡◌, refl, sym, subst, ◌∙◌, inl, inr, Bool, true, false, none, some, List, [],
  ◌∷◌, arith, ◌==◌, eq_of_==, Bool-cases,
}
use glucose.Prelude.Lists.{length, get_or, All}
use glucose.Lit.{Lit, neg, var}
use glucose.Lit.Truth.{Assignment, holds, holds-neg}
use glucose.Lbool.{l_true}
use glucose.Solver.{Solver, ConstraintRef, value, register_undo, enqueue}
use glucose.Solver.Agree.{Agrees, Keeps, Keeps-trans, enqueue-Agrees, enqueue-Keeps}
use glucose.Constraint.Linear.{Entry, from_lit}
use glucose.Constraint.Linear.Undo.{from_lit-All}
use glucose.Constraint.Supports.{
  Supports, Tuple, learn, learn_all, start, react, propagate, occurrences, empty_table, prune_var,
  prune, unknown,
}
use glucose.Constraint.Supports.Table.{
  Takes, AllTake, Covers, Covers-matches, Marked, occurrences-Marked, empty_table-Sized,
}
use glucose.Constraint.Supports.Known.{
  Known, IsEntry, Meets, value-holds, Known-Covers, Known-set, Known-Keeps, known_right,
}

prune_var-Agrees :
    (a : Assignment) (s : Solver) (self : ConstraintRef) (ls : List Lit) (row : List Bool)
    → ((j : ℕ) → j < length ls → get_or row j true ≡ false → holds a (get_or ls j 0) ≡ false)
    → Agrees a s
    → let (t, done) = prune_var s self ls row in (done ≡ true) × Agrees a t × Keeps s t
unfolding prune_var
prune_var-Agrees a s self [] row h agrees = (refl, agrees, λ v x e. e)
prune_var-Agrees a s self (l ∷ ls) [] h agrees = (refl, agrees, λ v x e. e)
prune_var-Agrees a s self (l ∷ ls) (true ∷ row) h agrees =
    prune_var-Agrees a s self ls row (λ j lt e. h (suc j) (omega arith) e) agrees
prune_var-Agrees a s self (l ∷ ls) (false ∷ row) h agrees =
    let no_l : holds a (neg l) ≡ true = ground (arith, holds-neg a l, h 0 (omega arith) refl) in
    let (ok, done) = enqueue-Agrees a s (neg l) self no_l agrees in
    let t = (enqueue s (neg l) self).0 in
    let next = prune_var-Agrees a t self ls row (λ j lt e. h (suc j) (omega arith) e) ok in
    rw (prune_var, done)
      (
        next.0,
        next.1,
        Keeps-trans s t (prune_var t self ls row).0 (enqueue-Keeps s (neg l) self) next.2,
      )

seen_default : (row : List Bool) (k : ℕ) → get_or row k false ≡ true → get_or row k true ≡ true
seen_default [] k h = refl
seen_default (b ∷ row) zero h = h
seen_default (b ∷ row) (suc k) h = seen_default row k h

-- A value whose column is not marked is not the one that the variable has.
unmarked_false :
    (a : Assignment) (ls : List Lit) (row : List Bool) (k j : ℕ)
    → Takes a ls k
    → get_or row k false ≡ true
    → j < length ls
    → get_or row j true ≡ false
    → holds a (get_or ls j 0) ≡ false
unmarked_false a ls row k j t marked lt e = elim (Bool-cases (j == k)) [
  | inr other ↦ t.only j lt ∙ other
  | inl same ↦
      let seen =
        subst (λ k. get_or row k true ≡ true) (sym (eq_of_== j k same))
          (seen_default row k marked) in
      absurd (ground arith)
]

prune-Agrees :
    (a : Assignment) (s : Solver) (self : ConstraintRef) (vars : List (List Lit))
    (table : List (List Bool)) (xs : Tuple) (ks : List ℕ)
    → AllTake a vars ks
    → Covers xs ks
    → Marked xs table
    → Agrees a s
    → let (t, done) = prune s self vars table in (done ≡ true) × Agrees a t × Keeps s t
unfolding prune
prune-Agrees a s self [] table xs ks t c m agrees = (refl, agrees, λ v x e. e)
prune-Agrees a s self (ls ∷ vars) [] xs ks t c m agrees = (refl, agrees, λ v x e. e)
prune-Agrees a s self (ls ∷ vars) (row ∷ table) xs [] t c m agrees = absurd t
prune-Agrees a s self (ls ∷ vars) (row ∷ table) [] (k ∷ ks) t c m agrees = absurd c
prune-Agrees a s self (ls ∷ vars) ([] ∷ table) (x ∷ xs) (k ∷ ks) t c m agrees =
    absurd (ground (arith, m.0))
prune-Agrees a s self (ls ∷ vars) ((true ∷ row) ∷ table) (none ∷ xs) (k ∷ ks) t c m agrees =
    prune-Agrees a s self vars table xs ks t.1 c m.1 agrees
prune-Agrees a s self (ls ∷ vars) ((true ∷ row) ∷ table) (some x ∷ xs) (k ∷ ks) t c m agrees =
    prune-Agrees a s self vars table xs ks t.1 c.1 m.1 agrees
prune-Agrees a s self (ls ∷ vars) ((false ∷ row) ∷ table) (none ∷ xs) (k ∷ ks) t c m agrees =
    absurd (ground (arith, m.0))
prune-Agrees a s self (ls ∷ vars) ((false ∷ row) ∷ table) (some x ∷ xs) (k ∷ ks) t c m agrees =
    let marked = subst (λ x. get_or row x false ≡ true) c.0 m.0 in
    let one =
      prune_var-Agrees a s self ls row (λ j lt e. unmarked_false a ls row k j t.0 marked lt e)
        agrees in
    let s' = (prune_var s self ls row).0 in
    let next = prune-Agrees a s' self vars table xs ks t.1 c.1 m.1 one.1 in
    rw (prune, one.0) (next.0, next.1, Keeps-trans s s' (prune s' self vars table).0 one.2 next.2)

react-Agrees :
    (a : Assignment) (s : Solver) (self : ConstraintRef) (c : Supports)
    → Known s c.vars c.known_values
    → Agrees a s
    → Meets a c
    → let (t, done) = react s self c in (done ≡ true) × Agrees a t × Keeps s t
unfolding react
react-Agrees a s self c k agrees m =
    let fits =
      Covers-matches m.row c.known_values m.values m.covered
        (Known-Covers a s c.vars c.known_values m.values agrees m.taken k) in
    let sized = empty_table-Sized a c.vars m.row m.values m.taken m.covered in
    let found =
      occurrences-Marked c.known_values m.row c.supports (empty_table c.vars) 0 m.listed fits
        sized in
    let table = (occurrences c.known_values c.supports (empty_table c.vars) 0).0 in
    let some_match : ((occurrences c.known_values c.supports (empty_table c.vars) 0).1 == 0)
        ≡ false =
      ground (arith, found.1) in
    rw some_match
      (prune-Agrees a s self c.vars table m.row m.values m.taken m.covered found.0 agrees)

-- What the first loop keeps, and that it runs to its end.
record Learned (s : Solver) (c : Supports) (r : Supports × Bool) : Type 0 where
  pub done : r.1 ≡ true
  pub known : Known s r.0.vars r.0.known_values
  pub same_vars : r.0.vars ≡ c.vars
  pub same_supports : r.0.supports ≡ c.supports

learn_all-Learned :
    (a : Assignment) (s : Solver) (p : Lit) (es : List Entry) (c : Supports) (ks : List ℕ)
    → value s p ≡ l_true
    → All (IsEntry c.vars) es
    → Agrees a s
    → AllTake a c.vars ks
    → Known s c.vars c.known_values
    → Learned s c (learn_all p es c)
unfolding learn_all learn
learn_all-Learned a s p [] c ks e is agrees t k = record {
  done = refl;
  known = k;
  same_vars = refl;
  same_supports = refl;
}
learn_all-Learned a s p ((l, i, j) ∷ es) c ks e is agrees t k = elim (Bool-cases (l == p)) [
  | inr other ↦
      rw (learn_all, other)
        (record { done = refl; known = k; same_vars = refl; same_supports = refl })
  | inl same ↦
      let is_p = subst (λ l. IsEntry c.vars (l, i, j)) (eq_of_== l p same) is.0 in
      elim (Bool-cases (unknown (get_or c.known_values i none))) [
        | inl new ↦
            let next =
              learn_all-Learned a s p es (learn c i j) ks e is.1 agrees t
                (Known-set s p c.vars c.known_values i j e is_p k) in
            rw (learn_all, same, new)
              (record {
                done = next.done;
                known = next.known;
                same_vars = next.same_vars;
                same_supports = next.same_supports;
              })
        | inr old ↦
            let covers = Known-Covers a s c.vars c.known_values ks agrees t k in
            let right =
              known_right a p c.vars c.known_values ks i j t covers is_p
                (value-holds a s p agrees e) old in
            rw (learn_all, same, old, right) (learn_all-Learned a s p es c ks e is.1 agrees t k)
      ]
]

-- Let the known values of the constraint be those of true literals, its entries name its literals,
-- and let `p` be true. If an assignment gives each variable one value so that a tuple of the table has
-- these values, and agrees with the solver's values, then `propagate` reports no conflict, sets no
-- value against the assignment, and the known values are again those of true literals.
pub supports_propagate-Agrees :
    (a : Assignment) (s : Solver) (self : ConstraintRef) (c : Supports) (p : Lit)
    → All (IsEntry c.vars) c.lits
    → Known s c.vars c.known_values
    → value s p ≡ l_true
    → Agrees a s
    → Meets a c
    → let (t, d, done) = propagate s self c p in
      (done ≡ true) × Agrees a t × Known t d.vars d.known_values
unfolding propagate register_undo start
supports_propagate-Agrees a s self c p is k e agrees m =
    let s' = register_undo s (var p) self in
    let n =
      learn_all-Learned a s' p (from_lit p c.lits) (start c p) m.values e
        (from_lit-All (IsEntry c.vars) p c.lits is) agrees m.taken k in
    let d = (learn_all p (from_lit p c.lits) (start c p)).0 in
    let meets : Meets a d = record {
      values = m.values;
      taken = rw n.same_vars m.taken;
      row = m.row;
      listed = rw n.same_supports m.listed;
      covered = m.covered;
    } in
    let next = react-Agrees a s' self d n.known agrees meets in
    rw n.done
      (next.0, next.1, Known-Keeps s' (react s' self d).0 d.vars d.known_values next.2 n.known)
