-- ===== src/Constraint/Linear/Sound.antt =====
-- Propagation keeps every model of the constraint.
use glucose.Prelude.{
  ℕ, ◌≡◌, refl, ap, subst, inl, inr, Bool, true, List, [], ◌∷◌, arith, ltb, ◌==◌, eq_of_==,
  Bool-cases,
}
use glucose.Prelude.Lists.{get_or, All}
use glucose.Prelude.Int.{pos_part, neg_part, ℤ, ◌+ℤ◌, ◌≤ℤ◌, +ℤ_parts}
use glucose.Lit.Laws.{neg-neg}
use glucose.Lit.{Lit, neg, var}
use glucose.Lit.Truth.{Assignment}
use glucose.Lbool.{l_true}
use glucose.Solver.{Solver, ConstraintRef, value, register_undo, enqueue}
use glucose.Solver.Agree.{Agrees, Keeps, Keeps-trans, enqueue-Agrees, enqueue-Keeps}
use glucose.Constraint.Linear.{
  LinearTerm, Linear, Entry, tighten, narrow, from_lit, start, force, slack, forced_lit, propagate,
}
use glucose.Constraint.Linear.Bounds.{
  IsTerm, sum_at, sum_of, Bounded, Room, sums-Room, forced_lit-holds,
}
use glucose.Constraint.Linear.Undo.{from_lit-All}
use glucose.Constraint.Linear.State.{
  Tracks, IsEntry, Meets, Closed-Bounded, Closed-Keeps, tighten-Tracks, total_fine,
}

-- What the first loop keeps, and that it runs to its end.
record Narrowed (a : Assignment) (s : Solver) (c : Linear) (r : Linear × Bool) : Type 0 where
  pub done : r.1 ≡ true
  pub tracks : Tracks s r.0
  pub same_terms : r.0.terms ≡ c.terms
  pub same_constant : r.0.constant ≡ c.constant

narrow-Narrowed :
    (a : Assignment) (s : Solver) (q : Lit) (es : List Entry) (c : Linear)
    → value s (neg q) ≡ l_true
    → All IsTerm c.terms
    → All (IsEntry c.terms) es
    → Agrees a s
    → Meets a c
    → Tracks s c
    → Narrowed a s c (narrow q es c)
unfolding narrow tighten
narrow-Narrowed a s q [] c e h is agrees meets k = record {
  done = refl;
  tracks = k;
  same_terms = refl;
  same_constant = refl;
}
narrow-Narrowed a s q ((l, i, j) ∷ es) c e h is agrees meets k = elim (Bool-cases (l == q)) [
  | inr other ↦
      rw (narrow, other)
        (record { done = refl; tracks = k; same_terms = refl; same_constant = refl })
  | inl same ↦
      let is_q : IsEntry c.terms (q, i, j) =
        subst (λ l. IsEntry c.terms (l, i, j)) (eq_of_== l q same) is.0 in
      elim (Bool-cases (ltb j (get_or c.ub_index i 0))) [
        | inr high ↦ rw (narrow, same, high) (narrow-Narrowed a s q es c e h is.1 agrees meets k)
        | inl lower ↦
            let step = tighten-Tracks s c q i j e is_q k in
            let fine = total_fine a s (tighten c i j) h agrees meets step in
            let next = narrow-Narrowed a s q es (tighten c i j) e h is.1 agrees meets step in
            rw (narrow, same, lower, fine)
              (record {
                done = next.done;
                tracks = next.tracks;
                same_terms = next.same_terms;
                same_constant = next.same_constant;
              })
      ]
]

force-Agrees :
    (a : Assignment) (s : Solver) (self : ConstraintRef) (total : ℤ) (ts : List LinearTerm)
    (us : List ℕ)
    → All IsTerm ts
    → Bounded a ts us
    → Room a total ts us
    → Agrees a s
    → let (t, done) = force s self total ts us in (done ≡ true) × Agrees a t × Keeps s t
unfolding force
force-Agrees a s self total [] us h b r agrees = (refl, agrees, λ v x e. e)
force-Agrees a s self total (t ∷ ts) [] h b r agrees = absurd b
force-Agrees a s self total (t ∷ ts) (u ∷ us) h b r agrees = elim (Bool-cases (slack total t u)) [
  | inl easy ↦ rw (force, easy) (force-Agrees a s self total ts us h.1 b.2 r.1 agrees)
  | inr tight ↦
      let p = forced_lit total t u in
      let yes_p = forced_lit-holds a total t u h.0 b.0 b.1 r.0 tight in
      let (ok, done) = enqueue-Agrees a s p self yes_p agrees in
      let next = force-Agrees a (enqueue s p self).0 self total ts us h.1 b.2 r.1 ok in
      rw (force, tight, done)
        (
          next.0,
          next.1,
          Keeps-trans s (enqueue s p self).0 (force (enqueue s p self).0 self total ts us).0
              (enqueue-Keeps s p self) next.2,
        )
]

-- A constraint whose parts fit: its terms, and the entries of its literals.
pub record IsLinear (c : Linear) : Type 0 where
  pub are_terms : All IsTerm c.terms
  pub are_entries : All (IsEntry c.terms) c.lits

-- The second loop, where the bounds are right.
force-Tracks :
    (a : Assignment) (s : Solver) (self : ConstraintRef) (c : Linear)
    → All IsTerm c.terms
    → Agrees a s
    → Meets a c
    → Tracks s c
    → let (t, done) = force s self c.total_ub c.terms c.ub_index in
      (done ≡ true) × Agrees a t × Tracks t c
force-Tracks a s self c h agrees meets k =
    let b = Closed-Bounded a s c.terms c.ub_index agrees k.closed in
    let upper = +ℤ_parts c.constant (sum_at c.terms c.ub_index) in
    let sum = +ℤ_parts c.constant (sum_of a c.terms) in
    let both = +ℤ_parts (sum_of a c.terms) c.total_ub in
    let fits : sum_at c.terms c.ub_index ≤ℤ sum_of a c.terms +ℤ c.total_ub =
      omega (arith, ap pos_part k.total, ap neg_part k.total) in
    let room = sums-Room a c.total_ub c.terms c.ub_index h b fits in
    let (done, ok, keeps) = force-Agrees a s self c.total_ub c.terms c.ub_index h b room agrees in
    (
      done,
      ok,
      record {
        closed =
            Closed-Keeps s (force s self c.total_ub c.terms c.ub_index).0 c.terms c.ub_index keeps
              k.closed;
        total = k.total;
      },
    )

Narrowed-start :
    (a : Assignment) (s : Solver) (c : Linear) (p : Lit)
    → IsLinear c
    → Tracks s c
    → value s p ≡ l_true
    → Agrees a s
    → Meets a c
    → Narrowed a s c (narrow (neg p) (from_lit (neg p) c.lits) (start c p))
unfolding start
Narrowed-start a s c p is k e agrees meets =
    let r =
      narrow-Narrowed a s (neg p) (from_lit (neg p) c.lits) (start c p) (rw (neg-neg p) e)
        is.are_terms (from_lit-All (IsEntry c.terms) (neg p) c.lits is.are_entries) agrees meets
        (record { closed = k.closed; total = k.total }) in
    record {
      done = r.done;
      tracks = r.tracks;
      same_terms = r.same_terms;
      same_constant = r.same_constant;
    }

-- Let the upper bounds of the constraint and their sum be right, and let `p` be true. If an
-- assignment meets the constraint and agrees with the solver's values, `propagate` reports no
-- conflict, sets no value against the assignment, and the bounds are right again.
pub linear_propagate-Agrees :
    (a : Assignment) (s : Solver) (self : ConstraintRef) (c : Linear) (p : Lit)
    → IsLinear c
    → Tracks s c
    → value s p ≡ l_true
    → Agrees a s
    → Meets a c
    → let (t, d, done) = propagate s self c p in (done ≡ true) × Agrees a t × Tracks t d
unfolding propagate register_undo
linear_propagate-Agrees a s self c p is k e agrees meets =
    let s' = register_undo s (var p) self in
    let n =
      Narrowed-start a s' c p is (record { closed = k.closed; total = k.total }) e agrees meets in
    let d = (narrow (neg p) (from_lit (neg p) c.lits) (start c p)).0 in
    rw n.done (
      force-Tracks a s' self d (rw n.same_terms is.are_terms) agrees
        (rw (n.same_terms, n.same_constant) meets) n.tracks)
