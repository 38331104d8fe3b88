-- ===== src/Constraint/Linear/Laws.antt =====
-- The linear constraint as one that `propagate` of core/Solver.cc can ask.
use glucose.Prelude.{
  ℕ, zero, suc, ◌<◌, ◌≡◌, refl, inl, inr, true, List, [], ◌∷◌, arith, ltb, ◌==◌, Bool-cases,
}
use glucose.Prelude.Lists.{All, get_or}
use glucose.Prelude.Int.{ℤ, ltb_ℤ, pos}
use glucose.Lit.{Lit, neg, var}
use glucose.Lbool.{l_true}
use glucose.Lit.Truth.{Assignment}
use glucose.Solver.{Solver, ConstraintRef, value, enqueue, register_undo}
use glucose.Solver.Agree.{Keeps, Agrees}
use glucose.Constraint.Linear.{
  LinearTerm, Linear, Entry, narrow, from_lit, start, tighten, force, forced_lit, slack, propagate,
}
use glucose.Constraint.Linear.State.{Tracks, Meets, Closed-Keeps}
use glucose.Constraint.Linear.Sound.{IsLinear, linear_propagate-Agrees}
use glucose.Search.Fine.{Fine}
use glucose.Search.Frame.{Frame, Frame-refl, Frame-trans, enqueue-Frame}
use glucose.Search.Laws.{ConstraintLaws}
use glucose.Search.Halts.{FrameLaws}

-- The literals of the terms are of the first `n` variables.
abbrev pub SmallTerms : ℕ → List LinearTerm → Type 0
SmallTerms n ts = All (λ t. All (λ l. var l < n) t.lits) ts

get_or-Small :
    (n : ℕ) (xs : List Lit) (i : ℕ) → 0 < n → All (λ l. var l < n) xs → var (get_or xs i 0) < n
unfolding var
get_or-Small n [] i lt h = omega arith
get_or-Small n (x ∷ xs) zero lt h = h.0
get_or-Small n (x ∷ xs) (suc i) lt h = get_or-Small n xs i lt h.1

force-Frame :
    (n : ℕ) (s : Solver) (self : ConstraintRef) (total : ℤ) (ts : List LinearTerm) (us : List ℕ)
    → 0 < n
    → SmallTerms n ts
    → Frame n s (force s self total ts us).0
unfolding force forced_lit
force-Frame n s self total [] us lt h = Frame-refl n s
force-Frame n s self total (t ∷ ts) [] lt h = Frame-refl n s
force-Frame n s self total (t ∷ ts) (u ∷ us) lt h = elim (Bool-cases (slack total t u)) [
  | inl easy ↦ rw (force, easy) (force-Frame n s self total ts us lt h.1)
  | inr tight ↦
      let p = forced_lit total t u in
      let first = enqueue-Frame n s p self (get_or-Small n t.lits _ lt h.0) in
      elim (Bool-cases (enqueue s p self).1) [
        | inl done ↦
            let rest = force-Frame n (enqueue s p self).0 self total ts us lt h.1 in
            rw (force, tight, done) (Frame-trans n s (enqueue s p self).0 _ first rest)
        | inr failed ↦ rw (force, tight, failed) first
      ]
]

-- What the first loop leaves as it is.
record Fixed (c d : Linear) : Type 0 where
  pub terms : d.terms ≡ c.terms
  pub lits : d.lits ≡ c.lits
  pub constant : d.constant ≡ c.constant

narrow-Fixed : (q : Lit) (es : List Entry) (c : Linear) → Fixed c (narrow q es c).0
unfolding narrow tighten
narrow-Fixed q [] c = record { terms = refl; lits = refl; constant = refl }
narrow-Fixed q ((l, i, j) ∷ es) c = elim (Bool-cases (l == q)) [
  | inr other ↦ rw (narrow, other) (record { terms = refl; lits = refl; constant = refl })
  | inl same ↦ elim (Bool-cases (ltb j (get_or c.ub_index i 0))) [
    | inr high ↦ rw (narrow, same, high) (narrow-Fixed q es c)
    | inl lower ↦
        let d = tighten c i j in
        elim (Bool-cases (ltb_ℤ d.total_ub (pos 0))) [
          | inl over ↦
              rw (narrow, same, lower, over) (record { terms = refl; lits = refl; constant = refl })
          | inr within ↦
              let f = narrow-Fixed q es d in
              rw (narrow, same, lower, within)
                (record { terms = f.terms; lits = f.lits; constant = f.constant })
        ]
  ]
]

propagate-Fixed :
    (s : Solver) (self : ConstraintRef) (c : Linear) (p : Lit) → Fixed c (propagate s self c p).1
unfolding propagate start
propagate-Fixed s self c p =
    let r = narrow (neg p) (from_lit (neg p) c.lits) (start c p) in
    let f = narrow-Fixed (neg p) (from_lit (neg p) c.lits) (start c p) in
    elim (Bool-cases r.1) [
      | inl ok ↦
          rw (propagate, ok) (record { terms = f.terms; lits = f.lits; constant = f.constant })
      | inr failed ↦
          rw (propagate, failed) (record { terms = f.terms; lits = f.lits; constant = f.constant })
    ]

register_undo-Frame :
    (n : ℕ) (s : Solver) (v : ℕ) (self : ConstraintRef) → Frame n s (register_undo s v self)
unfolding register_undo
register_undo-Frame n s v self = record {
  keeps = λ v b h. h;
  on_trail = λ h. h;
  room = λ h. h;
  small = λ h. h;
  same_qhead = refl;
}

propagate-Frame :
    (n : ℕ) (s : Solver) (self : ConstraintRef) (c : Linear) (p : Lit)
    → 0 < n
    → SmallTerms n c.terms
    → Frame n s (propagate s self c p).0
unfolding propagate start
propagate-Frame n s self c p lt h =
    let r = narrow (neg p) (from_lit (neg p) c.lits) (start c p) in
    let f = narrow-Fixed (neg p) (from_lit (neg p) c.lits) (start c p) in
    let first = register_undo-Frame n s (var p) self in
    let s' = register_undo s (var p) self in
    elim (Bool-cases r.1) [
      | inl ok ↦
          rw (propagate, ok)
            (Frame-trans n s s' _ first
              (force-Frame n s' self r.0.total_ub r.0.terms r.0.ub_index lt (rw f.terms h)))
      | inr failed ↦ rw (propagate, failed) first
    ]

-- The constraint leaves the head of the queue, and room on the trail.
pub linear_frame_laws : (n : ℕ) → 0 < n → FrameLaws n (λ c s (x : Linear) p. propagate s c x p)
linear_frame_laws n lt = record {
  Inside = λ x. SmallTerms n x.terms;
  inside_after = λ c s x p h. rw (propagate-Fixed s c x p).terms h;
  fits = λ c s x p h f. let g = propagate-Frame n s c x p lt h in (g.room f.0, g.small f.1);
  same_qhead = λ c s x p h. (propagate-Frame n s c x p lt h).same_qhead;
}

-- What a linear constraint's state is to the solver's values, for an assignment that meets it.
pub record Sound (a : Assignment) (n : ℕ) (s : Solver) (c : Linear) : Type 0 where
  pub is_linear : IsLinear c
  pub tracks : Tracks s c
  pub meets : Meets a c
  pub small : SmallTerms n c.terms

module _ (a : Assignment) (n : ℕ) (lt : 0 < n) (self : ConstraintRef) (s : Solver) (c : Linear)
    (p : Lit) (e : value s p ≡ l_true) (f : Fine a n s) (h : Sound a n s c) where
  propagate-Agrees :
      let (t, d, done) = propagate s self c p in (done ≡ true) × Agrees a t × Tracks t d
  propagate-Agrees = linear_propagate-Agrees a s self c p h.is_linear h.tracks e f.agrees h.meets

  propagate-Fine : Fine a n (propagate s self c p).0
  propagate-Fine =
      let g = propagate-Frame n s self c p lt h.small in
      record { agrees = propagate-Agrees.1; on_trail = g.on_trail f.on_trail; room = g.room f.room }

  propagate-Sound : Sound a n (propagate s self c p).0 (propagate s self c p).1
  propagate-Sound =
      let g = propagate-Fixed s self c p in
      record {
        is_linear = record {
          are_terms = rw g.terms h.is_linear.are_terms;
          are_entries = rw (g.terms, g.lits) h.is_linear.are_entries;
        };
        tracks = propagate-Agrees.2;
        meets = rw (g.terms, g.constant) h.meets;
        small = rw g.terms h.small;
      }

Sound-Keeps :
    (a : Assignment) (n : ℕ) (s t : Solver) (c : Linear) → Keeps s t → Sound a n s c → Sound a n t c
Sound-Keeps a n s t c k h = record {
  is_linear = h.is_linear;
  tracks = record {
    closed = Closed-Keeps s t c.terms c.ub_index k h.tracks.closed;
    total = h.tracks.total;
  };
  meets = h.meets;
  small = h.small;
}

-- A linear constraint that an assignment meets, whose parts fit and whose upper bounds are right, is
-- one that the solver can ask: it reports no conflict, sets no value against the assignment, and its
-- bounds are right again, whatever else the solver sets in between.
pub linear_constraint_laws :
    (a : Assignment) (n : ℕ) → 0 < n → ConstraintLaws a n (λ c s (x : Linear) p. propagate s c x p)
linear_constraint_laws a n lt = record {
  Holds = λ s x. Sound a n s x;
  stable = λ s t x k h. Sound-Keeps a n s t x k h;
  done = λ c s x p e f h. (propagate-Agrees a n lt c s x p e f h).0;
  fine = λ c s x p e f h. propagate-Fine a n lt c s x p e f h;
  holds_after = λ c s x p e f h. propagate-Sound a n lt c s x p e f h;
  keeps = λ c s x p e f h. (propagate-Frame n s c x p lt h.small).keeps;
  same_qhead = λ c s x p e f h. (propagate-Frame n s c x p lt h.small).same_qhead;
}

pub Sound-Holds :
    (a : Assignment) (n : ℕ) (lt : 0 < n) (s : Solver) (c : Linear)
    → Sound a n s c
    → (linear_constraint_laws a n lt).Holds s c
unfolding linear_constraint_laws
Sound-Holds a n lt s c h = h

pub SmallTerms-Inside :
    (n : ℕ) (lt : 0 < n) (c : Linear) → SmallTerms n c.terms → (linear_frame_laws n lt).Inside c
unfolding linear_frame_laws
SmallTerms-Inside n lt c h = h
