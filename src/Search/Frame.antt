-- ===== src/Search/Frame.antt =====
-- What `enqueue` by a constraint keeps of the solver's state.
use glucose.Prelude.{ℕ, ◌<◌, ◌≡◌, refl, ◌∙◌, Bool}
use glucose.Prelude.Lists.{All}
use glucose.Lit.{Lit, var}
use glucose.Lbool.{l_true}
use glucose.Solver.{Solver, ConstraintRef, by_constraint, value, assign, enqueue}
use glucose.Solver.Agree.{
  Keeps, Keeps-trans, Enqueued, already, failed, assigned, enqueue-Enqueued, assign-Keeps,
  value-assign,
}
use glucose.Search.Fine.{Room, assign-Room, qhead-assign, trail-assign, All-Keeps}
use glucose.Search.Left.{Small}

abbrev pub TrueTrail : Solver → Type 0
TrueTrail s = All (λ p. value s p ≡ l_true) s.trail

pub record Frame (n : ℕ) (s t : Solver) : Type 0 where
  pub keeps : Keeps s t
  pub on_trail : TrueTrail s → TrueTrail t
  pub room : Room n s → Room n t
  pub small : Small n s.trail → Small n t.trail
  pub same_qhead : t.qhead ≡ s.qhead

pub Frame-refl : (n : ℕ) (s : Solver) → Frame n s s
Frame-refl n s = record {
  keeps = λ v b h. h;
  on_trail = λ h. h;
  room = λ h. h;
  small = λ h. h;
  same_qhead = refl;
}

pub Frame-trans : (n : ℕ) (s t u : Solver) → Frame n s t → Frame n t u → Frame n s u
Frame-trans n s t u f g = record {
  keeps = Keeps-trans s t u f.keeps g.keeps;
  on_trail = λ h. g.on_trail (f.on_trail h);
  room = λ h. g.room (f.room h);
  small = λ h. g.small (f.small h);
  same_qhead = g.same_qhead ∙ f.same_qhead;
}

Enqueued-Frame :
    (n : ℕ) (s : Solver) (p : Lit) (c : ConstraintRef) (r : Solver × Bool)
    → var p < n
    → Enqueued s p c r
    → Frame n s r.0
Enqueued-Frame n s p c r lt (already v e) = rw e (Frame-refl n s)
Enqueued-Frame n s p c r lt (failed v e) = rw e (record {
  keeps = λ v b h. h;
  on_trail = λ h. h;
  room = λ h. h;
  small = λ h. h;
  same_qhead = refl;
})
Enqueued-Frame n s p c r lt (assigned v e) =
    let from = by_constraint c in
    rw e (record {
      keeps = assign-Keeps s p from v;
      on_trail = λ h. rw (trail-assign s p from) (
        value-assign s p from,
        All-Keeps s (assign s p from) s.trail (assign-Keeps s p from v) h,
      );
      room = λ h. assign-Room n s p from v lt h;
      small = λ h. rw (trail-assign s p from) (lt, h);
      same_qhead = qhead-assign s p from;
    })

pub enqueue-Frame :
    (n : ℕ) (s : Solver) (p : Lit) (c : ConstraintRef) → var p < n → Frame n s (enqueue s p c).0
enqueue-Frame n s p c lt = Enqueued-Frame n s p c _ lt (enqueue-Enqueued s p c)
