-- ===== src/Search/Fine.antt =====
-- The part of the solver's invariant that concerns values: they agree with an assignment, the
-- literals of the trail are true, and the trail is no longer than there are variables.
use glucose.Prelude.{
  ℕ, zero, suc, ◌+◌, ◌≤◌, ◌<◌, ◌≡◌, refl, subst, inl, inr, Bool, true, false, not, List, [], ◌∷◌,
  arith, ◌==◌, if◌then◌else◌, eq_of_==, Bool-cases, update,
}
use glucose.Prelude.Lists.{All, length}
use glucose.Lit.{Lit, Var, var, sign}
use glucose.Lit.Truth.{Assignment, holds}
use glucose.Lbool.{Lbool, l_true, l_undef, eq, of_bool}
use glucose.Solver.{Solver, Reason, value, assign, add_num_pending_propagation}
use glucose.Solver.Agree.{
  Agrees, Keeps, assign-Agrees, assign-Keeps, assigns-assign, value-assign, value-Keeps,
}

-- How many of the first `n` variables have no value.
abbrev pub unset : ℕ → (Var → Lbool) → ℕ
unset zero f = 0
unset (suc n) f = if eq (f n) l_undef then suc (unset n f) else unset n f

unset-update_out :
    (n v : ℕ) (f : Var → Lbool) (x : Lbool) → n ≤ v → unset n (update f v x) ≡ unset n f
unset-update_out zero v f x h = refl
unset-update_out (suc n) v f x h =
    let rest = unset-update_out n v f x (omega arith) in
    let apart : (v == n) ≡ false = ground arith in rw (apart, rest) refl

unset-update :
    (n v : ℕ) (f : Var → Lbool) (b : Bool)
    → v < n
    → f v ≡ l_undef
    → suc (unset n (update f v (of_bool b))) ≡ unset n f
unset-update zero v f b h e = absurd (omega arith)
unset-update (suc n) v f b h e = elim (Bool-cases (v == n)) [
  | inl here ↦
      let same = eq_of_== v n here in
      let e' : f n ≡ l_undef = subst (λ v. f v ≡ l_undef) same e in
      ground (arith, unset-update_out n v f (of_bool b) (omega arith))
  | inr below ↦ ground (arith, unset-update n v f b (ground arith) e)
]

pub record Fine (a : Assignment) (n : ℕ) (s : Solver) : Type 0 where
  pub agrees : Agrees a s
  pub on_trail : All (λ p. value s p ≡ l_true) s.trail
  pub room : length s.trail + unset n s.assigns ≤ n

pub All-Keeps :
    (s t : Solver) (ps : List Lit)
    → Keeps s t
    → All (λ p. value s p ≡ l_true) ps
    → All (λ p. value t p ≡ l_true) ps
All-Keeps s t [] k h = tt
All-Keeps s t (p ∷ ps) k h = (value-Keeps s t p k h.0, All-Keeps s t ps k h.1)

pub trail-assign : (s : Solver) (p : Lit) (r : Reason) → (assign s p r).trail ≡ p ∷ s.trail
unfolding assign add_num_pending_propagation
trail-assign s p r = refl

pub qhead-assign : (s : Solver) (p : Lit) (r : Reason) → (assign s p r).qhead ≡ s.qhead
unfolding assign add_num_pending_propagation
qhead-assign s p r = refl

-- The trail is no longer than there are variables.
abbrev pub Room : ℕ → Solver → Type 0
Room n s = length s.trail + unset n s.assigns ≤ n

pub assign-Room :
    (n : ℕ) (s : Solver) (p : Lit) (r : Reason)
    → value s p ≡ l_undef
    → var p < n
    → Room n s
    → Room n (assign s p r)
assign-Room n s p r u lt f =
    rw (trail-assign s p r, assigns-assign s p r)
      (omega (arith, f, unset-update n (var p) s.assigns (not (sign p)) lt (ground arith)))

pub assign-Fine :
    (a : Assignment) (n : ℕ) (s : Solver) (p : Lit) (r : Reason)
    → holds a p ≡ true
    → value s p ≡ l_undef
    → var p < n
    → Fine a n s
    → Fine a n (assign s p r)
assign-Fine a n s p r t u lt f = record {
  agrees = assign-Agrees a s p r t f.agrees;
  on_trail =
      rw (trail-assign s p r)
        (value-assign s p r, All-Keeps s (assign s p r) s.trail (assign-Keeps s p r u) f.on_trail);
  room = assign-Room n s p r u lt f.room;
}
