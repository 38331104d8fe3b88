-- ===== src/Solver/Cancel/Restore.antt =====
-- Going back to a level brings back the assignment of that level.
use glucose.Prelude.{
  ℕ, zero, suc, ◌+◌, ◌-◌, ◌≡◌, refl, sym, ap, subst, ◌∙◌, ◌⊎◌, inl, inr, true, false, List, [], ◌∷◌,
  ◌++◌, map, arith, ltb, leb, ◌==◌, eq_of_==, Bool-cases,
}
use glucose.Prelude.Lists.{length, get_or, All, In, length-append}
use glucose.Container.Queue.{from}
use glucose.Container.Queue.Items.{get_or-append_right}
use glucose.Lit.{Lit, Var, var}
use glucose.Lbool.{l_undef}
use glucose.Solver.{Solver, ConstraintRef, decision_level}
use glucose.Solver.Cancel.{unassign, cancel_loop, cancel_until, undo_each}

-- The variables of these literals have no value in `s`, and no constraint to undo.
abbrev pub Free : Solver → List Lit → Type 0
Free s ps = All (λ p. (s.assigns (var p) ≡ l_undef) × (s.undo_lists (var p) ≡ [])) ps

-- The two states differ at the variables of these literals only.
abbrev pub DifferAt : Solver → Solver → List Lit → Type 0
DifferAt s t ps =
    (v : Var)
    → In v (map var ps) ⊎ ((t.assigns v ≡ s.assigns v) × (t.undo_lists v ≡ s.undo_lists v))

unassign-DifferAt :
    (s t : Solver) (last : ℕ) (p : Lit) (ps : List Lit) (c : ℕ)
    → Free s (p ∷ ps)
    → DifferAt s t (p ∷ ps)
    → DifferAt s (unassign t last p c) ps
unfolding unassign
unassign-DifferAt s t last p ps c free d v = elim (Bool-cases (var p == v)) [
  | inl same ↦
      let e = eq_of_== (var p) v same in
      inr (
        rw same (
          sym (subst (λ v. s.assigns v ≡ l_undef) e free.0.0),
          sym (subst (λ v. s.undo_lists v ≡ []) e free.0.1),
        ))
  | inr other ↦
      rw other (elim (d v) [
        | inl (inl e) ↦ absurd (ground arith)
        | inl (inr m) ↦ inl m
        | inr eqs ↦ inr eqs
      ])
]

module _ {ℓ} {X : Type ℓ} (undo : ConstraintRef → Lit → X → X) where
  -- What the loop leaves.
  record Restored (s t r : Solver) (base : List Lit) : Type 0 where
    pub assigned : (v : Var) → r.assigns v ≡ s.assigns v
    pub undos : (v : Var) → r.undo_lists v ≡ s.undo_lists v
    pub trailed : r.trail ≡ base
    pub lims : r.trail_lim ≡ t.trail_lim

  same_everywhere :
      (s t : Solver)
      → DifferAt s t []
      → (v : Var) → (t.assigns v ≡ s.assigns v) × (t.undo_lists v ≡ s.undo_lists v)
  same_everywhere s t d v = elim (d v) [ inl m ↦ absurd m | inr e ↦ e ]

  cancel_loop-Restored :
      (s t : Solver) (last : ℕ) (ps base : List Lit) (x : X)
      → Free s ps
      → DifferAt s t ps
      → Restored s t (cancel_loop undo (length base) last (ps ++ base) t x).0 base
  unfolding cancel_loop unassign
  cancel_loop-Restored s t last [] [] x free d =
      let same = same_everywhere s t d in
      record { assigned = λ v. (same v).0; undos = λ v. (same v).1; trailed = refl; lims = refl }
  cancel_loop-Restored s t last [] (b ∷ base) x free d =
      let same = same_everywhere s t d in
      let stops : leb (suc (length base)) (length base) ≡ false = ground arith in
      rw (cancel_loop, stops)
        (record {
          assigned = λ v. (same v).0;
          undos = λ v. (same v).1;
          trailed = refl;
          lims = refl;
        })
  cancel_loop-Restored s t last (p ∷ ps) base x free d =
      let goes_on : leb (length base) (length (ps ++ base)) ≡ true =
        ground (arith, length-append ps base) in
      let c = length (ps ++ base) in
      let next =
        cancel_loop-Restored s (unassign t last p c) last ps base
          (undo_each undo p (t.undo_lists (var p)) x) free.1
          (unassign-DifferAt s t last p ps c free d) in
      rw (cancel_loop, goes_on)
        (record {
          assigned = next.assigned;
          undos = next.undos;
          trailed = next.trailed;
          lims = next.lims;
        })

  from-append_exact : (ms ls : List ℕ) (m k : ℕ) → k ≡ suc (length ms) → from k (ms ++ m ∷ ls) ≡ ls
  unfolding from
  from-append_exact [] ls m zero h = absurd (omega arith)
  from-append_exact [] ls m (suc zero) h = refl
  from-append_exact [] ls m (suc (suc k)) h = absurd (omega arith)
  from-append_exact (n ∷ ms) ls m zero h = absurd (omega arith)
  from-append_exact (n ∷ ms) ls m (suc k) h = from-append_exact ms ls m k (omega arith)

  -- Let `t` be a state that the search has reached from `s` by opening a decision level, and perhaps
  -- more, where it gave values to literals `ps` whose variables had none, and registered undo calls
  -- for their variables only. Then `cancelUntil` to the level of `s` brings back the values, the undo
  -- lists, the trail and the levels of `s`, and all of the trail counts as propagated.
  pub cancel_until-restores :
      (s t : Solver) (x : X) (ps : List Lit) (more : List ℕ)
      → t.trail ≡ ps ++ s.trail
      → t.trail_lim ≡ more ++ length s.trail ∷ s.trail_lim
      → Free s ps
      → DifferAt s t ps
      → let r = (cancel_until undo t x (decision_level s)).0 in
        ((v : Var) → r.assigns v ≡ s.assigns v)
        × ((v : Var) → r.undo_lists v ≡ s.undo_lists v)
        × (r.trail ≡ s.trail)
        × (r.trail_lim ≡ s.trail_lim)
        × (r.qhead ≡ length s.trail)
  unfolding cancel_until
  cancel_until-restores s t x ps more trail lims free d =
      let size : decision_level t ≡ length more + suc (decision_level s) =
        ap length lims ∙ length-append more (length s.trail ∷ s.trail_lim) in
      let higher : ltb (decision_level s) (decision_level t) ≡ true = ground arith in
      let index : decision_level t - 1 - decision_level s ≡ length more + 0 = omega arith in
      let stop : get_or t.trail_lim (decision_level t - 1 - decision_level s) 0 ≡ length s.trail =
        ap (λ ls. get_or ls (decision_level t - 1 - decision_level s) 0) lims
        ∙ get_or-append_right more (length s.trail ∷ s.trail_lim)
            (decision_level t - 1 - decision_level s) 0 0 index in
      let count : decision_level t - decision_level s ≡ suc (length more) = omega arith in
      let cut : from (decision_level t - decision_level s) t.trail_lim ≡ s.trail_lim =
        ap (from (decision_level t - decision_level s)) lims
        ∙ from-append_exact more s.trail_lim (length s.trail) (decision_level t - decision_level s)
            count in
      let back = cancel_loop-Restored s t (get_or t.trail_lim 0 0) ps s.trail x free d in
      let last = get_or t.trail_lim 0 0 in
      let next =
        subst (λ l. Restored s t (cancel_loop undo (length s.trail) last l t x).0 s.trail)
          (sym trail) back in
      rw (higher, stop) (next.assigned, next.undos, next.trailed, cut, refl)
