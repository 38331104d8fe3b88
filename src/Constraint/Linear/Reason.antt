-- ===== src/Constraint/Linear/Reason.antt =====
-- The reasons that the constraint gives.
use glucose.Prelude.{
  ℕ, ◌≡◌, ap, subst, ◌⊎◌, inl, inr, true, false, none, some, List, [], ◌∷◌, arith, ltb, Bool-cases,
}
use glucose.Prelude.Lists.{length, get_or, All, All-split}
use glucose.Prelude.Int.{ℤ, pos, pos_part, neg_part, ◌+ℤ◌, ◌≤ℤ◌, ltb_ℤ, +ℤ_parts}
use glucose.Lit.{Lit, neg}
use glucose.Lit.Truth.{Assignment, holds, holds-neg}
use glucose.Solver.{Solver}
use glucose.Constraint.Linear.{LinearTerm, Linear, slack, forced_lit, bound_lits, calc_reason}
use glucose.Constraint.Linear.Bounds.{
  IsTerm, sum_at, sum_of, Bounded, sum_of-le, Room, sums-Room, chosen_le, forced_lit-holds,
}
use glucose.Constraint.Linear.State.{Closed, Tracks, Meets}

-- The second loop enqueues `p` for one of the terms.
abbrev pub Forces : Lit → ℤ → List LinearTerm → List ℕ → Type 0
Forces p total [] us = ⊥
Forces p total (t ∷ ts) [] = ⊥
Forces p total (t ∷ ts) (u ∷ us) =
    ((slack total t u ≡ false) × (forced_lit total t u ≡ p)) ⊎ Forces p total ts us

bound_lits-Bounded :
    (a : Assignment) (s : Solver) (ts : List LinearTerm) (us : List ℕ)
    → Closed s ts us
    → All (λ l. holds a l ≡ true) (bound_lits ts us)
    → Bounded a ts us
unfolding bound_lits
bound_lits-Bounded a s [] [] k h = tt
bound_lits-Bounded a s [] (u ∷ us) k h = absurd k
bound_lits-Bounded a s (t ∷ ts) [] k h = absurd k
bound_lits-Bounded a s (t ∷ ts) (u ∷ us) k h = elim (Bool-cases (ltb u (length t.lits))) [
  | inl inside ↦
      let h' = rw (bound_lits, inside) at h in
      (
        chosen_le a t.lits u k.0 (λ lt. ground (arith, h'.0, holds-neg a (get_or t.lits u 0))),
        k.0,
        bound_lits-Bounded a s ts us k.2 h'.1,
      )
  | inr top ↦
      let h' = rw (bound_lits, top) at h in
      (
        chosen_le a t.lits u k.0 (λ lt. absurd (ground arith)),
        k.0,
        bound_lits-Bounded a s ts us k.2 h',
      )
]

Forces-holds :
    (a : Assignment) (p : Lit) (total : ℤ) (ts : List LinearTerm) (us : List ℕ)
    → All IsTerm ts
    → Bounded a ts us
    → Room a total ts us
    → Forces p total ts us
    → holds a p ≡ true
Forces-holds a p total [] us h b r f = absurd f
Forces-holds a p total (t ∷ ts) [] h b r f = absurd f
Forces-holds a p total (t ∷ ts) (u ∷ us) h b r (inl f) =
    subst (λ q. holds a q ≡ true) f.1 (forced_lit-holds a total t u h.0 b.0 b.1 r.0 f.0)
Forces-holds a p total (t ∷ ts) (u ∷ us) h b r (inr f) = Forces-holds a p total ts us h.1 b.2 r.1 f

forced_holds :
    (a : Assignment) (s : Solver) (c : Linear) (p : Lit)
    → All IsTerm c.terms
    → Tracks s c
    → Meets a c
    → Bounded a c.terms c.ub_index
    → Forces p c.total_ub c.terms c.ub_index
    → holds a p ≡ true
forced_holds a s c p h k meets b f =
    let upper = +ℤ_parts c.constant (sum_at c.terms c.ub_index) in
    let sum = +ℤ_parts c.constant (sum_of a c.terms) in
    let both = +ℤ_parts (sum_of a c.terms) c.total_ub in
    let fits : sum_at c.terms c.ub_index ≤ℤ sum_of a c.terms +ℤ c.total_ub =
      omega (arith, ap pos_part k.total, ap neg_part k.total) in
    Forces-holds a p c.total_ub c.terms c.ub_index h b
      (sums-Room a c.total_ub c.terms c.ub_index h b fits) f

-- The upper bounds being right, let an assignment meet the constraint. If the bound on the sum is
-- below 0, it does not make all literals of the reason true. If it makes them all true, then it makes
-- each literal true that `propagate` enqueues at these bounds; and where such a literal failed to be
-- enqueued, it does not make all literals of the reason true, the negation of that one included.
pub linear_reason-explains :
    (a : Assignment) (s : Solver) (c : Linear)
    → All IsTerm c.terms
    → Tracks s c
    → Meets a c
    → (ltb_ℤ c.total_ub (pos 0) ≡ true → ¬ All (λ l. holds a l ≡ true) (calc_reason c none))
      × ((p : Lit)
          → Forces p c.total_ub c.terms c.ub_index
          → (All (λ l. holds a l ≡ true) (calc_reason c none) → holds a p ≡ true)
            × (¬ All (λ l. holds a l ≡ true) (calc_reason c (some (neg p)))))
unfolding calc_reason
linear_reason-explains a s c h k meets =
    let split = All-split (λ l. holds a l ≡ true) (bound_lits c.terms c.ub_index) in
    let bounded = bound_lits-Bounded a s c.terms c.ub_index k.closed in
    (
      λ low all.
          let le = sum_of-le a c.terms c.ub_index h (bounded (split [] all).0) in
          let upper = +ℤ_parts c.constant (sum_at c.terms c.ub_index) in
          let sum = +ℤ_parts c.constant (sum_of a c.terms) in
          absurd (ground (arith, ap pos_part k.total, ap neg_part k.total)),
      λ p f. (
        λ all. forced_holds a s c p h k meets (bounded (split [] all).0) f,
        λ all.
            let (below, extra) = split (neg p ∷ []) all in
            let t = forced_holds a s c p h k meets (bounded below) f in
            absurd (ground (arith, holds-neg a p, extra.0)),
      ),
    )
