-- ===== src/Constraint/Linear/Bounds.antt =====
-- The value of the sum under an assignment, and its upper bounds.
use glucose.Prelude.{
  ℕ, zero, suc, ◌-◌, ◌≤◌, ◌<◌, ◌≡◌, inl, inr, true, false, List, [], ◌∷◌, arith, if◌then◌else◌,
  Bool-cases,
}
use glucose.Prelude.Lists.{length, get_or, All}
use glucose.Prelude.Int.{ℤ, pos, ◌+ℤ◌, ◌-ℤ◌, ◌≤ℤ◌, ltb_ℤ, +ℤ_parts, -ℤ_parts}
use glucose.Lit.{Lit}
use glucose.Lit.Truth.{Assignment, holds}
use glucose.Constraint.Linear.{LinearTerm, slack, forced_lit, lower_bound}

-- The place of a term's value: how many of its first literals are true.
abbrev pub chosen : Assignment → List Lit → ℕ
chosen a [] = 0
chosen a (l ∷ ls) = if holds a l then suc (chosen a ls) else 0

-- The values of the domain do not fall.
abbrev pub IsRising : List ℤ → Type 0
IsRising ds = (i j : ℕ) → i ≤ j → j < length ds → get_or ds i (pos 0) ≤ℤ get_or ds j (pos 0)

pub record IsTerm (t : LinearTerm) : Type 0 where
  pub rising : IsRising t.domain
  pub sized : length t.domain ≡ suc (length t.lits)

-- The sum of the terms' values at the given places.
abbrev pub sum_at : List LinearTerm → List ℕ → ℤ
sum_at [] us = pos 0
sum_at (t ∷ ts) [] = pos 0
sum_at (t ∷ ts) (u ∷ us) = get_or t.domain u (pos 0) +ℤ sum_at ts us

abbrev pub sum_of : Assignment → List LinearTerm → ℤ
sum_of a [] = pos 0
sum_of a (t ∷ ts) = get_or t.domain (chosen a t.lits) (pos 0) +ℤ sum_of a ts

-- The places are upper bounds, within the domains.
abbrev pub Bounded : Assignment → List LinearTerm → List ℕ → Type 0
Bounded a [] [] = Unit
Bounded a [] (u ∷ us) = ⊥
Bounded a (t ∷ ts) [] = ⊥
Bounded a (t ∷ ts) (u ∷ us) = (chosen a t.lits ≤ u) × (u ≤ length t.lits) × Bounded a ts us

pub sum_of-le :
    (a : Assignment) (ts : List LinearTerm) (us : List ℕ)
    → All IsTerm ts
    → Bounded a ts us
    → sum_of a ts ≤ℤ sum_at ts us
sum_of-le a [] [] h b = omega arith
sum_of-le a [] (u ∷ us) h b = absurd b
sum_of-le a (t ∷ ts) [] h b = absurd b
sum_of-le a (t ∷ ts) (u ∷ us) h b = omega (
  arith,
  sum_of-le a ts us h.1 b.2,
  h.0.rising (chosen a t.lits) u b.0 (omega (arith, h.0.sized, b.1)),
  +ℤ_parts (get_or t.domain u (pos 0)) (sum_at ts us),
  +ℤ_parts (get_or t.domain (chosen a t.lits) (pos 0)) (sum_of a ts),
)

-- The value of each term is below its upper bound by `total` at most.
abbrev pub Room : Assignment → ℤ → List LinearTerm → List ℕ → Type 0
Room a total [] us = Unit
Room a total (t ∷ ts) [] = Unit
Room a total (t ∷ ts) (u ∷ us) =
    (get_or t.domain u (pos 0) ≤ℤ get_or t.domain (chosen a t.lits) (pos 0) +ℤ total)
    × Room a total ts us

pub sums-Room :
    (a : Assignment) (total : ℤ) (ts : List LinearTerm) (us : List ℕ)
    → All IsTerm ts
    → Bounded a ts us
    → sum_at ts us ≤ℤ sum_of a ts +ℤ total
    → Room a total ts us
sums-Room a total [] us h b le = tt
sums-Room a total (t ∷ ts) [] h b le = tt
sums-Room a total (t ∷ ts) (u ∷ us) h b le =
    let top = get_or t.domain u (pos 0) in
    let val = get_or t.domain (chosen a t.lits) (pos 0) in
    let rest = sum_of-le a ts us h.1 b.2 in
    let here = h.0.rising (chosen a t.lits) u b.0 (omega (arith, h.0.sized, b.1)) in
    let upper = +ℤ_parts top (sum_at ts us) in
    let value = +ℤ_parts val (sum_of a ts) in
    let whole = +ℤ_parts (val +ℤ sum_of a ts) total in
    let one = +ℤ_parts val total in
    let others = +ℤ_parts (sum_of a ts) total in
    (omega arith, sums-Room a total ts us h.1 b.2 (omega arith))

-- The literals before the place of the value are true.
pub chosen-true :
    (a : Assignment) (ls : List Lit) (k : ℕ) → k < chosen a ls → holds a (get_or ls k 0) ≡ true
chosen-true a [] k h = absurd (omega arith)
chosen-true a (l ∷ ls) zero h = elim (Bool-cases (holds a l)) [
  | inr f ↦ absurd (omega (arith, rw f at h))
  | inl e ↦ e
]
chosen-true a (l ∷ ls) (suc k) h = elim (Bool-cases (holds a l)) [
  | inr f ↦ absurd (omega (arith, rw f at h))
  | inl e ↦ let h' = rw e at h in chosen-true a ls k (omega arith)
]

-- A false literal is at the place of the value, or after it.
pub chosen_le :
    (a : Assignment) (ls : List Lit) (u : ℕ)
    → u ≤ length ls
    → (u < length ls → holds a (get_or ls u 0) ≡ false)
    → chosen a ls ≤ u
chosen_le a [] u h k = omega arith
chosen_le a (l ∷ ls) zero h k = rw (k (omega arith)) (omega arith)
chosen_le a (l ∷ ls) (suc u) h k = elim (Bool-cases (holds a l)) [
  | inr f ↦ rw f (omega arith)
  | inl e ↦ rw e (omega (arith, chosen_le a ls u (omega arith) λ lt. k (omega arith)))
]

-- The values before the first that is not below `x` are no more than the place of one that is not.
lower_bound_le :
    (ds : List ℤ) (x : ℤ) (k : ℕ) → k < length ds → x ≤ℤ get_or ds k (pos 0) → lower_bound ds x ≤ k
unfolding lower_bound
lower_bound_le [] x k h le = absurd (omega arith)
lower_bound_le (d ∷ ds) x zero h le = ground arith
lower_bound_le (d ∷ ds) x (suc k) h le = ground (arith, lower_bound_le ds x k (omega arith) le)

lower_bound_pos :
    (ds : List ℤ) (x : ℤ)
    → 0 < length ds
    → ltb_ℤ (get_or ds 0 (pos 0)) x ≡ true
    → 0 < lower_bound ds x
unfolding lower_bound
lower_bound_pos [] x h lt = absurd (omega arith)
lower_bound_pos (d ∷ ds) x h lt = rw lt (omega arith)

-- The literal that the second loop enqueues is true.
pub forced_lit-holds :
    (a : Assignment) (total : ℤ) (t : LinearTerm) (u : ℕ)
    → IsTerm t
    → chosen a t.lits ≤ u
    → u ≤ length t.lits
    → get_or t.domain u (pos 0) ≤ℤ get_or t.domain (chosen a t.lits) (pos 0) +ℤ total
    → slack total t u ≡ false
    → holds a (forced_lit total t u) ≡ true
unfolding slack forced_lit
forced_lit-holds a total t u is le within room tight =
    let top = get_or t.domain u (pos 0) in
    let val = get_or t.domain (chosen a t.lits) (pos 0) in
    let bottom = get_or t.domain 0 (pos 0) in
    let one = +ℤ_parts val total in
    let x = -ℤ_parts top total in
    let gap = -ℤ_parts total (top -ℤ bottom) in
    let step = -ℤ_parts top bottom in
    let low =
      lower_bound_le t.domain (top -ℤ total) (chosen a t.lits) (omega (arith, is.sized))
        (omega arith) in
    let high = lower_bound_pos t.domain (top -ℤ total) (omega (arith, is.sized)) (ground arith) in
    chosen-true a t.lits (lower_bound t.domain (top -ℤ total) - 1) (omega arith)
