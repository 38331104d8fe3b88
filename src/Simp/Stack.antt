-- ===== src/Simp/Stack.antt =====
-- `elimclauses` of simp/SimpSolver.cc: the two functions `mkElimClause` that push to the vector,
-- and `extendModel`, which reads it from its end. The head of the list is the vector's back. The
-- words of the vector are literals and sizes.
pub mod Extend
pub mod Front
use mathlib.Core.List.{reverse}
use glucose.Prelude.{
  ℕ, zero, suc, ◌+◌, ◌-◌, ◌*◌, ◌/◌, ◌%◌, ◌^◌, ◌≤◌, ◌<◌, ◌≡◌, refl, sym, ap, ◌∙◌, ◌≢◌, ◌↔◌, ◌⊎◌, inl,
  inr, Bool, true, false, not, ◌&&◌, ◌||◌, Option, none, some, List, [], ◌∷◌, ◌++◌, map, arith, ltb,
  leb, ◌==◌, if◌then◌else◌, ==_iff, ==_refl, ==_ne, eq_of_==, Bool-cases, Option-cases, update, xor,
}
use glucose.Prelude.Lists.{length, get_or, set}
use glucose.Lit.{Lit, Var, neg, var, sign}
use glucose.Lbool.{Lbool, l_true, l_false, l_undef, of_bool, flip, eq}

abbrev pub Words : Type 0
Words = List ℕ

-- mkElimClause(elimclauses, x)
unfoldable pub push_unit : Words → Lit → Words
push_unit e x = 1 ∷ x ∷ e

-- `v_pos`, counted from `first`: the last position of a literal on `v`.
unfoldable pub v_pos : Var → List Lit → Option ℕ
v_pos v [] = none
v_pos v (p ∷ c) = elim (v_pos v c) [
  | some i ↦ some (suc i)
  | none ↦ (if var p == v then some 0 else none)
]

-- The swap of the first word with the one at `v_pos`. The source asserts that `v` occurs.
unfoldable pub to_front : Var → List Lit → List Lit
unfolding v_pos
to_front v c = elim (v_pos v c) [
  | some i ↦ set (set c i (get_or c 0 0)) 0 (get_or c i 0)
  | none ↦ c
]

-- mkElimClause(elimclauses, v, c)
unfoldable pub push_clause : Words → Var → List Lit → Words
unfolding to_front
push_clause e v c = length c ∷ (reverse (to_front v c) ++ e)

abbrev pub Model : Type 0
Model = Var → Lbool

-- modelValue
unfoldable pub model_value : Model → Lit → Lbool
model_value m p = flip (m (var p)) (sign p)

-- `i -= j`
abbrev drop : ℕ → Words → Words
drop zero e = e
drop (suc n) [] = []
drop (suc n) (w ∷ e) = drop n e

-- The inner loop of `extendModel` at `j`, with what follows it up to the label `next`, and the
-- words that `i -= j` leaves.
unfoldable pub scan_block : Model → ℕ → Words → Model × Words
scan_block m j [] = (m, [])
scan_block m zero (x ∷ e) = (update m (var x) (of_bool (not (sign x))), x ∷ e)
scan_block m (suc zero) (x ∷ e) = (update m (var x) (of_bool (not (sign x))), e)
scan_block m (suc (suc j)) (p ∷ e) =
    let rest = scan_block m (suc j) e in
    if eq (model_value m p) l_false then rest else (m, drop (suc j) e)

-- The outer loop, which ends at `i > 0`; it reads a size, so the fuel bounds the rounds.
unfoldable pub extend_loop : ℕ → Model → Words → Model
extend_loop zero m e = m
extend_loop (suc fuel) m [] = m
extend_loop (suc fuel) m (n ∷ []) = m
extend_loop (suc fuel) m (n ∷ p ∷ e) =
    let (m', rest) = scan_block m n (p ∷ e) in extend_loop fuel m' rest

-- extendModel
unfoldable pub extend_model : Model → Words → Model
unfolding extend_loop scan_block model_value
extend_model m e = extend_loop (length e) m e
