-- ===== src/Restart.antt =====
-- core/Solver.cc: `luby`, by which the lengths of the runs between restarts are chosen, as the
-- exponent of the power that it gives.
pub mod Sequence
use glucose.Prelude.{
  ℕ, zero, suc, ◌+◌, ◌-◌, ◌*◌, ◌/◌, ◌%◌, ◌^◌, ◌≤◌, ◌<◌, ◌≡◌, refl, sym, ap, subst, ◌∙◌, ◌≢◌, ◌↔◌,
  ◌⊎◌, inl, inr, Bool, true, false, not, ◌&&◌, ◌||◌, Option, none, some, List, [], ◌∷◌, ◌++◌, map,
  arith, ltb, leb, ◌==◌, if◌then◌else◌, ==_iff, ==_refl, ==_ne, eq_of_==, Bool-cases, Option-cases,
  update, xor,
}

-- The first loop: the subsequence that contains index `x`, and its size.
unfoldable pub grow : ℕ → ℕ → ℕ → ℕ → ℕ × ℕ
grow zero size seq x = (size, seq)
grow (suc fuel) size seq x = elim (ltb size (x + 1)) [
  | false ↦ (size, seq)
  | true ↦ grow fuel (2 * size + 1) (seq + 1) x
]

-- The second loop; `none` means that the fuel has run out.
unfoldable pub shrink : ℕ → ℕ → ℕ → ℕ → Option ℕ
shrink zero size seq x = none
shrink (suc fuel) size seq x = elim (size - 1 == x) [
  | true ↦ some seq
  | false ↦ shrink fuel ((size - 1) / 2) (seq - 1) (x % ((size - 1) / 2))
]

unfoldable pub luby : ℕ → Option ℕ
unfolding grow shrink
luby x = let (size, seq) = grow (x + 1) 1 0 x in shrink size size seq x
