-- ===== src/Proof.antt =====
-- core/Solver.cc: the lines of a proof of unsatisfiability in binary format, as addClause_ and
-- removeClause write them. The file is a list of bytes. `128 | (n & 127)` is written as a sum, since
-- the two have no bit in common; `n >>= 7` divides by 128.
pub mod Read
use glucose.Prelude.{
  ℕ, zero, suc, ◌+◌, ◌-◌, ◌*◌, ◌/◌, ◌%◌, ◌^◌, ◌≤◌, ◌<◌, ◌≡◌, refl, sym, ap, subst, ◌∙◌, ◌≢◌, ◌↔◌,
  ◌⊎◌, inl, inr, Bool, true, false, not, ◌&&◌, ◌||◌, Option, none, some, List, [], ◌∷◌, ◌++◌, map,
  arith, ltb, leb, ◌==◌, if◌then◌else◌, ==_iff, ==_refl, ==_ne, eq_of_==, Bool-cases, Option-cases,
  update, xor,
}
use glucose.Lit.{Lit, var, sign}

-- The loop of `write_lit`. The fuel is `n`, which each round makes smaller.
unfoldable pub write_loop : ℕ → ℕ → List ℕ
write_loop zero n = n ∷ []
write_loop (suc fuel) n =
    let rest = write_loop fuel (n / 128) in if ltb 127 n then (128 + n % 128) ∷ rest else n ∷ []

unfoldable pub write_lit : ℕ → List ℕ
unfolding write_loop
write_lit n = write_loop n n

-- `2 * (var(c[i]) + 1) + sign(c[i])`
unfoldable pub code : Lit → ℕ
code p = 2 * (var p + 1) + (if sign p then 1 else 0)

-- The literals of a clause, and the 0 at the end.
unfoldable pub write_lits : List Lit → List ℕ
unfolding write_lit code
write_lits [] = write_lit 0
write_lits (p ∷ ls) = write_lit (code p) ++ write_lits ls

-- A line of the proof: the byte of 'a' or 'd', and the clause.
unfoldable pub write_line : ℕ → List Lit → List ℕ
unfolding write_lits
write_line c ls = c ∷ write_lits ls
