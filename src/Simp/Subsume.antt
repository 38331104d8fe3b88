-- ===== src/Simp/Subsume.antt =====
-- `Clause::subsumes` of core/SolverTypes.h. The two abstractions, sets of variables in 32 bits that
-- the clauses store, are arguments.
pub mod Sound
use glucose.Prelude.{
  ℕ, zero, suc, ◌+◌, ◌-◌, ◌*◌, ◌/◌, ◌%◌, ◌^◌, ◌≤◌, ◌<◌, ◌≡◌, refl, sym, ap, subst, ◌∙◌, ◌≢◌, ◌↔◌,
  ◌⊎◌, inl, inr, Bool, true, false, not, ◌&&◌, ◌||◌, Option, none, some, List, [], ◌∷◌, ◌++◌, map,
  arith, ltb, leb, ◌==◌, if◌then◌else◌, ==_iff, ==_refl, ==_ne, eq_of_==, Bool-cases, Option-cases,
  update, xor,
}
use Prim.Native.Nat.{bit_and}
use glucose.Prelude.Lists.{length}
use glucose.Lit.{Lit, neg}

-- The results lit_Error, lit_Undef and a literal.
pub data Subsumed : Type 0 where
  fails subsumes : Subsumed
  resolves : Lit → Subsumed

-- The inner loop: the new `ret` where the literal or its negation is found.
unfoldable pub look : Option Lit → Lit → List Lit → Option (Option Lit)
look ret l [] = none
look none l (m ∷ d) =
    let rest = look none l d in
    if l == m then some none else if l == neg m then some (some l) else rest
look (some p) l (m ∷ d) = let rest = look (some p) l d in if l == m then some (some p) else rest

-- The outer loop.
unfoldable pub look_all : Option Lit → List Lit → List Lit → Subsumed
unfolding look
look_all none [] d = subsumes
look_all (some p) [] d = resolves p
look_all ret (l ∷ c) d = elim (look ret l d) [ none ↦ fails | some ret' ↦ look_all ret' c d ]

unfoldable pub subsumption : ℕ → ℕ → List Lit → List Lit → Subsumed
unfolding look_all
subsumption abst other_abst c d =
    if ltb (length d) (length c) || not (bit_and abst (2 ^ 32 - 1 - other_abst) == 0)
    then fails
    else look_all none c d
