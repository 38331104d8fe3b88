-- ===== src/Lbool.antt =====
-- core/SolverTypes.h: lifted booleans. `Lbool` is what one stands for; `Byte` is the `uint8_t` that
-- the class stores, with the operators on its bits.
pub mod Byte
use glucose.Prelude.{
  ℕ, zero, suc, ◌+◌, ◌-◌, ◌*◌, ◌/◌, ◌%◌, ◌^◌, ◌≤◌, ◌<◌, ◌≡◌, refl, sym, ap, ◌∙◌, ◌≢◌, ◌↔◌, ◌⊎◌, inl,
  inr, Bool, true, false, not, ◌&&◌, ◌||◌, Option, none, some, List, [], ◌∷◌, ◌++◌, map, arith, ltb,
  leb, ◌==◌, if◌then◌else◌, ==_iff, ==_refl, ==_ne, eq_of_==, Bool-cases, Option-cases, update, xor,
}

pub data Lbool : Type 0 where
  l_true l_false l_undef : Lbool

-- lbool(bool x)
abbrev pub of_bool : Bool → Lbool
of_bool true = l_true
of_bool false = l_false

-- operator ^
abbrev pub flip : Lbool → Bool → Lbool
flip l_true b = of_bool (not b)
flip l_false b = of_bool b
flip l_undef b = l_undef

-- operator ==
abbrev pub eq : Lbool → Lbool → Bool
eq l_true l_true = true
eq l_false l_false = true
eq l_undef l_undef = true
eq _ _ = false

-- The conjunction and disjunction of three-valued logic.
abbrev pub and : Lbool → Lbool → Lbool
and l_false _ = l_false
and l_true b = b
and l_undef l_false = l_false
and l_undef _ = l_undef

abbrev pub or : Lbool → Lbool → Lbool
or l_true _ = l_true
or l_false b = b
or l_undef l_true = l_true
or l_undef _ = l_undef

pub Lbool-cases : (x : Lbool) → (x ≡ l_true) ⊎ ((x ≡ l_false) ⊎ (x ≡ l_undef))
Lbool-cases l_true = inl refl
Lbool-cases l_false = inr (inl refl)
Lbool-cases l_undef = inr (inr refl)
