-- ===== src/Lit.antt =====
-- core/SolverTypes.h: literals. A literal is its code `x`, twice the variable plus the sign.
-- `lit_Undef` and `lit_Error`, which stand for no literal, are not codes: where the source uses
-- them the model has an option or a result type.
pub mod Laws
pub mod Truth
use Prim.Native.Nat.{bit_and, bit_xor}
use glucose.Prelude.{ℕ, ◌+◌, ◌/◌, Bool, ◌==◌, if◌then◌else◌}

abbrev pub Var : Type 0
Var = ℕ

abbrev pub Lit : Type 0
Lit = ℕ

abbrev bit : Bool → ℕ
bit b = if b then 1 else 0

-- mkLit
unfoldable pub mk_lit : Var → Bool → Lit
mk_lit v s = v + v + bit s

-- operator ~
unfoldable pub neg : Lit → Lit
neg p = bit_xor p 1

-- operator ^
pub flip_by : Lit → Bool → Lit
flip_by p b = bit_xor p (bit b)

unfoldable pub sign : Lit → Bool
sign p = bit_and p 1 == 1

unfoldable pub var : Lit → Var
var p = p / 2
