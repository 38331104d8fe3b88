-- ===== src/Tests/Values.antt =====
-- core/SolverTypes.h.
use glucose.Prelude.{◌≡◌, refl, true, false, arith}
use glucose.Lit.{mk_lit, neg}
use glucose.Lbool.{eq, and, or, flip}
use glucose.Lbool.Byte.{decode, eq_bits, and_bits, or_bits, flip_bits, bits_implement_logic}

negated : neg (mk_lit 3 false) ≡ mk_lit 3 true
unfolding neg mk_lit
negated = refl

bits_implement_logic_example :
    (eq_bits 0 3 ≡ eq (decode 0) (decode 3))
    × (decode (and_bits 0 3) ≡ and (decode 0) (decode 3))
    × (decode (or_bits 0 3) ≡ or (decode 0) (decode 3))
    × (decode (flip_bits 0 true) ≡ flip (decode 0) true)
bits_implement_logic_example = bits_implement_logic 0 3 true (omega arith) (omega arith)
