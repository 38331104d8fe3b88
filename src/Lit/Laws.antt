-- ===== src/Lit/Laws.antt =====
-- The laws of literals: a literal is its variable and its sign.
use glucose.Prelude.{
  ◌+◌, ◌-◌, ◌*◌, ◌/◌, ◌%◌, ◌≡◌, refl, sym, ap, ◌∙◌, ◌≢◌, ◌⊎◌, Bool, true, false, not, arith, ◌==◌,
}
use glucose.Prelude.Bits.{bit_and-one, bit_xor-one, bit_xor-zero}
use glucose.Lit.{Lit, Var, mk_lit, neg, flip_by, sign, var}

pub neg_value : (p : Lit) → neg p ≡ p / 2 * 2 + (1 - p % 2)
unfolding neg
neg_value p = bit_xor-one p

pub sign_value : (p : Lit) → sign p ≡ (p % 2 == 1)
unfolding sign
sign_value p = rw bit_and-one

pub neg-neg : (p : Lit) → neg (neg p) ≡ p
neg-neg p = omega (arith, neg_value p, neg_value (neg p))

pub neg-ne : (p : Lit) → neg p ≢ p
neg-ne p e = omega (arith, neg_value p)

pub var-neg : (p : Lit) → var (neg p) ≡ var p
unfolding var
var-neg p = omega (arith, neg_value p)

pub sign-neg : (p : Lit) → sign (neg p) ≡ not (sign p)
sign-neg p = ground (arith, sign_value p, sign_value (neg p), neg_value p)

pub var-mk_lit : (v : Var) (s : Bool) → var (mk_lit v s) ≡ v
unfolding var mk_lit
var-mk_lit v s = ground arith

pub sign-mk_lit : (v : Var) (s : Bool) → sign (mk_lit v s) ≡ s
unfolding mk_lit
sign-mk_lit v s = ground (arith, sign_value (mk_lit v s))

pub mk_lit-var-sign : (p : Lit) → mk_lit (var p) (sign p) ≡ p
unfolding var mk_lit
mk_lit-var-sign p = ground (arith, sign_value p)

pub neg-mk_lit : (v : Var) (s : Bool) → neg (mk_lit v s) ≡ mk_lit v (not s)
unfolding mk_lit
neg-mk_lit v s = ground (arith, neg_value (mk_lit v s))

-- Two literals of one variable are equal or opposite.
pub same_var : (p q : Lit) → var p ≡ var q → (p ≡ q) ⊎ (p ≡ neg q)
unfolding var
same_var p q e = omega (arith, neg_value q)

pub neg-injective : (p q : Lit) → neg p ≡ neg q → p ≡ q
neg-injective p q e = sym (neg-neg p) ∙ ap neg e ∙ neg-neg q

pub flip_by-false : (p : Lit) → flip_by p false ≡ p
unfolding flip_by
flip_by-false p = bit_xor-zero p

pub flip_by-true : (p : Lit) → flip_by p true ≡ neg p
unfolding flip_by neg
flip_by-true p = refl
