-- ===== src/Lit/Truth.antt =====
-- What literals and clauses mean: their truth under an assignment of all variables.
use glucose.Prelude.{
  ◌≡◌, refl, inl, inr, Bool, true, false, not, xor, ◌||◌, List, [], ◌∷◌, ◌++◌, arith, Bool-cases,
  update, ==_ne, ◌≢◌,
}
use glucose.Prelude.Lists.{In}
use glucose.Lit.{Lit, Var, mk_lit, neg, sign, var, flip_by}
use glucose.Lit.Laws.{var-neg, sign-neg, var-mk_lit, sign-mk_lit, flip_by-false, flip_by-true}

abbrev pub Assignment : Type 0
Assignment = Var → Bool

unfoldable pub holds : Assignment → Lit → Bool
holds a p = xor (a (var p)) (sign p)

pub holds-neg : (a : Assignment) (p : Lit) → holds a (neg p) ≡ not (holds a p)
unfolding holds
holds-neg a p = rw (var-neg p, sign-neg p) (ground arith)

pub holds-mk_lit : (a : Assignment) (v : Var) (s : Bool) → holds a (mk_lit v s) ≡ xor (a v) s
unfolding holds
holds-mk_lit a v s = rw (var-mk_lit v s, sign-mk_lit v s)

pub holds-flip_by :
    (a : Assignment) (p : Lit) (b : Bool) → holds a (flip_by p b) ≡ xor (holds a p) b
holds-flip_by a p true = rw (flip_by-true p, holds-neg a p) (ground arith)
holds-flip_by a p false = rw (flip_by-false p) (ground arith)

-- Some literal of the clause is true.
abbrev pub satisfies : Assignment → List Lit → Bool
satisfies a [] = false
satisfies a (p ∷ c) = holds a p || satisfies a c

-- Some literal of the clause is true, and the clause has it.
pub satisfies-In :
    (a : Assignment) (c : List Lit) (p : Lit) → In p c → holds a p ≡ true → satisfies a c ≡ true
satisfies-In a [] p m h = absurd m
satisfies-In a (q ∷ c) p (inl e) h = rw (e, h)
satisfies-In a (q ∷ c) p (inr m) h = ground (arith, satisfies-In a c p m h)

pub satisfies_inv :
    (a : Assignment) (c : List Lit) → satisfies a c ≡ true → (p : Lit) × In p c × (holds a p ≡ true)
satisfies_inv a [] h = cc
satisfies_inv a (p ∷ c) h = elim (Bool-cases (holds a p)) [
  | inl t ↦ (p, inl refl, t)
  | inr f ↦ let (q, m, t) = satisfies_inv a c (ground arith) in (q, inr m, t)
]

pub satisfies-append :
    (a : Assignment) (c d : List Lit) → satisfies a (c ++ d) ≡ satisfies a c || satisfies a d
satisfies-append a [] d = refl
satisfies-append a (p ∷ c) d = ground (arith, satisfies-append a c d)

-- A change of a variable that the literal does not mention.
pub holds-update_ne :
    (a : Assignment) (v : Var) (b : Bool) (p : Lit) → v ≢ var p → holds (update a v b) p ≡ holds a p
unfolding holds
holds-update_ne a v b p h = rw (==_ne v (var p) h)
