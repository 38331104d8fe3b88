-- ===== src/Constraint/Supports/Known.antt =====
-- The known values, and what an assignment that meets the constraint says of them.
use glucose.Prelude.{
  ℕ, zero, suc, ◌<◌, ◌≡◌, sym, ◌∙◌, true, false, none, some, List, [], ◌∷◌, arith, ==_iff, eq_of_==,
}
use glucose.Prelude.Lists.{length, get_or, set, In}
use glucose.Lit.{Lit}
use glucose.Lit.Truth.{Assignment, holds}
use glucose.Lbool.{l_true}
use glucose.Solver.{Solver, value}
use glucose.Solver.Agree.{Agrees, Keeps, value-Agrees, value-Keeps}
use glucose.Constraint.Linear.{Entry}
use glucose.Constraint.Supports.{Supports, Tuple, unknown, same_value}
use glucose.Constraint.Supports.Table.{AllTake, Covers}

-- The values that are known are those of literals that are true.
abbrev pub Known : Solver → List (List Lit) → Tuple → Type 0
Known s [] [] = Unit
Known s [] (y ∷ ys) = ⊥
Known s (ls ∷ vars) [] = ⊥
Known s (ls ∷ vars) (none ∷ ys) = Known s vars ys
Known s (ls ∷ vars) (some y ∷ ys) =
    (y < length ls) × (value s (get_or ls y 0) ≡ l_true) × Known s vars ys

-- The entry names a literal that there is.
abbrev pub IsEntry : List (List Lit) → Entry → Type 0
IsEntry vars (l, i, j) =
    (i < length vars) × (j < length (get_or vars i [])) × (get_or (get_or vars i []) j 0 ≡ l)

-- The assignment gives each variable one value, and a tuple of the table has these values.
pub record Meets (a : Assignment) (c : Supports) : Type 0 where
  pub values : List ℕ
  pub taken : AllTake a c.vars values
  pub row : Tuple
  pub listed : In row c.supports
  pub covered : Covers row values

pub value-holds :
    (a : Assignment) (s : Solver) (p : Lit) → Agrees a s → value s p ≡ l_true → holds a p ≡ true
value-holds a s p h e = ground (arith, value-Agrees a s p h)

pub Known-Covers :
    (a : Assignment) (s : Solver) (vars : List (List Lit)) (ys : Tuple) (ks : List ℕ)
    → Agrees a s
    → AllTake a vars ks
    → Known s vars ys
    → Covers ys ks
Known-Covers a s [] [] [] h t k = tt
Known-Covers a s [] [] (x ∷ ks) h t k = absurd t
Known-Covers a s [] (y ∷ ys) ks h t k = absurd k
Known-Covers a s (ls ∷ vars) [] ks h t k = absurd k
Known-Covers a s (ls ∷ vars) (y ∷ ys) [] h t k = absurd t
Known-Covers a s (ls ∷ vars) (none ∷ ys) (x ∷ ks) h t k = Known-Covers a s vars ys ks h t.1 k
Known-Covers a s (ls ∷ vars) (some y ∷ ys) (x ∷ ks) h t k =
    let yes_y = value-holds a s (get_or ls y 0) h k.1 in
    (eq_of_== y x (sym (t.0.only y k.0) ∙ yes_y), Known-Covers a s vars ys ks h t.1 k.2)

pub Known-set :
    (s : Solver) (p : Lit) (vars : List (List Lit)) (ys : Tuple) (i j : ℕ)
    → value s p ≡ l_true
    → IsEntry vars (p, i, j)
    → Known s vars ys
    → Known s vars (set ys i (some j))
Known-set s p [] ys i j e is k = absurd (omega (arith, is.0))
Known-set s p (ls ∷ vars) [] i j e is k = absurd k
Known-set s p (ls ∷ vars) (none ∷ ys) zero j e is k = (is.1, rw is.2 e, k)
Known-set s p (ls ∷ vars) (some y ∷ ys) zero j e is k = (is.1, rw is.2 e, k.2)
Known-set s p (ls ∷ vars) (none ∷ ys) (suc i) j e is k =
    Known-set s p vars ys i j e (omega (arith, is.0), is.1, is.2) k
Known-set s p (ls ∷ vars) (some y ∷ ys) (suc i) j e is k =
    (k.0, k.1, Known-set s p vars ys i j e (omega (arith, is.0), is.1, is.2) k.2)

pub Known-Keeps :
    (s t : Solver) (vars : List (List Lit)) (ys : Tuple)
    → Keeps s t
    → Known s vars ys
    → Known t vars ys
Known-Keeps s t [] [] h k = tt
Known-Keeps s t [] (y ∷ ys) h k = absurd k
Known-Keeps s t (ls ∷ vars) [] h k = absurd k
Known-Keeps s t (ls ∷ vars) (none ∷ ys) h k = Known-Keeps s t vars ys h k
Known-Keeps s t (ls ∷ vars) (some y ∷ ys) h k =
    (k.0, value-Keeps s t (get_or ls y 0) h k.1, Known-Keeps s t vars ys h k.2)

-- A value that is known and not unknown is the one that a true literal says.
pub known_right :
    (a : Assignment) (p : Lit) (vars : List (List Lit)) (ys : Tuple) (ks : List ℕ) (i j : ℕ)
    → AllTake a vars ks
    → Covers ys ks
    → IsEntry vars (p, i, j)
    → holds a p ≡ true
    → unknown (get_or ys i none) ≡ false
    → same_value (get_or ys i none) j ≡ true
known_right a p [] ys ks i j t c is e u = absurd (omega (arith, is.0))
known_right a p (ls ∷ vars) [] ks i j t c is e u = absurd (ground arith)
known_right a p (ls ∷ vars) (y ∷ ys) [] i j t c is e u = absurd t
known_right a p (ls ∷ vars) (none ∷ ys) (k ∷ ks) zero j t c is e u = absurd (ground arith)
known_right a p (ls ∷ vars) (some y ∷ ys) (k ∷ ks) zero j t c is e u =
    let here : holds a (get_or ls j 0) ≡ true = rw is.2 e in
    let j_is_k = eq_of_== j k (sym (t.0.only j is.1) ∙ here) in (==_iff y j).1 (c.0 ∙ sym j_is_k)
known_right a p (ls ∷ vars) (none ∷ ys) (k ∷ ks) (suc i) j t c is e u =
    known_right a p vars ys ks i j t.1 c (omega (arith, is.0), is.1, is.2) e u
known_right a p (ls ∷ vars) (some y ∷ ys) (k ∷ ks) (suc i) j t c is e u =
    known_right a p vars ys ks i j t.1 c.1 (omega (arith, is.0), is.1, is.2) e u
