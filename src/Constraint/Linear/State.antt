-- ===== src/Constraint/Linear/State.antt =====
-- The state of the constraint: its upper bounds, and what they say of a model.
use glucose.Prelude.{ℕ, zero, suc, ◌≤◌, ◌<◌, ◌≡◌, sym, true, false, List, [], ◌∷◌, arith}
use glucose.Prelude.Lists.{length, get_or, set, All}
use glucose.Prelude.Int.{ℤ, pos, ◌+ℤ◌, ◌-ℤ◌, ◌≤ℤ◌, ltb_ℤ, int_laws, +ℤ_parts}
use glucose.Lit.{Lit, neg}
use glucose.Lit.Truth.{Assignment, holds, holds-neg}
use glucose.Lbool.{l_true}
use glucose.Solver.{Solver, value}
use glucose.Solver.Agree.{Agrees, Keeps, value-Agrees, value-Keeps}
use glucose.Constraint.Linear.{LinearTerm, Linear, Entry, empty_term, domain_at, tighten}
use glucose.Constraint.Linear.Bounds.{IsTerm, sum_at, sum_of, Bounded, sum_of-le, chosen_le}

swap_one : (x y r : ℤ) → y +ℤ r ≡ x +ℤ r -ℤ (x -ℤ y)
swap_one x y r = grind int_laws

sub_right : (x r d : ℤ) → x +ℤ (r -ℤ d) ≡ x +ℤ r -ℤ d
sub_right x r d = grind int_laws

-- The upper bounds are places of the domains, and the literal at one is false.
abbrev pub Closed : Solver → List LinearTerm → List ℕ → Type 0
Closed s [] [] = Unit
Closed s [] (u ∷ us) = ⊥
Closed s (t ∷ ts) [] = ⊥
Closed s (t ∷ ts) (u ∷ us) =
    (u ≤ length t.lits)
    × (u < length t.lits → value s (neg (get_or t.lits u 0)) ≡ l_true)
    × Closed s ts us

-- The state of the constraint: the upper bounds, and their sum.
pub record Tracks (s : Solver) (c : Linear) : Type 0 where
  pub closed : Closed s c.terms c.ub_index
  pub total : c.total_ub ≡ c.constant +ℤ sum_at c.terms c.ub_index

-- The entry names a literal that there is.
abbrev pub IsEntry : List LinearTerm → Entry → Type 0
IsEntry ts (l, i, j) =
    (i < length ts)
    × (j < length (get_or ts i empty_term).lits)
    × (get_or (get_or ts i empty_term).lits j 0 ≡ l)

-- The sum and the constant are at least 0.
abbrev pub Meets : Assignment → Linear → Type 0
Meets a c = pos 0 ≤ℤ c.constant +ℤ sum_of a c.terms

true-holds :
    (a : Assignment) (s : Solver) (p : Lit) → Agrees a s → value s p ≡ l_true → holds a p ≡ true
true-holds a s p h e = ground (arith, value-Agrees a s p h)

pub Closed-Bounded :
    (a : Assignment) (s : Solver) (ts : List LinearTerm) (us : List ℕ)
    → Agrees a s
    → Closed s ts us
    → Bounded a ts us
Closed-Bounded a s [] [] h k = tt
Closed-Bounded a s [] (u ∷ us) h k = absurd k
Closed-Bounded a s (t ∷ ts) [] h k = absurd k
Closed-Bounded a s (t ∷ ts) (u ∷ us) h k = (
  chosen_le a t.lits u k.0 (λ lt. ground (
    arith,
    holds-neg a (get_or t.lits u 0),
    true-holds a s (neg (get_or t.lits u 0)) h (k.1 lt),
  )),
  k.0,
  Closed-Bounded a s ts us h k.2,
)

pub Closed-Keeps :
    (s s' : Solver) (ts : List LinearTerm) (us : List ℕ)
    → Keeps s s'
    → Closed s ts us
    → Closed s' ts us
Closed-Keeps s s' [] [] h k = tt
Closed-Keeps s s' [] (u ∷ us) h k = absurd k
Closed-Keeps s s' (t ∷ ts) [] h k = absurd k
Closed-Keeps s s' (t ∷ ts) (u ∷ us) h k = (
  k.0,
  λ lt. value-Keeps s s' (neg (get_or t.lits u 0)) h (k.1 lt),
  Closed-Keeps s s' ts us h k.2,
)

Closed-set :
    (s : Solver) (q : Lit) (ts : List LinearTerm) (us : List ℕ) (i j : ℕ)
    → value s (neg q) ≡ l_true
    → IsEntry ts (q, i, j)
    → Closed s ts us
    → Closed s ts (set us i j)
Closed-set s q [] us i j e is k = absurd (omega (arith, is.0))
Closed-set s q (t ∷ ts) [] i j e is k = absurd k
Closed-set s q (t ∷ ts) (u ∷ us) zero j e is k = (omega (arith, is.1), λ lt. rw is.2 e, k.2)
Closed-set s q (t ∷ ts) (u ∷ us) (suc i) j e is k =
    (k.0, k.1, Closed-set s q ts us i j e (omega (arith, is.0), is.1, is.2) k.2)

sum_at-set :
    (s : Solver) (ts : List LinearTerm) (us : List ℕ) (i j : ℕ)
    → i < length ts
    → Closed s ts us
    → sum_at ts (set us i j) ≡ sum_at ts us -ℤ (domain_at ts i (get_or us i 0) -ℤ domain_at ts i j)
sum_at-set s [] us i j h k = absurd (omega arith)
sum_at-set s (t ∷ ts) [] i j h k = absurd k
sum_at-set s (t ∷ ts) (u ∷ us) zero j h k =
    swap_one (get_or t.domain u (pos 0)) (get_or t.domain j (pos 0)) (sum_at ts us)
sum_at-set s (t ∷ ts) (u ∷ us) (suc i) j h k = rw (sum_at-set s ts us i j (omega arith) k.2) (
    sub_right (get_or t.domain u (pos 0)) (sum_at ts us)
      (domain_at ts i (get_or us i 0) -ℤ domain_at ts i j))

pub tighten-Tracks :
    (s : Solver) (c : Linear) (q : Lit) (i j : ℕ)
    → value s (neg q) ≡ l_true
    → IsEntry c.terms (q, i, j)
    → Tracks s c
    → Tracks s (tighten c i j)
unfolding tighten
tighten-Tracks s c q i j e is k = record {
  closed = Closed-set s q c.terms c.ub_index i j e is k.closed;
  total =
      rw (k.total, sum_at-set s c.terms c.ub_index i j is.0 k.closed)
        (sym (sub_right c.constant (sum_at c.terms c.ub_index) _));
}

-- No bound on the sum that is right falls below 0 while the constraint has a model.
pub total_fine :
    (a : Assignment) (s : Solver) (c : Linear)
    → All IsTerm c.terms
    → Agrees a s
    → Meets a c
    → Tracks s c
    → ltb_ℤ c.total_ub (pos 0) ≡ false
total_fine a s c h agrees meets k =
    let le =
      sum_of-le a c.terms c.ub_index h (Closed-Bounded a s c.terms c.ub_index agrees k.closed) in
    let upper = +ℤ_parts c.constant (sum_at c.terms c.ub_index) in
    let sum = +ℤ_parts c.constant (sum_of a c.terms) in
    rw k.total (ground (arith, le, upper, sum, meets))
