-- ===== src/Proof/Read.antt =====
-- The lines of the proof can be read back.
use glucose.Prelude.{
  ℕ, zero, suc, ◌+◌, ◌-◌, ◌*◌, ◌/◌, ◌%◌, ◌≤◌, ◌<◌, ◌≡◌, refl, ap, ◌∙◌, inl, inr, true, false,
  Option, none, some, List, [], ◌∷◌, ◌++◌, arith, ltb, if◌then◌else◌, Bool-cases,
}
use mathlib.Core.Option
use mathlib.Core.List.{append_assoc}
use glucose.Prelude.Lists.{length}
use glucose.Lit.{Lit, var}
use glucose.Lit.Laws.{sign_value}
use glucose.Proof.{write_loop, write_lit, code, write_lits}

-- A number: digits to the base 128 from the lowest on, all but the last with the eighth bit set.
unfoldable pub read_number : List ℕ → Option (ℕ × List ℕ)
read_number [] = none
read_number (b ∷ bs) =
    let rest = read_number bs in
    if ltb b 128
    then some (b, bs)
    else (elim rest [ none ↦ none | some (n, more) ↦ some (b - 128 + 128 * n, more) ])

-- One number of a clause: 0 ends it, and a number from 2 on is that of a literal.
unfoldable pub clause_step :
    (List ℕ → Option (List Lit × List ℕ)) → Option (ℕ × List ℕ) → Option (List Lit × List ℕ)
clause_step go none = none
clause_step go (some (zero, more)) = some ([], more)
clause_step go (some (suc zero, more)) = none
clause_step go (some (suc (suc p), more)) = Option.map (λ r. (p ∷ r.0, r.1)) (go more)

-- The fuel bounds how many numbers there are.
unfoldable pub read_clause : ℕ → List ℕ → Option (List Lit × List ℕ)
read_clause zero bs = none
read_clause (suc fuel) bs = clause_step (λ more. read_clause fuel more) (read_number bs)

read_number-write_loop :
    (fuel n : ℕ) (rest : List ℕ)
    → n ≤ fuel
    → read_number (write_loop fuel n ++ rest) ≡ some (n, rest)
unfolding read_number write_loop
read_number-write_loop zero zero rest h = refl
read_number-write_loop zero (suc n) rest h = absurd (omega arith)
read_number-write_loop (suc fuel) n rest h = elim (Bool-cases (ltb 127 n)) [
  | inr small ↦
      let low : ltb n 128 ≡ true = ground arith in
      rw (write_loop, small) (rw (read_number, low) refl)
  | inl big ↦
      let next = read_number-write_loop fuel (n / 128) rest (ground arith) in
      let marked : ltb (128 + n % 128) 128 ≡ false = ground arith in
      let digits : 128 + n % 128 - 128 + 128 * (n / 128) ≡ n = omega arith in
      rw (write_loop, big) (rw (read_number, marked, next, digits) refl)
]

read_number-write_lit : (n : ℕ) (rest : List ℕ) → read_number (write_lit n ++ rest) ≡ some (n, rest)
unfolding write_lit
read_number-write_lit n rest = read_number-write_loop n n rest (omega arith)

code_value : (p : Lit) → code p ≡ suc (suc p)
unfolding code var
code_value p = ground (arith, sign_value p)

-- A clause as it stands in a line of the proof is read back, with fuel for one number more than it
-- has literals, and what follows it is left.
pub read_clause-write_lits :
    (fuel : ℕ) (ls : List Lit) (rest : List ℕ)
    → length ls < fuel
    → read_clause fuel (write_lits ls ++ rest) ≡ some (ls, rest)
unfolding read_clause clause_step write_lits
read_clause-write_lits zero ls rest h = absurd (omega arith)
read_clause-write_lits (suc fuel) [] rest h =
    ap (clause_step (read_clause fuel)) (read_number-write_lit 0 rest)
read_clause-write_lits (suc fuel) (p ∷ ls) rest h =
    let more = write_lits ls ++ rest in
    ap (λ bs. clause_step (read_clause fuel) (read_number bs))
      (append_assoc (write_lit (code p)) (write_lits ls) rest)
    ∙ ap (clause_step (read_clause fuel)) (read_number-write_lit (code p) more)
    ∙ ap (λ n. clause_step (read_clause fuel) (some (n, more))) (code_value p)
    ∙ ap (Option.map (λ r. (p ∷ r.0, r.1))) (read_clause-write_lits fuel ls rest (omega arith))
