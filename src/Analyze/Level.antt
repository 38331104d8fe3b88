-- ===== src/Analyze/Level.antt =====
-- core/Solver.cc: the end of `analyze`, which finds the level to go back to and puts a literal of
-- that level second.
use glucose.Prelude.{
  ℕ, zero, suc, ◌+◌, ◌≤◌, ◌<◌, ◌≡◌, refl, subst, inl, inr, List, [], ◌∷◌, arith, ltb, if◌then◌else◌,
  Bool-cases,
}
use glucose.Prelude.Lists.{All, length, get_or, set}
use glucose.Lit.{Lit, var}
use glucose.Solver.{Solver}
use glucose.Search.Times.{times, Same}

-- The loop for the place of the greatest level, over the literals from place `i` on.
unfoldable pub max_place : Solver → List Lit → List Lit → ℕ → ℕ → ℕ
max_place s c [] i max_i = max_i
max_place s c (q ∷ qs) i max_i =
    if ltb (s.level (var (get_or c max_i 0))) (s.level (var q))
    then max_place s c qs (suc i) i
    else max_place s c qs (suc i) max_i

-- The clause in its new order, and the level.
unfoldable pub backtrack_level : Solver → List Lit → List Lit × ℕ
unfolding max_place
backtrack_level s [] = ([], 0)
backtrack_level s (q ∷ []) = (q ∷ [], 0)
backtrack_level s (q ∷ r ∷ rest) =
    let c = q ∷ r ∷ rest in
    let max_i = max_place s c rest 2 1 in
    let p = get_or c max_i 0 in (set (set c max_i r) 1 p, s.level (var p))

-- A place of a greatest level, among the literals that are given and the one at place `m`.
record Greatest (s : Solver) (c qs : List Lit) (m j : ℕ) : Type 0 where
  pub inside : j < length c
  pub later : 1 ≤ j
  pub all : All (λ q. s.level (var q) ≤ s.level (var (get_or c j 0))) qs
  pub best : s.level (var (get_or c m 0)) ≤ s.level (var (get_or c j 0))

-- The places from `i` on hold the literals that are left.
abbrev Rest : List Lit → List Lit → ℕ → Type 0
Rest c [] i = i ≡ length c
Rest c (q ∷ qs) i = (get_or c i 0 ≡ q) × Rest c qs (suc i)

Rest-lt : (c qs : List Lit) (i : ℕ) → Rest c qs i → i + length qs ≡ length c
Rest-lt c [] i h = omega (arith, h)
Rest-lt c (q ∷ qs) i h = omega (arith, Rest-lt c qs (suc i) h.1)

max_place-Greatest :
    (s : Solver) (c qs : List Lit) (i m : ℕ)
    → Rest c qs i
    → 1 ≤ i
    → 1 ≤ m
    → m < length c
    → Greatest s c qs m (max_place s c qs i m)
unfolding max_place
max_place-Greatest s c [] i m h le lm lt = record {
  inside = lt;
  later = lm;
  all = tt;
  best = omega arith;
}
max_place-Greatest s c (q ∷ qs) i m h le lm lt =
    elim (Bool-cases (ltb (s.level (var (get_or c m 0))) (s.level (var q)))) [
      | inl more ↦
          let g =
            max_place-Greatest s c qs (suc i) i h.1 (omega arith) le
              (omega (arith, Rest-lt c (q ∷ qs) i h)) in
          let up : s.level (var q) ≤ s.level (var (get_or c (max_place s c qs (suc i) i) 0)) =
            subst (λ q. s.level (var q) ≤ s.level (var (get_or c (max_place s c qs (suc i) i) 0)))
              h.0 g.best in
          rw (max_place, more)
            (record {
              inside = g.inside;
              later = g.later;
              all = (up, g.all);
              best = ground (arith, up);
            })
      | inr less ↦
          let g = max_place-Greatest s c qs (suc i) m h.1 (omega arith) lm lt in
          rw (max_place, less)
            (record {
              inside = g.inside;
              later = g.later;
              all = (ground (arith, g.best), g.all);
              best = g.best;
            })
    ]

Rest-cons : (x : Lit) (c qs : List Lit) (i : ℕ) → Rest c qs i → Rest (x ∷ c) qs (suc i)
Rest-cons x c [] i h = omega (arith, h)
Rest-cons x c (q ∷ qs) i h = (h.0, Rest-cons x c qs (suc i) h.1)

Rest-self : (c : List Lit) → Rest c c 0
Rest-self [] = refl
Rest-self (x ∷ xs) = (refl, Rest-cons x xs xs 0 (Rest-self xs))

times-swap :
    (x r : Lit) (rest : List Lit) (k : ℕ)
    → k < length rest
    → times x (r ∷ rest) ≡ times x (get_or rest k 0 ∷ set rest k r)
times-swap x r [] k lt = absurd (omega arith)
times-swap x r (y ∷ ys) zero lt = ground arith
times-swap x r (y ∷ ys) (suc k) lt = ground (arith, times-swap x r ys k (omega (arith, lt)))

All-set : (P : Lit → Type 0) (xs : List Lit) (k : ℕ) (v : Lit) → P v → All P xs → All P (set xs k v)
All-set P [] k v h a = tt
All-set P (x ∷ xs) zero v h a = (h, a.1)
All-set P (x ∷ xs) (suc k) v h a = (a.0, All-set P xs k v h a.1)

-- A clause whose second literal has the level, which is the greatest but for the first literal.
abbrev pub IsOrdered : Solver → List Lit × ℕ → Type 0
IsOrdered s ([], n) = n ≡ 0
IsOrdered s (q ∷ [], n) = n ≡ 0
IsOrdered s (q ∷ p ∷ rest, n) = (n ≡ s.level (var p)) × All (λ l. s.level (var l) ≤ n) rest

-- With the first literal kept, a permutation of the clause.
abbrev pub Rearranged : Solver → List Lit → List Lit × ℕ → Type 0
Rearranged s c r = Same c r.0 × (get_or r.0 0 0 ≡ get_or c 0 0) × IsOrdered s r

swapped_in :
    (s : Solver) (q r : Lit) (rest : List Lit) (j : ℕ)
    → Greatest s (q ∷ r ∷ rest) rest 1 j
    → let p = get_or (q ∷ r ∷ rest) j 0 in
      Rearranged s (q ∷ r ∷ rest) (set (set (q ∷ r ∷ rest) j r) 1 p, s.level (var p))
swapped_in s q r rest zero g = absurd (omega (arith, g.later))
swapped_in s q r rest (suc zero) g = ((λ x. refl), refl, (refl, g.all))
swapped_in s q r rest (suc (suc k)) g = (
  λ x. ground (arith, times-swap x r rest k (omega (arith, g.inside))),
  refl,
  (refl, All-set (λ l. s.level (var l) ≤ s.level (var (get_or rest k 0))) rest k r g.best g.all),
)

-- The clause that is learnt is put in an order with its first literal kept, in which the second
-- literal has the greatest level of the rest; the level to go back to is that of the second literal,
-- or 0 for a clause of one literal.
pub backtrack_level-Rearranged : (s : Solver) (c : List Lit) → Rearranged s c (backtrack_level s c)
unfolding backtrack_level
backtrack_level-Rearranged s [] = ((λ x. refl), refl, refl)
backtrack_level-Rearranged s (q ∷ []) = ((λ x. refl), refl, refl)
backtrack_level-Rearranged s (q ∷ r ∷ rest) =
    let c = q ∷ r ∷ rest in
    swapped_in s q r rest (max_place s c rest 2 1)
      (max_place-Greatest s c rest 2 1 (Rest-self c).1.1 (omega arith) (omega arith) (omega arith))
