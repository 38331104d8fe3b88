-- ===== src/Constraint/Graph/Sums.antt =====
-- Sums over the first `n` vertices.
use glucose.Prelude.{
  ℕ, zero, suc, ◌+◌, ◌≤◌, ◌<◌, ◌≡◌, refl, sym, subst, ◌≢◌, inl, inr, arith, ltb, ◌==◌, eq_of_==,
  Bool-cases,
}

abbrev pub total : ℕ → (ℕ → ℕ) → ℕ
total zero f = 0
total (suc n) f = f n + total n f

pub total-ap : (n : ℕ) (f g : ℕ → ℕ) → ((x : ℕ) → x < n → f x ≡ g x) → total n f ≡ total n g
total-ap zero f g h = refl
total-ap (suc n) f g h = omega (arith, h n (omega arith), total-ap n f g λ x lt. h x (omega arith))

pub total-add :
    (n : ℕ) (f g h : ℕ → ℕ) → ((x : ℕ) → f x ≡ g x + h x) → total n f ≡ total n g + total n h
total-add zero f g h e = omega arith
total-add (suc n) f g h e = omega (arith, e n, total-add n f g h e)

-- Two functions that differ at `i` only.
pub total-change :
    (n i : ℕ) (f g : ℕ → ℕ)
    → i < n
    → ((x : ℕ) → i ≢ x → f x ≡ g x)
    → total n f + g i ≡ total n g + f i
total-change zero i f g lt h = absurd (omega arith)
total-change (suc n) i f g lt h = elim (Bool-cases (i == n)) [
  | inl same ↦
      let e : i ≡ n = eq_of_== i n same in
      let rest = total-ap n f g λ x less. h x (λ k. omega arith) in
      subst (λ j. f n + total n f + g j ≡ g n + total n g + f j) (sym e) (omega (arith, rest))
  | inr other ↦
      let less : i < n = ground arith in
      omega (arith, h n (λ k. ground arith), total-change n i f g less h)
]

pub some_positive : (n : ℕ) (f : ℕ → ℕ) → 0 < total n f → (x : ℕ) × (x < n) × (0 < f x)
some_positive zero f h = absurd (omega arith)
some_positive (suc n) f h = elim (Bool-cases (ltb 0 (f n))) [
  | inl here ↦ (n, omega arith, ground arith)
  | inr not_here ↦ let (x, lt, p) = some_positive n f (ground arith) in (x, omega arith, p)
]

-- Two places, where each counts once.
pub two_positive :
    (n : ℕ) (f : ℕ → ℕ)
    → ((x : ℕ) → f x ≤ 1)
    → 1 < total n f
    → (x : ℕ) × (y : ℕ) × (x < y) × (y < n) × (0 < f x) × (0 < f y)
two_positive zero f h k = absurd (omega arith)
two_positive (suc n) f h k = elim (Bool-cases (ltb 0 (f n))) [
  | inl here ↦
      let (x, lt, p) = some_positive n f (omega (arith, h n)) in
      (x, n, lt, omega arith, p, ground arith)
  | inr not_here ↦
      let (x, y, lt, lt', p, q) = two_positive n f h (ground arith) in (x, y, lt, omega arith, p, q)
]
