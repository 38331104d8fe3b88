-- ===== src/Search/Times.antt =====
-- How often a number is in a list, which a permutation keeps.
use glucose.Prelude.{
  ℕ, suc, ◌≤◌, ◌<◌, ◌≡◌, sym, inl, inr, List, [], ◌∷◌, arith, ◌==◌, if◌then◌else◌, eq_of_==,
  Bool-cases,
}
use glucose.Prelude.Lists.{In}

abbrev pub times : ℕ → List ℕ → ℕ
times x [] = 0
times x (y ∷ ys) = if x == y then suc (times x ys) else times x ys

-- No number is in the list twice.
abbrev pub IsUnique : List ℕ → Type 0
IsUnique xs = (x : ℕ) → times x xs ≤ 1

pub In-times : (x : ℕ) (xs : List ℕ) → In x xs → 0 < times x xs
In-times x [] m = absurd m
In-times x (y ∷ ys) (inl e) = ground arith
In-times x (y ∷ ys) (inr m) = ground (arith, In-times x ys m)

pub times-In : (x : ℕ) (xs : List ℕ) → 0 < times x xs → In x xs
times-In x [] h = absurd (omega arith)
times-In x (y ∷ ys) h = elim (Bool-cases (x == y)) [
  | inl e ↦ inl (sym (eq_of_== x y e))
  | inr f ↦ inr (times-In x ys (ground arith))
]

-- The two lists are permutations of each other.
abbrev pub Same : List ℕ → List ℕ → Type 0
Same xs ys = (x : ℕ) → times x xs ≡ times x ys

pub Same-IsUnique : (xs ys : List ℕ) → Same xs ys → IsUnique xs → IsUnique ys
Same-IsUnique xs ys h u x = omega (arith, h x, u x)

pub Same-In : (xs ys : List ℕ) (x : ℕ) → Same xs ys → In x xs → In x ys
Same-In xs ys x h m = times-In x ys (omega (arith, h x, In-times x xs m))
