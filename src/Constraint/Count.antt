-- ===== src/Constraint/Count.antt =====
-- How many elements of a list pass a test.
use glucose.Prelude.{
  ℕ, suc, ◌≤◌, ◌≡◌, refl, sym, ap, ◌∙◌, ◌≢◌, inl, inr, Bool, true, false, List, [], ◌∷◌, arith,
  if◌then◌else◌, update,
}
use mathlib.Core.Path.{subst}
use glucose.Prelude.Lists.{In, All, All-In}

module _ {ℓ} {A : Type ℓ} where
  abbrev pub count : (A → Bool) → List A → ℕ
  count f [] = 0
  count f (x ∷ xs) = if f x then suc (count f xs) else count f xs

-- No element occurs twice.
abbrev pub IsDistinct : List ℕ → Type 0
IsDistinct [] = Unit
IsDistinct (x ∷ xs) = All (λ y. x ≢ y) xs × IsDistinct xs

-- The first test passes wherever the second does.
abbrev pub Below : (ℕ → Bool) → (ℕ → Bool) → List ℕ → Type 0
Below f g xs = (x : ℕ) → In x xs → g x ≡ true → f x ≡ true

pub count_mono : (f g : ℕ → Bool) (xs : List ℕ) → Below f g xs → count g xs ≤ count f xs
count_mono f g [] h = omega arith
count_mono f g (x ∷ xs) h =
    let rest = count_mono f g xs λ y m. h y (inr m) in ground (arith, h x (inl refl), rest)

-- Where the counts are equal the tests agree.
pub count_tight :
    (f g : ℕ → Bool) (xs : List ℕ)
    → Below f g xs
    → count f xs ≤ count g xs
    → (x : ℕ) → In x xs
    → g x ≡ false
    → f x ≡ false
count_tight f g [] h k x m e = absurd m
count_tight f g (y ∷ xs) h k x (inl same) e =
    let rest = count_mono f g xs λ z n. h z (inr n) in
    let gy : g y ≡ false = ap g same ∙ e in
    let fy : f y ≡ false = ground (arith, rest) in ap f (sym same) ∙ fy
count_tight f g (y ∷ xs) h k x (inr more) e =
    let rest = count_mono f g xs λ z n. h z (inr n) in
    count_tight f g xs (λ z n. h z (inr n)) (ground (arith, rest, h y (inl refl))) x more e

count-update_out :
    (f : ℕ → Bool) (x : ℕ) (b : Bool) (xs : List ℕ)
    → All (λ y. x ≢ y) xs
    → count (update f x b) xs ≡ count f xs
count-update_out f x b [] h = refl
count-update_out f x b (y ∷ xs) h = ground (arith, count-update_out f x b xs h.1, h.0)

-- One more element passes.
pub count-update :
    (f : ℕ → Bool) (x : ℕ) (xs : List ℕ)
    → IsDistinct xs
    → In x xs
    → f x ≡ false
    → count (update f x true) xs ≡ suc (count f xs)
count-update f x [] d m e = absurd m
count-update f x (y ∷ xs) d (inl same) e =
    let away = subst (λ z. All (λ w. z ≢ w) xs) same d.0 in
    let fy : f y ≡ false = ap f same ∙ e in ground (arith, count-update_out f x true xs away)
count-update f x (y ∷ xs) d (inr more) e =
    let apart : y ≢ x = All-In (λ w. y ≢ w) xs d.0 more in
    ground (arith, count-update f x xs d.1 more e)
