-- ===== src/Container/Queue/Items.antt =====
-- Reading lists by place, and the list of the values of a function.
use glucose.Prelude.{
  ℕ, zero, suc, ◌+◌, ◌-◌, ◌≤◌, ◌<◌, ◌≡◌, refl, ap, ◌≢◌, List, [], ◌∷◌, ◌++◌, arith,
}
use glucose.Prelude.Lists.{length, get_or, set, replicate}
use glucose.Container.Queue.{from, before}

module _ {ℓ} {A : Type ℓ} where
  -- The values at 0 up to `n`.
  abbrev pub tabulate : ℕ → (ℕ → A) → List A
  tabulate zero f = []
  tabulate (suc n) f = f 0 ∷ tabulate n (λ k. f (suc k))

  pub tabulate_cong :
      (n : ℕ) (f g : ℕ → A) → ((k : ℕ) → k < n → f k ≡ g k) → tabulate n f ≡ tabulate n g
  tabulate_cong zero f g h = refl
  tabulate_cong (suc n) f g h =
      rw
        (
          h 0 (omega arith),
          tabulate_cong n (λ k. f (suc k)) (λ k. g (suc k)) λ k lt. h (suc k) (omega arith),
        )
        refl

  pub tabulate_snoc : (n : ℕ) (f : ℕ → A) → tabulate (suc n) f ≡ tabulate n f ++ f n ∷ []
  tabulate_snoc zero f = refl
  tabulate_snoc (suc n) f = ap (◌∷◌ (f 0)) (tabulate_snoc n (λ k. f (suc k)))

  pub get_or-set_same :
      (xs : List A) (i : ℕ) (v d : A) → i < length xs → get_or (set xs i v) i d ≡ v
  get_or-set_same [] i v d h = absurd (omega arith)
  get_or-set_same (x ∷ xs) zero v d h = refl
  get_or-set_same (x ∷ xs) (suc i) v d h = get_or-set_same xs i v d (omega arith)

  pub get_or-set_ne :
      (xs : List A) (i j : ℕ) (v d : A) → i ≢ j → get_or (set xs i v) j d ≡ get_or xs j d
  get_or-set_ne [] i j v d h = refl
  get_or-set_ne (x ∷ xs) zero zero v d h = absurd (h refl)
  get_or-set_ne (x ∷ xs) zero (suc j) v d h = refl
  get_or-set_ne (x ∷ xs) (suc i) zero v d h = refl
  get_or-set_ne (x ∷ xs) (suc i) (suc j) v d h = get_or-set_ne xs i j v d (λ e. h (ap suc e))

  pub get_or-append_left :
      (xs ys : List A) (i : ℕ) (d : A) → i < length xs → get_or (xs ++ ys) i d ≡ get_or xs i d
  get_or-append_left [] ys i d h = absurd (omega arith)
  get_or-append_left (x ∷ xs) ys zero d h = refl
  get_or-append_left (x ∷ xs) ys (suc i) d h = get_or-append_left xs ys i d (omega arith)

  pub get_or-append_right :
      (xs ys : List A) (j i : ℕ) (d : A) → j ≡ length xs + i → get_or (xs ++ ys) j d ≡ get_or ys i d
  get_or-append_right [] ys j i d h = ap (λ m. get_or ys m d) (omega arith)
  get_or-append_right (x ∷ xs) ys zero i d h = absurd (omega arith)
  get_or-append_right (x ∷ xs) ys (suc j) i d h = get_or-append_right xs ys j i d (omega arith)

  pub length-from : (k : ℕ) (xs : List A) → length (from k xs) ≡ length xs - k
  unfolding from
  length-from zero xs = omega arith
  length-from (suc k) [] = omega arith
  length-from (suc k) (x ∷ xs) = omega (arith, length-from k xs)

  pub length-before : (k : ℕ) (xs : List A) → k ≤ length xs → length (before k xs) ≡ k
  unfolding before
  length-before zero xs h = refl
  length-before (suc k) [] h = absurd (omega arith)
  length-before (suc k) (x ∷ xs) h = omega (arith, length-before k xs (omega arith))

  pub length-replicate : (n : ℕ) (d : A) → length (replicate n d) ≡ n
  length-replicate zero d = refl
  length-replicate (suc n) d = omega (arith, length-replicate n d)

  pub get_or-from :
      (k i j : ℕ) (xs : List A) (d : A) → j ≡ k + i → get_or (from k xs) i d ≡ get_or xs j d
  unfolding from
  get_or-from zero i j xs d h = ap (λ m. get_or xs m d) (omega arith)
  get_or-from (suc k) i zero [] d h = refl
  get_or-from (suc k) i (suc j) [] d h = refl
  get_or-from (suc k) i zero (x ∷ xs) d h = absurd (omega arith)
  get_or-from (suc k) i (suc j) (x ∷ xs) d h = get_or-from k i j xs d (omega arith)

  pub get_or-before :
      (k i : ℕ) (xs : List A) (d : A) → i < k → get_or (before k xs) i d ≡ get_or xs i d
  unfolding before
  get_or-before zero i xs d h = absurd (omega arith)
  get_or-before (suc k) i [] d h = refl
  get_or-before (suc k) zero (x ∷ xs) d h = refl
  get_or-before (suc k) (suc i) (x ∷ xs) d h = get_or-before k i xs d (omega arith)
