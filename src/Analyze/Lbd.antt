-- ===== src/Analyze/Lbd.antt =====
-- core/Solver.cc: `computeLBD` in the default mode.
use glucose.Prelude.{
  ℕ, suc, ◌+◌, ◌-◌, ◌%◌, ◌^◌, ◌≤◌, ◌<◌, ◌≡◌, refl, ap, subst, inl, inr, Bool, true, false, not,
  ◌||◌, List, [], ◌∷◌, arith, ◌==◌, if◌then◌else◌, ==_refl, eq_of_==, Bool-cases, update,
}
use glucose.Prelude.Lists.{length}
use glucose.Lit.{Lit, var}
use glucose.Solver.{Solver}

-- `MYFLAG`, which marks the levels that the current call has seen, is `flag`.
unfoldable pub lbd_loop : Solver → ℕ → List Lit → (ℕ → ℕ) → ℕ → ℕ × (ℕ → ℕ)
lbd_loop s flag [] perm_diff nblevels = (nblevels, perm_diff)
lbd_loop s flag (q ∷ qs) perm_diff nblevels =
    let l = s.level (var q) in
    if not (perm_diff l == flag)
    then lbd_loop s flag qs (update perm_diff l flag) (nblevels + 1)
    else lbd_loop s flag qs perm_diff nblevels

-- The count, the marks and the flag after the call. `MYFLAG` is an `unsigned int`: from 2 ^ 32 - 1 it
-- goes to 0.
unfoldable pub compute_lbd : Solver → List Lit → (ℕ → ℕ) → ℕ → ℕ × (ℕ → ℕ) × ℕ
unfolding lbd_loop
compute_lbd s lits perm_diff flag =
    let next = (flag + 1) % 2 ^ 32 in let (n, p) = lbd_loop s next lits perm_diff 0 in (n, p, next)

-- The numbers of the list, each once.
abbrev member : ℕ → List ℕ → Bool
member x [] = false
member x (y ∷ ys) = (x == y) || member x ys

abbrev pub once : List ℕ → List ℕ
once [] = []
once (x ∷ xs) = if member x xs then once xs else x ∷ once xs

abbrev pub levels : Solver → List Lit → List ℕ
levels s [] = []
levels s (q ∷ qs) = s.level (var q) ∷ levels s qs

-- How many numbers of the list are not marked, each counted once.
abbrev uncounted : (ℕ → Bool) → List ℕ → ℕ
uncounted f [] = 0
uncounted f (x ∷ xs) =
    if member x xs then uncounted f xs else if f x then uncounted f xs else suc (uncounted f xs)

uncounted-same :
    (f g : ℕ → Bool) (xs : List ℕ)
    → ((x : ℕ) → member x xs ≡ true → f x ≡ g x)
    → uncounted f xs ≡ uncounted g xs
uncounted-same f g [] h = refl
uncounted-same f g (x ∷ xs) h =
    let rest = uncounted-same f g xs (λ y m. h y (ground arith)) in
    rw (rest, h x (ground arith)) refl

uncounted-apart :
    (f : ℕ → Bool) (y : ℕ) (xs : List ℕ)
    → member y xs ≡ false
    → uncounted (update f y true) xs ≡ uncounted f xs
uncounted-apart f y xs h = uncounted-same (update f y true) f xs λ z k. elim (Bool-cases (y == z)) [
  | inr other ↦ rw other refl
  | inl same ↦ absurd (ground (arith, ap (λ y. member y xs) (eq_of_== y z same)))
]

-- A mark more.
uncounted-update :
    (f : ℕ → Bool) (y : ℕ) (xs : List ℕ)
    → f y ≡ false
    → member y xs ≡ true
    → suc (uncounted (update f y true) xs) ≡ uncounted f xs
uncounted-update f y [] h m = absurd (ground arith)
uncounted-update f y (x ∷ xs) h m = elim (Bool-cases (member y xs)) [
  | inl later ↦
      let rest = uncounted-update f y xs h later in
      elim (Bool-cases (y == x)) [
        | inl same ↦
            let e = eq_of_== y x same in
            let gone : member x xs ≡ true = subst (λ y. member y xs ≡ true) e later in ground arith
        | inr other ↦ ground arith
      ]
  | inr last ↦
      let same : (y == x) ≡ true = ground arith in
      let e = eq_of_== y x same in
      let gone : member x xs ≡ false = subst (λ y. member y xs ≡ false) e last in
      let free : f x ≡ false = subst (λ y. f y ≡ false) e h in
      let rest = uncounted-apart f y xs last in ground arith
]

stamped :
    (perm_diff : ℕ → ℕ) (flag y z : ℕ)
    → (update perm_diff y flag z == flag) ≡ update (λ l. perm_diff l == flag) y true z
stamped perm_diff flag y z = elim (Bool-cases (y == z)) [
  | inl same ↦ rw same (==_refl flag)
  | inr other ↦ rw other refl
]

-- The loop's count.
lbd_loop-uncounted :
    (s : Solver) (flag : ℕ) (qs : List Lit) (perm_diff : ℕ → ℕ) (n : ℕ)
    → (lbd_loop s flag qs perm_diff n).0 ≡ n + uncounted (λ l. perm_diff l == flag) (levels s qs)
unfolding lbd_loop
lbd_loop-uncounted s flag [] perm_diff n = omega arith
lbd_loop-uncounted s flag (q ∷ qs) perm_diff n =
    let x = s.level (var q) in
    let xs = levels s qs in
    let f = λ (l : ℕ). perm_diff l == flag in
    elim (Bool-cases (perm_diff x == flag)) [
      | inl seen ↦ rw (lbd_loop, seen) (ground (arith, lbd_loop-uncounted s flag qs perm_diff n))
      | inr new ↦
          let rest = lbd_loop-uncounted s flag qs (update perm_diff x flag) (n + 1) in
          let same =
            uncounted-same (λ l. update perm_diff x flag l == flag) (update f x true) xs
              (λ z k. stamped perm_diff flag x z) in
          rw (lbd_loop, new)
            (elim (Bool-cases (member x xs)) [
              | inl later ↦ ground (arith, rest, same, uncounted-update f x xs new later)
              | inr last ↦ ground (arith, rest, same, uncounted-apart f x xs last)
            ])
    ]

lbd_loop-le :
    (s : Solver) (flag : ℕ) (qs : List Lit) (perm_diff : ℕ → ℕ) (n : ℕ)
    → ((l : ℕ) → perm_diff l ≤ flag)
    → (l : ℕ) → (lbd_loop s flag qs perm_diff n).1 l ≤ flag
unfolding lbd_loop
lbd_loop-le s flag [] perm_diff n h l = h l
lbd_loop-le s flag (q ∷ qs) perm_diff n h l =
    elim (Bool-cases (perm_diff (s.level (var q)) == flag)) [
      | inl seen ↦ rw (lbd_loop, seen) (lbd_loop-le s flag qs perm_diff n h l)
      | inr new ↦
          rw (lbd_loop, new)
            (lbd_loop-le s flag qs (update perm_diff (s.level (var q)) flag) (n + 1)
              (λ m. ground (arith, h m)) l)
    ]

uncounted-once : (xs : List ℕ) → uncounted (λ l. false) xs ≡ length (once xs)
uncounted-once [] = refl
uncounted-once (x ∷ xs) = ground (arith, uncounted-once xs)

once-le : (s : Solver) (qs : List Lit) → length (once (levels s qs)) ≤ length qs
once-le s [] = omega arith
once-le s (q ∷ qs) = ground (arith, once-le s qs)

-- If no mark is above the flag, and the flag is below 2 ^ 32 - 1, `computeLBD` gives the number of
-- different levels of the literals, which is at most the number of literals, no mark is above the
-- new flag, and the new flag is one more than the old.
pub compute_lbd-levels :
    (s : Solver) (lits : List Lit) (perm_diff : ℕ → ℕ) (flag : ℕ)
    → flag < 2 ^ 32 - 1
    → ((l : ℕ) → perm_diff l ≤ flag)
    → let (n, p, f) = compute_lbd s lits perm_diff flag in
      (n ≡ length (once (levels s lits))) × (n ≤ length lits) × ((l : ℕ) → p l ≤ f) × (f ≡ flag + 1)
unfolding compute_lbd
compute_lbd-levels s lits perm_diff flag small h =
    let next : (flag + 1) % 2 ^ 32 ≡ flag + 1 = omega arith in
    let count = lbd_loop-uncounted s (flag + 1) lits perm_diff 0 in
    let fresh =
      uncounted-same (λ l. perm_diff l == flag + 1) (λ l. false) (levels s lits)
        (λ l k. ground (arith, h l)) in
    let all = uncounted-once (levels s lits) in
    rw next (
      omega (arith, count, fresh, all),
      omega (arith, count, fresh, all, once-le s lits),
      lbd_loop-le s (flag + 1) lits perm_diff 0 (λ l. omega (arith, h l)),
      refl,
    )
