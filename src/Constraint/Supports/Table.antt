-- ===== src/Constraint/Supports/Table.antt =====
-- The table of the values that occur in the tuples that match.
use glucose.Prelude.{
  ℕ, zero, suc, ◌+◌, ◌≤◌, ◌<◌, ◌≡◌, refl, sym, subst, inl, inr, Bool, true, false, none, some, List,
  [], ◌∷◌, arith, ◌==◌, Bool-cases,
}
use glucose.Prelude.Lists.{length, get_or, set, In}
use glucose.Container.Queue.Items.{get_or-set_same, length-replicate}
use glucose.Prelude.Lists.{length-set}
use glucose.Lit.{Lit}
use glucose.Lit.Truth.{Assignment, holds}
use glucose.Constraint.Supports.{Tuple, matches, column, mark, empty_table, occurrences}

-- The variable's literals say that it has the value at place `k`.
pub record Takes (a : Assignment) (ls : List Lit) (k : ℕ) : Type 0 where
  pub inside : k < length ls
  pub only : (j : ℕ) → j < length ls → holds a (get_or ls j 0) ≡ (j == k)

abbrev pub AllTake : Assignment → List (List Lit) → List ℕ → Type 0
AllTake a [] [] = Unit
AllTake a [] (k ∷ ks) = ⊥
AllTake a (ls ∷ vars) [] = ⊥
AllTake a (ls ∷ vars) (k ∷ ks) = Takes a ls k × AllTake a vars ks

-- The tuple has the values `ks`, or any value.
abbrev pub Covers : Tuple → List ℕ → Type 0
Covers [] [] = Unit
Covers [] (k ∷ ks) = ⊥
Covers (x ∷ xs) [] = ⊥
Covers (none ∷ xs) (k ∷ ks) = Covers xs ks
Covers (some x ∷ xs) (k ∷ ks) = (x ≡ k) × Covers xs ks

pub Covers-matches :
    (xs ys : Tuple) (ks : List ℕ) → Covers xs ks → Covers ys ks → matches xs ys ≡ true
unfolding matches
Covers-matches [] ys ks c d = refl
Covers-matches (x ∷ xs) [] ks c d = refl
Covers-matches (x ∷ xs) (y ∷ ys) [] c d = absurd c
Covers-matches (none ∷ xs) (none ∷ ys) (k ∷ ks) c d = Covers-matches xs ys ks c d
Covers-matches (none ∷ xs) (some y ∷ ys) (k ∷ ks) c d = Covers-matches xs ys ks c d.1
Covers-matches (some x ∷ xs) (none ∷ ys) (k ∷ ks) c d = Covers-matches xs ys ks c.1 d
Covers-matches (some x ∷ xs) (some y ∷ ys) (k ∷ ks) c d =
    ground (arith, Covers-matches xs ys ks c.1 d.1)

-- The table has a column for each value of the tuple.
abbrev Sized : Tuple → List (List Bool) → Type 0
Sized [] table = Unit
Sized (x ∷ xs) [] = Unit
Sized (x ∷ xs) (row ∷ table) = (column x < length row) × Sized xs table

-- These columns are marked.
abbrev pub Marked : Tuple → List (List Bool) → Type 0
Marked [] table = Unit
Marked (x ∷ xs) [] = Unit
Marked (x ∷ xs) (row ∷ table) = (get_or row (column x) false ≡ true) × Marked xs table

mark-Sized : (ys xs : Tuple) (table : List (List Bool)) → Sized xs table → Sized xs (mark ys table)
unfolding mark
mark-Sized ys [] table h = tt
mark-Sized [] (x ∷ xs) [] h = tt
mark-Sized (y ∷ ys) (x ∷ xs) [] h = tt
mark-Sized [] (x ∷ xs) (row ∷ table) h = h
mark-Sized (y ∷ ys) (x ∷ xs) (row ∷ table) h =
    (omega (arith, h.0, length-set row (column y) true), mark-Sized ys xs table h.1)

mark-Marked : (xs : Tuple) (table : List (List Bool)) → Sized xs table → Marked xs (mark xs table)
unfolding mark
mark-Marked [] table h = tt
mark-Marked (x ∷ xs) [] h = tt
mark-Marked (x ∷ xs) (row ∷ table) h =
    (get_or-set_same row (column x) true false h.0, mark-Marked xs table h.1)

get_or-set-true :
    (row : List Bool) (i j : ℕ) → get_or row j false ≡ true → get_or (set row i true) j false ≡ true
get_or-set-true [] i j h = h
get_or-set-true (b ∷ row) zero zero h = refl
get_or-set-true (b ∷ row) zero (suc j) h = h
get_or-set-true (b ∷ row) (suc i) zero h = h
get_or-set-true (b ∷ row) (suc i) (suc j) h = get_or-set-true row i j h

mark-Marked_keep :
    (ys xs : Tuple) (table : List (List Bool)) → Marked xs table → Marked xs (mark ys table)
unfolding mark
mark-Marked_keep ys [] table h = tt
mark-Marked_keep [] (x ∷ xs) [] h = tt
mark-Marked_keep (y ∷ ys) (x ∷ xs) [] h = tt
mark-Marked_keep [] (x ∷ xs) (row ∷ table) h = h
mark-Marked_keep (y ∷ ys) (x ∷ xs) (row ∷ table) h =
    (get_or-set-true row (column y) (column x) h.0, mark-Marked_keep ys xs table h.1)

occurrences_keep :
    (known xs : Tuple) (supports : List Tuple) (table : List (List Bool)) (n : ℕ)
    → Marked xs table
    → let (t, m) = occurrences known supports table n in Marked xs t × (n ≤ m)
unfolding occurrences
occurrences_keep known xs [] table n h = (h, omega arith)
occurrences_keep known xs (ys ∷ supports) table n h = elim (Bool-cases (matches ys known)) [
  | inl fits ↦
      let next =
        occurrences_keep known xs supports (mark ys table) (n + 1)
          (mark-Marked_keep ys xs table h) in
      rw (occurrences, fits) (next.0, omega (arith, next.1))
  | inr other ↦ rw (occurrences, other) (occurrences_keep known xs supports table n h)
]

-- A tuple that matches is counted, and its columns are marked.
pub occurrences-Marked :
    (known xs : Tuple) (supports : List Tuple) (table : List (List Bool)) (n : ℕ)
    → In xs supports
    → matches xs known ≡ true
    → Sized xs table
    → let (t, m) = occurrences known supports table n in Marked xs t × (n < m)
unfolding occurrences
occurrences-Marked known xs [] table n i e h = absurd i
occurrences-Marked known xs (ys ∷ supports) table n (inl same) e h =
    let fits : matches ys known ≡ true = subst (λ ys. matches ys known ≡ true) (sym same) e in
    let marked : Marked xs (mark ys table) =
      subst (λ ys. Marked xs (mark ys table)) (sym same) (mark-Marked xs table h) in
    let next = occurrences_keep known xs supports (mark ys table) (n + 1) marked in
    rw (occurrences, fits) (next.0, omega (arith, next.1))
occurrences-Marked known xs (ys ∷ supports) table n (inr i) e h =
    elim (Bool-cases (matches ys known)) [
      | inl fits ↦
          let next =
            occurrences-Marked known xs supports (mark ys table) (n + 1) i e
              (mark-Sized ys xs table h) in
          rw (occurrences, fits) (next.0, omega (arith, next.1))
      | inr other ↦ rw (occurrences, other) (occurrences-Marked known xs supports table n i e h)
    ]

pub empty_table-Sized :
    (a : Assignment) (vars : List (List Lit)) (xs : Tuple) (ks : List ℕ)
    → AllTake a vars ks
    → Covers xs ks
    → Sized xs (empty_table vars)
unfolding empty_table
empty_table-Sized a vars [] ks t c = tt
empty_table-Sized a [] (x ∷ xs) ks t c = tt
empty_table-Sized a (ls ∷ vars) (x ∷ xs) [] t c = absurd c
empty_table-Sized a (ls ∷ vars) (none ∷ xs) (k ∷ ks) t c =
    (omega (arith, length-replicate (length ls + 1) false), empty_table-Sized a vars xs ks t.1 c)
empty_table-Sized a (ls ∷ vars) (some x ∷ xs) (k ∷ ks) t c = (
  omega (arith, length-replicate (length ls + 1) false, t.0.inside, c.0),
  empty_table-Sized a vars xs ks t.1 c.1,
)
