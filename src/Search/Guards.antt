-- ===== src/Search/Guards.antt =====
-- The lists of watchers, and the clauses that they watch, as an invariant.
use glucose.Prelude.{
  ℕ, ◌+◌, ◌≤◌, ◌<◌, ◌≡◌, refl, sym, subst, ◌≢◌, inl, inr, true, false, List, [], ◌∷◌, ◌++◌, arith,
  ◌==◌, if◌then◌else◌, eq_of_==, Bool-cases, update,
}
use glucose.Prelude.Lists.{In, All, All-append}
use glucose.Lit.{Lit, var}
use glucose.Lit.Truth.{Assignment, satisfies}
use glucose.Solver.{CRef}
use glucose.Search.{Watcher, Search, with_clause, push_watch}
use glucose.Search.Times.{times, IsUnique, Same, Same-IsUnique, Same-In}
use glucose.Search.Watched.{Heads, Stays, Same-satisfies}

-- The clause is true in the assignment, and its literals are of the first `n` variables and none is
-- there twice.
abbrev pub IsClause : Assignment → ℕ → List Lit → Type 0
IsClause a n c = (satisfies a c ≡ true) × IsUnique c × ((l : Lit) → In l c → var l < n)

pub Same-IsClause :
    (a : Assignment) (n : ℕ) (c d : List Lit) → Same c d → IsClause a n c → IsClause a n d
Same-IsClause a n c d h g = (
  Same-satisfies a c d h g.0,
  Same-IsUnique c d h g.1,
  λ l m. g.2 l (Same-In d c l (λ x. sym (h x)) m),
)

-- Such a clause watches the negation of `q`.
abbrev pub Guards : Assignment → ℕ → (CRef → List Lit) → Lit → Watcher → Type 0
Guards a n ca q w = IsClause a n (ca w.cref) × Heads q (ca w.cref)

abbrev pub crefs : List Watcher → List CRef
crefs [] = []
crefs (w ∷ ws) = w.cref ∷ crefs ws

abbrev pub IsList : Assignment → ℕ → (CRef → List Lit) → Lit → List Watcher → Type 0
IsList a n ca q ws = All (Guards a n ca q) ws × IsUnique (crefs ws)

abbrev pub Others : {X : Type 0} → Assignment → ℕ → Search X → Lit → Type 0
Others a n S p = (q : Lit) → q ≢ p → IsList a n S.ca q (S.watches q)

pub Guards-update :
    (a : Assignment) (n : ℕ) (ca : CRef → List Lit) (p q : Lit) (cr : CRef) (d : List Lit)
    (w : Watcher)
    → Same (ca cr) d
    → Stays p (ca cr) d
    → q ≢ p
    → Guards a n ca q w
    → Guards a n (update ca cr d) q w
Guards-update a n ca p q cr d w same stays ne g = elim (Bool-cases (cr == w.cref)) [
  | inr other ↦ rw other g
  | inl here ↦
      let e = eq_of_== cr w.cref here in
      let g' : IsClause a n (ca cr) × Heads q (ca cr) =
        subst (λ r. IsClause a n (ca r) × Heads q (ca r)) (sym e) g in
      rw here (Same-IsClause a n (ca cr) d same g'.0, stays q ne g'.1)
]

-- A clause that no watcher of the list names.
pub Guards-apart :
    (a : Assignment) (n : ℕ) (ca : CRef → List Lit) (q : Lit) (cr : CRef) (d : List Lit)
    (ws : List Watcher)
    → times cr (crefs ws) ≡ 0
    → All (Guards a n ca q) ws
    → All (Guards a n (update ca cr d) q) ws
Guards-apart a n ca q cr d [] h g = tt
Guards-apart a n ca q cr d (w ∷ ws) h g =
    let apart : (cr == w.cref) ≡ false = ground arith in
    (rw apart g.0, Guards-apart a n ca q cr d ws (ground arith) g.1)

All-map :
    {A : Type 0} (P Q : A → Type 0) (xs : List A) → ((x : A) → P x → Q x) → All P xs → All Q xs
All-map P Q [] f h = tt
All-map P Q (x ∷ xs) f h = (f x h.0, All-map P Q xs f h.1)

pub Others-with_clause :
    {X : Type 0} (a : Assignment) (n : ℕ) (S : Search X) (p : Lit) (cr : CRef) (d : List Lit)
    → Same (S.ca cr) d
    → Stays p (S.ca cr) d
    → Others a n S p
    → Others a n (with_clause S cr d) p
Others-with_clause a n S p cr d same stays h q ne = (
  All-map (Guards a n S.ca q) (Guards a n (update S.ca cr d) q) (S.watches q)
      (λ w g. Guards-update a n S.ca p q cr d w same stays ne g) (h q ne).0,
  (h q ne).1,
)

-- Where a watcher of the clause is in a list, the clause watches the list's literal.
pub Heads-times :
    (a : Assignment) (n : ℕ) (ca : CRef → List Lit) (q : Lit) (cr : CRef) (ws : List Watcher)
    → All (Guards a n ca q) ws
    → ¬ Heads q (ca cr)
    → times cr (crefs ws) ≡ 0
Heads-times a n ca q cr [] h none_here = refl
Heads-times a n ca q cr (w ∷ ws) h none_here = elim (Bool-cases (cr == w.cref)) [
  | inr other ↦ rw other (Heads-times a n ca q cr ws h.1 none_here)
  | inl here ↦
      absurd (none_here (subst (λ r. Heads q (ca r)) (sym (eq_of_== cr w.cref here)) h.0.1))
]

times_snoc :
    (x : CRef) (ws : List Watcher) (w : Watcher)
    → times x (crefs (ws ++ w ∷ [])) ≡ times x (crefs ws) + (if x == w.cref then 1 else 0)
times_snoc x [] w = ground arith
times_snoc x (v ∷ ws) w = ground (arith, times_snoc x ws w)

pub unique_snoc :
    (x : CRef) (ws : List Watcher) (w : Watcher)
    → times w.cref (crefs ws) ≡ 0
    → times x (crefs ws) ≤ 1
    → times x (crefs (ws ++ w ∷ [])) ≤ 1
unique_snoc x ws w fresh h = elim (Bool-cases (x == w.cref)) [
  | inr other ↦ ground (arith, times_snoc x ws w)
  | inl same ↦
      let none_yet = subst (λ y. times y (crefs ws) ≡ 0) (sym (eq_of_== x w.cref same)) fresh in
      ground (arith, times_snoc x ws w)
]

-- The watcher of a clause that has come to watch `q`.
pub Others-push_watch :
    {X : Type 0} (a : Assignment) (n : ℕ) (S : Search X) (p q : Lit) (w : Watcher)
    → q ≢ p
    → times w.cref (crefs (S.watches q)) ≡ 0
    → Guards a n S.ca q w
    → Others a n S p
    → Others a n (push_watch S q w) p
Others-push_watch a n S p q w ne fresh g h r nr = elim (Bool-cases (q == r)) [
  | inr other ↦ rw other (h r nr)
  | inl same ↦
      let e = eq_of_== q r same in
      rw same (
        subst (λ r. IsList a n S.ca r (S.watches q ++ w ∷ [])) e
          (
            All-append (Guards a n S.ca q) (S.watches q) (w ∷ []) (h q ne).0 (g, tt),
            λ x. unique_snoc x (S.watches q) w fresh ((h q ne).1 x),
          ))
]
