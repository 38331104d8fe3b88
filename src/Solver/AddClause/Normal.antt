-- ===== src/Solver/AddClause/Normal.antt =====
-- The literals that are kept mean the same clause, and are in normal form.
use glucose.Prelude.{
  ◌≤◌, ◌<◌, ◌≡◌, refl, sym, ap, inl, inr, Bool, true, false, not, ◌&&◌, ◌||◌, Option, none, some,
  List, [], ◌∷◌, arith, eq_of_==, Bool-cases,
}
use mathlib.Core.Option
use glucose.Prelude.Lists.{All, In-All, All-In}
use glucose.Lit.{Lit, neg, var}
use glucose.Lit.Laws.{neg_value}
use glucose.Lit.Truth.{Assignment, holds, holds-neg, satisfies}
use glucose.Lbool.{l_true, l_false, l_undef, eq}
use glucose.Solver.{Solver, value}
use glucose.Solver.Agree.{Agrees, value-Agrees}
use glucose.Solver.AddClause.{
  is_same, is_negation, keep_lits, Added, already_true, fails, unit, stored, added, add_sorted,
}

abbrev holds_last : Assignment → Option Lit → Bool
holds_last a none = false
holds_last a (some p) = holds a p

-- What the result of the loop says of the clause.
abbrev means : Assignment → Option (List Lit) → Bool
means a none = true
means a (some c) = satisfies a c

negation_true :
    (a : Assignment) (p : Option Lit) (l : Lit)
    → is_negation p l ≡ true
    → holds_last a p || holds a l ≡ true
unfolding is_negation
negation_true a none l h = absurd (ground arith)
negation_true a (some p) l h = rw (eq_of_== l (neg p) h, holds-neg a p) (ground arith)

same_true :
    (a : Assignment) (p : Option Lit) (l : Lit)
    → is_same p l ≡ true
    → holds_last a p || holds a l ≡ holds_last a p
unfolding is_same
same_true a none l h = absurd (ground arith)
same_true a (some p) l h = rw (eq_of_== l p h) (ground arith)

means-map :
    (a : Assignment) (l : Lit) (r : Option (List Lit))
    → means a (Option.map (◌∷◌ l) r) ≡ holds a l || means a r
means-map a l none = ground arith
means-map a l (some c) = refl

now_true :
    (a : Assignment) (s : Solver) (p : Option Lit) (l : Lit)
    → Agrees a s
    → eq (value s l) l_true || is_negation p l ≡ true
    → holds_last a p || holds a l ≡ true
now_true a s p l h e = elim (Bool-cases (is_negation p l)) [
  | inl negated ↦ negation_true a p l negated
  | inr plain ↦ ground (arith, value-Agrees a s l h)
]

dropped_same :
    (a : Assignment) (s : Solver) (p : Option Lit) (l : Lit)
    → Agrees a s
    → not (eq (value s l) l_false) && not (is_same p l) ≡ false
    → holds_last a p || holds a l ≡ holds_last a p
dropped_same a s p l h e = elim (Bool-cases (is_same p l)) [
  | inl same ↦ same_true a p l same
  | inr other ↦ ground (arith, value-Agrees a s l h)
]

keep_lits-means :
    (a : Assignment) (s : Solver) (p : Option Lit) (ls : List Lit)
    → Agrees a s
    → holds_last a p || means a (keep_lits s p ls) ≡ holds_last a p || satisfies a ls
unfolding keep_lits
keep_lits-means a s p [] h = refl
keep_lits-means a s p (l ∷ ls) h = elim (Bool-cases (eq (value s l) l_true || is_negation p l)) [
  | inl now ↦ rw (keep_lits, now) (ground (arith, now_true a s p l h now))
  | inr not_yet ↦ elim (Bool-cases (not (eq (value s l) l_false) && not (is_same p l))) [
    | inl kept ↦
        let rest = keep_lits-means a s (some l) ls h in
        rw (keep_lits, not_yet, kept, means-map a l (keep_lits s (some l) ls))
          (ap (λ b. holds_last a p || b) rest)
    | inr dropped ↦
        let rest = keep_lits-means a s p ls h in
        rw (keep_lits, not_yet, dropped) (ground (arith, dropped_same a s p l h dropped))
  ]
]

-- The literals rise.
abbrev pub IsAscending : List Lit → Type 0
IsAscending [] = Unit
IsAscending (l ∷ ls) = All (λ m. l ≤ m) ls × IsAscending ls

-- No variable is mentioned twice, and no literal has a value.
abbrev pub IsNormal : Solver → List Lit → Type 0
IsNormal s [] = Unit
IsNormal s (l ∷ ls) = (value s l ≡ l_undef) × All (λ m. var l < var m) ls × IsNormal s ls

abbrev FromLast : Option Lit → Lit → Type 0
FromLast none l = Unit
FromLast (some p) l = p ≤ l

abbrev AfterLast : Option Lit → Lit → Type 0
AfterLast none l = Unit
AfterLast (some p) l = var p < var l

abbrev AllNormal : Solver → Option Lit → Option (List Lit) → Type 0
AllNormal s p none = Unit
AllNormal s p (some c) = All (AfterLast p) c × IsNormal s c

after_last :
    (p : Option Lit) (l : Lit)
    → FromLast p l
    → is_same p l ≡ false
    → is_negation p l ≡ false
    → AfterLast p l
unfolding is_same is_negation var
after_last none l h e f = tt
after_last (some p) l h e f = ground (arith, neg_value p)

AfterLast-trans : (p : Option Lit) (l m : Lit) → AfterLast p l → var l < var m → AfterLast p m
AfterLast-trans none l m h k = tt
AfterLast-trans (some p) l m h k = omega arith

AllNormal-map :
    (s : Solver) (p : Option Lit) (l : Lit) (r : Option (List Lit))
    → AfterLast p l
    → value s l ≡ l_undef
    → AllNormal s (some l) r
    → AllNormal s p (Option.map (◌∷◌ l) r)
AllNormal-map s p l none h v n = tt
AllNormal-map s p l (some c) h v n = (
  (h, In-All c λ m i. AfterLast-trans p l m h (All-In (λ m. var l < var m) c n.0 i)),
  (v, n.0, n.1),
)

keep_lits-AllNormal :
    (s : Solver) (p : Option Lit) (ls : List Lit)
    → All (FromLast p) ls
    → IsAscending ls
    → AllNormal s p (keep_lits s p ls)
unfolding keep_lits
keep_lits-AllNormal s p [] from up = (tt, tt)
keep_lits-AllNormal s p (l ∷ ls) from up =
    elim (Bool-cases (eq (value s l) l_true || is_negation p l)) [
      | inl now ↦ rw (keep_lits, now) tt
      | inr not_yet ↦ elim (Bool-cases (not (eq (value s l) l_false) && not (is_same p l))) [
        | inl kept ↦
            let rest = keep_lits-AllNormal s (some l) ls up.0 up.1 in
            let after = after_last p l from.0 (ground arith) (ground arith) in
            let open_ : value s l ≡ l_undef = ground arith in
            rw (keep_lits, not_yet, kept)
              (AllNormal-map s p l (keep_lits s (some l) ls) after open_ rest)
        | inr dropped ↦ rw (keep_lits, not_yet, dropped) (keep_lits-AllNormal s p ls from.1 up.1)
      ]
    ]

-- What becomes of the clause is right for the literals `c` that are left.
abbrev pub Fits : Assignment → Solver → List Lit → Added → Type 0
Fits a s ls already_true = satisfies a ls ≡ true
Fits a s ls fails = satisfies a ls ≡ false
Fits a s ls (unit p) = (satisfies a ls ≡ holds a p) × (value s p ≡ l_undef)
Fits a s ls (stored c) = (satisfies a ls ≡ satisfies a c) × IsNormal s c

added-Fits :
    (a : Assignment) (s : Solver) (ls : List Lit) (r : Option (List Lit))
    → means a r ≡ satisfies a ls
    → AllNormal s none r
    → Fits a s ls (added r)
unfolding added
added-Fits a s ls none m n = sym m
added-Fits a s ls (some []) m n = sym m
added-Fits a s ls (some (p ∷ [])) m n = (ground arith, n.1.0)
added-Fits a s ls (some (p ∷ q ∷ c)) m n = (sym m, n.1)

from_none : (ls : List Lit) → All (FromLast none) ls
from_none [] = tt
from_none (l ∷ ls) = (tt, from_none ls)

-- The literals being in order, and an assignment agreeing with the solver's values: where the
-- function returns because the clause is true, it is true in the assignment; where the solver fails,
-- the clause is false in it; a unit has no value, and is true exactly if the clause is; and a clause
-- that is stored means the same as the given one, and has no variable twice and no literal with a
-- value.
pub add_sorted-Fits :
    (a : Assignment) (s : Solver) (ls : List Lit)
    → Agrees a s
    → IsAscending ls
    → Fits a s ls (add_sorted s ls)
unfolding add_sorted
add_sorted-Fits a s ls h up =
    added-Fits a s ls (keep_lits s none ls) (keep_lits-means a s none ls h)
      (keep_lits-AllNormal s none ls (from_none ls) up)
