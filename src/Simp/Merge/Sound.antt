-- ===== src/Simp/Merge/Sound.antt =====
-- What `merge` returns: a clause that holds exactly if one of the two clauses does without `v`.
use glucose.Prelude.{
  ◌≡◌, inl, inr, true, false, ◌||◌, none, some, List, [], ◌∷◌, arith, ◌==◌, Option-cases,
}
use glucose.Prelude.Lists.{In}
use glucose.Lit.{Lit, Var, neg, var}
use glucose.Lit.Laws.{same_var}
use glucose.Lit.Truth.{Assignment, satisfies, holds-neg, satisfies-append, satisfies-In}
use glucose.Simp.Merge.{clash, found, scan, collect, without, resolve, merge}

pub scan-clash :
    (v : Var) (q : Lit) (ps : List Lit)
    → (var q == v) ≡ false
    → scan q ps ≡ clash
    → In (neg q) (without v ps)
unfolding scan without
scan-clash v q [] h e = cc
scan-clash v q (p ∷ ps) h e = ground (arith, scan-clash v q ps h)

pub scan-found :
    (v : Var) (q : Lit) (ps : List Lit)
    → (var q == v) ≡ false
    → scan q ps ≡ found
    → In q (without v ps)
unfolding scan without
scan-found v q [] h e = cc
scan-found v q (p ∷ ps) h e = ground (arith, scan-found v q ps h, same_var p q)

module _ (a : Assignment) (ps : List Lit) (v : Var) where
  collect-none :
      (qs : List Lit)
      → collect ps v qs ≡ none
      → (satisfies a (without v ps) || satisfies a (without v qs)) ≡ true
  unfolding collect without
  collect-none [] e = cc
  collect-none (q ∷ qs) e = ground (
    arith,
    collect-none qs,
    scan-clash v q ps,
    satisfies-In a (without v ps) (neg q),
    holds-neg a q,
  )

  collect-some :
      (qs out : List Lit)
      → collect ps v qs ≡ some out
      → (satisfies a out || satisfies a (without v ps))
        ≡ (satisfies a (without v ps) || satisfies a (without v qs))
  unfolding collect without
  collect-some [] out e = ground arith
  collect-some (q ∷ qs) out e = elim (Option-cases (collect ps v qs)) [
    | inl miss ↦ absurd (ground arith)
    | inr (rest, hit) ↦
        ground (arith, collect-some qs rest hit, scan-found v q ps, satisfies-In a (without v ps) q)
  ]

  resolve-none :
      (qs : List Lit)
      → resolve ps qs v ≡ none
      → (satisfies a (without v ps) || satisfies a (without v qs)) ≡ true
  unfolding resolve
  resolve-none qs e = elim (Option-cases (collect ps v qs)) [
    | inl miss ↦ collect-none qs miss
    | inr (rest, hit) ↦ ground arith
  ]

  resolve-some :
      (qs out : List Lit)
      → resolve ps qs v ≡ some out
      → satisfies a out ≡ (satisfies a (without v ps) || satisfies a (without v qs))
  unfolding resolve
  resolve-some qs out e = elim (Option-cases (collect ps v qs)) [
    | inl miss ↦ absurd (ground arith)
    | inr (rest, hit) ↦
        ground (arith, collect-some qs rest hit, satisfies-append a rest (without v ps))
  ]

-- The resolvent on `v` that `merge` returns is true exactly if a literal of one of the two clauses
-- on another variable is; where it returns false there is always such a literal.
pub merge_resolves :
    (ps qs : List Lit) (v : Var) (a : Assignment)
    → let either = satisfies a (without v ps) || satisfies a (without v qs) in
      (merge ps qs v ≡ none → either ≡ true)
      × ((out : List Lit) → merge ps qs v ≡ some out → satisfies a out ≡ either)
unfolding merge
merge_resolves ps qs v a = (
  λ e. ground (arith, resolve-none a ps v qs, resolve-none a qs v ps),
  λ out e. ground (arith, resolve-some a ps v qs out, resolve-some a qs v ps out),
)
