-- ===== src/Simp/Subsume/Sound.antt =====
-- What the results say of the two clauses.
use glucose.Prelude.{
  ℕ, ◌-◌, ◌^◌, ◌≡◌, refl, sym, ap, subst, ◌∙◌, ◌≢◌, ◌⊎◌, inl, inr, true, not, ◌||◌, none, some,
  List, [], ◌∷◌, arith, ltb, ◌==◌, eq_of_==, Bool-cases,
}
use Prim.Native.Nat.{bit_and}
use glucose.Prelude.Lists.{In, length}
use glucose.Lit.{Lit, neg}
use glucose.Lit.Laws.{neg-neg}
use glucose.Lit.Truth.{Assignment, holds, holds-neg, satisfies, satisfies-In, satisfies_inv}
use glucose.Simp.Subsume.{Subsumed, fails, subsumes, resolves, look, look_all, subsumption}

-- Each literal of the first clause is in the second.
abbrev Within : List Lit → List Lit → Type 0
Within c d = (l : Lit) → In l c → In l d

-- Each literal of the first clause but `p` is in the second, and the negation of `p` is.
record WithinBut (p : Lit) (c d : List Lit) : Type 0 where
  pub others : (l : Lit) → In l c → (l ≡ p) ⊎ In l d
  pub negated : In (neg p) d

look-none :
    (l : Lit) (d : List Lit)
    → (look none l d ≡ none)
      ⊎ ((look none l d ≡ some none) × In l d)
      ⊎ ((look none l d ≡ some (some l)) × In (neg l) d)
unfolding look
look-none l [] = inl refl
look-none l (m ∷ d) = elim (Bool-cases (l == m)) [
  | inl same ↦ inr (inl (rw (look, same) refl, inl (sym (eq_of_== l m same))))
  | inr other ↦ elim (Bool-cases (l == neg m)) [
    | inl negated ↦ inr (
        inr (
          rw (look, other, negated) refl,
          inl (sym (neg-neg m) ∙ sym (ap neg (eq_of_== l (neg m) negated))),
        ))
    | inr neither ↦ elim (look-none l d) [
      | inl e ↦ inl (rw (look, other, neither) e)
      | inr (inl e) ↦ inr (inl (rw (look, other, neither) e.0, inr e.1))
      | inr (inr e) ↦ inr (inr (rw (look, other, neither) e.0, inr e.1))
    ]
  ]
]

look-some :
    (p l : Lit) (d : List Lit)
    → (look (some p) l d ≡ none) ⊎ ((look (some p) l d ≡ some (some p)) × In l d)
unfolding look
look-some p l [] = inl refl
look-some p l (m ∷ d) = elim (Bool-cases (l == m)) [
  | inl same ↦ inr (rw (look, same) refl, inl (sym (eq_of_== l m same)))
  | inr other ↦ elim (look-some p l d) [
    | inl e ↦ inl (rw (look, other) e)
    | inr e ↦ inr (rw (look, other) e.0, inr e.1)
  ]
]

-- What a result claims, once the literals before have been looked for.
abbrev Claims : List Lit → List Lit → Subsumed → Type 0
Claims c d fails = Unit
Claims c d subsumes = Within c d
Claims c d (resolves p) = In p c × WithinBut p c d

abbrev ClaimsAfter : Lit → List Lit → List Lit → Subsumed → Type 0
ClaimsAfter p c d fails = Unit
ClaimsAfter p c d subsumes = ⊥
ClaimsAfter p c d (resolves q) = (q ≡ p) × Within c d

Within-cons : (l : Lit) (c d : List Lit) → In l d → Within c d → Within (l ∷ c) d
Within-cons l c d i w m (inl e) = subst (λ m. In m d) e i
Within-cons l c d i w m (inr j) = w m j

but_cons :
    (l p : Lit) (c d : List Lit)
    → In l d
    → ((m : Lit) → In m c → (m ≡ p) ⊎ In m d)
    → (m : Lit) → In m (l ∷ c)
    → (m ≡ p) ⊎ In m d
but_cons l p c d i w m (inl e) = inr (subst (λ m. In m d) e i)
but_cons l p c d i w m (inr j) = w m j

found_cons :
    (l q : Lit) (c d : List Lit) → l ≡ q → Within c d → (m : Lit) → In m (l ∷ c) → (m ≡ q) ⊎ In m d
found_cons l q c d s w m (inl e) = inl (sym e ∙ s)
found_cons l q c d s w m (inr j) = inr (w m j)

ClaimsAfter-cons :
    (p l : Lit) (c d : List Lit) (r : Subsumed)
    → In l d
    → ClaimsAfter p c d r
    → ClaimsAfter p (l ∷ c) d r
ClaimsAfter-cons p l c d fails i h = tt
ClaimsAfter-cons p l c d subsumes i h = absurd h
ClaimsAfter-cons p l c d (resolves q) i h = (h.0, Within-cons l c d i h.1)

Claims-cons : (l : Lit) (c d : List Lit) (r : Subsumed) → In l d → Claims c d r → Claims (l ∷ c) d r
Claims-cons l c d fails i h = tt
Claims-cons l c d subsumes i h = Within-cons l c d i h
Claims-cons l c d (resolves p) i h =
    (inr h.0, record { others = λ m j. but_cons l p c d i h.1.others m j; negated = h.1.negated })

Claims-found :
    (l : Lit) (c d : List Lit) (r : Subsumed)
    → In (neg l) d
    → ClaimsAfter l c d r
    → Claims (l ∷ c) d r
Claims-found l c d fails i h = tt
Claims-found l c d subsumes i h = absurd h
Claims-found l c d (resolves q) i h = (
  inl (sym h.0),
  record {
    others = λ m j. found_cons l q c d (sym h.0) h.1 m j;
    negated = subst (λ q. In (neg q) d) (sym h.0) i;
  },
)

look_all-some : (p : Lit) (c d : List Lit) → ClaimsAfter p c d (look_all (some p) c d)
unfolding look_all
look_all-some p [] d = (refl, λ l m. absurd m)
look_all-some p (l ∷ c) d = elim (look-some p l d) [
  | inl e ↦
      let step : look_all (some p) (l ∷ c) d ≡ fails = rw (look_all, e) refl in
      subst (ClaimsAfter p (l ∷ c) d) (sym step) tt
  | inr e ↦
      let step : look_all (some p) (l ∷ c) d ≡ look_all (some p) c d = rw (look_all, e.0) refl in
      subst (ClaimsAfter p (l ∷ c) d) (sym step)
        (ClaimsAfter-cons p l c d (look_all (some p) c d) e.1 (look_all-some p c d))
]

look_all-Claims : (c d : List Lit) → Claims c d (look_all none c d)
unfolding look_all
look_all-Claims [] d = λ l m. absurd m
look_all-Claims (l ∷ c) d = elim (look-none l d) [
  | inl e ↦
      let step : look_all none (l ∷ c) d ≡ fails = rw (look_all, e) refl in
      subst (Claims (l ∷ c) d) (sym step) tt
  | inr (inl e) ↦
      let step : look_all none (l ∷ c) d ≡ look_all none c d = rw (look_all, e.0) refl in
      subst (Claims (l ∷ c) d) (sym step)
        (Claims-cons l c d (look_all none c d) e.1 (look_all-Claims c d))
  | inr (inr e) ↦
      let step : look_all none (l ∷ c) d ≡ look_all (some l) c d = rw (look_all, e.0) refl in
      subst (Claims (l ∷ c) d) (sym step)
        (Claims-found l c d (look_all (some l) c d) e.1 (look_all-some l c d))
]

subsumption-Claims : (m n : ℕ) (c d : List Lit) → Claims c d (subsumption m n c d)
unfolding subsumption
subsumption-Claims m n c d =
    elim (Bool-cases (ltb (length d) (length c) || not (bit_and m (2 ^ 32 - 1 - n) == 0))) [
      | inl filtered ↦ rw filtered tt
      | inr tried ↦ rw tried (look_all-Claims c d)
    ]

-- No two literals of the clause are each other's negation.
abbrev pub IsConsistent : List Lit → Type 0
IsConsistent c = (p : Lit) → In p c → ¬ In (neg p) c

-- What a result means for an assignment that makes the two clauses true.
abbrev pub Implies : Assignment → List Lit → List Lit → Subsumed → Type 0
Implies a c d fails = Unit
Implies a c d subsumes = satisfies a c ≡ true → satisfies a d ≡ true
Implies a c d (resolves p) =
    In (neg p) d
    × (satisfies a c ≡ true
        → satisfies a d ≡ true
        → (m : Lit) × In m d × (m ≢ neg p) × (holds a m ≡ true))

Claims-Implies :
    (a : Assignment) (c d : List Lit) (r : Subsumed)
    → IsConsistent c
    → Claims c d r
    → Implies a c d r
Claims-Implies a c d fails k h = tt
Claims-Implies a c d subsumes k h =
    λ e. let (l, i, t) = satisfies_inv a c e in satisfies-In a d l (h l i) t
Claims-Implies a c d (resolves p) k h = (
  h.1.negated,
  λ e f. elim (Bool-cases (holds a p)) [
    | inl yes_p ↦
        let (m, i, t) = satisfies_inv a d f in
        (m, i, λ same. absurd (ground (arith, holds-neg a p, ap (holds a) same)), t)
    | inr no_p ↦
        let (l, i, t) = satisfies_inv a c e in
        elim (h.1.others l i) [
          | inl same ↦ absurd (ground (arith, ap (holds a) same))
          | inr j ↦ (l, j, λ same. k p h.0 (subst (λ l. In l c) same i), t)
        ]
  ],
)

-- Where the first clause has no two literals that are each other's negation, whatever the stored
-- abstractions are: if the result says that it subsumes the second, the second is true wherever it
-- is; and if the result is a literal, the second clause has its negation, and another literal of the
-- second clause is true wherever both clauses are.
pub subsumption-Implies :
    (a : Assignment) (abst other_abst : ℕ) (c d : List Lit)
    → IsConsistent c
    → Implies a c d (subsumption abst other_abst c d)
subsumption-Implies a abst other_abst c d k =
    Claims-Implies a c d (subsumption abst other_abst c d) k
      (subsumption-Claims abst other_abst c d)
