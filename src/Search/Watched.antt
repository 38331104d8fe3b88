-- ===== src/Search/Watched.antt =====
-- What `inspect` finds in a clause that is true in an assignment.
use glucose.Prelude.{
  ◌≡◌, refl, sym, ap, subst, ◌∙◌, ◌≢◌, ◌⊎◌, inl, inr, true, false, not, ◌&&◌, Option, none, some,
  List, [], ◌∷◌, arith, ◌==◌, if◌then◌else◌, eq_of_==, Bool-cases,
}
use glucose.Prelude.Lists.{In, All, All-In}
use glucose.Lit.{Lit, neg}
use glucose.Lit.Laws.{neg-neg, neg-injective, var-neg, sign-neg}
use glucose.Lit.Truth.{Assignment, holds, holds-neg, satisfies, satisfies-In, satisfies_inv}
use glucose.Lbool.{l_true, l_false, l_undef, eq}
use glucose.Solver.{Solver, value}
use glucose.Solver.Agree.{Agrees, value-Agrees}
use glucose.Search.Inspect.{
  Visit, skip, kept, moved, unit, clash, inspect, inspect_ordered, replace_watch,
}
use glucose.Search.Times.{IsUnique, Same, Same-IsUnique, Same-In}

pub value-neg : (s : Solver) (p : Lit) → value s p ≡ l_true → value s (neg p) ≡ l_false
value-neg s p h = rw (var-neg p, sign-neg p) (ground arith)

-- The negation of `q` is one of the first two literals.
abbrev pub Heads : Lit → List Lit → Type 0
Heads q [] = ⊥
Heads q (x ∷ []) = ⊥
Heads q (x ∷ y ∷ rest) = (x ≡ neg q) ⊎ (y ≡ neg q)

-- A clause in the order that the loop leaves: `first`, and the negation of `p`.
abbrev Ordered : Lit → Lit → List Lit → Type 0
Ordered p first c = (rest : List Lit) × (c ≡ first ∷ neg p ∷ rest)

-- Where the clause watches another literal, it goes on to watch it.
abbrev pub Stays : Lit → List Lit → List Lit → Type 0
Stays p c d = (q : Lit) → q ≢ p → Heads q c → Heads q d

-- What each outcome says, where the clause `c` is true in `a`.
abbrev pub Right : Assignment → Solver → Lit → List Lit → Visit → Type 0
Right a s p c skip = Unit
Right a s p c (kept d first) = Same c d × Stays p c d × Ordered p first d
Right a s p c (moved d first l) =
    Same c d
    × Stays p c d
    × ((rest : List Lit) × (d ≡ first ∷ l ∷ rest))
    × In (neg p) d
    × (l ≢ neg p)
    × (¬ Heads (neg l) c)
Right a s p c (unit d first) =
    Same c d × Stays p c d × Ordered p first d × (holds a first ≡ true) × (value s first ≡ l_undef)
Right a s p c (clash d first) = ⊥

pub Same-satisfies :
    (a : Assignment) (c d : List Lit) → Same c d → satisfies a c ≡ true → satisfies a d ≡ true
Same-satisfies a c d h e =
    let (l, m, t) = satisfies_inv a c e in satisfies-In a d l (Same-In c d l h m) t

-- What the loop for another watch finds.
abbrev Found : Solver → Lit → List Lit → Option (Lit × List Lit) → Type 0
Found s f ls none = All (λ l. value s l ≡ l_false) ls
Found s f ls (some (l, ms)) = Same (f ∷ ls) (l ∷ ms) × In f ms × (value s l ≢ l_false)

Found-cons :
    (s : Solver) (f l : Lit) (ls : List Lit) (r : Option (Lit × List Lit))
    → value s l ≡ l_false
    → Found s f ls r
    → Found s f (l ∷ ls) (elim r [ none ↦ none | some (m, ms) ↦ some (m, l ∷ ms) ])
Found-cons s f l ls none v h = (v, h)
Found-cons s f l ls (some (m, ms)) v h = (λ x. ground (arith, h.0 x), inr h.1, h.2)

replace_watch-Found : (s : Solver) (f : Lit) (ls : List Lit) → Found s f ls (replace_watch s f ls)
unfolding replace_watch
replace_watch-Found s f [] = tt
replace_watch-Found s f (l ∷ ls) = elim (Bool-cases (not (eq (value s l) l_false))) [
  | inl other ↦
      let step : replace_watch s f (l ∷ ls) ≡ some (l, f ∷ ls) = rw (replace_watch, other) refl in
      subst (Found s f (l ∷ ls)) (sym step) ((λ x. ground arith), inl refl, ground arith)
  | inr is_false ↦
      let r = replace_watch s f ls in
      let step : replace_watch s f (l ∷ ls)
          ≡ (elim r [ none ↦ none | some (m, ms) ↦ some (m, l ∷ ms) ]) =
        rw (replace_watch, is_false) refl in
      subst (Found s f (l ∷ ls)) (sym step)
        (Found-cons s f l ls r (ground arith) (replace_watch-Found s f ls))
]

-- A clause that is true has a literal that is not false.
first_holds :
    (a : Assignment) (s : Solver) (p first : Lit) (rest : List Lit)
    → Agrees a s
    → value s p ≡ l_true
    → satisfies a (first ∷ neg p ∷ rest) ≡ true
    → All (λ l. value s l ≡ l_false) rest
    → holds a first ≡ true
first_holds a s p first rest h v sat all =
    let (l, m, t) = satisfies_inv a (first ∷ neg p ∷ rest) sat in
    elim m [
      | inl e ↦ ap (holds a) e ∙ t
      | inr (inl e) ↦ absurd (ground (arith, holds-neg a p, ap (holds a) e, value-Agrees a s p h))
      | inr (inr i) ↦
          absurd
            (ground (arith, All-In (λ l. value s l ≡ l_false) rest all i, value-Agrees a s l h))
    ]

watch_first :
    (p q first l : Lit) (rest ms : List Lit)
    → q ≢ p
    → Heads q (first ∷ neg p ∷ rest)
    → Heads q (first ∷ l ∷ ms)
watch_first p q first l rest ms ne (inl e) = inl e
watch_first p q first l rest ms ne (inr e) = absurd (ne (sym (neg-injective p q e)))

watch_other :
    (p q x y : Lit) (rest : List Lit)
    → x ≡ neg p
    → Heads q (x ∷ y ∷ rest)
    → Heads q (y ∷ neg p ∷ rest)
watch_other p q x y rest e (inl f) = inr (sym e ∙ f)
watch_other p q x y rest e (inr f) = inl f

Found-Right :
    (a : Assignment) (s : Solver) (p first : Lit) (rest : List Lit) (r : Option (Lit × List Lit))
    → Agrees a s
    → value s p ≡ l_true
    → IsUnique (first ∷ neg p ∷ rest)
    → satisfies a (first ∷ neg p ∷ rest) ≡ true
    → value s first ≢ l_true
    → Found s (neg p) rest r
    → Right a s p (first ∷ neg p ∷ rest) (elim r [
      | some (l, rest') ↦ moved (first ∷ l ∷ rest') first l
      | none ↦
          if eq (value s first) l_false
          then clash (first ∷ neg p ∷ rest) first
          else unit (first ∷ neg p ∷ rest) first
    ])
Found-Right a s p first rest none h v u sat nt f =
    let t = first_holds a s p first rest h v sat f in
    let open_ : eq (value s first) l_false ≡ false = ground (arith, value-Agrees a s first h) in
    rw open_ ((λ x. refl), (λ q ne w. w), (rest, refl), t, ground (arith, value-Agrees a s first h))
Found-Right a s p first rest (some (l, ms)) h v u sat nt f = (
  λ x. ground (arith, f.0 x),
  λ q ne w. watch_first p q first l rest ms ne w,
  (ms, refl),
  inr (inr f.1),
  λ e. absurd (ground (arith, ap (value s) e, value-neg s p v)),
  λ w. elim w [
    | inl e ↦ absurd (ground (arith, f.0 first, u first, neg-neg l))
    | inr e ↦ absurd (ground (arith, ap (value s) (e ∙ neg-neg l), value-neg s p v))
  ],
)

not_first :
    (s : Solver) (blocker first : Lit)
    → value s blocker ≢ l_true
    → not (first == blocker) && eq (value s first) l_true ≡ false
    → value s first ≢ l_true
not_first s blocker first nt go e = elim (Bool-cases (first == blocker)) [
  | inl same ↦ nt (sym (ap (value s) (eq_of_== first blocker same)) ∙ e)
  | inr apart ↦ absurd (ground arith)
]

second_head : (p x y : Lit) → (x ≡ neg p) ⊎ (y ≡ neg p) → x == neg p ≡ false → y ≡ neg p
second_head p x y (inl e) f = absurd (ground arith)
second_head p x y (inr e) f = e

inspect_ordered-Right :
    (a : Assignment) (s : Solver) (p blocker first : Lit) (rest : List Lit)
    → Agrees a s
    → value s p ≡ l_true
    → IsUnique (first ∷ neg p ∷ rest)
    → satisfies a (first ∷ neg p ∷ rest) ≡ true
    → value s blocker ≢ l_true
    → Right a s p (first ∷ neg p ∷ rest) (inspect_ordered s p blocker first (neg p) rest)
unfolding inspect_ordered
inspect_ordered-Right a s p blocker first rest h v u sat nt =
    elim (Bool-cases (not (first == blocker) && eq (value s first) l_true)) [
      | inl done ↦
          let step : inspect_ordered s p blocker first (neg p) rest
              ≡ kept (first ∷ neg p ∷ rest) first =
            rw (inspect_ordered, done) refl in
          subst (Right a s p (first ∷ neg p ∷ rest)) (sym step)
            ((λ x. refl), (λ q ne w. w), (rest, refl))
      | inr go ↦
          let r = replace_watch s (neg p) rest in
          let not_true : value s first ≢ l_true = λ e. not_first s blocker first nt go e in
          let found =
            Found-Right a s p first rest r h v u sat not_true
              (replace_watch-Found s (neg p) rest) in
          let step : inspect_ordered s p blocker first (neg p) rest ≡ (elim r [
            | some (l, rest') ↦ moved (first ∷ l ∷ rest') first l
            | none ↦
                if eq (value s first) l_false
                then clash (first ∷ neg p ∷ rest) first
                else unit (first ∷ neg p ∷ rest) first
          ]) =
            rw (inspect_ordered, go) refl in
          subst (Right a s p (first ∷ neg p ∷ rest)) (sym step) found
    ]

Right-Same :
    (a : Assignment) (s : Solver) (p : Lit) (c d : List Lit) (r : Visit)
    → Same c d
    → ((q : Lit) → Heads q c → Heads q d)
    → Right a s p d r
    → Right a s p c r
Right-Same a s p c d skip h w k = tt
Right-Same a s p c d (kept e first) h w k = ((λ x. h x ∙ k.0 x), (λ q ne i. k.1 q ne (w q i)), k.2)
Right-Same a s p c d (moved e first l) h w k =
    ((λ x. h x ∙ k.0 x), (λ q ne i. k.1 q ne (w q i)), k.2, k.3, k.4, λ i. k.5 (w (neg l) i))
Right-Same a s p c d (unit e first) h w k =
    ((λ x. h x ∙ k.0 x), (λ q ne i. k.1 q ne (w q i)), k.2, k.3, k.4)
Right-Same a s p c d (clash e first) h w k = k

-- The outcome is right for a clause that watches the negation of a true literal.
pub inspect-Right :
    (a : Assignment) (s : Solver) (p blocker : Lit) (c : List Lit)
    → Agrees a s
    → value s p ≡ l_true
    → IsUnique c
    → satisfies a c ≡ true
    → Heads p c
    → Right a s p c (inspect s p blocker c)
unfolding inspect
inspect-Right a s p blocker [] h v u sat w = absurd w
inspect-Right a s p blocker (x ∷ []) h v u sat w = absurd w
inspect-Right a s p blocker (x ∷ y ∷ rest) h v u sat w =
    elim (Bool-cases (eq (value s blocker) l_true)) [
      | inl satisfied ↦ rw (inspect, satisfied) tt
      | inr open_ ↦
          let nt : value s blocker ≢ l_true = λ e. ground arith in
          elim (Bool-cases (x == neg p)) [
            | inl swap ↦
                let e = eq_of_== x (neg p) swap in
                let d = y ∷ neg p ∷ rest in
                let same : Same (x ∷ y ∷ rest) d = λ z. ground arith in
                let step : inspect s p blocker (x ∷ y ∷ rest)
                    ≡ inspect_ordered s p blocker y (neg p) rest =
                  rw (inspect, open_, swap) refl in
                subst (Right a s p (x ∷ y ∷ rest)) (sym step) (
                  Right-Same a s p (x ∷ y ∷ rest) d _ same (λ q i. watch_other p q x y rest e i)
                    (inspect_ordered-Right a s p blocker y rest h v
                      (Same-IsUnique (x ∷ y ∷ rest) d same u)
                      (Same-satisfies a (x ∷ y ∷ rest) d same sat) nt))
            | inr stay ↦
                let e : y ≡ neg p = second_head p x y w stay in
                let step : inspect s p blocker (x ∷ y ∷ rest)
                    ≡ inspect_ordered s p blocker x y rest =
                  rw (inspect, open_, stay) refl in
                subst (Right a s p (x ∷ y ∷ rest)) (sym step) (
                  subst (λ y. Right a s p (x ∷ y ∷ rest) (inspect_ordered s p blocker x y rest))
                    (sym e)
                    (inspect_ordered-Right a s p blocker x rest h v
                      (subst (λ y. IsUnique (x ∷ y ∷ rest)) e u)
                      (subst (λ y. satisfies a (x ∷ y ∷ rest) ≡ true) e sat) nt))
          ]
    ]
