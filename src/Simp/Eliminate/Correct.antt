-- ===== src/Simp/Eliminate/Correct.antt =====
-- A model of the clauses that an elimination leaves, repaired, is a model of the clauses before it.
use glucose.Prelude.{
  ◌≡◌, refl, sym, ap, ◌∙◌, inl, inr, Bool, true, false, not, ◌||◌, List, [], ◌∷◌, arith, ==_refl,
  Bool-cases, Option-cases, update, xor,
}
use mathlib.Core.Path.{subst}
use glucose.Prelude.Lists.{In, All, In-All, All-In, All-split}
use glucose.Lit.{Lit, Var, mk_lit, neg, var, sign}
use glucose.Lit.Laws.{same_var, var-mk_lit}
use glucose.Lit.Truth.{Assignment, holds, satisfies, holds-neg, satisfies-In, holds-update_ne}
use glucose.Simp.Merge.{without, merge}
use glucose.Simp.Merge.Size.{Avoids, IsProper}
use glucose.Simp.Merge.Sound.{merge_resolves}
use glucose.Simp.Eliminate.Repair.{fires}
use glucose.Simp.Eliminate.{Clause, find, mentions, keep, resolvents_with, resolvents}

-- Every clause holds.
abbrev pub Models : Assignment → List Clause → Type 0
Models a = All (λ c. satisfies a c ≡ true)

pub find-In : (c : Clause) (p : Lit) → find c p ≡ true → In p c
unfolding find
find-In [] p h = cc
find-In (q ∷ c) p h = ground (arith, find-In c p)

-- A clause that mentions `v`, and not as the positive literal, has the negative one.
pub mentions-In :
    (v : Var) (c : Clause)
    → mentions v c ≡ true
    → find c (mk_lit v false) ≡ false
    → In (neg (mk_lit v false)) c
unfolding mentions find
mentions-In v [] h k = cc
mentions-In v (q ∷ c) h k =
    ground (arith, mentions-In v c, same_var q (mk_lit v false), var-mk_lit v false)

pub mentions-Avoids : (v : Var) (c : Clause) → mentions v c ≡ false → Avoids v c
unfolding mentions
mentions-Avoids v [] h = tt
mentions-Avoids v (q ∷ c) h = ground (arith, mentions-Avoids v c)

pub keep-All :
    {P Q : Clause → Type 0} (f : Clause → Bool) (cs : List Clause)
    → ((c : Clause) → f c ≡ true → P c → Q c)
    → All P cs
    → All Q (keep f cs)
unfolding keep
keep-All f [] h k = tt
keep-All f (c ∷ cs) h k = elim (Bool-cases (f c)) [
  | inl t ↦ rw t (h c t k.0, keep-All f cs h k.1)
  | inr n ↦ rw n (keep-All f cs h k.1)
]

satisfies-without :
    (a : Assignment) (v : Var) (b : Bool) (c : Clause)
    → satisfies a (without v c) ≡ true
    → satisfies (update a v b) c ≡ true
unfolding without
satisfies-without a v b [] h = h
satisfies-without a v b (q ∷ c) h =
    ground (arith, satisfies-without a v b c, holds-update_ne a v b q)

fires-In :
    (a : Assignment) (v : Var) (c : Clause) (cs : List Clause)
    → In c cs
    → satisfies a (without v c) ≡ false
    → fires a v cs ≡ true
fires-In a v c [] m h = absurd m
fires-In a v c (d ∷ cs) (inl e) h = rw (e, h)
fires-In a v c (d ∷ cs) (inr m) h = ground (arith, fires-In a v c cs m h)

fires_inv :
    (a : Assignment) (v : Var) (cs : List Clause)
    → fires a v cs ≡ true
    → (c : Clause) × In c cs × (satisfies a (without v c) ≡ false)
fires_inv a v [] h = cc
fires_inv a v (d ∷ cs) h = elim (Bool-cases (satisfies a (without v d))) [
  | inl t ↦ let (c, m, f) = fires_inv a v cs (ground arith) in (c, inr m, f)
  | inr f ↦ (d, inl refl, f)
]

-- The pair is satisfied whatever `v` is.
abbrev pub Resolved : Assignment → Var → List Clause → List Clause → Type 0
Resolved a v cs ds =
    (c d : Clause)
    → In c cs
    → In d ds
    → (satisfies a (without v c) || satisfies a (without v d)) ≡ true

module _ (a : Assignment) (l : Lit) (cs ds : List Clause) where
  abbrev pub settled : Assignment
  settled = update a (var l) (xor (fires a (var l) cs) (sign l))

  settled-holds : holds settled l ≡ fires a (var l) cs
  unfolding holds
  settled-holds = rw (==_refl (var l)) (ground arith)

  pub stored-hold : All (λ c. IsProper c × In l c) cs → Models settled cs
  stored-hold h = In-All cs λ c m. elim (Bool-cases (satisfies a (without (var l) c))) [
    | inl t ↦ satisfies-without a (var l) _ c t
    | inr f ↦
        satisfies-In settled c l ((All-In (λ c. IsProper c × In l c) cs h m).1)
          (settled-holds ∙ fires-In a (var l) c cs m f)
  ]

  pub others-hold : Resolved a (var l) cs ds → All (In (neg l)) ds → Models settled ds
  others-hold r h = In-All ds λ d m. elim (Bool-cases (fires a (var l) cs)) [
    | inl f ↦
        let (c, n, k) = fires_inv a (var l) cs f in
        satisfies-without a (var l) _ d (ground (arith, r c d n m))
    | inr f ↦
        satisfies-In settled d (neg l) (All-In (In (neg l)) ds h m)
          (holds-neg settled l ∙ ap not (settled-holds ∙ f))
  ]

-- The resolvents hold exactly if each pair does.
resolvents_with-Resolved :
    (a : Assignment) (v : Var) (p : Clause) (ns : List Clause)
    → Models a (resolvents_with v p ns)
    → (n : Clause) → In n ns
    → (satisfies a (without v p) || satisfies a (without v n)) ≡ true
unfolding resolvents_with
resolvents_with-Resolved a v p [] h n m = absurd m
resolvents_with-Resolved a v p (x ∷ ns) h n m = elim (Option-cases (merge p x v)) [
  | inl clash ↦ elim m [
    | inl same ↦
        subst (λ n. (satisfies a (without v p) || satisfies a (without v n)) ≡ true) same
          ((merge_resolves p x v a).0 clash)
    | inr more ↦ resolvents_with-Resolved a v p ns (rw (clash, resolvents_with) at h) n more
  ]
  | inr (out, e) ↦
      let k : Models a (out ∷ resolvents_with v p ns) = rw (e, resolvents_with) at h in
      elim m [
        | inl same ↦
            subst (λ n. (satisfies a (without v p) || satisfies a (without v n)) ≡ true) same
              (sym ((merge_resolves p x v a).1 out e) ∙ k.0)
        | inr more ↦ resolvents_with-Resolved a v p ns k.1 n more
      ]
]

pub resolvents-Resolved :
    (a : Assignment) (v : Var) (ps ns : List Clause)
    → Models a (resolvents v ps ns)
    → Resolved a v ps ns
unfolding resolvents
resolvents-Resolved a v [] ns h c d m k = absurd m
resolvents-Resolved a v (p ∷ ps) ns h c d (inl same) k =
    subst (λ c. (satisfies a (without v c) || satisfies a (without v d)) ≡ true) same
      (resolvents_with-Resolved a v p ns
        ((All-split (λ c. satisfies a c ≡ true) (resolvents_with v p ns) _ h).0) d k)
resolvents-Resolved a v (p ∷ ps) ns h c d (inr m) k =
    resolvents-Resolved a v ps ns
      ((All-split (λ c. satisfies a c ≡ true) (resolvents_with v p ns) _ h).1) c d m k
