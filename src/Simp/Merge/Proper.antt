-- ===== src/Simp/Merge/Proper.antt =====
-- The resolvent of two clauses with no variable twice has none twice, and does not mention `v`.
use glucose.Prelude.{
  ◌≡◌, ◌≢◌, ◌⊎◌, inl, inr, some, List, [], ◌∷◌, ◌++◌, arith, ltb, Bool-cases, Option-cases,
}
use glucose.Prelude.Lists.{All, length}
use mathlib.Core.Path.{subst}
use glucose.Lit.{Lit, Var, var}
use glucose.Simp.Merge.{absent, scan, collect, without, resolve, merge}
use glucose.Simp.Merge.Size.{Avoids, IsProper}

Avoids-append : (v : Var) (c d : List Lit) → Avoids v c → Avoids v d → Avoids v (c ++ d)
Avoids-append v [] d h k = k
Avoids-append v (p ∷ c) d h k = (h.0, Avoids-append v c d h.1 k)

Avoids-without : (w v : Var) (c : List Lit) → Avoids w c → Avoids w (without v c)
unfolding without
Avoids-without w v [] h = tt
Avoids-without w v (p ∷ c) h = ground (arith, Avoids-without w v c h.1, h.0)

pub without-Avoids_self : (v : Var) (c : List Lit) → Avoids v (without v c)
unfolding without
without-Avoids_self v [] = tt
without-Avoids_self v (p ∷ c) = ground (arith, without-Avoids_self v c)

without-IsProper : (v : Var) (c : List Lit) → IsProper c → IsProper (without v c)
unfolding without
without-IsProper v [] h = tt
without-IsProper v (p ∷ c) h =
    ground (arith, without-IsProper v c h.1, Avoids-without (var p) v c h.0)

scan-absent : (q : Lit) (ps : List Lit) → scan q ps ≡ absent → Avoids (var q) ps
unfolding scan
scan-absent q [] e = tt
scan-absent q (p ∷ ps) e = ground (arith, scan-absent q ps)

-- Each literal is on a variable that `c` avoids.
abbrev Apart : List Lit → List Lit → Type 0
Apart d c = All (λ p. Avoids (var p) c) d

IsProper-append : (c d : List Lit) → IsProper c → IsProper d → Apart c d → IsProper (c ++ d)
IsProper-append [] d h k s = k
IsProper-append (p ∷ c) d h k s = (Avoids-append (var p) c d h.0 s.0, IsProper-append c d h.1 k s.1)

-- What the loop does with one literal.
collect_inv :
    (ps : List Lit) (v : Var) (q : Lit) (qs out : List Lit)
    → collect ps v (q ∷ qs) ≡ some out
    → (rest : List Lit) × (collect ps v qs ≡ some rest)
      × ((out ≡ rest) ⊎ ((out ≡ q ∷ rest) × (var q ≢ v) × (scan q ps ≡ absent)))
unfolding collect
collect_inv ps v q qs out e = elim (Option-cases (collect ps v qs)) [
  | inl miss ↦ absurd (ground arith)
  | inr (rest, hit) ↦ (rest, hit, ground arith)
]

-- What holds of the clause that the loop has pushed.
record Collected (ps : List Lit) (v : Var) (qs out : List Lit) : Type 0 where
  within : (w : Var) → Avoids w qs → Avoids w out
  avoids : Avoids v out
  apart : Apart out (without v ps)
  proper : IsProper out

extend_Collected :
    (ps : List Lit) (v : Var) (q : Lit) (qs rest : List Lit)
    → Avoids (var q) qs
    → Collected ps v qs rest
    → var q ≢ v
    → scan q ps ≡ absent
    → Collected ps v (q ∷ qs) (q ∷ rest)
extend_Collected ps v q qs rest h c n e = record {
  within = λ w k. (k.0, c.within w k.1);
  avoids = (n, c.avoids);
  apart = (Avoids-without (var q) v ps (scan-absent q ps e), c.apart);
  proper = (c.within (var q) h, c.proper);
}

skip_Collected :
    (ps : List Lit) (v : Var) (q : Lit) (qs rest : List Lit)
    → Collected ps v qs rest
    → Collected ps v (q ∷ qs) rest
skip_Collected ps v q qs rest c = record {
  within = λ w k. c.within w k.1;
  avoids = c.avoids;
  apart = c.apart;
  proper = c.proper;
}

collect-Collected :
    (ps : List Lit) (v : Var) (qs out : List Lit)
    → IsProper qs
    → collect ps v qs ≡ some out
    → Collected ps v qs out
unfolding collect
collect-Collected ps v [] out h e =
    let nil : [] ≡ out = ground arith in
    subst (Collected ps v []) nil
      (record { within = λ w k. tt; avoids = tt; apart = tt; proper = tt })
collect-Collected ps v (q ∷ qs) out h e =
    let (rest, hit, cases) = collect_inv ps v q qs out e in
    let c = collect-Collected ps v qs rest h.1 hit in
    elim cases [
      | inl same ↦ rw same (skip_Collected ps v q qs rest c)
      | inr (more, n, a) ↦ rw more (extend_Collected ps v q qs rest h.0 c n a)
    ]

resolve-IsProper :
    (ps qs : List Lit) (v : Var) (out : List Lit)
    → IsProper ps
    → IsProper qs
    → resolve ps qs v ≡ some out
    → IsProper out × Avoids v out
unfolding resolve
resolve-IsProper ps qs v out hp hq e = elim (Option-cases (collect ps v qs)) [
  | inl miss ↦ absurd (ground arith)
  | inr (rest, hit) ↦
      let c = collect-Collected ps v qs rest hq hit in
      let whole : out ≡ rest ++ without v ps = ground arith in
      rw whole (
        IsProper-append rest (without v ps) c.proper (without-IsProper v ps hp) c.apart,
        Avoids-append v rest (without v ps) c.avoids (without-Avoids_self v ps),
      )
]

-- The resolvent of two clauses that mention no variable twice mentions no variable twice, and does
-- not mention `v`.
pub merge-IsProper :
    (ps qs : List Lit) (v : Var) (out : List Lit)
    → IsProper ps
    → IsProper qs
    → merge ps qs v ≡ some out
    → IsProper out × Avoids v out
unfolding merge
merge-IsProper ps qs v out hp hq e = elim (Bool-cases (ltb (length ps) (length qs))) [
  | inl swapped ↦ resolve-IsProper qs ps v out hq hp (rw swapped at e)
  | inr kept ↦ resolve-IsProper ps qs v out hp hq (rw kept at e)
]
