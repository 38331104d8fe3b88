-- ===== src/Simp/Merge/Size.antt =====
-- The second `merge` predicts the size of the first one's clause, and keeps clauses well formed.
use glucose.Prelude.{
  ℕ, ◌+◌, ◌-◌, ◌≡◌, refl, ap, ◌∙◌, ◌≢◌, inl, inr, List, [], ◌∷◌, arith, Option-cases,
}
use mathlib.Core.Option
use glucose.Prelude.Lists.{length, length-append, All, In, All-In}
use glucose.Lit.{Lit, Var, var}
use glucose.Simp.Merge.{collect, without, resolve, merge, count_loop, merge_size}

-- No literal of the clause is on `v`.
abbrev pub Avoids : Var → List Lit → Type 0
Avoids v c = All (λ p. var p ≢ v) c

-- No two literals of the clause are on one variable.
abbrev pub IsProper : List Lit → Type 0
IsProper [] = Unit
IsProper (p ∷ c) = Avoids (var p) c × IsProper c

count_loop-collect :
    (ps : List Lit) (v : Var) (qs : List Lit) (size : ℕ)
    → count_loop ps v qs size ≡ Option.map (λ out. length out + size) (collect ps v qs)
unfolding count_loop collect
count_loop-collect ps v [] size = ground arith
count_loop-collect ps v (q ∷ qs) size = elim (Option-cases (collect ps v qs)) [
  | inl miss ↦
      ground (arith, miss, count_loop-collect ps v qs size, count_loop-collect ps v qs (size + 1))
  | inr (rest, hit) ↦
      ground (arith, hit, count_loop-collect ps v qs size, count_loop-collect ps v qs (size + 1))
]

pub without-Avoids : (v : Var) (c : List Lit) → Avoids v c → without v c ≡ c
unfolding without
without-Avoids v [] h = refl
without-Avoids v (p ∷ c) h = ground (arith, without-Avoids v c, h.0)

-- A proper clause that mentions `v` loses one literal.
length-without :
    (v : Var) (c : List Lit) (p : Lit)
    → IsProper c
    → In p c
    → var p ≡ v
    → length (without v c) + 1 ≡ length c
unfolding without
length-without v [] p h m e = absurd m
length-without v (q ∷ c) p h (inl same) e =
    ground (arith, ap var same, without-Avoids v c, h.0, rw (ap var same ∙ e) at h.0)
length-without v (q ∷ c) p h (inr m) e =
    ground (arith, length-without v c p h.1 m e, All-In (λ r. var r ≢ var q) c h.0 m)

resolve-length :
    (ps : List Lit) (v : Var) (qs : List Lit) (p : Lit)
    → IsProper ps
    → In p ps
    → var p ≡ v
    → count_loop ps v qs (length ps - 1) ≡ Option.map length (resolve ps qs v)
unfolding resolve
resolve-length ps v qs p h m e =
    let size = length-without v ps p h m e in
    let counted = count_loop-collect ps v qs (length ps - 1) in
    elim (Option-cases (collect ps v qs)) [
      | inl miss ↦ ground (arith, counted)
      | inr (rest, hit) ↦ ground (arith, counted, size, length-append rest (without v ps))
    ]

-- For two clauses that mention `v` and no variable twice, the second `merge` returns false where
-- the first one does, and otherwise sets `size` to the length of the first one's clause.
pub merge_size-merge :
    (ps qs : List Lit) (v : Var) (p q : Lit)
    → IsProper ps
    → IsProper qs
    → In p ps
    → In q qs
    → var p ≡ v
    → var q ≡ v
    → merge_size ps qs v ≡ Option.map length (merge ps qs v)
unfolding merge merge_size
merge_size-merge ps qs v p q hp hq mp mq ep eq =
    ground (arith, resolve-length ps v qs p hp mp ep, resolve-length qs v ps q hq mq eq)
