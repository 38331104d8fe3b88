-- ===== src/Simp/Eliminate/Repair.antt =====
-- The blocks that one elimination pushes, and the value of `v` that they leave.
use mathlib.Core.Path.{fun_ext}
use mathlib.Core.List.{append_assoc}
use glucose.Prelude.{
  ◌≡◌, refl, sym, ap, ◌∙◌, inl, inr, Bool, false, not, ◌||◌, List, [], ◌∷◌, ◌++◌, arith,
  if◌then◌else◌, Bool-cases, update, xor,
}
use glucose.Prelude.Lists.{In, All}
use glucose.Lit.{Lit, Var, neg, var, sign}
use glucose.Lit.Laws.{var-neg, sign-neg}
use glucose.Lit.Truth.{Assignment, satisfies, holds-update_ne}
use glucose.Simp.Merge.{without}
use glucose.Simp.Merge.Size.{Avoids, IsProper}
use glucose.Simp.Merge.Proper.{without-Avoids_self}
use glucose.Simp.Stack.{push_unit}
use glucose.Simp.Stack.Extend.{Block, words, repair, repair_all}
use glucose.Simp.Stack.Front.{Stores, push_clause-Stores}
use glucose.Simp.Eliminate.{Clause, push_clauses}

pub satisfies-update :
    (a : Assignment) (v : Var) (b : Bool) (c : Clause)
    → Avoids v c
    → satisfies (update a v b) c ≡ satisfies a c
satisfies-update a v b [] h = refl
satisfies-update a v b (p ∷ c) h =
    ground (arith, holds-update_ne a v b p (λ e. h.0 (sym e)), satisfies-update a v b c h.1)

-- Some clause has no true literal but that of `v`.
abbrev pub fires : Assignment → Var → List Clause → Bool
fires a v [] = false
fires a v (c ∷ cs) = not (satisfies a (without v c)) || fires a v cs

fires-update :
    (a : Assignment) (v : Var) (b : Bool) (cs : List Clause)
    → fires (update a v b) v cs ≡ fires a v cs
fires-update a v b [] = refl
fires-update a v b (c ∷ cs) =
    ground
      (arith, satisfies-update a v b (without v c) (without-Avoids_self v c), fires-update a v b cs)

update-update : (a : Assignment) (v : Var) (b c : Bool) → update (update a v b) v c ≡ update a v c
update-update a v b c = fun_ext λ w. ground arith

-- The assignment that makes `l` true if some clause fires.
abbrev pub settle : Assignment → Lit → List Clause → Assignment
settle a l cs = if fires a (var l) cs then update a (var l) (not (sign l)) else a

repair_all-append :
    (a : Assignment) (bs : List Block) (b : Block)
    → repair_all a (bs ++ b ∷ []) ≡ repair (repair_all a bs) b
repair_all-append a [] b = refl
repair_all-append a (c ∷ bs) b = repair_all-append (repair a c) bs b

satisfies-settle :
    (a : Assignment) (l : Lit) (cs : List Clause) (c : Clause)
    → Avoids (var l) c
    → satisfies (settle a l cs) c ≡ satisfies a c
satisfies-settle a l cs c h = elim (Bool-cases (fires a (var l) cs)) [
  | inl f ↦ rw f (satisfies-update a (var l) (not (sign l)) c h)
  | inr n ↦ rw n refl
]

repair-settle :
    (a : Assignment) (l : Lit) (c : Clause) (cs : List Clause) (b : Block)
    → Stores (var l) l c b
    → repair (settle a l cs) b ≡ settle a l (c ∷ cs)
repair-settle a l c cs b s =
    rw (satisfies-settle a l cs b.1 s.rest_avoids, s.rest_truth a, s.first)
      (elim (Bool-cases (satisfies a (without (var l) c))) [
        | inl t ↦ rw t refl
        | inr f ↦ rw f (elim (Bool-cases (fires a (var l) cs)) [
          | inl again ↦ rw again (update-update a (var l) (not (sign l)) (not (sign l)))
          | inr once ↦ rw once refl
        ])
      ])

-- Pushing clauses that contain `l` pushes blocks that make `l` true if some clause needs it.
pub push_clauses-repairs :
    (bs : List Block) (l : Lit) (cs : List Clause)
    → All (λ c. IsProper c × In l c) cs
    → (new : List Block) × (push_clauses (words bs) (var l) cs ≡ words (new ++ bs))
      × ((a : Assignment) → repair_all a new ≡ settle a l cs)
unfolding push_clauses
push_clauses-repairs bs l [] h = ([], refl, λ a. refl)
push_clauses-repairs bs l (c ∷ cs) h =
    let (b, pushed, s) = push_clause-Stores bs (var l) c l h.0.0 h.0.1 refl in
    let (new, more, r) = push_clauses-repairs (b ∷ bs) l cs h.1 in
    (
      new ++ b ∷ [],
      ap (λ e. push_clauses e (var l) cs) pushed
          ∙ more
          ∙ ap words (sym (append_assoc new (b ∷ []) bs)),
      λ a. repair_all-append a new b ∙ ap (λ x. repair x b) (r a) ∙ repair-settle a l c cs b s,
    )

settle-default :
    (a : Assignment) (l : Lit) (cs : List Clause)
    → settle (update a (var (neg l)) (not (sign (neg l)))) l cs
      ≡ update a (var l) (xor (fires a (var l) cs) (sign l))
settle-default a l cs =
    rw (var-neg l, sign-neg l, fires-update a (var l) (not (not (sign l))) cs)
      (elim (Bool-cases (fires a (var l) cs)) [
        | inl f ↦ rw f (update-update a (var l) (not (not (sign l))) (not (sign l)))
        | inr n ↦ rw n (ap (update a (var l)) (ground arith))
      ])

-- The value of `l` that the default and the stored clauses of the other side leave.
pub push_unit-repairs :
    (bs : List Block) (l : Lit) (cs : List Clause)
    → All (λ c. IsProper c × In l c) cs
    → (new : List Block) × (push_unit (push_clauses (words bs) (var l) cs) (neg l)
        ≡ words (new ++ bs))
      × ((a : Assignment) → repair_all a new ≡ update a (var l) (xor (fires a (var l) cs) (sign l)))
unfolding push_unit
push_unit-repairs bs l cs h =
    let (new, pushed, r) = push_clauses-repairs bs l cs h in
    ((neg l, []) ∷ new, ap (λ e. 1 ∷ neg l ∷ e) pushed, λ a. r _ ∙ settle-default a l cs)
